-- ===== src/Traffic/Balancer.antt =====
-- internal/traffic/balancer.go: the strategies that pick a target of a backend group.
pub mod Weighted
pub mod RoundRobin
pub mod Order
use flux_mesh.Base.{
  ℕ, zero, suc, ◌+◌, ◌%◌, ◌^◌, ◌≤◌, ◌<◌, Bool, true, false, not, ◌&&◌, ◌||◌, Option, none, some,
  List, [], ◌∷◌, length, get_elem?, if◌then◌else◌, ◌==◌, leb, ltb, Result, ok, err, ℤ, pos, ◌+ℤ◌,
  ltb_ℤ, leb_ℤ, int_eq, Str, codes, str_eq, str_lt, trim_space, to_lower, is_empty, ◌≡◌,
}
use flux_mesh.Base.Dict
use flux_mesh.Base.Dict.{Dict}
use flux_mesh.Base.Sorting.{sort_stable}
use flux_mesh.Model.Service.{BackendTarget, BackendGroup}
use flux_mesh.Traffic.Floats.{Floats}

-- `index_panic` is a run-time panic, where Go indexes an empty list.
pub data BalanceError : Type 0 where
  no_targets : Str → BalanceError
  not_registered : Str → BalanceError
  invalid_total_weight : Str → BalanceError
  index_panic : BalanceError

pub data RegisterError : Type 0 where
  name_required implementation_required : RegisterError
  already_registered : Str → RegisterError

-- `planState` without its random source, which is a parameter of each call.
pub record PlanState (f : Floats) : Type 0 where
  pub rr_counters : Dict Str ℕ  -- uint64
  pub latency_ewma : Dict Str f.Float

-- What one call draws: `rng.Intn` and `rng.Shuffle`.
pub record Draws : Type 0 where
  pub intn : ℕ → ℕ
  pub shuffle : List BackendTarget → List BackendTarget

unfoldable pub normalize_lb_strategy : Str → Str
normalize_lb_strategy strategy =
    let s = to_lower (trim_space strategy) in
    if is_empty s
    then codes "load-first"
    else if s == codes "load-first" || s == codes "latency-first"
    then s
    else if s == codes "round-robin" || s == codes "rr"
    then codes "round-robin"
    else if s == codes "random" || s == codes "rand"
    then codes "random"
    else s

-- The target that `best = target` leaves after one round of load-first.
unfoldable pub heavier : BackendTarget → BackendTarget → BackendTarget
heavier best t =
    if ltb_ℤ best.weight t.weight
    then t
    else if t.weight == best.weight && str_lt t.addr best.addr
    then t
    else best

unfoldable pub load_first : BackendTarget → List BackendTarget → BackendTarget
unfolding heavier
load_first best [] = best
load_first best (t ∷ ts) = load_first (heavier best t) ts

unfoldable pub load_first_pick : List BackendTarget → Result BalanceError Str
unfolding load_first
load_first_pick [] = err index_panic
load_first_pick (t ∷ ts) = ok (load_first t ts).addr

unfoldable pub total_weight : ℤ → List BackendTarget → ℤ
total_weight total [] = total
total_weight total (t ∷ ts) = total_weight (total +ℤ t.weight) ts

-- The second loop of weightedRandomTarget; `last` is the address after the loop.
unfoldable pub weighted_scan : ℤ → ℤ → List BackendTarget → Str → Str
weighted_scan acc pick [] last = last
weighted_scan acc pick (t ∷ ts) last =
    let acc' = acc +ℤ t.weight in
    let rest = weighted_scan acc' pick ts t.addr in if ltb_ℤ pick acc' then t.addr else rest

unfoldable pub weighted_random_target : Draws → BackendGroup → Result BalanceError Str
unfolding total_weight weighted_scan
weighted_random_target draws group = elim group.targets [
  | [] ↦ err (invalid_total_weight group.name)
  | t ∷ ts ↦
      let total = total_weight (pos 0) (t ∷ ts) in
      let pick : ℕ = elim total [ pos n ↦ draws.intn n | _ ↦ 0 ] in
      if is_empty ts
      then ok t.addr
      else if leb_ℤ total (pos 0)
      then err (invalid_total_weight group.name)
      else ok (weighted_scan (pos 0) (pos pick) (t ∷ ts) [])
]

module _ (f : Floats) where
  abbrev pub new_plan_state : PlanState f
  new_plan_state = record { rr_counters = []; latency_ewma = [] }

  blended : Option (f.Float) → f.Float → f.Float
  blended none ms = ms
  blended (some prev) ms = f.blend prev ms

  -- `elapsed` is in nanoseconds; one that is not positive is left out.
  unfoldable pub observe_latency : Str → ℕ → PlanState f → PlanState f
  unfolding blended
  observe_latency upstream elapsed s =
      let key = trim_space upstream in
      let ms = f.of_nanoseconds elapsed in
      if is_empty key || leb elapsed 0 then s else record s {
        latency_ewma = Dict.put s.latency_ewma key (blended (Dict.get s.latency_ewma key) ms);
      }

  -- A missing counter reads as 0.
  abbrev pub counter_of : PlanState f → Str → ℕ
  counter_of s group = elim (Dict.get s.rr_counters group) [ none ↦ 0 | some n ↦ n ]

  unfoldable pub next_round_robin_index : Str → ℕ → Option (PlanState f) → Option (PlanState f) × ℕ
  next_round_robin_index group count none = (none, 0)
  next_round_robin_index group count (some s) =
      let cur = counter_of s group in
      let next = record s { rr_counters = Dict.put s.rr_counters group ((cur + 1) % 2 ^ 64) } in
      if leb count 1 then (some s, 0) else (some next, cur % count)

  abbrev pub latencies : Option (PlanState f) → Dict Str f.Float
  latencies none = []
  latencies (some s) = s.latency_ewma

  abbrev pub by_weight : BackendTarget → BackendTarget → Bool
  by_weight a b =
      if not (a.weight == b.weight) then ltb_ℤ b.weight a.weight else str_lt a.addr b.addr

  latency_less : Option f.Float → Option f.Float → Bool → Bool
  latency_less (some la) (some lb) rest = if not (f.equal la lb) then f.less la lb else rest
  latency_less (some la) none rest = true
  latency_less none (some lb) rest = false
  latency_less none none rest = rest

  unfoldable pub by_latency : Dict Str f.Float → BackendTarget → BackendTarget → Bool
  unfolding latency_less
  by_latency m a b = latency_less (Dict.get m a.addr) (Dict.get m b.addr) (by_weight a b)

  unfoldable pub sort_targets_by_latency_then_weight :
      List BackendTarget → Option (PlanState f) → List BackendTarget
  unfolding by_latency
  sort_targets_by_latency_then_weight targets s = sort_stable (by_latency (latencies s)) targets

  abbrev pub head_addr : List BackendTarget → Result BalanceError Str
  head_addr [] = err index_panic
  head_addr (t ∷ ts) = ok t.addr

  abbrev pub at_index : List BackendTarget → ℕ → Result BalanceError Str
  at_index ts i = elim (get_elem? ts i) [ none ↦ err index_panic | some t ↦ ok t.addr ]

  -- The interface `Balancer`; the random source is drawn from in each call.
  abbrev pub Balancer : Type 0
  Balancer =
      Draws
      → Str
      → BackendGroup
      → Option (PlanState f)
      → Option (PlanState f) × Result BalanceError Str

  unfoldable pub load_first_balancer : Balancer
  unfolding load_first_pick
  load_first_balancer draws name group s = (s, load_first_pick group.targets)

  unfoldable pub latency_first_balancer : Balancer
  unfolding sort_targets_by_latency_then_weight
  latency_first_balancer draws name group s =
      (s, head_addr (sort_targets_by_latency_then_weight group.targets s))

  unfoldable pub round_robin_balancer : Balancer
  unfolding next_round_robin_index
  round_robin_balancer draws name group s =
      let (s', i) = next_round_robin_index name (length group.targets) s in
      (s', at_index group.targets i)

  unfoldable pub random_balancer : Balancer
  unfolding weighted_random_target
  random_balancer draws name group s = (s, weighted_random_target draws group)

  -- `balancerRegistry`; a nil implementation is `none`.
  abbrev pub Registry : Type 0
  Registry = Dict Str Balancer

  unfoldable pub init_registry : Registry
  init_registry =
      (codes "load-first", load_first_balancer)
      ∷ (codes "latency-first", latency_first_balancer)
      ∷ (codes "round-robin", round_robin_balancer)
      ∷ (codes "random", random_balancer)
      ∷ []

  register : Str → Balancer → Registry → Option Balancer → Registry × Option RegisterError
  register strategy b r (some other) = (r, some (already_registered strategy))
  register strategy b r none = (Dict.put r strategy b, none)

  -- The name is empty after normalisation for no input, as in the source.
  unfoldable pub register_balancer :
      Str → Option Balancer → Registry → Registry × Option RegisterError
  unfolding register
  register_balancer name none r =
      if is_empty (normalize_lb_strategy name)
      then (r, some name_required)
      else (r, some implementation_required)
  register_balancer name (some b) r =
      let strategy = normalize_lb_strategy name in
      if is_empty strategy
      then (r, some name_required)
      else register strategy b r (Dict.get r strategy)

  pick_with :
      Draws
      → Str
      → BackendGroup
      → Str
      → Option (PlanState f)
      → Option Balancer
      → Option (PlanState f) × Result BalanceError Str
  pick_with draws name group strategy s none = (s, err (not_registered strategy))
  pick_with draws name group strategy s (some b) = b draws name group s

  unfoldable pub select_backend_target :
      Registry
      → Draws
      → Str
      → BackendGroup
      → Str
      → Option (PlanState f)
      → Option (PlanState f) × Result BalanceError Str
  unfolding pick_with
  select_backend_target r draws name group strategy s =
      let resolved = normalize_lb_strategy strategy in
      if is_empty group.targets
      then (s, err (no_targets group.name))
      else pick_with draws name group resolved s (Dict.get r resolved)
