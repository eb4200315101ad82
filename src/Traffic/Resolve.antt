-- ===== src/Traffic/Resolve.antt =====
-- internal/traffic/runtime.go: how a plan turns the destination of a route into addresses. The
-- packages net and url are parameters.
pub mod Rotation
pub mod Order
pub mod Attempts
use flux_mesh.Base.{
  ℕ, zero, suc, ◌+◌, ◌%◌, Bool, true, false, not, ◌&&◌, ◌||◌, Option, none, some, List, [], ◌∷◌,
  ◌++◌, map, length, get_elem?, get_or, replicate, range_from, keep, if◌then◌else◌, ◌==◌, Result,
  ok, err, ℤ, pos, leb_ℤ, Str, codes, str_eq, trim_space, is_empty,
}
use flux_mesh.Base.Dict
use flux_mesh.Base.Sorting.{sort_stable}
use flux_mesh.Model.Service.{BackendTarget, BackendGroup}
use flux_mesh.Traffic.Floats.{Floats}
use flux_mesh.Traffic.Balancer.{
  BalanceError, Draws, PlanState, Registry, normalize_lb_strategy, next_round_robin_index,
  sort_targets_by_latency_then_weight, by_weight, select_backend_target,
}
use flux_mesh.Traffic.Match.{ListenerKey}
use flux_mesh.Traffic.Plan.{Plan, is_relay_target, itoa_ℤ}

pub data ResolveError : Type 0 where
  attempts_not_positive destination_empty : ResolveError
  no_targets no_ordered_targets : Str → ResolveError
  unresolved : Str → ResolveError
  balance : BalanceError → ResolveError

-- What is used of the packages net and net/url: whether SplitHostPort accepts, whether a text
-- has "://", the scheme and the host of a URL that url.Parse accepts, and JoinHostPort.
pub record Net : Type 0 where
  pub splits : Str → Bool
  pub has_scheme : Str → Bool
  pub parse_url : Str → Option (Str × Str)
  pub join_host_port : Str → Str → Str

unfoldable pub is_direct_destination : Net → Str → Bool
is_direct_destination net destination =
    if net.splits destination
    then true
    else if net.has_scheme destination
    then elim (net.parse_url destination) [
      | none ↦ false
      | some u ↦
          not (not (u.0 == codes "http") && not (u.0 == codes "https") || is_empty (trim_space u.1))
    ]
    else false

unfoldable pub split_direct_and_relay_targets :
    List BackendTarget → List BackendTarget × List BackendTarget
split_direct_and_relay_targets [] = ([], [])
split_direct_and_relay_targets (t ∷ ts) =
    let (direct, relay) = split_direct_and_relay_targets ts in
    if is_relay_target t then (direct, t ∷ relay) else (t ∷ direct, relay)

-- The loop that rotates: the elements at start, start + 1, ... modulo the length.
unfoldable pub rotated : List BackendTarget → List BackendTarget → ℕ → ℕ → List BackendTarget
rotated all [] start i = []
rotated all (t ∷ ts) start i =
    get_or all ((start + i) % length all) t ∷ rotated all ts start (suc i)

unfoldable pub shuffle_backend_targets : Draws → List BackendTarget → List BackendTarget
shuffle_backend_targets draws [] = []
shuffle_backend_targets draws (t ∷ []) = t ∷ []
shuffle_backend_targets draws (t ∷ u ∷ ts) = draws.shuffle (t ∷ u ∷ ts)

module _ (f : Floats) where
  abbrev pub by_strategy :
      Draws
      → Str
      → List BackendTarget
      → Str
      → Option (PlanState f)
      → Option (PlanState f) × List BackendTarget
  by_strategy draws name targets resolved s =
      let (next, start) = next_round_robin_index f name (length targets) s in
      if resolved == codes "round-robin"
      then (next, rotated targets targets start 0)
      else if resolved == codes "random"
      then (s, shuffle_backend_targets draws targets)
      else if resolved == codes "latency-first"
      then (s, sort_targets_by_latency_then_weight f targets s)
      else (s, sort_stable (by_weight f) targets)

  unfoldable pub order_targets_by_strategy :
      Draws
      → Str
      → List BackendTarget
      → Str
      → Option (PlanState f)
      → Option (PlanState f) × List BackendTarget
  unfolding rotated shuffle_backend_targets
  order_targets_by_strategy draws name [] strategy s = (s, [])
  order_targets_by_strategy draws name (t ∷ ts) strategy s =
      by_strategy draws name (t ∷ ts) (normalize_lb_strategy strategy) s

  unfoldable pub ordered_backend_targets :
      Draws → Str → BackendGroup → Str → Option (PlanState f) → Option (PlanState f) × List Str
  unfolding order_targets_by_strategy split_direct_and_relay_targets
  ordered_backend_targets draws name group strategy s =
      let (direct, relay) = split_direct_and_relay_targets group.targets in
      let (s', first) =
        order_targets_by_strategy draws (name ++ codes "#direct") direct strategy s in
      let (s'', last) =
        order_targets_by_strategy draws (name ++ codes "#relay") relay strategy s' in
      (s'', map (λ t. t.addr) (first ++ last))

  -- The loop that repeats the ordered addresses until there are as many as attempts.
  unfoldable pub cycle : List Str → ℕ → ℕ → List Str
  cycle addrs i zero = []
  cycle addrs i (suc n) = get_or addrs (i % length addrs) [] ∷ cycle addrs (suc i) n

  repeat_addrs : BackendGroup → List Str → ℕ → Result ResolveError (List Str)
  unfolding cycle
  repeat_addrs group [] attempts = err (no_ordered_targets group.name)
  repeat_addrs group (a ∷ addrs) attempts = ok (cycle (a ∷ addrs) 0 attempts)

  unfoldable pub backend_candidates_for_attempts :
      Draws
      → Str
      → BackendGroup
      → Str
      → ℕ
      → Option (PlanState f)
      → Option (PlanState f) × Result ResolveError (List Str)
  unfolding repeat_addrs ordered_backend_targets
  backend_candidates_for_attempts draws name group strategy attempts s =
      let (s', addrs) = ordered_backend_targets draws name group strategy s in
      if is_empty group.targets
      then (s, err (no_targets group.name))
      else (s', repeat_addrs group addrs attempts)

  -- A missing strategy reads as the empty one.
  strategy_of : Plan f → Str → Str
  strategy_of plan name = elim (Dict.get plan.backend_strategy name) [ none ↦ [] | some s ↦ s ]

  loopback : Str → Str
  loopback addr = if addr == codes "0.0.0.0" then codes "127.0.0.1" else addr

  resolve_other : Net → Plan f → Str → Result ResolveError Str
  unfolding loopback is_direct_destination
  resolve_other net plan destination = elim (Dict.get plan.service_listeners destination) [
    | some key ↦ ok (net.join_host_port (loopback key.addr) (itoa_ℤ key.port))
    | none ↦
        if is_direct_destination net destination
        then ok destination
        else err (unresolved destination)
  ]

  from_balancer : Result BalanceError Str → Result ResolveError Str
  from_balancer (ok a) = ok a
  from_balancer (err e) = err (balance e)

  -- The state of the plan after the call and the address.
  unfoldable pub resolve_destination :
      Registry f
      → Draws
      → Net
      → Plan f
      → Str
      → Option (PlanState f)
      → Option (PlanState f) × Result ResolveError Str
  unfolding resolve_other from_balancer strategy_of
  resolve_destination registry draws net plan raw s =
      let destination = trim_space raw in
      if is_empty destination
      then (s, err destination_empty)
      else elim (Dict.get plan.backend_groups destination) [
        | some group ↦
            let (s', r) =
              select_backend_target f registry draws destination group
                (strategy_of plan destination) s in
            (s', from_balancer r)
        | none ↦ (s, resolve_other net plan destination)
      ]

  repeat_addr : ℕ → Result ResolveError Str → Result ResolveError (List Str)
  repeat_addr attempts (ok a) = ok (replicate attempts a)
  repeat_addr attempts (err e) = err e

  unfoldable pub resolve_destinations_for_attempts :
      Registry f
      → Draws
      → Net
      → Plan f
      → Str
      → ℕ
      → Option (PlanState f)
      → Option (PlanState f) × Result ResolveError (List Str)
  unfolding resolve_destination repeat_addr backend_candidates_for_attempts
  resolve_destinations_for_attempts registry draws net plan raw zero s =
      (s, err attempts_not_positive)
  resolve_destinations_for_attempts registry draws net plan raw (suc n) s =
      let destination = trim_space raw in
      let (s', r) = resolve_destination registry draws net plan destination s in
      if is_empty destination
      then (s, err destination_empty)
      else elim (Dict.get plan.backend_groups destination) [
        | some group ↦
            backend_candidates_for_attempts draws destination group (strategy_of plan destination)
              (suc n) s
        | none ↦ (s', repeat_addr (suc n) r)
      ]
