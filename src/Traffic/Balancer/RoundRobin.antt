-- ===== src/Traffic/Balancer/RoundRobin.antt =====
-- The round-robin strategy of internal/traffic/balancer.go: whom consecutive calls pick.
use flux_mesh.Base.{
  ℕ, zero, suc, ◌+◌, ◌-◌, ◌%◌, ◌^◌, ◌≤◌, ◌<◌, Option, some, List, [], ◌∷◌, ◌++◌, map, length, take,
  drop, range_from, range_from-append, Result, ok, Str, str_eq, ◌≡◌, refl, sym, ap, ◌∙◌, arith,
}
use mathlib.Core.Path.{ap₂}
use mathlib.Core.List.{map-append}
use native.Mathlib.Nat.{mod-lt, zero-add, suc-add}
use native.Mathlib.Numerals.{one-add}
use flux_mesh.Base.Dict
use flux_mesh.Model.Service.{BackendTarget, BackendGroup}
use flux_mesh.Traffic.Floats.{Floats}
use flux_mesh.Traffic.Balancer.{
  BalanceError, PlanState, Draws, counter_of, next_round_robin_index, round_robin_balancer,
  at_index,
}

module _ (f : Floats) where
  -- The results of `n` picks in a row, and the state after them.
  unfoldable pub picks :
      Draws → Str → BackendGroup → ℕ → Option (PlanState f) → List (Result BalanceError Str)
  picks draws name group zero s = []
  picks draws name group (suc n) s =
      let (s', r) = round_robin_balancer f draws name group s in r ∷ picks draws name group n s'

  counter_next :
      (name : Str) (count : ℕ) (s : PlanState f)
      → 2 ≤ count
      → counter_of f s name + 1 < 2 ^ 64
      → (s' : PlanState f) × (next_round_robin_index f name count (some s)
          ≡ (some s', counter_of f s name % count))
        × (counter_of f s' name ≡ counter_of f s name + 1)
  unfolding next_round_robin_index
  counter_next name count s two room =
      let n = (counter_of f s name + 1) % 2 ^ 64 in
      (
        record s { rr_counters = Dict.put s.rr_counters name n },
        ground arith,
        ground (arith, Dict.get-put_self s.rr_counters name n),
      )

  picks-map :
      (draws : Draws) (name : Str) (group : BackendGroup) (n : ℕ) (s : PlanState f)
      → 2 ≤ length group.targets
      → counter_of f s name + n < 2 ^ 64
      → picks draws name group n (some s)
        ≡ map
            (λ i. at_index f group.targets (i % length group.targets))
            (range_from (counter_of f s name) n)
  unfolding picks round_robin_balancer
  picks-map draws name group zero s two room = refl
  picks-map draws name group (suc n) s two room =
      let (s', e, c) = counter_next name (length group.targets) s two (omega arith) in
      let ih = picks-map draws name group n s' two (omega arith) in
      let next : counter_of f s' name ≡ suc (counter_of f s name) = omega (arith, c) in
      let g = λ (i : ℕ). at_index f group.targets (i % length group.targets) in
      rw e (ap (◌∷◌ (g (counter_of f s name))) (ih ∙ ap (λ x. map g (range_from x n)) next))

map_shift :
    {A : Type 0} (g h : ℕ → A) (a b n : ℕ)
    → ((j : ℕ) → j < n → g (a + j) ≡ h (b + j))
    → map g (range_from a n) ≡ map h (range_from b n)
map_shift g h a b zero e = refl
map_shift g h a b (suc n) e =
    ap₂ ◌∷◌ (ap g (omega arith) ∙ e 0 (omega arith) ∙ ap h (omega arith)) (
      map_shift g h (suc a) (suc b) n
        (λ j lt. ap g (omega arith) ∙ e (suc j) (omega arith) ∙ ap h (omega arith)))

mod_wrap : (c m j : ℕ) → 0 < m → c % m + j < m → (c + j) % m ≡ c % m + j
mod_wrap c m j h lt = grind arith

mod_wrap_next : (c m j : ℕ) → 0 < m → j < c % m → (c + (m - c % m) + j) % m ≡ j
mod_wrap_next c m j h lt = grind arith

module _ (f : Floats) where
  abbrev pub ok_addr : BackendTarget → Result BalanceError Str
  ok_addr t = ok t.addr

  at_range :
      (ts : List BackendTarget) (a n : ℕ)
      → a + n ≤ length ts
      → map (at_index f ts) (range_from a n) ≡ map ok_addr (take n (drop a ts))
  at_range ts a zero h = refl
  at_range [] a (suc n) h = absurd (omega arith)
  at_range (t ∷ ts) zero (suc n) h = ap (◌∷◌ (ok_addr t)) (
      map_shift (at_index f (t ∷ ts)) (at_index f ts) 1 0 n (λ j lt. later j)
      ∙ at_range ts 0 n (omega arith))
    where
      later : (j : ℕ) → at_index f (t ∷ ts) (1 + j) ≡ at_index f ts (0 + j)
      later j = rw (zero-add, one-add) refl
  at_range (t ∷ ts) (suc a) (suc n) h =
      map_shift (at_index f (t ∷ ts)) (at_index f ts) (suc a) a (suc n) (λ j lt. rw suc-add refl)
      ∙ at_range ts a (suc n) (omega arith)

  take_all : (ts : List BackendTarget) (n : ℕ) → length ts ≤ n → take n ts ≡ ts
  take_all [] zero h = refl
  take_all [] (suc n) h = refl
  take_all (t ∷ ts) zero h = absurd (omega arith)
  take_all (t ∷ ts) (suc n) h = ap (◌∷◌ t) (take_all ts n (omega arith))

  length-drop : (n : ℕ) (ts : List BackendTarget) → length (drop n ts) ≡ length ts - n
  length-drop zero ts = omega arith
  length-drop (suc n) [] = omega arith
  length-drop (suc n) (t ∷ ts) = omega (arith, length-drop n ts)

  wrapped_range :
      (ts : List BackendTarget) (c : ℕ)
      → 1 ≤ length ts
      → let m = length ts in
        map (λ i. at_index f ts (i % m)) (range_from c m)
        ≡ map ok_addr (drop (c % m) ts ++ take (c % m) ts)
  wrapped_range ts c h =
      let m = length ts in
      let r = c % m in
      let g = λ (i : ℕ). at_index f ts (i % m) in
      let small : r < m = mod-lt c (omega arith) in
      ap (λ x. map g (range_from c x)) (m_split m r (omega arith))
      ∙ ap (map g) (range_from-append c (m - r) r)
      ∙ map-append g (range_from c (m - r)) (range_from (c + (m - r)) r)
      ∙ ap₂ ◌++◌
          (map_shift g (at_index f ts) c r (m - r)
              (λ j lt. ap (at_index f ts) (mod_wrap c m j (omega arith) (omega arith)))
            ∙ at_range ts r (m - r) (omega arith)
            ∙ ap (map ok_addr) (take_all (drop r ts) (m - r) (omega (arith, length-drop r ts))))
          (map_shift g (at_index f ts) (c + (m - r)) 0 r
              (λ j lt. ap (at_index f ts) (mod_wrap_next c m j (omega arith) lt ∙ omega arith))
            ∙ at_range ts 0 r (omega arith))
      ∙ sym (map-append ok_addr (drop r ts) (take r ts))
    where
      m_split : (m r : ℕ) → r ≤ m → m ≡ (m - r) + r
      m_split m r h = omega arith

  -- As many picks in a row as the group has targets, two or more, take each target exactly once:
  -- they run through the list from the target of the group's counter on, and go on at its start.
  -- The counter must not reach 2 ^ 64 on the way.
  pub picks_rotate :
      (draws : Draws) (name : Str) (group : BackendGroup) (s : PlanState f)
      → 2 ≤ length group.targets
      → counter_of f s name + length group.targets < 2 ^ 64
      → let start = counter_of f s name % length group.targets in
        picks f draws name group (length group.targets) (some s)
        ≡ map ok_addr (drop start group.targets ++ take start group.targets)
  picks_rotate draws name group s two room =
      picks-map f draws name group (length group.targets) s two room
      ∙ wrapped_range group.targets (counter_of f s name) (omega arith)
