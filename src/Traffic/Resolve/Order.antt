-- ===== src/Traffic/Resolve/Order.antt =====
-- The order in which internal/traffic/runtime.go tries the targets of a group.
use mathlib.Core.List.{Perm}
use mathlib.Core.List.Perm
use native.Mathlib.Nat.{mod-lt}
use flux_mesh.Base.{
  ℕ, ◌%◌, ◌≤◌, ◌<◌, not, Option, none, some, List, [], ◌∷◌, ◌++◌, map, keep, length, ◌==◌, leb, Str,
  codes, str_eq, ◌≡◌, refl, inl, inr, arith, Bool-cases,
}
use flux_mesh.Base.Sorting.{sort_stable-perm}
use flux_mesh.Model.Service.{BackendTarget, BackendGroup}
use flux_mesh.Traffic.Floats.{Floats}
use flux_mesh.Traffic.Balancer.{
  Draws, PlanState, counter_of, next_round_robin_index, sort_targets_by_latency_then_weight,
  by_weight, by_latency, normalize_lb_strategy,
}
use flux_mesh.Traffic.Plan.{is_relay_target}
use flux_mesh.Traffic.Resolve.{
  shuffle_backend_targets, order_targets_by_strategy, ordered_backend_targets, by_strategy,
  split_direct_and_relay_targets,
}
use flux_mesh.Traffic.Resolve.Rotation.{rotated-Perm}

-- rand.Shuffle only changes the order.
abbrev pub Shuffles : Draws → Type 0
Shuffles draws = (l : List BackendTarget) → Perm (draws.shuffle l) l

-- The targets that have a relay tag and those that have none, in the order of the group.
abbrev pub direct_of : List BackendTarget → List BackendTarget
direct_of = keep (λ t. not (is_relay_target t))

abbrev pub relay_of : List BackendTarget → List BackendTarget
relay_of = keep is_relay_target

split-keep :
    (ts : List BackendTarget) → split_direct_and_relay_targets ts ≡ (direct_of ts, relay_of ts)
unfolding split_direct_and_relay_targets
split-keep [] = refl
split-keep (t ∷ ts) = elim (Bool-cases (is_relay_target t)) [
  | inl y ↦ rw (y, split-keep ts) refl
  | inr y ↦ rw (y, split-keep ts) refl
]

shuffle-Perm :
    (draws : Draws) (ts : List BackendTarget)
    → Shuffles draws
    → Perm (shuffle_backend_targets draws ts) ts
unfolding shuffle_backend_targets
shuffle-Perm draws [] h = Perm.rfl
shuffle-Perm draws (t ∷ []) h = Perm.rfl
shuffle-Perm draws (t ∷ u ∷ ts) h = h (t ∷ u ∷ ts)

module _ (f : Floats) where
  index_small :
      (name : Str) (count : ℕ) (s : Option (PlanState f))
      → (next_round_robin_index f name count s).1 ≤ count
  unfolding next_round_robin_index
  index_small name count none = omega arith
  index_small name count (some s) = elim (Bool-cases (leb count 1)) [
    | inl y ↦ rw y (omega arith)
    | inr n ↦
        let pos : 1 ≤ count = ground arith in
        let lt : counter_of f s name % count < count = mod-lt (counter_of f s name) pos in
        rw n (omega (arith, lt))
  ]

  by_strategy-Perm :
      (draws : Draws) (name : Str) (ts : List BackendTarget) (resolved : Str)
      (s : Option (PlanState f))
      → Shuffles draws
      → Perm (by_strategy f draws name ts resolved s).1 ts
  unfolding sort_targets_by_latency_then_weight
  by_strategy-Perm draws name ts resolved s h =
      elim (Bool-cases (resolved == codes "round-robin")) [
        | inl y ↦ rw y (
            rotated-Perm ts (next_round_robin_index f name (length ts) s).1
              (index_small name (length ts) s))
        | inr n ↦ elim (Bool-cases (resolved == codes "random")) [
          | inl y ↦ rw (n, y) (shuffle-Perm draws ts h)
          | inr n' ↦ elim (Bool-cases (resolved == codes "latency-first")) [
            | inl y ↦ rw (n, n', y) (sort_stable-perm (by_latency f _) ts)
            | inr n'' ↦ rw (n, n', n'') (sort_stable-perm (by_weight f) ts)
          ]
        ]
      ]

  pub order_targets_by_strategy-Perm :
      (draws : Draws) (name : Str) (ts : List BackendTarget) (strategy : Str)
      (s : Option (PlanState f))
      → Shuffles draws
      → Perm (order_targets_by_strategy f draws name ts strategy s).1 ts
  unfolding order_targets_by_strategy
  order_targets_by_strategy-Perm draws name [] strategy s h = Perm.rfl
  order_targets_by_strategy-Perm draws name (t ∷ ts) strategy s h =
      by_strategy-Perm draws name (t ∷ ts) (normalize_lb_strategy strategy) s h

  -- Whatever the strategy, the addresses to try are those of all the targets of the group, each
  -- as often as the group has it: first the targets without a relay tag in some order, and only
  -- then those with one. The random source must give a permutation.
  pub ordered_backend_targets-Perm :
      (draws : Draws) (name : Str) (group : BackendGroup) (strategy : Str)
      (s : Option (PlanState f))
      → Shuffles draws
      → (first : List BackendTarget) × (last : List BackendTarget) × ((ordered_backend_targets f
            draws name group strategy s).1
          ≡ map (λ t. t.addr) (first ++ last))
        × Perm first (direct_of group.targets)
        × Perm last (relay_of group.targets)
  unfolding ordered_backend_targets
  ordered_backend_targets-Perm draws name group strategy s h =
      let first =
        order_targets_by_strategy f draws (name ++ codes "#direct") (direct_of group.targets)
          strategy s in
      let last =
        order_targets_by_strategy f draws (name ++ codes "#relay") (relay_of group.targets) strategy
          first.0 in
      (
        first.1,
        last.1,
        rw (split-keep group.targets) refl,
        order_targets_by_strategy-Perm draws (name ++ codes "#direct") (direct_of group.targets)
            strategy s h,
        order_targets_by_strategy-Perm draws (name ++ codes "#relay") (relay_of group.targets)
            strategy first.0 h,
      )
