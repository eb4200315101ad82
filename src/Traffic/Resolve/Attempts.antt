-- ===== src/Traffic/Resolve/Attempts.antt =====
-- The candidates that internal/traffic/runtime.go gives the retry loop of a request.
use mathlib.Core.Logic.{∥∥₁_elim}
use mathlib.Core.List.{Perm, Permᴰ}
use native.Mathlib.Nat.{ℕ_set}
use flux_mesh.Base.{
  ℕ, zero, suc, ◌+◌, ◌%◌, ◌≤◌, ◌<◌, Bool, false, not, Option, some, List, [], ◌∷◌, ◌++◌, map, keep,
  length, get_or, take, drop, Str, str_eq, trim_space, is_empty, ok, ◌≡◌, refl, sym, ap, ◌∙◌, inl,
  inr, arith, Bool-cases,
}
use mathlib.Core.Path.{ap₂}
use flux_mesh.Base.Dict
use flux_mesh.Model.Service.{BackendTarget, BackendGroup}
use flux_mesh.Traffic.Floats.{Floats}
use flux_mesh.Traffic.Balancer.{Draws, PlanState, Registry}
use flux_mesh.Traffic.Plan.{Plan, is_relay_target}
use flux_mesh.Traffic.Resolve.{
  Net, cycle, repeat_addrs, ordered_backend_targets, backend_candidates_for_attempts,
  resolve_destinations_for_attempts, strategy_of,
}
use flux_mesh.Traffic.Resolve.Order.{Shuffles, direct_of, relay_of, ordered_backend_targets-Perm}

module _ {A : Type 0} where
  get_or-drop : (xs rest : List A) (i : ℕ) (a d : A) → drop i xs ≡ a ∷ rest → get_or xs i d ≡ a
  get_or-drop [] rest zero a d e = cc
  get_or-drop [] rest (suc i) a d e = cc
  get_or-drop (x ∷ xs) rest zero a d e = cc
  get_or-drop (x ∷ xs) rest (suc i) a d e = get_or-drop xs rest i a d e

  drop-next : (xs rest : List A) (i : ℕ) (a : A) → drop i xs ≡ a ∷ rest → drop (suc i) xs ≡ rest
  drop-next [] rest zero a e = cc
  drop-next [] rest (suc i) a e = cc
  drop-next (x ∷ xs) rest zero a e = cc
  drop-next (x ∷ xs) rest (suc i) a e = drop-next xs rest i a e

  length_of_Permᴰ : {xs ys : List A} → Permᴰ xs ys → length xs ≡ length ys
  length_of_Permᴰ Permᴰ.nil = refl
  length_of_Permᴰ (Permᴰ.cons e p) = ap suc (length_of_Permᴰ p)
  length_of_Permᴰ (Permᴰ.swap e e') = refl
  length_of_Permᴰ (Permᴰ.trans p q) = length_of_Permᴰ p ∙ length_of_Permᴰ q

  length_of_Perm : (xs ys : List A) → Perm xs ys → length xs ≡ length ys
  length_of_Perm xs ys p = ∥∥₁_elim p (ℕ_set (length xs) (length ys)) length_of_Permᴰ

length-map_append :
    {A B : Type 0} (g : A → B) (xs ys : List A) → length (map g (xs ++ ys)) ≡ length xs + length ys
length-map_append g [] [] = refl
length-map_append g [] (y ∷ ys) = omega (arith, length-map_append g [] ys)
length-map_append g (x ∷ xs) ys = omega (arith, length-map_append g xs ys)

some_length : (ts : List BackendTarget) → is_empty ts ≡ false → 1 ≤ length ts
some_length [] e = cc
some_length (t ∷ ts) e = omega arith

length-split :
    (p : BackendTarget → Bool) (ts : List BackendTarget)
    → length (keep (λ t. not (p t)) ts) + length (keep p ts) ≡ length ts
length-split p [] = refl
length-split p (t ∷ ts) = elim (Bool-cases (p t)) [
  | inl y ↦ rw y (omega (arith, length-split p ts))
  | inr y ↦ rw y (omega (arith, length-split p ts))
]

module _ (f : Floats) where
  below : (i n : ℕ) → i < n → i % n ≡ i
  below i n lt = grind arith

  length-cycle : (addrs : List Str) (i n : ℕ) → length (cycle f addrs i n) ≡ n
  unfolding cycle
  length-cycle addrs i zero = refl
  length-cycle addrs i (suc n) = ap suc (length-cycle addrs (suc i) n)

  take-cycle_from :
      (addrs rest : List Str) (i n : ℕ)
      → drop i addrs ≡ rest
      → i + length rest ≡ length addrs
      → take (length rest) (cycle f addrs i n) ≡ take n rest
  unfolding cycle
  take-cycle_from addrs [] i zero d e = refl
  take-cycle_from addrs [] i (suc n) d e = refl
  take-cycle_from addrs (a ∷ rest) i zero d e = refl
  take-cycle_from addrs (a ∷ rest) i (suc n) d e =
      let small : i % length addrs ≡ i = below i (length addrs) (omega arith) in
      ap₂ ◌∷◌ (ap (λ k. get_or addrs k []) small ∙ get_or-drop addrs rest i a [] d)
        (take-cycle_from addrs rest (suc i) n (drop-next addrs rest i a d) (omega arith))

  take-cycle : (addrs : List Str) (n : ℕ) → take (length addrs) (cycle f addrs 0 n) ≡ take n addrs
  take-cycle addrs n = take-cycle_from addrs addrs 0 n refl (omega arith)

  -- The candidates of a destination that names a group.
  group_candidates :
      (registry : Registry f) (draws : Draws) (net : Net) (plan : Plan f) (raw : Str) (n : ℕ)
      (s : Option (PlanState f)) (group : BackendGroup)
      → is_empty (trim_space raw) ≡ false
      → Dict.get plan.backend_groups (trim_space raw) ≡ some group
      → is_empty group.targets ≡ false
      → (resolve_destinations_for_attempts f registry draws net plan raw (suc n) s).1
        ≡ repeat_addrs f group
            (ordered_backend_targets f draws
              (trim_space raw)
              group
              (strategy_of f plan (trim_space raw))
              s).1
            (suc n)
  unfolding resolve_destinations_for_attempts backend_candidates_for_attempts
  group_candidates registry draws net plan raw n s group full found some_target =
      rw (full, found, some_target) refl

  repeated :
      (group : BackendGroup) (addrs : List Str) (n : ℕ)
      → 1 ≤ length addrs
      → (l : List Str) × (repeat_addrs f group addrs n ≡ ok l)
        × (length l ≡ n)
        × (take (length addrs) l ≡ take n addrs)
  unfolding repeat_addrs
  repeated group [] n one = absurd (omega arith)
  repeated group (a ∷ addrs) n one =
      (cycle f (a ∷ addrs) 0 n, refl, length-cycle (a ∷ addrs) 0 n, take-cycle (a ∷ addrs) n)

  -- A destination that names a group with targets gives as many candidates as there are attempts,
  -- which are one or more. In some order there are the addresses of all the targets without a relay
  -- tag, then those of all the targets with one: the candidates start with as many of these as
  -- there are attempts for. A shuffle of the targets is a permutation of them.
  pub resolve_destinations_for_attempts-all_targets :
      (registry : Registry f) (draws : Draws) (net : Net) (plan : Plan f) (raw : Str) (n : ℕ)
      (s : Option (PlanState f)) (group : BackendGroup)
      → is_empty (trim_space raw) ≡ false
      → Dict.get plan.backend_groups (trim_space raw) ≡ some group
      → is_empty group.targets ≡ false
      → Shuffles draws
      → (l : List Str) × ((resolve_destinations_for_attempts f registry draws net plan raw
            (suc n)
            s).1
          ≡ ok l)
        × (length l ≡ suc n)
        × (first : List BackendTarget) × (last : List BackendTarget) × (take
              (length group.targets)
              l
            ≡ take (suc n) (map (λ t. t.addr) (first ++ last)))
        × Perm first (direct_of group.targets)
        × Perm last (relay_of group.targets)
  resolve_destinations_for_attempts-all_targets registry draws net plan raw n s group full found
        some_target shuffles =
      let name = trim_space raw in
      let strategy = strategy_of f plan name in
      let addrs = (ordered_backend_targets f draws name group strategy s).1 in
      let (first, last, e, p, q) =
        ordered_backend_targets-Perm f draws name group strategy s shuffles in
      let all : length addrs ≡ length group.targets =
        ap length e
        ∙ length-map_append (λ (t : BackendTarget). t.addr) first last
        ∙ ap₂ ◌+◌ (length_of_Perm first (direct_of group.targets) p)
            (length_of_Perm last (relay_of group.targets) q)
        ∙ length-split is_relay_target group.targets in
      let (l, r, len, t) =
        repeated group addrs (suc n) (omega (arith, some_length group.targets some_target)) in
      (
        l,
        group_candidates registry draws net plan raw n s group full found some_target ∙ r,
        len,
        first,
        last,
        ap (λ k. take k l) (sym all) ∙ t ∙ ap (take (suc n)) e,
        p,
        q,
      )
