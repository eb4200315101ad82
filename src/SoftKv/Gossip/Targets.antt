-- ===== src/SoftKv/Gossip/Targets.antt =====
-- `normalizeJoinTargets` of internal/softkv/memberlist.go. The package net is a parameter: what
-- SplitHostPort returns (`none` for an error) and what JoinHostPort makes of its arguments.
use flux_mesh.Base.{
  true, false, ◌||◌, Option, none, some, List, [], ◌∷◌, if◌then◌else◌, ◌==◌, ℤ, pos, leb_ℤ,
  pos_part, Str, str_eq, str_lt, str_lt_asymm, str_lt_trans, str_lt_connex, str_beq_iff, trim_space,
  is_empty, itoa, ◌≡◌, inl, inr, arith, All, All-map, Bool-cases,
}
use flux_mesh.Base.Sorting.{IsWeakOrder, IsSorted, sort_stable, sort_stable-IsSorted}

-- slices.Compact: of equal neighbours the first is kept.
unfoldable pub compact : List Str → List Str
compact [] = []
compact (x ∷ []) = x ∷ []
compact (x ∷ y ∷ l) = let rest = compact (y ∷ l) in if x == y then rest else x ∷ rest

-- Each element is less than every later one.
abbrev pub IsAscending : List Str → Type 0
IsAscending [] = Unit
IsAscending (x ∷ l) = All (λ y. str_lt x y ≡ true) l × IsAscending l

str_lt-IsWeakOrder : IsWeakOrder str_lt
str_lt-IsWeakOrder = record {
  asymm = str_lt_asymm;
  not_trans = λ a b c h k.
      ground (arith, str_lt_trans c a b, str_lt_connex a b, str_lt_asymm a b, str_lt_trans a b c);
}

compact-All : (P : Str → Type 0) (l : List Str) → All P l → All P (compact l)
unfolding compact
compact-All P [] h = tt
compact-All P (x ∷ []) h = h
compact-All P (x ∷ y ∷ l) h = elim (Bool-cases (x == y)) [
  | inl p ↦ rw p (compact-All P (y ∷ l) h.1)
  | inr p ↦ rw p (h.0, compact-All P (y ∷ l) h.1)
]

below_rest :
    (x y : Str) (l : List Str)
    → (x == y) ≡ false
    → IsSorted str_lt (x ∷ y ∷ l)
    → All (λ z. str_lt x z ≡ true) (y ∷ l)
below_rest x y l ne h =
    let first : str_lt x y ≡ true = ground (arith, str_lt_connex x y, str_beq_iff x y, h.0.0) in
    (
      first,
      All-map _ _ l (λ z q. ground (arith, str_lt_trans x y z, str_lt_connex y z, first, q)) h.1.0,
    )

compact-IsAscending : (l : List Str) → IsSorted str_lt l → IsAscending (compact l)
unfolding compact
compact-IsAscending [] h = tt
compact-IsAscending (x ∷ []) h = (tt, tt)
compact-IsAscending (x ∷ y ∷ l) h = elim (Bool-cases (x == y)) [
  | inl p ↦ rw p (compact-IsAscending (y ∷ l) h.1)
  | inr p ↦ rw p (
    compact-All (λ z. str_lt x z ≡ true) (y ∷ l) (below_rest x y l p h),
    compact-IsAscending (y ∷ l) h.1,
  )
]

module _ (split_host_port : Str → Option (Str × Str)) (join_host_port : Str → Str → Str) where
  target_of : Str → Str → Option (Str × Str) → Option Str
  target_of raw port none = some (join_host_port raw port)
  target_of raw port (some (host, given)) =
      if is_empty (trim_space host) || is_empty (trim_space given)
      then none
      else some (join_host_port host given)

  abbrev consed : Option Str → List Str → List Str
  consed none l = l
  consed (some t) l = t ∷ l

  targets : Str → List Str → List Str
  unfolding target_of
  targets port [] = []
  targets port (a ∷ rest) =
      let raw = trim_space a in
      let more = targets port rest in
      if is_empty raw then more else consed (target_of raw port (split_host_port raw)) more

  unfoldable pub normalize_join_targets : List Str → ℤ → List Str
  unfolding targets compact
  normalize_join_targets addrs default_port =
      let port = if leb_ℤ default_port (pos 0) then 7946 else pos_part default_port in
      compact (sort_stable str_lt (targets (itoa port) addrs))

  -- The join targets come in ascending order, so none of them twice.
  pub normalize_join_targets-IsAscending :
      (addrs : List Str) (port : ℤ) → IsAscending (normalize_join_targets addrs port)
  unfolding normalize_join_targets
  normalize_join_targets-IsAscending addrs port =
      compact-IsAscending _ (sort_stable-IsSorted str_lt str_lt-IsWeakOrder _)
