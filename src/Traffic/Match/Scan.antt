-- ===== src/Traffic/Match/Scan.antt =====
-- The loop `bestRouteMatchSeed` of internal/traffic/runtime.go, on lists in different orders.
use flux_mesh.Base.{
  ℕ, Bool, true, false, not, List, [], ◌∷◌, ◌++◌, keep, nat_eq, ltb_ℤ, Str, has_prefix, ◌≡◌, refl,
  ap, ◌∙◌, arith, All, Bool-cases, inl, inr,
}
use flux_mesh.Traffic.Match.{
  ListenerKey, RouteBinding, Best, consider, score, best_route_match_seed,
}

module _ (listener : ListenerKey) (path : Str) (h' : ℕ) where
  abbrev pub scan : List RouteBinding → Best → Best
  scan rs b = best_route_match_seed listener rs path h' b

  pub scan-append : (xs ys : List RouteBinding) (b : Best) → scan (xs ++ ys) b ≡ scan ys (scan xs b)
  unfolding best_route_match_seed
  scan-append [] ys b = refl
  scan-append (x ∷ xs) ys b = scan-append xs ys (consider listener path h' b x)

  -- Routes that do not match the path can be left out.
  pub scan-keep :
      (p : RouteBinding → Bool) (rs : List RouteBinding) (b : Best)
      → All (λ r. p r ≡ false → has_prefix path r.path_prefix ≡ false) rs
      → scan (keep p rs) b ≡ scan rs b
  unfolding best_route_match_seed
  scan-keep p [] b all = refl
  scan-keep p (r ∷ rs) b all = elim (Bool-cases (p r)) [
    | inl y ↦ rw y (scan-keep p rs (consider listener path h' b r) all.1)
    | inr y ↦ rw (y, all.0 y) (scan-keep p rs b all.1)
  ]

  -- `r` is worse than each route of the list that matches.
  abbrev pub Below : RouteBinding → RouteBinding → Type 0
  Below r x =
      has_prefix path x.path_prefix ≡ true
      → has_prefix path r.path_prefix ≡ true
      → ltb_ℤ (score h' r) (score h' x) ≡ true

  consider_swap :
      (r x : RouteBinding) (b : Best)
      → Below r x
      → consider listener path h' (consider listener path h' b r) x
        ≡ consider listener path h' (consider listener path h' b x) r
  unfolding consider
  consider_swap r x b below = ground arith

  scan_move :
      (r : RouteBinding) (xs : List RouteBinding) (b : Best)
      → All (Below r) xs
      → scan (r ∷ xs) b ≡ scan (xs ++ r ∷ []) b
  unfolding best_route_match_seed
  scan_move r [] b all = refl
  scan_move r (x ∷ xs) b all =
      ap (scan xs) (consider_swap r x b all.0)
      ∙ scan_move r xs (consider listener path h' b x) all.1

  -- The routes that fail a test can be scanned last, if each is worse than those that pass it.
  module _ (G : RouteBinding → Type 0) (p : RouteBinding → Bool)
      (apart : (r x : RouteBinding) → G r → G x → p r ≡ false → p x ≡ true → Below r x) where
    Below-kept :
        (r : RouteBinding) (xs : List RouteBinding)
        → G r
        → p r ≡ false
        → All G xs
        → All (Below r) (keep p xs)
    Below-kept r [] g e h = tt
    Below-kept r (x ∷ xs) g e h = elim (Bool-cases (p x)) [
      | inl y ↦ rw y (apart r x g h.0 e y, Below-kept r xs g e h.1)
      | inr y ↦ rw y (Below-kept r xs g e h.1)
    ]

    pub scan_partition :
        (rs : List RouteBinding) (b : Best)
        → All G rs
        → scan rs b ≡ scan (keep (λ r. not (p r)) rs) (scan (keep p rs) b)
    unfolding best_route_match_seed
    scan_partition [] b h = refl
    scan_partition (x ∷ rs) b h = elim (Bool-cases (p x)) [
      | inl y ↦ rw y (scan_partition rs (consider listener path h' b x) h.1)
      | inr y ↦ rw y (
          scan_partition rs (consider listener path h' b x) h.1
          ∙ ap (scan (keep (λ r. not (p r)) rs)) (
              scan_move x (keep p rs) b (Below-kept x rs h.0 y h.1)
              ∙ scan-append (keep p rs) (x ∷ []) b))
    ]

  -- A second copy of a route right after the first has no effect.
  pub consider_twice :
      (r : RouteBinding) (b : Best)
      → consider listener path h' (consider listener path h' b r) r ≡ consider listener path h' b r
  unfolding consider
  consider_twice r b = ground arith
