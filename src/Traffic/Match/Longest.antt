-- ===== src/Traffic/Match/Longest.antt =====
-- Which route `bestRouteMatch` of internal/traffic/runtime.go returns.
use mathlib.Core.List.{Memᴰ}
use flux_mesh.Base.{
  ℕ, ◌<◌, true, false, Option, none, some, List, [], ◌∷◌, length, ◌⊎◌, pos, ◌+ℤ◌, ◌≤ℤ◌, ltb_ℤ, Str,
  has_prefix, ◌≡◌, refl, ◌∙◌, arith, inl, inr, All, All-at,
}
use flux_mesh.Traffic.Match.{
  ListenerKey, RouteBinding, MatchResult, Best, no_best, consider, result_of, score,
  best_route_match_seed, best_route_match, found_best,
}
use flux_mesh.Traffic.Match.Scan.{scan}
use flux_mesh.Traffic.Match.Index.{HasWeight}

-- `x` has a shorter path than `r`, or one as long and no more weight.
abbrev pub NotBetter : RouteBinding → RouteBinding → Type 0
NotBetter r x =
    (length x.path_prefix < length r.path_prefix)
    ⊎ ((length x.path_prefix ≡ length r.path_prefix) × (x.weight ≤ℤ r.weight))

module _ (listener : ListenerKey) (path : Str) (n : ℕ) where
  score_pos : (r : RouteBinding) → HasWeight r → ltb_ℤ (score n r) (pos 0) ≡ false
  unfolding score ◌+ℤ◌
  score_pos r w = ground arith

  not_better :
      (r x : RouteBinding)
      → HasWeight r
      → HasWeight x
      → ltb_ℤ (score n r) (score n x) ≡ false
      → NotBetter r x
  unfolding score ◌+ℤ◌
  not_better r x w v h = ground arith

  -- Nothing that has been scanned and matches scores more than what the loop holds.
  abbrev Covers : Best → RouteBinding → Type 0
  Covers b x = has_prefix path x.path_prefix ≡ true → ltb_ℤ b.best_score (score n x) ≡ false

  Covers-consider :
      (b : Best) (r x : RouteBinding) → Covers b x → Covers (consider listener path n b r) x
  unfolding consider
  Covers-consider b r x c m = ground (arith, c m)

  Covers-considered : (b : Best) (r : RouteBinding) → Covers (consider listener path n b r) r
  unfolding consider
  Covers-considered b r m = ground arith

  Covers-scan_earlier :
      (rs : List RouteBinding) (b : Best) (x : RouteBinding)
      → Covers b x
      → Covers (scan listener path n rs b) x
  unfolding best_route_match_seed
  Covers-scan_earlier [] b x c = c
  Covers-scan_earlier (r ∷ rs) b x c =
      Covers-scan_earlier rs (consider listener path n b r) x (Covers-consider b r x c)

  Covers-scan : (rs : List RouteBinding) (b : Best) → All (Covers (scan listener path n rs b)) rs
  unfolding best_route_match_seed
  Covers-scan [] b = tt
  Covers-scan (r ∷ rs) b = (
    Covers-scan_earlier rs (consider listener path n b r) r (Covers-considered b r),
    Covers-scan rs (consider listener path n b r),
  )

  -- What the loop holds is what it held before, or a route that it has scanned.
  abbrev Held : RouteBinding → Best
  Held r = record { best_score = score n r; best = some (result_of listener r) }

  abbrev From : List RouteBinding → Best → Best → Type 0
  From rs b c =
      (c ≡ b)
      ⊎ ((r : RouteBinding) × Memᴰ r rs × (has_prefix path r.path_prefix ≡ true) × (c ≡ Held r))

  consider-cases :
      (b : Best) (r : RouteBinding)
      → (consider listener path n b r ≡ b)
        ⊎ ((has_prefix path r.path_prefix ≡ true) × (consider listener path n b r ≡ Held r))
  unfolding consider
  consider-cases b r = ground arith

  From-scan : (rs : List RouteBinding) (b : Best) → From rs b (scan listener path n rs b)
  unfolding best_route_match_seed
  From-scan [] b = inl refl
  From-scan (r ∷ rs) b = elim (From-scan rs (consider listener path n b r)) [
    | inr (x, m, p, e) ↦ inr (x, Memᴰ.tail m, p, e)
    | inl same ↦ elim (consider-cases b r) [
      | inl kept ↦ inl (same ∙ kept)
      | inr (p, e) ↦ inr (r, Memᴰ.head refl, p, same ∙ e)
    ]
  ]

  -- No route matches, and there is no result; or the result is that of a route that matches, and
  -- no other route that matches is better: longer in its path, or as long with more weight.
  abbrev pub IsBestMatch : List RouteBinding → Option MatchResult → Type 0
  IsBestMatch rs none = All (λ x. has_prefix path x.path_prefix ≡ false) rs
  IsBestMatch rs (some m) =
      (r : RouteBinding) × Memᴰ r rs
      × (m ≡ result_of listener r)
      × (has_prefix path r.path_prefix ≡ true)
      × All (λ x. has_prefix path x.path_prefix ≡ true → NotBetter r x) rs

  all_unmatched :
      (rs : List RouteBinding)
      → All HasWeight rs
      → All (Covers no_best) rs
      → All (λ x. has_prefix path x.path_prefix ≡ false) rs
  unfolding score ◌+ℤ◌
  all_unmatched [] w c = tt
  all_unmatched (x ∷ rs) w c = (ground (arith, c.0), all_unmatched rs w.1 c.1)

  none_better :
      (r : RouteBinding) (rs : List RouteBinding)
      → HasWeight r
      → All HasWeight rs
      → All (Covers (Held r)) rs
      → All (λ x. has_prefix path x.path_prefix ≡ true → NotBetter r x) rs
  none_better r [] v w c = tt
  none_better r (x ∷ rs) v w c = ((λ m. not_better r x v w.0 (c.0 m)), none_better r rs v w.1 c.1)

  -- A request gets the route with the longest path that matches, and of those the one with the
  -- greatest weight; it gets none only if none matches. The weights must be from 1 to 100.
  pub best_route_match-IsBestMatch :
      (rs : List RouteBinding)
      → All HasWeight rs
      → IsBestMatch rs (best_route_match listener rs path n)
  unfolding best_route_match found_best
  best_route_match-IsBestMatch rs w =
      let covered = Covers-scan rs no_best in
      elim (From-scan rs no_best) [
        | inl e ↦ rw e (all_unmatched rs w (rw e at covered))
        | inr (r, m, p, e) ↦
            let v = All-at HasWeight rs w m in
            rw (e, score_pos r v) (r, m, refl, p, none_better r rs v w (rw e at covered))
      ]
