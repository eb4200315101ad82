-- ===== src/Traffic/Match/Index.antt =====
-- The index that `buildListenerMatcher` of internal/traffic/runtime.go makes of a listener's
-- routes finds what a scan of all the routes finds.
use flux_mesh.Base.{
  ℕ, ◌≤◌, Bool, true, false, not, List, [], ◌∷◌, ◌++◌, length, keep, keep-append, if◌then◌else◌,
  ◌==◌, nat_eq, pos, ◌+ℤ◌, ◌≤ℤ◌, Str, str_eq, has_prefix, ◌≡◌, ◌≢◌, refl, sym, ap, ◌∙◌, arith, All,
  Bool-cases, inl, inr,
}
use mathlib.Core.List.{append-nil}
use flux_mesh.Traffic.Match.{
  ListenerKey, RouteBinding, PathMatcher, Best, no_best, consider, score, best_route_match_seed,
  best_route_match, found_best, match_path_matcher, path_first_byte, append_route, no_paths,
}
use flux_mesh.Traffic.Match.Scan.{scan, Below, scan-keep, scan_partition}

abbrev pub HasWeight : RouteBinding → Type 0
HasWeight r = (pos 1 ≤ℤ r.weight) × (r.weight ≤ℤ pos 100)

abbrev pub key : RouteBinding → ℕ
key r = path_first_byte r.path_prefix

-- A prefix with a first byte is matched only by paths with this byte.
first_byte_of_prefix :
    (path prefix : Str)
    → has_prefix path prefix ≡ true
    → path_first_byte prefix ≢ 0
    → path_first_byte path ≡ path_first_byte prefix
unfolding has_prefix path_first_byte
first_byte_of_prefix path [] m n = absurd (n refl)
first_byte_of_prefix path (c ∷ []) m n = absurd (n refl)
first_byte_of_prefix [] (c ∷ d ∷ p) m n = cc
first_byte_of_prefix (a ∷ []) (c ∷ d ∷ p) m n = ground arith
first_byte_of_prefix (a ∷ b ∷ s) (c ∷ d ∷ p) m n = ground arith

-- A prefix with no first byte that matches such a path has one byte at most.
short_prefix :
    (path prefix : Str)
    → has_prefix path prefix ≡ true
    → path_first_byte prefix ≡ 0
    → path_first_byte path ≢ 0
    → length prefix ≤ 1
unfolding has_prefix path_first_byte
short_prefix path [] m z n = omega arith
short_prefix path (c ∷ []) m z n = omega arith
short_prefix [] (c ∷ d ∷ p) m z n = cc
short_prefix (a ∷ []) (c ∷ d ∷ p) m z n = ground arith
short_prefix (a ∷ b ∷ s) (c ∷ d ∷ p) m z n = ground arith

long_prefix : (prefix : Str) → path_first_byte prefix ≢ 0 → 2 ≤ length prefix
unfolding path_first_byte
long_prefix [] n = absurd (n refl)
long_prefix (c ∷ []) n = absurd (n refl)
long_prefix (c ∷ d ∷ p) n = omega arith

module _ (listener : ListenerKey) (path : Str) (h : ℕ) where
  root_is_worse :
      (r x : RouteBinding)
      → HasWeight r
      → HasWeight x
      → not (key r == 0) ≡ false
      → not (key x == 0) ≡ true
      → Below listener path h r x
  unfolding score ◌+ℤ◌
  root_is_worse r x gr gx er ex mx mr =
      let nx : key x ≢ 0 = ground arith in
      let at = first_byte_of_prefix path x.path_prefix mx nx in
      let short = short_prefix path r.path_prefix mr (ground arith) (λ e. nx (sym at ∙ e)) in
      ground (arith, short, long_prefix x.path_prefix nx)

-- The matcher holds these routes, each list in their order.
pub record Holds (m : PathMatcher) (rs : List RouteBinding) : Type 0 where
  pub root : m.root ≡ keep (λ r. key r == 0) rs
  pub by_first : (k : ℕ) → k ≢ 0 → m.by_first k ≡ keep (λ r. key r == k) rs

pub Holds-no_paths : Holds no_paths []
Holds-no_paths = record { root = refl; by_first = λ k n. refl }

keep_last :
    (p : RouteBinding → Bool) (rs : List RouteBinding) (r : RouteBinding)
    → keep p (rs ++ r ∷ []) ≡ (if p r then keep p rs ++ r ∷ [] else keep p rs)
keep_last p rs r = elim (Bool-cases (p r)) [
  | inl y ↦ keep-append p rs (r ∷ []) ∙ rw y refl
  | inr y ↦ keep-append p rs (r ∷ []) ∙ rw y (append-nil (keep p rs))
]

pub Holds-append_route :
    (m : PathMatcher) (rs : List RouteBinding) (r : RouteBinding)
    → Holds m rs
    → Holds (append_route m r) (rs ++ r ∷ [])
unfolding append_route
Holds-append_route m rs r h = record {
  root = ground (arith, keep_last (λ x. key x == 0) rs r, h.root);
  by_first = λ k n. ground (arith, keep_last (λ x. key x == k) rs r, h.by_first k n);
}

module _ (listener : ListenerKey) (path : Str) (h : ℕ) where
  keep_of_keys :
      (k : ℕ) (rs : List RouteBinding)
      → k ≢ 0
      → keep (λ r. key r == k) (keep (λ r. not (key r == 0)) rs) ≡ keep (λ r. key r == k) rs
  keep_of_keys k [] n = refl
  keep_of_keys k (r ∷ rs) n = elim (Bool-cases (key r == 0)) [
    | inl y ↦ rw y (keep_of_keys k rs n ∙ ground arith)
    | inr y ↦ rw y (ground (arith, keep_of_keys k rs n))
  ]

  not-not :
      (rs : List RouteBinding) → keep (λ r. not (not (key r == 0))) rs ≡ keep (λ r. key r == 0) rs
  not-not [] = refl
  not-not (r ∷ rs) = ground (arith, not-not rs)

  other_key :
      (k : ℕ) (rs : List RouteBinding)
      → path_first_byte path ≡ k
      → All
          (λ r. (key r == k) ≡ false → has_prefix path r.path_prefix ≡ false)
          (keep (λ r. not (key r == 0)) rs)
  other_key k [] e = tt
  other_key k (r ∷ rs) e = elim (Bool-cases (key r == 0)) [
    | inl y ↦ rw y (other_key k rs e)
    | inr y ↦ rw y (
      (λ ne. elim (Bool-cases (has_prefix path r.path_prefix)) [
        | inl m ↦
            absurd (ground (arith, first_byte_of_prefix path r.path_prefix m (ground arith), e))
        | inr m ↦ m
      ]),
      other_key k rs e,
    )
  ]

  keyed_scan :
      (rs : List RouteBinding) (b : Best)
      → path_first_byte path ≢ 0
      → scan listener path h (keep (λ r. not (key r == 0)) rs) b
        ≡ scan listener path h (keep (λ r. key r == path_first_byte path) rs) b
  keyed_scan rs b n =
      sym (
        scan-keep listener path h (λ r. key r == path_first_byte path)
          (keep (λ r. not (key r == 0)) rs) b (other_key (path_first_byte path) rs refl))
      ∙ ap (λ l. scan listener path h l b) (keep_of_keys (path_first_byte path) rs n)

  unmatched :
      (r : RouteBinding) (b : Best)
      → has_prefix path r.path_prefix ≡ false
      → consider listener path h b r ≡ b
  unfolding consider
  unmatched r b m = ground arith

  keyed_unmatched :
      (r : RouteBinding)
      → path_first_byte path ≡ 0
      → (key r == 0) ≡ false
      → has_prefix path r.path_prefix ≡ false
  keyed_unmatched r z ne = elim (Bool-cases (has_prefix path r.path_prefix)) [
    | inl m ↦ absurd (ground (arith, first_byte_of_prefix path r.path_prefix m (ground arith), z))
    | inr m ↦ m
  ]

  keyless_scan :
      (rs : List RouteBinding) (b : Best)
      → path_first_byte path ≡ 0
      → scan listener path h (keep (λ r. not (key r == 0)) rs) b ≡ b
  unfolding best_route_match_seed
  keyless_scan [] b z = refl
  keyless_scan (r ∷ rs) b z = elim (Bool-cases (key r == 0)) [
    | inl y ↦ rw y (keyless_scan rs b z)
    | inr y ↦ rw y (
        ap (λ c. scan listener path h (keep (λ x. not (key x == 0)) rs) c)
          (unmatched r b (keyed_unmatched r z y))
        ∙ keyless_scan rs b z)
  ]

  -- The scan of all the routes in the order of the index.
  reordered :
      (rs : List RouteBinding)
      → All HasWeight rs
      → scan listener path h rs no_best
        ≡ scan listener path h
            (keep (λ r. key r == 0) rs)
            (scan listener path h (keep (λ r. not (key r == 0)) rs) no_best)
  reordered rs g =
      scan_partition listener path h HasWeight (λ r. not (key r == 0))
        (root_is_worse listener path h) rs no_best g
      ∙ ap
          (λ l.
            scan listener path h l (scan listener path h (keep (λ r. not (key r == 0)) rs) no_best))
          (not-not rs)

  pub match_path_matcher-best_route_match :
      (m : PathMatcher) (rs : List RouteBinding)
      → Holds m rs
      → All HasWeight rs
      → match_path_matcher listener m path h ≡ best_route_match listener rs path h
  unfolding match_path_matcher best_route_match
  match_path_matcher-best_route_match m rs holds g = elim (Bool-cases (path_first_byte path == 0)) [
    | inl y ↦
        rw (y, holds.root)
          (ap found_best (
            ap (scan listener path h (keep (λ r. key r == 0) rs))
              (sym (keyless_scan rs no_best (ground arith)))
            ∙ sym (reordered rs g)))
    | inr y ↦
        rw (y, holds.root, holds.by_first (path_first_byte path) (ground arith))
          (ap found_best (
            ap (scan listener path h (keep (λ r. key r == 0) rs))
              (sym (keyed_scan rs no_best (ground arith)))
            ∙ sym (reordered rs g)))
  ]
