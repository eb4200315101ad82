-- ===== src/Traffic/Match/Build.antt =====
-- `buildListenerMatcher` of internal/traffic/runtime.go against the routes it is made of.
use flux_mesh.Base.{
  ℕ, Bool, true, false, not, ◌&&◌, ◌||◌, List, [], ◌∷◌, ◌++◌, keep, any, if◌then◌else◌, ◌==◌, Str,
  codes, str_eq, str_beq_iff, is_empty, ◌≡◌, refl, subst, ap, ◌∙◌, arith, inl, inr, All, All-append,
  All-keep, Bool-cases,
}
use mathlib.Core.Path.{ap₂}
use mathlib.Core.List.{append_assoc, append-nil}
use flux_mesh.Base.Dict
use flux_mesh.Base.Dict.{Dict}
use flux_mesh.Traffic.Match.{
  ListenerKey, RouteBinding, PathMatcher, ListenerMatcher, Best, no_best, consider,
  best_route_match_seed, best_route_match, found_best, match_path_matcher, append_route, bucket_of,
  host_name, has_wildcard, add_hosts, add_route, build_from, build_listener_matcher, match_matcher,
  or_match, no_paths,
}
use flux_mesh.Traffic.Match.Scan.{scan, scan-append, consider_twice}
use flux_mesh.Traffic.Match.Index.{
  HasWeight, Holds, Holds-no_paths, Holds-append_route, match_path_matcher-best_route_match,
}

-- The route names the host itself; an empty host and "*" name none.
abbrev pub names_host : Str → Str → Bool
names_host k host = let h = host_name host in (not (is_empty h) && not (h == codes "*")) && h == k

abbrev pub has_exact : Str → RouteBinding → Bool
has_exact k r = any (names_host k) r.hosts

-- What the loops append to the bucket of `k`: a route once for each host that names it.
copies : Str → RouteBinding → List Str → List RouteBinding
copies k r [] = []
copies k r (h ∷ hosts) = if names_host k h then r ∷ copies k r hosts else copies k r hosts

all_copies : Str → List RouteBinding → List RouteBinding
unfolding copies
all_copies k [] = []
all_copies k (r ∷ rs) = copies k r r.hosts ++ all_copies k rs

bucket_of-put :
    (exact : Dict Str PathMatcher) (h k : Str) (m : PathMatcher)
    → bucket_of (Dict.put exact h m) k ≡ (if h == k then m else bucket_of exact k)
bucket_of-put exact h k m = ground (arith, Dict.get-put exact h k m)

bucket_step :
    (r : RouteBinding) (host k : Str) (exact : Dict Str PathMatcher)
    → let h = host_name host in
      bucket_of
        (if is_empty h || h == codes "*"
          then exact
          else Dict.put exact h (append_route (bucket_of exact h) r))
        k
      ≡ (if names_host k host then append_route (bucket_of exact k) r else bucket_of exact k)
bucket_step r host k exact =
    let h = host_name host in
    elim (Bool-cases (is_empty h || h == codes "*")) [
      | inl y ↦ let n : names_host k host ≡ false = ground arith in rw (y, n) refl
      | inr y ↦ elim (Bool-cases (h == k)) [
        | inl p ↦
            let n : names_host k host ≡ true = ground arith in
            let e : h ≡ k = (str_beq_iff h k).0 p in
            rw (y, n, bucket_of-put exact h k (append_route (bucket_of exact h) r), p)
              (ap (λ x. append_route (bucket_of exact x) r) e)
        | inr p ↦
            let n : names_host k host ≡ false = ground arith in
            rw (y, n, bucket_of-put exact h k (append_route (bucket_of exact h) r), p) refl
      ]
    ]

Holds-add_hosts :
    (r : RouteBinding) (hosts : List Str) (k : Str) (exact : Dict Str PathMatcher)
    (L : List RouteBinding)
    → Holds (bucket_of exact k) L
    → Holds (bucket_of (add_hosts r hosts exact) k) (L ++ copies k r hosts)
unfolding add_hosts copies
Holds-add_hosts r [] k exact L h = rw (append-nil L) h
Holds-add_hosts r (host ∷ hosts) k exact L h =
    let h' = host_name host in
    let next : Dict Str PathMatcher =
      if is_empty h' || h' == codes "*"
      then exact
      else Dict.put exact h' (append_route (bucket_of exact h') r) in
    elim (Bool-cases (names_host k host)) [
      | inl y ↦
          let held : Holds (bucket_of next k) (L ++ r ∷ []) =
            rw (bucket_step r host k exact, y) (Holds-append_route (bucket_of exact k) L r h) in
          rw y (
            subst (Holds (bucket_of (add_hosts r hosts next) k))
              (append_assoc L (r ∷ []) (copies k r hosts))
              (Holds-add_hosts r hosts k next (L ++ r ∷ []) held))
      | inr y ↦
          let held : Holds (bucket_of next k) L = rw (bucket_step r host k exact, y) h in
          rw y (Holds-add_hosts r hosts k next L held)
    ]

Holds-build_from :
    (m : ListenerMatcher) (rs : List RouteBinding) (k : Str) (L : List RouteBinding)
    → Holds (bucket_of m.exact k) L
    → Holds (bucket_of (build_from m rs).exact k) (L ++ all_copies k rs)
unfolding build_from all_copies add_route
Holds-build_from m [] k L h = rw (append-nil L) h
Holds-build_from m (r ∷ rs) k L h =
    subst (Holds (bucket_of (build_from (add_route m r) rs).exact k))
      (append_assoc L (copies k r r.hosts) (all_copies k rs))
      (Holds-build_from (add_route m r) rs k (L ++ copies k r r.hosts)
        (Holds-add_hosts r r.hosts k m.exact L h))

Holds-wildcard :
    (m : ListenerMatcher) (rs : List RouteBinding) (L : List RouteBinding)
    → Holds m.wildcard L
    → Holds (build_from m rs).wildcard (L ++ keep has_wildcard rs)
unfolding build_from add_route
Holds-wildcard m [] L h = rw (append-nil L) h
Holds-wildcard m (r ∷ rs) L h = elim (Bool-cases (has_wildcard r)) [
  | inl y ↦
      let held : Holds (add_route m r).wildcard (L ++ r ∷ []) =
        rw y (Holds-append_route m.wildcard L r h) in
      rw y (
        subst (Holds (build_from (add_route m r) rs).wildcard)
          (append_assoc L (r ∷ []) (keep has_wildcard rs))
          (Holds-wildcard (add_route m r) rs (L ++ r ∷ []) held))
  | inr y ↦
      let held : Holds (add_route m r).wildcard L = rw y h in
      rw y (Holds-wildcard (add_route m r) rs L held)
]

HasWeight-copies :
    (k : Str) (r : RouteBinding) (hosts : List Str) → HasWeight r → All HasWeight (copies k r hosts)
unfolding copies
HasWeight-copies k r [] w = tt
HasWeight-copies k r (h ∷ hosts) w = elim (Bool-cases (names_host k h)) [
  | inl y ↦ rw y (w, HasWeight-copies k r hosts w)
  | inr y ↦ rw y (HasWeight-copies k r hosts w)
]

HasWeight-all_copies :
    (k : Str) (rs : List RouteBinding) → All HasWeight rs → All HasWeight (all_copies k rs)
unfolding all_copies
HasWeight-all_copies k [] w = tt
HasWeight-all_copies k (r ∷ rs) w =
    All-append HasWeight (copies k r r.hosts) (all_copies k rs) (HasWeight-copies k r r.hosts w.0)
      (HasWeight-all_copies k rs w.1)

module _ (listener : ListenerKey) (path : Str) (n : ℕ) where
  more_copies :
      (k : Str) (r : RouteBinding) (hosts : List Str) (b : Best)
      → scan listener path n (copies k r hosts) (consider listener path n b r)
        ≡ consider listener path n b r
  unfolding copies best_route_match_seed
  more_copies k r [] b = refl
  more_copies k r (h ∷ hosts) b = elim (Bool-cases (names_host k h)) [
    | inl y ↦ rw y (
        ap (scan listener path n (copies k r hosts)) (consider_twice listener path n r b)
        ∙ more_copies k r hosts b)
    | inr y ↦ rw y (more_copies k r hosts b)
  ]

  scan-copies :
      (k : Str) (r : RouteBinding) (hosts : List Str) (b : Best)
      → scan listener path n (copies k r hosts) b
        ≡ (if any (names_host k) hosts then consider listener path n b r else b)
  unfolding copies best_route_match_seed
  scan-copies k r [] b = refl
  scan-copies k r (h ∷ hosts) b = elim (Bool-cases (names_host k h)) [
    | inl y ↦ rw y (more_copies k r hosts b)
    | inr y ↦ rw y (scan-copies k r hosts b)
  ]

  scan-all_copies :
      (k : Str) (rs : List RouteBinding) (b : Best)
      → scan listener path n (all_copies k rs) b ≡ scan listener path n (keep (has_exact k) rs) b
  unfolding all_copies best_route_match_seed
  scan-all_copies k [] b = refl
  scan-all_copies k (r ∷ rs) b =
      scan-append listener path n (copies k r r.hosts) (all_copies k rs) b
      ∙ ap (scan listener path n (all_copies k rs)) (scan-copies k r r.hosts b)
      ∙ elim (Bool-cases (has_exact k r)) [
        | inl y ↦ rw y (scan-all_copies k rs (consider listener path n b r))
        | inr y ↦ rw y (scan-all_copies k rs b)
      ]

module _ (listener : ListenerKey) (routes : List RouteBinding) (host path : Str)
    (w : All HasWeight routes) where
  Holds-nothing : Holds (bucket_of [] host) []
  unfolding Dict.get
  Holds-nothing = Holds-no_paths

  exact_found :
      match_path_matcher listener (bucket_of (build_listener_matcher routes).exact host) path 2
      ≡ best_route_match listener (keep (has_exact host) routes) path 2
  unfolding build_listener_matcher best_route_match
  exact_found =
      match_path_matcher-best_route_match listener path 2
        (bucket_of (build_listener_matcher routes).exact host) (all_copies host routes)
        (Holds-build_from (record { exact = []; wildcard = no_paths }) routes host [] Holds-nothing)
        (HasWeight-all_copies host routes w)
      ∙ ap found_best (scan-all_copies listener path 2 host routes no_best)

  wildcard_found :
      match_path_matcher listener (build_listener_matcher routes).wildcard path 1
      ≡ best_route_match listener (keep has_wildcard routes) path 1
  unfolding build_listener_matcher
  wildcard_found =
      match_path_matcher-best_route_match listener path 1 (build_listener_matcher routes).wildcard
        (keep has_wildcard routes)
        (Holds-wildcard (record { exact = []; wildcard = no_paths }) routes [] Holds-no_paths)
        (All-keep HasWeight has_wildcard routes w)

-- The lookup in the two-level index is the scan of all the routes of the listener: among those
-- that name the host first, then among those with a wildcard. The weights must be from 1 to 100.
pub match_matcher-best_route_match :
    (listener : ListenerKey) (routes : List RouteBinding) (host path : Str)
    → All HasWeight routes
    → match_matcher listener (build_listener_matcher routes) host path
      ≡ or_match
          (best_route_match listener (keep (has_exact host) routes) path 2)
          (best_route_match listener (keep has_wildcard routes) path 1)
unfolding match_matcher
match_matcher-best_route_match listener routes host path w =
    ap₂ or_match (exact_found listener routes host path w)
      (wildcard_found listener routes host path w)
