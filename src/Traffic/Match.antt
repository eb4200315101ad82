-- ===== src/Traffic/Match.antt =====
-- internal/traffic/runtime.go: how a request finds its route among those of a listener, by host
-- and path. A byte array indexed by the first path byte is a function.
pub mod Scan
pub mod Index
pub mod Build
pub mod Longest
use flux_mesh.Base.{
  ℕ, zero, suc, ◌+◌, ◌*◌, Bool, true, false, not, ◌&&◌, ◌||◌, Option, none, some, List, [], ◌∷◌,
  ◌++◌, length, any, keep, if◌then◌else◌, ◌==◌, nat_eq, ℤ, pos, negsuc, ◌+ℤ◌, ltb_ℤ, Str, codes,
  str_eq, trim_space, to_lower, has_prefix, is_empty, before_byte, itoa,
}
use flux_mesh.Base.Dict
use flux_mesh.Base.Dict.{Dict}

pub record ListenerKey : Type 0 where
  pub addr : Str
  pub port : ℤ

pub record RouteBinding : Type 0 where
  pub service_name : Str
  pub hosts : List Str
  pub path_prefix : Str
  pub destination : Str
  pub weight : ℤ

pub record MatchResult : Type 0 where
  pub listener : ListenerKey
  pub service_name : Str
  pub destination : Str
  pub path_prefix : Str

pub record PathMatcher : Type 0 where
  pub root : List RouteBinding
  pub by_first : ℕ → List RouteBinding

pub record ListenerMatcher : Type 0 where
  pub exact : Dict Str PathMatcher
  pub wildcard : PathMatcher

unfoldable pub path_first_byte : Str → ℕ
path_first_byte (c ∷ d ∷ rest) = if c == 47 then d else 0
path_first_byte _ = 0

unfoldable pub normalize_host : Str → Str
normalize_host host = before_byte 58 (to_lower (trim_space host))

-- The result of a route, and what the loops carry: the best score with its result.
abbrev pub result_of : ListenerKey → RouteBinding → MatchResult
result_of listener r = record {
  listener = listener;
  service_name = r.service_name;
  destination = r.destination;
  path_prefix = r.path_prefix;
}

unfoldable pub score : ℕ → RouteBinding → ℤ
score host_score r = pos (host_score * 100000 + length r.path_prefix * 100) +ℤ r.weight

-- `best` is `none` where Go holds the zero MatchResult with a score below 0.
pub record Best : Type 0 where
  pub best_score : ℤ
  pub best : Option MatchResult

abbrev pub no_best : Best
no_best = record { best_score = negsuc 0; best = none }

unfoldable pub consider : ListenerKey → Str → ℕ → Best → RouteBinding → Best
unfolding score
consider listener path host_score b r =
    let s = score host_score r in
    if has_prefix path r.path_prefix && ltb_ℤ b.best_score s
    then record { best_score = s; best = some (result_of listener r) }
    else b

unfoldable pub best_route_match_seed : ListenerKey → List RouteBinding → Str → ℕ → Best → Best
unfolding consider
best_route_match_seed listener [] path host_score b = b
best_route_match_seed listener (r ∷ rs) path host_score b =
    best_route_match_seed listener rs path host_score (consider listener path host_score b r)

unfoldable pub found_best : Best → Option MatchResult
found_best b = if ltb_ℤ b.best_score (pos 0) then none else b.best

unfoldable pub best_route_match : ListenerKey → List RouteBinding → Str → ℕ → Option MatchResult
unfolding best_route_match_seed found_best
best_route_match listener routes path host_score =
    found_best (best_route_match_seed listener routes path host_score no_best)

unfoldable pub match_path_matcher : ListenerKey → PathMatcher → Str → ℕ → Option MatchResult
unfolding best_route_match_seed found_best
match_path_matcher listener m path host_score =
    let key = path_first_byte path in
    let first =
      if not (key == 0)
      then best_route_match_seed listener (m.by_first key) path host_score no_best
      else no_best in
    found_best (best_route_match_seed listener m.root path host_score first)

abbrev pub no_paths : PathMatcher
no_paths = record { root = []; by_first = λ k. [] }

unfoldable pub append_route : PathMatcher → RouteBinding → PathMatcher
append_route m r =
    let key = path_first_byte r.path_prefix in
    if key == 0
    then record m { root = m.root ++ r ∷ [] }
    else record m { by_first = λ k. if k == key then m.by_first k ++ r ∷ [] else m.by_first k }

abbrev pub bucket_of : Dict Str PathMatcher → Str → PathMatcher
bucket_of exact host = elim (Dict.get exact host) [ none ↦ no_paths | some m ↦ m ]

abbrev pub host_name : Str → Str
host_name host = to_lower (trim_space host)

-- The loop over the hosts of one route, on the map `exact`.
unfoldable pub add_hosts : RouteBinding → List Str → Dict Str PathMatcher → Dict Str PathMatcher
unfolding append_route
add_hosts r [] exact = exact
add_hosts r (host ∷ hosts) exact =
    let h = host_name host in
    add_hosts r hosts (
      if is_empty h || h == codes "*"
      then exact
      else Dict.put exact h (append_route (bucket_of exact h) r))

abbrev pub has_wildcard : RouteBinding → Bool
has_wildcard r = any (λ host. host_name host == codes "*") r.hosts

unfoldable pub add_route : ListenerMatcher → RouteBinding → ListenerMatcher
unfolding add_hosts
add_route m r = record {
  exact = add_hosts r r.hosts m.exact;
  wildcard = if has_wildcard r then append_route m.wildcard r else m.wildcard;
}

unfoldable pub build_from : ListenerMatcher → List RouteBinding → ListenerMatcher
unfolding add_route
build_from m [] = m
build_from m (r ∷ rs) = build_from (add_route m r) rs

unfoldable pub build_listener_matcher : List RouteBinding → ListenerMatcher
unfolding build_from
build_listener_matcher routes = build_from (record { exact = []; wildcard = no_paths }) routes

abbrev pub or_match : Option MatchResult → Option MatchResult → Option MatchResult
or_match (some m) other = some m
or_match none other = other

-- The part of `Match` that uses the matcher: exact hosts first.
unfoldable pub match_matcher : ListenerKey → ListenerMatcher → Str → Str → Option MatchResult
match_matcher listener m host path =
    or_match (match_path_matcher listener (bucket_of m.exact host) path 2)
      (match_path_matcher listener m.wildcard path 1)
