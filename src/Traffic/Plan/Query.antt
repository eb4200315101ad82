-- ===== src/Traffic/Plan/Query.antt =====
-- internal/traffic/runtime.go: the methods of a plan that only read it.
use flux_mesh.Base.{
  ℕ, Bool, false, Option, none, some, List, [], ◌∷◌, map, any, if◌then◌else◌, ◌==◌, ℤ, Str, codes,
  str_eq, trim_space, to_lower,
}
use flux_mesh.Base.Dict
use flux_mesh.Base.Sorting.{sort_stable}
use flux_mesh.Model.Service.{ServiceTrafficPolicy}
use flux_mesh.Traffic.Floats.{Floats}
use flux_mesh.Traffic.Match.{
  ListenerKey, RouteBinding, MatchResult, ListenerMatcher, Best, no_best, consider, found_best,
  normalize_host, match_matcher,
}
use flux_mesh.Traffic.Plan.{
  ListenerPlan, TcpBinding, UdpBinding, Plan, listener_map_key, listener_before,
}

-- `best` of hostMatchScore, where `none` is a score below 0.
unfoldable pub host_match_score : List Str → Str → Option ℕ
host_match_score [] request = none
host_match_score (host ∷ hosts) request =
    let trimmed = to_lower (trim_space host) in
    let rest = host_match_score hosts request in
    if trimmed == request
    then some 2
    else if trimmed == codes "*"
    then elim rest [ none ↦ some 1 | some n ↦ some n ]
    else rest

-- The loop of `Match` over the routes, for a listener that has no matcher.
unfoldable pub scan_routes : ListenerKey → List RouteBinding → Str → Str → Best → Best
unfolding host_match_score consider
scan_routes listener [] host path b = b
scan_routes listener (r ∷ rs) host path b =
    scan_routes listener rs host path
      (elim (host_match_score r.hosts host) [ none ↦ b | some n ↦ consider listener path n b r ])

match_listener : Option ListenerPlan → Option ListenerMatcher → Str → Str → Option MatchResult
unfolding scan_routes
match_listener none matcher host path = none
match_listener (some lp) (some matcher) host path = match_matcher lp.listener matcher host path
match_listener (some lp) none host path =
    found_best (scan_routes lp.listener lp.routes host path no_best)

module _ (f : Floats) where
  unfoldable pub match_route : Plan f → Str → ℤ → Str → Str → Option MatchResult
  unfolding match_listener
  match_route plan addr port host path =
      let key = listener_map_key (trim_space addr) port in
      match_listener (Dict.get plan.listeners key) (Dict.get plan.listener_matchers key)
        (normalize_host host) path

  unfoldable pub tcp_binding : Plan f → Str → ℤ → Option TcpBinding
  tcp_binding plan addr port = Dict.get plan.tcp_bindings (listener_map_key (trim_space addr) port)

  unfoldable pub udp_binding : Plan f → Str → ℤ → Option UdpBinding
  udp_binding plan addr port = Dict.get plan.udp_bindings (listener_map_key (trim_space addr) port)

  unfoldable pub tcp_bindings : Plan f → List TcpBinding
  tcp_bindings plan =
      sort_stable (λ a b. listener_before a.listener b.listener) (map (λ e. e.1) plan.tcp_bindings)

  unfoldable pub udp_bindings : Plan f → List UdpBinding
  udp_bindings plan =
      sort_stable (λ a b. listener_before a.listener b.listener) (map (λ e. e.1) plan.udp_bindings)

  unfoldable pub listeners : Plan f → List ListenerPlan
  listeners plan =
      sort_stable (λ a b. listener_before a.listener b.listener) (map (λ e. e.1) plan.listeners)

  unfoldable pub service_policy : Plan f → Str → Option (ServiceTrafficPolicy f.Float)
  service_policy plan name = Dict.get plan.service_policies (trim_space name)

  unfoldable pub is_relay_candidate : Plan f → Str → Str → Bool
  is_relay_candidate plan destination resolved =
      elim (Dict.get plan.backend_relay_addrs (trim_space destination)) [
        | none ↦ false
        | some addrs ↦ any (λ a. a == trim_space resolved) addrs
      ]
