-- ===== src/Traffic/Serve/Handler.antt =====
-- `serveRequest` and `newListenerHandler` of internal/traffic/server.go: the checks before the
-- candidates of a request are tried.
pub mod Hops
use flux_mesh.Base.{
  ℕ, suc, Bool, true, false, Option, none, some, List, [], ◌∷◌, if◌then◌else◌, Result, ok, err, ℤ,
  pos, pos_part, ltb_ℤ, leb_ℤ, Str, codes, is_empty,
}
use flux_mesh.Model.Service.{ServiceTrafficPolicy}
use flux_mesh.Traffic.Floats.{Floats}
use flux_mesh.Traffic.Balancer.{Draws, PlanState, Registry}
use flux_mesh.Traffic.Match.{ListenerKey, MatchResult}
use flux_mesh.Traffic.Plan.{Plan}
use flux_mesh.Traffic.Plan.Query.{match_route, service_policy}
use flux_mesh.Traffic.Resolve.{
  Net, ResolveError, resolve_destination, resolve_destinations_for_attempts,
}
use flux_mesh.Traffic.Metrics.{
  Aggregator, Budget, apply_retry_budget, effective_max_attempts, effective_max_hops,
  effective_metrics_sample_rate, record_traffic_metrics,
}
use flux_mesh.Traffic.Forward.{Urls}
use flux_mesh.Traffic.Serve.{
  Request, Reply, no_route, hops_invalid, hops_exceeded, body_unreadable, unresolved, Upstreams,
  parse_incoming_hops, maybe_read_request_body_for_retry, hops_key, header_value, Serving, Served,
  refused, serve_direct, serve_attempts,
}

-- What a request is served with beside the state: the packages and the floats.
pub record Setting (f : Floats) : Type 1 where
  pub registry : Registry f
  pub draws : Draws
  pub net : Net
  pub urls : Urls
  pub budget_of : f.Float → Budget

module _ (f : Floats) (env : Setting f) (plan : Plan f) (up : Upstreams) (r : Request) where
  pub limit_of : Option (ServiceTrafficPolicy f.Float) → ℤ
  limit_of none = effective_max_hops (pos 0)
  limit_of (some p) = effective_max_hops p.relay.max_hops

  -- A missing policy reads as the zero one, which allows one attempt.
  attempts_of : Option (ServiceTrafficPolicy f.Float) → ℤ
  attempts_of none = pos 1
  attempts_of (some p) =
      apply_retry_budget (effective_max_attempts p.retry.max_attempts)
        (env.budget_of p.retry.budget_ratio)

  sample_rate_of : ℕ → Option (ServiceTrafficPolicy f.Float) → ℕ
  sample_rate_of fallback none = effective_metrics_sample_rate (pos 0) fallback
  sample_rate_of fallback (some p) =
      effective_metrics_sample_rate p.observability.metrics_sample_rate fallback

  serve_resolved :
      Str → Str → ℤ → Serving f → Option (PlanState f) × Result ResolveError Str → Served f
  serve_resolved service destination hops s (state, err e) =
      refused f (record s { state = state }) (unresolved e) (pos 502) 1 false
  serve_resolved service destination hops s (state, ok resolved) =
      serve_direct f plan env.urls up r service destination resolved hops
        (record s { state = state })

  serve_buffered : Str → Str → ℤ → List Str → Serving f → Option (Option Str) → Served f
  serve_buffered service destination hops cs s none = refused f s body_unreadable (pos 400) 0 false
  serve_buffered service destination hops cs s (some body) =
      serve_attempts f plan env.urls up r body service destination hops 0 cs false r.header s

  serve_candidates :
      Str → Str → ℤ → Serving f → Option (PlanState f) × Result ResolveError (List Str) → Served f
  unfolding serve_buffered
  serve_candidates service destination hops s (state, err e) =
      refused f (record s { state = state }) (unresolved e) (pos 502) 0 false
  serve_candidates service destination hops s (state, ok (c ∷ [])) =
      serve_direct f plan env.urls up r service destination c hops (record s { state = state })
  serve_candidates service destination hops s (state, ok cs) =
      serve_buffered service destination hops cs (record s { state = state })
        (maybe_read_request_body_for_retry r)

  serve_hops : Str → Str → Option (ServiceTrafficPolicy f.Float) → Serving f → Option ℤ → Served f
  unfolding serve_resolved serve_candidates limit_of attempts_of
  serve_hops service destination policy s none = refused f s hops_invalid (pos 400) 0 false
  serve_hops service destination policy s (some hops) =
      let attempts = attempts_of policy in
      let one =
        serve_resolved service destination hops s
          (resolve_destination f env.registry env.draws env.net plan destination s.state) in
      let several = serve_candidates service destination hops s (
        resolve_destinations_for_attempts f env.registry env.draws env.net plan destination
          (pos_part attempts) s.state) in
      if ltb_ℤ (limit_of policy) hops
      then refused f s hops_exceeded (pos 508) 0 false
      else if leb_ℤ attempts (pos 1)
      then one
      else several

  serve_matched : Serving f → Option MatchResult → Served f
  unfolding serve_hops
  serve_matched s none = refused f s no_route (pos 404) 0 false
  serve_matched s (some m) =
      serve_hops m.service_name m.destination (service_policy f plan m.service_name) s
        (parse_incoming_hops up.atoi (header_value r.header hops_key))

  sampled : ℕ → Option MatchResult → ℕ
  unfolding sample_rate_of
  sampled fallback none = 0
  sampled fallback (some m) = sample_rate_of fallback (service_policy f plan m.service_name)

  abbrev pub path_of : Str
  path_of = if is_empty r.url.path then codes "/" else r.url.path

  -- What is served, and the sampling rate of the request.
  unfoldable pub serve_request : ListenerKey → ℕ → Serving f → Served f × ℕ
  unfolding serve_matched sampled
  serve_request listener fallback s =
      let m = match_route f plan listener.addr listener.port r.origin.host path_of in
      (serve_matched s m, sampled fallback m)

  -- The handler of a listener: what is served, and the counters after it.
  unfoldable pub listener_handler : ListenerKey → ℕ → Serving f → Aggregator → Served f × Aggregator
  unfolding serve_request
  listener_handler listener elapsed s metrics =
      let (served, rate) = serve_request listener metrics.sample_rate s in
      (
        served,
        record_traffic_metrics elapsed served.status (pos served.attempts) served.relay_hit rate
            metrics,
      )
