-- ===== src/HttpApi/Plans.antt =====
-- internal/httpapi/server.go: the handlers of the traffic plan and its statistics. strconv.Atoi
-- and the quotient of the latency are parameters; a services registry or a traffic server that is
-- nil is none.
use flux_mesh.Base.{
  ℕ, Option, none, some, List, if◌then◌else◌, ◌==◌, ◌||◌, Result, ok, err, ℤ, pos, ltb, ltb_ℤ, Str,
  codes, str_eq, trim_space, is_empty,
}
use flux_mesh.Model.Service.{ServiceConfig}
use flux_mesh.Model.Service.Validate.{Parsers}
use flux_mesh.Registry.Services.{ServiceError}
use flux_mesh.Traffic.Floats.{Floats}
use flux_mesh.Traffic.Match.{MatchResult}
use flux_mesh.Traffic.Plan.{ListenerPlan, Plan, PlanError, build_plan}
use flux_mesh.Traffic.Plan.Query.{listeners, match_route}
use flux_mesh.Traffic.Resolve.{ResolveError, resolve_destination}
use flux_mesh.Traffic.Metrics.{Aggregator, TrafficStats, traffic_stats}
use flux_mesh.Traffic.Serve.Handler.{Setting}
use flux_mesh.HttpApi.Services.{Response, respond}

pub data PlanReply (E : Type 0) : Type 0 where
  plan_method_not_allowed plan_not_initialized port_refused host_required no_match : PlanReply E
  listing_failed : ServiceError E → PlanReply E
  plan_refused : PlanError → PlanReply E
  not_resolved : ResolveError → PlanReply E
  the_listeners : List ListenerPlan → PlanReply E
  matched : MatchResult → Str → PlanReply E

text_or : Str → Str → Str
text_or fallback raw = if is_empty (trim_space raw) then fallback else trim_space raw

port_checked : Option ℤ → Option ℤ
port_checked none = none
port_checked (some port) = if ltb_ℤ port (pos 1) || ltb_ℤ (pos 65535) port then none else some port

module _ (f : Floats) (parsers : Parsers) (env : Setting f) (E : Type 0) where
  abbrev pub Listed : Type 0
  Listed = Option (Result (ServiceError E) (List (ServiceConfig f.Float)))

  plan_reply : Result PlanError (Plan f) → Response (PlanReply E)
  plan_reply (err e) = respond 400 (plan_refused e)
  plan_reply (ok plan) = respond 200 (the_listeners (listeners f plan))

  plan_listed : Listed → Response (PlanReply E)
  unfolding plan_reply
  plan_listed none = respond 500 plan_not_initialized
  plan_listed (some (err e)) = respond 500 (listing_failed e)
  plan_listed (some (ok items)) = plan_reply (build_plan f parsers items)

  -- What `List` returns is an argument.
  unfoldable pub handle_traffic_plan : Str → Listed → Response (PlanReply E)
  unfolding plan_listed
  handle_traffic_plan method listed =
      if method == codes "GET" then plan_listed listed else respond 405 plan_method_not_allowed

  resolved_reply : MatchResult → Result ResolveError Str → Response (PlanReply E)
  resolved_reply m (err e) = respond 502 (not_resolved e)
  resolved_reply m (ok resolved) = respond 200 (matched m resolved)

  match_reply : Plan f → Option MatchResult → Response (PlanReply E)
  unfolding resolved_reply
  match_reply plan none = respond 404 no_match
  match_reply plan (some m) =
      resolved_reply m
        (resolve_destination f env.registry env.draws env.net plan m.destination
          (some plan.state)).1

  match_planned : Str → ℤ → Str → Str → Result PlanError (Plan f) → Response (PlanReply E)
  unfolding match_reply
  match_planned addr port host path (err e) = respond 400 (plan_refused e)
  match_planned addr port host path (ok plan) =
      match_reply plan (match_route f plan addr port host path)

  match_items :
      Str
      → ℤ
      → Str
      → Str
      → Result (ServiceError E) (List (ServiceConfig f.Float))
      → Response (PlanReply E)
  unfolding match_planned
  match_items addr port host path (err e) = respond 500 (listing_failed e)
  match_items addr port host path (ok items) =
      match_planned addr port host path (build_plan f parsers items)

  match_at :
      (Str → Str)
      → Result (ServiceError E) (List (ServiceConfig f.Float))
      → Option ℤ
      → Response (PlanReply E)
  unfolding match_items text_or
  match_at query items none = respond 400 port_refused
  match_at query items (some port) =
      let host = trim_space (query (codes "host")) in
      if is_empty host
      then respond 400 host_required
      else match_items (text_or (codes "0.0.0.0") (query (codes "addr"))) port host
          (text_or (codes "/") (query (codes "path"))) items

  match_listed : (Str → Option ℤ) → (Str → Str) → Listed → Response (PlanReply E)
  unfolding match_at port_checked
  match_listed atoi query none = respond 500 plan_not_initialized
  match_listed atoi query (some items) =
      match_at query items (port_checked (atoi (trim_space (query (codes "port")))))

  -- `query` gives a query value by name, empty if there is none.
  unfoldable pub handle_traffic_match :
      (Str → Option ℤ) → Str → (Str → Str) → Listed → Response (PlanReply E)
  unfolding match_listed
  handle_traffic_match atoi method query listed =
      if method == codes "GET"
      then match_listed atoi query listed
      else respond 405 plan_method_not_allowed

pub data StatsReply (A : Type 0) : Type 0 where
  stats_method_not_allowed stats_not_initialized : StatsReply A
  the_stats : TrafficStats → A → StatsReply A

module _ {A : Type 0} (no_latency : A) (average : ℕ → ℕ → A) where
  stats_reply : Option Aggregator → Response (StatsReply A)
  stats_reply none = respond 500 stats_not_initialized
  stats_reply (some s) =
      let stats = traffic_stats s in
      respond 200 (
        the_stats stats
          (if ltb 0 stats.requests then average stats.total_latency stats.requests else no_latency))

  -- `no_latency` is 0.0, `average` the latency of a number of requests in milliseconds.
  unfoldable pub handle_traffic_stats : Str → Option Aggregator → Response (StatsReply A)
  unfolding stats_reply
  handle_traffic_stats method traffic =
      if method == codes "GET" then stats_reply traffic else respond 405 stats_method_not_allowed
