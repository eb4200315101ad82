-- ===== src/Tests/Serving.antt =====
-- Runs of internal/traffic/server.go: requests with retries, and refreshes.
use flux_mesh.Base.{
  ℕ, zero, suc, true, false, none, some, List, [], ◌∷◌, Result, ok, err, pos, Str, codes, str_eq,
  str_beq, trim_space, to_lower, has_prefix, ◌≡◌, refl, ltb, nat_beq,
}
use flux_mesh.Base.Dict
use flux_mesh.Base.Dict.{Dict, IsMap}
use flux_mesh.Model.Service.{ServiceConfig, apply_defaults}
use flux_mesh.Model.Service.Minimal.{minimal}
use flux_mesh.Model.Service.Validate.{Parsers, validate, is_valid_lb_strategy}
use flux_mesh.Traffic.Floats.{Floats}
use flux_mesh.Traffic.Balancer.{init_registry}
use flux_mesh.Traffic.Match.{ListenerKey}
use flux_mesh.Traffic.Plan.{Plan, PlanError, build_plan, empty_plan, add_services, add_service}
use flux_mesh.Traffic.Plan.Query.{match_route}
use flux_mesh.Traffic.Forward.{Url, Header, Urls, Origin, target_for_destination, parse_destination}
use flux_mesh.Traffic.Metrics.{should_retry_status}
use flux_mesh.Traffic.Forward.Clean.{forwarded_header}
use flux_mesh.Traffic.Serve.Direct.{get-direct_request}
use flux_mesh.Traffic.Serve.{
  acquire_retry_buffer_writer, RetryBufferWriter, direct_request, buffer_status, buffer_calls,
  WriterCall, write_header, write_body, nil_body, Request, Upstreams, Serving, Served,
  serve_attempts,
}
use flux_mesh.Traffic.Serve.Handler.{Setting, serve_request}
use flux_mesh.Traffic.Serve.Handler.Hops.{IsGuarded, serve_request-IsGuarded}
use flux_mesh.Traffic.Refresh.{Runtime, Binds, refresh, service_snapshot_key}
use flux_mesh.Traffic.Refresh.Again.{refresh_again}

abbrev whole : Floats
whole = record { Float = ℕ; less = ltb; equal = nat_beq; of_nanoseconds = λ n. n; blend = λ a b. b }

abbrev lenient : Parsers
lenient = record { is_ipv4 = λ s. true; split_host_port = λ s. none; sscan_int = λ s. none }

abbrev services : List (ServiceConfig ℕ)
services = minimal 0 (codes "web") (pos 80) (codes "/") (codes "g") ∷ []

abbrev start : Runtime whole
start = record {
  plan = none;
  last_snapshot = [];
  watch_revision = pos 0;
  http = [];
  tcp = [];
  udp = [];
  udp_options = [];
}

-- No HTTP server can be bound.
abbrev no_http : Binds
no_http = record { http_binds = λ k. false; tcp_binds = λ k. true; udp_binds = λ k. true }

abbrev running : Runtime whole
running = (refresh whole {E = Unit} lenient no_http (ok services) start).0

refresh_again_example :
    refresh whole {E = Unit} lenient no_http (ok services) running ≡ (running, none)
unfolding refresh service_snapshot_key build_plan add_services add_service validate apply_defaults
    is_valid_lb_strategy trim_space to_lower str_beq has_prefix Dict.get Dict.put
refresh_again_example =
    refresh_again whole {E = Unit} lenient no_http no_http services start running refl

abbrev url_of : Str → Url
url_of host = record { scheme = codes "http"; host = host; path = []; raw_path = []; rest = [] }

-- Each text is an address.
abbrev plain_urls : Urls
plain_urls = record { parse = λ s. some (url_of s); split_host_port = λ s. some (s, codes "80") }

-- The first attempt meets a gateway that fails; the second answers.
abbrev second_answers : ℕ → List WriterCall
second_answers zero = write_header (pos 503) ∷ []
second_answers (suc n) = write_header (pos 200) ∷ write_body (codes "hi") ∷ []

-- A writer that another request has left in the pool.
abbrev used : RetryBufferWriter
used = record { header = []; body = codes "old"; status = pos 404; wrote_header = true }

abbrev upstreams : Upstreams
upstreams = record {
  round_trip = λ out. some (pos 200, [], true);
  round_trip_elapsed = 5;
  serve_http = λ i out. second_answers i;
  pooled = λ i. used;
  serve_elapsed = λ i. 7;
  atoi = λ s. some (pos 1);
}

abbrev browser : Origin
browser = record { host = codes "shop"; tls = false; remote_host = some (codes "10.1.1.1") }

abbrev spoofed : Header
spoofed = (codes "X-Forwarded-For", codes "1.2.3.4" ∷ []) ∷ []

abbrev request : Request
request = record {
  origin = browser;
  url = record (url_of []) { path = codes "/" };
  header = spoofed;
  content_length = pos 0;
  transfer_encoding = [];
  body = nil_body;
}

abbrev idle : Serving whole
idle = record { state = none; targets = []; proxies = [] }

abbrev setting : Setting whole
setting = record {
  registry = init_registry whole;
  draws = record { intn = λ n. 0; shuffle = λ ts. ts };
  net = record {
    splits = λ s. true;
    has_scheme = λ s. false;
    parse_url = λ s. none;
    join_host_port = λ h p. h;
  };
  urls = plain_urls;
  budget_of = λ b. record { none_left = false; full = true; floored = λ n. n };
}

abbrev served_twice : Served whole
served_twice =
    serve_attempts whole (empty_plan whole) plain_urls upstreams request none (codes "web")
      (codes "g") (pos 0) 0 (codes "a:80" ∷ codes "b:80" ∷ codes "c:80" ∷ []) false spoofed idle

-- It takes two of the three candidates.
served_twice-attempts : served_twice.attempts ≡ 2
unfolding serve_attempts target_for_destination parse_destination should_retry_status buffer_status
    acquire_retry_buffer_writer buffer_calls trim_space has_prefix str_beq Dict.get Dict.put
served_twice-attempts = refl

abbrev port_80 : ListenerKey
port_80 = record { addr = codes "0.0.0.0"; port = pos 80 }

abbrev plan_of : Result PlanError (Plan whole) → Plan whole
plan_of (ok p) = p
plan_of (err e) = empty_plan whole

abbrev web_plan : Plan whole
web_plan = plan_of (build_plan whole lenient services)

serve_request-IsGuarded_example :
    IsGuarded whole setting web_plan upstreams request
      (tt, tt)
      (match_route whole web_plan port_80.addr port_80.port browser.host (codes "/"))
      (serve_request whole setting web_plan upstreams request port_80 1 idle).0
serve_request-IsGuarded_example =
    serve_request-IsGuarded whole setting web_plan upstreams request (tt, tt) port_80 1 idle

get-direct_request_example :
    Dict.get
      (direct_request whole (url_of (codes "b:80")) request spoofed).header
      (codes "X-Forwarded-Host")
    ≡ forwarded_header
        (record browser { host = codes "b:80" })
        (codes "X-Forwarded-Host")
        (Dict.get spoofed (codes "X-Forwarded-Host"))
get-direct_request_example =
    get-direct_request whole (url_of (codes "b:80")) request spoofed (codes "X-Forwarded-Host")
      (tt, tt)
