-- ===== src/Traffic/Serve.antt =====
-- internal/traffic/server.go: a request to a listener, from the match of its route to the answer,
-- with its retries (`serveRequest`). The upstreams, strconv.Atoi, io.ReadAll and the product of
-- the retry budget are parameters. What is handed to the transport or to a reverse proxy is part
-- of the outcome; what httputil.ReverseProxy then changes of it is not.
pub mod Handler
pub mod Loop
pub mod Direct
use flux_mesh.Base.{
  ℕ, zero, suc, ◌+◌, Bool, true, false, not, ◌&&◌, ◌||◌, Option, none, some, List, [], ◌∷◌, ◌++◌,
  if◌then◌else◌, Result, ok, err, ℤ, pos, pos_part, ltb_ℤ, leb_ℤ, Str, codes, str_eq, trim_space,
  is_empty,
}
use flux_mesh.Base.Dict
use flux_mesh.Base.Dict.{Dict}
use flux_mesh.Model.Service.{ServiceTrafficPolicy}
use flux_mesh.Traffic.Floats.{Floats}
use flux_mesh.Traffic.Balancer.{Draws, PlanState, Registry, observe_latency}
use flux_mesh.Traffic.Match.{ListenerKey, MatchResult}
use flux_mesh.Traffic.Plan.{Plan, itoa_ℤ}
use flux_mesh.Traffic.Plan.Query.{match_route, service_policy, is_relay_candidate}
use flux_mesh.Traffic.Resolve.{
  Net, ResolveError, resolve_destination, resolve_destinations_for_attempts,
}
use flux_mesh.Traffic.Metrics.{
  Budget, apply_retry_budget, effective_max_attempts, effective_max_hops,
  effective_metrics_sample_rate, should_retry_status,
}
use flux_mesh.Traffic.Forward.{
  Url, Header, TargetError, Urls, Origin, target_for_destination, rewrite_target_url,
  clean_proxy_headers, copy_response_headers,
}

-- What a handler writes to its ResponseWriter.
pub data WriterCall : Type 0 where
  write_header : ℤ → WriterCall
  write_body : Str → WriterCall
  add_header : Str → List Str → WriterCall

-- The buffer that holds an answer until it is known whether it is the last.
pub record RetryBufferWriter : Type 0 where
  pub header : Header
  pub body : Str
  pub status : ℤ
  pub wrote_header : Bool

unfoldable pub acquire_retry_buffer_writer : RetryBufferWriter → RetryBufferWriter
acquire_retry_buffer_writer w = record w {
  header = [];
  body = [];
  status = pos 0;
  wrote_header = false;
}

unfoldable pub buffer_write_header : ℤ → RetryBufferWriter → RetryBufferWriter
buffer_write_header code w =
    if w.wrote_header then w else record w { wrote_header = true; status = code }

unfoldable pub buffer_call : WriterCall → RetryBufferWriter → RetryBufferWriter
unfolding buffer_write_header
buffer_call (write_header code) w = buffer_write_header code w
buffer_call (write_body bytes) w =
    let started = if w.wrote_header then w else buffer_write_header (pos 200) w in
    record started { body = started.body ++ bytes }
buffer_call (add_header key values) w = record w { header = Dict.put w.header key values }

unfoldable pub buffer_calls : List WriterCall → RetryBufferWriter → RetryBufferWriter
unfolding buffer_call
buffer_calls [] w = w
buffer_calls (c ∷ cs) w = buffer_calls cs (buffer_call c w)

unfoldable pub buffer_status : RetryBufferWriter → ℤ
buffer_status w = if leb_ℤ w.status (pos 0) && leb_ℤ (pos 0) w.status then pos 200 else w.status

-- `r.Body`: nil, one whose reading fails, or its bytes.
pub data RequestBody : Type 0 where
  nil_body broken_body : RequestBody
  body_of : Str → RequestBody

pub record Request : Type 0 where
  pub origin : Origin
  pub url : Url
  pub header : Header
  pub content_length : ℤ
  pub transfer_encoding : List Str
  pub body : RequestBody

-- A request that is handed to the transport, or to the reverse proxy of an upstream, which
-- rewrites its address itself and drops the headers for one hop, with those that Connection names.
pub record Outgoing : Type 0 where
  pub target : Url
  pub url : Url
  pub host : Str
  pub header : Header
  pub body : RequestBody

-- The answer to a request: an error text of the server, or what an upstream answers.
pub data Reply : Type 0 where
  no_route hops_invalid hops_exceeded body_unreadable upstream_error no_candidate : Reply
  unresolved : ResolveError → Reply
  bad_target : TargetError → Reply
  direct_response : ℤ → Header → Reply
  -- The status and the header of an upstream, a part of its body, and an error text.
  broken_response : ℤ → Header → Reply
  buffered_response : RetryBufferWriter → Reply

-- What a request meets outside the server: the answer of `RoundTrip`, if there is one, with its
-- status, its header and whether its body could be copied; the calls of the reverse proxy of the
-- attempt with a number; the writer that the pool gives that attempt; and how long each took, in nanoseconds.
pub record Upstreams : Type 0 where
  pub round_trip : Outgoing → Option (ℤ × Header × Bool)
  pub round_trip_elapsed : ℕ
  pub serve_http : ℕ → Outgoing → List WriterCall
  pub pooled : ℕ → RetryBufferWriter
  pub serve_elapsed : ℕ → ℕ
  pub atoi : Str → Option ℤ

hops_of : Option ℤ → Option ℤ
hops_of none = none
hops_of (some n) = if ltb_ℤ n (pos 0) then none else some n

-- `none` is an error.
unfoldable pub parse_incoming_hops : (Str → Option ℤ) → Str → Option ℤ
unfolding hops_of
parse_incoming_hops atoi raw =
    let trimmed = trim_space raw in
    if is_empty trimmed then some (pos 0) else hops_of (atoi trimmed)

read_request_body_bytes : RequestBody → Option (Option Str)
read_request_body_bytes nil_body = some none
read_request_body_bytes broken_body = none
read_request_body_bytes (body_of bytes) = some (some bytes)

-- `none` is an error; a body that is not read is nil.
unfoldable pub maybe_read_request_body_for_retry : Request → Option (Option Str)
unfolding read_request_body_bytes
maybe_read_request_body_for_retry r =
    let read = read_request_body_bytes r.body in
    if ltb_ℤ (pos 0) r.content_length
    then read
    else if not (is_empty r.transfer_encoding)
    then read
    else some none

-- The body of an attempt: the bytes that were read; without them the first attempt has the body
-- of the request, and each later one has none.
attempt_body : ℕ → Request → Option Str → RequestBody
attempt_body i r (some bytes) = body_of bytes
attempt_body zero r none = r.body
attempt_body (suc i) r none = nil_body

-- The keys as net/http keeps them.
abbrev pub hops_key : Str
hops_key = codes "X-Fluxmesh-Hops"

unfoldable pub mark_request : Str → Str → Str → ℤ → Header → Header
mark_request service destination resolved hops h =
    let h1 = Dict.put h (codes "X-Fluxmesh-Service") (service ∷ []) in
    let h2 = Dict.put h1 (codes "X-Fluxmesh-Destination") (destination ∷ []) in
    let h3 = Dict.put h2 (codes "X-Fluxmesh-Upstream") (resolved ∷ []) in
    Dict.put h3 hops_key (itoa_ℤ hops ∷ [])

-- The first value of a key, the empty text if there is none.
abbrev pub header_value : Header → Str → Str
header_value h key = elim (Dict.get h key) [
  | none ↦ []
  | some values ↦ elim values [ [] ↦ [] | v ∷ vs ↦ v ]
]

abbrev pub next_hops : ℤ → ℤ
next_hops n = pos (suc (pos_part n))

module _ (f : Floats) where
  pub record Serving : Type 0 where
    pub state : Option (PlanState f)
    pub targets : Dict Str Url
    pub proxies : Dict Str Url

  -- The state after a request, what the caller is told, and what was handed on, in order.
  pub record Served : Type 0 where
    pub serving : Serving
    pub reply : Reply
    pub status : ℤ
    pub attempts : ℕ
    pub relay_hit : Bool
    pub sent : List Outgoing

  pub observe_upstream : Str → ℕ → Option (PlanState f) → Option (PlanState f)
  observe_upstream upstream elapsed none = none
  observe_upstream upstream elapsed (some s) = some (observe_latency f upstream elapsed s)

  abbrev pub refused : Serving → Reply → ℤ → ℕ → Bool → Served
  refused s reply status attempts relay = record {
    serving = s;
    reply = reply;
    status = status;
    attempts = attempts;
    relay_hit = relay;
    sent = [];
  }

  -- What `forwardDirect` sends: the host is the target's before the headers are cleaned.
  unfoldable pub direct_request : Url → Request → Header → Outgoing
  direct_request target r header = record {
    target = target;
    url = rewrite_target_url target r.url;
    host = target.host;
    header = clean_proxy_headers (record r.origin { host = target.host }) header;
    body = r.body;
  }

  direct_served : Upstreams → Serving → Str → Bool → Outgoing → Option (ℤ × Header × Bool) → Served
  unfolding observe_upstream
  direct_served up s resolved relay out none = record (refused s upstream_error (pos 502) 1 relay) {
    sent = out ∷ [];
  }
  direct_served up s resolved relay out (some (status, header, copied)) =
      if copied
      then record {
        serving = record s { state = observe_upstream resolved up.round_trip_elapsed s.state };
        reply = direct_response status (copy_response_headers [] header);
        status = status;
        attempts = 1;
        relay_hit = relay;
        sent = out ∷ [];
      }
      else record (refused s (broken_response status (copy_response_headers [] header)) (pos 502) 1
          relay) { sent = out ∷ [] }

  direct_target :
      Upstreams
      → Request
      → Str
      → Str
      → Str
      → ℤ
      → Bool
      → Serving
      → Dict Str Url × Result TargetError Url
      → Served
  unfolding direct_served direct_request
  direct_target up r service destination resolved hops relay s (cache, err e) =
      refused (record s { targets = cache }) (bad_target e) (pos 502) 1 relay
  direct_target up r service destination resolved hops relay s (cache, ok target) =
      let header = mark_request service destination resolved (next_hops hops) r.header in
      let out = direct_request target r header in
      direct_served up (record s { targets = cache }) resolved relay out (up.round_trip out)

  -- The branch of one candidate: no retry, no buffer.
  unfoldable pub serve_direct :
      Plan f → Urls → Upstreams → Request → Str → Str → Str → ℤ → Serving → Served
  unfolding direct_target
  serve_direct plan urls up r service destination resolved hops s =
      direct_target up r service destination resolved hops
        (is_relay_candidate f plan destination resolved) s
        (target_for_destination urls resolved s.targets)

  -- One round of the loop, where `continue` is the rounds after it.
  attempt_target :
      Upstreams
      → Request
      → Option Str
      → Header
      → ℕ
      → Str
      → Bool
      → Bool
      → Serving
      → (Header → Serving → Served)
      → Dict Str Url × Result TargetError Url
      → Served
  unfolding attempt_body observe_upstream acquire_retry_buffer_writer
  attempt_target up r body marked i c hit last s continue (cache, err e) =
      refused (record s { proxies = cache }) (bad_target e) (pos 502) (suc i) hit
  attempt_target up r body marked i c hit last s continue (cache, ok target) =
      let out : Outgoing = record {
        target = target;
        url = r.url;
        host = r.origin.host;
        header = marked;
        body = attempt_body i r body;
      } in
      let rw = buffer_calls (up.serve_http i out) (acquire_retry_buffer_writer (up.pooled i)) in
      let retry = should_retry_status (buffer_status rw) in
      let observed = observe_upstream c (up.serve_elapsed i) s.state in
      let next : Serving = record s {
        proxies = cache;
        state = if retry then s.state else observed;
      } in
      let rest = continue marked next in
      if not retry || last
      then record {
        serving = next;
        reply = buffered_response rw;
        status = buffer_status rw;
        attempts = suc i;
        relay_hit = hit;
        sent = out ∷ [];
      }
      else record rest { sent = out ∷ rest.sent }

  -- The candidates from the attempt with a number on; `h` is the header of the request, which
  -- each attempt marks.
  unfoldable pub serve_attempts :
      Plan f
      → Urls
      → Upstreams
      → Request
      → Option Str
      → Str
      → Str
      → ℤ
      → ℕ
      → List Str
      → Bool
      → Header
      → Serving
      → Served
  unfolding attempt_target
  serve_attempts plan urls up r body service destination hops i [] relay h s =
      refused s no_candidate (pos 502) 0 relay
  serve_attempts plan urls up r body service destination hops i (c ∷ cs) relay h s =
      let hit = relay || is_relay_candidate f plan destination c in
      attempt_target up r body (mark_request service destination c (next_hops hops) h) i c hit
        (is_empty cs) s
        (λ marked next.
          serve_attempts plan urls up r body service destination hops (suc i) cs hit marked next)
        (target_for_destination urls c s.proxies)
