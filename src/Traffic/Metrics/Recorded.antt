-- ===== src/Traffic/Metrics/Recorded.antt =====
-- What the counters of internal/traffic/server.go count of the requests that are recorded.
use flux_mesh.Base.{ℕ, ◌+◌, ◌^◌, ◌<◌, Bool, List, [], ◌∷◌, if◌then◌else◌, ℤ, pos, leb_ℤ, ◌≡◌, arith}
use flux_mesh.Traffic.Metrics.{
  Aggregator, AreInOrder, record_traffic_metrics, record_sampled, count_request, emit_event,
  apply_metrics_event, traffic_stats,
}

-- A request as `recordTrafficMetrics` is told of it: its latency, its status, its attempts and
-- whether it went to a relay.
pub record Recorded : Type 0 where
  pub elapsed : ℕ
  pub status : ℤ
  pub attempts : ℤ
  pub relay : Bool

-- Requests that are recorded one after the other, each without sampling.
unfoldable pub record_all : List Recorded → Aggregator → Aggregator
record_all [] s = s
record_all (r ∷ rs) s =
    record_all rs (record_traffic_metrics r.elapsed r.status r.attempts r.relay 1 s)

-- How many of the requests ended with a status of 500 or more, and how many with another.
abbrev pub failures : List Recorded → ℕ
failures [] = 0
failures (r ∷ rs) = if leb_ℤ (pos 500) r.status then 1 + failures rs else failures rs

abbrev pub successes : List Recorded → ℕ
successes [] = 0
successes (r ∷ rs) = if leb_ℤ (pos 500) r.status then successes rs else 1 + successes rs

abbrev pub total_elapsed : List Recorded → ℕ
total_elapsed [] = 0
total_elapsed (r ∷ rs) = r.elapsed + total_elapsed rs

-- What one request adds to the three counters that do not wrap.
recorded_once :
    (r : Recorded) (s : Aggregator)
    → AreInOrder s.metrics
    → s.metrics.requests_total + 1 < 2 ^ 64
    → s.metrics.total_latency_ns + r.elapsed < 2 ^ 64
    → let m = (record_traffic_metrics r.elapsed r.status r.attempts r.relay 1 s).metrics in
      (m.requests_total ≡ s.metrics.requests_total + 1)
      × (m.error_total
          ≡ (if leb_ℤ (pos 500) r.status then s.metrics.error_total + 1 else s.metrics.error_total))
      × (m.total_latency_ns ≡ s.metrics.total_latency_ns + r.elapsed)
unfolding record_traffic_metrics record_sampled count_request emit_event apply_metrics_event
recorded_once r s h room time = (ground arith, ground arith, ground arith)

module _ (rs : List Recorded) where
  -- What the counters say after requests, of what they said before.
  pub record AreRecorded (s s' : Aggregator) : Type 0 where
    pub requests :
        (traffic_stats s').requests ≡ (traffic_stats s).requests + failures rs + successes rs
    pub errors : (traffic_stats s').errors ≡ (traffic_stats s).errors + failures rs
    pub success : (traffic_stats s').success ≡ (traffic_stats s).success + successes rs
    pub latency :
        (traffic_stats s').total_latency ≡ (traffic_stats s).total_latency + total_elapsed rs

-- Requests that are recorded without sampling, where the counters of requests and of the latency
-- do not wrap and no more errors than requests were counted before: the requests with a status of
-- 500 or more are added to the errors and the others to the successes, each once, all of them to
-- the requests, and their latencies to the latency.
pub record_all-AreRecorded :
    (rs : List Recorded) (s : Aggregator)
    → AreInOrder s.metrics
    → s.metrics.requests_total + failures rs + successes rs < 2 ^ 64
    → s.metrics.total_latency_ns + total_elapsed rs < 2 ^ 64
    → AreRecorded rs s (record_all rs s)
unfolding record_all traffic_stats
record_all-AreRecorded [] s h room time = record {
  requests = omega arith;
  errors = omega arith;
  success = omega arith;
  latency = omega arith;
}
record_all-AreRecorded (r ∷ rs) s h room time =
    let s' = record_traffic_metrics r.elapsed r.status r.attempts r.relay 1 s in
    let once = recorded_once r s h (ground arith) (omega arith) in
    let rest = record_all-AreRecorded rs s' (ground arith) (ground arith) (ground arith) in
    record {
      requests = ground (arith, rest.requests);
      errors = ground (arith, rest.errors);
      success = ground (arith, rest.success);
      latency = ground (arith, rest.latency);
    }
