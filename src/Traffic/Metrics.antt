-- ===== src/Traffic/Metrics.antt =====
-- internal/traffic/server.go: the counters of the traffic, with their sampling, and the bounds of
-- the retry loop. The counters are uint64, a sampling rate is a uint32.
pub mod Recorded
use flux_mesh.Base.{
  ℕ, ◌+◌, ◌-◌, ◌*◌, ◌%◌, ◌^◌, ◌≤◌, ◌<◌, Bool, false, not, ◌||◌, List, [], ◌∷◌, ◌++◌, length, ltb,
  leb, if◌then◌else◌, ◌==◌, nat_eq, ℤ, pos, pos_part, ◌≤ℤ◌, leb_ℤ, ltb_ℤ, ◌≡◌, arith, Bool-cases,
  inl, inr,
}

pub record MetricsEvent : Type 0 where
  pub weight : ℕ
  pub retry_attempts : ℕ
  pub relay_hit : Bool
  pub relay_latency_ns : ℕ

pub record TrafficMetrics : Type 0 where
  pub requests_total : ℕ
  pub error_total : ℕ
  pub retry_attempts_total : ℕ
  pub relay_hit_total : ℕ
  pub total_latency_ns : ℕ
  pub relay_latency_ns : ℕ

pub record TrafficStats : Type 0 where
  pub requests : ℕ
  pub success : ℕ
  pub errors : ℕ
  pub retry_attempts : ℕ
  pub relay_hits : ℕ
  pub total_latency : ℕ
  pub relay_latency : ℕ

-- What of the server the metrics use; `events` is what the channel holds.
pub record Aggregator : Type 0 where
  pub metrics : TrafficMetrics
  pub sample_rate : ℕ
  pub sample_seq : ℕ
  pub started : Bool
  pub capacity : ℕ
  pub events : List MetricsEvent

abbrev pub add_u64 : ℕ → ℕ → ℕ
add_u64 a b = (a + b) % 2 ^ 64

unfoldable pub apply_metrics_event : MetricsEvent → TrafficMetrics → TrafficMetrics
apply_metrics_event e m =
    let retried = add_u64 m.retry_attempts_total (e.retry_attempts * e.weight) in
    record m {
      retry_attempts_total = if ltb 0 e.retry_attempts then retried else m.retry_attempts_total;
      relay_hit_total =
          if e.relay_hit then add_u64 m.relay_hit_total e.weight else m.relay_hit_total;
      relay_latency_ns =
          if e.relay_hit
          then add_u64 m.relay_latency_ns (e.relay_latency_ns * e.weight)
          else m.relay_latency_ns;
    }

-- The event of a request with retries or a relay goes to the channel, which drops it when it is
-- full, or is applied at once if no aggregator runs.
unfoldable pub emit_event : MetricsEvent → Aggregator → Aggregator
unfolding apply_metrics_event
emit_event e s =
    if s.started
    then (if ltb (length s.events) s.capacity then record s { events = s.events ++ e ∷ [] } else s)
    else record s { metrics = apply_metrics_event e s.metrics }

-- The counters that each sampled request raises.
unfoldable pub count_request : ℕ → ℕ → ℤ → Aggregator → Aggregator
count_request weight elapsed status s =
    let m = s.metrics in
    record s {
      metrics = record m {
        requests_total = add_u64 m.requests_total weight;
        total_latency_ns = add_u64 m.total_latency_ns (elapsed * weight);
        error_total =
            if leb_ℤ (pos 500) status then add_u64 m.error_total weight else m.error_total;
      };
    }

record_sampled : ℕ → ℕ → ℤ → ℤ → Bool → Aggregator → Aggregator
unfolding count_request emit_event
record_sampled weight elapsed status attempts relay s =
    let counted = count_request weight elapsed status s in
    let event : MetricsEvent = record {
      weight = weight;
      retry_attempts = if ltb_ℤ (pos 1) attempts then pos_part attempts - 1 else 0;
      relay_hit = relay;
      relay_latency_ns = if relay then elapsed else 0;
    } in
    if ltb_ℤ (pos 1) attempts || relay then emit_event event counted else counted

-- `elapsed` is in nanoseconds. With a rate above 1 only each call whose number is a multiple of
-- the rate counts, with the rate as its weight.
unfoldable pub record_traffic_metrics : ℕ → ℤ → ℤ → Bool → ℕ → Aggregator → Aggregator
unfolding record_sampled
record_traffic_metrics elapsed status attempts relay sample_rate s =
    let rate = if sample_rate == 0 then s.sample_rate else sample_rate in
    let seq = add_u64 s.sample_seq 1 in
    let drawn : Aggregator = record s { sample_seq = seq } in
    if ltb 1 rate
    then (if not (seq % rate == 0)
        then drawn
        else record_sampled rate elapsed status attempts relay drawn)
    else record_sampled 1 elapsed status attempts relay s

unfoldable pub traffic_stats : Aggregator → TrafficStats
traffic_stats s =
    let m = s.metrics in
    record {
      requests = m.requests_total;
      success = if leb m.error_total m.requests_total then m.requests_total - m.error_total else 0;
      errors = m.error_total;
      retry_attempts = m.retry_attempts_total;
      relay_hits = m.relay_hit_total;
      total_latency = m.total_latency_ns;
      relay_latency = m.relay_latency_ns;
    }

unfoldable pub set_metrics_sample_rate : ℕ → Aggregator → Aggregator
set_metrics_sample_rate rate s = record s { sample_rate = if rate == 0 then 1 else rate }

unfoldable pub effective_metrics_sample_rate : ℤ → ℕ → ℕ
effective_metrics_sample_rate configured fallback =
    if ltb_ℤ (pos 0) configured
    then pos_part configured % 2 ^ 32
    else if fallback == 0
    then 1
    else fallback

unfoldable pub effective_max_attempts : ℤ → ℤ
effective_max_attempts configured = if leb_ℤ configured (pos 0) then pos 1 else configured

unfoldable pub effective_max_hops : ℤ → ℤ
effective_max_hops configured = if leb_ℤ configured (pos 0) then pos 2 else configured

-- The float `budgetRatio`: whether it is at most 0 or at least 1, and its product with a count,
-- rounded down, which is used for a ratio between 0 and 1 only.
pub record Budget : Type 0 where
  pub none_left : Bool
  pub full : Bool
  pub floored : ℕ → ℕ

unfoldable pub apply_retry_budget : ℤ → Budget → ℤ
apply_retry_budget max_attempts b =
    let extra = pos_part max_attempts - 1 in
    let allowed = b.floored extra in
    let at_least = if allowed == 0 then 1 else allowed in
    let capped = if ltb extra at_least then extra else at_least in
    if leb_ℤ max_attempts (pos 1)
    then pos 1
    else if b.none_left
    then pos 1
    else if b.full
    then max_attempts
    else pos (1 + capped)

unfoldable pub should_retry_status : ℤ → Bool
should_retry_status status = leb_ℤ (pos 502) status

-- A budget allows one attempt at least, and never more than are configured where that is one or
-- more; with a ratio above 0 it allows two wherever two are configured.
pub apply_retry_budget_bounds :
    (max_attempts : ℤ) (b : Budget)
    → (pos 1 ≤ℤ apply_retry_budget max_attempts b)
      × (pos 1 ≤ℤ max_attempts → apply_retry_budget max_attempts b ≤ℤ max_attempts)
      × (b.none_left ≡ false → pos 2 ≤ℤ max_attempts → pos 2 ≤ℤ apply_retry_budget max_attempts b)
unfolding apply_retry_budget
apply_retry_budget_bounds max_attempts b = (ground arith, λ h. ground arith, λ h k. ground arith)

-- The requests and the errors that a record of metrics has.
abbrev pub AreInOrder : TrafficMetrics → Type 0
AreInOrder m = m.error_total ≤ m.requests_total

count_request-AreInOrder :
    (weight elapsed : ℕ) (status : ℤ) (s : Aggregator)
    → AreInOrder s.metrics
    → s.metrics.requests_total + weight < 2 ^ 64
    → AreInOrder (count_request weight elapsed status s).metrics
unfolding count_request
count_request-AreInOrder weight elapsed status s h room = ground arith

emit_event-AreInOrder :
    (e : MetricsEvent) (s : Aggregator) → AreInOrder s.metrics → AreInOrder (emit_event e s).metrics
unfolding emit_event
emit_event-AreInOrder e s h = ground arith

record_sampled-AreInOrder :
    (weight elapsed : ℕ) (status attempts : ℤ) (relay : Bool) (s : Aggregator)
    → AreInOrder s.metrics
    → s.metrics.requests_total + weight < 2 ^ 64
    → AreInOrder (record_sampled weight elapsed status attempts relay s).metrics
unfolding record_sampled
record_sampled-AreInOrder weight elapsed status attempts relay s h room =
    let counted = count_request-AreInOrder weight elapsed status s h room in
    elim (Bool-cases (ltb_ℤ (pos 1) attempts || relay)) [
      | inl y ↦ rw y (emit_event-AreInOrder _ (count_request weight elapsed status s) counted)
      | inr y ↦ rw y counted
    ]

record_traffic_metrics-AreInOrder :
    (elapsed : ℕ) (status attempts : ℤ) (relay : Bool) (rate : ℕ) (s : Aggregator)
    → AreInOrder s.metrics
    → s.metrics.requests_total + rate + s.sample_rate + 1 < 2 ^ 64
    → AreInOrder (record_traffic_metrics elapsed status attempts relay rate s).metrics
unfolding record_traffic_metrics
record_traffic_metrics-AreInOrder elapsed status attempts relay rate s h room =
    let used = if rate == 0 then s.sample_rate else rate in
    let seq = add_u64 s.sample_seq 1 in
    let drawn : Aggregator = record s { sample_seq = seq } in
    let small : used ≤ rate + s.sample_rate = ground arith in
    elim (Bool-cases (ltb 1 used)) [
      | inr n ↦ rw n (record_sampled-AreInOrder 1 elapsed status attempts relay s h (omega arith))
      | inl y ↦ elim (Bool-cases (seq % used == 0)) [
        | inl z ↦
            rw (y, z)
              (record_sampled-AreInOrder used elapsed status attempts relay drawn h
                (omega (arith, small)))
        | inr z ↦ rw (y, z) h
      ]
    ]

stats_add :
    (s : Aggregator)
    → AreInOrder s.metrics
    → (traffic_stats s).success + (traffic_stats s).errors ≡ (traffic_stats s).requests
unfolding traffic_stats
stats_add s h = ground arith
