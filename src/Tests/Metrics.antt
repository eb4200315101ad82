-- ===== src/Tests/Metrics.antt =====
-- Runs of the counters and the retry budget of internal/traffic/server.go.
use flux_mesh.Base.{true, false, List, [], ◌∷◌, pos, arith}
use flux_mesh.Traffic.Metrics.{Aggregator, Budget}
use flux_mesh.Traffic.Metrics.Recorded.{Recorded, AreRecorded, record_all, record_all-AreRecorded}

-- A ratio of one half.
abbrev half : Budget
half = record { none_left = false; full = false; floored = λ n. 1 }

abbrev one_error : Aggregator
one_error = record {
  metrics = record {
    requests_total = 4;
    error_total = 1;
    retry_attempts_total = 0;
    relay_hit_total = 0;
    total_latency_ns = 900;
    relay_latency_ns = 0;
  };
  sample_rate = 1;
  sample_seq = 0;
  started = false;
  capacity = 8;
  events = [];
}

abbrev two_requests : List Recorded
two_requests =
    record { elapsed = 70; status = pos 502; attempts = pos 2; relay = true }
    ∷ record { elapsed = 30; status = pos 404; attempts = pos 1; relay = false }
    ∷ []

record_all-AreRecorded_example :
    AreRecorded two_requests one_error (record_all two_requests one_error)
record_all-AreRecorded_example =
    record_all-AreRecorded two_requests one_error (omega arith) (omega arith) (omega arith)
