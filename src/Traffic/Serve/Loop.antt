-- ===== src/Traffic/Serve/Loop.antt =====
-- The retry loop of `serveRequest` of internal/traffic/server.go.
use flux_mesh.Base.{ℕ, suc, ◌+◌, ◌≤◌, ◌<◌, true, false, List, [], ◌∷◌, length, ℤ, pos, ◌≡◌}
use flux_mesh.Base.Dict.{Dict}
use flux_mesh.Traffic.Floats.{Floats}
use flux_mesh.Traffic.Plan.{Plan}
use flux_mesh.Traffic.Metrics.{should_retry_status}
use flux_mesh.Traffic.Forward.{TargetError}
use flux_mesh.Traffic.Serve.{
  RetryBufferWriter, buffer_calls, buffer_status, Outgoing, bad_target, buffered_response,
  Upstreams, Served,
}

-- A writer that holds nothing yet.
abbrev pub empty_buffer : RetryBufferWriter
empty_buffer = record { header = []; body = []; status = pos 0; wrote_header = false }

-- What the reverse proxy of the attempt with a number writes for what was handed to it.
abbrev pub answer_of : Upstreams → ℕ → Outgoing → RetryBufferWriter
answer_of up i out = buffer_calls (up.serve_http i out) empty_buffer

abbrev pub answered : Upstreams → ℕ → Outgoing → ℤ
answered up i out = buffer_status (answer_of up i out)

-- Attempts from a number on, each with a status that is retried.
abbrev pub AreRetried : Upstreams → ℕ → List Outgoing → Type 0
AreRetried up i [] = Unit
AreRetried up i (o ∷ outs) =
    (should_retry_status (answered up i o) ≡ true) × AreRetried up (suc i) outs

-- The same with a last one, whose answer is given.
abbrev pub IsLast : Upstreams → ℕ → List Outgoing → RetryBufferWriter → Type 0
IsLast up i [] answer = ⊥
IsLast up i (o ∷ []) answer = answer_of up i o ≡ answer
IsLast up i (o ∷ p ∷ outs) answer =
    (should_retry_status (answered up i o) ≡ true) × IsLast up (suc i) (p ∷ outs) answer

module _ (f : Floats) (up : Upstreams) where
  -- The answer is all that the last attempt wrote; it is not retried, or no candidate is left.
  pub record IsAnswered (i n : ℕ) (v : Served f) : Type 0 where
    pub buffer : RetryBufferWriter
    pub reply : v.reply ≡ buffered_response buffer
    pub status : v.status ≡ buffer_status buffer
    pub last : IsLast up i v.sent buffer
    pub attempts : v.attempts ≡ i + length v.sent
    pub few : length v.sent ≤ n
    pub spent : should_retry_status v.status ≡ true → length v.sent ≡ n

  -- A candidate has no address; all attempts before it were retried.
  pub record IsMisdirected (i n : ℕ) (v : Served f) : Type 0 where
    pub error : TargetError
    pub reply : v.reply ≡ bad_target error
    pub status : v.status ≡ pos 502
    pub retried : AreRetried up i v.sent
    pub attempts : v.attempts ≡ suc (i + length v.sent)
    pub few : length v.sent < n
