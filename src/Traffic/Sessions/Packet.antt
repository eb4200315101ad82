-- ===== src/Traffic/Sessions/Packet.antt =====
-- internal/traffic/server.go: a packet of a client, from its binding to the answer of an upstream.
use flux_mesh.Base.{
  ℕ, suc, Option, none, some, List, [], ◌∷◌, if◌then◌else◌, ◌==◌, nat_eq, str_eq, Result, ok, err,
  ℤ, pos, pos_part, Str, is_empty,
}
use flux_mesh.Base.Dict
use flux_mesh.Model.Service.{ServiceTrafficPolicy}
use flux_mesh.Traffic.Floats.{Floats}
use flux_mesh.Traffic.Balancer.{PlanState}
use flux_mesh.Traffic.Match.{ListenerKey}
use flux_mesh.Traffic.Plan.{Plan, UdpBinding}
use flux_mesh.Traffic.Plan.Query.{service_policy, udp_binding}
use flux_mesh.Traffic.Resolve.{ResolveError, resolve_destinations_for_attempts}
use flux_mesh.Traffic.Metrics.{apply_retry_budget, effective_max_attempts}
use flux_mesh.Traffic.Serve.{observe_upstream}
use flux_mesh.Traffic.Serve.Handler.{Setting}
use flux_mesh.Traffic.Dial.{udp_dial_address}
use flux_mesh.Traffic.Sessions.{Session, Sessions, udp_session_key, get_or_create_udp_session}

-- What the attempt with a number meets: the time at its start, what other packets do meanwhile,
-- the connection that net.DialTimeout gives, and the answer that is read of a connection before
-- its deadlines, with the time then. An answer without bytes is empty.
pub record Meets : Type 0 where
  pub started_at : ℕ → ℕ
  pub others : ℕ → Sessions → Sessions
  pub dials : ℕ → Option ℕ
  pub answers : ℕ → Session → Option Str
  pub answered_at : ℕ → ℕ
  pub elapsed : ℕ → ℕ

-- `session.lastUsed = time.Now()`, if the session still stands under its key.
touched : Str → ℕ → Session → Sessions → Option Session → Sessions
touched key now session s none = s
touched key now session s (some x) =
    if x.conn == session.conn
    then record s { open_sessions = Dict.put s.open_sessions key (record x { last_used = now }) }
    else s

-- `roundTripUDPSession`: only an answer with bytes marks the session as used.
round_trip_udp_session : Str → ℕ → Session → Sessions → Option Str → Sessions × Option Str
unfolding touched
round_trip_udp_session key now session s none = (s, none)
round_trip_udp_session key now session s (some []) = (s, some [])
round_trip_udp_session key now session s (some (b ∷ bytes)) =
    (touched key now session s (Dict.get s.open_sessions key), some (b ∷ bytes))

module _ (f : Floats) (env : Setting f) (plan : Plan f) (meets : Meets) (listener : ListenerKey)
    (client : Str) where
  -- The answer of a candidate to the packet; none or an empty one goes on to the next.
  exchange : Str → ℕ → Sessions × Option Session → Sessions × Option Str
  unfolding round_trip_udp_session
  exchange key i (s, none) = (s, none)
  exchange key i (s, some session) =
      round_trip_udp_session key (meets.answered_at i) session s (meets.answers i session)

  packet_attempt : ℤ → ℕ → Option Str → Sessions → Sessions × Option Str
  unfolding exchange
  packet_attempt ttl_ms i none s = (s, none)
  packet_attempt ttl_ms i (some addr) s =
      let key = udp_session_key listener client addr in
      exchange key i (
        get_or_create_udp_session (meets.others i) key (meets.started_at i) ttl_ms (meets.dials i)
          s)

  -- The loop over the candidates: the sessions, the state of the plan, and the answer that is
  -- written back to the client, if there is one.
  unfoldable pub packet_attempts :
      ℤ
      → ℕ
      → List Str
      → Option (PlanState f)
      → Sessions
      → Sessions × Option (PlanState f) × Option Str
  unfolding packet_attempt
  packet_attempts ttl_ms i [] state s = (s, state, none)
  packet_attempts ttl_ms i (c ∷ cs) state s =
      let attempt = packet_attempt ttl_ms i (udp_dial_address env.urls c) s in
      let rest = packet_attempts ttl_ms (suc i) cs state attempt.0 in
      elim attempt.1 [
        | none ↦ rest
        | some answer ↦
            if is_empty answer
            then rest
            else (attempt.0, observe_upstream f c (meets.elapsed i) state, some answer)
      ]

  -- A missing policy reads as the zero one.
  packet_budget : Option (ServiceTrafficPolicy f.Float) → ℤ × ℕ
  packet_budget none = (pos 0, 1)
  packet_budget (some p) = (
    p.udp.session_ttl_ms,
    pos_part (
        apply_retry_budget (effective_max_attempts p.retry.max_attempts)
          (env.budget_of p.retry.budget_ratio)),
  )

  packet_resolved :
      ℤ
      → Sessions
      → Option (PlanState f) × Result ResolveError (List Str)
      → Sessions × Option (PlanState f) × Option Str
  unfolding packet_attempts
  packet_resolved ttl_ms s (state, err e) = (s, state, none)
  packet_resolved ttl_ms s (state, ok candidates) = packet_attempts ttl_ms 0 candidates state s

  packet_bound :
      Option (PlanState f)
      → Sessions
      → Option UdpBinding
      → Sessions × Option (PlanState f) × Option Str
  unfolding packet_resolved packet_budget
  packet_bound state s none = (s, state, none)
  packet_bound state s (some b) =
      let (ttl_ms, attempts) = packet_budget (service_policy f plan b.service_name) in
      packet_resolved ttl_ms s (
        resolve_destinations_for_attempts f env.registry env.draws env.net plan b.destination
          attempts state)

  unfoldable pub handle_udp_packet :
      Option (PlanState f) → Sessions → Sessions × Option (PlanState f) × Option Str
  unfolding packet_bound
  handle_udp_packet state s = packet_bound state s (udp_binding f plan listener.addr listener.port)
