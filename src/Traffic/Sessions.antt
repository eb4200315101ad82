-- ===== src/Traffic/Sessions.antt =====
-- internal/traffic/server.go: the UDP sessions, one connection to an upstream for each client,
-- and the packets that go through them (`handleUDPPacket`). A connection is its number; dialling
-- and the exchange of packets are parameters. Times are in nanoseconds.
pub mod Reaped
pub mod Kept
pub mod Packet
use flux_mesh.Base.{
  ℕ, zero, suc, ◌+◌, ◌*◌, Bool, true, false, not, Option, none, some, List, [], ◌∷◌, ◌++◌, map,
  keep, any, if◌then◌else◌, ◌==◌, nat_beq, Result, ok, err, ℤ, pos, negsuc, pos_part, leb_ℤ, ◌+ℤ◌,
  Str, codes, str_eq, trim_space, before_byte, is_empty,
}
use flux_mesh.Base.Dict
use flux_mesh.Base.Dict.{Dict}
use flux_mesh.Model.Service.{ServiceTrafficPolicy}
use flux_mesh.Traffic.Floats.{Floats}
use flux_mesh.Traffic.Balancer.{PlanState}
use flux_mesh.Traffic.Match.{ListenerKey}
use flux_mesh.Traffic.Plan.{Plan, UdpBinding, listener_map_key}
use flux_mesh.Traffic.Plan.Query.{service_policy, udp_binding}
use flux_mesh.Traffic.Resolve.{ResolveError, resolve_destinations_for_attempts}
use flux_mesh.Traffic.Metrics.{apply_retry_budget, effective_max_attempts}
use flux_mesh.Traffic.Serve.{observe_upstream}
use flux_mesh.Traffic.Serve.Handler.{Setting}
use flux_mesh.Traffic.Dial.{udp_dial_address}

pub record Session : Type 0 where
  pub conn : ℕ
  pub last_used : ℕ

-- The sessions by key, and the connections that were closed, in order.
pub record Sessions : Type 0 where
  pub open_sessions : Dict Str Session
  pub closed : List ℕ

unfoldable pub udp_session_key : ListenerKey → Str → Str → Str
udp_session_key listener client upstream =
    listener_map_key listener.addr listener.port
    ++ codes "|"
    ++ client
    ++ codes "|"
    ++ trim_space upstream

-- A number of milliseconds in nanoseconds.
scaled : ℤ → ℤ
scaled (pos n) = pos (n * 1000000)
scaled (negsuc n) = negsuc (n * 1000000 + 999999)

-- `now.Sub(last) <= ttl`, with the time to live in milliseconds.
unfoldable pub is_live : ℕ → ℤ → Session → Bool
unfolding scaled
is_live now ttl_ms s = leb_ℤ (pos now) (pos s.last_used +ℤ scaled ttl_ms)

close_conn : ℕ → Sessions → Sessions
close_conn conn s = record s { closed = s.closed ++ conn ∷ [] }

use_or_close : Str → ℕ → ℤ → Sessions → Option Session → Sessions × Option Session
unfolding is_live close_conn
use_or_close key now ttl_ms s none = (s, none)
use_or_close key now ttl_ms s (some existing) =
    let used : Session = record existing { last_used = now } in
    let without = record s { open_sessions = Dict.remove s.open_sessions key } in
    if is_live now ttl_ms existing
    then (record s { open_sessions = Dict.put s.open_sessions key used }, some used)
    else (close_conn existing.conn without, none)

-- The first critical section of `getOrCreateUDPSession`: a session that is live is used again,
-- one that has expired is deleted and closed.
unfoldable pub find_session : Str → ℕ → ℤ → Sessions → Sessions × Option Session
unfolding use_or_close
find_session key now ttl_ms s = use_or_close key now ttl_ms s (Dict.get s.open_sessions key)

add_unless : Str → Session → Sessions → Option Session → Sessions × Session
unfolding close_conn
add_unless key fresh s none =
    (record s { open_sessions = Dict.put s.open_sessions key fresh }, fresh)
add_unless key fresh s (some existing) = (close_conn fresh.conn s, existing)

-- The second: a session that another packet has added meanwhile is used, and the connection that
-- was dialled is closed.
unfoldable pub add_session : Str → ℕ → ℕ → Sessions → Sessions × Session
unfolding add_unless
add_session key conn now s =
    add_unless key (record { conn = conn; last_used = now }) s (Dict.get s.open_sessions key)

-- What other packets do between the two sections is `others`; `dialled` is the new connection,
-- or none for an error.
create_session :
    (Sessions → Sessions)
    → Str
    → ℕ
    → Option ℕ
    → Sessions × Option Session
    → Sessions × Option Session
unfolding add_session
create_session others key now dialled (s, some existing) = (s, some existing)
create_session others key now none (s, none) = (others s, none)
create_session others key now (some conn) (s, none) =
    let (s', session) = add_session key conn now (others s) in (s', some session)

unfoldable pub get_or_create_udp_session :
    (Sessions → Sessions) → Str → ℕ → ℤ → Option ℕ → Sessions → Sessions × Option Session
unfolding create_session find_session
get_or_create_udp_session others key now ttl_ms dialled s =
    create_session others key now dialled (find_session key now ttl_ms s)

module _ (f : Floats) (plan : Plan f) where
  ttl_of_policy : Option (ServiceTrafficPolicy f.Float) → ℤ
  ttl_of_policy none = pos 30000
  ttl_of_policy (some p) = p.udp.session_ttl_ms

  ttl_of_binding : Option UdpBinding → ℤ
  ttl_of_binding none = pos 30000
  ttl_of_binding (some b) = ttl_of_policy (service_policy f plan b.service_name)

  -- The time to live of a session, in milliseconds, by the listener that its key starts with.
  unfoldable pub session_ttl : Str → ℤ
  unfolding ttl_of_binding ttl_of_policy
  session_ttl key =
      if any (λ c. nat_beq c 124) key
      then ttl_of_binding (Dict.get plan.udp_bindings (before_byte 124 key))
      else pos 30000

  abbrev pub survives : ℕ → Str × Session → Bool
  survives now p = is_live now (session_ttl p.0) p.1

  unfoldable pub reap_udp_sessions : ℕ → Sessions → Sessions
  unfolding is_live session_ttl
  reap_udp_sessions now s = record {
    open_sessions = keep (survives now) s.open_sessions;
    closed = s.closed ++ map (λ p. p.1.conn) (keep (λ p. not (survives now p)) s.open_sessions);
  }
