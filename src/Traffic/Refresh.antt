-- ===== src/Traffic/Refresh.antt =====
-- internal/traffic/server.go: how the listeners follow the services (`refresh`). Whether a socket
-- can be bound is a parameter; what is logged, and the errors of a close, are left out.
pub mod Converge
pub mod Again
use flux_mesh.Base.{
  ℕ, Bool, true, false, not, Option, none, some, List, [], ◌∷◌, ◌++◌, map, keep, length,
  if◌then◌else◌, ◌==◌, Result, ok, err, ℤ, pos, ltb_ℤ, leb_ℤ, ◌+ℤ◌, Str, codes, str_eq, str_lt,
  trim_space, itoa, is_empty,
}
use flux_mesh.Base.Dict
use flux_mesh.Base.Dict.{Dict}
use flux_mesh.Base.Sorting.{sort_stable}
use flux_mesh.Model.Service.{ServiceConfig, ServiceTrafficPolicy, UdpPolicy}
use flux_mesh.Model.Service.Validate.{Parsers}
use flux_mesh.Traffic.Floats.{Floats}
use flux_mesh.Traffic.Match.{ListenerKey}
use flux_mesh.Traffic.Plan.{
  ListenerPlan, TcpBinding, UdpBinding, Plan, PlanError, listener_map_key, build_plan, itoa_ℤ,
}
use flux_mesh.Traffic.Plan.Query.{listeners, tcp_bindings, udp_bindings, service_policy}

unfoldable pub next_service_watch_revision : {F : Type 0} → ℤ → List (ServiceConfig F) → ℤ
next_service_watch_revision highest [] = if leb_ℤ highest (pos 0) then pos 1 else highest +ℤ pos 1
next_service_watch_revision highest (s ∷ ss) =
    next_service_watch_revision
      (if ltb_ℤ highest s.resource_version then s.resource_version else highest) ss

unfoldable pub entry_before : Str × ℤ → Str × ℤ → Bool
entry_before a b = if not (a.0 == b.0) then str_lt a.0 b.0 else ltb_ℤ a.1 b.1

snapshot_entries : List (Str × ℤ) → Str
snapshot_entries [] = []
snapshot_entries (e ∷ es) = codes "|" ++ e.0 ++ codes "@" ++ itoa_ℤ e.1 ++ snapshot_entries es

unfoldable pub service_snapshot_key : {F : Type 0} → List (ServiceConfig F) → Str
unfolding snapshot_entries entry_before
service_snapshot_key [] = codes "empty"
service_snapshot_key (s ∷ ss) =
    let entries =
      sort_stable entry_before (map (λ c. (trim_space c.name, c.resource_version)) (s ∷ ss)) in
    codes "n=" ++ itoa (length entries) ++ snapshot_entries entries

-- Times in milliseconds.
pub record UdpOptions : Type 0 where
  pub max_packet_size : ℤ
  pub dial_timeout : ℤ
  pub read_timeout : ℤ
  pub write_timeout : ℤ
  pub session_ttl : ℤ

-- A missing policy reads as the zero one.
unfoldable pub build_udp_runtime_options :
    {F : Type 0} → Option (ServiceTrafficPolicy F) → UdpOptions
build_udp_runtime_options none = record {
  max_packet_size = pos 0;
  dial_timeout = pos 0;
  read_timeout = pos 0;
  write_timeout = pos 0;
  session_ttl = pos 0;
}
build_udp_runtime_options (some p) = record {
  max_packet_size = p.udp.max_packet_size;
  dial_timeout = p.udp.dial_timeout_ms;
  read_timeout = p.udp.read_timeout_ms;
  write_timeout = p.udp.write_timeout_ms;
  session_ttl = p.udp.session_ttl_ms;
}

-- A map that is filled from a list, with the key of each element.
unfoldable pub keyed : {A : Type 0} → (A → Str) → Dict Str A → List A → Dict Str A
keyed key m [] = m
keyed key m (a ∷ rest) = keyed key (Dict.put m (key a) a) rest

abbrev pub is_in : {A : Type 0} → Dict Str A → Str → Bool
is_in m k = elim (Dict.get m k) [ none ↦ false | some a ↦ true ]

-- The listeners that are no longer desired are closed and deleted.
unfoldable pub close_undesired : {A B : Type 0} → Dict Str A → Dict Str B → Dict Str B
close_undesired desired = keep (λ p. is_in desired p.0)

-- A desired listener is opened unless one runs under its key, or the key cannot be bound.
open_unless : {B : Type 0} → Option B → Option B → Str → Dict Str B → Dict Str B
open_unless (some old) opened k running = running
open_unless none none k running = running
open_unless none (some b) k running = Dict.put running k b

-- `start` says what runs under a key that can be bound.
unfoldable pub open_missing :
    {A B : Type 0} → (Str → A → Option B) → Dict Str A → Dict Str B → Dict Str B
unfolding open_unless
open_missing start [] running = running
open_missing start ((k, a) ∷ desired) running =
    open_missing start desired (open_unless (Dict.get running k) (start k a) k running)

pub data RefreshError (E : Type 0) : Type 0 where
  list_failed : E → RefreshError E
  plan_failed : PlanError → RefreshError E

-- Whether ListenAndServe, net.Listen, and net.ResolveUDPAddr with net.ListenUDP bind a key.
pub record Binds : Type 0 where
  pub http_binds : Str → Bool
  pub tcp_binds : Str → Bool
  pub udp_binds : Str → Bool

-- An HTTP server, which is registered before its goroutine calls ListenAndServe: whether that has
-- bound it.
pub record HttpServer : Type 0 where
  pub listener : ListenerKey
  pub serving : Bool

module _ (f : Floats) where
  -- What of the server `refresh` uses; `plan` is none before the first refresh. A listener is
  -- known by what its goroutine was started with: for UDP also its options.
  pub record Runtime : Type 0 where
    pub plan : Option (Plan f)
    pub last_snapshot : Str
    pub watch_revision : ℤ
    pub http : Dict Str HttpServer
    pub tcp : Dict Str ListenerKey
    pub udp : Dict Str UdpOptions
    pub udp_options : Dict Str UdpOptions

  unfoldable pub desired_http : Plan f → Dict Str ListenerPlan
  unfolding keyed
  desired_http plan =
      keyed (λ l. listener_map_key l.listener.addr l.listener.port) [] (listeners f plan)

  unfoldable pub desired_tcp : Plan f → Dict Str TcpBinding
  unfolding keyed
  desired_tcp plan =
      keyed (λ b. listener_map_key b.listener.addr b.listener.port) [] (tcp_bindings f plan)

  unfoldable pub desired_udp : Plan f → Dict Str UdpBinding
  unfolding keyed
  desired_udp plan =
      keyed (λ b. listener_map_key b.listener.addr b.listener.port) [] (udp_bindings f plan)

  unfoldable pub options_of : Plan f → UdpBinding → UdpOptions
  unfolding build_udp_runtime_options
  options_of plan b = build_udp_runtime_options (service_policy f plan b.service_name)

  abbrev pub open_http : Binds → Str → ListenerPlan → Option HttpServer
  open_http binds k l = some (record { listener = l.listener; serving = binds.http_binds k })

  abbrev pub open_tcp : Binds → Str → TcpBinding → Option ListenerKey
  open_tcp binds k b = if binds.tcp_binds k then some b.listener else none

  abbrev pub open_udp : Binds → Plan f → Str → UdpBinding → Option UdpOptions
  open_udp binds plan k b = if binds.udp_binds k then some (options_of plan b) else none

  -- The options of the UDP listeners that go on; those of the others are deleted.
  unfoldable pub renew_options :
      Plan f → Dict Str UdpBinding → Dict Str UdpOptions → Dict Str UdpOptions → Dict Str UdpOptions
  unfolding options_of
  renew_options plan desired [] options = options
  renew_options plan desired ((k, o) ∷ running) options = elim (Dict.get desired k) [
    | some b ↦ renew_options plan desired running (Dict.put options k (options_of plan b))
    | none ↦ renew_options plan desired running (Dict.remove options k)
  ]

  -- The options of the UDP listeners that are opened.
  unfoldable pub open_options :
      Binds
      → Plan f
      → Dict Str UdpBinding
      → Dict Str UdpOptions
      → Dict Str UdpOptions
      → Dict Str UdpOptions
  unfolding options_of
  open_options binds plan [] running options = options
  open_options binds plan ((k, b) ∷ desired) running options =
      let rest = open_options binds plan desired running options in
      let opened =
        open_options binds plan desired running (Dict.put options k (options_of plan b)) in
      if is_in running k then rest else if binds.udp_binds k then opened else rest

  abbrev pub raise_revision : ℤ → Runtime → Runtime
  raise_revision next s = record s {
    watch_revision = if ltb_ℤ s.watch_revision next then next else s.watch_revision;
  }

  -- The new plan keeps the state of the old one.
  unfoldable pub keep_state : Option (Plan f) → Plan f → Plan f
  keep_state none plan = plan
  keep_state (some old) plan = record plan { state = old.state }

  unfoldable pub apply_plan : Binds → Str → ℤ → Plan f → Runtime → Runtime
  unfolding keep_state desired_http desired_tcp desired_udp close_undesired open_missing
      renew_options open_options
  apply_plan binds snapshot next plan s =
      let dh = desired_http plan in
      let dt = desired_tcp plan in
      let du = desired_udp plan in
      let kept = close_undesired du s.udp in
      let raised = raise_revision next s in
      record raised {
        plan = some (keep_state s.plan plan);
        last_snapshot = snapshot;
        http = open_missing (open_http binds) dh (close_undesired dh s.http);
        tcp = open_missing (open_tcp binds) dt (close_undesired dt s.tcp);
        udp = open_missing (open_udp binds plan) du kept;
        udp_options = open_options binds plan du kept (renew_options plan du s.udp s.udp_options);
      }

  refresh_planned :
      {E : Type 0}
      → Binds
      → Str
      → ℤ
      → Result PlanError (Plan f)
      → Runtime
      → Runtime × Option (RefreshError E)
  unfolding apply_plan
  refresh_planned binds snapshot next (err e) s = (s, some (plan_failed e))
  refresh_planned binds snapshot next (ok plan) s = (apply_plan binds snapshot next plan s, none)

  -- What `List` returned is an argument.
  unfoldable pub refresh :
      {E : Type 0}
      → Parsers
      → Binds
      → Result E (List (ServiceConfig f.Float))
      → Runtime
      → Runtime × Option (RefreshError E)
  unfolding refresh_planned
  refresh parsers binds (err e) s = (s, some (list_failed e))
  refresh parsers binds (ok items) s =
      let next = next_service_watch_revision (pos 0) items in
      let snapshot = service_snapshot_key items in
      let planned = refresh_planned binds snapshot next (build_plan f parsers items) s in
      if snapshot == s.last_snapshot then (raise_revision next s, none) else planned

  unfoldable pub get_service_watch_revision : Runtime → ℤ
  get_service_watch_revision s = if leb_ℤ s.watch_revision (pos 0) then pos 1 else s.watch_revision
