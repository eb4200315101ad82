-- ===== src/Model/Service/Validate.antt =====
-- `Validate` of internal/model/service.go. What it asks of the packages net and fmt is a
-- parameter: whether a text is an IPv4 address, the parts of host:port, the number of a text.
pub mod Accepted
use flux_mesh.Base.{
  ℕ, zero, suc, Bool, true, false, not, ◌&&◌, ◌||◌, Option, none, some, List, [], ◌∷◌, any, all,
  leb, if◌then◌else◌, ◌==◌, ℤ, pos, leb_ℤ, ltb_ℤ, Str, codes, str_eq, trim_space, to_lower,
  has_prefix, is_empty, nat_beq,
}
use flux_mesh.Model.Service.{
  BackendTarget, BackendGroup, ServiceRoute, UdpPolicy, ServiceTrafficPolicy, ServiceConfig,
}

-- An index is the position of the offender in its list.
pub data ConfigError : Type 0 where
  name_required port_required port_range listener_addr proxy_layer lb_strategy sample_rate :
      ConfigError
  dial_timeout read_timeout write_timeout session_ttl packet_size protocols_empty no_routes :
      ConfigError
  protocol_unsupported group_name_required group_name_duplicated group_targets : ℕ → ConfigError
  route_hosts route_prefix_required route_prefix_slash route_destination route_weight :
      ℕ → ConfigError
  target_addr_required target_addr_form target_weight route_host_empty : ℕ → ℕ → ConfigError

-- `if bad { return err }`, and the rest of the body.
abbrev pub refuse : Bool → ConfigError → Option ConfigError → Option ConfigError
refuse bad e rest = if bad then some e else rest

-- The error of a loop, or the rest of the body.
abbrev pub or_else : Option ConfigError → Option ConfigError → Option ConfigError
or_else none rest = rest
or_else (some e) rest = some e

abbrev pub outside : ℕ → ℕ → ℤ → Bool
outside lo hi n = ltb_ℤ n (pos lo) || ltb_ℤ (pos hi) n

is_strategy_byte : ℕ → Bool
is_strategy_byte c = leb 97 c && leb c 122 || leb 48 c && leb c 57 || nat_beq c 45

unfoldable pub is_valid_lb_strategy : Str → Bool
unfolding is_strategy_byte
is_valid_lb_strategy strategy =
    let s = to_lower (trim_space strategy) in
    if is_empty s
    then true
    else if s == codes "load-first"
        || s == codes "latency-first"
        || s == codes "round-robin"
        || s == codes "rr"
        || s == codes "random"
        || s == codes "rand"
    then true
    else all is_strategy_byte s

protocol_of : Str → Option Str
protocol_of layer =
    if layer == codes "l7-http"
    then some (codes "http")
    else if layer == codes "l4-tcp"
    then some (codes "tcp")
    else if layer == codes "l4-udp"
    then some (codes "udp")
    else none

-- One element of the loop over the protocols: the layer's `switch`.
protocol_error : ℕ → Str → Option Str → Option ConfigError
protocol_error i p none = some proxy_layer
protocol_error i p (some name) = if p == name then none else some (protocol_unsupported i)

check_protocols : Str → ℕ → List Str → Option ConfigError
unfolding protocol_of protocol_error
check_protocols layer i [] = none
check_protocols layer i (p ∷ ps) =
    or_else (protocol_error i (to_lower (trim_space p)) (protocol_of layer))
      (check_protocols layer (suc i) ps)

check_hosts : ℕ → ℕ → List Str → Option ConfigError
check_hosts i j [] = none
check_hosts i j (h ∷ hs) =
    refuse (is_empty (trim_space h)) (route_host_empty i j) (check_hosts i (suc j) hs)

check_route : ℕ → ServiceRoute → Option ConfigError
unfolding check_hosts
check_route i r = refuse (is_empty r.hosts) (route_hosts i) (
    or_else (check_hosts i 0 r.hosts) (
      refuse (is_empty (trim_space r.path_prefix)) (route_prefix_required i) (
        refuse (not (has_prefix (trim_space r.path_prefix) (codes "/"))) (route_prefix_slash i) (
          refuse (is_empty (trim_space r.destination)) (route_destination i)
            (refuse (outside 1 100 r.weight) (route_weight i) none)))))

check_routes : ℕ → List ServiceRoute → Option ConfigError
unfolding check_route
check_routes i [] = none
check_routes i (r ∷ rs) = or_else (check_route i r) (check_routes (suc i) rs)

check_udp : UdpPolicy → Option ConfigError
check_udp u = refuse (outside 1 60000 u.dial_timeout_ms) dial_timeout (
    refuse (outside 1 60000 u.read_timeout_ms) read_timeout (
      refuse (outside 1 60000 u.write_timeout_ms) write_timeout (
        refuse (outside 100 3600000 u.session_ttl_ms) session_ttl
          (refuse (outside 512 65535 u.max_packet_size) packet_size none))))

-- What is used of the packages net and fmt.
pub record Parsers : Type 0 where
  pub is_ipv4 : Str → Bool  -- net.ParseIP and To4
  pub split_host_port : Str → Option (Str × Str)
  pub sscan_int : Str → Option ℤ

module _ (p : Parsers) where
  is_valid_listener_addr : Str → Bool
  is_valid_listener_addr addr =
      let trimmed = trim_space addr in if is_empty trimmed then false else p.is_ipv4 trimmed

  port_ok : Option ℤ → Bool
  port_ok none = false
  port_ok (some port) = leb_ℤ (pos 1) port && leb_ℤ port (pos 65535)

  host_port_ok : Option (Str × Str) → Bool
  host_port_ok none = false
  host_port_ok (some (host, port)) =
      if is_empty (trim_space host) then false else port_ok (p.sscan_int port)

  unfoldable pub is_valid_target_addr : Str → Bool
  unfolding host_port_ok port_ok
  is_valid_target_addr addr = host_port_ok (p.split_host_port (trim_space addr))

  check_targets : ℕ → ℕ → List BackendTarget → Option ConfigError
  unfolding is_valid_target_addr
  check_targets i j [] = none
  check_targets i j (t ∷ ts) = refuse (is_empty (trim_space t.addr)) (target_addr_required i j) (
      refuse (not (is_valid_target_addr t.addr)) (target_addr_form i j)
        (refuse (outside 1 100 t.weight) (target_weight i j) (check_targets i (suc j) ts)))

  -- `seen` is the set `backendNames`.
  check_groups : List Str → ℕ → List BackendGroup → Option ConfigError
  unfolding check_targets
  check_groups seen i [] = none
  check_groups seen i (g ∷ gs) =
      let name = trim_space g.name in
      refuse (is_empty name) (group_name_required i) (
        refuse (any (λ s. s == name) seen) (group_name_duplicated i) (
          refuse (is_empty g.targets) (group_targets i)
            (or_else (check_targets i 0 g.targets) (check_groups (name ∷ seen) (suc i) gs))))

  check_policy : {F : Type 0} → ServiceTrafficPolicy F → Option ConfigError
  unfolding is_valid_listener_addr check_udp check_protocols
  check_policy t =
      let layer = trim_space t.proxy.layer in
      refuse (leb_ℤ t.listener.port (pos 0)) port_required (
        refuse (ltb_ℤ (pos 65535) t.listener.port) port_range (
          refuse (not (is_valid_listener_addr t.listener.addr)) listener_addr (
            refuse
              (not (layer == codes "l7-http")
                && not (layer == codes "l4-tcp")
                && not (layer == codes "l4-udp"))
              proxy_layer
              (refuse (not (is_valid_lb_strategy t.lb.strategy)) lb_strategy (
                refuse (outside 1 10000 t.observability.metrics_sample_rate) sample_rate (
                  or_else (check_udp t.udp) (
                    refuse (is_empty t.protocols) protocols_empty
                      (check_protocols layer 0 t.protocols))))))))

  -- `none` is nil.
  unfoldable pub validate : {F : Type 0} → ServiceConfig F → Option ConfigError
  unfolding check_policy check_groups check_routes
  validate s = refuse (is_empty (trim_space s.name)) name_required (
      or_else (check_policy s.traffic_policy) (
        refuse (is_empty s.routes) no_routes
          (or_else (check_groups [] 0 s.backend_groups) (check_routes 0 s.routes))))
