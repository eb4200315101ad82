-- ===== src/Model/Service.antt =====
-- internal/model/service.go: the configuration of a service, its defaults and its validation.
-- A float64 is a parameter `F`; it is only carried. Error texts are constructors.
pub mod Validate
pub mod Defaults
pub mod Minimal
use flux_mesh.Base.{
  ℕ, Bool, true, false, Option, none, some, List, [], ◌∷◌, map, if◌then◌else◌, ◌==◌, ℤ, pos, leb_ℤ,
  beq_ℤ, int_eq, Str, codes, str_eq, trim_space, to_lower, is_empty,
}
use flux_mesh.Base.Dict.{Dict}

pub record BackendTarget : Type 0 where
  pub addr : Str
  pub weight : ℤ
  pub tags : Dict Str Str

pub record BackendGroup : Type 0 where
  pub name : Str
  pub targets : List BackendTarget

pub record ServiceRoute : Type 0 where
  pub hosts : List Str
  pub path_prefix : Str
  pub destination : Str
  pub weight : ℤ

pub record ProxyPolicy : Type 0 where
  pub layer : Str

pub record ListenerPolicy : Type 0 where
  pub addr : Str
  pub port : ℤ

pub record UdpPolicy : Type 0 where
  pub dial_timeout_ms : ℤ
  pub read_timeout_ms : ℤ
  pub write_timeout_ms : ℤ
  pub session_ttl_ms : ℤ
  pub max_packet_size : ℤ

pub record LbPolicy : Type 0 where
  pub strategy : Str

pub record RetryPolicy (F : Type 0) : Type 0 where
  pub max_attempts : ℤ
  pub budget_ratio : F

pub record RelayPolicy : Type 0 where
  pub max_hops : ℤ

pub record ObservabilityPolicy : Type 0 where
  pub metrics_sample_rate : ℤ

pub record ServiceTrafficPolicy (F : Type 0) : Type 0 where
  pub proxy : ProxyPolicy
  pub protocols : List Str
  pub listener : ListenerPolicy
  pub udp : UdpPolicy
  pub lb : LbPolicy
  pub retry : RetryPolicy F
  pub relay : RelayPolicy
  pub observability : ObservabilityPolicy

pub record ServiceConfig (F : Type 0) : Type 0 where
  pub name : Str
  pub namespace : Str
  pub version : Str
  pub resource_version : ℤ
  pub updated_at : Str
  pub updated_by : Str
  pub routes : List ServiceRoute
  pub backend_groups : List BackendGroup
  pub traffic_policy : ServiceTrafficPolicy F

default_text : Str → Str → Str
default_text d s = if is_empty (trim_space s) then d else s

default_int : ℤ → ℤ → ℤ
default_int d n = if leb_ℤ n (pos 0) then d else n

default_protocols : Str → List Str → List Str
default_protocols layer protocols =
    let l = to_lower (trim_space layer) in
    if is_empty protocols
    then (if l == codes "l4-tcp"
        then codes "tcp" ∷ []
        else if l == codes "l4-udp"
        then codes "udp" ∷ []
        else codes "http" ∷ [])
    else protocols

default_weight : ℤ → ℤ
default_weight w = if w == pos 0 then pos 100 else w

default_route : ServiceRoute → ServiceRoute
default_route r = record r {
  weight = default_weight r.weight;
  hosts = if is_empty r.hosts then codes "*" ∷ [] else r.hosts;
}

default_target : BackendTarget → BackendTarget
default_target t = record t { weight = default_weight t.weight }

default_group : BackendGroup → BackendGroup
default_group g = record g { targets = map default_target g.targets }

default_udp : UdpPolicy → UdpPolicy
default_udp u = record {
  dial_timeout_ms = default_int (pos 2000) u.dial_timeout_ms;
  read_timeout_ms = default_int (pos 2000) u.read_timeout_ms;
  write_timeout_ms = default_int (pos 2000) u.write_timeout_ms;
  session_ttl_ms = default_int (pos 30000) u.session_ttl_ms;
  max_packet_size = default_int (pos 65535) u.max_packet_size;
}

module _ {F : Type 0} where
  default_policy : ServiceTrafficPolicy F → ServiceTrafficPolicy F
  default_policy p =
      let layer = default_text (codes "l7-http") p.proxy.layer in
      record p {
        listener = record p.listener { addr = default_text (codes "0.0.0.0") p.listener.addr };
        proxy = record { layer = layer };
        protocols = default_protocols layer p.protocols;
        observability = record {
          metrics_sample_rate = default_int (pos 1) p.observability.metrics_sample_rate;
        };
        udp = default_udp p.udp;
      }

  unfoldable pub apply_defaults : ServiceConfig F → ServiceConfig F
  unfolding default_policy default_udp default_group default_route default_target default_weight
      default_int default_text default_protocols
  apply_defaults s = record s {
    traffic_policy = default_policy s.traffic_policy;
    routes = map default_route s.routes;
    backend_groups = map default_group s.backend_groups;
  }
