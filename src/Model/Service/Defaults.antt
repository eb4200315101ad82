-- ===== src/Model/Service/Defaults.antt =====
-- `ApplyDefaults` of internal/model/service.go.
use flux_mesh.Base.{List, [], ◌∷◌, map, ℤ, pos, int_eq, Str, codes, str_eq, ◌≡◌, refl, arith}
use mathlib.Core.Path.{ap₂}
use flux_mesh.Model.Service.{
  BackendTarget, BackendGroup, ServiceRoute, UdpPolicy, ServiceTrafficPolicy, ServiceConfig,
  default_text, default_int, default_protocols, default_weight, default_route, default_target,
  default_group, default_udp, default_policy, apply_defaults,
}

default_weight_twice : (w : ℤ) → default_weight (default_weight w) ≡ default_weight w
unfolding default_weight
default_weight_twice w = ground arith

default_int_twice : (d n : ℤ) → default_int d (default_int d n) ≡ default_int d n
unfolding default_int
default_int_twice d n = ground arith

default_text_twice : (d s : Str) → default_text d (default_text d s) ≡ default_text d s
unfolding default_text
default_text_twice d s = ground arith

default_protocols_twice :
    (l : Str) (ps : List Str)
    → default_protocols l (default_protocols l ps) ≡ default_protocols l ps
unfolding default_protocols
default_protocols_twice l ps = ground arith

default_route_twice : (r : ServiceRoute) → default_route (default_route r) ≡ default_route r
unfolding default_route
default_route_twice r = ground (arith, default_weight_twice r.weight)

default_target_twice : (t : BackendTarget) → default_target (default_target t) ≡ default_target t
unfolding default_target
default_target_twice t = ground (arith, default_weight_twice t.weight)

map_twice {ℓ} :
    {A : Type ℓ} (f : A → A) → ((x : A) → f (f x) ≡ f x) → (l : List A) → map f (map f l) ≡ map f l
map_twice f h [] = refl
map_twice f h (x ∷ l) = ap₂ ◌∷◌ (h x) (map_twice f h l)

default_group_twice : (g : BackendGroup) → default_group (default_group g) ≡ default_group g
unfolding default_group
default_group_twice g = ground (arith, map_twice default_target default_target_twice g.targets)

default_udp_twice : (u : UdpPolicy) → default_udp (default_udp u) ≡ default_udp u
unfolding default_udp
default_udp_twice u = ground (
  arith,
  default_int_twice (pos 2000) u.dial_timeout_ms,
  default_int_twice (pos 2000) u.read_timeout_ms,
  default_int_twice (pos 2000) u.write_timeout_ms,
  default_int_twice (pos 30000) u.session_ttl_ms,
  default_int_twice (pos 65535) u.max_packet_size,
)

module _ {F : Type 0} where
  default_policy_twice :
      (p : ServiceTrafficPolicy F) → default_policy (default_policy p) ≡ default_policy p
  unfolding default_policy
  default_policy_twice p =
      let layer = default_text (codes "l7-http") p.proxy.layer in
      ground (
        arith,
        default_text_twice (codes "l7-http") p.proxy.layer,
        default_text_twice (codes "0.0.0.0") p.listener.addr,
        default_protocols_twice layer p.protocols,
        default_int_twice (pos 1) p.observability.metrics_sample_rate,
        default_udp_twice p.udp,
      )

  -- Filling in the defaults a second time changes nothing.
  pub apply_defaults_twice :
      (s : ServiceConfig F) → apply_defaults (apply_defaults s) ≡ apply_defaults s
  unfolding apply_defaults
  apply_defaults_twice s = ground (
    arith,
    default_policy_twice s.traffic_policy,
    map_twice default_route default_route_twice s.routes,
    map_twice default_group default_group_twice s.backend_groups,
  )
