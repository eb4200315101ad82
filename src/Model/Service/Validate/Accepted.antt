-- ===== src/Model/Service/Validate/Accepted.antt =====
-- What `Validate` of internal/model/service.go promises of a configuration that it accepts, and
-- that the defaults make a minimal configuration acceptable.
use flux_mesh.Base.{
  ℕ, suc, true, false, none, List, [], ◌∷◌, any, ◌==◌, ℤ, pos, ◌≤ℤ◌, Str, codes, str_eq,
  str_beq_iff, trim_space, to_lower, has_prefix, is_empty, ◌≡◌, ◌≢◌, ◌⊎◌, arith, All,
}
use flux_mesh.Model.Service.{
  BackendTarget, BackendGroup, ServiceRoute, UdpPolicy, ServiceTrafficPolicy, ServiceConfig,
}
use flux_mesh.Model.Service.Validate.{
  Parsers, check_protocols, check_route, check_routes, check_udp, check_targets, check_groups,
  check_policy, validate, is_valid_target_addr,
}

abbrev pub InRange : ℕ → ℕ → ℤ → Type 0
InRange lo hi n = (pos lo ≤ℤ n) × (n ≤ℤ pos hi)

pub record IsGoodRoute (r : ServiceRoute) : Type 0 where
  pub hosts : is_empty r.hosts ≡ false
  pub slash : has_prefix (trim_space r.path_prefix) (codes "/") ≡ true
  pub destination : is_empty (trim_space r.destination) ≡ false
  pub weight : InRange 1 100 r.weight

pub record IsGoodTarget (p : Parsers) (t : BackendTarget) : Type 0 where
  pub addr : is_valid_target_addr p t.addr ≡ true
  pub weight : InRange 1 100 t.weight

pub record IsGoodGroup (p : Parsers) (g : BackendGroup) : Type 0 where
  pub name : is_empty (trim_space g.name) ≡ false
  pub some_target : is_empty g.targets ≡ false
  pub targets : All (IsGoodTarget p) g.targets

-- The names that the program knows the groups by are distinct, and none is among `seen`.
abbrev pub AreFresh : List Str → List BackendGroup → Type 0
AreFresh seen [] = Unit
AreFresh seen (g ∷ gs) =
    All (λ s. s ≢ trim_space g.name) seen × AreFresh (trim_space g.name ∷ seen) gs

pub record IsGoodUdp (u : UdpPolicy) : Type 0 where
  pub dial : InRange 1 60000 u.dial_timeout_ms
  pub read : InRange 1 60000 u.read_timeout_ms
  pub write : InRange 1 60000 u.write_timeout_ms
  pub ttl : InRange 100 3600000 u.session_ttl_ms
  pub packet : InRange 512 65535 u.max_packet_size

-- The protocol that goes with a layer.
abbrev pub Speaks : Str → Str → Type 0
Speaks layer p =
    ((layer ≡ codes "l7-http") × (to_lower (trim_space p) ≡ codes "http"))
    ⊎ ((layer ≡ codes "l4-tcp") × (to_lower (trim_space p) ≡ codes "tcp"))
    ⊎ ((layer ≡ codes "l4-udp") × (to_lower (trim_space p) ≡ codes "udp"))

pub record IsGoodPolicy {F : Type 0} (t : ServiceTrafficPolicy F) : Type 0 where
  pub port : InRange 1 65535 t.listener.port
  pub sample_rate : InRange 1 10000 t.observability.metrics_sample_rate
  pub udp : IsGoodUdp t.udp
  pub some_protocol : is_empty t.protocols ≡ false
  pub protocols : All (Speaks (trim_space t.proxy.layer)) t.protocols

pub record IsAccepted {F : Type 0} (p : Parsers) (s : ServiceConfig F) : Type 0 where
  pub name : is_empty (trim_space s.name) ≡ false
  pub policy : IsGoodPolicy s.traffic_policy
  pub some_route : is_empty s.routes ≡ false
  pub groups : All (IsGoodGroup p) s.backend_groups
  pub distinct : AreFresh [] s.backend_groups
  pub routes : All IsGoodRoute s.routes

check_protocols_sound :
    (layer : Str) (i : ℕ) (ps : List Str)
    → check_protocols layer i ps ≡ none
    → All (Speaks layer) ps
unfolding check_protocols
check_protocols_sound layer i [] h = tt
check_protocols_sound layer i (p ∷ ps) h =
    let q = to_lower (trim_space p) in
    (
      ground (
        arith,
        str_beq_iff layer (codes "l7-http"),
        str_beq_iff layer (codes "l4-tcp"),
        str_beq_iff layer (codes "l4-udp"),
        str_beq_iff q (codes "http"),
        str_beq_iff q (codes "tcp"),
        str_beq_iff q (codes "udp"),
      ),
      check_protocols_sound layer (suc i) ps (ground arith),
    )

check_route_sound : (i : ℕ) (r : ServiceRoute) → check_route i r ≡ none → IsGoodRoute r
unfolding check_route
check_route_sound i r h = ground arith

check_routes_sound :
    (i : ℕ) (rs : List ServiceRoute) → check_routes i rs ≡ none → All IsGoodRoute rs
unfolding check_routes
check_routes_sound i [] h = tt
check_routes_sound i (r ∷ rs) h =
    (check_route_sound i r (ground arith), check_routes_sound (suc i) rs (ground arith))

check_udp_sound : (u : UdpPolicy) → check_udp u ≡ none → IsGoodUdp u
unfolding check_udp
check_udp_sound u h = ground arith

any-false :
    (name : Str) (seen : List Str) → any (λ s. s == name) seen ≡ false → All (λ s. s ≢ name) seen
any-false name [] h = tt
any-false name (s ∷ seen) h =
    ((λ e. ground (arith, str_beq_iff s name)), any-false name seen (ground arith))

module _ (p : Parsers) where
  check_targets_sound :
      (i j : ℕ) (ts : List BackendTarget) → check_targets p i j ts ≡ none → All (IsGoodTarget p) ts
  unfolding check_targets
  check_targets_sound i j [] h = tt
  check_targets_sound i j (t ∷ ts) h =
      (ground arith, check_targets_sound i (suc j) ts (ground arith))

  check_groups_sound :
      (seen : List Str) (i : ℕ) (gs : List BackendGroup)
      → check_groups p seen i gs ≡ none
      → All (IsGoodGroup p) gs × AreFresh seen gs
  unfolding check_groups
  check_groups_sound seen i [] h = (tt, tt)
  check_groups_sound seen i (g ∷ gs) h =
      let name = trim_space g.name in
      let rest = check_groups_sound (name ∷ seen) (suc i) gs (ground arith) in
      let targets = check_targets_sound i 0 g.targets (ground arith) in
      (
        (record { name = ground arith; some_target = ground arith; targets = targets }, rest.0),
        (any-false name seen (ground arith), rest.1),
      )

  check_policy_sound :
      {F : Type 0} (t : ServiceTrafficPolicy F) → check_policy p t ≡ none → IsGoodPolicy t
  unfolding check_policy
  check_policy_sound t h = record {
    port = ground arith;
    sample_rate = ground arith;
    udp = check_udp_sound t.udp (ground arith);
    some_protocol = ground arith;
    protocols = check_protocols_sound (trim_space t.proxy.layer) 0 t.protocols (ground arith);
  }

  -- A configuration that is accepted has a name and a route; its port, rates, times and weights
  -- are in their ranges; its protocols are the one of its layer; each group has a name of its own
  -- and a target; each route has a host, a path prefix that starts with a slash once the space
  -- around it is dropped, and a destination.
  pub validate-IsAccepted :
      {F : Type 0} (s : ServiceConfig F) → validate p s ≡ none → IsAccepted p s
  unfolding validate
  validate-IsAccepted s h =
      let groups = check_groups_sound [] 0 s.backend_groups (ground arith) in
      record {
        name = ground arith;
        policy = check_policy_sound s.traffic_policy (ground arith);
        some_route = ground arith;
        groups = groups.0;
        distinct = groups.1;
        routes = check_routes_sound 0 s.routes (ground arith);
      }
