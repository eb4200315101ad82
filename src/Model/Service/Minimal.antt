-- ===== src/Model/Service/Minimal.antt =====
-- The least that a service has to say: `ApplyDefaults` and `Validate` of internal/model/service.go.
use flux_mesh.Base.{
  ℕ, ◌≤◌, true, false, none, [], ◌∷◌, ℤ, pos, Str, codes, str_beq, trim_space, to_lower, has_prefix,
  is_empty, ◌≡◌, arith,
}
use flux_mesh.Model.Service.{ServiceConfig, apply_defaults}
use flux_mesh.Model.Service.Validate.{Parsers, validate, is_valid_lb_strategy}

-- A configuration that gives a name, a port and one route, and leaves the rest out.
abbrev pub minimal : {F : Type 0} → F → Str → ℤ → Str → Str → ServiceConfig F
minimal zero name port prefix destination = record {
  name = name;
  namespace = [];
  version = [];
  resource_version = pos 0;
  updated_at = [];
  updated_by = [];
  routes =
      record { hosts = []; path_prefix = prefix; destination = destination; weight = pos 0 } ∷ [];
  backend_groups = [];
  traffic_policy = record {
    proxy = record { layer = [] };
    protocols = [];
    listener = record { addr = []; port = port };
    udp = record {
      dial_timeout_ms = pos 0;
      read_timeout_ms = pos 0;
      write_timeout_ms = pos 0;
      session_ttl_ms = pos 0;
      max_packet_size = pos 0;
    };
    lb = record { strategy = [] };
    retry = record { max_attempts = pos 0; budget_ratio = zero };
    relay = record { max_hops = pos 0 };
    observability = record { metrics_sample_rate = pos 0 };
  };
}

-- A configuration that gives only a name, a port and a route without hosts is accepted after the
-- defaults, if its name and destination are not blank, its port is from 1 to 65535 and its path
-- starts with a slash; 0.0.0.0 being an IPv4 address.
pub validate-minimal :
    {F : Type 0} (p : Parsers) (zero : F) (name : Str) (port : ℕ) (prefix destination : Str)
    → p.is_ipv4 (codes "0.0.0.0") ≡ true
    → is_empty (trim_space name) ≡ false
    → 1 ≤ port
    → port ≤ 65535
    → has_prefix (trim_space prefix) (codes "/") ≡ true
    → is_empty (trim_space destination) ≡ false
    → validate p (apply_defaults (minimal zero name (pos port) prefix destination)) ≡ none
unfolding validate apply_defaults is_valid_lb_strategy to_lower trim_space str_beq has_prefix
validate-minimal p zero name port prefix destination ip n lo hi pre d = ground arith
