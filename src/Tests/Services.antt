-- ===== src/Tests/Services.antt =====
-- Runs of internal/model/service.go on the least configuration.
use flux_mesh.Base.{ℕ, true, none, pos, str_beq, codes, trim_space, to_lower, has_prefix, refl}
use flux_mesh.Model.Service.{ServiceConfig, apply_defaults}
use flux_mesh.Model.Service.Minimal.{minimal}
use flux_mesh.Model.Service.Validate.{Parsers, validate, is_valid_lb_strategy}
use flux_mesh.Model.Service.Validate.Accepted.{IsAccepted, validate-IsAccepted}

-- Every text is an address; none has a port.
abbrev lenient : Parsers
lenient = record { is_ipv4 = λ s. true; split_host_port = λ s. none; sscan_int = λ s. none }

abbrev web : ServiceConfig ℕ
web = minimal 0 (codes "web") (pos 8080) (codes "/") (codes "10.0.0.2:80")

validate-IsAccepted_example : IsAccepted lenient (apply_defaults web)
unfolding validate apply_defaults is_valid_lb_strategy to_lower trim_space str_beq has_prefix
validate-IsAccepted_example = validate-IsAccepted lenient (apply_defaults web) refl
