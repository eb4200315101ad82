-- ===== src/Tests/Plans.antt =====
-- A run of `BuildPlan` of internal/traffic/runtime.go on one service.
use flux_mesh.Base.{
  ℕ, true, none, List, [], ◌∷◌, keep, ltb, nat_beq, Result, ok, err, pos, str_eq, str_beq, codes,
  trim_space, to_lower, has_prefix, itoa, ◌≡◌, refl,
}
use flux_mesh.Base.Dict
use flux_mesh.Model.Service.{ServiceConfig, apply_defaults}
use flux_mesh.Model.Service.Minimal.{minimal}
use flux_mesh.Model.Service.Validate.{Parsers, validate, is_valid_lb_strategy}
use flux_mesh.Traffic.Floats.{Floats}
use flux_mesh.Traffic.Match.{best_route_match, or_match, has_wildcard, normalize_host}
use flux_mesh.Traffic.Match.Build.{has_exact}
use flux_mesh.Traffic.Plan.{
  Plan, PlanError, ListenerPlan, listener_plan_of, empty_plan, add_services, add_service,
  build_plan, listener_map_key,
}
use flux_mesh.Traffic.Plan.Query.{match_route}
use flux_mesh.Traffic.Plan.Built.{IsBuilt, build_plan-IsBuilt, match_route-best_route_match}

abbrev whole : Floats
whole = record { Float = ℕ; less = ltb; equal = nat_beq; of_nanoseconds = λ n. n; blend = λ a b. b }

abbrev lenient : Parsers
lenient = record { is_ipv4 = λ s. true; split_host_port = λ s. none; sscan_int = λ s. none }

abbrev services : List (ServiceConfig ℕ)
services = minimal 0 (codes "web") (pos 80) (codes "/") (codes "g") ∷ []

abbrev plan_of : Result PlanError (Plan whole) → Plan whole
plan_of (ok p) = p
plan_of (err e) = empty_plan whole

abbrev web_plan : Plan whole
web_plan = plan_of (build_plan whole lenient services)

build_plan-IsBuilt_example : IsBuilt whole web_plan
unfolding build_plan add_services add_service validate apply_defaults is_valid_lb_strategy
    trim_space to_lower str_beq has_prefix Dict.get Dict.put
build_plan-IsBuilt_example = build_plan-IsBuilt whole lenient services web_plan refl

abbrev web_listener : ListenerPlan
web_listener =
    listener_plan_of
      (Dict.get web_plan.listeners (listener_map_key (trim_space (codes "0.0.0.0")) (pos 80)))

match_route-best_route_match_example :
    match_route whole web_plan (codes "0.0.0.0") (pos 80) (codes "a.com") (codes "/v1")
    ≡ or_match
        (best_route_match web_listener.listener
          (keep (has_exact (normalize_host (codes "a.com"))) web_listener.routes)
          (codes "/v1")
          2)
        (best_route_match web_listener.listener
          (keep has_wildcard web_listener.routes)
          (codes "/v1")
          1)
unfolding build_plan add_services add_service validate apply_defaults is_valid_lb_strategy
    trim_space to_lower str_beq has_prefix Dict.get Dict.put listener_map_key itoa
match_route-best_route_match_example =
    match_route-best_route_match whole lenient services web_plan (codes "0.0.0.0") (pos 80)
      (codes "a.com") (codes "/v1") web_listener refl refl
