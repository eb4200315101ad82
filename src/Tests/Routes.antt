-- ===== src/Tests/Routes.antt =====
-- Runs of internal/traffic/runtime.go on two routes and a group of two targets.
use mathlib.Core.List.{Perm}
use mathlib.Core.List.Perm
use flux_mesh.Base.{
  ℕ, false, none, List, [], ◌∷◌, ◌++◌, map, length, take, keep, ltb, nat_beq, ok, pos, Str, str_eq,
  str_beq, codes, trim_space, ◌≡◌, refl, arith, All,
}
use flux_mesh.Base.Dict
use flux_mesh.Model.Service.{BackendTarget, BackendGroup}
use flux_mesh.Traffic.Floats.{Floats}
use flux_mesh.Traffic.Balancer.{Draws, init_registry}
use flux_mesh.Traffic.Match.{
  ListenerKey, RouteBinding, build_listener_matcher, match_matcher, or_match, best_route_match,
  has_wildcard,
}
use flux_mesh.Traffic.Match.Index.{HasWeight}
use flux_mesh.Traffic.Match.Build.{has_exact, match_matcher-best_route_match}
use flux_mesh.Traffic.Match.Longest.{IsBestMatch, best_route_match-IsBestMatch}
use flux_mesh.Traffic.Plan.{Plan, empty_plan}
use flux_mesh.Traffic.Resolve.{Net, ordered_backend_targets, resolve_destinations_for_attempts}
use flux_mesh.Traffic.Resolve.Order.{Shuffles, direct_of, relay_of, ordered_backend_targets-Perm}
use flux_mesh.Traffic.Resolve.Attempts.{resolve_destinations_for_attempts-all_targets}

abbrev local : ListenerKey
local = record { addr = codes "0.0.0.0"; port = pos 80 }

abbrev route : Str → Str → RouteBinding
route host prefix = record {
  service_name = codes "web";
  hosts = host ∷ [];
  path_prefix = prefix;
  destination = codes "g";
  weight = pos 100;
}

abbrev routes : List RouteBinding
routes = route (codes "a.com") (codes "/v1") ∷ route (codes "*") (codes "/") ∷ []

abbrev routes-HasWeight : All HasWeight routes
routes-HasWeight = ((omega arith, omega arith), ((omega arith, omega arith), tt))

match_matcher-best_route_match_example :
    match_matcher local (build_listener_matcher routes) (codes "a.com") (codes "/v1/x")
    ≡ or_match
        (best_route_match local (keep (has_exact (codes "a.com")) routes) (codes "/v1/x") 2)
        (best_route_match local (keep has_wildcard routes) (codes "/v1/x") 1)
match_matcher-best_route_match_example =
    match_matcher-best_route_match local routes (codes "a.com") (codes "/v1/x") routes-HasWeight

best_route_match-IsBestMatch_example :
    IsBestMatch local (codes "/v1/x") 2 routes (best_route_match local routes (codes "/v1/x") 2)
best_route_match-IsBestMatch_example =
    best_route_match-IsBestMatch local (codes "/v1/x") 2 routes routes-HasWeight

abbrev whole : Floats
whole = record { Float = ℕ; less = ltb; equal = nat_beq; of_nanoseconds = λ n. n; blend = λ a b. b }

abbrev steady : Draws
steady = record { intn = λ n. 0; shuffle = λ ts. ts }

steady-Shuffles : Shuffles steady
steady-Shuffles l = Perm.rfl

abbrev direct : BackendTarget
direct = record { addr = codes "a:1"; weight = pos 1; tags = [] }

abbrev relay : BackendTarget
relay = record { addr = codes "b:1"; weight = pos 3; tags = (codes "relay", codes "yes") ∷ [] }

abbrev mixed : BackendGroup
mixed = record { name = codes "g"; targets = relay ∷ direct ∷ [] }

ordered_backend_targets-Perm_example :
    (first : List BackendTarget) × (last : List BackendTarget) × ((ordered_backend_targets whole
        steady
        (codes "g")
        mixed
        []
        none).1
      ≡ map (λ t. t.addr) (first ++ last))
    × Perm first (direct_of mixed.targets)
    × Perm last (relay_of mixed.targets)
ordered_backend_targets-Perm_example =
    ordered_backend_targets-Perm whole steady (codes "g") mixed [] none steady-Shuffles

abbrev plan : Plan whole
plan = record (empty_plan whole) { backend_groups = (codes "g", mixed) ∷ [] }

abbrev no_net : Net
no_net = record {
  splits = λ s. false;
  has_scheme = λ s. false;
  parse_url = λ s. none;
  join_host_port = λ h p. h;
}

resolve_destinations_for_attempts-all_targets_example :
    (l : List Str) × ((resolve_destinations_for_attempts whole
        (init_registry whole)
        steady
        no_net
        plan
        (codes "g")
        3
        none).1
      ≡ ok l)
    × (length l ≡ 3)
    × (first : List BackendTarget) × (last : List BackendTarget) × (take 2 l
        ≡ take 3 (map (λ t. t.addr) (first ++ last)))
    × Perm first (direct_of mixed.targets)
    × Perm last (relay_of mixed.targets)
unfolding trim_space Dict.get str_beq
resolve_destinations_for_attempts-all_targets_example =
    resolve_destinations_for_attempts-all_targets whole (init_registry whole) steady no_net plan
      (codes "g") 2 none mixed refl refl refl steady-Shuffles
