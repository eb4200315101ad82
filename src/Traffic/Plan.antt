-- ===== src/Traffic/Plan.antt =====
-- internal/traffic/runtime.go: `BuildPlan`, which compiles the services into maps, and the
-- queries on these maps that do not draw a target. Maps are association lists.
pub mod Query
pub mod Sound
pub mod Built
use flux_mesh.Base.{
  ℕ, suc, ◌+◌, Bool, true, false, not, ◌&&◌, ◌||◌, Option, none, some, List, [], ◌∷◌, ◌++◌, map,
  any, length, if◌then◌else◌, ◌==◌, nat_eq, ltb, Result, ok, err, ℤ, pos, negsuc, ltb_ℤ, int_eq,
  Str, codes, str_eq, str_lt, trim_space, to_lower, has_prefix, is_empty, itoa,
}
use flux_mesh.Base.Dict
use flux_mesh.Base.Dict.{Dict}
use flux_mesh.Base.Sorting.{sort_stable}
use flux_mesh.Model.Service.{
  BackendTarget, BackendGroup, ServiceRoute, ServiceTrafficPolicy, ServiceConfig, apply_defaults,
}
use flux_mesh.Model.Service.Validate.{ConfigError, Parsers, validate}
use flux_mesh.Traffic.Floats.{Floats}
use flux_mesh.Traffic.Balancer.{PlanState, normalize_lb_strategy, new_plan_state}
use flux_mesh.Traffic.Match.{
  ListenerKey, RouteBinding, MatchResult, ListenerMatcher, Best, no_best, consider, found_best,
  normalize_host, build_listener_matcher, match_matcher,
}

pub record ListenerPlan : Type 0 where
  pub listener : ListenerKey
  pub routes : List RouteBinding

pub record TcpBinding : Type 0 where
  pub listener : ListenerKey
  pub service_name : Str
  pub destination : Str

pub record UdpBinding : Type 0 where
  pub listener : ListenerKey
  pub service_name : Str
  pub destination : Str

-- `index_panic` is the panic of `cfg.Routes[0]` on no routes.
pub data PlanError : Type 0 where
  invalid_service : Str → ConfigError → PlanError
  duplicated_group : Str → PlanError
  tcp_on_routes tcp_bound udp_bound routes_on_tcp : Str → PlanError
  index_panic : PlanError

pub record Plan (f : Floats) : Type 0 where
  pub listeners : Dict Str ListenerPlan
  pub listener_matchers : Dict Str ListenerMatcher
  pub tcp_bindings : Dict Str TcpBinding
  pub udp_bindings : Dict Str UdpBinding
  pub backend_groups : Dict Str BackendGroup
  pub backend_relay_addrs : Dict Str (List Str)
  pub backend_strategy : Dict Str Str
  pub service_listeners : Dict Str ListenerKey
  pub service_policies : Dict Str (ServiceTrafficPolicy f.Float)
  pub state : PlanState f

abbrev pub itoa_ℤ : ℤ → Str
itoa_ℤ (pos n) = itoa n
itoa_ℤ (negsuc n) = 45 ∷ itoa (suc n)

unfoldable pub listener_map_key : Str → ℤ → Str
listener_map_key addr port = trim_space addr ++ 58 ∷ itoa_ℤ port

-- The first tag whose key reads "relay", in the order in which the map is ranged over, decides.
unfoldable pub relay_tag : Dict Str Str → Bool
relay_tag [] = false
relay_tag ((k, v) ∷ tags) =
    let w = to_lower (trim_space v) in
    let rest = relay_tag tags in
    if to_lower (trim_space k) == codes "relay"
    then w == codes "1" || w == codes "true" || w == codes "yes" || w == codes "on"
    else rest

unfoldable pub is_relay_target : BackendTarget → Bool
unfolding relay_tag
is_relay_target t = relay_tag t.tags

unfoldable pub relay_set : List BackendTarget → List Str
unfolding is_relay_target
relay_set [] = []
relay_set (t ∷ ts) = if is_relay_target t then t.addr ∷ relay_set ts else relay_set ts

-- The order of a listener's routes: longer paths first, then weight, service, destination.
unfoldable pub route_before : RouteBinding → RouteBinding → Bool
route_before a b =
    if not (length a.path_prefix == length b.path_prefix)
    then ltb (length b.path_prefix) (length a.path_prefix)
    else if not (a.weight == b.weight)
    then ltb_ℤ b.weight a.weight
    else if not (a.service_name == b.service_name)
    then str_lt a.service_name b.service_name
    else str_lt a.destination b.destination

-- The order of the snapshots that list bindings and listeners.
unfoldable pub listener_before : ListenerKey → ListenerKey → Bool
listener_before a b = if not (a.addr == b.addr) then str_lt a.addr b.addr else ltb_ℤ a.port b.port

-- The rest of a body after a call that may fail.
abbrev pub and_then :
    {A B : Type 0} → Result PlanError A → (A → Result PlanError B) → Result PlanError B
and_then (ok a) next = next a
and_then (err e) next = err e

abbrev pub is_some : {A : Type 0} → Option A → Bool
is_some none = false
is_some (some a) = true

unfoldable pub route_binding : Str → ServiceRoute → RouteBinding
route_binding name r = record {
  service_name = name;
  hosts = r.hosts;
  path_prefix = r.path_prefix;
  destination = r.destination;
  weight = r.weight;
}

abbrev pub zero_listener_plan : ListenerPlan
zero_listener_plan = record { listener = record { addr = []; port = pos 0 }; routes = [] }

-- A missing entry reads as the zero value.
abbrev pub listener_plan_of : Option ListenerPlan → ListenerPlan
listener_plan_of none = zero_listener_plan
listener_plan_of (some lp) = lp

module _ (f : Floats) where
  abbrev pub empty_plan : Plan f
  empty_plan = record {
    listeners = [];
    listener_matchers = [];
    tcp_bindings = [];
    udp_bindings = [];
    backend_groups = [];
    backend_relay_addrs = [];
    backend_strategy = [];
    service_listeners = [];
    service_policies = [];
    state = new_plan_state f;
  }

  unfoldable pub add_groups : Str → List BackendGroup → Plan f → Result PlanError (Plan f)
  unfolding relay_set
  add_groups strategy [] plan = ok plan
  add_groups strategy (group ∷ groups) plan =
      let name = trim_space group.name in
      let rest = add_groups strategy groups (record plan {
        backend_groups = Dict.put plan.backend_groups name group;
        backend_relay_addrs = Dict.put plan.backend_relay_addrs name (relay_set group.targets);
        backend_strategy = Dict.put plan.backend_strategy name (normalize_lb_strategy strategy);
      }) in
      if is_some (Dict.get plan.backend_groups name) then err (duplicated_group name) else rest

  abbrev pub own_listener : ServiceConfig f.Float → ListenerKey
  own_listener cfg = record {
    addr = cfg.traffic_policy.listener.addr;
    port = cfg.traffic_policy.listener.port;
  }

  unfoldable pub bind_tcp : Str → ServiceConfig f.Float → Plan f → Result PlanError (Plan f)
  bind_tcp key cfg plan =
      if not (is_empty (listener_plan_of (Dict.get plan.listeners key)).routes)
      then err (tcp_on_routes key)
      else if is_some (Dict.get plan.tcp_bindings key)
      then err (tcp_bound key)
      else elim cfg.routes [
        | [] ↦ err index_panic
        | r ∷ rs ↦ ok (record plan {
          tcp_bindings = Dict.put plan.tcp_bindings key (record {
            listener = own_listener cfg;
            service_name = cfg.name;
            destination = r.destination;
          });
        })
      ]

  unfoldable pub bind_udp : Str → ServiceConfig f.Float → Plan f → Result PlanError (Plan f)
  bind_udp key cfg plan =
      if is_some (Dict.get plan.udp_bindings key) then err (udp_bound key) else elim cfg.routes [
        | [] ↦ err index_panic
        | r ∷ rs ↦ ok (record plan {
          udp_bindings = Dict.put plan.udp_bindings key (record {
            listener = own_listener cfg;
            service_name = cfg.name;
            destination = r.destination;
          });
        })
      ]

  unfoldable pub extend_listener : ServiceConfig f.Float → ListenerPlan → ListenerPlan
  unfolding route_binding
  extend_listener cfg lp = record {
    listener = if lp.listener.port == pos 0 then own_listener cfg else lp.listener;
    routes = lp.routes ++ map (route_binding cfg.name) cfg.routes;
  }

  unfoldable pub bind_routes : Str → ServiceConfig f.Float → Plan f → Result PlanError (Plan f)
  unfolding extend_listener
  bind_routes key cfg plan =
      let lp = listener_plan_of (Dict.get plan.listeners key) in
      if is_some (Dict.get plan.tcp_bindings key)
      then err (routes_on_tcp key)
      else ok (record plan { listeners = Dict.put plan.listeners key (extend_listener cfg lp) })

  unfoldable pub bind_listener : ServiceConfig f.Float → Plan f → Result PlanError (Plan f)
  unfolding bind_tcp bind_udp bind_routes listener_map_key
  bind_listener cfg plan =
      let key =
        listener_map_key cfg.traffic_policy.listener.addr cfg.traffic_policy.listener.port in
      let layer = to_lower (trim_space cfg.traffic_policy.proxy.layer) in
      if layer == codes "l4-tcp"
      then bind_tcp key cfg plan
      else if layer == codes "l4-udp"
      then bind_udp key cfg plan
      else bind_routes key cfg plan

  abbrev pub note_service : ServiceConfig f.Float → Plan f → Plan f
  note_service cfg plan = record plan {
    service_listeners = Dict.put plan.service_listeners cfg.name (own_listener cfg);
    service_policies = Dict.put plan.service_policies cfg.name cfg.traffic_policy;
  }

  -- One round of the loop over the services, after the defaults and the validation.
  unfoldable pub add_valid : ServiceConfig f.Float → Plan f → Result PlanError (Plan f)
  unfolding add_groups bind_listener
  add_valid cfg plan =
      and_then
        (add_groups cfg.traffic_policy.lb.strategy cfg.backend_groups (note_service cfg plan))
        (bind_listener cfg)

  -- The rest of a round, by what `Validate` returned.
  add_checked : ServiceConfig f.Float → Plan f → Option ConfigError → Result PlanError (Plan f)
  unfolding add_valid
  add_checked cfg plan (some e) = err (invalid_service cfg.name e)
  add_checked cfg plan none = add_valid cfg plan

  unfoldable pub add_service : Parsers → ServiceConfig f.Float → Plan f → Result PlanError (Plan f)
  unfolding add_checked
  add_service parsers service plan =
      let cfg = apply_defaults service in add_checked cfg plan (validate parsers cfg)

  unfoldable pub add_services :
      Parsers → List (ServiceConfig f.Float) → Plan f → Result PlanError (Plan f)
  unfolding add_service
  add_services parsers [] plan = ok plan
  add_services parsers (s ∷ ss) plan =
      and_then (add_service parsers s plan) (add_services parsers ss)

  abbrev pub sort_routes : ListenerPlan → ListenerPlan
  sort_routes lp = record lp { routes = sort_stable route_before lp.routes }

  -- The last loop: the routes of each listener sorted, and the matcher of the sorted routes.
  abbrev pub finish_plan : Plan f → Plan f
  finish_plan plan = record plan {
    listeners = map (λ e. (e.0, sort_routes e.1)) plan.listeners;
    listener_matchers =
        map (λ e. (e.0, build_listener_matcher (sort_routes e.1).routes)) plan.listeners;
  }

  unfoldable pub build_plan : Parsers → List (ServiceConfig f.Float) → Result PlanError (Plan f)
  unfolding add_services
  build_plan parsers services =
      and_then (add_services parsers services empty_plan) (λ plan. ok (finish_plan plan))
