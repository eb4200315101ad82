-- ===== src/Traffic/Plan/Sound.antt =====
-- What holds of each plan that `BuildPlan` of internal/traffic/runtime.go returns.
use flux_mesh.Base.{
  true, false, Option, none, some, List, [], ◌∷◌, ◌++◌, map, ◌==◌, Result, ok, err, Str, codes,
  str_eq, str_beq_iff, trim_space, to_lower, is_empty, ◌≡◌, ◌⊎◌, refl, sym, ap, subst, ◌∙◌, arith,
  All, All-append, inl, inr, Bool-cases,
}
use flux_mesh.Base.Dict
use flux_mesh.Base.Dict.{Dict}
use flux_mesh.Model.Service.{BackendGroup, ServiceRoute, ServiceConfig, apply_defaults}
use flux_mesh.Model.Service.Validate.{ConfigError, Parsers, validate}
use flux_mesh.Model.Service.Validate.Accepted.{IsGoodRoute, validate-IsAccepted}
use flux_mesh.Traffic.Floats.{Floats}
use flux_mesh.Traffic.Match.{RouteBinding}
use flux_mesh.Traffic.Match.Index.{HasWeight}
use flux_mesh.Traffic.Plan.{
  ListenerPlan, TcpBinding, PlanError, Plan, is_some, and_then, route_binding, listener_plan_of,
  empty_plan, listener_map_key, add_groups, own_listener, bind_tcp, bind_udp, extend_listener,
  bind_routes, bind_listener, note_service, add_valid, add_checked, add_service, add_services,
}

-- A route that is good by its own words is good as a binding.
bindings-HasWeight :
    (name : Str) (rs : List ServiceRoute)
    → All IsGoodRoute rs
    → All HasWeight (map (route_binding name) rs)
unfolding route_binding
bindings-HasWeight name [] h = tt
bindings-HasWeight name (r ∷ rs) h = (h.0.weight, bindings-HasWeight name rs h.1)

List-cases : {A : Type 0} (l : List A) → (l ≡ []) ⊎ ((a : A) × (rest : List A) × (l ≡ a ∷ rest))
List-cases [] = inl refl
List-cases (a ∷ l) = inr (a, l, refl)

-- What holds of the values of a map and of a new one holds of those of the map with it.
put_all :
    (P : ListenerPlan → Type 0) (m : Dict Str ListenerPlan) (key : Str) (v : ListenerPlan)
    → P v
    → ((k : Str) (w : ListenerPlan) → Dict.get m k ≡ some w → P w)
    → (k : Str) (w : ListenerPlan) → Dict.get (Dict.put m key v) k ≡ some w
    → P w
put_all P m key v new old k w h = elim (Bool-cases (key == k)) [
  | inl y ↦ let e : v ≡ w = ground (arith, Dict.get-put m key k v) in subst P e new
  | inr y ↦ let e : Dict.get m k ≡ some w = ground (arith, Dict.get-put m key k v) in old k w e
]

module _ (f : Floats) where
  -- No listener has both routes and a TCP service, and each listener that is kept has a route.
  pub record IsSound (plan : Plan f) : Type 0 where
    pub exclusive :
        (k : Str) → is_some (Dict.get plan.tcp_bindings k) ≡ true → Dict.get plan.listeners k ≡ none
    pub weighted :
        (k : Str) (lp : ListenerPlan)
        → Dict.get plan.listeners k ≡ some lp
        → All HasWeight lp.routes
    pub routed :
        (k : Str) (lp : ListenerPlan)
        → Dict.get plan.listeners k ≡ some lp
        → is_empty lp.routes ≡ false

  empty_plan-IsSound : IsSound (empty_plan f)
  unfolding Dict.get
  empty_plan-IsSound = record {
    exclusive = λ k h. refl;
    weighted = λ k lp h. ground arith;
    routed = λ k lp h. ground arith;
  }

  -- The groups of a service touch neither bindings nor listeners.
  add_groups_keeps :
      (strategy : Str) (gs : List BackendGroup) (plan next : Plan f)
      → add_groups f strategy gs plan ≡ ok next
      → (next.listeners ≡ plan.listeners) × (next.tcp_bindings ≡ plan.tcp_bindings)
  unfolding add_groups
  add_groups_keeps strategy [] plan next h = (ground arith, ground arith)
  add_groups_keeps strategy (g ∷ gs) plan next h =
      elim (Bool-cases (is_some (Dict.get plan.backend_groups (trim_space g.name)))) [
        | inl y ↦ absurd (ground (arith, rw y at h))
        | inr y ↦ add_groups_keeps strategy gs _ next (rw y at h)
      ]

  -- A plan with the listeners of a sound one is sound, if its TCP services are where they were or
  -- where there is no listener.
  same_listeners :
      (plan next : Plan f)
      → next.listeners ≡ plan.listeners
      → ((k : Str)
          → is_some (Dict.get next.tcp_bindings k) ≡ true
          → (is_some (Dict.get plan.tcp_bindings k) ≡ true) ⊎ (Dict.get plan.listeners k ≡ none))
      → IsSound plan
      → IsSound next
  same_listeners plan next e t s = record {
    exclusive =
        λ k h. ap (λ m. Dict.get m k) e ∙ elim (t k h) [ inl y ↦ s.exclusive k y | inr n ↦ n ];
    weighted = λ k lp h. s.weighted k lp (ap (λ m. Dict.get m k) (sym e) ∙ h);
    routed = λ k lp h. s.routed k lp (ap (λ m. Dict.get m k) (sym e) ∙ h);
  }

  no_routes :
      (o : Option ListenerPlan)
      → ((lp : ListenerPlan) → o ≡ some lp → is_empty lp.routes ≡ false)
      → is_empty (listener_plan_of o).routes ≡ true
      → o ≡ none
  no_routes none h e = refl
  no_routes (some lp) h e = absurd (ground (arith, h lp refl, e))

  bind_tcp_other :
      (key k : Str) (cfg : ServiceConfig f.Float) (plan next : Plan f)
      → bind_tcp f key cfg plan ≡ ok next
      → (key == k) ≡ false
      → Dict.get next.tcp_bindings k ≡ Dict.get plan.tcp_bindings k
  unfolding bind_tcp
  bind_tcp_other key k cfg plan next h ne = elim (List-cases cfg.routes) [
    | inl e ↦ absurd (ground (arith, rw e at h))
    | inr (r, rs, e) ↦
        let b : TcpBinding = record {
          listener = own_listener f cfg;
          service_name = cfg.name;
          destination = r.destination;
        } in
        ground (arith, rw e at h, Dict.get-put plan.tcp_bindings key k b)
  ]

  bind_tcp-IsSound :
      (key : Str) (cfg : ServiceConfig f.Float) (plan next : Plan f)
      → bind_tcp f key cfg plan ≡ ok next
      → IsSound plan
      → IsSound next
  unfolding bind_tcp
  bind_tcp-IsSound key cfg plan next h s =
      let old = Dict.get plan.listeners key in
      let empty : is_empty (listener_plan_of old).routes ≡ true = ground arith in
      let none_there = no_routes old (s.routed key) empty in
      let same : next.listeners ≡ plan.listeners = ground arith in
      same_listeners plan next same
        (λ k y. elim (Bool-cases (key == k)) [
          | inl q ↦ inr (ap (Dict.get plan.listeners) (sym ((str_beq_iff key k).0 q)) ∙ none_there)
          | inr q ↦ inl (ap is_some (sym (bind_tcp_other key k cfg plan next h q)) ∙ y)
        ])
        s

  bind_udp-IsSound :
      (key : Str) (cfg : ServiceConfig f.Float) (plan next : Plan f)
      → bind_udp f key cfg plan ≡ ok next
      → IsSound plan
      → IsSound next
  unfolding bind_udp
  bind_udp-IsSound key cfg plan next h s =
      let same : next.listeners ≡ plan.listeners = ground arith in
      let tcp : next.tcp_bindings ≡ plan.tcp_bindings = ground arith in
      same_listeners plan next same (λ k y. inl (ap (λ m. is_some (Dict.get m k)) (sym tcp) ∙ y)) s

  old-HasWeight :
      (o : Option ListenerPlan)
      → ((lp : ListenerPlan) → o ≡ some lp → All HasWeight lp.routes)
      → All HasWeight (listener_plan_of o).routes
  old-HasWeight none h = tt
  old-HasWeight (some lp) h = h lp refl

  extended-HasWeight :
      (cfg : ServiceConfig f.Float) (plan : Plan f) (key : Str)
      → All IsGoodRoute cfg.routes
      → IsSound plan
      → All HasWeight
          (extend_listener f cfg (listener_plan_of (Dict.get plan.listeners key))).routes
  unfolding extend_listener
  extended-HasWeight cfg plan key good s =
      All-append HasWeight (listener_plan_of (Dict.get plan.listeners key)).routes
        (map (route_binding cfg.name) cfg.routes)
        (old-HasWeight (Dict.get plan.listeners key) (s.weighted key))
        (bindings-HasWeight cfg.name cfg.routes good)

  append_full :
      (xs : List RouteBinding) (rs : List ServiceRoute) (name : Str)
      → is_empty rs ≡ false
      → is_empty (xs ++ map (route_binding name) rs) ≡ false
  append_full [] [] name h = cc
  append_full [] (r ∷ rs) name h = refl
  append_full (x ∷ xs) rs name h = refl

  extended_full :
      (cfg : ServiceConfig f.Float) (lp : ListenerPlan)
      → is_empty cfg.routes ≡ false
      → is_empty (extend_listener f cfg lp).routes ≡ false
  unfolding extend_listener
  extended_full cfg lp full = append_full lp.routes cfg.routes cfg.name full

  bind_routes-IsSound :
      (key : Str) (cfg : ServiceConfig f.Float) (plan next : Plan f)
      → bind_routes f key cfg plan ≡ ok next
      → All IsGoodRoute cfg.routes
      → is_empty cfg.routes ≡ false
      → IsSound plan
      → IsSound next
  unfolding bind_routes
  bind_routes-IsSound key cfg plan next h good full s =
      let old = listener_plan_of (Dict.get plan.listeners key) in
      let new = extend_listener f cfg old in
      let free : is_some (Dict.get plan.tcp_bindings key) ≡ false = ground arith in
      let tcp : next.tcp_bindings ≡ plan.tcp_bindings = ground arith in
      let put : next.listeners ≡ Dict.put plan.listeners key new = ground arith in
      record {
        exclusive = λ k y.
            let y' : is_some (Dict.get plan.tcp_bindings k) ≡ true =
              ap (λ m. is_some (Dict.get m k)) (sym tcp) ∙ y in
            let was = s.exclusive k y' in
            ground (
              arith,
              ap (λ m. Dict.get m k) put,
              Dict.get-put plan.listeners key k new,
              str_beq_iff key k,
              was,
              free,
              y',
            );
        weighted = λ k lp y.
            put_all (λ l. All HasWeight l.routes) plan.listeners key new
              (extended-HasWeight cfg plan key good s) s.weighted k lp
              (ap (λ m. Dict.get m k) (sym put) ∙ y);
        routed = λ k lp y.
            put_all (λ l. is_empty l.routes ≡ false) plan.listeners key new
              (extended_full cfg old full) s.routed k lp (ap (λ m. Dict.get m k) (sym put) ∙ y);
      }

  bind_listener-IsSound :
      (cfg : ServiceConfig f.Float) (plan next : Plan f)
      → bind_listener f cfg plan ≡ ok next
      → All IsGoodRoute cfg.routes
      → is_empty cfg.routes ≡ false
      → IsSound plan
      → IsSound next
  unfolding bind_listener
  bind_listener-IsSound cfg plan next h good full s =
      let layer = to_lower (trim_space cfg.traffic_policy.proxy.layer) in
      let key =
        listener_map_key cfg.traffic_policy.listener.addr cfg.traffic_policy.listener.port in
      elim (Bool-cases (layer == codes "l4-tcp")) [
        | inl y ↦ bind_tcp-IsSound key cfg plan next (rw y at h) s
        | inr n ↦ elim (Bool-cases (layer == codes "l4-udp")) [
          | inl y ↦ bind_udp-IsSound key cfg plan next (rw (n, y) at h) s
          | inr n' ↦ bind_routes-IsSound key cfg plan next (rw (n, n') at h) good full s
        ]
      ]

  pub and_then-ok :
      {A B : Type 0} (r : Result PlanError A) (g : A → Result PlanError B) (b : B)
      → and_then r g ≡ ok b
      → (a : A) × (r ≡ ok a) × (g a ≡ ok b)
  and_then-ok (ok a) g b h = (a, refl, h)
  and_then-ok (err e) g b h = absurd (ground (arith, h))

  noted-IsSound :
      (cfg : ServiceConfig f.Float) (plan : Plan f)
      → IsSound plan
      → IsSound (note_service f cfg plan)
  noted-IsSound cfg plan s = record {
    exclusive = s.exclusive;
    weighted = s.weighted;
    routed = s.routed;
  }

  add_valid-IsSound :
      (cfg : ServiceConfig f.Float) (plan next : Plan f)
      → add_valid f cfg plan ≡ ok next
      → All IsGoodRoute cfg.routes
      → is_empty cfg.routes ≡ false
      → IsSound plan
      → IsSound next
  unfolding add_valid
  add_valid-IsSound cfg plan next h good full s =
      let noted = note_service f cfg plan in
      let strategy = cfg.traffic_policy.lb.strategy in
      let (mid, g, b) =
        and_then-ok (add_groups f strategy cfg.backend_groups noted) (bind_listener f cfg) next h in
      let (same, tcp) = add_groups_keeps strategy cfg.backend_groups noted mid g in
      bind_listener-IsSound cfg mid next b good full (
        same_listeners noted mid same (λ k y. inl (ap (λ m. is_some (Dict.get m k)) (sym tcp) ∙ y))
          (noted-IsSound cfg plan s))

  add_checked-IsSound :
      (parsers : Parsers) (cfg : ServiceConfig f.Float) (plan next : Plan f)
      (o : Option ConfigError)
      → validate parsers cfg ≡ o
      → add_checked f cfg plan o ≡ ok next
      → IsSound plan
      → IsSound next
  unfolding add_checked
  add_checked-IsSound parsers cfg plan next (some e) q h s = absurd (ground (arith, h))
  add_checked-IsSound parsers cfg plan next none q h s =
      let good = validate-IsAccepted parsers cfg q in
      add_valid-IsSound cfg plan next h good.routes good.some_route s

  add_service-IsSound :
      (parsers : Parsers) (service : ServiceConfig f.Float) (plan next : Plan f)
      → add_service f parsers service plan ≡ ok next
      → IsSound plan
      → IsSound next
  unfolding add_service
  add_service-IsSound parsers service plan next h s =
      let cfg = apply_defaults service in
      add_checked-IsSound parsers cfg plan next (validate parsers cfg) refl h s

  add_services-IsSound :
      (parsers : Parsers) (services : List (ServiceConfig f.Float)) (plan next : Plan f)
      → add_services f parsers services plan ≡ ok next
      → IsSound plan
      → IsSound next
  unfolding add_services
  add_services-IsSound parsers [] plan next h s =
      let e : plan ≡ next = ground arith in subst IsSound e s
  add_services-IsSound parsers (c ∷ cs) plan next h s =
      let (mid, first, rest) =
        and_then-ok (add_service f parsers c plan) (add_services f parsers cs) next h in
      add_services-IsSound parsers cs mid next rest (add_service-IsSound parsers c plan mid first s)

  pub all_services-IsSound :
      (parsers : Parsers) (services : List (ServiceConfig f.Float)) (next : Plan f)
      → add_services f parsers services (empty_plan f) ≡ ok next
      → IsSound next
  all_services-IsSound parsers services next h =
      add_services-IsSound parsers services (empty_plan f) next h empty_plan-IsSound
