-- ===== src/Traffic/Plan/Built.antt =====
-- The plan that `BuildPlan` of internal/traffic/runtime.go returns, and `Match` on it.
use flux_mesh.Base.{
  true, none, some, List, [], ◌∷◌, map, keep, ◌==◌, ok, ℤ, Str, str_eq, str_beq_iff, str_lt_asymm,
  str_lt_trans, str_lt_connex, trim_space, ◌≡◌, refl, ap, subst, ◌∙◌, arith, All, Bool-cases, inl,
  inr,
}
use flux_mesh.Base.Dict
use flux_mesh.Base.Dict.{Dict}
use flux_mesh.Base.Sorting.{IsWeakOrder, IsSorted, sort_stable-All, sort_stable-IsSorted}
use flux_mesh.Model.Service.{ServiceConfig}
use flux_mesh.Model.Service.Validate.{Parsers}
use flux_mesh.Traffic.Floats.{Floats}
use flux_mesh.Traffic.Match.{
  build_listener_matcher, or_match, best_route_match, normalize_host, has_wildcard,
}
use flux_mesh.Traffic.Match.Index.{HasWeight}
use flux_mesh.Traffic.Match.Build.{has_exact, match_matcher-best_route_match}
use flux_mesh.Traffic.Plan.{
  ListenerPlan, Plan, is_some, route_before, sort_routes, empty_plan, add_services, finish_plan,
  build_plan, listener_map_key,
}
use flux_mesh.Traffic.Plan.Query.{match_route}
use flux_mesh.Traffic.Plan.Sound.{IsSound, all_services-IsSound, and_then-ok}

get-map :
    {A B : Type 0} (g : A → B) (m : Dict Str A) (k : Str)
    → Dict.get (map (λ e. (e.0, g e.1)) m) k
      ≡ elim (Dict.get m k) [ none ↦ none | some a ↦ some (g a) ]
unfolding Dict.get
get-map g [] k = refl
get-map g ((j, a) ∷ m) k = elim (Bool-cases (j == k)) [
  | inl y ↦ rw y refl
  | inr y ↦ rw y (get-map g m k)
]

-- An entry of the mapped map comes from one of the map.
from_map :
    {A B : Type 0} (g : A → B) (m : Dict Str A) (k : Str) (b : B)
    → Dict.get (map (λ e. (e.0, g e.1)) m) k ≡ some b
    → (a : A) × (Dict.get m k ≡ some a) × (g a ≡ b)
unfolding Dict.get
from_map g [] k b h = absurd (ground (arith, h))
from_map g ((j, a) ∷ m) k b h = elim (Bool-cases (j == k)) [
  | inl y ↦ rw y (a, refl, ground (arith, rw y at h))
  | inr y ↦ rw y (from_map g m k b (rw y at h))
]

route_before-IsWeakOrder : IsWeakOrder route_before
unfolding route_before
route_before-IsWeakOrder = record {
  asymm = λ a b h. ground (
    arith,
    str_lt_asymm a.service_name b.service_name,
    str_lt_asymm a.destination b.destination,
    str_beq_iff a.service_name b.service_name,
    str_beq_iff b.service_name a.service_name,
  );
  not_trans = λ a b c h k. ground (
    arith,
    str_lt_trans c.service_name a.service_name b.service_name,
    str_lt_trans a.service_name b.service_name c.service_name,
    str_lt_connex a.service_name b.service_name,
    str_lt_connex b.service_name c.service_name,
    str_lt_asymm a.service_name b.service_name,
    str_lt_trans c.destination a.destination b.destination,
    str_lt_trans a.destination b.destination c.destination,
    str_lt_connex a.destination b.destination,
    str_lt_connex b.destination c.destination,
    str_lt_asymm a.destination b.destination,
    str_beq_iff b.service_name a.service_name,
    str_beq_iff c.service_name b.service_name,
    str_beq_iff c.service_name a.service_name,
  );
}

module _ (f : Floats) where
  -- A listener has no routes where a TCP service is bound; the routes of a listener are in the
  -- order of their paths, weights, services and destinations, and each has
  -- a weight from 1 to 100; the matcher of a listener is the one of its routes.
  pub record IsBuilt (plan : Plan f) : Type 0 where
    pub exclusive :
        (k : Str) → is_some (Dict.get plan.tcp_bindings k) ≡ true → Dict.get plan.listeners k ≡ none
    pub weighted :
        (k : Str) (lp : ListenerPlan)
        → Dict.get plan.listeners k ≡ some lp
        → All HasWeight lp.routes
    pub sorted :
        (k : Str) (lp : ListenerPlan)
        → Dict.get plan.listeners k ≡ some lp
        → IsSorted route_before lp.routes
    pub indexed :
        (k : Str) (lp : ListenerPlan)
        → Dict.get plan.listeners k ≡ some lp
        → Dict.get plan.listener_matchers k ≡ some (build_listener_matcher lp.routes)

  finish_plan-IsBuilt : (plan : Plan f) → IsSound f plan → IsBuilt (finish_plan f plan)
  finish_plan-IsBuilt plan s = record {
    exclusive = λ k y.
        get-map (sort_routes f) plan.listeners k
        ∙ ap (λ o. elim o [ none ↦ none | some a ↦ some (sort_routes f a) ]) (s.exclusive k y);
    weighted = λ k lp y.
        let (old, e, q) = from_map (sort_routes f) plan.listeners k lp y in
        subst (λ l. All HasWeight l.routes) q
          (sort_stable-All route_before HasWeight old.routes (s.weighted k old e));
    sorted = λ k lp y.
        let (old, e, q) = from_map (sort_routes f) plan.listeners k lp y in
        subst (λ l. IsSorted route_before l.routes) q
          (sort_stable-IsSorted route_before route_before-IsWeakOrder old.routes);
    indexed = λ k lp y.
        let (old, e, q) = from_map (sort_routes f) plan.listeners k lp y in
        get-map (λ l. build_listener_matcher (sort_routes f l).routes) plan.listeners k
        ∙ ap
            (λ o. elim o [
              | none ↦ none
              | some a ↦ some (build_listener_matcher (sort_routes f a).routes)
            ])
            e
        ∙ ap (λ l. some (build_listener_matcher l.routes)) q;
  }

  -- Each plan that is returned is sound: a listener with a TCP service has no routes; the routes
  -- of a listener are sorted and have weights from 1 to 100; its matcher is the one of its routes.
  pub build_plan-IsBuilt :
      (parsers : Parsers) (services : List (ServiceConfig f.Float)) (plan : Plan f)
      → build_plan f parsers services ≡ ok plan
      → IsBuilt plan
  unfolding build_plan
  build_plan-IsBuilt parsers services plan h =
      let (mid, added, e) =
        and_then-ok f (add_services f parsers services (empty_plan f)) (λ p. ok (finish_plan f p))
          plan h in
      let same : finish_plan f mid ≡ plan = ground (arith, e) in
      subst IsBuilt same
        (finish_plan-IsBuilt mid (all_services-IsSound f parsers services mid added))

  -- On a plan that was built, a request to a listener with routes gets the best of the routes that
  -- name its host, and the best of those with a wildcard only if no route that names it matches.
  pub match_route-best_route_match :
      (parsers : Parsers) (services : List (ServiceConfig f.Float)) (plan : Plan f) (addr : Str)
      (port : ℤ) (host path : Str) (lp : ListenerPlan)
      → build_plan f parsers services ≡ ok plan
      → Dict.get plan.listeners (listener_map_key (trim_space addr) port) ≡ some lp
      → match_route f plan addr port host path
        ≡ or_match
            (best_route_match lp.listener (keep (has_exact (normalize_host host)) lp.routes) path 2)
            (best_route_match lp.listener (keep has_wildcard lp.routes) path 1)
  unfolding match_route
  match_route-best_route_match parsers services plan addr port host path lp h found =
      let built = build_plan-IsBuilt parsers services plan h in
      let key = listener_map_key (trim_space addr) port in
      rw (found, built.indexed key lp found)
        (match_matcher-best_route_match lp.listener lp.routes (normalize_host host) path
          (built.weighted key lp found))
