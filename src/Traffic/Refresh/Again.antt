-- ===== src/Traffic/Refresh/Again.antt =====
-- A second refresh of internal/traffic/server.go with the same services.
use flux_mesh.Base.{
  false, none, some, List, ◌==◌, Result, ok, err, ℤ, pos, ltb_ℤ, Str, str_eq, str_beq_iff, subst,
  ◌≡◌, refl, ap, sym, arith, Bool-cases, inl, inr,
}
use flux_mesh.Model.Service.{ServiceConfig}
use flux_mesh.Model.Service.Validate.{Parsers}
use flux_mesh.Traffic.Floats.{Floats}
use flux_mesh.Traffic.Plan.{Plan, PlanError, build_plan}
use flux_mesh.Traffic.Refresh.{
  Runtime, Binds, RefreshError, next_service_watch_revision, service_snapshot_key, apply_plan,
  refresh_planned, refresh, raise_revision,
}

module _ (f : Floats) where
  -- What a refresh leaves behind that returned no error.
  abbrev pub IsFresh : List (ServiceConfig f.Float) → Runtime f → Type 0
  IsFresh items s =
      (service_snapshot_key items ≡ s.last_snapshot)
      × (ltb_ℤ s.watch_revision (next_service_watch_revision (pos 0) items) ≡ false)

  raised-IsFresh :
      (items : List (ServiceConfig f.Float)) (s : Runtime f)
      → service_snapshot_key items ≡ s.last_snapshot
      → IsFresh items (raise_revision f (next_service_watch_revision (pos 0) items) s)
  raised-IsFresh items s h = (h, ground arith)

  planned-IsFresh :
      {E : Type 0} (binds : Binds) (items : List (ServiceConfig f.Float)) (s s' : Runtime f)
      (planned : Result PlanError (Plan f))
      → refresh_planned f {E = E} binds
          (service_snapshot_key items)
          (next_service_watch_revision (pos 0) items)
          planned
          s
        ≡ (s', none)
      → IsFresh items s'
  unfolding refresh_planned apply_plan
  planned-IsFresh binds items s s' (err e) h = ground arith
  planned-IsFresh binds items s s' (ok plan) h =
      let next = next_service_watch_revision (pos 0) items in
      subst (IsFresh items) (ap (λ p. p.0) h) (refl, ground arith)

  refresh-IsFresh :
      {E : Type 0} (parsers : Parsers) (binds : Binds) (items : List (ServiceConfig f.Float))
      (s s' : Runtime f)
      → refresh f {E = E} parsers binds (ok items) s ≡ (s', none)
      → IsFresh items s'
  unfolding refresh
  refresh-IsFresh {E} parsers binds items s s' h =
      elim (Bool-cases (service_snapshot_key items == s.last_snapshot)) [
        | inl y ↦
            let same = (str_beq_iff (service_snapshot_key items) s.last_snapshot).0 y in
            subst (IsFresh items) (ap (λ p. p.0) (rw y at h)) (raised-IsFresh items s same)
        | inr n ↦ planned-IsFresh {E = E} binds items s s' (build_plan f parsers items) (rw n at h)
      ]

  -- A refresh with the services of the last refresh that returned no error does nothing at all,
  -- whatever can be bound by then: a listener whose bind failed is not tried again.
  pub refresh_again :
      {E : Type 0} (parsers : Parsers) (binds binds' : Binds) (items : List (ServiceConfig f.Float))
      (s s' : Runtime f)
      → refresh f {E = E} parsers binds (ok items) s ≡ (s', none)
      → refresh f {E = E} parsers binds' (ok items) s' ≡ (s', none)
  unfolding refresh
  refresh_again {E} parsers binds binds' items s s' h =
      let (same, old) = refresh-IsFresh {E = E} parsers binds items s s' h in
      let y = (str_beq_iff (service_snapshot_key items) s'.last_snapshot).1 same in rw (y, old) refl

  planned_failure :
      {E : Type 0} (binds : Binds) (snapshot : Str) (next : ℤ) (s s' : Runtime f)
      (e : RefreshError E) (planned : Result PlanError (Plan f))
      → refresh_planned f binds snapshot next planned s ≡ (s', some e)
      → s' ≡ s
  unfolding refresh_planned
  planned_failure binds snapshot next s s' e (err x) h = sym (ap (λ p. p.0) h)
  planned_failure binds snapshot next s s' e (ok plan) h = ground arith

  -- A refresh that returns an error, because the services are not listed or no plan can be built
  -- of them, changes nothing.
  pub refresh_failure :
      {E : Type 0} (parsers : Parsers) (binds : Binds)
      (listed : Result E (List (ServiceConfig f.Float))) (s s' : Runtime f) (e : RefreshError E)
      → refresh f parsers binds listed s ≡ (s', some e)
      → s' ≡ s
  unfolding refresh
  refresh_failure parsers binds (err x) s s' e h = sym (ap (λ p. p.0) h)
  refresh_failure parsers binds (ok items) s s' e h =
      elim (Bool-cases (service_snapshot_key items == s.last_snapshot)) [
        | inl y ↦ let q = rw y at h in ground arith
        | inr n ↦ planned_failure binds _ _ s s' e (build_plan f parsers items) (rw n at h)
      ]
