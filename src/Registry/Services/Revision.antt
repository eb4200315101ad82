-- ===== src/Registry/Services/Revision.antt =====
-- Revisions in internal/registry/services.go: what was put is read back, and of two updates that
-- expect one revision at most one has an effect.
use flux_mesh.Base.{
  ℕ, ◌<◌, Option, none, some, List, ok, ℤ, Str, trim_space, ◌≡◌, ◌≢◌, ◌⊎◌, inl, inr, ap, ◌∙◌, arith,
}
use flux_mesh.Model.Service.{ServiceConfig}
use flux_mesh.Model.Service.Validate.{Parsers}
use flux_mesh.Registry.Etcd.{KeyValue, Etcd, IsEtcd}
use flux_mesh.Registry.Services.{
  ServiceError, service_not_found, service_conflict, not_marshalled, not_unmarshalled, invalid,
  etcd_failed, Json, service_key, stored, at_revision, put, get, update_with_revision,
}
use flux_mesh.Registry.Services.Spec.{
  Call, put_call, update_call, Catalogue, IsUnchanged, Effect, Allows, catalogue, revision_in,
  IsFaithful, error_of, perform,
}
use flux_mesh.Registry.Services.Refinement.{perform-Allows}
use flux_mesh.Registry.Services.Reads.{get-catalogue, read_item}

module _ {F J E : Type 0} (parsers : Parsers) (json : Json (ServiceConfig F) J) where
  -- A call that returns an error changes nothing or has its effect.
  pub Allows-error :
      (call : Call F) (e : ServiceError E) (old new : Catalogue F)
      → Allows parsers json call (some e) old new
      → IsUnchanged old new ⊎ Effect parsers json call old new
  Allows-error call service_not_found old new h = inl h.0
  Allows-error call service_conflict old new h = inl h.0
  Allows-error call not_marshalled old new h = inl h.0
  Allows-error call not_unmarshalled old new h = inl h.0
  Allows-error call (invalid c) old new h = inl h.0
  Allows-error call (etcd_failed e) old new h = h

module _ {F S J E : Type 0} (parsers : Parsers) (json : Json (ServiceConfig F) J)
    (etcd : Etcd S J E) (store : S → Str → Option (KeyValue J)) (law : IsEtcd etcd store)
    (faithful : IsFaithful json) where
  -- The effect of an update excludes that of another that expects the same revision.
  one_update :
      (now now' name name' : Str) (cfg cfg' : ServiceConfig F) (expected : ℤ) (a b c : Catalogue F)
      → trim_space name ≡ trim_space name'
      → Effect parsers json (update_call now name cfg expected) a b
      → Effect parsers json (update_call now' name' cfg' expected) b c
      → ⊥
  one_update now now' name name' cfg cfg' expected a b c same first second =
      let (n, v, at, w) = first in
      let later = w.later in
      let here = ap revision_in (w.here name' same) in
      let (n', v', again, w') = second in ground arith

  update_again :
      (now now' name name' : Str) (cfg cfg' : ServiceConfig F) (expected : ℤ) (a b c : Catalogue F)
      (e : Option (ServiceError E))
      → trim_space name ≡ trim_space name'
      → Effect parsers json (update_call now name cfg expected) a b
      → Allows parsers json (update_call now' name' cfg' expected) e b c
      → (e ≢ none) × IsUnchanged b c
  update_again now now' name name' cfg cfg' expected a b c none same first second =
      absurd (one_update now now' name name' cfg cfg' expected a b c same first second)
  update_again now now' name name' cfg cfg' expected a b c (some e) same first second = (
    (λ h. ground arith),
    elim (Allows-error parsers json (update_call now' name' cfg' expected) e b c second) [
      | inl u ↦ u
      | inr w ↦ absurd (one_update now now' name name' cfg cfg' expected a b c same first w)
    ],
  )

  -- Of two updates of one name that expect the same revision, where the first returns a
  -- configuration and the second follows it, the second returns an error and changes nothing.
  pub update_with_revision-once :
      (now now' name name' : Str) (cfg cfg' c : ServiceConfig F) (expected : ℤ) (s : S)
      → trim_space name ≡ trim_space name'
      → (update_with_revision parsers json etcd now name cfg expected s).1 ≡ ok c
      → let s' = (update_with_revision parsers json etcd now name cfg expected s).0 in
        let (s'', r) = update_with_revision parsers json etcd now' name' cfg' expected s' in
        (error_of r ≢ none) × IsUnchanged (catalogue json (store s')) (catalogue json (store s''))
  unfolding perform
  update_with_revision-once now now' name name' cfg cfg' c expected s same h =
      let first =
        perform-Allows parsers json etcd store law faithful (update_call now name cfg expected) s in
      let s' = (update_with_revision parsers json etcd now name cfg expected s).0 in
      let second =
        perform-Allows parsers json etcd store law faithful (update_call now' name' cfg' expected)
          s' in
      update_again now now' name name' cfg cfg' expected _ _ _ _ same (rw h at first) second

  -- After a `Put` without an error, `Get` of the name in any spelling, where etcd answers it,
  -- returns the configuration with its defaults, its stamp and a revision later than the one
  -- that the name had.
  pub get-put_config :
      (now name : Str) (cfg : ServiceConfig F) (s : S) (kvs : List (KeyValue J))
      → let s' = (put parsers json etcd now cfg s).0 in
        (put parsers json etcd now cfg s).1 ≡ none
        → trim_space cfg.name ≡ trim_space name
        → etcd.get (service_key name) s' ≡ ok kvs
        → (revision : ℕ) × (revision_in (catalogue json (store s) cfg.name) < revision)
          × (get parsers json etcd name s' ≡ ok (at_revision revision (stored now cfg)))
  unfolding perform
  get-put_config now name cfg s kvs h same answers =
      let s' = (put parsers json etcd now cfg s).0 in
      let allowed = perform-Allows parsers json etcd store law faithful (put_call now cfg) s in
      let (v, w) = rw h at allowed in
      (
        w.revision,
        w.later,
        get-catalogue parsers json etcd store law name s' kvs answers
            ∙ ap read_item (w.here name same),
      )
