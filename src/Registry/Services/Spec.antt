-- ===== src/Registry/Services/Spec.antt =====
-- What internal/registry/services.go promises of its writes: a catalogue of configurations, each
-- with a revision, and what a call may do to it.
use flux_mesh.Base.{
  ℕ, ◌<◌, true, false, Option, none, some, Result, ok, err, ℤ, pos, Str, trim_space, is_empty, ◌≡◌,
  ◌≢◌, ◌⊎◌,
}
use flux_mesh.Model.Service.{ServiceConfig, apply_defaults}
use flux_mesh.Model.Service.Validate.{Parsers, validate}
use flux_mesh.Registry.Etcd.{KeyValue, Etcd}
use flux_mesh.Registry.Services.{
  ServiceError, service_not_found, service_conflict, not_marshalled, invalid, etcd_failed, Json,
  service_key, stored, at_revision, put, update_with_revision, delete,
}

-- A revision and the configuration, if the value is one.
pub record Item (F : Type 0) : Type 0 where
  pub revision : ℕ
  pub config : Option (ServiceConfig F)

abbrev pub Catalogue : Type 0 → Type 0
Catalogue F = Str → Option (Item F)

abbrev pub revision_in : {F : Type 0} → Option (Item F) → ℕ
revision_in none = 0
revision_in (some i) = i.revision

pub data Call (F : Type 0) : Type 0 where
  -- The time and the configuration.
  put_call : Str → ServiceConfig F → Call F
  -- The time, the name, the configuration and the expected revision.
  update_call : Str → Str → ServiceConfig F → ℤ → Call F
  delete_call : Str → Call F

module _ {F : Type 0} where
  -- The configuration stands under all spellings of the name with a later revision, and nothing
  -- else changes.
  pub record IsStored (name : Str) (cfg : ServiceConfig F) (old new : Catalogue F) : Type 0 where
    pub revision : ℕ
    pub later : revision_in (old name) < revision
    pub here :
        (j : Str)
        → trim_space name ≡ trim_space j
        → new j ≡ some (record { revision = revision; config = some (at_revision revision cfg) })
    pub elsewhere : (j : Str) → trim_space name ≢ trim_space j → new j ≡ old j

  pub record IsDeleted (name : Str) (old new : Catalogue F) : Type 0 where
    pub before : old name ≢ none
    pub here : (j : Str) → trim_space name ≡ trim_space j → new j ≡ none
    pub elsewhere : (j : Str) → trim_space name ≢ trim_space j → new j ≡ old j

  abbrev pub IsUnchanged : Catalogue F → Catalogue F → Type 0
  IsUnchanged old new = (j : Str) → new j ≡ old j

  abbrev pub named : Str → ServiceConfig F → ServiceConfig F
  named name cfg = record cfg { name = trim_space name }

  abbrev pub given : Call F → Option (Str × ServiceConfig F)
  given (put_call now cfg) = some (now, cfg)
  given (update_call now name cfg expected) = some (now, named name cfg)
  given (delete_call name) = none

module _ {F J : Type 0} (parsers : Parsers) (json : Json (ServiceConfig F) J) where
  -- What a call does when it returns no error.
  abbrev pub Effect : Call F → Catalogue F → Catalogue F → Type 0
  Effect (put_call now cfg) old new =
      (validate parsers (apply_defaults cfg) ≡ none) × IsStored cfg.name (stored now cfg) old new
  Effect (update_call now name cfg expected) old new =
      (is_empty (trim_space name) ≡ false)
      × (validate parsers (apply_defaults (named name cfg)) ≡ none)
      × (pos (revision_in (old name)) ≡ expected)
      × IsStored name (stored now (named name cfg)) old new
  Effect (delete_call name) old new = IsDeleted name old new

  -- Why a call refuses, where the refusal is the registry's own.
  abbrev pub Reason : {E : Type 0} → ServiceError E → Call F → Catalogue F → Type 0
  Reason service_conflict (update_call now name cfg expected) old =
      pos (revision_in (old name)) ≢ expected
  Reason service_not_found (update_call now name cfg expected) old =
      is_empty (trim_space name) ≡ true
  Reason service_not_found (delete_call name) old = old name ≡ none
  Reason (invalid e) call old =
      (now : Str) × (cfg : ServiceConfig F) × (given call ≡ some (now, cfg))
      × (validate parsers (apply_defaults cfg) ≡ some e)
  Reason not_marshalled call old =
      (now : Str) × (cfg : ServiceConfig F) × (given call ≡ some (now, cfg))
      × (json.marshal (stored now cfg) ≡ none)
  Reason _ _ _ = ⊥

  -- What a call may do: its effect and no error, an error of etcd with its effect or with none,
  -- or a refusal with its reason and no effect.
  abbrev pub Allows :
      {E : Type 0} → Call F → Option (ServiceError E) → Catalogue F → Catalogue F → Type 0
  Allows call none old new = Effect call old new
  Allows call (some (etcd_failed e)) old new = IsUnchanged old new ⊎ Effect call old new
  Allows call (some e) old new = IsUnchanged old new × Reason e call old

module _ {F J : Type 0} (json : Json (ServiceConfig F) J) where
  abbrev pub item_of : Option (KeyValue J) → Option (Item F)
  item_of none = none
  item_of (some kv) = some (record {
    revision = kv.mod_revision;
    config = elim (json.unmarshal kv.value) [
      | none ↦ none
      | some cfg ↦ some (at_revision kv.mod_revision cfg)
    ];
  })

  -- The catalogue that etcd holds.
  abbrev pub catalogue : (Str → Option (KeyValue J)) → Catalogue F
  catalogue store name = item_of (store (service_key name))

  abbrev pub IsFaithful : Type 0
  IsFaithful =
      (cfg : ServiceConfig F) (raw : J)
      → json.marshal cfg ≡ some raw
      → json.unmarshal raw ≡ some cfg

abbrev pub error_of :
    {F E : Type 0} → Result (ServiceError E) (ServiceConfig F) → Option (ServiceError E)
error_of (ok cfg) = none
error_of (err e) = some e

module _ {F S J E : Type 0} (parsers : Parsers) (json : Json (ServiceConfig F) J)
    (etcd : Etcd S J E) where
  unfoldable pub perform : Call F → S → S × Option (ServiceError E)
  perform (put_call now cfg) s = put parsers json etcd now cfg s
  perform (update_call now name cfg expected) s =
      let (s', r) = update_with_revision parsers json etcd now name cfg expected s in
      (s', error_of r)
  perform (delete_call name) s = delete parsers json etcd name s
