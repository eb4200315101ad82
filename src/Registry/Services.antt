-- ===== src/Registry/Services.antt =====
-- internal/registry/services.go: the configurations of services under a prefix of etcd. The
-- packages net and fmt, encoding/json and the etcd client are parameters; `now` is the text of
-- the time of a call.
pub mod Spec
pub mod Written
pub mod Refinement
pub mod Reads
pub mod Revision
use flux_mesh.Base.{
  ℕ, zero, suc, Bool, true, false, Option, none, some, List, [], ◌∷◌, ◌++◌, if◌then◌else◌, Result,
  ok, err, ℤ, pos, Str, codes, trim_space, is_empty,
}
use flux_mesh.Model.Service.{ServiceConfig, apply_defaults}
use flux_mesh.Model.Service.Validate.{ConfigError, Parsers, validate}
use flux_mesh.Registry.Etcd.{KeyValue, Etcd}

abbrev services_prefix : Str
services_prefix = codes "/mesh/services/"

pub data ServiceError (E : Type 0) : Type 0 where
  service_not_found service_conflict not_marshalled not_unmarshalled : ServiceError E
  invalid : ConfigError → ServiceError E
  etcd_failed : E → ServiceError E

-- json.Marshal and json.Unmarshal on configurations.
pub record Json (A J : Type 0) : Type 0 where
  pub marshal : A → Option J
  pub unmarshal : J → Option A

unfoldable pub service_key : Str → Str
service_key name = services_prefix ++ trim_space name

module _ {F : Type 0} where
  unfoldable pub stamp_service_audit : Str → ServiceConfig F → ServiceConfig F
  stamp_service_audit now cfg = record cfg {
    updated_at = now;
    updated_by = if is_empty (trim_space cfg.updated_by) then codes "system" else cfg.updated_by;
  }

  -- What is marshalled: the configuration with its defaults, its version reset, and the stamp.
  unfoldable pub stored : Str → ServiceConfig F → ServiceConfig F
  stored now cfg =
      let full : ServiceConfig F = apply_defaults cfg in
      stamp_service_audit now (record full { resource_version = pos 0 })

  -- What was unmarshalled, with the revision that etcd gives it.
  unfoldable pub at_revision : ℕ → ServiceConfig F → ServiceConfig F
  at_revision revision cfg = record cfg { resource_version = pos revision }

module _ {F S J E : Type 0} (parsers : Parsers) (json : Json (ServiceConfig F) J)
    (etcd : Etcd S J E) where
  marshalled : Option J → Result (ServiceError E) J
  marshalled none = err not_marshalled
  marshalled (some payload) = ok payload

  validated : Option ConfigError → Result (ServiceError E) J → Result (ServiceError E) J
  validated none rest = rest
  validated (some e) rest = err (invalid e)

  -- The part that `Put` and `UpdateWithRevision` share: the payload, or why there is none.
  unfoldable pub prepare : Str → ServiceConfig F → Result (ServiceError E) J
  unfolding validated marshalled stored stamp_service_audit
  prepare now cfg =
      validated (validate parsers (apply_defaults cfg)) (marshalled (json.marshal (stored now cfg)))

  put_outcome : S × Option E → S × Option (ServiceError E)
  put_outcome (s, none) = (s, none)
  put_outcome (s, some e) = (s, some (etcd_failed e))

  put_payload : Str → S → Result (ServiceError E) J → S × Option (ServiceError E)
  unfolding put_outcome
  put_payload key s (err e) = (s, some e)
  put_payload key s (ok payload) = put_outcome (etcd.put key payload (pos 0) s)

  unfoldable pub put : Str → ServiceConfig F → S → S × Option (ServiceError E)
  unfolding put_payload service_key
  put now cfg s = put_payload (service_key cfg.name) s (prepare now cfg)

  decoded : ℕ → Option (ServiceConfig F) → List (ServiceConfig F) → List (ServiceConfig F)
  decoded revision none rest = rest
  decoded revision (some cfg) rest = at_revision revision cfg ∷ rest

  -- The loop skips a value that is not a configuration.
  unfoldable pub decode_all : List (KeyValue J) → List (ServiceConfig F)
  unfolding decoded at_revision
  decode_all [] = []
  decode_all (kv ∷ kvs) = decoded kv.mod_revision (json.unmarshal kv.value) (decode_all kvs)

  list_outcome : Result E (List (KeyValue J)) → Result (ServiceError E) (List (ServiceConfig F))
  unfolding decode_all
  list_outcome (err e) = err (etcd_failed e)
  list_outcome (ok kvs) = ok (decode_all kvs)

  unfoldable pub list : S → Result (ServiceError E) (List (ServiceConfig F))
  unfolding list_outcome
  list s = list_outcome (etcd.get_prefix services_prefix s)

  decode_one : ℕ → Option (ServiceConfig F) → Result (ServiceError E) (ServiceConfig F)
  unfolding at_revision
  decode_one revision none = err not_unmarshalled
  decode_one revision (some cfg) = ok (at_revision revision cfg)

  get_outcome : Result E (List (KeyValue J)) → Result (ServiceError E) (ServiceConfig F)
  unfolding decode_one
  get_outcome (err e) = err (etcd_failed e)
  get_outcome (ok []) = err service_not_found
  get_outcome (ok (kv ∷ kvs)) = decode_one kv.mod_revision (json.unmarshal kv.value)

  unfoldable pub get : Str → S → Result (ServiceError E) (ServiceConfig F)
  unfolding get_outcome service_key
  get name s = get_outcome (etcd.get (service_key name) s)

  swap_outcome : Str → S × Result E Bool → S × Result (ServiceError E) (ServiceConfig F)
  unfolding get
  swap_outcome name (s, err e) = (s, err (etcd_failed e))
  swap_outcome name (s, ok false) = (s, err service_conflict)
  swap_outcome name (s, ok true) = (s, get name s)

  swap_payload :
      Str → ℤ → S → Result (ServiceError E) J → S × Result (ServiceError E) (ServiceConfig F)
  unfolding swap_outcome service_key
  swap_payload name expected s (err e) = (s, err e)
  swap_payload name expected s (ok payload) =
      swap_outcome name (etcd.put_if_revision (service_key name) expected payload s)

  unfoldable pub update_with_revision :
      Str → Str → ServiceConfig F → ℤ → S → S × Result (ServiceError E) (ServiceConfig F)
  unfolding swap_payload
  update_with_revision now raw cfg expected s =
      let name = trim_space raw in
      if is_empty name
      then (s, err service_not_found)
      else swap_payload name expected s (prepare now (record cfg { name = name }))

  delete_outcome : S × Result E ℕ → S × Option (ServiceError E)
  delete_outcome (s, err e) = (s, some (etcd_failed e))
  delete_outcome (s, ok zero) = (s, some service_not_found)
  delete_outcome (s, ok (suc n)) = (s, none)

  unfoldable pub delete : Str → S → S × Option (ServiceError E)
  unfolding delete_outcome service_key
  delete name s = delete_outcome (etcd.delete (service_key name) s)
