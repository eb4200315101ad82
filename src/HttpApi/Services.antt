-- ===== src/HttpApi/Services.antt =====
-- internal/httpapi/server.go: the handlers of services. io.ReadAll, json.Unmarshal and
-- strconv.ParseInt are parameters.
pub mod Refusals
use flux_mesh.Base.{
  ℕ, Bool, true, false, not, ◌&&◌, Option, none, some, List, [], ◌∷◌, if◌then◌else◌, ◌==◌, Result,
  ok, err, ℤ, pos, ltb_ℤ, leb_ℤ, Str, codes, str_eq, trim_space, has_prefix, is_empty, drop, length,
}
use flux_mesh.Model.Service.{ServiceConfig, apply_defaults}
use flux_mesh.Model.Service.Validate.{ConfigError, Parsers, validate}
use flux_mesh.Registry.Etcd.{Etcd}
use flux_mesh.Registry.Services.{
  ServiceError, service_not_found, service_conflict, Json, put, get, list, update_with_revision,
  delete,
}

-- strings.TrimPrefix
unfoldable pub trim_prefix : Str → Str → Str
trim_prefix s p = if has_prefix s p then drop (length p) s else s

-- What a request for services has: its method and path, a query value by name (empty if there is
-- none), the header X-Operator, and its body: none if it cannot be read, then what json.Unmarshal
-- makes of it.
pub record ServiceRequest (F : Type 0) : Type 0 where
  pub method : Str
  pub path : Str
  pub query : Str → Str
  pub operator : Str
  pub body : Option (Option (ServiceConfig F))

pub data ServiceReply (F E : Type 0) : Type 0 where
  method_not_allowed unreadable invalid_json name_required_reply names_differ : ServiceReply F E
  revision_required revision_invalid not_found_reply deleted_reply : ServiceReply F E
  invalid_config : ConfigError → ServiceReply F E
  failed_reply : ServiceError E → ServiceReply F E
  one_config : ServiceConfig F → ServiceReply F E
  configs : List (ServiceConfig F) → ServiceReply F E
  -- The latest configuration, if it could be read.
  conflict_reply : Option (ServiceConfig F) → ServiceReply F E

pub record Response (B : Type 0) : Type 0 where
  pub status : ℕ
  pub body : B

abbrev pub respond : {B : Type 0} → ℕ → B → Response B
respond status body = record { status = status; body = body }

revision_of_text : Option ℤ → Option ℤ
revision_of_text none = none
revision_of_text (some n) = if leb_ℤ n (pos 0) then none else some n

-- The revision, or the reply of the error.
unfoldable pub parse_expected_revision :
    {F E : Type 0} → (Str → Option ℤ) → Str → ℤ → Result (ServiceReply F E) ℤ
unfolding revision_of_text
parse_expected_revision parse_int raw fallback =
    let text = trim_space raw in
    if is_empty text
    then (if ltb_ℤ (pos 0) fallback then ok fallback else err revision_required)
    else elim (revision_of_text (parse_int text)) [ none ↦ err revision_invalid | some n ↦ ok n ]

unfoldable pub apply_operator_metadata : {F : Type 0} → Str → ServiceConfig F → ServiceConfig F
apply_operator_metadata header cfg =
    let given = trim_space header in
    let kept = trim_space cfg.updated_by in
    record cfg {
      updated_by =
          if not (is_empty given) then given else if not (is_empty kept) then kept else codes "api";
    }

module _ {F S J E : Type 0} (parsers : Parsers) (json : Json (ServiceConfig F) J)
    (etcd : Etcd S J E) (parse_int : Str → Option ℤ) (now : Str) where
  abbrev pub Served : Type 0
  Served = S × Response (ServiceReply F E)

  listed_reply : Result (ServiceError E) (List (ServiceConfig F)) → Response (ServiceReply F E)
  listed_reply (err e) = respond 500 (failed_reply e)
  listed_reply (ok items) = respond 200 (configs items)

  stored_reply : ServiceConfig F → S × Option (ServiceError E) → Served
  stored_reply cfg (s, some e) = (s, respond 500 (failed_reply e))
  stored_reply cfg (s, none) = (s, respond 201 (one_config cfg))

  create_checked : ServiceConfig F → S → Option ConfigError → Served
  unfolding stored_reply
  create_checked cfg s (some e) = (s, respond 400 (invalid_config e))
  create_checked cfg s none = stored_reply cfg (put parsers json etcd now cfg s)

  create_body : ServiceRequest F → S → Option (Option (ServiceConfig F)) → Served
  unfolding create_checked apply_operator_metadata
  create_body r s none = (s, respond 400 unreadable)
  create_body r s (some none) = (s, respond 400 invalid_json)
  create_body r s (some (some cfg)) =
      let full = apply_defaults (apply_operator_metadata r.operator cfg) in
      create_checked full s (validate parsers full)

  unfoldable pub handle_services : ServiceRequest F → S → Served
  unfolding create_body listed_reply
  handle_services r s =
      if r.method == codes "GET"
      then (s, listed_reply (list parsers json etcd s))
      else if r.method == codes "POST"
      then create_body r s r.body
      else (s, respond 405 method_not_allowed)

  got_reply : Result (ServiceError E) (ServiceConfig F) → Response (ServiceReply F E)
  got_reply (ok cfg) = respond 200 (one_config cfg)
  got_reply (err service_not_found) = respond 404 not_found_reply
  got_reply (err e) = respond 500 (failed_reply e)

  latest_of : Result (ServiceError E) (ServiceConfig F) → Option (ServiceConfig F)
  latest_of (ok cfg) = some cfg
  latest_of (err e) = none

  updated_reply : Str → S × Result (ServiceError E) (ServiceConfig F) → Served
  unfolding latest_of
  updated_reply name (s, ok cfg) = (s, respond 200 (one_config cfg))
  updated_reply name (s, err service_conflict) =
      (s, respond 409 (conflict_reply (latest_of (get parsers json etcd name s))))
  updated_reply name (s, err service_not_found) = (s, respond 404 not_found_reply)
  updated_reply name (s, err e) = (s, respond 500 (failed_reply e))

  update_at : Str → ServiceConfig F → S → Result (ServiceReply F E) ℤ → Served
  unfolding updated_reply
  update_at name cfg s (err reply) = (s, respond 400 reply)
  update_at name cfg s (ok revision) =
      updated_reply name (update_with_revision parsers json etcd now name cfg revision s)

  update_checked : ServiceRequest F → Str → ServiceConfig F → S → Option ConfigError → Served
  unfolding update_at parse_expected_revision
  update_checked r name cfg s (some e) = (s, respond 400 (invalid_config e))
  update_checked r name cfg s none =
      update_at name cfg s (
        parse_expected_revision parse_int (r.query (codes "resource_version")) cfg.resource_version)

  update_body : ServiceRequest F → Str → S → Option (Option (ServiceConfig F)) → Served
  unfolding update_checked apply_operator_metadata
  update_body r name s none = (s, respond 400 unreadable)
  update_body r name s (some none) = (s, respond 400 invalid_json)
  update_body r name s (some (some cfg)) =
      let named = record cfg { name = name } in
      let full = apply_defaults (apply_operator_metadata r.operator named) in
      if not (is_empty cfg.name) && not (cfg.name == name)
      then (s, respond 400 names_differ)
      else update_checked r name full s (validate parsers full)

  deleted_of : S × Option (ServiceError E) → Served
  deleted_of (s, none) = (s, respond 200 deleted_reply)
  deleted_of (s, some service_not_found) = (s, respond 404 not_found_reply)
  deleted_of (s, some e) = (s, respond 500 (failed_reply e))

  unfoldable pub handle_service_by_name : ServiceRequest F → S → Served
  unfolding update_body deleted_of got_reply
  handle_service_by_name r s =
      let name = trim_space (trim_prefix r.path (codes "/api/v1/services/")) in
      if is_empty name
      then (s, respond 400 name_required_reply)
      else if r.method == codes "GET"
      then (s, got_reply (get parsers json etcd name s))
      else if r.method == codes "PUT"
      then update_body r name s r.body
      else if r.method == codes "DELETE"
      then deleted_of (delete parsers json etcd name s)
      else (s, respond 405 method_not_allowed)
