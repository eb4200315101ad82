-- ===== src/HttpApi/Services/Refusals.antt =====
-- What the responses of internal/httpapi/server.go tell of the services: the handlers composed
-- with the registry.
use flux_mesh.Base.{
  ℕ, false, not, ◌&&◌, Option, none, some, ◌==◌, nat_eq, Result, ok, err, ℤ, Str, codes, str_eq,
  trim_space, is_empty, ◌≡◌, str_beq_iff, inl, inr, refl, Bool-cases,
}
use flux_mesh.Model.Service.{ServiceConfig, apply_defaults}
use flux_mesh.Model.Service.Validate.{ConfigError, Parsers, validate}
use flux_mesh.Registry.Etcd.{KeyValue, Etcd, IsEtcd}
use flux_mesh.Registry.Services.{
  ServiceError, service_not_found, service_conflict, not_marshalled, not_unmarshalled, invalid,
  etcd_failed, Json, update_with_revision, delete,
}
use flux_mesh.Registry.Services.Spec.{
  Call, put_call, update_call, delete_call, Catalogue, IsUnchanged, Effect, Allows, catalogue,
  IsFaithful, error_of, perform,
}
use flux_mesh.Registry.Services.Refinement.{perform-Allows}
use flux_mesh.HttpApi.Services.{
  ServiceRequest, ServiceReply, Response, Served, trim_prefix, parse_expected_revision,
  apply_operator_metadata, updated_reply, update_at, update_checked, update_body, deleted_of,
  handle_service_by_name,
}

module _ {F : Type 0} where
  -- The calls that a request with a method may make for the service of its path.
  abbrev pub IsCallOf : Str → Str → Call F → Type 0
  IsCallOf method name (put_call at cfg) = ⊥
  IsCallOf method name (update_call at n cfg expected) = (method ≡ codes "PUT") × (n ≡ name)
  IsCallOf method name (delete_call n) = (method ≡ codes "DELETE") × (n ≡ name)

module _ {F J : Type 0} (parsers : Parsers) (json : Json (ServiceConfig F) J) where
  -- What a status says of the catalogue before and after a request that may write: 200 comes with
  -- the whole effect of a call, 500 with an effect or with none, and all else with none.
  pub data Tells (about : Call F → Type 0) (old new : Catalogue F) : ℕ → Type 0 where
    refused :
        (status : ℕ) → (status == 200) ≡ false → IsUnchanged old new → Tells about old new status
    done : (call : Call F) → about call → Effect parsers json call old new → Tells about old new 200
    uncertain :
        (call : Call F) → about call → Effect parsers json call old new → Tells about old new 500

module _ {F S J E : Type 0} (parsers : Parsers) (json : Json (ServiceConfig F) J)
    (etcd : Etcd S J E) (parse_int : Str → Option ℤ) (now : Str)
    (store : S → Str → Option (KeyValue J)) (law : IsEtcd etcd store)
    (faithful : IsFaithful json) where
  -- What a response tells of the state that a request met.
  abbrev pub IsTold : (Call F → Type 0) → S → Served parsers json etcd parse_int now → Type 0
  IsTold about s out =
      Tells parsers json about (catalogue json (store s)) (catalogue json (store out.0))
        out.1.status

  not_written :
      (about : Call F → Type 0) (s : S) (response : Response (ServiceReply F E))
      → (response.status == 200) ≡ false
      → IsTold about s (s, response)
  not_written about s response h = refused response.status h (λ j. refl)

  updated_reply-IsTold :
      (about : Call F → Type 0) (name : Str) (call : Call F) (mine : about call) (s s' : S)
      (r : Result (ServiceError E) (ServiceConfig F))
      → Allows parsers json call (error_of r) (catalogue json (store s)) (catalogue json (store s'))
      → IsTold about s (updated_reply parsers json etcd parse_int now name (s', r))
  unfolding updated_reply
  updated_reply-IsTold about name call mine s s' (ok cfg) a = done call mine a
  updated_reply-IsTold about name call mine s s' (err service_not_found) a = refused 404 refl a.0
  updated_reply-IsTold about name call mine s s' (err service_conflict) a = refused 409 refl a.0
  updated_reply-IsTold about name call mine s s' (err not_marshalled) a = refused 500 refl a.0
  updated_reply-IsTold about name call mine s s' (err not_unmarshalled) a = refused 500 refl a.0
  updated_reply-IsTold about name call mine s s' (err (invalid e)) a = refused 500 refl a.0
  updated_reply-IsTold about name call mine s s' (err (etcd_failed e)) (inl same) =
      refused 500 refl same
  updated_reply-IsTold about name call mine s s' (err (etcd_failed e)) (inr effect) =
      uncertain call mine effect

  deleted_of-IsTold :
      (about : Call F → Type 0) (call : Call F) (mine : about call) (s s' : S)
      (r : Option (ServiceError E))
      → Allows parsers json call r (catalogue json (store s)) (catalogue json (store s'))
      → IsTold about s (deleted_of parsers json etcd parse_int now (s', r))
  unfolding deleted_of
  deleted_of-IsTold about call mine s s' none a = done call mine a
  deleted_of-IsTold about call mine s s' (some service_not_found) a = refused 404 refl a.0
  deleted_of-IsTold about call mine s s' (some service_conflict) a = refused 500 refl a.0
  deleted_of-IsTold about call mine s s' (some not_marshalled) a = refused 500 refl a.0
  deleted_of-IsTold about call mine s s' (some not_unmarshalled) a = refused 500 refl a.0
  deleted_of-IsTold about call mine s s' (some (invalid e)) a = refused 500 refl a.0
  deleted_of-IsTold about call mine s s' (some (etcd_failed e)) (inl same) = refused 500 refl same
  deleted_of-IsTold about call mine s s' (some (etcd_failed e)) (inr effect) =
      uncertain call mine effect

  update_at-IsTold :
      (method : Str)
      → method ≡ codes "PUT"
      → (name : Str) (cfg : ServiceConfig F) (s : S) (revision : Result (ServiceReply F E) ℤ)
      → IsTold
          (IsCallOf method name)
          s
          (update_at parsers json etcd parse_int now name cfg s revision)
  unfolding update_at perform
  update_at-IsTold method is_put name cfg s (err reply) =
      not_written (IsCallOf method name) s (record { status = 400; body = reply }) refl
  update_at-IsTold method is_put name cfg s (ok revision) =
      let call : Call F = update_call now name cfg revision in
      let out = update_with_revision parsers json etcd now name cfg revision s in
      updated_reply-IsTold (IsCallOf method name) name call (is_put, refl) s out.0 out.1
        (perform-Allows parsers json etcd store law faithful call s)

  update_checked-IsTold :
      (r : ServiceRequest F)
      → r.method ≡ codes "PUT"
      → (name : Str) (cfg : ServiceConfig F) (s : S) (bad : Option ConfigError)
      → IsTold
          (IsCallOf r.method name)
          s
          (update_checked parsers json etcd parse_int now r name cfg s bad)
  unfolding update_checked
  update_checked-IsTold r is_put name cfg s (some e) = refused 400 refl (λ j. refl)
  update_checked-IsTold r is_put name cfg s none =
      update_at-IsTold r.method is_put name cfg s (
        parse_expected_revision parse_int (r.query (codes "resource_version")) cfg.resource_version)

  update_body-IsTold :
      (r : ServiceRequest F)
      → r.method ≡ codes "PUT"
      → (name : Str) (s : S) (body : Option (Option (ServiceConfig F)))
      → IsTold
          (IsCallOf r.method name)
          s
          (update_body parsers json etcd parse_int now r name s body)
  unfolding update_body
  update_body-IsTold r is_put name s none = refused 400 refl (λ j. refl)
  update_body-IsTold r is_put name s (some none) = refused 400 refl (λ j. refl)
  update_body-IsTold r is_put name s (some (some cfg)) =
      let named = record cfg { name = name } in
      let full = apply_defaults (apply_operator_metadata r.operator named) in
      elim (Bool-cases (not (is_empty cfg.name) && not (cfg.name == name))) [
        | inl y ↦ rw y (refused 400 refl (λ j. refl))
        | inr n ↦ rw n (update_checked-IsTold r is_put name full s (validate parsers full))
      ]

  deleted-IsTold :
      (method : Str)
      → method ≡ codes "DELETE"
      → (name : Str) (s : S)
      → IsTold
          (IsCallOf method name)
          s
          (deleted_of parsers json etcd parse_int now (delete parsers json etcd name s))
  unfolding perform
  deleted-IsTold method is_delete name s =
      let out = delete parsers json etcd name s in
      deleted_of-IsTold (IsCallOf method name) (delete_call name) (is_delete, refl) s out.0 out.1
        (perform-Allows parsers json etcd store law faithful (delete_call name) s)

  -- A request for one service that is no GET: a response with status 200 comes with the whole
  -- effect on the catalogue of services of an update, for PUT, or a deletion, for DELETE, of the
  -- service that the path names, one with 500 with such an effect or with none, and one with any
  -- other status has changed nothing.
  pub handle_service_by_name-IsTold :
      (r : ServiceRequest F) (s : S)
      → (r.method == codes "GET") ≡ false
      → IsTold
          (IsCallOf r.method (trim_space (trim_prefix r.path (codes "/api/v1/services/"))))
          s
          (handle_service_by_name parsers json etcd parse_int now r s)
  unfolding handle_service_by_name
  handle_service_by_name-IsTold r s no_get =
      let name = trim_space (trim_prefix r.path (codes "/api/v1/services/")) in
      elim (Bool-cases (is_empty name)) [
        | inl y ↦ rw y (refused 400 refl (λ j. refl))
        | inr n ↦ elim (Bool-cases (r.method == codes "PUT")) [
          | inl p ↦
              rw (n, no_get, p)
                (update_body-IsTold r ((str_beq_iff r.method (codes "PUT")).0 p) name s r.body)
          | inr p ↦ elim (Bool-cases (r.method == codes "DELETE")) [
            | inl d ↦
                rw (n, no_get, p, d)
                  (deleted-IsTold r.method ((str_beq_iff r.method (codes "DELETE")).0 d) name s)
            | inr d ↦ rw (n, no_get, p, d) (refused 405 refl (λ j. refl))
          ]
        ]
      ]
