-- ===== src/Registry/Services/Refinement.antt =====
-- The writes of internal/registry/services.go implement their specification over etcd.
use flux_mesh.Base.{
  ℕ, zero, suc, Bool, true, false, Option, none, some, ◌==◌, Result, ok, err, ℤ, pos, Str, str_eq,
  str_beq_iff, trim_space, trim_space_twice, List, [], ◌∷◌, is_empty, ◌≡◌, ◌⊎◌, inl, inr, refl, sym,
  ap, subst, ◌∙◌, arith, Bool-cases, Option-cases,
}
use flux_mesh.Model.Service.{ServiceConfig, apply_defaults}
use flux_mesh.Model.Service.Validate.{ConfigError, Parsers, validate}
use flux_mesh.Registry.Etcd.{KeyValue, Etcd, IsEtcd, Written, Deleted, found, revision_of}
use flux_mesh.Registry.Services.{
  ServiceError, not_marshalled, invalid, etcd_failed, Json, service_key, stored, at_revision,
  prepare, validated, marshalled, put_outcome, put_payload, put, update_with_revision, delete,
  delete_outcome, swap_outcome, swap_payload, get, get_outcome, decode_one,
}
use flux_mesh.Registry.Services.Spec.{
  Call, put_call, update_call, delete_call, IsDeleted, IsUnchanged, Effect, Allows, catalogue,
  item_of, named, given, IsFaithful, error_of, perform,
}
use flux_mesh.Registry.Services.Written.{
  some≢none, count-zero, count-suc, same_key, other_key, prepared, item_of-revision,
  Written-IsStored, Same-IsUnchanged,
}

abbrev the_result : {E : Type 0} (A : Type 0) → ServiceError E → Result (ServiceError E) A
the_result A e = err e

the_error : {E : Type 0} (A : Type 0) (c e : ServiceError E) → the_result A c ≡ err e → c ≡ e
the_error A c e h = ground arith

module _ {F S J E : Type 0} (parsers : Parsers) (json : Json (ServiceConfig F) J)
    (etcd : Etcd S J E) (store : S → Str → Option (KeyValue J)) (law : IsEtcd etcd store)
    (faithful : IsFaithful json) where
  -- What a call allows, of the states before and after it.
  abbrev Ends : Call F → S → S × Option (ServiceError E) → Type 0
  Ends call s out =
      Allows parsers json call out.1 (catalogue json (store s)) (catalogue json (store out.0))

  unchanged : (s : S) → IsUnchanged (catalogue json (store s)) (catalogue json (store s))
  unchanged s j = refl

  -- A call whose payload cannot be made.
  refused :
      (call : Call F) (now : Str) (cfg : ServiceConfig F) (o : Option ConfigError) (m : Option J)
      (e : ServiceError E) (s : S)
      → given call ≡ some (now, cfg)
      → validate parsers (apply_defaults cfg) ≡ o
      → json.marshal (stored now cfg) ≡ m
      → validated parsers json etcd o (marshalled parsers json etcd m) ≡ err e
      → Ends call s (s, some e)
  unfolding validated marshalled
  refused call now cfg none none e s g v m h =
      subst (λ x. Ends call s (s, some x)) (the_error J not_marshalled e h)
        (unchanged s, (now, cfg, g, m))
  refused call now cfg none (some raw) e s g v m h = ground arith
  refused call now cfg (some c) m e s g v q h =
      subst (λ x. Ends call s (s, some x)) (the_error J (invalid c) e h)
        (unchanged s, (now, cfg, g, v))

  unprepared :
      (call : Call F) (now : Str) (cfg : ServiceConfig F) (e : ServiceError E) (s : S)
      → given call ≡ some (now, cfg)
      → prepare parsers json etcd now cfg ≡ err e
      → Ends call s (s, some e)
  unfolding prepare validated
  unprepared call now cfg e s g h =
      refused call now cfg (validate parsers (apply_defaults cfg)) (json.marshal (stored now cfg)) e
        s g refl refl h

  put_outcome-Allows :
      (now : Str) (cfg : ServiceConfig F) (raw : J) (s : S) (out : S × Option E)
      → etcd.put (service_key cfg.name) raw (pos 0) s ≡ out
      → prepare parsers json etcd now cfg ≡ ok raw
      → Ends (put_call now cfg) s (put_outcome parsers json etcd out)
  unfolding put_outcome
  put_outcome-Allows now cfg raw s (s', none) h p =
      let (v, m) = prepared parsers json etcd now cfg raw p in
      (
        v,
        Written-IsStored json faithful cfg.name (stored now cfg) raw (pos 0) (store s) (store s') m
            (law.put_law (service_key cfg.name) raw (pos 0) s s' h),
      )
  put_outcome-Allows now cfg raw s (s', some e) h p =
      let (v, m) = prepared parsers json etcd now cfg raw p in
      elim (law.put_error (service_key cfg.name) raw (pos 0) s s' e h) [
        | inl same ↦ inl (Same-IsUnchanged json faithful (store s) (store s') same)
        | inr w ↦ inr (
          v,
          Written-IsStored json faithful cfg.name (stored now cfg) raw (pos 0) (store s) (store s')
              m w,
        )
      ]

  put_payload-Allows :
      (now : Str) (cfg : ServiceConfig F) (s : S) (p : Result (ServiceError E) J)
      → prepare parsers json etcd now cfg ≡ p
      → Ends (put_call now cfg) s (put_payload parsers json etcd (service_key cfg.name) s p)
  unfolding put_payload
  put_payload-Allows now cfg s (err e) h = unprepared (put_call now cfg) now cfg e s refl h
  put_payload-Allows now cfg s (ok raw) h =
      put_outcome-Allows now cfg raw s (etcd.put (service_key cfg.name) raw (pos 0) s) refl h

  -- What is found under a key that holds a configuration.
  get_found :
      (name : Str) (s : S) (kv : KeyValue J) (cfg : ServiceConfig F)
      (r : Result E (List (KeyValue J)))
      → etcd.get (service_key name) s ≡ r
      → store s (service_key name) ≡ some kv
      → json.unmarshal kv.value ≡ some cfg
      → (get_outcome parsers json etcd r ≡ ok (at_revision kv.mod_revision cfg))
        ⊎ ((e : E) × (get_outcome parsers json etcd r ≡ err (etcd_failed e)))
  unfolding get_outcome decode_one
  get_found name s kv cfg (err e) h at u = inr (e, refl)
  get_found name s kv cfg (ok kvs) h at u =
      let kvs' : kvs ≡ kv ∷ [] = law.get_law (service_key name) s kvs h ∙ ap found at in
      inl (rw kvs' (rw u refl))

  swap-Effect :
      (now raw_name : Str) (cfg : ServiceConfig F) (expected : ℤ) (raw : J) (s s' : S)
      → is_empty (trim_space raw_name) ≡ false
      → prepare parsers json etcd now (named raw_name cfg) ≡ ok raw
      → pos (revision_of (store s (service_key (trim_space raw_name)))) ≡ expected
      → Written (service_key (trim_space raw_name)) raw (pos 0) (store s) (store s')
      → Effect parsers json
          (update_call now raw_name cfg expected)
          (catalogue json (store s))
          (catalogue json (store s'))
  swap-Effect now raw_name cfg expected raw s s' n p e w =
      let (v, m) = prepared parsers json etcd now (named raw_name cfg) raw p in
      let key : service_key (trim_space raw_name) ≡ service_key raw_name =
        same_key raw_name (trim_space raw_name) (sym (trim_space_twice raw_name)) in
      (
        n,
        v,
        ap pos (item_of-revision json faithful (store s (service_key raw_name))) ∙ rw key at e,
        Written-IsStored json faithful raw_name (stored now (named raw_name cfg)) raw (pos 0)
            (store s) (store s') m (rw key at w),
      )

  -- What the outcomes of a swap come from.
  swap_outcome-Allows :
      (now raw_name : Str) (cfg : ServiceConfig F) (expected : ℤ) (raw : J) (s : S)
      (out : S × Result E Bool)
      → let name = trim_space raw_name in
        is_empty name ≡ false
        → etcd.put_if_revision (service_key name) expected raw s ≡ out
        → prepare parsers json etcd now (named raw_name cfg) ≡ ok raw
        → let (s', r) = swap_outcome parsers json etcd name out in
          Ends (update_call now raw_name cfg expected) s (s', error_of r)
  unfolding swap_outcome get
  swap_outcome-Allows now raw_name cfg expected raw s (s', err e) n h p =
      elim (law.swap_error (service_key (trim_space raw_name)) expected raw s s' e h) [
        | inl same ↦ inl (Same-IsUnchanged json faithful (store s) (store s') same)
        | inr w ↦ inr (swap-Effect now raw_name cfg expected raw s s' n p w.0 w.1)
      ]
  swap_outcome-Allows now raw_name cfg expected raw s (s', ok false) n h p =
      let (ne, same) = law.not_swapped (service_key (trim_space raw_name)) expected raw s s' h in
      let key : service_key (trim_space raw_name) ≡ service_key raw_name =
        same_key raw_name (trim_space raw_name) (sym (trim_space_twice raw_name)) in
      (
        Same-IsUnchanged json faithful (store s) (store s') same,
        λ e.
            (rw key at ne)
              (ap pos (sym (item_of-revision json faithful (store s (service_key raw_name)))) ∙ e),
      )
  swap_outcome-Allows now raw_name cfg expected raw s (s', ok true) n h p =
      let name = trim_space raw_name in
      let (e, w) = law.swapped (service_key name) expected raw s s' h in
      let (v, m) = prepared parsers json etcd now (named raw_name cfg) raw p in
      let effect = swap-Effect now raw_name cfg expected raw s s' n p e w in
      elim (get_found name s' _ (stored now (named raw_name cfg)) (etcd.get (service_key name) s')
        refl w.here (faithful _ raw m)) [ inl g ↦ rw g effect | inr g ↦ rw g.1 (inr effect) ]

  swap_payload-Allows :
      (now raw_name : Str) (cfg : ServiceConfig F) (expected : ℤ) (s : S)
      (p : Result (ServiceError E) J)
      → let name = trim_space raw_name in
        is_empty name ≡ false
        → prepare parsers json etcd now (named raw_name cfg) ≡ p
        → let (s', r) = swap_payload parsers json etcd name expected s p in
          Ends (update_call now raw_name cfg expected) s (s', error_of r)
  unfolding swap_payload
  swap_payload-Allows now raw_name cfg expected s (err e) n h =
      unprepared (update_call now raw_name cfg expected) now (named raw_name cfg) e s refl h
  swap_payload-Allows now raw_name cfg expected s (ok raw) n h =
      swap_outcome-Allows now raw_name cfg expected raw s
        (etcd.put_if_revision (service_key (trim_space raw_name)) expected raw s) n refl h

  update-Allows :
      (now raw_name : Str) (cfg : ServiceConfig F) (expected : ℤ) (s : S)
      → Ends
          (update_call now raw_name cfg expected)
          s
          (perform parsers json etcd (update_call now raw_name cfg expected) s)
  unfolding perform update_with_revision
  update-Allows now raw_name cfg expected s = elim (Bool-cases (is_empty (trim_space raw_name))) [
    | inl y ↦ rw y (unchanged s, y)
    | inr n ↦ rw n (
        swap_payload-Allows now raw_name cfg expected s
          (prepare parsers json etcd now (named raw_name cfg)) n refl)
  ]

  deleted :
      (name : Str) (s s' : S) (kv : KeyValue J)
      → store s (service_key name) ≡ some kv
      → Deleted (service_key name) (store s) (store s')
      → IsDeleted name (catalogue json (store s)) (catalogue json (store s'))
  deleted name s s' kv held d = record {
    before = λ e. absurd (some≢none (ap (item_of json) (sym held) ∙ e));
    here = λ j e. ap (λ k. item_of json (store s' k)) (same_key name j e) ∙ ap (item_of json) d.0;
    elsewhere = λ j e. ap (item_of json) (d.1 (service_key j) (other_key name j e));
  }

  delete_missing :
      (name : Str) (s s' : S)
      → store s (service_key name) ≡ none
      → Deleted (service_key name) (store s) (store s')
      → IsUnchanged (catalogue json (store s)) (catalogue json (store s'))
  delete_missing name s s' held d j = elim (Bool-cases (service_key name == service_key j)) [
    | inl y ↦
        let e = (str_beq_iff (service_key name) (service_key j)).0 y in
        ap (λ k. item_of json (store s' k)) (sym e)
        ∙ ap (item_of json) (d.0 ∙ sym held)
        ∙ ap (λ k. item_of json (store s k)) e
    | inr n ↦
        ap (item_of json) (
          d.1 (service_key j) (λ e. ground (arith, str_beq_iff (service_key name) (service_key j))))
  ]

  delete_outcome-Allows :
      (name : Str) (s : S) (out : S × Result E ℕ)
      → etcd.delete (service_key name) s ≡ out
      → Ends (delete_call name) s (delete_outcome parsers json etcd out)
  unfolding delete_outcome
  delete_outcome-Allows name s (s', err e) h = elim (law.delete_error (service_key name) s s' e h) [
    | inl same ↦ inl (Same-IsUnchanged json faithful (store s) (store s') same)
    | inr d ↦ elim (Option-cases (store s (service_key name))) [
      | inl held ↦ inl (delete_missing name s s' held d)
      | inr held ↦ inr (deleted name s s' held.0 held.1 d)
    ]
  ]
  delete_outcome-Allows name s (s', ok zero) h =
      let (n, d) = law.delete_law (service_key name) s s' 0 h in
      let held : store s (service_key name) ≡ none =
        count-zero (store s (service_key name)) (sym n) in
      (delete_missing name s s' held d, ap (item_of json) held)
  delete_outcome-Allows name s (s', ok (suc m)) h =
      let (n, d) = law.delete_law (service_key name) s s' (suc m) h in
      let (kv, held) = count-suc (store s (service_key name)) m (sym n) in
      deleted name s s' kv held d

  -- Whatever a call of `Put`, of `UpdateWithRevision` or of `Delete` returns, the specification
  -- allows it: without an error the call has had its whole effect on the catalogue, a refusal of
  -- the registry has the reason that its error names and changes nothing, and an error of etcd
  -- leaves the catalogue as it was or with the whole effect.
  pub perform-Allows :
      (call : Call F) (s : S)
      → let (s', e) = perform parsers json etcd call s in
        Allows parsers json call e (catalogue json (store s)) (catalogue json (store s'))
  unfolding perform put delete
  perform-Allows (put_call now cfg) s =
      put_payload-Allows now cfg s (prepare parsers json etcd now cfg) refl
  perform-Allows (update_call now name cfg expected) s = update-Allows now name cfg expected s
  perform-Allows (delete_call name) s =
      delete_outcome-Allows name s (etcd.delete (service_key name) s) refl
