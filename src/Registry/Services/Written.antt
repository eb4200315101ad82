-- ===== src/Registry/Services/Written.antt =====
-- What a write of etcd under the key of a service does to the catalogue of services.
use flux_mesh.Base.{
  ℕ, suc, ◌<◌, Option, none, some, ok, ℤ, Str, str_eq, str_beq, str_beq_iff, trim_space, ◌≡◌, ◌≢◌,
  refl, sym, ap, subst, ◌∙◌, arith,
}
use flux_mesh.Model.Service.{ServiceConfig, apply_defaults}
use flux_mesh.Model.Service.Validate.{Parsers, validate}
use flux_mesh.Registry.Etcd.{KeyValue, Etcd, Written, Same, count, revision_of}
use flux_mesh.Registry.Services.{Json, service_key, stored, prepare, validated, marshalled}
use flux_mesh.Registry.Services.Spec.{
  IsStored, IsUnchanged, catalogue, item_of, revision_in, IsFaithful,
}

pub some≢none {ℓ} : {A : Type ℓ} {a : A} → some a ≡ none → ⊥
some≢none h = ground arith

pub count-zero : {J : Type 0} (o : Option (KeyValue J)) → count o ≡ 0 → o ≡ none
count-zero none h = refl
count-zero (some kv) h = ground arith

pub count-suc :
    {J : Type 0} (o : Option (KeyValue J)) (n : ℕ)
    → count o ≡ suc n
    → (kv : KeyValue J) × (o ≡ some kv)
count-suc none n h = ground arith
count-suc (some kv) n h = (kv, refl)

pub same_key : (a b : Str) → trim_space a ≡ trim_space b → service_key b ≡ service_key a
unfolding service_key
same_key a b h = rw h refl

pub other_key : (a b : Str) → trim_space a ≢ trim_space b → service_key a ≢ service_key b
unfolding service_key str_beq
other_key a b h e =
    let t = (str_beq_iff (service_key a) (service_key b)).1 e in
    h ((str_beq_iff (trim_space a) (trim_space b)).0 t)

module _ {F S J E : Type 0} (parsers : Parsers) (json : Json (ServiceConfig F) J)
    (etcd : Etcd S J E) where
  pub prepared :
      (now : Str) (cfg : ServiceConfig F) (raw : J)
      → prepare parsers json etcd now cfg ≡ ok raw
      → (validate parsers (apply_defaults cfg) ≡ none) × (json.marshal (stored now cfg) ≡ some raw)
  unfolding prepare validated marshalled
  prepared now cfg raw h = ground arith

module _ {F J : Type 0} (json : Json (ServiceConfig F) J) (faithful : IsFaithful json) where
  pub item_of-revision : (o : Option (KeyValue J)) → revision_in (item_of json o) ≡ revision_of o
  item_of-revision none = refl
  item_of-revision (some kv) = refl

  pub Written-IsStored :
      (name : Str) (cfg : ServiceConfig F) (raw : J) (lease : ℤ)
      (old new : Str → Option (KeyValue J))
      → json.marshal cfg ≡ some raw
      → Written (service_key name) raw lease old new
      → IsStored name cfg (catalogue json old) (catalogue json new)
  Written-IsStored name cfg raw lease old new h w = record {
    revision = w.revision;
    later = subst (λ n. n < w.revision) (sym (item_of-revision (old (service_key name)))) w.later;
    here = λ j e.
        let at : new (service_key j)
            ≡ some (record {
              key = service_key name;
              value = raw;
              mod_revision = w.revision;
              lease = lease;
            }) =
          ap new (same_key name j e) ∙ w.here in
        rw at (rw (faithful cfg raw h) refl);
    elsewhere = λ j e. ap (item_of json) (w.elsewhere (service_key j) (other_key name j e));
  }

  pub Same-IsUnchanged :
      (old new : Str → Option (KeyValue J))
      → Same old new
      → IsUnchanged (catalogue json old) (catalogue json new)
  Same-IsUnchanged old new h j = ap (item_of json) (h (service_key j))
