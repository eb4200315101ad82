-- ===== src/Tests/Registry.antt =====
-- Runs of internal/registry over an etcd that always answers.
use flux_mesh.Base.{
  ℕ, true, none, some, [], ◌∷◌, ok, pos, codes, str_beq, trim_space, to_lower, has_prefix, ◌≡◌, ◌≢◌,
  sym, refl, ◌<◌,
}
use flux_mesh.Base.Dict
use flux_mesh.Model.Service.{ServiceConfig, apply_defaults}
use flux_mesh.Model.Service.Minimal.{minimal}
use flux_mesh.Model.Service.Validate.{Parsers, validate, is_valid_lb_strategy}
use flux_mesh.Registry.Services.{
  ServiceError, Json, service_conflict, stored, at_revision, prepare, put, get, list, decode_all,
  update_with_revision,
}
use flux_mesh.Registry.Services.Spec.{
  put_call, IsFaithful, IsUnchanged, Allows, catalogue, perform, revision_in,
}
use flux_mesh.Registry.Services.Refinement.{perform-Allows}
use flux_mesh.Registry.Services.Reads.{IsListed, list-catalogue}
use flux_mesh.Registry.Services.Revision.{update_with_revision-once, get-put_config}
use flux_mesh.Tests.Etcd.{Cells, held, local_etcd, local_etcd-IsEtcd}

abbrev lenient : Parsers
lenient = record { is_ipv4 = λ s. true; split_host_port = λ s. none; sscan_int = λ s. none }

abbrev Config : Type 0
Config = ServiceConfig ℕ

-- Values that are their own bytes.
abbrev plain : {A : Type 0} → Json A A
plain = record { marshal = λ c. some c; unmarshal = λ c. some c }

plain-IsFaithful : IsFaithful (plain {A = Config})
plain-IsFaithful cfg raw h = sym h

abbrev web : Config
web = minimal 0 (codes "web") (pos 8080) (codes "/") (codes "10.0.0.2:80")

abbrev empty : Cells Config
empty = []

-- What etcd holds after web was put.
abbrev full : Cells Config
full = (put lenient plain local_etcd (codes "now") web empty).0

abbrev updated : Cells Config
updated =
    (update_with_revision lenient plain local_etcd (codes "now") (codes "web") web (pos 1) full).0

perform-Allows_example :
    Allows lenient plain
      (put_call (codes "now") web)
      (perform lenient plain local_etcd (put_call (codes "now") web) empty).1
      (catalogue plain (held empty))
      (catalogue plain
        (held (perform lenient plain local_etcd (put_call (codes "now") web) empty).0))
perform-Allows_example =
    perform-Allows lenient plain local_etcd held local_etcd-IsEtcd plain-IsFaithful
      (put_call (codes "now") web) empty

get-put_config_example :
    (revision : ℕ) × (revision_in (catalogue plain (held empty) (codes "web")) < revision)
    × (get lenient plain local_etcd (codes " web ") full
        ≡ ok (at_revision revision (stored (codes "now") web)))
unfolding put prepare validate apply_defaults is_valid_lb_strategy to_lower trim_space str_beq
    has_prefix
get-put_config_example =
    get-put_config lenient plain local_etcd held local_etcd-IsEtcd plain-IsFaithful (codes "now")
      (codes " web ") web empty _ refl refl refl

abbrev conflict : ServiceError Unit
conflict = service_conflict

update_with_revision-once_example :
    (some conflict ≢ none)
    × IsUnchanged (catalogue plain (held updated)) (catalogue plain (held updated))
unfolding update_with_revision put prepare validate apply_defaults is_valid_lb_strategy to_lower
    trim_space str_beq has_prefix Dict.put Dict.get
update_with_revision-once_example =
    update_with_revision-once lenient plain local_etcd held local_etcd-IsEtcd plain-IsFaithful
      (codes "now") (codes "later") (codes "web") (codes " web ") web web
      (at_revision 2 (stored (codes "now") web)) (pos 1) full refl refl

list-catalogue_example :
    IsListed lenient plain local_etcd held local_etcd-IsEtcd full
      (at_revision 1 (stored (codes "now") web) ∷ [])
unfolding list decode_all put prepare validate apply_defaults is_valid_lb_strategy to_lower
    trim_space str_beq has_prefix Dict.put Dict.get
list-catalogue_example =
    list-catalogue lenient plain local_etcd held local_etcd-IsEtcd full
      (at_revision 1 (stored (codes "now") web) ∷ []) refl
