-- ===== src/Registry/Services/Reads.antt =====
-- What `Get` and `List` of internal/registry/services.go read of the catalogue of services.
use mathlib.Core.List.{Memᴰ}
use flux_mesh.Base.{
  true, Option, none, some, List, [], ◌∷◌, Result, ok, err, Str, has_prefix, ◌≡◌, inl, inr, refl,
  sym, ap, subst, ◌∙◌, arith, Memᴰ-cases, Option-cases,
}
use flux_mesh.Model.Service.{ServiceConfig}
use flux_mesh.Model.Service.Validate.{Parsers}
use flux_mesh.Registry.Etcd.{KeyValue, Etcd, IsEtcd, found}
use flux_mesh.Registry.Services.{
  ServiceError, service_not_found, not_unmarshalled, Json, service_key, at_revision, get,
  get_outcome, decode_one, list, list_outcome, decode_all, decoded, services_prefix,
}
use flux_mesh.Registry.Services.Spec.{Item, catalogue, item_of}

module _ {F E : Type 0} where
  -- What a reader is told of an entry of the catalogue.
  abbrev pub read_item : Option (Item F) → Result (ServiceError E) (ServiceConfig F)
  read_item none = err service_not_found
  read_item (some i) = elim i.config [ none ↦ err not_unmarshalled | some cfg ↦ ok cfg ]

module _ {F S J E : Type 0} (parsers : Parsers) (json : Json (ServiceConfig F) J)
    (etcd : Etcd S J E) (store : S → Str → Option (KeyValue J)) (law : IsEtcd etcd store) where
  found_read :
      (o : Option (KeyValue J))
      → get_outcome parsers json etcd (ok (found o)) ≡ read_item (item_of json o)
  unfolding get_outcome decode_one
  found_read none = refl
  found_read (some kv) = ground arith

  -- Where etcd answers, `Get` returns what the catalogue holds under the name: the configuration
  -- with its revision, that there is none, or that the value is not a configuration.
  pub get-catalogue :
      (name : Str) (s : S) (kvs : List (KeyValue J))
      → etcd.get (service_key name) s ≡ ok kvs
      → get parsers json etcd name s ≡ read_item (catalogue json (store s) name)
  unfolding get
  get-catalogue name s kvs h =
      ap (get_outcome parsers json etcd) (h ∙ ap ok (law.get_law (service_key name) s kvs h))
      ∙ found_read (store s (service_key name))

  mem-decode_all :
      (kvs : List (KeyValue J)) (kv : KeyValue J) (cfg : ServiceConfig F)
      → Memᴰ kv kvs
      → json.unmarshal kv.value ≡ some cfg
      → Memᴰ (at_revision kv.mod_revision cfg) (decode_all parsers json etcd kvs)
  unfolding decode_all decoded
  mem-decode_all [] kv cfg m h = elim m [ ]
  mem-decode_all (x ∷ kvs) kv cfg m h = elim (Memᴰ-cases m) [
    | inl q ↦
        let hx : json.unmarshal x.value ≡ some cfg =
          ap (λ (y : KeyValue J). json.unmarshal y.value) (sym q) ∙ h in
        rw hx (Memᴰ.head (ap (λ (y : KeyValue J). at_revision y.mod_revision cfg) q))
    | inr n ↦
        let rest = mem-decode_all kvs kv cfg n h in
        elim (Option-cases (json.unmarshal x.value)) [
          | inl o ↦ rw o rest
          | inr o ↦ rw o.1 (Memᴰ.tail rest)
        ]
  ]

  decode_all-mem :
      (kvs : List (KeyValue J)) (c : ServiceConfig F)
      → Memᴰ c (decode_all parsers json etcd kvs)
      → (kv : KeyValue J) × (cfg : ServiceConfig F) × Memᴰ kv kvs
        × (json.unmarshal kv.value ≡ some cfg)
        × (c ≡ at_revision kv.mod_revision cfg)
  unfolding decode_all decoded
  decode_all-mem [] c m = elim m [ ]
  decode_all-mem (x ∷ kvs) c m = elim (Option-cases (json.unmarshal x.value)) [
    | inl o ↦
        let (kv, cfg, n, u, e) = decode_all-mem kvs c (rw o at m) in (kv, cfg, Memᴰ.tail n, u, e)
    | inr (cfg, o) ↦ elim (Memᴰ-cases (rw o at m)) [
      | inl q ↦ (x, cfg, Memᴰ.head refl, o, q)
      | inr n ↦ let (kv, cfg', n', u, e) = decode_all-mem kvs c n in (kv, cfg', Memᴰ.tail n', u, e)
    ]
  ]

  item_of-config :
      (o : Option (KeyValue J)) (i : Item F) (c : ServiceConfig F)
      → item_of json o ≡ some i
      → i.config ≡ some c
      → (kv : KeyValue J) × (cfg : ServiceConfig F) × (o ≡ some kv)
        × (json.unmarshal kv.value ≡ some cfg)
        × (c ≡ at_revision kv.mod_revision cfg)
  item_of-config none i c h k = ground arith
  item_of-config (some kv) i c h k = elim (Option-cases (json.unmarshal kv.value)) [
    | inl o ↦ ground arith
    | inr (cfg, o) ↦ (kv, cfg, refl, o, ground arith)
  ]

  abbrev pub IsListed : S → List (ServiceConfig F) → Type 0
  IsListed s items =
      ((name : Str) (i : Item F) (c : ServiceConfig F)
        → catalogue json (store s) name ≡ some i
        → i.config ≡ some c
        → Memᴰ c items)
      × ((c : ServiceConfig F)
          → Memᴰ c items
          → (kv : KeyValue J) × (cfg : ServiceConfig F) × (store s kv.key ≡ some kv)
            × (has_prefix kv.key services_prefix ≡ true)
            × (json.unmarshal kv.value ≡ some cfg)
            × (c ≡ at_revision kv.mod_revision cfg))

  list_outcome-IsListed :
      (s : S) (items : List (ServiceConfig F)) (r : Result E (List (KeyValue J)))
      → etcd.get_prefix services_prefix s ≡ r
      → list_outcome parsers json etcd r ≡ ok items
      → IsListed s items
  unfolding list_outcome service_key has_prefix
  list_outcome-IsListed s items (err e) g h = ground arith
  list_outcome-IsListed s items (ok kvs) g h =
      let q : decode_all parsers json etcd kvs ≡ items = ground arith in
      let (in_store, held) = law.get_prefix_law services_prefix s kvs g in
      (
        λ name i c at some_c.
            let (kv, cfg, in_s, u, e) = item_of-config (store s (service_key name)) i c at some_c in
            subst (λ x. Memᴰ x items) (sym e)
              (subst (Memᴰ (at_revision kv.mod_revision cfg)) q
                (mem-decode_all kvs kv cfg (held (service_key name) kv in_s refl) u)),
        λ c m.
            let (kv, cfg, n, u, e) = decode_all-mem kvs c (subst (Memᴰ c) (sym q) m) in
            let (at, p) = in_store kv n in (kv, cfg, at, p, u, e),
      )

  -- A list that is returned has each configuration of the catalogue, and each of its members is
  -- what etcd holds under some key with the prefix of the services, at its revision.
  pub list-catalogue :
      (s : S) (items : List (ServiceConfig F))
      → list parsers json etcd s ≡ ok items
      → IsListed s items
  unfolding list
  list-catalogue s items h =
      list_outcome-IsListed s items (etcd.get_prefix services_prefix s) refl h
