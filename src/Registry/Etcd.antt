-- ===== src/Registry/Etcd.antt =====
-- What internal/registry uses of the etcd client: its key-value calls, and what etcd documents of
-- them. A state `S` is etcd with the network in between, `J` the bytes of a value, `E` the errors
-- of a call. A call that reads changes nothing that etcd holds.
use flux_mesh.Base.{
  ℕ, ◌<◌, Bool, true, false, Option, none, some, List, [], ◌∷◌, Result, ok, err, ℤ, pos, Str,
  str_eq, has_prefix, ◌≡◌, ◌≢◌, ◌⊎◌,
}
use mathlib.Core.List.{Memᴰ}

-- mvccpb.KeyValue; a lease 0 is no lease.
pub record KeyValue (J : Type 0) : Type 0 where
  pub key : Str
  pub value : J
  pub mod_revision : ℕ
  pub lease : ℤ

pub record Etcd (S J E : Type 0) : Type 0 where
  pub get : Str → S → Result E (List (KeyValue J))
  pub get_prefix : Str → S → Result E (List (KeyValue J))
  -- The key, the value and the lease.
  pub put : Str → J → ℤ → S → S × Option E
  -- A transaction that puts under a key if its modification revision is the one given: whether
  -- it succeeded.
  pub put_if_revision : Str → ℤ → J → S → S × Result E Bool
  -- How many keys were deleted.
  pub delete : Str → S → S × Result E ℕ

-- The revision that a comparison sees: 0 for a key that is not there.
abbrev pub revision_of : {J : Type 0} → Option (KeyValue J) → ℕ
revision_of none = 0
revision_of (some kv) = kv.mod_revision

abbrev pub found : {J : Type 0} → Option (KeyValue J) → List (KeyValue J)
found none = []
found (some kv) = kv ∷ []

abbrev pub count : {J : Type 0} → Option (KeyValue J) → ℕ
count none = 0
count (some kv) = 1

-- A put under `k` takes the contents of etcd from the first to the second: a later revision is
-- given to the key, and no other key changes.
pub record Written {J : Type 0} (k : Str) (v : J) (lease : ℤ) (old new : Str → Option (KeyValue J))
    : Type 0 where
  pub revision : ℕ
  pub later : revision_of (old k) < revision
  pub here : new k ≡ some (record { key = k; value = v; mod_revision = revision; lease = lease })
  pub elsewhere : (j : Str) → k ≢ j → new j ≡ old j

abbrev pub Same : {J : Type 0} → (Str → Option (KeyValue J)) → (Str → Option (KeyValue J)) → Type 0
Same old new = (j : Str) → new j ≡ old j

abbrev pub Deleted :
    {J : Type 0} → Str → (Str → Option (KeyValue J)) → (Str → Option (KeyValue J)) → Type 0
Deleted k old new = (new k ≡ none) × ((j : Str) → k ≢ j → new j ≡ old j)

-- What etcd documents, where a call that fails may or may not have had its effect.
pub record IsEtcd {S J E : Type 0} (etcd : Etcd S J E) (store : S → Str → Option (KeyValue J))
    : Type 0 where
  pub get_law :
      (k : Str) (s : S) (kvs : List (KeyValue J)) → etcd.get k s ≡ ok kvs → kvs ≡ found (store s k)
  pub get_prefix_law :
      (p : Str) (s : S) (kvs : List (KeyValue J))
      → etcd.get_prefix p s ≡ ok kvs
      → ((kv : KeyValue J)
          → Memᴰ kv kvs
          → (store s kv.key ≡ some kv) × (has_prefix kv.key p ≡ true))
        × ((k : Str) (kv : KeyValue J) → store s k ≡ some kv → has_prefix k p ≡ true → Memᴰ kv kvs)
  pub put_law :
      (k : Str) (v : J) (lease : ℤ) (s s' : S)
      → etcd.put k v lease s ≡ (s', none)
      → Written k v lease (store s) (store s')
  pub put_error :
      (k : Str) (v : J) (lease : ℤ) (s s' : S) (e : E)
      → etcd.put k v lease s ≡ (s', some e)
      → Same (store s) (store s') ⊎ Written k v lease (store s) (store s')
  pub swapped :
      (k : Str) (expected : ℤ) (v : J) (s s' : S)
      → etcd.put_if_revision k expected v s ≡ (s', ok true)
      → (pos (revision_of (store s k)) ≡ expected) × Written k v (pos 0) (store s) (store s')
  pub not_swapped :
      (k : Str) (expected : ℤ) (v : J) (s s' : S)
      → etcd.put_if_revision k expected v s ≡ (s', ok false)
      → (pos (revision_of (store s k)) ≢ expected) × Same (store s) (store s')
  pub swap_error :
      (k : Str) (expected : ℤ) (v : J) (s s' : S) (e : E)
      → etcd.put_if_revision k expected v s ≡ (s', err e)
      → Same (store s) (store s')
        ⊎ ((pos (revision_of (store s k)) ≡ expected) × Written k v (pos 0) (store s) (store s'))
  pub delete_law :
      (k : Str) (s s' : S) (n : ℕ)
      → etcd.delete k s ≡ (s', ok n)
      → (n ≡ count (store s k)) × Deleted k (store s) (store s')
  pub delete_error :
      (k : Str) (s s' : S) (e : E)
      → etcd.delete k s ≡ (s', err e)
      → Same (store s) (store s') ⊎ Deleted k (store s) (store s')
