-- ===== src/Tests/Etcd.antt =====
-- An etcd that always answers, as an association list; it keeps what etcd documents.
use mathlib.Core.List.{Memᴰ}
use flux_mesh.Base.{
  suc, true, false, Option, none, some, List, [], ◌∷◌, ◌++◌, if◌then◌else◌, ◌==◌, ok, ℤ, pos, beq_ℤ,
  beq_ℤ_iff, Str, str_eq, str_beq_iff, has_prefix, ◌≡◌, ◌≢◌, inl, inr, refl, sym, ap, subst, ◌∙◌,
  arith, Bool-cases, Option-cases, Memᴰ-cases,
}
use flux_mesh.Base.Dict
use flux_mesh.Base.Dict.{Dict}
use flux_mesh.Registry.Etcd.{
  KeyValue, Etcd, IsEtcd, Written, Same, Deleted, found, count, revision_of,
}

abbrev pub Cells : Type 0 → Type 0
Cells J = Dict Str (KeyValue J)

module _ {J : Type 0} where
  -- Each value stands with the key that it was put under.
  abbrev pub held : Cells J → Str → Option (KeyValue J)
  held s k = elim (Dict.get s k) [ none ↦ none | some kv ↦ some (record kv { key = k }) ]

  abbrev keys_with : Str → Cells J → List Str
  keys_with p [] = []
  keys_with p ((k, v) ∷ s) = let rest = keys_with p s in if has_prefix k p then k ∷ rest else rest

  abbrev all_found : Cells J → List Str → List (KeyValue J)
  all_found s [] = []
  all_found s (k ∷ ks) = found (held s k) ++ all_found s ks

  abbrev pub cell : Str → J → ℤ → Cells J → KeyValue J
  cell k v lease s = record {
    key = k;
    value = v;
    mod_revision = suc (revision_of (held s k));
    lease = lease;
  }

  abbrev pub write : Str → J → ℤ → Cells J → Cells J
  write k v lease s = Dict.put s k (cell k v lease s)

  abbrev pub local_etcd : Etcd (Cells J) J Unit
  local_etcd = record {
    get = λ k s. ok (found (held s k));
    get_prefix = λ p s. ok (all_found s (keys_with p s));
    put = λ k v lease s. (write k v lease s, none);
    put_if_revision = λ k expected v s.
        if beq_ℤ (pos (revision_of (held s k))) expected
        then (write k v (pos 0) s, ok true)
        else (s, ok false);
    delete = λ k s. (Dict.remove s k, ok (count (held s k)));
  }

  write_law :
      (k : Str) (v : J) (lease : ℤ) (s : Cells J)
      → Written k v lease (held s) (held (write k v lease s))
  write_law k v lease s = record {
    revision = suc (revision_of (held s k));
    later = omega arith;
    here = ground (arith, Dict.get-put_self s k (cell k v lease s));
    elsewhere = λ j ne. ground (arith, Dict.get-put s k j (cell k v lease s), str_beq_iff k j);
  }

  delete_held : (k : Str) (s : Cells J) → Deleted k (held s) (held (Dict.remove s k))
  delete_held k s = (
    ground (arith, Dict.get-remove s k k, str_beq_iff k k),
    λ j ne. ground (arith, Dict.get-remove s k j, str_beq_iff k j),
  )

  mem-found : (o : Option (KeyValue J)) {kv : KeyValue J} → Memᴰ kv (found o) → o ≡ some kv
  mem-found none m = elim m [ ]
  mem-found (some x) m = elim (Memᴰ-cases m) [ inl q ↦ ap some (sym q) | inr n ↦ elim n [ ] ]

  mem-all_found :
      (s : Cells J) (ks : List Str) {kv : KeyValue J}
      → Memᴰ kv (all_found s ks)
      → (k : Str) × Memᴰ k ks × (held s k ≡ some kv)
  mem-all_found s [] m = elim m [ ]
  mem-all_found s (k ∷ ks) m = elim (Option-cases (held s k)) [
    | inl o ↦ let (j, n, h) = mem-all_found s ks (rw o at m) in (j, Memᴰ.tail n, h)
    | inr (x, o) ↦ elim (Memᴰ-cases (rw o at m)) [
      | inl q ↦ (k, Memᴰ.head refl, o ∙ ap some (sym q))
      | inr n ↦ let (j, n', h) = mem-all_found s ks n in (j, Memᴰ.tail n', h)
    ]
  ]

  all_found-mem :
      (s : Cells J) (ks : List Str) (k : Str) (kv : KeyValue J)
      → Memᴰ k ks
      → held s k ≡ some kv
      → Memᴰ kv (all_found s ks)
  all_found-mem s [] k kv m h = elim m [ ]
  all_found-mem s (j ∷ ks) k kv m h = elim (Memᴰ-cases m) [
    | inl q ↦ rw (ap (held s) (sym q) ∙ h) (Memᴰ.head refl)
    | inr n ↦
        let rest = all_found-mem s ks k kv n h in
        elim (Option-cases (held s j)) [ inl o ↦ rw o rest | inr o ↦ rw o.1 (Memᴰ.tail rest) ]
  ]

  mem-keys_with : (p : Str) (s : Cells J) {k : Str} → Memᴰ k (keys_with p s) → has_prefix k p ≡ true
  mem-keys_with p [] m = elim m [ ]
  mem-keys_with p ((j, v) ∷ s) m = elim (Bool-cases (has_prefix j p)) [
    | inl y ↦ elim (Memᴰ-cases (rw y at m)) [
      | inl q ↦ ap (λ x. has_prefix x p) q ∙ y
      | inr n ↦ mem-keys_with p s n
    ]
    | inr y ↦ mem-keys_with p s (rw y at m)
  ]

  keys_with-mem :
      (p : Str) (s : Cells J) (k : Str) (v : KeyValue J)
      → Dict.get s k ≡ some v
      → has_prefix k p ≡ true
      → Memᴰ k (keys_with p s)
  unfolding Dict.get
  keys_with-mem p [] k v h y = ground arith
  keys_with-mem p ((j, w) ∷ s) k v h y = elim (Bool-cases (j == k)) [
    | inl q ↦ let e : j ≡ k = (str_beq_iff j k).0 q in rw e (rw y (Memᴰ.head refl))
    | inr q ↦
        let rest = keys_with-mem p s k v (rw q at h) y in
        elim (Bool-cases (has_prefix j p)) [ inl z ↦ rw z (Memᴰ.tail rest) | inr z ↦ rw z rest ]
  ]

  held_key : (s : Cells J) (k : Str) (kv : KeyValue J) → held s k ≡ some kv → kv.key ≡ k
  held_key s k kv h = ground arith

  held-get :
      (s : Cells J) (k : Str) (kv : KeyValue J)
      → held s k ≡ some kv
      → (v : KeyValue J) × (Dict.get s k ≡ some v)
  held-get s k kv h = elim (Option-cases (Dict.get s k)) [ inl o ↦ ground arith | inr o ↦ o ]

  prefix_held :
      (p : Str) (s : Cells J) (kvs : List (KeyValue J))
      → all_found s (keys_with p s) ≡ kvs
      → ((kv : KeyValue J) → Memᴰ kv kvs → (held s kv.key ≡ some kv) × (has_prefix kv.key p ≡ true))
        × ((k : Str) (kv : KeyValue J) → held s k ≡ some kv → has_prefix k p ≡ true → Memᴰ kv kvs)
  prefix_held p s kvs q = (
    λ kv m.
        let (k, n, h) = mem-all_found s (keys_with p s) (subst (Memᴰ kv) (sym q) m) in
        let e = held_key s k kv h in
        (ap (held s) e ∙ h, ap (λ x. has_prefix x p) e ∙ mem-keys_with p s n),
    λ k kv h y.
        let (v, g) = held-get s k kv h in
        subst (Memᴰ kv) q (all_found-mem s (keys_with p s) k kv (keys_with-mem p s k v g y) h),
  )

  swap_true :
      (k : Str) (expected : ℤ) (v : J) (s s' : Cells J)
      → local_etcd.put_if_revision k expected v s ≡ (s', ok true)
      → (pos (revision_of (held s k)) ≡ expected) × Written k v (pos 0) (held s) (held s')
  swap_true k expected v s s' h =
      elim (Bool-cases (beq_ℤ (pos (revision_of (held s k))) expected)) [
        | inl y ↦ (
          (beq_ℤ_iff (pos (revision_of (held s k))) expected).0 y,
          subst (λ t. Written k v (pos 0) (held s) (held t)) (ap (λ p. p.0) (rw y at h))
              (write_law k v (pos 0) s),
        )
        | inr y ↦ let q = rw y at h in ground arith
      ]

  swap_false :
      (k : Str) (expected : ℤ) (v : J) (s s' : Cells J)
      → local_etcd.put_if_revision k expected v s ≡ (s', ok false)
      → (pos (revision_of (held s k)) ≢ expected) × Same (held s) (held s')
  swap_false k expected v s s' h =
      elim (Bool-cases (beq_ℤ (pos (revision_of (held s k))) expected)) [
        | inl y ↦ let q = rw y at h in ground arith
        | inr y ↦ (
          (λ e. ground (arith, beq_ℤ_iff (pos (revision_of (held s k))) expected)),
          subst (λ t. Same (held s) (held t)) (ap (λ p. p.0) (rw y at h)) (λ j. refl),
        )
      ]

  pub local_etcd-IsEtcd : IsEtcd local_etcd held
  local_etcd-IsEtcd = record {
    get_law = λ k s kvs h. ground arith;
    get_prefix_law = λ p s kvs h. prefix_held p s kvs (ground arith);
    put_law = λ k v lease s s' h.
        subst (λ t. Written k v lease (held s) (held t)) (ap (λ p. p.0) h) (write_law k v lease s);
    put_error = λ k v lease s s' e h. ground arith;
    swapped = λ k expected v s s' h. swap_true k expected v s s' h;
    not_swapped = λ k expected v s s' h. swap_false k expected v s s' h;
    swap_error = λ k expected v s s' e h. ground arith;
    delete_law = λ k s s' n h. (
      ground arith,
      subst (λ t. Deleted k (held s) (held t)) (ap (λ p. p.0) h) (delete_held k s),
    );
    delete_error = λ k s s' e h. ground arith;
  }
