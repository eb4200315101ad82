-- ===== src/SoftKv/Store/Settle.antt =====
-- What a run of merges leaves at one key: `Merge` of internal/softkv/store.go.
use mathlib.Core.List.{Memᴰ}
use flux_mesh.Base.{
  true, false, Option, none, some, List, [], ◌∷◌, ◌==◌, Str, str_eq, str_beq_iff, ◌≡◌, ◌⊎◌, inl,
  inr, refl, sym, ap, subst, ◌∙◌, arith, Bool-cases, All, Option-cases,
}
use flux_mesh.SoftKv.Store.{Entry, should_accept}
use flux_mesh.SoftKv.Store.Accept.{
  Compatible, newer, should_accept-newer, newer_trans, newer_connex, newer_irrefl,
}
use flux_mesh.SoftKv.Store.Replica.{better, settle}

module _ {V : Type 0} where
  -- `o` holds an entry that is not older than `e`.
  abbrev pub Covers : Option (Entry V) → Entry V → Type 0
  Covers none e = ⊥
  Covers (some w) e = newer w e ≡ false

module _ {V : Type 0} (W : Entry V → Type 0)
    (compatible : (a b : Entry V) → W a → W b → Compatible a b) where
  abbrev pub Within : Option (Entry V) → Type 0
  Within none = Unit
  Within (some w) = W w

  better-Within : (o : Option (Entry V)) (e : Entry V) → Within o → W e → Within (better o e)
  better-Within none e h k = k
  better-Within (some w) e h k = elim (Bool-cases (should_accept w e)) [
    | inl p ↦ rw p k
    | inr p ↦ rw p h
  ]

  better-Covers_new : (o : Option (Entry V)) (e : Entry V) → Within o → W e → Covers (better o e) e
  better-Covers_new none e h k = newer_irrefl e
  better-Covers_new (some w) e h k = elim (Bool-cases (should_accept w e)) [
    | inl p ↦ rw p (newer_irrefl e)
    | inr p ↦ rw p (rw (should_accept-newer w e (compatible w e h k)) at p)
  ]

  better-Covers_old :
      (o : Option (Entry V)) (e x : Entry V) → Within o → W e → Covers o x → Covers (better o e) x
  better-Covers_old none e x h k c = absurd c
  better-Covers_old (some w) e x h k c = elim (Bool-cases (should_accept w e)) [
    | inl p ↦
        let q : newer w e ≡ true = rw (should_accept-newer w e (compatible w e h k)) at p in
        rw p (ground (arith, newer_trans w e x, q, c))
    | inr p ↦ rw p c
  ]

  pub settle-Covers_old :
      (k : Str) (o : Option (Entry V)) (es : List (Entry V)) (x : Entry V)
      → Within o
      → All W es
      → Covers o x
      → Covers (settle k o es) x
  unfolding settle
  settle-Covers_old k o [] x h a c = c
  settle-Covers_old k o (e ∷ es) x h a c = elim (Bool-cases (e.key == k)) [
    | inl p ↦ rw p (
        settle-Covers_old k (better o e) es x (better-Within o e h a.0) a.1
          (better-Covers_old o e x h a.0 c))
    | inr p ↦ rw p (settle-Covers_old k o es x h a.1 c)
  ]

  -- What was delivered for the key is covered by what the run leaves there.
  pub settle-Covers :
      (k : Str) (o : Option (Entry V)) (es : List (Entry V)) (x : Entry V)
      → Within o
      → All W es
      → Memᴰ x es
      → x.key ≡ k
      → Covers (settle k o es) x
  unfolding settle
  settle-Covers k o [] x h a m r = elim m [ ]
  settle-Covers k o (e ∷ es) x h a (Memᴰ.head q) r =
      let p : (e.key == k) ≡ true =
        (str_beq_iff e.key k).1 (ap (λ (y : Entry V). y.key) (sym q) ∙ r) in
      let here = subst (λ y. Covers (better o e) y) (sym q) (better-Covers_new o e h a.0) in
      rw p (settle-Covers_old k (better o e) es x (better-Within o e h a.0) a.1 here)
  settle-Covers k o (e ∷ es) x h a (Memᴰ.tail m) r = elim (Bool-cases (e.key == k)) [
    | inl p ↦ rw p (settle-Covers k (better o e) es x (better-Within o e h a.0) a.1 m r)
    | inr p ↦ rw p (settle-Covers k o es x h a.1 m r)
  ]

module _ {V : Type 0} where
  better-cases :
      (o : Option (Entry V)) (e : Entry V) {w : Entry V}
      → better o e ≡ some w
      → (o ≡ some w) ⊎ (w ≡ e)
  better-cases none e h = inr (cc)
  better-cases (some c) e h = elim (Bool-cases (should_accept c e)) [
    | inl p ↦ let q = rw p at h in inr (cc)
    | inr p ↦ inl (rw p at h)
  ]

  -- What a run leaves at a key was there before, or was delivered for it.
  pub settle-cases :
      (k : Str) (o : Option (Entry V)) (es : List (Entry V)) {w : Entry V}
      → settle k o es ≡ some w
      → (o ≡ some w) ⊎ (Memᴰ w es × (w.key ≡ k))
  unfolding settle
  settle-cases k o [] h = inl h
  settle-cases k o (e ∷ es) {w} h = elim (Bool-cases (e.key == k)) [
    | inl p ↦ elim (settle-cases k (better o e) es (rw p at h)) [
      | inl q ↦ elim (better-cases o e q) [
        | inl r ↦ inl r
        | inr r ↦ inr (Memᴰ.head r, ap (λ (y : Entry V). y.key) r ∙ (str_beq_iff e.key k).0 p)
      ]
      | inr (m, r) ↦ inr (Memᴰ.tail m, r)
    ]
    | inr p ↦ elim (settle-cases k o es (rw p at h)) [
      | inl q ↦ inl q
      | inr (m, r) ↦ inr (Memᴰ.tail m, r)
    ]
  ]

  abbrev pub AllWithin {κ} : (Entry V → Type κ) → List (Entry V) → Type κ
  AllWithin W es = (e : Entry V) → Memᴰ e es → W e

  pub All-of_mem {κ} : {W : Entry V → Type κ} (es : List (Entry V)) → AllWithin W es → All W es
  All-of_mem [] h = tt
  All-of_mem (e ∷ es) h = (h e (Memᴰ.head refl), All-of_mem es (λ x m. h x (Memᴰ.tail m)))

module _ {V : Type 0} (k : Str) (xs ys : List (Entry V))
    (compatible : (a b : Entry V) → Memᴰ a xs → Memᴰ b xs → Compatible a b)
    (there : (e : Entry V) → Memᴰ e xs → Memᴰ e ys)
    (back : (e : Entry V) → Memᴰ e ys → Memᴰ e xs) where
  abbrev W : Entry V → Type 0
  W e = Memᴰ e xs

  covered_xs : (x : Entry V) → Memᴰ x xs → x.key ≡ k → Covers (settle k none xs) x
  covered_xs x = settle-Covers W compatible k none xs x tt (All-of_mem xs (λ e m. m))

  covered_ys : (x : Entry V) → Memᴰ x ys → x.key ≡ k → Covers (settle k none ys) x
  covered_ys x = settle-Covers W compatible k none ys x tt (All-of_mem ys back)

  from_none :
      (es : List (Entry V)) {w : Entry V} → settle k none es ≡ some w → Memᴰ w es × (w.key ≡ k)
  from_none es h = elim (settle-cases k none es h) [ inl q ↦ absurd (cc) | inr m ↦ m ]

  pub settle-eq : settle k none xs ≡ settle k none ys
  settle-eq = elim (Option-cases (settle k none xs)) [
    | inl p ↦ elim (Option-cases (settle k none ys)) [
      | inl q ↦ p ∙ sym q
      | inr (v, q) ↦
          let (m, r) = from_none ys q in
          absurd (subst (λ o. Covers o v) p (covered_xs v (back v m) r))
    ]
    | inr (w, p) ↦
        let (m, r) = from_none xs p in
        elim (Option-cases (settle k none ys)) [
          | inl q ↦ absurd (subst (λ o. Covers o w) q (covered_ys w (there w m) r))
          | inr (v, q) ↦
              let (n, t) = from_none ys q in
              let vw : newer v w ≡ false = subst (λ o. Covers o w) q (covered_ys w (there w m) r) in
              let wv : newer w v ≡ false = subst (λ o. Covers o v) p (covered_xs v (back v n) t) in
              p ∙ ap some (newer_connex w v (compatible w v m (back v n)) wv vw) ∙ sym q
        ]
  ]
