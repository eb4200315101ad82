-- ===== src/Base/Dict.antt =====
-- Go's `map[K]V` as an association list, in one order that iteration may meet. The functions are
-- the language's; a lookup of a missing key is `none`, and what Go returns there is the caller's.
use mathlib.Core.Path.{◌≡◌, refl}
use mathlib.Core.Logic.{◌≢◌, inl, inr}
use mathlib.Core.Bool.{Bool}
use mathlib.Core.List.{List, [], ◌∷◌}
use mathlib.Core.Option.{Option, none, some}
use native.Mathlib.Omega.{arith}
use flux_mesh.Base.Tests.{if◌then◌else◌, Eq, ◌==◌, Bool-cases}
use flux_mesh.Base.Lists.{All, keep}

abbrev pub Dict {ℓ κ} : Type ℓ → Type κ → Type (ℓ ⊔ κ)
Dict K V = List (K × V)

module _ {ℓ κ} {K : Type ℓ} {V : Type κ} ⦃e : Eq K⦄ where
  -- `v, ok := m[k]`
  unfoldable pub get : Dict K V → K → Option V
  get [] k = none
  get ((j, v) ∷ m) k = if j == k then some v else get m k

  -- `m[k] = v`
  unfoldable pub put : Dict K V → K → V → Dict K V
  put [] k v = (k, v) ∷ []
  put ((j, w) ∷ m) k v = let rest = put m k v in if j == k then (k, v) ∷ m else (j, w) ∷ rest

  -- `delete(m, k)`
  unfoldable pub remove : Dict K V → K → Dict K V
  remove [] k = []
  remove ((j, w) ∷ m) k = let rest = remove m k in if j == k then rest else (j, w) ∷ rest

  pub get-put :
      (m : Dict K V) (k j : K) (v : V) → get (put m k v) j ≡ (if k == j then some v else get m j)
  unfolding get put
  get-put [] k j v = refl
  get-put ((i, w) ∷ m) k j v =
      ground (arith, e.same_iff i k, e.same_iff i j, e.same_iff k j, get-put m k j v)

  pub get-remove :
      (m : Dict K V) (k j : K) → get (remove m k) j ≡ (if k == j then none else get m j)
  unfolding get remove
  get-remove [] k j = ground arith
  get-remove ((i, w) ∷ m) k j =
      ground (arith, e.same_iff i k, e.same_iff i j, e.same_iff k j, get-remove m k j)

  pub get-put_self : (m : Dict K V) (k : K) (v : V) → get (put m k v) k ≡ some v
  get-put_self m k v = ground (arith, get-put m k k v, e.same_iff k k)

  -- Each key stands once: what a Go map is, whatever its order.
  abbrev pub Absent : K → Dict K V → Type ℓ
  Absent k = All (λ p. p.0 ≢ k)

  abbrev pub IsMap : Dict K V → Type ℓ
  IsMap [] = Unit
  IsMap ((k, v) ∷ m) = Absent k m × IsMap m

  pub get-Absent : (m : Dict K V) (k : K) → Absent k m → get m k ≡ none
  unfolding get
  get-Absent [] k h = refl
  get-Absent ((j, v) ∷ m) k h = ground (arith, e.same_iff j k, get-Absent m k h.1)

  Absent-put : (m : Dict K V) (j k : K) (v : V) → k ≢ j → Absent j m → Absent j (put m k v)
  unfolding put
  Absent-put [] j k v ne h = (ne, tt)
  Absent-put ((i, w) ∷ m) j k v ne h = elim (Bool-cases (i == k)) [
    | inl p ↦ rw p (ne, h.1)
    | inr p ↦ rw p (h.0, Absent-put m j k v ne h.1)
  ]

  pub IsMap-put : (m : Dict K V) (k : K) (v : V) → IsMap m → IsMap (put m k v)
  unfolding put
  IsMap-put [] k v h = (tt, tt)
  IsMap-put ((i, w) ∷ m) k v h = elim (Bool-cases (i == k)) [
    | inl p ↦ let q : i ≡ k = (e.same_iff i k).0 p in rw p (rw q at h.0, h.1)
    | inr p ↦
        rw p (Absent-put m i k v (λ q. ground (arith, e.same_iff i k)) h.0, IsMap-put m k v h.1)
  ]

  Absent-remove : (m : Dict K V) (j k : K) → Absent j m → Absent j (remove m k)
  unfolding remove
  Absent-remove [] j k h = tt
  Absent-remove ((i, w) ∷ m) j k h = elim (Bool-cases (i == k)) [
    | inl p ↦ rw p (Absent-remove m j k h.1)
    | inr p ↦ rw p (h.0, Absent-remove m j k h.1)
  ]

  pub IsMap-remove : (m : Dict K V) (k : K) → IsMap m → IsMap (remove m k)
  unfolding remove
  IsMap-remove [] k h = tt
  IsMap-remove ((i, w) ∷ m) k h = elim (Bool-cases (i == k)) [
    | inl p ↦ rw p (IsMap-remove m k h.1)
    | inr p ↦ rw p (Absent-remove m i k h.0, IsMap-remove m k h.1)
  ]

  -- A loop over the map that deletes what fails a test on the value.
  Absent-keep : (m : Dict K V) (k : K) (p : K × V → Bool) → Absent k m → Absent k (keep p m)
  Absent-keep [] k p h = tt
  Absent-keep (x ∷ m) k p h = elim (Bool-cases (p x)) [
    | inl y ↦ rw y (h.0, Absent-keep m k p h.1)
    | inr y ↦ rw y (Absent-keep m k p h.1)
  ]

  pub IsMap-keep : (m : Dict K V) (p : K × V → Bool) → IsMap m → IsMap (keep p m)
  IsMap-keep [] p h = tt
  IsMap-keep ((k, v) ∷ m) p h = elim (Bool-cases (p (k, v))) [
    | inl y ↦ rw y (Absent-keep m k p h.0, IsMap-keep m p h.1)
    | inr y ↦ rw y (IsMap-keep m p h.1)
  ]

  abbrev pub survivor : (K × V → Bool) → K → Option V → Option V
  survivor p k none = none
  survivor p k (some v) = if p (k, v) then some v else none

  pub get-keep :
      (m : Dict K V) (p : K × V → Bool) (k : K)
      → IsMap m
      → get (keep p m) k ≡ survivor p k (get m k)
  unfolding get
  get-keep [] p k h = refl
  get-keep ((j, v) ∷ m) p k h = elim (Bool-cases (j == k)) [
    | inl q ↦
        let same : j ≡ k = (e.same_iff j k).0 q in
        elim (Bool-cases (p (j, v))) [
          | inl y ↦ rw (y, q) (rw (← same) (rw y))
          | inr y ↦ rw (y, q) (rw (← same) (rw y (get-Absent (keep p m) j (Absent-keep m j p h.0))))
        ]
    | inr q ↦ elim (Bool-cases (p (j, v))) [
      | inl y ↦ rw (y, q) (get-keep m p k h.1)
      | inr y ↦ rw (y, q) (get-keep m p k h.1)
    ]
  ]
