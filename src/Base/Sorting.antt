-- ===== src/Base/Sorting.antt =====
-- Go's sort.SliceStable over a `less` function, as the stable insertion sort, and its laws for a
-- `less` that is a strict weak order.
use mathlib.Core.Path.{◌≡◌}
use mathlib.Core.Logic.{inl, inr}
use mathlib.Core.Bool.{Bool, true, false}
use mathlib.Core.List.{List, [], ◌∷◌, Perm, Memᴰ}
use mathlib.Core.List.Perm
use flux_mesh.Base.Tests.{if◌then◌else◌, Bool-cases}
use flux_mesh.Base.Lists.{All, All-map, Memᴰ-cases}

pub record IsWeakOrder {ℓ} {A : Type ℓ} (less : A → A → Bool) : Type ℓ where
  pub asymm : (x y : A) → less x y ≡ true → less y x ≡ false
  pub not_trans : (x y z : A) → less y x ≡ false → less z y ≡ false → less z x ≡ false

module _ {ℓ} {A : Type ℓ} (less : A → A → Bool) where
  unfoldable pub insert_stable : A → List A → List A
  insert_stable x [] = x ∷ []
  insert_stable x (y ∷ ys) =
      let rest = insert_stable x ys in if less y x then y ∷ rest else x ∷ y ∷ ys

  unfoldable pub sort_stable : List A → List A
  unfolding insert_stable
  sort_stable [] = []
  sort_stable (x ∷ xs) = insert_stable x (sort_stable xs)

  -- No later element is less than an earlier one.
  abbrev pub IsSorted : List A → Type ℓ
  IsSorted [] = Unit
  IsSorted (x ∷ xs) = All (λ y. less y x ≡ false) xs × IsSorted xs

  insert_stable-perm : (x : A) (l : List A) → Perm (insert_stable x l) (x ∷ l)
  unfolding insert_stable
  insert_stable-perm x [] = Perm.rfl
  insert_stable-perm x (y ∷ l) = elim (Bool-cases (less y x)) [
    | inl p ↦ rw p (Perm.trans (Perm.cons y (insert_stable-perm x l)) (Perm.swap x y l))
    | inr p ↦ rw p Perm.rfl
  ]

  pub sort_stable-perm : (l : List A) → Perm (sort_stable l) l
  unfolding sort_stable
  sort_stable-perm [] = Perm.rfl
  sort_stable-perm (x ∷ l) =
      Perm.trans (insert_stable-perm x (sort_stable l)) (Perm.cons x (sort_stable-perm l))

  insert_stable-All :
      (P : A → Type 0) (x : A) (l : List A) → P x → All P l → All P (insert_stable x l)
  unfolding insert_stable
  insert_stable-All P x [] h k = (h, tt)
  insert_stable-All P x (y ∷ l) h k = elim (Bool-cases (less y x)) [
    | inl p ↦ rw p (k.0, insert_stable-All P x l h k.1)
    | inr p ↦ rw p (h, k)
  ]

  pub sort_stable-All : (P : A → Type 0) (l : List A) → All P l → All P (sort_stable l)
  unfolding sort_stable
  sort_stable-All P [] h = tt
  sort_stable-All P (x ∷ l) h = insert_stable-All P x (sort_stable l) h.0 (sort_stable-All P l h.1)

  mem-insert_stable : {a : A} (x : A) (l : List A) → Memᴰ a (x ∷ l) → Memᴰ a (insert_stable x l)
  unfolding insert_stable
  mem-insert_stable x [] m = m
  mem-insert_stable x (y ∷ l) (Memᴰ.head q) = elim (Bool-cases (less y x)) [
    | inl p ↦ rw p (Memᴰ.tail (mem-insert_stable x l (Memᴰ.head q)))
    | inr p ↦ rw p (Memᴰ.head q)
  ]
  mem-insert_stable x (y ∷ l) (Memᴰ.tail (Memᴰ.head q)) = elim (Bool-cases (less y x)) [
    | inl p ↦ rw p (Memᴰ.head q)
    | inr p ↦ rw p (Memᴰ.tail (Memᴰ.head q))
  ]
  mem-insert_stable x (y ∷ l) (Memᴰ.tail (Memᴰ.tail m)) = elim (Bool-cases (less y x)) [
    | inl p ↦ rw p (Memᴰ.tail (mem-insert_stable x l (Memᴰ.tail m)))
    | inr p ↦ rw p (Memᴰ.tail (Memᴰ.tail m))
  ]

  insert_stable-mem : {a : A} (x : A) (l : List A) → Memᴰ a (insert_stable x l) → Memᴰ a (x ∷ l)
  unfolding insert_stable
  insert_stable-mem x [] m = m
  insert_stable-mem {a} x (y ∷ l) m = elim (Bool-cases (less y x)) [
    | inl p ↦ elim (Memᴰ-cases (rw p at m)) [
      | inl q ↦ Memᴰ.tail (Memᴰ.head q)
      | inr n ↦ elim (Memᴰ-cases (insert_stable-mem x l n)) [
        | inl q ↦ Memᴰ.head q
        | inr n' ↦ Memᴰ.tail (Memᴰ.tail n')
      ]
    ]
    | inr p ↦ rw p at m
  ]

  pub mem-sort_stable : {a : A} (l : List A) → Memᴰ a l → Memᴰ a (sort_stable l)
  unfolding sort_stable
  mem-sort_stable [] m = elim m [ ]
  mem-sort_stable (x ∷ l) (Memᴰ.head q) = mem-insert_stable x (sort_stable l) (Memᴰ.head q)
  mem-sort_stable (x ∷ l) (Memᴰ.tail m) =
      mem-insert_stable x (sort_stable l) (Memᴰ.tail (mem-sort_stable l m))

  pub sort_stable-mem : {a : A} (l : List A) → Memᴰ a (sort_stable l) → Memᴰ a l
  unfolding sort_stable
  sort_stable-mem [] m = m
  sort_stable-mem (x ∷ l) m = elim (Memᴰ-cases (insert_stable-mem x (sort_stable l) m)) [
    | inl q ↦ Memᴰ.head q
    | inr n ↦ Memᴰ.tail (sort_stable-mem l n)
  ]

module _ {ℓ} {A : Type ℓ} (less : A → A → Bool) (w : IsWeakOrder less) where
  insert_stable-IsSorted :
      (x : A) (l : List A) → IsSorted less l → IsSorted less (insert_stable less x l)
  unfolding insert_stable
  insert_stable-IsSorted x [] h = (tt, tt)
  insert_stable-IsSorted x (y ∷ l) h = elim (Bool-cases (less y x)) [
    | inl p ↦ rw p (
      insert_stable-All less (λ z. less z y ≡ false) x l (w.asymm y x p) h.0,
      insert_stable-IsSorted x l h.1,
    )
    | inr p ↦ rw p ((p, All-map _ _ l (λ z q. w.not_trans x y z p q) h.0), h)
  ]

  pub sort_stable-IsSorted : (l : List A) → IsSorted less (sort_stable less l)
  unfolding sort_stable
  sort_stable-IsSorted [] = tt
  sort_stable-IsSorted (x ∷ l) =
      insert_stable-IsSorted x (sort_stable less l) (sort_stable-IsSorted l)
