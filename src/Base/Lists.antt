-- ===== src/Base/Lists.antt =====
-- Lists measured and indexed by native numbers, and a predicate on all members.
use Prim.Native.Nat.{ℕ, zero, suc, ◌+◌}
use mathlib.Core.Path.{◌≡◌, refl, ap, sym, subst, ◌∙◌}
use mathlib.Core.Bool.{Bool, true, false, ◌&&◌, ◌||◌}
use mathlib.Core.Logic.{◌⊎◌, inl, inr}
use mathlib.Core.List.{List, [], ◌∷◌, ◌++◌, Memᴰ}
use mathlib.Core.Option.{Option, none, some}
use native.Mathlib.Omega.{arith}
use native.Mathlib.Nat.{zero-add, add-zero, suc-add}
use flux_mesh.Base.Tests.{if◌then◌else◌, Bool-cases}

module _ {ℓ} {A : Type ℓ} where
  abbrev pub length : List A → ℕ
  length [] = 0
  length (x ∷ xs) = suc (length xs)

  abbrev pub get_elem? : List A → ℕ → Option A
  get_elem? [] i = none
  get_elem? (x ∷ xs) zero = some x
  get_elem? (x ∷ xs) (suc i) = get_elem? xs i

  -- `xs[i]` where the caller knows that `i` is in range; `d` stands for the panic.
  abbrev pub get_or : List A → ℕ → A → A
  get_or [] i d = d
  get_or (x ∷ xs) zero d = x
  get_or (x ∷ xs) (suc i) d = get_or xs i d

  abbrev pub take : ℕ → List A → List A
  take zero xs = []
  take (suc n) [] = []
  take (suc n) (x ∷ xs) = x ∷ take n xs

  abbrev pub drop : ℕ → List A → List A
  drop zero xs = xs
  drop (suc n) [] = []
  drop (suc n) (x ∷ xs) = drop n xs

  abbrev pub replicate : ℕ → A → List A
  replicate zero a = []
  replicate (suc n) a = a ∷ replicate n a

  -- A loop that keeps the elements that pass a test.
  abbrev pub keep : (A → Bool) → List A → List A
  keep p [] = []
  keep p (x ∷ xs) = let rest = keep p xs in if p x then x ∷ rest else rest

  abbrev pub any : (A → Bool) → List A → Bool
  any p [] = false
  any p (x ∷ xs) = p x || any p xs

  abbrev pub all : (A → Bool) → List A → Bool
  all p [] = true
  all p (x ∷ xs) = p x && all p xs

  pub length-append : (xs ys : List A) → length (xs ++ ys) ≡ length xs + length ys
  length-append [] ys = omega arith
  length-append (x ∷ xs) ys = omega (arith, length-append xs ys)

  pub length-replicate : (n : ℕ) (a : A) → length (replicate n a) ≡ n
  length-replicate zero a = refl
  length-replicate (suc n) a = ap suc (length-replicate n a)

  pub take-append-drop : (n : ℕ) (xs : List A) → take n xs ++ drop n xs ≡ xs
  take-append-drop zero xs = refl
  take-append-drop (suc n) [] = refl
  take-append-drop (suc n) (x ∷ xs) = ap (◌∷◌ x) (take-append-drop n xs)

abbrev pub All {ℓ κ} : {A : Type ℓ} → (A → Type κ) → List A → Type κ
All P [] = Unit
All P (x ∷ xs) = P x × All P xs

module _ {ℓ κ} {A : Type ℓ} (P : A → Type κ) where
  pub All-append : (xs ys : List A) → All P xs → All P ys → All P (xs ++ ys)
  All-append [] ys h k = k
  All-append (x ∷ xs) ys h k = (h.0, All-append xs ys h.1 k)

module _ {ℓ κ} {A : Type ℓ} (P Q : A → Type κ) where
  pub All-map : (xs : List A) → ((x : A) → P x → Q x) → All P xs → All Q xs
  All-map [] f h = tt
  All-map (x ∷ xs) f h = (f x h.0, All-map xs f h.1)

module _ {ℓ} {A : Type ℓ} where
  pub Memᴰ-cases : {a x : A} {l : List A} → Memᴰ a (x ∷ l) → (a ≡ x) ⊎ Memᴰ a l
  Memᴰ-cases (Memᴰ.head q) = inl q
  Memᴰ-cases (Memᴰ.tail m) = inr m

  pub mem-keep : (p : A → Bool) {a : A} (l : List A) → p a ≡ true → Memᴰ a l → Memᴰ a (keep p l)
  mem-keep p [] h m = elim m [ ]
  mem-keep p {a} (x ∷ l) h (Memᴰ.head q) =
      let px : p x ≡ true = ap p (sym q) ∙ h in rw px (Memᴰ.head q)
  mem-keep p (x ∷ l) h (Memᴰ.tail m) = elim (Bool-cases (p x)) [
    | inl y ↦ rw y (Memᴰ.tail (mem-keep p l h m))
    | inr y ↦ rw y (mem-keep p l h m)
  ]

  pub keep-mem : (p : A → Bool) {a : A} (l : List A) → Memᴰ a (keep p l) → Memᴰ a l × (p a ≡ true)
  keep-mem p [] m = elim m [ ]
  keep-mem p {a} (x ∷ l) m = elim (Bool-cases (p x)) [
    | inl y ↦ elim (Memᴰ-cases (rw y at m)) [
      | inl q ↦ (Memᴰ.head q, ap p q ∙ y)
      | inr n ↦ let (n', h) = keep-mem p l n in (Memᴰ.tail n', h)
    ]
    | inr y ↦ let (n, h) = keep-mem p l (rw y at m) in (Memᴰ.tail n, h)
  ]

  pub All-at {κ} : (P : A → Type κ) {a : A} (l : List A) → All P l → Memᴰ a l → P a
  All-at P [] h m = elim m [ ]
  All-at P (x ∷ l) h (Memᴰ.head q) = subst P (sym q) h.0
  All-at P (x ∷ l) h (Memᴰ.tail m) = All-at P l h.1 m

  pub All-of {κ} : (P : A → Type κ) (l : List A) → ((a : A) → Memᴰ a l → P a) → All P l
  All-of P [] h = tt
  All-of P (x ∷ l) h = (h x (Memᴰ.head refl), All-of P l (λ a m. h a (Memᴰ.tail m)))

-- `n` numbers from `a` on.
abbrev pub range_from : ℕ → ℕ → List ℕ
range_from a zero = []
range_from a (suc n) = a ∷ range_from (suc a) n

pub range_from-append : (a m n : ℕ) → range_from a (m + n) ≡ range_from a m ++ range_from (a + m) n
range_from-append a zero n = rw (zero-add, add-zero)
range_from-append a (suc m) n = rw (suc-add) (
    ap (◌∷◌ a) (
      range_from-append (suc a) m n
      ∙ ap (λ b. range_from (suc a) m ++ range_from b n) (omega arith)))

module _ {ℓ} {A : Type ℓ} where
  pub keep-append : (p : A → Bool) (xs ys : List A) → keep p (xs ++ ys) ≡ keep p xs ++ keep p ys
  keep-append p [] ys = refl
  keep-append p (x ∷ xs) ys = elim (Bool-cases (p x)) [
    | inl q ↦ rw q (ap (◌∷◌ x) (keep-append p xs ys))
    | inr q ↦ rw q (keep-append p xs ys)
  ]

  pub All-keep {κ} : (P : A → Type κ) (p : A → Bool) (xs : List A) → All P xs → All P (keep p xs)
  All-keep P p [] h = tt
  All-keep P p (x ∷ xs) h = elim (Bool-cases (p x)) [
    | inl q ↦ rw q (h.0, All-keep P p xs h.1)
    | inr q ↦ rw q (All-keep P p xs h.1)
  ]
