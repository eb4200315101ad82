-- ===== src/Base/Text.antt =====
-- Go strings as lists of bytes, and what the program uses of the package strings, on ASCII text.
use Prim.Native.Nat.{ℕ, zero, suc, ◌+◌, ◌/◌, ◌%◌}
use Prim.Native.Char.{code}
use Prim.Native.String.{String}
use mathlib.Core.Path.{◌≡◌, refl, ap, ◌∙◌}
use mathlib.Core.Logic.{◌↔◌}
use mathlib.Core.Bool.{Bool, true, false, ◌&&◌, ◌||◌}
use mathlib.Core.List.{List, [], ◌∷◌, map}
use native.Mathlib.Omega.{arith}
use flux_mesh.Base.Tests.{ltb, leb, nat_beq, if◌then◌else◌, Eq, nat_eq}

abbrev pub Str : Type 0
Str = List ℕ

-- A literal of the source.
abbrev pub codes : String → Str
codes String.[] = []
codes (String.◌∷◌ c s) = code c ∷ codes s

unfoldable pub str_beq : Str → Str → Bool
str_beq [] [] = true
str_beq (x ∷ xs) (y ∷ ys) = nat_beq x y && str_beq xs ys
str_beq _ _ = false

str_beq→eq : (s t : Str) → str_beq s t ≡ true → s ≡ t
unfolding str_beq
str_beq→eq [] [] h = refl
str_beq→eq [] (y ∷ t) h = ground arith
str_beq→eq (x ∷ s) [] h = ground arith
str_beq→eq (x ∷ s) (y ∷ t) h = ground (arith, str_beq→eq s t)

pub str_beq_refl : (s : Str) → str_beq s s ≡ true
unfolding str_beq
str_beq_refl [] = refl
str_beq_refl (x ∷ s) = ground (arith, str_beq_refl s)

pub str_beq_iff : (s t : Str) → (str_beq s t ≡ true) ↔ (s ≡ t)
str_beq_iff s t = (str_beq→eq s t, λ e. rw e (str_beq_refl t))

instance abbrev pub str_eq : Eq Str
str_eq = record { same = str_beq; same_iff = str_beq_iff }

-- `s < t`: byte by byte.
unfoldable pub str_lt : Str → Str → Bool
str_lt [] [] = false
str_lt [] (y ∷ ys) = true
str_lt (x ∷ xs) [] = false
str_lt (x ∷ xs) (y ∷ ys) =
    let rest = str_lt xs ys in if ltb x y then true else if ltb y x then false else rest

pub str_lt_asymm : (s t : Str) → str_lt s t ≡ true → str_lt t s ≡ false
unfolding str_lt
str_lt_asymm [] [] h = refl
str_lt_asymm [] (y ∷ t) h = refl
str_lt_asymm (x ∷ s) [] h = ground arith
str_lt_asymm (x ∷ s) (y ∷ t) h = ground (arith, str_lt_asymm s t)

pub str_lt_irrefl : (s : Str) → str_lt s s ≡ false
unfolding str_lt
str_lt_irrefl [] = refl
str_lt_irrefl (x ∷ s) = ground (arith, str_lt_irrefl s)

pub str_lt_trans : (s t u : Str) → str_lt s t ≡ true → str_lt t u ≡ true → str_lt s u ≡ true
unfolding str_lt
str_lt_trans [] t [] h k = ground (arith, str_lt_asymm [] t)
str_lt_trans [] t (z ∷ u) h k = refl
str_lt_trans (x ∷ s) [] u h k = ground arith
str_lt_trans (x ∷ s) (y ∷ t) [] h k = ground arith
str_lt_trans (x ∷ s) (y ∷ t) (z ∷ u) h k = ground (arith, str_lt_trans s t u)

pub str_lt_connex : (s t : Str) → str_lt s t ≡ false → str_lt t s ≡ false → s ≡ t
unfolding str_lt
str_lt_connex [] [] h k = refl
str_lt_connex [] (y ∷ t) h k = ground arith
str_lt_connex (x ∷ s) [] h k = ground arith
str_lt_connex (x ∷ s) (y ∷ t) h k = ground (arith, str_lt_connex s t)

-- strings.HasPrefix
unfoldable pub has_prefix : Str → Str → Bool
has_prefix s [] = true
has_prefix [] (y ∷ p) = false
has_prefix (x ∷ s) (y ∷ p) = nat_beq x y && has_prefix s p

is_space : ℕ → Bool
is_space c = nat_beq c 32 || (leb 9 c && leb c 13)

unfoldable pub trim_left : Str → Str
unfolding is_space
trim_left [] = []
trim_left (c ∷ s) = let rest = trim_left s in if is_space c then rest else c ∷ s

unfoldable pub trim_right : Str → Str
unfolding is_space
trim_right [] = []
trim_right (c ∷ s) = elim (trim_right s) [
  | [] ↦ if is_space c then [] else c ∷ []
  | d ∷ r ↦ c ∷ d ∷ r
]

-- strings.TrimSpace
unfoldable pub trim_space : Str → Str
unfolding trim_left trim_right
trim_space s = trim_left (trim_right s)

trim_left_twice : (s : Str) → trim_left (trim_left s) ≡ trim_left s
unfolding trim_left
trim_left_twice [] = refl
trim_left_twice (c ∷ s) = ground (arith, trim_left_twice s)

trim_right_twice : (s : Str) → trim_right (trim_right s) ≡ trim_right s
unfolding trim_right
trim_right_twice [] = refl
trim_right_twice (c ∷ s) = ground (arith, trim_right_twice s)

trim_right-tail : (c : ℕ) (s : Str) → trim_right (c ∷ s) ≡ c ∷ s → trim_right s ≡ s
unfolding trim_right
trim_right-tail c [] h = refl
trim_right-tail c (d ∷ s) h = ground arith

trim_right-trim_left : (s : Str) → trim_right s ≡ s → trim_right (trim_left s) ≡ trim_left s
unfolding trim_left
trim_right-trim_left [] h = h
trim_right-trim_left (c ∷ s) h = ground (arith, trim_right-trim_left s (trim_right-tail c s h))

pub trim_space_twice : (s : Str) → trim_space (trim_space s) ≡ trim_space s
unfolding trim_space
trim_space_twice s =
    ap trim_left (trim_right-trim_left (trim_right s) (trim_right_twice s))
    ∙ trim_left_twice (trim_right s)

-- strings.ToLower
unfoldable pub to_lower : Str → Str
to_lower = map λ c. if leb 65 c && leb c 90 then c + 32 else c

-- `s[:i]` for the first index `i` of the byte `c`, all of `s` if there is none.
unfoldable pub before_byte : ℕ → Str → Str
before_byte c [] = []
before_byte c (x ∷ s) = let rest = before_byte c s in if nat_beq x c then [] else x ∷ rest

abbrev pub is_empty {ℓ} : {A : Type ℓ} → List A → Bool
is_empty [] = true
is_empty (x ∷ s) = false

-- strconv.Itoa of a number that is not negative, on fuel that no number exhausts.
itoa_digits : ℕ → ℕ → Str → Str
itoa_digits zero n out = out
itoa_digits (suc f) n out =
    let more = itoa_digits f (n / 10) ((48 + n % 10) ∷ out) in
    if ltb n 10 then (48 + n) ∷ out else more

unfoldable pub itoa : ℕ → Str
unfolding itoa_digits
itoa n = itoa_digits (suc n) n []
