-- ===== src/Traffic/Resolve/Rotation.antt =====
-- The loop of `orderTargetsByStrategy` in internal/traffic/runtime.go that rotates the targets.
use mathlib.Core.List.{Perm, append-nil}
use mathlib.Core.List.Perm
use flux_mesh.Base.{
  ℕ, zero, suc, ◌+◌, ◌-◌, ◌%◌, ◌≤◌, ◌<◌, List, [], ◌∷◌, ◌++◌, length, get_or, take, drop, ltb,
  Bool-cases, inl, inr, ◌≡◌, refl, subst, sym, ap, ◌∙◌, arith,
}
use mathlib.Core.Path.{ap₂}
use flux_mesh.Model.Service.{BackendTarget}
use flux_mesh.Traffic.Resolve.{rotated}

module _ {A : Type 0} where
  length-append : (xs ys : List A) → length (xs ++ ys) ≡ length xs + length ys
  length-append [] ys = omega arith
  length-append (x ∷ xs) ys = omega (arith, length-append xs ys)

  get_or-append_left :
      (xs ys : List A) (k : ℕ) (d : A) → k < length xs → get_or (xs ++ ys) k d ≡ get_or xs k d
  get_or-append_left [] ys k d lt = absurd (omega arith)
  get_or-append_left (x ∷ xs) ys zero d lt = refl
  get_or-append_left (x ∷ xs) ys (suc k) d lt = get_or-append_left xs ys k d (omega arith)

  get_or-append_right :
      (xs ys : List A) (k : ℕ) (d : A) → get_or (xs ++ ys) (length xs + k) d ≡ get_or ys k d
  get_or-append_right [] ys k d = let e : 0 + k ≡ k = omega arith in ap (λ n. get_or ys n d) e
  get_or-append_right (x ∷ xs) ys k d =
      let e : suc (length xs) + k ≡ suc (length xs + k) = omega arith in
      ap (λ n. get_or (x ∷ xs ++ ys) n d) e ∙ get_or-append_right xs ys k d

  -- The list twice over, read without the remainder.
  get_or_twice :
      (xs : List A) (k : ℕ) (d : A)
      → k < length xs + length xs
      → get_or xs (k % length xs) d ≡ get_or (xs ++ xs) k d
  get_or_twice xs k d lt = elim (Bool-cases (ltb k (length xs))) [
    | inl p ↦
        let e : k % length xs ≡ k = grind arith in
        ap (λ n. get_or xs n d) e ∙ sym (get_or-append_left xs xs k d (ground arith))
    | inr p ↦
        let j = k - length xs in
        let e : k % length xs ≡ j = wrap k (length xs) (ground arith) lt in
        let e' : length xs + j ≡ k = ground arith in
        ap (λ n. get_or xs n d) e
        ∙ sym (get_or-append_right xs xs j d)
        ∙ ap (λ n. get_or (xs ++ xs) n d) e'
  ]
    where
      wrap : (k n : ℕ) → n ≤ k → k < n + n → k % n ≡ k - n
      wrap k n le lt = grind arith

  drop_at :
      (xs : List A) (k : ℕ) (d : A) → k < length xs → drop k xs ≡ get_or xs k d ∷ drop (suc k) xs
  drop_at [] k d lt = absurd (omega arith)
  drop_at (x ∷ xs) zero d lt = refl
  drop_at (x ∷ xs) (suc k) d lt = drop_at xs k d (omega arith)

  drop-append : (xs ys : List A) (k : ℕ) → k ≤ length xs → drop k (xs ++ ys) ≡ drop k xs ++ ys
  drop-append xs ys zero le = refl
  drop-append [] ys (suc k) le = absurd (omega arith)
  drop-append (x ∷ xs) ys (suc k) le = drop-append xs ys k (omega arith)

  length-drop : (k : ℕ) (xs : List A) → length (drop k xs) ≡ length xs - k
  length-drop zero xs = omega arith
  length-drop (suc k) [] = omega arith
  length-drop (suc k) (x ∷ xs) = omega (arith, length-drop k xs)

  take-append : (xs ys : List A) (k : ℕ) → take (length xs + k) (xs ++ ys) ≡ xs ++ take k ys
  take-append [] ys k = let e : 0 + k ≡ k = omega arith in ap (λ n. take n ys) e
  take-append (x ∷ xs) ys k =
      let e : suc (length xs) + k ≡ suc (length xs + k) = omega arith in
      ap (λ n. take n (x ∷ xs ++ ys)) e ∙ ap (◌∷◌ x) (take-append xs ys k)

  take_of_twice :
      (xs : List A) (k : ℕ)
      → k ≤ length xs
      → take (length xs) (drop k (xs ++ xs)) ≡ drop k xs ++ take k xs
  take_of_twice xs k le =
      let e : length xs ≡ length (drop k xs) + k = omega (arith, length-drop k xs) in
      ap (λ l. take (length xs) l) (drop-append xs xs k le)
      ∙ ap (λ n. take n (drop k xs ++ xs)) e
      ∙ take-append (drop k xs) xs k

  middle : (x : A) (xs ys : List A) → Perm (xs ++ x ∷ ys) (x ∷ xs ++ ys)
  middle x [] ys = Perm.rfl
  middle x (y ∷ xs) ys = Perm.trans (Perm.cons y (middle x xs ys)) (Perm.swap x y (xs ++ ys))

  append_swap : (xs ys : List A) → Perm (xs ++ ys) (ys ++ xs)
  append_swap [] ys = rw (append-nil ys) Perm.rfl
  append_swap (x ∷ xs) ys =
      Perm.trans (Perm.cons x (append_swap xs ys)) (Perm.symm (middle x ys xs))

  take-drop : (k : ℕ) (xs : List A) → take k xs ++ drop k xs ≡ xs
  take-drop zero xs = refl
  take-drop (suc k) [] = refl
  take-drop (suc k) (x ∷ xs) = ap (◌∷◌ x) (take-drop k xs)

rotated_twice :
    (all ts : List BackendTarget) (start i : ℕ)
    → start + i + length ts ≤ length all + length all
    → rotated all ts start i ≡ take (length ts) (drop (start + i) (all ++ all))
unfolding rotated
rotated_twice all [] start i le = refl
rotated_twice all (t ∷ ts) start i le =
    let k = start + i in
    let len : length (all ++ all) ≡ length all + length all = length-append all all in
    let lt : k < length all + length all = omega arith in
    let next : start + suc i ≡ suc (start + i) = omega arith in
    ap₂ ◌∷◌ (get_or_twice all k t lt) (
      rotated_twice all ts start (suc i) (omega arith)
      ∙ ap (λ n. take (length ts) (drop n (all ++ all))) next)
    ∙ ap (take (suc (length ts))) (sym (drop_at (all ++ all) k t (omega arith)))

pub rotated-Perm :
    (ts : List BackendTarget) (start : ℕ) → start ≤ length ts → Perm (rotated ts ts start 0) ts
rotated-Perm ts start le =
    let same : start + 0 ≡ start = omega arith in
    let e : rotated ts ts start 0 ≡ drop start ts ++ take start ts =
      rotated_twice ts ts start 0 (omega arith)
      ∙ ap (λ n. take (length ts) (drop n (ts ++ ts))) same
      ∙ take_of_twice ts start le in
    rw e (
      subst (Perm (drop start ts ++ take start ts)) (take-drop start ts)
        (append_swap (drop start ts) (take start ts)))
