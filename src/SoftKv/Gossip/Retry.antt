-- ===== src/SoftKv/Gossip/Retry.antt =====
-- `nextJoinRetryInterval` of internal/softkv/memberlist.go and the timer of `RunMemberlist`.
-- Intervals are in nanoseconds.
use flux_mesh.Base.{
  ℕ, zero, suc, ◌+◌, ◌≤◌, Bool, true, false, List, [], ◌∷◌, if◌then◌else◌, ℤ, pos, ◌+ℤ◌, ◌≤ℤ◌,
  ltb_ℤ, leb_ℤ, ◌≡◌, refl, arith, replicate, ◌++◌, ap, ◌∙◌,
}
use Prim.Native.Nat.{min}

abbrev pub join_retry_min_interval : ℤ
join_retry_min_interval = pos 5000000000

abbrev pub join_retry_max_interval : ℤ
join_retry_max_interval = pos 60000000000

unfoldable pub next_join_retry_interval : ℤ → Bool → ℤ
next_join_retry_interval current success =
    let next = current +ℤ current in
    if success
    then join_retry_min_interval
    else if leb_ℤ current (pos 0)
    then join_retry_min_interval
    else if ltb_ℤ next join_retry_min_interval
    then join_retry_min_interval
    else if ltb_ℤ join_retry_max_interval next
    then join_retry_max_interval
    else next

-- The interval after a list of join attempts, each with its success.
unfoldable pub retry_interval : ℤ → List Bool → ℤ
retry_interval current [] = current
retry_interval current (success ∷ rest) =
    retry_interval (next_join_retry_interval current success) rest

-- Whatever the interval was, the next one lies between 5 and 60 seconds, and without a success it
-- is not shorter than one that was in these bounds.
pub next_join_retry_interval_bounds :
    (current : ℤ) (success : Bool)
    → let next = next_join_retry_interval current success in
      (join_retry_min_interval ≤ℤ next)
      × (next ≤ℤ join_retry_max_interval)
      × (success ≡ false → current ≤ℤ join_retry_max_interval → current ≤ℤ next)
unfolding next_join_retry_interval ◌+ℤ◌
next_join_retry_interval_bounds current success = (ground arith, ground arith, λ h k. ground arith)

last_success :
    (current : ℤ) (attempts : List Bool)
    → retry_interval current (attempts ++ true ∷ []) ≡ join_retry_min_interval
unfolding retry_interval next_join_retry_interval
last_success current [] = refl
last_success current (a ∷ rest) = last_success (next_join_retry_interval current a) rest

next_failure :
    (n : ℕ)
    → 5000000000 ≤ n
    → n ≤ 60000000000
    → next_join_retry_interval (pos n) false ≡ pos (min (n + n) 60000000000)
unfolding next_join_retry_interval ◌+ℤ◌
next_failure n h k = ground arith

stays_at_max :
    (n : ℕ) → retry_interval join_retry_max_interval (replicate n false) ≡ join_retry_max_interval
unfolding retry_interval next_join_retry_interval ◌+ℤ◌
stays_at_max zero = refl
stays_at_max (suc n) = stays_at_max n

four_failures :
    (n : ℕ)
    → 5000000000 ≤ n
    → n ≤ 60000000000
    → let f = λ (x : ℤ). next_join_retry_interval x false in
      f (f (f (f (pos n)))) ≡ join_retry_max_interval
four_failures n h h' =
    let f = λ (x : ℤ). next_join_retry_interval x false in
    let m = λ (x : ℕ). min (x + x) 60000000000 in
    ap (λ x. f (f (f x))) (next_failure n h h')
    ∙ ap (λ x. f (f x)) (next_failure (m n) (omega arith) (omega arith))
    ∙ ap f (next_failure (m (m n)) (omega arith) (omega arith))
    ∙ next_failure (m (m (m n))) (omega arith) (omega arith)
    ∙ ap pos (omega arith)

-- From any interval between 5 and 60 seconds, four or more failures in a row bring the wait to
-- one minute, and a success after any attempts brings it to five seconds.
pub retry_interval_outcome :
    (n k : ℕ) (attempts : List Bool)
    → 5000000000 ≤ n
    → n ≤ 60000000000
    → (retry_interval (pos n) (replicate (suc (suc (suc (suc k)))) false) ≡ join_retry_max_interval)
      × (retry_interval (pos n) (attempts ++ true ∷ []) ≡ join_retry_min_interval)
unfolding retry_interval
retry_interval_outcome n k attempts h h' = (
  ap (λ x. retry_interval x (replicate k false)) (four_failures n h h') ∙ stays_at_max k,
  last_success (pos n) attempts,
)
