-- ===== src/Startup/Lease.antt =====
-- internal/app/app.go: the recovery of the lease of a node. The loop has no bound of its own; it
-- runs over the attempts that it gets. Waits are in seconds.
use flux_mesh.Base.{
  ℕ, zero, suc, ◌*◌, Bool, true, false, Option, none, some, List, [], ◌∷◌, ltb, length,
  if◌then◌else◌, ◌≡◌, refl, ap, Bool-cases, inl, inr,
}

-- What an attempt meets: whether the context is done before it, what the registration does, and
-- whether the context is done before the wait ends.
pub record LeaseAttempt (S E : Type 0) : Type 0 where
  pub done_before : Bool
  pub register : S → S × Option E
  pub done_in_wait : Bool

pub data Recovery : Type 0 where
  lease_recovered context_done still_trying : Recovery

unfoldable pub next_backoff : ℕ → ℕ
next_backoff backoff = if ltb backoff 8 then backoff * 2 else backoff

-- The wait with a number, in seconds: it doubles, up to eight.
abbrev pub backoff_at : ℕ → ℕ
backoff_at zero = 1
backoff_at (suc zero) = 2
backoff_at (suc (suc zero)) = 4
backoff_at (suc (suc (suc i))) = 8

-- A number of waits, from one on.
abbrev pub backoffs : ℕ → ℕ → List ℕ
backoffs i zero = []
backoffs i (suc n) = backoff_at i ∷ backoffs (suc i) n

next_backoff-backoff_at : (i : ℕ) → next_backoff (backoff_at i) ≡ backoff_at (suc i)
unfolding next_backoff
next_backoff-backoff_at zero = refl
next_backoff-backoff_at (suc zero) = refl
next_backoff-backoff_at (suc (suc zero)) = refl
next_backoff-backoff_at (suc (suc (suc i))) = refl

abbrev Waits : {S : Type 0} → ℕ → S × List ℕ × Recovery → Type 0
Waits i (s, waits, ended) = waits ≡ backoffs i (length waits)

module _ {S E : Type 0} where
  waited : ℕ → Bool → (S → S × List ℕ × Recovery) → S × Option E → S × List ℕ × Recovery
  waited backoff done continue (s, none) = (s, [], lease_recovered)
  waited backoff done continue (s, some e) =
      let rest = continue s in
      if done then (s, backoff ∷ [], context_done) else (rest.0, backoff ∷ rest.1, rest.2)

  -- The loop, with its backoff: the state, the waits that were begun, and how it ended; it is
  -- still trying after the attempts that are given.
  unfoldable pub recover_attempts : List (LeaseAttempt S E) → ℕ → S → S × List ℕ × Recovery
  unfolding waited next_backoff
  recover_attempts [] backoff s = (s, [], still_trying)
  recover_attempts (a ∷ attempts) backoff s =
      if a.done_before
      then (s, [], context_done)
      else waited backoff a.done_in_wait (recover_attempts attempts (next_backoff backoff))
          (a.register s)

  unfoldable pub recover_lease : List (LeaseAttempt S E) → S → S × List ℕ × Recovery
  unfolding recover_attempts
  recover_lease attempts s = recover_attempts attempts 1 s

  waited-Waits :
      (i : ℕ) (done : Bool) (continue : S → S × List ℕ × Recovery) (r : S × Option E)
      → ((s : S) → Waits (suc i) (continue s))
      → Waits i (waited (backoff_at i) done continue r)
  unfolding waited
  waited-Waits i done continue (s, none) h = refl
  waited-Waits i true continue (s, some e) h = refl
  waited-Waits i false continue (s, some e) h = ap (◌∷◌ (backoff_at i)) (h s)

  recover_attempts-Waits :
      (attempts : List (LeaseAttempt S E)) (i : ℕ) (s : S)
      → Waits i (recover_attempts attempts (backoff_at i) s)
  unfolding recover_attempts
  recover_attempts-Waits [] i s = refl
  recover_attempts-Waits (a ∷ attempts) i s = elim (Bool-cases a.done_before) [
    | inl y ↦ rw y refl
    | inr n ↦ rw n (
        waited-Waits i a.done_in_wait (recover_attempts attempts (next_backoff (backoff_at i)))
          (a.register s)
          (λ t. rw (next_backoff-backoff_at i) (recover_attempts-Waits attempts (suc i) t)))
  ]

  -- The waits between the attempts are 1, 2, 4 and then always 8 seconds.
  pub recover_lease_waits :
      (attempts : List (LeaseAttempt S E)) (s : S)
      → let waits = (recover_lease attempts s).1 in waits ≡ backoffs 0 (length waits)
  unfolding recover_lease
  recover_lease_waits attempts s = recover_attempts-Waits attempts 0 s
