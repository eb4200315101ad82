-- ===== src/Reconcile/Run.antt =====
-- What one pass of `runOnce` does to each task: internal/reconcile/member_reconcile.go.
use flux_mesh.Base.{
  ℕ, zero, suc, ◌+◌, ◌≤◌, Bool, Option, none, some, List, leb, if◌then◌else◌, nat_eq, Str, ◌≡◌,
  arith, All,
}
use flux_mesh.Base.Dict
use flux_mesh.Base.Dict.{Dict}
use flux_mesh.Reconcile.{Task, Tasks, add, backoff_seconds}

-- After a failure the wait is from 2 to 32 seconds, and not shorter than after one failure less;
-- from five failures on it is 32 seconds.
pub backoff_seconds_bounds :
    (tries : ℕ)
    → (2 ≤ backoff_seconds (suc tries))
      × (backoff_seconds (suc tries) ≤ 32)
      × (backoff_seconds tries ≤ backoff_seconds (suc tries))
      × (5 ≤ tries → backoff_seconds tries ≡ 32)
unfolding backoff_seconds
backoff_seconds_bounds zero = omega arith
backoff_seconds_bounds (suc zero) = omega arith
backoff_seconds_bounds (suc (suc zero)) = omega arith
backoff_seconds_bounds (suc (suc (suc zero))) = omega arith
backoff_seconds_bounds (suc (suc (suc (suc zero)))) = omega arith
backoff_seconds_bounds (suc (suc (suc (suc (suc n))))) = ground arith

-- A task that is known already is left as it is, with its count and its time.
pub add_twice :
    (now now' member : ℕ) (endpoints endpoints' : List Str) (tasks : Tasks)
    → add now' member endpoints' (add now member endpoints tasks) ≡ add now member endpoints tasks
unfolding add
add_twice now now' member endpoints endpoints' tasks =
    let t : Task = record { member_id = member; endpoints = endpoints; tries = 0; next_at = now } in
    ground (arith, Dict.get-put_self tasks member t)

-- The task after a failed attempt that ended at `now`.
abbrev pub retried : ℕ → Task → Task
retried now t = record t { tries = t.tries + 1; next_at = now + backoff_seconds (t.tries + 1) }

abbrev pub IsKeyed : Tasks → Type 0
IsKeyed = All (λ p. p.1.member_id ≡ p.0)

module _ (rollback_member : List Str → ℕ → Bool) (clock : ℕ → ℕ) where
  -- What an attempt, ended at one of the times of the clock, leaves of a task.
  abbrev pub Attempted : Task → Option Task → Type 0
  Attempted t after =
      (j : ℕ) × (after
        ≡ (if rollback_member t.endpoints t.member_id then none else some (retried (clock j) t)))

  -- What one pass leaves of a task that is held, or of none.
  abbrev pub Treated : Option Task → Option Task → Option Task → Type 0
  Treated none before after = after ≡ before
  Treated (some t) before after = Attempted t after

  abbrev pub RunOutcome : ℕ → Option Task → Option Task → Type 0
  RunOutcome now none after = after ≡ none
  RunOutcome now (some t) after = if leb t.next_at now then Attempted t after else (after ≡ some t)
