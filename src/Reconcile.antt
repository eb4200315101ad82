-- ===== src/Reconcile.antt =====
-- internal/reconcile/member_reconcile.go: members whose removal from etcd failed are removed
-- again, with a growing wait. Times and waits are in seconds. The call of etcd is a parameter.
pub mod Run
use flux_mesh.Base.{
  ℕ, zero, suc, ◌+◌, ◌^◌, ◌≤◌, ◌<◌, Bool, true, false, Option, none, some, List, [], ◌∷◌, ◌++◌,
  keep, map, leb, ltb, if◌then◌else◌, ◌==◌, nat_eq, Str, ◌≡◌, arith, refl,
}
use flux_mesh.Base.Dict
use flux_mesh.Base.Dict.{Dict}

-- The identifier is the key of the map, a uint64.
pub record Task : Type 0 where
  pub member_id : ℕ
  pub endpoints : List Str
  pub tries : ℕ
  pub next_at : ℕ

abbrev pub Tasks : Type 0
Tasks = Dict ℕ Task

abbrev found : Option Task → Bool
found none = false
found (some t) = true

unfoldable pub add : ℕ → ℕ → List Str → Tasks → Tasks
add now member endpoints tasks =
    let task : Task = record {
      member_id = member;
      endpoints = endpoints;
      tries = 0;
      next_at = now;
    } in
    if found (Dict.get tasks member) then tasks else Dict.put tasks member task

-- The package's own `min`, on numbers that are not negative.
min_int : ℕ → ℕ → ℕ
min_int a b = if ltb a b then a else b

-- `1 << min(tries, 5)`, then `math.Min` with 32, which is exact on these values.
unfoldable pub backoff_seconds : ℕ → ℕ
unfolding min_int
backoff_seconds tries = min_int (2 ^ min_int tries 5) 32

unfoldable pub schedule_retry : ℕ → Task → Tasks → Tasks
schedule_retry now task tasks =
    let tries = task.tries + 1 in
    let next : Task = record task { tries = tries; next_at = now + backoff_seconds tries } in
    Dict.put tasks task.member_id next

unfoldable pub is_due : ℕ → ℕ × Task → Bool
is_due now p = leb p.1.next_at now

-- A call that removes a member: its endpoints, and the member's number.
abbrev pub Removal : Type 0
Removal = List Str × ℕ

module _ (rollback_member : List Str → ℕ → Bool) where
  -- One candidate: `rollback_member` says whether etcd removed the member, `now` is read after it.
  -- With the tasks comes the call that was made.
  unfoldable pub run_task : ℕ → Task → Tasks → Tasks × List Removal
  run_task now task tasks = (
    if rollback_member task.endpoints task.member_id
        then Dict.remove tasks task.member_id
        else schedule_retry now task tasks,
    (task.endpoints, task.member_id) ∷ [],
  )

  -- `clock i` is the time after the call for the candidate `i`.
  unfoldable pub run_candidates : (ℕ → ℕ) → ℕ → List Task → Tasks → Tasks × List Removal
  run_candidates clock i [] tasks = (tasks, [])
  run_candidates clock i (t ∷ ts) tasks =
      let one = run_task (clock i) t tasks in
      let rest = run_candidates clock (suc i) ts one.0 in (rest.0, one.1 ++ rest.1)

  unfoldable pub run_once : ℕ → (ℕ → ℕ) → Tasks → Tasks × List Removal
  unfolding is_due
  run_once now clock tasks = run_candidates clock 0 (map (λ p. p.1) (keep (is_due now) tasks)) tasks
