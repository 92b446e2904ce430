-- ===== src/Runtime/Trace.antt =====
-- Workers interleave the operations of reconciliation_runtime.py, each call one transaction:
-- a call that raises is rolled back, and leaves the store as it was.
use mari_time_system.Prelude.{
  ℕ, String, ◌≡◌, refl, Option, none, some, List, [], ◌∷◌, Bool, ℤ, arith, Result, ok, err,
}
use mari_time_system.Runtime.State.{
  WorkflowStage, CommitStatus, Store, TaskClaim, StageOutcome, Run, Task,
}
use mari_time_system.Runtime.Tasks.{
  create_run, enqueue_task, reap_expired_tasks, claim_task, heartbeat, commit_stage, fail_attempt,
}
use mari_time_system.Runtime.Machine.{TableSteps, here, next, insert, TableSteps-trans}
use mari_time_system.Runtime.Invariant.{TableOk, TableSteps-TableOk}
use mari_time_system.Runtime.Refines.{heartbeat-steps, commit_stage-steps, fail_attempt-steps}
use mari_time_system.Runtime.Claimed.{reap-steps, claimed-steps, enqueue_task-steps}

pub data Op : Type 0 where
  create : (new_id account case_id : ℕ) (version fingerprint : String) (budget deadline : ℕ) → Op
  enqueue :
      (new_id account run_id : ℕ) (stage : WorkflowStage) (priority : ℤ) (at : Option ℕ)
      (limit moment : ℕ)
      → Op
  reap : (account moment : ℕ) → Op
  claim : (new_id account moment lease : ℕ) (locked : ℕ → Bool) → Op
  beat : (account : ℕ) (claim : TaskClaim) (moment lease : ℕ) → Op
  commit :
      (new_id account : ℕ) (claim : TaskClaim) (moment : ℕ) (next : Option WorkflowStage)
      (request artifact : Option String)
      → Op
  fail : (account : ℕ) (claim : TaskClaim) (reason : String) (moment backoff : ℕ) → Op

-- What a step tells: a task claimed, a task's stage committed, or neither.
pub data Event : Type 0 where
  claimed : TaskClaim → Event
  completed : ℕ → Event
  other : Event

abbrev pub claim_event : Option TaskClaim → Event
claim_event none = other
claim_event (some c) = claimed c

abbrev pub commit_event : CommitStatus → ℕ → Event
commit_event CommitStatus.committed id = completed id
commit_event CommitStatus.fenced id = other

abbrev pub after_create : Store → Result (Run × Store) → Store × Event
after_create s (ok (r, s')) = (s', other)
after_create s (err e) = (s, other)

abbrev pub after_enqueue : Store → Result (Task × Store) → Store × Event
after_enqueue s (ok (t, s')) = (s', other)
after_enqueue s (err e) = (s, other)

abbrev pub after_claim : Store → Result (Option TaskClaim × Store) → Store × Event
after_claim s (ok (c, s')) = (s', claim_event c)
after_claim s (err e) = (s, other)

abbrev pub after_commit : Store → ℕ → Result (StageOutcome × Store) → Store × Event
after_commit s id (ok (o, s')) = (s', commit_event o.status id)
after_commit s id (err e) = (s, other)

unfoldable pub step : Op → Store → Store × Event
step (create new_id account case_id version fingerprint budget deadline) s =
    after_create s (create_run new_id account case_id version fingerprint budget deadline s)
step (enqueue new_id account run_id stage priority at limit moment) s =
    after_enqueue s (enqueue_task new_id account run_id stage priority at limit moment s)
step (reap account moment) s = ((reap_expired_tasks account moment s).1, other)
step (claim new_id account moment lease locked) s =
    after_claim s (claim_task new_id account moment lease locked s)
step (beat account c moment lease) s = ((heartbeat account c moment lease s).1, other)
step (commit new_id account c moment stage request artifact) s =
    after_commit s c.task_id (commit_stage new_id account c moment stage request artifact s)
step (fail account c reason moment backoff) s =
    ((fail_attempt account c reason moment backoff s).1, other)

unfoldable pub run : List Op → Store → Store × List Event
run [] s = (s, [])
run (op ∷ ops) s = let (s', e) = step op s in let (s'', es) = run ops s' in (s'', e ∷ es)

-- Every call moves the task table by steps of its state machine.
pub step-TableSteps :
    (op : Op) (s : Store) → TableOk s.tasks → TableSteps s.tasks (step op s).0.tasks
unfolding step create_run
step-TableSteps (create new_id account case_id version fingerprint budget deadline) s h =
    let same : (step (create new_id account case_id version fingerprint budget deadline) s).0.tasks
        ≡ s.tasks =
      ground arith in
    rw same here
step-TableSteps (enqueue new_id account run_id stage priority at limit moment) s h =
    inserted (enqueue_task new_id account run_id stage priority at limit moment s) refl
  where
    inserted :
        (r : Result (Task × Store))
        → enqueue_task new_id account run_id stage priority at limit moment s ≡ r
        → TableSteps s.tasks (after_enqueue s r).0.tasks
    inserted (err e) q = here
    inserted (ok (t, s')) q =
        let (appended, fresh, new) =
          enqueue_task-steps new_id account run_id stage priority at limit moment s s' t q in
        rw appended (next here (insert t s.tasks fresh new))
step-TableSteps (reap account moment) s h = reap-steps account moment s
step-TableSteps (claim new_id account moment lease locked) s h =
    moved (claim_task new_id account moment lease locked s) refl
  where
    moved :
        (r : Result (Option TaskClaim × Store))
        → claim_task new_id account moment lease locked s ≡ r
        → TableSteps s.tasks (after_claim s r).0.tasks
    moved (err e) q = here
    moved (ok (c, s')) q = claimed-steps new_id account moment lease locked s s' c h q
step-TableSteps (beat account c moment lease) s h = heartbeat-steps account moment lease c s
step-TableSteps (commit new_id account c moment stage request artifact) s h =
    moved (commit_stage new_id account c moment stage request artifact s) refl
  where
    moved :
        (r : Result (StageOutcome × Store))
        → commit_stage new_id account c moment stage request artifact s ≡ r
        → TableSteps s.tasks (after_commit s c.task_id r).0.tasks
    moved (err e) q = here
    moved (ok (o, s')) q =
        commit_stage-steps new_id account c moment stage request artifact s s' o q
step-TableSteps (fail account c reason moment backoff) s h =
    fail_attempt-steps account c reason moment backoff s

pub run-TableSteps :
    (ops : List Op) (s : Store) → TableOk s.tasks → TableSteps s.tasks (run ops s).0.tasks
unfolding run
run-TableSteps [] s h = here
run-TableSteps (op ∷ ops) s h =
    let moved = step-TableSteps op s h in
    TableSteps-trans moved (run-TableSteps ops (step op s).0 (TableSteps-TableOk moved h))

-- After any interleaving of calls that starts from a sound task table, the table is sound: keys
-- are unique, no task has used more attempts than it is allowed, its epoch counts its attempts,
-- a lease end stands exactly on leased tasks, and a dead task has used all its attempts and says why.
pub run-TableOk : (ops : List Op) (s : Store) → TableOk s.tasks → TableOk (run ops s).0.tasks
run-TableOk ops s h = TableSteps-TableOk (run-TableSteps ops s h) h
