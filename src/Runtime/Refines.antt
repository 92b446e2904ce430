-- ===== src/Runtime/Refines.antt =====
-- Every operation of reconciliation_runtime.py is made of steps of the task table.
use mari_time_system.Prelude.{
  ℕ, String, ◌+◌, ◌≡◌, refl, sym, subst, Option, none, some, true, not, ◌||◌, arith, Option-cases,
  Bool-cases, inl, inr, get_row-key, Result, ok, err,
}
use mari_time_system.Runtime.State.{
  WorkflowStage, Task, Attempt, Run, Store, TaskClaim, StageOutcome, is_leased, task_row,
  attempt_row, run_row,
}
use mari_time_system.Runtime.Tasks.{
  get_task_locked, enqueue_task, holds_lease, forfeit, heartbeat, enqueue_next, commit_rows,
  commit_found, commit_stage, fail_task, fail_found, fail_attempt,
}
use mari_time_system.Runtime.Machine.{
  renew, succeed, fail, save, insert, TableSteps, here, next, TableSteps-trans,
}
use mari_time_system.Runtime.Claimed.{enqueue_task-steps, get_task_locked-row}

fail_task-id :
    (moment backoff : ℕ) (reason : String) (t : Task)
    → (fail_task moment backoff reason t).id ≡ t.id
unfolding fail_task
fail_task-id moment backoff reason t = ground arith

-- The row that a call has locked is found by its own key.
pub locked_stored :
    (id account : ℕ) (s : Store) (t : Task)
    → get_task_locked id account s ≡ some t
    → task_row t.id s.tasks ≡ some t
locked_stored id account s t found =
    let (row, _) = get_task_locked-row id account s found in
    subst (λ k. task_row k s.tasks ≡ some t) (sym (get_row-key (λ x. x.id) id s.tasks row)) row

pub heartbeat-steps :
    (account moment length : ℕ) (c : TaskClaim) (s : Store)
    → TableSteps s.tasks (heartbeat account c moment length s).1.tasks
unfolding heartbeat holds_lease
heartbeat-steps account moment length c s =
    elim (Option-cases (get_task_locked c.task_id account s)) [
      | inl missing ↦ rw (missing, heartbeat) here
      | inr (t, found) ↦ elim (Bool-cases (not (holds_lease c t) || forfeit moment t.lease_until)) [
        | inl refused ↦ rw (found, heartbeat) (rw refused here)
        | inr granted ↦
            rw (found, heartbeat)
              (rw granted (
                next here (
                  save t (record t { lease_until = some (moment + length) }) s.tasks
                    (locked_stored c.task_id account s t found)
                    (renew (moment + length) t (ground arith)))))
      ]
    ]

commit_rows-steps :
    (t : Task) (a : Attempt) (request artifact : Option String) (s : Store)
    → task_row t.id s.tasks ≡ some t
    → is_leased t.status ≡ true
    → TableSteps s.tasks (commit_rows t a request artifact s).tasks
unfolding commit_rows
commit_rows-steps t a request artifact s found leased =
    next here (save t _ s.tasks found (succeed t leased))

pub enqueue_next-steps :
    (new_id account moment : ℕ) (stage : Option WorkflowStage) (t : Task) (s s' : Store)
    (o : StageOutcome)
    → enqueue_next new_id account moment stage t s ≡ ok (o, s')
    → TableSteps s.tasks s'.tasks
unfolding enqueue_next
enqueue_next-steps new_id account moment none t s s' o e =
    let same : s' ≡ s = ground arith in rw same here
enqueue_next-steps new_id account moment (some stage) t s s' o e =
    elim (Option-cases (run_row t.run_id s.runs)) [
      | inl missing ↦ absurd (ground arith)
      | inr (run, found) ↦
          inserted run found (enqueue_task new_id account run.id stage t.priority none 3 moment s)
            refl
    ]
  where
    inserted :
        (run : Run)
        → run_row t.run_id s.runs ≡ some run
        → (r : Result (Task × Store))
        → enqueue_task new_id account run.id stage t.priority none 3 moment s ≡ r
        → TableSteps s.tasks s'.tasks
    inserted run found (err x) q = absurd (ground arith)
    inserted run found (ok (n, u)) q =
        let (appended, fresh, new) =
          enqueue_task-steps new_id account run.id stage t.priority none 3 moment s u n q in
        let same : s' ≡ u = ground arith in
        rw (same, appended) (next here (insert n s.tasks fresh new))

pub commit_stage-steps :
    (new_id account : ℕ) (c : TaskClaim) (moment : ℕ) (stage : Option WorkflowStage)
    (request artifact : Option String) (s s' : Store) (o : StageOutcome)
    → commit_stage new_id account c moment stage request artifact s ≡ ok (o, s')
    → TableSteps s.tasks s'.tasks
unfolding commit_stage commit_found holds_lease
commit_stage-steps new_id account c moment stage request artifact s s' o e =
    elim (Option-cases (get_task_locked c.task_id account s)) [
      | inl missing ↦ let same : s' ≡ s = ground arith in rw same here
      | inr (t, found) ↦ elim (Option-cases (attempt_row c.attempt_id s.attempts)) [
        | inl missing ↦ let same : s' ≡ s = ground arith in rw same here
        | inr (a, present) ↦ elim (Bool-cases (holds_lease c t)) [
          | inl held ↦
              TableSteps-trans
                (commit_rows-steps t a request artifact s
                  (locked_stored c.task_id account s t found) (ground arith))
                (enqueue_next-steps new_id account moment stage t
                  (commit_rows t a request artifact s) s' o (ground arith))
          | inr lost ↦ let same : s'.tasks ≡ s.tasks = ground arith in rw same here
        ]
      ]
    ]

pub fail_attempt-steps :
    (account : ℕ) (c : TaskClaim) (reason : String) (moment backoff : ℕ) (s : Store)
    → TableSteps s.tasks (fail_attempt account c reason moment backoff s).1.tasks
unfolding fail_attempt fail_found holds_lease
fail_attempt-steps account c reason moment backoff s =
    elim (Option-cases (get_task_locked c.task_id account s)) [
      | inl missing ↦ rw (missing, fail_attempt) here
      | inr (t, found) ↦ elim (Option-cases (attempt_row c.attempt_id s.attempts)) [
        | inl missing ↦ rw (found, fail_attempt) (rw missing here)
        | inr (a, present) ↦ elim (Bool-cases (holds_lease c t)) [
          | inl held ↦
              rw (found, fail_attempt)
                (rw present (
                  rw held (
                    next here (
                      save t (fail_task moment backoff reason t) s.tasks (fail_stored t found)
                        (fail moment backoff reason t (ground arith))))))
          | inr lost ↦ rw (found, fail_attempt) (rw present (rw lost here))
        ]
      ]
    ]
  where
    fail_stored :
        (t : Task)
        → get_task_locked c.task_id account s ≡ some t
        → task_row (fail_task moment backoff reason t).id s.tasks ≡ some t
    fail_stored t found =
        rw (fail_task-id moment backoff reason t) (locked_stored c.task_id account s t found)
