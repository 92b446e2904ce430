-- ===== src/Passes/Held.antt =====
-- A claim that holds its lease, for the stages of
-- packages/pipeline/eastmed_pipeline/reconciliation_dispatch.py.
use mari_time_system.Prelude.{
  ℕ, ℤ, ◌≡◌, refl, sym, subst, String, Option, none, some, true, ok, arith, Option-cases, inl, inr,
  get_row-key, get_row-save_self, get_row-append_some, Returns, Returns-bind,
}
use mari_time_system.Runtime.State.{
  WorkflowStage, TaskStatus, CommitStatus, Task, Attempt, Store, TaskClaim, StageOutcome, run_row,
  task_row, attempt_row,
}
use mari_time_system.Runtime.Tasks.{
  get_task_locked, holds_lease, enqueue_task, enqueue_next, commit_rows, commit_found, commit_stage,
}

-- The task of the claim is the tenant's and stands under the claim's lease, and its attempt is stored.
pub record Held (account : ℕ) (claim : TaskClaim) (s : Store) : Type 0 where
  pub task : Task
  pub attempt : Attempt
  pub locked : get_task_locked claim.task_id account s ≡ some task
  pub leased : holds_lease claim task ≡ true
  pub attempted : attempt_row claim.attempt_id s.attempts ≡ some attempt

abbrev pub succeeded : Task → Task
succeeded t = record t { status = TaskStatus.succeeded; lease_until = none }

-- What a commit leaves: it was not fenced, and the task is closed.
abbrev pub Commits : TaskClaim → Task → StageOutcome × Store → Type 0
Commits claim t done =
    (done.0.status ≡ CommitStatus.committed)
    × (task_row claim.task_id done.1.tasks ≡ some (succeeded t))

get_task_locked-row :
    (task_id account : ℕ) (s : Store) {t : Task}
    → get_task_locked task_id account s ≡ some t
    → task_row task_id s.tasks ≡ some t
unfolding get_task_locked
get_task_locked-row task_id account s {t} e = elim (Option-cases (task_row task_id s.tasks)) [
  | inl missing ↦ absurd (ground arith)
  | inr (u, found) ↦ ground arith
]

commit_rows-row :
    (claim : TaskClaim) (t : Task) (a : Attempt) (request_id artifact : Option String) (s : Store)
    → task_row claim.task_id s.tasks ≡ some t
    → task_row claim.task_id (commit_rows t a request_id artifact s).tasks ≡ some (succeeded t)
unfolding commit_rows
commit_rows-row claim t a request_id artifact s row =
    let id = get_row-key (λ x. x.id) claim.task_id s.tasks row in
    subst (λ k. task_row k (commit_rows t a request_id artifact s).tasks ≡ some (succeeded t)) id
      (get_row-save_self (λ x. x.id) (succeeded t) s.tasks
        (subst (λ k. task_row k s.tasks ≡ some t) (sym id) row))

enqueue_task-row :
    (new_id account run_id : ℕ) (stage : WorkflowStage) (priority : ℤ) (moment : ℕ) (s : Store)
    (task_id : ℕ) {t : Task} (follow : Task × Store)
    → task_row task_id s.tasks ≡ some t
    → enqueue_task new_id account run_id stage priority none 3 moment s ≡ ok follow
    → task_row task_id follow.1.tasks ≡ some t
unfolding enqueue_task
enqueue_task-row new_id account run_id stage priority moment s task_id {t} follow row e =
    ground (arith, get_row-append_some (λ x. x.id) task_id s.tasks follow.0 row)

enqueue_next-Commits :
    (new_id account moment : ℕ) (next_stage : Option WorkflowStage) (claim : TaskClaim) (t u : Task)
    (s : Store)
    → task_row claim.task_id s.tasks ≡ some (succeeded t)
    → Returns (Commits claim t) (enqueue_next new_id account moment next_stage u s)
unfolding enqueue_next
enqueue_next-Commits new_id account moment none claim t u s row = (refl, row)
enqueue_next-Commits new_id account moment (some stage) claim t u s row =
    elim (Option-cases (run_row u.run_id s.runs)) [
      | inl missing ↦ rw (missing, Returns) tt
      | inr (run, found) ↦
          rw (found, Returns)
            (Returns-bind (Commits claim t)
              (enqueue_task new_id account run.id stage u.priority none 3 moment s) _
              (λ follow e. (
                refl,
                enqueue_task-row new_id account run.id stage u.priority moment s claim.task_id
                    follow row e,
              )))
    ]

-- A commit under a claim that holds its lease is not fenced, and closes the task.
pub commit_stage-Commits :
    (new_id account : ℕ) (claim : TaskClaim) (moment : ℕ) (next_stage : Option WorkflowStage)
    (s : Store) (held : Held account claim s)
    → Returns
        (Commits claim held.task)
        (commit_stage new_id account claim moment next_stage none none s)
unfolding commit_stage commit_found
commit_stage-Commits new_id account claim moment next_stage s held =
    rw (held.locked, held.attempted, held.leased, Returns)
      (enqueue_next-Commits new_id account moment next_stage claim held.task held.task _ (
        commit_rows-row claim held.task held.attempt none none s
          (get_task_locked-row claim.task_id account s held.locked)))
