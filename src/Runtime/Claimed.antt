-- ===== src/Runtime/Claimed.antt =====
-- A claim is a sequence of steps of the task table, for
-- packages/pipeline/eastmed_pipeline/reconciliation_runtime.py.
use mari_time_system.Prelude.{
  ℕ, ◌+◌, ◌≡◌, Option, none, some, [], ◌∷◌, ◌++◌, Bool, arith, Option-cases, inl, inr, ℤ, ok, Keyed,
  map-Keyed,
}
use mari_time_system.Runtime.State.{WorkflowStage, Task, Attempt, Store, TaskClaim, task_row}
use mari_time_system.Runtime.Tasks.{
  get_task_locked, save_task, enqueue_task, reap_task, reap_expired_tasks, lease_task,
  insert_attempt, new_attempt, claim_of, pick_due, claim_task,
}
use mari_time_system.Runtime.Machine.{lease, IsNew, reap, save, TableSteps, here, next}
use mari_time_system.Runtime.Invariant.{TableOk, reap_task-id}
use mari_time_system.Runtime.Due.{IsPick, pick_due-IsPick}

pub get_task_locked-row :
    (id account : ℕ) (s : Store) {t : Task}
    → get_task_locked id account s ≡ some t
    → (task_row id s.tasks ≡ some t) × (t.account_id ≡ account)
unfolding get_task_locked
get_task_locked-row id account s {t} e = elim (Option-cases (task_row id s.tasks)) [
  | inl missing ↦ absurd (ground arith)
  | inr (u, found) ↦ ground arith
]

pub insert_attempt-tasks :
    (a : Attempt) (s s' : Store) → insert_attempt a s ≡ ok s' → s'.tasks ≡ s.tasks
unfolding insert_attempt
insert_attempt-tasks a s s' e = ground arith

pub enqueue_task-steps :
    (new_id account run_id : ℕ) (stage : WorkflowStage) (priority : ℤ) (at : Option ℕ)
    (limit moment : ℕ) (s s' : Store) (t : Task)
    → enqueue_task new_id account run_id stage priority at limit moment s ≡ ok (t, s')
    → (s'.tasks ≡ s.tasks ++ t ∷ []) × (task_row t.id s.tasks ≡ none) × IsNew t
unfolding enqueue_task
enqueue_task-steps new_id account run_id stage priority at limit moment s s' t e =
    (ground arith, ground arith, ground arith)

abbrev pub reaped : ℕ → ℕ → Store → Store
reaped account moment s = (reap_expired_tasks account moment s).1

-- What a successful claim has done to the task table.
pub record Claimed (account moment length : ℕ) (locked : ℕ → Bool) (s : Store) (c : TaskClaim)
    (s' : Store) : Type 0 where
  pub task : Task
  pub picked : pick_due account moment locked (reap_expired_tasks account moment s).1 ≡ some task
  pub saved :
      s'.tasks
      ≡ (save_task (lease_task moment length task) (reap_expired_tasks account moment s).1).tasks
  pub claims : c ≡ claim_of c.attempt_id (lease_task moment length task)

pub claim_task-Claimed :
    (new_id account moment length : ℕ) (locked : ℕ → Bool) (s s' : Store) (c : TaskClaim)
    → claim_task new_id account moment length locked s ≡ ok (some c, s')
    → Claimed account moment length locked s c s'
unfolding claim_task claim_of
claim_task-Claimed new_id account moment length locked s s' c e =
    elim (Option-cases (pick_due account moment locked (reaped account moment s))) [
      | inl idle ↦ absurd (ground arith)
      | inr (t, picked) ↦ record {
        task = t;
        picked = picked;
        saved = ground (
          arith,
          insert_attempt-tasks
              (new_attempt new_id account (moment + length) (lease_task moment length t))
              (save_task (lease_task moment length t) (reaped account moment s)) s',
        );
        claims = ground arith;
      }
    ]

-- A claim that finds nothing has only reaped.
pub claim_task-idle :
    (new_id account moment length : ℕ) (locked : ℕ → Bool) (s s' : Store)
    → claim_task new_id account moment length locked s ≡ ok (none, s')
    → s' ≡ reaped account moment s
unfolding claim_task
claim_task-idle new_id account moment length locked s s' e =
    elim (Option-cases (pick_due account moment locked (reaped account moment s))) [
      | inl idle ↦ ground arith
      | inr (t, picked) ↦ absurd (ground arith)
    ]

pub reap-steps :
    (account moment : ℕ) (s : Store) → TableSteps s.tasks (reaped account moment s).tasks
unfolding reap_expired_tasks
reap-steps account moment s = next here (reap account moment s.tasks)

pub reaped-Keyed :
    (account moment : ℕ) (s : Store)
    → TableOk s.tasks
    → Keyed (λ t. t.id) (reaped account moment s).tasks
unfolding reap_expired_tasks
reaped-Keyed account moment s h =
    map-Keyed (λ t. t.id) (reap_task account moment) (reap_task-id account moment) s.tasks h.keyed

pub claimed-steps :
    (new_id account moment length : ℕ) (locked : ℕ → Bool) (s s' : Store) (c : Option TaskClaim)
    → TableOk s.tasks
    → claim_task new_id account moment length locked s ≡ ok (c, s')
    → TableSteps s.tasks s'.tasks
unfolding lease_task
claimed-steps new_id account moment length locked s s' none h e =
    rw (claim_task-idle new_id account moment length locked s s' e) (reap-steps account moment s)
claimed-steps new_id account moment length locked s s' (some c) h e = rw claimed.saved (
    next (reap-steps account moment s) (
      save claimed.task (lease_task moment length claimed.task) (reaped account moment s).tasks
        pick.stored (lease account moment length claimed.task pick.due)))
  where
    claimed : Claimed account moment length locked s c s'
    claimed = claim_task-Claimed new_id account moment length locked s s' c e

    pick : IsPick account moment locked (reaped account moment s) claimed.task
    pick =
        pick_due-IsPick account moment locked (reaped account moment s) claimed.task
          (reaped-Keyed account moment s h) claimed.picked
