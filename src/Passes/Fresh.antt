-- ===== src/Passes/Fresh.antt =====
-- What `claim_task` of packages/pipeline/eastmed_pipeline/reconciliation_runtime.py leaves for the step
-- that called it.
use mari_time_system.Prelude.{
  ℕ, ◌+◌, ◌≡◌, none, some, Bool, true, arith, ok, Option-cases, inl, inr, get_row-append_new,
}
use mari_time_system.Runtime.State.{Task, Attempt, Store, TaskClaim, attempt_row}
use mari_time_system.Runtime.Queue.{is_due}
use mari_time_system.Runtime.Tasks.{
  get_task_locked, lease_task, insert_attempt, new_attempt, pick_due, reap_expired_tasks, save_task,
  claim_of, claim_task, holds_lease,
}
use mari_time_system.Runtime.Invariant.{TableOk}
use mari_time_system.Runtime.Claims.{claim_task-IsGrant}
use mari_time_system.Passes.Held.{Held}

-- A claim that found nothing leaves nothing due.
pub claim_task-none :
    (new_id account moment lease : ℕ) (locked : ℕ → Bool) (s s' : Store)
    → claim_task new_id account moment lease locked s ≡ ok (none, s')
    → pick_due account moment locked s' ≡ none
unfolding claim_task
claim_task-none new_id account moment lease locked s s' e =
    elim (Option-cases (pick_due account moment locked (reap_expired_tasks account moment s).1)) [
      | inl nothing ↦ ground arith
      | inr (t, found) ↦ absurd (ground arith)
    ]

inserted_attempt :
    (a : Attempt) (s s' : Store)
    → insert_attempt a s ≡ ok s'
    → attempt_row a.id s'.attempts ≡ some a
unfolding insert_attempt
inserted_attempt a s s' e = elim (Option-cases (attempt_row a.id s.attempts)) [
  | inl new ↦ ground (arith, get_row-append_new (λ x. x.id) s.attempts a new)
  | inr (b, taken) ↦ absurd (ground arith)
]

claim_task-attempt :
    (new_id account moment lease : ℕ) (locked : ℕ → Bool) (s s' : Store) (c : TaskClaim)
    → claim_task new_id account moment lease locked s ≡ ok (some c, s')
    → (a : Attempt) × (attempt_row c.attempt_id s'.attempts ≡ some a)
unfolding claim_task claim_of new_attempt
claim_task-attempt new_id account moment lease locked s s' c e =
    elim (Option-cases (pick_due account moment locked (reap_expired_tasks account moment s).1)) [
      | inl nothing ↦ absurd (ground arith)
      | inr (t, found) ↦
          let t' = lease_task moment lease t in
          let a = new_attempt new_id account (moment + lease) t' in
          (
            a,
            ground (
              arith,
              inserted_attempt a (save_task t' (reap_expired_tasks account moment s).1) s',
            ),
          )
    ]

due-account :
    (account moment : ℕ) (t : Task) → is_due account moment t ≡ true → t.account_id ≡ account
unfolding is_due
due-account account moment t due = ground arith

-- A fresh claim holds its lease.
pub claim_task-Held :
    (new_id account moment lease : ℕ) (locked : ℕ → Bool) (s s' : Store) (c : TaskClaim)
    → TableOk s.tasks
    → claim_task new_id account moment lease locked s ≡ ok (some c, s')
    → Held account c s'
unfolding get_task_locked holds_lease lease_task
claim_task-Held new_id account moment lease locked s s' c h e =
    let grant = claim_task-IsGrant new_id account moment lease locked s s' c h e in
    let (a, attempted) = claim_task-attempt new_id account moment lease locked s s' c e in
    let own = due-account account moment grant.task grant.due in
    record {
      task = lease_task moment lease grant.task;
      attempt = a;
      locked = ground (arith, grant.after, own);
      leased = ground (arith, grant.new_epoch);
      attempted = attempted;
    }
