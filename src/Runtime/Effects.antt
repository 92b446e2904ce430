-- ===== src/Runtime/Effects.antt =====
-- What `reap_expired_tasks`, `heartbeat`, `commit_stage` and `fail_attempt` of
-- reconciliation_runtime.py do to the row of the task, branch by branch.
use mari_time_system.Prelude.{
  ℕ, String, ◌+◌, ◌≤◌, ◌<◌, ◌≡◌, refl, sym, subst, none, some, List, [], ◌∷◌, map, Bool, true,
  false, not, ◌&&◌, ◌||◌, arith, leb, count, Bool-cases, inl, inr, get_row-save_self, save_row,
  false≢true,
}
use mari_time_system.Runtime.State.{
  TaskStatus, Task, Attempt, Store, TaskClaim, is_leased, task_row, attempt_row,
}
use mari_time_system.Runtime.Queue.{is_due, lapsed}
use mari_time_system.Runtime.Tasks.{
  get_task_locked, is_exhausted, reap_task, reap_expired_tasks, holds_lease, forfeit, heartbeat,
  fail_task, fail_found, fail_attempt, save_task,
}
use mari_time_system.Runtime.Refines.{locked_stored}

reap_task-left :
    (account moment : ℕ) (t : Task)
    → is_exhausted account moment (reap_task account moment t) ≡ false
unfolding reap_task is_exhausted
reap_task-left account moment t = ground arith

none_left :
    (account moment : ℕ) (ts : List Task)
    → count (is_exhausted account moment) (map (reap_task account moment) ts) ≡ 0
none_left account moment [] = refl
none_left account moment (t ∷ ts) =
    ground (arith, reap_task-left account moment t, none_left account moment ts)

-- Reaping twice at the same moment reaps nothing the second time.
pub reap_expired_tasks-twice :
    (account moment : ℕ) (s : Store)
    → (reap_expired_tasks account moment (reap_expired_tasks account moment s).1).0 ≡ 0
unfolding reap_expired_tasks
reap_expired_tasks-twice account moment s = none_left account moment s.tasks

-- An expired lease is either due for a new claim or exhausted, and never both.
pub lapsed_due_xor_exhausted :
    (account moment : ℕ) (t : Task)
    → t.account_id ≡ account
    → is_leased t.status ≡ true
    → lapsed moment t.lease_until ≡ true
    → is_exhausted account moment t ≡ not (is_due account moment t)
unfolding is_exhausted is_due
lapsed_due_xor_exhausted account moment t mine leased late = ground arith

-- How a failed attempt that holds the lease leaves its task: dead with the reason if the attempts
-- are used up, and otherwise ready again after the backoff.
pub record FailsAs (moment backoff : ℕ) (reason : String) (t t' : Task) : Type 0 where
  pub exhausted :
      t.max_attempts ≤ t.attempts
      → (t'.status ≡ TaskStatus.dead) × (t'.terminal_reason ≡ some reason)
  pub retried :
      t.attempts < t.max_attempts
      → (t'.status ≡ TaskStatus.ready) × (t'.next_attempt_at ≡ moment + backoff)
  pub unleased : t'.lease_until ≡ none
  pub kept : (t'.attempts ≡ t.attempts) × (t'.lease_epoch ≡ t.lease_epoch)

fail_task-FailsAs :
    (moment backoff : ℕ) (reason : String) (t : Task)
    → FailsAs moment backoff reason t (fail_task moment backoff reason t)
unfolding fail_task
fail_task-FailsAs moment backoff reason t = ground arith

fail_task-id :
    (moment backoff : ℕ) (reason : String) (t : Task)
    → (fail_task moment backoff reason t).id ≡ t.id
unfolding fail_task
fail_task-id moment backoff reason t = ground arith

-- A failure reported under the current lease is recorded: the outcome is terminal exactly when the
-- attempts are used up, and the task is dead with the reason then, or ready after the backoff.
pub fail_attempt-FailsAs :
    (account : ℕ) (c : TaskClaim) (reason : String) (moment backoff : ℕ) (s : Store) (t : Task)
    (a : Attempt)
    → get_task_locked c.task_id account s ≡ some t
    → attempt_row c.attempt_id s.attempts ≡ some a
    → holds_lease c t ≡ true
    → ((fail_attempt account c reason moment backoff s).0.terminal ≡ leb t.max_attempts t.attempts)
      × ((t' : Task) × (task_row t.id (fail_attempt account c reason moment backoff s).1.tasks
            ≡ some t')
          × FailsAs moment backoff reason t t')
unfolding fail_attempt fail_found
fail_attempt-FailsAs account c reason moment backoff s t a found present held = (
  rw (found, fail_attempt) (rw present (rw held refl)),
  (
    fail_task moment backoff reason t,
    rw (found, fail_attempt) (rw present (rw held (saved t))),
    fail_task-FailsAs moment backoff reason t,
  ),
)
  where
    saved :
        (u : Task)
        → task_row t.id (save_row (λ x. x.id) (fail_task moment backoff reason t) s.tasks)
          ≡ some (fail_task moment backoff reason t)
    saved u =
        subst
          (λ k.
            task_row k (save_row (λ x. x.id) (fail_task moment backoff reason t) s.tasks)
            ≡ some (fail_task moment backoff reason t))
          (fail_task-id moment backoff reason t)
          (get_row-save_self (λ x. x.id) (fail_task moment backoff reason t) s.tasks
            (subst (λ k. task_row k s.tasks ≡ some t) (sym (fail_task-id moment backoff reason t))
              (locked_stored c.task_id account s t found)))

-- A heartbeat renews exactly the leases that are held and have not run out; the row then stands
-- until the new end, and otherwise the store is left as it was.
pub heartbeat-renews :
    (account : ℕ) (c : TaskClaim) (moment length : ℕ) (s : Store) (t : Task)
    → get_task_locked c.task_id account s ≡ some t
    → ((heartbeat account c moment length s).0
        ≡ (holds_lease c t && not (forfeit moment t.lease_until)))
      × (((heartbeat account c moment length s).0 ≡ true)
          → task_row t.id (heartbeat account c moment length s).1.tasks
            ≡ some (record t { lease_until = some (moment + length) }))
      × (((heartbeat account c moment length s).0 ≡ false)
          → (heartbeat account c moment length s).1 ≡ s)
unfolding heartbeat
heartbeat-renews account c moment length s t found =
    elim (Bool-cases (not (holds_lease c t) || forfeit moment t.lease_until)) [
      | inl refused ↦
          subst Renews (sym (stays refused)) (ground arith, λ h. absurd (false≢true h), λ _. refl)
      | inr granted ↦ subst Renews (sym (renewed granted)) (
        ground arith,
        λ _.
            get_row-save_self (λ x. x.id) longer s.tasks
              (locked_stored c.task_id account s t found),
        λ h. absurd (false≢true (sym h)),
      )
    ]
  where
    longer : Task
    longer = record t { lease_until = some (moment + length) }

    Renews : Bool × Store → Type 0
    Renews r =
        (r.0 ≡ (holds_lease c t && not (forfeit moment t.lease_until)))
        × ((r.0 ≡ true) → task_row t.id r.1.tasks ≡ some longer)
        × ((r.0 ≡ false) → r.1 ≡ s)

    stays :
        (not (holds_lease c t) || forfeit moment t.lease_until) ≡ true
        → heartbeat account c moment length s ≡ (false, s)
    stays refused = rw (found, heartbeat) (rw refused refl)

    renewed :
        (not (holds_lease c t) || forfeit moment t.lease_until) ≡ false
        → heartbeat account c moment length s ≡ (true, save_task longer s)
    renewed granted = rw (found, heartbeat) (rw granted refl)
