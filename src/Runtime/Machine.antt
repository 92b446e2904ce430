-- ===== src/Runtime/Machine.antt =====
-- The task table as a state machine: the steps that one row can make, and the steps of the table
-- that every operation of reconciliation_runtime.py is made of.
use mari_time_system.Prelude.{
  ℕ, String, ◌<◌, ◌≡◌, none, some, List, [], ◌∷◌, ◌++◌, map, true, save_row,
}
use mari_time_system.Runtime.State.{TaskStatus, Task, is_leased, task_row}
use mari_time_system.Runtime.Queue.{is_due}
use mari_time_system.Runtime.Tasks.{reap_task, lease_task, fail_task}

-- A step of one row that a claim, a heartbeat, a commit or a failure makes.
pub data RowStep : Task → Task → Type 0 where
  lease :
      (account moment length : ℕ) (t : Task)
      → is_due account moment t ≡ true
      → RowStep t (lease_task moment length t)
  renew :
      (until : ℕ) (t : Task)
      → is_leased t.status ≡ true
      → RowStep t (record t { lease_until = some until })
  succeed :
      (t : Task)
      → is_leased t.status ≡ true
      → RowStep t (record t { status = TaskStatus.succeeded; lease_until = none })
  fail :
      (moment backoff : ℕ) (reason : String) (t : Task)
      → is_leased t.status ≡ true
      → RowStep t (fail_task moment backoff reason t)

-- A row as `enqueue_task` inserts it.
pub record IsNew (t : Task) : Type 0 where
  pub queued : t.status ≡ TaskStatus.ready
  pub unclaimed : (t.lease_epoch ≡ 0) × (t.attempts ≡ 0)
  pub allowed : 0 < t.max_attempts
  pub unleased : t.lease_until ≡ none

pub data TableStep : List Task → List Task → Type 0 where
  reap : (account moment : ℕ) (ts : List Task) → TableStep ts (map (reap_task account moment) ts)
  save :
      (t t' : Task) (ts : List Task)
      → task_row t'.id ts ≡ some t
      → RowStep t t'
      → TableStep ts (save_row (λ x. x.id) t' ts)
  insert :
      (t : Task) (ts : List Task) → task_row t.id ts ≡ none → IsNew t → TableStep ts (ts ++ t ∷ [])

pub data TableSteps (ts : List Task) : List Task → Type 0 where
  here : TableSteps ts ts
  next : {us vs : List Task} → TableSteps ts us → TableStep us vs → TableSteps ts vs

pub TableSteps-trans :
    {ts us vs : List Task} → TableSteps ts us → TableSteps us vs → TableSteps ts vs
TableSteps-trans p here = p
TableSteps-trans p (next q s) = next (TableSteps-trans p q) s
