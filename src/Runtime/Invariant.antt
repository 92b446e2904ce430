-- ===== src/Runtime/Invariant.antt =====
-- What holds of every task row between two calls of reconciliation_runtime.py.
use mari_time_system.Prelude.{
  ℕ, ◌≤◌, ◌<◌, ◌≡◌, List, [], ◌∷◌, map, true, arith, is_some, All, All-append, save_row-All, Keyed,
  save_row-Keyed, append-Keyed, map-Keyed, get_row-All,
}
use mari_time_system.Runtime.State.{TaskStatus, Task, is_leased}
use mari_time_system.Runtime.Queue.{is_due}
use mari_time_system.Runtime.Tasks.{reap_task, lease_task, fail_task}
use mari_time_system.Runtime.Machine.{
  RowStep, lease, renew, succeed, fail, IsNew, TableStep, reap, save, insert, TableSteps, here,
  next,
}

pub record TaskOk (t : Task) : Type 0 where
  pub epoch_counts : t.lease_epoch ≡ t.attempts
  pub within : t.attempts ≤ t.max_attempts
  pub room : t.status ≡ TaskStatus.ready → t.attempts < t.max_attempts
  pub held : is_leased t.status ≡ is_some t.lease_until
  pub used_up : t.status ≡ TaskStatus.dead → t.attempts ≡ t.max_attempts
  pub explained : t.status ≡ TaskStatus.dead → is_some t.terminal_reason ≡ true

-- Reaping keeps it.
pub reap_task-TaskOk :
    (account moment : ℕ) (t : Task) → TaskOk t → TaskOk (reap_task account moment t)
unfolding reap_task
reap_task-TaskOk account moment t h = ground arith

-- So does every step of a row.
pub RowStep-TaskOk : {t t' : Task} → RowStep t t' → TaskOk t → TaskOk t'
unfolding lease_task fail_task is_due
RowStep-TaskOk (lease account moment length t due) h = ground arith
RowStep-TaskOk (renew until t leased) h = ground arith
RowStep-TaskOk (succeed t leased) h = ground arith
RowStep-TaskOk (fail moment backoff reason t leased) h = ground arith

pub IsNew-TaskOk : (t : Task) → IsNew t → TaskOk t
IsNew-TaskOk t h = ground arith

-- The invariant of the table: every row is sound and no key stands twice.
pub record TableOk (ts : List Task) : Type 0 where
  pub rows : All TaskOk ts
  pub keyed : Keyed (λ t. t.id) ts

reap-All-TaskOk :
    (account moment : ℕ) (ts : List Task)
    → All TaskOk ts
    → All TaskOk (map (reap_task account moment) ts)
reap-All-TaskOk account moment [] h = tt
reap-All-TaskOk account moment (t ∷ ts) h =
    (reap_task-TaskOk account moment t h.0, reap-All-TaskOk account moment ts h.1)

pub reap_task-id : (account moment : ℕ) (t : Task) → (reap_task account moment t).id ≡ t.id
unfolding reap_task
reap_task-id account moment t = ground arith

-- Every step of the table keeps its invariant.
pub TableStep-TableOk : {ts us : List Task} → TableStep ts us → TableOk ts → TableOk us
TableStep-TableOk (reap account moment ts) h = record {
  rows = reap-All-TaskOk account moment ts h.rows;
  keyed = map-Keyed (λ t. t.id) (reap_task account moment) (reap_task-id account moment) ts h.keyed;
}
TableStep-TableOk (save t t' ts e st) h = record {
  rows =
      save_row-All (λ x. x.id) TaskOk t' ts
        (RowStep-TaskOk st (get_row-All (λ x. x.id) TaskOk t'.id ts h.rows e)) h.rows;
  keyed = save_row-Keyed (λ x. x.id) t' ts h.keyed;
}
TableStep-TableOk (insert t ts e new) h = record {
  rows = All-append TaskOk ts (t ∷ []) h.rows (IsNew-TaskOk t new, tt);
  keyed = append-Keyed (λ x. x.id) ts t e h.keyed;
}

pub TableSteps-TableOk : {ts us : List Task} → TableSteps ts us → TableOk ts → TableOk us
TableSteps-TableOk here h = h
TableSteps-TableOk (next r st) h = TableStep-TableOk st (TableSteps-TableOk r h)
