-- ===== src/Runtime/Tasks/Claim.antt =====
-- `claim_task` and `heartbeat` of reconciliation_runtime.py.
use mari_time_system.Prelude.{
  ℕ, ◌+◌, Option, none, some, [], ◌∷◌, ◌++◌, Bool, true, false, not, ◌&&◌, ◌||◌, ltb, ◌==◌,
  if◌then◌else◌, is_some, select, first, any, Result, ok, err, integrity_error, ◌>>=◌,
}
use mari_time_system.Runtime.State.{
  TaskStatus, AttemptStatus, Task, Attempt, Store, TaskClaim, is_leased, attempt_row,
}
use mari_time_system.Runtime.Queue.{due_query}
use mari_time_system.Runtime.Tasks.Enqueue.{get_task_locked, save_task, reap_expired_tasks}

-- The mutation of the claimed row: `lease_epoch += 1`, `attempts += 1`, leased until the end.
unfoldable pub lease_task : ℕ → ℕ → Task → Task
lease_task moment lease t = record t {
  lease_epoch = t.lease_epoch + 1;
  status = TaskStatus.leased;
  lease_until = some (moment + lease);
  attempts = t.attempts + 1;
}

-- The unique key (account_id, task_id, attempt_no).
unfoldable pub same_attempt_no : Attempt → Attempt → Bool
same_attempt_no a b =
    a.account_id == b.account_id && (a.task_id == b.task_id && a.attempt_no == b.attempt_no)

unfoldable pub insert_attempt : Attempt → Store → Result Store
unfolding same_attempt_no
insert_attempt a s =
    if is_some (attempt_row a.id s.attempts) || any (same_attempt_no a) s.attempts
    then err integrity_error
    else ok (record s { attempts = s.attempts ++ a ∷ [] })

unfoldable pub new_attempt : ℕ → ℕ → ℕ → Task → Attempt
new_attempt new_id account until t = record {
  id = new_id;
  account_id = account;
  task_id = t.id;
  attempt_no = t.attempts;
  lease_epoch = t.lease_epoch;
  lease_until = until;
  status = AttemptStatus.running;
  request_id = none;
  artifact = none;
}

unfoldable pub claim_of : ℕ → Task → TaskClaim
claim_of attempt_id t = record {
  task_id = t.id;
  run_id = t.run_id;
  attempt_id = attempt_id;
  attempt_no = t.attempts;
  lease_epoch = t.lease_epoch;
  stage = t.stage;
}

-- The first due row that no competing transaction has locked (SKIP LOCKED, LIMIT 1).
unfoldable pub pick_due : ℕ → ℕ → (ℕ → Bool) → Store → Option Task
unfolding due_query
pick_due account moment locked s =
    first (select (λ t. not (locked t.id)) (due_query account moment s))

unfoldable pub claim_task : ℕ → ℕ → ℕ → ℕ → (ℕ → Bool) → Store → Result (Option TaskClaim × Store)
unfolding reap_expired_tasks pick_due lease_task insert_attempt new_attempt claim_of
claim_task new_id account moment lease locked s =
    let reaped = (reap_expired_tasks account moment s).1 in
    elim (pick_due account moment locked reaped) [
      | none ↦ ok (none, reaped)
      | some t ↦
          let t' = lease_task moment lease t in
          do
            s' ←
                insert_attempt (new_attempt new_id account (moment + lease) t')
                  (save_task t' reaped)
            ok (some (claim_of new_id t'), s')
    ]

-- The task still stands under the lease of this claim.
unfoldable pub holds_lease : TaskClaim → Task → Bool
holds_lease claim t = t.lease_epoch == claim.lease_epoch && is_leased t.status

-- `task.lease_until is None or task.lease_until < moment`
abbrev pub forfeit : ℕ → Option ℕ → Bool
forfeit moment none = true
forfeit moment (some until) = ltb until moment

unfoldable pub heartbeat : ℕ → TaskClaim → ℕ → ℕ → Store → Bool × Store
unfolding get_task_locked holds_lease
heartbeat account claim moment lease s = elim (get_task_locked claim.task_id account s) [
  | none ↦ (false, s)
  | some t ↦
      if not (holds_lease claim t) || forfeit moment t.lease_until
      then (false, s)
      else (true, save_task (record t { lease_until = some (moment + lease) }) s)
]
