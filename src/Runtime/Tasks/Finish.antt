-- ===== src/Runtime/Tasks/Finish.antt =====
-- `commit_stage` and `fail_attempt` of reconciliation_runtime.py.
use mari_time_system.Prelude.{
  ℕ, ◌+◌, String, Option, none, some, false, not, leb, if◌then◌else◌, Result, ok, err,
  assertion_error, ◌>>=◌,
}
use mari_time_system.Runtime.State.{
  WorkflowStage, TaskStatus, AttemptStatus, CommitStatus, Task, Attempt, Store, TaskClaim,
  StageOutcome, run_row, attempt_row,
}
use mari_time_system.Runtime.Tasks.Enqueue.{get_task_locked, save_task, save_attempt, enqueue_task}
use mari_time_system.Runtime.Tasks.Claim.{holds_lease}

abbrev pub fenced_as : String → StageOutcome
fenced_as reason = record {
  status = CommitStatus.fenced;
  next_task_id = none;
  terminal = false;
  reason = some reason;
}

abbrev pub committed_with : Option ℕ → StageOutcome
committed_with next = record {
  status = CommitStatus.committed;
  next_task_id = next;
  terminal = false;
  reason = none;
}

-- The rows that a commit leaves: the attempt committed, the task succeeded.
unfoldable pub commit_rows : Task → Attempt → Option String → Option String → Store → Store
commit_rows t a request_id artifact s =
    save_task (record t { status = TaskStatus.succeeded; lease_until = none })
      (save_attempt
        (record a {
          status = AttemptStatus.committed;
          request_id = request_id;
          artifact = artifact;
        })
        s)

-- The `if next_stage is not None` part of a commit, with the run's assertion.
unfoldable pub enqueue_next :
    ℕ → ℕ → ℕ → Option WorkflowStage → Task → Store → Result (StageOutcome × Store)
unfolding enqueue_task
enqueue_next new_id account moment none t s = ok (committed_with none, s)
enqueue_next new_id account moment (some stage) t s = elim (run_row t.run_id s.runs) [
  | none ↦ err assertion_error
  | some run ↦ do
    follow ← enqueue_task new_id account run.id stage t.priority none 3 moment s
    ok (committed_with (some new_id), follow.1)
]

-- Both rows were found.
unfoldable pub commit_found :
    ℕ
    → ℕ
    → TaskClaim
    → ℕ
    → Option WorkflowStage
    → Option String
    → Option String
    → Task
    → Attempt
    → Store
    → Result (StageOutcome × Store)
unfolding holds_lease commit_rows enqueue_next
commit_found new_id account claim moment next_stage request_id artifact t a s =
    if not (holds_lease claim t)
    then ok
        (fenced_as "stale lease epoch", save_attempt (record a { status = AttemptStatus.fenced }) s)
    else enqueue_next new_id account moment next_stage t (commit_rows t a request_id artifact s)

unfoldable pub commit_stage :
    ℕ
    → ℕ
    → TaskClaim
    → ℕ
    → Option WorkflowStage
    → Option String
    → Option String
    → Store
    → Result (StageOutcome × Store)
unfolding get_task_locked commit_found
commit_stage new_id account claim moment next_stage request_id artifact s =
    elim (get_task_locked claim.task_id account s) [
      | none ↦ ok (fenced_as "missing task/attempt", s)
      | some t ↦ elim (attempt_row claim.attempt_id s.attempts) [
        | none ↦ ok (fenced_as "missing task/attempt", s)
        | some a ↦ commit_found new_id account claim moment next_stage request_id artifact t a s
      ]
    ]

-- The task after a failed attempt: back in the queue, or dead once the attempts are used up.
unfoldable pub fail_task : ℕ → ℕ → String → Task → Task
fail_task moment backoff reason t =
    if leb t.max_attempts t.attempts
    then record t { status = TaskStatus.dead; terminal_reason = some reason; lease_until = none }
    else record t {
      status = TaskStatus.ready;
      next_attempt_at = moment + backoff;
      lease_until = none;
    }

unfoldable pub fail_found :
    TaskClaim → String → ℕ → ℕ → Task → Attempt → Store → StageOutcome × Store
unfolding holds_lease fail_task
fail_found claim reason moment backoff t a s =
    if not (holds_lease claim t)
    then (
      fenced_as "stale lease epoch",
      save_attempt (record a { status = AttemptStatus.fenced }) s,
    )
    else (
      record {
        status = CommitStatus.committed;
        next_task_id = none;
        terminal = leb t.max_attempts t.attempts;
        reason = some reason;
      },
      save_task (fail_task moment backoff reason t)
          (save_attempt (record a { status = AttemptStatus.failed }) s),
    )

unfoldable pub fail_attempt : ℕ → TaskClaim → String → ℕ → ℕ → Store → StageOutcome × Store
unfolding get_task_locked fail_found
fail_attempt account claim reason moment backoff s =
    elim (get_task_locked claim.task_id account s) [
      | none ↦ (fenced_as "missing task/attempt", s)
      | some t ↦ elim (attempt_row claim.attempt_id s.attempts) [
        | none ↦ (fenced_as "missing task/attempt", s)
        | some a ↦ fail_found claim reason moment backoff t a s
      ]
    ]
