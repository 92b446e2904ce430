-- ===== src/Runtime/Tasks/Enqueue.antt =====
-- Runs, new tasks and reaping: `create_run`, `enqueue_task` and `reap_expired_tasks` of
-- reconciliation_runtime.py.
use mari_time_system.Prelude.{
  ℕ, String, Option, none, some, [], ◌∷◌, ◌++◌, map, Bool, ◌&&◌, ◌||◌, leb, ◌==◌, if◌then◌else◌,
  is_some, count, save_row, ℤ, Result, ok, integrity_error, ◌>>◌, raise_if,
}
use mari_time_system.Runtime.State.{
  WorkflowStage, TaskStatus, Run, Task, Attempt, Store, is_leased, run_row, task_row,
}
use mari_time_system.Runtime.Queue.{lapsed}

abbrev pub default_lease : ℕ
default_lease = 300000000

abbrev pub default_backoff : ℕ
default_backoff = 60000000

-- `_get_task_locked`: another tenant's task is not found.
unfoldable pub get_task_locked : ℕ → ℕ → Store → Option Task
get_task_locked task_id account s = elim (task_row task_id s.tasks) [
  | none ↦ none
  | some t ↦ if t.account_id == account then some t else none
]

abbrev pub save_task : Task → Store → Store
save_task t s = record s { tasks = save_row (λ x. x.id) t s.tasks }

abbrev pub save_attempt : Attempt → Store → Store
save_attempt a s = record s { attempts = save_row (λ x. x.id) a s.attempts }

unfoldable pub create_run : ℕ → ℕ → ℕ → String → String → ℕ → ℕ → Store → Result (Run × Store)
create_run new_id account case_id version fingerprint budget deadline s = do
  let run : Run = record {
    id = new_id;
    account_id = account;
    case_id = case_id;
    workflow_version = version;
    system_fingerprint = fingerprint;
    budget_units = budget;
    deadline_at = deadline;
  }
  raise_if (is_some (run_row new_id s.runs)) integrity_error
  ok (run, record s { runs = s.runs ++ run ∷ [] })

-- The row is refused where its key is taken or `max_attempts >= 1` fails.
unfoldable pub enqueue_task :
    ℕ → ℕ → ℕ → WorkflowStage → ℤ → Option ℕ → ℕ → ℕ → Store → Result (Task × Store)
enqueue_task new_id account run_id stage priority next_attempt_at max_attempts moment s = do
  let task : Task = record {
    id = new_id;
    account_id = account;
    run_id = run_id;
    stage = stage;
    status = TaskStatus.ready;
    priority = priority;
    next_attempt_at = elim next_attempt_at [ none ↦ moment | some at ↦ at ];
    lease_epoch = 0;
    lease_until = none;
    attempts = 0;
    max_attempts = max_attempts;
    terminal_reason = none;
  }
  raise_if (is_some (task_row new_id s.tasks) || leb max_attempts 0) integrity_error
  ok (task, record s { tasks = s.tasks ++ task ∷ [] })

-- The WHERE clause of `reap_expired_tasks`.
unfoldable pub is_exhausted : ℕ → ℕ → Task → Bool
is_exhausted account moment t =
    t.account_id == account
    && (is_leased t.status && (lapsed moment t.lease_until && leb t.max_attempts t.attempts))

unfoldable pub reap_task : ℕ → ℕ → Task → Task
unfolding is_exhausted
reap_task account moment t =
    if is_exhausted account moment t
    then record t {
      status = TaskStatus.dead;
      terminal_reason = some "attempts_exhausted";
      lease_until = none;
    }
    else t

unfoldable pub reap_expired_tasks : ℕ → ℕ → Store → ℕ × Store
unfolding is_exhausted
reap_expired_tasks account moment s = (
  count (is_exhausted account moment) s.tasks,
  record s { tasks = map (reap_task account moment) s.tasks },
)
