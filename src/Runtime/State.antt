-- ===== src/Runtime/State.antt =====
-- The rows of recon_workflow_runs, recon_workflow_tasks and recon_task_attempts, and the values
-- that reconciliation_runtime.py returns. A UUID is a number, an instant is the
-- microseconds since the epoch in UTC (`_as_utc` reads a naive value as UTC: the same number).
use mari_time_system.Prelude.{ℕ, String, Option, List, Bool, true, false, ℤ, get_row}

pub data WorkflowStage : Type 0 where
  reconcile calculate verify explain publish : WorkflowStage

pub data TaskStatus : Type 0 where
  ready leased waiting succeeded failed dead : TaskStatus

pub data AttemptStatus : Type 0 where
  running committed fenced failed : AttemptStatus

abbrev pub is_ready : TaskStatus → Bool
is_ready TaskStatus.ready = true
is_ready _ = false

abbrev pub is_leased : TaskStatus → Bool
is_leased TaskStatus.leased = true
is_leased _ = false

pub record Run : Type 0 where
  pub id : ℕ
  pub account_id : ℕ
  pub case_id : ℕ
  pub workflow_version : String
  pub system_fingerprint : String
  pub budget_units : ℕ
  pub deadline_at : ℕ

pub record Task : Type 0 where
  pub id : ℕ
  pub account_id : ℕ
  pub run_id : ℕ
  pub stage : WorkflowStage
  pub status : TaskStatus
  pub priority : ℤ
  pub next_attempt_at : ℕ
  pub lease_epoch : ℕ
  pub lease_until : Option ℕ
  pub attempts : ℕ
  pub max_attempts : ℕ
  pub terminal_reason : Option String

-- `artifact_json` is the serialised text.
pub record Attempt : Type 0 where
  pub id : ℕ
  pub account_id : ℕ
  pub task_id : ℕ
  pub attempt_no : ℕ
  pub lease_epoch : ℕ
  pub lease_until : ℕ
  pub status : AttemptStatus
  pub request_id : Option String
  pub artifact : Option String

-- What the session reads and writes.
pub record Store : Type 0 where
  pub runs : List Run
  pub tasks : List Task
  pub attempts : List Attempt

pub data CommitStatus : Type 0 where
  committed fenced : CommitStatus

pub record TaskClaim : Type 0 where
  pub task_id : ℕ
  pub run_id : ℕ
  pub attempt_id : ℕ
  pub attempt_no : ℕ
  pub lease_epoch : ℕ
  pub stage : WorkflowStage

pub record StageOutcome : Type 0 where
  pub status : CommitStatus
  pub next_task_id : Option ℕ
  pub terminal : Bool
  pub reason : Option String

abbrev pub run_row : ℕ → List Run → Option Run
run_row = get_row (λ r. r.id)

abbrev pub task_row : ℕ → List Task → Option Task
task_row = get_row (λ t. t.id)

abbrev pub attempt_row : ℕ → List Attempt → Option Attempt
attempt_row = get_row (λ a. a.id)
