-- ===== src/Passes/State.antt =====
-- What packages/pipeline/eastmed_pipeline/reconciliation_dispatch.py reads, writes and returns.
use mari_time_system.Prelude.{ℕ, String, Option, List, Bool, true, false, count}
use mari_time_system.Authority.Attestation.{Platform}
use mari_time_system.Runtime.State.{WorkflowStage, Store}
use mari_time_system.Publication.State.{Portal}
use mari_time_system.Publication.Propose.{ProposalKeys}
use mari_time_system.Cases.Rows.{ExpectedJob, Sources, Reading}
use mari_time_system.Cases.Build.{ResultJson, Hashes}

abbrev pub workflow_version : String
workflow_version = "recon_wf_v1"

abbrev pub default_budget_units : ℕ
default_budget_units = 1000

abbrev pub default_case_type : String
default_case_type = "daily_reconciliation"

-- The tables of the workflows, of the cases, and of the imported reports.
pub record World : Type 0 where
  pub runtime : Store
  pub portal : Portal ResultJson
  pub jobs : List ExpectedJob
  pub sources : Sources

-- The arguments that a pass hands to each step.
pub record PassArguments : Type 0 where
  pub account_id : ℕ
  pub principal_subject : String
  pub system_fingerprint : String
  pub moment : ℕ

-- The functions that are not the repository's, and which rows other transactions have locked.
pub record Services : Type 0 where
  pub platform : Platform ResultJson
  pub reading : Reading
  pub hashes : Hashes
  pub task_locked : ℕ → Bool
  pub outbox_locked : ℕ → Bool

-- The keys that the inserts of one step draw.
pub record StepKeys : Type 0 where
  pub attempt_id : ℕ
  pub next_task_id : ℕ
  pub version_id : ℕ
  pub verdict_id : ℕ
  pub proposal : ProposalKeys
  pub publication_id : ℕ

-- The keys that the scheduling of a case draws.
pub record RunKeys : Type 0 where
  pub run_id : ℕ
  pub task_id : ℕ

pub data DispatchResult : Type 0 where
  idle advanced completed unresolved deferred fenced : DispatchResult

pub record DispatchStep : Type 0 where
  pub result : DispatchResult
  pub case_id : Option ℕ
  pub stage : Option WorkflowStage
  pub detail : Option String

pub record PassSummary : Type 0 where
  pub scheduled : ℕ
  pub steps : List DispatchStep

abbrev pub is_idle : DispatchStep → Bool
is_idle step = elim step.result [ DispatchResult.idle ↦ true | _ ↦ false ]

-- `step.result in (DEFERRED, FENCED)`
abbrev pub halts : DispatchStep → Bool
halts step = elim step.result [
  | DispatchResult.deferred ↦ true
  | DispatchResult.fenced ↦ true
  | _ ↦ false
]

abbrev pub is_completed : DispatchStep → Bool
is_completed step = elim step.result [ DispatchResult.completed ↦ true | _ ↦ false ]

abbrev pub is_unresolved : DispatchStep → Bool
is_unresolved step = elim step.result [ DispatchResult.unresolved ↦ true | _ ↦ false ]

-- `PassSummary.completed` and `PassSummary.unresolved`
abbrev pub completed_of : PassSummary → ℕ
completed_of summary = count is_completed summary.steps

abbrev pub unresolved_of : PassSummary → ℕ
unresolved_of summary = count is_unresolved summary.steps

abbrev pub is_fenced_step : DispatchStep → Bool
is_fenced_step step = elim step.result [ DispatchResult.fenced ↦ true | _ ↦ false ]
