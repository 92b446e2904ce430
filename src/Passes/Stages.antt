-- ===== src/Passes/Stages.antt =====
-- `_run_reconcile_stage` and `_run_publish_stage` of
-- packages/pipeline/eastmed_pipeline/reconciliation_dispatch.py.
use mari_time_system.Prelude.{
  ℕ, String, str_eq, Option, none, some, Bool, true, false, not, ◌&&◌, ◌==◌, if◌then◌else◌, find,
  get_row, save_row, Result, ok, err, ◌>>=◌, assertion_error,
}
use mari_time_system.Runtime.State.{WorkflowStage, CommitStatus, TaskClaim, StageOutcome}
use mari_time_system.Runtime.Tasks.{default_backoff, commit_stage, fail_attempt}
use mari_time_system.Publication.State.{
  AutomationStatus, BusinessStatus, Case, Verdict, Intent, Portal, VerdictGateReason, ProposeReason,
  policy, gate, ProposeResult, PublishResult,
}
use mari_time_system.Publication.Propose.{private_portal, propose_publication}
use mari_time_system.Publication.Lookups.{set_case_status}
use mari_time_system.Publication.Publish.{publish_case}
use mari_time_system.Publication.Outbox.{reason_text}
use mari_time_system.Publication.ReadBack.{reconcile_publication}
use mari_time_system.Cases.Rows.{ExpectedJob}
use mari_time_system.Cases.Build.{ResultJson, CaseResult, compute_case_result}
use mari_time_system.Cases.Commit.{Version, commit_case_version, record_verification_verdict}
use mari_time_system.Passes.State.{
  World, PassArguments, Services, StepKeys, DispatchResult, DispatchStep, default_case_type,
}

-- The value of the reason of a proposal.
abbrev pub gate_text : VerdictGateReason → String
gate_text VerdictGateReason.verification_missing = "verification_missing"
gate_text VerdictGateReason.verdict_binding_mismatch = "verdict_binding_mismatch"
gate_text VerdictGateReason.no_checked_calculations = "no_checked_calculations"
gate_text VerdictGateReason.result_unresolved = "result_unresolved"
gate_text VerdictGateReason.not_verified = "not_verified"

abbrev pub proposal_text : ProposeReason → String
proposal_text (policy reason) = reason_text reason
proposal_text (gate reason) = gate_text reason

abbrev pub unconfirmed_text : String
unconfirmed_text = "published but not yet confirmed"

abbrev pub at_case : Case → WorkflowStage → DispatchResult → DispatchStep
at_case c stage result = record {
  result = result;
  case_id = some c.id;
  stage = some stage;
  detail = none;
}

abbrev pub deferred_with : Option WorkflowStage → String → DispatchStep
deferred_with stage detail = record {
  result = DispatchResult.deferred;
  case_id = none;
  stage = stage;
  detail = some detail;
}

-- The business status of a case.
abbrev pub set_business : Case → BusinessStatus → Portal ResultJson → Portal ResultJson
set_business c status s = elim (get_row (λ x. x.id) c.id s.cases) [
  | none ↦ s
  | some row ↦ record s {
    cases = save_row (λ x. x.id) (record row { business_status = status }) s.cases;
  }
]

abbrev pub is_fenced : StageOutcome → Bool
is_fenced outcome = elim outcome.status [
  | CommitStatus.fenced ↦ true
  | CommitStatus.committed ↦ false
]

abbrev pub committed_version :
    ℕ
    → ℕ
    → Case
    → CaseResult
    → Portal ResultJson
    → Option Version
    → Result (Version × Portal ResultJson)
committed_version id account c result s (some version) = ok (version, s)
committed_version id account c result s none =
    commit_case_version id account c result s >>= λ done. ok (done.0.version, done.1)

-- `_version_for`
unfoldable pub version_for :
    ℕ → ℕ → Case → CaseResult → Portal ResultJson → Result (Version × Portal ResultJson)
version_for id account c result s = committed_version id account c result s (
    find
      (λ v.
        v.account_id == account && v.case_id == c.id && str_eq v.content_hash result.content_hash)
      s.versions)

module _ (services : Services) (arguments : PassArguments) (keys : StepKeys) where
  abbrev pub fail_claim : TaskClaim → String → DispatchStep → World → DispatchStep × World
  fail_claim claim reason step w = (
    step,
    record w {
      runtime =
          (fail_attempt arguments.account_id claim reason arguments.moment default_backoff
            w.runtime).1;
    },
  )

  abbrev pub commit_claim : TaskClaim → Option WorkflowStage → World → Result (StageOutcome × World)
  commit_claim claim next_stage w = do
    done ←
        commit_stage keys.next_task_id arguments.account_id claim arguments.moment next_stage none
          none w.runtime
    ok (done.0, record w { runtime = done.1 })

  -- The verdict does not complete the case: nothing follows, and the outcome is not looked at.
  abbrev pub stop_unresolved : TaskClaim → Case → World → Result (DispatchStep × World)
  stop_unresolved claim c w = do
    let portal =
        set_case_status c.id AutomationStatus.waiting_for_machine_data
          (set_business c BusinessStatus.unresolved w.portal)
    done ← commit_claim claim none (record w { portal = portal })
    ok (at_case c WorkflowStage.reconcile DispatchResult.unresolved, done.1)

  abbrev pub advance : TaskClaim → Case → World → Result (DispatchStep × World)
  advance claim c w = do
    let portal = set_business c BusinessStatus.variance_present w.portal
    done ← commit_claim claim (some WorkflowStage.publish) (record w { portal = portal })
    ok (
      at_case c WorkflowStage.reconcile
          (if is_fenced done.0 then DispatchResult.fenced else DispatchResult.advanced),
      done.1,
    )

  abbrev pub after_verdict : TaskClaim → Case → Verdict → World → Result (DispatchStep × World)
  after_verdict claim c verdict w =
      if verdict.completes then advance claim c w else stop_unresolved claim c w

  unfoldable pub run_reconcile_stage :
      TaskClaim → Case → ExpectedJob → World → Result (DispatchStep × World)
  unfolding version_for
  run_reconcile_stage claim c job w = do
    result ← compute_case_result services.reading w.sources arguments.account_id job services.hashes
    version ← version_for keys.version_id arguments.account_id c result w.portal
    verdict ←
        record_verification_verdict services.reading w.sources arguments.account_id job
          keys.verdict_id version.0 result version.1
    after_verdict claim c verdict.0
        (record w { portal = set_case_status c.id AutomationStatus.calculated verdict.1 })

  abbrev pub confirm : Intent → PublishResult → Portal ResultJson → Bool × Portal ResultJson
  confirm i published s =
      if published.published
      then (let read =
            reconcile_publication services.platform arguments.account_id i services.outbox_locked
              s in
          (read.0.confirmed, read.1))
      else (false, s)

  abbrev pub published_step : Case → StageOutcome → Bool → DispatchStep
  published_step c outcome confirmed =
      if is_fenced outcome
      then at_case c WorkflowStage.publish DispatchResult.fenced
      else if confirmed
      then at_case c WorkflowStage.publish DispatchResult.completed
      else record (at_case c WorkflowStage.publish DispatchResult.deferred) {
        detail = some unconfirmed_text;
      }

  -- The proposal is ready and its intent was read.
  unfoldable pub publish_intent :
      TaskClaim → Case → Version → World → Intent → Result (DispatchStep × World)
  publish_intent claim c version w i = do
    published ←
        publish_case services.platform keys.publication_id arguments.account_id i version.result
          arguments.moment false services.outbox_locked w.portal
    let confirmed = confirm i published.0 published.1
    done ← commit_claim claim none (record w { portal = confirmed.1 })
    ok (published_step c done.0 confirmed.0, done.1)

  -- `intent is not None` is asserted.
  abbrev pub publish_found :
      TaskClaim → Case → Version → World → Option Intent → Result (DispatchStep × World)
  publish_found claim c version w none = err assertion_error
  publish_found claim c version w (some i) = publish_intent claim c version w i

  abbrev pub refuse_publish : TaskClaim → Case → ProposeReason → World → DispatchStep × World
  refuse_publish claim c reason w =
      fail_claim claim (proposal_text reason)
        (record (at_case c WorkflowStage.publish DispatchResult.deferred) {
          detail = some (proposal_text reason);
        })
        w

  abbrev pub after_proposal :
      TaskClaim → Case → Version → ProposeResult → Option ℕ → World → Result (DispatchStep × World)
  after_proposal claim c version proposed none w = ok (refuse_publish claim c proposed.reason w)
  after_proposal claim c version proposed (some intent_id) w =
      if not proposed.ready
      then ok (refuse_publish claim c proposed.reason w)
      else publish_found claim c version w (get_row (λ i. i.id) intent_id w.portal.intents)

  unfoldable pub run_publish_stage :
      TaskClaim → Case → Version → World → Result (DispatchStep × World)
  unfolding publish_intent
  run_publish_stage claim c version w = do
    proposed ←
        propose_publication services.platform (λ r. r.calculator_version) keys.proposal
          arguments.account_id c version arguments.principal_subject arguments.system_fingerprint
          private_portal default_case_type arguments.moment false w.portal
    after_proposal claim c version proposed.0 proposed.0.intent_id
        (record w { portal = proposed.1 })
