-- ===== src/Passes/Rule.antt =====
-- A rule for what the stages of packages/pipeline/eastmed_pipeline/reconciliation_dispatch.py return: it is
-- enough to look at a failed attempt and at a commit.
use mari_time_system.Prelude.{
  ℕ, String, ◌≡◌, refl, Option, none, some, false, arith, Returns, Returns-bind, get_row, ◌>>=◌, ok,
  Bool-cases, Option-cases, inl, inr,
}
use mari_time_system.Runtime.State.{WorkflowStage, Store, TaskClaim, StageOutcome}
use mari_time_system.Publication.State.{AutomationStatus, Case, Intent, ProposeResult, Verdict}
use mari_time_system.Cases.Rows.{ExpectedJob}
use mari_time_system.Publication.Propose.{private_portal, propose_publication}
use mari_time_system.Publication.Lookups.{set_case_status}
use mari_time_system.Publication.Publish.{publish_case}
use mari_time_system.Cases.Build.{compute_case_result}
use mari_time_system.Cases.Commit.{Version, record_verification_verdict}
use mari_time_system.Passes.State.{
  World, PassArguments, Services, StepKeys, DispatchResult, DispatchStep, is_idle,
  default_case_type, is_fenced_step,
}
use mari_time_system.Passes.Stages.{
  is_fenced, fail_claim, version_for, commit_claim, after_verdict, run_reconcile_stage, confirm,
  published_step, publish_intent, after_proposal, run_publish_stage,
}
use mari_time_system.Passes.Execute.{run_claimed}
use mari_time_system.Passes.StageRule.{run_claimed_by_stage}

module _ (services : Services) (arguments : PassArguments) (keys : StepKeys) (claim : TaskClaim)
    (P : Store → DispatchStep × World → Type 0)
    (on_fail : (reason : String) (step : DispatchStep) (w : World)
      → step.result ≡ DispatchResult.deferred
      → P w.runtime (fail_claim services arguments keys claim reason step w))
    (on_commit : (next_stage : Option WorkflowStage) (w : World)
        (step : StageOutcome → DispatchStep)
      → ((outcome : StageOutcome) → is_idle (step outcome) ≡ false)
      → ((outcome : StageOutcome)
          → is_fenced outcome ≡ false
          → is_fenced_step (step outcome) ≡ false)
      → Returns (P w.runtime) (
          commit_claim services arguments keys claim next_stage w >>= λ done.
          ok (step done.0, done.1))) where
  after_verdict_rule :
      (c : Case) (verdict : Verdict) (w : World)
      → Returns (P w.runtime) (after_verdict services arguments keys claim c verdict w)
  after_verdict_rule c verdict w = elim (Bool-cases verdict.completes) [
    | inl completes ↦
        rw (completes, Returns)
          (on_commit (some WorkflowStage.publish) _ _ (λ outcome. ground arith)
            (λ outcome e. ground arith))
    | inr open_ ↦ rw (open_, Returns) (on_commit none _ _ (λ outcome. refl) (λ outcome e. refl))
  ]

  run_reconcile_stage_rule :
      (c : Case) (job : ExpectedJob) (w : World)
      → Returns (P w.runtime) (run_reconcile_stage services arguments keys claim c job w)
  unfolding run_reconcile_stage
  run_reconcile_stage_rule c job w =
      Returns-bind (P w.runtime)
        (compute_case_result services.reading w.sources arguments.account_id job services.hashes) _
        (λ result e.
          Returns-bind (P w.runtime)
            (version_for keys.version_id arguments.account_id c result w.portal) _
            (λ version f.
              Returns-bind (P w.runtime)
                (record_verification_verdict services.reading w.sources arguments.account_id job
                  keys.verdict_id version.0 result version.1)
                _
                (λ verdict g. after_verdict_rule c verdict.0 (record w {
                  portal = set_case_status c.id AutomationStatus.calculated verdict.1;
                }))))

  publish_intent_rule :
      (c : Case) (version : Version) (w : World) (i : Intent)
      → Returns (P w.runtime) (publish_intent services arguments keys claim c version w i)
  unfolding publish_intent
  publish_intent_rule c version w i =
      Returns-bind (P w.runtime)
        (publish_case services.platform keys.publication_id arguments.account_id i version.result
          arguments.moment false services.outbox_locked w.portal)
        _
        (λ published e.
          let confirmed = confirm services arguments keys i published.0 published.1 in
          on_commit none (record w { portal = confirmed.1 })
            (λ outcome. published_step services arguments keys c outcome confirmed.0)
            (λ outcome. ground arith) (λ outcome f. ground arith))

  after_proposal_rule :
      (c : Case) (version : Version) (proposed : ProposeResult) (intent_id : Option ℕ) (w : World)
      → Returns
          (P w.runtime)
          (after_proposal services arguments keys claim c version proposed intent_id w)
  after_proposal_rule c version proposed none w = on_fail _ _ _ refl
  after_proposal_rule c version proposed (some intent_id) w = elim (Bool-cases proposed.ready) [
    | inl ready ↦ elim (Option-cases (get_row (λ i. i.id) intent_id w.portal.intents)) [
      | inl missing ↦ rw (ready, missing, Returns) tt
      | inr (i, found) ↦ rw (ready, found, Returns) (publish_intent_rule c version w i)
    ]
    | inr refused ↦ rw (refused, Returns) (on_fail _ _ _ refl)
  ]

  run_publish_stage_rule :
      (c : Case) (version : Version) (w : World)
      → Returns (P w.runtime) (run_publish_stage services arguments keys claim c version w)
  unfolding run_publish_stage
  run_publish_stage_rule c version w =
      Returns-bind (P w.runtime)
        (propose_publication services.platform (λ r. r.calculator_version) keys.proposal
          arguments.account_id c version arguments.principal_subject arguments.system_fingerprint
          private_portal default_case_type arguments.moment false w.portal)
        _
        (λ proposed e.
          after_proposal_rule c version proposed.0 proposed.0.intent_id
            (record w { portal = proposed.1 }))

  pub run_claimed_rule :
      (w : World) → Returns (P w.runtime) (run_claimed services arguments keys (some claim) w)
  run_claimed_rule w =
      run_claimed_by_stage services arguments keys claim (λ w done. P w.runtime done)
        (λ reason step w deferred. on_fail reason step w deferred) run_reconcile_stage_rule
        run_publish_stage_rule w
