-- ===== src/Passes/StageRule.antt =====
-- A rule for what `execute_next` of packages/pipeline/eastmed_pipeline/reconciliation_dispatch.py returns
-- for a claim: it is enough to look at a failed attempt and at the two stages.
use mari_time_system.Prelude.{
  String, ◌≡◌, refl, Option, none, some, Returns, get_row, Bool-cases, Option-cases, inl, inr, ◌==◌,
}
use mari_time_system.Runtime.State.{WorkflowStage, Run, TaskClaim, run_row}
use mari_time_system.Publication.State.{Case}
use mari_time_system.Cases.Rows.{ExpectedJob}
use mari_time_system.Cases.Commit.{Version}
use mari_time_system.Passes.State.{
  World, PassArguments, Services, StepKeys, DispatchResult, DispatchStep,
}
use mari_time_system.Passes.Stages.{fail_claim, run_reconcile_stage, run_publish_stage}
use mari_time_system.Passes.Execute.{
  expected_job_of, latest_version, run_stage, with_job, with_case, with_run, run_claimed,
}

module _ (services : Services) (arguments : PassArguments) (keys : StepKeys) (claim : TaskClaim)
    (P : World → DispatchStep × World → Type 0)
    (on_fail : (reason : String) (step : DispatchStep) (w : World)
      → step.result ≡ DispatchResult.deferred
      → P w (fail_claim services arguments keys claim reason step w))
    (on_reconcile : (c : Case) (job : ExpectedJob) (w : World)
      → Returns (P w) (run_reconcile_stage services arguments keys claim c job w))
    (on_publish : (c : Case) (version : Version) (w : World)
      → Returns (P w) (run_publish_stage services arguments keys claim c version w)) where
  run_stage_rule :
      (c : Case) (job : ExpectedJob) (w : World) (stage : WorkflowStage)
      → Returns (P w) (run_stage services arguments keys claim c job w stage)
  unfolding run_stage
  run_stage_rule c job w WorkflowStage.reconcile = on_reconcile c job w
  run_stage_rule c job w WorkflowStage.publish =
      elim (Option-cases (latest_version arguments.account_id c.id w.portal)) [
        | inl missing ↦ rw (missing, Returns) (on_fail _ _ _ refl)
        | inr (version, found) ↦ rw (found, Returns) (on_publish c version w)
      ]
  run_stage_rule c job w WorkflowStage.calculate = on_fail _ _ _ refl
  run_stage_rule c job w WorkflowStage.verify = on_fail _ _ _ refl
  run_stage_rule c job w WorkflowStage.explain = on_fail _ _ _ refl

  with_job_rule :
      (w : World) (c : Case) (job : Option ExpectedJob)
      → Returns (P w) (with_job services arguments keys claim w c job)
  with_job_rule w c none = on_fail _ _ _ refl
  with_job_rule w c (some job) = run_stage_rule c job w claim.stage

  with_case_rule :
      (w : World) (c : Option Case) → Returns (P w) (with_case services arguments keys claim w c)
  with_case_rule w none = on_fail _ _ _ refl
  with_case_rule w (some c) = with_job_rule w c (expected_job_of arguments.account_id c w)

  with_run_rule :
      (w : World) (run : Option Run) → Returns (P w) (with_run services arguments keys claim w run)
  with_run_rule w none = on_fail _ _ _ refl
  with_run_rule w (some run) = elim (Bool-cases (run.account_id == arguments.account_id)) [
    | inl own ↦
        rw (own, Returns) (with_case_rule w (get_row (λ c. c.id) run.case_id w.portal.cases))
    | inr other ↦ rw (other, Returns) (on_fail _ _ _ refl)
  ]

  pub run_claimed_by_stage :
      (w : World) → Returns (P w) (run_claimed services arguments keys (some claim) w)
  unfolding run_claimed
  run_claimed_by_stage w = with_run_rule w (run_row claim.run_id w.runtime.runs)
