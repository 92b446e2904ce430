-- ===== src/Passes/Execute.antt =====
-- `execute_next` of packages/pipeline/eastmed_pipeline/reconciliation_dispatch.py.
use mari_time_system.Prelude.{
  ℕ, Option, none, some, not, ◌&&◌, ◌==◌, if◌then◌else◌, find, get_row, Result, ok, ◌>>=◌,
}
use mari_time_system.Runtime.State.{WorkflowStage, Run, TaskClaim, run_row}
use mari_time_system.Runtime.Tasks.{default_lease, claim_task}
use mari_time_system.Publication.State.{Case, Portal}
use mari_time_system.Cases.Rows.{ExpectedJob}
use mari_time_system.Cases.Build.{ResultJson}
use mari_time_system.Cases.Commit.{Version, prior_version}
use mari_time_system.Passes.State.{
  World, PassArguments, Services, StepKeys, DispatchResult, DispatchStep,
}
use mari_time_system.Passes.Stages.{
  deferred_with, fail_claim, run_reconcile_stage, run_publish_stage,
}

-- `_expected_job`
abbrev pub expected_job_of : ℕ → Case → World → Option ExpectedJob
expected_job_of account c w =
    find (λ j. j.account_id == account && j.id == c.expected_job_id) w.jobs

-- `_latest_version`
abbrev pub latest_version : ℕ → ℕ → Portal ResultJson → Option Version
latest_version account case_id s = prior_version account case_id s.versions

module _ (services : Services) (arguments : PassArguments) (keys : StepKeys) where
  abbrev pub publish_latest :
      TaskClaim → Case → World → Option Version → Result (DispatchStep × World)
  publish_latest claim c w none = ok (
      fail_claim services arguments keys claim "missing_version"
        (deferred_with none "missing_version") w)
  publish_latest claim c w (some version) =
      run_publish_stage services arguments keys claim c version w

  unfoldable pub run_stage :
      TaskClaim → Case → ExpectedJob → World → WorkflowStage → Result (DispatchStep × World)
  unfolding run_reconcile_stage run_publish_stage
  run_stage claim c job w WorkflowStage.reconcile =
      run_reconcile_stage services arguments keys claim c job w
  run_stage claim c job w WorkflowStage.publish =
      publish_latest claim c w (latest_version arguments.account_id c.id w.portal)
  run_stage claim c job w stage = ok (
      fail_claim services arguments keys claim "unknown_stage"
        (deferred_with (some stage) "unknown_stage") w)

  abbrev pub with_job :
      TaskClaim → World → Case → Option ExpectedJob → Result (DispatchStep × World)
  with_job claim w c none = ok (
      fail_claim services arguments keys claim "missing_case" (deferred_with none "missing_case") w)
  with_job claim w c (some job) = run_stage claim c job w claim.stage

  abbrev pub with_case : TaskClaim → World → Option Case → Result (DispatchStep × World)
  with_case claim w none = ok (
      fail_claim services arguments keys claim "missing_case" (deferred_with none "missing_case") w)
  with_case claim w (some c) = with_job claim w c (expected_job_of arguments.account_id c w)

  abbrev pub with_run : TaskClaim → World → Option Run → Result (DispatchStep × World)
  with_run claim w none =
      ok (
        fail_claim services arguments keys claim "missing_run" (deferred_with none "missing_run") w)
  with_run claim w (some run) =
      if not (run.account_id == arguments.account_id)
      then ok (
          fail_claim services arguments keys claim "missing_run" (deferred_with none "missing_run")
            w)
      else with_case claim w (get_row (λ c. c.id) run.case_id w.portal.cases)

  abbrev pub idle_step : DispatchStep
  idle_step = record { result = DispatchResult.idle; case_id = none; stage = none; detail = none }

  unfoldable pub run_claimed : Option TaskClaim → World → Result (DispatchStep × World)
  unfolding run_stage
  run_claimed none w = ok (idle_step, w)
  run_claimed (some claim) w = with_run claim w (run_row claim.run_id w.runtime.runs)

  unfoldable pub execute_next : World → Result (DispatchStep × World)
  unfolding run_claimed
  execute_next w = do
    claimed ←
        claim_task keys.attempt_id arguments.account_id arguments.moment default_lease
          services.task_locked w.runtime
    run_claimed claimed.0 (record w { runtime = claimed.1 })
