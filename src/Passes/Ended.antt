-- ===== src/Passes/Ended.antt =====
-- How a stage of packages/pipeline/eastmed_pipeline/reconciliation_dispatch.py ends.
use mari_time_system.Prelude.{
  ◌≡◌, refl, Option, none, some, false, Returns, Returns-bind, Returns-ok, ◌>>=◌, ok,
}
use mari_time_system.Runtime.State.{WorkflowStage, Store, TaskClaim, StageOutcome}
use mari_time_system.Runtime.Tasks.{commit_stage}
use mari_time_system.Passes.State.{
  World, PassArguments, Services, StepKeys, DispatchStep, is_idle, is_fenced_step,
}
use mari_time_system.Passes.Stages.{is_fenced, commit_claim}
use mari_time_system.Passes.Execute.{run_claimed}
use mari_time_system.Passes.Held.{Held, Commits, commit_stage-Commits}
use mari_time_system.Passes.Rule.{run_claimed_rule}

module _ (services : Services) (arguments : PassArguments) (keys : StepKeys)
    (claim : TaskClaim) where
  abbrev Holder : Store → Type 0
  Holder s = Held arguments.account_id claim s

  -- The step is not idle, and it is fenced only where the claim no longer holds its lease.
  abbrev pub Ended : Store → DispatchStep × World → Type 0
  Ended s ended = (is_idle ended.0 ≡ false) × (Holder s → is_fenced_step ended.0 ≡ false)

  commit-unfenced :
      (next_stage : Option WorkflowStage) (w : World)
      → Returns
          (λ done. Holder w.runtime → is_fenced done.0 ≡ false)
          (commit_claim services arguments keys claim next_stage w)
  commit-unfenced next_stage w =
      Returns-bind (λ done. Holder w.runtime → is_fenced done.0 ≡ false)
        (commit_stage keys.next_task_id arguments.account_id claim arguments.moment next_stage none
          none w.runtime)
        _
        (λ done e held.
          let commits =
            Returns-ok (Commits claim held.task) _
              (commit_stage-Commits keys.next_task_id arguments.account_id claim arguments.moment
                next_stage w.runtime held)
              e in
          rw commits.0 refl)

  -- A step that looks at a commit and at nothing else.
  after_commit :
      (next_stage : Option WorkflowStage) (w : World) (step : StageOutcome → DispatchStep)
      → ((outcome : StageOutcome) → is_idle (step outcome) ≡ false)
      → ((outcome : StageOutcome)
          → is_fenced outcome ≡ false
          → is_fenced_step (step outcome) ≡ false)
      → Returns (Ended w.runtime) (
          commit_claim services arguments keys claim next_stage w >>= λ done.
          ok (step done.0, done.1))
  after_commit next_stage w step busy open_ =
      Returns-bind (Ended w.runtime) (commit_claim services arguments keys claim next_stage w) _
        (λ done e. (
          busy done.0,
          λ held. open_ done.0 (Returns-ok _ _ (commit-unfenced next_stage w) e held),
        ))

  pub run_claimed-Ended :
      (w : World) → Returns (Ended w.runtime) (run_claimed services arguments keys (some claim) w)
  run_claimed-Ended =
      run_claimed_rule services arguments keys claim Ended
        (λ reason step w deferred.
          (rw (deferred, is_idle) refl, λ held. rw (deferred, is_fenced_step) refl))
        after_commit
