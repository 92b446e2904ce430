-- ===== src/Passes/Examples.antt =====
-- A validated case from its scheduling to the denial of its publication, for
-- packages/pipeline/eastmed_pipeline/reconciliation_dispatch.py.
mod Deferred
mod Published
mod Completed
use mari_time_system.Prelude.{
  ℕ, ◌+◌, ◌≡◌, ◌⊎◌, refl, map, String, Option, none, some, List, [], ◌∷◌, Bool, true, false, pos,
  arith, Result, ok, err, All,
}
use mari_time_system.Runtime.State.{
  WorkflowStage, TaskStatus, AttemptStatus, Task, Attempt, Store, TaskClaim,
}
use mari_time_system.Runtime.Queue.{is_due, ranks, insert_ranked, order_by_rank}
use mari_time_system.Runtime.Tasks.{
  reap_task, lease_task, claim_of, claim_task, get_task_locked, holds_lease, commit_stage,
  fail_attempt, create_run, enqueue_task,
}
use mari_time_system.Publication.State.{OutboxStatus, Intent, Outbox, Portal}
use mari_time_system.Publication.Publish.{publish_row, publish_case}
use mari_time_system.Publication.Outbox.{load_outbox}
use mari_time_system.Authority.Attestation.{attest_action}
use mari_time_system.Publication.Propose.{
  private_portal, ready_with, publication_action_key, propose_publication,
}
use mari_time_system.Publication.Lookups.{existing_intent, set_case_status}
use mari_time_system.Calculation.Decimal.{
  digit_count, half_even, half_up, fix, add, sub, mul, strip_zeros, quotient, div, quantize,
}
use mari_time_system.Calculation.Variance.{percentage, variance_of, refusal, fuel_variance}
use mari_time_system.Contract.Fields.{
  is_space, strip_start, strip_end, strip, required_str, timestamp, interval, quantity,
}
use mari_time_system.Contract.Record.{
  observation, observations_from, heading, voyage_plan, daily_report, validate_record,
}
use mari_time_system.Verification.Verifier.{
  independent_delta_percent, check_numbers, verify_reconciled, verify_item, verify_items,
  verify_case_result, finalize_case_status,
}
use mari_time_system.Cases.Rows.{numbered, resolve_current, matching_plans}
use mari_time_system.Cases.Commit.{
  Version, commit_case_version, verify_case, record_verification_verdict,
}
use mari_time_system.Cases.Build.{
  ResultJson, reconcile_group, reconcile_groups, compute_case_result, build_evidence,
}
use mari_time_system.Cases.Groups.{to_quantity, group_keys}
use mari_time_system.Cases.Samples.{reading, sources, burned, plan, job, hashes, platform, case_row}
use mari_time_system.Passes.State.{
  is_fenced_step, World, PassArguments, Services, StepKeys, RunKeys, DispatchResult, DispatchStep,
  PassSummary, workflow_version,
}
use mari_time_system.Passes.Schedule.{start_case_workflow, start_cases, enqueue_ready_cases}
use mari_time_system.Passes.Execute.{idle_step, run_stage, run_claimed, execute_next}
use mari_time_system.Passes.Stages.{
  version_for, run_reconcile_stage, publish_intent, run_publish_stage,
}
use mari_time_system.Passes.Drain.{drain, run_reconciliation_pass}
use mari_time_system.Runtime.Invariant.{TableOk}
use mari_time_system.Passes.Drained.{Drained, run_reconciliation_pass-Drained}
use mari_time_system.Passes.Unfenced.{run_reconciliation_pass-unfenced}
use mari_time_system.Passes.Held.{Held}
use mari_time_system.Passes.Settled.{Settles, run_publish_stage-Settles}
use mari_time_system.Passes.Reconciled.{Reconciled, run_reconcile_stage-Reconciled}
use mari_time_system.Passes.Once.{OneRunEach}
use mari_time_system.Passes.Again.{enqueue_ready_cases-once}
use mari_time_system.Passes.Samples.{
  services, arguments, keys, run_keys, empty_portal, arrived, value_or, claim_for,
}

abbrev scheduled : ℕ × World
scheduled =
    value_or (0, arrived) (enqueue_ready_cases 7 "f1" 1000 workflow_version 1000 run_keys arrived)

scheduling :
    enqueue_ready_cases 7 "f1" 1000 workflow_version 1000 run_keys arrived ≡ ok (1, scheduled.1)
unfolding enqueue_ready_cases start_cases start_case_workflow create_run enqueue_task
scheduling = refl

enqueue_ready_cases-once_example :
    OneRunEach 7 scheduled.1.runtime.runs
    × (enqueue_ready_cases 7 "f2" 500 workflow_version 2000 run_keys scheduled.1
        ≡ ok (0, scheduled.1))
enqueue_ready_cases-once_example =
    enqueue_ready_cases-once 7 "f1" "f2" 1000 500 workflow_version workflow_version 1000 2000
      run_keys run_keys arrived scheduled.1 1 (λ case_id. omega arith) scheduling

abbrev analysed : DispatchStep × World
analysed =
    value_or (idle_step services arguments (keys 0), arrived)
      (execute_next services arguments (keys 0) scheduled.1)

first_step : execute_next services arguments (keys 0) scheduled.1 ≡ ok analysed
unfolding enqueue_ready_cases start_cases start_case_workflow create_run enqueue_task execute_next
    run_claimed run_stage run_reconcile_stage claim_task order_by_rank is_due reap_task ranks
    commit_stage matching_plans validate_record heading daily_report voyage_plan observations_from
    observation required_str timestamp interval quantity strip strip_start strip_end is_space
    resolve_current numbered to_quantity fuel_variance refusal variance_of percentage sub add fix
    half_even div quotient strip_zeros mul quantize half_up digit_count compute_case_result
    reconcile_groups reconcile_group group_keys record_verification_verdict verify_case
    build_evidence verify_case_result verify_items verify_item verify_reconciled check_numbers
    independent_delta_percent finalize_case_status version_for commit_case_version set_case_status
first_step = refl

first_advances : analysed.0.result ≡ DispatchResult.advanced
unfolding enqueue_ready_cases start_cases start_case_workflow create_run enqueue_task execute_next
    run_claimed run_stage run_reconcile_stage claim_task order_by_rank is_due reap_task ranks
    commit_stage matching_plans validate_record heading daily_report voyage_plan observations_from
    observation required_str timestamp interval quantity strip strip_start strip_end is_space
    resolve_current numbered to_quantity fuel_variance refusal variance_of percentage sub add fix
    half_even div quotient strip_zeros mul quantize half_up digit_count compute_case_result
    reconcile_groups reconcile_group group_keys record_verification_verdict verify_case
    build_evidence verify_case_result verify_items verify_item verify_reconciled check_numbers
    independent_delta_percent finalize_case_status version_for commit_case_version set_case_status
first_advances = refl

-- The publication is denied, since no grant stands.
abbrev passed : PassSummary × World
passed =
    value_or (record { scheduled = 0; steps = [] }, arrived)
      (run_reconciliation_pass services arguments run_keys keys 1000 workflow_version 5 arrived)

pass :
    run_reconciliation_pass services arguments run_keys keys 1000 workflow_version 5 arrived
    ≡ ok passed
unfolding run_reconciliation_pass drain run_publish_stage propose_publication attest_action
    fail_attempt enqueue_ready_cases start_cases start_case_workflow create_run enqueue_task
    execute_next run_claimed run_stage run_reconcile_stage claim_task order_by_rank is_due reap_task
    ranks commit_stage matching_plans validate_record heading daily_report voyage_plan
    observations_from observation required_str timestamp interval quantity strip strip_start
    strip_end is_space resolve_current numbered to_quantity fuel_variance refusal variance_of
    percentage sub add fix half_even div quotient strip_zeros mul quantize half_up digit_count
    compute_case_result reconcile_groups reconcile_group group_keys record_verification_verdict
    verify_case build_evidence verify_case_result verify_items verify_item verify_reconciled
    check_numbers independent_delta_percent finalize_case_status version_for commit_case_version
    set_case_status
pass = refl

pass_steps :
    (passed.0.scheduled ≡ 1)
    × (map (λ s. s.detail) passed.0.steps ≡ none ∷ some "missing_policy" ∷ [])
unfolding run_reconciliation_pass drain run_publish_stage enqueue_ready_cases start_cases
    start_case_workflow create_run enqueue_task propose_publication attest_action fail_attempt
    execute_next run_claimed run_stage run_reconcile_stage claim_task order_by_rank is_due reap_task
    ranks commit_stage matching_plans validate_record heading daily_report voyage_plan
    observations_from observation required_str timestamp interval quantity strip strip_start
    strip_end is_space resolve_current numbered to_quantity fuel_variance refusal variance_of
    percentage sub add fix half_even div quotient strip_zeros mul quantize half_up digit_count
    compute_case_result reconcile_groups reconcile_group group_keys record_verification_verdict
    verify_case build_evidence verify_case_result verify_items verify_item verify_reconciled
    check_numbers independent_delta_percent finalize_case_status version_for commit_case_version
    set_case_status
pass_steps = (refl, refl)

run_reconciliation_pass-unfenced_example :
    All (λ step. is_fenced_step step ≡ false) passed.0.steps × TableOk passed.1.runtime.tasks
run_reconciliation_pass-unfenced_example =
    run_reconciliation_pass-unfenced services arguments run_keys keys 1000 workflow_version 5
      arrived passed.1 passed.0 (record { rows = tt; keyed = tt }) pass

run_reconciliation_pass-Drained_example : Drained services arguments 5 passed.0.steps passed.1
run_reconciliation_pass-Drained_example =
    run_reconciliation_pass-Drained services arguments run_keys keys 1000 workflow_version 5 arrived
      passed.1 passed.0 pass

abbrev claim_from : ℕ → World → World
claim_from attempt_id w = record w {
  runtime =
      (value_or (none, w.runtime)
        (claim_task attempt_id 7 1000 300000000 (λ id. false) w.runtime)).1;
}

abbrev reconcile_claim : TaskClaim
reconcile_claim = claim_for 2020 100 WorkflowStage.reconcile

reconciling :
    run_reconcile_stage services arguments
      (keys 0)
      reconcile_claim
      case_row
      job
      (claim_from 100 scheduled.1)
    ≡ ok analysed
unfolding enqueue_ready_cases start_cases start_case_workflow create_run enqueue_task execute_next
    run_claimed run_stage run_reconcile_stage claim_task order_by_rank is_due reap_task ranks
    commit_stage matching_plans validate_record heading daily_report voyage_plan observations_from
    observation required_str timestamp interval quantity strip strip_start strip_end is_space
    resolve_current numbered to_quantity fuel_variance refusal variance_of percentage sub add fix
    half_even div quotient strip_zeros mul quantize half_up digit_count compute_case_result
    reconcile_groups reconcile_group group_keys record_verification_verdict verify_case
    build_evidence verify_case_result verify_items verify_item verify_reconciled check_numbers
    independent_delta_percent finalize_case_status version_for commit_case_version set_case_status
reconciling = refl

run_reconcile_stage-Reconciled_example :
    Reconciled services arguments
      (keys 0)
      reconcile_claim
      case_row
      job
      (claim_from 100 scheduled.1)
      analysed.0
      analysed.1
run_reconcile_stage-Reconciled_example =
    run_reconcile_stage-Reconciled services arguments (keys 0) reconcile_claim case_row job
      (claim_from 100 scheduled.1) analysed.1 analysed.0 reconciling
