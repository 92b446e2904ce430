-- ===== src/Passes/Examples/Completed.antt =====
-- A case that a standing grant lets through, from its scheduling to its confirmed publication, for
-- packages/pipeline/eastmed_pipeline/reconciliation_dispatch.py.
use mari_time_system.Prelude.{ok, ◌≡◌, refl, map, [], ◌∷◌, false}
use mari_time_system.Runtime.Queue.{is_due, ranks, order_by_rank}
use mari_time_system.Runtime.Tasks.{
  reap_task, claim_task, get_task_locked, holds_lease, commit_stage, fail_attempt, create_run,
  enqueue_task,
}
use mari_time_system.Publication.State.{AutomationStatus}
use mari_time_system.Publication.ReadBack.{read_back, reconcile_publication, mark_confirmed}
use mari_time_system.Publication.Publish.{
  existing_publication, advance_case, new_publication, insert_publication, dispatch_outbox,
  write_publication, dispatch_claimed, publish_row, publish_case,
}
use mari_time_system.Publication.Outbox.{load_outbox, claim_outbox}
use mari_time_system.Authority.Attestation.{attest_action}
use mari_time_system.Publication.Propose.{
  publication_action_key, propose_publication, verdict_gate_reason, publication_request, new_intent,
  new_outbox, commit_intent, propose_attested, propose_judged,
}
use mari_time_system.Publication.Lookups.{
  existing_intent, set_case_status, highest, current_revision, load_verdict, evidence_from_verdict,
}
use mari_time_system.Calculation.Decimal.{
  digit_count, half_even, half_up, fix, add, sub, mul, strip_zeros, quotient, div, quantize,
}
use mari_time_system.Calculation.Variance.{percentage, variance_of, refusal, fuel_variance}
use mari_time_system.Contract.Fields.{
  is_space, strip_start, strip_end, strip, required_str, timestamp, interval, quantity,
}
use mari_time_system.Contract.Record.{
  observation, observations_from, heading, voyage_plan, daily_report, validate_record,
}
use mari_time_system.Verification.Verifier.{
  independent_delta_percent, check_numbers, verify_reconciled, verify_item, verify_items,
  verify_case_result, finalize_case_status,
}
use mari_time_system.Cases.Rows.{numbered, resolve_current, matching_plans}
use mari_time_system.Cases.Commit.{commit_case_version, verify_case, record_verification_verdict}
use mari_time_system.Cases.Build.{
  reconcile_group, reconcile_groups, compute_case_result, build_evidence,
}
use mari_time_system.Cases.Groups.{to_quantity, group_keys}
use mari_time_system.Passes.State.{
  World, DispatchResult, PassSummary, completed_of, workflow_version,
}
use mari_time_system.Passes.Schedule.{
  start_case_workflow, start_cases, enqueue_ready_cases, has_pending_work,
}
use mari_time_system.Passes.Execute.{run_stage, run_claimed, execute_next}
use mari_time_system.Passes.Stages.{
  version_for, run_reconcile_stage, publish_intent, run_publish_stage,
}
use mari_time_system.Passes.Appends.{Appends}
use mari_time_system.Passes.Appended.{run_reconciliation_pass-Appends}
use mari_time_system.Passes.Drain.{drain, run_reconciliation_pass}
use mari_time_system.Authority.Policy.{evaluate_policy}
use mari_time_system.Authority.Attestation.{
  resolve_principal, highest_revision, resolve_grant, principal_view, record_attestation,
  attest_resolved,
}
use mari_time_system.Authority.Dispatch.{
  find_attestation, live_grant, recheck_grant, recheck, authorize_dispatch,
}
use mari_time_system.Publication.Samples.{terms, publisher}
use mari_time_system.Passes.Samples.{
  services, arguments, keys, run_keys, value_or, empty_portal, arrived,
}

abbrev granted : World
granted = record arrived {
  portal = record empty_portal {
    authority = record {
      principals = publisher ∷ [];
      grants = record { id = 31; account_id = 7; terms = terms } ∷ [];
      attestations = [];
    };
  };
}

abbrev passed : PassSummary × World
passed =
    value_or (record { scheduled = 0; steps = [] }, granted)
      (run_reconciliation_pass services arguments run_keys keys 1000 workflow_version 5 granted)

-- The case is scheduled, analysed and published, and its publication is confirmed.
completes :
    (map (λ s. s.result) passed.0.steps ≡ DispatchResult.advanced ∷ DispatchResult.completed ∷ [])
    × (map (λ c. c.automation_status) passed.1.portal.cases
        ≡ AutomationStatus.verified_complete ∷ [])
    × (has_pending_work 7 passed.1.runtime ≡ false)
unfolding run_reconciliation_pass drain run_publish_stage propose_publication attest_action
    fail_attempt enqueue_ready_cases start_cases start_case_workflow create_run enqueue_task
    execute_next run_claimed run_stage run_reconcile_stage claim_task order_by_rank is_due reap_task
    ranks commit_stage matching_plans validate_record heading daily_report voyage_plan
    observations_from observation required_str timestamp interval quantity strip strip_start
    strip_end is_space resolve_current numbered to_quantity fuel_variance refusal variance_of
    percentage sub add fix half_even div quotient strip_zeros mul quantize half_up digit_count
    compute_case_result reconcile_groups reconcile_group group_keys record_verification_verdict
    verify_case build_evidence verify_case_result verify_items verify_item verify_reconciled
    check_numbers independent_delta_percent finalize_case_status version_for commit_case_version
    set_case_status evaluate_policy resolve_principal highest_revision resolve_grant principal_view
    record_attestation attest_resolved find_attestation live_grant recheck_grant recheck
    authorize_dispatch highest current_revision existing_intent load_verdict evidence_from_verdict
    publication_action_key verdict_gate_reason publication_request new_intent new_outbox
    commit_intent propose_attested propose_judged load_outbox existing_publication advance_case
    claim_outbox new_publication insert_publication dispatch_outbox write_publication
    dispatch_claimed publish_row publish_case publish_intent read_back reconcile_publication
    mark_confirmed has_pending_work get_task_locked holds_lease
completes = (refl, refl, refl)

pass :
    run_reconciliation_pass services arguments run_keys keys 1000 workflow_version 5 granted
    ≡ ok passed
unfolding run_reconciliation_pass drain run_publish_stage propose_publication attest_action
    fail_attempt enqueue_ready_cases start_cases start_case_workflow create_run enqueue_task
    execute_next run_claimed run_stage run_reconcile_stage claim_task order_by_rank is_due reap_task
    ranks commit_stage matching_plans validate_record heading daily_report voyage_plan
    observations_from observation required_str timestamp interval quantity strip strip_start
    strip_end is_space resolve_current numbered to_quantity fuel_variance refusal variance_of
    percentage sub add fix half_even div quotient strip_zeros mul quantize half_up digit_count
    compute_case_result reconcile_groups reconcile_group group_keys record_verification_verdict
    verify_case build_evidence verify_case_result verify_items verify_item verify_reconciled
    check_numbers independent_delta_percent finalize_case_status version_for commit_case_version
    set_case_status evaluate_policy resolve_principal highest_revision resolve_grant principal_view
    record_attestation attest_resolved find_attestation live_grant recheck_grant recheck
    authorize_dispatch highest current_revision existing_intent load_verdict evidence_from_verdict
    publication_action_key verdict_gate_reason publication_request new_intent new_outbox
    commit_intent propose_attested propose_judged load_outbox existing_publication advance_case
    claim_outbox new_publication insert_publication dispatch_outbox write_publication
    dispatch_claimed publish_row publish_case publish_intent read_back reconcile_publication
    mark_confirmed has_pending_work get_task_locked holds_lease
pass = refl

run_reconciliation_pass-Appends_example :
    Appends 7 (completed_of passed.0) 5 granted.portal passed.1.portal
run_reconciliation_pass-Appends_example =
    run_reconciliation_pass-Appends services arguments run_keys keys 1000 workflow_version 5 granted
      passed.1 passed.0 pass
