-- ===== src/Control/Registry.antt =====
-- The registry of packages/shared/eastmed_shared/reconciliation/runbooks.py.
use mari_time_system.Prelude.{ℕ, String, str_eq, Option, none, List, [], ◌∷◌, find}

pub data RunbookPrecondition : Type 0 where
  healthy_heartbeat_current_epoch lease_expired missing_heartbeat_unhealthy
        provider_unavailable_alternate_qualified queue_loss_tasks_durable objective_regression
        compromised_evidence_or_revoked_rights :
      RunbookPrecondition

pub data RunbookApiCall : Type 0 where
  renew_lease claim_expired restart_process select_alternate_provider scan_due_tasks
        restore_previous_package block_source invalidate_dependent_cases :
      RunbookApiCall

pub data RunbookRejection : Type 0 where
  unknown_runbook precondition_not_met api_call_not_allowed blast_radius_exceeded : RunbookRejection

abbrev pub precondition_index : RunbookPrecondition → ℕ
precondition_index RunbookPrecondition.healthy_heartbeat_current_epoch = 0
precondition_index RunbookPrecondition.lease_expired = 1
precondition_index RunbookPrecondition.missing_heartbeat_unhealthy = 2
precondition_index RunbookPrecondition.provider_unavailable_alternate_qualified = 3
precondition_index RunbookPrecondition.queue_loss_tasks_durable = 4
precondition_index RunbookPrecondition.objective_regression = 5
precondition_index RunbookPrecondition.compromised_evidence_or_revoked_rights = 6

abbrev pub call_index : RunbookApiCall → ℕ
call_index RunbookApiCall.renew_lease = 0
call_index RunbookApiCall.claim_expired = 1
call_index RunbookApiCall.restart_process = 2
call_index RunbookApiCall.select_alternate_provider = 3
call_index RunbookApiCall.scan_due_tasks = 4
call_index RunbookApiCall.restore_previous_package = 5
call_index RunbookApiCall.block_source = 6
call_index RunbookApiCall.invalidate_dependent_cases = 7

-- The texts that tell an operator about the runbook are left out.
pub record RunbookSpec : Type 0 where
  pub runbook_id : String
  pub precondition : RunbookPrecondition
  pub max_blast_radius : ℕ
  pub allowed_api_calls : List RunbookApiCall
  pub rollback_runbook_id : Option String

abbrev pub spec_of : String → RunbookPrecondition → ℕ → List RunbookApiCall → RunbookSpec
spec_of id precondition radius calls = record {
  runbook_id = id;
  precondition = precondition;
  max_blast_radius = radius;
  allowed_api_calls = calls;
  rollback_runbook_id = none;
}

abbrev pub runbook_registry : List RunbookSpec
runbook_registry =
    spec_of "renew_task_lease" RunbookPrecondition.healthy_heartbeat_current_epoch 1
      (RunbookApiCall.renew_lease ∷ [])
    ∷ spec_of "recover_expired_task" RunbookPrecondition.lease_expired 1
        (RunbookApiCall.claim_expired ∷ [])
    ∷ spec_of "restart_worker" RunbookPrecondition.missing_heartbeat_unhealthy 1
        (RunbookApiCall.restart_process ∷ [])
    ∷ spec_of "failover_model" RunbookPrecondition.provider_unavailable_alternate_qualified 1
        (RunbookApiCall.select_alternate_provider ∷ [])
    ∷ spec_of "rebuild_wakeups" RunbookPrecondition.queue_loss_tasks_durable 100000
        (RunbookApiCall.scan_due_tasks ∷ [])
    ∷ spec_of "rollback_canary" RunbookPrecondition.objective_regression 100000
        (RunbookApiCall.restore_previous_package ∷ [])
    ∷ spec_of "quarantine_source" RunbookPrecondition.compromised_evidence_or_revoked_rights 100000
        (RunbookApiCall.block_source ∷ RunbookApiCall.invalidate_dependent_cases ∷ [])
    ∷ []

-- `RUNBOOK_REGISTRY.get(runbook_id)`: a spec is registered under its own id.
abbrev pub registered : String → Option RunbookSpec
registered id = find (λ spec. str_eq spec.runbook_id id) runbook_registry
