-- ===== src/Passes/Examples/Published.antt =====
-- A publish stage whose publication is confirmed, for
-- packages/pipeline/eastmed_pipeline/reconciliation_dispatch.py.
use mari_time_system.Prelude.{◌≡◌, refl, none, some, [], ◌∷◌, ok}
use mari_time_system.Runtime.Tasks.{get_task_locked, holds_lease, commit_stage}
use mari_time_system.Authority.Policy.{DenyReason}
use mari_time_system.Authority.Attestation.{AttestationDecision, Attestation}
use mari_time_system.Authority.Dispatch.{
  find_attestation, live_grant, recheck_grant, recheck, authorize_dispatch,
}
use mari_time_system.Publication.State.{OutboxStatus}
use mari_time_system.Publication.Publish.{
  existing_publication, advance_case, new_publication, insert_publication, dispatch_outbox,
  write_publication, dispatch_claimed, publish_row, publish_case,
}
use mari_time_system.Publication.Outbox.{load_outbox, claim_outbox}
use mari_time_system.Publication.ReadBack.{read_back, reconcile_publication, mark_confirmed}
use mari_time_system.Publication.Propose.{
  private_portal, publication_action_key, propose_publication,
}
use mari_time_system.Publication.Lookups.{
  existing_intent, highest, current_revision, set_case_status,
}
use mari_time_system.Publication.Samples.{terms, publisher}
use mari_time_system.Cases.Samples.{case_row}
use mari_time_system.Passes.State.{World, DispatchResult, DispatchStep}
use mari_time_system.Passes.Execute.{idle_step}
use mari_time_system.Passes.Stages.{publish_intent, run_publish_stage}
use mari_time_system.Passes.Completed.{Completion, run_publish_stage-Completion}
use mari_time_system.Passes.Samples.{services, arguments, keys, value_or, arrived}
use mari_time_system.Passes.Examples.Deferred.{stopped_row, version, proposed, publish_claim}

abbrev receipt : Attestation
receipt = record {
  id = 91;
  account_id = 7;
  grant_id = some 31;
  principal_id = some 21;
  action_key = "id:private_publish:id:entries";
  capability = "operations.private_publish";
  case_id = 20;
  case_revision = 1;
  destination = private_portal;
  evidence_hash = "some";
  payload_hash = "entries";
  policy_id = "p1";
  policy_revision = 4;
  system_fingerprint = "f1";
  signing_key_id = "k1";
  decision = AttestationDecision.allow;
  reason = DenyReason.no_objection;
  expires_at = some 60001000;
  dispatched_at = none;
}

-- The case was proposed before, and its outbox row is pending.
abbrev waiting : World
waiting = record proposed {
  portal = record proposed.portal {
    authority = record {
      principals = publisher ∷ [];
      grants = record { id = 31; account_id = 7; terms = terms } ∷ [];
      attestations = receipt ∷ [];
    };
    outbox = record stopped_row { status = OutboxStatus.pending; terminal_reason = none } ∷ [];
  };
}

abbrev published : DispatchStep × World
published =
    value_or (idle_step services arguments (keys 0), arrived)
      (run_publish_stage services arguments (keys 0) publish_claim case_row version waiting)

publishing :
    run_publish_stage services arguments (keys 0) publish_claim case_row version waiting
    ≡ ok published
unfolding run_publish_stage publish_intent propose_publication existing_intent publish_case
    load_outbox publish_row commit_stage get_task_locked holds_lease authorize_dispatch
publishing = refl

publishing_completes : published.0.result ≡ DispatchResult.completed
unfolding run_publish_stage publish_intent propose_publication existing_intent
    publication_action_key publish_case load_outbox publish_row commit_stage get_task_locked
    holds_lease find_attestation live_grant recheck_grant recheck authorize_dispatch highest
    current_revision existing_publication advance_case claim_outbox new_publication
    insert_publication dispatch_outbox write_publication dispatch_claimed read_back
    reconcile_publication mark_confirmed set_case_status
publishing_completes = refl

run_publish_stage-Completion_example :
    Completion services arguments
      (keys 0)
      publish_claim
      case_row
      version
      waiting.portal
      published.1.portal
run_publish_stage-Completion_example =
    run_publish_stage-Completion services arguments (keys 0) publish_claim case_row version waiting
      published.1 published.0 publishing publishing_completes
