-- ===== src/Passes/Examples/Deferred.antt =====
-- A publish stage whose publication is refused, for
-- packages/pipeline/eastmed_pipeline/reconciliation_dispatch.py.
use mari_time_system.Prelude.{◌≡◌, refl, none, some, [], ◌∷◌, false, pos, ok}
use mari_time_system.Runtime.State.{
  WorkflowStage, TaskStatus, AttemptStatus, Task, Attempt, TaskClaim,
}
use mari_time_system.Runtime.Tasks.{get_task_locked, holds_lease, commit_stage}
use mari_time_system.Publication.State.{OutboxStatus, Intent, Outbox}
use mari_time_system.Publication.Publish.{publish_row, publish_case}
use mari_time_system.Publication.Outbox.{load_outbox}
use mari_time_system.Publication.Propose.{
  private_portal, ready_with, publication_action_key, propose_publication,
}
use mari_time_system.Publication.Lookups.{existing_intent}
use mari_time_system.Cases.Commit.{Version}
use mari_time_system.Cases.Samples.{case_row}
use mari_time_system.Passes.State.{default_case_type, World, DispatchStep}
use mari_time_system.Passes.Execute.{idle_step}
use mari_time_system.Passes.Stages.{publish_intent, run_publish_stage}
use mari_time_system.Passes.Held.{Held}
use mari_time_system.Passes.Settled.{Settles, run_publish_stage-Settles}
use mari_time_system.Passes.Samples.{
  services, arguments, keys, value_or, empty_portal, arrived, claim_for,
}

-- The case was proposed before, and its outbox row was invalidated since.
abbrev pub intent : Intent
intent = record {
  id = 90;
  account_id = 7;
  case_id = 20;
  case_version_id = 300;
  attestation_id = 91;
  action_key = "id:private_publish:id:entries";
  capability = "operations.private_publish";
  destination = private_portal;
  case_revision = 1;
  content_hash = "entries";
  payload_hash = "entries";
}

abbrev pub stopped_row : Outbox
stopped_row = record {
  id = 92;
  account_id = 7;
  intent_id = 90;
  action_key = "id:private_publish:id:entries";
  status = OutboxStatus.invalidated;
  response_class = none;
  content_hash = "entries";
  lease_epoch = 0;
  lease_until = none;
  next_attempt_at = 1000;
  dispatch_attempts = 0;
  provider_reference = none;
  terminal_reason = some "superseded";
}

abbrev pub version : Version
version = record {
  id = 300;
  account_id = 7;
  case_id = 20;
  revision = 1;
  evidence_hash = "some";
  content_hash = "entries";
  result = record {
    result_contract_version = "fleet_result_v1";
    expected_job_id = 3;
    vessel_ref = "x1";
    period_start = 100;
    period_end = 200;
    calculator_version = "recon_calculator_v1";
    variances = [];
  };
}

abbrev pub publish_task : TaskStatus → Task
publish_task status = record {
  id = 200;
  account_id = 7;
  run_id = 1020;
  stage = WorkflowStage.publish;
  status = status;
  priority = pos 0;
  next_attempt_at = 1000;
  lease_epoch = 1;
  lease_until = some 2000;
  attempts = 1;
  max_attempts = 3;
  terminal_reason = none;
}

abbrev pub publish_attempt : Attempt
publish_attempt = record {
  id = 101;
  account_id = 7;
  task_id = 200;
  attempt_no = 1;
  lease_epoch = 1;
  lease_until = 2000;
  status = AttemptStatus.running;
  request_id = none;
  artifact = none;
}

abbrev pub proposed : World
proposed = record arrived {
  runtime = record {
    runs = [];
    tasks = publish_task TaskStatus.leased ∷ [];
    attempts = publish_attempt ∷ [];
  };
  portal = record empty_portal {
    versions = version ∷ [];
    intents = intent ∷ [];
    outbox = stopped_row ∷ [];
  };
}

abbrev pub publish_claim : TaskClaim
publish_claim = claim_for 200 101 WorkflowStage.publish

publish-Held : Held 7 publish_claim proposed.runtime
unfolding get_task_locked holds_lease
publish-Held = record {
  task = publish_task TaskStatus.leased;
  attempt = publish_attempt;
  locked = refl;
  leased = refl;
  attempted = refl;
}

abbrev deferred : DispatchStep × World
deferred =
    value_or (idle_step services arguments (keys 0), arrived)
      (run_publish_stage services arguments (keys 0) publish_claim case_row version proposed)

deferring :
    run_publish_stage services arguments (keys 0) publish_claim case_row version proposed
    ≡ ok deferred
unfolding run_publish_stage publish_intent propose_publication existing_intent publish_case
    load_outbox publish_row commit_stage get_task_locked holds_lease
deferring = refl

proposing :
    propose_publication services.platform
      (λ r. r.calculator_version)
      (keys 0).proposal
      7
      case_row
      version
      "svc"
      "f1"
      private_portal
      default_case_type
      1000
      false
      proposed.portal
    ≡ ok (ready_with 91 90, proposed.portal)
unfolding propose_publication existing_intent publication_action_key
proposing = refl

-- The task is closed though nothing was published.
run_publish_stage-Settles_example :
    Settles services arguments (keys 0) publish_claim case_row version publish-Held.task deferred
run_publish_stage-Settles_example =
    run_publish_stage-Settles services arguments (keys 0) publish_claim case_row version proposed
      deferred.1 deferred.0 publish-Held (ready_with 91 90) proposed.portal 90 proposing refl refl
      deferring
