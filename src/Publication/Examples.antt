-- ===== src/Publication/Examples.antt =====
-- A case from its verdict to its publication, for reconciliation_publication.py.
use mari_time_system.Prelude.{
  ℕ, ◌≤◌, ◌≡◌, refl, String, some, List, [], ◌∷◌, true, false, ok, arith,
}
use mari_time_system.Authority.Policy.{DenyReason, evaluate_policy}
use mari_time_system.Authority.Attestation.{attest_action}
use mari_time_system.Authority.Dispatch.{authorize_dispatch}
use mari_time_system.Publication.State.{AutomationStatus, Portal, PublishResult}
use mari_time_system.Publication.Propose.{private_portal, ready_with, propose_publication}
use mari_time_system.Publication.Publish.{new_publication, dispatch_outbox, publish_case}
use mari_time_system.Publication.Outbox.{claim_outbox}
use mari_time_system.Publication.ReadBack.{invalidate_pending_publications}
use mari_time_system.Publication.Proposals.{propose_publication-Outcome}
use mari_time_system.Publication.Proposal.{ProposeOutcome}
use mari_time_system.Publication.Effect.{publish_case-Outcome}
use mari_time_system.Publication.Outcome.{PublishOutcome}
use mari_time_system.Publication.Once.{publications_of, PortalOk, IntentOk}
use mari_time_system.Publication.Runs.{PortalOp, publish, reconcile, invalidate, portal_run}
use mari_time_system.Publication.AtMostOnce.{published_at_most_once}
use mari_time_system.Publication.Replay.{propose_publication-replay}
use mari_time_system.Publication.Confirmed.{invalidate_pending_publications-stops}
use mari_time_system.Publication.Samples.{
  plain, version_one, daily_case, first_version, judged_case, drawn, receipt, the_intent,
  pending_row, ready_case, none_locked,
}

proposed :
    propose_publication plain version_one drawn 7
      (daily_case AutomationStatus.calculated)
      first_version
      "svc"
      "f1"
      private_portal
      "daily_reconciliation"
      1000
      false
      judged_case
    ≡ ok (ready_with 41 60, ready_case)
unfolding propose_publication attest_action evaluate_policy
proposed = refl

propose_publication-Outcome_example :
    ProposeOutcome plain version_one drawn 7
      (daily_case AutomationStatus.calculated)
      first_version
      "svc"
      "f1"
      private_portal
      "daily_reconciliation"
      1000
      false
      judged_case
      (ready_with 41 60)
      ready_case
propose_publication-Outcome_example =
    propose_publication-Outcome plain version_one drawn 7 (daily_case AutomationStatus.calculated)
      first_version "svc" "f1" private_portal "daily_reconciliation" 1000 false judged_case
      (ready_with 41 60) ready_case proposed

propose_publication-replay_example :
    propose_publication plain version_one drawn 7
      (daily_case AutomationStatus.calculated)
      first_version
      "other"
      "f2"
      "elsewhere"
      "weekly"
      9000
      true
      ready_case
    ≡ ok (ready_with 41 60, ready_case)
propose_publication-replay_example =
    propose_publication-replay plain version_one 7 (daily_case AutomationStatus.calculated)
      first_version drawn drawn "svc" "other" "f1" "f2" private_portal "elsewhere"
      "daily_reconciliation" "weekly" 1000 9000 false true judged_case (ready_with 41 60) ready_case
      proposed refl

abbrev published_answer : PublishResult
published_answer = record {
  published = true;
  reason = DenyReason.no_objection;
  publication_id = some 80;
}

abbrev published_case : Portal String
unfolding claim_outbox dispatch_outbox new_publication
published_case = record ready_case {
  authority = record ready_case.authority {
    attestations = record receipt { dispatched_at = some 2000 } ∷ [];
  };
  cases = daily_case AutomationStatus.published ∷ [];
  outbox = dispatch_outbox plain 80 (claim_outbox 2000 pending_row) ∷ [];
  publications = new_publication plain 80 7 the_intent "body" 2000 ∷ [];
}

published :
    publish_case plain 80 7 the_intent "body" 2000 false none_locked ready_case
    ≡ ok (published_answer, published_case)
unfolding publish_case authorize_dispatch published_case
published = refl

publish_case-Outcome_example :
    PublishOutcome plain 80 7 the_intent "body" 2000 false none_locked ready_case published_answer
      published_case
publish_case-Outcome_example =
    publish_case-Outcome plain 80 7 the_intent "body" 2000 false none_locked ready_case
      published_answer published_case published

invalidate_pending_publications-stops_example :
    (r : PublishResult) × (publish_case plain 80 7 the_intent "body" 2000 false none_locked
        (invalidate_pending_publications 7 3 2 ready_case).1
      ≡ ok (r, (invalidate_pending_publications 7 3 2 ready_case).1))
    × (r.published ≡ false)
invalidate_pending_publications-stops_example =
    invalidate_pending_publications-stops plain 7 3 2 the_intent ready_case refl refl (omega arith)
      80 "body" 2000 false none_locked

intent_ok :
    (account intent_id : ℕ) → IntentOk {Payload = String} account intent_id (pending_row ∷ []) []
intent_ok account intent_id = record { one_effect = ground arith; backed = omega arith }

ready-PortalOk : PortalOk ready_case
ready-PortalOk = record { keyed = (refl, tt); intents_ok = intent_ok }

-- Two workers publish the same intent, and it is read back.
abbrev calls : List (PortalOp String)
calls =
    publish 80 7 the_intent "body" 2000 false none_locked
    ∷ publish 81 7 the_intent "body" 2100 false none_locked
    ∷ reconcile 7 the_intent none_locked
    ∷ invalidate 7 3 2
    ∷ []

published_at_most_once_example :
    publications_of 7 60 (portal_run plain version_one calls ready_case) ≤ 1
published_at_most_once_example =
    published_at_most_once plain version_one 7 60 calls ready_case ready-PortalOk
