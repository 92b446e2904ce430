-- ===== src/Publication/Samples.antt =====
-- The rows of a case that is published, for reconciliation_publication.py.
use mari_time_system.Prelude.{ℕ, String, none, some, [], ◌∷◌, Bool, true, false}
use mari_time_system.Authority.Policy.{DenyReason, GrantView}
use mari_time_system.Authority.Attestation.{AttestationDecision, Principal, Attestation, Platform}
use mari_time_system.Publication.State.{
  OutboxStatus, AutomationStatus, BusinessStatus, Case, CaseVersion, Verdict, Intent, Outbox,
  Portal,
}
use mari_time_system.Publication.Propose.{ProposalKeys}

-- A payload is a text that hashes to itself, and every text spells the UUID 3.
abbrev pub plain : Platform String
plain = record {
  canonical_payload_hash = λ payload. payload;
  uuid_text = λ id. "acme";
  parse_uuid = λ text. some 3;
}

abbrev pub version_one : String → String
version_one result = "calc1"

abbrev pub terms : GrantView
terms = record {
  policy_id = "p1";
  policy_revision = 4;
  capability = "operations.private_publish";
  allowed_case_types = "daily_reconciliation" ∷ [];
  allowed_destinations = "tenant_private_portal" ∷ [];
  external_messages = false;
  financial_commitments = false;
  required_evidence = "required_inputs_complete" ∷ "accepted_facts" ∷ [];
  qualified_fingerprints = "f1" ∷ [];
  attestation_ttl_seconds = 60;
  signing_key_id = "k1";
  valid_from = 100;
  valid_to = 5000;
  active = true;
}

abbrev pub publisher : Principal
publisher = record {
  id = 21;
  account_id = 7;
  subject = "svc";
  allowed_scopes = "operations.private_publish" ∷ [];
  deployment_fingerprint = "f1";
  active = true;
}

abbrev pub daily_case : AutomationStatus → Case
daily_case status = record {
  id = 3;
  account_id = 7;
  expected_job_id = 8;
  automation_status = status;
  business_status = BusinessStatus.pending;
  deadline_at = 900;
}

abbrev pub first_version : CaseVersion String
first_version = record {
  id = 30;
  account_id = 7;
  case_id = 3;
  revision = 1;
  evidence_hash = "e1";
  content_hash = "body";
  result = "body";
}

abbrev pub good_verdict : Verdict
good_verdict = record {
  id = 50;
  account_id = 7;
  case_version_id = 30;
  expected_job_id = 8;
  case_revision = 1;
  content_hash = "body";
  evidence_hash = "e1";
  calculator_version = "calc1";
  status = "verified";
  checked = 4;
  has_unresolved = false;
  completes = true;
}

abbrev pub judged_case : Portal String
judged_case = record {
  authority = record {
    principals = publisher ∷ [];
    grants = record { id = 31; account_id = 7; terms = terms } ∷ [];
    attestations = [];
  };
  cases = daily_case AutomationStatus.calculated ∷ [];
  versions = first_version ∷ [];
  verdicts = good_verdict ∷ [];
  intents = [];
  outbox = [];
  publications = [];
}

abbrev pub drawn : ProposalKeys
drawn = record { attestation_id = 41; intent_id = 60; outbox_id = 70 }

abbrev pub receipt : Attestation
receipt = record {
  id = 41;
  account_id = 7;
  grant_id = some 31;
  principal_id = some 21;
  action_key = "acme:private_publish:acme:body";
  capability = "operations.private_publish";
  case_id = 3;
  case_revision = 1;
  destination = "tenant_private_portal";
  evidence_hash = "e1";
  payload_hash = "body";
  policy_id = "p1";
  policy_revision = 4;
  system_fingerprint = "f1";
  signing_key_id = "k1";
  decision = AttestationDecision.allow;
  reason = DenyReason.no_objection;
  expires_at = some 60001000;
  dispatched_at = none;
}

abbrev pub the_intent : Intent
the_intent = record {
  id = 60;
  account_id = 7;
  case_id = 3;
  case_version_id = 30;
  attestation_id = 41;
  action_key = "acme:private_publish:acme:body";
  capability = "operations.private_publish";
  destination = "tenant_private_portal";
  case_revision = 1;
  content_hash = "body";
  payload_hash = "body";
}

abbrev pub pending_row : Outbox
pending_row = record {
  id = 70;
  account_id = 7;
  intent_id = 60;
  action_key = "acme:private_publish:acme:body";
  status = OutboxStatus.pending;
  response_class = none;
  content_hash = "body";
  lease_epoch = 0;
  lease_until = none;
  next_attempt_at = 1000;
  dispatch_attempts = 0;
  provider_reference = none;
  terminal_reason = none;
}

abbrev pub ready_case : Portal String
ready_case = record judged_case {
  authority = record judged_case.authority { attestations = receipt ∷ [] };
  cases = daily_case AutomationStatus.publication_ready ∷ [];
  intents = the_intent ∷ [];
  outbox = pending_row ∷ [];
}

abbrev pub none_locked : ℕ → Bool
none_locked id = false
