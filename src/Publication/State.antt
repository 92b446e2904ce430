-- ===== src/Publication/State.antt =====
-- The rows that reconciliation_publication.py reads and writes, and what it returns.
use mari_time_system.Prelude.{ℕ, String, Option, List, Bool}
use mari_time_system.Authority.Policy.{DenyReason}
use mari_time_system.Authority.Attestation.{AttestationDecision, AuthorityStore}

pub data OutboxStatus : Type 0 where
  pending claimed dispatched reconciled invalidated effect_unknown : OutboxStatus

pub data OutboxResponseClass : Type 0 where
  accepted delivered effect_confirmed : OutboxResponseClass

pub data AutomationStatus : Type 0 where
  awaiting_arrival received validated reconciled calculated publication_ready published
        verified_complete waiting_for_machine_data recovering unresolved disabled :
      AutomationStatus

pub data BusinessStatus : Type 0 where
  pending reconciled variance_present unresolved superseded : BusinessStatus

-- recon_operational_cases
pub record Case : Type 0 where
  pub id : ℕ
  pub account_id : ℕ
  pub expected_job_id : ℕ
  pub automation_status : AutomationStatus
  pub business_status : BusinessStatus
  pub deadline_at : ℕ

-- recon_case_versions
pub record CaseVersion (Payload : Type 0) : Type 0 where
  pub id : ℕ
  pub account_id : ℕ
  pub case_id : ℕ
  pub revision : ℕ
  pub evidence_hash : String
  pub content_hash : String
  pub result : Payload

-- recon_verification_verdicts
pub record Verdict : Type 0 where
  pub id : ℕ
  pub account_id : ℕ
  pub case_version_id : ℕ
  pub expected_job_id : ℕ
  pub case_revision : ℕ
  pub content_hash : String
  pub evidence_hash : String
  pub calculator_version : String
  pub status : String
  pub checked : ℕ
  pub has_unresolved : Bool
  pub completes : Bool

-- recon_action_intents
pub record Intent : Type 0 where
  pub id : ℕ
  pub account_id : ℕ
  pub case_id : ℕ
  pub case_version_id : ℕ
  pub attestation_id : ℕ
  pub action_key : String
  pub capability : String
  pub destination : String
  pub case_revision : ℕ
  pub content_hash : String
  pub payload_hash : String

-- recon_outbox
pub record Outbox : Type 0 where
  pub id : ℕ
  pub account_id : ℕ
  pub intent_id : ℕ
  pub action_key : String
  pub status : OutboxStatus
  pub response_class : Option OutboxResponseClass
  pub content_hash : String
  pub lease_epoch : ℕ
  pub lease_until : Option ℕ
  pub next_attempt_at : ℕ
  pub dispatch_attempts : ℕ
  pub provider_reference : Option String
  pub terminal_reason : Option String

-- recon_case_publications
pub record Publication (Payload : Type 0) : Type 0 where
  pub id : ℕ
  pub account_id : ℕ
  pub intent_id : ℕ
  pub case_id : ℕ
  pub case_revision : ℕ
  pub destination : String
  pub content_hash : String
  pub result : Payload
  pub published_at : ℕ

-- What the session reads and writes.
pub record Portal (Payload : Type 0) : Type 0 where
  pub authority : AuthorityStore
  pub cases : List Case
  pub versions : List (CaseVersion Payload)
  pub verdicts : List Verdict
  pub intents : List Intent
  pub outbox : List Outbox
  pub publications : List (Publication Payload)

pub data PublicationReason : Type 0 where
  confirmed_ok not_published hash_mismatch wrong_tenant superseded : PublicationReason

pub data VerdictGateReason : Type 0 where
  verification_missing verdict_binding_mismatch no_checked_calculations result_unresolved
        not_verified :
      VerdictGateReason

-- `reason` is a text in the source: the value of one of the two enumerations.
pub data ProposeReason : Type 0 where
  policy : DenyReason → ProposeReason
  gate : VerdictGateReason → ProposeReason

pub record ProposeResult : Type 0 where
  pub ready : Bool
  pub decision : AttestationDecision
  pub reason : ProposeReason
  pub attestation_id : Option ℕ
  pub intent_id : Option ℕ

pub record PublishResult : Type 0 where
  pub published : Bool
  pub reason : DenyReason
  pub publication_id : Option ℕ

pub record PublicationVerdict : Type 0 where
  pub confirmed : Bool
  pub reason : PublicationReason
