-- ===== src/Publication/Propose.antt =====
-- `propose_publication` of reconciliation_publication.py, and the gate on the verdict.
use mari_time_system.Prelude.{
  ℕ, String, str_append, str_eq, Option, none, some, List, [], ◌∷◌, ◌++◌, Bool, true, false, not,
  ◌&&◌, ◌||◌, ◌==◌, if◌then◌else◌, any, is_some, get_row, Result, ok, err, integrity_error, ◌>>=◌,
}
use mari_time_system.Authority.Policy.{DenyReason, ActionRequest}
use mari_time_system.Authority.Attestation.{
  AttestationDecision, is_allow, Attestation, Platform, attest_action,
}
use mari_time_system.Publication.State.{
  OutboxStatus, AutomationStatus, Case, CaseVersion, Verdict, Intent, Outbox, Portal,
  VerdictGateReason, policy, gate, ProposeResult,
}
use mari_time_system.Publication.Lookups.{
  existing_intent, load_verdict, evidence_from_verdict, set_case_status,
}

abbrev pub capability : String
capability = "operations.private_publish"

abbrev pub private_portal : String
private_portal = "tenant_private_portal"

-- `_gate_denied`
abbrev pub gate_denied : VerdictGateReason → ProposeResult
gate_denied reason = record {
  ready = false;
  decision = AttestationDecision.deny;
  reason = gate reason;
  attestation_id = none;
  intent_id = none;
}

abbrev pub ready_with : ℕ → ℕ → ProposeResult
ready_with attestation_id intent_id = record {
  ready = true;
  decision = AttestationDecision.allow;
  reason = policy DenyReason.no_objection;
  attestation_id = some attestation_id;
  intent_id = some intent_id;
}

-- The keys that the inserts of a proposal draw.
pub record ProposalKeys : Type 0 where
  pub attestation_id : ℕ
  pub intent_id : ℕ
  pub outbox_id : ℕ

module _ {Payload : Type 0} (platform : Platform Payload)
    (calculator_version : Payload → String) where
  -- `publication_action_key`
  unfoldable pub publication_action_key : ℕ → ℕ → String → String
  publication_action_key account case_id content_hash = str_append (platform.uuid_text account) (
      str_append ":private_publish:"
        (str_append (platform.uuid_text case_id) (str_append ":" content_hash)))

  -- `_verdict_gate_reason`; `calculator_version` reads the version that the result names.
  unfoldable pub verdict_gate_reason :
      Verdict → Case → CaseVersion Payload → Option VerdictGateReason
  verdict_gate_reason v c version =
      if not (str_eq v.content_hash version.content_hash)
        || (not (str_eq v.evidence_hash version.evidence_hash)
            || (not (v.case_revision == version.revision)
                || (not (v.expected_job_id == c.expected_job_id)
                    || not (str_eq v.calculator_version (calculator_version version.result)))))
      then some VerdictGateReason.verdict_binding_mismatch
      else if v.checked == 0
      then some VerdictGateReason.no_checked_calculations
      else if v.has_unresolved
      then some VerdictGateReason.result_unresolved
      else if not (str_eq v.status "verified") || not v.completes
      then some VerdictGateReason.not_verified
      else none

  unfoldable pub publication_request :
      ℕ
      → Case
      → CaseVersion Payload
      → String
      → String
      → String
      → String
      → List String
      → ActionRequest Payload
  unfolding publication_action_key
  publication_request account c version subject fingerprint destination case_type evidence =
      record {
        tenant_id = platform.uuid_text account;
        principal_subject = subject;
        capability = capability;
        case_id = platform.uuid_text c.id;
        case_revision = version.revision;
        action_key = publication_action_key account c.id version.content_hash;
        destination = destination;
        case_type = case_type;
        evidence_hash = version.evidence_hash;
        provided_evidence = evidence;
        system_fingerprint = fingerprint;
        payload = version.result;
        requires_external = false;
        requires_financial = false;
      }

  unfoldable pub new_intent :
      ℕ → ℕ → Case → CaseVersion Payload → String → String → Attestation → Intent
  new_intent id account c version key destination a = record {
    id = id;
    account_id = account;
    case_id = c.id;
    case_version_id = version.id;
    attestation_id = a.id;
    action_key = key;
    capability = capability;
    destination = destination;
    case_revision = version.revision;
    content_hash = version.content_hash;
    payload_hash = a.payload_hash;
  }

  unfoldable pub new_outbox : ℕ → ℕ → Intent → ℕ → Outbox
  new_outbox id account i moment = record {
    id = id;
    account_id = account;
    intent_id = i.id;
    action_key = i.action_key;
    status = OutboxStatus.pending;
    response_class = none;
    content_hash = i.content_hash;
    lease_epoch = 0;
    lease_until = none;
    next_attempt_at = moment;
    dispatch_attempts = 0;
    provider_reference = none;
    terminal_reason = none;
  }

  -- The intent and its outbox row are committed together; a taken key is refused, and so are a
  -- second intent of one action and a second outbox row of one intent.
  unfoldable pub commit_intent : Intent → Outbox → Portal Payload → Result (Portal Payload)
  commit_intent i o s =
      if is_some (get_row (λ x. x.id) i.id s.intents)
        || (is_some (get_row (λ x. x.id) o.id s.outbox)
            || (any (λ x. x.account_id == i.account_id && str_eq x.action_key i.action_key)
                  s.intents
                || any (λ x. x.account_id == o.account_id && x.intent_id == o.intent_id) s.outbox))
      then err integrity_error
      else ok (record s { intents = s.intents ++ i ∷ []; outbox = s.outbox ++ o ∷ [] })

  -- After the attestation was recorded.
  unfoldable pub propose_attested :
      ProposalKeys
      → ℕ
      → Case
      → CaseVersion Payload
      → String
      → ℕ
      → Attestation
      → Portal Payload
      → Result (ProposeResult × Portal Payload)
  unfolding new_intent new_outbox commit_intent set_case_status publication_action_key
  propose_attested keys account c version destination moment a s =
      let i =
        new_intent keys.intent_id account c version
          (publication_action_key account c.id version.content_hash) destination a in
      if not (is_allow a.decision)
      then ok (
        record {
          ready = false;
          decision = a.decision;
          reason = policy a.reason;
          attestation_id = some a.id;
          intent_id = none;
        },
        s,
      )
      else (do
        s' ← commit_intent i (new_outbox keys.outbox_id account i moment) s
        ok (
          ready_with a.id keys.intent_id,
          set_case_status c.id AutomationStatus.publication_ready s',
        ))

  -- With the verdict of the version, if there is one.
  unfoldable pub propose_judged :
      ProposalKeys
      → ℕ
      → Case
      → CaseVersion Payload
      → String
      → String
      → String
      → String
      → ℕ
      → Bool
      → Option Verdict
      → Portal Payload
      → Result (ProposeResult × Portal Payload)
  unfolding verdict_gate_reason publication_request evidence_from_verdict propose_attested
  propose_judged keys account c version subject fingerprint destination case_type moment stop none
        s =
      ok (gate_denied VerdictGateReason.verification_missing, s)
  propose_judged keys account c version subject fingerprint destination case_type moment stop
        (some v) s =
      elim (verdict_gate_reason v c version) [
        | some reason ↦ ok (gate_denied reason, s)
        | none ↦ do
          attested ←
              attest_action platform keys.attestation_id account
                (publication_request account c version subject fingerprint destination case_type
                  (evidence_from_verdict v))
                moment stop s.authority
          propose_attested keys account c version destination moment attested.0
              (record s { authority = attested.1 })
      ]

  unfoldable pub propose_publication :
      ProposalKeys
      → ℕ
      → Case
      → CaseVersion Payload
      → String
      → String
      → String
      → String
      → ℕ
      → Bool
      → Portal Payload
      → Result (ProposeResult × Portal Payload)
  unfolding existing_intent load_verdict propose_judged publication_action_key
  propose_publication keys account c version subject fingerprint destination case_type moment stop
        s =
      elim (existing_intent account (publication_action_key account c.id version.content_hash) s) [
        | some i ↦ ok (ready_with i.attestation_id i.id, s)
        | none ↦
            propose_judged keys account c version subject fingerprint destination case_type moment
              stop (load_verdict account version.id s) s
      ]
