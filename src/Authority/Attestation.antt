-- ===== src/Authority/Attestation.antt =====
-- The rows and `attest_action` of packages/pipeline/eastmed_pipeline/reconciliation_policy.py.
use mari_time_system.Prelude.{
  ℕ, String, Option, none, some, List, [], ◌∷◌, ◌++◌, Bool, true, false, ◌&&◌, leb, ◌==◌, str_eq,
  if◌then◌else◌, find, select, is_some, get_row, Result, ok, err, integrity_error, value_error,
}
use mari_time_system.Authority.Policy.{
  DenyReason, GrantView, PrincipalView, ActionRequest, evaluate_policy,
}

pub data AttestationDecision : Type 0 where
  allow deny : AttestationDecision

abbrev pub is_allow : AttestationDecision → Bool
is_allow AttestationDecision.allow = true
is_allow AttestationDecision.deny = false

-- recon_service_principals
pub record Principal : Type 0 where
  pub id : ℕ
  pub account_id : ℕ
  pub subject : String
  pub allowed_scopes : List String
  pub deployment_fingerprint : String
  pub active : Bool

-- recon_standing_grants; `terms` are the columns that `_grant_view` copies.
pub record Grant : Type 0 where
  pub id : ℕ
  pub account_id : ℕ
  pub terms : GrantView

-- recon_action_attestations
pub record Attestation : Type 0 where
  pub id : ℕ
  pub account_id : ℕ
  pub grant_id : Option ℕ
  pub principal_id : Option ℕ
  pub action_key : String
  pub capability : String
  pub case_id : ℕ
  pub case_revision : ℕ
  pub destination : String
  pub evidence_hash : String
  pub payload_hash : String
  pub policy_id : String
  pub policy_revision : ℕ
  pub system_fingerprint : String
  pub signing_key_id : String
  pub decision : AttestationDecision
  pub reason : DenyReason
  pub expires_at : Option ℕ
  pub dispatched_at : Option ℕ

pub record AuthorityStore : Type 0 where
  pub principals : List Principal
  pub grants : List Grant
  pub attestations : List Attestation

-- What the two modules take from the Python library: the canonical hash of a payload (SHA-256 of
-- its sorted JSON), the text of a UUID, and the UUID that a text spells, if any.
pub record Platform (Payload : Type 0) : Type 0 where
  pub canonical_payload_hash : Payload → String
  pub uuid_text : ℕ → String
  pub parse_uuid : String → Option ℕ

unfoldable pub resolve_principal : ℕ → String → AuthorityStore → Option Principal
resolve_principal account subject s =
    find (λ p. p.account_id == account && str_eq p.subject subject) s.principals

-- The first row of the highest policy revision (ORDER BY policy_revision DESC).
unfoldable pub highest_revision : List Grant → Option Grant
highest_revision [] = none
highest_revision (g ∷ gs) = elim (highest_revision gs) [
  | none ↦ some g
  | some h ↦ if leb h.terms.policy_revision g.terms.policy_revision then some g else some h
]

abbrev pub is_candidate : ℕ → String → Grant → Bool
is_candidate account capability g =
    g.account_id == account && (str_eq g.terms.capability capability && g.terms.active)

unfoldable pub resolve_grant : ℕ → String → AuthorityStore → Option Grant
unfolding highest_revision
resolve_grant account capability s =
    highest_revision (select (is_candidate account capability) s.grants)

-- `x.field if grant is not None else default`
abbrev pub from_grant {ℓ} : {A : Type ℓ} → (Grant → A) → A → Option Grant → A
from_grant f default none = default
from_grant f default (some g) = f g

module _ {Payload : Type 0} (platform : Platform Payload) where
  open platform use {canonical_payload_hash, uuid_text, parse_uuid}

  -- `_principal_view`
  unfoldable pub principal_view : Principal → PrincipalView
  principal_view p = record {
    subject = p.subject;
    tenant_id = uuid_text p.account_id;
    allowed_scopes = p.allowed_scopes;
    deployment_fingerprint = p.deployment_fingerprint;
    active = p.active;
  }

  -- `_record`: a case id that spells no UUID raises, a taken key is refused.
  unfoldable pub record_attestation :
      ℕ
      → ℕ
      → ActionRequest Payload
      → AttestationDecision
      → DenyReason
      → String
      → Option Grant
      → Option ℕ
      → Option ℕ
      → AuthorityStore
      → Result (Attestation × AuthorityStore)
  record_attestation new_id account request decision reason hash grant principal_id expires_at s =
      elim (parse_uuid request.case_id) [
        | none ↦ err value_error
        | some case_id ↦
            let a : Attestation = record {
              id = new_id;
              account_id = account;
              grant_id = from_grant (λ g. some g.id) none grant;
              principal_id = principal_id;
              action_key = request.action_key;
              capability = request.capability;
              case_id = case_id;
              case_revision = request.case_revision;
              destination = request.destination;
              evidence_hash = request.evidence_hash;
              payload_hash = hash;
              policy_id = from_grant (λ g. g.terms.policy_id) "" grant;
              policy_revision = from_grant (λ g. g.terms.policy_revision) 0 grant;
              system_fingerprint = request.system_fingerprint;
              signing_key_id = from_grant (λ g. g.terms.signing_key_id) "" grant;
              decision = decision;
              reason = reason;
              expires_at = expires_at;
              dispatched_at = none;
            } in
            if is_some (get_row (λ x. x.id) new_id s.attestations)
            then err integrity_error
            else ok (a, record s { attestations = s.attestations ++ a ∷ [] })
      ]

  abbrev pub decision_of : Bool → AttestationDecision
  decision_of true = AttestationDecision.allow
  decision_of false = AttestationDecision.deny

  abbrev pub principal_key : Option Principal → Option ℕ
  principal_key none = none
  principal_key (some p) = some p.id

  -- The grant and the principal as they were resolved.
  unfoldable pub attest_resolved :
      ℕ
      → ℕ
      → ActionRequest Payload
      → ℕ
      → Bool
      → Option Grant
      → Option Principal
      → AuthorityStore
      → Result (Attestation × AuthorityStore)
  unfolding record_attestation principal_view
  attest_resolved new_id account request moment stop none principal s =
      record_attestation new_id account request AttestationDecision.deny DenyReason.missing_policy
        (canonical_payload_hash request.payload) none (principal_key principal) none s
  attest_resolved new_id account request moment stop (some g) none s =
      record_attestation new_id account request AttestationDecision.deny
        DenyReason.principal_inactive (canonical_payload_hash request.payload) (some g) none none s
  attest_resolved new_id account request moment stop (some g) (some p) s =
      let d =
        evaluate_policy canonical_payload_hash request g.terms (principal_view p) moment stop in
      record_attestation new_id account request (decision_of d.allowed) d.reason d.payload_hash
        (some g) (some p.id) d.expires_at s

  unfoldable pub attest_action :
      ℕ
      → ℕ
      → ActionRequest Payload
      → ℕ
      → Bool
      → AuthorityStore
      → Result (Attestation × AuthorityStore)
  unfolding resolve_principal resolve_grant attest_resolved
  attest_action new_id account request moment stop s =
      attest_resolved new_id account request moment stop
        (resolve_grant account request.capability s)
        (resolve_principal account request.principal_subject s) s
