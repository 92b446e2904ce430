-- ===== src/Authority/Policy.antt =====
-- packages/shared/eastmed_shared/reconciliation/policy.py: the request, the grant, the principal
-- and `evaluate_policy`. Instants and the grant's lifetime are in microseconds.
pub mod Permitted
use mari_time_system.Prelude.{
  ℕ, ◌+◌, ◌*◌, String, Option, none, some, List, [], ◌∷◌, Bool, true, false, not, ◌&&◌, ◌||◌, ltb,
  leb, str_eq, if◌then◌else◌, member, subset, is_blank,
}

abbrev pub known_capabilities : List String
known_capabilities =
    "operations.reconcile" ∷ "operations.private_publish" ∷ "operations.authorized_source_read" ∷ []

-- `ok` is spelled `no_objection` here.
pub data DenyReason : Type 0 where
  no_objection missing_policy unrecognized_action cross_tenant_principal principal_inactive
        scope_not_granted capability_stopped grant_inactive grant_expired capability_mismatch
        unknown_fingerprint case_type_not_allowed evidence_incomplete destination_not_allowed
        external_not_permitted financial_not_permitted denied_authority grant_revoked
        policy_revision_changed attestation_expired case_revision_changed payload_hash_mismatch
        duplicate_action :
      DenyReason

pub record GrantView : Type 0 where
  pub policy_id : String
  pub policy_revision : ℕ
  pub capability : String
  pub allowed_case_types : List String
  pub allowed_destinations : List String
  pub external_messages : Bool
  pub financial_commitments : Bool
  pub required_evidence : List String
  pub qualified_fingerprints : List String
  pub attestation_ttl_seconds : ℕ
  pub signing_key_id : String
  pub valid_from : ℕ
  pub valid_to : ℕ
  pub active : Bool

pub record PrincipalView : Type 0 where
  pub subject : String
  pub tenant_id : String
  pub allowed_scopes : List String
  pub deployment_fingerprint : String
  pub active : Bool

-- The payload is a JSON mapping, of which only the hash matters.
pub record ActionRequest (Payload : Type 0) : Type 0 where
  pub tenant_id : String
  pub principal_subject : String
  pub capability : String
  pub case_id : String
  pub case_revision : ℕ
  pub action_key : String
  pub destination : String
  pub case_type : String
  pub evidence_hash : String
  pub provided_evidence : List String
  pub system_fingerprint : String
  pub payload : Payload
  pub requires_external : Bool
  pub requires_financial : Bool

pub record PolicyDecision : Type 0 where
  pub allowed : Bool
  pub reason : DenyReason
  pub payload_hash : String
  pub expires_at : Option ℕ
  pub signing_key_id : Option String

abbrev pub deny : String → DenyReason → PolicyDecision
deny hash reason = record {
  allowed = false;
  reason = reason;
  payload_hash = hash;
  expires_at = none;
  signing_key_id = none;
}

module _ {Payload : Type 0} (canonical_payload_hash : Payload → String) where
  unfoldable pub evaluate_policy :
      ActionRequest Payload → GrantView → PrincipalView → ℕ → Bool → PolicyDecision
  evaluate_policy request grant principal now stop_active =
      let hash = canonical_payload_hash request.payload in
      if not (member request.capability known_capabilities)
      then deny hash DenyReason.unrecognized_action
      else if not (str_eq principal.subject request.principal_subject) || not principal.active
      then deny hash DenyReason.principal_inactive
      else if not (str_eq principal.tenant_id request.tenant_id)
      then deny hash DenyReason.cross_tenant_principal
      else if not (member request.capability principal.allowed_scopes)
      then deny hash DenyReason.scope_not_granted
      else if stop_active
      then deny hash DenyReason.capability_stopped
      else if not grant.active
      then deny hash DenyReason.grant_inactive
      else if not (str_eq grant.capability request.capability)
      then deny hash DenyReason.capability_mismatch
      else if not (leb grant.valid_from now && ltb now grant.valid_to)
      then deny hash DenyReason.grant_expired
      else if not (member request.system_fingerprint grant.qualified_fingerprints)
          || not (str_eq request.system_fingerprint principal.deployment_fingerprint)
      then deny hash DenyReason.unknown_fingerprint
      else if not (member request.case_type grant.allowed_case_types)
      then deny hash DenyReason.case_type_not_allowed
      else if is_blank request.evidence_hash
          || not (subset grant.required_evidence request.provided_evidence)
      then deny hash DenyReason.evidence_incomplete
      else if not (member request.destination grant.allowed_destinations)
      then deny hash DenyReason.destination_not_allowed
      else if request.requires_external && not grant.external_messages
      then deny hash DenyReason.external_not_permitted
      else if request.requires_financial && not grant.financial_commitments
      then deny hash DenyReason.financial_not_permitted
      else record {
        allowed = true;
        reason = DenyReason.no_objection;
        payload_hash = hash;
        expires_at = some (now + grant.attestation_ttl_seconds * 1000000);
        signing_key_id = some grant.signing_key_id;
      }
