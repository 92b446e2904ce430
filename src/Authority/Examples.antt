-- ===== src/Authority/Examples.antt =====
-- A request, its grant and its dispatch, for policy.py and reconciliation_policy.py.
use mari_time_system.Prelude.{
  ◌≡◌, ◌≤◌, ◌↔◌, refl, String, none, some, List, [], ◌∷◌, true, false, ok, arith,
}
use mari_time_system.Authority.Policy.{
  DenyReason, GrantView, PrincipalView, ActionRequest, evaluate_policy,
}
use mari_time_system.Authority.Policy.Permitted.{Permitted, Binds, allowed_iff_Permitted}
use mari_time_system.Authority.Attestation.{
  AttestationDecision, Principal, Grant, Attestation, AuthorityStore, Platform, principal_view,
  attest_action,
}
use mari_time_system.Authority.Dispatch.{find_attestation, authorize_dispatch}
use mari_time_system.Authority.Dispatch.Recheck.{Dispatchable, authorized_iff_Dispatchable}
use mari_time_system.Authority.Dispatch.Once.{
  AuthorityOp, attest, dispatch, dispatches, authority_step, authority_run, dispatched_at_most_once,
}

-- A payload is a text here, and hashes to itself; every text spells the UUID 3.
abbrev plain : Platform String
plain = record {
  canonical_payload_hash = λ payload. payload;
  uuid_text = λ id. "acme";
  parse_uuid = λ text. some 3;
}

abbrev terms : GrantView
terms = record {
  policy_id = "p1";
  policy_revision = 4;
  capability = "operations.reconcile";
  allowed_case_types = "daily" ∷ [];
  allowed_destinations = "console" ∷ [];
  external_messages = false;
  financial_commitments = false;
  required_evidence = "report" ∷ [];
  qualified_fingerprints = "f1" ∷ [];
  attestation_ttl_seconds = 60;
  signing_key_id = "k1";
  valid_from = 100;
  valid_to = 5000;
  active = true;
}

abbrev agent : Principal
agent = record {
  id = 21;
  account_id = 7;
  subject = "svc";
  allowed_scopes = "operations.reconcile" ∷ [];
  deployment_fingerprint = "f1";
  active = true;
}

abbrev standing : Grant
standing = record { id = 31; account_id = 7; terms = terms }

abbrev wish : ActionRequest String
wish = record {
  tenant_id = "acme";
  principal_subject = "svc";
  capability = "operations.reconcile";
  case_id = "c3";
  case_revision = 2;
  action_key = "case-3";
  destination = "console";
  case_type = "daily";
  evidence_hash = "e1";
  provided_evidence = "report" ∷ "log" ∷ [];
  system_fingerprint = "f1";
  payload = "body";
  requires_external = false;
  requires_financial = false;
}

abbrev office : AuthorityStore
office = record { principals = agent ∷ []; grants = standing ∷ []; attestations = [] }

abbrev receipt : Attestation
receipt = record {
  id = 41;
  account_id = 7;
  grant_id = some 31;
  principal_id = some 21;
  action_key = "case-3";
  capability = "operations.reconcile";
  case_id = 3;
  case_revision = 2;
  destination = "console";
  evidence_hash = "e1";
  payload_hash = "body";
  policy_id = "p1";
  policy_revision = 4;
  system_fingerprint = "f1";
  signing_key_id = "k1";
  decision = AttestationDecision.allow;
  reason = DenyReason.no_objection;
  expires_at = some 60001000;
  dispatched_at = none;
}

abbrev attested : AuthorityStore
attested = record office { attestations = receipt ∷ [] }

receipt-recorded : attest_action plain 41 7 wish 1000 false office ≡ ok (receipt, attested)
unfolding attest_action evaluate_policy
receipt-recorded = refl

abbrev agent_view : PrincipalView
unfolding principal_view
agent_view = principal_view plain agent

allowed_iff_Permitted_example :
    ((evaluate_policy (λ x. x) wish terms agent_view 1000 false).allowed ≡ true
      ↔ Permitted wish terms agent_view 1000 false)
    × ((evaluate_policy (λ x. x) wish terms agent_view 1000 false).allowed ≡ true
        → Binds
            (λ x. x)
            wish
            terms
            agent_view
            1000
            false
            (evaluate_policy (λ x. x) wish terms agent_view 1000 false))
allowed_iff_Permitted_example = allowed_iff_Permitted (λ x. x) wish terms agent_view 1000 false

receipt_found : find_attestation 7 41 attested ≡ some receipt
unfolding find_attestation
receipt_found = refl

authorized_iff_Dispatchable_example :
    ((authorize_dispatch plain 7 41 "body" 2 2000 false attested).0.authorized ≡ true)
    ↔ ((g : Grant) × Dispatchable plain 7 "body" 2 2000 false receipt g attested)
authorized_iff_Dispatchable_example =
    authorized_iff_Dispatchable plain 7 41 "body" 2 2000 false receipt attested receipt_found

-- The same action is attested and dispatched again, and after a change of the payload.
abbrev requests : List (AuthorityOp String)
requests =
    dispatch 7 41 "body" 2 2000 false
    ∷ attest 42 7 wish 2100 false
    ∷ dispatch 7 42 "body" 2 2200 false
    ∷ dispatch 7 41 "other" 2 2300 false
    ∷ []

dispatched_at_most_once_example : dispatches 7 "case-3" (authority_run plain requests attested) ≤ 1
dispatched_at_most_once_example =
    dispatched_at_most_once plain 7 "case-3" requests attested (omega arith)

dispatched_once : dispatches 7 "case-3" (authority_run plain requests attested) ≡ 1
unfolding authority_run authority_step attest_action evaluate_policy authorize_dispatch
dispatched_once = refl
