-- ===== src/Authority/Dispatch.antt =====
-- `authorize_dispatch` of packages/pipeline/eastmed_pipeline/reconciliation_policy.py.
pub mod Standing
pub mod Recheck
pub mod Once
use mari_time_system.Prelude.{
  ℕ, String, Option, none, some, List, Bool, true, false, not, ◌&&◌, ◌||◌, ltb, ◌==◌, str_eq,
  if◌then◌else◌, is_some, any, member, get_row, save_row,
}
use mari_time_system.Authority.Policy.{DenyReason, GrantView}
use mari_time_system.Authority.Attestation.{is_allow, Grant, Attestation, AuthorityStore, Platform}

pub record DispatchResult : Type 0 where
  pub authorized : Bool
  pub reason : DenyReason

abbrev pub reject : DenyReason → AuthorityStore → DispatchResult × AuthorityStore
reject reason s = (record { authorized = false; reason = reason }, s)

-- The attestation of the account with this id.
unfoldable pub find_attestation : ℕ → ℕ → AuthorityStore → Option Attestation
find_attestation account id s = elim (get_row (λ a. a.id) id s.attestations) [
  | none ↦ none
  | some a ↦ if a.account_id == account then some a else none
]

-- The attestation's grant, if it is there, the account's, and active.
unfoldable pub live_grant : ℕ → Attestation → AuthorityStore → Option Grant
live_grant account a s = elim a.grant_id [
  | none ↦ none
  | some id ↦ elim (get_row (λ g. g.id) id s.grants) [
    | none ↦ none
    | some g ↦ if not (g.account_id == account) || not g.terms.active then none else some g
  ]
]

-- `expires_at is None or moment > expires_at`
abbrev pub expired : ℕ → Option ℕ → Bool
expired moment none = true
expired moment (some at) = ltb at moment

-- A dispatched attestation of the same logical action.
abbrev pub same_dispatched : ℕ → String → Attestation → Bool
same_dispatched account key a =
    a.account_id == account && (str_eq a.action_key key && is_some a.dispatched_at)

abbrev pub stamp : ℕ → Attestation → AuthorityStore → AuthorityStore
stamp moment a s = record s {
  attestations = save_row (λ x. x.id) (record a { dispatched_at = some moment }) s.attestations;
}

module _ {Payload : Type 0} (platform : Platform Payload) where
  -- The checks against the grant, and the claim of the intent.
  unfoldable pub recheck_grant :
      ℕ → Payload → ℕ → ℕ → Attestation → Grant → AuthorityStore → DispatchResult × AuthorityStore
  recheck_grant account payload case_revision moment a g s =
      if not (g.terms.policy_revision == a.policy_revision)
      then reject DenyReason.policy_revision_changed s
      else if expired moment a.expires_at
      then reject DenyReason.attestation_expired s
      else if not (case_revision == a.case_revision)
      then reject DenyReason.case_revision_changed s
      else if not (str_eq (platform.canonical_payload_hash payload) a.payload_hash)
      then reject DenyReason.payload_hash_mismatch s
      else if not (member a.system_fingerprint g.terms.qualified_fingerprints)
      then reject DenyReason.unknown_fingerprint s
      else if any (same_dispatched account a.action_key) s.attestations
      then reject DenyReason.duplicate_action s
      else (record { authorized = true; reason = DenyReason.no_objection }, stamp moment a s)

  unfoldable pub recheck :
      ℕ → Payload → ℕ → ℕ → Bool → Attestation → AuthorityStore → DispatchResult × AuthorityStore
  unfolding live_grant recheck_grant
  recheck account payload case_revision moment stop a s =
      if not (is_allow a.decision)
      then reject DenyReason.denied_authority s
      else if is_some a.dispatched_at
      then reject DenyReason.duplicate_action s
      else if stop
      then reject DenyReason.capability_stopped s
      else (elim (live_grant account a s) [
        | none ↦ reject DenyReason.grant_revoked s
        | some g ↦ recheck_grant account payload case_revision moment a g s
      ])

  unfoldable pub authorize_dispatch :
      ℕ → ℕ → Payload → ℕ → ℕ → Bool → AuthorityStore → DispatchResult × AuthorityStore
  unfolding find_attestation recheck
  authorize_dispatch account attestation_id payload case_revision moment stop s =
      elim (find_attestation account attestation_id s) [
        | none ↦ reject DenyReason.denied_authority s
        | some a ↦ recheck account payload case_revision moment stop a s
      ]
