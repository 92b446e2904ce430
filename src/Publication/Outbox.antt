-- ===== src/Publication/Outbox.antt =====
-- The outbox rows of reconciliation_publication.py: their states, `find_due_outbox` and `_load_outbox`.
use mari_time_system.Prelude.{
  ℕ, ◌+◌, String, Option, some, List, [], ◌∷◌, Bool, true, false, not, ◌&&◌, leb, ◌==◌,
  if◌then◌else◌, find, select, save_row,
}
use mari_time_system.Authority.Policy.{DenyReason}
use mari_time_system.Publication.State.{OutboxStatus, Outbox, Portal}

abbrev pub default_lease : ℕ
default_lease = 300000000

abbrev pub is_pending : OutboxStatus → Bool
is_pending OutboxStatus.pending = true
is_pending _ = false

-- `DISPATCHED` or `RECONCILED`
abbrev pub is_sent : OutboxStatus → Bool
is_sent OutboxStatus.dispatched = true
is_sent OutboxStatus.reconciled = true
is_sent _ = false

-- `INVALIDATED` or `EFFECT_UNKNOWN`
abbrev pub is_closed : OutboxStatus → Bool
is_closed OutboxStatus.invalidated = true
is_closed OutboxStatus.effect_unknown = true
is_closed _ = false

-- `RECONCILED` or `EFFECT_UNKNOWN`
abbrev pub is_final : OutboxStatus → Bool
is_final OutboxStatus.reconciled = true
is_final OutboxStatus.effect_unknown = true
is_final _ = false

-- `PENDING` or `CLAIMED`
abbrev pub is_undispatched : OutboxStatus → Bool
is_undispatched OutboxStatus.pending = true
is_undispatched OutboxStatus.claimed = true
is_undispatched _ = false

-- `_STALE_REASONS`
abbrev pub is_stale_reason : DenyReason → Bool
is_stale_reason DenyReason.denied_authority = true
is_stale_reason DenyReason.grant_revoked = true
is_stale_reason DenyReason.policy_revision_changed = true
is_stale_reason DenyReason.attestation_expired = true
is_stale_reason DenyReason.case_revision_changed = true
is_stale_reason DenyReason.payload_hash_mismatch = true
is_stale_reason DenyReason.unknown_fingerprint = true
is_stale_reason DenyReason.capability_stopped = true
is_stale_reason DenyReason.duplicate_action = true
is_stale_reason _ = false

-- The text of a reason.
abbrev pub reason_text : DenyReason → String
reason_text DenyReason.no_objection = "ok"
reason_text DenyReason.missing_policy = "missing_policy"
reason_text DenyReason.unrecognized_action = "unrecognized_action"
reason_text DenyReason.cross_tenant_principal = "cross_tenant_principal"
reason_text DenyReason.principal_inactive = "principal_inactive"
reason_text DenyReason.scope_not_granted = "scope_not_granted"
reason_text DenyReason.capability_stopped = "capability_stopped"
reason_text DenyReason.grant_inactive = "grant_inactive"
reason_text DenyReason.grant_expired = "grant_expired"
reason_text DenyReason.capability_mismatch = "capability_mismatch"
reason_text DenyReason.unknown_fingerprint = "unknown_fingerprint"
reason_text DenyReason.case_type_not_allowed = "case_type_not_allowed"
reason_text DenyReason.evidence_incomplete = "evidence_incomplete"
reason_text DenyReason.destination_not_allowed = "destination_not_allowed"
reason_text DenyReason.external_not_permitted = "external_not_permitted"
reason_text DenyReason.financial_not_permitted = "financial_not_permitted"
reason_text DenyReason.denied_authority = "denied_authority"
reason_text DenyReason.grant_revoked = "grant_revoked"
reason_text DenyReason.policy_revision_changed = "policy_revision_changed"
reason_text DenyReason.attestation_expired = "attestation_expired"
reason_text DenyReason.case_revision_changed = "case_revision_changed"
reason_text DenyReason.payload_hash_mismatch = "payload_hash_mismatch"
reason_text DenyReason.duplicate_action = "duplicate_action"

unfoldable pub insert_due : Outbox → List Outbox → List Outbox
insert_due o [] = o ∷ []
insert_due o (x ∷ xs) =
    if leb o.next_attempt_at x.next_attempt_at then o ∷ x ∷ xs else x ∷ insert_due o xs

unfoldable pub order_due : List Outbox → List Outbox
unfolding insert_due
order_due [] = []
order_due (o ∷ os) = insert_due o (order_due os)

abbrev pub is_due_row : ℕ → ℕ → Outbox → Bool
is_due_row account moment o =
    o.account_id == account && (is_pending o.status && leb o.next_attempt_at moment)

unfoldable pub find_due_outbox : {Payload : Type 0} → ℕ → ℕ → Portal Payload → List Outbox
unfolding order_due
find_due_outbox account moment s = order_due (select (is_due_row account moment) s.outbox)

-- `_load_outbox`: a row that a competing transaction has locked is skipped.
unfoldable pub load_outbox :
    {Payload : Type 0} → ℕ → ℕ → (ℕ → Bool) → Portal Payload → Option Outbox
load_outbox account intent_id locked s =
    find (λ o. (o.account_id == account && o.intent_id == intent_id) && not (locked o.id)) s.outbox

abbrev pub save_outbox : {Payload : Type 0} → Outbox → Portal Payload → Portal Payload
save_outbox o s = record s { outbox = save_row (λ x. x.id) o s.outbox }

-- The outbox row under a new lease, with the attempt counted.
unfoldable pub claim_outbox : ℕ → Outbox → Outbox
claim_outbox moment o = record o {
  status = OutboxStatus.claimed;
  lease_epoch = o.lease_epoch + 1;
  lease_until = some (moment + default_lease);
  dispatch_attempts = o.dispatch_attempts + 1;
}

-- The outbox row after a refused recheck.
unfoldable pub refuse_outbox : DenyReason → Outbox → Outbox
refuse_outbox reason o = record o {
  terminal_reason = some (reason_text reason);
  status = if is_stale_reason reason then OutboxStatus.invalidated else OutboxStatus.pending;
}
