-- ===== src/Publication/ReadBack.antt =====
-- `reconcile_publication` and `invalidate_pending_publications` of reconciliation_publication.py.
use mari_time_system.Prelude.{
  ℕ, str_eq, Option, none, some, List, map, Bool, true, false, not, ◌&&◌, ◌||◌, ltb, ◌==◌,
  if◌then◌else◌, count, get_row,
}
use mari_time_system.Authority.Attestation.{Platform}
use mari_time_system.Publication.State.{
  OutboxStatus, OutboxResponseClass, AutomationStatus, Intent, Outbox, Publication, Portal,
  PublicationReason, PublicationVerdict,
}
use mari_time_system.Publication.Lookups.{current_revision}
use mari_time_system.Publication.Publish.{existing_publication, advance_case}
use mari_time_system.Publication.Outbox.{is_final, is_undispatched, load_outbox, save_outbox}

abbrev pub unconfirmed : PublicationReason → PublicationVerdict
unconfirmed reason = record { confirmed = false; reason = reason }

-- `current is not None and current != revision`
abbrev pub is_superseded : Option ℕ → ℕ → Bool
is_superseded none revision = false
is_superseded (some n) revision = not (n == revision)

abbrev pub supersede_outbox : Outbox → Outbox
supersede_outbox o = record o {
  status = OutboxStatus.invalidated;
  terminal_reason = some "superseded";
}

abbrev pub confirm_outbox : Outbox → Outbox
confirm_outbox o = record o {
  status = OutboxStatus.reconciled;
  response_class = some OutboxResponseClass.effect_confirmed;
  terminal_reason = none;
}

-- The outbox row of a publication that a newer revision supersedes, unless it is final.
unfoldable pub mark_superseded :
    {Payload : Type 0} → Option Outbox → Portal Payload → Portal Payload
mark_superseded none s = s
mark_superseded (some o) s = if is_final o.status then s else save_outbox (supersede_outbox o) s

unfoldable pub mark_confirmed : {Payload : Type 0} → Option Outbox → Portal Payload → Portal Payload
mark_confirmed none s = s
mark_confirmed (some o) s = save_outbox (confirm_outbox o) s

module _ {Payload : Type 0} (platform : Platform Payload) where
  -- The publication was found; `_content_hash` is the same function as `canonical_payload_hash`.
  unfoldable pub read_back :
      ℕ
      → Intent
      → (ℕ → Bool)
      → Publication Payload
      → Portal Payload
      → PublicationVerdict × Portal Payload
  unfolding current_revision load_outbox mark_superseded mark_confirmed advance_case
  read_back account i locked p s =
      if not (p.account_id == account)
      then (unconfirmed PublicationReason.wrong_tenant, s)
      else if not (str_eq (platform.canonical_payload_hash p.result) p.content_hash)
          || not (str_eq p.content_hash i.content_hash)
      then (unconfirmed PublicationReason.hash_mismatch, s)
      else if is_superseded (current_revision account p.case_id s) p.case_revision
      then (
        unconfirmed PublicationReason.superseded,
        mark_superseded (load_outbox account i.id locked s) s,
      )
      else (
        record { confirmed = true; reason = PublicationReason.confirmed_ok },
        advance_case account p.case_id AutomationStatus.verified_complete
            (mark_confirmed (load_outbox account i.id locked s) s),
      )

  unfoldable pub reconcile_publication :
      ℕ → Intent → (ℕ → Bool) → Portal Payload → PublicationVerdict × Portal Payload
  unfolding existing_publication read_back
  reconcile_publication account i locked s = elim (existing_publication account i.id s) [
    | none ↦ (unconfirmed PublicationReason.not_published, s)
    | some p ↦ read_back account i locked p s
  ]

-- The row's intent is one of the case at an earlier revision.
unfoldable pub is_outdated : ℕ → ℕ → List Intent → Outbox → Bool
is_outdated case_id current intents o = elim (get_row (λ i. i.id) o.intent_id intents) [
  | none ↦ false
  | some i ↦ i.case_id == case_id && ltb i.case_revision current
]

-- The WHERE clause of `invalidate_pending_publications`.
unfoldable pub is_invalid : ℕ → ℕ → ℕ → List Intent → Outbox → Bool
unfolding is_outdated
is_invalid account case_id current intents o =
    o.account_id == account && (is_outdated case_id current intents o && is_undispatched o.status)

unfoldable pub invalidate_row : ℕ → ℕ → ℕ → List Intent → Outbox → Outbox
unfolding is_invalid
invalidate_row account case_id current intents o =
    if is_invalid account case_id current intents o then supersede_outbox o else o

unfoldable pub invalidate_pending_publications :
    {Payload : Type 0} → ℕ → ℕ → ℕ → Portal Payload → ℕ × Portal Payload
unfolding is_invalid invalidate_row
invalidate_pending_publications account case_id current s = (
  count (is_invalid account case_id current s.intents) s.outbox,
  record s { outbox = map (invalidate_row account case_id current s.intents) s.outbox },
)
