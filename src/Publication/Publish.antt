-- ===== src/Publication/Publish.antt =====
-- `publish_case` of reconciliation_publication.py: the recheck and the private effect.
use mari_time_system.Prelude.{
  ℕ, Option, none, some, [], ◌∷◌, ◌++◌, Bool, true, false, ◌&&◌, ◌||◌, ◌==◌, if◌then◌else◌, find,
  any, is_some, get_row, Result, ok, err, integrity_error, ◌>>=◌,
}
use mari_time_system.Authority.Policy.{DenyReason}
use mari_time_system.Authority.Attestation.{AuthorityStore, Platform}
use mari_time_system.Authority.Dispatch.{DispatchResult, authorize_dispatch}
use mari_time_system.Publication.State.{
  OutboxStatus, OutboxResponseClass, AutomationStatus, Intent, Outbox, Publication, Portal,
  PublishResult,
}
use mari_time_system.Publication.Lookups.{current_revision, set_case_status}
use mari_time_system.Publication.Outbox.{
  is_sent, is_closed, load_outbox, save_outbox, claim_outbox, refuse_outbox,
}

-- `_existing_publication`
unfoldable pub existing_publication :
    {Payload : Type 0} → ℕ → ℕ → Portal Payload → Option (Publication Payload)
existing_publication account intent_id s =
    find (λ p. p.account_id == account && p.intent_id == intent_id) s.publications

-- `if case is not None and case.account_id == account_id: case.automation_status = …`
unfoldable pub advance_case :
    {Payload : Type 0} → ℕ → ℕ → AutomationStatus → Portal Payload → Portal Payload
unfolding set_case_status
advance_case account case_id status s = elim (get_row (λ c. c.id) case_id s.cases) [
  | none ↦ s
  | some c ↦ if c.account_id == account then set_case_status case_id status s else s
]

abbrev pub not_published_because : DenyReason → Option ℕ → PublishResult
not_published_because reason id = record { published = false; reason = reason; publication_id = id }

abbrev pub publication_key : {Payload : Type 0} → Option (Publication Payload) → Option ℕ
publication_key none = none
publication_key (some p) = some p.id

abbrev pub revision_or : ℕ → Option ℕ → ℕ
revision_or default none = default
revision_or default (some n) = n

module _ {Payload : Type 0} (platform : Platform Payload) where
  unfoldable pub new_publication : ℕ → ℕ → Intent → Payload → ℕ → Publication Payload
  new_publication id account i payload moment = record {
    id = id;
    account_id = account;
    intent_id = i.id;
    case_id = i.case_id;
    case_revision = i.case_revision;
    destination = i.destination;
    content_hash = i.content_hash;
    result = payload;
    published_at = moment;
  }

  -- The unique key (account_id, case_id, case_revision).
  abbrev pub same_revision : Publication Payload → Publication Payload → Bool
  same_revision p q =
      p.account_id == q.account_id && (p.case_id == q.case_id && p.case_revision == q.case_revision)

  unfoldable pub insert_publication : Publication Payload → Portal Payload → Result (Portal Payload)
  insert_publication p s =
      if is_some (get_row (λ x. x.id) p.id s.publications) || any (same_revision p) s.publications
      then err integrity_error
      else ok (record s { publications = s.publications ++ p ∷ [] })

  -- The row of an accepted dispatch.
  unfoldable pub dispatch_outbox : ℕ → Outbox → Outbox
  dispatch_outbox publication_id o = record o {
    status = OutboxStatus.dispatched;
    response_class = some OutboxResponseClass.accepted;
    provider_reference = some (platform.uuid_text publication_id);
    terminal_reason = none;
  }

  -- The private effect, once the recheck has authorized it.
  unfoldable pub write_publication :
      ℕ
      → ℕ
      → Intent
      → Payload
      → ℕ
      → Outbox
      → Portal Payload
      → Result (PublishResult × Portal Payload)
  unfolding new_publication insert_publication dispatch_outbox advance_case
  write_publication new_id account i payload moment o s = do
    s' ← insert_publication (new_publication new_id account i payload moment) s
    ok (
      record { published = true; reason = DenyReason.no_objection; publication_id = some new_id },
      advance_case account i.case_id AutomationStatus.published
          (save_outbox (dispatch_outbox new_id o) s'),
    )

  -- The row is claimed, and the authority rechecked and consumed.
  unfoldable pub dispatch_claimed :
      ℕ
      → ℕ
      → Intent
      → Payload
      → ℕ
      → Outbox
      → DispatchResult × AuthorityStore
      → Portal Payload
      → Result (PublishResult × Portal Payload)
  unfolding refuse_outbox write_publication
  dispatch_claimed new_id account i payload moment o d s =
      if d.0.authorized
      then write_publication new_id account i payload moment o (record s { authority = d.1 })
      else ok (
        not_published_because d.0.reason none,
        save_outbox (refuse_outbox d.0.reason o) (record s { authority = d.1 }),
      )

  -- The row of the intent was found.
  unfoldable pub publish_row :
      ℕ
      → ℕ
      → Intent
      → Payload
      → ℕ
      → Bool
      → Outbox
      → Portal Payload
      → Result (PublishResult × Portal Payload)
  unfolding existing_publication claim_outbox current_revision dispatch_claimed
  publish_row new_id account i payload moment stop o s =
      if is_sent o.status
      then ok (
        not_published_because DenyReason.duplicate_action
            (publication_key (existing_publication account i.id s)),
        s,
      )
      else if is_closed o.status
      then ok (not_published_because DenyReason.denied_authority none, s)
      else (let o' = claim_outbox moment o in
          dispatch_claimed new_id account i payload moment o'
            (authorize_dispatch platform account i.attestation_id payload
              (revision_or i.case_revision (current_revision account i.case_id s)) moment stop
              s.authority)
            (save_outbox o' s))

  unfoldable pub publish_case :
      ℕ
      → ℕ
      → Intent
      → Payload
      → ℕ
      → Bool
      → (ℕ → Bool)
      → Portal Payload
      → Result (PublishResult × Portal Payload)
  unfolding load_outbox publish_row
  publish_case new_id account i payload moment stop locked s =
      elim (load_outbox account i.id locked s) [
        | none ↦ ok (not_published_because DenyReason.denied_authority none, s)
        | some o ↦ publish_row new_id account i payload moment stop o s
      ]
