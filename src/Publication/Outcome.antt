-- ===== src/Publication/Outcome.antt =====
-- What a call of `publish_case` of reconciliation_publication.py can do.
use mari_time_system.Prelude.{
  ℕ, ◌≡◌, none, some, [], ◌∷◌, ◌++◌, Bool, true, false, any, save_row, ◌⊎◌,
}
use mari_time_system.Authority.Policy.{DenyReason}
use mari_time_system.Authority.Attestation.{Grant, Attestation, Platform}
use mari_time_system.Authority.Dispatch.{find_attestation, stamp}
use mari_time_system.Authority.Dispatch.Recheck.{Dispatchable}
use mari_time_system.Publication.State.{
  OutboxStatus, Intent, Outbox, Publication, Portal, PublishResult,
}
use mari_time_system.Publication.Lookups.{current_revision}
use mari_time_system.Publication.Publish.{
  not_published_because, revision_or, new_publication, same_revision, dispatch_outbox,
}
use mari_time_system.Publication.Outbox.{
  is_undispatched, is_stale_reason, load_outbox, claim_outbox, refuse_outbox,
}

module _ {Payload : Type 0} (platform : Platform Payload) where
  module _ (new_id account : ℕ) (i : Intent) (payload : Payload) (moment : ℕ) (stop : Bool)
      (locked : ℕ → Bool) where
    abbrev pub revision_now : Portal Payload → ℕ
    revision_now s = revision_or i.case_revision (current_revision account i.case_id s)

    abbrev pub publication_here : Publication Payload
    unfolding new_publication
    publication_here = new_publication platform new_id account i payload moment

    -- The call has published: an attestation of the intent might be dispatched at the current
    -- revision with exactly this payload and is consumed, and the publication stands at the end of
    -- its table, the first of its revision.
    pub record Publishes (s : Portal Payload) (r : PublishResult) (s' : Portal Payload)
        : Type 0 where
      pub row : Outbox
      pub attestation : Attestation
      pub grant : Grant
      pub row_loaded : load_outbox account i.id locked s ≡ some row
      pub row_open : is_undispatched row.status ≡ true
      pub attestation_found :
          find_attestation account i.attestation_id s.authority ≡ some attestation
      pub dispatchable :
          Dispatchable platform account payload
            (revision_now s)
            moment
            stop
            attestation
            grant
            s.authority
      pub consumed : s'.authority ≡ stamp moment attestation s.authority
      pub published_row : s'.publications ≡ s.publications ++ publication_here ∷ []
      pub first_of_revision : any (same_revision platform publication_here) s.publications ≡ false
      pub sent :
          s'.outbox
          ≡ save_row
              (λ x. x.id)
              (dispatch_outbox platform new_id (claim_outbox moment row))
              (save_row (λ x. x.id) (claim_outbox moment row) s.outbox)
      pub answer : r ≡ record {
        published = true;
        reason = DenyReason.no_objection;
        publication_id = some new_id;
      }

    -- The authority was refused: the row of the intent is invalidated, and nothing else changes.
    pub record Invalidates (s : Portal Payload) (r : PublishResult) (s' : Portal Payload)
        : Type 0 where
      pub row : Outbox
      pub reason : DenyReason
      pub row_loaded : load_outbox account i.id locked s ≡ some row
      pub row_open : is_undispatched row.status ≡ true
      pub stale : is_stale_reason reason ≡ true
      pub invalidated :
          (refuse_outbox reason (claim_outbox moment row)).status ≡ OutboxStatus.invalidated
      pub only_row : s' ≡ record s {
        outbox =
            save_row
              (λ x. x.id)
              (refuse_outbox reason (claim_outbox moment row))
              (save_row (λ x. x.id) (claim_outbox moment row) s.outbox);
      }
      pub answer : r ≡ not_published_because reason none

    abbrev pub PublishOutcome : Portal Payload → PublishResult → Portal Payload → Type 0
    PublishOutcome s r s' =
        ((r.published ≡ false) × (s' ≡ s)) ⊎ (Invalidates s r s' ⊎ Publishes s r s')
