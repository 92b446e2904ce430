-- ===== src/Publication/Effect.antt =====
-- What a call of `publish_case` of reconciliation_publication.py does.
use mari_time_system.Prelude.{
  ℕ, ◌≡◌, refl, sym, subst, ap, ◌∙◌, some, [], ◌∷◌, ◌++◌, Bool, true, false, ◌||◌, arith, any,
  is_some, get_row, save_row, Result, ok, err, ok-injective, Option-cases, Bool-cases, inl, inr,
  ◌>>=◌,
}
use mari_time_system.Authority.Policy.{DenyReason}
use mari_time_system.Authority.Attestation.{Grant, Attestation, AuthorityStore, Platform}
use mari_time_system.Authority.Dispatch.{
  DispatchResult, find_attestation, stamp, authorize_dispatch,
}
use mari_time_system.Authority.Dispatch.Recheck.{Dispatchable, authorize_dispatch-Outcome}
use mari_time_system.Publication.State.{
  OutboxStatus, AutomationStatus, Intent, Outbox, Publication, Portal, PublishResult,
}
use mari_time_system.Publication.Lookups.{set_case_status}
use mari_time_system.Publication.Publish.{
  advance_case, same_revision, insert_publication, dispatch_outbox, write_publication,
  dispatch_claimed, publish_row, publish_case,
}
use mari_time_system.Publication.Outbox.{
  is_sent, is_closed, is_undispatched, load_outbox, save_outbox, claim_outbox, refuse_outbox,
}
use mari_time_system.Publication.Stale.{refusal-stale}
use mari_time_system.Publication.Outcome.{revision_now, publication_here, Publishes, PublishOutcome}

pub advance_case-tables :
    {Payload : Type 0}
    → (account id : ℕ) (status : AutomationStatus) (s : Portal Payload)
    → ((advance_case account id status s).authority ≡ s.authority)
      × ((advance_case account id status s).publications ≡ s.publications)
      × ((advance_case account id status s).outbox ≡ s.outbox)
unfolding advance_case set_case_status
advance_case-tables account id status s = ground arith

module _ {Payload : Type 0} (platform : Platform Payload) where
  module _ (new_id account : ℕ) (i : Intent) (payload : Payload) (moment : ℕ) (stop : Bool)
      (locked : ℕ → Bool) where
    abbrev revision_here : Portal Payload → ℕ
    revision_here = revision_now platform new_id account i payload moment stop locked

    abbrev publication_made : Publication Payload
    publication_made = publication_here platform new_id account i payload moment stop locked

    open_row :
        (t : OutboxStatus) → is_sent t ≡ false → is_closed t ≡ false → is_undispatched t ≡ true
    open_row OutboxStatus.pending p q = refl
    open_row OutboxStatus.claimed p q = refl
    open_row OutboxStatus.dispatched p q = sym p
    open_row OutboxStatus.reconciled p q = sym p
    open_row OutboxStatus.invalidated p q = sym q
    open_row OutboxStatus.effect_unknown p q = sym q

    abbrev dispatch_here : Portal Payload → DispatchResult × AuthorityStore
    dispatch_here s =
        authorize_dispatch platform account i.attestation_id payload (revision_here s) moment stop
          s.authority

    abbrev published_answer : PublishResult
    published_answer = record {
      published = true;
      reason = DenyReason.no_objection;
      publication_id = some new_id;
    }

    abbrev sent_portal : Outbox → Portal Payload → Result (PublishResult × Portal Payload)
    sent_portal o x = ok (
      published_answer,
      advance_case account i.case_id AutomationStatus.published
          (save_outbox (dispatch_outbox platform new_id (claim_outbox moment o)) x),
    )

    inserted :
        (s s' : Portal Payload)
        → insert_publication platform publication_made s ≡ ok s'
        → (any (same_revision platform publication_made) s.publications ≡ false)
          × (s' ≡ record s { publications = s.publications ++ publication_made ∷ [] })
    unfolding insert_publication
    inserted s s' e =
        elim (Bool-cases (
          is_some (get_row (λ x. x.id) publication_made.id s.publications)
          || any (same_revision platform publication_made) s.publications)) [
            | inl taken ↦ absurd (ground arith)
            | inr fresh ↦ (ground arith, sym (ok-injective (rw (fresh, insert_publication) at e)))
          ]

    claimed_portal : Outbox → AuthorityStore → Portal Payload → Portal Payload
    claimed_portal o u s = record (save_outbox (claim_outbox moment o) s) { authority = u }

    written :
        (o : Outbox) (a : Attestation) (g : Grant) (s : Portal Payload) (r : PublishResult)
        (s' : Portal Payload)
        → load_outbox account i.id locked s ≡ some o
        → is_undispatched o.status ≡ true
        → find_attestation account i.attestation_id s.authority ≡ some a
        → Dispatchable platform account payload (revision_here s) moment stop a g s.authority
        → (m : Result (Portal Payload))
        → insert_publication platform publication_made
            (claimed_portal o (stamp moment a s.authority) s)
          ≡ m
        → (m >>= sent_portal o) ≡ ok (r, s')
        → Publishes platform new_id account i payload moment stop locked s r s'
    unfolding claimed_portal
    written o a g s r s' loaded row_open found d (err x) p e = cc
    written o a g s r s' loaded row_open found d (ok x) p e =
        let (fresh, added) = inserted (claimed_portal o (stamp moment a s.authority) s) x p in
        let answered = ok-injective e in
        let tables =
          advance_case-tables account i.case_id AutomationStatus.published
            (save_outbox (dispatch_outbox platform new_id (claim_outbox moment o)) x) in
        record {
          row = o;
          attestation = a;
          grant = g;
          row_loaded = loaded;
          row_open = row_open;
          attestation_found = found;
          dispatchable = d;
          consumed =
              ap (λ z. z.1.authority) (sym answered) ∙ tables.0 ∙ ap (λ z. z.authority) added;
          published_row =
              ap (λ z. z.1.publications) (sym answered) ∙ tables.1 ∙ ap (λ z. z.publications) added;
          first_of_revision = fresh;
          sent =
              ap (λ z. z.1.outbox) (sym answered)
              ∙ tables.2
              ∙ ap
                  (λ z.
                    save_row (λ y. y.id) (dispatch_outbox platform new_id (claim_outbox moment o))
                      z.outbox)
                  added;
          answer = ap (λ z. z.0) (sym answered);
        }

    claimed_row :
        (o : Outbox) (s : Portal Payload) (r : PublishResult) (s' : Portal Payload)
        → load_outbox account i.id locked s ≡ some o
        → is_undispatched o.status ≡ true
        → dispatch_claimed platform new_id account i payload moment
            (claim_outbox moment o)
            (dispatch_here s)
            (save_outbox (claim_outbox moment o) s)
          ≡ ok (r, s')
        → PublishOutcome platform new_id account i payload moment stop locked s r s'
    unfolding dispatch_claimed write_publication claimed_portal refuse_outbox
    claimed_row o s r s' loaded row_open e =
        elim (authorize_dispatch-Outcome platform account i.attestation_id payload (revision_here s)
          moment stop s.authority) [
            | inr (refused, same) ↦
                let answered = ok-injective (rw (refused, dispatch_claimed) at e) in
                let stale =
                  refusal-stale platform account i.attestation_id payload (revision_here s) moment
                    stop s.authority refused in
                inr (
                  inl (record {
                    row = o;
                    reason = (dispatch_here s).0.reason;
                    row_loaded = loaded;
                    row_open = row_open;
                    stale = stale;
                    invalidated = rw stale refl;
                    only_row =
                        ap (λ z. z.1) (sym answered)
                        ∙ ap
                            (λ u.
                              save_outbox
                                (refuse_outbox (dispatch_here s).0.reason (claim_outbox moment o))
                                (record (save_outbox (claim_outbox moment o) s) { authority = u }))
                            same;
                    answer = ap (λ z. z.0) (sym answered);
                  }))
            | inl (a, g, found, d, done) ↦ inr (
                inr (
                  written o a g s r s' loaded row_open found d
                    (insert_publication platform publication_made
                      (claimed_portal o (stamp moment a s.authority) s))
                    refl
                    (subst
                      (λ z.
                        dispatch_claimed platform new_id account i payload moment
                          (claim_outbox moment o) z (save_outbox (claim_outbox moment o) s)
                        ≡ ok (r, s'))
                      done e)))
          ]

    -- A call that does not raise changes nothing and publishes nothing; or the recheck refuses, and
    -- then the row of the intent is invalidated, never put back in the queue; or it publishes, and
    -- then an open row and an authority that held at this moment stood behind it, which it consumed.
    pub publish_case-Outcome :
        (s : Portal Payload) (r : PublishResult) (s' : Portal Payload)
        → publish_case platform new_id account i payload moment stop locked s ≡ ok (r, s')
        → PublishOutcome platform new_id account i payload moment stop locked s r s'
    unfolding publish_case publish_row
    publish_case-Outcome s r s' e = elim (Option-cases (load_outbox account i.id locked s)) [
      | inl missing ↦
          let answered = ok-injective (rw (missing, publish_case) at e) in
          inl (ap (λ z. z.0.published) (sym answered), ap (λ z. z.1) (sym answered))
      | inr (o, loaded) ↦ by_status o loaded (rw (loaded, publish_case) at e)
    ]
      where
        by_status :
            (o : Outbox)
            → load_outbox account i.id locked s ≡ some o
            → publish_row platform new_id account i payload moment stop o s ≡ ok (r, s')
            → PublishOutcome platform new_id account i payload moment stop locked s r s'
        by_status o loaded e' = elim (Bool-cases (is_sent o.status)) [
          | inl sent ↦
              let answered = ok-injective (rw (sent, publish_row) at e') in
              inl (ap (λ z. z.0.published) (sym answered), ap (λ z. z.1) (sym answered))
          | inr unsent ↦ elim (Bool-cases (is_closed o.status)) [
            | inl closed ↦
                let answered =
                  ok-injective (rw (closed, publish_row) at (rw (unsent, publish_row) at e')) in
                inl (ap (λ z. z.0.published) (sym answered), ap (λ z. z.1) (sym answered))
            | inr unclosed ↦
                claimed_row o s r s' loaded (open_row o.status unsent unclosed)
                  (rw (unclosed, publish_row) at (rw (unsent, publish_row) at e'))
          ]
        ]
