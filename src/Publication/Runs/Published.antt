-- ===== src/Publication/Runs/Published.antt =====
-- A call of `publish_case` of reconciliation_publication.py keeps the account of effects.
use mari_time_system.Prelude.{
  ℕ, ◌+◌, ◌≤◌, ◌≡◌, refl, sym, subst, some, List, [], ◌∷◌, ◌++◌, Bool, true, false, ==→≡, arith,
  get_row, get_row-save_self, save_row, save_row-Keyed, total, total-append, total-save_row,
  le-total, Result, ok, err, inl, inr,
}
use mari_time_system.Authority.Attestation.{Platform}
use mari_time_system.Publication.State.{Intent, Outbox, Publication, Portal, PublishResult}
use mari_time_system.Publication.Publish.{new_publication, dispatch_outbox, publish_case}
use mari_time_system.Publication.Outbox.{is_undispatched, save_outbox, claim_outbox, refuse_outbox}
use mari_time_system.Publication.Effect.{publish_case-Outcome}
use mari_time_system.Publication.Outcome.{Publishes, Invalidates, publication_here}
use mari_time_system.Publication.Once.{
  loaded_row, save-PortalOk, claim-Lowers, refuse-Lowers, row_weight, open_weight, sent_weight,
  IntentOk, PortalOk,
}
use mari_time_system.Publication.Runs.{after_call}

module _ {Payload : Type 0} (platform : Platform Payload) where
  -- The open row of an intent closes when its publication is written.
  dispatched-IntentOk :
      (A k : ℕ) (o o' : Outbox) (rows : List Outbox) (p : Publication Payload)
      (ps : List (Publication Payload))
      → get_row (λ x. x.id) o'.id rows ≡ some o
      → o'.account_id ≡ o.account_id
      → o'.intent_id ≡ o.intent_id
      → is_undispatched o.status ≡ true
      → is_undispatched o'.status ≡ false
      → p.account_id ≡ o.account_id
      → p.intent_id ≡ o.intent_id
      → IntentOk A k rows ps
      → IntentOk A k (save_row (λ x. x.id) o' rows) (ps ++ p ∷ [])
  dispatched-IntentOk A k o o' rows p ps stored same_account same_intent row_open closed of_account
        of_intent_too h =
      record {
        one_effect = omega (arith, h.one_effect, appended, open_after, sent_is, open_is, closed_is);
        backed = omega (
          arith, h.backed, h.one_effect, appended, rows_after, sent_is, open_is, rows_is, rows_is',
          open_before, rows_before,
        );
      }
    where
      appended :
          total (sent_weight A k) (ps ++ p ∷ [])
          ≡ total (sent_weight A k) ps + (sent_weight A k p + 0)
      appended = total-append (sent_weight A k) ps (p ∷ [])

      open_after :
          total (open_weight A k) (save_row (λ x. x.id) o' rows) + open_weight A k o
          ≡ total (open_weight A k) rows + open_weight A k o'
      open_after = total-save_row (open_weight A k) (λ x. x.id) o' rows {old = o} stored

      rows_after :
          total (row_weight A k) (save_row (λ x. x.id) o' rows) + row_weight A k o
          ≡ total (row_weight A k) rows + row_weight A k o'
      rows_after = total-save_row (row_weight A k) (λ x. x.id) o' rows {old = o} stored

      open_before : open_weight A k o ≤ total (open_weight A k) rows
      open_before = le-total (open_weight A k) (λ x. x.id) o'.id rows stored

      rows_before : row_weight A k o ≤ total (row_weight A k) rows
      rows_before = le-total (row_weight A k) (λ x. x.id) o'.id rows stored

      sent_is : sent_weight A k p ≡ row_weight A k o
      sent_is = rw (of_account, of_intent_too) refl

      open_is : open_weight A k o ≡ row_weight A k o
      open_is = ground (arith, row_open)

      rows_is : row_weight A k o' ≡ row_weight A k o
      rows_is = rw (same_account, same_intent) refl

      rows_is' : row_weight A k o ≤ 1
      rows_is' = ground arith

      closed_is : open_weight A k o' ≡ 0
      closed_is = ground (arith, closed)

  published-PortalOk :
      (new_id account : ℕ) (i : Intent) (payload : Payload) (moment : ℕ) (stop : Bool)
      (locked : ℕ → Bool) (s : Portal Payload) (r : PublishResult) (s' : Portal Payload)
      → Publishes platform new_id account i payload moment stop locked s r s'
      → PortalOk s
      → PortalOk s'
  unfolding claim_outbox dispatch_outbox new_publication
  published-PortalOk new_id account i payload moment stop locked s r s' p h =
      let (stored, mine) = loaded_row account i.id locked s p.row h.keyed p.row_loaded in
      let after_claim =
        save-PortalOk p.row (claim_outbox moment p.row) s (claim-Lowers moment p.row p.row_open)
          stored h in
      record {
        keyed = rw p.sent (save_row-Keyed (λ x. x.id) _ _ after_claim.keyed);
        intents_ok = λ A k.
            rw (p.sent, p.published_row)
              (dispatched-IntentOk A k (claim_outbox moment p.row)
                (dispatch_outbox platform new_id (claim_outbox moment p.row))
                (save_row (λ x. x.id) (claim_outbox moment p.row) s.outbox)
                (publication_here platform new_id account i payload moment stop locked)
                s.publications
                (get_row-save_self (λ x. x.id) (claim_outbox moment p.row) s.outbox stored) refl
                refl refl refl (sym (==→≡ p.row.account_id account (ground arith)))
                (sym (==→≡ p.row.intent_id i.id (ground arith))) (after_claim.intents_ok A k));
      }

  pub published_call-PortalOk :
      (new_id account : ℕ) (i : Intent) (payload : Payload) (moment : ℕ) (stop : Bool)
      (locked : ℕ → Bool) (s : Portal Payload) (m : Result (PublishResult × Portal Payload))
      → publish_case platform new_id account i payload moment stop locked s ≡ m
      → PortalOk s
      → PortalOk (after_call s m)
  unfolding claim_outbox refuse_outbox
  published_call-PortalOk new_id account i payload moment stop locked s (err e) q h = h
  published_call-PortalOk new_id account i payload moment stop locked s (ok (r, s')) q h =
      elim (publish_case-Outcome platform new_id account i payload moment stop locked s r s' q) [
        | inl (refused, same) ↦ subst PortalOk (sym same) h
        | inr (inl x) ↦ subst PortalOk (sym x.only_row) (refused x)
        | inr (inr p) ↦ published-PortalOk new_id account i payload moment stop locked s r s' p h
      ]
    where
      refused :
          (x : Invalidates platform new_id account i payload moment stop locked s r s')
          → PortalOk (
              save_outbox
                (refuse_outbox x.reason (claim_outbox moment x.row))
                (save_outbox (claim_outbox moment x.row) s))
      refused x =
          let (stored, mine) = loaded_row account i.id locked s x.row h.keyed x.row_loaded in
          save-PortalOk (claim_outbox moment x.row)
            (refuse_outbox x.reason (claim_outbox moment x.row))
            (save_outbox (claim_outbox moment x.row) s) (refuse-Lowers x.reason moment x.row)
            (get_row-save_self (λ y. y.id) (claim_outbox moment x.row) s.outbox stored)
            (save-PortalOk x.row (claim_outbox moment x.row) s
              (claim-Lowers moment x.row x.row_open) stored h)
