-- ===== src/Publication/Runs/Proposed.antt =====
-- A proposal of reconciliation_publication.py keeps the account of effects.
use mari_time_system.Prelude.{
  ℕ, ◌≤◌, ◌≡◌, refl, sym, subst, String, none, List, [], ◌∷◌, ◌++◌, Bool, false, ==→≡, arith, any,
  get_row, append-Keyed, total, total-append, Result, ok, err, Bool-cases, inl, inr,
}
use mari_time_system.Authority.Attestation.{Platform}
use mari_time_system.Publication.State.{Case, CaseVersion, Outbox, Portal, ProposeResult}
use mari_time_system.Publication.Propose.{ProposalKeys, propose_publication}
use mari_time_system.Publication.Proposals.{propose_publication-Outcome}
use mari_time_system.Publication.Once.{of_intent, row_weight, open_weight, IntentOk, PortalOk}
use mari_time_system.Publication.Once.{same_tables}
use mari_time_system.Publication.Runs.{after_call}

module _ {Payload : Type 0} (platform : Platform Payload)
    (calculator_version : Payload → String) where
  no_rows :
      (account intent_id : ℕ) (rows : List Outbox)
      → any (of_intent account intent_id) rows ≡ false
      → (total (row_weight account intent_id) rows ≡ 0)
        × (total (open_weight account intent_id) rows ≡ 0)
  no_rows account intent_id [] h = (refl, refl)
  no_rows account intent_id (o ∷ rows) h = ground (arith, no_rows account intent_id rows)

  -- A new row, of an intent that had none, is the first thing that may lead to its publication.
  opened-PortalOk :
      (o : Outbox) (s s' : Portal Payload)
      → s'.outbox ≡ s.outbox ++ o ∷ []
      → s'.publications ≡ s.publications
      → get_row (λ x. x.id) o.id s.outbox ≡ none
      → any (of_intent o.account_id o.intent_id) s.outbox ≡ false
      → PortalOk s
      → PortalOk s'
  opened-PortalOk o s s' p q fresh first h = record {
    keyed = rw p (append-Keyed (λ x. x.id) s.outbox o fresh h.keyed);
    intents_ok = λ account intent_id. rw (p, q) (grown account intent_id);
  }
    where
      grown :
          (account intent_id : ℕ) → IntentOk account intent_id (s.outbox ++ o ∷ []) s.publications
      grown account intent_id = elim (Bool-cases (of_intent account intent_id o)) [
        | inl mine ↦
            let rows : any (of_intent account intent_id) s.outbox ≡ false =
              subst (λ z. any (of_intent z intent_id) s.outbox ≡ false)
                (==→≡ o.account_id account (ground arith))
                (subst (λ z. any (of_intent o.account_id z) s.outbox ≡ false)
                  (==→≡ o.intent_id intent_id (ground arith)) first) in
            let (none_stored, none_open) = no_rows account intent_id s.outbox rows in
            record {
              one_effect = omega (
                arith,
                (h.intents_ok account intent_id).backed,
                none_stored,
                none_open,
                total-append (open_weight account intent_id) s.outbox (o ∷ []),
                at_most_one account intent_id,
              );
              backed = omega (
                arith,
                (h.intents_ok account intent_id).backed,
                none_stored,
                total-append (row_weight account intent_id) s.outbox (o ∷ []),
              );
            }
        | inr other ↦ record {
          one_effect = omega (
            arith,
            (h.intents_ok account intent_id).one_effect,
            total-append (open_weight account intent_id) s.outbox (o ∷ []),
            closed account intent_id other,
          );
          backed = omega (
            arith,
            (h.intents_ok account intent_id).backed,
            total-append (row_weight account intent_id) s.outbox (o ∷ []),
          );
        }
      ]
        where
          at_most_one : (account intent_id : ℕ) → open_weight account intent_id o ≤ 1
          at_most_one account intent_id = ground arith

          closed :
              (account intent_id : ℕ)
              → of_intent account intent_id o ≡ false
              → open_weight account intent_id o ≡ 0
          closed account intent_id e = rw e refl

  pub proposed-PortalOk :
      (keys : ProposalKeys) (account : ℕ) (c : Case) (version : CaseVersion Payload)
      (subject fingerprint destination case_type : String) (moment : ℕ) (stop : Bool)
      (s : Portal Payload) (m : Result (ProposeResult × Portal Payload))
      → propose_publication platform calculator_version keys account c version subject fingerprint
          destination case_type moment stop s
        ≡ m
      → PortalOk s
      → PortalOk (after_call s m)
  proposed-PortalOk keys account c version subject fingerprint destination case_type moment stop s
        (err e) q h =
      h
  proposed-PortalOk keys account c version subject fingerprint destination case_type moment stop s
        (ok (r, s')) q h =
      elim (propose_publication-Outcome platform calculator_version keys account c version subject
        fingerprint destination case_type moment stop s r s' q) [
          | inl refused ↦ same_tables s s' refused.same_outbox refused.same_publications h
          | inr (inl repeated) ↦ subst PortalOk (sym repeated.unchanged) h
          | inr (inr opened) ↦
              opened-PortalOk opened.row s s' opened.row_added opened.same_publications
                opened.fresh_row opened.first_row h
        ]
