-- ===== src/Publication/Replay.antt =====
-- A replayed proposal of reconciliation_publication.py finds the intent of the first.
use mari_time_system.Prelude.{
  ℕ, ◌≡◌, refl, sym, subst, ap, ◌∙◌, String, eq_refl, none, some, List, [], ◌∷◌, ◌++◌, Bool, true,
  ==-refl, arith, find, Result, ok, inl, inr, false≢true,
}
use mari_time_system.Authority.Attestation.{Platform}
use mari_time_system.Publication.State.{Case, CaseVersion, Intent, Portal, ProposeResult}
use mari_time_system.Publication.Propose.{
  ProposalKeys, ready_with, publication_action_key, propose_publication,
}
use mari_time_system.Publication.Lookups.{existing_intent}
use mari_time_system.Publication.Proposals.{propose_publication-Outcome}

find-append {ℓ} :
    {A : Type ℓ}
    → (p : A → Bool) (xs : List A) (x : A) → find p xs ≡ none
    → p x ≡ true
    → find p (xs ++ x ∷ []) ≡ some x
find-append p [] x h e = rw e refl
find-append p (y ∷ xs) x h e = ground (arith, find-append p xs x)

module _ {Payload : Type 0} (platform : Platform Payload) (calculator_version : Payload → String)
    (account : ℕ) (c : Case) (version : CaseVersion Payload) where
  found_again :
      (keys : ProposalKeys) (subject fingerprint destination case_type : String) (moment : ℕ)
      (stop : Bool) (s : Portal Payload) (i : Intent)
      → existing_intent account
          (publication_action_key platform calculator_version account c.id version.content_hash)
          s
        ≡ some i
      → propose_publication platform calculator_version keys account c version subject fingerprint
          destination case_type moment stop s
        ≡ ok (ready_with i.attestation_id i.id, s)
  unfolding propose_publication
  found_again keys subject fingerprint destination case_type moment stop s i e =
      rw (e, propose_publication) refl

  opened-existing :
      (i : Intent) (s s' : Portal Payload) (key : String)
      → existing_intent account key s ≡ none
      → s'.intents ≡ s.intents ++ i ∷ []
      → i.account_id ≡ account
      → i.action_key ≡ key
      → existing_intent account key s' ≡ some i
  unfolding existing_intent
  opened-existing i s s' key none_before added mine same =
      rw added (
        find-append _ s.intents i none_before
          (rw (mine, same) (rw (==-refl account) (eq_refl key))))

  -- A proposal that was ready is idempotent: the same content proposed again, by any caller, with
  -- any keys and at any time, gives the same answer with the same intent and changes nothing.
  pub propose_publication-replay :
      (keys keys' : ProposalKeys)
      (subject subject' fingerprint fingerprint' destination destination' case_type
        case_type' : String)
      (moment moment' : ℕ) (stop stop' : Bool) (s : Portal Payload) (r : ProposeResult)
      (s' : Portal Payload)
      → propose_publication platform calculator_version keys account c version subject fingerprint
          destination case_type moment stop s
        ≡ ok (r, s')
      → r.ready ≡ true
      → propose_publication platform calculator_version keys' account c version subject'
          fingerprint' destination' case_type' moment' stop' s'
        ≡ ok (r, s')
  propose_publication-replay keys keys' subject subject' fingerprint fingerprint' destination
        destination' case_type case_type' moment moment' stop stop' s r s' e ready =
      elim (propose_publication-Outcome platform calculator_version keys account c version subject
        fingerprint destination case_type moment stop s r s' e) [
          | inl refused ↦ absurd (false≢true (sym refused.not_ready ∙ ready))
          | inr (inl repeated) ↦
              subst (λ z. again z ≡ ok (r, z)) (sym repeated.unchanged)
                (found_again keys' subject' fingerprint' destination' case_type' moment' stop' s
                    repeated.intent repeated.found
                  ∙ ap (λ z. ok (z, s)) (sym repeated.answer))
          | inr (inr opened) ↦
              found_again keys' subject' fingerprint' destination' case_type' moment' stop' s'
                opened.intent
                (opened-existing opened.intent s s' _ opened.first_intent opened.intent_added
                  opened.intent_key.0 opened.intent_key.1)
              ∙ ap (λ z. ok (z, s')) (sym opened.answer)
        ]
    where
      again : Portal Payload → Result (ProposeResult × Portal Payload)
      again z =
          propose_publication platform calculator_version keys' account c version subject'
            fingerprint' destination' case_type' moment' stop' z
