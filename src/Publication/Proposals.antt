-- ===== src/Publication/Proposals.antt =====
-- What a proposal of reconciliation_publication.py commits.
use mari_time_system.Prelude.{
  ℕ, ◌≡◌, refl, sym, ap, ◌∙◌, String, Option, none, some, [], ◌∷◌, ◌++◌, Bool, false, ◌&&◌, ◌==◌,
  arith, any, get_row, Result, ok, err, ok-injective, Option-cases, inl, inr, ◌>>=◌, ◌⊎◌,
}
use mari_time_system.Authority.Policy.{ActionRequest}
use mari_time_system.Authority.Attestation.{
  AttestationDecision, Attestation, AuthorityStore, Platform, attest_action,
}
use mari_time_system.Authority.Attested.{Warranted, Receipt, attest_action-Receipt}
use mari_time_system.Publication.State.{
  AutomationStatus, Case, CaseVersion, Verdict, Intent, Outbox, Portal, ProposeResult,
}
use mari_time_system.Publication.Propose.{
  gate_denied, ready_with, ProposalKeys, verdict_gate_reason, publication_request, new_intent,
  new_outbox, commit_intent, propose_attested, propose_judged, propose_publication,
}
use mari_time_system.Publication.Lookups.{existing_intent, load_verdict, set_case_status}
use mari_time_system.Publication.Gate.{Entitles, verdict_gate_reason_iff_Entitles}
use mari_time_system.Publication.Proposal.{action_key_here, request_with, Opened, ProposeOutcome}

module _ {Payload : Type 0} (platform : Platform Payload)
    (calculator_version : Payload → String) where
  module _ (keys : ProposalKeys) (account : ℕ) (c : Case) (version : CaseVersion Payload)
      (subject fingerprint destination case_type : String) (moment : ℕ) (stop : Bool) where
    abbrev key_here : String
    key_here =
        action_key_here platform calculator_version keys account c version subject fingerprint
          destination case_type moment stop

    abbrev request_for : Verdict → ActionRequest Payload
    request_for =
        request_with platform calculator_version keys account c version subject fingerprint
          destination case_type moment stop

    -- A refusal that leaves the tables.
    refused_with :
        (s : Portal Payload) (r : ProposeResult) (s' : Portal Payload)
        → r.ready ≡ false
        → s'.cases ≡ s.cases
        → s'.intents ≡ s.intents
        → s'.outbox ≡ s.outbox
        → s'.publications ≡ s.publications
        → ProposeOutcome platform calculator_version keys account c version subject fingerprint
            destination case_type moment stop s r s'
    refused_with s r s' not_ready cases intents outbox publications = inl (record {
      not_ready = not_ready;
      same_cases = cases;
      same_intents = intents;
      same_outbox = outbox;
      same_publications = publications;
    })

    set_case_status-tables :
        (id : ℕ) (status : AutomationStatus) (s : Portal Payload)
        → ((set_case_status id status s).intents ≡ s.intents)
          × ((set_case_status id status s).outbox ≡ s.outbox)
          × ((set_case_status id status s).publications ≡ s.publications)
    unfolding set_case_status
    set_case_status-tables id status s = ground arith

    abbrev intent_for : Attestation → Intent
    unfolding new_intent
    intent_for a =
        new_intent platform calculator_version keys.intent_id account c version key_here destination
          a

    abbrev row_for : Attestation → Outbox
    unfolding new_outbox
    row_for a = new_outbox platform calculator_version keys.outbox_id account (intent_for a) moment

    abbrev answered_after : Attestation → Portal Payload → Result (ProposeResult × Portal Payload)
    answered_after a x =
        ok (
          ready_with a.id keys.intent_id,
          set_case_status c.id AutomationStatus.publication_ready x,
        )

    commit_intent-adds :
        (i : Intent) (o : Outbox) (s s' : Portal Payload)
        → commit_intent platform calculator_version i o s ≡ ok s'
        → (s'.intents ≡ s.intents ++ i ∷ [])
          × (s'.outbox ≡ s.outbox ++ o ∷ [])
          × (s'.publications ≡ s.publications)
          × (get_row (λ x. x.id) o.id s.outbox ≡ none)
          × (any (λ x. x.account_id == o.account_id && x.intent_id == o.intent_id) s.outbox ≡ false)
    unfolding commit_intent
    commit_intent-adds i o s s' e = elim (Option-cases (get_row (λ x. x.id) o.id s.outbox)) [
      | inl fresh ↦ (ground arith, ground arith, ground arith, fresh, ground arith)
      | inr (x, taken) ↦ absurd (ground arith)
    ]

    attested :
        (v : Verdict) (a : Attestation) (u : AuthorityStore) (s : Portal Payload)
        (r : ProposeResult) (s' : Portal Payload)
        → load_verdict account version.id s ≡ some v
        → Entitles platform calculator_version v c version
        → existing_intent account key_here s ≡ none
        → attest_action platform keys.attestation_id account (request_for v) moment stop s.authority
          ≡ ok (a, u)
        → propose_attested platform calculator_version keys account c version destination moment a
            (record s { authority = u })
          ≡ ok (r, s')
        → ProposeOutcome platform calculator_version keys account c version subject fingerprint
            destination case_type moment stop s r s'
    unfolding propose_attested commit_intent new_intent new_outbox publication_request
    attested v a u s r s' loaded entitled fresh e e' =
        let (iff, receipt) =
          attest_action-Receipt platform keys.attestation_id account (request_for v) moment stop
            s.authority u a e in
        elim (Decision-cases a.decision) [
          | inl denied ↦
              refused_with s r s' (ground arith) (ground arith) (ground arith) (ground arith)
                (ground arith)
          | inr granted ↦ inr (inr (opened a granted (iff.0 granted) receipt e'))
        ]
      where
        Decision-cases :
            (d : AttestationDecision)
            → (d ≡ AttestationDecision.deny) ⊎ (d ≡ AttestationDecision.allow)
        Decision-cases AttestationDecision.allow = inr refl
        Decision-cases AttestationDecision.deny = inl refl

        opened :
            (a : Attestation)
            → a.decision ≡ AttestationDecision.allow
            → Warranted platform account (request_for v) moment stop s.authority
            → Receipt platform account (request_for v) a
            → propose_attested platform calculator_version keys account c version destination moment
                a
                (record s { authority = u })
              ≡ ok (r, s')
            → Opened platform calculator_version keys account c version subject fingerprint
                destination case_type moment stop s r s'
        opened a granted warranted receipt q =
            by_commit
              (commit_intent platform calculator_version (intent_for a) (row_for a)
                (record s { authority = u }))
              refl (rw (granted, propose_attested) at q)
          where
            by_commit :
                (m : Result (Portal Payload))
                → commit_intent platform calculator_version
                    (intent_for a)
                    (row_for a)
                    (record s { authority = u })
                  ≡ m
                → (m >>= answered_after a) ≡ ok (r, s')
                → Opened platform calculator_version keys account c version subject fingerprint
                    destination case_type moment stop s r s'
            by_commit (err x) p k = cc
            by_commit (ok x) p k =
                let tables = set_case_status-tables c.id AutomationStatus.publication_ready x in
                let added =
                  commit_intent-adds (intent_for a) (row_for a) (record s { authority = u }) x p in
                let answered = ok-injective k in
                record {
                  verdict = v;
                  intent = intent_for a;
                  row = row_for a;
                  verdict_loaded = loaded;
                  entitled = entitled;
                  warranted = warranted;
                  first_intent = fresh;
                  intent_added = ap (λ z. z.1.intents) (sym answered) ∙ tables.0 ∙ added.0;
                  row_added = ap (λ z. z.1.outbox) (sym answered) ∙ tables.1 ∙ added.1;
                  row_pending = refl;
                  row_of_intent = refl;
                  intent_key = (refl, refl);
                  content_bound = refl;
                  payload_bound = receipt.payload_bound;
                  fresh_row = added.3;
                  first_row = added.4;
                  same_publications =
                      ap (λ z. z.1.publications) (sym answered) ∙ tables.2 ∙ added.2;
                  answer = ap (λ z. z.0) (sym answered);
                }

    judged :
        (o : Option Verdict) (s : Portal Payload) (r : ProposeResult) (s' : Portal Payload)
        → load_verdict account version.id s ≡ o
        → existing_intent account key_here s ≡ none
        → propose_judged platform calculator_version keys account c version subject fingerprint
            destination case_type moment stop o s
          ≡ ok (r, s')
        → ProposeOutcome platform calculator_version keys account c version subject fingerprint
            destination case_type moment stop s r s'
    unfolding propose_judged
    judged none s r s' loaded fresh e =
        refused_with s r s' (ground arith) (ground arith) (ground arith) (ground arith)
          (ground arith)
    judged (some v) s r s' loaded fresh e =
        elim (Option-cases (verdict_gate_reason platform calculator_version v c version)) [
          | inr (reason, refused) ↦
              let same : ok (gate_denied reason, s) ≡ ok (r, s') =
                rw (refused, propose_judged) at e in
              refused_with s r s' (ground arith) (ground arith) (ground arith) (ground arith)
                (ground arith)
          | inl passed ↦
              by_attestation
                (attest_action platform keys.attestation_id account (request_for v) moment stop
                  s.authority)
                refl
                ((verdict_gate_reason_iff_Entitles platform calculator_version v c version).0
                  passed)
                (rw (passed, propose_judged) at e)
        ]
      where
        by_attestation :
            (q : Result (Attestation × AuthorityStore))
            → attest_action platform keys.attestation_id account
                (request_for v)
                moment
                stop
                s.authority
              ≡ q
            → Entitles platform calculator_version v c version
            → (q >>= λ x.
                propose_attested platform calculator_version keys account c version destination
                  moment x.0
                  (record s { authority = x.1 }))
              ≡ ok (r, s')
            → ProposeOutcome platform calculator_version keys account c version subject fingerprint
                destination case_type moment stop s r s'
        by_attestation (err x) q entitled e' = cc
        by_attestation (ok (a, u)) q entitled e' = attested v a u s r s' loaded entitled fresh q e'

    -- A proposal that does not raise is refused and leaves the cases, intents, outbox and
    -- publications as they are; or it repeats an earlier one and changes nothing; or it opens a
    -- new intent, which only a stored verdict that entitles this exact version and a grant that
    -- permits the request allow.
    pub propose_publication-Outcome :
        (s : Portal Payload) (r : ProposeResult) (s' : Portal Payload)
        → propose_publication platform calculator_version keys account c version subject fingerprint
            destination case_type moment stop s
          ≡ ok (r, s')
        → ProposeOutcome platform calculator_version keys account c version subject fingerprint
            destination case_type moment stop s r s'
    unfolding propose_publication
    propose_publication-Outcome s r s' e =
        elim (Option-cases (existing_intent account key_here s)) [
          | inr (i, found) ↦
              let same : ok (ready_with i.attestation_id i.id, s) ≡ ok (r, s') =
                rw (found, propose_publication) at e in
              inr (
                inl (record {
                  intent = i;
                  found = found;
                  answer = ground arith;
                  unchanged = ground arith;
                }))
          | inl fresh ↦
              judged (load_verdict account version.id s) s r s' refl fresh
                (rw (fresh, propose_publication) at e)
        ]
