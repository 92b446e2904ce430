-- ===== src/Publication/Proposal.antt =====
-- What a proposal of reconciliation_publication.py can do.
use mari_time_system.Prelude.{
  ℕ, ◌≡◌, String, none, some, [], ◌∷◌, ◌++◌, Bool, false, ◌&&◌, ◌==◌, any, get_row, ◌⊎◌,
}
use mari_time_system.Authority.Policy.{ActionRequest}
use mari_time_system.Authority.Attestation.{Platform}
use mari_time_system.Authority.Attested.{Warranted}
use mari_time_system.Publication.State.{
  OutboxStatus, Case, CaseVersion, Verdict, Intent, Outbox, Portal, ProposeResult,
}
use mari_time_system.Publication.Propose.{
  ready_with, ProposalKeys, publication_action_key, publication_request,
}
use mari_time_system.Publication.Lookups.{existing_intent, load_verdict, evidence_from_verdict}
use mari_time_system.Publication.Gate.{Entitles}

module _ {Payload : Type 0} (platform : Platform Payload)
    (calculator_version : Payload → String) where
  module _ (keys : ProposalKeys) (account : ℕ) (c : Case) (version : CaseVersion Payload)
      (subject fingerprint destination case_type : String) (moment : ℕ) (stop : Bool) where
    abbrev pub action_key_here : String
    action_key_here =
        publication_action_key platform calculator_version account c.id version.content_hash

    abbrev pub request_with : Verdict → ActionRequest Payload
    request_with v =
        publication_request platform calculator_version account c version subject fingerprint
          destination case_type (evidence_from_verdict v)

    -- A new proposal that is ready: the stored verdict entitles the version, the grant and the
    -- principal permit the request with the evidence of that verdict, and the intent and its
    -- pending outbox row stand at the end of their tables, bound to the content and the payload.
    pub record Opened (s : Portal Payload) (r : ProposeResult) (s' : Portal Payload) : Type 0 where
      pub verdict : Verdict
      pub intent : Intent
      pub row : Outbox
      pub verdict_loaded : load_verdict account version.id s ≡ some verdict
      pub entitled : Entitles platform calculator_version verdict c version
      pub warranted : Warranted platform account (request_with verdict) moment stop s.authority
      pub first_intent : existing_intent account action_key_here s ≡ none
      pub intent_added : s'.intents ≡ s.intents ++ intent ∷ []
      pub row_added : s'.outbox ≡ s.outbox ++ row ∷ []
      pub row_pending : row.status ≡ OutboxStatus.pending
      pub row_of_intent : row.intent_id ≡ intent.id
      pub intent_key : (intent.account_id ≡ account) × (intent.action_key ≡ action_key_here)
      pub content_bound : intent.content_hash ≡ version.content_hash
      pub payload_bound : intent.payload_hash ≡ platform.canonical_payload_hash version.result
      pub fresh_row : get_row (λ x. x.id) row.id s.outbox ≡ none
      pub first_row :
          any (λ x. x.account_id == row.account_id && x.intent_id == row.intent_id) s.outbox ≡ false
      pub same_publications : s'.publications ≡ s.publications
      pub answer : r ≡ ready_with intent.attestation_id intent.id

    -- A refused proposal leaves the cases, the intents, the outbox and the publications.
    pub record Refused (s : Portal Payload) (r : ProposeResult) (s' : Portal Payload) : Type 0 where
      pub not_ready : r.ready ≡ false
      pub same_cases : s'.cases ≡ s.cases
      pub same_intents : s'.intents ≡ s.intents
      pub same_outbox : s'.outbox ≡ s.outbox
      pub same_publications : s'.publications ≡ s.publications

    -- A proposal whose content was proposed before answers with the intent that is there.
    pub record Repeated (s : Portal Payload) (r : ProposeResult) (s' : Portal Payload)
        : Type 0 where
      pub intent : Intent
      pub found : existing_intent account action_key_here s ≡ some intent
      pub answer : r ≡ ready_with intent.attestation_id intent.id
      pub unchanged : s' ≡ s

    abbrev pub ProposeOutcome : Portal Payload → ProposeResult → Portal Payload → Type 0
    ProposeOutcome s r s' = Refused s r s' ⊎ (Repeated s r s' ⊎ Opened s r s')
