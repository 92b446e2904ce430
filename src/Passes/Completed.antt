-- ===== src/Passes/Completed.antt =====
-- What a completed publish step of packages/pipeline/eastmed_pipeline/reconciliation_dispatch.py has
-- published.
use mari_time_system.Prelude.{
  ℕ, ◌≡◌, refl, sym, subst, ap, ◌∙◌, Option, none, some, [], ◌∷◌, ◌++◌, Bool, true, false, inl, inr,
  Option-cases, Bool-cases, Result, ok, get_row, Returns, Returns-bind, Returns-ok, arith,
}
use mari_time_system.Authority.Dispatch.{stamp}
use mari_time_system.Runtime.State.{TaskClaim, StageOutcome}
use mari_time_system.Publication.State.{Case, Intent, Portal, ProposeResult, PublishResult}
use mari_time_system.Publication.Propose.{private_portal, propose_publication}
use mari_time_system.Publication.Publish.{new_publication, publish_case}
use mari_time_system.Publication.ReadBack.{reconcile_publication}
use mari_time_system.Publication.Proposals.{propose_publication-Outcome}
use mari_time_system.Publication.Effect.{publish_case-Outcome}
use mari_time_system.Publication.Outcome.{Publishes}
use mari_time_system.Publication.Confirmed.{Confirmable, reconcile_publication_iff_Confirmable}
use mari_time_system.Publication.Unread.{reconcile_publication-Unread, Confirmable-Unread}
use mari_time_system.Cases.Build.{ResultJson}
use mari_time_system.Cases.Commit.{Version}
use mari_time_system.Passes.State.{
  World, PassArguments, Services, StepKeys, DispatchResult, DispatchStep, default_case_type,
}
use mari_time_system.Passes.Stages.{
  commit_claim, confirm, published_step, publish_intent, after_proposal, run_publish_stage,
}
use mari_time_system.Passes.Written.{commit_portal}

module _ (services : Services) (arguments : PassArguments) (keys : StepKeys) (claim : TaskClaim)
    (c : Case) (version : Version) where
  abbrev pub proposal : Portal ResultJson → Result (ProposeResult × Portal ResultJson)
  proposal s =
      propose_publication services.platform (λ r. r.calculator_version) keys.proposal
        arguments.account_id c version arguments.principal_subject arguments.system_fingerprint
        private_portal default_case_type arguments.moment false s

  -- The portal before, after the proposal and after the call that published, and at the end: the
  -- intent of the proposal was published, which added one row, and that row can be confirmed.
  pub record Completion (s s' : Portal ResultJson) : Type 0 where
    pub before : Portal ResultJson
    pub after : Portal ResultJson
    pub proposed : ProposeResult
    pub answer : PublishResult
    pub intent : Intent
    pub intent_id : ℕ
    pub proposes :
        propose_publication services.platform
          (λ r. r.calculator_version)
          keys.proposal
          arguments.account_id
          c
          version
          arguments.principal_subject
          arguments.system_fingerprint
          private_portal
          default_case_type
          arguments.moment
          false
          s
        ≡ ok (proposed, before)
    pub names_intent : proposed.intent_id ≡ some intent_id
    pub intent_read : get_row (λ x. x.id) intent_id before.intents ≡ some intent
    pub publishes :
        Publishes services.platform keys.publication_id arguments.account_id intent version.result
          arguments.moment false services.outbox_locked before answer after
    pub one_added :
        s'.publications
        ≡ s.publications
          ++ new_publication services.platform keys.publication_id arguments.account_id intent
              version.result arguments.moment
            ∷ []
    pub consumed : s'.authority ≡ stamp arguments.moment publishes.attestation before.authority
    pub confirmable :
        Confirmable services.platform arguments.account_id intent services.outbox_locked s'

  abbrev Completes : Portal ResultJson → DispatchStep × World → Type 0
  Completes s done = done.0.result ≡ DispatchResult.completed → Completion s done.1.portal

  -- Only a confirmation completes a step.
  pub completed-confirmed :
      (outcome : StageOutcome) (confirmed : Bool)
      → (published_step services arguments keys c outcome confirmed).result
        ≡ DispatchResult.completed
      → confirmed ≡ true
  completed-confirmed outcome true h = refl
  completed-confirmed outcome false h = ground arith

  pub proposed-publications :
      (s before : Portal ResultJson) (proposed : ProposeResult)
      → proposal s ≡ ok (proposed, before)
      → before.publications ≡ s.publications
  proposed-publications s before proposed e =
      elim (propose_publication-Outcome services.platform (λ r. r.calculator_version) keys.proposal
        arguments.account_id c version arguments.principal_subject arguments.system_fingerprint
        private_portal default_case_type arguments.moment false s proposed before e) [
          | inl refused ↦ refused.same_publications
          | inr (inl repeated) ↦ ap (λ u. u.publications) repeated.unchanged
          | inr (inr opened) ↦ opened.same_publications
        ]

  module _ (s before : Portal ResultJson) (proposed : ProposeResult) (intent_id : ℕ) (i : Intent)
      (e : proposal s ≡ ok (proposed, before)) (named : proposed.intent_id ≡ some intent_id)
      (read : get_row (λ x. x.id) intent_id before.intents ≡ some i) where
    published-Completion :
        (after : Portal ResultJson) (answer : PublishResult)
        → Publishes services.platform keys.publication_id arguments.account_id i version.result
            arguments.moment false services.outbox_locked before answer after
        → (reconcile_publication services.platform arguments.account_id i services.outbox_locked
            after).0.confirmed
          ≡ true
        → Completion s
            (reconcile_publication services.platform arguments.account_id i services.outbox_locked
              after).1
    unfolding new_publication
    published-Completion after answer published h =
        let left =
          reconcile_publication-Unread services.platform arguments.account_id i
            services.outbox_locked after in
        record {
          before = before;
          after = after;
          proposed = proposed;
          answer = answer;
          intent = i;
          intent_id = intent_id;
          proposes = e;
          names_intent = named;
          intent_read = read;
          publishes = published;
          one_added =
              left.same_publications
              ∙ published.published_row
              ∙ ap
                  (λ ps.
                    ps
                    ++ new_publication services.platform keys.publication_id arguments.account_id i
                        version.result arguments.moment
                      ∷ [])
                  (proposed-publications s before proposed e);
          consumed = left.same_authority ∙ published.consumed;
          confirmable =
              Confirmable-Unread services.platform arguments.account_id i services.outbox_locked
                after _ left
                ((reconcile_publication_iff_Confirmable services.platform arguments.account_id i
                    services.outbox_locked after).0.0
                  h);
        }

    confirmed-Completion :
        (published : PublishResult × Portal ResultJson)
        → publish_case services.platform keys.publication_id arguments.account_id i version.result
            arguments.moment false services.outbox_locked before
          ≡ ok published
        → (confirm services arguments keys i published.0 published.1).0 ≡ true
        → Completion s (confirm services arguments keys i published.0 published.1).1
    confirmed-Completion published f h =
        elim (publish_case-Outcome services.platform keys.publication_id arguments.account_id i
          version.result arguments.moment false services.outbox_locked before published.0
          published.1 f) [
            | inl kept ↦ absurd (ground (arith, kept.0))
            | inr (inl invalidated) ↦ absurd (ground (arith, invalidated.answer))
            | inr (inr published_) ↦
                let sent : published.0.published ≡ true = ap (λ r. r.published) published_.answer in
                rw sent (published-Completion published.1 published.0 published_ (rw sent at h))
          ]

    publish_intent-Completes :
        (w : World) (at_before : w.portal ≡ before)
        → Returns (Completes s) (publish_intent services arguments keys claim c version w i)
    unfolding publish_intent
    publish_intent-Completes w at_before =
        Returns-bind (Completes s)
          (publish_case services.platform keys.publication_id arguments.account_id i version.result
            arguments.moment false services.outbox_locked w.portal)
          _
          (λ published f.
            let confirmed = confirm services arguments keys i published.0 published.1 in
            let w' : World = record w { portal = confirmed.1 } in
            Returns-bind (Completes s) (commit_claim services arguments keys claim none w') _
              (λ done g completed.
                subst (Completion s)
                  (sym (
                    Returns-ok (λ d. d.1.portal ≡ w'.portal) _
                      (commit_portal services arguments keys claim none w') g))
                  (confirmed-Completion published (rw at_before at f)
                    (completed-confirmed done.0 confirmed.0 completed))))

  -- A publish step that is completed has published the intent of its proposal: an attestation of it
  -- might be dispatched at this moment with exactly the version's result, and is consumed; exactly one
  -- publication is added, which carries that result; and in the tables that the step leaves, the
  -- publication of the intent still hashes to what the intent binds and no newer revision of the case
  -- supersedes it.
  pub run_publish_stage-Completion :
      (w w' : World) (step : DispatchStep)
      → run_publish_stage services arguments keys claim c version w ≡ ok (step, w')
      → step.result ≡ DispatchResult.completed
      → Completion w.portal w'.portal
  unfolding run_publish_stage
  run_publish_stage-Completion w w' step q completed =
      Returns-ok (Completes w.portal) (run_publish_stage services arguments keys claim c version w)
        (Returns-bind (Completes w.portal) (proposal w.portal) _
          (λ proposed e. by_intent proposed.0 proposed.1 e proposed.0.intent_id refl))
        q completed
    where
      by_intent :
          (proposed : ProposeResult) (portal : Portal ResultJson)
          → proposal w.portal ≡ ok (proposed, portal)
          → (named : Option ℕ) → proposed.intent_id ≡ named
          → Returns (Completes w.portal) (
              after_proposal services arguments keys claim c version proposed named
                (record w { portal = portal }))
      by_intent proposed portal e none named = λ h. absurd (cc)
      by_intent proposed portal e (some intent_id) named = elim (Bool-cases proposed.ready) [
        | inr refused ↦ rw (refused, Returns) (λ h. absurd (cc))
        | inl ready ↦ elim (Option-cases (get_row (λ i. i.id) intent_id portal.intents)) [
          | inl missing ↦ rw (ready, missing, Returns) tt
          | inr (i, found) ↦
              rw (ready, found, Returns)
                (publish_intent-Completes w.portal portal proposed intent_id i e named found
                  (record w { portal = portal }) refl)
        ]
      ]
