-- ===== src/Passes/Adds.antt =====
-- What one step of packages/pipeline/eastmed_pipeline/reconciliation_dispatch.py adds to the publications.
use mari_time_system.Prelude.{
  ℕ, ◌≤◌, ◌≡◌, refl, ap, ◌∙◌, Option, none, some, [], ◌∷◌, ◌++◌, Bool, true, false, if◌then◌else◌,
  inl, inr, Option-cases, Bool-cases, Result, ok, err, get_row, Returns, Returns-bind, Returns-ok,
  Returns-imp, arith,
}
use mari_time_system.Runtime.State.{WorkflowStage, TaskClaim, StageOutcome}
use mari_time_system.Publication.State.{
  AutomationStatus, Case, Intent, Portal, ProposeResult, PublishResult, Verdict,
}
use mari_time_system.Publication.Propose.{private_portal, propose_publication}
use mari_time_system.Publication.Publish.{new_publication, publish_case}
use mari_time_system.Publication.ReadBack.{reconcile_publication}
use mari_time_system.Publication.Effect.{publish_case-Outcome}
use mari_time_system.Publication.Lookups.{set_case_status}
use mari_time_system.Publication.Unread.{reconcile_publication-Unread}
use mari_time_system.Cases.Rows.{ExpectedJob}
use mari_time_system.Cases.Build.{ResultJson, compute_case_result}
use mari_time_system.Cases.Commit.{Version, record_verification_verdict}
use mari_time_system.Passes.State.{
  World, PassArguments, Services, StepKeys, DispatchStep, is_completed, default_case_type,
}
use mari_time_system.Passes.Stages.{
  commit_claim, confirm, published_step, publish_intent, after_proposal, after_verdict,
  run_reconcile_stage, run_publish_stage, version_for,
}
use mari_time_system.Passes.Execute.{run_claimed}
use mari_time_system.Passes.StageRule.{run_claimed_by_stage}
use mari_time_system.Passes.Written.{commit_portal}
use mari_time_system.Passes.Reconciled.{run_reconcile_stage-Reconciled}
use mari_time_system.Passes.Completed.{proposed-publications}
use mari_time_system.Passes.Appends.{Appends, none_added, weakened}

module _ (services : Services) (arguments : PassArguments) where
  -- A step adds at most one publication, and one if it is completed.
  abbrev pub Adds : World → DispatchStep × World → Type 0
  Adds w done =
      Appends arguments.account_id (if is_completed done.0 then 1 else 0) 1 w.portal done.1.portal

  module _ (keys : StepKeys) (claim : TaskClaim) where
    after_verdict-open :
        (c : Case) (verdict : Verdict) (w : World)
        → Returns
            (λ done. is_completed done.0 ≡ false)
            (after_verdict services arguments keys claim c verdict w)
    after_verdict-open c verdict w = elim (Bool-cases verdict.completes) [
      | inl completes ↦
          rw (completes, Returns)
            (Returns-bind (λ done. is_completed done.0 ≡ false)
              (commit_claim services arguments keys claim (some WorkflowStage.publish) _) _
              (λ done e. ground arith))
      | inr open_ ↦
          rw (open_, Returns)
            (Returns-bind (λ done. is_completed done.0 ≡ false)
              (commit_claim services arguments keys claim none _) _ (λ done e. refl))
    ]

    run_reconcile_stage-open :
        (c : Case) (job : ExpectedJob) (w : World)
        → Returns
            (λ done. is_completed done.0 ≡ false)
            (run_reconcile_stage services arguments keys claim c job w)
    unfolding run_reconcile_stage
    run_reconcile_stage-open c job w =
        Returns-bind (λ done. is_completed done.0 ≡ false)
          (compute_case_result services.reading w.sources arguments.account_id job services.hashes)
          _
          (λ result e.
            Returns-bind (λ done. is_completed done.0 ≡ false)
              (version_for keys.version_id arguments.account_id c result w.portal) _
              (λ version f.
                Returns-bind (λ done. is_completed done.0 ≡ false)
                  (record_verification_verdict services.reading w.sources arguments.account_id job
                    keys.verdict_id version.0 result version.1)
                  _
                  (λ verdict g. after_verdict-open c verdict.0 (record w {
                    portal = set_case_status c.id AutomationStatus.calculated verdict.1;
                  }))))

    run_reconcile_stage-Adds :
        (c : Case) (job : ExpectedJob) (w : World)
        → Returns (Adds w) (run_reconcile_stage services arguments keys claim c job w)
    run_reconcile_stage-Adds c job w =
        by_result (run_reconcile_stage services arguments keys claim c job w) refl
          (run_reconcile_stage-open c job w)
      where
        by_result :
            (r : Result (DispatchStep × World))
            → run_reconcile_stage services arguments keys claim c job w ≡ r
            → Returns (λ done. is_completed done.0 ≡ false) r
            → Returns (Adds w) r
        by_result (err e) q h = tt
        by_result (ok done) q h =
            let kept =
              run_reconcile_stage-Reconciled services arguments keys claim c job w done.1 done.0
                q in
            rw h (
              none_added arguments.account_id 1 w.portal done.1.portal
                kept.unpublished.publications)

    -- A publication that is not confirmed completes nothing.
    published-Adds :
        (c : Case) (version : Version) (i : Intent) (s : Portal ResultJson)
        (published : PublishResult × Portal ResultJson)
        → publish_case services.platform keys.publication_id arguments.account_id i version.result
            arguments.moment false services.outbox_locked s
          ≡ ok published
        → Appends arguments.account_id
            (if (confirm services arguments keys i published.0 published.1).0 then 1 else 0)
            1
            s
            (confirm services arguments keys i published.0 published.1).1
    unfolding new_publication
    published-Adds c version i s published e =
        elim (publish_case-Outcome services.platform keys.publication_id arguments.account_id i
          version.result arguments.moment false services.outbox_locked s published.0 published.1
          e) [
            | inl kept ↦
                rw kept.0 (
                  none_added arguments.account_id 1 s published.1 (ap (λ u. u.publications) kept.1))
            | inr (inl invalidated) ↦ rw (ap (λ r. r.published) invalidated.answer) (
                none_added arguments.account_id 1 s published.1
                  (ap (λ u. u.publications) invalidated.only_row))
            | inr (inr made) ↦
                rw (ap (λ r. r.published) made.answer) (one_added published.1 made.published_row)
          ]
      where
        one_added :
            (after : Portal ResultJson)
            → after.publications
              ≡ s.publications
                ++ new_publication services.platform keys.publication_id arguments.account_id i
                    version.result arguments.moment
                  ∷ []
            → let read =
                reconcile_publication services.platform arguments.account_id i
                  services.outbox_locked after in
              Appends arguments.account_id (if read.0.confirmed then 1 else 0) 1 s read.1
        one_added after row = record {
          added =
              new_publication services.platform keys.publication_id arguments.account_id i
                version.result arguments.moment
              ∷ [];
          appended =
              (reconcile_publication-Unread services.platform arguments.account_id i
                services.outbox_locked after).same_publications
              ∙ row;
          own = (refl, tt);
          enough = ground arith;
          bounded = omega arith;
        }

    step_enough :
        (c : Case) (outcome : StageOutcome) (confirmed : Bool)
        → (if is_completed (published_step services arguments keys c outcome confirmed)
            then 1
            else 0)
          ≤ (if confirmed then 1 else 0)
    step_enough c outcome true = ground arith
    step_enough c outcome false = ground arith

    publish_intent-Adds :
        (c : Case) (version : Version) (w : World) (i : Intent)
        → Returns (Adds w) (publish_intent services arguments keys claim c version w i)
    unfolding publish_intent
    publish_intent-Adds c version w i =
        Returns-bind (Adds w)
          (publish_case services.platform keys.publication_id arguments.account_id i version.result
            arguments.moment false services.outbox_locked w.portal)
          _
          (λ published e.
            let confirmed = confirm services arguments keys i published.0 published.1 in
            let w' : World = record w { portal = confirmed.1 } in
            Returns-bind (Adds w) (commit_claim services arguments keys claim none w') _ (λ done f.
              weakened arguments.account_id w.portal w'.portal done.1.portal
                (step_enough c done.0 confirmed.0) (published-Adds c version i w.portal published e)
                (Returns-ok (λ d. d.1.portal ≡ w'.portal) _
                  (commit_portal services arguments keys claim none w') f)))

    after_proposal-Adds :
        (c : Case) (version : Version) (w : World) (proposed : ProposeResult) (intent_id : Option ℕ)
        → Returns
            (Adds w)
            (after_proposal services arguments keys claim c version proposed intent_id w)
    after_proposal-Adds c version w proposed none =
        none_added arguments.account_id 1 w.portal w.portal refl
    after_proposal-Adds c version w proposed (some intent_id) = elim (Bool-cases proposed.ready) [
      | inr refused ↦
          rw (refused, Returns) (none_added arguments.account_id 1 w.portal w.portal refl)
      | inl ready ↦ elim (Option-cases (get_row (λ i. i.id) intent_id w.portal.intents)) [
        | inl missing ↦ rw (ready, missing, Returns) tt
        | inr (i, found) ↦ rw (ready, found, Returns) (publish_intent-Adds c version w i)
      ]
    ]

    run_publish_stage-Adds :
        (c : Case) (version : Version) (w : World)
        → Returns (Adds w) (run_publish_stage services arguments keys claim c version w)
    unfolding run_publish_stage
    run_publish_stage-Adds c version w =
        Returns-bind (Adds w)
          (propose_publication services.platform (λ r. r.calculator_version) keys.proposal
            arguments.account_id c version arguments.principal_subject arguments.system_fingerprint
            private_portal default_case_type arguments.moment false w.portal)
          _
          (λ proposed e.
            Returns-imp (Adds (record w { portal = proposed.1 })) (Adds w)
              (after_proposal services arguments keys claim c version proposed.0
                proposed.0.intent_id (record w { portal = proposed.1 }))
              (λ done a. record {
                added = a.added;
                appended =
                    a.appended
                    ∙ ap (λ ps. ps ++ a.added)
                        (proposed-publications services arguments keys claim c version w.portal
                          proposed.1 proposed.0 e);
                own = a.own;
                enough = a.enough;
                bounded = a.bounded;
              })
              (after_proposal-Adds c version (record w { portal = proposed.1 }) proposed.0
                proposed.0.intent_id))

    pub run_claimed-Adds :
        (w : World) → Returns (Adds w) (run_claimed services arguments keys (some claim) w)
    run_claimed-Adds w =
        run_claimed_by_stage services arguments keys claim Adds
          (λ reason step w deferred.
            rw deferred (none_added arguments.account_id 1 w.portal w.portal refl))
          run_reconcile_stage-Adds run_publish_stage-Adds w
