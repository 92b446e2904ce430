-- ===== src/Passes/Reconciled.antt =====
-- What `_run_reconcile_stage` of packages/pipeline/eastmed_pipeline/reconciliation_dispatch.py writes.
use mari_time_system.Prelude.{
  ◌≡◌, refl, ◌∙◌, sym, subst, none, some, length, true, false, inl, inr, Bool-cases, ok, Returns,
  Returns-bind, Returns-imp, Returns-ok,
}
use mari_time_system.Runtime.State.{WorkflowStage, TaskClaim}
use mari_time_system.Runtime.Tasks.{commit_stage}
use mari_time_system.Publication.State.{AutomationStatus, BusinessStatus, Case, Verdict, Portal}
use mari_time_system.Publication.Lookups.{set_case_status}
use mari_time_system.Cases.Rows.{ExpectedJob}
use mari_time_system.Cases.Build.{ResultJson, CaseResult, compute_case_result}
use mari_time_system.Cases.Commit.{Version, verdict_for, record_verification_verdict}
use mari_time_system.Cases.History.{recorded_row}
use mari_time_system.Passes.State.{
  World, PassArguments, Services, StepKeys, DispatchResult, DispatchStep,
}
use mari_time_system.Passes.Stages.{
  set_business, version_for, commit_claim, after_verdict, run_reconcile_stage,
}
use mari_time_system.Passes.Judged.{
  VersionOf, Judges, version_for-VersionOf, record_verification_verdict-Judges,
}
use mari_time_system.Passes.Written.{
  versions_kept, verdicts_kept, Unpublished, compose_writes, status_written, business_written,
  version_written, verdict_written, final_commit, commit_portal,
}

module _ (services : Services) (arguments : PassArguments) (keys : StepKeys) (claim : TaskClaim)
    (c : Case) (job : ExpectedJob) where
  -- What the step and the tables say, with the verdict that the step is about.
  pub record Reconciled (w : World) (step : DispatchStep) (w' : World) : Type 0 where
    pub result : CaseResult
    pub version : Version
    pub verdict : Verdict
    pub computed :
        compute_case_result services.reading w.sources arguments.account_id job services.hashes
        ≡ ok result
    pub of_result : VersionOf arguments.account_id c result w'.portal.versions version
    pub judges :
        Judges services.reading w.sources arguments.account_id job version result w.portal.verdicts
          verdict
    pub stored : verdict_for arguments.account_id version.id w'.portal.verdicts ≡ some verdict
    pub completing : step.result ≡ DispatchResult.advanced → verdict.completes ≡ true
    pub withheld :
        verdict.completes ≡ false
        → (step.result ≡ DispatchResult.unresolved)
          × (length w'.runtime.tasks ≡ length w.runtime.tasks)
    pub unpublished : Unpublished w.portal w'.portal

  -- What follows the verdict: the tables of the publications and the verdicts stay.
  abbrev Follows : Verdict → World → DispatchStep × World → Type 0
  Follows verdict w done =
      (done.0.result ≡ DispatchResult.advanced → verdict.completes ≡ true)
      × (verdict.completes ≡ false
          → (done.0.result ≡ DispatchResult.unresolved)
            × (length done.1.runtime.tasks ≡ length w.runtime.tasks))
      × Unpublished w.portal done.1.portal
      × (done.1.portal.verdicts ≡ w.portal.verdicts)
      × (done.1.portal.versions ≡ w.portal.versions)

  commit_tasks :
      (w : World)
      → Returns
          (λ done. length done.1.runtime.tasks ≡ length w.runtime.tasks)
          (commit_claim services arguments keys claim none w)
  commit_tasks w =
      Returns-bind (λ done. length done.1.runtime.tasks ≡ length w.runtime.tasks)
        (commit_stage keys.next_task_id arguments.account_id claim arguments.moment none none none
          w.runtime)
        _
        (λ stored e.
          final_commit keys.next_task_id arguments.account_id claim arguments.moment w.runtime
            stored e)

  -- What a portal that a commit left equal keeps of an earlier one.
  carried :
      (s s' t : Portal ResultJson)
      → Unpublished s s' × (s'.verdicts ≡ s.verdicts) × (s'.versions ≡ s.versions)
      → t ≡ s'
      → Unpublished s t × (t.verdicts ≡ s.verdicts) × (t.versions ≡ s.versions)
  carried s s' t h e =
      subst (λ t. Unpublished s t × (t.verdicts ≡ s.verdicts) × (t.versions ≡ s.versions)) (sym e) h

  after_verdict-Follows :
      (verdict : Verdict) (w : World)
      → Returns (Follows verdict w) (after_verdict services arguments keys claim c verdict w)
  after_verdict-Follows verdict w = elim (Bool-cases verdict.completes) [
    | inl completes ↦
        let portal = set_business c BusinessStatus.variance_present w.portal in
        let one = business_written c BusinessStatus.variance_present w.portal in
        let w' : World = record w { portal = portal } in
        rw (completes, Returns)
          (Returns-bind (Follows verdict w)
            (commit_claim services arguments keys claim (some WorkflowStage.publish) w') _
            (λ done e.
              let kept =
                carried w.portal portal done.1.portal
                  (
                    one.0,
                    one.1,
                    (versions_kept c.id AutomationStatus.calculated c
                        BusinessStatus.variance_present w.portal).1,
                  )
                  (Returns-ok (λ done. done.1.portal ≡ w'.portal) _
                    (commit_portal services arguments keys claim (some WorkflowStage.publish) w')
                    e) in
              ((λ advanced. completes), (λ open_. absurd (cc)), kept.0, kept.1, kept.2)))
    | inr open_ ↦
        let business = set_business c BusinessStatus.unresolved w.portal in
        let portal = set_case_status c.id AutomationStatus.waiting_for_machine_data business in
        let w' : World = record w { portal = portal } in
        let one = business_written c BusinessStatus.unresolved w.portal in
        let two = status_written c.id AutomationStatus.waiting_for_machine_data business in
        rw (open_, Returns)
          (Returns-bind (Follows verdict w) (commit_claim services arguments keys claim none w') _
            (λ done e.
              let kept =
                carried w.portal portal done.1.portal
                  (
                    compose_writes one.0 two.0,
                    two.1 ∙ one.1,
                    (versions_kept c.id AutomationStatus.waiting_for_machine_data c
                          BusinessStatus.unresolved business).0
                        ∙ (versions_kept c.id AutomationStatus.calculated c
                            BusinessStatus.unresolved w.portal).1,
                  )
                  (Returns-ok (λ done. done.1.portal ≡ w'.portal) _
                    (commit_portal services arguments keys claim none w') e) in
              (
                (λ advanced. absurd (cc)),
                (λ h. (
                  refl,
                  Returns-ok (λ done. length done.1.runtime.tasks ≡ length w'.runtime.tasks) _
                      (commit_tasks w') e,
                )),
                kept.0,
                kept.1,
                kept.2,
              )))
  ]

  -- A reconcile stage that returns has computed a result for the job and published and proposed
  -- nothing. A version of this case with the content of that result is stored, and so is the verdict
  -- on that version: it was stored for it before, or it is what the verifier makes of this very
  -- result. The step advances only if this verdict completes, and if it does not complete then the
  -- step is unresolved and no task was added.
  pub run_reconcile_stage-Reconciled :
      (w w' : World) (step : DispatchStep)
      → run_reconcile_stage services arguments keys claim c job w ≡ ok (step, w')
      → Reconciled w step w'
  unfolding run_reconcile_stage
  run_reconcile_stage-Reconciled w w' step e =
      Returns-ok (λ done. Reconciled w done.0 done.1)
        (run_reconcile_stage services arguments keys claim c job w)
        (Returns-bind (λ done. Reconciled w done.0 done.1)
          (compute_case_result services.reading w.sources arguments.account_id job services.hashes)
          _
          (λ result f.
            Returns-bind (λ done. Reconciled w done.0 done.1)
              (version_for keys.version_id arguments.account_id c result w.portal) _
              (λ version g.
                Returns-bind (λ done. Reconciled w done.0 done.1)
                  (record_verification_verdict services.reading w.sources arguments.account_id job
                    keys.verdict_id version.0 result version.1)
                  _ (λ verdict h. of_verdict result version verdict f g h))))
        e
    where
      of_verdict :
          (result : CaseResult) (version : Version × Portal ResultJson)
          (verdict : Verdict × Portal ResultJson)
          → compute_case_result services.reading w.sources arguments.account_id job services.hashes
            ≡ ok result
          → version_for keys.version_id arguments.account_id c result w.portal ≡ ok version
          → record_verification_verdict services.reading w.sources arguments.account_id job
              keys.verdict_id version.0 result version.1
            ≡ ok verdict
          → Returns
              (λ done. Reconciled w done.0 done.1)
              (after_verdict services arguments keys claim c verdict.0
                (record w { portal = set_case_status c.id AutomationStatus.calculated verdict.1 }))
      of_verdict result version verdict f g h =
          let calculated = set_case_status c.id AutomationStatus.calculated verdict.1 in
          let written = status_written c.id AutomationStatus.calculated verdict.1 in
          let judges =
            record_verification_verdict-Judges services.reading w.sources arguments.account_id job
              keys.verdict_id version.0 result version.1 verdict h in
          let verdicts =
            verdicts_kept keys.version_id arguments.account_id c result w.portal version g in
          let before =
            compose_writes
              (compose_writes
                (version_written keys.version_id arguments.account_id c result w.portal version g)
                (verdict_written services w arguments.account_id job keys.verdict_id version.0
                  result version.1 verdict h))
              written.0 in
          Returns-imp (Follows verdict.0 (record w { portal = calculated }))
            (λ done. Reconciled w done.0 done.1)
            (after_verdict services arguments keys claim c verdict.0
              (record w { portal = calculated }))
            (λ done follows. record {
              result = result;
              version = version.0;
              verdict = verdict.0;
              computed = f;
              of_result =
                  subst (λ rows. VersionOf arguments.account_id c result rows version.0)
                    (sym (
                      follows.4
                      ∙ (versions_kept c.id AutomationStatus.calculated c BusinessStatus.unresolved
                          verdict.1).0
                      ∙ judges.1))
                    (version_for-VersionOf keys.version_id arguments.account_id c result w.portal
                      version g);
              judges =
                  subst
                    (λ rows.
                      Judges services.reading w.sources arguments.account_id job version.0 result
                        rows verdict.0)
                    verdicts judges.0;
              stored =
                  subst
                    (λ rows. verdict_for arguments.account_id version.0.id rows ≡ some verdict.0)
                    (sym (follows.3 ∙ written.1))
                    (recorded_row services.reading w.sources arguments.account_id job version.0
                      keys.verdict_id result version.1 {row = verdict.0} {s' = verdict.1} h);
              completing = follows.0;
              withheld = follows.1;
              unpublished = compose_writes before follows.2;
            })
            (after_verdict-Follows verdict.0 (record w { portal = calculated }))
