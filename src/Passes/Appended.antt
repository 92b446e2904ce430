-- ===== src/Passes/Appended.antt =====
-- What a pass of packages/pipeline/eastmed_pipeline/reconciliation_dispatch.py adds to the publications.
use mari_time_system.Prelude.{
  ℕ, zero, suc, ◌≡◌, refl, ◌∙◌, String, Option, none, some, List, [], ◌∷◌, count, inl, inr,
  Bool-cases, ok, Returns, Returns-bind, Returns-ok, arith, select,
}
use mari_time_system.Runtime.State.{Run, Store, TaskClaim}
use mari_time_system.Runtime.Tasks.{default_lease, claim_task}
use mari_time_system.Publication.State.{AutomationStatus, Case}
use mari_time_system.Passes.State.{
  World, PassArguments, Services, StepKeys, RunKeys, DispatchStep, PassSummary, is_idle, halts,
  is_completed, completed_of,
}
use mari_time_system.Passes.Schedule.{
  is_ready_case, start_case_workflow, mark_started, start_cases, enqueue_ready_cases,
}
use mari_time_system.Passes.Execute.{run_claimed, execute_next}
use mari_time_system.Passes.Drain.{drain, run_reconciliation_pass}
use mari_time_system.Passes.Written.{status_written}
use mari_time_system.Passes.Appends.{Appends, none_added, then_added, relaxed}
use mari_time_system.Passes.Adds.{Adds, run_claimed-Adds}

module _ (services : Services) (arguments : PassArguments) where
  execute_next-Adds :
      (keys : StepKeys) (w : World)
      → Returns (Adds services arguments w) (execute_next services arguments keys w)
  unfolding execute_next run_claimed
  execute_next-Adds keys w =
      Returns-bind (Adds services arguments w)
        (claim_task keys.attempt_id arguments.account_id arguments.moment default_lease
          services.task_locked w.runtime)
        _ (λ claimed e. by_claim claimed.0 claimed.1)
    where
      by_claim :
          (c : Option TaskClaim) (s : Store)
          → Returns
              (Adds services arguments w)
              (run_claimed services arguments keys c (record w { runtime = s }))
      by_claim none s = none_added arguments.account_id 1 w.portal w.portal refl
      by_claim (some c) s = run_claimed-Adds services arguments keys c (record w { runtime = s })

  -- The steps of a list add no more than their number, and at least the completed ones.
  abbrev Drains : ℕ → World → List DispatchStep × World → Type 0
  Drains n w done =
      Appends arguments.account_id (count is_completed done.0) n w.portal done.1.portal

  drain-Drains :
      (keys : ℕ → StepKeys) (n : ℕ) (w : World)
      → Returns (Drains n w) (drain services arguments keys n w)
  unfolding drain
  drain-Drains keys zero w = none_added arguments.account_id 0 w.portal w.portal refl
  drain-Drains keys (suc n) w =
      Returns-bind (Drains (suc n) w) (execute_next services arguments (keys n) w) _ (λ next e.
        let adds =
          Returns-ok (Adds services arguments w) (execute_next services arguments (keys n) w)
            (execute_next-Adds (keys n) w) e in
        elim (Bool-cases (is_idle next.0)) [
          | inl idle ↦
              rw (idle, Returns)
                (relaxed arguments.account_id w.portal next.1.portal (omega arith) (omega arith)
                  adds)
          | inr busy ↦ elim (Bool-cases (halts next.0)) [
            | inl stops ↦
                rw (busy, stops, Returns)
                  (relaxed arguments.account_id w.portal next.1.portal (omega arith) (omega arith)
                    adds)
            | inr goes ↦
                rw (busy, goes, Returns)
                  (Returns-bind (Drains (suc n) w) (drain services arguments keys n next.1) _
                    (λ rest f.
                      let ih =
                        Returns-ok (Drains n next.1) (drain services arguments keys n next.1)
                          (drain-Drains keys n next.1) f in
                      relaxed arguments.account_id w.portal rest.1.portal (omega arith)
                        (omega arith)
                        (then_added arguments.account_id w.portal next.1.portal rest.1.portal adds
                          ih)))
          ]
        ])

  start_cases-publications :
      (budget_units : ℕ) (version : String) (keys : ℕ → RunKeys) (cs : List Case) (w : World)
      → Returns
          (λ done. done.1.portal.publications ≡ w.portal.publications)
          (start_cases arguments.account_id arguments.system_fingerprint budget_units version
            arguments.moment keys cs w)
  unfolding start_cases
  start_cases-publications budget_units version keys [] w = refl
  start_cases-publications budget_units version keys (c ∷ cs) w =
      Returns-bind (λ done. done.1.portal.publications ≡ w.portal.publications)
        (start_case_workflow arguments.account_id arguments.system_fingerprint budget_units version
          arguments.moment (keys c.id) c w.runtime)
        _
        (λ started e.
          let w' =
            mark_started arguments.account_id arguments.system_fingerprint budget_units version
              arguments.moment c started w in
          Returns-bind (λ done. done.1.portal.publications ≡ w.portal.publications)
            (start_cases arguments.account_id arguments.system_fingerprint budget_units version
              arguments.moment keys cs w')
            _
            (λ rest f.
              Returns-ok (λ done. done.1.portal.publications ≡ w'.portal.publications) _
                (start_cases-publications budget_units version keys cs w') f
              ∙ marked started.0 started.1))
    where
      marked :
          (opened : Option Run) (s : Store)
          → (mark_started arguments.account_id arguments.system_fingerprint budget_units version
              arguments.moment c
              (opened, s)
              w).portal.publications
            ≡ w.portal.publications
      marked none s = refl
      marked (some r) s = (status_written c.id AutomationStatus.received w.portal).0.publications

  -- A pass that returns has only added publications at the end of their table: of its own account, at
  -- most as many as the steps it may take, and at least as many as the steps that it reports as
  -- completed.
  pub run_reconciliation_pass-Appends :
      (run_keys : ℕ → RunKeys) (keys : ℕ → StepKeys) (budget_units : ℕ) (version : String)
      (max_steps : ℕ) (w w' : World) (summary : PassSummary)
      → run_reconciliation_pass services arguments run_keys keys budget_units version max_steps w
        ≡ ok (summary, w')
      → Appends arguments.account_id (completed_of summary) max_steps w.portal w'.portal
  unfolding run_reconciliation_pass enqueue_ready_cases
  run_reconciliation_pass-Appends run_keys keys budget_units version max_steps w w' summary e =
      Returns-ok (λ done. Drains max_steps w (done.0.steps, done.1))
        (run_reconciliation_pass services arguments run_keys keys budget_units version max_steps w)
        (Returns-bind (λ done. Drains max_steps w (done.0.steps, done.1))
          (enqueue_ready_cases arguments.account_id arguments.system_fingerprint budget_units
            version arguments.moment run_keys w)
          _
          (λ scheduled f.
            Returns-bind (λ done. Drains max_steps w (done.0.steps, done.1))
              (drain services arguments keys max_steps scheduled.1) _
              (λ drained g.
                relaxed arguments.account_id w.portal drained.1.portal (omega arith) (omega arith) (
                  then_added arguments.account_id w.portal scheduled.1.portal drained.1.portal
                    (none_added arguments.account_id 0 w.portal scheduled.1.portal (
                      Returns-ok (λ done. done.1.portal.publications ≡ w.portal.publications) _
                        (start_cases-publications budget_units version run_keys
                          (select (is_ready_case arguments.account_id) w.portal.cases) w)
                        f))
                    (Returns-ok (Drains max_steps scheduled.1) _
                      (drain-Drains keys max_steps scheduled.1) g)))))
        e
