-- ===== src/Passes/Scheduled.antt =====
-- How often `enqueue_ready_cases` of packages/pipeline/eastmed_pipeline/reconciliation_dispatch.py opens a
-- workflow for a case.
use mari_time_system.Prelude.{
  ℕ, pos, ◌∙◌, ◌≡◌, refl, String, Option, none, some, List, [], ◌∷◌, ◌++◌, true, false, arith,
  Bool-cases, inl, inr, ok, Returns, Returns-bind,
}
use mari_time_system.Runtime.State.{WorkflowStage, Task, Run, Store}
use mari_time_system.Runtime.Tasks.{create_run, enqueue_task}
use mari_time_system.Publication.State.{Case}
use mari_time_system.Passes.State.{RunKeys}
use mari_time_system.Passes.Schedule.{has_run, start_case_workflow}

pub has_run-append :
    (account case_id : ℕ) (runs : List Run) (r : Run)
    → has_run account case_id runs ≡ true
    → has_run account case_id (runs ++ r ∷ []) ≡ true
unfolding has_run
has_run-append account case_id [] r h = absurd (cc)
has_run-append account case_id (x ∷ runs) r h =
    ground (arith, has_run-append account case_id runs r)

pub has_run-new :
    (account case_id : ℕ) (runs : List Run) (r : Run)
    → r.account_id ≡ account
    → r.case_id ≡ case_id
    → has_run account case_id (runs ++ r ∷ []) ≡ true
unfolding has_run
has_run-new account case_id [] r own at = ground arith
has_run-new account case_id (x ∷ runs) r own at =
    ground (arith, has_run-new account case_id runs r own at)

module _ (account : ℕ) (fingerprint : String) (budget_units : ℕ) (version : String)
    (moment : ℕ) where
  -- What starting a case leaves of the runs: as they were, or with one run more, which is the case's.
  pub record Started (c : Case) (s : Store) (started : Option Run × Store) : Type 0 where
    pub kept : has_run account c.id s.runs ≡ true → (started.0 ≡ none) × (started.1.runs ≡ s.runs)
    pub opened :
        has_run account c.id s.runs ≡ false
        → (r : Run) × (started.0 ≡ some r)
          × (started.1.runs ≡ s.runs ++ r ∷ [])
          × (r.account_id ≡ account)
          × (r.case_id ≡ c.id)

  created :
      (keys : RunKeys) (c : Case) (s : Store) (done : Run × Store)
      → create_run keys.run_id account c.id version fingerprint budget_units c.deadline_at s
        ≡ ok done
      → (done.1.runs ≡ s.runs ++ done.0 ∷ [])
        × (done.0.account_id ≡ account)
        × (done.0.case_id ≡ c.id)
  unfolding create_run
  created keys c s done e = ground arith

  queued :
      (new_id run_id : ℕ) (s : Store) (done : Task × Store)
      → enqueue_task new_id account run_id WorkflowStage.reconcile (pos 0) none 3 moment s ≡ ok done
      → done.1.runs ≡ s.runs
  unfolding enqueue_task
  queued new_id run_id s done e = ground arith

  pub start_case_workflow-Started :
      (keys : RunKeys) (c : Case) (s : Store)
      → Returns
          (Started c s)
          (start_case_workflow account fingerprint budget_units version moment keys c s)
  unfolding start_case_workflow
  start_case_workflow-Started keys c s = elim (Bool-cases (has_run account c.id s.runs)) [
    | inl there ↦
        rw (there, Returns) (record { kept = λ h. (refl, refl); opened = λ h. absurd (cc) })
    | inr new ↦
        rw (new, Returns)
          (Returns-bind (Started c s)
            (create_run keys.run_id account c.id version fingerprint budget_units c.deadline_at s) _
            (λ done e.
              Returns-bind (Started c s)
                (enqueue_task keys.task_id account done.0.id WorkflowStage.reconcile (pos 0) none 3
                  moment done.1)
                _
                (λ task f. record {
                  kept = λ h. absurd (cc);
                  opened = λ h.
                      let (appended, own, at) = created keys c s done e in
                      (
                        done.0,
                        refl,
                        queued keys.task_id done.0.id done.1 task f ∙ appended,
                        own,
                        at,
                      );
                })))
  ]
