-- ===== src/Passes/Unfenced.antt =====
-- That a pass of packages/pipeline/eastmed_pipeline/reconciliation_dispatch.py keeps the task table
-- well-formed and never finds its own leases taken.
use mari_time_system.Prelude.{
  select, ℕ, zero, suc, ◌≡◌, sym, subst, String, Option, none, some, List, [], ◌∷◌, false, All,
  arith, pos, ok, Bool-cases, inl, inr, Result, Returns, Returns-bind, Returns-imp, Returns-ok,
}
use mari_time_system.Runtime.State.{WorkflowStage, Run, Store, TaskClaim}
use mari_time_system.Runtime.Tasks.{
  default_lease, default_backoff, claim_task, commit_stage, create_run, enqueue_task,
}
use mari_time_system.Runtime.Machine.{TableSteps, here, next, insert}
use mari_time_system.Runtime.Invariant.{TableOk, TableSteps-TableOk}
use mari_time_system.Runtime.Refines.{commit_stage-steps, fail_attempt-steps}
use mari_time_system.Runtime.Claimed.{enqueue_task-steps, claimed-steps}
use mari_time_system.Publication.State.{Case}
use mari_time_system.Passes.State.{
  World, PassArguments, Services, StepKeys, RunKeys, DispatchStep, PassSummary, is_idle, halts,
  is_fenced_step,
}
use mari_time_system.Passes.Schedule.{
  has_run, is_ready_case, start_case_workflow, mark_started, start_cases, enqueue_ready_cases,
}
use mari_time_system.Passes.Stages.{commit_claim}
use mari_time_system.Passes.Execute.{run_claimed, execute_next}
use mari_time_system.Passes.Drain.{drain, run_reconciliation_pass}
use mari_time_system.Passes.Rule.{run_claimed_rule}
use mari_time_system.Passes.Drained.{execute_next-unfenced}

module _ (services : Services) (arguments : PassArguments) where
  -- The tasks have moved by steps of the task table.
  abbrev Moves : Store → DispatchStep × World → Type 0
  Moves s done = TableSteps s.tasks done.1.runtime.tasks

  run_claimed-Moves :
      (keys : StepKeys) (claim : TaskClaim) (w : World)
      → Returns (Moves w.runtime) (run_claimed services arguments keys (some claim) w)
  run_claimed-Moves keys claim =
      run_claimed_rule services arguments keys claim Moves
        (λ reason step w deferred.
          fail_attempt-steps arguments.account_id claim reason arguments.moment default_backoff
            w.runtime)
        (λ next_stage w step busy open_.
          Returns-bind (Moves w.runtime) (commit_claim services arguments keys claim next_stage w) _
            (λ done e.
              Returns-ok (λ done. TableSteps w.runtime.tasks done.1.runtime.tasks)
                (commit_claim services arguments keys claim next_stage w)
                (Returns-bind (λ done. TableSteps w.runtime.tasks done.1.runtime.tasks)
                  (commit_stage keys.next_task_id arguments.account_id claim arguments.moment
                    next_stage none none w.runtime)
                  _
                  (λ stored f.
                    commit_stage-steps keys.next_task_id arguments.account_id claim arguments.moment
                      next_stage none none w.runtime stored.1 stored.0 f))
                e))

  execute_next-TableOk :
      (keys : StepKeys) (w : World)
      → TableOk w.runtime.tasks
      → Returns (λ done. TableOk done.1.runtime.tasks) (execute_next services arguments keys w)
  unfolding execute_next run_claimed
  execute_next-TableOk keys w h =
      Returns-bind (λ done. TableOk done.1.runtime.tasks)
        (claim_task keys.attempt_id arguments.account_id arguments.moment default_lease
          services.task_locked w.runtime)
        _
        (λ claimed e. by_claim claimed.0 claimed.1 (
          TableSteps-TableOk
            (claimed-steps keys.attempt_id arguments.account_id arguments.moment default_lease
              services.task_locked w.runtime claimed.1 claimed.0 h e)
            h))
    where
      by_claim :
          (c : Option TaskClaim) (s : Store)
          → TableOk s.tasks
          → Returns
              (λ done. TableOk done.1.runtime.tasks)
              (run_claimed services arguments keys c (record w { runtime = s }))
      by_claim none s k = k
      by_claim (some c) s k =
          Returns-imp (Moves s) (λ done. TableOk done.1.runtime.tasks)
            (run_claimed services arguments keys (some c) (record w { runtime = s }))
            (λ done moves. TableSteps-TableOk moves k)
            (run_claimed-Moves keys c (record w { runtime = s }))

  -- No step was fenced, and the task table is well-formed.
  abbrev Unfenced : List DispatchStep × World → Type 0
  Unfenced done = All (λ step. is_fenced_step step ≡ false) done.0 × TableOk done.1.runtime.tasks

  drain-Unfenced :
      (keys : ℕ → StepKeys) (n : ℕ) (w : World)
      → TableOk w.runtime.tasks
      → Returns Unfenced (drain services arguments keys n w)
  unfolding drain
  drain-Unfenced keys zero w h = (tt, h)
  drain-Unfenced keys (suc n) w h =
      Returns-bind Unfenced (execute_next services arguments (keys n) w) _ (λ next e.
        let kept =
          Returns-ok (λ done. TableOk done.1.runtime.tasks)
            (execute_next services arguments (keys n) w) (execute_next-TableOk (keys n) w h) e in
        let open_ = execute_next-unfenced services arguments (keys n) w next.1 next.0 h e in
        elim (Bool-cases (is_idle next.0)) [
          | inl idle ↦ rw (idle, Returns) (tt, kept)
          | inr busy ↦ elim (Bool-cases (halts next.0)) [
            | inl stops ↦ rw (busy, stops, Returns) ((open_, tt), kept)
            | inr goes ↦
                rw (busy, goes, Returns)
                  (Returns-bind Unfenced (drain services arguments keys n next.1) _ (λ rest f.
                    let ih =
                      Returns-ok Unfenced (drain services arguments keys n next.1)
                        (drain-Unfenced keys n next.1 kept) f in
                    ((open_, ih.0), ih.1)))
          ]
        ])

  abbrev version_of_run : String → ℕ → RunKeys → Case → Store → Result (Option Run × Store)
  version_of_run version budget_units =
      start_case_workflow arguments.account_id arguments.system_fingerprint budget_units version
        arguments.moment

  created_tasks :
      (budget_units : ℕ) (version : String) (keys : RunKeys) (c : Case) (s : Store)
      (done : Run × Store)
      → create_run keys.run_id arguments.account_id c.id version arguments.system_fingerprint
          budget_units c.deadline_at s
        ≡ ok done
      → done.1.tasks ≡ s.tasks
  unfolding create_run
  created_tasks budget_units version keys c s done e = ground arith

  start_case_workflow-TableOk :
      (budget_units : ℕ) (version : String) (keys : RunKeys) (c : Case) (s : Store)
      → TableOk s.tasks
      → Returns (λ done. TableOk done.1.tasks) (version_of_run version budget_units keys c s)
  unfolding start_case_workflow
  start_case_workflow-TableOk budget_units version keys c s h =
      elim (Bool-cases (has_run arguments.account_id c.id s.runs)) [
        | inl there ↦ rw (there, Returns) h
        | inr new ↦
            rw (new, Returns)
              (Returns-bind (λ done. TableOk done.1.tasks)
                (create_run keys.run_id arguments.account_id c.id version
                  arguments.system_fingerprint budget_units c.deadline_at s)
                _
                (λ created e.
                  Returns-bind (λ done. TableOk done.1.tasks)
                    (enqueue_task keys.task_id arguments.account_id created.0.id
                      WorkflowStage.reconcile (pos 0) none 3 arguments.moment created.1)
                    _
                    (λ queued f.
                      let before : TableOk created.1.tasks =
                        subst TableOk (sym (created_tasks budget_units version keys c s created e))
                          h in
                      let (appended, fresh, is_new) =
                        enqueue_task-steps keys.task_id arguments.account_id created.0.id
                          WorkflowStage.reconcile (pos 0) none 3 arguments.moment created.1 queued.1
                          queued.0 f in
                      subst TableOk (sym appended) (
                        TableSteps-TableOk
                          (next here (insert queued.0 created.1.tasks fresh is_new)) before))))
      ]

  start_cases-TableOk :
      (budget_units : ℕ) (version : String) (keys : ℕ → RunKeys) (cs : List Case) (w : World)
      → TableOk w.runtime.tasks
      → Returns
          (λ done. TableOk done.1.runtime.tasks)
          (start_cases arguments.account_id arguments.system_fingerprint budget_units version
            arguments.moment keys cs w)
  unfolding start_cases
  start_cases-TableOk budget_units version keys [] w h = h
  start_cases-TableOk budget_units version keys (c ∷ cs) w h =
      Returns-bind (λ done. TableOk done.1.runtime.tasks)
        (version_of_run version budget_units (keys c.id) c w.runtime) _
        (λ started e.
          let w' =
            mark_started arguments.account_id arguments.system_fingerprint budget_units version
              arguments.moment c started w in
          Returns-bind (λ done. TableOk done.1.runtime.tasks)
            (start_cases arguments.account_id arguments.system_fingerprint budget_units version
              arguments.moment keys cs w')
            _
            (λ rest f.
              Returns-ok (λ done. TableOk done.1.runtime.tasks) _
                (start_cases-TableOk budget_units version keys cs w' (
                  marked started.0 started.1 (
                    Returns-ok (λ done. TableOk done.1.tasks) _
                      (start_case_workflow-TableOk budget_units version (keys c.id) c w.runtime h)
                      e)))
                f))
    where
      marked :
          (opened : Option Run) (s : Store)
          → TableOk s.tasks
          → TableOk
              (mark_started arguments.account_id arguments.system_fingerprint budget_units version
                arguments.moment c
                (opened, s)
                w).runtime.tasks
      marked none s k = k
      marked (some r) s k = k

  -- A pass that starts with a well-formed task table, and returns, leaves it well-formed, and no step
  -- of it is fenced: no step finds the lease that it has just taken to be another's.
  pub run_reconciliation_pass-unfenced :
      (run_keys : ℕ → RunKeys) (keys : ℕ → StepKeys) (budget_units : ℕ) (version : String)
      (max_steps : ℕ) (w w' : World) (summary : PassSummary)
      → TableOk w.runtime.tasks
      → run_reconciliation_pass services arguments run_keys keys budget_units version max_steps w
        ≡ ok (summary, w')
      → All (λ step. is_fenced_step step ≡ false) summary.steps × TableOk w'.runtime.tasks
  unfolding run_reconciliation_pass enqueue_ready_cases
  run_reconciliation_pass-unfenced run_keys keys budget_units version max_steps w w' summary h e =
      Returns-ok (λ done. Unfenced (done.0.steps, done.1))
        (run_reconciliation_pass services arguments run_keys keys budget_units version max_steps w)
        (Returns-bind (λ done. Unfenced (done.0.steps, done.1))
          (enqueue_ready_cases arguments.account_id arguments.system_fingerprint budget_units
            version arguments.moment run_keys w)
          _
          (λ scheduled f.
            Returns-bind (λ done. Unfenced (done.0.steps, done.1))
              (drain services arguments keys max_steps scheduled.1) _
              (λ drained g.
                Returns-ok Unfenced (drain services arguments keys max_steps scheduled.1)
                  (drain-Unfenced keys max_steps scheduled.1 (
                    Returns-ok (λ done. TableOk done.1.runtime.tasks) _
                      (start_cases-TableOk budget_units version run_keys
                        (select (is_ready_case arguments.account_id) w.portal.cases) w h)
                      f))
                  g)))
        e
