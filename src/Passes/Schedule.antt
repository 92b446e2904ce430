-- ===== src/Passes/Schedule.antt =====
-- `start_case_workflow`, `enqueue_ready_cases` and `has_pending_work` of
-- packages/pipeline/eastmed_pipeline/reconciliation_dispatch.py.
use mari_time_system.Prelude.{
  ℕ, ◌+◌, String, Option, none, some, List, [], ◌∷◌, Bool, true, false, ◌&&◌, ◌||◌, ◌==◌,
  if◌then◌else◌, is_some, select, any, pos, Result, ok, ◌>>=◌,
}
use mari_time_system.Runtime.State.{WorkflowStage, Run, Store, is_ready, is_leased}
use mari_time_system.Runtime.Tasks.{create_run, enqueue_task}
use mari_time_system.Publication.State.{AutomationStatus, Case}
use mari_time_system.Publication.Lookups.{set_case_status}
use mari_time_system.Passes.State.{World, RunKeys}

-- `_has_run`
unfoldable pub has_run : ℕ → ℕ → List Run → Bool
has_run account case_id runs = any (λ r. r.account_id == account && r.case_id == case_id) runs

abbrev pub is_validated : AutomationStatus → Bool
is_validated AutomationStatus.validated = true
is_validated _ = false

-- The WHERE clause of the ready cases.
abbrev pub is_ready_case : ℕ → Case → Bool
is_ready_case account c = c.account_id == account && is_validated c.automation_status

module _ (account : ℕ) (fingerprint : String) (budget_units : ℕ) (version : String)
    (moment : ℕ) where
  unfoldable pub start_case_workflow : RunKeys → Case → Store → Result (Option Run × Store)
  unfolding has_run
  start_case_workflow keys c s = if has_run account c.id s.runs then ok (none, s) else (do
    created ← create_run keys.run_id account c.id version fingerprint budget_units c.deadline_at s
    queued ←
        enqueue_task keys.task_id account created.0.id WorkflowStage.reconcile (pos 0) none 3 moment
          created.1
    ok (some created.0, queued.1))

  -- The case is marked and counted if a run was created for it.
  abbrev pub mark_started : Case → Option Run × Store → World → World
  mark_started c started w =
      if is_some started.0
      then record w {
        runtime = started.1;
        portal = set_case_status c.id AutomationStatus.received w.portal;
      }
      else record w { runtime = started.1 }

  -- `for case in ready`
  unfoldable pub start_cases : (ℕ → RunKeys) → List Case → World → Result (ℕ × World)
  unfolding start_case_workflow
  start_cases keys [] w = ok (0, w)
  start_cases keys (c ∷ cs) w = do
    started ← start_case_workflow (keys c.id) c w.runtime
    rest ← start_cases keys cs (mark_started c started w)
    ok ((if is_some started.0 then 1 else 0) + rest.0, rest.1)

  unfoldable pub enqueue_ready_cases : (ℕ → RunKeys) → World → Result (ℕ × World)
  unfolding start_cases
  enqueue_ready_cases keys w = start_cases keys (select (is_ready_case account) w.portal.cases) w

unfoldable pub has_pending_work : ℕ → Store → Bool
has_pending_work account s =
    any (λ t. t.account_id == account && (is_ready t.status || is_leased t.status)) s.tasks
