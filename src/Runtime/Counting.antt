-- ===== src/Runtime/Counting.antt =====
-- How often, over any interleaving of calls, one task is claimed and its stage committed.
pub mod Claimed
pub mod Committed
use mari_time_system.Prelude.{
  ℕ, String, ◌+◌, ◌≤◌, ◌≡◌, refl, sym, subst, ap, ◌∙◌, Option, none, some, some-injective, List, [],
  ◌∷◌, Bool, true, false, arith, ◌==◌, ==→≡, Option-cases, Bool-cases, ◌⊎◌, inl, inr, Result, ok,
  err, count, get_row-save_self, get_row-key, get_row-All,
}
use mari_time_system.Runtime.State.{
  WorkflowStage, CommitStatus, TaskStatus, Task, Attempt, Store, TaskClaim, StageOutcome, is_leased,
  task_row, attempt_row,
}
use mari_time_system.Runtime.Tasks.{
  get_task_locked, lease_task, claim_task, holds_lease, enqueue_next, commit_rows, commit_found,
  commit_stage,
}
use mari_time_system.Runtime.Invariant.{TaskOk, TableOk, TableSteps-TableOk}
use mari_time_system.Runtime.History.{Evolves, TableSteps-Later, is_settled}
use mari_time_system.Runtime.Refines.{locked_stored, enqueue_next-steps}
use mari_time_system.Runtime.Claimed.{get_task_locked-row}
use mari_time_system.Runtime.Trace.{
  Op, create, enqueue, reap, claim, beat, commit, fail, Event, claimed, completed, other, step, run,
  step-TableSteps, run-TableSteps, run-TableOk,
}
use mari_time_system.Runtime.Claims.{claim_task-IsGrant}

abbrev pub one_if : Bool → ℕ
one_if true = 1
one_if false = 0

-- The row of a task after a step, with its potential higher by one where the step is counted.
abbrev pub Gains : ℕ → (Event → Bool) → (Task → ℕ) → Op → Store → Task → Type 0
Gains k hit potential op s t =
    (t' : Task) × (task_row k (step op s).0.tasks ≡ some t')
    × (one_if (hit (step op s).1) + potential t ≤ potential t')

module _ (k : ℕ) (hit : Event → Bool) (potential : Task → ℕ)
    (gain : (op : Op) (s : Store) (t : Task)
      → TableOk s.tasks
      → task_row k s.tasks ≡ some t
      → Gains k hit potential op s t) where
  pub run_gains :
      (ops : List Op) (s : Store) (t : Task)
      → TableOk s.tasks
      → task_row k s.tasks ≡ some t
      → (t' : Task) × (task_row k (run ops s).0.tasks ≡ some t')
        × (count hit (run ops s).1 + potential t ≤ potential t')
  unfolding run
  run_gains [] s t h e = (t, e, omega arith)
  run_gains (op ∷ ops) s t h e =
      let (u, eu, p) = gain op s t h e in
      let h' = TableSteps-TableOk (step-TableSteps op s h) h in
      let (v, ev, q) = run_gains ops (step op s).0 u h' eu in (v, ev, ground (arith, p, q))

-- A step without the counted event, under a potential that no step lowers.
pub quiet :
    (k : ℕ) (hit : Event → Bool) (potential : Task → ℕ)
    → ((a b : Task) → Evolves a b → potential a ≤ potential b)
    → (op : Op) (s : Store) (t : Task) → TableOk s.tasks
    → task_row k s.tasks ≡ some t
    → hit (step op s).1 ≡ false
    → Gains k hit potential op s t
quiet k hit potential grows op s t h e miss =
    let (t', e', evolved) = TableSteps-Later k t (step-TableSteps op s h) e in
    (t', e', rw miss (omega (arith, grows t t' evolved)))
