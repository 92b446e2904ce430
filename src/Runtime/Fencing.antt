-- ===== src/Runtime/Fencing.antt =====
-- The lease epoch of reconciliation_runtime.py is a fencing token: what a worker whose lease is
-- over can still do, and what two claims of one task have to do with each other.
use mari_time_system.Prelude.{
  ℕ, String, ◌≡◌, refl, sym, subst, ◌∙◌, Option, none, some, some-injective, List, true, false,
  arith, Option-cases, inl, inr, ok,
}
use mari_time_system.Runtime.State.{
  WorkflowStage, CommitStatus, AttemptStatus, Task, Store, TaskClaim, StageOutcome, task_row,
  attempt_row,
}
use mari_time_system.Runtime.Tasks.{
  get_task_locked, holds_lease, heartbeat, commit_found, commit_stage, fail_found, fail_attempt,
  fenced_as, save_attempt,
}
use mari_time_system.Runtime.Invariant.{TableOk}
use mari_time_system.Runtime.History.{TableSteps-Later, IsStale, Evolves-IsStale, is_settled}
use mari_time_system.Runtime.Claimed.{get_task_locked-row}
use mari_time_system.Runtime.Trace.{Op, run, run-TableSteps}

-- The row that a claim names is stale for it, or it is not there.
abbrev pub StaleAt : TaskClaim → Store → Type 0
StaleAt c s = (t : Task) → task_row c.task_id s.tasks ≡ some t → IsStale c t

-- Every call under the claim is refused: a heartbeat answers false and changes nothing, a commit
-- and a failure answer `fenced` and change no task.
pub record IsFenced (account : ℕ) (c : TaskClaim) (s : Store) : Type 0 where
  pub no_renewal : (moment length : ℕ) → heartbeat account c moment length s ≡ (false, s)
  pub no_commit :
      (new_id moment : ℕ) (stage : Option WorkflowStage) (request artifact : Option String)
      → (o : StageOutcome) × (s' : Store) × (commit_stage new_id account c moment stage request
            artifact s
          ≡ ok (o, s'))
        × (o.status ≡ CommitStatus.fenced)
        × (s'.tasks ≡ s.tasks)
  pub no_failure :
      (reason : String) (moment backoff : ℕ)
      → ((fail_attempt account c reason moment backoff s).0.status ≡ CommitStatus.fenced)
        × ((fail_attempt account c reason moment backoff s).1.tasks ≡ s.tasks)

module _ (account : ℕ) (c : TaskClaim) (s : Store) where
  missing-IsFenced : get_task_locked c.task_id account s ≡ none → IsFenced account c s
  unfolding heartbeat commit_stage fail_attempt
  missing-IsFenced e = record {
    no_renewal = λ moment length. ground arith;
    no_commit = λ new_id moment stage request artifact.
        (fenced_as "missing task/attempt", s, rw (e, commit_stage) refl, refl, refl);
    no_failure = λ reason moment backoff. ground arith;
  }

  lost-IsFenced :
      (t : Task)
      → get_task_locked c.task_id account s ≡ some t
      → holds_lease c t ≡ false
      → IsFenced account c s
  unfolding heartbeat commit_stage fail_attempt commit_found fail_found
  lost-IsFenced t e lost = elim (Option-cases (attempt_row c.attempt_id s.attempts)) [
    | inl missing ↦ record {
      no_renewal = λ moment length. ground arith;
      no_commit = λ new_id moment stage request artifact.
          (fenced_as "missing task/attempt", s, rw (e, commit_stage) (rw missing refl), refl, refl);
      no_failure = λ reason moment backoff. ground arith;
    }
    | inr (a, found) ↦ record {
      no_renewal = λ moment length. ground arith;
      no_commit = λ new_id moment stage request artifact. (
        fenced_as "stale lease epoch",
        save_attempt (record a { status = AttemptStatus.fenced }) s,
        rw (e, commit_stage) (rw found (rw lost refl)),
        refl,
        refl,
      );
      no_failure = λ reason moment backoff. ground arith;
    }
  ]

  pub stale-IsFenced : StaleAt c s → IsFenced account c s
  stale-IsFenced stale = elim (Option-cases (get_task_locked c.task_id account s)) [
    | inl missing ↦ missing-IsFenced missing
    | inr (t, found) ↦
        lost-IsFenced t found (stale t (get_task_locked-row c.task_id account s found).0).lost
  ]

-- Once a claim's lease is over (a newer epoch stands, or the task is no longer leased), it is over
-- in every later interleaving of calls: each heartbeat, commit and failure under that claim is
-- refused, and none changes a task.
pub stale_forever :
    (account : ℕ) (c : TaskClaim) (t : Task) (ops : List Op) (s : Store)
    → TableOk s.tasks
    → task_row c.task_id s.tasks ≡ some t
    → IsStale c t
    → IsFenced account c (run ops s).0
stale_forever account c t ops s h e stale =
    let (t', e', evolved) = TableSteps-Later c.task_id t (run-TableSteps ops s h) e in
    stale-IsFenced account c (run ops s).0
      (λ u eu. subst (IsStale c) (some-injective (sym e' ∙ eu)) (Evolves-IsStale c evolved stale))

-- A settled row, succeeded or dead, is never changed again, whatever calls follow.
pub settled_forever :
    (k : ℕ) (t : Task) (ops : List Op) (s : Store)
    → TableOk s.tasks
    → task_row k s.tasks ≡ some t
    → is_settled t.status ≡ true
    → task_row k (run ops s).0.tasks ≡ some t
settled_forever k t ops s h e settled =
    let (t', e', evolved) = TableSteps-Later k t (run-TableSteps ops s h) e in
    rw (← evolved.settled_stays settled) e'
