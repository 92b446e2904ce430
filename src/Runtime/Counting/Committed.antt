-- ===== src/Runtime/Counting/Committed.antt =====
-- How often a task's stage is committed by the calls of reconciliation_runtime.py.
use mari_time_system.Prelude.{
  ℕ, String, ◌+◌, ◌≤◌, ◌≡◌, refl, sym, subst, ap, ◌∙◌, Option, none, some, some-injective, List,
  Bool, true, false, arith, ◌==◌, ==→≡, Option-cases, Bool-cases, ◌⊎◌, inl, inr, Result, ok, err,
  count, get_row-save_self, get_row-key,
}
use mari_time_system.Runtime.State.{
  WorkflowStage, CommitStatus, TaskStatus, Task, Attempt, Store, TaskClaim, StageOutcome, is_leased,
  task_row, attempt_row,
}
use mari_time_system.Runtime.Tasks.{
  get_task_locked, holds_lease, enqueue_next, commit_rows, commit_found, commit_stage,
}
use mari_time_system.Runtime.Invariant.{TableOk}
use mari_time_system.Runtime.History.{Evolves, TableSteps-Later, is_settled}
use mari_time_system.Runtime.Refines.{locked_stored, enqueue_next-steps}
use mari_time_system.Runtime.Claimed.{get_task_locked-row}
use mari_time_system.Runtime.Trace.{
  Op, create, enqueue, reap, claim, beat, commit, fail, Event, claimed, completed, other, step, run,
}
use mari_time_system.Runtime.Counting.{one_if, Gains, run_gains, quiet}

-- The commits of one task.
abbrev pub completes : ℕ → Event → Bool
completes k (claimed c) = false
completes k (completed id) = id == k
completes k other = false

abbrev settled_weight : Task → ℕ
settled_weight t = one_if (is_settled t.status)

settled_grows : (a b : Task) → Evolves a b → settled_weight a ≤ settled_weight b
settled_grows a b p = elim (Bool-cases (is_settled a.status)) [
  | inl settled ↦ rw (p.settled_stays settled) (omega arith)
  | inr open_yet ↦ rw open_yet (omega arith)
]

one_if-le : (b : Bool) → one_if b ≤ 1
one_if-le true = omega arith
one_if-le false = omega arith

CommitStatus-cases : (s : CommitStatus) → (s ≡ CommitStatus.committed) ⊎ (s ≡ CommitStatus.fenced)
CommitStatus-cases CommitStatus.committed = inl refl
CommitStatus-cases CommitStatus.fenced = inr refl

abbrev succeeded_task : Task → Task
succeeded_task t = record t { status = TaskStatus.succeeded; lease_until = none }

commit_rows-row :
    (t : Task) (a : Attempt) (request artifact : Option String) (s : Store)
    → task_row t.id s.tasks ≡ some t
    → task_row t.id (commit_rows t a request artifact s).tasks ≡ some (succeeded_task t)
unfolding commit_rows
commit_rows-row t a request artifact s stored =
    get_row-save_self (λ x. x.id) (succeeded_task t) s.tasks stored

-- A commit that is not fenced finds a leased task and leaves it succeeded.
commit_settles :
    (new_id account : ℕ) (c : TaskClaim) (moment : ℕ) (stage : Option WorkflowStage)
    (request artifact : Option String) (s s' : Store) (o : StageOutcome)
    → commit_stage new_id account c moment stage request artifact s ≡ ok (o, s')
    → o.status ≡ CommitStatus.committed
    → (t : Task) × (task_row c.task_id s.tasks ≡ some t)
      × (is_leased t.status ≡ true)
      × (task_row c.task_id s'.tasks
          ≡ some (record t { status = TaskStatus.succeeded; lease_until = none }))
unfolding commit_stage commit_found holds_lease
commit_settles new_id account c moment stage request artifact s s' o e done =
    elim (Option-cases (get_task_locked c.task_id account s)) [
      | inl missing ↦ absurd (ground arith)
      | inr (t, found) ↦ elim (Option-cases (attempt_row c.attempt_id s.attempts)) [
        | inl missing ↦ absurd (ground arith)
        | inr (a, present) ↦ elim (Bool-cases (holds_lease c t)) [
          | inr lost ↦ absurd (ground arith)
          | inl held ↦ (
            t,
            (get_task_locked-row c.task_id account s found).0,
            ground arith,
            settled_after t a found present held,
          )
        ]
      ]
    ]
  where
    settled_after :
        (t : Task) (a : Attempt)
        → get_task_locked c.task_id account s ≡ some t
        → attempt_row c.attempt_id s.attempts ≡ some a
        → holds_lease c t ≡ true
        → task_row c.task_id s'.tasks
          ≡ some (record t { status = TaskStatus.succeeded; lease_until = none })
    settled_after t a found present held =
        let row = (get_task_locked-row c.task_id account s found).0 in
        let key : t.id ≡ c.task_id = get_row-key (λ x. x.id) c.task_id s.tasks row in
        let stored : task_row t.id s.tasks ≡ some t = locked_stored c.task_id account s t found in
        let saved = commit_rows-row t a request artifact s stored in
        let rest : enqueue_next new_id account moment stage t (commit_rows t a request artifact s)
            ≡ ok (o, s') =
          ground arith in
        let moved =
          enqueue_next-steps new_id account moment stage t (commit_rows t a request artifact s) s' o
            rest in
        let (u, eu, evolved) = TableSteps-Later t.id (succeeded_task t) moved saved in
        subst (λ k. task_row k s'.tasks ≡ some (succeeded_task t)) key
          (eu ∙ ap some (evolved.settled_stays refl))

-- A commit that is not fenced settles its task: it is counted once, and never again.
commit_gain :
    (k new_id account : ℕ) (c : TaskClaim) (moment : ℕ) (stage : Option WorkflowStage)
    (request artifact : Option String) (s : Store) (t : Task)
    → TableOk s.tasks
    → task_row k s.tasks ≡ some t
    → Gains k
        (completes k)
        settled_weight
        (commit new_id account c moment stage request artifact)
        s
        t
unfolding step
commit_gain k new_id account c moment stage request artifact s t h e =
    by_result (commit_stage new_id account c moment stage request artifact s) refl
  where
    missed :
        completes k (step (commit new_id account c moment stage request artifact) s).1 ≡ false
        → Gains k
            (completes k)
            settled_weight
            (commit new_id account c moment stage request artifact)
            s
            t
    missed miss =
        quiet k (completes k) settled_weight settled_grows
          (commit new_id account c moment stage request artifact) s t h e miss

    by_result :
        (r : Result (StageOutcome × Store))
        → commit_stage new_id account c moment stage request artifact s ≡ r
        → Gains k
            (completes k)
            settled_weight
            (commit new_id account c moment stage request artifact)
            s
            t
    by_result (err x) q = missed (rw q refl)
    by_result (ok (o, s')) q = elim (CommitStatus-cases o.status) [
      | inr refused ↦ missed (rw q (rw refused refl))
      | inl done ↦ elim (Bool-cases (c.task_id == k)) [
        | inr another ↦ missed (rw q (rw done another))
        | inl this ↦
            let (u, before, leased, after) =
              commit_settles new_id account c moment stage request artifact s s' o q done in
            let key : c.task_id ≡ k = ==→≡ c.task_id k this in
            let old : u ≡ t =
              some-injective (sym (subst (λ j. task_row j s.tasks ≡ some u) key before) ∙ e) in
            let open_yet : is_leased t.status ≡ true =
              subst (λ x. is_leased x.status ≡ true) old leased in
            (
              succeeded_task u,
              rw q (subst (λ j. task_row j s'.tasks ≡ some (succeeded_task u)) key after),
              rw q (rw done (rw this (ground arith))),
            )
      ]
    ]

completes_gain :
    (k : ℕ) (op : Op) (s : Store) (t : Task)
    → TableOk s.tasks
    → task_row k s.tasks ≡ some t
    → Gains k (completes k) settled_weight op s t
unfolding step
completes_gain k (commit new_id account c moment stage request artifact) s t h e =
    commit_gain k new_id account c moment stage request artifact s t h e
completes_gain k (create a b c d f g i) s t h e =
    quiet k (completes k) settled_weight settled_grows (create a b c d f g i) s t h e (ground arith)
completes_gain k (enqueue a b c d f g i j) s t h e =
    quiet k (completes k) settled_weight settled_grows (enqueue a b c d f g i j) s t h e
      (ground arith)
completes_gain k (reap a m) s t h e =
    quiet k (completes k) settled_weight settled_grows (reap a m) s t h e refl
completes_gain k (claim n a m l x) s t h e =
    quiet k (completes k) settled_weight settled_grows (claim n a m l x) s t h e (ground arith)
completes_gain k (beat a c m l) s t h e =
    quiet k (completes k) settled_weight settled_grows (beat a c m l) s t h e refl
completes_gain k (fail a c r m b) s t h e =
    quiet k (completes k) settled_weight settled_grows (fail a c r m b) s t h e refl

-- Over any interleaving of calls, however many workers claim a task, its stage is committed at
-- most once, and not at all if the task had already succeeded or died.
pub committed_at_most_once :
    (k : ℕ) (t : Task) (ops : List Op) (s : Store)
    → TableOk s.tasks
    → task_row k s.tasks ≡ some t
    → count (completes k) (run ops s).1 + one_if (is_settled t.status) ≤ 1
committed_at_most_once k t ops s h e =
    let (t', e', gained) =
      run_gains k (completes k) settled_weight (completes_gain k) ops s t h e in
    omega (arith, gained, one_if-le (is_settled t'.status))
