-- ===== src/Runtime/Counting/Claimed.antt =====
-- How often a task is claimed by the calls of reconciliation_runtime.py.
use mari_time_system.Prelude.{
  ℕ, ◌+◌, ◌≤◌, ◌≡◌, refl, sym, subst, ◌∙◌, Option, none, some, some-injective, List, Bool, false,
  arith, ◌==◌, ==→≡, Bool-cases, inl, inr, Result, ok, err, count, get_row-All,
}
use mari_time_system.Runtime.State.{Task, Store, TaskClaim, task_row}
use mari_time_system.Runtime.Tasks.{lease_task, claim_task}
use mari_time_system.Runtime.Invariant.{TaskOk, TableOk}
use mari_time_system.Runtime.History.{Evolves, TableSteps-Later}
use mari_time_system.Runtime.Trace.{
  Op, create, enqueue, reap, claim, beat, commit, fail, Event, claimed, completed, other, step, run,
  run-TableSteps, run-TableOk,
}
use mari_time_system.Runtime.Claims.{claim_task-IsGrant}
use mari_time_system.Runtime.Counting.{Gains, run_gains, quiet}

-- The claims of one task.
abbrev pub claims_task : ℕ → Event → Bool
claims_task k (claimed c) = c.task_id == k
claims_task k (completed id) = false
claims_task k other = false

attempts_grow : (a b : Task) → Evolves a b → a.attempts ≤ b.attempts
attempts_grow a b p = p.attempts_grow

claim_gain :
    (k new_id account moment length : ℕ) (locked : ℕ → Bool) (s : Store) (t : Task)
    → TableOk s.tasks
    → task_row k s.tasks ≡ some t
    → Gains k (claims_task k) (λ x. x.attempts) (claim new_id account moment length locked) s t
unfolding step
claim_gain k new_id account moment length locked s t h e =
    by_result (claim_task new_id account moment length locked s) refl
  where
    op : Op
    op = claim new_id account moment length locked

    by_result :
        (r : Result (Option TaskClaim × Store))
        → claim_task new_id account moment length locked s ≡ r
        → Gains k (claims_task k) (λ x. x.attempts) (claim new_id account moment length locked) s t
    by_result (err x) q =
        quiet k (claims_task k) (λ x. x.attempts) attempts_grow
          (claim new_id account moment length locked) s t h e (rw q refl)
    by_result (ok (none, s')) q =
        quiet k (claims_task k) (λ x. x.attempts) attempts_grow
          (claim new_id account moment length locked) s t h e (rw q refl)
    by_result (ok (some c, s')) q = elim (Bool-cases (c.task_id == k)) [
      | inr another ↦
          quiet k (claims_task k) (λ x. x.attempts) attempts_grow
            (claim new_id account moment length locked) s t h e (rw q another)
      | inl this ↦
          let g = claim_task-IsGrant new_id account moment length locked s s' c h q in
          let key : c.task_id ≡ k = ==→≡ c.task_id k this in
          let old : g.task ≡ t =
            some-injective (sym (subst (λ j. task_row j s.tasks ≡ some g.task) key g.before) ∙ e) in
          (
            lease_task moment length t,
            rw q (
                subst (λ u. task_row k s'.tasks ≡ some (lease_task moment length u)) old
                  (subst (λ j. task_row j s'.tasks ≡ some (lease_task moment length g.task)) key
                    g.after)),
            rw q (rw this (leased_attempts t)),
          )
    ]
      where
        leased_attempts : (t : Task) → 1 + t.attempts ≤ (lease_task moment length t).attempts
        leased_attempts t = unfold lease_task in omega arith

-- Every other call leaves the count of claims alone.
claims_gain :
    (k : ℕ) (op : Op) (s : Store) (t : Task)
    → TableOk s.tasks
    → task_row k s.tasks ≡ some t
    → Gains k (claims_task k) (λ x. x.attempts) op s t
unfolding step
claims_gain k (claim new_id account moment length locked) s t h e =
    claim_gain k new_id account moment length locked s t h e
claims_gain k (create a b c d f g i) s t h e =
    quiet k (claims_task k) (λ x. x.attempts) attempts_grow (create a b c d f g i) s t h e
      (ground arith)
claims_gain k (enqueue a b c d f g i j) s t h e =
    quiet k (claims_task k) (λ x. x.attempts) attempts_grow (enqueue a b c d f g i j) s t h e
      (ground arith)
claims_gain k (reap a m) s t h e =
    quiet k (claims_task k) (λ x. x.attempts) attempts_grow (reap a m) s t h e refl
claims_gain k (beat a c m l) s t h e =
    quiet k (claims_task k) (λ x. x.attempts) attempts_grow (beat a c m l) s t h e refl
claims_gain k (commit n a c m st r x) s t h e =
    quiet k (claims_task k) (λ x. x.attempts) attempts_grow (commit n a c m st r x) s t h e
      (ground arith)
claims_gain k (fail a c r m b) s t h e =
    quiet k (claims_task k) (λ x. x.attempts) attempts_grow (fail a c r m b) s t h e refl

-- Over any interleaving of calls a task is claimed at most as often as it has attempts left:
-- the claims made and the attempts it had used stay within `max_attempts`.
pub claims_bounded :
    (k : ℕ) (t : Task) (ops : List Op) (s : Store)
    → TableOk s.tasks
    → task_row k s.tasks ≡ some t
    → count (claims_task k) (run ops s).1 + t.attempts ≤ t.max_attempts
claims_bounded k t ops s h e =
    let (t', e', gained) =
      run_gains k (claims_task k) (λ x. x.attempts) (claims_gain k) ops s t h e in
    let (u, eu, evolved) = TableSteps-Later k t (run-TableSteps ops s h) e in
    let same : u ≡ t' = some-injective (sym eu ∙ e') in
    let limit : t'.max_attempts ≡ t.max_attempts =
      subst (λ x. x.max_attempts ≡ t.max_attempts) same evolved.same_limit in
    let sound =
      get_row-All (λ x. x.id) TaskOk k (run ops s).0.tasks (run-TableOk ops s h).rows e' in
    omega (arith, gained, limit, sound.within)
