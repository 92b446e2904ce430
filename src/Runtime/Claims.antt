-- ===== src/Runtime/Claims.antt =====
-- What a claim of reconciliation_runtime.py grants, and how often a task is claimed and committed.
use mari_time_system.Prelude.{
  ℕ, ◌+◌, ◌≤◌, ◌<◌, ◌≡◌, sym, subst, ap, ◌∙◌, some, some-injective, List, Bool, true, arith,
  Option-cases, inl, inr, ok, get_row-save_self, get_row-map-some, get_row-map-none, get_row-All,
}
use mari_time_system.Runtime.State.{Task, Store, TaskClaim, is_leased, task_row}
use mari_time_system.Runtime.Queue.{is_due}
use mari_time_system.Runtime.Tasks.{
  reap_task, reap_expired_tasks, lease_task, claim_task, claim_of, holds_lease,
}
use mari_time_system.Runtime.Invariant.{TaskOk, TableOk, TableSteps-TableOk, reap_task-id}
use mari_time_system.Runtime.History.{TableSteps-Later, IsStale}
use mari_time_system.Runtime.Due.{IsPick, pick_due-IsPick}
use mari_time_system.Runtime.Claimed.{
  reaped, reaped-Keyed, Claimed, claim_task-Claimed, claimed-steps,
}
use mari_time_system.Runtime.Trace.{Op, run, run-TableSteps, run-TableOk}
use mari_time_system.Runtime.Fencing.{IsFenced, stale-IsFenced}

-- A due row is one that reaping has left as it was.
reap_task-due :
    (account moment : ℕ) (t : Task)
    → is_due account moment (reap_task account moment t) ≡ true
    → reap_task account moment t ≡ t
unfolding reap_task is_due
reap_task-due account moment t due = ground arith

picked_before :
    (account moment : ℕ) (s : Store) (p : Task)
    → task_row p.id (reaped account moment s).tasks ≡ some p
    → is_due account moment p ≡ true
    → task_row p.id s.tasks ≡ some p
unfolding reap_expired_tasks
picked_before account moment s p stored due = elim (Option-cases (task_row p.id s.tasks)) [
  | inl missing ↦
      let gone =
        get_row-map-none (λ x. x.id) (reap_task account moment) (reap_task-id account moment) p.id
          s.tasks missing in
      absurd (cc)
  | inr (t, found) ↦
      let moved =
        get_row-map-some (λ x. x.id) (reap_task account moment) (reap_task-id account moment) p.id
          s.tasks found in
      let same : reap_task account moment t ≡ p = some-injective (sym moved ∙ stored) in
      let kept =
        reap_task-due account moment t
          (subst (λ u. is_due account moment u ≡ true) (sym same) due) in
      found ∙ ap some (sym kept ∙ same)
]

-- What a successful claim grants: the task was due, its new lease stands under a new epoch, the
-- attempt is within the limit, and a lease that was still running is never taken over.
pub record IsGrant (account moment length : ℕ) (s : Store) (c : TaskClaim) (s' : Store)
    : Type 0 where
  pub task : Task
  pub before : task_row c.task_id s.tasks ≡ some task
  pub due : is_due account moment task ≡ true
  pub after : task_row c.task_id s'.tasks ≡ some (lease_task moment length task)
  pub new_epoch : c.lease_epoch ≡ task.lease_epoch + 1
  pub new_attempt_no : c.attempt_no ≡ task.attempts + 1
  pub allowed : c.attempt_no ≤ task.max_attempts
  pub no_takeover :
      (until : ℕ) → is_leased task.status ≡ true → task.lease_until ≡ some until → until < moment

due_room :
    (account moment : ℕ) (t : Task)
    → TaskOk t
    → is_due account moment t ≡ true
    → t.attempts < t.max_attempts
unfolding is_due
due_room account moment t h due = ground arith

due_lapsed :
    (account moment until : ℕ) (t : Task)
    → is_due account moment t ≡ true
    → is_leased t.status ≡ true
    → t.lease_until ≡ some until
    → until < moment
unfolding is_due
due_lapsed account moment until t due leased e = ground arith

-- A claim that names a task grants it: the task was in the table and due, its row is the leased
-- row with the epoch and the attempt number one higher, the attempt number does not exceed the
-- limit, and where the task was leased that lease had run out before the moment of the claim.
pub claim_task-IsGrant :
    (new_id account moment length : ℕ) (locked : ℕ → Bool) (s s' : Store) (c : TaskClaim)
    → TableOk s.tasks
    → claim_task new_id account moment length locked s ≡ ok (some c, s')
    → IsGrant account moment length s c s'
unfolding claim_of lease_task
claim_task-IsGrant new_id account moment length locked s s' c h e = record {
  task = p;
  before = subst (λ k. task_row k s.tasks ≡ some p) (sym id) row;
  due = pick.due;
  after =
      subst (λ k. task_row k s'.tasks ≡ some (lease_task moment length p)) (sym id)
        (rw claimed.saved
          (get_row-save_self (λ x. x.id) (lease_task moment length p) _ pick.stored));
  new_epoch = ap (λ x. x.lease_epoch) claimed.claims;
  new_attempt_no = number;
  allowed = omega (
    arith,
    number,
    due_room account moment p (get_row-All (λ x. x.id) TaskOk p.id s.tasks h.rows row) pick.due,
  );
  no_takeover = λ until leased at. due_lapsed account moment until p pick.due leased at;
}
  where
    claimed : Claimed account moment length locked s c s'
    claimed = claim_task-Claimed new_id account moment length locked s s' c e

    p : Task
    p = claimed.task

    pick : IsPick account moment locked (reaped account moment s) p
    pick =
        pick_due-IsPick account moment locked (reaped account moment s) p
          (reaped-Keyed account moment s h) claimed.picked

    id : c.task_id ≡ p.id
    id = ap (λ x. x.task_id) claimed.claims

    number : c.attempt_no ≡ p.attempts + 1
    number = ap (λ x. x.attempt_no) claimed.claims

    row : task_row p.id s.tasks ≡ some p
    row = picked_before account moment s p pick.stored pick.due

-- Two claims of one task, with any calls in between: the later one stands under a higher epoch,
-- and from then on every call under the earlier one is refused and changes no task.
pub claims_fence :
    (account : ℕ) (c c' : TaskClaim) (s₁ s₂ s₃ s₄ : Store) (ops : List Op)
    (id₁ moment₁ length₁ id₂ moment₂ length₂ : ℕ) (locked₁ locked₂ : ℕ → Bool)
    → TableOk s₁.tasks
    → claim_task id₁ account moment₁ length₁ locked₁ s₁ ≡ ok (some c, s₂)
    → (run ops s₂).0 ≡ s₃
    → claim_task id₂ account moment₂ length₂ locked₂ s₃ ≡ ok (some c', s₄)
    → c'.task_id ≡ c.task_id
    → (c.lease_epoch < c'.lease_epoch) × IsFenced account c s₄
unfolding lease_task holds_lease
claims_fence account c c' s₁ s₂ s₃ s₄ ops id₁ moment₁ length₁ id₂ moment₂ length₂ locked₁ locked₂ h
      e₁ r e₂ same =
    let h₂ =
      TableSteps-TableOk (claimed-steps id₁ account moment₁ length₁ locked₁ s₁ s₂ (some c) h e₁)
        h in
    let g₁ = claim_task-IsGrant id₁ account moment₁ length₁ locked₁ s₁ s₂ c h e₁ in
    let h₃ = subst (λ s. TableOk s.tasks) r (run-TableOk ops s₂ h₂) in
    let g₂ = claim_task-IsGrant id₂ account moment₂ length₂ locked₂ s₃ s₄ c' h₃ e₂ in
    let (t, e, evolved) =
      TableSteps-Later c.task_id (lease_task moment₁ length₁ g₁.task) (run-TableSteps ops s₂ h₂)
        g₁.after in
    let e' : task_row c.task_id s₃.tasks ≡ some t =
      subst (λ s. task_row c.task_id s.tasks ≡ some t) r e in
    let here_too : task_row c.task_id s₃.tasks ≡ some g₂.task =
      subst (λ k. task_row k s₃.tasks ≡ some g₂.task) same g₂.before in
    let match : t ≡ g₂.task = some-injective (sym e' ∙ here_too) in
    let epochs : t.lease_epoch ≡ g₂.task.lease_epoch = ap (λ x. x.lease_epoch) match in
    let higher : c.lease_epoch < c'.lease_epoch =
      omega (arith, g₁.new_epoch, g₂.new_epoch, evolved.epoch_grows, epochs) in
    let after : task_row c.task_id s₄.tasks ≡ some (lease_task moment₂ length₂ g₂.task) =
      subst (λ k. task_row k s₄.tasks ≡ some (lease_task moment₂ length₂ g₂.task)) same g₂.after in
    let stale : IsStale c (lease_task moment₂ length₂ g₂.task) = (ground (arith, g₂.new_epoch)) in
    (
      higher,
      stale-IsFenced account c s₄
          (λ u eu. subst (IsStale c) (some-injective (sym after ∙ eu)) stale),
    )
