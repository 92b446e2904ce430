-- ===== src/Runtime/History.antt =====
-- What one task row can become under the steps of the table, whatever happens to the others.
use mari_time_system.Prelude.{
  ℕ, ◌≤◌, ◌≡◌, ◌≢◌, inl, inr, refl, ◌∙◌, some, List, Bool, true, false, arith, ◌==◌, ==→≡,
  Bool-cases, get_row-map-some, get_row-save_self, get_row-save_ne, get_row-append_some,
}
use mari_time_system.Runtime.State.{TaskStatus, Task, TaskClaim, is_leased, task_row}
use mari_time_system.Runtime.Queue.{is_due}
use mari_time_system.Runtime.Tasks.{reap_task, lease_task, fail_task, holds_lease}
use mari_time_system.Runtime.Machine.{
  RowStep, lease, renew, succeed, fail, TableStep, reap, save, insert, TableSteps, here, next,
}
use mari_time_system.Runtime.Invariant.{reap_task-id}

-- A task that no operation touches again.
abbrev pub is_settled : TaskStatus → Bool
is_settled TaskStatus.succeeded = true
is_settled TaskStatus.dead = true
is_settled _ = false

pub record Evolves (t t' : Task) : Type 0 where
  pub same_id : t'.id ≡ t.id
  pub same_account : t'.account_id ≡ t.account_id
  pub same_limit : t'.max_attempts ≡ t.max_attempts
  pub epoch_grows : t.lease_epoch ≤ t'.lease_epoch
  pub attempts_grow : t.attempts ≤ t'.attempts
  pub settled_stays : is_settled t.status ≡ true → t' ≡ t
  pub no_revival :
      t'.lease_epoch ≡ t.lease_epoch → is_leased t.status ≡ false → is_leased t'.status ≡ false

pub Evolves-refl : (t : Task) → Evolves t t
Evolves-refl t = record {
  same_id = refl;
  same_account = refl;
  same_limit = refl;
  epoch_grows = omega arith;
  attempts_grow = omega arith;
  settled_stays = λ _. refl;
  no_revival = λ _ h. h;
}

reap_task-Evolves : (account moment : ℕ) (t : Task) → Evolves t (reap_task account moment t)
unfolding reap_task
reap_task-Evolves account moment t = ground arith

RowStep-Evolves : {t t' : Task} → RowStep t t' → Evolves t t'
unfolding lease_task fail_task is_due
RowStep-Evolves (lease account moment length t due) = ground arith
RowStep-Evolves (renew until t leased) = ground arith
RowStep-Evolves (succeed t leased) = ground arith
RowStep-Evolves (fail moment backoff reason t leased) = ground arith

pub Evolves-trans : {a b c : Task} → Evolves a b → Evolves b c → Evolves a c
Evolves-trans {a} {b} {c} p q = record {
  same_id = omega arith;
  same_account = omega arith;
  same_limit = omega arith;
  epoch_grows = omega arith;
  attempts_grow = omega arith;
  settled_stays = λ h. settled_twice h;
  no_revival = λ e h. q.no_revival (omega arith) (p.no_revival (omega arith) h);
}
  where
    settled_twice : is_settled a.status ≡ true → c ≡ a
    settled_twice h = rw (← p.settled_stays h) (q.settled_stays (rw (p.settled_stays h) h))

-- A row of the table, after the step.
abbrev pub Later : ℕ → Task → List Task → Type 0
Later k t us = (t' : Task) × (task_row k us ≡ some t') × Evolves t t'

TableStep-Later :
    {ts us : List Task} (k : ℕ) (t : Task) → TableStep ts us → task_row k ts ≡ some t → Later k t us
TableStep-Later k t (reap account moment ts) e = (
  reap_task account moment t,
  get_row-map-some (λ x. x.id) (reap_task account moment) (reap_task-id account moment) k ts e,
  reap_task-Evolves account moment t,
)
TableStep-Later k t (save t₀ t' ts e₀ st) e = elim (Bool-cases (t'.id == k)) [
  | inl same ↦
      let same_key : t'.id ≡ k = ==→≡ t'.id k same in
      let at_key : task_row t'.id ts ≡ some t = rw same_key e in
      let old : t₀ ≡ t = cc in
      (t', rw (← same_key) (get_row-save_self (λ x. x.id) t' ts e₀), rw old at (RowStep-Evolves st))
  | inr other ↦
      let apart : k ≢ t'.id = ground arith in
      (t, get_row-save_ne (λ x. x.id) k t' ts apart ∙ e, Evolves-refl t)
]
TableStep-Later k t (insert n ts fresh new) e =
    (t, get_row-append_some (λ x. x.id) k ts n e, Evolves-refl t)

-- A row that is in the table stays there and evolves.
pub TableSteps-Later :
    {ts us : List Task} (k : ℕ) (t : Task)
    → TableSteps ts us
    → task_row k ts ≡ some t
    → Later k t us
TableSteps-Later k t here e = (t, e, Evolves-refl t)
TableSteps-Later k t (next r st) e =
    let (u, eu, p) = TableSteps-Later k t r e in
    let (v, ev, q) = TableStep-Later k u st eu in (v, ev, Evolves-trans p q)

-- The claim's lease is over: a newer epoch stands, or the task is no longer leased.
pub record IsStale (claim : TaskClaim) (t : Task) : Type 0 where
  pub not_ahead : claim.lease_epoch ≤ t.lease_epoch
  pub lost : holds_lease claim t ≡ false

-- A lease that is over stays over.
pub Evolves-IsStale :
    (claim : TaskClaim) {t t' : Task} → Evolves t t' → IsStale claim t → IsStale claim t'
unfolding holds_lease
Evolves-IsStale claim p h = ground arith
