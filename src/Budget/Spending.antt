-- ===== src/Budget/Spending.antt =====
-- The budget calls of reconciliation_runtime.py in the order in which agents make them on one
-- account's ledger of one period. `reserve_cost` locks and rereads its ledgers; `settle_cost`,
-- `release_cost` and `mark_uncertain` lock nothing and compute from the rows that their session has
-- loaded, so each of them carries the books that it has seen.
use mari_time_system.Prelude.{
  ℕ, ◌+◌, ◌≤◌, ◌≡◌, ◌&&◌, if◌then◌else◌, refl, sym, subst, Option, some, List, [], ◌∷◌, true, false,
  ◌==◌, ==→≡, get_row, get_row-key, total, total-append, total-save_row, ℤ, pos, negsuc, Result, ok,
  err, arith, All, Option-cases, Bool-cases, inl, inr,
}
use mari_time_system.Runtime.State.{Run}
use mari_time_system.Budget.Ledgers.{
  is_reserved, Reservation, Books, held_by_run, run_committed, refuses, reserve_cost, settle_cost,
  release_cost, mark_uncertain,
}
use mari_time_system.Budget.Balance.{belongs, Sound}
use mari_time_system.Budget.Sessions.{write_back, on_reservation, closed_fresh}
use mari_time_system.Budget.Closing.{
  IsClosed, settle_cost-IsClosed, release_cost-IsClosed, mark_uncertain-IsClosed,
  not_reserved-refused, clamp_spend-le, clean,
}
use mari_time_system.Budget.Reserving.{refuses-Fits, IsReservedIn, reserve_cost-IsReservedIn}

pub data BookOp : Type 0 where
  reserve : (new_id : ℕ) (run : Run) (units : ℤ) (task_id : Option ℕ) → BookOp
  settle : (id : ℕ) (actual : ℤ) (seen : Books) → BookOp
  release : (id : ℕ) (seen : Books) → BookOp
  doubt : (id : ℕ) (seen : Books) → BookOp

abbrev after_reserve : Books → Result (Option Reservation × Books) → Books
after_reserve b (ok (r, b')) = b'
after_reserve b (err e) = b

unfoldable pub book_step : BookOp → Books → Books
book_step (reserve new_id run units task_id) b =
    after_reserve b (reserve_cost new_id b.ledger.account_id run units task_id b)
book_step (settle id actual seen) b = on_reservation id (λ r. settle_cost r actual) seen b
book_step (release id seen) b = on_reservation id release_cost seen b
book_step (doubt id seen) b = on_reservation id mark_uncertain seen b

unfoldable pub spend : List BookOp → Books → Books
spend [] b = b
spend (op ∷ ops) b = spend ops (book_step op b)

-- What a reservation of the run against the account has in one column.
abbrev run_share : ℕ → ℕ → (Reservation → ℕ) → Reservation → ℕ
run_share run_id account column r =
    if r.account_id == account && r.run_id == run_id then column r else 0

-- The run's commitments against the account: what is held, spent and in doubt.
abbrev commitments : ℕ → ℕ → List Reservation → ℕ
commitments run_id account rs =
    total (run_share run_id account (λ r. r.reserved_units)) rs
    + total (run_share run_id account (λ r. r.spent_units)) rs
    + total (run_share run_id account (λ r. r.uncertain_units)) rs

abbrev pub RunWithin : Run → Books → Type 0
RunWithin run b = commitments run.id b.ledger.account_id b.reservations ≤ run.budget_units

commitments-total :
    (run_id account : ℕ) (rs : List Reservation)
    → commitments run_id account rs ≡ total (held_by_run run_id account) rs
commitments-total run_id account [] = refl
commitments-total run_id account (r ∷ rs) =
    elim (Bool-cases (r.account_id == account && r.run_id == run_id)) [
      | inl mine ↦ rw mine (omega (arith, commitments-total run_id account rs))
      | inr other ↦ rw other (omega (arith, commitments-total run_id account rs))
    ]

-- The calls that name this run's id carry this run.
abbrev pub Names : Run → BookOp → Type 0
Names run (reserve new_id other units task_id) =
    other.id ≡ run.id → other.budget_units ≡ run.budget_units
Names run (settle id actual seen) = Unit
Names run (release id seen) = Unit
Names run (doubt id seen) = Unit

-- A closing call has loaded the rows as they are stored.
abbrev pub Loaded : BookOp → Books → Type 0
Loaded (reserve new_id run units task_id) b = Unit
Loaded (settle id actual seen) b = seen ≡ b
Loaded (release id seen) b = seen ≡ b
Loaded (doubt id seen) b = seen ≡ b

-- Every closing call has, when its turn comes.
abbrev pub Current : List BookOp → Books → Type 0
Current [] b = Unit
Current (op ∷ ops) b = Loaded op b × Current ops (book_step op b)

-- What is kept: sound books, and the run within its budget.
pub record Kept (run : Run) (b : Books) : Type 0 where
  pub sound : Sound b
  pub run_within : RunWithin run b

commitments-RunWithin :
    (run : Run) (b : Books)
    → total (held_by_run run.id b.ledger.account_id) b.reservations ≤ run.budget_units
    → RunWithin run b
commitments-RunWithin run b h =
    omega (arith, h, commitments-total run.id b.ledger.account_id b.reservations)

closed_keeps :
    (run : Run) (held spent doubtful : ℕ) (r r' : Reservation) (b b' : Books)
    → RunWithin run b
    → get_row (λ x. x.id) r'.id b.reservations ≡ some r
    → held_by_run run.id b.ledger.account_id r' ≤ held_by_run run.id b.ledger.account_id r
    → IsClosed held spent doubtful r' b b'
    → Kept run b'
closed_keeps run held spent doubtful r r' b b' within e less c = record {
  sound = c.sound;
  run_within = commitments-RunWithin run b' (
      subst (λ a. total (held_by_run run.id a) b'.reservations ≤ run.budget_units)
        (sym c.same_ledger.0)
        (subst (λ rs. total (held_by_run run.id b.ledger.account_id) rs ≤ run.budget_units)
          (sym c.recorded)
          (omega (
            arith,
            within,
            less,
            commitments-total run.id b.ledger.account_id b.reservations,
            total-save_row (held_by_run run.id b.ledger.account_id) (λ x. x.id) r' b.reservations e,
          ))));
}

module _ (run : Run) (b : Books) (kept : Kept run b) where
  -- A call that closes what is open and refuses what is not keeps the books.
  on_reservation-Kept :
      (id : ℕ) (call : Reservation → Books → Result Books)
      → ((r : Reservation)
          → get_row (λ x. x.id) r.id b.reservations ≡ some r
          → belongs b.ledger r ≡ true
          → Kept run (write_back r b b (call r b)))
      → Kept run (on_reservation id call b b)
  on_reservation-Kept id call keeps = elim (Option-cases (get_row (λ r. r.id) id b.reservations)) [
    | inl missing ↦ rw (missing, on_reservation) kept
    | inr (r, found) ↦
        let key = get_row-key (λ x. x.id) id b.reservations found in
        let stored = subst (λ k. get_row (λ x. x.id) k b.reservations ≡ some r) (sym key) found in
        elim (Bool-cases (belongs b.ledger r)) [
          | inl own ↦ rw (found, on_reservation) (rw own (keeps r stored own))
          | inr foreign ↦ rw (found, on_reservation) (rw foreign kept)
        ]
  ]

  module _ (r : Reservation) (stored : get_row (λ x. x.id) r.id b.reservations ≡ some r)
      (own : belongs b.ledger r ≡ true) where
    settled_fresh :
        (actual : ℤ) (b' : Books)
        → is_reserved r.status ≡ true
        → settle_cost r actual b ≡ ok b'
        → write_back r b b (ok b') ≡ b'
    unfolding settle_cost
    settled_fresh actual b' status done =
        closed_fresh _ _ _ _ _ _ _ r b b' stored (rw status at done)

    released_fresh :
        (b' : Books)
        → is_reserved r.status ≡ true
        → release_cost r b ≡ ok b'
        → write_back r b b (ok b') ≡ b'
    unfolding release_cost
    released_fresh b' status done = closed_fresh _ _ _ _ _ _ _ r b b' stored (rw status at done)

    doubted_fresh :
        (b' : Books)
        → is_reserved r.status ≡ true
        → mark_uncertain r b ≡ ok b'
        → write_back r b b (ok b') ≡ b'
    unfolding mark_uncertain
    doubted_fresh b' status done = closed_fresh _ _ _ _ _ _ _ r b b' stored (rw status at done)

    settle-Kept : (actual : ℤ) → Kept run (write_back r b b (settle_cost r actual b))
    settle-Kept actual = elim (Bool-cases (is_reserved r.status)) [
      | inr closed ↦ rw (not_reserved-refused r actual b closed).0 kept
      | inl status ↦
          let (b', done, c) = settle_cost-IsClosed r b kept.sound stored own status actual in
          rw (done, settled_fresh actual b' status done)
            (closed_keeps run _ _ _ r _ b b' kept.run_within stored
              (ground (arith, clamp_spend-le actual r.reserved_units)) c)
    ]

    release-Kept : Kept run (write_back r b b (release_cost r b))
    release-Kept = elim (Bool-cases (is_reserved r.status)) [
      | inr closed ↦ rw (not_reserved-refused r (pos 0) b closed).1 kept
      | inl status ↦
          let (b', done, c) = release_cost-IsClosed r b kept.sound stored own status in
          rw (done, released_fresh b' status done)
            (closed_keeps run _ _ _ r _ b b' kept.run_within stored (ground arith) c)
    ]

    doubt-Kept : Kept run (write_back r b b (mark_uncertain r b))
    doubt-Kept = elim (Bool-cases (is_reserved r.status)) [
      | inr closed ↦ rw (not_reserved-refused r (pos 0) b closed).2 kept
      | inl status ↦
          let (b', done, c) = mark_uncertain-IsClosed r b kept.sound stored own status in
          rw (done, doubted_fresh b' status done)
            (closed_keeps run _ _ _ r _ b b' kept.run_within stored
              (ground (arith, clean r b kept.sound stored own status)) c)
    ]

  taken_within :
      (other : Run) (units : ℕ) (r : Reservation) (b' : Books)
      → (other.id ≡ run.id → other.budget_units ≡ run.budget_units)
      → IsReservedIn b.ledger.account_id other units r b b'
      → RunWithin run b'
  unfolding run_committed
  taken_within other units r b' named t = elim (Bool-cases (other.id == run.id)) [
    | inl same ↦
        let id : other.id ≡ run.id = ==→≡ other.id run.id same in
        commitments-RunWithin run b' (
          subst (λ a. total (held_by_run run.id a) b'.reservations ≤ run.budget_units)
            (sym t.same_account)
            (subst
              (λ k. total (held_by_run k b.ledger.account_id) b'.reservations ≤ run.budget_units) id
              (omega (arith, t.run_within, named id))))
    | inr another ↦
        let weightless : held_by_run run.id b.ledger.account_id r ≡ 0 = weight_of_other another in
        commitments-RunWithin run b' (
          subst (λ a. total (held_by_run run.id a) b'.reservations ≤ run.budget_units)
            (sym t.same_account)
            (subst (λ rs. total (held_by_run run.id b.ledger.account_id) rs ≤ run.budget_units)
              (sym t.recorded)
              (omega (
                arith,
                kept.run_within,
                weightless,
                commitments-total run.id b.ledger.account_id b.reservations,
                total-append (held_by_run run.id b.ledger.account_id) b.reservations (r ∷ []),
              ))))
  ]
    where
      weight_of_other : (other.id == run.id) ≡ false → held_by_run run.id b.ledger.account_id r ≡ 0
      weight_of_other another = ground (arith, t.for_run)

  reserve-Kept :
      (new_id : ℕ) (other : Run) (units : ℤ) (task_id : Option ℕ)
      → (other.id ≡ run.id → other.budget_units ≡ run.budget_units)
      → Kept run (after_reserve b (reserve_cost new_id b.ledger.account_id other units task_id b))
  unfolding reserve_cost
  reserve-Kept new_id other (negsuc n) task_id named = kept
  reserve-Kept new_id other (pos units) task_id named =
      elim (Bool-cases (refuses b.ledger.account_id other units b)) [
        | inl refused ↦ rw refused kept
        | inr accepted ↦ elim (Option-cases (get_row (λ x. x.id) new_id b.reservations)) [
          | inr (r, found) ↦ rw accepted (rw found kept)
          | inl fresh ↦
              let (r, b', done, t) =
                reserve_cost-IsReservedIn new_id b.ledger.account_id other units task_id b
                  kept.sound refl fresh (refuses-Fits b.ledger.account_id other units b accepted) in
              subst (λ x. Kept run (after_reserve b x)) (sym done)
                (record { sound = t.sound; run_within = taken_within other units r b' named t })
        ]
      ]

module _ (run : Run) (b : Books) (kept : Kept run b) where
  book_step-Kept : (op : BookOp) → Names run op → Loaded op b → Kept run (book_step op b)
  unfolding book_step
  book_step-Kept (reserve new_id other units task_id) named loaded =
      reserve-Kept run b kept new_id other units task_id named
  book_step-Kept (settle id actual seen) named loaded =
      subst (λ (s : Books). Kept run (on_reservation id (λ r. settle_cost r actual) s b))
        (sym loaded)
        (on_reservation-Kept run b kept id (λ r. settle_cost r actual)
          (λ r stored own. settle-Kept run b kept r stored own actual))
  book_step-Kept (release id seen) named loaded =
      subst (λ (s : Books). Kept run (on_reservation id release_cost s b)) (sym loaded)
        (on_reservation-Kept run b kept id release_cost
          (λ r stored own. release-Kept run b kept r stored own))
  book_step-Kept (doubt id seen) named loaded =
      subst (λ (s : Books). Kept run (on_reservation id mark_uncertain s b)) (sym loaded)
        (on_reservation-Kept run b kept id mark_uncertain
          (λ r stored own. doubt-Kept run b kept r stored own))

-- Over any sequence of budget calls that starts from sound books with the run within its budget,
-- in which the calls for the run carry its budget and every closing call has loaded the rows as
-- they are stored when its turn comes: the ledgers' columns stay the sums of the reservations, the
-- outstanding units stay within the ledger's and the system-wide ceiling, and the run's commitments
-- stay within its budget. The code takes no lock that would guarantee the last condition.
pub spend-Kept :
    (run : Run) (ops : List BookOp) (b : Books)
    → All (Names run) ops
    → Current ops b
    → Kept run b
    → Kept run (spend ops b)
unfolding spend
spend-Kept run [] b named current kept = kept
spend-Kept run (op ∷ ops) b named current kept =
    spend-Kept run ops (book_step op b) named.1 current.1
      (book_step-Kept run b kept op named.0 current.0)
