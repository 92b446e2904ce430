-- ===== src/Budget/Lost.antt =====
-- A closing call of reconciliation_runtime.py whose session has loaded the rows before another
-- agent's `reserve_cost` commits: nothing locks the ledger, and the flush overwrites its column.
use mari_time_system.Prelude.{
  ℕ, ◌+◌, ◌<◌, ◌≡◌, refl, Option, none, some, [], ◌∷◌, ◌++◌, true, get_row, save_row,
  get_row-save_self, get_row-append_some, total, total-append, total-save_row, ℤ, pos, ok, arith,
  eq_refl, ==-refl,
}
use mari_time_system.Runtime.State.{Run}
use mari_time_system.Budget.Ledgers.{
  ReservationStatus, is_reserved, Reservation, Books, clamp_spend, add_reserved, on_global,
  new_reservation, reserve_cost, settle_cost,
}
use mari_time_system.Budget.Balance.{belongs, share, Sound}
use mari_time_system.Budget.Sessions.{
  write_back, write_units, write_global, on_reservation, row_fresh,
}
use mari_time_system.Budget.Closing.{IsClosed, settle_cost-IsClosed}
use mari_time_system.Budget.Reserving.{Fits, Fits-refuses}
use mari_time_system.Budget.Spending.{reserve, settle, book_step, spend}

abbrev held_total : Books → ℕ
held_total b = total (share b.ledger (λ x. x.reserved_units)) b.reservations

module _ (b : Books) (h : Sound b) (r : Reservation)
    (stored : get_row (λ x. x.id) r.id b.reservations ≡ some r) (own : belongs b.ledger r ≡ true)
    (status : is_reserved r.status ≡ true) (new_id : ℕ) (run : Run) (units : ℕ) (task_id : Option ℕ)
    (fresh : get_row (λ x. x.id) new_id b.reservations ≡ none)
    (fits : Fits b.ledger.account_id run units b) where
  taken_row : Reservation
  taken_row = new_reservation new_id b.ledger.account_id run b.ledger.period_key units task_id

  taken : Books
  taken = record {
    reservations = b.reservations ++ taken_row ∷ [];
    ledger = record b.ledger { units = add_reserved units b.ledger.units };
    global_ledger = on_global (add_reserved units) b.global_ledger;
  }

  reserved_first : book_step (reserve new_id run (pos units) task_id) b ≡ taken
  unfolding book_step reserve_cost taken taken_row
  reserved_first = rw (Fits-refuses b.ledger.account_id run units b fits) (rw fresh refl)

  settled_row : ℤ → Reservation
  settled_row actual = record r {
    reserved_units = 0;
    spent_units = clamp_spend actual r.reserved_units;
    status = ReservationStatus.settled;
  }

  own_share : share b.ledger (λ x. x.reserved_units) r ≡ r.reserved_units
  own_share = rw own refl

  left_share : (actual : ℤ) → share b.ledger (λ x. x.reserved_units) (settled_row actual) ≡ 0
  unfolding settled_row
  left_share actual = ground arith

  taken_share : share b.ledger (λ x. x.reserved_units) taken_row ≡ units
  unfolding taken_row new_reservation
  taken_share = rw (==-refl b.ledger.account_id, eq_refl b.ledger.period_key) refl

  -- The column that the settling session computes.
  column_computed :
      (actual : ℤ) (b' : Books)
      → IsClosed r.reserved_units (clamp_spend actual r.reserved_units) 0 (settled_row actual) b b'
      → b'.ledger.units.reserved_units + r.reserved_units ≡ b.ledger.units.reserved_units
  unfolding settled_row
  column_computed actual b' c =
      let sum : b'.ledger.units.reserved_units
          ≡ total (share b.ledger (λ x. x.reserved_units))
              (save_row (λ x. x.id) (settled_row actual) b.reservations) =
        rw (c.recorded, c.same_ledger.0, c.same_ledger.1) at c.sound.agrees.reserved_sum in
      omega (
        arith,
        sum,
        h.agrees.reserved_sum,
        total-save_row (share b.ledger (λ x. x.reserved_units)) (λ x. x.id) (settled_row actual)
            b.reservations stored,
        own_share,
        left_share actual,
      )

  -- What the reservations hold after both calls.
  still_held :
      (actual : ℤ)
      → total
            (share b.ledger (λ x. x.reserved_units))
            (save_row (λ x. x.id) (settled_row actual) (b.reservations ++ taken_row ∷ []))
          + r.reserved_units
        ≡ b.ledger.units.reserved_units + units
  unfolding settled_row taken_row
  still_held actual = omega (
    arith,
    h.agrees.reserved_sum,
    total-append (share b.ledger (λ x. x.reserved_units)) b.reservations (taken_row ∷ []),
    total-save_row (share b.ledger (λ x. x.reserved_units)) (λ x. x.id) (settled_row actual)
        (b.reservations ++ taken_row ∷ [])
        (get_row-append_some (λ x. x.id) r.id b.reservations taken_row stored),
    own_share,
    left_share actual,
    taken_share,
  )

  -- What the late flush of the settling session leaves.
  late_books : ℤ → Books → Books
  late_books actual b' = record {
    reservations = save_row (λ x. x.id) (settled_row actual) (b.reservations ++ taken_row ∷ []);
    ledger = record b.ledger {
      units = write_units b.ledger.units b'.ledger.units (add_reserved units b.ledger.units);
    };
    global_ledger =
        write_global b.global_ledger b'.global_ledger
          (on_global (add_reserved units) b.global_ledger);
  }

  settled_late :
      (actual : ℤ) (b' : Books)
      → settle_cost r actual b ≡ ok b'
      → b'.reservations ≡ save_row (λ x. x.id) (settled_row actual) b.reservations
      → book_step (settle r.id actual b) taken ≡ late_books actual b'
  unfolding book_step settled_row taken taken_row late_books
  settled_late actual b' done recorded =
      rw (stored, on_reservation)
        (rw (own, done)
          (rw
            (
              recorded,
              get_row-save_self (λ x. x.id) (settled_row actual) b.reservations stored,
              get_row-append_some (λ x. x.id) r.id b.reservations taken_row stored,
              row_fresh 0 (clamp_spend actual r.reserved_units) r.uncertain_units
                  ReservationStatus.settled r,
              write_back,
            )
            refl))

  -- A settlement that was computed from the rows as they were before another agent's reservation
  -- was granted writes its column over that reservation: the ledger then shows exactly the granted
  -- units less than its reservations hold. This needs sound books, a stored reservation of the
  -- ledger that is open and holds units, and a granted one under a fresh key.
  pub stale_settle-loses :
      (actual : ℤ)
      → 0 < r.reserved_units
      → let after = spend (reserve new_id run (pos units) task_id ∷ settle r.id actual b ∷ []) b in
        after.ledger.units.reserved_units + units
        ≡ total (share after.ledger (λ x. x.reserved_units)) after.reservations
  unfolding spend settled_row late_books taken_row
  stale_settle-loses actual holds =
      let (b', done, c) = settle_cost-IsClosed r b h stored own status actual in
      let column = column_computed actual b' c in
      rw (reserved_first, settled_late actual b' done c.recorded, late_books)
        (ground (arith, column, still_held actual))
