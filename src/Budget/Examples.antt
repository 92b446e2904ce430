-- ===== src/Budget/Examples.antt =====
-- Reservations on small books, for the budget part of reconciliation_runtime.py.
use mari_time_system.Prelude.{
  ℕ, ◌+◌, ◌≡◌, refl, total, none, some, List, [], ◌∷◌, pos, ok, err, value_error, arith, get_row,
}
use mari_time_system.Runtime.State.{Run}
use mari_time_system.Budget.Ledgers.{
  ReservationStatus, Units, Reservation, Books, run_committed, reserve_cost, settle_cost,
}
use mari_time_system.Budget.Balance.{share, Sound}
use mari_time_system.Budget.Lost.{stale_settle-loses}
use mari_time_system.Budget.Reserving.{Fits}
use mari_time_system.Budget.Closed.{CloseCall, close, closed_once}
use mari_time_system.Budget.Spending.{
  BookOp, reserve, settle, release, doubt, book_step, spend, Kept, spend-Kept,
}

abbrev budgeted : Run
budgeted = record {
  id = 1;
  account_id = 7;
  case_id = 3;
  workflow_version = "v1";
  system_fingerprint = "f1";
  budget_units = 20;
  deadline_at = 9000;
}

abbrev held_row : Reservation
held_row = record {
  id = 50;
  account_id = 7;
  run_id = 1;
  task_id = none;
  period_key = "2026-01";
  reserved_units = 12;
  spent_units = 0;
  uncertain_units = 0;
  status = ReservationStatus.reserved;
}

abbrev columns : ℕ → Units
columns ceiling = record {
  ceiling_units = pos ceiling;
  reserved_units = 12;
  spent_units = 0;
  uncertain_units = 0;
}

abbrev open_books : Books
open_books = record {
  reservations = held_row ∷ [];
  ledger = record { account_id = 7; period_key = "2026-01"; units = columns 100 };
  global_ledger = some (record { period_key = "2026-01"; units = columns 1000 });
}

open_books-Sound : Sound open_books
open_books-Sound = record {
  keyed = (refl, tt);
  rows = (ground arith, tt);
  agrees = record { reserved_sum = refl; spent_sum = refl; uncertain_sum = refl };
  within = ground arith;
  global_ok =
      (refl, record { reserved_sum = refl; spent_sum = refl; uncertain_sum = refl }, ground arith);
}

eight_fit : Fits 7 budgeted 8 open_books
unfolding run_committed
eight_fit = record {
  run_fits = ground arith;
  ledger_fits = ground arith;
  global_fits = ground arith;
}

nine_misfit : ¬ (Fits 7 budgeted 9 open_books)
unfolding run_committed
nine_misfit fits = absurd (omega (arith, fits.run_fits))

abbrev settled_row : ℕ → Reservation
settled_row spent = record held_row {
  reserved_units = 0;
  spent_units = spent;
  status = ReservationStatus.settled;
}

abbrev once_closed : Books
once_closed = record {
  reservations = settled_row 12 ∷ [];
  ledger = record {
    account_id = 7;
    period_key = "2026-01";
    units = record {
      ceiling_units = pos 100;
      reserved_units = 0;
      spent_units = 12;
      uncertain_units = 0;
    };
  };
  global_ledger = some (record {
    period_key = "2026-01";
    units = record {
      ceiling_units = pos 1000;
      reserved_units = 0;
      spent_units = 12;
      uncertain_units = 0;
    };
  });
}

settled_once : close (CloseCall.settle (pos 15)) held_row open_books ≡ ok once_closed
unfolding settle_cost
settled_once = refl

closed_once_example :
    (r' : Reservation) × (get_row (λ x. x.id) 50 once_closed.reservations ≡ some r')
    × ((c' : CloseCall) → close c' r' once_closed ≡ err value_error)
closed_once_example =
    closed_once (CloseCall.settle (pos 15)) held_row open_books once_closed refl settled_once

-- The books after each of the calls below.
abbrev taken_8 : Books
taken_8 = book_step (reserve 51 budgeted (pos 8) none) open_books

abbrev settled_50 : Books
settled_50 = book_step (settle 50 (pos 15) taken_8) taken_8

abbrev released_50 : Books
released_50 = book_step (release 50 settled_50) settled_50

abbrev calls : List BookOp
calls =
    reserve 51 budgeted (pos 8) none
    ∷ settle 50 (pos 15) taken_8
    ∷ release 50 settled_50
    ∷ doubt 51 released_50
    ∷ reserve 52 budgeted (pos 3) none
    ∷ []

open_books-Kept : Kept budgeted open_books
unfolding run_committed
open_books-Kept = record { sound = open_books-Sound; run_within = ground arith }

spend-Kept_example : Kept budgeted (spend calls open_books)
spend-Kept_example =
    spend-Kept budgeted calls open_books ((λ e. refl), (tt, (tt, (tt, ((λ e. refl), tt)))))
      (tt, (refl, (refl, (refl, (tt, tt))))) open_books-Kept

-- The settlement of 50 has loaded the books before the 8 units of 51 were reserved.
stale_settle-loses_example :
    let after =
      spend (reserve 51 budgeted (pos 8) none ∷ settle 50 (pos 15) open_books ∷ []) open_books in
    after.ledger.units.reserved_units + 8
    ≡ total (share after.ledger (λ x. x.reserved_units)) after.reservations
stale_settle-loses_example =
    stale_settle-loses open_books open_books-Sound held_row refl refl refl 51 budgeted 8 none refl
      eight_fit (pos 15) (omega arith)

abbrev overwritten : Books
overwritten =
    spend (reserve 51 budgeted (pos 8) none ∷ settle 50 (pos 15) open_books ∷ []) open_books

overwritten_column : overwritten.ledger.units.reserved_units ≡ 0
unfolding spend book_step reserve_cost settle_cost
overwritten_column = refl

-- Where the settlement has loaded the stored books, the 8 units stay recorded.
settled_50_column : settled_50.ledger.units.reserved_units ≡ 8
unfolding book_step reserve_cost settle_cost
settled_50_column = refl
