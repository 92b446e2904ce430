-- ===== src/Budget/Ledgers.antt =====
-- The ledger rows, and `ensure_ledger`, `reserve_cost`, `settle_cost`, `release_cost` and
-- `mark_uncertain` of reconciliation_runtime.py. The unit columns are naturals, since the
-- tables' check constraints refuse a negative one when the session is flushed.
use mari_time_system.Prelude.{
  ℕ, ◌+◌, ◌-◌, min, String, Option, none, some, List, [], ◌∷◌, ◌++◌, Bool, true, false, ◌&&◌, ◌||◌,
  ltb, ltb_ℤ, ◌==◌, str_eq, if◌then◌else◌, is_some, find, get_row, save_row, total, ℤ, pos, negsuc,
  Result, ok, err, integrity_error, value_error, ◌>>=◌, ◌>>◌, raise_if,
}
use mari_time_system.Runtime.State.{Run}

pub data ReservationStatus : Type 0 where
  reserved settled released uncertain : ReservationStatus

abbrev pub is_reserved : ReservationStatus → Bool
is_reserved ReservationStatus.reserved = true
is_reserved _ = false

-- The columns that an account's ledger and the system-wide one share.
pub record Units : Type 0 where
  pub ceiling_units : ℤ
  pub reserved_units : ℕ
  pub spent_units : ℕ
  pub uncertain_units : ℕ

-- recon_budget_ledgers
pub record Ledger : Type 0 where
  pub account_id : ℕ
  pub period_key : String
  pub units : Units

-- recon_global_budget_ledgers
pub record GlobalLedger : Type 0 where
  pub period_key : String
  pub units : Units

-- recon_budget_reservations
pub record Reservation : Type 0 where
  pub id : ℕ
  pub account_id : ℕ
  pub run_id : ℕ
  pub task_id : Option ℕ
  pub period_key : String
  pub reserved_units : ℕ
  pub spent_units : ℕ
  pub uncertain_units : ℕ
  pub status : ReservationStatus

-- The rows that a call locks, reads and writes: the reservations, the ledger and, where the
-- caller supplies it, the system-wide ledger.
pub record Books : Type 0 where
  pub reservations : List Reservation
  pub ledger : Ledger
  pub global_ledger : Option GlobalLedger

abbrev pub fresh_units : ℤ → Units
fresh_units ceiling = record {
  ceiling_units = ceiling;
  reserved_units = 0;
  spent_units = 0;
  uncertain_units = 0;
}

-- Finds the account's ledger of the period, or adds an empty one; the table as it is then.
unfoldable pub ensure_ledger : ℕ → String → ℤ → List Ledger → Ledger × List Ledger
ensure_ledger account period ceiling ls =
    elim (find (λ l. l.account_id == account && str_eq l.period_key period) ls) [
      | some l ↦ (l, ls)
      | none ↦
          let l : Ledger = record {
            account_id = account;
            period_key = period;
            units = fresh_units ceiling;
          } in
          (l, ls ++ l ∷ [])
    ]

unfoldable pub ensure_global_ledger :
    String → ℤ → List GlobalLedger → GlobalLedger × List GlobalLedger
ensure_global_ledger period ceiling ls = elim (find (λ l. str_eq l.period_key period) ls) [
  | some l ↦ (l, ls)
  | none ↦
      let l : GlobalLedger = record { period_key = period; units = fresh_units ceiling } in
      (l, ls ++ l ∷ [])
]

-- What a reservation holds of its run's budget.
abbrev pub held_by_run : ℕ → ℕ → Reservation → ℕ
held_by_run run_id account r =
    if r.account_id == account && r.run_id == run_id
    then r.reserved_units + r.spent_units + r.uncertain_units
    else 0

-- `_run_committed`
unfoldable pub run_committed : ℕ → ℕ → List Reservation → ℕ
run_committed run_id account = total (held_by_run run_id account)

-- `_outstanding`
abbrev pub outstanding : Units → ℕ
outstanding u = u.reserved_units + u.spent_units + u.uncertain_units

-- `_outstanding(ledger) + units > ledger.ceiling_units`
unfoldable pub over_ceiling : ℕ → Units → Bool
over_ceiling units u = ltb_ℤ u.ceiling_units (pos (outstanding u + units))

unfoldable pub global_over_ceiling : ℕ → Option GlobalLedger → Bool
unfolding over_ceiling
global_over_ceiling units none = false
global_over_ceiling units (some g) = over_ceiling units g.units

abbrev pub add_reserved : ℕ → Units → Units
add_reserved units u = record u { reserved_units = u.reserved_units + units }

abbrev pub on_global : (Units → Units) → Option GlobalLedger → Option GlobalLedger
on_global f none = none
on_global f (some g) = some (record g { units = f g.units })

unfoldable pub new_reservation : ℕ → ℕ → Run → String → ℕ → Option ℕ → Reservation
new_reservation new_id account run period units task_id = record {
  id = new_id;
  account_id = account;
  run_id = run.id;
  task_id = task_id;
  period_key = period;
  reserved_units = units;
  spent_units = 0;
  uncertain_units = 0;
  status = ReservationStatus.reserved;
}

-- Some ceiling would be exceeded: the run's budget, the ledger's or the system-wide one's.
unfoldable pub refuses : ℕ → Run → ℕ → Books → Bool
unfolding run_committed over_ceiling global_over_ceiling
refuses account run units b =
    ltb run.budget_units (run_committed run.id account b.reservations + units)
    || (over_ceiling units b.ledger.units || global_over_ceiling units b.global_ledger)

unfoldable pub reserve_cost :
    ℕ → ℕ → Run → ℤ → Option ℕ → Books → Result (Option Reservation × Books)
unfolding refuses new_reservation
reserve_cost new_id account run (negsuc n) task_id b = err value_error
reserve_cost new_id account run (pos units) task_id b =
    if refuses account run units b
    then ok (none, b)
    else (let r : Reservation =
          new_reservation new_id account run b.ledger.period_key units task_id in
        do
          raise_if (is_some (get_row (λ x. x.id) new_id b.reservations)) integrity_error
          ok (
            some r,
            record {
              reservations = b.reservations ++ r ∷ [];
              ledger = record b.ledger { units = add_reserved units b.ledger.units };
              global_ledger = on_global (add_reserved units) b.global_ledger;
            },
          ))

-- `reserved_units -= held` and what else the call adds; the flush refuses a negative column.
abbrev pub move_units : ℕ → ℕ → ℕ → Units → Result Units
move_units held spent doubt u =
    if ltb u.reserved_units held
    then err integrity_error
    else ok (record u {
      reserved_units = u.reserved_units - held;
      spent_units = u.spent_units + spent;
      uncertain_units = u.uncertain_units + doubt;
    })

abbrev pub move_global : ℕ → ℕ → ℕ → Option GlobalLedger → Result (Option GlobalLedger)
move_global held spent doubt none = ok none
move_global held spent doubt (some g) = do
  u ← move_units held spent doubt g.units
  ok (some (record g { units = u }))

-- The common end of the three calls below: the reservation `r'` replaces its row, and the units
-- that it held move in both ledgers.
unfoldable pub close_reservation : ℕ → ℕ → ℕ → Reservation → Books → Result Books
close_reservation held spent doubt r' b = do
  u ← move_units held spent doubt b.ledger.units
  g ← move_global held spent doubt b.global_ledger
  ok (record {
    reservations = save_row (λ x. x.id) r' b.reservations;
    ledger = record b.ledger { units = u };
    global_ledger = g;
  })

-- `max(0, min(actual_units, reservation.reserved_units))`
abbrev pub clamp_spend : ℤ → ℕ → ℕ
clamp_spend (pos actual) held = min actual held
clamp_spend (negsuc n) held = 0

unfoldable pub settle_cost : Reservation → ℤ → Books → Result Books
unfolding close_reservation
settle_cost r actual b =
    if is_reserved r.status
    then close_reservation r.reserved_units (clamp_spend actual r.reserved_units) 0
        (record r {
          reserved_units = 0;
          spent_units = clamp_spend actual r.reserved_units;
          status = ReservationStatus.settled;
        })
        b
    else err value_error

unfoldable pub release_cost : Reservation → Books → Result Books
unfolding close_reservation
release_cost r b =
    if is_reserved r.status
    then close_reservation r.reserved_units 0 0
        (record r { reserved_units = 0; status = ReservationStatus.released }) b
    else err value_error

unfoldable pub mark_uncertain : Reservation → Books → Result Books
unfolding close_reservation
mark_uncertain r b =
    if is_reserved r.status
    then close_reservation r.reserved_units 0 r.reserved_units
        (record r {
          reserved_units = 0;
          uncertain_units = r.reserved_units;
          status = ReservationStatus.uncertain;
        })
        b
    else err value_error
