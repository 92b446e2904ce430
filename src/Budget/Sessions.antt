-- ===== src/Budget/Sessions.antt =====
-- Closing calls of reconciliation_runtime.py in sessions: `settle_cost`, `release_cost` and
-- `mark_uncertain` take no row lock, so a session computes from the rows that it has loaded, and its
-- flush writes the columns that it changed over whatever is stored by then.
use mari_time_system.Prelude.{
  ℕ, ◌+◌, ◌-◌, ◌≡◌, refl, sym, subst, ap, Option, none, some, ltb, ◌==◌, ==→≡, if◌then◌else◌,
  get_row, save_row, get_row-save_self, Result, ok, err, ok-injective, arith, Bool-cases, inl, inr,
}
use mari_time_system.Budget.Ledgers.{
  ReservationStatus, Units, GlobalLedger, Reservation, Books, move_units, move_global,
  close_reservation,
}
use mari_time_system.Budget.Balance.{belongs}

-- A column is written if the session has changed it.
abbrev pub written : ℕ → ℕ → ℕ → ℕ
written seen after stored = if after == seen then stored else after

abbrev pub write_units : Units → Units → Units → Units
write_units seen after stored = record stored {
  reserved_units = written seen.reserved_units after.reserved_units stored.reserved_units;
  spent_units = written seen.spent_units after.spent_units stored.spent_units;
  uncertain_units = written seen.uncertain_units after.uncertain_units stored.uncertain_units;
}

abbrev pub write_global :
    Option GlobalLedger → Option GlobalLedger → Option GlobalLedger → Option GlobalLedger
write_global none after stored = stored
write_global (some s) none stored = stored
write_global (some s) (some a) none = none
write_global (some s) (some a) (some g) =
    some (record g { units = write_units s.units a.units g.units })

-- The status has always changed.
abbrev pub write_row : Reservation → Reservation → Reservation → Reservation
write_row seen after stored = record stored {
  reserved_units = written seen.reserved_units after.reserved_units stored.reserved_units;
  spent_units = written seen.spent_units after.spent_units stored.spent_units;
  uncertain_units = written seen.uncertain_units after.uncertain_units stored.uncertain_units;
  status = after.status;
}

-- The flush of a session that has loaded `seen`, closed its reservation `r` and left `after`.
abbrev pub write_back : Reservation → Books → Books → Result Books → Books
write_back r seen b (err e) = b
write_back r seen b (ok after) = elim (get_row (λ x. x.id) r.id after.reservations) [
  | none ↦ b
  | some r' ↦ elim (get_row (λ x. x.id) r.id b.reservations) [
    | none ↦ b
    | some stored ↦ record {
      reservations = save_row (λ x. x.id) (write_row r r' stored) b.reservations;
      ledger = record b.ledger {
        units = write_units seen.ledger.units after.ledger.units b.ledger.units;
      };
      global_ledger = write_global seen.global_ledger after.global_ledger b.global_ledger;
    }
  ]
]

-- The caller closes a reservation that it has loaded, with the ledger that it was taken from.
abbrev pub on_reservation : ℕ → (Reservation → Books → Result Books) → Books → Books → Books
on_reservation id call seen b = elim (get_row (λ r. r.id) id seen.reservations) [
  | none ↦ b
  | some r ↦ if belongs seen.ledger r then write_back r seen b (call r seen) else b
]

written_fresh : (seen after : ℕ) → written seen after seen ≡ after
written_fresh seen after = elim (Bool-cases (after == seen)) [
  | inl same ↦ rw same (sym (==→≡ after seen same))
  | inr changed ↦ rw changed refl
]

-- What a session that has loaded the stored columns writes is what it computed.
units_fresh :
    (held spent doubt : ℕ) (u u' : Units)
    → move_units held spent doubt u ≡ ok u'
    → write_units u u' u ≡ u'
units_fresh held spent doubt u u' e = elim (Bool-cases (ltb u.reserved_units held)) [
  | inl short ↦ absurd (ground arith)
  | inr enough ↦
      subst (λ (v : Units). write_units u v u ≡ v) (ok-injective (rw enough at e))
        (rw
          (
            written_fresh u.reserved_units (u.reserved_units - held),
            written_fresh u.spent_units (u.spent_units + spent),
            written_fresh u.uncertain_units (u.uncertain_units + doubt),
          )
          refl)
]

global_fresh :
    (held spent doubt : ℕ) (g g' : Option GlobalLedger)
    → move_global held spent doubt g ≡ ok g'
    → write_global g g' g ≡ g'
global_fresh held spent doubt none g' e = ok-injective e
global_fresh held spent doubt (some g) g' e = by_units (move_units held spent doubt g.units) refl
  where
    by_units :
        (m : Result Units)
        → move_units held spent doubt g.units ≡ m
        → write_global (some g) g' (some g) ≡ g'
    by_units (err x) p = absurd (ground arith)
    by_units (ok u) p =
        subst (λ (x : Option GlobalLedger). write_global (some g) x (some g) ≡ x)
          (ok-injective (rw p at e))
          (ap (λ (v : Units). some (record g { units = v }))
            (units_fresh held spent doubt g.units u p))

close_reservation-fresh :
    (held spent doubt : ℕ) (r r' : Reservation) (b after : Books)
    → get_row (λ x. x.id) r.id b.reservations ≡ some r
    → r'.id ≡ r.id
    → write_row r r' r ≡ r'
    → close_reservation held spent doubt r' b ≡ ok after
    → write_back r b b (ok after) ≡ after
unfolding close_reservation
close_reservation-fresh held spent doubt r r' b after stored same_id row e =
    by_units (move_units held spent doubt b.ledger.units) refl
  where
    key : get_row (λ x. x.id) r'.id b.reservations ≡ some r
    key = subst (λ k. get_row (λ x. x.id) k b.reservations ≡ some r) (sym same_id) stored

    saved : get_row (λ x. x.id) r.id (save_row (λ x. x.id) r' b.reservations) ≡ some r'
    saved =
        subst (λ k. get_row (λ x. x.id) k (save_row (λ x. x.id) r' b.reservations) ≡ some r')
          same_id (get_row-save_self (λ x. x.id) r' b.reservations key)

    by_units :
        (m : Result Units)
        → move_units held spent doubt b.ledger.units ≡ m
        → write_back r b b (ok after) ≡ after
    by_units (err x) p = absurd (ground arith)
    by_units (ok u) p = by_global (move_global held spent doubt b.global_ledger) refl
      where
        by_global :
            (m : Result (Option GlobalLedger))
            → move_global held spent doubt b.global_ledger ≡ m
            → write_back r b b (ok after) ≡ after
        by_global (err x) q = absurd (ground arith)
        by_global (ok g) q =
            subst (λ (x : Books). write_back r b b (ok x) ≡ x) (ok-injective (rw q at rw p at e))
              (rw
                (
                  saved,
                  stored,
                  row,
                  units_fresh held spent doubt b.ledger.units u p,
                  global_fresh held spent doubt b.global_ledger g q,
                  write_back,
                )
                refl)

pub row_fresh :
    (left used unsure : ℕ) (status : ReservationStatus) (r : Reservation)
    → let r' : Reservation = record r {
      reserved_units = left;
      spent_units = used;
      uncertain_units = unsure;
      status = status;
    } in
      write_row r r' r ≡ r'
row_fresh left used unsure status r =
    rw
      (
        written_fresh r.reserved_units left,
        written_fresh r.spent_units used,
        written_fresh r.uncertain_units unsure,
      )
      refl

-- A session that has loaded the stored rows writes what it computed.
pub closed_fresh :
    (held spent doubt left used unsure : ℕ) (status : ReservationStatus) (r : Reservation)
    (b after : Books)
    → get_row (λ x. x.id) r.id b.reservations ≡ some r
    → close_reservation held spent doubt
        (record r {
          reserved_units = left;
          spent_units = used;
          uncertain_units = unsure;
          status = status;
        })
        b
      ≡ ok after
    → write_back r b b (ok after) ≡ after
closed_fresh held spent doubt left used unsure status r b after stored e =
    close_reservation-fresh held spent doubt r _ b after stored refl
      (row_fresh left used unsure status r) e
