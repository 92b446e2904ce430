-- ===== src/Budget/Reserving.antt =====
-- `reserve_cost` of reconciliation_runtime.py: granted exactly within every ceiling, and the books
-- stay sound.
use mari_time_system.Prelude.{
  ℕ, ◌+◌, ◌≤◌, ◌≡◌, refl, Option, none, some, List, [], ◌∷◌, ◌++◌, true, false, ==-refl, str_eq,
  eq_refl, get_row, total-append, pos, ◌≤ℤ◌, ok, arith, All-append, append-Keyed, Bool-cases, inl,
  inr,
}
use mari_time_system.Runtime.State.{Run}
use mari_time_system.Budget.Ledgers.{
  is_reserved, Ledger, GlobalLedger, Reservation, Books, outstanding, global_over_ceiling,
  add_reserved, on_global, held_by_run, run_committed, refuses, new_reservation, reserve_cost,
}
use mari_time_system.Budget.Balance.{
  belongs, share, global_share, RowOk, GlobalOk, Sound, append-Agrees,
}

abbrev pub GlobalFits : ℕ → Option GlobalLedger → Type 0
GlobalFits units none = Unit
GlobalFits units (some g) = pos (outstanding g.units + units) ≤ℤ g.units.ceiling_units

-- The units fit under the run's budget and under both ceilings.
pub record Fits (account : ℕ) (run : Run) (units : ℕ) (b : Books) : Type 0 where
  pub run_fits : run_committed run.id account b.reservations + units ≤ run.budget_units
  pub ledger_fits : pos (outstanding b.ledger.units + units) ≤ℤ b.ledger.units.ceiling_units
  pub global_fits : GlobalFits units b.global_ledger

global_over_ceiling-fits :
    (units : ℕ) (g : Option GlobalLedger) → global_over_ceiling units g ≡ false → GlobalFits units g
unfolding global_over_ceiling
global_over_ceiling-fits units none h = tt
global_over_ceiling-fits units (some g) h = ground arith

fits-global_over_ceiling :
    (units : ℕ) (g : Option GlobalLedger) → GlobalFits units g → global_over_ceiling units g ≡ false
unfolding global_over_ceiling
fits-global_over_ceiling units none h = refl
fits-global_over_ceiling units (some g) h = ground arith

pub refuses-Fits :
    (account : ℕ) (run : Run) (units : ℕ) (b : Books)
    → refuses account run units b ≡ false
    → Fits account run units b
unfolding refuses
refuses-Fits account run units b h = record {
  run_fits = ground arith;
  ledger_fits = ground arith;
  global_fits = global_over_ceiling-fits units b.global_ledger (ground arith);
}

pub Fits-refuses :
    (account : ℕ) (run : Run) (units : ℕ) (b : Books)
    → Fits account run units b
    → refuses account run units b ≡ false
unfolding refuses
Fits-refuses account run units b h =
    ground (arith, fits-global_over_ceiling units b.global_ledger h.global_fits)

append-GlobalOk :
    (l : Ledger) (rs : List Reservation) (units : ℕ) (r : Reservation)
    → r.period_key ≡ l.period_key
    → r.reserved_units ≡ units
    → r.spent_units ≡ 0
    → r.uncertain_units ≡ 0
    → (g : Option GlobalLedger) → GlobalOk l rs g
    → GlobalFits units g
    → GlobalOk l (rs ++ r ∷ []) (on_global (add_reserved units) g)
append-GlobalOk l rs units r period p q s none h fits = tt
append-GlobalOk l rs units r period p q s (some g) h fits = (
  h.0,
  append-Agrees (global_share g) rs g.units units r (rw own p) (rw own q) (rw own s) h.1,
  omega (arith, fits),
)
  where
    own : str_eq r.period_key g.period_key ≡ true
    own = rw (period, h.0) (eq_refl l.period_key)

-- What a granted reservation has done to the books.
pub record IsReservedIn (account : ℕ) (run : Run) (units : ℕ) (r : Reservation) (b b' : Books)
    : Type 0 where
  pub recorded : b'.reservations ≡ b.reservations ++ r ∷ []
  pub for_run : r.run_id ≡ run.id
  pub same_account : b'.ledger.account_id ≡ b.ledger.account_id
  pub opened : is_reserved r.status ≡ true
  pub holds : r.reserved_units ≡ units
  pub taken : outstanding b'.ledger.units ≡ outstanding b.ledger.units + units
  pub run_within : run_committed run.id account b'.reservations ≤ run.budget_units
  pub sound : Sound b'

abbrev taken_books : ℕ → Reservation → Books → Books
taken_books units r b = record {
  reservations = b.reservations ++ r ∷ [];
  ledger = record b.ledger { units = add_reserved units b.ledger.units };
  global_ledger = on_global (add_reserved units) b.global_ledger;
}

module _ (new_id account : ℕ) (run : Run) (units : ℕ) (task_id : Option ℕ) (b : Books) where
  opened_row : Reservation
  opened_row = new_reservation new_id account run b.ledger.period_key units task_id

  -- A reservation that fits succeeds on sound books, for the account of the ledger and a fresh
  -- key: a row holding the units is added, the outstanding sum grows by them, the run's
  -- commitments stay within its budget, and the books stay sound, so within every ceiling.
  pub reserve_cost-IsReservedIn :
      Sound b
      → account ≡ b.ledger.account_id
      → get_row (λ x. x.id) new_id b.reservations ≡ none
      → Fits account run units b
      → (r : Reservation) × (b' : Books) × (reserve_cost new_id account run (pos units) task_id b
          ≡ ok (some r, b'))
        × IsReservedIn account run units r b b'
  unfolding reserve_cost new_reservation run_committed opened_row
  reserve_cost-IsReservedIn h mine fresh fits = (
    opened_row,
    taken_books units opened_row b,
    rw (Fits-refuses account run units b fits) (rw fresh refl),
    record {
      recorded = refl;
      for_run = refl;
      same_account = refl;
      opened = refl;
      holds = refl;
      taken = omega arith;
      run_within = omega (
        arith,
        total-append (held_by_run run.id account) b.reservations (opened_row ∷ []),
        own_weight,
        fits.run_fits,
      );
      sound = record {
        keyed = append-Keyed (λ x. x.id) b.reservations opened_row fresh h.keyed;
        rows =
            All-append RowOk b.reservations (opened_row ∷ []) h.rows
              (record { open_clean = λ _. (refl, refl); closed_empty = λ x. cc }, tt);
        agrees =
            append-Agrees (share b.ledger) b.reservations b.ledger.units units opened_row
              (rw own refl) (rw own refl) (rw own refl) h.agrees;
        within = omega (arith, fits.ledger_fits);
        global_ok =
            append-GlobalOk b.ledger b.reservations units opened_row refl refl refl refl
              b.global_ledger h.global_ok fits.global_fits;
      };
    },
  )
    where
      own : belongs b.ledger opened_row ≡ true
      own = rw (mine, ==-refl b.ledger.account_id) (eq_refl b.ledger.period_key)

      own_weight : held_by_run run.id account opened_row ≡ units
      own_weight = rw (==-refl account) (rw (==-refl run.id) (omega arith))

  -- A reservation that does not fit is refused, and the books stay as they are.
  pub reserve_cost-refused :
      ¬ (Fits account run units b)
      → reserve_cost new_id account run (pos units) task_id b ≡ ok (none, b)
  unfolding reserve_cost
  reserve_cost-refused misfit = elim (Bool-cases (refuses account run units b)) [
    | inl refused ↦ rw refused refl
    | inr accepted ↦ absurd (misfit (refuses-Fits account run units b accepted))
  ]
