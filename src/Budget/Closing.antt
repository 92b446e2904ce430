-- ===== src/Budget/Closing.antt =====
-- `settle_cost`, `release_cost` and `mark_uncertain` of reconciliation_runtime.py: a reservation is
-- closed once, its units move to where they belong, and the rest goes back to every ceiling.
use mari_time_system.Prelude.{
  ℕ, ◌+◌, ◌≤◌, ◌≡◌, refl, sym, subst, Option, none, some, List, true, false, str_eq, get_row,
  save_row, ℤ, pos, negsuc, ◌≤ℤ◌, ok, err, value_error, arith, save_row-Keyed, save_row-All,
  get_row-All,
}
use mari_time_system.Budget.Ledgers.{
  ReservationStatus, is_reserved, Units, Ledger, GlobalLedger, Reservation, Books, outstanding,
  move_global, close_reservation, clamp_spend, settle_cost, release_cost, mark_uncertain,
}
use mari_time_system.Budget.Balance.{
  belongs, share, global_share, RowOk, Within, GlobalOk, Sound, close-Agrees,
}

-- How a call closes the reservation `r` as `r'`.
pub record Closes (held spent doubt : ℕ) (r r' : Reservation) : Type 0 where
  pub was_open : is_reserved r.status ≡ true
  pub now_closed : is_reserved r'.status ≡ false
  pub same_id : r'.id ≡ r.id
  pub same_account : r'.account_id ≡ r.account_id
  pub same_run : r'.run_id ≡ r.run_id
  pub same_period : r'.period_key ≡ r.period_key
  pub all_held : r.reserved_units ≡ held
  pub none_left : r'.reserved_units ≡ 0
  pub spent_now : r'.spent_units ≡ r.spent_units + spent
  pub doubt_now : r'.uncertain_units ≡ r.uncertain_units + doubt
  pub covered : spent + doubt ≤ held

Within-after :
    (held spent doubt : ℕ) (u u' : Units)
    → u'.ceiling_units ≡ u.ceiling_units
    → outstanding u' + held ≡ outstanding u + spent + doubt
    → spent + doubt ≤ held
    → Within u
    → Within u'
Within-after held spent doubt u u' c e le w =
    subst (λ z. pos (outstanding u') ≤ℤ z) (sym c) (omega (arith, w))

module _ (held spent doubt : ℕ) (r r' : Reservation) (closes : Closes held spent doubt r r') where
  open closes use {same_account, same_period, all_held, none_left, spent_now, doubt_now}

  share_after :
      (l : Ledger)
      → belongs l r ≡ true
      → (share l (λ x. x.reserved_units) r ≡ held)
        × (share l (λ x. x.reserved_units) r' ≡ 0)
        × (share l (λ x. x.spent_units) r' ≡ share l (λ x. x.spent_units) r + spent)
        × (share l (λ x. x.uncertain_units) r' ≡ share l (λ x. x.uncertain_units) r + doubt)
  share_after l own =
      let own' : belongs l r' ≡ true = rw (same_account, same_period) own in
      (rw own all_held, rw own' none_left, rw (own, own') spent_now, rw (own, own') doubt_now)

  global_share_after :
      (g : GlobalLedger)
      → str_eq r.period_key g.period_key ≡ true
      → (global_share g (λ x. x.reserved_units) r ≡ held)
        × (global_share g (λ x. x.reserved_units) r' ≡ 0)
        × (global_share g (λ x. x.spent_units) r' ≡ global_share g (λ x. x.spent_units) r + spent)
        × (global_share g (λ x. x.uncertain_units) r'
            ≡ global_share g (λ x. x.uncertain_units) r + doubt)
  global_share_after g own =
      let own' : str_eq r'.period_key g.period_key ≡ true = rw same_period own in
      (rw own all_held, rw own' none_left, rw (own, own') spent_now, rw (own, own') doubt_now)

-- What closing a reservation has done to the books.
pub record IsClosed (held spent doubt : ℕ) (r' : Reservation) (b b' : Books) : Type 0 where
  pub sound : Sound b'
  pub recorded : b'.reservations ≡ save_row (λ x. x.id) r' b.reservations
  pub freed : outstanding b'.ledger.units + held ≡ outstanding b.ledger.units + spent + doubt
  pub same_ledger :
      (b'.ledger.account_id ≡ b.ledger.account_id) × (b'.ledger.period_key ≡ b.ledger.period_key)

belongs-period :
    (l : Ledger) (r : Reservation) → belongs l r ≡ true → str_eq r.period_key l.period_key ≡ true
belongs-period l r own = ground arith

-- The system-wide ledger follows.
move_global-GlobalOk :
    (held spent doubt : ℕ) (r r' : Reservation)
    → Closes held spent doubt r r'
    → (l : Ledger) (rs : List Reservation) → get_row (λ x. x.id) r'.id rs ≡ some r
    → belongs l r ≡ true
    → (g : Option GlobalLedger) → GlobalOk l rs g
    → (g' : Option GlobalLedger) × (move_global held spent doubt g ≡ ok g')
      × GlobalOk l (save_row (λ x. x.id) r' rs) g'
move_global-GlobalOk held spent doubt r r' closes l rs e own none ok_g = (none, refl, tt)
move_global-GlobalOk held spent doubt r r' closes l rs e own (some g) ok_g =
    let in_period : str_eq r.period_key g.period_key ≡ true =
      subst (λ p. str_eq r.period_key p ≡ true) (sym ok_g.0) (belongs-period l r own) in
    let (p, p', q, z) = global_share_after held spent doubt r r' closes g in_period in
    let (u', moved, agrees, ceiling, freed) =
      close-Agrees (global_share g) rs g.units held spent doubt r r' e p p' q z ok_g.1 in
    (
      some (record g { units = u' }),
      rw moved refl,
      (
        ok_g.0,
        agrees,
        Within-after held spent doubt g.units u' ceiling freed closes.covered ok_g.2,
      ),
    )

Closes-RowOk : (held spent doubt : ℕ) (r r' : Reservation) → Closes held spent doubt r r' → RowOk r'
Closes-RowOk held spent doubt r r' closes = ground arith

-- On sound books the flush accepts the closing of a stored reservation of the ledger, and the
-- books stay sound.
pub close_reservation-IsClosed :
    (held spent doubt : ℕ) (r r' : Reservation) (b : Books)
    → Closes held spent doubt r r'
    → Sound b
    → get_row (λ x. x.id) r.id b.reservations ≡ some r
    → belongs b.ledger r ≡ true
    → (b' : Books) × (close_reservation held spent doubt r' b ≡ ok b')
      × IsClosed held spent doubt r' b b'
unfolding close_reservation
close_reservation-IsClosed held spent doubt r r' b closes h e own =
    let e' : get_row (λ x. x.id) r'.id b.reservations ≡ some r =
      subst (λ k. get_row (λ x. x.id) k b.reservations ≡ some r) (sym closes.same_id) e in
    let (p, p', q, z) = share_after held spent doubt r r' closes b.ledger own in
    let (u', moved, agrees, ceiling, freed) =
      close-Agrees (share b.ledger) b.reservations b.ledger.units held spent doubt r r' e' p p' q z
        h.agrees in
    let (g', moved_g, ok_g) =
      move_global-GlobalOk held spent doubt r r' closes b.ledger b.reservations e' own
        b.global_ledger h.global_ok in
    (
      record {
        reservations = save_row (λ x. x.id) r' b.reservations;
        ledger = record b.ledger { units = u' };
        global_ledger = g';
      },
      rw moved (rw moved_g refl),
      record {
        sound = record {
          keyed = save_row-Keyed (λ x. x.id) r' b.reservations h.keyed;
          rows =
              save_row-All (λ x. x.id) RowOk r' b.reservations
                (Closes-RowOk held spent doubt r r' closes) h.rows;
          agrees = agrees;
          within =
              Within-after held spent doubt b.ledger.units u' ceiling freed closes.covered h.within;
          global_ok = ok_g;
        };
        recorded = refl;
        freed = freed;
        same_ledger = (refl, refl);
      },
    )

-- The clamped spend is the actual one where that is covered, and never more than was held.
pub clamp_spend-le : (actual : ℤ) (held : ℕ) → clamp_spend actual held ≤ held
clamp_spend-le (pos n) held = omega arith
clamp_spend-le (negsuc n) held = omega arith

module _ (r : Reservation) (b : Books) (h : Sound b)
    (stored : get_row (λ x. x.id) r.id b.reservations ≡ some r) (own : belongs b.ledger r ≡ true)
    (status : is_reserved r.status ≡ true) where
  pub clean : (r.spent_units ≡ 0) × (r.uncertain_units ≡ 0)
  clean = (get_row-All (λ x. x.id) RowOk r.id b.reservations h.rows stored).open_clean status

  pub settle_cost-IsClosed :
      (actual : ℤ)
      → (b' : Books) × (settle_cost r actual b ≡ ok b')
        × IsClosed r.reserved_units
            (clamp_spend actual r.reserved_units)
            0
            (record r {
              reserved_units = 0;
              spent_units = clamp_spend actual r.reserved_units;
              status = ReservationStatus.settled;
            })
            b
            b'
  unfolding settle_cost
  settle_cost-IsClosed actual = rw status (
      close_reservation-IsClosed r.reserved_units (clamp_spend actual r.reserved_units) 0 r _ b
        (record {
          was_open = status;
          now_closed = refl;
          same_id = refl;
          same_account = refl;
          same_run = refl;
          same_period = refl;
          all_held = refl;
          none_left = refl;
          spent_now = omega (arith, clean);
          doubt_now = omega arith;
          covered = omega (arith, clamp_spend-le actual r.reserved_units);
        })
        h stored own)

  -- Releasing a reserved row of sound books succeeds: the whole hold is freed, nothing is spent,
  -- and the books stay sound.
  pub release_cost-IsClosed :
      (b' : Books) × (release_cost r b ≡ ok b')
      × IsClosed r.reserved_units 0 0
          (record r { reserved_units = 0; status = ReservationStatus.released })
          b
          b'
  unfolding release_cost
  release_cost-IsClosed = rw status (
      close_reservation-IsClosed r.reserved_units 0 0 r _ b
        (record {
          was_open = status;
          now_closed = refl;
          same_id = refl;
          same_account = refl;
          same_run = refl;
          same_period = refl;
          all_held = refl;
          none_left = refl;
          spent_now = omega arith;
          doubt_now = omega arith;
          covered = omega arith;
        })
        h stored own)

  -- Marking a reserved row of sound books uncertain succeeds: its hold becomes uncertain units, so
  -- the outstanding sum stays, and the books stay sound.
  pub mark_uncertain-IsClosed :
      (b' : Books) × (mark_uncertain r b ≡ ok b')
      × IsClosed r.reserved_units 0 r.reserved_units
          (record r {
            reserved_units = 0;
            uncertain_units = r.reserved_units;
            status = ReservationStatus.uncertain;
          })
          b
          b'
  unfolding mark_uncertain
  mark_uncertain-IsClosed = rw status (
      close_reservation-IsClosed r.reserved_units 0 r.reserved_units r _ b
        (record {
          was_open = status;
          now_closed = refl;
          same_id = refl;
          same_account = refl;
          same_run = refl;
          same_period = refl;
          all_held = refl;
          none_left = refl;
          spent_now = omega arith;
          doubt_now = omega (arith, clean);
          covered = omega arith;
        })
        h stored own)

-- A reservation that is not in the reserved state is refused by all three calls.
pub not_reserved-refused :
    (r : Reservation) (actual : ℤ) (b : Books)
    → is_reserved r.status ≡ false
    → (settle_cost r actual b ≡ err value_error)
      × (release_cost r b ≡ err value_error)
      × (mark_uncertain r b ≡ err value_error)
unfolding settle_cost release_cost mark_uncertain
not_reserved-refused r actual b closed = (rw closed refl, rw closed refl, rw closed refl)
