-- ===== src/Budget/Closed.antt =====
-- A reservation of reconciliation_runtime.py is closed once.
use mari_time_system.Prelude.{
  ℕ, ◌≡◌, refl, sym, subst, ◌∙◌, Option, some, true, false, ℤ, arith, get_row, get_row-save_self,
  save_row, Result, ok, err, value_error, Bool-cases, inl, inr,
}
use mari_time_system.Budget.Ledgers.{
  is_reserved, Reservation, Books, GlobalLedger, Units, move_units, move_global, close_reservation,
  settle_cost, release_cost, mark_uncertain,
}

-- The three calls that close a reservation.
pub data CloseCall : Type 0 where
  settle : ℤ → CloseCall
  release doubt : CloseCall

abbrev pub close : CloseCall → Reservation → Books → Result Books
close (settle actual) r b = settle_cost r actual b
close release r b = release_cost r b
close doubt r b = mark_uncertain r b

close_reservation-saves :
    (held spent doubtful : ℕ) (r : Reservation) (b b' : Books)
    → close_reservation held spent doubtful r b ≡ ok b'
    → b'.reservations ≡ save_row (λ x. x.id) r b.reservations
unfolding close_reservation
close_reservation-saves held spent doubtful r b b' e =
    by_units (move_units held spent doubtful b.ledger.units) refl
  where
    by_units :
        (m : Result Units)
        → move_units held spent doubtful b.ledger.units ≡ m
        → b'.reservations ≡ save_row (λ x. x.id) r b.reservations
    by_units (err x) p = absurd (ground arith)
    by_units (ok u) p = by_global (move_global held spent doubtful b.global_ledger) refl
      where
        by_global :
            (m : Result (Option GlobalLedger))
            → move_global held spent doubtful b.global_ledger ≡ m
            → b'.reservations ≡ save_row (λ x. x.id) r b.reservations
        by_global (err x) q = absurd (ground arith)
        by_global (ok g) q = ground arith

refused :
    (r : Reservation) (b : Books)
    → is_reserved r.status ≡ false
    → (c : CloseCall) → close c r b ≡ err value_error
unfolding settle_cost release_cost mark_uncertain
refused r b closed (settle actual) = rw closed refl
refused r b closed release = rw closed refl
refused r b closed doubt = rw closed refl

-- The row that a closing call leaves, and that it is closed.
closed_row :
    (c : CloseCall) (r : Reservation) (b b' : Books)
    → close c r b ≡ ok b'
    → (r' : Reservation) × (r'.id ≡ r.id)
      × (is_reserved r'.status ≡ false)
      × (b'.reservations ≡ save_row (λ x. x.id) r' b.reservations)
unfolding settle_cost release_cost mark_uncertain
closed_row c r b b' e = elim (Bool-cases (is_reserved r.status)) [
  | inr closed ↦ absurd (impossible (sym (refused r b closed c) ∙ e))
  | inl row_open ↦ by_call c e row_open
]
  where
    impossible : err value_error ≡ ok b' → ⊥
    impossible q = cc

    by_call :
        (c : CloseCall)
        → close c r b ≡ ok b'
        → is_reserved r.status ≡ true
        → (r' : Reservation) × (r'.id ≡ r.id)
          × (is_reserved r'.status ≡ false)
          × (b'.reservations ≡ save_row (λ x. x.id) r' b.reservations)
    by_call (settle actual) q row_open =
        (_, refl, refl, close_reservation-saves _ _ _ _ b b' (rw (row_open, settle_cost) at q))
    by_call release q row_open =
        (_, refl, refl, close_reservation-saves _ _ _ _ b b' (rw (row_open, release_cost) at q))
    by_call doubt q row_open =
        (_, refl, refl, close_reservation-saves _ _ _ _ b b' (rw (row_open, mark_uncertain) at q))

-- A reservation is closed once: after a call that settled, released or marked a stored reservation,
-- its row stands closed, and every further call on that row raises.
pub closed_once :
    (c : CloseCall) (r : Reservation) (b b' : Books)
    → get_row (λ x. x.id) r.id b.reservations ≡ some r
    → close c r b ≡ ok b'
    → (r' : Reservation) × (get_row (λ x. x.id) r.id b'.reservations ≡ some r')
      × ((c' : CloseCall) → close c' r' b' ≡ err value_error)
closed_once c r b b' stored e =
    let (r', id, closed, saved) = closed_row c r b b' e in
    let before : get_row (λ x. x.id) r'.id b.reservations ≡ some r =
      subst (λ k. get_row (λ x. x.id) k b.reservations ≡ some r) (sym id) stored in
    (
      r',
      subst (λ k. get_row (λ x. x.id) k b'.reservations ≡ some r') id
          (subst (λ rows. get_row (λ x. x.id) r'.id rows ≡ some r') (sym saved)
            (get_row-save_self (λ x. x.id) r' b.reservations before)),
      refused r' b' closed,
    )
