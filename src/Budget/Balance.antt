-- ===== src/Budget/Balance.antt =====
-- The ledgers of reconciliation_runtime.py against the reservations: what a ledger records is
-- what the reservations hold, and it stays within its ceiling.
use mari_time_system.Prelude.{
  ℕ, ◌+◌, ◌-◌, ◌≤◌, ◌≡◌, refl, Option, none, some, List, [], ◌∷◌, ◌++◌, Bool, true, false, ◌&&◌,
  ◌==◌, str_eq, if◌then◌else◌, get_row, save_row, total, total-append, total-save_row, le-total,
  pos, ◌≤ℤ◌, ok, arith, All, Keyed,
}
use mari_time_system.Budget.Ledgers.{
  is_reserved, Units, Ledger, GlobalLedger, Reservation, Books, outstanding, add_reserved,
  move_units,
}

-- The reservation is one of the account's in the period.
abbrev pub belongs : Ledger → Reservation → Bool
belongs l r = r.account_id == l.account_id && str_eq r.period_key l.period_key

abbrev pub share : Ledger → (Reservation → ℕ) → Reservation → ℕ
share l f r = if belongs l r then f r else 0

abbrev pub global_share : GlobalLedger → (Reservation → ℕ) → Reservation → ℕ
global_share g f r = if str_eq r.period_key g.period_key then f r else 0

-- The columns are the sums that the reservations give.
pub record Agrees (share : (Reservation → ℕ) → Reservation → ℕ) (rs : List Reservation) (u : Units)
    : Type 0 where
  pub reserved_sum : u.reserved_units ≡ total (share (λ r. r.reserved_units)) rs
  pub spent_sum : u.spent_units ≡ total (share (λ r. r.spent_units)) rs
  pub uncertain_sum : u.uncertain_units ≡ total (share (λ r. r.uncertain_units)) rs

-- A reserved row has neither spent nor uncertain units; any other holds nothing reserved.
pub record RowOk (r : Reservation) : Type 0 where
  pub open_clean : is_reserved r.status ≡ true → (r.spent_units ≡ 0) × (r.uncertain_units ≡ 0)
  pub closed_empty : is_reserved r.status ≡ false → r.reserved_units ≡ 0

abbrev pub Within : Units → Type 0
Within u = pos (outstanding u) ≤ℤ u.ceiling_units

-- What holds of the system-wide ledger, where there is one.
abbrev pub GlobalOk : Ledger → List Reservation → Option GlobalLedger → Type 0
GlobalOk l rs none = Unit
GlobalOk l rs (some g) =
    (g.period_key ≡ l.period_key) × Agrees (global_share g) rs g.units × Within g.units

pub record Sound (b : Books) : Type 0 where
  pub keyed : Keyed (λ r. r.id) b.reservations
  pub rows : All RowOk b.reservations
  pub agrees : Agrees (share b.ledger) b.reservations b.ledger.units
  pub within : Within b.ledger.units
  pub global_ok : GlobalOk b.ledger b.reservations b.global_ledger

module _ (weigh : (Reservation → ℕ) → Reservation → ℕ) (rs : List Reservation) (u : Units) where
  -- A new reservation adds its units to the reserved column.
  pub append-Agrees :
      (units : ℕ) (r : Reservation)
      → weigh (λ x. x.reserved_units) r ≡ units
      → weigh (λ x. x.spent_units) r ≡ 0
      → weigh (λ x. x.uncertain_units) r ≡ 0
      → Agrees weigh rs u
      → Agrees weigh (rs ++ r ∷ []) (add_reserved units u)
  append-Agrees units r p q s h = record {
    reserved_sum =
        omega (arith, total-append (weigh (λ x. x.reserved_units)) rs (r ∷ []), h.reserved_sum);
    spent_sum = omega (arith, total-append (weigh (λ x. x.spent_units)) rs (r ∷ []), h.spent_sum);
    uncertain_sum =
        omega (arith, total-append (weigh (λ x. x.uncertain_units)) rs (r ∷ []), h.uncertain_sum);
  }

  -- A closed reservation moves what it held between the columns, and the flush accepts that.
  pub close-Agrees :
      (held spent doubt : ℕ) (r r' : Reservation)
      → get_row (λ x. x.id) r'.id rs ≡ some r
      → weigh (λ x. x.reserved_units) r ≡ held
      → weigh (λ x. x.reserved_units) r' ≡ 0
      → weigh (λ x. x.spent_units) r' ≡ weigh (λ x. x.spent_units) r + spent
      → weigh (λ x. x.uncertain_units) r' ≡ weigh (λ x. x.uncertain_units) r + doubt
      → Agrees weigh rs u
      → (u' : Units) × (move_units held spent doubt u ≡ ok u')
        × Agrees weigh (save_row (λ x. x.id) r' rs) u'
        × (u'.ceiling_units ≡ u.ceiling_units)
        × (outstanding u' + held ≡ outstanding u + spent + doubt)
  close-Agrees held spent doubt r r' e p p' q s h =
      let enough : held ≤ u.reserved_units =
        omega (
          arith,
          le-total (weigh (λ x. x.reserved_units)) (λ x. x.id) r'.id rs e,
          h.reserved_sum,
        ) in
      (
        record u {
          reserved_units = u.reserved_units - held;
          spent_units = u.spent_units + spent;
          uncertain_units = u.uncertain_units + doubt;
        },
        ground arith,
        record {
          reserved_sum = omega (
            arith,
            total-save_row (weigh (λ x. x.reserved_units)) (λ x. x.id) r' rs e,
            h.reserved_sum,
          );
          spent_sum =
              omega (
                arith,
                total-save_row (weigh (λ x. x.spent_units)) (λ x. x.id) r' rs e,
                h.spent_sum,
              );
          uncertain_sum = omega (
            arith,
            total-save_row (weigh (λ x. x.uncertain_units)) (λ x. x.id) r' rs e,
            h.uncertain_sum,
          );
        },
        refl,
        omega arith,
      )
