-- ===== src/Calculation/Exact.antt =====
-- How far the calculator's arithmetic is exact: the rounding to two places and the difference of two
-- stored quantities, for packages/shared/eastmed_shared/reconciliation/calculator.py.
use mari_time_system.Prelude.{
  ℕ, zero, suc, ◌+◌, ◌-◌, ◌*◌, ◌/◌, ◌^◌, ◌≤◌, ◌<◌, ◌≡◌, refl, subst, sym, ◌∙◌, String, eq_refl,
  true, false, ==-refl, ltb, leb, negsuc, ok, arith, ok-injective,
}
use mari_time_system.Calculation.Decimal.{
  Decimal, digit_count_from, digit_count, half_up, fix, add_digits, add, sub, quantize,
}
use mari_time_system.Calculation.Variance.{
  same_unit, unit_index, QuantityInput, CalcOutcome, FuelVarianceResult, DeltaResult, percentage,
  variance_of, delta_result, planned_actual_delta,
}

pow_pos : (k : ℕ) → 0 < 10 ^ k
pow_pos zero = omega arith
pow_pos (suc k) = omega (arith, pow_pos k)

half_up_nearest :
    (n k : ℕ)
    → (2 * (half_up n k * 10 ^ k) ≤ 2 * n + 10 ^ k) × (2 * n < 2 * (half_up n k * 10 ^ k) + 10 ^ k)
unfolding half_up
half_up_nearest n k = grind (arith, pow_pos k)

digit_count_from-le : (fuel n k : ℕ) → n < 10 ^ suc k → digit_count_from fuel n ≤ suc k
unfolding digit_count_from
digit_count_from-le zero n k h = omega arith
digit_count_from-le (suc fuel) n zero h = ground arith
digit_count_from-le (suc fuel) n (suc k) h = ground (arith, digit_count_from-le fuel (n / 10) k)

digit_count-le : (n k : ℕ) → n < 10 ^ suc k → digit_count n ≤ suc k
unfolding digit_count
digit_count-le n k h = digit_count_from-le n n k h

-- A decimal of at most 28 digits is kept as it is.
fix_small : (d : Decimal) → d.digits < 10 ^ 28 → fix d ≡ d
unfolding fix
fix_small d h = let short : digit_count d.digits ≤ 28 = digit_count-le d.digits 27 h in ground arith

-- A quantity as the database keeps it: six decimal places, eighteen digits, not negative.
pub record IsStored (d : Decimal) : Type 0 where
  pub positive : d.negative ≡ false
  pub six_places : d.exponent ≡ negsuc 5
  pub small : d.digits < 10 ^ 18

-- The difference at six places, with its sign.
abbrev pub exact_difference : ℕ → ℕ → Decimal
exact_difference a b = record { negative = ltb a b; digits = a - b + (b - a); exponent = negsuc 5 }

difference_digits :
    (a b : ℕ) → add_digits false (a * 10 ^ 0) true (b * 10 ^ 0) (negsuc 5) ≡ exact_difference a b
difference_digits a b = ground arith

sub_exact :
    (a b : ℕ)
    → a < 10 ^ 18
    → b < 10 ^ 18
    → sub
        (record { negative = false; digits = a; exponent = negsuc 5 })
        (record { negative = false; digits = b; exponent = negsuc 5 })
      ≡ exact_difference a b
unfolding sub add
sub_exact a b h k =
    fix_small (add_digits false (a * 10 ^ 0) true (b * 10 ^ 0) (negsuc 5)) (omega arith)
    ∙ difference_digits a b

-- The rounding never raises on such a difference, and gives the cents nearest to it.
cents_small : (n : ℕ) → n < 10 ^ 18 → half_up (n * 10 ^ 0) 4 < 10 ^ 28
cents_small n h = omega (arith, half_up_nearest (n * 10 ^ 0) 4)

quantize_difference :
    (a b : ℕ)
    → a < 10 ^ 18
    → b < 10 ^ 18
    → quantize (exact_difference a b)
      ≡ ok (record {
        negative = ltb a b;
        digits = half_up ((a - b + (b - a)) * 10 ^ 0) 4;
        exponent = negsuc 1;
      })
unfolding quantize
quantize_difference a b h k =
    let short : digit_count (half_up ((a - b + (b - a)) * 10 ^ 0) 4) ≤ 28 =
      digit_count-le (half_up ((a - b + (b - a)) * 10 ^ 0) 4) 27
        (cents_small (a - b + (b - a)) (omega arith)) in
    let fits : leb (digit_count (half_up ((a - b + (b - a)) * 10 ^ 0) 4)) 28 ≡ true =
      ground arith in
    rw fits refl

-- The unrounded difference is exact, and the shown one is the nearest at two places, a tie away from
-- zero, with the sign of the difference.
pub record IsExact (actual planned unrounded shown : Decimal) : Type 0 where
  pub exact : unrounded ≡ exact_difference actual.digits planned.digits
  pub signed : shown.negative ≡ ltb actual.digits planned.digits
  pub two_places : shown.exponent ≡ negsuc 1
  pub not_above : 2 * (shown.digits * 10000) ≤ 2 * unrounded.digits + 10000
  pub not_below : 2 * unrounded.digits < 2 * (shown.digits * 10000) + 10000

abbrev written : ℕ → Decimal
written n = record { negative = false; digits = n; exponent = negsuc 5 }

stored_form : (d : Decimal) → IsStored d → d ≡ written d.digits
stored_form d h = ground (arith, h.positive, h.six_places)

stored_difference :
    (actual planned : Decimal)
    → IsStored actual
    → IsStored planned
    → (shown : Decimal) × (quantize (sub actual planned) ≡ ok shown)
      × IsExact actual planned (sub actual planned) shown
stored_difference actual planned h k =
    let exact : sub actual planned ≡ exact_difference actual.digits planned.digits =
      subst (λ d. sub d planned ≡ exact_difference actual.digits planned.digits)
        (sym (stored_form actual h))
        (subst (λ d. sub (written actual.digits) d ≡ exact_difference actual.digits planned.digits)
          (sym (stored_form planned k)) (sub_exact actual.digits planned.digits h.small k.small)) in
    let gap = actual.digits - planned.digits + (planned.digits - actual.digits) in
    let cents = half_up (gap * 10 ^ 0) 4 in
    (
      record { negative = ltb actual.digits planned.digits; digits = cents; exponent = negsuc 1 },
      rw exact (quantize_difference actual.digits planned.digits h.small k.small),
      record {
        exact = exact;
        signed = refl;
        two_places = refl;
        not_above = rw exact (omega (arith, half_up_nearest (gap * 10 ^ 0) 4));
        not_below = rw exact (omega (arith, half_up_nearest (gap * 10 ^ 0) 4));
      },
    )

-- On stored quantities of one unit and one basis, the difference is always computed, exact and shown
-- as the nearest value at two places.
pub planned_actual_delta-IsExact :
    (planned actual : QuantityInput) (basis : String)
    → IsStored planned.value
    → IsStored actual.value
    → planned.unit ≡ actual.unit
    → (r : DeltaResult) × (planned_actual_delta planned actual basis basis
        ≡ ok (CalcOutcome.computed r))
      × IsExact actual.value planned.value r.delta_unrounded r.delta
unfolding planned_actual_delta
planned_actual_delta-IsExact planned actual basis h k same =
    let (shown, e, exact) = stored_difference actual.value planned.value k h in
    (
      delta_result basis planned actual (sub actual.value planned.value) shown,
      rw (eq_refl basis) (rw units (rw e refl)),
      exact,
    )
  where
    units : same_unit planned.unit actual.unit ≡ true
    units = rw same (==-refl (unit_index actual.unit))

-- The parts of a computed variance that the difference gives.
variance_delta :
    (actual planned : QuantityInput) (r : FuelVarianceResult)
    → variance_of actual planned ≡ ok r
    → (r.delta_unrounded ≡ sub actual.value planned.value)
      × (quantize (sub actual.value planned.value) ≡ ok r.delta)
unfolding variance_of percentage
variance_delta actual planned r h = (ground arith, ground arith)

-- On stored quantities, the difference in a computed fuel variance is exact and shown as the nearest
-- value at two places.
pub variance_of-IsExact :
    (actual planned : QuantityInput) (r : FuelVarianceResult)
    → IsStored actual.value
    → IsStored planned.value
    → variance_of actual planned ≡ ok r
    → IsExact actual.value planned.value r.delta_unrounded r.delta
variance_of-IsExact actual planned r h k e =
    let (unrounded, shown) = variance_delta actual planned r e in
    let (d, e', exact) = stored_difference actual.value planned.value h k in
    subst (λ u. IsExact actual.value planned.value u r.delta) (sym unrounded)
      (subst (IsExact actual.value planned.value (sub actual.value planned.value))
        (ok-injective (sym e' ∙ shown)) exact)
