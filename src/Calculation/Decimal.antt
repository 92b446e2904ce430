-- ===== src/Calculation/Decimal.antt =====
-- Finite decimals as Python's `decimal` computes them in its default context: 28 significant digits,
-- ROUND_HALF_EVEN, with `quantize` to two places under ROUND_HALF_UP. For calculator.py and verifier.py.
use mari_time_system.Prelude.{
  ℕ, zero, suc, ◌+◌, ◌-◌, ◌*◌, ◌/◌, ◌%◌, ◌^◌, Bool, true, false, not, ◌&&◌, ◌||◌, ◌==◌, ltb, leb,
  if◌then◌else◌, ℤ, pos, negsuc, ◌+ℤ◌, ◌-ℤ◌, min_ℤ, gap_ℤ, eq_ℤ, Result, ok, err, arithmetic_error,
}

-- (-1) ^ negative * digits * 10 ^ exponent. The bounds on exponents are out of reach for quantities.
pub record Decimal : Type 0 where
  pub negative : Bool
  pub digits : ℕ
  pub exponent : ℤ

abbrev pub precision : ℕ
precision = 28

-- How many digits `n` is written with, counted with the fuel `n`.
unfoldable pub digit_count_from : ℕ → ℕ → ℕ
digit_count_from zero n = 1
digit_count_from (suc fuel) n = elim (ltb n 10) [
  | true ↦ 1
  | false ↦ suc (digit_count_from fuel (n / 10))
]

unfoldable pub digit_count : ℕ → ℕ
unfolding digit_count_from
digit_count n = digit_count_from n n

-- n / 10 ^ k to the nearest, a tie to the even quotient.
unfoldable pub half_even : ℕ → ℕ → ℕ
half_even n k =
    let quotient = n / 10 ^ k in
    let twice = 2 * (n % 10 ^ k) in
    if ltb (10 ^ k) twice || twice == 10 ^ k && quotient % 2 == 1 then quotient + 1 else quotient

-- n / 10 ^ k to the nearest, a tie away from zero.
unfoldable pub half_up : ℕ → ℕ → ℕ
half_up n k =
    let quotient = n / 10 ^ k in if leb (10 ^ k) (2 * (n % 10 ^ k)) then quotient + 1 else quotient

-- Digits beyond the precision are rounded away; a carry to 10 ^ 28 leaves one digit more to drop.
unfoldable pub fix : Decimal → Decimal
fix d =
    let surplus = digit_count d.digits - precision in
    let rounded = half_even d.digits surplus in
    if leb (digit_count d.digits) precision
    then d
    else if rounded == 10 ^ precision
    then record d { digits = 10 ^ 27; exponent = d.exponent +ℤ pos (surplus + 1) }
    else record d { digits = rounded; exponent = d.exponent +ℤ pos surplus }

-- The digits of `d` when it is written with the smaller exponent `e`.
abbrev pub aligned : ℤ → Decimal → ℕ
aligned e d = d.digits * 10 ^ gap_ℤ d.exponent e

abbrev pub opposite : Decimal → Decimal
opposite d = record d { negative = not d.negative }

-- A sum of signed digits; an exact zero is negative only if both operands are.
abbrev pub add_digits : Bool → ℕ → Bool → ℕ → ℤ → Decimal
add_digits true a true b e = record { negative = true; digits = a + b; exponent = e }
add_digits false a false b e = record { negative = false; digits = a + b; exponent = e }
add_digits true a false b e = record { negative = ltb b a; digits = a - b + (b - a); exponent = e }
add_digits false a true b e = record { negative = ltb a b; digits = a - b + (b - a); exponent = e }

unfoldable pub add : Decimal → Decimal → Decimal
add a b =
    let e = min_ℤ a.exponent b.exponent in
    fix (add_digits a.negative (aligned e a) b.negative (aligned e b) e)

unfoldable pub sub : Decimal → Decimal → Decimal
sub a b = add a (opposite b)

abbrev pub xor : Bool → Bool → Bool
xor true b = not b
xor false b = b

unfoldable pub mul : Decimal → Decimal → Decimal
mul a b = fix (record {
  negative = xor a.negative b.negative;
  digits = a.digits * b.digits;
  exponent = a.exponent +ℤ b.exponent;
})

-- An exact quotient drops trailing zeros, at most `most` of them, down to the ideal exponent.
unfoldable pub strip_zeros : ℕ → Bool → ℕ → ℤ → Decimal
strip_zeros zero negative n e = record { negative = negative; digits = n; exponent = e }
strip_zeros (suc most) negative n e = elim (n % 10 == 0) [
  | true ↦ strip_zeros most negative (n / 10) (e +ℤ pos 1)
  | false ↦ record { negative = negative; digits = n; exponent = e }
]

-- The quotient of `n` and `m` at the exponent `e`. An inexact one gets a sticky last digit.
unfoldable pub quotient : Bool → ℕ → ℕ → ℤ → ℤ → Decimal
unfolding strip_zeros
quotient negative n m e ideal =
    if n % m == 0 then strip_zeros (gap_ℤ ideal e) negative (n / m) e else record {
      negative = negative;
      digits = if n / m % 5 == 0 then n / m + 1 else n / m;
      exponent = e;
    }

-- A division by zero raises.
unfoldable pub div : Decimal → Decimal → Result Decimal
div a b =
    let negative = xor a.negative b.negative in
    let ideal = a.exponent -ℤ b.exponent in
    let wanted = digit_count b.digits + precision + 1 in
    let given = digit_count a.digits in
    if b.digits == 0
    then err arithmetic_error
    else if a.digits == 0
    then ok (record { negative = negative; digits = 0; exponent = ideal })
    else ok (
        fix (
          quotient negative (a.digits * 10 ^ (wanted - given)) (b.digits * 10 ^ (given - wanted))
            (ideal -ℤ pos (wanted - given) +ℤ pos (given - wanted)) ideal))

-- `quantize(Decimal("0.01"), rounding=ROUND_HALF_UP)`, which raises beyond 28 digits.
unfoldable pub quantize : Decimal → Result Decimal
quantize d =
    let cents : ℕ =
      half_up (d.digits * 10 ^ gap_ℤ d.exponent (negsuc 1)) (gap_ℤ (negsuc 1) d.exponent) in
    if leb (digit_count cents) precision
    then ok (record { negative = d.negative; digits = cents; exponent = negsuc 1 })
    else err arithmetic_error

abbrev pub is_negative : Decimal → Bool
is_negative d = d.negative && not (d.digits == 0)

abbrev pub is_zero : Decimal → Bool
is_zero d = d.digits == 0

-- `a == b`: equal values, also with different exponents.
abbrev pub same_value : Decimal → Decimal → Bool
same_value a b =
    let e = min_ℤ a.exponent b.exponent in
    aligned e a == aligned e b && (is_zero a || not (xor a.negative b.negative))

-- `str(a) == str(b)`: the text shows the sign, the digits and the exponent.
abbrev pub same_text : Decimal → Decimal → Bool
same_text a b =
    not (xor a.negative b.negative) && a.digits == b.digits && eq_ℤ a.exponent b.exponent

abbrev pub hundred : Decimal
hundred = record { negative = false; digits = 100; exponent = pos 0 }
