-- ===== src/Control/Precision.antt =====
-- The exact lower bound of a success rate, by packages/shared/eastmed_shared/reconciliation/release.py.
use mari_time_system.Prelude.{
  ℕ, zero, suc, ◌+◌, ◌*◌, Bool, not, ◌&&◌, ℤ, pos, ◌+ℤ◌, ◌-ℤ◌, leb_ℤ, eq_ℤ, if◌then◌else◌, Result,
  Error, ok, ◌>>◌, raise_if,
}
use mari_time_system.Control.Floats.{Floats, zero_float, one_float, two_float}

-- The running values of the continued fraction.
pub record Fraction (Float : Type 0) : Type 0 where
  pub c : Float
  pub d : Float
  pub h : Float

module _ (floats : Floats) where
  open floats use {
    Float, literal, of_int, plus, minus, times, over, negate, magnitude, less, power, lgamma, exp,
    log,
  }

  -- `if abs(v) < tiny: v = tiny`
  abbrev pub raised_to_tiny : Float → Float
  raised_to_tiny v = if less (magnitude v) (literal "1e-30") then literal "1e-30" else v

  -- One coefficient of the continued fraction is taken in.
  abbrev pub half_step : Float → Fraction Float → Fraction Float
  half_step aa s =
      let d = over (one_float floats) (raised_to_tiny (plus (one_float floats) (times aa s.d))) in
      let c = raised_to_tiny (plus (one_float floats) (over aa s.c)) in
      record { c = c; d = d; h = times s.h (times d c) }

  -- The two coefficients of one round.
  abbrev pub round_of : Float → Float → Float → ℕ → Fraction Float → Fraction Float
  round_of a b x m s =
      let fm = of_int (pos m) in
      let m2 = of_int (pos (2 * m)) in
      let qab = plus a b in
      let qap = plus a (one_float floats) in
      let qam = minus a (one_float floats) in
      let even = over (times (times fm (minus b fm)) x) (times (plus qam m2) (plus a m2)) in
      let odd =
        over (times (times (negate (plus a fm)) (plus qab fm)) x)
          (times (plus a m2) (plus qap m2)) in
      half_step odd (half_step even s)

  -- `for m in range(m, m + rounds)`, left where the last factor is close to 1.
  unfoldable pub betacf_rounds : Float → Float → Float → ℕ → ℕ → Fraction Float → Float
  betacf_rounds a b x zero m s = s.h
  betacf_rounds a b x (suc rounds) m s =
      let s' = round_of a b x m s in
      let rest = betacf_rounds a b x rounds (m + 1) s' in
      if less (magnitude (minus (times s'.d s'.c) (one_float floats))) (literal "1e-14")
      then s'.h
      else rest

  unfoldable pub betacf : Float → Float → Float → Float
  betacf a b x =
      let one = one_float floats in
      let d = over one (raised_to_tiny (minus one (over (times (plus a b) x) (plus a one)))) in
      betacf_rounds a b x 299 1 (record { c = one; d = d; h = d })

  unfoldable pub regularized_incomplete_beta : Float → Float → Float → Float
  regularized_incomplete_beta a b x =
      let one = one_float floats in
      let ln_beta = minus (minus (lgamma (plus a b)) (lgamma a)) (lgamma b) in
      let front = exp (plus (plus ln_beta (times a (log x))) (times b (log (minus one x)))) in
      if floats.at_most x (zero_float floats)
      then zero_float floats
      else if floats.at_most one x
      then one
      else if less x (over (plus a one) (plus (plus a b) (two_float floats)))
      then over (times front (betacf a b x)) a
      else minus one (over (times front (betacf b a (minus one x))) b)

  abbrev pub middle : Float → Float → Float
  middle lo hi = over (plus lo hi) (two_float floats)

  -- `for _ in range(rounds)`: the bracket is halved on the side that the test tells.
  unfoldable pub bisect : (Float → Bool) → ℕ → Float → Float → Float
  bisect below zero lo hi = middle lo hi
  bisect below (suc rounds) lo hi =
      let mid = middle lo hi in
      bisect below rounds (if below mid then mid else lo) (if below mid then hi else mid)

  -- `regularized_incomplete_beta(a, b, mid) < alpha`
  abbrev pub is_below : ℤ → ℤ → Float → Float → Bool
  is_below successes n confidence mid =
      less (regularized_incomplete_beta (of_int successes) (of_int (n -ℤ successes +ℤ pos 1)) mid)
        (minus (one_float floats) confidence)

  -- The bound for counts that are possible.
  abbrev pub inner_bound : ℤ → ℤ → Float → Result Float
  inner_bound successes n confidence =
      if eq_ℤ successes (pos 0)
      then ok (zero_float floats)
      else if eq_ℤ successes n
      then power (minus (one_float floats) confidence) (over (one_float floats) (of_int n))
      else ok (bisect (is_below successes n confidence) 200 (zero_float floats) (one_float floats))

  unfoldable pub clopper_pearson_lower : ℤ → ℤ → Float → Result Float
  clopper_pearson_lower successes n confidence = do
    raise_if (leb_ℤ n (pos 0)) Error.value_error
    raise_if (not (leb_ℤ (pos 0) successes && leb_ℤ successes n)) Error.value_error
    inner_bound successes n confidence
