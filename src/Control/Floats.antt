-- ===== src/Control/Floats.antt =====
-- Python's floats, as far as packages/shared/eastmed_shared/reconciliation/release.py computes with
-- them: the type and its operations are a parameter, and nothing is assumed of them.
use mari_time_system.Prelude.{ℕ, String, Bool, ℤ, pos, Result}

-- `of_int n` is `float(n)`, `ratio a b` is `a / b` for integers with b not 0, `literal` reads a number
-- of the source, `fixed n` is the format `.nf`, `text` and `text_of_int` are `str`. `power` is
-- `float(a ** b)`, which raises where `a ** b` is complex.
-- `over`, `log` and `exp` are total: where the release gates call them, no divisor is 0, a logarithm's
-- argument lies between 0 and 1, and an exponential is a bounded density.
pub record Floats : Type 1 where
  pub Float : Type 0
  pub literal : String → Float
  pub of_int : ℤ → Float
  pub ratio : ℤ → ℤ → Float
  pub plus : Float → Float → Float
  pub minus : Float → Float → Float
  pub times : Float → Float → Float
  pub over : Float → Float → Float
  pub negate : Float → Float
  pub magnitude : Float → Float
  pub less : Float → Float → Bool
  pub at_most : Float → Float → Bool
  pub power : Float → Float → Result Float
  pub lgamma : Float → Float
  pub exp : Float → Float
  pub log : Float → Float
  pub ceil : Float → ℤ
  pub text : Float → String
  pub fixed : ℕ → Float → String
  pub text_of_int : ℤ → String

module _ (floats : Floats) where
  open floats use {Float, of_int}

  abbrev pub zero_float : Float
  zero_float = of_int (pos 0)

  abbrev pub one_float : Float
  one_float = of_int (pos 1)

  abbrev pub two_float : Float
  two_float = of_int (pos 2)
