-- ===== src/Verification/Values.antt =====
-- The results and the evidence that packages/shared/eastmed_shared/reconciliation/verifier.py compares.
use mari_time_system.Prelude.{
  ℕ, String, str_eq, Option, none, some, List, Bool, true, false, not, ◌&&◌, ◌==◌, Result, ok, err,
  arithmetic_error,
}
use mari_time_system.Calculation.Decimal.{Decimal, same_value, same_text}

-- A value of a decoded JSON object: missing, `null`, a text that `Decimal` does not read, the text of a
-- decimal, another text that reads as one, a text that reads as an infinity or a quiet NaN, one that
-- reads as a signalling NaN, a JSON number, the ISO text of an instant, or a value of another kind with
-- the text that `str` gives it.
pub data Value : Type 0 where
  absent null : Value
  text : String → Value
  numeral : Decimal → Value
  respelled : String → Decimal → Value
  not_finite signalling : String → Value
  number : Decimal → Value
  moment : ℕ → Value
  other : String → Value

-- Whether two values are the same.
abbrev pub same : Value → Value → Bool
same Value.absent Value.absent = true
same Value.null Value.null = true
same (Value.text s) (Value.text t) = str_eq s t
same (Value.numeral a) (Value.numeral b) = same_text a b
same (Value.respelled s a) (Value.respelled t b) = str_eq s t
same (Value.not_finite s) (Value.not_finite t) = str_eq s t
same (Value.signalling s) (Value.signalling t) = str_eq s t
same (Value.number a) (Value.number b) = same_value a b
same (Value.moment a) (Value.moment b) = a == b
same _ _ = false

-- `str(variance.get(k))`: a missing value prints as `null` does.
abbrev pub printed : Value → Value
printed Value.absent = Value.text "None"
printed Value.null = Value.text "None"
printed (Value.number d) = Value.numeral d
printed (Value.other s) = Value.text s
printed v = v

-- `str(variance.get(k, ""))`
abbrev pub printed_or_empty : Value → Value
printed_or_empty Value.absent = Value.text ""
printed_or_empty v = printed v

-- What `Decimal` reads: a finite number, an infinity or a quiet NaN, or a signalling NaN.
pub data Stated : Type 0 where
  finite : Decimal → Stated
  not_finite signalling : Stated

-- `Decimal(str(variance[k]))`, where a missing key and a text that is no numeral raise.
abbrev pub stated : Value → Option Stated
stated (Value.numeral d) = some (Stated.finite d)
stated (Value.respelled s d) = some (Stated.finite d)
stated (Value.number d) = some (Stated.finite d)
stated (Value.not_finite s) = some Stated.not_finite
stated (Value.signalling s) = some Stated.signalling
stated _ = none

-- `stated != value` for a finite value: a comparison with a signalling NaN raises.
abbrev pub differs : Stated → Decimal → Result Bool
differs (Stated.finite a) value = ok (not (same_value a value))
differs Stated.not_finite value = ok true
differs Stated.signalling value = err arithmetic_error

pub record Variance : Type 0 where
  pub status : Value
  pub fuel_grade : Value
  pub period_start : Value
  pub period_end : Value
  pub actual : Value
  pub planned : Value
  pub delta : Value
  pub percent : Value

-- An element of `result_json["variances"]`.
pub data Item : Type 0 where
  not_an_object : Item
  object : Variance → Item

pub data VerifyReason : Type 0 where
  missing_evidence reference_not_owned source_version_mismatch input_value_mismatch
        numeric_inconsistent unexpected_result_shape :
      VerifyReason

-- The grade is its text and the two ends are the ISO texts of instants.
pub record EvidenceFact : Type 0 where
  pub fuel_grade : String
  pub period_start : ℕ
  pub period_end : ℕ
  pub actual : Decimal
  pub planned : Option Decimal
  pub owner_ok : Bool
  pub is_current : Bool

pub record VerificationFinding : Type 0 where
  pub fuel_grade : Value
  pub reason : VerifyReason

pub record VerificationVerdict : Type 0 where
  pub verified : Bool
  pub checked : ℕ
  pub findings : List VerificationFinding

pub record Key : Type 0 where
  pub fuel_grade : Value
  pub period_start : Value
  pub period_end : Value

abbrev pub same_key : Key → Key → Bool
same_key a b =
    same a.fuel_grade b.fuel_grade
    && same a.period_start b.period_start
    && same a.period_end b.period_end

abbrev pub fact_key : EvidenceFact → Key
fact_key fact = record {
  fuel_grade = Value.text fact.fuel_grade;
  period_start = Value.moment fact.period_start;
  period_end = Value.moment fact.period_end;
}

abbrev pub variance_key : Variance → Key
variance_key v = record {
  fuel_grade = printed_or_empty v.fuel_grade;
  period_start = printed_or_empty v.period_start;
  period_end = printed_or_empty v.period_end;
}

-- The fact whose three fields equal the variance's own, as they are, with no `str`.
abbrev pub raw_key : Variance → Key
raw_key v = record {
  fuel_grade = v.fuel_grade;
  period_start = v.period_start;
  period_end = v.period_end;
}
