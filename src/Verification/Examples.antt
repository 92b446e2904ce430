-- ===== src/Verification/Examples.antt =====
-- A result of one variance and its evidence, for
-- packages/shared/eastmed_shared/reconciliation/verifier.py.
use mari_time_system.Prelude.{ℕ, ◌≡◌, ◌↔◌, refl, none, some, [], ◌∷◌, true, false, negsuc, ok}
use mari_time_system.Calculation.Decimal.{
  Decimal, digit_count, half_even, half_up, fix, add, sub, mul, strip_zeros, quotient, div,
  quantize,
}
use mari_time_system.Calculation.Variance.{
  FuelGrade, QuantityUnit, QuantityInput, CalcOutcome, FuelVarianceResult, calculator_version,
  rounding_text, percentage, variance_of, refusal, fuel_variance,
}
use mari_time_system.Verification.Verifier.{
  independent_delta_percent, check_numbers, verify_reconciled, verify_item, verify_items,
  verify_case_result, finalize_case_status, finding,
}
use mari_time_system.Verification.Values.{
  Value, Variance, Item, EvidenceFact, VerificationVerdict, VerifyReason,
}
use mari_time_system.Verification.Accurate.{Correct}
use mari_time_system.Verification.Completes.{Completes, completes_iff}
use mari_time_system.Verification.Agreement.{variance_entry, variance_entry-Correct}

abbrev tonnes : ℕ → Decimal
tonnes micro = record { negative = false; digits = micro; exponent = negsuc 5 }

abbrev cents : ℕ → Decimal
cents n = record { negative = false; digits = n; exponent = negsuc 1 }

abbrev input : ℕ → QuantityInput
input micro = record {
  input_id = 1;
  fuel_grade = FuelGrade.vlsfo;
  value = tonnes micro;
  unit = QuantityUnit.tonne;
  period_start = 100;
  period_end = 200;
  revision = "1";
}

abbrev fact : EvidenceFact
fact = record {
  fuel_grade = "VLSFO";
  period_start = 100;
  period_end = 200;
  actual = tonnes 12500000;
  planned = some (tonnes 10000000);
  owner_ok = true;
  is_current = true;
}

-- 12.5 against 10: a difference of 2.50, 25.00 per cent, and another difference.
abbrev shown : ℕ → Variance
shown delta = record {
  status = Value.text "reconciled";
  fuel_grade = Value.text "VLSFO";
  period_start = Value.moment 100;
  period_end = Value.moment 200;
  actual = Value.numeral (tonnes 12500000);
  planned = Value.numeral (tonnes 10000000);
  delta = Value.numeral (cents delta);
  percent = Value.numeral (cents 2500);
}

accepted_result :
    verify_case_result (some (Item.object (shown 250) ∷ [])) (fact ∷ [])
    ≡ ok (record { verified = true; checked = 1; findings = [] })
unfolding verify_case_result verify_items verify_item verify_reconciled check_numbers
    independent_delta_percent sub add fix half_even div quotient strip_zeros mul quantize half_up
    digit_count
accepted_result = refl

wrong_result :
    verify_case_result (some (Item.object (shown 251) ∷ [])) (fact ∷ [])
    ≡ ok (record {
      verified = false;
      checked = 1;
      findings = finding (Value.text "VLSFO") VerifyReason.numeric_inconsistent ∷ [];
    })
unfolding verify_case_result verify_items verify_item verify_reconciled check_numbers
    independent_delta_percent sub add fix half_even div quotient strip_zeros mul quantize half_up
    digit_count
wrong_result = refl

completes_iff_example :
    ((verdict : VerificationVerdict) × (verify_case_result
          (some (Item.object (shown 250) ∷ []))
          (fact ∷ [])
        ≡ ok verdict)
      × (finalize_case_status verdict false ≡ true))
    ↔ Completes (some (Item.object (shown 250) ∷ [])) (fact ∷ []) false
completes_iff_example = completes_iff (fact ∷ []) false (some (Item.object (shown 250) ∷ []))

abbrev variance : FuelVarianceResult
variance = record {
  fuel_grade = FuelGrade.vlsfo;
  unit = QuantityUnit.tonne;
  period_start = 100;
  period_end = 200;
  actual_unrounded = tonnes 12500000;
  planned_unrounded = tonnes 10000000;
  delta_unrounded = tonnes 2500000;
  delta = cents 250;
  percent_unrounded = some (record { negative = false; digits = 2500; exponent = negsuc 1 });
  percent = some (cents 2500);
  percent_reason = none;
  receipt = record {
    function = "fuel_variance";
    formula_version = calculator_version;
    rounding = rounding_text;
    inputs = ("actual", input 12500000) ∷ ("planned", input 10000000) ∷ [];
    assumptions = [];
    exclusions = [];
  };
}

computed_variance :
    fuel_variance (input 12500000) (some (input 10000000)) false
    ≡ ok (CalcOutcome.computed variance)
unfolding fuel_variance refusal variance_of percentage sub add fix half_even div quotient
    strip_zeros mul quantize half_up digit_count
computed_variance = refl

variance_entry-Correct_example : Correct (fact ∷ []) (variance_entry variance)
variance_entry-Correct_example =
    variance_entry-Correct (input 12500000) (input 10000000) false variance (fact ∷ []) fact
      computed_variance refl refl refl refl refl
