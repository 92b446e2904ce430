-- ===== src/Verification/Verifier.antt =====
-- `verify_case_result` and `finalize_case_status` of
-- packages/shared/eastmed_shared/reconciliation/verifier.py.
use mari_time_system.Prelude.{
  ℕ, ◌+◌, Option, none, some, List, [], ◌∷◌, ◌++◌, Bool, true, false, not, ◌&&◌, ◌||◌, ◌==◌,
  if◌then◌else◌, find, any, is_some, Result, ok, ◌>>=◌,
}
use mari_time_system.Calculation.Decimal.{Decimal, sub, mul, div, quantize, is_zero, hundred}
use mari_time_system.Verification.Values.{
  Value, same, printed, printed_or_empty, Stated, stated, differs, Variance, Item, VerifyReason,
  EvidenceFact, VerificationFinding, VerificationVerdict, Key, same_key, fact_key, variance_key,
  raw_key,
}

-- `_round2`
abbrev pub verifier_round2 : Decimal → Result Decimal
verifier_round2 = quantize

-- `_independent_delta_percent`
unfoldable pub independent_delta_percent : Decimal → Decimal → Result (Decimal × Option Decimal)
independent_delta_percent actual planned =
    let difference = sub actual planned in
    if is_zero planned then (do shown ← verifier_round2 difference; ok (shown, none)) else (do
      shown ← verifier_round2 difference
      ratio ← div difference planned
      percent ← verifier_round2 (mul ratio hundred)
      ok (shown, some percent))

abbrev pub match_evidence : Variance → List EvidenceFact → Option EvidenceFact
match_evidence v = find (λ fact. same_key (fact_key fact) (raw_key v))

-- `expected_percent`
abbrev pub percent_value : Option Decimal → Value
percent_value none = Value.null
percent_value (some p) = Value.numeral p

-- `variance.get("percent")`: a missing key reads as `None`.
abbrev pub get : Value → Value
get Value.absent = Value.null
get v = v

-- The check of the stated numbers against the fact's own.
unfoldable pub check_numbers : Variance → Decimal → Decimal → Result (Option VerifyReason)
unfolding independent_delta_percent
check_numbers v actual planned = do
  recomputed ← independent_delta_percent actual planned
  ok (
      if not (same (Value.numeral recomputed.0) (printed v.delta))
      then some VerifyReason.numeric_inconsistent
      else if not (same (get v.percent) (percent_value recomputed.1))
      then some VerifyReason.numeric_inconsistent
      else none)

abbrev pub check_stated :
    Variance → Option Stated → Option Stated → Decimal → Decimal → Result (Option VerifyReason)
check_stated v (some a) (some p) actual planned = do
  wrong_actual ← differs a actual
  wrong ← if wrong_actual then ok true else differs p planned
  if wrong then ok (some VerifyReason.input_value_mismatch) else check_numbers v actual planned
check_stated v _ _ actual planned = ok (some VerifyReason.unexpected_result_shape)

abbrev pub check_fact : Variance → EvidenceFact → Option Decimal → Result (Option VerifyReason)
check_fact v fact none = ok (some VerifyReason.missing_evidence)
check_fact v fact (some planned) =
    check_stated v (stated v.actual) (stated v.planned) fact.actual planned

abbrev pub check_match : Variance → Option EvidenceFact → Result (Option VerifyReason)
check_match v none = ok (some VerifyReason.missing_evidence)
check_match v (some fact) =
    if not fact.owner_ok
    then ok (some VerifyReason.reference_not_owned)
    else if not fact.is_current
    then ok (some VerifyReason.source_version_mismatch)
    else check_fact v fact fact.planned

unfoldable pub verify_reconciled : Variance → List EvidenceFact → Result (Option VerifyReason)
verify_reconciled v evidence = check_match v (match_evidence v evidence)

abbrev pub finding : Value → VerifyReason → VerificationFinding
finding grade reason = record { fuel_grade = grade; reason = reason }

-- What the loop over the variances carries: the findings, the count and the keys seen.
pub record Pass : Type 0 where
  pub findings : List VerificationFinding
  pub checked : ℕ
  pub seen : List Key

abbrev pub shape_finding : Value → VerificationFinding
shape_finding grade = finding grade VerifyReason.unexpected_result_shape

abbrev pub finding_for : Value → Option VerifyReason → List VerificationFinding
finding_for grade none = []
finding_for grade (some reason) = finding grade reason ∷ []

abbrev pub repeated_finding : Key → List Key → List VerificationFinding
repeated_finding key seen =
    if any (same_key key) seen then shape_finding key.fuel_grade ∷ [] else []

-- An item of the wrong shape.
abbrev pub reject_item : Pass → Pass
reject_item pass = record pass { findings = pass.findings ++ (shape_finding (Value.text "") ∷ []) }

-- A reconciled variance, once its check has given a reason or none.
abbrev pub after_check : Variance → Option VerifyReason → Pass → Pass
after_check v reason pass = record {
  findings =
      pass.findings
      ++ (repeated_finding (variance_key v) pass.seen
          ++ finding_for (printed_or_empty v.fuel_grade) reason);
  checked = pass.checked + 1;
  seen = variance_key v ∷ pass.seen;
}

-- The body of the loop.
unfoldable pub verify_item : List EvidenceFact → Item → Pass → Result Pass
verify_item evidence Item.not_an_object pass = ok (reject_item pass)
verify_item evidence (Item.object v) pass =
    if same v.status (Value.text "unresolved")
    then ok pass
    else if not (same v.status (Value.text "reconciled"))
    then ok (reject_item pass)
    else (verify_reconciled v evidence >>= λ reason. ok (after_check v reason pass))

unfoldable pub verify_items : List EvidenceFact → List Item → Pass → Result Pass
unfolding verify_item
verify_items evidence [] pass = ok pass
verify_items evidence (item ∷ items) pass = do
  next ← verify_item evidence item pass
  verify_items evidence items next

-- A fact with a plan that no reconciled variance states.
abbrev pub is_unstated : List Key → EvidenceFact → Bool
is_unstated seen fact = is_some fact.planned && not (any (same_key (fact_key fact)) seen)

abbrev pub unstated_findings : List Key → List EvidenceFact → List VerificationFinding
unstated_findings seen [] = []
unstated_findings seen (fact ∷ facts) =
    if is_unstated seen fact
    then finding (Value.text fact.fuel_grade) VerifyReason.missing_evidence
      ∷ unstated_findings seen facts
    else unstated_findings seen facts

abbrev pub no_findings : List VerificationFinding → Bool
no_findings [] = true
no_findings (f ∷ fs) = false

abbrev pub conclude : List EvidenceFact → Pass → VerificationVerdict
conclude evidence pass =
    let findings = pass.findings ++ unstated_findings pass.seen evidence in
    record { verified = no_findings findings; checked = pass.checked; findings = findings }

abbrev pub shapeless : VerificationVerdict
shapeless = record { verified = false; checked = 0; findings = shape_finding (Value.text "") ∷ [] }

-- `none` stands for a `variances` that is missing or no list.
unfoldable pub verify_case_result :
    Option (List Item) → List EvidenceFact → Result VerificationVerdict
verify_case_result none evidence = ok shapeless
verify_case_result (some []) evidence = ok shapeless
verify_case_result (some (item ∷ items)) evidence = do
  pass ← verify_items evidence (item ∷ items) (record { findings = []; checked = 0; seen = [] })
  ok (conclude evidence pass)

-- `finalize_case_status`, true for COMPLETED.
unfoldable pub finalize_case_status : VerificationVerdict → Bool → Bool
finalize_case_status verdict has_unresolved =
    not (not verdict.verified || verdict.checked == 0 || has_unresolved)
