-- ===== src/Verification/Accurate.antt =====
-- What a verified result promises, stated without the verifier's loop, for
-- packages/shared/eastmed_shared/reconciliation/verifier.py.
use mari_time_system.Prelude.{
  ◌≡◌, refl, ◌↔◌, Option, none, some, List, true, Result, ok, err, arith,
}
use mari_time_system.Calculation.Decimal.{Decimal, same_value}
use mari_time_system.Verification.Verifier.{
  independent_delta_percent, match_evidence, percent_value, get, check_numbers, check_stated,
  check_fact, check_match, verify_reconciled,
}
use mari_time_system.Verification.Values.{
  Value, same, printed, Stated, stated, Variance, EvidenceFact,
}

-- The stated numbers are the fact's own, and the stated results are those that the formula gives.
pub record Recomputed (v : Variance) (actual planned : Decimal) : Type 0 where
  pub delta : Decimal
  pub percent : Option Decimal
  pub formula : independent_delta_percent actual planned ≡ ok (delta, percent)
  pub delta_shown : same (Value.numeral delta) (printed v.delta) ≡ true
  pub percent_shown : same (get v.percent) (percent_value percent) ≡ true

pub record States (v : Variance) (actual planned : Decimal) : Type 0 where
  pub stated_actual : Decimal
  pub stated_planned : Decimal
  pub reads_actual : stated v.actual ≡ some (Stated.finite stated_actual)
  pub reads_planned : stated v.planned ≡ some (Stated.finite stated_planned)
  pub actual_agrees : same_value stated_actual actual ≡ true
  pub planned_agrees : same_value stated_planned planned ≡ true

-- A variance that an owned and current fact with a plan bears out.
pub record Correct (evidence : List EvidenceFact) (v : Variance) : Type 0 where
  pub fact : EvidenceFact
  pub planned : Decimal
  pub found : match_evidence v evidence ≡ some fact
  pub owned : fact.owner_ok ≡ true
  pub current : fact.is_current ≡ true
  pub has_plan : fact.planned ≡ some planned
  pub states : States v fact.actual planned
  pub recomputed : Recomputed v fact.actual planned

check_numbers-Recomputed :
    (v : Variance) (actual planned : Decimal)
    → check_numbers v actual planned ≡ ok none
    → Recomputed v actual planned
unfolding check_numbers
check_numbers-Recomputed v actual planned h =
    by_formula (independent_delta_percent actual planned) refl
  where
    by_formula :
        (m : Result (Decimal × Option Decimal))
        → independent_delta_percent actual planned ≡ m
        → Recomputed v actual planned
    by_formula (err e) q = absurd (ground arith)
    by_formula (ok (d, p)) q = record {
      delta = d;
      percent = p;
      formula = q;
      delta_shown = ground arith;
      percent_shown = ground arith;
    }

Recomputed-check_numbers :
    (v : Variance) (actual planned : Decimal)
    → Recomputed v actual planned
    → check_numbers v actual planned ≡ ok none
unfolding check_numbers
Recomputed-check_numbers v actual planned r =
    rw r.formula (rw (r.delta_shown, r.percent_shown) refl)

check_stated-States :
    (v : Variance) (a p : Option Stated) (actual planned : Decimal)
    → stated v.actual ≡ a
    → stated v.planned ≡ p
    → check_stated v a p actual planned ≡ ok none
    → States v actual planned × (check_numbers v actual planned ≡ ok none)
check_stated-States v none p actual planned e f h = absurd (ground arith)
check_stated-States v (some a) none actual planned e f h = absurd (ground arith)
check_stated-States v (some Stated.not_finite) (some p) actual planned e f h = absurd (ground arith)
check_stated-States v (some Stated.signalling) (some p) actual planned e f h = absurd (ground arith)
check_stated-States v (some (Stated.finite a)) (some Stated.not_finite) actual planned e f h =
    absurd (ground arith)
check_stated-States v (some (Stated.finite a)) (some Stated.signalling) actual planned e f h =
    absurd (ground arith)
check_stated-States v (some (Stated.finite a)) (some (Stated.finite p)) actual planned e f h = (
  record {
    stated_actual = a;
    stated_planned = p;
    reads_actual = e;
    reads_planned = f;
    actual_agrees = ground arith;
    planned_agrees = ground arith;
  },
  ground arith,
)

check_match-Correct :
    (evidence : List EvidenceFact) (v : Variance) (m : Option EvidenceFact)
    → match_evidence v evidence ≡ m
    → check_match v m ≡ ok none
    → Correct evidence v
check_match-Correct evidence v none q h = absurd (ground arith)
check_match-Correct evidence v (some fact) q h =
    let owned : fact.owner_ok ≡ true = ground arith in
    let current : fact.is_current ≡ true = ground arith in
    by_plan owned current fact.planned refl (rw (owned, current) at h)
  where
    by_plan :
        fact.owner_ok ≡ true
        → fact.is_current ≡ true
        → (p : Option Decimal) → fact.planned ≡ p
        → check_fact v fact p ≡ ok none
        → Correct evidence v
    by_plan owned current none e k = absurd (ground arith)
    by_plan owned current (some planned) e k =
        let (states, numbers) =
          check_stated-States v (stated v.actual) (stated v.planned) fact.actual planned refl refl
            k in
        record {
          fact = fact;
          planned = planned;
          found = q;
          owned = owned;
          current = current;
          has_plan = e;
          states = states;
          recomputed = check_numbers-Recomputed v fact.actual planned numbers;
        }

-- The check of a variance finds nothing exactly if the variance is correct.
pub verify_reconciled_iff_Correct :
    (evidence : List EvidenceFact) (v : Variance)
    → (verify_reconciled v evidence ≡ ok none) ↔ Correct evidence v
unfolding verify_reconciled
verify_reconciled_iff_Correct evidence v = (
  (λ h. check_match-Correct evidence v (match_evidence v evidence) refl h),
  λ c. rw (c.found) (
      rw (c.owned, c.current, c.has_plan)
        (rw (c.states.reads_actual, c.states.reads_planned)
          (rw (c.states.actual_agrees, c.states.planned_agrees)
            (Recomputed-check_numbers v _ _ c.recomputed)))),
)
