-- ===== src/Expected/Outcome.antt =====
-- `classify_outcome` of ledger.py against its declared precedence.
use mari_time_system.Prelude.{◌≡◌, Bool, true, false, ◌↔◌, arith, ◌&&◌}
use mari_time_system.Expected.Ledger.{JobOutcome, classify_outcome}

-- Success needs every signal: a job is correct on time exactly when it is supported, arrived,
-- resolved, correct and on time; it is pending exactly when it is supported, its record has not
-- arrived or is not resolved, and the deadline has not passed; and it is missing exactly when it is
-- supported, has not arrived, and the deadline has passed.
pub classify_outcome-precedence :
    (supported arrived resolved correct on_time deadline_passed : Bool)
    → let outcome = classify_outcome supported arrived resolved correct on_time deadline_passed in
      ((outcome ≡ JobOutcome.correct_on_time) ↔ (
        (supported ≡ true)
        × (arrived ≡ true)
        × (resolved ≡ true)
        × (correct ≡ true)
        × (on_time ≡ true)))
      × ((outcome ≡ JobOutcome.pending_before_deadline)
          ↔ ((supported ≡ true) × ((arrived && resolved) ≡ false) × (deadline_passed ≡ false)))
      × ((outcome ≡ JobOutcome.missing)
          ↔ ((supported ≡ true) × (arrived ≡ false) × (deadline_passed ≡ true)))
unfolding classify_outcome
classify_outcome-precedence supported arrived resolved correct on_time deadline_passed =
    ground arith
