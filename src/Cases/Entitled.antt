-- ===== src/Cases/Entitled.antt =====
-- What a committed case and its verdict give, for
-- packages/pipeline/eastmed_pipeline/reconciliation_case.py and the gate of
-- packages/pipeline/eastmed_pipeline/reconciliation_publication.py.
use mari_time_system.Prelude.{
  ℕ, ◌≡◌, refl, sym, ap, subst, ◌∙◌, ◌↔◌, none, some, true, Result, ok, err, ◌>>=◌, arith,
  ok-injective,
}
use mari_time_system.Authority.Attestation.{Platform}
use mari_time_system.Publication.State.{Case, Verdict, Portal}
use mari_time_system.Publication.Propose.{verdict_gate_reason}
use mari_time_system.Publication.Gate.{Entitles, verdict_gate_reason_iff_Entitles}
use mari_time_system.Verification.Verifier.{finalize_case_status}
use mari_time_system.Verification.Values.{VerificationVerdict}
use mari_time_system.Verification.Completes.{Completes, completes_iff}
use mari_time_system.Cases.Rows.{ExpectedJob, Sources, Reading}
use mari_time_system.Cases.Build.{ResultJson, CaseResult, items_of, build_evidence}
use mari_time_system.Cases.Commit.{
  Version, new_verdict, insert_verdict, verdict_for, verify_case, record_verification_verdict,
}

-- The version that the verdict is about was committed from the result.
pub record IsFrom (result : CaseResult) (version : Version) : Type 0 where
  pub same_result : version.result ≡ result.result_json
  pub same_content : version.content_hash ≡ result.content_hash
  pub same_evidence : version.evidence_hash ≡ result.evidence_hash

inserted :
    (row0 : Verdict) (portal : Portal ResultJson) {row : Verdict} {portal' : Portal ResultJson}
    → insert_verdict row0 portal ≡ ok (row, portal')
    → row0 ≡ row
inserted row0 portal h = ground arith

-- A row built from a verdict entitles the case exactly if the verdict completes it.
new_verdict-Entitles :
    (platform : Platform ResultJson) (id account : ℕ) (job : ExpectedJob) (c : Case)
    (version : Version) (result : CaseResult) (verdict : VerificationVerdict)
    → c.expected_job_id ≡ job.id
    → IsFrom result version
    → Entitles platform
        (λ r. r.calculator_version)
        (new_verdict id account job version result verdict)
        c
        version
      ↔ (finalize_case_status verdict result.unresolved ≡ true)
unfolding finalize_case_status
new_verdict-Entitles platform id account job c version result verdict same_job from = (
  (λ e. e.completes),
  λ fin. record {
    same_content = refl;
    same_evidence = refl;
    same_revision = refl;
    same_job = sym same_job;
    same_calculator = ap (λ r. r.calculator_version) (sym from.same_result);
    some_checked = ground arith;
    resolved = ground arith;
    verified = ground arith;
    completes = fin;
  },
)

module _ (reading : Reading) (s : Sources) (account : ℕ) (job : ExpectedJob) where
  -- The verdict that the verifier gives finalizes exactly if the result completes.
  finalizes_iff :
      (result : CaseResult) (verdict : VerificationVerdict)
      → verify_case reading s account job result ≡ ok verdict
      → (finalize_case_status verdict result.unresolved ≡ true)
        ↔ Completes
            (some (items_of result.result_json.variances))
            (build_evidence reading s account job)
            result.unresolved
  unfolding verify_case
  finalizes_iff result verdict q =
      let iff =
        completes_iff (build_evidence reading s account job) result.unresolved
          (some (items_of result.result_json.variances)) in
      (
        (λ fin. iff.0 (verdict, q, fin)),
        λ c.
            let (other, e, fin) = iff.1 c in
            subst (λ v. finalize_case_status v result.unresolved ≡ true) (ok-injective (sym e ∙ q))
              fin,
      )

  gate_of_verdict :
      (platform : Platform ResultJson) (id : ℕ) (c : Case) (version : Version) (result : CaseResult)
      (verdict : VerificationVerdict)
      → c.expected_job_id ≡ job.id
      → IsFrom result version
      → verify_case reading s account job result ≡ ok verdict
      → (verdict_gate_reason platform
            (λ r. r.calculator_version)
            (new_verdict id account job version result verdict)
            c
            version
          ≡ none)
        ↔ Completes
            (some (items_of result.result_json.variances))
            (build_evidence reading s account job)
            result.unresolved
  gate_of_verdict platform id c version result verdict same_job from q =
      let row = new_verdict id account job version result verdict in
      let gate =
        verdict_gate_reason_iff_Entitles platform (λ r. r.calculator_version) row c version in
      let entitled =
        new_verdict-Entitles platform id account job c version result verdict same_job from in
      let final = finalizes_iff result verdict q in
      ((λ open_gate. final.0 (entitled.0 (gate.0 open_gate))), λ c. gate.1 (entitled.1 (final.1 c)))

  -- A verdict that `record_verification_verdict` writes opens the gate of a proposal exactly if the
  -- result completes against the rebuilt evidence.
  pub gate_iff_Completes :
      (platform : Platform ResultJson) (id : ℕ) (c : Case) (version : Version) (result : CaseResult)
      (portal : Portal ResultJson) {row : Verdict} {portal' : Portal ResultJson}
      → verdict_for account version.id portal.verdicts ≡ none
      → c.expected_job_id ≡ job.id
      → IsFrom result version
      → record_verification_verdict reading s account job id version result portal
        ≡ ok (row, portal')
      → (verdict_gate_reason platform (λ r. r.calculator_version) row c version ≡ none)
        ↔ Completes
            (some (items_of result.result_json.variances))
            (build_evidence reading s account job)
            result.unresolved
  unfolding record_verification_verdict
  gate_iff_Completes platform id c version result portal {row} {portal'} fresh same_job from e =
      by_verdict (verify_case reading s account job result) refl (rw fresh at e)
    where
      by_verdict :
          (m : Result VerificationVerdict)
          → verify_case reading s account job result ≡ m
          → (m >>= λ verdict.
              insert_verdict (new_verdict id account job version result verdict) portal)
            ≡ ok (row, portal')
          → (verdict_gate_reason platform (λ r. r.calculator_version) row c version ≡ none)
            ↔ Completes
                (some (items_of result.result_json.variances))
                (build_evidence reading s account job)
                result.unresolved
      by_verdict (err x) q k = absurd (ground arith)
      by_verdict (ok verdict) q k =
          subst
            (λ row.
              (verdict_gate_reason platform (λ r. r.calculator_version) row c version ≡ none)
              ↔ Completes (some (items_of result.result_json.variances))
                  (build_evidence reading s account job) result.unresolved)
            (inserted (new_verdict id account job version result verdict) portal k)
            (gate_of_verdict platform id c version result verdict same_job from q)
