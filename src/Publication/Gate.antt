-- ===== src/Publication/Gate.antt =====
-- What a proposal of reconciliation_publication.py needs, and what it commits.
use mari_time_system.Prelude.{◌<◌, ◌≡◌, String, eq_iff, none, true, false, ◌↔◌, arith}
use mari_time_system.Authority.Attestation.{Platform}
use mari_time_system.Publication.State.{Case, CaseVersion, Verdict}
use mari_time_system.Publication.Propose.{verdict_gate_reason}

module _ {Payload : Type 0} (platform : Platform Payload)
    (calculator_version : Payload → String) where
  -- The verdict is about exactly this version of the case, and it completes it.
  pub record Entitles (v : Verdict) (c : Case) (version : CaseVersion Payload) : Type 0 where
    pub same_content : v.content_hash ≡ version.content_hash
    pub same_evidence : v.evidence_hash ≡ version.evidence_hash
    pub same_revision : v.case_revision ≡ version.revision
    pub same_job : v.expected_job_id ≡ c.expected_job_id
    pub same_calculator : v.calculator_version ≡ calculator_version version.result
    pub some_checked : 0 < v.checked
    pub resolved : v.has_unresolved ≡ false
    pub verified : v.status ≡ "verified"
    pub completes : v.completes ≡ true

  -- The gate passes exactly the verdicts that are bound to the version's content, evidence,
  -- revision, job and calculator, that checked something, left nothing unresolved, verified it and
  -- complete it.
  pub verdict_gate_reason_iff_Entitles :
      (v : Verdict) (c : Case) (version : CaseVersion Payload)
      → (verdict_gate_reason platform calculator_version v c version ≡ none) ↔ Entitles v c version
  unfolding verdict_gate_reason
  verdict_gate_reason_iff_Entitles v c version = ground (
    arith,
    eq_iff v.content_hash version.content_hash,
    eq_iff v.evidence_hash version.evidence_hash,
    eq_iff v.calculator_version (calculator_version version.result),
    eq_iff v.status "verified",
  )
