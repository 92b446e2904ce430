-- ===== src/Publication/Lookups.antt =====
-- What a proposal of reconciliation_publication.py reads of the portal, and the status of a case.
use mari_time_system.Prelude.{
  ℕ, String, str_eq, Option, none, some, List, [], ◌∷◌, ◌++◌, not, ◌&&◌, ltb, leb, ◌==◌,
  if◌then◌else◌, find, get_row, save_row,
}
use mari_time_system.Publication.State.{AutomationStatus, CaseVersion, Verdict, Intent, Portal}

-- The highest revision of the versions of a case (`_current_revision`).
unfoldable pub highest : List ℕ → Option ℕ
highest [] = none
highest (n ∷ ns) = elim (highest ns) [ none ↦ some n | some m ↦ if leb m n then some n else some m ]

abbrev pub revisions_of : {Payload : Type 0} → ℕ → ℕ → List (CaseVersion Payload) → List ℕ
revisions_of account case_id [] = []
revisions_of account case_id (v ∷ vs) =
    if v.account_id == account && v.case_id == case_id
    then v.revision ∷ revisions_of account case_id vs
    else revisions_of account case_id vs

unfoldable pub current_revision : {Payload : Type 0} → ℕ → ℕ → Portal Payload → Option ℕ
unfolding highest
current_revision account case_id s = highest (revisions_of account case_id s.versions)

-- `_existing_intent`
unfoldable pub existing_intent : {Payload : Type 0} → ℕ → String → Portal Payload → Option Intent
existing_intent account key s =
    find (λ i. i.account_id == account && str_eq i.action_key key) s.intents

-- `_load_verdict`
unfoldable pub load_verdict : {Payload : Type 0} → ℕ → ℕ → Portal Payload → Option Verdict
load_verdict account version_id s =
    find (λ v. v.account_id == account && v.case_version_id == version_id) s.verdicts

-- `_evidence_from_verdict`
unfoldable pub evidence_from_verdict : Verdict → List String
evidence_from_verdict v =
    (if ltb 0 v.checked && not v.has_unresolved then "required_inputs_complete" ∷ [] else [])
    ++ (if str_eq v.status "verified" then "accepted_facts" ∷ [] else [])

-- The automation status of a case.
unfoldable pub set_case_status :
    {Payload : Type 0} → ℕ → AutomationStatus → Portal Payload → Portal Payload
set_case_status case_id status s = elim (get_row (λ c. c.id) case_id s.cases) [
  | none ↦ s
  | some c ↦ record s {
    cases = save_row (λ x. x.id) (record c { automation_status = status }) s.cases;
  }
]
