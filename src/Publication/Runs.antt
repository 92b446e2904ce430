-- ===== src/Publication/Runs.antt =====
-- Interleavings of the calls of reconciliation_publication.py with the rest of the system.
pub mod Proposed
pub mod Published
pub mod Confirmed
use mari_time_system.Prelude.{
  ℕ, ◌+◌, ◌≤◌, ◌≡◌, refl, sym, subst, String, none, some, List, [], ◌∷◌, ◌++◌, Bool, true, false,
  ==→≡, arith, any, get_row, get_row-save_self, save_row, save_row-Keyed, append-Keyed, total,
  total-append, total-save_row, le-total, Result, ok, err, Option-cases, Bool-cases, inl, inr,
}
use mari_time_system.Authority.Attestation.{AuthorityStore, Platform}
use mari_time_system.Publication.State.{
  AutomationStatus, Case, CaseVersion, Verdict, Intent, Outbox, Publication, Portal, ProposeResult,
  PublishResult,
}
use mari_time_system.Publication.Propose.{ProposalKeys, propose_publication}
use mari_time_system.Publication.Publish.{
  existing_publication, advance_case, new_publication, dispatch_outbox, publish_case,
}
use mari_time_system.Publication.Outbox.{
  is_final, is_undispatched, load_outbox, save_outbox, claim_outbox, refuse_outbox,
}
use mari_time_system.Publication.ReadBack.{
  supersede_outbox, confirm_outbox, mark_superseded, mark_confirmed, read_back,
  reconcile_publication, invalidate_pending_publications,
}
use mari_time_system.Publication.Proposals.{propose_publication-Outcome}
use mari_time_system.Publication.Effect.{publish_case-Outcome, advance_case-tables}
use mari_time_system.Publication.Outcome.{Publishes, Invalidates, publication_here}
use mari_time_system.Publication.Once.{
  loaded_row, save-PortalOk, claim-Lowers, refuse-Lowers, supersede-Lowers, confirm-Lowers,
  of_intent, row_weight, open_weight, sent_weight, IntentOk, PortalOk,
}

-- A call of the module, or another part of the system writing the tables that only it writes.
pub data PortalOp (Payload : Type 0) : Type 0 where
  propose :
      (keys : ProposalKeys) (account : ℕ) (c : Case) (version : CaseVersion Payload)
      (subject fingerprint destination case_type : String) (moment : ℕ) (stop : Bool)
      → PortalOp Payload
  publish :
      (new_id account : ℕ) (i : Intent) (payload : Payload) (moment : ℕ) (stop : Bool)
      (locked : ℕ → Bool)
      → PortalOp Payload
  reconcile : (account : ℕ) (i : Intent) (locked : ℕ → Bool) → PortalOp Payload
  invalidate : (account case_id current : ℕ) → PortalOp Payload
  elsewhere :
      (authority : AuthorityStore) (cases : List Case) (versions : List (CaseVersion Payload))
      (verdicts : List Verdict)
      → PortalOp Payload

abbrev pub after_call {ℓ} :
    {A : Type ℓ} {Payload : Type 0} → Portal Payload → Result (A × Portal Payload) → Portal Payload
after_call s (ok (r, s')) = s'
after_call s (err e) = s

module _ {Payload : Type 0} (platform : Platform Payload)
    (calculator_version : Payload → String) where
  unfoldable pub portal_step : PortalOp Payload → Portal Payload → Portal Payload
  portal_step (propose keys account c version subject fingerprint destination case_type moment stop)
        s =
      after_call s (
        propose_publication platform calculator_version keys account c version subject fingerprint
          destination case_type moment stop s)
  portal_step (publish new_id account i payload moment stop locked) s =
      after_call s (publish_case platform new_id account i payload moment stop locked s)
  portal_step (reconcile account i locked) s = (reconcile_publication platform account i locked s).1
  portal_step (invalidate account case_id current) s =
      (invalidate_pending_publications account case_id current s).1
  portal_step (elsewhere authority cases versions verdicts) s = record s {
    authority = authority;
    cases = cases;
    versions = versions;
    verdicts = verdicts;
  }

  unfoldable pub portal_run : List (PortalOp Payload) → Portal Payload → Portal Payload
  portal_run [] s = s
  portal_run (op ∷ ops) s = portal_run ops (portal_step op s)
