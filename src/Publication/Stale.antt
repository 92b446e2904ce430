-- ===== src/Publication/Stale.antt =====
-- Every refusal of a recheck invalidates the outbox row, for reconciliation_publication.py.
use mari_time_system.Prelude.{ℕ, ◌≡◌, Bool, true, false, arith, Option-cases, inl, inr}
use mari_time_system.Authority.Attestation.{Attestation, AuthorityStore, Platform}
use mari_time_system.Authority.Dispatch.{
  find_attestation, live_grant, recheck, recheck_grant, authorize_dispatch,
}
use mari_time_system.Publication.Outbox.{is_stale_reason}

module _ {Payload : Type 0} (platform : Platform Payload) where
  -- Every reason that a recheck can give is one under which the attestation is not tried again.
  recheck-stale :
      (account : ℕ) (payload : Payload) (case_revision moment : ℕ) (stop : Bool) (a : Attestation)
      (u : AuthorityStore)
      → (recheck platform account payload case_revision moment stop a u).0.authorized ≡ false
      → is_stale_reason (recheck platform account payload case_revision moment stop a u).0.reason
        ≡ true
  unfolding recheck recheck_grant
  recheck-stale account payload case_revision moment stop a u h =
      elim (Option-cases (live_grant account a u)) [
        | inl revoked ↦ ground arith
        | inr (g, live) ↦ ground arith
      ]

  pub refusal-stale :
      (account id : ℕ) (payload : Payload) (case_revision moment : ℕ) (stop : Bool)
      (u : AuthorityStore)
      → (authorize_dispatch platform account id payload case_revision moment stop u).0.authorized
        ≡ false
      → is_stale_reason
          (authorize_dispatch platform account id payload case_revision moment stop u).0.reason
        ≡ true
  unfolding authorize_dispatch
  refusal-stale account id payload case_revision moment stop u h =
      elim (Option-cases (find_attestation account id u)) [
        | inl missing ↦ ground arith
        | inr (a, found) ↦
            rw (found, authorize_dispatch)
              (recheck-stale account payload case_revision moment stop a u
                (rw (found, authorize_dispatch) at h))
      ]
