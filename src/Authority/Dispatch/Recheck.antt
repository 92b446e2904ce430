-- ===== src/Authority/Dispatch/Recheck.antt =====
-- Exactly when `authorize_dispatch` of reconciliation_policy.py authorizes.
use mari_time_system.Prelude.{
  ℕ, ◌≡◌, ◌≤◌, refl, sym, All, get_row, Option, none, some, Bool, true, false, ==-refl, arith,
  eq_iff, eq_refl, ◌↔◌, ◌⊎◌, subst, member, Option-cases, Bool-cases, inl, inr,
}
use mari_time_system.Authority.Policy.{DenyReason}
use mari_time_system.Authority.Attestation.{
  AttestationDecision, Grant, Attestation, AuthorityStore, Platform,
}
use mari_time_system.Authority.Dispatch.{
  DispatchResult, reject, find_attestation, live_grant, stamp, recheck_grant, recheck,
  authorize_dispatch,
}
use mari_time_system.Authority.Dispatch.Standing.{
  Undispatched, Live, live_grant-Live, Live-live_grant, unexpired_iff, undispatched, not_dispatched,
}

module _ {Payload : Type 0} (platform : Platform Payload) where
  -- The attestation may be dispatched now: it allowed the action and was not dispatched, its grant
  -- is still active at the same policy revision, it has not expired, the case revision and the
  -- payload's hash are those attested, the fingerprint is still qualified, and no attestation of
  -- the same action was dispatched.
  pub record Dispatchable (account : ℕ) (payload : Payload) (case_revision moment : ℕ) (stop : Bool)
      (a : Attestation) (g : Grant) (s : AuthorityStore) : Type 0 where
    pub allowed : a.decision ≡ AttestationDecision.allow
    pub undispatched : a.dispatched_at ≡ none
    pub running : stop ≡ false
    pub grant_id : ℕ
    pub names_grant : a.grant_id ≡ some grant_id
    pub grant_stored : get_row (λ x. x.id) grant_id s.grants ≡ some g
    pub grant_own : g.account_id ≡ account
    pub grant_active : g.terms.active ≡ true
    pub same_policy : g.terms.policy_revision ≡ a.policy_revision
    pub expires_at : ℕ
    pub ends : a.expires_at ≡ some expires_at
    pub unexpired : moment ≤ expires_at
    pub same_case : case_revision ≡ a.case_revision
    pub same_payload : platform.canonical_payload_hash payload ≡ a.payload_hash
    pub qualified : member a.system_fingerprint g.terms.qualified_fingerprints ≡ true
    pub first_dispatch : All (Undispatched account a.action_key) s.attestations

  module _ (account : ℕ) (payload : Payload) (case_revision moment : ℕ) (stop : Bool)
      (a : Attestation) (s : AuthorityStore) where
    recheck-Dispatchable :
        (recheck platform account payload case_revision moment stop a s).0.authorized ≡ true
        → (g : Grant) × Dispatchable account payload case_revision moment stop a g s
          × (recheck platform account payload case_revision moment stop a s
              ≡ (record { authorized = true; reason = DenyReason.no_objection }, stamp moment a s))
    unfolding recheck recheck_grant
    recheck-Dispatchable h = elim (Option-cases (live_grant account a s)) [
      | inl revoked ↦ absurd (ground arith)
      | inr (g, live) ↦ (
        g,
        record {
          allowed = ground arith;
          undispatched = ground arith;
          running = ground arith;
          grant_id = (live_grant-Live account a s g live).id;
          names_grant = (live_grant-Live account a s g live).named;
          grant_stored = (live_grant-Live account a s g live).stored;
          grant_own = (live_grant-Live account a s g live).own;
          grant_active = (live_grant-Live account a s g live).active;
          same_policy = ground arith;
          expires_at = (timely g live).0;
          ends = (timely g live).1;
          unexpired = (timely g live).2;
          same_case = ground arith;
          same_payload =
              ground (arith, eq_iff (platform.canonical_payload_hash payload) a.payload_hash);
          qualified = ground arith;
          first_dispatch = undispatched account a.action_key s.attestations (ground arith);
        },
        ground arith,
      )
    ]
      where
        timely :
            (g : Grant)
            → live_grant account a s ≡ some g
            → (at : ℕ) × (a.expires_at ≡ some at) × (moment ≤ at)
        timely g live = (unexpired_iff moment a.expires_at).0 (ground arith)

    Dispatchable-recheck :
        (g : Grant)
        → Dispatchable account payload case_revision moment stop a g s
        → (recheck platform account payload case_revision moment stop a s).0.authorized ≡ true
    unfolding recheck recheck_grant
    Dispatchable-recheck g d =
        rw (d.allowed, recheck)
          (rw (d.undispatched, d.running)
            (rw (Live-live_grant account a s g (live_of g d), recheck)
              (rw (d.same_policy, ==-refl a.policy_revision)
                (rw ((unexpired_iff moment a.expires_at).1 (d.expires_at, d.ends, d.unexpired)) (
                  rw (d.same_case, ==-refl a.case_revision)
                    (rw (d.same_payload, eq_refl a.payload_hash)
                      (rw (d.qualified) (
                        rw (not_dispatched account a.action_key s.attestations d.first_dispatch)
                          refl))))))))
      where
        live_of :
            (g : Grant)
            → Dispatchable account payload case_revision moment stop a g s
            → Live account a s g
        live_of g d = record {
          id = d.grant_id;
          named = d.names_grant;
          stored = d.grant_stored;
          own = d.grant_own;
          active = d.grant_active;
        }

    -- A rejection writes nothing.
    recheck_rejects :
        (recheck platform account payload case_revision moment stop a s).0.authorized ≡ false
        → (recheck platform account payload case_revision moment stop a s).1 ≡ s
    unfolding recheck recheck_grant
    recheck_rejects h = elim (Option-cases (live_grant account a s)) [
      | inl revoked ↦ ground arith
      | inr (g, live) ↦ ground arith
    ]

  -- What a call of `authorize_dispatch` has done: it authorized a dispatchable attestation of the
  -- account and stamped it, or it rejected and wrote nothing.
  abbrev pub Outcome :
      ℕ → ℕ → Payload → ℕ → ℕ → Bool → AuthorityStore → DispatchResult × AuthorityStore → Type 0
  Outcome account id payload case_revision moment stop s r =
      ((a : Attestation) × (g : Grant) × (find_attestation account id s ≡ some a)
        × Dispatchable account payload case_revision moment stop a g s
        × (r ≡ (record { authorized = true; reason = DenyReason.no_objection }, stamp moment a s)))
      ⊎ ((r.0.authorized ≡ false) × (r.1 ≡ s))

  recheck-Outcome :
      (account id : ℕ) (payload : Payload) (case_revision moment : ℕ) (stop : Bool)
      (a : Attestation) (s : AuthorityStore)
      → find_attestation account id s ≡ some a
      → Outcome account id payload case_revision moment stop s
          (recheck platform account payload case_revision moment stop a s)
  recheck-Outcome account id payload case_revision moment stop a s found =
      elim (Bool-cases
        (recheck platform account payload case_revision moment stop a s).0.authorized) [
          | inl yes_authorized ↦
              let (g, d, e) =
                recheck-Dispatchable account payload case_revision moment stop a s yes_authorized in
              inl (a, g, found, d, e)
          | inr no_authority ↦ inr (
            no_authority,
            recheck_rejects account payload case_revision moment stop a s no_authority,
          )
        ]

  authorize_found :
      (account id : ℕ) (payload : Payload) (case_revision moment : ℕ) (stop : Bool)
      (a : Attestation) (s : AuthorityStore)
      → find_attestation account id s ≡ some a
      → authorize_dispatch platform account id payload case_revision moment stop s
        ≡ recheck platform account payload case_revision moment stop a s
  unfolding authorize_dispatch
  authorize_found account id payload case_revision moment stop a s e =
      rw (e, authorize_dispatch) refl

  authorize_missing :
      (account id : ℕ) (payload : Payload) (case_revision moment : ℕ) (stop : Bool)
      (s : AuthorityStore)
      → find_attestation account id s ≡ none
      → authorize_dispatch platform account id payload case_revision moment stop s
        ≡ reject DenyReason.denied_authority s
  unfolding authorize_dispatch
  authorize_missing account id payload case_revision moment stop s e =
      rw (e, authorize_dispatch) refl

  -- Every call of `authorize_dispatch` either finds an attestation of the account that may be
  -- dispatched now, authorizes and stamps it with the moment, or rejects and leaves the store.
  pub authorize_dispatch-Outcome :
      (account id : ℕ) (payload : Payload) (case_revision moment : ℕ) (stop : Bool)
      (s : AuthorityStore)
      → Outcome account id payload case_revision moment stop s
          (authorize_dispatch platform account id payload case_revision moment stop s)
  unfolding authorize_dispatch
  authorize_dispatch-Outcome account id payload case_revision moment stop s =
      by_row (find_attestation account id s) refl
    where
      by_row :
          (o : Option Attestation)
          → find_attestation account id s ≡ o
          → Outcome account id payload case_revision moment stop s
              (authorize_dispatch platform account id payload case_revision moment stop s)
      by_row none e =
          subst (Outcome account id payload case_revision moment stop s)
            (sym (authorize_missing account id payload case_revision moment stop s e))
            (inr (refl, refl))
      by_row (some a) e =
          subst (Outcome account id payload case_revision moment stop s)
            (sym (authorize_found account id payload case_revision moment stop a s e))
            (recheck-Outcome account id payload case_revision moment stop a s e)

  -- An attestation of the account is authorized exactly when it may be dispatched now.
  pub authorized_iff_Dispatchable :
      (account id : ℕ) (payload : Payload) (case_revision moment : ℕ) (stop : Bool)
      (a : Attestation) (s : AuthorityStore)
      → find_attestation account id s ≡ some a
      → ((authorize_dispatch platform account id payload case_revision moment stop s).0.authorized
          ≡ true)
        ↔ ((g : Grant) × Dispatchable account payload case_revision moment stop a g s)
  unfolding authorize_dispatch
  authorized_iff_Dispatchable account id payload case_revision moment stop a s found = (
    λ h.
        let (g, d, e) =
          recheck-Dispatchable account payload case_revision moment stop a s
            (rw (found, authorize_dispatch) at h) in
        (g, d),
    λ (g, d).
        rw (found, authorize_dispatch)
          (Dispatchable-recheck account payload case_revision moment stop a s g d),
  )
