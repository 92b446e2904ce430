-- ===== src/Authority/Dispatch/Once.antt =====
-- One logical action is dispatched at most once, whatever attestations are recorded for it.
use mari_time_system.Prelude.{
  ℕ, ◌+◌, ◌≤◌, ◌≡◌, refl, sym, subst, String, Option, none, some, List, [], ◌∷◌, ◌++◌, Bool, true,
  false, ◌&&◌, ◌==◌, arith, str_eq, eq_iff, if◌then◌else◌, any, get_row, get_row-key, total,
  total-append, total-save_row, Option-cases, Bool-cases, inl, inr, Result, ok, err,
}
use mari_time_system.Authority.Policy.{ActionRequest, DenyReason, evaluate_policy}
use mari_time_system.Authority.Attestation.{
  AttestationDecision, Grant, Principal, Attestation, AuthorityStore, Platform, principal_key,
  principal_view, decision_of, record_attestation, attest_resolved, attest_action, resolve_grant,
  resolve_principal,
}
use mari_time_system.Authority.Dispatch.{
  find_attestation, same_dispatched, stamp, authorize_dispatch,
}
use mari_time_system.Authority.Dispatch.Recheck.{Dispatchable, authorize_dispatch-Outcome}
use mari_time_system.Authority.Dispatch.Standing.{not_dispatched}

-- How many attestations of the action are stamped as dispatched.
abbrev pub dispatched : ℕ → String → Attestation → ℕ
dispatched account key a = if same_dispatched account key a then 1 else 0

abbrev pub dispatches : ℕ → String → AuthorityStore → ℕ
dispatches account key s = total (dispatched account key) s.attestations

-- The events: an action is attested, a dispatch is requested, or provisioning replaces the grants
-- and the principals.
pub data AuthorityOp (Payload : Type 0) : Type 0 where
  attest :
      (new_id account : ℕ) (request : ActionRequest Payload) (moment : ℕ) (stop : Bool)
      → AuthorityOp Payload
  dispatch :
      (account id : ℕ) (payload : Payload) (case_revision moment : ℕ) (stop : Bool)
      → AuthorityOp Payload
  provision : (principals : List Principal) (grants : List Grant) → AuthorityOp Payload

abbrev after_attest : AuthorityStore → Result (Attestation × AuthorityStore) → AuthorityStore
after_attest s (ok (a, s')) = s'
after_attest s (err e) = s

module _ {Payload : Type 0} (platform : Platform Payload) where
  unfoldable pub authority_step : AuthorityOp Payload → AuthorityStore → AuthorityStore
  authority_step (attest new_id account request moment stop) s =
      after_attest s (attest_action platform new_id account request moment stop s)
  authority_step (dispatch account id payload case_revision moment stop) s =
      (authorize_dispatch platform account id payload case_revision moment stop s).1
  authority_step (provision principals grants) s = record s {
    principals = principals;
    grants = grants;
  }

  unfoldable pub authority_run : List (AuthorityOp Payload) → AuthorityStore → AuthorityStore
  authority_run [] s = s
  authority_run (op ∷ ops) s = authority_run ops (authority_step op s)

  record_attestation-appends :
      (new_id account : ℕ) (request : ActionRequest Payload) (decision : AttestationDecision)
      (reason : DenyReason) (hash : String) (grant : Option Grant)
      (principal_id expires_at : Option ℕ) (s s' : AuthorityStore) (a : Attestation)
      → record_attestation platform new_id account request decision reason hash grant principal_id
          expires_at s
        ≡ ok (a, s')
      → (s'.attestations ≡ s.attestations ++ a ∷ []) × (a.dispatched_at ≡ none)
  unfolding record_attestation
  record_attestation-appends new_id account request decision reason hash grant principal_id
        expires_at s s' a e =
      elim (Option-cases (platform.parse_uuid request.case_id)) [
        | inl bad ↦ absurd (ground arith)
        | inr (case_id, good) ↦ ground arith
      ]

  attest_resolved-appends :
      (new_id account : ℕ) (request : ActionRequest Payload) (moment : ℕ) (stop : Bool)
      (g : Option Grant) (p : Option Principal) (s s' : AuthorityStore) (a : Attestation)
      → attest_resolved platform new_id account request moment stop g p s ≡ ok (a, s')
      → (s'.attestations ≡ s.attestations ++ a ∷ []) × (a.dispatched_at ≡ none)
  unfolding attest_resolved
  attest_resolved-appends new_id account request moment stop none p s s' a e =
      record_attestation-appends new_id account request AttestationDecision.deny
        DenyReason.missing_policy (platform.canonical_payload_hash request.payload) none
        (principal_key platform p) none s s' a e
  attest_resolved-appends new_id account request moment stop (some g) none s s' a e =
      record_attestation-appends new_id account request AttestationDecision.deny
        DenyReason.principal_inactive (platform.canonical_payload_hash request.payload) (some g)
        none none s s' a e
  attest_resolved-appends new_id account request moment stop (some g) (some p) s s' a e =
      let d =
        evaluate_policy platform.canonical_payload_hash request g.terms (principal_view platform p)
          moment stop in
      record_attestation-appends new_id account request (decision_of platform d.allowed) d.reason
        d.payload_hash (some g) (some p.id) d.expires_at s s' a e

  attest_action-appends :
      (new_id account : ℕ) (request : ActionRequest Payload) (moment : ℕ) (stop : Bool)
      (s s' : AuthorityStore) (a : Attestation)
      → attest_action platform new_id account request moment stop s ≡ ok (a, s')
      → (s'.attestations ≡ s.attestations ++ a ∷ []) × (a.dispatched_at ≡ none)
  unfolding attest_action
  attest_action-appends new_id account request moment stop s s' a e =
      attest_resolved-appends new_id account request moment stop
        (resolve_grant account request.capability s)
        (resolve_principal account request.principal_subject s) s s' a e

  -- A stamped attestation of one action adds one to that action's count and nothing to another's.
  stamp_counts :
      (account : ℕ) (key : String) (moment : ℕ) (a : Attestation) (s : AuthorityStore)
      → get_row (λ x. x.id) a.id s.attestations ≡ some a
      → a.dispatched_at ≡ none
      → dispatches account key (stamp moment a s)
        ≡ dispatches account key s
          + (if a.account_id == account && str_eq a.action_key key then 1 else 0)
  stamp_counts account key moment a s stored undispatched = ground (
    arith,
    total-save_row (dispatched account key) (λ x. x.id) (record a { dispatched_at = some moment })
        s.attestations {old = a} stored,
  )

  none_dispatched :
      (account : ℕ) (key : String) (xs : List Attestation)
      → any (same_dispatched account key) xs ≡ false
      → total (dispatched account key) xs ≡ 0
  none_dispatched account key [] h = refl
  none_dispatched account key (x ∷ xs) h = ground (arith, none_dispatched account key xs)

  found_row :
      (account id : ℕ) (s : AuthorityStore) (a : Attestation)
      → find_attestation account id s ≡ some a
      → (get_row (λ x. x.id) a.id s.attestations ≡ some a) × (a.account_id ≡ account)
  unfolding find_attestation
  found_row account id s a e = elim (Option-cases (get_row (λ x. x.id) id s.attestations)) [
    | inl missing ↦ absurd (ground arith)
    | inr (u, found) ↦
        let same : u ≡ a = ground arith in
        let row = subst (λ x. get_row (λ y. y.id) id s.attestations ≡ some x) same found in
        let key = get_row-key (λ x. x.id) id s.attestations row in
        (subst (λ k. get_row (λ x. x.id) k s.attestations ≡ some a) (sym key) row, ground arith)
  ]

  dispatch-once :
      (A : ℕ) (key : String) (account id : ℕ) (payload : Payload) (case_revision moment : ℕ)
      (stop : Bool) (s : AuthorityStore)
      → dispatches A key s ≤ 1
      → dispatches A key
          (authorize_dispatch platform account id payload case_revision moment stop s).1
        ≤ 1
  dispatch-once A key account id payload case_revision moment stop s h =
      elim (authorize_dispatch-Outcome platform account id payload case_revision moment stop s) [
        | inr (refused, same) ↦ subst (λ x. dispatches A key x ≤ 1) (sym same) h
        | inl (a, g, found, d, e) ↦
            subst (λ r. dispatches A key r.1 ≤ 1) (sym e) (stamped a g found d)
      ]
    where
      first_of_its_action :
          (a : Attestation) (g : Grant)
          → a.account_id ≡ account
          → Dispatchable platform account payload case_revision moment stop a g s
          → (a.account_id == A && str_eq a.action_key key) ≡ true
          → dispatches A key s ≡ 0
      first_of_its_action a g mine d match =
          let acc : account ≡ A = ground arith in
          let k : a.action_key ≡ key = (eq_iff _ _).0 (ground arith) in
          subst (λ x. dispatches x key s ≡ 0) acc
            (subst (λ x. dispatches account x s ≡ 0) k
              (none_dispatched account a.action_key s.attestations
                (not_dispatched account a.action_key s.attestations d.first_dispatch)))

      stamped :
          (a : Attestation) (g : Grant)
          → find_attestation account id s ≡ some a
          → Dispatchable platform account payload case_revision moment stop a g s
          → dispatches A key (stamp moment a s) ≤ 1
      stamped a g found d =
          let (row, mine) = found_row account id s a found in
          elim (Bool-cases (a.account_id == A && str_eq a.action_key key)) [
            | inl match ↦
                rw (stamp_counts A key moment a s row d.undispatched)
                  (rw match (omega (arith, first_of_its_action a g mine d match)))
            | inr other ↦
                rw (stamp_counts A key moment a s row d.undispatched) (rw other (omega (arith, h)))
          ]

  attest-once :
      (A : ℕ) (key : String) (new_id account : ℕ) (request : ActionRequest Payload) (moment : ℕ)
      (stop : Bool) (s : AuthorityStore)
      → dispatches A key s ≤ 1
      → (r : Result (Attestation × AuthorityStore))
      → attest_action platform new_id account request moment stop s ≡ r
      → dispatches A key (after_attest s r) ≤ 1
  attest-once A key new_id account request moment stop s h (err e) q = h
  attest-once A key new_id account request moment stop s h (ok (a, s')) q =
      let (appended, undispatched) =
        attest_action-appends new_id account request moment stop s s' a q in
      subst (λ xs. total (dispatched A key) xs ≤ 1) (sym appended)
        (omega (
          arith,
          total-append (dispatched A key) s.attestations (a ∷ []),
          weightless a undispatched,
          h,
        ))
    where
      weightless : (a : Attestation) → a.dispatched_at ≡ none → dispatched A key a ≡ 0
      weightless a e = ground arith

  authority_step-once :
      (A : ℕ) (key : String) (op : AuthorityOp Payload) (s : AuthorityStore)
      → dispatches A key s ≤ 1
      → dispatches A key (authority_step op s) ≤ 1
  unfolding authority_step
  authority_step-once A key (attest new_id account request moment stop) s h =
      attest-once A key new_id account request moment stop s h
        (attest_action platform new_id account request moment stop s) refl
  authority_step-once A key (dispatch account id payload case_revision moment stop) s h =
      dispatch-once A key account id payload case_revision moment stop s h
  authority_step-once A key (provision principals grants) s h = h

  -- Over any interleaving of attestations, dispatch requests and changes of provisioning, an
  -- account's logical action is dispatched at most once, if it was at most once at the start.
  pub dispatched_at_most_once :
      (A : ℕ) (key : String) (ops : List (AuthorityOp Payload)) (s : AuthorityStore)
      → dispatches A key s ≤ 1
      → dispatches A key (authority_run ops s) ≤ 1
  unfolding authority_run
  dispatched_at_most_once A key [] s h = h
  dispatched_at_most_once A key (op ∷ ops) s h =
      dispatched_at_most_once A key ops (authority_step op s) (authority_step-once A key op s h)
