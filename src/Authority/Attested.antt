-- ===== src/Authority/Attested.antt =====
-- What `attest_action` of reconciliation_policy.py records.
use mari_time_system.Prelude.{
  ℕ, ◌≤◌, ◌≡◌, refl, sym, subst, String, Option, none, some, some-injective, List, [], ◌∷◌, Bool,
  true, false, ◌↔◌, arith, All, All-imp, select, leb, Option-cases, Bool-cases, inl, inr, ok, ◌∙◌,
}
use mari_time_system.Authority.Policy.{DenyReason, ActionRequest, evaluate_policy}
use mari_time_system.Authority.Policy.Permitted.{Permitted, allowed_iff_Permitted, decision_hash}
use mari_time_system.Authority.Attestation.{
  AttestationDecision, Grant, Principal, Attestation, AuthorityStore, Platform, highest_revision,
  is_candidate, resolve_grant, resolve_principal, principal_view, principal_key, decision_of,
  record_attestation, attest_resolved, attest_action,
}

-- The grant that is resolved has the highest policy revision of the candidates.
highest_revision-max :
    (gs : List Grant) (g : Grant)
    → highest_revision gs ≡ some g
    → All (λ h. h.terms.policy_revision ≤ g.terms.policy_revision) gs
unfolding highest_revision
highest_revision-max [] g e = tt
highest_revision-max (x ∷ gs) g e = by_rest (highest_revision gs) refl (highest_revision-max gs)
  where
    raised :
        (h : Grant)
        → h.terms.policy_revision ≤ g.terms.policy_revision
        → All (λ y. y.terms.policy_revision ≤ h.terms.policy_revision) gs
        → All (λ y. y.terms.policy_revision ≤ g.terms.policy_revision) gs
    raised h le below = All-imp gs (λ y k. omega arith) below

    by_rest :
        (o : Option Grant)
        → highest_revision gs ≡ o
        → ((h : Grant)
            → highest_revision gs ≡ some h
            → All (λ y. y.terms.policy_revision ≤ h.terms.policy_revision) gs)
        → All (λ y. y.terms.policy_revision ≤ g.terms.policy_revision) (x ∷ gs)
    by_rest none q below =
        let same : x ≡ g = ground arith in (rw same (omega arith), none_left gs q)
      where
        none_left :
            (ys : List Grant)
            → highest_revision ys ≡ none
            → All (λ y. y.terms.policy_revision ≤ g.terms.policy_revision) ys
        none_left [] r = tt
        none_left (y ∷ ys) r = absurd (ground arith)
    by_rest (some h) q below =
        elim (Bool-cases (leb h.terms.policy_revision x.terms.policy_revision)) [
          | inl le ↦
              let same : x ≡ g = ground arith in
              let low : h.terms.policy_revision ≤ g.terms.policy_revision =
                subst (λ z. h.terms.policy_revision ≤ z.terms.policy_revision) same
                  (ground arith) in
              (
                subst (λ z. x.terms.policy_revision ≤ z.terms.policy_revision) same (omega arith),
                raised h low (below h q),
              )
          | inr gt ↦
              let same : h ≡ g = ground arith in
              let low : x.terms.policy_revision ≤ g.terms.policy_revision =
                subst (λ z. x.terms.policy_revision ≤ z.terms.policy_revision) same
                  (ground arith) in
              (
                low,
                raised h
                    (subst (λ z. h.terms.policy_revision ≤ z.terms.policy_revision) same
                      (omega arith))
                    (below h q),
              )
        ]

resolve_grant-highest :
    (account : ℕ) (capability : String) (s : AuthorityStore) (g : Grant)
    → resolve_grant account capability s ≡ some g
    → All
        (λ h. h.terms.policy_revision ≤ g.terms.policy_revision)
        (select (is_candidate account capability) s.grants)
unfolding resolve_grant
resolve_grant-highest account capability s g e =
    highest_revision-max (select (is_candidate account capability) s.grants) g e

module _ {Payload : Type 0} (platform : Platform Payload) where
  -- The grant and the principal that are resolved, the grant of the highest policy revision among
  -- the account's active ones for the capability, permit the request at this moment.
  pub record Warranted (account : ℕ) (request : ActionRequest Payload) (moment : ℕ) (stop : Bool)
      (s : AuthorityStore) : Type 0 where
    pub grant : Grant
    pub principal : Principal
    pub grant_resolved : resolve_grant account request.capability s ≡ some grant
    pub highest :
        All
          (λ h. h.terms.policy_revision ≤ grant.terms.policy_revision)
          (select (is_candidate account request.capability) s.grants)
    pub principal_resolved : resolve_principal account request.principal_subject s ≡ some principal
    pub permitted : Permitted request grant.terms (principal_view platform principal) moment stop

  -- What an attestation says of the request, whether it allows or denies.
  pub record Receipt (account : ℕ) (request : ActionRequest Payload) (a : Attestation)
      : Type 0 where
    pub payload_bound : a.payload_hash ≡ platform.canonical_payload_hash request.payload
    pub same_account : a.account_id ≡ account
    pub same_key : a.action_key ≡ request.action_key
    pub same_revision : a.case_revision ≡ request.case_revision
    pub same_destination : a.destination ≡ request.destination
    pub same_fingerprint : a.system_fingerprint ≡ request.system_fingerprint
    pub undispatched : a.dispatched_at ≡ none

  recorded :
      (new_id account : ℕ) (request : ActionRequest Payload) (decision : AttestationDecision)
      (reason : DenyReason) (hash : String) (grant : Option Grant)
      (principal_id expires_at : Option ℕ) (s s' : AuthorityStore) (a : Attestation)
      → hash ≡ platform.canonical_payload_hash request.payload
      → record_attestation platform new_id account request decision reason hash grant principal_id
          expires_at s
        ≡ ok (a, s')
      → (a.decision ≡ decision) × Receipt account request a
  unfolding record_attestation
  recorded new_id account request decision reason hash grant principal_id expires_at s s' a same e =
      elim (Option-cases (platform.parse_uuid request.case_id)) [
        | inl bad ↦ absurd (ground arith)
        | inr (case_id, good) ↦ (ground arith, ground arith)
      ]

  allowed_of :
      (d : Bool) (a : Attestation)
      → a.decision ≡ decision_of platform d
      → a.decision ≡ AttestationDecision.allow
      → d ≡ true
  allowed_of true a e h = refl
  allowed_of false a e h = cc

  allow_of :
      (d : Bool) (a : Attestation)
      → a.decision ≡ decision_of platform d
      → d ≡ true
      → a.decision ≡ AttestationDecision.allow
  allow_of true a e h = e
  allow_of false a e h = cc

  -- What the resolved grant and principal lead to.
  resolved :
      (new_id account : ℕ) (request : ActionRequest Payload) (moment : ℕ) (stop : Bool)
      (s s' : AuthorityStore) (a : Attestation) (g : Option Grant) (p : Option Principal)
      → resolve_grant account request.capability s ≡ g
      → resolve_principal account request.principal_subject s ≡ p
      → attest_resolved platform new_id account request moment stop g p s ≡ ok (a, s')
      → ((a.decision ≡ AttestationDecision.allow) ↔ Warranted account request moment stop s)
        × Receipt account request a
  unfolding attest_resolved
  resolved new_id account request moment stop s s' a none p eg ep e =
      let (denied, receipt) =
        recorded new_id account request AttestationDecision.deny DenyReason.missing_policy
          (platform.canonical_payload_hash request.payload) none (principal_key platform p) none s
          s' a refl e in
      ((λ h. cc, λ w. absurd (none_some (sym eg ∙ w.grant_resolved))), receipt)
    where
      none_some : {x : Grant} → none ≡ some x → ⊥
      none_some q = cc
  resolved new_id account request moment stop s s' a (some g) none eg ep e =
      let (denied, receipt) =
        recorded new_id account request AttestationDecision.deny DenyReason.principal_inactive
          (platform.canonical_payload_hash request.payload) (some g) none none s s' a refl e in
      ((λ h. cc, λ w. absurd (none_some (sym ep ∙ w.principal_resolved))), receipt)
    where
      none_some : {x : Principal} → none ≡ some x → ⊥
      none_some q = cc
  resolved new_id account request moment stop s s' a (some g) (some p) eg ep e =
      let v = principal_view platform p in
      let d = evaluate_policy platform.canonical_payload_hash request g.terms v moment stop in
      let (decided, receipt) =
        recorded new_id account request (decision_of platform d.allowed) d.reason d.payload_hash
          (some g) (some p.id) d.expires_at s s' a
          (decision_hash platform.canonical_payload_hash request g.terms v moment stop) e in
      let iff =
        (allowed_iff_Permitted platform.canonical_payload_hash request g.terms v moment stop).0 in
      (
        (
          λ h. record {
            grant = g;
            principal = p;
            grant_resolved = eg;
            highest = resolve_grant-highest account request.capability s g eg;
            principal_resolved = ep;
            permitted = iff.0 (allowed_of d.allowed a decided h);
          },
          λ w. allow_of d.allowed a decided (iff.1 (as_resolved w)),
        ),
        receipt,
      )
    where
      as_resolved :
          Warranted account request moment stop s
          → Permitted request g.terms (principal_view platform p) moment stop
      as_resolved w =
          let same_grant : w.grant ≡ g = some-injective (sym w.grant_resolved ∙ eg) in
          let same_principal : w.principal ≡ p = some-injective (sym w.principal_resolved ∙ ep) in
          subst (λ x. Permitted request x.terms (principal_view platform p) moment stop) same_grant
            (subst (λ x. Permitted request w.grant.terms (principal_view platform x) moment stop)
              same_principal w.permitted)

  -- An attestation is recorded as allow exactly when a grant and a principal are resolved that
  -- permit the request at this moment; allow or denial, it binds the payload's hash, the account,
  -- the action key, the case revision, the destination and the fingerprint of the request, and it
  -- starts undispatched.
  pub attest_action-Receipt :
      (new_id account : ℕ) (request : ActionRequest Payload) (moment : ℕ) (stop : Bool)
      (s s' : AuthorityStore) (a : Attestation)
      → attest_action platform new_id account request moment stop s ≡ ok (a, s')
      → ((a.decision ≡ AttestationDecision.allow) ↔ Warranted account request moment stop s)
        × Receipt account request a
  unfolding attest_action
  attest_action-Receipt new_id account request moment stop s s' a e =
      resolved new_id account request moment stop s s' a _ _ refl refl e
