-- ===== src/Authority/Policy/Permitted.antt =====
-- What an allowed decision of policy.py certifies, and that nothing else is denied.
use mari_time_system.Prelude.{
  ℕ, ◌+◌, ◌*◌, ◌≤◌, ◌<◌, ◌≡◌, refl, ap, subst, String, some, Bool, true, false, not, ◌&&◌, ◌||◌,
  ◌↔◌, arith, eq_iff, member, subset_iff, is_blank, if◌then◌else◌, ltb, leb, sym, false≢true,
}
use mari_time_system.Authority.Policy.{
  DenyReason, GrantView, PrincipalView, ActionRequest, PolicyDecision, known_capabilities, deny,
  evaluate_policy,
}

-- The request as the grant and the principal permit it at this moment.
pub record Permitted {Payload : Type 0} (request : ActionRequest Payload) (grant : GrantView)
    (principal : PrincipalView) (now : ℕ) (stop_active : Bool) : Type 0 where
  pub recognized : member request.capability known_capabilities ≡ true
  pub subject_matches : principal.subject ≡ request.principal_subject
  pub principal_active : principal.active ≡ true
  pub same_tenant : principal.tenant_id ≡ request.tenant_id
  pub in_scope : member request.capability principal.allowed_scopes ≡ true
  pub running : stop_active ≡ false
  pub grant_active : grant.active ≡ true
  pub capability_matches : grant.capability ≡ request.capability
  pub valid_now : (grant.valid_from ≤ now) × (now < grant.valid_to)
  pub qualified : member request.system_fingerprint grant.qualified_fingerprints ≡ true
  pub deployed : request.system_fingerprint ≡ principal.deployment_fingerprint
  pub case_type_allowed : member request.case_type grant.allowed_case_types ≡ true
  pub evidence_named : is_blank request.evidence_hash ≡ false
  pub evidence_complete :
      (kind : String)
      → member kind grant.required_evidence ≡ true
      → member kind request.provided_evidence ≡ true
  pub destination_allowed : member request.destination grant.allowed_destinations ≡ true
  pub external_allowed : request.requires_external ≡ true → grant.external_messages ≡ true
  pub financial_allowed : request.requires_financial ≡ true → grant.financial_commitments ≡ true

-- A test of the chain that an allowed decision has passed.
passed :
    (c : Bool) (hash : String) (reason : DenyReason) (rest : PolicyDecision)
    → (if c then deny hash reason else rest).allowed ≡ true
    → (c ≡ false) × (rest.allowed ≡ true)
passed true hash reason rest h = absurd (false≢true h)
passed false hash reason rest h = (refl, h)

-- A test of the chain that does not object lets the rest decide.
skipped :
    (c : Bool) (hash : String) (reason : DenyReason) (rest : PolicyDecision) {d : PolicyDecision}
    → c ≡ false
    → rest ≡ d
    → (if c then deny hash reason else rest) ≡ d
skipped true hash reason rest e h = absurd (false≢true (sym e))
skipped false hash reason rest e h = h

not-true : (b : Bool) → not b ≡ false → b ≡ true
not-true true h = refl
not-true false h = sym h

true-not : (b : Bool) → b ≡ true → not b ≡ false
true-not b h = rw h refl

or_false : (a b : Bool) → (a || b) ≡ false → (a ≡ false) × (b ≡ false)
or_false true b h = absurd (false≢true (sym h))
or_false false b h = (refl, h)

false_or : (a b : Bool) → a ≡ false → b ≡ false → (a || b) ≡ false
false_or a b p q = rw (p, q) refl

implies : (a b : Bool) → (a && not b) ≡ false → a ≡ true → b ≡ true
implies a b h k = ground arith

implied : (a b : Bool) → (a ≡ true → b ≡ true) → (a && not b) ≡ false
implied true b h = rw (h refl) refl
implied false b h = refl

between : (a b c : ℕ) → (leb a b && ltb b c) ≡ true → (a ≤ b) × (b < c)
between a b c h = ground arith

bounded : (a b c : ℕ) → (a ≤ b) × (b < c) → (leb a b && ltb b c) ≡ true
bounded a b c h = ground arith

module _ {Payload : Type 0} (canonical_payload_hash : Payload → String)
    (request : ActionRequest Payload) (grant : GrantView) (principal : PrincipalView) (now : ℕ)
    (stop_active : Bool) where
  allowed-Permitted :
      (evaluate_policy canonical_payload_hash request grant principal now stop_active).allowed
        ≡ true
      → Permitted request grant principal now stop_active
  unfolding evaluate_policy
  allowed-Permitted h =
      let p₁ = passed _ _ _ _ h in
      let p₂ = passed _ _ _ _ p₁.1 in
      let p₃ = passed _ _ _ _ p₂.1 in
      let p₄ = passed _ _ _ _ p₃.1 in
      let p₅ = passed _ _ _ _ p₄.1 in
      let p₆ = passed _ _ _ _ p₅.1 in
      let p₇ = passed _ _ _ _ p₆.1 in
      let p₈ = passed _ _ _ _ p₇.1 in
      let p₉ = passed _ _ _ _ p₈.1 in
      let p₁₀ = passed _ _ _ _ p₉.1 in
      let p₁₁ = passed _ _ _ _ p₁₀.1 in
      let p₁₂ = passed _ _ _ _ p₁₁.1 in
      let p₁₃ = passed _ _ _ _ p₁₂.1 in
      let p₁₄ = passed _ _ _ _ p₁₃.1 in
      let subject = or_false _ _ p₂.0 in
      let system = or_false _ _ p₉.0 in
      let evidence = or_false _ _ p₁₁.0 in
      record {
        recognized = not-true _ p₁.0;
        subject_matches = (eq_iff _ _).0 (not-true _ subject.0);
        principal_active = not-true _ subject.1;
        same_tenant = (eq_iff _ _).0 (not-true _ p₃.0);
        in_scope = not-true _ p₄.0;
        running = p₅.0;
        grant_active = not-true _ p₆.0;
        capability_matches = (eq_iff _ _).0 (not-true _ p₇.0);
        valid_now = between _ _ _ (not-true _ p₈.0);
        qualified = not-true _ system.0;
        deployed = (eq_iff _ _).0 (not-true _ system.1);
        case_type_allowed = not-true _ p₁₀.0;
        evidence_named = evidence.0;
        evidence_complete = (subset_iff _ _).0 (not-true _ evidence.1);
        destination_allowed = not-true _ p₁₂.0;
        external_allowed = implies _ _ p₁₃.0;
        financial_allowed = implies _ _ p₁₄.0;
      }

  granted : PolicyDecision
  granted = record {
    allowed = true;
    reason = DenyReason.no_objection;
    payload_hash = canonical_payload_hash request.payload;
    expires_at = some (now + grant.attestation_ttl_seconds * 1000000);
    signing_key_id = some grant.signing_key_id;
  }

  Permitted-granted :
      Permitted request grant principal now stop_active
      → evaluate_policy canonical_payload_hash request grant principal now stop_active ≡ granted
  unfolding evaluate_policy granted
  Permitted-granted p = skipped _ _ _ _ (true-not _ p.recognized) (
      skipped _ _ _ _
        (false_or _ _ (true-not _ ((eq_iff _ _).1 p.subject_matches))
          (true-not _ p.principal_active))
        (skipped _ _ _ _ (true-not _ ((eq_iff _ _).1 p.same_tenant)) (
          skipped _ _ _ _ (true-not _ p.in_scope) (
            skipped _ _ _ _ p.running (
              skipped _ _ _ _ (true-not _ p.grant_active) (
                skipped _ _ _ _ (true-not _ ((eq_iff _ _).1 p.capability_matches)) (
                  skipped _ _ _ _ (true-not _ (bounded _ _ _ p.valid_now)) (
                    skipped _ _ _ _
                      (false_or _ _ (true-not _ p.qualified)
                        (true-not _ ((eq_iff _ _).1 p.deployed)))
                      (skipped _ _ _ _ (true-not _ p.case_type_allowed) (
                        skipped _ _ _ _
                          (false_or _ _ p.evidence_named
                            (true-not _ ((subset_iff _ _).1 p.evidence_complete)))
                          (skipped _ _ _ _ (true-not _ p.destination_allowed) (
                            skipped _ _ _ _ (implied _ _ p.external_allowed)
                              (skipped _ _ _ _ (implied _ _ p.financial_allowed) refl)))))))))))))

  -- What an allowed decision binds: the hash of the exact payload, the grant's signing key, and an
  -- expiry one lifetime of the grant after the moment of the decision.
  pub record Binds (d : PolicyDecision) : Type 0 where
    pub hash_bound : d.payload_hash ≡ canonical_payload_hash request.payload
    pub no_reason : d.reason ≡ DenyReason.no_objection
    pub expiry_bound : d.expires_at ≡ some (now + grant.attestation_ttl_seconds * 1000000)
    pub key_bound : d.signing_key_id ≡ some grant.signing_key_id

  granted-Binds : Binds granted
  unfolding granted
  granted-Binds = record {
    hash_bound = refl;
    no_reason = refl;
    expiry_bound = refl;
    key_bound = refl;
  }

  -- The decision allows exactly the permitted requests; an allowed decision binds the payload's
  -- hash, the signing key and the expiry.
  pub allowed_iff_Permitted :
      ((evaluate_policy canonical_payload_hash request grant principal now stop_active).allowed
          ≡ true
        ↔ Permitted request grant principal now stop_active)
      × ((evaluate_policy canonical_payload_hash request grant principal now stop_active).allowed
            ≡ true
          → Binds (evaluate_policy canonical_payload_hash request grant principal now stop_active))
  unfolding granted
  allowed_iff_Permitted = (
    (allowed-Permitted, λ p. ap (λ d. d.allowed) (Permitted-granted p)),
    λ h. subst Binds (sym (Permitted-granted (allowed-Permitted h))) granted-Binds,
  )

-- The hash of a decision of the chain, past one test.
if_deny-payload_hash :
    (c : Bool) (hash : String) (reason : DenyReason) (rest : PolicyDecision)
    → (if c then deny hash reason else rest).payload_hash ≡ (if c then hash else rest.payload_hash)
if_deny-payload_hash true hash reason rest = refl
if_deny-payload_hash false hash reason rest = refl

same_either_way : (c : Bool) (hash : String) → (if c then hash else hash) ≡ hash
same_either_way true hash = refl
same_either_way false hash = refl

module _ {Payload : Type 0} (canonical_payload_hash : Payload → String)
    (request : ActionRequest Payload) (grant : GrantView) (principal : PrincipalView) (now : ℕ)
    (stop_active : Bool) where
  -- A decision, allow or denial, records the hash of the exact payload that it judged.
  pub decision_hash :
      (evaluate_policy canonical_payload_hash request grant principal now stop_active).payload_hash
      ≡ canonical_payload_hash request.payload
  unfolding evaluate_policy
  decision_hash = simp (if_deny-payload_hash, same_either_way) refl
