-- ===== src/Verification/Completes.antt =====
-- When a case completes: `verify_case_result` with `finalize_case_status`, of
-- packages/shared/eastmed_shared/reconciliation/verifier.py.
use mari_time_system.Prelude.{
  ℕ, ◌<◌, ◌≡◌, refl, sym, subst, inl, inr, ◌↔◌, Option, none, some, List, [], ◌∷◌, ◌++◌, Bool, true,
  false, false≢true, any, is_some, length, All, Result, ok, err, ◌>>=◌, arith, Bool-cases,
  ok-injective, some-injective,
}
use mari_time_system.Verification.Verifier.{
  Pass, verify_items, is_unstated, unstated_findings, no_findings, conclude, shapeless,
  verify_case_result, finalize_case_status,
}
use mari_time_system.Verification.Values.{
  Item, EvidenceFact, VerificationVerdict, VerificationFinding, Key, same_key, fact_key,
}
use mari_time_system.Verification.Sound.{
  Accurate, append_nil_parts, verify_items-Accurate, Accurate-verify_items, verify_items-counts,
}

-- Every fact with a plan is stated under its own key.
abbrev pub Covered : List Key → List EvidenceFact → Type 0
Covered keys =
    All (λ fact. is_some fact.planned ≡ true → any (same_key (fact_key fact)) keys ≡ true)

pub record Completes (variances : Option (List Item)) (evidence : List EvidenceFact)
    (has_unresolved : Bool) : Type 0 where
  pub items : List Item
  pub keys : List Key
  pub listed : variances ≡ some items
  pub accurate : Accurate evidence [] items keys
  pub some_checked : 0 < length keys
  pub covered : Covered keys evidence
  pub resolved : has_unresolved ≡ false

Covered-of_none :
    (keys : List Key) (evidence : List EvidenceFact)
    → unstated_findings keys evidence ≡ []
    → Covered keys evidence
Covered-of_none keys [] h = tt
Covered-of_none keys (fact ∷ facts) h = elim (Bool-cases (is_unstated keys fact)) [
  | inl bad ↦ absurd (ground arith)
  | inr fine ↦ ((λ planned. ground arith), Covered-of_none keys facts (rw fine at h))
]

none_of_Covered :
    (keys : List Key) (evidence : List EvidenceFact)
    → Covered keys evidence
    → unstated_findings keys evidence ≡ []
none_of_Covered keys [] c = refl
none_of_Covered keys (fact ∷ facts) c = elim (Bool-cases (is_some fact.planned)) [
  | inl planned ↦ rw (planned, c.0 planned) (none_of_Covered keys facts c.1)
  | inr bare ↦ rw bare (none_of_Covered keys facts c.1)
]

none_listed : {items : List Item} → none ≡ some items → ⊥
none_listed h = cc

no_findings_nil : (xs : List VerificationFinding) → no_findings xs ≡ true → xs ≡ []
no_findings_nil [] h = refl
no_findings_nil (x ∷ xs) h = absurd (false≢true h)

abbrev start : Pass
start = record { findings = []; checked = 0; seen = [] }

module _ (evidence : List EvidenceFact) (has_unresolved : Bool) where
  of_pass :
      (items : List Item) (pass : Pass)
      → verify_items evidence items start ≡ ok pass
      → finalize_case_status (conclude evidence pass) has_unresolved ≡ true
      → Completes (some items) evidence has_unresolved
  unfolding finalize_case_status
  of_pass items pass e h =
      let verified : no_findings (pass.findings ++ unstated_findings pass.seen evidence) ≡ true =
        ground arith in
      let parts =
        append_nil_parts pass.findings (unstated_findings pass.seen evidence)
          (no_findings_nil (pass.findings ++ unstated_findings pass.seen evidence) verified) in
      record {
        items = items;
        keys = pass.seen;
        listed = refl;
        accurate = (verify_items-Accurate evidence items start pass e parts.0).1;
        some_checked = ground (arith, verify_items-counts evidence items start pass e);
        covered = Covered-of_none pass.seen evidence parts.1;
        resolved = ground arith;
      }

  shapeless_stops :
      {A : Type 0} (verdict : VerificationVerdict)
      → ok shapeless ≡ ok verdict
      → finalize_case_status verdict has_unresolved ≡ true
      → A
  unfolding finalize_case_status
  shapeless_stops verdict e h = absurd (
      false≢true
        (subst (λ v. finalize_case_status v has_unresolved ≡ true) (sym (ok-injective e)) h))

  concluded :
      {variances : Option (List Item)} (c : Completes variances evidence has_unresolved) (n : ℕ)
      → n ≡ length c.keys
      → finalize_case_status
          (conclude evidence (record { findings = []; checked = n; seen = c.keys }))
          has_unresolved
        ≡ true
  unfolding finalize_case_status
  concluded c n e =
      rw (none_of_Covered c.keys evidence c.covered, c.resolved) (ground (arith, c.some_checked))

  no_items :
      {seen after : List Key} {items : List Item}
      → Accurate evidence seen items after
      → items ≡ []
      → length after ≡ length seen
  no_items Accurate.done e = refl
  no_items (Accurate.skip v open_one rest) e = absurd (ground arith)
  no_items (Accurate.check v closed reconciled fresh correct rest) e = absurd (ground arith)

  items_iff :
      (item : Item) (items : List Item)
      → ((verdict : VerificationVerdict) × (verify_case_result (some (item ∷ items)) evidence
            ≡ ok verdict)
          × (finalize_case_status verdict has_unresolved ≡ true))
        ↔ Completes (some (item ∷ items)) evidence has_unresolved
  unfolding verify_case_result
  items_iff item items = (
    (λ (verdict, e, h). by_pass (verify_items evidence (item ∷ items) start) refl verdict e h),
    λ c.
        let (n, e, counted) = Accurate-verify_items evidence (items_of c) 0 in
        let pass : Pass = record { findings = []; checked = n; seen = c.keys } in
        (conclude evidence pass, rw e refl, concluded c n (omega arith)),
  )
    where
      items_of :
          (c : Completes (some (item ∷ items)) evidence has_unresolved)
          → Accurate evidence [] (item ∷ items) c.keys
      items_of c =
          subst (λ xs. Accurate evidence [] xs c.keys) (sym (some-injective c.listed)) c.accurate

      by_pass :
          (m : Result Pass)
          → verify_items evidence (item ∷ items) start ≡ m
          → (verdict : VerificationVerdict)
          → (m >>= λ pass. ok (conclude evidence pass)) ≡ ok verdict
          → finalize_case_status verdict has_unresolved ≡ true
          → Completes (some (item ∷ items)) evidence has_unresolved
      by_pass (err x) q verdict e h = absurd (ground arith)
      by_pass (ok pass) q verdict e h =
          of_pass (item ∷ items) pass q
            (subst (λ v. finalize_case_status v has_unresolved ≡ true) (sym (ok-injective e)) h)

  -- A case completes exactly if its result lists variances which are all declared unresolved or
  -- correct, each under a key of its own, at least one is correct, every fact with a plan is stated,
  -- and nothing is unresolved.
  pub completes_iff :
      (variances : Option (List Item))
      → ((verdict : VerificationVerdict) × (verify_case_result variances evidence ≡ ok verdict)
          × (finalize_case_status verdict has_unresolved ≡ true))
        ↔ Completes variances evidence has_unresolved
  unfolding verify_case_result
  completes_iff none =
      ((λ (verdict, e, h). shapeless_stops verdict e h), λ c. absurd (none_listed c.listed))
  completes_iff (some []) = (
    (λ (verdict, e, h). shapeless_stops verdict e h),
    λ c.
        absurd (omega (arith, c.some_checked, no_items c.accurate (sym (some-injective c.listed)))),
  )
  completes_iff (some (item ∷ items)) = items_iff item items
