-- ===== src/Verification/Sound.antt =====
-- When the loop of `verify_case_result`, in packages/shared/eastmed_shared/reconciliation/verifier.py,
-- finds nothing.
use mari_time_system.Prelude.{
  ℕ, ◌+◌, ◌≡◌, ◌≢◌, refl, sym, ap, subst, ◌∙◌, inl, inr, Option, none, some, List, [], ◌∷◌, ◌++◌,
  Bool, true, false, any, length, Result, ok, err, ◌>>=◌, arith, Bool-cases, ok-injective,
}
use mari_time_system.Verification.Verifier.{
  Pass, after_check, shape_finding, finding_for, repeated_finding, verify_reconciled, verify_item,
  verify_items,
}
use mari_time_system.Verification.Values.{
  Value, same, Variance, Item, VerifyReason, EvidenceFact, VerificationFinding, Key, same_key,
  variance_key, printed_or_empty,
}
use mari_time_system.Verification.Accurate.{Correct, verify_reconciled_iff_Correct}

abbrev pub is_unresolved : Variance → Bool
is_unresolved v = same v.status (Value.text "unresolved")

abbrev pub is_reconciled : Variance → Bool
is_reconciled v = same v.status (Value.text "reconciled")

-- From the keys seen so far to those seen at the end: each variance is declared unresolved, or it is
-- reconciled, correct, and the first one with its key.
pub data Accurate (evidence : List EvidenceFact) : List Key → List Item → List Key → Type 0 where
  done : {seen : List Key} → Accurate evidence seen [] seen
  skip :
      {seen after : List Key} {items : List Item} (v : Variance)
      → is_unresolved v ≡ true
      → Accurate evidence seen items after
      → Accurate evidence seen (Item.object v ∷ items) after
  check :
      {seen after : List Key} {items : List Item} (v : Variance)
      → is_unresolved v ≡ false
      → is_reconciled v ≡ true
      → any (same_key (variance_key v)) seen ≡ false
      → Correct evidence v
      → Accurate evidence (variance_key v ∷ seen) items after
      → Accurate evidence seen (Item.object v ∷ items) after

pub append_nil_parts {ℓ} : {A : Type ℓ} (xs ys : List A) → xs ++ ys ≡ [] → (xs ≡ []) × (ys ≡ [])
append_nil_parts [] ys h = (refl, h)
append_nil_parts (x ∷ xs) ys h = absurd (impossible h)
  where
    impossible : x ∷ (xs ++ ys) ≡ [] → ⊥
    impossible k = cc

nonempty_findings : (xs : List VerificationFinding) (f : VerificationFinding) → xs ++ (f ∷ []) ≢ []
nonempty_findings [] f h = cc
nonempty_findings (x ∷ xs) f h = cc

no_repeat :
    (key : Key) (seen : List Key) → repeated_finding key seen ≡ [] → any (same_key key) seen ≡ false
no_repeat key seen h = elim (Bool-cases (any (same_key key) seen)) [
  | inr fresh ↦ fresh
  | inl old ↦ absurd (impossible (rw old at h))
]
  where
    impossible : shape_finding key.fuel_grade ∷ [] ≡ [] → ⊥
    impossible k = cc

no_reason : (grade : Value) (r : Option VerifyReason) → finding_for grade r ≡ [] → r ≡ none
no_reason grade none h = refl
no_reason grade (some r) h = absurd (impossible h)
  where
    impossible : finding_for grade (some r) ≡ [] → ⊥
    impossible k = cc

-- What `after_check` adds to the findings.
abbrev later : Variance → Option VerifyReason → Pass → List VerificationFinding
later v r pass =
    repeated_finding (variance_key v) pass.seen ++ finding_for (printed_or_empty v.fuel_grade) r

module _ (evidence : List EvidenceFact) where
  -- A round that ends with no finding began with none, and its item is accurate.
  verify_item-Accurate :
      (item : Item) (pass next : Pass) (items : List Item) (after : List Key)
      → verify_item evidence item pass ≡ ok next
      → next.findings ≡ []
      → Accurate evidence next.seen items after
      → (pass.findings ≡ []) × Accurate evidence pass.seen (item ∷ items) after
  unfolding verify_item
  verify_item-Accurate Item.not_an_object pass next items after h clean rest = absurd (
      nonempty_findings pass.findings (shape_finding (Value.text ""))
        (ap (λ p. p.findings) (ok-injective h) ∙ clean))
  verify_item-Accurate (Item.object v) pass next items after h clean rest =
      elim (Bool-cases (is_unresolved v)) [
        | inl open_one ↦
            let same_pass : pass ≡ next = ok-injective (rw open_one at h) in
            (
              ap (λ p. p.findings) same_pass ∙ clean,
              Accurate.skip v open_one
                  (subst (λ p. Accurate evidence p.seen items after) (sym same_pass) rest),
            )
        | inr closed ↦ elim (Bool-cases (is_reconciled v)) [
          | inr odd ↦ absurd (
              nonempty_findings pass.findings (shape_finding (Value.text ""))
                (ap (λ p. p.findings) (ok-injective (rw (closed, odd) at h)) ∙ clean))
          | inl reconciled ↦
              by_check (verify_reconciled v evidence) refl closed reconciled
                (rw (closed, reconciled) at h)
        ]
      ]
    where
      by_check :
          (m : Result (Option VerifyReason))
          → verify_reconciled v evidence ≡ m
          → is_unresolved v ≡ false
          → is_reconciled v ≡ true
          → (m >>= λ reason. ok (after_check v reason pass)) ≡ ok next
          → (pass.findings ≡ []) × Accurate evidence pass.seen (Item.object v ∷ items) after
      by_check (err e) q closed reconciled k = absurd (ground arith)
      by_check (ok r) q closed reconciled k =
          let same_pass : after_check v r pass ≡ next = ok-injective k in
          let parts =
            append_nil_parts pass.findings (later v r pass)
              (ap (λ p. p.findings) same_pass ∙ clean) in
          let fresh =
            append_nil_parts (repeated_finding (variance_key v) pass.seen)
              (finding_for (printed_or_empty v.fuel_grade) r) parts.1 in
          let none_found = no_reason (printed_or_empty v.fuel_grade) r fresh.1 in
          (
            parts.0,
            Accurate.check v closed reconciled (no_repeat (variance_key v) pass.seen fresh.0)
                ((verify_reconciled_iff_Correct evidence v).0 (q ∙ ap ok none_found))
                (subst (λ p. Accurate evidence p.seen items after) (sym same_pass) rest),
          )

  pub verify_items-Accurate :
      (items : List Item) (pass last : Pass)
      → verify_items evidence items pass ≡ ok last
      → last.findings ≡ []
      → (pass.findings ≡ []) × Accurate evidence pass.seen items last.seen
  unfolding verify_items
  verify_items-Accurate [] pass last h clean =
      let same_pass : pass ≡ last = ok-injective h in
      (
        ap (λ p. p.findings) same_pass ∙ clean,
        subst (λ p. Accurate evidence pass.seen [] p.seen) same_pass Accurate.done,
      )
  verify_items-Accurate (item ∷ items) pass last h clean =
      by_round (verify_item evidence item pass) refl h
        (λ next k. verify_items-Accurate items next last k clean)
    where
      by_round :
          (m : Result Pass)
          → verify_item evidence item pass ≡ m
          → (m >>= verify_items evidence items) ≡ ok last
          → ((next : Pass)
              → verify_items evidence items next ≡ ok last
              → (next.findings ≡ []) × Accurate evidence next.seen items last.seen)
          → (pass.findings ≡ []) × Accurate evidence pass.seen (item ∷ items) last.seen
      by_round (err e) q k ih = absurd (ground arith)
      by_round (ok next) q k ih =
          verify_item-Accurate item pass next items last.seen q (ih next k).0 (ih next k).1

  -- Accurate items pass the loop with nothing found, and each key that is added is a check.
  pub Accurate-verify_items :
      {seen after : List Key} {items : List Item}
      → Accurate evidence seen items after
      → (checked : ℕ)
      → (n : ℕ) × (verify_items evidence items
            (record { findings = []; checked = checked; seen = seen })
          ≡ ok (record { findings = []; checked = n; seen = after }))
        × (n + length seen ≡ checked + length after)
  unfolding verify_items verify_item
  Accurate-verify_items Accurate.done checked = (checked, refl, refl)
  Accurate-verify_items (Accurate.skip v open_one rest) checked =
      let (n, e, c) = Accurate-verify_items rest checked in (n, rw open_one e, c)
  Accurate-verify_items (Accurate.check v closed reconciled fresh correct rest) checked =
      let (n, e, c) = Accurate-verify_items rest (checked + 1) in
      (
        n,
        rw (closed, reconciled)
            (rw ((verify_reconciled_iff_Correct evidence v).1 correct) (rw fresh e)),
        omega arith,
      )

  verify_item-counts :
      (item : Item) (pass next : Pass)
      → verify_item evidence item pass ≡ ok next
      → next.checked + length pass.seen ≡ pass.checked + length next.seen
  unfolding verify_item
  verify_item-counts Item.not_an_object pass next h = ground arith
  verify_item-counts (Item.object v) pass next h = ground arith

  pub verify_items-counts :
      (items : List Item) (pass last : Pass)
      → verify_items evidence items pass ≡ ok last
      → last.checked + length pass.seen ≡ pass.checked + length last.seen
  unfolding verify_items
  verify_items-counts [] pass last h = ground arith
  verify_items-counts (item ∷ items) pass last h =
      by_round (verify_item evidence item pass) refl h
        (λ next k. verify_items-counts items next last k)
    where
      by_round :
          (m : Result Pass)
          → verify_item evidence item pass ≡ m
          → (m >>= verify_items evidence items) ≡ ok last
          → ((next : Pass)
              → verify_items evidence items next ≡ ok last
              → last.checked + length next.seen ≡ next.checked + length last.seen)
          → last.checked + length pass.seen ≡ pass.checked + length last.seen
      by_round (err e) q k ih = absurd (ground arith)
      by_round (ok next) q k ih = omega (arith, ih next k, verify_item-counts item pass next q)
