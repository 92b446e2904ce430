-- ===== src/Control/Canary.antt =====
-- The admission and the scope of a canary, and the configuration's flags, of
-- packages/shared/eastmed_shared/reconciliation/canary.py.
use mari_time_system.Prelude.{
  ℕ, ◌≡◌, refl, sym, ap, ◌∙◌, ==-refl, String, str_eq, List, [], ◌∷◌, Bool, true, false, false≢true,
  not, ◌&&◌, ◌==◌, ◌↔◌, arith, ℤ, pos, negsuc, ◌≤ℤ◌, ltb_ℤ, leb_ℤ, if◌then◌else◌, any, select,
  Bool-cases, inl, inr,
}

pub data CanaryPrereq : Type 0 where
  schema arithmetic isolation authority durability fault : CanaryPrereq

abbrev pub prereq_index : CanaryPrereq → ℕ
prereq_index CanaryPrereq.schema = 0
prereq_index CanaryPrereq.arithmetic = 1
prereq_index CanaryPrereq.isolation = 2
prereq_index CanaryPrereq.authority = 3
prereq_index CanaryPrereq.durability = 4
prereq_index CanaryPrereq.fault = 5

-- All prerequisites, in the order of their texts.
abbrev pub required_prereqs : List CanaryPrereq
required_prereqs =
    CanaryPrereq.arithmetic ∷ CanaryPrereq.authority ∷ CanaryPrereq.durability ∷ CanaryPrereq.fault
    ∷ CanaryPrereq.isolation ∷ CanaryPrereq.schema ∷ []

-- A frozen set is a list, read by membership only.
abbrev pub has_prereq : CanaryPrereq → List CanaryPrereq → Bool
has_prereq p passed = any (λ q. prereq_index p == prereq_index q) passed

pub record CanaryManifest : Type 0 where
  pub tenants : List String
  pub workflows : List String
  pub sources : List String
  pub max_writes : ℤ
  pub qualified_manifest_id : String
  pub rollback_runbook_id : String

pub record CanaryAdmission : Type 0 where
  pub admitted : Bool
  pub reason : String
  pub missing_prereqs : List CanaryPrereq

-- `sorted(p.value for p in REQUIRED_PREREQS - passed_prereqs)`: a prerequisite stands for its text.
abbrev pub missing_of : List CanaryPrereq → List CanaryPrereq
missing_of passed = select (λ p. not (has_prereq p passed)) required_prereqs

abbrev pub is_nonempty : List CanaryPrereq → Bool
is_nonempty [] = false
is_nonempty (x ∷ xs) = true

-- The answer, once it is known what is missing.
unfoldable pub answer : CanaryManifest → List CanaryPrereq → Bool → CanaryAdmission
answer manifest missing release_arithmetic_ok =
    if is_nonempty missing
    then record {
      admitted = false;
      reason = "deployment prerequisites incomplete";
      missing_prereqs = missing;
    }
    else if not release_arithmetic_ok
    then record {
      admitted = false;
      reason = "independent arithmetic fixtures must pass";
      missing_prereqs = [];
    }
    else if ltb_ℤ manifest.max_writes (pos 0)
    then record {
      admitted = false;
      reason = "write limit must be non-negative";
      missing_prereqs = [];
    }
    else record {
      admitted = true;
      reason = "canary admitted within its declared scope";
      missing_prereqs = [];
    }

unfoldable pub canary_admission : CanaryManifest → List CanaryPrereq → Bool → CanaryAdmission
canary_admission manifest passed release_arithmetic_ok =
    answer manifest (missing_of passed) release_arithmetic_ok

abbrev pub canary_scope_ok : CanaryManifest → String → String → String → ℤ → Bool
canary_scope_ok manifest tenant workflow source writes_used =
    any (str_eq tenant) manifest.tenants
    && any (str_eq workflow) manifest.workflows
    && any (str_eq source) manifest.sources
    && leb_ℤ (pos 0) writes_used
    && leb_ℤ writes_used manifest.max_writes

-- When a canary is admitted, and what a refusal lists as missing.
pub record Admitted (manifest : CanaryManifest) (passed : List CanaryPrereq) (arithmetic_ok : Bool)
    (a : CanaryAdmission) : Type 0 where
  pub admitted_iff : (a.admitted ≡ true) ↔ (
      ((p : CanaryPrereq) → has_prereq p passed ≡ true)
      × (arithmetic_ok ≡ true)
      × (pos 0 ≤ℤ manifest.max_writes))
  pub missing_iff :
      (p : CanaryPrereq) → (has_prereq p a.missing_prereqs ≡ true) ↔ (has_prereq p passed ≡ false)

any-select :
    (p : CanaryPrereq) (has : CanaryPrereq → Bool) (xs : List CanaryPrereq)
    → has_prereq p (select (λ q. not (has q)) xs)
      ≡ any (λ q. (prereq_index p == prereq_index q) && not (has q)) xs
any-select p has [] = refl
any-select p has (q ∷ xs) = elim (Bool-cases (has q)) [
  | inl h ↦ ground (arith, h, any-select p has xs)
  | inr h ↦ ground (arith, h, any-select p has xs)
]

not_has :
    (p : CanaryPrereq) (has : CanaryPrereq → Bool)
    → any (λ q. (prereq_index p == prereq_index q) && not (has q)) required_prereqs ≡ not (has p)
not_has CanaryPrereq.schema has = ground arith
not_has CanaryPrereq.arithmetic has = ground arith
not_has CanaryPrereq.isolation has = ground arith
not_has CanaryPrereq.authority has = ground arith
not_has CanaryPrereq.durability has = ground arith
not_has CanaryPrereq.fault has = ground arith

has_prereq-missing_of :
    (p : CanaryPrereq) (passed : List CanaryPrereq)
    → has_prereq p (missing_of passed) ≡ not (has_prereq p passed)
has_prereq-missing_of p passed =
    any-select p (λ q. has_prereq q passed) required_prereqs ∙ not_has p (λ q. has_prereq q passed)

nothing_listed :
    (xs : List CanaryPrereq) → is_nonempty xs ≡ false → (p : CanaryPrereq) → has_prereq p xs ≡ false
nothing_listed [] h p = refl
nothing_listed (x ∷ xs) h p = absurd (false≢true (sym h))

something_listed :
    (xs : List CanaryPrereq) → is_nonempty xs ≡ true → (p : CanaryPrereq) × (has_prereq p xs ≡ true)
something_listed [] h = absurd (false≢true h)
something_listed (x ∷ xs) h = (x, rw (==-refl (prereq_index x)) refl)

non_negative : (n : ℤ) → ltb_ℤ n (pos 0) ≡ false ↔ (pos 0 ≤ℤ n)
non_negative (pos n) = ((λ h. ground arith), (λ h. ground arith))
non_negative (negsuc n) = ((λ h. ground arith), (λ h. ground arith))

module _ (manifest : CanaryManifest) (passed missing : List CanaryPrereq)
    (exact : (p : CanaryPrereq) → has_prereq p missing ≡ not (has_prereq p passed)) where
  not_passed : (p : CanaryPrereq) → (has_prereq p missing ≡ true) ↔ (has_prereq p passed ≡ false)
  not_passed p = ((λ h. ground (arith, exact p)), (λ h. ground (arith, exact p)))

  all_passed : is_nonempty missing ≡ false → (p : CanaryPrereq) → has_prereq p passed ≡ true
  all_passed h p = ground (arith, exact p, nothing_listed missing h p)

  none_missing :
      is_nonempty missing ≡ false
      → (p : CanaryPrereq) → (false ≡ true) ↔ (has_prereq p passed ≡ false)
  none_missing h p = ((λ e. absurd (false≢true e)), (λ e. sym e ∙ all_passed h p))

  incomplete : is_nonempty missing ≡ true → ((p : CanaryPrereq) → has_prereq p passed ≡ true) → ⊥
  incomplete h complete =
      let (p, listed) = something_listed missing h in
      false≢true (ap not (sym (complete p)) ∙ sym (exact p) ∙ listed)

  answer-Admitted :
      (arithmetic_ok : Bool)
      → Admitted manifest passed arithmetic_ok (answer manifest missing arithmetic_ok)
  unfolding answer
  answer-Admitted arithmetic_ok = elim (Bool-cases (is_nonempty missing)) [
    | inl h ↦ rw h (record {
      admitted_iff = ((λ e. absurd (false≢true e)), (λ met. absurd (incomplete h met.0)));
      missing_iff = not_passed;
    })
    | inr h ↦ elim (Bool-cases arithmetic_ok) [
      | inr unproven ↦
          rw (h, unproven)
            (record {
              admitted_iff = ((λ e. absurd (false≢true e)), (λ met. absurd (false≢true met.1)));
              missing_iff = none_missing h;
            })
      | inl sums ↦ elim (Bool-cases (ltb_ℤ manifest.max_writes (pos 0))) [
        | inl negative ↦
            rw (h, sums, negative)
              (record {
                admitted_iff = (
                  (λ e. absurd (false≢true e)),
                  (λ met.
                      absurd
                        (false≢true (sym ((non_negative manifest.max_writes).1 met.2) ∙ negative))),
                );
                missing_iff = none_missing h;
              })
        | inr limit ↦
            rw (h, sums, limit)
              (record {
                admitted_iff = (
                  (λ e. (all_passed h, refl, (non_negative manifest.max_writes).0 limit)),
                  (λ met. refl),
                );
                missing_iff = none_missing h;
              })
      ]
    ]
  ]

-- A canary is admitted exactly when every prerequisite has passed, the release arithmetic holds and
-- the write limit is not negative; an answer lists exactly the prerequisites that have not passed.
pub canary_admission-Admitted :
    (manifest : CanaryManifest) (passed : List CanaryPrereq) (arithmetic_ok : Bool)
    → Admitted manifest passed arithmetic_ok (canary_admission manifest passed arithmetic_ok)
unfolding canary_admission
canary_admission-Admitted manifest passed =
    answer-Admitted manifest passed (missing_of passed) (λ p. has_prereq-missing_of p passed)

-- An admitted canary may make its first write for every tenant, workflow and source that it declares.
pub admitted-scope :
    (manifest : CanaryManifest) (passed : List CanaryPrereq) (arithmetic_ok : Bool)
    (tenant workflow source : String)
    → (canary_admission manifest passed arithmetic_ok).admitted ≡ true
    → canary_scope_ok manifest tenant workflow source (pos 0) ≡ (
        any (str_eq tenant) manifest.tenants
        && any (str_eq workflow) manifest.workflows
        && any (str_eq source) manifest.sources)
admitted-scope manifest passed arithmetic_ok tenant workflow source admitted =
    ground
      (arith, ((canary_admission-Admitted manifest passed arithmetic_ok).admitted_iff.0 admitted).2)
