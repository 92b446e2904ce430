-- ===== src/Cases/Keyed.antt =====
-- Which fuel grades the groups of packages/pipeline/eastmed_pipeline/reconciliation_case.py cover.
use mari_time_system.Prelude.{
  ℕ, ◌≡◌, refl, ap, ◌∙◌, inl, inr, List, [], ◌∷◌, Bool, true, false, ◌&&◌, ◌||◌, ◌==◌, ==→≡,
  false≢true, any, Bool-cases, arith,
}
use mari_time_system.Calculation.Variance.{FuelGrade, grade_index, same_grade}
use mari_time_system.Cases.Rows.{Observation}
use mari_time_system.Cases.Groups.{GroupKey, key_of, same_group, before, insert_key, group_keys}

-- Rows of a grade, and keys of a grade.
abbrev pub has_grade : FuelGrade → List Observation → Bool
has_grade g = any (λ o. same_grade o.fuel_grade g)

abbrev pub key_grade : FuelGrade → GroupKey → Bool
key_grade g key = same_grade key.grade g

pub or_swap : (a b c : Bool) → (a || (b || c)) ≡ (b || (a || c))
or_swap true true c = refl
or_swap true false c = refl
or_swap false b c = refl

pub or_right : (a b : Bool) → b ≡ true → (a || b) ≡ true
or_right true b h = refl
or_right false b h = h

pub or_same : (a b c : Bool) → a ≡ b → (b || c) ≡ (a || (b || c))
or_same true b c e = rw (← e) refl
or_same false b c e = refl

pub and_left : (a b : Bool) → (a && b) ≡ true → a ≡ true
and_left true b h = refl
and_left false b h = h

pub and_right : (a b : Bool) → (a && b) ≡ true → b ≡ true
and_right true b h = h
and_right false b h = absurd (false≢true h)

pub other_index :
    (a p c g : ℕ) → (p == c) ≡ true → (c == g) ≡ true → (a == g) ≡ false → (a == p) ≡ false
other_index a p c g h k l = ground arith

pub same_index : (a b c : ℕ) → (a == b) ≡ true → (a == c) ≡ (b == c)
same_index a b c h = rw (==→≡ a b h) refl

pub same_group-grade :
    (g : FuelGrade) (k x : GroupKey) → same_group k x ≡ true → key_grade g k ≡ key_grade g x
same_group-grade g k x h =
    same_index (grade_index k.grade) (grade_index x.grade) (grade_index g)
      (and_left _ (k.period_start == x.period_start) (and_left _ (k.period_end == x.period_end) h))

pub any-insert_key :
    (g : FuelGrade) (k : GroupKey) (xs : List GroupKey)
    → any (key_grade g) (insert_key k xs) ≡ (key_grade g k || any (key_grade g) xs)
any-insert_key g k [] = refl
any-insert_key g k (x ∷ xs) = elim (Bool-cases (same_group k x)) [
  | inl same ↦
      rw same (
        or_same (key_grade g k) (key_grade g x) (any (key_grade g) xs)
          (same_group-grade g k x same))
  | inr fresh ↦ elim (Bool-cases (before k x)) [
    | inl first ↦ rw (fresh, first) refl
    | inr later ↦
        rw (fresh, later)
          (ap (λ b. key_grade g x || b) (any-insert_key g k xs)
            ∙ or_swap (key_grade g x) (key_grade g k) (any (key_grade g) xs))
  ]
]

pub any-group_keys :
    (g : FuelGrade) (os : List Observation) → any (key_grade g) (group_keys os) ≡ has_grade g os
unfolding group_keys
any-group_keys g [] = refl
any-group_keys g (o ∷ os) =
    any-insert_key g (key_of o) (group_keys os)
    ∙ ap (λ b. same_grade o.fuel_grade g || b) (any-group_keys g os)
