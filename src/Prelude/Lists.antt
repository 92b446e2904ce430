-- ===== src/Prelude/Lists.antt =====
-- Lists over the native numbers, with Boolean filters as the database queries use them.
use Prim.Native.Nat.{ℕ, zero, suc, ◌+◌, ◌≤◌}
use mathlib.Core.Path.{◌≡◌, refl, sym, subst}
use mathlib.Core.Logic.{◌⊎◌, inl, inr}
use mathlib.Core.Bool.{Bool, true, false, ◌&&◌, ◌||◌}
use mathlib.Core.Option.{Option, none, some}
use mathlib.Core.List.{List, [], ◌∷◌, ◌++◌}
use native.Mathlib.Omega.{arith}
use mari_time_system.Prelude.Tests.{if◌then◌else◌, Bool-cases}

-- Every entry of a list satisfies a predicate.
abbrev pub All {ℓ κ} : {A : Type ℓ} → (A → Type κ) → List A → Type κ
All P [] = Unit
All P (x ∷ xs) = P x × All P xs

-- A value is an entry of a list.
abbrev pub IsIn : {A : Type 0} → A → List A → Type 0
IsIn a [] = ⊥
IsIn a (x ∷ xs) = (a ≡ x) ⊎ IsIn a xs

module _ {ℓ} {A : Type ℓ} where
  abbrev pub length : List A → ℕ
  length [] = 0
  length (x ∷ xs) = suc (length xs)

  abbrev pub take : ℕ → List A → List A
  take zero xs = []
  take (suc n) [] = []
  take (suc n) (x ∷ xs) = x ∷ take n xs

  abbrev pub first : List A → Option A
  first [] = none
  first (x ∷ xs) = some x

  -- The entries that pass a test, in order.
  abbrev pub select : (A → Bool) → List A → List A
  select p [] = []
  select p (x ∷ xs) = if p x then x ∷ select p xs else select p xs

  -- The first entry that passes a test.
  abbrev pub find : (A → Bool) → List A → Option A
  find p [] = none
  find p (x ∷ xs) = if p x then some x else find p xs

  abbrev pub any : (A → Bool) → List A → Bool
  any p [] = false
  any p (x ∷ xs) = p x || any p xs

  abbrev pub all : (A → Bool) → List A → Bool
  all p [] = true
  all p (x ∷ xs) = p x && all p xs

  -- How many entries pass a test.
  abbrev pub count : (A → Bool) → List A → ℕ
  count p [] = 0
  count p (x ∷ xs) = (if p x then 1 else 0) + count p xs

  pub length-append : (xs ys : List A) → length (xs ++ ys) ≡ length xs + length ys
  length-append [] ys = omega arith
  length-append (x ∷ xs) ys = omega (arith, length-append xs ys)

  pub length-select-le : (p : A → Bool) (xs : List A) → length (select p xs) ≤ length xs
  length-select-le p [] = omega arith
  length-select-le p (x ∷ xs) = ground (arith, length-select-le p xs)

  pub length-take-le : (n : ℕ) (xs : List A) → length (take n xs) ≤ n
  length-take-le zero xs = omega arith
  length-take-le (suc n) [] = omega arith
  length-take-le (suc n) (x ∷ xs) = omega (arith, length-take-le n xs)

  pub All-append {κ} : (P : A → Type κ) (xs ys : List A) → All P xs → All P ys → All P (xs ++ ys)
  All-append P [] ys h k = k
  All-append P (x ∷ xs) ys h k = (h.0, All-append P xs ys h.1 k)

  pub All-select {κ} :
      (P : A → Type κ) (p : A → Bool) (xs : List A) → All P xs → All P (select p xs)
  All-select P p [] h = tt
  All-select P p (x ∷ xs) h = ground (arith, All-select P p xs h.1)

  pub All-find {κ} :
      (P : A → Type κ) (p : A → Bool) (xs : List A) {a : A} → All P xs → find p xs ≡ some a → P a
  All-find P p [] h e = cc
  All-find P p (x ∷ xs) {a} h e = ground (arith, All-find P p xs {a = a} h.1)

  pub All-imp {κ ι} :
      {P : A → Type κ} {Q : A → Type ι} (xs : List A) → ((a : A) → P a → Q a) → All P xs → All Q xs
  All-imp [] f h = tt
  All-imp (x ∷ xs) f h = (f x h.0, All-imp xs f h.1)

  pub All-first {κ} : (P : A → Type κ) (xs : List A) {a : A} → All P xs → first xs ≡ some a → P a
  All-first P [] h e = cc
  All-first P (x ∷ xs) {a} h e = let same : x ≡ a = cc in subst P same h.0

  -- What a filter lets through passes its test.
  pub select_passes : (p : A → Bool) (xs : List A) → All (λ a. p a ≡ true) (select p xs)
  select_passes p [] = tt
  select_passes p (x ∷ xs) = elim (Bool-cases (p x)) [
    | inl pass ↦ rw pass (pass, select_passes p xs)
    | inr fail ↦ rw fail (select_passes p xs)
  ]

  pub take-All {κ} : (P : A → Type κ) (n : ℕ) (xs : List A) → All P xs → All P (take n xs)
  take-All P zero xs h = tt
  take-All P (suc n) [] h = tt
  take-All P (suc n) (x ∷ xs) h = (h.0, take-All P n xs h.1)

  -- What a test passes in a list that stays when another test has filtered it.
  pub count-select :
      (p q : A → Bool) (xs : List A) → count p (select q xs) ≡ count (λ a. q a && p a) xs
  count-select p q [] = refl
  count-select p q (x ∷ xs) = ground (arith, count-select p q xs)

-- What a search finds is an entry that passes its test.
pub find-IsIn :
    {A : Type 0} (p : A → Bool) (xs : List A) {a : A}
    → find p xs ≡ some a
    → IsIn a xs × (p a ≡ true)
find-IsIn p [] e = absurd (cc)
find-IsIn p (x ∷ xs) {a} e = elim (Bool-cases (p x)) [
  | inl pass ↦
      let same : x ≡ a = ground arith in (inl (sym same), subst (λ z. p z ≡ true) same pass)
  | inr fail ↦ let (inside, pass) = find-IsIn p xs {a = a} (ground arith) in (inr inside, pass)
]

pub last-IsIn : {A : Type 0} (xs : List A) (a : A) → IsIn a (xs ++ a ∷ [])
last-IsIn [] a = inl refl
last-IsIn (x ∷ xs) a = inr (last-IsIn xs a)
