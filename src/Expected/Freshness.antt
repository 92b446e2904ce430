-- ===== src/Expected/Freshness.antt =====
-- Identifiers that repeat none before them, for
-- packages/shared/eastmed_shared/reconciliation/ledger.py.
use mari_time_system.Prelude.{
  ◌≡◌, refl, String, List, [], ◌∷◌, false, arith, str_eq, eq_iff, member, All, All-imp, Bool-cases,
  inl, inr,
}
use mari_time_system.Expected.Distinct.{Distinct}

-- None of the texts stands before in the list, or in the accumulator.
abbrev pub Fresh : List String → List String → Type 0
Fresh acc [] = Unit
Fresh acc (x ∷ xs) = (member x acc ≡ false) × Fresh (x ∷ acc) xs

pub str_eq-sym : (x y : String) → str_eq x y ≡ str_eq y x
str_eq-sym x y = elim (Bool-cases (str_eq x y)) [
  | inl same ↦ ground (arith, eq_iff x y, eq_iff y x)
  | inr other ↦ ground (arith, eq_iff x y, eq_iff y x)
]

pub Fresh-outside : (acc xs : List String) → Fresh acc xs → All (λ y. member y acc ≡ false) xs
Fresh-outside acc [] h = tt
Fresh-outside acc (x ∷ xs) h =
    (h.0, All-imp xs (λ y k. ground arith) (Fresh-outside (x ∷ acc) xs h.1))

pub outside-absent :
    (x : String) (acc xs : List String)
    → All (λ y. member y (x ∷ acc) ≡ false) xs
    → member x xs ≡ false
outside-absent x acc [] h = refl
outside-absent x acc (y ∷ xs) h = ground (arith, str_eq-sym x y, outside-absent x acc xs h.1)

pub Fresh-Distinct : (acc xs : List String) → Fresh acc xs → Distinct xs
Fresh-Distinct acc [] h = tt
Fresh-Distinct acc (x ∷ xs) h =
    (outside-absent x acc xs (Fresh-outside (x ∷ acc) xs h.1), Fresh-Distinct (x ∷ acc) xs h.1)

pub still_outside :
    (x : String) (acc xs : List String)
    → member x xs ≡ false
    → All (λ y. member y acc ≡ false) xs
    → All (λ y. member y (x ∷ acc) ≡ false) xs
still_outside x acc [] m h = tt
still_outside x acc (y ∷ xs) m h =
    (ground (arith, str_eq-sym x y), still_outside x acc xs (ground arith) h.1)

pub Distinct-Fresh :
    (acc xs : List String) → Distinct xs → All (λ y. member y acc ≡ false) xs → Fresh acc xs
Distinct-Fresh acc [] d h = tt
Distinct-Fresh acc (x ∷ xs) d h =
    (h.0, Distinct-Fresh (x ∷ acc) xs d.1 (still_outside x acc xs d.0 h.1))

pub in_none : (xs : List String) → All (λ y. member y [] ≡ false) xs
in_none [] = tt
in_none (x ∷ xs) = (refl, in_none xs)
