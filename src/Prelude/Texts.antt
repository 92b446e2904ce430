-- ===== src/Prelude/Texts.antt =====
-- Sets of texts as lists: a set of the source is only tested for membership and inclusion.
use Prim.Native.String.{String}
use mathlib.Core.Path.{◌≡◌, refl}
use mathlib.Core.Logic.{◌↔◌}
use mathlib.Core.Bool.{Bool, true, false, ◌&&◌, ◌||◌}
use mathlib.Core.List.{List, [], ◌∷◌}
use native.Mathlib.Omega.{arith}
use text.Mathlib.Text.{◌==◌ as str_eq}
use text.Mathlib.TextEquality.{eq_iff}
use text.Mathlib.TextPositions.{eq_refl}

-- `x in xs`
abbrev pub member : String → List String → Bool
member x [] = false
member x (y ∷ ys) = str_eq x y || member x ys

-- `xs <= ys`
abbrev pub subset : List String → List String → Bool
subset [] ys = true
subset (x ∷ xs) ys = member x ys && subset xs ys

pub member_of_subset :
    (x : String) (xs ys : List String)
    → subset xs ys ≡ true
    → member x xs ≡ true
    → member x ys ≡ true
member_of_subset x [] ys h m = cc
member_of_subset x (y ∷ xs) ys h m =
    ground (arith, eq_iff x y, member_of_subset x xs ys, same_member)
  where
    same_member : x ≡ y → member y ys ≡ true → member x ys ≡ true
    same_member e k = rw e k

-- Inclusion is membership of every element.
pub subset_iff :
    (xs ys : List String)
    → (subset xs ys ≡ true) ↔ ((x : String) → member x xs ≡ true → member x ys ≡ true)
subset_iff xs ys = (λ h x m. member_of_subset x xs ys h m, all_in xs ys)
  where
    all_in :
        (xs ys : List String)
        → ((x : String) → member x xs ≡ true → member x ys ≡ true)
        → subset xs ys ≡ true
    all_in [] ys h = refl
    all_in (x ∷ xs) ys h =
        rw (h x (rw (eq_refl x) refl)) (all_in xs ys (λ z m. h z (rw m (or_true (str_eq z x)))))
      where
        or_true : (b : Bool) → (b || true) ≡ true
        or_true true = refl
        or_true false = refl

-- `not text`
abbrev pub is_blank : String → Bool
is_blank String.[] = true
is_blank (String.◌∷◌ c s) = false
