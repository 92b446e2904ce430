-- ===== src/Prelude/Errors.antt =====
-- Calls that may raise: the exceptions that the modelled code lets through, and their chaining.
use mathlib.Core.Bool.{Bool, true, false}
use mathlib.Core.Path.{◌≡◌, refl, subst}

-- `integrity_error` is the database's refusal of a row, `assertion_error` a failed `assert`,
-- `value_error` a `ValueError` or a subclass of it, `key_error` a missing key, `arithmetic_error` a
-- decimal operation with no result, `runtime_error` a `RuntimeError` or a subclass of it, `type_error` a
-- `TypeError`.
pub data Error : Type 0 where
  integrity_error value_error assertion_error key_error arithmetic_error runtime_error type_error :
      Error

pub data Result {ℓ} (A : Type ℓ) : Type ℓ where
  ok : A → Result A
  err : Error → Result A

infixl 5 ◌>>=◌ ◌>>◌
abbrev pub ◌>>=◌ {ℓ κ} : {A : Type ℓ} {B : Type κ} → Result A → (A → Result B) → Result B
err reason >>= next_call = err reason
ok value >>= next_call = next_call value

abbrev pub ◌>>◌ {ℓ} : {B : Type ℓ} → Result (Unit {0}) → Result B → Result B
err reason >> next_call = err reason
ok done >> next_call = next_call

-- `if bad: raise e`
abbrev pub raise_if : Bool → Error → Result (Unit {0})
raise_if true e = err e
raise_if false e = ok tt

pub ok-injective {ℓ} : {A : Type ℓ} {a b : A} → ok a ≡ ok b → a ≡ b
ok-injective h = cc

-- Whatever the call returns, if it does not raise, satisfies a predicate.
abbrev pub Returns {ℓ} : {A : Type ℓ} → (A → Type 0) → Result A → Type 0
Returns P (err e) = Unit
Returns P (ok value) = P value

pub Returns-bind {ℓ κ} :
    {A : Type ℓ} {B : Type κ} (P : B → Type 0) (call : Result A) (rest : A → Result B)
    → ((a : A) → call ≡ ok a → Returns P (rest a))
    → Returns P (call >>= rest)
Returns-bind P (err e) rest h = tt
Returns-bind P (ok value) rest h = h value refl

pub Returns-ok {ℓ} :
    {A : Type ℓ} (P : A → Type 0) (call : Result A) {a : A} → Returns P call → call ≡ ok a → P a
Returns-ok P (err e) h q = absurd (cc)
Returns-ok P (ok value) h q = subst P (ok-injective q) h

pub Returns-imp {ℓ} :
    {A : Type ℓ} (P Q : A → Type 0) (call : Result A)
    → ((a : A) → P a → Q a)
    → Returns P call
    → Returns Q call
Returns-imp P Q (err e) f h = tt
Returns-imp P Q (ok value) f h = f value h
