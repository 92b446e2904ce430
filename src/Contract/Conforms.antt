-- ===== src/Contract/Conforms.antt =====
-- What an accepted record satisfies, for packages/shared/eastmed_shared/reconciliation/contract.py.
use mari_time_system.Prelude.{
  ℕ, ◌+◌, ◌*◌, ◌^◌, ◌≤◌, ◌<◌, ◌≡◌, refl, subst, inl, inr, String, is_blank, Option, none, some,
  List, [], ◌∷◌, Bool, true, false, member, All, Bool-cases, arith, pos, neg_part, gap_ℤ,
}
use mari_time_system.Calculation.Decimal.{Decimal}
use mari_time_system.Contract.Fields.{
  RejectionReason, Raw, Checked, accepted, rejected, ◌>>=◌, reject_if, Parsers, ParsedDecimal,
  strip, required_str, NormalizedTimestamp, timestamp, interval, bounded_decimal, fuel_grade,
  quantity_unit, quantity,
}
use mari_time_system.Contract.Record.{
  RawItem, Payload, NormalizedObservation, Period, item_period, observation, observations_from,
  interval_at,
}

abbrev pub IsText : String → Type 0
IsText s = is_blank s ≡ false

abbrev pub IsOrdered : Period → Type 0
IsOrdered period = period.0.utc < period.1.utc

-- At most six decimal places and 10 ^ 9 in size.
pub record IsBounded (d : Decimal) : Type 0 where
  pub places : neg_part d.exponent ≤ 6
  pub size : d.digits * 10 ^ gap_ℤ d.exponent (pos 0) ≤ 1000000000 * 10 ^ gap_ℤ (pos 0) d.exponent

abbrev pub HasPeriod : Option Period → Period → Type 0
HasPeriod none period = Unit
HasPeriod (some expected) period = period ≡ expected

pub record IsObservation (field_name : String) (report_period : Option Period)
    (o : NormalizedObservation) : Type 0 where
  pub named : o.field ≡ field_name
  pub keyed : IsText o.item_key
  pub bounded : IsBounded o.value
  pub in_period : HasPeriod report_period (o.period_start, o.period_end)

-- No item key occurs twice, nor among those seen before.
abbrev pub FreshKeys : List String → List NormalizedObservation → Type 0
FreshKeys seen [] = Unit
FreshKeys seen (o ∷ os) = (member o.item_key seen ≡ false) × FreshKeys (o.item_key ∷ seen) os

pub bind_accepted :
    {A B : Type 0} (m : Checked A) (f : A → Checked B) {b : B}
    → (m >>= f) ≡ accepted b
    → (a : A) × (m ≡ accepted a) × (f a ≡ accepted b)
bind_accepted (accepted a) f h = (a, refl, h)
bind_accepted (rejected e) f h = cc

pub required_str-IsText : (raw : Raw) {s : String} → required_str raw ≡ accepted s → IsText s
unfolding required_str
required_str-IsText Raw.absent h = cc
required_str-IsText Raw.other h = cc
required_str-IsText (Raw.text t) h = ground arith

interval-IsOrdered :
    (start end_ : NormalizedTimestamp) {p : Period} → interval start end_ ≡ accepted p → IsOrdered p
unfolding interval
interval-IsOrdered start end_ h = ground arith

bounded_decimal-IsBounded :
    (m : ParsedDecimal) {d : Decimal} → bounded_decimal m ≡ accepted d → IsBounded d
bounded_decimal-IsBounded ParsedDecimal.no_decimal h = cc
bounded_decimal-IsBounded ParsedDecimal.not_finite h = cc
bounded_decimal-IsBounded (ParsedDecimal.finite x) h = ground arith

quantity-IsBounded :
    (parsers : Parsers) (raw : Raw) {d : Decimal} → quantity parsers raw ≡ accepted d → IsBounded d
unfolding quantity
quantity-IsBounded parsers Raw.absent h = cc
quantity-IsBounded parsers Raw.other h = cc
quantity-IsBounded parsers (Raw.text s) h = elim (Bool-cases (is_blank (strip s))) [
  | inl blank ↦ absurd (ground arith)
  | inr filled ↦ bounded_decimal-IsBounded (parsers.decimal (strip s)) (rw filled at h)
]

pub interval_at-IsOrdered :
    (parsers : Parsers) (payload : Payload) (from until : String) {p : Period}
    → interval_at parsers payload from until ≡ accepted p
    → IsOrdered p
interval_at-IsOrdered parsers payload from until h =
    let (start, _, h1) = bind_accepted (timestamp parsers (payload.field from)) _ h in
    let (end_, _, h2) = bind_accepted (timestamp parsers (payload.field until)) _ h1 in
    interval-IsOrdered start end_ h2

item_period-HasPeriod :
    (parsers : Parsers) (item : String → Raw) (report_period : Option Period) {p : Period}
    → item_period parsers item report_period ≡ accepted p
    → HasPeriod report_period p
item_period-HasPeriod parsers item none h = tt
item_period-HasPeriod parsers item (some expected) h = cc

pub accepted-injective : {A : Type 0} {a b : A} → accepted a ≡ accepted b → a ≡ b
accepted-injective h = cc

pub not_rejected :
    (b : Bool) (reason : RejectionReason) {u : Unit {0}}
    → reject_if b reason ≡ accepted u
    → b ≡ false
not_rejected true reason h = cc
not_rejected false reason h = refl

observed :
    (field_name : String) (report_period : Option Period) (seen : List String)
    (built o : NormalizedObservation)
    → accepted built ≡ accepted o
    → built.field ≡ field_name
    → IsText built.item_key
    → member built.item_key seen ≡ false
    → IsBounded built.value
    → HasPeriod report_period (built.period_start, built.period_end)
    → IsObservation field_name report_period o × (member o.item_key seen ≡ false)
observed field_name report_period seen built o e named keyed fresh bounded in_period =
    subst (λ o. IsObservation field_name report_period o × (member o.item_key seen ≡ false))
      (accepted-injective e)
      (record { named = named; keyed = keyed; bounded = bounded; in_period = in_period }, fresh)

observation-IsObservation :
    (parsers : Parsers) (field_name : String) (report_period : Option Period) (seen : List String)
    (index : ℕ) (item : RawItem) {o : NormalizedObservation}
    → observation parsers field_name report_period seen index item ≡ accepted o
    → IsObservation field_name report_period o × (member o.item_key seen ≡ false)
unfolding observation
observation-IsObservation parsers field_name report_period seen index RawItem.not_an_object h = cc
observation-IsObservation parsers field_name report_period seen index (RawItem.object item) {o} h =
    let (key, k, h1) = bind_accepted (required_str (item "item_key")) _ h in
    let (_, f, h2) =
      bind_accepted (reject_if (member key seen) RejectionReason.duplicate_item_key) _ h1 in
    let (grade, _, h3) = bind_accepted (fuel_grade (item "fuel_grade")) _ h2 in
    let (unit, _, h4) = bind_accepted (quantity_unit (item "unit")) _ h3 in
    let (value, q, h5) = bind_accepted (quantity parsers (item "quantity")) _ h4 in
    let (period, p, h6) = bind_accepted (item_period parsers item report_period) _ h5 in
    observed field_name report_period seen _ o h6 refl (required_str-IsText (item "item_key") k)
      (not_rejected (member key seen) RejectionReason.duplicate_item_key f)
      (quantity-IsBounded parsers (item "quantity") q)
      (item_period-HasPeriod parsers item report_period p)

pub observations_from-IsObservation :
    (parsers : Parsers) (field_name : String) (report_period : Option Period) (seen : List String)
    (index : ℕ) (items : List RawItem) {os : List NormalizedObservation}
    → observations_from parsers field_name report_period seen index items ≡ accepted os
    → All (IsObservation field_name report_period) os × FreshKeys seen os
unfolding observations_from
observations_from-IsObservation parsers field_name report_period seen index [] {os} h =
    subst (λ os. All (IsObservation field_name report_period) os × FreshKeys seen os)
      (accepted-injective h) (tt, tt)
observations_from-IsObservation parsers field_name report_period seen index (item ∷ items) {os} h =
    let (o, first, h1) =
      bind_accepted (observation parsers field_name report_period seen index item) _ h in
    let (rest, later, h2) =
      bind_accepted
        (observations_from parsers field_name report_period (o.item_key ∷ seen) (index + 1) items) _
        h1 in
    both o rest h2
      (observation-IsObservation parsers field_name report_period seen index item first)
      (observations_from-IsObservation parsers field_name report_period (o.item_key ∷ seen)
        (index + 1) items later)
  where
    both :
        (o : NormalizedObservation) (rest : List NormalizedObservation)
        → accepted (o ∷ rest) ≡ accepted os
        → IsObservation field_name report_period o × (member o.item_key seen ≡ false)
        → All (IsObservation field_name report_period) rest × FreshKeys (o.item_key ∷ seen) rest
        → All (IsObservation field_name report_period) os × FreshKeys seen os
    both o rest e a b =
        subst (λ os. All (IsObservation field_name report_period) os × FreshKeys seen os)
          (accepted-injective e) ((a.0, b.0), (a.1, b.1))
