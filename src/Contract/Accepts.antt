-- ===== src/Contract/Accepts.antt =====
-- That `validate_record` accepts only what the contract allows, for
-- packages/shared/eastmed_shared/reconciliation/contract.py.
use mari_time_system.Prelude.{
  ◌≡◌, ◌≢◌, refl, sym, subst, ◌∙◌, String, str_eq, eq_iff, Option, none, some, List, [], ◌∷◌, not,
  All, arith,
}
use mari_time_system.Contract.Fields.{
  RejectionReason, RecordKind, AuthorityRole, accepted, reject_if, Parsers, required_str, timestamp,
  authority_role, record_kind,
}
use mari_time_system.Contract.Record.{
  RawItem, Payload, contract_version, NormalizedObservation, NormalizedRecord, Period, observation,
  observations, observations_from, Heading, heading, with_heading, interval_at, membership,
  voyage_plan, daily_report, validate_kind, validate_record,
}
use mari_time_system.Contract.Conforms.{
  IsText, IsOrdered, IsObservation, FreshKeys, bind_accepted, accepted-injective, not_rejected,
  required_str-IsText, interval_at-IsOrdered, observations_from-IsObservation,
}

-- At least one observation, each with its own key.
abbrev pub AreRows : String → Option Period → List NormalizedObservation → Type 0
AreRows field_name period os =
    (os ≢ []) × All (IsObservation field_name period) os × FreshKeys [] os

abbrev pub HasText : Option String → Type 0
HasText none = ⊥
HasText (some s) = IsText s

-- What the kind of a record asks of the rest of it.
abbrev pub ByKind : NormalizedRecord → Period → RecordKind → Type 0
ByKind r period RecordKind.fleet_membership =
    (r.authority_role ≢ none) × (r.voyage_ref ≡ none) × (r.observations ≡ [])
ByKind r period RecordKind.voyage_plan =
    HasText r.voyage_ref × HasText r.plan_revision × AreRows "fuel_planned" none r.observations
ByKind r period RecordKind.daily_report =
    HasText r.voyage_ref × AreRows "fuel_consumed" (some period) r.observations

pub record IsHeading (h : Heading) : Type 0 where
  pub version : h.schema_version ≡ contract_version
  pub source : IsText h.source_system
  pub external : IsText h.external_ref
  pub revision : IsText h.source_revision
  pub vessel : IsText h.vessel_ref

pub record Conforms (r : NormalizedRecord) : Type 0 where
  pub version : r.schema_version ≡ contract_version
  pub source : IsText r.source_system
  pub external : IsText r.external_ref
  pub revision : IsText r.source_revision
  pub vessel : IsText r.vessel_ref
  pub period : Period
  pub starts : r.interval_start ≡ some period.0
  pub ends : r.interval_end ≡ some period.1
  pub ordered : IsOrdered period
  pub by_kind : ByKind r period r.record_kind

IsHeading-heading :
    (parsers : Parsers) (payload : Payload) {h : Heading}
    → heading parsers payload ≡ accepted h
    → IsHeading h
unfolding heading
IsHeading-heading parsers payload {h} e =
    let (version, v, e1) = bind_accepted (required_str (payload.field "schema_version")) _ e in
    let (_, known, e2) =
      bind_accepted
        (reject_if (not (str_eq version contract_version)) RejectionReason.unknown_schema_version) _
        e1 in
    let (kind, _, e3) = bind_accepted (record_kind (payload.field "record_kind")) _ e2 in
    let (source, s, e4) = bind_accepted (required_str (payload.field "source_system")) _ e3 in
    let (external, x, e5) = bind_accepted (required_str (payload.field "external_ref")) _ e4 in
    let (revision, r, e6) = bind_accepted (required_str (payload.field "source_revision")) _ e5 in
    let (vessel, w, e7) = bind_accepted (required_str (payload.field "vessel_ref")) _ e6 in
    let (recorded, _, e8) = bind_accepted (timestamp parsers (payload.field "recorded_at")) _ e7 in
    subst IsHeading (accepted-injective e8) (record {
      version = ground (
        arith,
        eq_iff version contract_version,
        not_rejected (not (str_eq version contract_version)) RejectionReason.unknown_schema_version
            known,
      );
      source = required_str-IsText (payload.field "source_system") s;
      external = required_str-IsText (payload.field "external_ref") x;
      revision = required_str-IsText (payload.field "source_revision") r;
      vessel = required_str-IsText (payload.field "vessel_ref") w;
    })

some_rows :
    (parsers : Parsers) (field_name : String) (period : Option Period) (item : RawItem)
    (items : List RawItem) {os : List NormalizedObservation}
    → observations_from parsers field_name period [] 0 (item ∷ items) ≡ accepted os
    → os ≢ []
unfolding observations_from
some_rows parsers field_name period item items {os} e empty =
    let (o, _, e1) = bind_accepted (observation parsers field_name period [] 0 item) _ e in
    let (rest, _, e2) =
      bind_accepted (observations_from parsers field_name period (o.item_key ∷ []) 1 items) _ e1 in
    impossible o rest (accepted-injective e2 ∙ empty)
  where
    impossible : (o : NormalizedObservation) (rest : List NormalizedObservation) → o ∷ rest ≡ [] → ⊥
    impossible o rest k = cc

observations-AreRows :
    (parsers : Parsers) (field_name : String) (period : Option Period)
    (items : Option (List RawItem)) {os : List NormalizedObservation}
    → observations parsers field_name period items ≡ accepted os
    → AreRows field_name period os
observations-AreRows parsers field_name period none e = absurd (ground arith)
observations-AreRows parsers field_name period (some []) e = absurd (ground arith)
observations-AreRows parsers field_name period (some (item ∷ items)) {os} e =
    let rows = observations_from-IsObservation parsers field_name period [] 0 (item ∷ items) e in
    (some_rows parsers field_name period item items e, rows.0, rows.1)

module _ (parsers : Parsers) (payload : Payload) (h : Heading) (is_heading : IsHeading h) where
  built :
      (voyage plan : Option String) (role : Option AuthorityRole) (period : Period)
      (rows : List NormalizedObservation) (r : NormalizedRecord)
      → accepted (with_heading h voyage plan role period rows) ≡ accepted r
      → IsOrdered period
      → (k : RecordKind) → h.record_kind ≡ k
      → ByKind (with_heading h voyage plan role period rows) period k
      → Conforms r
  built voyage plan role period rows r e ordered k kind by_kind =
      subst Conforms (accepted-injective e) (record {
        version = is_heading.version;
        source = is_heading.source;
        external = is_heading.external;
        revision = is_heading.revision;
        vessel = is_heading.vessel;
        period = period;
        starts = refl;
        ends = refl;
        ordered = ordered;
        by_kind =
            subst (λ k. ByKind (with_heading h voyage plan role period rows) period k) (sym kind)
              by_kind;
      })

  membership-Conforms :
      h.record_kind ≡ RecordKind.fleet_membership
      → {r : NormalizedRecord} → membership parsers payload h ≡ accepted r
      → Conforms r
  unfolding membership
  membership-Conforms kind {r} e =
      let (role, _, e1) = bind_accepted (authority_role (payload.field "authority_role")) _ e in
      let (period, p, e2) =
        bind_accepted (interval_at parsers payload "valid_from" "valid_to") _ e1 in
      built none none (some role) period [] r e2
        (interval_at-IsOrdered parsers payload "valid_from" "valid_to" p)
        RecordKind.fleet_membership kind ((λ absent. impossible role absent), refl, refl)
    where
      impossible : (role : AuthorityRole) → some role ≡ none → ⊥
      impossible role k = cc

  voyage_plan-Conforms :
      h.record_kind ≡ RecordKind.voyage_plan
      → {r : NormalizedRecord} → voyage_plan parsers payload h ≡ accepted r
      → Conforms r
  unfolding voyage_plan
  voyage_plan-Conforms kind {r} e =
      let (voyage, v, e1) = bind_accepted (required_str (payload.field "voyage_ref")) _ e in
      let (plan, q, e2) = bind_accepted (required_str (payload.field "plan_revision")) _ e1 in
      let (period, p, e3) =
        bind_accepted (interval_at parsers payload "effective_from" "effective_to") _ e2 in
      let (rows, o, e4) =
        bind_accepted (observations parsers "fuel_planned" none payload.items) _ e3 in
      built (some voyage) (some plan) none period rows r e4
        (interval_at-IsOrdered parsers payload "effective_from" "effective_to" p)
        RecordKind.voyage_plan kind
        (
          required_str-IsText (payload.field "voyage_ref") v,
          required_str-IsText (payload.field "plan_revision") q,
          observations-AreRows parsers "fuel_planned" none payload.items o,
        )

  daily_report-Conforms :
      h.record_kind ≡ RecordKind.daily_report
      → {r : NormalizedRecord} → daily_report parsers payload h ≡ accepted r
      → Conforms r
  unfolding daily_report
  daily_report-Conforms kind {r} e =
      let (voyage, v, e1) = bind_accepted (required_str (payload.field "voyage_ref")) _ e in
      let (period, p, e2) =
        bind_accepted (interval_at parsers payload "period_start" "period_end") _ e1 in
      let (rows, o, e3) =
        bind_accepted (observations parsers "fuel_consumed" (some period) payload.items) _ e2 in
      built (some voyage) none none period rows r e3
        (interval_at-IsOrdered parsers payload "period_start" "period_end" p)
        RecordKind.daily_report kind
        (
          required_str-IsText (payload.field "voyage_ref") v,
          observations-AreRows parsers "fuel_consumed" (some period) payload.items o,
        )

  validate_kind-Conforms :
      (k : RecordKind)
      → h.record_kind ≡ k
      → {r : NormalizedRecord} → validate_kind parsers payload h k ≡ accepted r
      → Conforms r
  validate_kind-Conforms RecordKind.fleet_membership kind e = membership-Conforms kind e
  validate_kind-Conforms RecordKind.voyage_plan kind e = voyage_plan-Conforms kind e
  validate_kind-Conforms RecordKind.daily_report kind e = daily_report-Conforms kind e

-- A record that `validate_record` accepts has the one contract version, texts that are not blank and
-- an interval that ends after it starts; a plan or a report has at least one observation, each with
-- its own key, at most six decimal places and at most 10 ^ 9 in size, in a report over its period.
pub validate_record-Conforms :
    (parsers : Parsers) (payload : Payload) (r : NormalizedRecord)
    → validate_record parsers payload ≡ accepted r
    → Conforms r
unfolding validate_record
validate_record-Conforms parsers payload r e =
    let (h, k, e1) = bind_accepted (heading parsers payload) _ e in
    validate_kind-Conforms parsers payload h (IsHeading-heading parsers payload k) h.record_kind
      refl e1
