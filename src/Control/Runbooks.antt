-- ===== src/Control/Runbooks.antt =====
-- The registry and `authorize_runbook` of
-- packages/shared/eastmed_shared/reconciliation/runbooks.py.
use mari_time_system.Prelude.{
  ℕ, ◌≤◌, ◌≡◌, refl, ◌∙◌, String, str_eq, eq_iff, Option, none, some, List, [], ◌∷◌, Bool, true,
  false, false≢true, ==-refl, not, ◌==◌, ◌↔◌, arith, ℤ, pos, negsuc, ltb, if◌then◌else◌, find, any,
  all, All, All-imp, All-find, Option-cases, inl, inr,
}
use mari_time_system.Control.Registry.{
  RunbookPrecondition, RunbookApiCall, RunbookRejection, precondition_index, call_index,
  RunbookSpec, runbook_registry, registered,
}

abbrev pub calls_within : List RunbookApiCall → List RunbookApiCall → Bool
calls_within requested allowed =
    all (λ c. any (λ a. call_index c == call_index a) allowed) requested

-- The reason is the text of the rejection.
pub record RunbookAdmission : Type 0 where
  pub admitted : Bool
  pub runbook_id : String
  pub rejection : Option RunbookRejection
  pub spec : Option RunbookSpec

abbrev pub rejected_with : String → RunbookRejection → Option RunbookSpec → RunbookAdmission
rejected_with id rejection spec = record {
  admitted = false;
  runbook_id = id;
  rejection = some rejection;
  spec = spec;
}

-- `blast_radius < 0 or blast_radius > spec.max_blast_radius`
abbrev pub exceeds : ℤ → ℕ → Bool
exceeds (negsuc n) limit = true
exceeds (pos n) limit = ltb limit n

unfoldable pub authorize_registered :
    String → RunbookPrecondition → List RunbookApiCall → ℤ → RunbookSpec → RunbookAdmission
authorize_registered id precondition requested radius spec =
    if not (precondition_index precondition == precondition_index spec.precondition)
    then rejected_with id RunbookRejection.precondition_not_met (some spec)
    else if not (calls_within requested spec.allowed_api_calls)
    then rejected_with id RunbookRejection.api_call_not_allowed (some spec)
    else if exceeds radius spec.max_blast_radius
    then rejected_with id RunbookRejection.blast_radius_exceeded (some spec)
    else record { admitted = true; runbook_id = id; rejection = none; spec = some spec }

unfoldable pub authorize_runbook :
    String → RunbookPrecondition → List RunbookApiCall → ℤ → RunbookAdmission
unfolding authorize_registered
authorize_runbook id precondition requested radius = elim (registered id) [
  | none ↦ rejected_with id RunbookRejection.unknown_runbook none
  | some spec ↦ authorize_registered id precondition requested radius spec
]

-- A registered runbook for which the request is made: the precondition is its own, every call is on
-- its list, and the blast radius is between zero and its maximum.
pub record Admissible (id : String) (precondition : RunbookPrecondition)
    (requested : List RunbookApiCall) (radius : ℤ) (spec : RunbookSpec) : Type 0 where
  pub found : registered id ≡ some spec
  pub same_precondition : precondition ≡ spec.precondition
  pub calls_allowed :
      All (λ c. any (λ a. call_index c == call_index a) spec.allowed_api_calls ≡ true) requested
  pub bounded : (n : ℕ) × (radius ≡ pos n) × (n ≤ spec.max_blast_radius)

precondition_index-injective :
    (a b : RunbookPrecondition) → (precondition_index a == precondition_index b) ≡ true → a ≡ b
precondition_index-injective a b h = ground arith

all_calls :
    (requested allowed : List RunbookApiCall)
    → calls_within requested allowed ≡ true
    → All (λ c. any (λ a. call_index c == call_index a) allowed ≡ true) requested
all_calls [] allowed h = tt
all_calls (c ∷ cs) allowed h = (ground arith, all_calls cs allowed (ground arith))

calls_all :
    (requested allowed : List RunbookApiCall)
    → All (λ c. any (λ a. call_index c == call_index a) allowed ≡ true) requested
    → calls_within requested allowed ≡ true
calls_all [] allowed h = refl
calls_all (c ∷ cs) allowed h = rw h.0 (calls_all cs allowed h.1)

within_limit :
    (radius : ℤ) (limit : ℕ)
    → exceeds radius limit ≡ false
    → (n : ℕ) × (radius ≡ pos n) × (n ≤ limit)
within_limit (negsuc n) limit h = cc
within_limit (pos n) limit h = (n, refl, ground arith)

limit_within : (n limit : ℕ) → n ≤ limit → exceeds (pos n) limit ≡ false
limit_within n limit h = ground arith

-- A runbook is admitted exactly when it is registered, its precondition holds, every requested call
-- is on its allowlist, and its blast radius is not negative and within the declared maximum.
pub authorize_runbook_iff_Admissible :
    (id : String) (precondition : RunbookPrecondition) (requested : List RunbookApiCall)
    (radius : ℤ)
    → ((authorize_runbook id precondition requested radius).admitted ≡ true)
      ↔ ((spec : RunbookSpec) × Admissible id precondition requested radius spec)
unfolding authorize_runbook authorize_registered
authorize_runbook_iff_Admissible id precondition requested radius = (admits, permits)
  where
    admits :
        (authorize_runbook id precondition requested radius).admitted ≡ true
        → (spec : RunbookSpec) × Admissible id precondition requested radius spec
    admits h = elim (Option-cases (registered id)) [
      | inl unknown ↦ absurd (false≢true (rw (unknown, authorize_runbook) at h))
      | inr (spec, found) ↦
          let h' : (authorize_registered id precondition requested radius spec).admitted ≡ true =
            rw (found, authorize_runbook) at h in
          (
            spec,
            record {
              found = found;
              same_precondition =
                  precondition_index-injective precondition spec.precondition (ground arith);
              calls_allowed = all_calls requested spec.allowed_api_calls (ground arith);
              bounded = within_limit radius spec.max_blast_radius (ground arith);
            },
          )
    ]

    permits :
        (spec : RunbookSpec) × Admissible id precondition requested radius spec
        → (authorize_runbook id precondition requested radius).admitted ≡ true
    permits (spec, a) =
        let (n, same, within) = a.bounded in
        rw (a.found, authorize_runbook)
          (rw (a.same_precondition, ==-refl (precondition_index spec.precondition))
            (rw (calls_all requested spec.allowed_api_calls a.calls_allowed)
              (rw (same, limit_within n spec.max_blast_radius within) refl)))

-- The one runbook that may make a call.
abbrev pub owner : RunbookApiCall → String
owner RunbookApiCall.renew_lease = "renew_task_lease"
owner RunbookApiCall.claim_expired = "recover_expired_task"
owner RunbookApiCall.restart_process = "restart_worker"
owner RunbookApiCall.select_alternate_provider = "failover_model"
owner RunbookApiCall.scan_due_tasks = "rebuild_wakeups"
owner RunbookApiCall.restore_previous_package = "rollback_canary"
owner RunbookApiCall.block_source = "quarantine_source"
owner RunbookApiCall.invalidate_dependent_cases = "quarantine_source"

abbrev Owns : RunbookSpec → Type 0
Owns spec =
    (c : RunbookApiCall)
    → any (λ a. call_index c == call_index a) spec.allowed_api_calls ≡ true
    → owner c ≡ spec.runbook_id

registry-Owns : All Owns runbook_registry
registry-Owns = (
  λ c h. ground arith,
  (
    λ c h. ground arith,
    (
      λ c h. ground arith,
      (
        λ c h. ground arith,
        (λ c h. ground arith, (λ c h. ground arith, (λ c h. ground arith, tt))),
      ),
    ),
  ),
)

found_id :
    (id : String) (specs : List RunbookSpec) (spec : RunbookSpec)
    → find (λ s. str_eq s.runbook_id id) specs ≡ some spec
    → spec.runbook_id ≡ id
found_id id [] spec e = cc
found_id id (s ∷ specs) spec e = ground (arith, eq_iff s.runbook_id id, found_id id specs spec)

-- Every call that an admitted request makes belongs to that runbook alone: no call can be reached
-- through a runbook other than the one that owns it.
pub admitted-owner :
    (id : String) (precondition : RunbookPrecondition) (requested : List RunbookApiCall)
    (radius : ℤ)
    → (authorize_runbook id precondition requested radius).admitted ≡ true
    → All (λ c. owner c ≡ id) requested
admitted-owner id precondition requested radius h =
    let (spec, a) = (authorize_runbook_iff_Admissible id precondition requested radius).0 h in
    let owns : Owns spec =
      All-find Owns (λ s. str_eq s.runbook_id id) runbook_registry registry-Owns a.found in
    let same : spec.runbook_id ≡ id = found_id id runbook_registry spec a.found in
    All-imp requested (λ c allowed. owns c allowed ∙ same) a.calls_allowed
