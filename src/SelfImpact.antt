-- ===== src/SelfImpact.antt =====
-- src/localplane/backend/domain/self_impact.py: whether a lifecycle action may interrupt LocalPlane's own
-- backend, and whether an operator's override could cover it.
pub mod Eligible
use local_plane.Prelude.{
  ℕ, String, Bool, true, false, not, ◌&&◌, ◌||◌, Option, none, some, List, [], ◌∷◌, ◌++◌, any,
  select, str_eq, contains, from_keys, sorted, ◌==◌, if◌then◌else◌,
}
use local_plane.Protection.{
  ProtectionStatus, protected, clear, ProtectionReason, management_path, localplane_agent,
  ReasonAssessment, ProtectionAssessment, status_eq, reason_eq,
}
use local_plane.Lifecycle.{
  Action, start, stop, restart, OwnerStatus, resolved, incomplete, RuntimeOwner, Context, is_name,
  is_member, is_named,
}
use local_plane.Lifecycle.Applicable.{failing, is_empty}

pub data SelfImpactStatus : Type 0 where
  not_detected proven possible unresolved : SelfImpactStatus

pub data SelfImpactOutage : Type 0 where
  no_outage temporary_possible indefinite_possible : SelfImpactOutage

pub record SelfImpact : Type 0 where
  pub subject : String
  pub status : SelfImpactStatus
  pub outage : SelfImpactOutage
  pub override_eligible : Bool
  pub detail : String
  pub owner_unit_id : Option String
  pub envelope : Option String
  pub reasons : List String

abbrev pub docker_direct_unix_contract : String
docker_direct_unix_contract = "docker-direct-unix-v1"

abbrev pub runtime_owner_umbrella_gap : String
runtime_owner_umbrella_gap = "management_path.runtime_owner_unproven"

abbrev pub host_service_unit_type : String
host_service_unit_type = "service"

-- `owner is not None and owner.status is RESOLVED`
abbrev pub is_resolved : Option RuntimeOwner → Bool
is_resolved none = false
is_resolved (some o) = elim o.status [ resolved ↦ true | incomplete ↦ false ]

abbrev pub owner_unit : Option RuntimeOwner → Option String
owner_unit none = none
owner_unit (some o) = o.owner_unit_id

abbrev pub is_proven : SelfImpactStatus → Bool
is_proven proven = true
is_proven _ = false

abbrev pub status_text : SelfImpactStatus → String
status_text not_detected = "not_detected"
status_text proven = "proven"
status_text possible = "possible"
status_text unresolved = "unresolved"

abbrev pub not_proven_reason : SelfImpactStatus → String
not_proven_reason not_detected = "self_impact_status_not_proven:not_detected"
not_proven_reason proven = "self_impact_status_not_proven:proven"
not_proven_reason possible = "self_impact_status_not_proven:possible"
not_proven_reason unresolved = "self_impact_status_not_proven:unresolved"

abbrev pub not_protected_reason : ProtectionStatus → String
not_protected_reason protected = "protection_status_not_protected:protected"
not_protected_reason clear = "protection_status_not_protected:clear"
not_protected_reason ProtectionStatus.unknown = "protection_status_not_protected:unknown"

abbrev pub outage_of : Action → SelfImpactOutage
outage_of start = no_outage
outage_of stop = indefinite_possible
outage_of restart = temporary_possible

abbrev pub service_connection : Context → Bool
service_connection c = elim c.connection_unit [
  | none ↦ false
  | some u ↦ is_name c.connection_unit_type host_service_unit_type
]

unfoldable pub status_of : Context → SelfImpactStatus × String × Option String
status_of c =
    if is_resolved c.runtime_owner
    then (if is_member c.effect_units (owner_unit c.runtime_owner)
        then (
          proven,
          "effect_closure_contains_proven_backend_runtime_owner",
          owner_unit c.runtime_owner,
        )
        else (
          not_detected,
          "effect_closure_disjoint_from_proven_backend_runtime_owner",
          owner_unit c.runtime_owner,
        ))
    else if contains c.gaps runtime_owner_umbrella_gap
    then (possible, "backend_container_runtime_owner_unproven", none)
    else if service_connection c && is_member c.effect_units c.connection_unit
    then (proven, "effect_closure_contains_backend_service_unit", c.connection_unit)
    else if service_connection c && c.effect_complete
    then (not_detected, "effect_closure_disjoint_from_backend_service_unit", c.connection_unit)
    else (unresolved, "backend_runtime_containment_not_established", none)

-- The owner is resolved under the one supported contract, and names its unit.
unfoldable pub in_envelope : Option RuntimeOwner → Bool
in_envelope none = false
in_envelope (some o) =
    is_resolved (some o)
    && str_eq o.contract_version docker_direct_unix_contract
    && o.method_version == 1
    && str_eq o.provider "docker"
    && is_named o.owner_unit_id

-- `closure.intersection(management_units)`: each unit once
unfoldable pub intersection : List String → List String → List String
intersection closure units = from_keys (select (contains closure) units)

-- `sorted(names) != [unit]`
abbrev pub is_only : Option String → List String → Bool
is_only unit (n ∷ []) = is_name unit n
is_only unit _ = false

unfoldable pub agent_is_a_proven_host_service : Context → Bool
agent_is_a_proven_host_service c =
    c.agent_complete
    && is_named c.agent_unit
    && is_name c.agent_unit_type host_service_unit_type
    && not (is_member c.effect_units c.agent_unit)
    && c.effect_complete

unfoldable pub reason_is_clear : ProtectionAssessment → ProtectionReason → Bool
reason_is_clear p reason =
    any (λ (e : ReasonAssessment). reason_eq e.reason reason && status_eq e.status clear) p.assessed

abbrev pub only_management_path : List ProtectionReason → Bool
only_management_path (management_path ∷ []) = true
only_management_path _ = false

-- Each `elif` is a test that its `if` has not failed.
unfoldable pub ineligibility_tests :
    Context → ProtectionAssessment → SelfImpactStatus → List (Bool × String)
ineligibility_tests c p status =
    let owned = in_envelope c.runtime_owner in
    let agent_ok = agent_is_a_proven_host_service c in
    let is_protected = status_eq p.status protected in
    (not (is_proven status), not_proven_reason status)
    ∷ (not owned, "runtime_owner_outside_supported_self_impact_envelope")
    ∷ (
      owned
          && not (
              is_only (owner_unit c.runtime_owner)
                (sorted (intersection c.effect_units c.management_units))),
      "effect_closure_touches_management_path_beyond_backend_runtime",
    )
    ∷ (not agent_ok, "localplane_agent_not_proven_outside_closure_as_host_service")
    ∷ (
      agent_ok && not (reason_is_clear p localplane_agent),
      "localplane_agent_protection_reason_not_clear",
    )
    ∷ (
      not (c.effect_complete && c.management_complete && c.agent_complete),
      "lifecycle_context_incomplete",
    )
    ∷ (not (is_empty c.gaps), "lifecycle_context_carries_unresolved_gaps")
    ∷ (not is_protected, not_protected_reason p.status)
    ∷ (
      is_protected && not (only_management_path p.reasons),
      "protection_carries_reasons_beyond_the_management_path",
    )
    ∷ []

unfoldable pub ineligibility : Context → ProtectionAssessment → SelfImpactStatus → List String
ineligibility c p status = from_keys (failing (ineligibility_tests c p status))

abbrev pub may_interrupt : SelfImpactStatus → Bool
may_interrupt proven = true
may_interrupt possible = true
may_interrupt _ = false

unfoldable pub assess_backend_self_impact : Context → ProtectionAssessment → SelfImpact
assess_backend_self_impact c p =
    let (status, detail, unit) = status_of c in
    let reasons = ineligibility c p status in
    record {
      subject = "localplane_backend_runtime";
      status = status;
      outage = if may_interrupt status then outage_of c.action else no_outage;
      override_eligible = is_empty reasons;
      detail = detail;
      owner_unit_id = unit;
      envelope = if is_empty reasons then some docker_direct_unix_contract else none;
      reasons = reasons;
    }
