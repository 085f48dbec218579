-- ===== src/Policy/Execution.antt =====
-- src/localplane/backend/domain/policy.py: `assess_execution`, what stands in the way of a plan and which way
-- is open.
pub mod Open
use local_plane.Prelude.{
  ℕ, String, Bool, true, false, not, ◌&&◌, Option, none, some, List, [], ◌∷◌, ◌++◌, map, length,
  drop, str_eq, from_keys, if◌then◌else◌,
}
use local_plane.Protection.{
  ProtectionStatus, protected, clear, ProtectionReason, ManagementPathRelation, on_management_path,
  not_on_management_path, ProtectionAssessment, relation_eq,
}
use local_plane.Lifecycle.Applicable.{is_empty}
use local_plane.SelfImpact.{SelfImpact}
use local_plane.Policy.{OperationDefinition, GuardPlan, guard_available}
use local_plane.Policy.Risk.{protected_code, unresolved_code}

-- src/localplane/backend/domain/runs.py
pub data ExecutionAvailability : Type 0 where
  available unavailable not_implemented : ExecutionAvailability

pub data ExecutionEligibility : Type 0 where
  eligible guarded self_impact_override_required blocked : ExecutionEligibility

pub record ExecutionAssessment : Type 0 where
  pub availability : ExecutionAvailability
  pub eligibility : ExecutionEligibility
  pub blockers : List String
  pub provider : Option String
  pub required_capability : String
  pub capability_declared_by_agent : Bool

-- The arguments of `assess_execution` beside the operation's definition.
pub record ExecutionInput : Type 0 where
  pub availability : ExecutionAvailability
  pub provider : Option String
  pub capability_declared : Bool
  pub ownership_block_reason : Option String
  pub ownership_gaps : List String
  pub protection : ProtectionAssessment
  pub guard : GuardPlan
  pub self_impact : Option SelfImpact

abbrev pub self_impact_override_blocker : String
self_impact_override_blocker = "protected:management_path"

abbrev pub availability_blockers : ExecutionAvailability → List String
availability_blockers available = []
availability_blockers _ = "execution_not_implemented" ∷ []

abbrev pub reason_blockers : Option String → List String
reason_blockers none = []
reason_blockers (some reason) = reason ∷ []

-- The blockers before protection is asked.
unfoldable pub ordinary_blockers : ExecutionInput → List String
ordinary_blockers i =
    availability_blockers i.availability
    ++ ((if i.capability_declared then [] else "required_capability_undeclared" ∷ [])
        ++ (reason_blockers i.ownership_block_reason
            ++ (if is_empty i.ownership_gaps then [] else "ownership_evidence_incomplete" ∷ [])))

-- By the reasons that a target has of its own.
abbrev pub typed_blockers : ProtectionAssessment → List String
typed_blockers p = elim p.status [
  | protected ↦ map protected_code p.reasons
  | ProtectionStatus.unknown ↦ map unresolved_code p.unresolved
  | clear ↦ []
]

-- By the target's relation to the management path.
abbrev pub relation_blockers : ManagementPathRelation → List String
relation_blockers on_management_path = "target_is_management_path" ∷ []
relation_blockers ManagementPathRelation.unknown = "management_path_unproven" ∷ []
relation_blockers not_on_management_path = []

unfoldable pub protection_blockers : OperationDefinition → ProtectionAssessment → List String
protection_blockers d p =
    if not d.can_affect_management_path
    then []
    else if not d.protection_uses_resource_relation
    then typed_blockers p
    else relation_blockers p.management_path

unfoldable pub on_the_path : OperationDefinition → ProtectionAssessment → Bool
on_the_path d p =
    d.can_affect_management_path
    && d.protection_uses_resource_relation
    && relation_eq p.management_path on_management_path

abbrev pub may_override : Option SelfImpact → Bool
may_override none = false
may_override (some s) = s.override_eligible

-- `protection_only == (SELF_IMPACT_OVERRIDE_BLOCKER,)`
abbrev pub only_override_blocker : List String → Bool
only_override_blocker (b ∷ []) = str_eq b self_impact_override_blocker
only_override_blocker _ = false

unfoldable pub eligibility_of : OperationDefinition → ExecutionInput → ExecutionEligibility
eligibility_of d i =
    let ordinary_only = from_keys (ordinary_blockers i) in
    let blockers = ordinary_blockers i ++ protection_blockers d i.protection in
    let protection_only = drop (length ordinary_only) blockers in
    if is_empty blockers
    then eligible
    else if on_the_path d i.protection && guard_available i.guard && is_empty ordinary_only
    then guarded
    else if may_override i.self_impact
        && is_empty ordinary_only
        && only_override_blocker protection_only
    then self_impact_override_required
    else blocked

unfoldable pub assess_execution : OperationDefinition → ExecutionInput → ExecutionAssessment
assess_execution d i = record {
  availability = i.availability;
  eligibility = eligibility_of d i;
  blockers = from_keys (ordinary_blockers i ++ protection_blockers d i.protection);
  provider = i.provider;
  required_capability = d.required_capability;
  capability_declared_by_agent = i.capability_declared;
}
