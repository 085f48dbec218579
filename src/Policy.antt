-- ===== src/Policy.antt =====
-- src/localplane/backend/domain/policy.py: the judgements on a plan. The texts that are only shown (a
-- summary, a factor's detail, the guarantee, the execution's note) are left out.
pub mod Guard
pub mod Risk
pub mod Confirmation
pub mod Execution
use local_plane.Prelude.{
  ℕ, String, Bool, true, false, not, ◌&&◌, ◌||◌, Option, none, some, List, [], ◌∷◌, ◌++◌, map, ltb,
  leb, if◌then◌else◌,
}
use local_plane.Protection
use local_plane.Protection.{
  ProtectionStatus, protected, clear, ProtectionReason, management_path, localplane_agent,
  ManagementPathRelation, on_management_path, not_on_management_path, ProtectionAssessment,
  relation_eq, status_eq,
}

-- src/localplane/backend/domain/runs.py
pub data RiskTier : Type 0 where
  low medium high : RiskTier

abbrev pub risk_order : RiskTier → ℕ
risk_order low = 0
risk_order medium = 1
risk_order high = 2

pub data RecoveryMode : Type 0 where
  auto operator none_mode : RecoveryMode

pub record RiskFactor : Type 0 where
  pub code : String
  pub floor : RiskTier

pub record RiskAssessment : Type 0 where
  pub tier : RiskTier
  pub factors : List RiskFactor

pub record OperationDefinition : Type 0 where
  pub operation : String
  pub target_kind : String
  pub base_risk : RiskTier
  pub destructive : Bool
  pub can_affect_management_path : Bool
  pub recovery_mode : RecoveryMode
  pub rollback_possible : Bool
  pub required_capability : String
  pub protection_uses_resource_relation : Bool
  pub guarded_execution : Bool
  pub acts_through_provider : Option String
  pub confirmation_requested : Bool
  pub confirmation_reason : Option String
  pub extra_risk_factors : List RiskFactor

-- src/localplane/backend/domain/guard.py
pub data GuardAvailability : Type 0 where
  available unavailable : GuardAvailability

pub data GuardPrerequisite : Type 0 where
  operation_is_reversible target_is_proven_management_path : GuardPrerequisite
  recovery_material_is_armed guard_capability_declared host_side_guard_accepted : GuardPrerequisite

pub data GuardReason : Type 0 where
  guarded_execution_available guard_not_required operation_has_no_unattended_reversal : GuardReason
  guard_capability_undeclared management_path_unproven : GuardReason

pub record GuardPlan : Type 0 where
  pub availability : GuardAvailability
  pub reason : GuardReason
  pub window_s : ℕ
  pub prerequisites : List GuardPrerequisite
  pub unmet : List GuardPrerequisite

abbrev pub guard_window_s : ℕ
guard_window_s = 120

abbrev pub guard_prerequisites : List GuardPrerequisite
guard_prerequisites =
    operation_is_reversible ∷ target_is_proven_management_path ∷ guard_capability_declared
    ∷ recovery_material_is_armed ∷ host_side_guard_accepted ∷ []

abbrev pub guard_available : GuardPlan → Bool
guard_available g = elim g.availability [ available ↦ true | unavailable ↦ false ]

refuse_guard : GuardReason → List GuardPrerequisite → GuardPlan
refuse_guard reason unmet = record {
  availability = unavailable;
  reason = reason;
  window_s = guard_window_s;
  prerequisites = guard_prerequisites;
  unmet = unmet;
}

abbrev pub is_auto : RecoveryMode → Bool
is_auto auto = true
is_auto _ = false

unfoldable pub assess_guard : OperationDefinition → ProtectionAssessment → Bool → GuardPlan
unfolding refuse_guard
assess_guard d protection capability_declared =
    let reversible = d.guarded_execution && d.rollback_possible && is_auto d.recovery_mode in
    if not d.can_affect_management_path
      || relation_eq protection.management_path not_on_management_path
    then refuse_guard guard_not_required []
    else if not reversible
    then refuse_guard operation_has_no_unattended_reversal (operation_is_reversible ∷ [])
    else if not (relation_eq protection.management_path on_management_path)
    then refuse_guard management_path_unproven (target_is_proven_management_path ∷ [])
    else if not capability_declared
    then refuse_guard guard_capability_undeclared (guard_capability_declared ∷ [])
    else record {
      availability = available;
      reason = guarded_execution_available;
      window_s = guard_window_s;
      prerequisites = guard_prerequisites;
      unmet = [];
    }

-- assess_protection
unfoldable pub assess_protection :
    OperationDefinition → Protection.ManagementPathVerdict → String → Option ProtectionAssessment
assess_protection d verdict resource_id =
    Protection.assess_resource_protection verdict resource_id d.can_affect_management_path
