-- ===== src/Policy/Guard.antt =====
-- When a guard is offered.
use local_plane.Prelude.{◌≡◌, ◌↔◌, ◌⊎◌, Bool, true, [], arith}
use local_plane.Protection.{on_management_path, ProtectionAssessment}
use local_plane.Policy.{OperationDefinition, auto, available, guard_not_required, assess_guard}

-- Every prerequisite that can be judged before an attempt.
pub record GuardOpen (d : OperationDefinition) (protection : ProtectionAssessment) (declared : Bool)
    : Type 0 where
  pub affects : d.can_affect_management_path ≡ true
  pub proven : protection.management_path ≡ on_management_path
  pub guarded : d.guarded_execution ≡ true
  pub reversible : d.rollback_possible ≡ true
  pub automatic : d.recovery_mode ≡ auto
  pub capable : declared ≡ true

module _ (d : OperationDefinition) (protection : ProtectionAssessment) (declared : Bool) where
  -- A guard is available exactly when the operation can affect the path and has an unattended
  -- reversal, the target is proven to be the path, and the agent declares the capability.
  pub assess_guard-available_iff :
      ((assess_guard d protection declared).availability ≡ available)
      ↔ GuardOpen d protection declared
  unfolding assess_guard
  assess_guard-available_iff = (λ h. ground arith, λ h. ground arith)

  -- A guard is refused with nothing unmet exactly when none is required, and an available one has
  -- nothing unmet.
  pub assess_guard-unmet : ((assess_guard d protection declared).unmet ≡ []) ↔ (
      ((assess_guard d protection declared).availability ≡ available)
      ⊎ ((assess_guard d protection declared).reason ≡ guard_not_required))
  unfolding assess_guard
  assess_guard-unmet = (λ h. ground arith, λ h. ground arith)
