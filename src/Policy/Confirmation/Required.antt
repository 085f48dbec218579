-- ===== src/Policy/Confirmation/Required.antt =====
-- When a confirmation is required, and of which method.
use local_plane.Prelude.{◌≡◌, ◌≢◌, ◌↔◌, ◌⊎◌, Bool, true, false, Option, List, arith, String}
use local_plane.Protection.{not_on_management_path, ProtectionAssessment}
use local_plane.Policy.{low, RiskAssessment, OperationDefinition}
use local_plane.Policy.Risk.{assess_risk}
use local_plane.Policy.Risk.Tier.{Harmless, assess_risk-Harmless}
use local_plane.Policy.Confirmation.{effective_confirmation, typed}

-- The plans that need no confirmation.
pub record Exempt (d : OperationDefinition) (risk : RiskAssessment) (p : ProtectionAssessment)
    : Type 0 where
  pub unasked : d.confirmation_requested ≡ false
  pub low_risk : risk.tier ≡ low
  pub off_path : d.can_affect_management_path ≡ true → p.management_path ≡ not_on_management_path
  pub reversible : d.destructive ≡ false

-- The plans that somebody has to type a confirmation for.
abbrev pub MayCutOff : OperationDefinition → ProtectionAssessment → Type 0
MayCutOff d p =
    (d.destructive ≡ true)
    ⊎ ((d.can_affect_management_path ≡ true) × (p.management_path ≢ not_on_management_path))

module _ (d : OperationDefinition) (risk : RiskAssessment) (p : ProtectionAssessment)
    (execution_available : Bool) where
  -- No confirmation is required exactly where the operation does not ask for one, the risk is low, the
  -- target is proven off the management path if the operation can affect it, and the change can be
  -- undone.
  pub effective_confirmation-Exempt_iff :
      ((effective_confirmation d risk p execution_available).required ≡ false) ↔ Exempt d risk p
  unfolding effective_confirmation
  effective_confirmation-Exempt_iff = (
    λ h. record {
      unasked = ground arith;
      low_risk = ground arith;
      off_path = λ a. ground arith;
      reversible = ground arith;
    },
    λ h. ground (arith, h.off_path),
  )

  -- The confirmation is typed exactly where the change cannot be undone, or can affect the management
  -- path and its target is not proven off it.
  pub effective_confirmation-typed_iff :
      ((effective_confirmation d risk p execution_available).method ≡ typed) ↔ MayCutOff d p
  unfolding effective_confirmation
  effective_confirmation-typed_iff = (λ h. ground arith, λ h. ground arith)

-- A plan whose assessed risk asks for no confirmation is harmless: its target is not owned by another,
-- its ownership evidence is complete, it can be undone, and its protection is settled.
pub unconfirmed-Harmless :
    (d : OperationDefinition) (block : Option String) (gaps : List String)
    (p : ProtectionAssessment) (execution_available : Bool)
    → (effective_confirmation d (assess_risk d block gaps p) p execution_available).required ≡ false
    → Harmless d block gaps p
unconfirmed-Harmless d block gaps p execution_available h =
    assess_risk-Harmless d block gaps p
      ((effective_confirmation-Exempt_iff d _ p execution_available).0 h).low_risk
