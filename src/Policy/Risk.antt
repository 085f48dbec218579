-- ===== src/Policy/Risk.antt =====
-- src/localplane/backend/domain/policy.py: `assess_risk`, the tier and the factors that raise it.
pub mod Tier
use local_plane.Prelude.{
  ℕ, String, Bool, true, false, not, ◌&&◌, Option, none, some, List, [], ◌∷◌, ◌++◌, map, ltb,
  str_eq, if◌then◌else◌,
}
use local_plane.Protection.{
  ProtectionStatus, protected, clear, ProtectionReason, management_path, localplane_agent,
  ManagementPathRelation, on_management_path, not_on_management_path, ProtectionAssessment,
}
use local_plane.Policy.{
  RiskTier, low, medium, high, risk_order, RiskFactor, RiskAssessment, OperationDefinition,
}

-- f"protected:{reason}", f"protection_unresolved:{reason}"
abbrev pub protected_code : ProtectionReason → String
protected_code management_path = "protected:management_path"
protected_code localplane_agent = "protected:localplane_agent"

abbrev pub unresolved_code : ProtectionReason → String
unresolved_code management_path = "protection_unresolved:management_path"
unresolved_code localplane_agent = "protection_unresolved:localplane_agent"

abbrev pub factor : String → RiskTier → RiskFactor
factor code floor = record { code = code; floor = floor }

abbrev pub block_factors : Option String → List RiskFactor
block_factors none = []
block_factors (some reason) =
    if str_eq reason "conflicting_ownership_claims"
    then factor "conflicting_ownership_claims" high ∷ []
    else factor reason high ∷ []

abbrev pub gap_factors : List String → List RiskFactor
gap_factors [] = []
gap_factors (g ∷ gs) = factor "ownership_evidence_incomplete" medium ∷ []

-- A target whose protection has reasons of its own.
abbrev pub reason_factors : ProtectionStatus → List ProtectionReason → List RiskFactor
reason_factors protected reasons = map (λ r. factor (protected_code r) high) reasons
reason_factors ProtectionStatus.unknown reasons =
    factor "protection_evidence_incomplete" medium ∷ []
reason_factors clear reasons = []

-- A target that is judged by the management path alone.
abbrev pub path_factors : ManagementPathRelation → List RiskFactor
path_factors on_management_path = factor "target_is_management_path" high ∷ []
path_factors ManagementPathRelation.unknown = factor "management_path_unproven" medium ∷ []
path_factors not_on_management_path = []

abbrev pub protection_factors : OperationDefinition → ProtectionAssessment → List RiskFactor
protection_factors d p =
    if not d.can_affect_management_path
    then []
    else if not d.protection_uses_resource_relation
    then reason_factors p.status p.reasons
    else path_factors p.management_path

abbrev pub destructive_factors : OperationDefinition → List RiskFactor
destructive_factors d = if d.destructive then factor "irreversible_operation" high ∷ [] else []

-- `max((f.floor for f in factors), key=...)`: the first of the highest, from the first factor on
unfoldable pub highest : RiskTier → List RiskFactor → RiskTier
highest tier [] = tier
highest tier (f ∷ fs) =
    highest (if ltb (risk_order tier) (risk_order f.floor) then f.floor else tier) fs

-- The factors after the operation's own.
unfoldable pub further_factors :
    OperationDefinition → Option String → List String → ProtectionAssessment → List RiskFactor
further_factors d block gaps p =
    d.extra_risk_factors
    ++ (block_factors block
        ++ (gap_factors gaps ++ (protection_factors d p ++ destructive_factors d)))

unfoldable pub assess_risk :
    OperationDefinition → Option String → List String → ProtectionAssessment → RiskAssessment
assess_risk d block gaps p =
    let rest = further_factors d block gaps p in
    record {
      tier = highest d.base_risk rest;
      factors = factor "operation_base_risk" d.base_risk ∷ rest;
    }
