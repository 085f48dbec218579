-- ===== src/Policy/Confirmation.antt =====
-- src/localplane/backend/domain/policy.py: `effective_confirmation`, what confirming a plan would take.
pub mod Required
use local_plane.Prelude.{
  ℕ, String, Bool, true, false, not, ◌&&◌, ◌||◌, Option, none, some, List, [], ◌∷◌, ◌++◌, leb,
  str_eq, if◌then◌else◌,
}
use local_plane.Protection.{
  ManagementPathRelation, on_management_path, not_on_management_path, ProtectionAssessment,
  relation_eq,
}
use local_plane.Lifecycle.Applicable.{is_empty}
use local_plane.Policy.{
  RiskTier, low, medium, high, risk_order, RiskAssessment, OperationDefinition,
}

-- src/localplane/backend/domain/runs.py
pub data ConfirmationMethod : Type 0 where
  no_method acknowledge typed policy : ConfirmationMethod

pub record ConfirmationRequirement : Type 0 where
  pub required : Bool
  pub method : ConfirmationMethod
  pub source : String
  pub reasons : List String
  pub policy : String
  pub token_issued : Bool
  pub satisfiable : Bool
  pub unsatisfiable_reason : Option String

abbrev confirmation_policy : String
confirmation_policy =
    "required for medium and high risk, for anything that can remove the management path, and for anything that cannot be undone"

abbrev pub risk_reason : RiskTier → String
risk_reason low = "low risk — policy requires confirmation from medium"
risk_reason medium = "medium risk — policy requires confirmation from medium"
risk_reason high = "high risk — policy requires confirmation from medium"

abbrev pub path_reason : ManagementPathRelation → String
path_reason on_management_path = "this object carries the path this console is reached over"
path_reason _ = "this change could remove the path this console is reached over"

-- `CONFIRM_FROM_RISK`
abbrev pub from_risk : RiskTier → Bool
from_risk tier = leb (risk_order medium) (risk_order tier)

abbrev pub near_path : OperationDefinition → ProtectionAssessment → Bool
near_path d p =
    d.can_affect_management_path && not (relation_eq p.management_path not_on_management_path)

-- A reason that is named only where nothing before it requires a confirmation.
abbrev pub first_reason : Bool → Bool → String → List String
first_reason required holds reason = if holds && not required then reason ∷ [] else []

abbrev requested_reasons : OperationDefinition → List String
requested_reasons d = elim d.confirmation_reason [
  | none ↦ []
  | some reason ↦ if d.confirmation_requested && not (str_eq reason "") then reason ∷ [] else []
]

confirmation_reasons : OperationDefinition → RiskTier → ProtectionAssessment → List String
confirmation_reasons d tier p =
    let by_request = d.confirmation_requested in
    let by_risk = by_request || from_risk tier in
    let by_path = by_risk || near_path d p in
    requested_reasons d
    ++ (first_reason by_request (from_risk tier) (risk_reason tier)
        ++ (first_reason by_risk (near_path d p) (path_reason p.management_path)
            ++ first_reason by_path d.destructive "this cannot be undone"))

unfoldable pub effective_confirmation :
    OperationDefinition → RiskAssessment → ProtectionAssessment → Bool → ConfirmationRequirement
unfolding confirmation_reasons
effective_confirmation d risk p execution_available =
    let required =
      d.confirmation_requested || from_risk risk.tier || near_path d p || d.destructive in
    let typed_in = near_path d p || d.destructive in
    let reasons = confirmation_reasons d risk.tier p in
    let unsatisfiable = if execution_available then none else some "execution_not_implemented" in
    if not required
    then record {
      required = false;
      method = no_method;
      source = "policy";
      reasons = "low risk, no management-path impact, reversible" ∷ [];
      policy = confirmation_policy;
      token_issued = false;
      satisfiable = execution_available;
      unsatisfiable_reason = unsatisfiable;
    }
    else record {
      required = true;
      method = if typed_in then typed else acknowledge;
      source = if d.confirmation_requested then "operation" else "policy";
      reasons = if is_empty reasons then "policy" ∷ [] else reasons;
      policy = confirmation_policy;
      token_issued = false;
      satisfiable = execution_available;
      unsatisfiable_reason = unsatisfiable;
    }
