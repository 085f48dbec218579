-- ===== src/Protection.antt =====
-- src/localplane/backend/domain/protection.py: whether a target is protected, by each reason and in all.
-- A reason's `evidence` mapping, which is kept for display, is left out. `none` from `roll_up_protection` is
-- its exception.
pub mod RollUp
use local_plane.Prelude.{
  String, Bool, true, false, Option, none, some, List, [], ◌∷◌, map, select, str_eq, if◌then◌else◌,
}

pub data ProtectionStatus : Type 0 where
  protected clear unknown : ProtectionStatus

pub data ProtectionReason : Type 0 where
  management_path localplane_agent : ProtectionReason

pub data ManagementPathRelation : Type 0 where
  on_management_path not_on_management_path unknown : ManagementPathRelation

pub record ManagementPathVerdict : Type 0 where
  pub resource_id : Option String
  pub reason : String
  pub evidence_id : Option String
  pub observed_at : Option String
  pub missing_evidence : List String

pub record ReasonAssessment : Type 0 where
  pub reason : ProtectionReason
  pub status : ProtectionStatus
  pub detail : String
  pub evidence_id : Option String
  pub observed_at : Option String
  pub missing_evidence : List String

pub record ProtectionAssessment : Type 0 where
  pub status : ProtectionStatus
  pub reasons : List ProtectionReason
  pub unresolved : List ProtectionReason
  pub assessed : List ReasonAssessment
  pub management_path : ManagementPathRelation
  pub reason : String
  pub missing_evidence : List String

-- `status is ProtectionStatus.PROTECTED`, and so on
abbrev pub status_eq : ProtectionStatus → ProtectionStatus → Bool
status_eq protected protected = true
status_eq clear clear = true
status_eq ProtectionStatus.unknown ProtectionStatus.unknown = true
status_eq _ _ = false

abbrev pub reason_eq : ProtectionReason → ProtectionReason → Bool
reason_eq management_path management_path = true
reason_eq localplane_agent localplane_agent = true
reason_eq _ _ = false

abbrev pub relation_eq : ManagementPathRelation → ManagementPathRelation → Bool
relation_eq on_management_path on_management_path = true
relation_eq not_on_management_path not_on_management_path = true
relation_eq ManagementPathRelation.unknown ManagementPathRelation.unknown = true
relation_eq _ _ = false

unfoldable pub path_relation : ManagementPathVerdict → String → ManagementPathRelation
path_relation verdict resource_id = elim verdict.resource_id [
  | none ↦ ManagementPathRelation.unknown
  | some id ↦ if str_eq id resource_id then on_management_path else not_on_management_path
]

abbrev pub relation_status : ManagementPathRelation → ProtectionStatus
relation_status on_management_path = protected
relation_status not_on_management_path = clear
relation_status ManagementPathRelation.unknown = ProtectionStatus.unknown

relation_detail : ManagementPathRelation → ManagementPathVerdict → String
relation_detail on_management_path verdict = verdict.reason
relation_detail not_on_management_path verdict = "not_the_management_path"
relation_detail ManagementPathRelation.unknown verdict = verdict.reason

unfoldable pub assess_management_path_reason :
    ManagementPathVerdict → String → Bool → ReasonAssessment × ManagementPathRelation
unfolding path_relation relation_detail
assess_management_path_reason verdict resource_id applicable =
    let relation = path_relation verdict resource_id in
    (
      record {
        reason = management_path;
        status = if applicable then relation_status relation else clear;
        detail =
            if applicable
            then relation_detail relation verdict
            else "operation_cannot_affect_management_path";
        evidence_id = verdict.evidence_id;
        observed_at = verdict.observed_at;
        missing_evidence = [];
      },
      relation,
    )

abbrev pub has_status : ProtectionStatus → ReasonAssessment → Bool
has_status status e = status_eq e.status status

-- `tuple(e.reason for e in assessed if e.status is status)`
unfoldable pub reasons_with : ProtectionStatus → List ReasonAssessment → List ProtectionReason
reasons_with status assessed =
    map (λ (e : ReasonAssessment). e.reason) (select (has_status status) assessed)

-- `next(e for e in assessed if e.status is status)`
unfoldable pub first_with : ProtectionStatus → List ReasonAssessment → Option ReasonAssessment
first_with status [] = none
first_with status (e ∷ es) = if has_status status e then some e else first_with status es

rolled :
    ProtectionStatus
    → Option ReasonAssessment
    → List ReasonAssessment
    → ManagementPathRelation
    → List String
    → Option ProtectionAssessment
rolled status none assessed relation missing = none
rolled status (some decisive) assessed relation missing = some (record {
  status = status;
  reasons = reasons_with protected assessed;
  unresolved = reasons_with ProtectionStatus.unknown assessed;
  assessed = assessed;
  management_path = relation;
  reason = decisive.detail;
  missing_evidence = missing;
})

roll_up_by :
    List ProtectionReason
    → List ProtectionReason
    → ReasonAssessment
    → List ReasonAssessment
    → ManagementPathRelation
    → List String
    → Option ProtectionAssessment
unfolding rolled
roll_up_by (p ∷ ps) us first assessed relation missing =
    rolled protected (first_with protected assessed) assessed relation missing
roll_up_by [] (u ∷ us) first assessed relation missing =
    rolled ProtectionStatus.unknown (first_with ProtectionStatus.unknown assessed) assessed relation
      missing
roll_up_by [] [] first assessed relation missing =
    rolled clear (some first) assessed relation missing

unfoldable pub roll_up_protection :
    List ReasonAssessment → ManagementPathRelation → List String → Option ProtectionAssessment
unfolding roll_up_by
roll_up_protection [] relation missing = none
roll_up_protection (e ∷ es) relation missing =
    roll_up_by (reasons_with protected (e ∷ es)) (reasons_with ProtectionStatus.unknown (e ∷ es)) e
      (e ∷ es) relation missing

unfoldable pub assess_resource_protection :
    ManagementPathVerdict → String → Bool → Option ProtectionAssessment
assess_resource_protection verdict resource_id applicable =
    let (reason, relation) = assess_management_path_reason verdict resource_id applicable in
    roll_up_protection (reason ∷ []) relation
      (if status_eq reason.status ProtectionStatus.unknown then verdict.missing_evidence else [])
