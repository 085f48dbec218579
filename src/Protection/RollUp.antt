-- ===== src/Protection/RollUp.antt =====
-- The roll-up: the status in all, by the status of each reason.
use local_plane.Prelude.{
  String, ◌≡◌, refl, inl, inr, ◌↔◌, Bool, true, false, some, List, [], ◌∷◌, any, if◌then◌else◌,
  arith, Bool-cases,
}
use local_plane.Protection.{
  ProtectionStatus, protected, clear, ProtectionReason, ManagementPathRelation,
  ManagementPathVerdict, ReasonAssessment, ProtectionAssessment, has_status, status_eq,
  reasons_with, first_with, roll_up_protection, roll_up_by, rolled, relation_status, path_relation,
  assess_management_path_reason, assess_resource_protection,
}

-- The status in all: protected if any reason is, else unknown if any reason is open, else clear.
abbrev pub overall : List ReasonAssessment → ProtectionStatus
overall es =
    if any (has_status protected) es
    then protected
    else if any (has_status ProtectionStatus.unknown) es
    then ProtectionStatus.unknown
    else clear

-- The first entry that has the status in all decides the reported reason.
pub record IsRolledUp (es : List ReasonAssessment) (relation : ManagementPathRelation)
    (p : ProtectionAssessment) : Type 0 where
  pub status : p.status ≡ overall es
  pub path : p.management_path ≡ relation
  pub decisive : (e : ReasonAssessment) × (first_with p.status es ≡ some e) × (p.reason ≡ e.detail)
  pub reasons : (p.reasons ≡ []) ↔ (any (has_status protected) es ≡ false)
  pub unresolved : (p.unresolved ≡ []) ↔ (any (has_status ProtectionStatus.unknown) es ≡ false)

first_with-any :
    (s : ProtectionStatus) (es : List ReasonAssessment)
    → any (has_status s) es ≡ true
    → (e : ReasonAssessment) × (first_with s es ≡ some e)
unfolding first_with
first_with-any s [] h = cc
first_with-any s (e ∷ es) h = elim (Bool-cases (has_status s e)) [
  | inl here ↦ (e, ground arith)
  | inr there ↦ let (x, q) = first_with-any s es (ground arith) in (x, ground arith)
]

reasons_with-any :
    (s : ProtectionStatus) (es : List ReasonAssessment)
    → (reasons_with s es ≡ []) ↔ (any (has_status s) es ≡ false)
unfolding reasons_with
reasons_with-any s [] = (λ h. refl, λ h. refl)
reasons_with-any s (e ∷ es) = elim (Bool-cases (has_status s e)) [
  | inl here ↦ (λ h. ground arith, λ h. ground arith)
  | inr there ↦
      let (f, b) = reasons_with-any s es in (λ h. ground (arith, f), λ h. ground (arith, b))
]

any-cons :
    (s : ProtectionStatus) (es : List ReasonAssessment) {p : ProtectionReason}
    {ps : List ProtectionReason}
    → reasons_with s es ≡ p ∷ ps
    → any (has_status s) es ≡ true
any-cons s es h = elim (Bool-cases (any (has_status s) es)) [
  | inl t ↦ t
  | inr f ↦ ground (arith, (reasons_with-any s es).1 f)
]

-- What `rolled` gives where the deciding entry is found.
decided :
    (s : ProtectionStatus) (entries : List ReasonAssessment) (relation : ManagementPathRelation)
    (missing : List String) (x : ReasonAssessment)
    → first_with s entries ≡ some x
    → s ≡ overall entries
    → (p : ProtectionAssessment) × (rolled s (first_with s entries) entries relation missing
        ≡ some p)
      × IsRolledUp entries relation p
unfolding rolled
decided s entries relation missing x q o = (
  record {
    status = s;
    reasons = reasons_with protected entries;
    unresolved = reasons_with ProtectionStatus.unknown entries;
    assessed = entries;
    management_path = relation;
    reason = x.detail;
    missing_evidence = missing;
  },
  rw q,
  record {
    path = refl;
    status = o;
    decisive = (x, q, refl);
    reasons = reasons_with-any protected entries;
    unresolved = reasons_with-any ProtectionStatus.unknown entries;
  },
)

roll_by :
    (e : ReasonAssessment) (es : List ReasonAssessment) (relation : ManagementPathRelation)
    (missing : List String) (ps us : List ProtectionReason)
    → reasons_with protected (e ∷ es) ≡ ps
    → reasons_with ProtectionStatus.unknown (e ∷ es) ≡ us
    → (p : ProtectionAssessment) × (roll_up_by ps us e (e ∷ es) relation missing ≡ some p)
      × IsRolledUp (e ∷ es) relation p
unfolding roll_up_by
roll_by e es relation missing (p ∷ ps) us hp hu =
    let yes_any = any-cons protected (e ∷ es) hp in
    let (x, q) = first_with-any protected (e ∷ es) yes_any in
    decided protected (e ∷ es) relation missing x q (ground arith)
roll_by e es relation missing [] (u ∷ us) hp hu =
    let yes_any = any-cons ProtectionStatus.unknown (e ∷ es) hu in
    let (x, q) = first_with-any ProtectionStatus.unknown (e ∷ es) yes_any in
    decided ProtectionStatus.unknown (e ∷ es) relation missing x q
      (ground (arith, (reasons_with-any protected (e ∷ es)).0 hp))
roll_by e es relation missing [] [] hp hu =
    let a = (reasons_with-any protected (e ∷ es)).0 hp in
    let b = (reasons_with-any ProtectionStatus.unknown (e ∷ es)).0 hu in
    (
      _,
      refl,
      record {
        path = refl;
        status = ground arith;
        decisive = (e, unfold first_with in ground arith, refl);
        reasons = reasons_with-any protected (e ∷ es);
        unresolved = reasons_with-any ProtectionStatus.unknown (e ∷ es);
      },
    )

-- Over one reason or more the roll-up succeeds: the target is protected if any reason protects it,
-- else open if any reason is open, else clear; the reported reason is that of the first entry with
-- that status, and protecting or open reasons are listed exactly where there are any, the open ones also
-- where the target is protected.
pub roll_up_protection-IsRolledUp :
    (e : ReasonAssessment) (es : List ReasonAssessment) (relation : ManagementPathRelation)
    (missing : List String)
    → (p : ProtectionAssessment) × (roll_up_protection (e ∷ es) relation missing ≡ some p)
      × IsRolledUp (e ∷ es) relation p
unfolding roll_up_protection
roll_up_protection-IsRolledUp e es relation missing = roll_by e es relation missing _ _ refl refl

-- The protection of one resource, by the management path alone: an operation that cannot affect the
-- path leaves it clear; else it is protected exactly where the path is confirmed to run over it, clear
-- where the path is confirmed to run over another, and open where nothing is confirmed.
pub assess_resource_protection-status :
    (verdict : ManagementPathVerdict) (resource_id : String) (applicable : Bool)
    → (p : ProtectionAssessment) × (assess_resource_protection verdict resource_id applicable
        ≡ some p)
      × (p.management_path ≡ path_relation verdict resource_id)
      × (p.status
          ≡ (if applicable then relation_status (path_relation verdict resource_id) else clear))
unfolding assess_resource_protection
assess_resource_protection-status verdict resource_id applicable =
    let (p, e, r) =
      roll_up_protection-IsRolledUp (assess_management_path_reason verdict resource_id applicable).0
        [] (assess_management_path_reason verdict resource_id applicable).1
        (if status_eq (assess_management_path_reason verdict resource_id applicable).0.status
            ProtectionStatus.unknown
          then verdict.missing_evidence
          else []) in
    (
      p,
      e,
      unfold assess_management_path_reason in ground (arith, r.path),
      unfold assess_management_path_reason in ground (arith, r.status),
    )
