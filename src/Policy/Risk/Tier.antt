-- ===== src/Policy/Risk/Tier.antt =====
-- The tier is the highest floor, and what makes a change risky raises it.
use local_plane.Prelude.{
  ◌≤◌, String, ◌≡◌, refl, sym, Bool-cases, All-split, ◌≢◌, ◌⊎◌, inl, inr, Bool, true, false, Option,
  none, some, List, [], ◌∷◌, ltb, arith, All, All-split, sym, Bool-cases, if◌then◌else◌, str_eq,
}
use mathlib.Core.Path.{subst}
use local_plane.Protection.{
  ProtectionStatus, protected, clear, ProtectionReason, ManagementPathRelation, on_management_path,
  not_on_management_path, ProtectionAssessment,
}
use local_plane.Policy.{RiskTier, low, risk_order, RiskFactor, OperationDefinition}
use local_plane.Policy.Risk.{
  highest, further_factors, assess_risk, block_factors, gap_factors, protection_factors,
  destructive_factors, reason_factors, path_factors,
}

infix 50 ◌≤ᵗ◌
abbrev pub ◌≤ᵗ◌ : RiskTier → RiskTier → Type 0
a ≤ᵗ b = risk_order a ≤ risk_order b

abbrev pub Reaches : RiskTier → RiskFactor → Type 0
Reaches t f = f.floor ≤ᵗ t

-- One of the factors has the floor.
abbrev pub HasFloor : RiskTier → List RiskFactor → Type 0
HasFloor t [] = ⊥
HasFloor t (f ∷ fs) = (f.floor ≡ t) ⊎ HasFloor t fs

highest-ge : (t : RiskTier) (fs : List RiskFactor) → t ≤ᵗ highest t fs
unfolding highest
highest-ge t [] = omega arith
highest-ge t (f ∷ fs) =
    ground (arith, highest-ge (if ltb (risk_order t) (risk_order f.floor) then f.floor else t) fs)

highest-Reaches : (t : RiskTier) (fs : List RiskFactor) → All (Reaches (highest t fs)) fs
unfolding highest
highest-Reaches t [] = tt
highest-Reaches t (f ∷ fs) =
    let t' = if ltb (risk_order t) (risk_order f.floor) then f.floor else t in
    (ground (arith, highest-ge t' fs), highest-Reaches t' fs)

-- The same, when the next factor is taken or not.
HasFloor-next :
    (t : RiskTier) (f : RiskFactor) (fs : List RiskFactor) (take_it : Bool)
    → let next = if take_it then f.floor else t in
      (highest next fs ≡ next) ⊎ HasFloor (highest next fs) fs
      → (highest next fs ≡ t) ⊎ HasFloor (highest next fs) (f ∷ fs)
HasFloor-next t f fs true (inl e) = inr (inl (sym e))
HasFloor-next t f fs true (inr h) = inr (inr h)
HasFloor-next t f fs false (inl e) = inl e
HasFloor-next t f fs false (inr h) = inr (inr h)

highest-HasFloor :
    (t : RiskTier) (fs : List RiskFactor) → (highest t fs ≡ t) ⊎ HasFloor (highest t fs) fs
unfolding highest
highest-HasFloor t [] = inl refl
highest-HasFloor t (f ∷ fs) =
    let raises = ltb (risk_order t) (risk_order f.floor) in
    HasFloor-next t f fs raises (highest-HasFloor (if raises then f.floor else t) fs)

-- The tier is the floor of one of the factors, and no factor has a higher floor.
pub assess_risk-tier :
    (d : OperationDefinition) (block : Option String) (gaps : List String)
    (p : ProtectionAssessment)
    → let r = assess_risk d block gaps p in
      HasFloor r.tier r.factors × All (Reaches r.tier) r.factors
unfolding assess_risk
assess_risk-tier d block gaps p =
    let fs = further_factors d block gaps p in
    (
      elim (highest-HasFloor d.base_risk fs) [ inl e ↦ inl (sym e) | inr h ↦ inr h ],
      (highest-ge d.base_risk fs, highest-Reaches d.base_risk fs),
    )

-- What a low risk rules out.
pub record Harmless (d : OperationDefinition) (block : Option String) (gaps : List String)
    (p : ProtectionAssessment) : Type 0 where
  pub base : d.base_risk ≡ low
  pub unblocked : block ≡ none
  pub complete : gaps ≡ []
  pub reversible : d.destructive ≡ false
  pub off_path :
      d.can_affect_management_path ≡ true
      → d.protection_uses_resource_relation ≡ true
      → p.management_path ≡ not_on_management_path
  pub settled :
      d.can_affect_management_path ≡ true
      → d.protection_uses_resource_relation ≡ false
      → p.status ≢ ProtectionStatus.unknown

low_block : (block : Option String) → All (Reaches low) (block_factors block) → block ≡ none
low_block none h = refl
low_block (some reason) h = elim (Bool-cases (str_eq reason "conflicting_ownership_claims")) [
  | inl c ↦ absurd (ground arith)
  | inr c ↦ absurd (ground arith)
]

low_gaps : (gaps : List String) → All (Reaches low) (gap_factors gaps) → gaps ≡ []
low_gaps [] h = refl
low_gaps (g ∷ gs) h = absurd (omega arith)

low_path :
    (m : ManagementPathRelation) → All (Reaches low) (path_factors m) → m ≡ not_on_management_path
low_path not_on_management_path h = refl
low_path on_management_path h = absurd (omega arith)
low_path ManagementPathRelation.unknown h = absurd (omega arith)

low_reasons :
    (s : ProtectionStatus) (rs : List ProtectionReason)
    → All (Reaches low) (reason_factors s rs)
    → s ≢ ProtectionStatus.unknown
low_reasons ProtectionStatus.unknown rs h e = absurd (omega arith)
low_reasons protected rs h e = cc
low_reasons clear rs h e = cc

module _ (d : OperationDefinition) (p : ProtectionAssessment)
    (h : All (Reaches low) (protection_factors d p)) where
  low_off_path :
      d.can_affect_management_path ≡ true
      → d.protection_uses_resource_relation ≡ true
      → p.management_path ≡ not_on_management_path
  low_off_path a u = low_path p.management_path (rw (a, u) at h)

  low_settled :
      d.can_affect_management_path ≡ true
      → d.protection_uses_resource_relation ≡ false
      → p.status ≢ ProtectionStatus.unknown
  low_settled a u = low_reasons p.status p.reasons (rw (a, u) at h)

low_destructive :
    (d : OperationDefinition) → All (Reaches low) (destructive_factors d) → d.destructive ≡ false
low_destructive d h = ground arith

-- A low risk means that the operation is itself of low risk and reversible, nobody else owns the
-- target, no ownership evidence is missing, and, where the operation can affect the management path, the
-- target is proven off it or the target's own protection is settled.
pub assess_risk-Harmless :
    (d : OperationDefinition) (block : Option String) (gaps : List String)
    (p : ProtectionAssessment)
    → (assess_risk d block gaps p).tier ≡ low
    → Harmless d block gaps p
unfolding assess_risk further_factors
assess_risk-Harmless d block gaps p e =
    let (ge, reach) = (assess_risk-tier d block gaps p).1 in
    let all_low = subst (λ t. All (Reaches t) (further_factors d block gaps p)) e reach in
    let (x, rest) = All-split (Reaches low) d.extra_risk_factors _ all_low in
    let (b, rest') = All-split (Reaches low) (block_factors block) _ rest in
    let (g, rest'') = All-split (Reaches low) (gap_factors gaps) _ rest' in
    let (q, s) = All-split (Reaches low) (protection_factors d p) (destructive_factors d) rest'' in
    record {
      base = ground (arith, ge, e);
      unblocked = low_block block b;
      complete = low_gaps gaps g;
      reversible = low_destructive d s;
      off_path = low_off_path d p q;
      settled = low_settled d p q;
    }
