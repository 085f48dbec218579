-- ===== src/Lifecycle/Protects.antt =====
-- When a lifecycle action is protected, open, or clear.
use local_plane.Prelude.{
  ◌≡◌, sym, sorted, from_keys, ◌++◌, Bool-cases, ◌↔◌, ◌⊎◌, inl, inr, true, some, [], ◌∷◌, arith,
}
use mathlib.Core.Path.{subst}
use local_plane.Protection.{protected, clear, ProtectionAssessment, ManagementPathRelation}
use local_plane.Protection.RollUp.{overall, roll_up_protection-IsRolledUp}
use local_plane.Lifecycle.{
  Context, touches_management, management_status, agent_status, is_member, is_named,
  assess_lifecycle_protection, management_reason, agent_reason,
}

-- The action's effects meet a unit that must not be touched.
abbrev pub Touches : Context → Type 0
Touches c = (touches_management c ≡ true) ⊎ (is_member c.effect_units c.agent_unit ≡ true)

-- Everything that could be touched is known.
pub record IsComplete (c : Context) : Type 0 where
  pub effects : c.effect_complete ≡ true
  pub management : c.management_complete ≡ true
  pub agent : c.agent_complete ≡ true
  pub agent_known : is_named c.agent_unit ≡ true

pub record Judged (c : Context) (p : ProtectionAssessment) : Type 0 where
  pub result : assess_lifecycle_protection c ≡ some p
  pub protected_iff : (p.status ≡ protected) ↔ Touches c
  pub clear_iff : (p.status ≡ clear) ↔ ((Touches c → ⊥) × IsComplete c)

status_protected :
    (c : Context) → (overall (management_reason c ∷ agent_reason c ∷ []) ≡ protected) ↔ Touches c
unfolding management_reason agent_reason management_status agent_status
status_protected c = (λ h. ground arith, λ h. ground arith)

status_clear :
    (c : Context)
    → (overall (management_reason c ∷ agent_reason c ∷ []) ≡ clear)
      ↔ ((Touches c → ⊥) × IsComplete c)
unfolding management_reason agent_reason management_status agent_status
status_clear c = (
  λ h. (λ t. ground arith, ground arith),
  λ h. elim (Bool-cases (touches_management c)) [
    | inl t ↦ absurd (h.0 (inl t))
    | inr f ↦ elim (Bool-cases (is_member c.effect_units c.agent_unit)) [
      | inl t ↦ absurd (h.0 (inr t))
      | inr g ↦ let k = h.1 in ground (arith, k.effects, k.management, k.agent, k.agent_known)
    ]
  ],
)

-- The assessment of a lifecycle action always succeeds. It is protected exactly where the action's
-- effects meet the management path's units or the agent's; it is clear exactly where they meet neither,
-- and the effects, the path's units and the agent's unit are all completely known.
pub assess_lifecycle_protection-Judged : (c : Context) → (p : ProtectionAssessment) × Judged c p
assess_lifecycle_protection-Judged c =
    let m = management_reason c in
    let a = agent_reason c in
    let (p, e, r) =
      roll_up_protection-IsRolledUp m (a ∷ []) ManagementPathRelation.unknown
        (sorted (from_keys (m.missing_evidence ++ a.missing_evidence))) in
    (
      p,
      record {
        result = unfold assess_lifecycle_protection in e;
        protected_iff =
            subst (λ s. (s ≡ protected) ↔ Touches c) (sym r.status) (status_protected c);
        clear_iff =
            subst (λ s. (s ≡ clear) ↔ ((Touches c → ⊥) × IsComplete c)) (sym r.status)
              (status_clear c);
      },
    )
