-- ===== src/Policy/Execution/Open.antt =====
-- Which way of execution a plan has, and why.
use local_plane.Prelude.{
  ◌≡◌, refl, ap, ◌∙◌, ◌↔◌, Bool, true, false, none, some, List, [], ◌∷◌, ◌++◌, arith, map, length,
  drop, from_keys, String,
}
use local_plane.Protection.{
  ProtectionStatus, protected, clear, ManagementPathRelation, not_on_management_path,
  ProtectionAssessment, ReasonAssessment,
}
use local_plane.Protection.RollUp.{IsRolledUp}
use local_plane.Lifecycle.{Context}
use local_plane.Lifecycle.Applicable.{is_empty}
use local_plane.Lifecycle.Applicable.Sound.{is_empty_eq, from_keys-nil}
use local_plane.SelfImpact.{assess_backend_self_impact}
use local_plane.SelfImpact.Eligible.{Coverable, override_eligible-Coverable}
use local_plane.Policy.{OperationDefinition, assess_guard}
use local_plane.Policy.Guard.{GuardOpen, assess_guard-available_iff}
use local_plane.Policy.Risk.{protected_code, unresolved_code}
use local_plane.Policy.Execution.{
  ExecutionInput, ExecutionAvailability, eligible, guarded, self_impact_override_required,
  assess_execution, eligibility_of, ordinary_blockers, protection_blockers, typed_blockers,
  on_the_path, only_override_blocker,
}

-- Nothing but protection could stand in the way.
pub record Ordinary (i : ExecutionInput) : Type 0 where
  pub implemented : i.availability ≡ ExecutionAvailability.available
  pub declared : i.capability_declared ≡ true
  pub unblocked : i.ownership_block_reason ≡ none
  pub complete : i.ownership_gaps ≡ []

-- Protection does not stand in the way, for the target's relation or for its reasons.
pub record Passable (d : OperationDefinition) (p : ProtectionAssessment) : Type 0 where
  pub off_path :
      d.can_affect_management_path ≡ true
      → d.protection_uses_resource_relation ≡ true
      → p.management_path ≡ not_on_management_path
  pub unprotected :
      d.can_affect_management_path ≡ true
      → d.protection_uses_resource_relation ≡ false
      → p.status ≡ protected
      → p.reasons ≡ []
  pub settled :
      d.can_affect_management_path ≡ true
      → d.protection_uses_resource_relation ≡ false
      → p.status ≡ ProtectionStatus.unknown
      → p.unresolved ≡ []

append-nil : (xs ys : List String) → xs ++ ys ≡ [] → (xs ≡ []) × (ys ≡ [])
append-nil [] ys h = (refl, h)
append-nil (x ∷ xs) ys h = cc

map-nil {ℓ} : {A : Type ℓ} (f : A → String) (xs : List A) → map f xs ≡ [] → xs ≡ []
map-nil f [] h = refl
map-nil f (x ∷ xs) h = cc

ordinary_blockers-Ordinary : (i : ExecutionInput) → (ordinary_blockers i ≡ []) ↔ Ordinary i
unfolding ordinary_blockers
ordinary_blockers-Ordinary i = (
  λ h. record {
    implemented = ground arith;
    declared = ground arith;
    unblocked = ground arith;
    complete = is_empty_eq i.ownership_gaps (ground arith);
  },
  λ o. ground (arith, o.implemented, o.declared, o.unblocked, o.complete),
)

typed_nil :
    (p : ProtectionAssessment)
    → typed_blockers p ≡ []
    → (p.status ≡ protected → p.reasons ≡ [])
      × (p.status ≡ ProtectionStatus.unknown → p.unresolved ≡ [])
typed_nil p h = (
  λ e. map-nil protected_code p.reasons (rw e at h),
  λ e. map-nil unresolved_code p.unresolved (rw e at h),
)

nil_typed :
    (p : ProtectionAssessment)
    → (p.status ≡ protected → p.reasons ≡ [])
    → (p.status ≡ ProtectionStatus.unknown → p.unresolved ≡ [])
    → typed_blockers p ≡ []
nil_typed p f g = ground (arith, f, g)

protection_blockers-Passable :
    (d : OperationDefinition) (p : ProtectionAssessment)
    → (protection_blockers d p ≡ []) ↔ Passable d p
unfolding protection_blockers
protection_blockers-Passable d p = (
  λ h. record {
    off_path = λ a u. ground arith;
    unprotected = λ a u. (typed_nil p (rw (a, u) at h)).0;
    settled = λ a u. (typed_nil p (rw (a, u) at h)).1;
  },
  λ q. ground (arith, q.off_path, nil_typed p),
)

eligible-nil :
    (d : OperationDefinition) (i : ExecutionInput)
    → (eligibility_of d i ≡ eligible)
      ↔ (ordinary_blockers i ++ protection_blockers d i.protection ≡ [])
unfolding eligibility_of
eligible-nil d i = (λ h. is_empty_eq _ (ground arith), λ h. ground arith)

-- The ordinary way is open exactly where the operation can be executed, the agent declares its capability,
-- no other owner and no gap of the ownership evidence stands in the way, and the target's protection does not
-- either.
pub assess_execution-eligible_iff :
    (d : OperationDefinition) (i : ExecutionInput)
    → ((assess_execution d i).eligibility ≡ eligible) ↔ (Ordinary i × Passable d i.protection)
unfolding assess_execution
assess_execution-eligible_iff d i = (
  λ h.
      let (o, p) = append-nil _ _ ((eligible-nil d i).0 h) in
      ((ordinary_blockers-Ordinary i).0 o, (protection_blockers-Passable d i.protection).0 p),
  λ (o, p). (eligible-nil d i).1 (
      ground (
        arith,
        (ordinary_blockers-Ordinary i).1 o,
        (protection_blockers-Passable d i.protection).1 p,
      )),
)

-- The ordinary way is open exactly where no blocker is published.
pub assess_execution-blockers_iff :
    (d : OperationDefinition) (i : ExecutionInput)
    → ((assess_execution d i).eligibility ≡ eligible) ↔ ((assess_execution d i).blockers ≡ [])
unfolding assess_execution
assess_execution-blockers_iff d i = (
  λ h. ap from_keys ((eligible-nil d i).0 h) ∙ (unfold from_keys in refl),
  λ h. (eligible-nil d i).1 (from_keys-nil _ h),
)

ordinary-from_keys : (xs : List String) → is_empty (from_keys xs) ≡ true → xs ≡ []
ordinary-from_keys xs h = from_keys-nil xs (is_empty_eq _ h)

-- The guarded way is offered only to an operation that can change the management path and be reversed
-- unattended, on a target that is proven to be that path, with the guard's capability declared, and where
-- nothing but protection stands in the way.
pub assess_execution-guarded :
    (d : OperationDefinition) (i : ExecutionInput) (declared : Bool)
    → i.guard ≡ assess_guard d i.protection declared
    → (assess_execution d i).eligibility ≡ guarded
    → GuardOpen d i.protection declared × Ordinary i
unfolding assess_execution eligibility_of on_the_path
assess_execution-guarded d i declared g h = (
  (assess_guard-available_iff d i.protection declared).0 (ground (arith, g)),
  (ordinary_blockers-Ordinary i).0 (ordinary-from_keys _ (ground arith)),
)

only_override-typed :
    (d : OperationDefinition) (p : ProtectionAssessment)
    → only_override_blocker (protection_blockers d p) ≡ true
    → (d.can_affect_management_path ≡ true) × (d.protection_uses_resource_relation ≡ false)
unfolding protection_blockers
only_override-typed d p h = (ground arith, ground arith)

only_protection :
    (d : OperationDefinition) (i : ExecutionInput)
    → ordinary_blockers i ≡ []
    → only_override_blocker (
        drop
          (length (from_keys (ordinary_blockers i)))
          (ordinary_blockers i ++ protection_blockers d i.protection))
      ≡ true
    → only_override_blocker (protection_blockers d i.protection) ≡ true
unfolding from_keys
only_protection d i o h = rw o at h

-- An override is asked for only where nothing but protection stands in the way, the operation is judged by
-- the reasons that protect its target, and the hazard is one that an override can cover.
pub assess_execution-override :
    (d : OperationDefinition) (i : ExecutionInput) (c : Context)
    → i.self_impact ≡ some (assess_backend_self_impact c i.protection)
    → (assess_execution d i).eligibility ≡ self_impact_override_required
    → Coverable c i.protection
      × Ordinary i
      × ((d.can_affect_management_path ≡ true) × (d.protection_uses_resource_relation ≡ false))
unfolding assess_execution eligibility_of
assess_execution-override d i c s h =
    let o = ordinary-from_keys (ordinary_blockers i) (ground arith) in
    (
      override_eligible-Coverable c i.protection (ground (arith, s)),
      (ordinary_blockers-Ordinary i).0 o,
      only_override-typed d i.protection (only_protection d i o (ground arith)),
    )

-- Where the ordinary way is open for an operation that is judged by its target's reasons, whose assessment
-- is rolled up from them, the target is clear.
pub eligible-clear :
    (d : OperationDefinition) (i : ExecutionInput) (es : List ReasonAssessment)
    (relation : ManagementPathRelation)
    → IsRolledUp es relation i.protection
    → d.can_affect_management_path ≡ true
    → d.protection_uses_resource_relation ≡ false
    → (assess_execution d i).eligibility ≡ eligible
    → i.protection.status ≡ clear
eligible-clear d i es relation r a u h =
    let q = ((assess_execution-eligible_iff d i).0 h).1 in
    ground (arith, r.status, r.reasons, r.unresolved, q.unprotected a u, q.settled a u)
