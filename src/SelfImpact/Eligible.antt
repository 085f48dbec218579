-- ===== src/SelfImpact/Eligible.antt =====
-- What an override may cover.
use local_plane.Prelude.{
  String, ◌≡◌, refl, inl, inr, Option-cases, true, false, Option, none, some, List, [], ◌∷◌, eq_iff,
  contains, sorted, arith, All,
}
use local_plane.Protection.{
  protected, ProtectionReason, management_path, localplane_agent, ProtectionAssessment,
}
use local_plane.Lifecycle.{Context, RuntimeOwner, is_member}
use local_plane.Lifecycle.Applicable.Sound.{Passes, failing-Passes, from_keys-nil, is_empty_eq}
use local_plane.SelfImpact.{
  is_proven, is_resolved, owner_unit, in_envelope, intersection, is_only,
  agent_is_a_proven_host_service, reason_is_clear, only_management_path, ineligibility_tests,
  ineligibility, status_of, assess_backend_self_impact,
}

-- The hazard that an override could cover, and nothing beside it.
pub record Coverable (c : Context) (p : ProtectionAssessment) : Type 0 where
  pub owner : RuntimeOwner
  pub unit : String
  pub owned : c.runtime_owner ≡ some owner
  pub resolved_owner : is_resolved c.runtime_owner ≡ true
  pub names : owner.owner_unit_id ≡ some unit
  pub in_closure : contains c.effect_units unit ≡ true
  pub nothing_else : sorted (intersection c.effect_units c.management_units) ≡ unit ∷ []
  pub agent_outside : is_member c.effect_units c.agent_unit ≡ false
  pub agent_clear : reason_is_clear p localplane_agent ≡ true
  pub complete :
      (c.effect_complete ≡ true) × (c.management_complete ≡ true) × (c.agent_complete ≡ true)
  pub no_gaps : c.gaps ≡ []
  pub is_protected : p.status ≡ protected
  pub only_path : p.reasons ≡ management_path ∷ []

ineligibility_tests-Passes :
    (c : Context) (p : ProtectionAssessment)
    → (assess_backend_self_impact c p).override_eligible ≡ true
    → All Passes (ineligibility_tests c p (status_of c).0)
unfolding assess_backend_self_impact ineligibility
ineligibility_tests-Passes c p h = failing-Passes _ (from_keys-nil _ (is_empty_eq _ h))

owner-cases :
    (o : Option RuntimeOwner)
    → in_envelope o ≡ true
    → (x : RuntimeOwner) × (u : String) × (o ≡ some x)
      × (is_resolved o ≡ true)
      × (x.owner_unit_id ≡ some u)
unfolding in_envelope
owner-cases none h = cc
owner-cases (some x) h = elim (Option-cases x.owner_unit_id) [
  | inl e ↦ ground arith
  | inr (u, e) ↦ (x, u, refl, ground arith, e)
]

is_only_eq :
    (unit : String) (names : List String) → is_only (some unit) names ≡ true → names ≡ unit ∷ []
is_only_eq unit [] h = cc
is_only_eq unit (n ∷ []) h = ground (arith, eq_iff unit n)
is_only_eq unit (n ∷ m ∷ ms) h = cc

only_path_eq :
    (rs : List ProtectionReason) → only_management_path rs ≡ true → rs ≡ management_path ∷ []
only_path_eq (management_path ∷ []) h = refl
only_path_eq rs h = cc

proven-member :
    (c : Context)
    → is_resolved c.runtime_owner ≡ true
    → is_proven (status_of c).0 ≡ true
    → is_member c.effect_units (owner_unit c.runtime_owner) ≡ true
unfolding status_of
proven-member c r h = ground arith

agent-outside :
    (c : Context)
    → agent_is_a_proven_host_service c ≡ true
    → is_member c.effect_units c.agent_unit ≡ false
unfolding agent_is_a_proven_host_service
agent-outside c h = ground arith

coverable :
    (c : Context) (p : ProtectionAssessment)
    → All Passes (ineligibility_tests c p (status_of c).0)
    → Coverable c p
unfolding ineligibility_tests
coverable c p (a, (b, (d, (e, (f, (g, (h, (i, (j, u))))))))) =
    let (owner, unit, o, r, n) = owner-cases c.runtime_owner (ground arith) in
    let same : owner_unit c.runtime_owner ≡ some unit = rw o n in
    let member = proven-member c r (ground arith) in
    let only : is_only (owner_unit c.runtime_owner)
          (sorted (intersection c.effect_units c.management_units))
        ≡ true =
      ground arith in
    record {
      owner = owner;
      unit = unit;
      owned = o;
      resolved_owner = r;
      names = n;
      in_closure = rw same at member;
      nothing_else = is_only_eq unit _ (rw same at only);
      agent_outside = agent-outside c (ground arith);
      agent_clear = ground arith;
      complete = ground arith;
      no_gaps = is_empty_eq c.gaps (ground arith);
      is_protected = ground arith;
      only_path = only_path_eq p.reasons (ground arith);
    }

-- An override is eligible only where the action's effects contain the proven owner of the backend's
-- container and no other unit of the management path, the agent is outside them and known to be clear,
-- everything is completely known without gaps, and the management path is all that protects the target.
pub override_eligible-Coverable :
    (c : Context) (p : ProtectionAssessment)
    → (assess_backend_self_impact c p).override_eligible ≡ true
    → Coverable c p
override_eligible-Coverable c p h = coverable c p (ineligibility_tests-Passes c p h)
