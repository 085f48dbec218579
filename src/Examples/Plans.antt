-- ===== src/Examples/Plans.antt =====
-- src/localplane/backend/domain/policy.py: plans for an interface's MTU and for a service.
use local_plane.Prelude.{
  ◌≡◌, refl, ◌↔◌, true, false, some, none, [], ◌∷◌, from_keys, contains, sorted,
}
use local_plane.Protection.{
  clear, on_management_path, not_on_management_path, ProtectionAssessment, first_with,
}
use local_plane.Protection.RollUp.{IsRolledUp}
use local_plane.SelfImpact.{
  assess_backend_self_impact, status_of, in_envelope, intersection, agent_is_a_proven_host_service,
  reason_is_clear, ineligibility_tests, ineligibility,
}
use local_plane.SelfImpact.Eligible.{Coverable}
use local_plane.Policy.{low, medium, OperationDefinition, auto, assess_guard}
use local_plane.Policy.Risk.{assess_risk, further_factors, highest}
use local_plane.Policy.Confirmation.{effective_confirmation}
use local_plane.Policy.Execution.{
  ExecutionAvailability, ExecutionInput, eligible, guarded, self_impact_override_required,
  assess_execution, eligibility_of, on_the_path, ordinary_blockers, protection_blockers,
}
use local_plane.Policy.Execution.Open.{
  Ordinary, Passable, assess_execution-eligible_iff, assess_execution-override,
}
use local_plane.Examples.Services.{agent_clears, by_path, stop_docker}

abbrev set_mtu : OperationDefinition
set_mtu = record {
  operation = "interface.mtu.reconcile";
  target_kind = "interface";
  base_risk = low;
  destructive = false;
  can_affect_management_path = true;
  recovery_mode = auto;
  rollback_possible = true;
  required_capability = "net.interfaces.mtu.write";
  protection_uses_resource_relation = true;
  guarded_execution = true;
  acts_through_provider = none;
  confirmation_requested = false;
  confirmation_reason = none;
  extra_risk_factors = [];
}

abbrev stop_service : OperationDefinition
stop_service = record set_mtu {
  operation = "service.stop";
  base_risk = medium;
  protection_uses_resource_relation = false;
  guarded_execution = false;
}

abbrev on_path : ProtectionAssessment
on_path = record by_path { management_path = on_management_path }

abbrev off_path : ProtectionAssessment
off_path = record {
  status = clear;
  reasons = [];
  unresolved = [];
  assessed = agent_clears ∷ [];
  management_path = not_on_management_path;
  reason = agent_clears.detail;
  missing_evidence = [];
}

abbrev mtu_input : ProtectionAssessment → ExecutionInput
mtu_input p = record {
  availability = ExecutionAvailability.available;
  provider = some "helper";
  capability_declared = true;
  ownership_block_reason = none;
  ownership_gaps = [];
  protection = p;
  guard = assess_guard set_mtu p true;
  self_impact = none;
}

abbrev stop_input : ExecutionInput
stop_input = record (mtu_input by_path) {
  self_impact = some (assess_backend_self_impact stop_docker by_path);
}

off_path_low : (assess_risk set_mtu none [] off_path).tier ≡ low
unfolding assess_risk further_factors highest
off_path_low = refl

unconfirmed :
    (effective_confirmation set_mtu (assess_risk set_mtu none [] off_path) off_path true).required
    ≡ false
unfolding effective_confirmation assess_risk further_factors highest
unconfirmed = refl

assess_execution-eligible_iff_example :
    ((assess_execution set_mtu (mtu_input off_path)).eligibility ≡ eligible)
    ↔ (Ordinary (mtu_input off_path) × Passable set_mtu off_path)
assess_execution-eligible_iff_example = assess_execution-eligible_iff set_mtu (mtu_input off_path)

on_path_guarded : (assess_execution set_mtu (mtu_input on_path)).eligibility ≡ guarded
unfolding assess_execution eligibility_of on_the_path ordinary_blockers protection_blockers
    assess_guard from_keys
on_path_guarded = refl

stop_overridable :
    (assess_execution stop_service stop_input).eligibility ≡ self_impact_override_required
unfolding assess_execution eligibility_of on_the_path ordinary_blockers protection_blockers
    assess_guard from_keys assess_backend_self_impact status_of in_envelope intersection
    agent_is_a_proven_host_service reason_is_clear ineligibility_tests ineligibility sorted contains
stop_overridable = refl

assess_execution-override_example :
    Coverable stop_docker by_path
    × Ordinary stop_input
    × ((stop_service.can_affect_management_path ≡ true)
        × (stop_service.protection_uses_resource_relation ≡ false))
assess_execution-override_example =
    assess_execution-override stop_service stop_input stop_docker refl stop_overridable

off_path_eligible : (assess_execution stop_service (mtu_input off_path)).eligibility ≡ eligible
unfolding assess_execution eligibility_of on_the_path ordinary_blockers protection_blockers
off_path_eligible = refl

off_path-IsRolledUp : IsRolledUp (agent_clears ∷ []) not_on_management_path off_path
unfolding first_with
off_path-IsRolledUp = record {
  status = refl;
  path = refl;
  decisive = (agent_clears, refl, refl);
  reasons = (λ h. refl, λ h. refl);
  unresolved = (λ h. refl, λ h. refl);
}
