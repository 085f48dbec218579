-- ===== src/Examples/Services.antt =====
-- src/localplane/backend/domain/protection.py, systemd_lifecycle.py and self_impact.py: a service that is
-- to be stopped, and one whose stop would take the backend with it.
use local_plane.Prelude.{
  ◌≡◌, refl, true, false, some, none, [], ◌∷◌, from_keys, sorted, ends_with, contains,
}
use local_plane.Prelude.Dict.{lookup}
use local_plane.Protection.{
  protected, clear, management_path, localplane_agent, ManagementPathRelation,
  ManagementPathVerdict, ReasonAssessment, ProtectionAssessment, roll_up_protection,
}
use local_plane.Protection.RollUp.{IsRolledUp, roll_up_protection-IsRolledUp}
use local_plane.Lifecycle.{stop, flag, text, resolved, Context}
use local_plane.Lifecycle.Protects.{Judged, assess_lifecycle_protection-Judged}
use local_plane.Lifecycle.Applicable.{lifecycle_applicability, unit_tests, action_tests}
use local_plane.Lifecycle.Applicable.Sound.{UnitReady, ActionReady, lifecycle_applicability-Ready}
use local_plane.SelfImpact.{
  assess_backend_self_impact, status_of, in_envelope, intersection, agent_is_a_proven_host_service,
  reason_is_clear, ineligibility_tests, ineligibility,
}
use local_plane.SelfImpact.Eligible.{Coverable, override_eligible-Coverable}

abbrev path_verdict : ManagementPathVerdict
path_verdict = record {
  resource_id = some "interface:eth0";
  reason = "local_endpoint_matches";
  evidence_id = none;
  observed_at = none;
  missing_evidence = [];
}

abbrev path_protects : ReasonAssessment
path_protects = record {
  reason = management_path;
  status = protected;
  detail = "effect_closure_intersects_management_path";
  evidence_id = none;
  observed_at = none;
  missing_evidence = [];
}

abbrev pub agent_clears : ReasonAssessment
agent_clears = record {
  reason = localplane_agent;
  status = clear;
  detail = "effect_closure_disjoint_from_localplane_agent";
  evidence_id = none;
  observed_at = none;
  missing_evidence = [];
}

abbrev pub by_path : ProtectionAssessment
by_path = record {
  status = protected;
  reasons = management_path ∷ [];
  unresolved = [];
  assessed = path_protects ∷ agent_clears ∷ [];
  management_path = ManagementPathRelation.unknown;
  reason = "effect_closure_intersects_management_path";
  missing_evidence = [];
}

-- Stopping Docker, which hosts the backend's container.
abbrev pub stop_docker : Context
stop_docker = record {
  status = "complete";
  observed_at = "2026-07-22T10:00:00Z";
  target_unit = "docker.service";
  action = stop;
  target_facts =
      ("canonical_id", text "docker.service")
      ∷ ("unit_type", text "service")
      ∷ ("load_state", text "loaded")
      ∷ ("transient", flag false)
      ∷ ("active_state", text "active")
      ∷ ("can_stop", flag true)
      ∷ ("refuse_manual_stop", flag false)
      ∷ [];
  service_facts = ("type", text "notify") ∷ [];
  effect_units = "docker.service" ∷ [];
  effect_complete = true;
  active_activation_sources = [];
  active_upholding_sources = [];
  management_units = "docker.service" ∷ "ssh.service" ∷ [];
  management_complete = true;
  connection_unit = none;
  connection_unit_type = none;
  agent_unit = some "localplane-agent.service";
  agent_complete = true;
  agent_unit_type = some "service";
  gaps = [];
  runtime_owner = some (record {
    contract_version = "docker-direct-unix-v1";
    method_version = 1;
    provider = "docker";
    status = resolved;
    owner_unit_id = some "docker.service";
    gaps = [];
  });
  observation_id = none;
}

roll_up_protection-IsRolledUp_example :
    (p : ProtectionAssessment) × (roll_up_protection
        (path_protects ∷ agent_clears ∷ [])
        ManagementPathRelation.unknown
        []
      ≡ some p)
    × IsRolledUp (path_protects ∷ agent_clears ∷ []) ManagementPathRelation.unknown p
roll_up_protection-IsRolledUp_example =
    roll_up_protection-IsRolledUp path_protects (agent_clears ∷ []) ManagementPathRelation.unknown
      []

assess_lifecycle_protection-Judged_example : (p : ProtectionAssessment) × Judged stop_docker p
assess_lifecycle_protection-Judged_example = assess_lifecycle_protection-Judged stop_docker

applicable : lifecycle_applicability stop_docker "docker.service" ≡ []
unfolding lifecycle_applicability unit_tests action_tests lookup from_keys contains ends_with
applicable = refl

lifecycle_applicability-Ready_example :
    UnitReady stop_docker "docker.service" × ActionReady stop stop_docker
lifecycle_applicability-Ready_example =
    lifecycle_applicability-Ready stop_docker "docker.service" applicable

pub coverable_stop : (assess_backend_self_impact stop_docker by_path).override_eligible ≡ true
unfolding assess_backend_self_impact status_of in_envelope intersection
    agent_is_a_proven_host_service reason_is_clear ineligibility_tests ineligibility from_keys
    sorted contains
coverable_stop = refl

override_eligible-Coverable_example : Coverable stop_docker by_path
override_eligible-Coverable_example = override_eligible-Coverable stop_docker by_path coverable_stop
