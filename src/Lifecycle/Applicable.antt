-- ===== src/Lifecycle/Applicable.antt =====
-- src/localplane/backend/domain/systemd_lifecycle.py: `lifecycle_applicability`, the reasons not to act.
pub mod Sound
use local_plane.Prelude.{
  ℕ, String, Bool, true, false, not, ◌&&◌, ◌||◌, Option, none, some, List, [], ◌∷◌, ◌++◌, contains,
  str_eq, from_keys, ends_with, if◌then◌else◌,
}
use local_plane.Lifecycle.{
  Action, start, stop, restart, Fact, Context, fact, is_flag, is_null, is_text, is_one_of,
  is_truthy,
}

abbrev pub known_service_types : List String
known_service_types =
    "simple" ∷ "exec" ∷ "forking" ∷ "notify" ∷ "notify-reload" ∷ "dbus" ∷ "idle" ∷ "oneshot" ∷ []

abbrev pub transitional_active_states : List String
transitional_active_states =
    "activating" ∷ "deactivating" ∷ "reloading" ∷ "refreshing" ∷ "maintenance" ∷ []

abbrev pub masked_unit_file_states : List String
masked_unit_file_states = "masked" ∷ "masked-runtime" ∷ []

abbrev pub start_needed : Action → Bool
start_needed stop = false
start_needed _ = true

abbrev pub stop_needed : Action → Bool
stop_needed start = false
stop_needed _ = true

abbrev pub is_start : Action → Bool
is_start start = true
is_start _ = false

abbrev pub is_stop : Action → Bool
is_stop stop = true
is_stop _ = false

abbrev pub is_restart : Action → Bool
is_restart restart = true
is_restart _ = false

abbrev pub is_empty : List String → Bool
is_empty [] = true
is_empty (x ∷ xs) = false

-- The reasons whose test holds, in order: `if test: reasons.append(reason)` for each.
abbrev pub failing : List (Bool × String) → List String
failing [] = []
failing ((test, reason) ∷ rest) = let later = failing rest in if test then reason ∷ later else later

abbrev pub stable_states : List String
stable_states = "active" ∷ "inactive" ∷ "failed" ∷ []

abbrev pub idle_states : List String
idle_states = "inactive" ∷ "failed" ∷ []

-- The tests on the unit that every action makes.
unfoldable pub unit_tests : Context → String → List (Bool × String)
unit_tests c expected =
    let facts = c.target_facts in
    let active = fact facts "active_state" in
    let type = fact c.service_facts "type" in
    (
      not (str_eq c.target_unit expected) || not (is_text expected (fact facts "canonical_id")),
      "canonical_unit_mismatch",
    )
    ∷ (
      not (is_text "service" (fact facts "unit_type")) || not (ends_with expected ".service"),
      "target_not_service",
    )
    ∷ (not (is_text "loaded" (fact facts "load_state")), "unit_not_loaded")
    ∷ (not (is_flag false (fact facts "transient")), "transient_or_unknown_service")
    ∷ (not (is_null (fact facts "current_job")), "systemd_job_in_progress")
    ∷ (
      is_one_of transitional_active_states active || not (is_one_of stable_states active),
      "service_state_not_stable_or_understood",
    )
    ∷ (not (is_one_of known_service_types type), "service_type_not_understood")
    ∷ (
      is_text "oneshot" type && not (is_flag true (fact c.service_facts "remain_after_exit")),
      "oneshot_without_remain_after_exit",
    )
    ∷ []

-- The tests by the action's state and verbs.
unfoldable pub action_tests : Context → List (Bool × String)
action_tests c =
    let facts = c.target_facts in
    let active = fact facts "active_state" in
    (is_start c.action && not (is_one_of idle_states active), "start_requires_inactive_or_failed")
    ∷ (is_stop c.action && not (is_text "active" active), "stop_requires_active")
    ∷ (is_restart c.action && not (is_text "active" active), "restart_requires_active")
    ∷ (
      start_needed c.action && is_one_of masked_unit_file_states (fact facts "unit_file_state"),
      "service_masked",
    )
    ∷ (start_needed c.action && not (is_flag true (fact facts "can_start")), "can_start_not_proven")
    ∷ (
      start_needed c.action && not (is_flag false (fact facts "refuse_manual_start")),
      "manual_start_not_permitted",
    )
    ∷ (
      start_needed c.action && not (is_flag false (fact facts "need_daemon_reload")),
      "daemon_reload_needed_or_unknown",
    )
    ∷ (stop_needed c.action && not (is_flag true (fact facts "can_stop")), "can_stop_not_proven")
    ∷ (
      stop_needed c.action && not (is_flag false (fact facts "refuse_manual_stop")),
      "manual_stop_not_permitted",
    )
    ∷ (
      is_restart c.action && not (is_truthy (fact facts "invocation_id")),
      "restart_baseline_invocation_id_missing",
    )
    ∷ (
      stop_needed c.action && not (is_empty c.active_activation_sources),
      "active_trigger_may_reactivate_service",
    )
    ∷ (
      stop_needed c.action && not (is_empty c.active_upholding_sources),
      "active_upholder_may_reactivate_service",
    )
    ∷ []

unfoldable pub lifecycle_applicability : Context → String → List String
lifecycle_applicability c expected = from_keys (failing (unit_tests c expected ++ action_tests c))
