-- ===== src/Lifecycle/Applicable/Sound.antt =====
-- What a service with no reason against the action is known to be.
use local_plane.Prelude.{
  String, ◌≡◌, refl, Bool, true, false, List, [], ◌∷◌, ◌++◌, ends_with, from_keys, All, All-split,
  arith, eq_iff,
}
use local_plane.Lifecycle.{
  Action, start, stop, restart, Fact, null, flag, text, Context, fact, is_flag, is_null, is_text,
  is_one_of, is_truthy,
}
use local_plane.Lifecycle.Applicable.{
  masked_unit_file_states, start_needed, stop_needed, failing, unit_tests, action_tests,
  lifecycle_applicability, known_service_types, idle_states, is_empty,
}

abbrev pub Passes : Bool × String → Type 0
Passes t = t.0 ≡ false

pub failing-Passes : (ts : List (Bool × String)) → failing ts ≡ [] → All Passes ts
failing-Passes [] h = tt
failing-Passes ((test, reason) ∷ ts) h = (ground arith, failing-Passes ts (ground arith))

pub from_keys-nil : (xs : List String) → from_keys xs ≡ [] → xs ≡ []
unfolding from_keys
from_keys-nil [] h = refl
from_keys-nil (x ∷ xs) h = cc

is_flag_eq : (b : Bool) (f : Fact) → is_flag b f ≡ true → f ≡ flag b
is_flag_eq true (flag true) h = refl
is_flag_eq false (flag false) h = refl
is_flag_eq b f h = ground arith

is_text_eq : (name : String) (f : Fact) → is_text name f ≡ true → f ≡ text name
is_text_eq name (text t) h = ground (arith, eq_iff t name)
is_text_eq name f h = ground arith

is_null_eq : (f : Fact) → is_null f ≡ true → f ≡ null
is_null_eq null h = refl
is_null_eq f h = ground arith

pub is_empty_eq : (xs : List String) → is_empty xs ≡ true → xs ≡ []
is_empty_eq [] h = refl
is_empty_eq (x ∷ xs) h = cc

-- What every action requires of the unit.
pub record UnitReady (c : Context) (expected : String) : Type 0 where
  pub target : c.target_unit ≡ expected
  pub canonical : fact c.target_facts "canonical_id" ≡ text expected
  pub unit_type : fact c.target_facts "unit_type" ≡ text "service"
  pub suffix : ends_with expected ".service" ≡ true
  pub loaded : fact c.target_facts "load_state" ≡ text "loaded"
  pub lasting : fact c.target_facts "transient" ≡ flag false
  pub no_job : fact c.target_facts "current_job" ≡ null
  pub known_type : is_one_of known_service_types (fact c.service_facts "type") ≡ true

unit_ready :
    (c : Context) (expected : String) → All Passes (unit_tests c expected) → UnitReady c expected
unfolding unit_tests
unit_ready c expected (a, (b, (d, (e, (f, (g, (h, (i, u)))))))) = record {
  target = (eq_iff c.target_unit expected).0 (ground arith);
  canonical = is_text_eq expected (fact c.target_facts "canonical_id") (ground arith);
  unit_type = is_text_eq "service" (fact c.target_facts "unit_type") (ground arith);
  suffix = ground arith;
  loaded = is_text_eq "loaded" (fact c.target_facts "load_state") (ground arith);
  lasting = is_flag_eq false (fact c.target_facts "transient") (ground arith);
  no_job = is_null_eq (fact c.target_facts "current_job") (ground arith);
  known_type = ground arith;
}

-- What starting requires.
pub record CanStart (c : Context) : Type 0 where
  pub startable : fact c.target_facts "can_start" ≡ flag true
  pub permitted : fact c.target_facts "refuse_manual_start" ≡ flag false
  pub reloaded : fact c.target_facts "need_daemon_reload" ≡ flag false
  pub unmasked : is_one_of masked_unit_file_states (fact c.target_facts "unit_file_state") ≡ false

-- What stopping requires, and that nothing may start the service again behind the operator's back.
pub record CanStop (c : Context) : Type 0 where
  pub running : fact c.target_facts "active_state" ≡ text "active"
  pub stoppable : fact c.target_facts "can_stop" ≡ flag true
  pub permitted : fact c.target_facts "refuse_manual_stop" ≡ flag false
  pub no_trigger : c.active_activation_sources ≡ []
  pub no_upholder : c.active_upholding_sources ≡ []

-- What the action requires beyond the unit.
abbrev pub ActionReady : Action → Context → Type 0
ActionReady start c =
    (is_one_of idle_states (fact c.target_facts "active_state") ≡ true) × CanStart c
ActionReady stop c = CanStop c
ActionReady restart c =
    CanStart c × CanStop c × (is_truthy (fact c.target_facts "invocation_id") ≡ true)

module _ (c : Context) where
  can_start : start_needed c.action ≡ true → All Passes (action_tests c) → CanStart c
  unfolding action_tests
  can_start need (a, (b, (d, (e, (f, (g, (h, rest))))))) = record {
    startable = is_flag_eq true (fact c.target_facts "can_start") (ground arith);
    permitted = is_flag_eq false (fact c.target_facts "refuse_manual_start") (ground arith);
    reloaded = is_flag_eq false (fact c.target_facts "need_daemon_reload") (ground arith);
    unmasked = ground arith;
  }

  can_stop : stop_needed c.action ≡ true → All Passes (action_tests c) → CanStop c
  unfolding action_tests
  can_stop need (a, (b, (d, (e, (f, (g, (h, (i, (j, (k, (l, (m, u)))))))))))) = record {
    running = is_text_eq "active" (fact c.target_facts "active_state") (ground arith);
    stoppable = is_flag_eq true (fact c.target_facts "can_stop") (ground arith);
    permitted = is_flag_eq false (fact c.target_facts "refuse_manual_stop") (ground arith);
    no_trigger = is_empty_eq c.active_activation_sources (ground arith);
    no_upholder = is_empty_eq c.active_upholding_sources (ground arith);
  }

  idle :
      c.action ≡ start
      → All Passes (action_tests c)
      → is_one_of idle_states (fact c.target_facts "active_state") ≡ true
  unfolding action_tests
  idle e (a, rest) = ground arith

  baseline :
      c.action ≡ restart
      → All Passes (action_tests c)
      → is_truthy (fact c.target_facts "invocation_id") ≡ true
  unfolding action_tests
  baseline e (a, (b, (d, (f, (g, (h, (i, (j, (k, (l, rest)))))))))) = ground arith

  action_ready :
      (action : Action) → c.action ≡ action → All Passes (action_tests c) → ActionReady action c
  action_ready start e h = (idle e h, can_start (rw e) h)
  action_ready stop e h = can_stop (rw e) h
  action_ready restart e h = (can_start (rw e) h, can_stop (rw e) h, baseline e h)

-- Where no reason stands against an action, the target is the expected loaded service, not transient,
-- with no job and of a known type; to be started it is idle, startable and not masked, and nothing waits
-- for a reload; to be stopped it is active and stoppable, and no active source may start it again; to be
-- restarted it is both, and has an invocation to tell the restart by.
pub lifecycle_applicability-Ready :
    (c : Context) (expected : String)
    → lifecycle_applicability c expected ≡ []
    → UnitReady c expected × ActionReady c.action c
unfolding lifecycle_applicability
lifecycle_applicability-Ready c expected h =
    let passes =
      failing-Passes (unit_tests c expected ++ action_tests c)
        (from_keys-nil (failing (unit_tests c expected ++ action_tests c)) h) in
    let (u, a) = All-split Passes (unit_tests c expected) (action_tests c) passes in
    (unit_ready c expected u, action_ready c c.action refl a)
