-- ===== src/Examples/Settled.antt =====
-- A guard that is released in time, and one that fires, as the backend settles them, and an interrupted change.
use local_plane.Prelude.{Option}
use local_plane.Prelude.{◌≡◌, refl, true, false, some, none, List, [], ◌∷◌, pos, ◌≤◌, arith}
use local_plane.Prelude.Dict.{lookup, insert, remove, trim}
use local_plane.GuardRegistry.{
  ArmRequest, Dispatch, Registry, empty, arm, find_target, settle, report,
}
use local_plane.GuardRegistry.Handlers.{disarm, fire, arm_call, timer_call, handle, run}
use local_plane.GuardRegistry.Dispatches.{arms}
use local_plane.GuardRegistry.Sound.{IsSound, run-IsSound, empty-IsSound}
use local_plane.Prelude.{false}
use local_plane.Settlement.{MutationOutcome}
use local_plane.Settlement.{
  answered, GuardAnswer, ReversalAnswer, guard_report, reversal_report, settlement, kept, reverted,
  answer_of,
}
use local_plane.Settlement.Released.{Untouched, Reversed, kept-Untouched, reverted-Reversed}

abbrev reversed : ReversalAnswer
reversed = record { outcome = "written"; reason = none; attempt_id = some "a1"; provider = none }

abbrev reverse : List Dispatch → Dispatch → ReversalAnswer
reverse before d = reversed

abbrev held_request : ArmRequest
held_request = record {
  guard_id = "g1";
  attempt_id = "a1";
  ifindex = pos 2;
  expected_interface_name = none;
  guarded_mtu = pos 1400;
  restore_mtu = pos 1500;
  window_s = pos 60;
}

abbrev armed_only : Registry ReversalAnswer
armed_only = run reverse "host" (arm_call 10 held_request ∷ []) empty

abbrev expired : Registry ReversalAnswer
expired = run reverse "host" (arm_call 10 held_request ∷ timer_call 60000010 "g1" ∷ []) empty

expired-IsSound : IsSound expired
expired-IsSound =
    run-IsSound reverse "host" (arm_call 10 held_request ∷ timer_call 60000010 "g1" ∷ []) empty
      empty-IsSound

abbrev fired_answer : GuardAnswer
fired_answer = record { phase = "fired"; mutation = some reversed }

released_kept :
    settlement (guard_report "g1" (answered (answer_of (disarm "host" "g1" armed_only).0))) false
    ≡ kept
unfolding settlement guard_report disarm run handle arm find_target lookup insert report
released_kept = refl

armed_once : arms "g1" (arm_call 10 held_request ∷ []) ≤ 1
armed_once = ground arith

kept-Untouched_example : Untouched "g1" (disarm "host" "g1" armed_only).1
kept-Untouched_example =
    kept-Untouched reverse "host" "g1" (arm_call 10 held_request ∷ []) false armed_once
      released_kept

expired_reverted :
    settlement (guard_report "g1" (answered (answer_of (disarm "host" "g1" expired).0))) true
    ≡ reverted
unfolding settlement guard_report reversal_report disarm run handle arm fire settle find_target
    lookup insert remove trim report
expired_reverted = refl

reverted-Reversed_example : Reversed "g1" (disarm "host" "g1" expired).1 × (true ≡ true)
reverted-Reversed_example =
    reverted-Reversed "host" "g1" expired expired-IsSound true expired_reverted

abbrev unrecorded : Option MutationOutcome
unrecorded = none
