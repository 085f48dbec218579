-- ===== src/Examples/Guards.antt =====
-- src/localplane/agent/guard.py: a registry with one guard for the interface with index 2.
use local_plane.Prelude.{ℕ, ◌≤◌, ◌≡◌, refl, some, List, [], ◌∷◌, pos, length}
use local_plane.Prelude.Dict.{lookup, insert}
use local_plane.GuardRegistry.{
  Guard, ArmRequest, Dispatch, Registry, disarmed, empty, new_guard, arm, find_target,
}
use local_plane.GuardRegistry.{refused, already_armed}
use local_plane.GuardRegistry.Handlers.{
  disarm, fire, Event, arm_call, disarm_call, status_call, timer_call, shutdown_call, handle, run,
}
use local_plane.GuardRegistry.Sound.{IsSound, handle-IsSound, run-IsSound, empty-IsSound}
use local_plane.GuardRegistry.Race.{fire-disarm}
use local_plane.GuardRegistry.Dispatches.{dispatches, arms, dispatches-le-arms}

abbrev mutate : List Dispatch → Dispatch → ℕ
mutate before d = length before

abbrev arm_request : ArmRequest
arm_request = record {
  guard_id = "g1";
  attempt_id = "a1";
  ifindex = pos 2;
  expected_interface_name = some "eth0";
  guarded_mtu = pos 1400;
  restore_mtu = pos 1500;
  window_s = pos 60;
}

abbrev guard : Guard ℕ
guard = new_guard 10 arm_request

abbrev one_armed : Registry ℕ
one_armed = record { armed_guards = ("g1", guard) ∷ []; settled_guards = []; dispatched = [] }

abbrev calls : List Event
calls =
    status_call "g1"
    ∷ disarm_call "g2"
    ∷ timer_call 70000000 "g1"
    ∷ timer_call 70000001 "g1"
    ∷ shutdown_call
    ∷ []

one_armed_run : handle mutate "host" (arm_call 10 arm_request) empty ≡ one_armed
unfolding handle arm find_target lookup insert
one_armed_run = refl

one_armed-IsSound : IsSound one_armed
one_armed-IsSound =
    rw one_armed_run at (handle-IsSound mutate "host" (arm_call 10 arm_request) empty empty-IsSound)

one_armed_found : lookup "g1" one_armed.armed_guards ≡ some guard
unfolding lookup
one_armed_found = refl

handle-IsSound_example : IsSound (handle mutate "host" (timer_call 70000000 "g1") one_armed)
handle-IsSound_example =
    handle-IsSound mutate "host" (timer_call 70000000 "g1") one_armed one_armed-IsSound

run-IsSound_example : IsSound (run mutate "host" calls one_armed)
run-IsSound_example = run-IsSound mutate "host" calls one_armed one_armed-IsSound

dispatches-le-arms_example :
    dispatches "g1" (run mutate "host" (arm_call 10 arm_request ∷ calls) empty).dispatched
    ≤ arms "g1" (arm_call 10 arm_request ∷ calls)
dispatches-le-arms_example = dispatches-le-arms mutate "host" "g1" (arm_call 10 arm_request ∷ calls)

fire-disarm_example :
    (fire mutate 70000000 "g1" (disarm "host" "g1" one_armed).1 ≡ (disarm "host" "g1" one_armed).1)
    × ((disarm "host" "g1" one_armed).1.dispatched ≡ [])
    × ((disarm "host" "g1" one_armed).0.phase ≡ disarmed)
fire-disarm_example =
    fire-disarm mutate "host" 70000000 "g1" one_armed one_armed-IsSound one_armed_found

refused_again : (arm "host" 10 arm_request one_armed).0 ≡ refused already_armed
unfolding arm lookup find_target
refused_again = refl
