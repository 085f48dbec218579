-- ===== src/GuardRegistry/Handlers.antt =====
-- src/localplane/agent/guard.py: releasing, asking, firing and stopping, and the registry under any
-- sequence of these calls.
use local_plane.Prelude.{ℕ, String, false, Option, none, some, List, [], ◌∷◌}
use local_plane.Prelude.Dict.{Dict, lookup}
use local_plane.GuardRegistry.{
  Guard, ArmRequest, Dispatch, Registry, Report, disarmed, fired, report, lost_report, arm, settle,
}

module _ {M : Type 0} where
  disarm_found :
      Option (Guard M) → Option (Guard M) → String → String → Registry M → Report M × Registry M
  disarm_found (some g) _ holder id reg =
      let g' = record g { timer = false; phase = disarmed } in (report holder g', settle g' reg)
  disarm_found none (some g) holder id reg = (report holder g, reg)
  disarm_found none none holder id reg = (lost_report holder id, reg)

  unfoldable pub disarm : String → String → Registry M → Report M × Registry M
  unfolding disarm_found
  disarm holder id reg =
      disarm_found (lookup id reg.armed_guards) (lookup id reg.settled_guards) holder id reg

  status_found : Option (Guard M) → Option (Guard M) → String → String → Report M
  status_found (some g) _ holder id = report holder g
  status_found none (some g) holder id = report holder g
  status_found none none holder id = lost_report holder id

  unfoldable pub status : String → String → Registry M → Report M
  unfolding status_found
  status holder id reg =
      status_found (lookup id reg.armed_guards) (lookup id reg.settled_guards) holder id

  abbrev pub dispatch_of : Guard M → Dispatch
  dispatch_of g = record {
    guard_id = g.guard_id;
    attempt_id = g.attempt_id;
    ifindex = g.ifindex;
    expected_current_mtu = g.guarded_mtu;
    desired_mtu = g.restore_mtu;
    expected_interface_name = g.expected_interface_name;
  }

  abbrev pub cancelled : Dict (Guard M) → Dict (Guard M)
  cancelled [] = []
  cancelled ((id, g) ∷ d) = (id, record g { timer = false }) ∷ cancelled d

  unfoldable pub shutdown : Registry M → Registry M
  shutdown reg = record reg { armed_guards = cancelled reg.armed_guards }

module _ {M : Type 0} (mutate : List Dispatch → Dispatch → M) where
  -- The guard after its firing: `mutate` is asked once. The one that the agent gives it answers every error of the
  -- helper as an outcome, so that it is taken to answer always.
  abbrev pub fired_guard : ℕ → Guard M → Registry M → Guard M
  fired_guard now g reg = record g {
    timer = false;
    phase = fired;
    fired_at = some now;
    mutation = some (mutate reg.dispatched (dispatch_of g));
  }

  fire_found : Option (Guard M) → ℕ → Registry M → Registry M
  fire_found none now reg = reg
  fire_found (some g) now reg =
      settle (fired_guard now g reg) (record reg { dispatched = dispatch_of g ∷ reg.dispatched })

  unfoldable pub fire : ℕ → String → Registry M → Registry M
  unfolding fire_found
  fire now id reg = fire_found (lookup id reg.armed_guards) now reg

-- One handler call. `fire` may come late, after a disarm or a shutdown: its thread may have been
-- waiting for the lock.
pub data Event : Type 0 where
  arm_call : ℕ → ArmRequest → Event
  disarm_call : String → Event
  status_call : String → Event
  timer_call : ℕ → String → Event
  shutdown_call : Event

module _ {M : Type 0} (mutate : List Dispatch → Dispatch → M) (holder : String) where
  unfoldable pub handle : Event → Registry M → Registry M
  handle (arm_call now r) reg = (arm holder now r reg).1
  handle (disarm_call id) reg = (disarm holder id reg).1
  handle (status_call id) reg = reg
  handle (timer_call now id) reg = fire mutate now id reg
  handle shutdown_call reg = shutdown reg

  unfoldable pub run : List Event → Registry M → Registry M
  run [] reg = reg
  run (e ∷ es) reg = run es (handle e reg)
