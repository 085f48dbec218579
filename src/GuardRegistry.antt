-- ===== src/GuardRegistry.antt =====
-- src/localplane/agent/guard.py: the reversals that the agent holds, each until a deadline.
-- Every handler runs under the registry's one lock, so a schedule of threads is a sequence of
-- handler calls. Moments are microseconds. `mutate`, the clock and the timers are the constructor's
-- arguments: a moment is an argument of the handlers that read the clock, a timer's expiry is a
-- call of `fire` for its guard at any later time, and `mutate` may answer each call differently, by
-- the calls before it. `dispatched` is not in the source: it records those calls, newest first.
pub mod Handlers
pub mod Targets
pub mod Cancelled
pub mod Sound
pub mod Race
pub mod Dispatches
pub mod Unfired
pub mod Armed
use local_plane.Prelude.{
  ℕ, ◌+◌, ◌*◌, String, Bool, true, false, not, ◌&&◌, Option, none, some, List, [], ◌∷◌, ℤ, pos,
  negsuc, int_eq, leb, if◌then◌else◌,
}
use local_plane.Prelude.Dict.{Dict, lookup, insert, remove, trim}

abbrev pub max_window_s : ℕ
max_window_s = 600

abbrev pub min_window_s : ℕ
min_window_s = 5

abbrev pub settled_memory : ℕ
settled_memory = 64

-- `lost` is only ever reported: no guard of the registry is in it.
pub data Phase : Type 0 where
  armed disarmed fired lost : Phase

pub data Refusal : Type 0 where
  window_out_of_range reversal_would_change_nothing already_armed : Refusal
  target_held : String → Refusal

pub record Guard (M : Type 0) : Type 0 where
  pub guard_id : String
  pub attempt_id : String
  pub ifindex : ℤ
  pub expected_interface_name : Option String
  pub guarded_mtu : ℤ
  pub restore_mtu : ℤ
  pub window_s : ℤ
  pub armed_at : ℕ
  pub expires_at : ℕ
  pub phase : Phase
  pub fired_at : Option ℕ
  pub mutation : Option M
  pub timer : Bool

-- The arguments of `arm`.
pub record ArmRequest : Type 0 where
  pub guard_id : String
  pub attempt_id : String
  pub ifindex : ℤ
  pub expected_interface_name : Option String
  pub guarded_mtu : ℤ
  pub restore_mtu : ℤ
  pub window_s : ℤ

-- The arguments of one call of `mutate`, with the guard for which it was made.
pub record Dispatch : Type 0 where
  pub guard_id : String
  pub attempt_id : String
  pub ifindex : ℤ
  pub expected_current_mtu : ℤ
  pub desired_mtu : ℤ
  pub expected_interface_name : Option String

pub record Registry (M : Type 0) : Type 0 where
  pub armed_guards : Dict (Guard M)
  pub settled_guards : Dict (Guard M)
  pub dispatched : List Dispatch

pub record Report (M : Type 0) : Type 0 where
  pub guard_id : String
  pub phase : Phase
  pub holder_id : String
  pub attempt_id : Option String
  pub ifindex : Option ℤ
  pub guarded_mtu : Option ℤ
  pub restore_mtu : Option ℤ
  pub window_s : Option ℤ
  pub armed_at : Option ℕ
  pub expires_at : Option ℕ
  pub fired_at : Option ℕ
  pub mutation : Option M

pub data ArmResult (M : Type 0) : Type 0 where
  held : Report M → ArmResult M
  refused : Refusal → ArmResult M

-- MIN_WINDOW_S <= window_s <= MAX_WINDOW_S
abbrev pub in_window : ℤ → Bool
in_window (pos n) = leb min_window_s n && leb n max_window_s
in_window (negsuc n) = false

abbrev pub microseconds : ℤ → ℕ
microseconds (pos n) = n * 1000000
microseconds (negsuc n) = 0

module _ {M : Type 0} where
  abbrev pub empty : Registry M
  empty = record { armed_guards = []; settled_guards = []; dispatched = [] }

  unfoldable pub report : String → Guard M → Report M
  report holder g = record {
    guard_id = g.guard_id;
    phase = g.phase;
    holder_id = holder;
    attempt_id = some g.attempt_id;
    ifindex = some g.ifindex;
    guarded_mtu = some g.guarded_mtu;
    restore_mtu = some g.restore_mtu;
    window_s = some g.window_s;
    armed_at = some g.armed_at;
    expires_at = some g.expires_at;
    fired_at = g.fired_at;
    mutation = g.mutation;
  }

  unfoldable pub lost_report : String → String → Report M
  lost_report holder id = record {
    guard_id = id;
    phase = lost;
    holder_id = holder;
    attempt_id = none;
    ifindex = none;
    guarded_mtu = none;
    restore_mtu = none;
    window_s = none;
    armed_at = none;
    expires_at = none;
    fired_at = none;
    mutation = none;
  }

  -- The first armed guard of the target.
  unfoldable pub find_target : ℤ → Dict (Guard M) → Option (Guard M)
  find_target ifindex [] = none
  find_target ifindex ((id, g) ∷ d) =
      if int_eq g.ifindex ifindex then some g else find_target ifindex d

  abbrev pub new_guard : ℕ → ArmRequest → Guard M
  new_guard now r = record {
    guard_id = r.guard_id;
    attempt_id = r.attempt_id;
    ifindex = r.ifindex;
    expected_interface_name = r.expected_interface_name;
    guarded_mtu = r.guarded_mtu;
    restore_mtu = r.restore_mtu;
    window_s = r.window_s;
    armed_at = now;
    expires_at = now + microseconds r.window_s;
    phase = armed;
    fired_at = none;
    mutation = none;
    timer = true;
  }

  -- The part of `arm` under the lock.
  pub arm_locked :
      Option (Guard M)
      → Option (Guard M)
      → Option (Guard M)
      → String
      → ℕ
      → ArmRequest
      → Registry M
      → ArmResult M × Registry M
  arm_locked (some _) _ _ holder now r reg = (refused already_armed, reg)
  arm_locked none (some _) _ holder now r reg = (refused already_armed, reg)
  arm_locked none none (some g) holder now r reg = (refused (target_held g.guard_id), reg)
  arm_locked none none none holder now r reg =
      let g = new_guard now r in
      (held (report holder g), record reg { armed_guards = insert r.guard_id g reg.armed_guards })

  unfoldable pub arm : String → ℕ → ArmRequest → Registry M → ArmResult M × Registry M
  unfolding arm_locked
  arm holder now r reg =
      if not (in_window r.window_s)
      then (refused window_out_of_range, reg)
      else if int_eq r.guarded_mtu r.restore_mtu
      then (refused reversal_would_change_nothing, reg)
      else arm_locked (lookup r.guard_id reg.armed_guards) (lookup r.guard_id reg.settled_guards)
          (find_target r.ifindex reg.armed_guards) holder now r reg

  unfoldable pub settle : Guard M → Registry M → Registry M
  settle g reg = record reg {
    armed_guards = remove g.guard_id reg.armed_guards;
    settled_guards = trim settled_memory (insert g.guard_id g reg.settled_guards);
  }
