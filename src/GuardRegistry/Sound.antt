-- ===== src/GuardRegistry/Sound.antt =====
-- The registry's invariant: it holds at most one guard for each target, within its bounds.
use local_plane.Prelude.{
  ℕ, ◌+◌, ◌≤◌, String, ◌≡◌, refl, ◌⊎◌, inl, inr, true, false, Option, none, some, List, [], ◌∷◌,
  int_eq, arith, length, All, Bool-cases, Option-cases,
}
use local_plane.Prelude.Dict.{Dict, lookup, insert, remove, Distinct}
use local_plane.Prelude.Dict.Keys
use local_plane.GuardRegistry.{
  Guard, ArmRequest, Dispatch, Registry, armed, disarmed, fired, settled_memory, in_window,
  microseconds, empty, find_target, new_guard, arm_locked, arm, settle,
}
use local_plane.GuardRegistry.Handlers.{
  disarm, shutdown, cancelled, fire, fired_guard, Event, arm_call, disarm_call, status_call,
  timer_call, shutdown_call, handle, run,
}
use local_plane.GuardRegistry.Cancelled.{cancelled-Distinct, cancelled-OneEach, cancelled-Apart}
use local_plane.GuardRegistry.Targets.{
  OneEach, Apart, NoTarget-find, OneEach-remove, OneEach-insert, Apart-remove, Apart-insert,
  Apart-settle,
}

-- What an armed entry satisfies.
pub record IsHeld {M : Type 0} (e : String × Guard M) : Type 0 where
  pub under_own_id : e.0 ≡ e.1.guard_id
  pub phase_armed : e.1.phase ≡ armed
  pub window : in_window e.1.window_s ≡ true
  pub reverts : int_eq e.1.guarded_mtu e.1.restore_mtu ≡ false
  pub unfired : e.1.mutation ≡ none
  pub deadline : e.1.expires_at ≡ e.1.armed_at + microseconds e.1.window_s

-- What a settled entry satisfies: it fired and has the answer of `mutate`, or it was released.
pub record IsSettled {M : Type 0} (e : String × Guard M) : Type 0 where
  pub settled_id : e.0 ≡ e.1.guard_id
  pub no_timer : e.1.timer ≡ false
  pub outcome :
      ((e.1.phase ≡ disarmed) × (e.1.mutation ≡ none))
      ⊎ ((e.1.phase ≡ fired) × ((m : M) × (e.1.mutation ≡ some m)))

pub record IsSound {M : Type 0} (reg : Registry M) : Type 0 where
  pub held : All IsHeld reg.armed_guards
  pub armed_ids : Distinct reg.armed_guards
  pub one_each : OneEach reg.armed_guards
  pub settled : All IsSettled reg.settled_guards
  pub settled_ids : Distinct reg.settled_guards
  pub apart : Apart reg.armed_guards reg.settled_guards
  pub bounded : length reg.settled_guards ≤ settled_memory

module _ {M : Type 0} where
  -- Settling an armed guard that has an outcome.
  settle-IsSound :
      (g : Guard M) (reg : Registry M)
      → IsSettled (g.guard_id, g)
      → IsSound reg
      → IsSound (settle g reg)
  unfolding settle
  settle-IsSound g reg ok h = record {
    held = Keys.All-remove IsHeld g.guard_id reg.armed_guards h.held;
    armed_ids = Keys.Distinct-remove g.guard_id reg.armed_guards h.armed_ids;
    one_each = OneEach-remove g.guard_id reg.armed_guards h.one_each;
    settled =
        Keys.All-trim IsSettled settled_memory (insert g.guard_id g reg.settled_guards)
          (Keys.All-insert IsSettled g.guard_id g reg.settled_guards ok h.settled);
    settled_ids =
        Keys.Distinct-trim settled_memory (insert g.guard_id g reg.settled_guards)
          (Keys.Distinct-insert g.guard_id g reg.settled_guards h.settled_ids);
    apart =
        Apart-settle g.guard_id g settled_memory (remove g.guard_id reg.armed_guards)
          reg.settled_guards (Keys.remove-Absent_self g.guard_id reg.armed_guards h.armed_ids)
          (Apart-remove g.guard_id reg.armed_guards reg.settled_guards h.apart);
    bounded = Keys.length-trim settled_memory (insert g.guard_id g reg.settled_guards);
  }

  arm_locked-IsSound :
      (a s t : Option (Guard M)) (holder : String) (now : ℕ) (r : ArmRequest) (reg : Registry M)
      → lookup r.guard_id reg.armed_guards ≡ a
      → lookup r.guard_id reg.settled_guards ≡ s
      → find_target r.ifindex reg.armed_guards ≡ t
      → in_window r.window_s ≡ true
      → int_eq r.guarded_mtu r.restore_mtu ≡ false
      → IsSound reg
      → IsSound (arm_locked a s t holder now r reg).1
  unfolding arm_locked
  arm_locked-IsSound (some _) _ _ holder now r reg ea es et w c h = h
  arm_locked-IsSound none (some _) _ holder now r reg ea es et w c h = h
  arm_locked-IsSound none none (some _) holder now r reg ea es et w c h = h
  arm_locked-IsSound none none none holder now r reg ea es et w c h =
      let g = new_guard now r in
      let fresh = Keys.Absent-lookup r.guard_id reg.armed_guards ea in
      record {
        held =
            Keys.All-insert IsHeld r.guard_id g reg.armed_guards
              (record {
                under_own_id = refl;
                phase_armed = refl;
                window = w;
                reverts = c;
                unfired = refl;
                deadline = refl;
              })
              h.held;
        armed_ids = Keys.Distinct-insert r.guard_id g reg.armed_guards h.armed_ids;
        one_each =
            OneEach-insert r.guard_id g reg.armed_guards fresh
              (NoTarget-find r.ifindex reg.armed_guards et) h.one_each;
        settled = h.settled;
        settled_ids = h.settled_ids;
        apart =
            Apart-insert r.guard_id g reg.armed_guards reg.settled_guards
              (Keys.Absent-lookup r.guard_id reg.settled_guards es) h.apart;
        bounded = h.bounded;
      }

  arm-IsSound :
      (holder : String) (now : ℕ) (r : ArmRequest) (reg : Registry M)
      → IsSound reg
      → IsSound (arm holder now r reg).1
  unfolding arm
  arm-IsSound holder now r reg h = elim (Bool-cases (in_window r.window_s)) [
    | inr out ↦ rw out h
    | inl w ↦ rw w (elim (Bool-cases (int_eq r.guarded_mtu r.restore_mtu)) [
      | inl same ↦ rw same h
      | inr c ↦ rw c (arm_locked-IsSound _ _ _ holder now r reg refl refl refl w c h)
    ])
  ]

  released-IsSettled :
      (id : String) (g : Guard M)
      → IsHeld (id, g)
      → IsSettled (g.guard_id, record g { timer = false; phase = disarmed })
  released-IsSettled id g held = record {
    settled_id = refl;
    no_timer = refl;
    outcome = inl (refl, held.unfired);
  }

  pub disarm-IsSound :
      (holder id : String) (reg : Registry M) → IsSound reg → IsSound (disarm holder id reg).1
  unfolding disarm
  disarm-IsSound holder id reg h = elim (Option-cases (lookup id reg.armed_guards)) [
    | inr (g, found) ↦ rw found (
        settle-IsSound (record g { timer = false; phase = disarmed }) reg
          (released-IsSettled id g (Keys.All-lookup IsHeld id reg.armed_guards h.held found)) h)
    | inl gone ↦ rw gone (elim (Option-cases (lookup id reg.settled_guards)) [
      | inl unknown ↦ rw unknown h
      | inr (g, known) ↦ rw known h
    ])
  ]

  cancelled-IsHeld : (d : Dict (Guard M)) → All IsHeld d → All IsHeld (cancelled d)
  cancelled-IsHeld [] h = tt
  cancelled-IsHeld ((id, g) ∷ d) h =
      let p = h.0 in
      (
        record {
          under_own_id = p.under_own_id;
          phase_armed = p.phase_armed;
          window = p.window;
          reverts = p.reverts;
          unfired = p.unfired;
          deadline = p.deadline;
        },
        cancelled-IsHeld d h.1,
      )

  shutdown-IsSound : (reg : Registry M) → IsSound reg → IsSound (shutdown reg)
  unfolding shutdown
  shutdown-IsSound reg h = record {
    held = cancelled-IsHeld reg.armed_guards h.held;
    armed_ids = cancelled-Distinct reg.armed_guards h.armed_ids;
    one_each = cancelled-OneEach reg.armed_guards h.one_each;
    settled = h.settled;
    settled_ids = h.settled_ids;
    apart = cancelled-Apart reg.armed_guards reg.settled_guards h.apart;
    bounded = h.bounded;
  }

  pub noted-IsSound :
      (ds : List Dispatch) (reg : Registry M)
      → IsSound reg
      → IsSound (record reg { dispatched = ds })
  noted-IsSound ds reg h = record {
    held = h.held;
    armed_ids = h.armed_ids;
    one_each = h.one_each;
    settled = h.settled;
    settled_ids = h.settled_ids;
    apart = h.apart;
    bounded = h.bounded;
  }

module _ {M : Type 0} (mutate : List Dispatch → Dispatch → M) where
  fire-IsSound :
      (now : ℕ) (id : String) (reg : Registry M) → IsSound reg → IsSound (fire mutate now id reg)
  unfolding fire
  fire-IsSound now id reg h = elim (Option-cases (lookup id reg.armed_guards)) [
    | inl gone ↦ rw gone h
    | inr (g, found) ↦ rw found (
        settle-IsSound (fired_guard mutate now g reg) _
          (record { settled_id = refl; no_timer = refl; outcome = inr (refl, (_, refl)) })
          (noted-IsSound _ reg h))
  ]

module _ {M : Type 0} (mutate : List Dispatch → Dispatch → M) (holder : String) where
  -- Every call of a handler keeps the registry sound: one guard for each identifier and target, in
  -- its window, with a reversal that changes the value; at most 64 settled guards, each released
  -- without an answer or fired with its answer, and none of them still armed.
  pub handle-IsSound :
      (e : Event) (reg : Registry M) → IsSound reg → IsSound (handle mutate holder e reg)
  unfolding handle
  handle-IsSound (arm_call now r) reg h = arm-IsSound holder now r reg h
  handle-IsSound (disarm_call id) reg h = disarm-IsSound holder id reg h
  handle-IsSound (status_call id) reg h = h
  handle-IsSound (timer_call now id) reg h = fire-IsSound mutate now id reg h
  handle-IsSound shutdown_call reg h = shutdown-IsSound reg h

  -- A registry that is sound stays sound over any calls in any order: one guard for each identifier and
  -- target, in its window; at most 64 settled guards, each released without an answer or fired with its
  -- answer, and none of them still armed.
  pub run-IsSound :
      (es : List Event) (reg : Registry M) → IsSound reg → IsSound (run mutate holder es reg)
  unfolding run
  run-IsSound [] reg h = h
  run-IsSound (e ∷ es) reg h = run-IsSound es (handle mutate holder e reg) (handle-IsSound e reg h)

pub empty-IsSound : {M : Type 0} → IsSound (empty {M = M})
empty-IsSound = record {
  held = tt;
  armed_ids = tt;
  one_each = tt;
  settled = tt;
  settled_ids = tt;
  apart = tt;
  bounded = omega arith;
}
