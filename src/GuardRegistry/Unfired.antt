-- ===== src/GuardRegistry/Unfired.antt =====
-- src/localplane/agent/guard.py: a guard that was released in time never had its reversal dispatched.
use local_plane.Prelude.{
  false, ℕ, ◌+◌, ◌≤◌, String, ◌≡◌, refl, ap, ◌∙◌, inl, inr, Option, none, some, List, [], ◌∷◌,
  arith, Option-cases, if◌then◌else◌, str_eq, eq_iff,
}
use local_plane.Prelude.Dict.{lookup, lookup-insert, insert}
use local_plane.Prelude.Dict.Keys
use local_plane.GuardRegistry.{
  Guard, ArmRequest, Dispatch, Registry, Phase, armed, disarmed, fired, lost, settled_memory,
  new_guard, empty, arm, arm_locked, settle,
}
use local_plane.GuardRegistry.Handlers.{
  disarm, shutdown, fire, fired_guard, dispatch_of, Event, arm_call, disarm_call, status_call,
  timer_call, shutdown_call, handle, run,
}
use local_plane.GuardRegistry.Sound.{
  IsSound, IsHeld, noted-IsSound, handle-IsSound, run-IsSound, empty-IsSound,
}
use local_plane.GuardRegistry.Race.{disarm_armed, disarm_gone, fire_armed, fire_gone}
use local_plane.GuardRegistry.Dispatches.{
  dispatches, arms_in, arms, owed, owed-settle, owed-shutdown,
}

abbrev released_phase : Phase → ℕ
released_phase armed = 0
released_phase disarmed = 1
released_phase fired = 0
released_phase lost = 0

module _ {M : Type 0} where
  abbrev released_of : Option (Guard M) → ℕ
  released_of none = 0
  released_of (some g) = released_phase g.phase

  -- 1 while the registry remembers the guard as released.
  abbrev released : String → Registry M → ℕ
  released id reg = released_of (lookup id reg.settled_guards)

  -- The dispatches made, the one that may still come, and the one that was averted.
  abbrev balance : String → Registry M → ℕ
  balance id reg = owed id reg + released id reg

  released-settle :
      (id : String) (g : Guard M) (reg : Registry M)
      → IsSound reg
      → released id (settle g reg)
        ≤ (if str_eq g.guard_id id then released_phase g.phase else released id reg)
  unfolding settle
  released-settle id g reg h =
      elim (Keys.lookup-trim id settled_memory (insert g.guard_id g reg.settled_guards)
        (Keys.Distinct-insert g.guard_id g reg.settled_guards h.settled_ids)) [
          | inl e ↦ rw e (omega arith)
          | inr e ↦ rw e (rw (lookup-insert g.guard_id id g reg.settled_guards) (ground arith))
        ]

  balance-arm :
      (holder : String) (now : ℕ) (r : ArmRequest) (id : String) (reg : Registry M)
      → balance id (arm holder now r reg).1 ≤ balance id reg + arms_in id (arm_call now r)
  unfolding arm arm_locked
  balance-arm holder now r id reg =
      ground (arith, lookup-insert r.guard_id id (new_guard now r) reg.armed_guards)

  module _ (holder j id : String) (reg : Registry M) (h : IsSound reg) where
    balance-disarm : balance id (disarm holder j reg).1 ≤ balance id reg
    balance-disarm = elim (Option-cases (lookup j reg.armed_guards)) [
      | inl gone ↦ rw (disarm_gone holder j reg gone) (omega arith)
      | inr (g, found) ↦
          let own = (Keys.All-lookup IsHeld j reg.armed_guards h.held found).under_own_id in
          let g' = record g { timer = false; phase = disarmed } in
          let averted = released-settle id g' reg h in
          let still = owed-settle id g' reg h in
          rw (disarm_armed holder j reg g found)
            (unfold settle in ground (arith, averted, still, own, found, eq_iff g.guard_id id))
    ]

  module _ (mutate : List Dispatch → Dispatch → M) (now : ℕ) (j id : String) (reg : Registry M)
      (h : IsSound reg) where
    balance-fire : balance id (fire mutate now j reg) ≤ balance id reg
    balance-fire = elim (Option-cases (lookup j reg.armed_guards)) [
      | inl gone ↦ rw (fire_gone mutate now j reg gone) (omega arith)
      | inr (g, found) ↦
          let own = (Keys.All-lookup IsHeld j reg.armed_guards h.held found).under_own_id in
          let noted = record reg { dispatched = dispatch_of g ∷ reg.dispatched } in
          let sound = noted-IsSound (dispatch_of g ∷ reg.dispatched) reg h in
          let sent = released-settle id (fired_guard mutate now g reg) noted sound in
          let still = owed-settle id (fired_guard mutate now g reg) noted sound in
          rw (fire_armed mutate now j reg g found)
            (unfold settle in ground (arith, sent, still, own, found, eq_iff g.guard_id id))
    ]

module _ {M : Type 0} (mutate : List Dispatch → Dispatch → M) (holder id : String) where
  balance-handle :
      (e : Event) (reg : Registry M)
      → IsSound reg
      → balance id (handle mutate holder e reg) ≤ balance id reg + arms_in id e
  unfolding handle
  balance-handle (arm_call now r) reg h = balance-arm holder now r id reg
  balance-handle (disarm_call j) reg h = omega (arith, balance-disarm holder j id reg h)
  balance-handle (status_call j) reg h = omega arith
  balance-handle (timer_call now j) reg h = omega (arith, balance-fire mutate now j id reg h)
  balance-handle shutdown_call reg h = unfold shutdown in omega (arith, owed-shutdown id reg)

  balance-run :
      (es : List Event) (reg : Registry M)
      → IsSound reg
      → balance id (run mutate holder es reg) ≤ balance id reg + arms id es
  unfolding run
  balance-run [] reg h = omega arith
  balance-run (e ∷ es) reg h = omega (
    arith,
    balance-handle e reg h,
    balance-run es (handle mutate holder e reg) (handle-IsSound mutate holder e reg h),
  )

  -- A guard that a release leaves remembered as released, where the calls before armed its identifier at most
  -- once, had no reversal dispatched.
  pub disarm-undispatched :
      (es : List Event) {g : Guard M}
      → arms id es ≤ 1
      → lookup id (disarm holder id (run mutate holder es empty)).1.settled_guards ≡ some g
      → g.phase ≡ disarmed
      → dispatches id (disarm holder id (run mutate holder es empty)).1.dispatched ≡ 0
  disarm-undispatched es {g} once known phase =
      let reg = run mutate holder es empty in
      let one : released id (disarm holder id reg).1 ≡ 1 =
        ap released_of known ∙ ap released_phase phase in
      let sound = run-IsSound mutate holder es empty empty-IsSound in
      let none_owed : balance {M = M} id empty ≡ 0 = unfold lookup in refl in
      omega (
        arith,
        one,
        balance-disarm holder id id reg sound,
        balance-run es empty empty-IsSound,
        none_owed,
        once,
      )
