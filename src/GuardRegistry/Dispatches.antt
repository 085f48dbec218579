-- ===== src/GuardRegistry/Dispatches.antt =====
-- How often a reversal is dispatched, over any sequence of calls.
use local_plane.Prelude.{
  ℕ, suc, ◌+◌, ◌≤◌, String, ◌≡◌, refl, inl, inr, false, Option, none, some, List, [], ◌∷◌, arith,
  Option-cases, if◌then◌else◌, str_eq, eq_iff,
}
use local_plane.Prelude.Dict.{lookup, lookup-insert}
use local_plane.Prelude.Dict.Keys
use local_plane.GuardRegistry.{
  Guard, ArmRequest, Dispatch, Registry, disarmed, empty, arm, arm_locked, settle, new_guard,
}
use local_plane.GuardRegistry.Handlers.{
  disarm, shutdown, fire, fired_guard, dispatch_of, Event, arm_call, disarm_call, status_call,
  timer_call, shutdown_call, handle, run,
}
use local_plane.GuardRegistry.Cancelled.{lookup-cancelled}
use local_plane.GuardRegistry.Sound.{
  IsSound, IsHeld, noted-IsSound, disarm-IsSound, handle-IsSound, empty-IsSound,
}
use local_plane.GuardRegistry.Race.{disarm_armed, disarm_gone, fire_armed, fire_gone}

-- How many of the calls of `mutate` were made for the guard.
abbrev pub dispatches : String → List Dispatch → ℕ
dispatches id [] = 0
dispatches id (d ∷ ds) = let n = dispatches id ds in if str_eq d.guard_id id then suc n else n

-- How many of the events ask to arm the guard.
abbrev pub arms_in : String → Event → ℕ
arms_in id (arm_call now r) = if str_eq r.guard_id id then 1 else 0
arms_in id _ = 0

abbrev pub arms : String → List Event → ℕ
arms id [] = 0
arms id (e ∷ es) = arms_in id e + arms id es

-- 1 while the guard is armed.
abbrev pending_of {ℓ} : {A : Type ℓ} → Option A → ℕ
pending_of none = 0
pending_of (some _) = 1

module _ {M : Type 0} where
  abbrev pub pending : String → Registry M → ℕ
  pending id reg = pending_of (lookup id reg.armed_guards)

  -- The dispatches made, and the one that may still come.
  abbrev pub owed : String → Registry M → ℕ
  owed id reg = dispatches id reg.dispatched + pending id reg

  pub owed-arm :
      (holder : String) (now : ℕ) (r : ArmRequest) (id : String) (reg : Registry M)
      → owed id (arm holder now r reg).1 ≤ owed id reg + arms_in id (arm_call now r)
  unfolding arm arm_locked
  owed-arm holder now r id reg =
      ground (arith, lookup-insert r.guard_id id (new_guard now r) reg.armed_guards)

  pub owed-settle :
      (id : String) (g : Guard M) (reg : Registry M)
      → IsSound reg
      → (pending id (settle g reg) ≡ (if str_eq g.guard_id id then 0 else pending id reg))
  unfolding settle
  owed-settle id g reg h =
      ground (arith, Keys.lookup-remove g.guard_id id reg.armed_guards h.armed_ids)

  owed-disarm :
      (holder j id : String) (reg : Registry M)
      → IsSound reg
      → owed id (disarm holder j reg).1 ≤ owed id reg
  owed-disarm holder j id reg h = elim (Option-cases (lookup j reg.armed_guards)) [
    | inr (g, found) ↦ rw (disarm_armed holder j reg g found) (
        unfold settle in
        ground (arith, owed-settle id (record g { timer = false; phase = disarmed }) reg h))
    | inl gone ↦ rw (disarm_gone holder j reg gone) (omega arith)
  ]

  pending-disarm :
      (holder id : String) (reg : Registry M)
      → IsSound reg
      → pending id (disarm holder id reg).1 ≡ 0
  pending-disarm holder id reg h = elim (Option-cases (lookup id reg.armed_guards)) [
    | inr (g, found) ↦
        let own = (Keys.All-lookup IsHeld id reg.armed_guards h.held found).under_own_id in
        rw (disarm_armed holder id reg g found) (
          unfold settle in
          ground (
            arith,
            owed-settle id (record g { timer = false; phase = disarmed }) reg h,
            own,
            eq_iff g.guard_id id,
          ))
    | inl gone ↦ rw (disarm_gone holder id reg gone) (ground arith)
  ]

  pub dispatches-disarm :
      (holder j id : String) (reg : Registry M)
      → dispatches id (disarm holder j reg).1.dispatched ≡ dispatches id reg.dispatched
  dispatches-disarm holder j id reg = elim (Option-cases (lookup j reg.armed_guards)) [
    | inr (g, found) ↦ rw (disarm_armed holder j reg g found) (unfold settle in refl)
    | inl gone ↦ rw (disarm_gone holder j reg gone) refl
  ]

  pub owed-shutdown : (id : String) (reg : Registry M) → owed id (shutdown reg) ≡ owed id reg
  unfolding shutdown
  owed-shutdown id reg = ground (arith, lookup-cancelled id reg.armed_guards)

module _ {M : Type 0} (mutate : List Dispatch → Dispatch → M) (now : ℕ) (j id : String)
    (reg : Registry M) where
  owed-fire : IsSound reg → owed id (fire mutate now j reg) ≤ owed id reg
  owed-fire h = elim (Option-cases (lookup j reg.armed_guards)) [
    | inl gone ↦ rw (fire_gone mutate now j reg gone) (omega arith)
    | inr (g, found) ↦
        let own = (Keys.All-lookup IsHeld j reg.armed_guards h.held found).under_own_id in
        rw (fire_armed mutate now j reg g found) (
          unfold settle in
          ground (
            arith,
            owed-settle id (fired_guard mutate now g reg)
                (record reg { dispatched = dispatch_of g ∷ reg.dispatched })
                (noted-IsSound _ reg h),
            own,
            found,
            eq_iff g.guard_id id,
          ))
  ]

  dispatches-fire : dispatches id reg.dispatched ≤ dispatches id (fire mutate now j reg).dispatched
  unfolding fire settle
  dispatches-fire = ground arith

module _ {M : Type 0} (mutate : List Dispatch → Dispatch → M) (holder : String) (id : String) where
  owed-handle :
      (e : Event) (reg : Registry M)
      → IsSound reg
      → owed id (handle mutate holder e reg) ≤ owed id reg + arms_in id e
  unfolding handle
  owed-handle (arm_call now r) reg h = owed-arm holder now r id reg
  owed-handle (disarm_call j) reg h = omega (arith, owed-disarm holder j id reg h)
  owed-handle (status_call j) reg h = omega arith
  owed-handle (timer_call now j) reg h = omega (arith, owed-fire mutate now j id reg h)
  owed-handle shutdown_call reg h = omega (arith, owed-shutdown id reg)

  dispatches-handle :
      (e : Event) (reg : Registry M)
      → dispatches id reg.dispatched ≤ dispatches id (handle mutate holder e reg).dispatched
  unfolding handle
  dispatches-handle (arm_call now r) reg = unfold arm in unfold arm_locked in ground arith
  dispatches-handle (disarm_call j) reg = omega (arith, dispatches-disarm holder j id reg)
  dispatches-handle (status_call j) reg = omega arith
  dispatches-handle (timer_call now j) reg = dispatches-fire mutate now j id reg
  dispatches-handle shutdown_call reg = unfold shutdown in omega arith

  owed-run :
      (es : List Event) (reg : Registry M)
      → IsSound reg
      → owed id (run mutate holder es reg) ≤ owed id reg + arms id es
  unfolding run
  owed-run [] reg h = omega arith
  owed-run (e ∷ es) reg h = omega (
    arith,
    owed-handle e reg h,
    owed-run es (handle mutate holder e reg) (handle-IsSound mutate holder e reg h),
  )

  dispatches-run :
      (es : List Event) (reg : Registry M)
      → dispatches id reg.dispatched ≤ dispatches id (run mutate holder es reg).dispatched
  unfolding run
  dispatches-run [] reg = omega arith
  dispatches-run (e ∷ es) reg =
      omega (arith, dispatches-handle e reg, dispatches-run es (handle mutate holder e reg))

  -- From the start, over any calls in any order, the reversal of an identifier is dispatched at most
  -- as often as a guard with that identifier was asked to be armed.
  pub dispatches-le-arms :
      (es : List Event) → dispatches id (run mutate holder es empty).dispatched ≤ arms id es
  unfolding lookup
  dispatches-le-arms es = omega (arith, owed-run es empty empty-IsSound)

  -- Once a sound registry has released a guard, no later calls dispatch its reversal, unless one arms that
  -- identifier again.
  pub disarm_silences :
      (es : List Event) (reg : Registry M)
      → IsSound reg
      → arms id es ≡ 0
      → dispatches id (run mutate holder es (disarm holder id reg).1).dispatched
        ≡ dispatches id reg.dispatched
  disarm_silences es reg h none_armed = omega (
    arith,
    dispatches-disarm holder id id reg,
    pending-disarm holder id reg h,
    dispatches-run es (disarm holder id reg).1,
    owed-run es (disarm holder id reg).1 (disarm-IsSound holder id reg h),
  )
