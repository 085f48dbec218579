-- ===== src/GuardRegistry/Race.antt =====
-- What a release and an expiry do to one guard, in either order.
use local_plane.Prelude.{
  ℕ, String, ◌≡◌, refl, ◌∙◌, inl, inr, false, none, some, List, ◌∷◌, Option-cases,
}
use local_plane.Prelude.Dict.{lookup, insert, remove, trim}
use mathlib.Core.Path.{subst}
use local_plane.Prelude.Dict.Keys
use local_plane.GuardRegistry.{Guard, Dispatch, Registry, disarmed, report, settle, settled_memory}
use local_plane.GuardRegistry.Handlers.{disarm, status, fire, fired_guard, dispatch_of}
use local_plane.GuardRegistry.Targets.{Apart-lookup}
use local_plane.GuardRegistry.Sound.{IsSound, IsHeld}

module _ {M : Type 0} (holder id : String) (reg : Registry M) where
  -- What a release and a question answer, by where the guard stands.
  pub disarm_armed :
      (g : Guard M)
      → lookup id reg.armed_guards ≡ some g
      → let g' = record g { timer = false; phase = disarmed } in
        disarm holder id reg ≡ (report holder g', settle g' reg)
  unfolding disarm
  disarm_armed g e = rw e

  pub disarm_settled :
      (g : Guard M)
      → lookup id reg.armed_guards ≡ none
      → lookup id reg.settled_guards ≡ some g
      → disarm holder id reg ≡ (report holder g, reg)
  unfolding disarm
  disarm_settled g e f = rw (e, f)

  pub disarm_gone : lookup id reg.armed_guards ≡ none → (disarm holder id reg).1 ≡ reg
  unfolding disarm
  disarm_gone e = elim (Option-cases (lookup id reg.settled_guards)) [
    | inl f ↦ rw (e, f)
    | inr (g, f) ↦ rw (e, f)
  ]

  pub status_settled :
      (g : Guard M)
      → lookup id reg.armed_guards ≡ none
      → lookup id reg.settled_guards ≡ some g
      → status holder id reg ≡ report holder g
  unfolding status
  status_settled g e f = rw (e, f)

module _ {M : Type 0} (mutate : List Dispatch → Dispatch → M) (now : ℕ) (id : String)
    (reg : Registry M) where
  pub fire_armed :
      (g : Guard M)
      → lookup id reg.armed_guards ≡ some g
      → fire mutate now id reg
        ≡ settle
            (fired_guard mutate now g reg)
            (record reg { dispatched = dispatch_of g ∷ reg.dispatched })
  unfolding fire
  fire_armed g e = rw e

  pub fire_gone : lookup id reg.armed_guards ≡ none → fire mutate now id reg ≡ reg
  unfolding fire
  fire_gone e = rw e

module _ {M : Type 0} (id : String) (reg : Registry M) (g h : Guard M) (ds : List Dispatch) where
  -- Where a guard stands after it is settled.
  pub settle_places :
      IsSound reg
      → lookup id reg.armed_guards ≡ some g
      → g.guard_id ≡ h.guard_id
      → (lookup id (settle h (record reg { dispatched = ds })).armed_guards ≡ none)
        × (lookup id (settle h (record reg { dispatched = ds })).settled_guards ≡ some h)
  unfolding settle
  settle_places sound found e =
      let own = (Keys.All-lookup IsHeld id reg.armed_guards sound.held found).under_own_id ∙ e in
      subst
        (λ j.
          (lookup id (remove j reg.armed_guards) ≡ none)
          × (lookup id (trim settled_memory (insert j h reg.settled_guards)) ≡ some h))
        own
        (
          Keys.lookup-Absent id (remove id reg.armed_guards)
              (Keys.remove-Absent_self id reg.armed_guards sound.armed_ids),
          Keys.lookup-trim-insert id h 63 reg.settled_guards
              (Apart-lookup id reg.armed_guards reg.settled_guards sound.apart found),
        )

module _ {M : Type 0} (mutate : List Dispatch → Dispatch → M) (holder : String) where
  module _ (now : ℕ) (id : String) (reg : Registry M) {g : Guard M} (sound : IsSound reg)
      (found : lookup id reg.armed_guards ≡ some g) where
    -- When the window of an armed guard ends, its reversal is dispatched once, with the values that
    -- were fixed when it was armed, and the guard is answered for as fired, with the result.
    pub fire_dispatches :
        ((fire mutate now id reg).dispatched ≡ dispatch_of g ∷ reg.dispatched)
        × (status holder id (fire mutate now id reg) ≡ report holder (fired_guard mutate now g reg))
    unfolding settle
    fire_dispatches =
        let (gone, known) =
          settle_places id reg g (fired_guard mutate now g reg) (dispatch_of g ∷ reg.dispatched)
            sound found refl in
        rw (fire_armed mutate now id reg g found) (refl, status_settled holder id _ _ gone known)

    -- A release that comes after the expiry changes nothing, and reports the firing.
    pub disarm-fire :
        disarm holder id (fire mutate now id reg)
        ≡ (report holder (fired_guard mutate now g reg), fire mutate now id reg)
    disarm-fire =
        let (gone, known) =
          settle_places id reg g (fired_guard mutate now g reg) (dispatch_of g ∷ reg.dispatched)
            sound found refl in
        rw (fire_armed mutate now id reg g found) (disarm_settled holder id _ _ gone known)

    -- An expiry that comes after the release dispatches nothing and changes nothing.
    pub fire-disarm :
        (fire mutate now id (disarm holder id reg).1 ≡ (disarm holder id reg).1)
        × ((disarm holder id reg).1.dispatched ≡ reg.dispatched)
        × ((disarm holder id reg).0.phase ≡ disarmed)
    unfolding settle report
    fire-disarm =
        let g' = record g { timer = false; phase = disarmed } in
        let (gone, known) = settle_places id reg g g' reg.dispatched sound found refl in
        rw (disarm_armed holder id reg g found) (fire_gone mutate now id _ gone, refl, refl)
