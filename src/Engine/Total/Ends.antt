-- ===== src/Engine/Total/Ends.antt =====
-- src/localplane/backend/changes.py: past the write boundary the engine is not refused, and it ends the change.
use local_plane.Prelude.{◌≡◌, ◌⊎◌, inl, refl, Bool, true, false, Option, none, some, ℤ, arith}
use local_plane.Recovery.{VerificationOutcome, is_proved}
use local_plane.Engine.{
  RunState, ChangeResult, RecoveryReason, RunEvent, Preview, Checkpoint, ChangeRow, Store,
  MutationRequest, mutate_call, Expectation, Executor,
}
use local_plane.Engine.Actions.{World, refuse, gets, ask}
use local_plane.Engine.Steps.{StepArgs, at, step, stepped, changed}
use local_plane.Engine.Boundary.{mutate, answered}
use local_plane.Engine.Endings.{
  finish, finished_as, recover, read_back, read_if, applied_expectation, restored_expectation,
  verify, verify_rollback, rollback_end, recovery_reason, reverse, is_unknown, unread_reason,
  roll_back, release_guard, record_guard_settlement,
}
use local_plane.Engine.Held.{is_held_state}
use local_plane.Engine.Restart.{has_change, is_flying, is_flying_result}
use local_plane.Engine.Total.{
  Reaches, Runs, Runs-pure, Runs-gets, Runs-update, Runs-ask, Runs-if, Runs-bind, Concludes,
  Concludes-bind, Concludes-if, Concludes-Runs, Concludes-update_if,
}

-- The boundary is crossed.
abbrev pub HasRow : Store → Type 0
HasRow s = has_change s.change ≡ true

-- The change has ended, or is held until its connection is proved.
abbrev pub Closed : Store → Type 0
Closed s = (is_flying s.change ≡ false) ⊎ (is_held_state s.state ≡ true)

still :
    (f : ChangeRow → ChangeRow) (o : Option ChangeRow)
    → has_change o ≡ true
    → has_change (changed f o) ≡ true
still f none e = e
still f (some c) e = refl

pub step-Runs : (a : StepArgs) → Runs HasRow (step a) (λ u. HasRow)
unfolding step
step-Runs a = Runs-update (stepped a) (λ s e. still a.change s.change e)

landed :
    (result : ChangeResult) (recovery : Option RecoveryReason) (o : Option ChangeRow)
    → is_flying_result result ≡ false
    → is_flying
        (changed (λ (c : ChangeRow). record c { result = result; recovery_reason = recovery }) o)
      ≡ false
landed result recovery none e = refl
landed result recovery (some c) e = e

row_there : (o : Option ChangeRow) → none ≡ o → has_change o ≡ true → ⊥
row_there o e h = absurd (ground (arith, e, h))

module _ (state : RunState) (result : ChangeResult) (recovery : Option RecoveryReason)
    (e : is_flying_result result ≡ false) where
  finish_from :
      (o : Option ChangeRow)
      → Runs {A = Unit {0}}
          (λ s. (o ≡ s.change) × HasRow s)
          (elim o [
            | none ↦ refuse "assertion_error"
            | some c ↦ step (finished_as state result recovery c)
          ])
          (λ u. Closed)
  unfolding step
  finish_from none = record { reach = λ w p. absurd (row_there w.now.store.change p.0 p.1) }
  finish_from (some c) =
      Runs-update (stepped (finished_as state result recovery c))
        (λ s p. inl (landed result recovery s.change e))

  pub finish-Runs : Runs HasRow (finish state result recovery) (λ u. Closed)
  unfolding finish
  finish-Runs =
      Runs-bind {Q = λ o s. (o ≡ s.change) × HasRow s} (gets (λ s. s.change)) _
        (Runs-gets (λ s. s.change) (λ s p. (refl, p))) finish_from

pub recover-Runs : (reason : RecoveryReason) → Runs HasRow (recover reason) (λ u. Closed)
unfolding recover
recover-Runs reason =
    Runs-bind {Q = λ u. HasRow} _ _ (step-Runs (at RunEvent.recovery_required))
      λ u. finish-Runs RunState.recovery_required ChangeResult.recovery_required (some reason) refl

read_known :
    (p : Preview) (x : Executor) (e : Expectation) (w : World) (b : Bool)
    → HasRow w.now.store
    → Reaches (λ r. HasRow) (read_if b p x e w)
unfolding ask
read_known p x e w true h = h
read_known p x e w false h = h

pub read-Runs :
    (p : Preview) (x : Executor) (e : Expectation) → Runs HasRow (read_back p x e) (λ r. HasRow)
unfolding read_back
read-Runs p x e = record { reach = λ w h. read_known p x e w (x.target_known w.now.calls) h }

pub mutate-Runs :
    (x : Executor) (request : MutationRequest) → Runs HasRow (mutate x request) (λ r. HasRow)
unfolding answered
mutate-Runs x request =
    Runs-bind {Q = λ r. HasRow} _ _ (Runs-ask (mutate_call request) _)
      (λ r. record { reach = λ w h. h })

-- The change is closed, and only the end of a guarded plan is refused.
abbrev pub ClosedBy : Bool → Bool → Store → Type 0
ClosedBy guarded carried_out s = Closed s × (carried_out ≡ false → guarded ≡ true)

-- A closed change stays closed while its guard is released, also where the store does not take what is reported.
pub release-Concludes :
    (b : Bool) (x : Executor) → Concludes Closed (release_guard b x) (ClosedBy b)
unfolding release_guard record_guard_settlement
release-Concludes b x =
    Concludes-if b _ _
      (λ e.
        Concludes-bind {R = λ r. Closed} _ _ (Runs-ask _ x.disarm_guard)
          (λ r. Concludes-update_if _ _ (λ s c. ((c, λ k. e), (c, λ k. e)))))
      (λ e. Concludes-Runs _ (Runs-pure tt (λ s c. (c, λ k. absurd (ground (arith, k))))))

pub verify-Runs : (p : Preview) (x : Executor) → Runs HasRow (verify p x) (λ r. HasRow)
unfolding verify
verify-Runs p x = Runs-bind {Q = λ u. HasRow} _ _ (step-Runs _) λ u.
    Runs-bind {Q = λ r. HasRow} _ _ (read-Runs p x (applied_expectation p))
      λ r. Runs-bind {Q = λ u. HasRow} _ _ (step-Runs _) λ u. Runs-pure r (λ s h. h)

module _ (p : Preview) (x : Executor) (c : Checkpoint) where
  verify_rollback-Runs : Runs HasRow (verify_rollback p x c) (λ r. HasRow)
  unfolding verify_rollback
  verify_rollback-Runs = Runs-bind {Q = λ u. HasRow} _ _ (step-Runs _) λ u.
      Runs-bind {Q = λ r. HasRow} _ _ (read-Runs p x (restored_expectation c))
        λ r. Runs-bind {Q = λ u. HasRow} _ _ (step-Runs _) λ u. Runs-pure r (λ s h. h)

  reverse-Runs : (current : ℤ) → Runs HasRow (reverse p x c current) (λ u. Closed)
  unfolding reverse rollback_end
  reverse-Runs current = Runs-bind {Q = λ u. HasRow} _ _ (step-Runs _) λ u.
      Runs-bind {Q = λ r. HasRow} _ _ (mutate-Runs x _) λ report.
        Runs-bind {Q = λ u. HasRow} _ _ (step-Runs _) λ u.
          Runs-if (is_unknown report.outcome) _ _ (λ e. recover-Runs _)
            λ e. Runs-bind {Q = λ r. HasRow} _ _ verify_rollback-Runs λ read.
              Runs-if (is_proved read.outcome) _ _
                (λ e. finish-Runs RunState.rolled_back ChangeResult.rolled_back none refl)
                (λ e. recover-Runs (recovery_reason read.outcome report))

  from_reading :
      (v : VerificationOutcome) (o : Option ℤ)
      → Runs {A = Unit {0}} HasRow
          (elim o [ none ↦ recover (unread_reason v) | some value ↦ reverse p x c value ])
          (λ u. Closed)
  from_reading v none = recover-Runs (unread_reason v)
  from_reading v (some value) = reverse-Runs value

  pub roll_back-Runs : Runs HasRow (roll_back p x c) (λ u. Closed)
  unfolding roll_back
  roll_back-Runs = Runs-bind {Q = λ u. HasRow} _ _ (step-Runs _) λ u.
      Runs-bind {Q = λ r. HasRow} _ _ (read-Runs p x (restored_expectation c))
        λ current. from_reading current.outcome current.value
