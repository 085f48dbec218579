-- ===== src/Engine/Total/Run.antt =====
-- src/localplane/backend/changes.py: `apply` from the boundary on, and `settle_interrupted`, are carried out to
-- an end.
use local_plane.Prelude.{
  ◌≡◌, inl, inr, refl, sym, ap, ◌∙◌, Bool, true, false, not, ◌&&◌, ◌||◌, Option, none, some, arith,
  if◌then◌else◌,
}
use mathlib.Core.Path.{subst}
use local_plane.Settlement.{MutationOutcome, not_written, written, write_unknown}
use local_plane.Recovery.{VerificationOutcome, is_proved, outcome_on_recovery, host_effect_for}
use local_plane.Engine.{
  RunState, ChangeResult, RecoveryReason, RunEvent, Preview, Checkpoint, ChangeRow, Store, ReadBack,
  Executor,
}
use local_plane.Engine.Actions.{commit, World, Engine, pure, ◌>>◌, transact, gets}
use local_plane.Engine.Steps.{at, step, is_guarded}
use local_plane.Engine.Boundary.{crossed_at, takes_change, cross, dispatch, settle_mutation}
use local_plane.Engine.Endings.{finish, unproven, unproven_reason, release_guard, hold}
use local_plane.Engine.Apply.{after_written, after_dispatch, execute}
use local_plane.Engine.Held.{is_held_state}
use local_plane.Engine.Restart.{
  has_change, is_flying, is_flying_result, outcome_settled, interrupted_end, is_verified,
  settle_row, settle_interrupted,
}
use local_plane.Engine.Total.{
  Reaches, Runs, Runs-pure, Runs-gets, Runs-update, Runs-if, Runs-bind, Runs-from, Runs-to,
  Concludes, Concludes-bind, Concludes-if, Concludes-Runs,
}
use local_plane.Engine.Total.Ends.{
  HasRow, Closed, ClosedBy, step-Runs, finish-Runs, recover-Runs, mutate-Runs, release-Concludes,
  verify-Runs, roll_back-Runs,
}

crossing :
    (w : World) (o : Option ChangeRow) (b : Bool)
    → o ≡ none
    → b ≡ true
    → Reaches {A = Unit {0}} (λ u. HasRow) (commit (crossed_at o b w.now.store) w)
crossing w none true e k = refl
crossing w none false e k = absurd (ground (arith, k))
crossing w (some c) b e k = absurd (ground (arith, e))

-- The store has no change of the run, and takes one.
abbrev pub IsOpen : Preview → Option Checkpoint → Store → Type 0
IsOpen p c s = (s.change ≡ none) × (takes_change p c s ≡ true)

cross-Runs : (p : Preview) (c : Option Checkpoint) → Runs (IsOpen p c) (cross p c) (λ u. HasRow)
unfolding cross transact
cross-Runs p c = record {
  reach = λ w h. crossing w w.now.store.change (takes_change p c w.now.store) h.0 h.1;
}

module _ (p : Preview) (x : Executor) where
  unproven_from :
      (c : Option Checkpoint) (read : Option ReadBack)
      → Runs HasRow (unproven p x c read) (λ u. Closed)
  unfolding unproven
  unproven_from (some c) read = roll_back-Runs p x c
  unproven_from none none = recover-Runs RecoveryReason.apply_write_unknown
  unproven_from none (some read) = recover-Runs (unproven_reason read.outcome)

  unproven-Concludes :
      (c : Option Checkpoint) (read : Option ReadBack)
      → Concludes HasRow
          (unproven p x c read >> release_guard (is_guarded p) x)
          (ClosedBy (is_guarded p))
  unproven-Concludes c read =
      Concludes-bind {R = λ u. Closed} _ _ (unproven_from c read)
        λ u. release-Concludes (is_guarded p) x

  hold-Runs : Runs HasRow hold (λ u. Closed)
  unfolding hold step
  hold-Runs = Runs-update _ (λ s h. inr refl)

  proved-Runs :
      Runs HasRow
        (if is_guarded p then hold else finish RunState.succeeded ChangeResult.succeeded none)
        (λ u. Closed)
  proved-Runs =
      Runs-if (is_guarded p) hold _ (λ e. hold-Runs)
        (λ e. finish-Runs RunState.succeeded ChangeResult.succeeded none refl)

  carried :
      (m : Engine (Unit {0}))
      → Runs HasRow m (λ u. Closed)
      → Concludes HasRow m (ClosedBy (is_guarded p))
  carried m r = Concludes-Runs m (Runs-to m (λ u s c. (c, λ k. absurd (ground (arith, k)))) r)

  written-Concludes :
      (c : Option Checkpoint) → Concludes HasRow (after_written p x c) (ClosedBy (is_guarded p))
  unfolding after_written
  written-Concludes c = Concludes-bind {R = λ r. HasRow} _ _ (verify-Runs p x) λ read.
      Concludes-if (is_proved read.outcome) _ _ (λ e. carried _ proved-Runs)
        (λ e. unproven-Concludes c (some read))

  ended :
      (c : Option Checkpoint) (o : MutationOutcome)
      → Concludes HasRow
          (elim o [
            | not_written ↦
                finish RunState.failed ChangeResult.failed none >> release_guard (is_guarded p) x
            | written ↦ after_written p x c
            | write_unknown ↦ unproven p x c none >> release_guard (is_guarded p) x
          ])
          (ClosedBy (is_guarded p))
  ended c not_written =
      Concludes-bind {R = λ u. Closed} _ _
        (finish-Runs RunState.failed ChangeResult.failed none refl)
        λ u. release-Concludes (is_guarded p) x
  ended c written = written-Concludes c
  ended c write_unknown = unproven-Concludes c none

  pub execute-Concludes :
      (c : Option Checkpoint) → Concludes (IsOpen p c) (execute p x c) (ClosedBy (is_guarded p))
  unfolding execute dispatch settle_mutation after_dispatch
  execute-Concludes c = Concludes-bind {R = λ u. HasRow} _ _ (cross-Runs p c) λ u.
      Concludes-bind {R = λ r. HasRow} _ _
        (Runs-bind {Q = λ u. HasRow} _ _ (step-Runs _) λ u. mutate-Runs x _)
        λ report. Concludes-bind {R = λ u. HasRow} _ _ (step-Runs _) λ u. ended c report.outcome

interrupted-Runs :
    (guarded : Bool) (v : Option VerificationOutcome) (o : MutationOutcome)
    → Runs HasRow (interrupted_end guarded v o) (λ u. Closed)
unfolding interrupted_end
interrupted-Runs guarded v not_written = finish-Runs RunState.failed ChangeResult.failed none refl
interrupted-Runs guarded v written =
    Runs-if (is_verified v && not guarded) _ _
      (λ e. finish-Runs RunState.succeeded ChangeResult.succeeded none refl)
      (λ e. recover-Runs RecoveryReason.apply_interrupted_after_write)
interrupted-Runs guarded v write_unknown = recover-Runs RecoveryReason.apply_write_unknown

settled_from :
    (c : ChangeRow) (o : Option MutationOutcome)
    → Runs {A = Unit {0}} HasRow
        (elim o [
          | some recorded ↦ pure tt
          | none ↦ step (record (at RunEvent.mutation_result) {
            host_effect = some (host_effect_for (outcome_on_recovery c.dispatch_began none));
            change = λ (row : ChangeRow). record row {
              mutation_outcome = some (outcome_on_recovery c.dispatch_began none);
              host_effect = host_effect_for (outcome_on_recovery c.dispatch_began none);
            };
          })
        ])
        (λ u. HasRow)
settled_from c none = step-Runs _
settled_from c (some o) = Runs-pure tt (λ s h. h)

-- A row that is left alone has ended, or is held.
left_alone :
    (s : Store) (c : ChangeRow)
    → s.change ≡ some c
    → (b b' : Bool) → is_flying_result c.result ≡ b
    → is_held_state s.state ≡ b'
    → (not b || b') ≡ true
    → Closed s
left_alone s c e b true f h k = inr h
left_alone s c e false false f h k = inl (ap is_flying e ∙ f)
left_alone s c e true false f h k = absurd (ground (arith, k))

module _ (p : Preview) (s : Store) where
  row-Runs :
      (o : Option ChangeRow)
      → s.change ≡ o
      → Runs (λ t. s ≡ t) (settle_row p s.state o) (λ u. Closed)
  unfolding settle_row outcome_settled
  row-Runs none e =
      Runs-pure tt λ t q. inl (ap (λ (t : Store). is_flying t.change) (sym q) ∙ ap is_flying e)
  row-Runs (some c) e =
      Runs-if (not (is_flying (some c)) || is_held_state s.state) _ _
        (λ b. Runs-pure tt (λ t q. subst Closed q (left_alone s c e _ _ refl refl b)))
        λ b.
          Runs-from _ (λ t q. ap (λ (t : Store). has_change t.change) (sym q) ∙ ap has_change e)
            (Runs-bind {Q = λ u. HasRow} _ _ (settled_from c c.mutation_outcome)
              λ u. interrupted-Runs (is_guarded p) c.verification_outcome _)

pub settle_interrupted-Runs : (p : Preview) → Runs (λ s. Unit) (settle_interrupted p) (λ u. Closed)
unfolding settle_interrupted
settle_interrupted-Runs p =
    Runs-bind {Q = λ s t. s ≡ t} (gets (λ s. s)) _ (Runs-gets (λ s. s) (λ s u. refl))
      λ s. row-Runs p s s.change refl
