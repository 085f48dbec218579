-- ===== src/Engine/Restart.antt =====
-- src/localplane/backend/changes.py: what a restart makes of a run whose process died, guards first and changes
-- after them.
use local_plane.Prelude.{Bool, true, false, not, ◌&&◌, ◌||◌, Option, none, some, if◌then◌else◌}
use local_plane.Settlement.{MutationOutcome, not_written, written, write_unknown, GuardReport}
use local_plane.Recovery.{VerificationOutcome, is_proved, host_effect_for, outcome_on_recovery}
use local_plane.Engine.{
  RunState, ChangeResult, RecoveryReason, RunEvent, Preview, ChangeRow, Store, guard_status_call,
  Executor,
}
use local_plane.Engine.Actions.{Engine, pure, ◌>>=◌, ◌>>◌, gets, ask}
use local_plane.Engine.Steps.{at, step, is_guarded}
use local_plane.Engine.Constraints.{unsettled}
use local_plane.Engine.Endings.{finish, recover, record_guard_settlement}
use local_plane.Engine.Held.{is_held_state, is_outstanding, settle_lapsed}

abbrev pub has_change : Option ChangeRow → Bool
has_change none = false
has_change (some c) = true

module _ (p : Preview) (x : Executor) where
  unfoldable pub guard_settled_as : Store → GuardReport → Engine (Unit {0})
  guard_settled_as s report =
      if is_outstanding report.phase
      then pure tt
      else if is_held_state s.state && has_change s.change
      then settle_lapsed p x report
      else record_guard_settlement report

  -- `settle_interrupted_guards`, for one run
  unfoldable pub settle_interrupted_guards : Engine (Unit {0})
  settle_interrupted_guards = gets (λ s. s) >>= λ s.
      if unsettled s.guard
      then ask guard_status_call x.guard_status >>= guard_settled_as s
      else pure tt

abbrev pub is_verified : Option VerificationOutcome → Bool
is_verified none = false
is_verified (some v) = is_proved v

-- The end of an interrupted change.
unfoldable pub interrupted_end :
    Bool → Option VerificationOutcome → MutationOutcome → Engine (Unit {0})
interrupted_end guarded verification not_written = finish RunState.failed ChangeResult.failed none
interrupted_end guarded verification written =
    if is_verified verification && not guarded
    then finish RunState.succeeded ChangeResult.succeeded none
    else recover RecoveryReason.apply_interrupted_after_write
interrupted_end guarded verification write_unknown = recover RecoveryReason.apply_write_unknown

-- An outcome on record is the answer, and one that is not is worked out and recorded.
unfoldable pub outcome_settled : ChangeRow → Engine (Unit {0})
outcome_settled c = elim c.mutation_outcome [
  | some recorded ↦ pure tt
  | none ↦ step (record (at RunEvent.mutation_result) {
    host_effect = some (host_effect_for (outcome_on_recovery c.dispatch_began none));
    change = λ (row : ChangeRow). record row {
      mutation_outcome = some (outcome_on_recovery c.dispatch_began none);
      host_effect = host_effect_for (outcome_on_recovery c.dispatch_began none);
    };
  })
]

abbrev pub is_flying_result : ChangeResult → Bool
is_flying_result ChangeResult.in_flight = true
is_flying_result _ = false

abbrev pub is_flying : Option ChangeRow → Bool
is_flying none = false
is_flying (some c) = is_flying_result c.result

unfoldable pub settle_row : Preview → RunState → Option ChangeRow → Engine (Unit {0})
settle_row p state none = pure tt
settle_row p state (some c) =
    if not (is_flying (some c)) || is_held_state state
    then pure tt
    else outcome_settled c >>= λ _.
        interrupted_end (is_guarded p) c.verification_outcome
          (outcome_on_recovery c.dispatch_began c.mutation_outcome)

-- `settle_interrupted`, for one run
unfoldable pub settle_interrupted : Preview → Engine (Unit {0})
settle_interrupted p = gets (λ s. s) >>= λ s. settle_row p s.state s.change

-- The start of the backend.
unfoldable pub restart : Preview → Executor → Engine (Unit {0})
restart p x = settle_interrupted_guards p x >> settle_interrupted p
