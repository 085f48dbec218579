-- ===== src/Engine/Held.antt =====
-- src/localplane/backend/changes.py: a guarded change after its hold began: `guard_keep`, and what is done once
-- the window has lapsed. The relation of the request's path to the object is an argument (Protection).
use local_plane.Prelude.{Bool, true, false, not, ◌&&◌, Option, none, some, if◌then◌else◌}
use local_plane.Protection.{ManagementPathRelation, on_management_path, relation_eq}
use local_plane.Settlement.{
  MutationReport, GuardPhase, GuardSettlement, reverted, GuardReport, is_fired, is_reverted,
  settlement,
}
use local_plane.Recovery.{VerificationOutcome, is_proved}
use local_plane.Engine.{
  RunState, ChangeResult, RecoveryReason, RunEvent, Preview, Checkpoint, GuardRow, ChangeRow, Store,
  disarm_guard_call, guard_status_call, Executor,
}
use local_plane.Engine.Actions.{Engine, pure, refuse, ◌>>=◌, ◌>>◌, gets, ask, update_if}
use local_plane.Engine.Steps.{at, step, append}
use local_plane.Engine.Boundary.{guard_changed}
use local_plane.Engine.Constraints.{guard_allows, unsettled}
use local_plane.Engine.Endings.{
  finish, recover, record_guard_settlement, read_back, restored_expectation, recovery_reason,
}

abbrev pub is_held_state : RunState → Bool
is_held_state RunState.guarded = true
is_held_state _ = false

abbrev pub is_disarmed : GuardPhase → Bool
is_disarmed GuardPhase.disarmed = true
is_disarmed _ = false

abbrev pub is_armed : GuardPhase → Bool
is_armed GuardPhase.armed = true
is_armed _ = false

-- A guard that was not heard back about may still be asked later.
abbrev pub is_outstanding : GuardPhase → Bool
is_outstanding GuardPhase.arming = true
is_outstanding GuardPhase.armed = true
is_outstanding GuardPhase.unreachable = true
is_outstanding _ = false

abbrev pub kept_row : GuardRow → GuardRow
kept_row g = record g { kept = true; settled_phase = some GuardPhase.disarmed }

abbrev pub kept_recorded : Store → Store
kept_recorded s =
    append RunEvent.guard_settled
      (append RunEvent.guard_connection_proved (guard_changed kept_row s))

-- `_keep`
unfoldable pub keep : Engine (Unit {0})
keep =
    update_if (guard_allows kept_row) kept_recorded
    >> finish RunState.succeeded ChangeResult.succeeded none

-- What the guard did is the run's rollback.
unfoldable pub lapse_recorded : GuardReport → Engine (Unit {0})
lapse_recorded report = elim report.mutation [
  | none ↦ pure tt
  | some m ↦
      if is_fired report.phase
      then step (record (at RunEvent.rollback_started) {
        state = some RunState.rolling_back;
        change = λ (c : ChangeRow). record c { rollback_required = true };
      })
        >> step (record (at RunEvent.rollback_mutation_result) {
          change = λ (c : ChangeRow). record c {
            rollback_dispatch_began = true;
            rollback_outcome = some m.outcome;
          };
        })
      else pure tt
]

-- The reason to recover, unless the guard says that it reversed the change.
abbrev pub lapsed_reason : GuardReport → Option RecoveryReason
lapsed_reason report = elim report.phase [
  | GuardPhase.lost ↦ some RecoveryReason.guard_lost
  | GuardPhase.disarmed ↦ some RecoveryReason.guard_released_without_recorded_proof
  | GuardPhase.fired ↦
      if is_reverted report then none else some RecoveryReason.guard_reversal_unproven
  | _ ↦ some RecoveryReason.guard_unreachable
]

abbrev pub is_reverted_settlement : GuardSettlement → Bool
is_reverted_settlement reverted = true
is_reverted_settlement _ = false

abbrev pub unverified_reason : VerificationOutcome → Option MutationReport → Option RecoveryReason
unverified_reason outcome none = none
unverified_reason outcome (some report) = some (recovery_reason outcome report)

-- The end that the reading gives. `report.mutation` is there, since the guard reversed the change.
unfoldable pub lapsed_end : GuardReport → VerificationOutcome → Engine (Unit {0})
lapsed_end report outcome = elim (unverified_reason outcome report.mutation) [
  | none ↦ refuse "assertion_error"
  | some reason ↦
      if is_reverted_settlement (settlement report (is_proved outcome))
      then finish RunState.rolled_back ChangeResult.rolled_back none
      else recover reason
]

unfoldable pub verify_lapsed : Preview → Executor → Checkpoint → GuardReport → Engine (Unit {0})
verify_lapsed p x c report =
    step (record (at RunEvent.rollback_verification_started) {
      state = some RunState.rollback_verifying;
    })
    >>= λ _. read_back p x (restored_expectation c) >>= λ read.
        step (record (at RunEvent.rollback_verification_result) {
          change =
              λ (c : ChangeRow). record c { rollback_verification_outcome = some read.outcome };
        })
        >>= λ _. lapsed_end report read.outcome

unfoldable pub settle_lapsed_from :
    Preview → Executor → GuardReport → Option Checkpoint → Engine (Unit {0})
settle_lapsed_from p x report none = refuse "assertion_error"
settle_lapsed_from p x report (some c) = lapse_recorded report >>= λ _.
    record_guard_settlement report >>= λ _. elim (lapsed_reason report) [
      | some reason ↦ recover reason
      | none ↦ verify_lapsed p x c report
    ]

-- `_settle_lapsed`
unfoldable pub settle_lapsed : Preview → Executor → GuardReport → Engine (Unit {0})
settle_lapsed p x report = gets (λ s. s.checkpoint) >>= settle_lapsed_from p x report

module _ (p : Preview) (x : Executor) where
  -- The guard's answer to a request that proves the connection, or not.
  unfoldable pub guard_answer : Bool → Engine GuardReport
  guard_answer proved =
      if proved then ask disarm_guard_call x.disarm_guard else ask guard_status_call x.guard_status

  unfoldable pub keep_answered : Bool → GuardReport → Engine (Unit {0})
  keep_answered proved report =
      if is_armed report.phase
      then step (at RunEvent.guard_keep_refused) >>= (λ _. refuse "guard_connection_not_proved")
      else if proved && is_disarmed report.phase
      then keep
      else settle_lapsed p x report

  unfoldable pub keep_asked : Bool → ManagementPathRelation → Engine (Unit {0})
  keep_asked acknowledge relation =
      if not acknowledge
      then step (at RunEvent.guard_keep_refused) >>= (λ _. refuse "keep_not_acknowledged")
      else guard_answer (relation_eq relation on_management_path)
        >>= keep_answered (relation_eq relation on_management_path)

  -- `guard_keep`
  unfoldable pub guard_keep : Bool → ManagementPathRelation → Engine (Unit {0})
  guard_keep acknowledge relation = gets (λ s. s) >>= λ s.
      if not (is_held_state s.state)
      then refuse "run_not_guarded"
      else if not (unsettled s.guard)
      then refuse "guard_already_settled"
      else keep_asked acknowledge relation
