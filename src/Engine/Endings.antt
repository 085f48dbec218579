-- ===== src/Engine/Endings.antt =====
-- src/localplane/backend/changes.py: reading a change back, rolling it back, and the ends of a run.
use local_plane.Prelude.{Bool, true, false, not, ◌&&◌, Option, none, some, ℤ, str_eq, if◌then◌else◌}
use local_plane.Settlement.{
  MutationOutcome, not_written, write_unknown, MutationReport, GuardReport,
}
use local_plane.Recovery.{
  VerificationOutcome, mismatch, observation_unavailable, source_incompatible, target_absent,
  is_proved,
}
use local_plane.Engine.{
  RunState, ChangeResult, RecoveryReason, RunEvent, field_change, action_change, Preview,
  Checkpoint, ChangeRow, rollback_field, disarm_guard_call, observe_call, Expectation, field_value,
  action_state, ObservationAttempt, not_taken, taken, ReadBack, Executor,
}
use local_plane.Engine.Actions.{ran, Engine, pure, refuse, ◌>>=◌, ◌>>◌, gets, ask, update_if}
use local_plane.Engine.Steps.{StepArgs, at, step, append}
use local_plane.Engine.Boundary.{mutate, guard_changed, settled_by}
use local_plane.Engine.Constraints.{guard_allows}

-- `_finish`
abbrev pub finished_as : RunState → ChangeResult → Option RecoveryReason → ChangeRow → StepArgs
finished_as state result recovery row = record (at RunEvent.run_finished) {
  state = some state;
  host_effect = some row.host_effect;
  finished = true;
  release = elim recovery [ none ↦ true | some _ ↦ false ];
  change = λ (c : ChangeRow). record c { result = result; recovery_reason = recovery };
}

unfoldable pub finish : RunState → ChangeResult → Option RecoveryReason → Engine (Unit {0})
finish state result recovery = gets (λ s. s.change) >>= λ row. elim row [
  | none ↦ refuse "assertion_error"
  | some c ↦ step (finished_as state result recovery c)
]

-- `_recover`
unfoldable pub recover : RecoveryReason → Engine (Unit {0})
recover reason =
    step (at RunEvent.recovery_required)
    >> finish RunState.recovery_required ChangeResult.recovery_required (some reason)

abbrev pub nothing_read : VerificationOutcome → ReadBack
nothing_read outcome = record { outcome = outcome; value = none }

abbrev pub read_of : Preview → Expectation → ObservationAttempt → ReadBack
read_of p e (not_taken none) = nothing_read observation_unavailable
read_of p e (not_taken (some failure)) =
    if str_eq failure "target_absent"
    then nothing_read target_absent
    else nothing_read observation_unavailable
read_of p e (taken capability provider prove) =
    if not (str_eq capability p.verification_capability && str_eq provider p.verification_provider)
    then nothing_read source_incompatible
    else record { outcome = (prove e).outcome; value = (prove e).value }

-- `_read_back`
abbrev pub read_if : Bool → Preview → Executor → Expectation → Engine ReadBack
read_if true p x e w = ask observe_call (λ calls. read_of p e (x.observe calls)) w
read_if false p x e w = (ran (nothing_read target_absent), w)

unfoldable pub read_back : Preview → Executor → Expectation → Engine ReadBack
read_back p x e w = read_if (x.target_known w.now.calls) p x e w

-- `_applied_expectation`
abbrev pub applied_expectation : Preview → Expectation
applied_expectation p = elim p.change [
  | field_change before desired ↦ field_value desired
  | action_change verb state ↦ action_state state
]

-- `_restored_expectation`: the change has the checkpoint's value before.
abbrev pub restored_expectation : Checkpoint → Expectation
restored_expectation c = field_value c.before_value

-- `_verify`
unfoldable pub verify : Preview → Executor → Engine ReadBack
verify p x =
    step (record (at RunEvent.verification_started) { state = some RunState.verifying }) >>= λ _.
    read_back p x (applied_expectation p) >>= λ read.
    step (record (at RunEvent.verification_result) {
      change = λ (c : ChangeRow). record c { verification_outcome = some read.outcome };
    })
    >>= λ _. pure read

-- `_recovery_reason`
abbrev pub recovery_reason : VerificationOutcome → MutationReport → RecoveryReason
recovery_reason target_absent report = RecoveryReason.target_absent_after_mutation
recovery_reason mismatch report = elim report.outcome [
  | not_written ↦ elim report.provider [
    | none ↦ RecoveryReason.rollback_not_dispatched
    | some _ ↦ RecoveryReason.rollback_refused
  ]
  | _ ↦ RecoveryReason.rollback_verification_failed
]
recovery_reason _ report = RecoveryReason.rollback_verification_unavailable

abbrev pub is_unknown : MutationOutcome → Bool
is_unknown write_unknown = true
is_unknown _ = false

-- The end of a rollback that a reading may prove.
unfoldable pub rollback_end : VerificationOutcome → MutationReport → Engine (Unit {0})
rollback_end outcome report =
    if is_proved outcome
    then finish RunState.rolled_back ChangeResult.rolled_back none
    else recover (recovery_reason outcome report)

unfoldable pub verify_rollback : Preview → Executor → Checkpoint → Engine ReadBack
verify_rollback p x c =
    step (record (at RunEvent.rollback_verification_started) {
      state = some RunState.rollback_verifying;
    })
    >>= λ _. read_back p x (restored_expectation c) >>= λ read.
        step (record (at RunEvent.rollback_verification_result) {
          change =
              λ (c : ChangeRow). record c { rollback_verification_outcome = some read.outcome };
        })
        >>= λ _. pure read

-- The reversal itself, from the value that was read.
unfoldable pub reverse : Preview → Executor → Checkpoint → ℤ → Engine (Unit {0})
reverse p x c current =
    step (record (at RunEvent.rollback_mutation_dispatched) {
      change = λ (c : ChangeRow). record c { rollback_dispatch_began = true };
    })
    >>= λ _. mutate x (rollback_field current c.before_value) >>= λ report.
        step (record (at RunEvent.rollback_mutation_result) {
          change = λ (c : ChangeRow). record c { rollback_outcome = some report.outcome };
        })
        >>= λ _.
            if is_unknown report.outcome
            then recover RecoveryReason.rollback_write_unknown
            else verify_rollback p x c >>= λ read. rollback_end read.outcome report

abbrev pub unread_reason : VerificationOutcome → RecoveryReason
unread_reason target_absent = RecoveryReason.target_absent_after_mutation
unread_reason _ = RecoveryReason.pre_rollback_read_unavailable

-- `_roll_back`
unfoldable pub roll_back : Preview → Executor → Checkpoint → Engine (Unit {0})
roll_back p x c =
    step (record (at RunEvent.rollback_started) {
      state = some RunState.rolling_back;
      change = λ (c : ChangeRow). record c { rollback_required = true };
    })
    >>= λ _. read_back p x (restored_expectation c) >>= λ current. elim current.value [
      | none ↦ recover (unread_reason current.outcome)
      | some value ↦ reverse p x c value
    ]

abbrev pub unproven_reason : VerificationOutcome → RecoveryReason
unproven_reason mismatch = RecoveryReason.action_not_proven
unproven_reason target_absent = RecoveryReason.target_absent_after_mutation
unproven_reason _ = RecoveryReason.action_verification_unavailable

-- `_unproven`
unfoldable pub unproven :
    Preview → Executor → Option Checkpoint → Option ReadBack → Engine (Unit {0})
unproven p x (some c) read = roll_back p x c
unproven p x none none = recover RecoveryReason.apply_write_unknown
unproven p x none (some read) = recover (unproven_reason read.outcome)

-- `_record_guard_settlement`
unfoldable pub record_guard_settlement : GuardReport → Engine (Unit {0})
record_guard_settlement r =
    update_if (guard_allows (settled_by r))
      (λ s. append RunEvent.guard_settled (guard_changed (settled_by r) s))

-- `_release_guard`, where a guard is held
unfoldable pub release_guard : Bool → Executor → Engine (Unit {0})
release_guard guarded x =
    if guarded then ask disarm_guard_call x.disarm_guard >>= record_guard_settlement else pure tt

-- `_hold`
unfoldable pub hold : Engine (Unit {0})
hold = step (record (at RunEvent.guard_hold_started) { state = some RunState.guarded })
