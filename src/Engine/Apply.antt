-- ===== src/Engine/Apply.antt =====
-- src/localplane/backend/changes.py: `apply`, from the lock to the end of the run.
use local_plane.Prelude.{Option, none, some, if◌then◌else◌}
use local_plane.Settlement.{not_written, written, write_unknown, MutationReport}
use local_plane.Recovery.{is_proved}
use local_plane.Engine.{
  RunState, ChangeResult, RunEvent, Preview, Checkpoint, Store, Executor, Replanned,
}
use local_plane.Engine.Actions.{Engine, pure, ◌>>=◌, ◌>>◌, on_refusal}
use local_plane.Engine.Steps.{
  acquire, require_target, require_executable_preview, plan_now, consume_confirmation, append,
  released, is_guarded,
}
use local_plane.Engine.Boundary.{prepare, arm_guard, cross, dispatch, settle_mutation}
use local_plane.Engine.Endings.{finish, verify, unproven, release_guard, hold}

abbrev pub refusal_recorded : Store → Store
refusal_recorded s = append RunEvent.apply_refused (record s { lock = released s.lock })

module _ (p : Preview) (x : Executor) where
  -- What authorises the attempt.
  unfoldable pub authorise : Replanned → Engine (Unit {0})
  authorise plan =
      on_refusal
        (require_target x
          >> require_executable_preview p
          >> plan_now p plan
          >> consume_confirmation p)
        refusal_recorded

  -- The end of an attempt whose write was acknowledged.
  unfoldable pub after_written : Option Checkpoint → Engine (Unit {0})
  after_written checkpoint = verify p x >>= λ read.
      if is_proved read.outcome
      then (if is_guarded p then hold else finish RunState.succeeded ChangeResult.succeeded none)
      else unproven p x checkpoint (some read) >> release_guard (is_guarded p) x

  unfoldable pub after_dispatch : Option Checkpoint → MutationReport → Engine (Unit {0})
  after_dispatch checkpoint report = elim report.outcome [
    | not_written ↦
        finish RunState.failed ChangeResult.failed none >> release_guard (is_guarded p) x
    | written ↦ after_written checkpoint
    | write_unknown ↦ unproven p x checkpoint none >> release_guard (is_guarded p) x
  ]

  -- From the boundary on.
  unfoldable pub execute : Option Checkpoint → Engine (Unit {0})
  execute checkpoint = cross p checkpoint >>= λ _.
      dispatch p x >>= λ report. settle_mutation report >>= λ _. after_dispatch checkpoint report

  unfoldable pub apply : Replanned → Engine (Unit {0})
  apply plan = acquire >>= λ _. authorise plan >>= λ _. prepare p x >>= λ checkpoint.
      (if is_guarded p then arm_guard checkpoint x else pure tt) >>= λ _. execute checkpoint
