-- ===== src/Engine/Boundary.antt =====
-- src/localplane/backend/changes.py: what is made ready before the write boundary, the boundary, and the dispatch.
-- An error of the store, which is not a refusal and is not caught, is refused with "integrity_error", and a
-- failed assertion with "assertion_error".
use local_plane.Prelude.{
  String, Bool, true, false, not, ◌&&◌, ◌||◌, Option, none, some, ◌∷◌, if◌then◌else◌,
}
use local_plane.Protection.{ManagementPathRelation}
use local_plane.Settlement.{MutationOutcome, write_unknown, MutationReport, GuardReport, is_fired}
use local_plane.Recovery.{no_effect, host_effect_for}
use local_plane.Engine.{
  RunState, ChangeResult, RunEvent, PlannedChange, field_change, action_change, Preview,
  Confirmation, Checkpoint, GuardRow, ChangeRow, Store, MutationRequest, apply_field, apply_action,
  correlate_call, arm_guard_call, disarm_guard_call, mutate_call, mutate_answer, Executor,
}
use local_plane.Engine.Actions.{
  World, Ran, ran, refused, Engine, pure, refuse, ◌>>=◌, moved, commit, transact, gets, ask, update,
  update_if,
}
use local_plane.Engine.Constraints.{is_storable, guard_allows, carries, is_on_path, holds_reversal}
use local_plane.Engine.Steps.{
  StepArgs, at, changed, step, append, arms_recovery, requires_self_impact_override,
}

-- The end of a run that crossed no boundary.
abbrev pub failed_at : RunEvent → StepArgs
failed_at e = record (at e) {
  state = some RunState.failed;
  host_effect = some no_effect;
  finished = true;
  release = true;
}

abbrev pub fail_with {ℓ} : {A : Type ℓ} → RunEvent → String → Engine A
fail_with e code = step (failed_at e) >>= λ _. refuse code

-- `_correlate`
unfoldable pub correlate : Executor → Engine (Option Checkpoint)
correlate x = ask correlate_call x.correlate >>= λ refusal. elim refusal [
  | some code ↦ fail_with RunEvent.target_correlation_failed code
  | none ↦ update (append RunEvent.target_correlated) >>= λ _. pure none
]

abbrev pub checkpoint_of : PlannedChange → ManagementPathRelation → Option Checkpoint
checkpoint_of (field_change before desired) path =
    some (record { before_value = before; desired_value = desired; management_path = path })
checkpoint_of (action_change verb state) path = none

-- The transaction that inserts the checkpoint: one for each run.
abbrev pub checkpoint_inserted_at :
    Option Checkpoint → Option Checkpoint → Store → Ran (Option Checkpoint × Store)
checkpoint_inserted_at none kept s = refused "checkpoint_not_written"
checkpoint_inserted_at (some c) (some d) s = refused "checkpoint_not_written"
checkpoint_inserted_at (some c) none s =
    if is_storable c
    then ran (some c, append RunEvent.checkpoint_written (record s { checkpoint = some c }))
    else refused "checkpoint_not_written"

abbrev pub checkpoint_inserted : Option Checkpoint → Store → Ran (Option Checkpoint × Store)
checkpoint_inserted o s = checkpoint_inserted_at o s.checkpoint s

-- A transaction whose refusal ends the run.
abbrev pub or_fail {ℓ} : {A : Type ℓ} → RunEvent → Ran (A × Store) → World → Ran A × World
or_fail e (ran (a, s)) w = commit (ran (a, s)) w
or_fail e (refused code) w = fail_with e code w

unfoldable pub insert_checkpoint : Preview → Engine (Option Checkpoint)
insert_checkpoint p w =
    or_fail RunEvent.arming_failed
      (checkpoint_inserted (checkpoint_of p.change p.management_path) w.now.store) w

-- `_arm`
unfoldable pub arm_recovery : Preview → Executor → Engine (Option Checkpoint)
arm_recovery p x = ask correlate_call x.correlate >>= λ refusal. elim refusal [
  | some code ↦ fail_with RunEvent.arming_failed code
  | none ↦ insert_checkpoint p
]

-- `_prepare`
unfoldable pub prepare : Preview → Executor → Engine (Option Checkpoint)
prepare p x = if arms_recovery p then arm_recovery p x else correlate x

abbrev pub is_consumed : Option Confirmation → Bool
is_consumed none = false
is_consumed (some c) = c.consumed

abbrev pub guard_inserted_at : Option GuardRow → Store → Ran (Unit {0} × Store)
guard_inserted_at (some g) s = refused "integrity_error"
guard_inserted_at none s = ran (
  tt,
  record s {
    guard =
        some
          (record { armed = false; kept = false; settled_phase = none; reversal_outcome = none });
  },
)

abbrev pub guard_inserted : Store → Ran (Unit {0} × Store)
guard_inserted s = guard_inserted_at s.guard s

abbrev reversal_of : Option MutationReport → MutationOutcome
reversal_of none = write_unknown
reversal_of (some m) = m.outcome

-- The columns that a settlement writes.
abbrev pub settled_by : GuardReport → GuardRow → GuardRow
settled_by r g = record g {
  settled_phase = some r.phase;
  reversal_outcome = if is_fired r.phase then some (reversal_of r.mutation) else g.reversal_outcome;
}

abbrev pub guard_changed : (GuardRow → GuardRow) → Store → Store
guard_changed f s = record s { guard = changed f s.guard }

-- The settlement of a guard that may not have been armed: one that fired had been.
abbrev pub abandoned_by : GuardReport → GuardRow → GuardRow
abandoned_by r g = record (settled_by r g) { armed = is_fired r.phase || g.armed }

abbrev pub armed_row : GuardRow → GuardRow
armed_row g = record g { armed = true }

abbrev pub armed_recorded : Store → Store
armed_recorded s = append RunEvent.guard_armed (guard_changed armed_row s)

-- `_abandon_guard`, and the refusal after it
abbrev pub abandon_guard : Executor → String → Engine (Unit {0})
abandon_guard x code = ask disarm_guard_call x.disarm_guard >>= λ report.
    update_if (guard_allows (abandoned_by report)) (guard_changed (abandoned_by report)) >>= λ _.
    fail_with RunEvent.guard_arming_failed code

-- `_arm_guard`
unfoldable pub arm_guard : Option Checkpoint → Executor → Engine (Unit {0})
arm_guard none x = refuse "assertion_error"
arm_guard (some checkpoint) x = gets (λ s. is_consumed s.confirmation) >>= λ authorised.
    if not authorised
    then refuse "confirmation_required"
    else transact guard_inserted >>= λ _. ask arm_guard_call x.arm_guard >>= λ refusal.
        elim refusal [
          | some code ↦ abandon_guard x code
          | none ↦ update_if (guard_allows armed_row) armed_recorded
        ]

abbrev pub new_change : ChangeRow
new_change = record {
  dispatch_began = false;
  mutation_outcome = none;
  host_effect = no_effect;
  verification_outcome = none;
  rollback_required = false;
  rollback_dispatch_began = false;
  rollback_outcome = none;
  rollback_verification_outcome = none;
  result = ChangeResult.in_flight;
  recovery_reason = none;
}

-- Whether the store takes a new change of the run: the triggers on its insertion, and the CHECKs.
abbrev pub takes_change : Preview → Option Checkpoint → Store → Bool
takes_change p checkpoint s =
    is_consumed s.confirmation
    && (not (requires_self_impact_override p) || is_consumed s.override)
    && carries p.change checkpoint s.checkpoint
    && (not (is_on_path checkpoint) || holds_reversal s.guard)

abbrev pub crossed_at : Option ChangeRow → Bool → Store → Ran (Unit {0} × Store)
crossed_at (some c) taken s = refused "integrity_error"
crossed_at none false s = refused "integrity_error"
crossed_at none true s = ran (
  tt,
  append RunEvent.write_boundary_crossed
      (record s { state = RunState.applying; change = some new_change }),
)

abbrev pub crossed : Preview → Option Checkpoint → Store → Ran (Unit {0} × Store)
crossed p checkpoint s = crossed_at s.change (takes_change p checkpoint s) s

-- `_cross`
unfoldable pub cross : Preview → Option Checkpoint → Engine (Unit {0})
cross p checkpoint = transact (crossed p checkpoint)

-- `_apply_request`
abbrev pub apply_request : Preview → MutationRequest
apply_request p = elim p.change [
  | field_change before desired ↦ apply_field before desired
  | action_change verb state ↦ apply_action verb
]

-- The answer of a mutation, which the engine has from then on.
unfoldable pub answered : MutationRequest → MutationReport → Engine MutationReport
answered request report w = (
  ran report,
  moved (record { store = w.now.store; calls = mutate_answer request report.outcome ∷ w.now.calls })
      w,
)

-- `executor.mutate`
abbrev pub mutate : Executor → MutationRequest → Engine MutationReport
mutate x request = ask (mutate_call request) (λ calls. x.mutate calls request) >>= answered request

-- `_dispatch`
unfoldable pub dispatch : Preview → Executor → Engine MutationReport
dispatch p x =
    step (record (at RunEvent.mutation_dispatched) {
      change = λ (c : ChangeRow). record c { dispatch_began = true };
    })
    >>= λ _. mutate x (apply_request p)

-- `_settle`
unfoldable pub settle_mutation : MutationReport → Engine (Unit {0})
settle_mutation report = step (record (at RunEvent.mutation_result) {
  host_effect = some (host_effect_for report.outcome);
  change = λ (c : ChangeRow). record c {
    mutation_outcome = some report.outcome;
    host_effect = host_effect_for report.outcome;
  };
})
