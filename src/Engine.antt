-- ===== src/Engine.antt =====
-- src/localplane/backend/changes.py: the engine that carries a published plan out, for one run.
-- `Store` is what the database keeps of the run: identifiers, moments and details are left out, and a value is
-- its stored integer. A transaction is one function on it. `World.past` is not in the source: it keeps every
-- moment at which the process could have died, which is after each transaction and around each call of the
-- host, with the calls made by then.
pub mod Actions
pub mod Steps
pub mod Constraints
pub mod Boundary
pub mod Endings
pub mod Apply
pub mod Held
pub mod Restart
pub mod Confirm
pub mod Total
pub mod Reach
pub mod Promises
pub mod Logic
pub mod Safe
pub mod InFlight
use local_plane.Prelude.{String, Bool, Option, List, ℤ}
use local_plane.Policy.Confirmation.{ConfirmationMethod}
use local_plane.Policy.Execution.{ExecutionAvailability, ExecutionEligibility}
use local_plane.Protection.{ManagementPathRelation}
use local_plane.Settlement.{MutationOutcome, MutationReport, GuardPhase, GuardReport}
use local_plane.Recovery.{HostEffect, VerificationOutcome}

-- src/localplane/backend/domain/runs.py
pub data RunState : Type 0 where
  draft preview awaiting_confirmation arming applying verifying guarded succeeded failed : RunState
  rolling_back rollback_verifying rolled_back recovery_required cancelled : RunState

-- src/localplane/backend/domain/changes.py
pub data ChangeResult : Type 0 where
  in_flight succeeded failed rolled_back recovery_required : ChangeResult

pub data RecoveryReason : Type 0 where
  apply_write_unknown apply_interrupted_after_write rollback_write_unknown : RecoveryReason
  rollback_not_dispatched rollback_refused rollback_verification_failed : RecoveryReason
  rollback_verification_unavailable pre_rollback_read_unavailable : RecoveryReason
  target_absent_after_mutation action_not_proven action_verification_unavailable : RecoveryReason
  guard_reversal_unproven guard_lost guard_unreachable : RecoveryReason
  guard_released_without_recorded_proof : RecoveryReason

pub data RunEvent : Type 0 where
  run_planned run_cancelled confirmation_satisfied confirmation_required : RunEvent
  confirmation_consumed apply_refused arming_started checkpoint_written arming_failed : RunEvent
  target_correlated target_correlation_failed write_boundary_crossed : RunEvent
  mutation_dispatched mutation_result verification_started verification_result : RunEvent
  rollback_started rollback_mutation_dispatched rollback_mutation_result : RunEvent
  rollback_verification_started rollback_verification_result guard_armed : RunEvent
  guard_arming_failed guard_hold_started guard_connection_proved guard_keep_refused : RunEvent
  guard_settled recovery_required run_finished recovery_retry_started : RunEvent
  recovery_evidence_result recovery_confirmation_satisfied : RunEvent
  recovery_confirmation_consumed recovery_mutation_dispatched : RunEvent
  recovery_mutation_result recovery_verification_result recovery_retry_finished : RunEvent
  recovery_resolved recovery_hold_released : RunEvent

-- The planned change: a field's two values, or a verb and the state it should lead to.
pub data PlannedChange : Type 0 where
  field_change : ℤ → ℤ → PlannedChange
  action_change : String → String → PlannedChange

-- The published plan, as the run's row keeps it.
pub record Preview : Type 0 where
  pub preview_id : String
  pub digest : String
  pub availability : ExecutionAvailability
  pub eligibility : ExecutionEligibility
  pub change : PlannedChange
  pub confirmation_required : Bool
  pub confirmation_method : ConfirmationMethod
  pub verification_capability : String
  pub verification_provider : String
  -- the operation can affect the management path, and is judged by its target's relation to it
  pub asks_the_resource_relation : Bool
  -- `protection_management_path`
  pub management_path : ManagementPathRelation

pub record Confirmation : Type 0 where
  pub preview_digest : String
  pub consumed : Bool

pub record Checkpoint : Type 0 where
  pub before_value : ℤ
  pub desired_value : ℤ
  pub management_path : ManagementPathRelation

-- `settled_phase` is there once the guard is settled, and `armed` once its holder has answered.
pub record GuardRow : Type 0 where
  pub armed : Bool
  pub kept : Bool
  pub settled_phase : Option GuardPhase
  pub reversal_outcome : Option MutationOutcome

pub record ChangeRow : Type 0 where
  pub dispatch_began : Bool
  pub mutation_outcome : Option MutationOutcome
  pub host_effect : HostEffect
  pub verification_outcome : Option VerificationOutcome
  pub rollback_required : Bool
  pub rollback_dispatch_began : Bool
  pub rollback_outcome : Option MutationOutcome
  pub rollback_verification_outcome : Option VerificationOutcome
  pub result : ChangeResult
  pub recovery_reason : Option RecoveryReason

-- The write lock on the run's object and aspect.
pub data Lock : Type 0 where
  free held_here held_elsewhere : Lock

pub record Store : Type 0 where
  pub state : RunState
  pub host_effect : HostEffect
  pub finished : Bool
  pub lock : Lock
  pub confirmation : Option Confirmation
  pub override : Option Confirmation
  pub checkpoint : Option Checkpoint
  pub guard : Option GuardRow
  pub change : Option ChangeRow
  -- newest first
  pub events : List RunEvent
  -- Not in the source: whether another operation on the run has given its lock back (Engine/Reach).
  pub lock_given_back : Bool

pub data MutationRequest : Type 0 where
  apply_field rollback_field : ℤ → ℤ → MutationRequest
  apply_action : String → MutationRequest

-- The calls of the executor that have been made, and the outcomes that mutations were answered with.
pub data HostCall : Type 0 where
  correlate_call arm_guard_call disarm_guard_call guard_status_call observe_call : HostCall
  mutate_call : MutationRequest → HostCall
  mutate_answer : MutationRequest → MutationOutcome → HostCall

pub record Moment : Type 0 where
  pub store : Store
  -- newest first
  pub calls : List HostCall

pub data Expectation : Type 0 where
  field_value : ℤ → Expectation
  action_state : String → Expectation

pub record ProofOfState : Type 0 where
  pub outcome : VerificationOutcome
  pub value : Option ℤ

-- An observation that was made carries its facts as the proofs that they give.
pub data ObservationAttempt : Type 0 where
  not_taken : Option String → ObservationAttempt
  taken : String → String → (Expectation → ProofOfState) → ObservationAttempt

pub record ReadBack : Type 0 where
  pub outcome : VerificationOutcome
  pub value : Option ℤ

-- The executor, whose answers may depend on all calls made so far. `correlate` and `arm_guard` give the code of
-- a refusal. `target_known` is whether the object is still in the store of objects.
pub record Executor : Type 0 where
  pub target_known : List HostCall → Bool
  pub correlate : List HostCall → Option String
  pub arm_guard : List HostCall → Option String
  pub disarm_guard : List HostCall → GuardReport
  pub guard_status : List HostCall → GuardReport
  pub mutate : List HostCall → MutationRequest → MutationReport
  pub observe : List HostCall → ObservationAttempt

-- What planning the operation again gives: a refusal, or a plan that is stale or not.
pub data Replanned : Type 0 where
  plan_refused : Replanned
  replanned : Bool → ManagementPathRelation → ExecutionEligibility → Replanned
