-- ===== src/Engine/Safe.antt =====
-- The engine's invariant: what the store and the calls of the host have to do with each other, at any moment.
pub mod Before
pub mod Ready
pub mod Guarded
pub mod After
pub mod Written
pub mod Reversal
pub mod Run
pub mod Lapsed
pub mod Kept
pub mod Confirmed
pub mod Interrupted
use local_plane.Prelude.{
  ℕ, suc, ◌≤◌, ◌≡◌, ◌⊎◌, Bool, true, false, Option, none, some, List, [], ◌∷◌, if◌then◌else◌,
}
use local_plane.Settlement.{MutationOutcome, not_written, written}
use local_plane.Recovery.{VerificationOutcome, verified}
use local_plane.Engine.{
  RunState, ChangeResult, Confirmation, ChangeRow, Lock, held_here, Store, MutationRequest,
  apply_field, rollback_field, apply_action, HostCall, mutate_call, mutate_answer, Moment,
}
use local_plane.Engine.Boundary.{is_consumed}

abbrev pub is_rollback : MutationRequest → Bool
is_rollback (rollback_field current before) = true
is_rollback _ = false

-- How often the change, or its reversal, has been asked of the host.
abbrev pub applied : List HostCall → ℕ
applied [] = 0
applied (mutate_call r ∷ cs) = if is_rollback r then applied cs else suc (applied cs)
applied (c ∷ cs) = applied cs

abbrev pub reversed : List HostCall → ℕ
reversed [] = 0
reversed (mutate_call r ∷ cs) = if is_rollback r then suc (reversed cs) else reversed cs
reversed (c ∷ cs) = reversed cs

-- What the host answered about the change.
abbrev pub told : List HostCall → Option MutationOutcome
told [] = none
told (mutate_answer r o ∷ cs) = if is_rollback r then told cs else some o
told (c ∷ cs) = told cs

-- What an end rests on. A write that provably did not happen is one that was not asked for, or that the host
-- answered so.
abbrev pub Ended : ChangeResult → ChangeRow → Type 0
Ended ChangeResult.in_flight c = Unit
Ended ChangeResult.succeeded c =
    (c.mutation_outcome ≡ some written) × (c.verification_outcome ≡ some verified)
Ended ChangeResult.failed c = c.mutation_outcome ≡ some not_written
Ended ChangeResult.rolled_back c = c.rollback_verification_outcome ≡ some verified
Ended ChangeResult.recovery_required c = Unit

-- The change's row never says more than the host was asked and answered.
pub record Honest (calls : List HostCall) (c : ChangeRow) : Type 0 where
  pub once : applied calls ≤ 1
  pub reversed_once : reversed calls ≤ 1
  pub undispatched : c.dispatch_began ≡ false → applied calls ≡ 0
  pub written_told : c.mutation_outcome ≡ some written → told calls ≡ some written
  pub unwritten_told :
      c.mutation_outcome ≡ some not_written
      → ((applied calls ≡ 0) ⊎ (told calls ≡ some not_written)) × (reversed calls ≡ 0)
  pub unanswered : c.mutation_outcome ≡ none → reversed calls ≡ 0
  pub unreversed : c.rollback_dispatch_began ≡ false → reversed calls ≡ 0
  pub ended : Ended c.result c

abbrev pub is_running : RunState → Bool
is_running RunState.applying = true
is_running RunState.verifying = true
is_running RunState.guarded = true
is_running RunState.rolling_back = true
is_running RunState.rollback_verifying = true
is_running _ = false

-- The run's state and the change's result go together.
abbrev pub StateOf : ChangeResult → RunState → Type 0
StateOf ChangeResult.in_flight state = is_running state ≡ true
StateOf ChangeResult.succeeded state = state ≡ RunState.succeeded
StateOf ChangeResult.failed state = state ≡ RunState.failed
StateOf ChangeResult.rolled_back state = state ≡ RunState.rolled_back
StateOf ChangeResult.recovery_required state = state ≡ RunState.recovery_required

abbrev pub keeps_lock : ChangeResult → Bool
keeps_lock ChangeResult.in_flight = true
keeps_lock ChangeResult.recovery_required = true
keeps_lock _ = false

-- What the run's row, its lock and its confirmation have to do with the change.
pub record Placed (state : RunState) (lock : Lock) (given_back : Bool)
    (confirmation : Option Confirmation) (c : ChangeRow) : Type 0 where
  pub authorised : is_consumed confirmation ≡ true
  pub locked : given_back ≡ false → keeps_lock c.result ≡ true → lock ≡ held_here
  pub state_of : StateOf c.result state
  pub holding :
      state ≡ RunState.guarded
      → (c.mutation_outcome ≡ some written) × (c.verification_outcome ≡ some verified)

-- A run that has not crossed the boundary.
abbrev pub is_before : RunState → Bool
is_before RunState.preview = true
is_before RunState.awaiting_confirmation = true
is_before RunState.arming = true
is_before RunState.failed = true
is_before RunState.cancelled = true
is_before _ = false

abbrev pub SafeBy : Option ChangeRow → Store → List HostCall → Type 0
SafeBy none s calls =
    (applied calls ≡ 0) × (reversed calls ≡ 0) × (told calls ≡ none) × (is_before s.state ≡ true)
SafeBy (some c) s calls = Honest calls c × Placed s.state s.lock s.lock_given_back s.confirmation c

abbrev pub Safe : Moment → Type 0
Safe m = SafeBy m.store.change m.store m.calls
