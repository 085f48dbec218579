-- ===== src/Engine/Steps.antt =====
-- src/localplane/backend/changes.py: the single steps of the engine, each a transaction or a call of the host.
use local_plane.Prelude.{
  String, Bool, true, false, not, ◌&&◌, ◌||◌, Option, none, some, ◌∷◌, str_eq, if◌then◌else◌,
}
use local_plane.Policy.Execution.{
  ExecutionAvailability, ExecutionEligibility, eligible, guarded, self_impact_override_required,
}
use local_plane.Protection.{
  ManagementPathRelation, on_management_path, not_on_management_path, relation_eq,
}
use local_plane.Recovery.{HostEffect}
use local_plane.Engine.{
  RunState, RunEvent, field_change, action_change, Preview, Confirmation, ChangeRow, Lock, free,
  held_here, held_elsewhere, Store, Executor, Replanned, plan_refused, replanned,
}
use local_plane.Engine.Actions.{
  Ran, ran, refused, Engine, pure, refuse, ◌>>=◌, ◌>>◌, transact, gets, update, if_ran,
}

-- The arguments of `_step`, without those of the event's details.
pub record StepArgs : Type 0 where
  pub event : RunEvent
  pub state : Option RunState
  pub host_effect : Option HostEffect
  pub finished : Bool
  pub change : ChangeRow → ChangeRow
  pub release : Bool

abbrev pub at : RunEvent → StepArgs
at e = record {
  event = e;
  state = none;
  host_effect = none;
  finished = false;
  change = λ c. c;
  release = false;
}

abbrev pub given {ℓ} : {A : Type ℓ} → Option A → A → A
given none a = a
given (some b) a = b

-- `locks.release`
abbrev pub released : Lock → Lock
released held_here = free
released l = l

abbrev pub changed {ℓ} : {A : Type ℓ} → (A → A) → Option A → Option A
changed f none = none
changed f (some a) = some (f a)

abbrev pub stepped : StepArgs → Store → Store
stepped a s = record s {
  state = given a.state s.state;
  host_effect = given a.host_effect s.host_effect;
  finished = s.finished || a.finished;
  change = changed a.change s.change;
  events = a.event ∷ s.events;
  lock = if a.release then released s.lock else s.lock;
}

-- `_step`
unfoldable pub step : StepArgs → Engine (Unit {0})
step a = update (stepped a)

-- `_append`, in a transaction of its own or in another's
abbrev pub append : RunEvent → Store → Store
append e s = record s { events = e ∷ s.events }

abbrev pub is_appliable : RunState → Bool
is_appliable RunState.preview = true
is_appliable RunState.awaiting_confirmation = true
is_appliable _ = false

abbrev pub eligibility_eq : ExecutionEligibility → ExecutionEligibility → Bool
eligibility_eq eligible eligible = true
eligibility_eq guarded guarded = true
eligibility_eq self_impact_override_required self_impact_override_required = true
eligibility_eq ExecutionEligibility.blocked ExecutionEligibility.blocked = true
eligibility_eq _ _ = false

abbrev pub is_guarded : Preview → Bool
is_guarded p = eligibility_eq p.eligibility guarded

abbrev pub requires_self_impact_override : Preview → Bool
requires_self_impact_override p = eligibility_eq p.eligibility self_impact_override_required

abbrev pub arms_recovery : Preview → Bool
arms_recovery p = elim p.change [
  | field_change before desired ↦ true
  | action_change verb state ↦ false
]

abbrev pub lock_taken : Lock → Store → Ran (Unit {0} × Store)
lock_taken free s = ran (tt, record s { lock = held_here })
lock_taken held_here s = ran (tt, s)
lock_taken held_elsewhere s = refused "object_write_locked"

-- `_acquire`
unfoldable pub acquire : Engine (Unit {0})
acquire =
    transact
      (λ s. if is_appliable s.state then lock_taken s.lock s else refused "run_not_appliable")

-- `_require_target`
unfoldable pub require_target : Executor → Engine (Unit {0})
require_target x w = (if x.target_known w.now.calls then ran tt else refused "object_not_found", w)

abbrev pub is_executable : ExecutionEligibility → Bool
is_executable ExecutionEligibility.blocked = false
is_executable _ = true

abbrev pub is_available : ExecutionAvailability → Bool
is_available ExecutionAvailability.available = true
is_available _ = false

-- `_require_executable_preview`
unfoldable pub require_executable_preview : Preview → Engine (Unit {0})
require_executable_preview p =
    if is_available p.availability && is_executable p.eligibility
    then pure tt
    else refuse "preview_not_executable"

abbrev pub permitted : Preview → ExecutionEligibility → Bool
permitted p e =
    if requires_self_impact_override p
    then eligibility_eq e self_impact_override_required
    else if is_guarded p
    then eligibility_eq e guarded
    else eligibility_eq e eligible

abbrev pub path_refusal : Preview → ManagementPathRelation → String
path_refusal p ManagementPathRelation.unknown = "management_path_unproven"
path_refusal p _ =
    if is_guarded p then "target_is_not_management_path" else "target_is_management_path"

abbrev pub required_relation : Preview → ManagementPathRelation
required_relation p = if is_guarded p then on_management_path else not_on_management_path

-- `_plan_now`
unfoldable pub plan_now : Preview → Replanned → Engine (Unit {0})
plan_now p plan_refused = refuse "preview_stale"
plan_now p (replanned stale relation eligibility) =
    if stale
    then refuse "preview_stale"
    else if p.asks_the_resource_relation && not (relation_eq relation (required_relation p))
    then refuse (path_refusal p relation)
    else if not (permitted p eligibility)
    then refuse "execution_blocked"
    else pure tt

-- The guards on one authority, and its consumption: `missing` and `used` are the codes of their refusals.
abbrev pub consumed_by : Preview → String → String → Option Confirmation → Ran Confirmation
consumed_by p missing used none = refused missing
consumed_by p missing used (some c) =
    if c.consumed
    then refused used
    else if not (str_eq c.preview_digest p.digest)
    then refused "preview_digest_mismatch"
    else ran (record c { consumed = true })

-- `_consume_self_impact_override`, in the transaction of `_consume_confirmation`
abbrev pub override_consumed : Preview → Store → Ran Store
override_consumed p s =
    if requires_self_impact_override p
    then if_ran
        (consumed_by p "self_impact_override_required" "self_impact_override_already_consumed"
          s.override)
        (λ o. ran (append RunEvent.confirmation_consumed (record s { override = some o })))
    else ran s

abbrev pub arming_begun : Preview → Store → Store
arming_begun p s =
    if arms_recovery p
    then append RunEvent.arming_started (record s { state = RunState.arming })
    else s

abbrev pub confirmation_consumed : Preview → Store → Ran (Unit {0} × Store)
confirmation_consumed p s =
    if_ran (consumed_by p "confirmation_required" "confirmation_already_consumed" s.confirmation)
      λ c.
        if_ran
          (override_consumed p
            (append RunEvent.confirmation_consumed (record s { confirmation = some c })))
          (λ s'. ran (tt, arming_begun p s'))

abbrev pub is_preview : RunState → Bool
is_preview RunState.preview = true
is_preview _ = false

unfoldable pub consume_confirmation : Preview → Engine (Unit {0})
consume_confirmation p = gets (λ s. is_preview s.state) >>= λ fresh.
    (if fresh
      then step (record (at RunEvent.confirmation_required) {
        state = some RunState.awaiting_confirmation;
      })
      else pure tt)
    >> transact (confirmation_consumed p)
