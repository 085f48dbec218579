-- ===== src/Settlement.antt =====
-- How the backend reads what became of a guard: src/localplane/backend/domain/guard.py (`settle`),
-- src/localplane/backend/operations.py (`_guard_report`, `_reversal_report`), and the outcomes of
-- src/localplane/backend/domain/changes.py. A report's details, its holder and its moment are left out, and
-- of a reversal's report all but the outcome, the reason, the attempt and the provider.
pub mod Read
pub mod Released
use local_plane.Prelude.{
  String, Bool, true, false, not, ◌&&◌, Option, none, some, str_eq, if◌then◌else◌,
}
use local_plane.GuardRegistry.{Phase, Report}

pub data MutationOutcome : Type 0 where
  not_written written write_unknown : MutationOutcome

pub data GuardPhase : Type 0 where
  arming armed disarmed fired lost unreachable : GuardPhase

pub data GuardSettlement : Type 0 where
  kept reverted reversal_unproven guard_lost guard_unreachable : GuardSettlement

pub record MutationReport : Type 0 where
  pub outcome : MutationOutcome
  pub reason : String
  pub attempt_id : String
  pub provider : Option String

pub record GuardReport : Type 0 where
  pub phase : GuardPhase
  pub mutation : Option MutationReport
  pub reason : Option String

-- The mapping of a reversal's result, in the agent's answer.
pub record ReversalAnswer : Type 0 where
  pub outcome : String
  pub reason : Option String
  pub attempt_id : Option String
  pub provider : Option String

-- The agent's answer about a guard.
pub record GuardAnswer : Type 0 where
  pub phase : String
  pub mutation : Option ReversalAnswer

-- `MutationOutcome(value)`
abbrev pub mutation_outcome : String → Option MutationOutcome
mutation_outcome s =
    if str_eq s "not_written"
    then some not_written
    else if str_eq s "written"
    then some written
    else if str_eq s "write_unknown"
    then some write_unknown
    else none

-- `GuardPhase(value)`
abbrev pub guard_phase : String → Option GuardPhase
guard_phase s =
    if str_eq s "arming"
    then some arming
    else if str_eq s "armed"
    then some armed
    else if str_eq s "disarmed"
    then some disarmed
    else if str_eq s "fired"
    then some fired
    else if str_eq s "lost"
    then some lost
    else if str_eq s "unreachable"
    then some unreachable
    else none

-- `value or default`
abbrev or_else : Option String → String → String
or_else none default = default
or_else (some s) default = if str_eq s "" then default else s

read_reversal : String → ReversalAnswer → Option MutationOutcome → MutationReport
read_reversal request_id m none = record {
  outcome = write_unknown;
  reason = "unreadable_guard_reversal";
  attempt_id = or_else m.attempt_id request_id;
  provider = none;
}
read_reversal request_id m (some outcome) = record {
  outcome = outcome;
  reason = or_else m.reason "unstated";
  attempt_id = or_else m.attempt_id request_id;
  provider = m.provider;
}

unfoldable pub reversal_report : String → Option ReversalAnswer → MutationReport
unfolding read_reversal
reversal_report request_id none = record {
  outcome = write_unknown;
  reason = "unreadable_guard_reversal";
  attempt_id = request_id;
  provider = none;
}
reversal_report request_id (some m) = read_reversal request_id m (mutation_outcome m.outcome)

abbrev pub is_fired : GuardPhase → Bool
is_fired fired = true
is_fired _ = false

read_phase : String → GuardAnswer → Option GuardPhase → GuardReport
read_phase guard_id a none = record {
  phase = unreachable;
  mutation = none;
  reason = some "unreadable_guard_phase";
}
read_phase guard_id a (some phase) = record {
  phase = phase;
  mutation = if is_fired phase then some (reversal_report guard_id a.mutation) else none;
  reason = none;
}

-- An agent that could not be asked gives the error's code in place of an answer.
pub data Asked : Type 0 where
  agent_error : String → Asked
  answered : GuardAnswer → Asked

unfoldable pub guard_report : String → Asked → GuardReport
unfolding read_phase
guard_report guard_id (agent_error code) = record {
  phase = unreachable;
  mutation = none;
  reason = some code;
}
guard_report guard_id (answered a) = read_phase guard_id a (guard_phase a.phase)

abbrev pub is_written : Option MutationReport → Bool
is_written none = false
is_written (some m) = elim m.outcome [ written ↦ true | _ ↦ false ]

-- `GuardReport.reverted`
abbrev pub is_reverted : GuardReport → Bool
is_reverted r = is_fired r.phase && is_written r.mutation

unfoldable pub settlement : GuardReport → Bool → GuardSettlement
settlement r reversal_proved = elim r.phase [
  | disarmed ↦ kept
  | fired ↦ if is_reverted r && reversal_proved then reverted else reversal_unproven
  | lost ↦ guard_lost
  | _ ↦ guard_unreachable
]

-- The answer that carries the registry's report.
abbrev pub phase_text : Phase → String
phase_text Phase.armed = "armed"
phase_text Phase.disarmed = "disarmed"
phase_text Phase.fired = "fired"
phase_text Phase.lost = "lost"

abbrev pub answer_of : Report ReversalAnswer → GuardAnswer
answer_of r = record { phase = phase_text r.phase; mutation = r.mutation }
