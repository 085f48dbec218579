-- ===== src/Recovery.antt =====
-- src/localplane/backend/domain/changes.py: what an interrupted change is taken for, and which attempts at
-- recovery release the hold on their target.
pub mod Holds
use local_plane.Prelude.{Bool, true, false, not, Option, none, some, if◌then◌else◌}
use local_plane.Settlement.{MutationOutcome, not_written, written, write_unknown}

-- The members NONE, WRITTEN and WRITE_UNKNOWN.
pub data HostEffect : Type 0 where
  no_effect effect_written effect_unknown : HostEffect

unfoldable pub host_effect_for : MutationOutcome → HostEffect
host_effect_for not_written = no_effect
host_effect_for written = effect_written
host_effect_for write_unknown = effect_unknown

unfoldable pub outcome_on_recovery : Bool → Option MutationOutcome → MutationOutcome
outcome_on_recovery dispatch_began (some recorded) = recorded
outcome_on_recovery dispatch_began none = if dispatch_began then write_unknown else not_written

pub data VerificationOutcome : Type 0 where
  not_attempted verified mismatch value_unreadable : VerificationOutcome
  observation_unavailable source_incompatible target_absent : VerificationOutcome

abbrev pub is_proved : VerificationOutcome → Bool
is_proved verified = true
is_proved _ = false

-- Members that have a name of `MutationOutcome` or `VerificationOutcome` are marked as an attempt's.
pub data RecoveryAttemptOutcome : Type 0 where
  in_flight proven attempt_verified attempt_not_written : RecoveryAttemptOutcome
  attempt_write_unknown not_proven attempt_refused interrupted resolved : RecoveryAttemptOutcome

abbrev pub is_settled : RecoveryAttemptOutcome → Bool
is_settled in_flight = false
is_settled _ = true

unfoldable pub releases_hold : RecoveryAttemptOutcome → Bool
releases_hold proven = true
releases_hold attempt_verified = true
releases_hold resolved = true
releases_hold _ = false

unfoldable pub recovery_outcome_for : MutationOutcome → VerificationOutcome → RecoveryAttemptOutcome
recovery_outcome_for not_written v = attempt_not_written
recovery_outcome_for write_unknown v = attempt_write_unknown
recovery_outcome_for written v = if is_proved v then attempt_verified else not_proven
