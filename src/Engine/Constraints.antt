-- ===== src/Engine/Constraints.antt =====
-- src/localplane/backend/db/migrations (0010_connection_guard.sql, 0015_systemd_lifecycle_changes.sql): what the store's CHECKs
-- and triggers let in of a checkpoint, of a guard, and of a change with them.
use local_plane.Prelude.{Bool, true, false, not, ◌&&◌, ◌||◌, int_eq, Option, none, some}
use local_plane.Protection.{ManagementPathRelation, on_management_path, relation_eq}
use local_plane.Settlement.{GuardPhase, MutationOutcome}
use local_plane.Engine.{PlannedChange, field_change, action_change, Checkpoint, GuardRow, Store}

-- The CHECKs of the table: the values differ, and the path's relation is a proven one.
abbrev pub is_storable : Checkpoint → Bool
is_storable c =
    not (int_eq c.before_value c.desired_value)
    && not (relation_eq c.management_path ManagementPathRelation.unknown)

abbrev pub has_reversal : Option MutationOutcome → Bool
has_reversal none = false
has_reversal (some o) = true

-- The CHECKs of the table: which phases may be recorded, and what goes with each.
abbrev pub is_recordable : GuardRow → Bool
is_recordable g = elim g.settled_phase [
  | none ↦ true
  | some GuardPhase.fired ↦ has_reversal g.reversal_outcome && g.armed && not g.kept
  | some GuardPhase.disarmed ↦ not (has_reversal g.reversal_outcome) && (g.armed || not g.kept)
  | some GuardPhase.lost ↦ not (has_reversal g.reversal_outcome || g.kept)
  | some GuardPhase.unreachable ↦ not (has_reversal g.reversal_outcome || g.kept)
  | some _ ↦ false
]

-- The guard's row, where it is not settled.
abbrev pub unsettled : Option GuardRow → Bool
unsettled none = false
unsettled (some g) = elim g.settled_phase [ none ↦ true | some _ ↦ false ]

-- Whether the table takes the change of the guard: a settled one stays as it is.
abbrev pub allows : (GuardRow → GuardRow) → Option GuardRow → Bool
allows f none = true
allows f (some g) = unsettled (some g) && is_recordable (f g)

abbrev pub guard_allows : (GuardRow → GuardRow) → Store → Bool
guard_allows f s = allows f s.guard

abbrev pub is_there {ℓ} : {A : Type ℓ} → Option A → Bool
is_there none = false
is_there (some a) = true

-- The CHECKs of the table: a change of a field has two values and the run's checkpoint, and an action has none.
abbrev pub carries : PlannedChange → Option Checkpoint → Option Checkpoint → Bool
carries (field_change before desired) given stored =
    not (int_eq before desired) && is_there given && is_there stored
carries (action_change verb state) given stored = not (is_there given)

abbrev pub is_on_path : Option Checkpoint → Bool
is_on_path none = false
is_on_path (some c) = relation_eq c.management_path on_management_path

abbrev pub holds_reversal : Option GuardRow → Bool
holds_reversal none = false
holds_reversal (some g) = g.armed && unsettled (some g)
