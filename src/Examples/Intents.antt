-- ===== src/Examples/Intents.antt =====
-- src/localplane/backend/domain/intent.py and reconciliation.py: one interface's administrative state and MTU.
use local_plane.Prelude.{◌≡◌, refl, ◌≢◌, ◌↔◌, true, some, List, [], ◌∷◌, pos, All}
use local_plane.Prelude.Dict.{Dict}
use local_plane.Intent.{boolean, integer, truth, number, Raw, bool_raw, int_raw, CapturedField}
use local_plane.Intent.Revision.{plan_explicit_revision}
use local_plane.Intent.Revision.Explicit.{Explains, plan_explicit_revision-Explains}
use local_plane.Reconciliation.{IntendedField, ObservedSnapshot, reconcile, in_sync}
use local_plane.Reconciliation.Outcome.{Agrees}
use local_plane.Reconciliation.Verdict.{FromSource, reconcile-in_sync_iff}

abbrev current : List CapturedField
current =
    record { field = "admin_up"; value_type = boolean; value = truth true }
    ∷ record { field = "mtu"; value_type = integer; value = number (pos 1500) }
    ∷ []

abbrev facts : Dict Raw
facts = ("admin_up", bool_raw true) ∷ ("mtu", int_raw (pos 1400)) ∷ []

abbrev intended : List IntendedField
intended =
    record { field = "admin_up"; value_type = boolean; value = truth true }
    ∷ record { field = "mtu"; value_type = integer; value = number (pos 1500) }
    ∷ []

abbrev snapshot : ObservedSnapshot
snapshot = record {
  observation_id = "o1";
  sweep_id = "s1";
  observed_at = "2026-07-22T10:00:00Z";
  capability = "net.interfaces.read";
  provider = "iproute2";
  facts = facts;
}

plan_explicit_revision-Explains_example :
    Explains current
      (("mtu", int_raw (pos 1400)) ∷ [])
      (plan_explicit_revision current (("mtu", int_raw (pos 1400)) ∷ []))
plan_explicit_revision-Explains_example =
    plan_explicit_revision-Explains current (("mtu", int_raw (pos 1400)) ∷ [])
      ((refl, tt), (tt, tt)) (tt, tt)

reconcile-in_sync_iff_example :
    ((reconcile "net.interfaces.read" "iproute2" intended (some snapshot)).state ≡ in_sync) ↔ (
      (o : ObservedSnapshot) × FromSource "net.interfaces.read" "iproute2" (some snapshot) o
      × (intended ≢ [])
      × All (Agrees o.facts) intended)
reconcile-in_sync_iff_example =
    reconcile-in_sync_iff "net.interfaces.read" "iproute2" intended (tt, (tt, tt)) (some snapshot)
