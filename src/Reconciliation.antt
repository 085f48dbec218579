-- ===== src/Reconciliation.antt =====
-- src/localplane/backend/domain/reconciliation.py: the retained intent against one observation.
-- Identifiers and moments of the observation are carried through as texts.
pub mod Outcome
pub mod Verdict
use local_plane.Prelude.{
  String, Bool, true, false, not, ◌&&◌, Option, none, some, List, [], map, any, str_eq,
  if◌then◌else◌,
}
use local_plane.Prelude.Dict.{Dict}
use local_plane.Intent.{ValueType, Value, Raw, null, coerce, value_eq, get_fact}

pub data Comparison : Type 0 where
  matches differs unknown : Comparison

pub data ReconciliationState : Type 0 where
  in_sync drifted applying unknown : ReconciliationState

pub data Reason : Type 0 where
  no_observation observation_source_incompatible : Reason
  observed_value_unreadable observed_value_not_usable : Reason
  observed_value_matches observed_value_differs : Reason
  intent_controls_no_fields controlled_field_differs : Reason
  controlled_field_not_observable controlled_fields_match : Reason

pub record IntendedField : Type 0 where
  pub field : String
  pub value_type : ValueType
  pub value : Value

pub record ObservedSnapshot : Type 0 where
  pub observation_id : String
  pub sweep_id : String
  pub observed_at : String
  pub capability : String
  pub provider : String
  pub facts : Dict Raw

pub record FieldComparison : Type 0 where
  pub field : String
  pub value_type : ValueType
  pub intended : Value
  pub observed : Option Value
  pub comparison : Comparison
  pub reason : Reason

pub record Reconciliation : Type 0 where
  pub state : ReconciliationState
  pub reason : Reason
  pub fields : List FieldComparison
  pub observation_id : Option String
  pub sweep_id : Option String
  pub observed_at : Option String

-- A field that was not compared.
abbrev pub not_compared : Reason → IntendedField → FieldComparison
not_compared reason i = record {
  field = i.field;
  value_type = i.value_type;
  intended = i.value;
  observed = none;
  comparison = Comparison.unknown;
  reason = reason;
}

pub compare_coerced : IntendedField → Option Value → FieldComparison
compare_coerced i none = not_compared observed_value_not_usable i
compare_coerced i (some v) =
    let same = value_eq v i.value in
    record {
      field = i.field;
      value_type = i.value_type;
      intended = i.value;
      observed = some v;
      comparison = if same then matches else differs;
      reason = if same then observed_value_matches else observed_value_differs;
    }

pub compare_raw : IntendedField → Raw → FieldComparison
compare_raw i null = not_compared observed_value_unreadable i
compare_raw i raw = compare_coerced i (coerce i.value_type raw)

unfoldable pub compare_field : IntendedField → Dict Raw → FieldComparison
unfolding compare_raw compare_coerced
compare_field i facts = compare_raw i (get_fact facts i.field)

abbrev pub is_differs : FieldComparison → Bool
is_differs c = elim c.comparison [ differs ↦ true | _ ↦ false ]

abbrev pub is_unknown : FieldComparison → Bool
is_unknown c = elim c.comparison [ Comparison.unknown ↦ true | _ ↦ false ]

unfoldable pub verdict : List FieldComparison → ReconciliationState × Reason
verdict [] = (ReconciliationState.unknown, intent_controls_no_fields)
verdict cs =
    if any is_differs cs
    then (drifted, controlled_field_differs)
    else if any is_unknown cs
    then (ReconciliationState.unknown, controlled_field_not_observable)
    else (in_sync, controlled_fields_match)

unfoldable pub reconcile :
    String → String → List IntendedField → Option ObservedSnapshot → Reconciliation
reconcile capability provider intended none = record {
  state = ReconciliationState.unknown;
  reason = no_observation;
  fields = map (not_compared no_observation) intended;
  observation_id = none;
  sweep_id = none;
  observed_at = none;
}
reconcile capability provider intended (some o) =
    if not (str_eq o.capability capability && str_eq o.provider provider)
    then record {
      state = ReconciliationState.unknown;
      reason = observation_source_incompatible;
      fields = map (not_compared observation_source_incompatible) intended;
      observation_id = some o.observation_id;
      sweep_id = some o.sweep_id;
      observed_at = some o.observed_at;
    }
    else let comparisons = map (λ i. compare_field i o.facts) intended in
      let (state, reason) = verdict comparisons in
      record {
        state = state;
        reason = reason;
        fields = comparisons;
        observation_id = some o.observation_id;
        sweep_id = some o.sweep_id;
        observed_at = some o.observed_at;
      }
