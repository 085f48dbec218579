-- ===== src/Intent/Revision.antt =====
-- src/localplane/backend/domain/intent.py: the two plans of a revision. The messages and the lists of
-- names in a refusal's detail are left out. `key_error` is the exception of `planned[...]` or
-- `observed[...]` on a missing key.
pub mod Collect
pub mod Explicit
pub mod Runtime
use local_plane.Prelude.{
  ℕ, String, Bool, true, false, not, ◌&&◌, Option, none, some, List, [], ◌∷◌, ◌++◌, map, select,
  contains, if◌then◌else◌,
}
use local_plane.Prelude.Dict.{Dict, lookup, insert}
use local_plane.Intent.{
  ValueType, Value, Raw, null, AdoptableField, CapturedField, UncapturableField, UncapturableReason,
  observed_value_unreadable, Capture, adoptable_interface_fields, coerce, value_eq,
}

pub data RevisionKind : Type 0 where
  explicit runtime_adoption : RevisionKind

pub record FieldChange : Type 0 where
  pub field : String
  pub value_type : ValueType
  pub was : Value
  pub now : Value

pub record RevisionPlan : Type 0 where
  pub kind : RevisionKind
  pub fields : List CapturedField
  pub changed : List FieldChange
  pub carried_forward : List String

pub data RevisionRefused : Type 0 where
  empty_revision revision_changes_nothing : RevisionRefused
  unsupported_field field_not_controlled : String → RevisionRefused
  invalid_field_value : String → ValueType → Raw → RevisionRefused
  controlled_values_unverified : List UncapturableField → RevisionRefused

pub data Revision : Type 0 where
  plan : RevisionPlan → Revision
  refuse : RevisionRefused → Revision
  key_error : Revision

-- `{f.field: f for f in fields}`, added to a dictionary
pub by_field : Dict CapturedField → List CapturedField → Dict CapturedField
by_field d [] = d
by_field d (f ∷ fs) = by_field (insert f.field f d) fs

abbrev pub adoptable_names : List String
adoptable_names = map (λ (f : AdoptableField). f.name) adoptable_interface_fields

-- What one requested value leads to.
pub data Request : Type 0 where
  rejected : RevisionRefused → Request
  accepted : CapturedField → List FieldChange → Request

request_coerced : String → Raw → CapturedField → Option Value → Request
request_coerced field raw existing none =
    rejected (invalid_field_value field existing.value_type raw)
request_coerced field raw existing (some v) =
    accepted (record { field = field; value_type = existing.value_type; value = v })
      (if value_eq v existing.value
        then []
        else record {
          field = field;
          value_type = existing.value_type;
          was = existing.value;
          now = v;
        }
          ∷ [])

request_existing : String → Raw → Option CapturedField → Request
request_existing field raw none = rejected (field_not_controlled field)
request_existing field raw (some existing) =
    request_coerced field raw existing (coerce existing.value_type raw)

pub request : Dict CapturedField → String → Raw → Request
unfolding request_existing request_coerced
request controlled field raw =
    if contains adoptable_names field
    then request_existing field raw (lookup field controlled)
    else rejected (unsupported_field field)

pub data Collected : Type 0 where
  stopped : RevisionRefused → Collected
  collected : Dict CapturedField → List FieldChange → Collected

-- The loop over the requested values.
pub collect : Dict CapturedField → Dict Raw → Dict CapturedField → List FieldChange → Collected
collect controlled [] planned changed = collected planned changed
collect controlled ((field, raw) ∷ rest) planned changed = elim (request controlled field raw) [
  | rejected r ↦ stopped r
  | accepted f change ↦ collect controlled rest (insert field f planned) (changed ++ change)
]

-- `tuple(d[f.field] for f in current)`
pub pick : Dict CapturedField → List CapturedField → Option (List CapturedField)
pick d [] = some []
pick d (f ∷ fs) = elim (lookup f.field d) [
  | none ↦ none
  | some g ↦ elim (pick d fs) [ none ↦ none | some gs ↦ some (g ∷ gs) ]
]

is_requested : Dict Raw → String → Bool
is_requested requested field = elim (lookup field requested) [ none ↦ false | some _ ↦ true ]

pub carried : Dict Raw → List CapturedField → List String
unfolding is_requested
carried requested current =
    map (λ (f : CapturedField). f.field)
      (select (λ f. not (is_requested requested f.field)) current)

explicit_plan :
    List CapturedField → Dict Raw → List FieldChange → Option (List CapturedField) → Revision
explicit_plan current requested changed none = key_error
explicit_plan current requested changed (some fields) = plan (record {
  kind = explicit;
  fields = fields;
  changed = changed;
  carried_forward = carried requested current;
})

pub finish_explicit : List CapturedField → Dict Raw → Collected → Revision
unfolding explicit_plan
finish_explicit current requested (stopped r) = refuse r
finish_explicit current requested (collected planned []) = refuse revision_changes_nothing
finish_explicit current requested (collected planned (c ∷ cs)) =
    explicit_plan current requested (c ∷ cs) (pick planned current)

pub plan_explicit_revision : List CapturedField → Dict Raw → Revision
plan_explicit_revision current [] = refuse empty_revision
plan_explicit_revision current (r ∷ rs) =
    let controlled = by_field [] current in
    finish_explicit current (r ∷ rs) (collect controlled (r ∷ rs) controlled [])

-- A controlled field that the capture does not mention at all.
unseen_field : CapturedField → UncapturableField
unseen_field f = record {
  field = f.field;
  value_type = f.value_type;
  reason = observed_value_unreadable;
  observed = null;
}

has_key : Dict CapturedField → String → Bool
has_key d k = elim (lookup k d) [ none ↦ false | some _ ↦ true ]

-- `[f for f in capture.uncapturable if f.field in controlled]`
pub missing_of : Dict CapturedField → List UncapturableField → List UncapturableField
unfolding has_key
missing_of controlled us = select (λ (u : UncapturableField). has_key controlled u.field) us

-- The controlled fields that were neither captured nor named as uncapturable.
pub unseen_of :
    Dict CapturedField → Dict CapturedField → List UncapturableField → List UncapturableField
unfolding has_key unseen_field
unseen_of [] observed missing = []
unseen_of ((name, f) ∷ rest) observed missing =
    let more = unseen_of rest observed missing in
    if not (has_key observed name)
      && not (contains (map (λ (u : UncapturableField). u.field) missing) name)
    then unseen_field (record f { field = name }) ∷ more
    else more

-- The changes, by `observed[name]` for each controlled field.
pub runtime_changes : Dict CapturedField → Dict CapturedField → Option (List FieldChange)
runtime_changes [] observed = some []
runtime_changes ((name, f) ∷ rest) observed = elim (lookup name observed) [
  | none ↦ none
  | some g ↦ elim (runtime_changes rest observed) [
    | none ↦ none
    | some cs ↦ some (
        if value_eq g.value f.value
        then cs
        else record { field = name; value_type = f.value_type; was = f.value; now = g.value } ∷ cs)
  ]
]

runtime_plan : List FieldChange → Option (List CapturedField) → Revision
runtime_plan changed none = key_error
runtime_plan changed (some fields) =
    plan
      (record { kind = runtime_adoption; fields = fields; changed = changed; carried_forward = [] })

pub finish_runtime : List CapturedField → Dict CapturedField → Option (List FieldChange) → Revision
unfolding runtime_plan
finish_runtime current observed none = key_error
finish_runtime current observed (some []) = refuse revision_changes_nothing
finish_runtime current observed (some (c ∷ cs)) = runtime_plan (c ∷ cs) (pick observed current)

unverified_or :
    List UncapturableField → List CapturedField → Dict CapturedField → Dict CapturedField → Revision
unfolding finish_runtime
unverified_or [] current controlled observed =
    finish_runtime current observed (runtime_changes controlled observed)
unverified_or (u ∷ us) current controlled observed = refuse (controlled_values_unverified (u ∷ us))

pub plan_runtime_revision : List CapturedField → Capture → Revision
unfolding unverified_or
plan_runtime_revision current capture =
    let controlled = by_field [] current in
    let observed = by_field [] capture.fields in
    let missing = missing_of controlled capture.uncapturable in
    unverified_or (missing ++ unseen_of controlled observed missing) current controlled observed
