-- ===== src/Intent/Revision/Runtime.antt =====
-- The runtime adoption: it retains what was observed, for every controlled field.
use local_plane.Prelude.{
  String, ◌≡◌, refl, sym, ◌≢◌, inl, inr, some, List, [], ◌∷◌, ◌++◌, contains, arith, str_eq, eq_iff,
  Option-cases, Bool-cases, All,
}
use mathlib.Core.Path.{subst}
use local_plane.Prelude.Dict.{Dict, lookup}
use local_plane.Intent.{CapturedField, UncapturableField, Capture, value_eq}
use local_plane.Intent.Revision.{
  FieldChange, RevisionPlan, Revision, plan, refuse, key_error, by_field, pick, missing_of,
  unseen_of, runtime_changes, finish_runtime, runtime_plan, unverified_or, plan_runtime_revision,
}
use local_plane.Intent.Revision.Collect.{FieldsDistinct, FoundIn, by_field-FoundIn}
use local_plane.Intent.Revision.Explicit.{IsChange}

-- The fields that the plan retains: each current field's observation.
abbrev pub IsObservation : Dict CapturedField → List CapturedField → List CapturedField → Type 0
IsObservation observed [] [] = Unit
IsObservation observed (f ∷ fs) (g ∷ gs) =
    (lookup f.field observed ≡ some g) × IsObservation observed fs gs
IsObservation observed _ _ = ⊥

unseen-Observed :
    (d observed : Dict CapturedField) (k : String) (f : CapturedField)
    → unseen_of d observed [] ≡ []
    → lookup k d ≡ some f
    → (g : CapturedField) × (lookup k observed ≡ some g)
unfolding unseen_of lookup contains
unseen-Observed [] observed k f u h = cc
unseen-Observed ((j, x) ∷ d) observed k f u h = elim (Option-cases (lookup j observed)) [
  | inl e ↦ absurd (ground arith)
  | inr (g, e) ↦ elim (Bool-cases (str_eq j k)) [
    | inl same ↦ (g, subst (λ i. lookup i observed ≡ some g) ((eq_iff j k).0 same) e)
    | inr other ↦ unseen-Observed d observed k f (ground arith) (ground arith)
  ]
]

unseen-changes :
    (d observed : Dict CapturedField)
    → unseen_of d observed [] ≡ []
    → (cs : List FieldChange) × (runtime_changes d observed ≡ some cs) × All IsChange cs
unfolding unseen_of runtime_changes contains
unseen-changes [] observed u = ([], refl, tt)
unseen-changes ((j, x) ∷ d) observed u = elim (Option-cases (lookup j observed)) [
  | inl e ↦ absurd (ground arith)
  | inr (g, e) ↦
      let (cs, r, a) = unseen-changes d observed (ground arith) in
      elim (Bool-cases (value_eq g.value x.value)) [
        | inl same ↦ (cs, ground arith, a)
        | inr differs ↦ (
          record { field = j; value_type = x.value_type; was = x.value; now = g.value } ∷ cs,
          ground arith,
          (differs, a),
        )
      ]
]

pick-IsObservation :
    (observed : Dict CapturedField) (fs : List CapturedField)
    → All (λ (f : CapturedField). (g : CapturedField) × (lookup f.field observed ≡ some g)) fs
    → (gs : List CapturedField) × (pick observed fs ≡ some gs) × IsObservation observed fs gs
unfolding pick
pick-IsObservation observed [] h = ([], refl, tt)
pick-IsObservation observed (f ∷ fs) h =
    let (g, e) = h.0 in
    let (gs, r, o) = pick-IsObservation observed fs h.1 in (g ∷ gs, ground arith, (e, o))

-- What an accepted runtime adoption retains.
pub record IsAdoption (current : List CapturedField) (capture : Capture) (p : RevisionPlan)
    : Type 0 where
  pub retained : IsObservation (by_field [] capture.fields) current p.fields
  pub changes : All IsChange p.changed
  pub not_idle : p.changed ≢ []
  pub verified : missing_of (by_field [] current) capture.uncapturable ≡ []

abbrev pub Adopts : List CapturedField → Capture → Revision → Type 0
Adopts current capture (plan p) = IsAdoption current capture p
Adopts current capture (refuse r) = Unit
Adopts current capture key_error = ⊥

each_observed :
    (controlled observed : Dict CapturedField) (fs : List CapturedField)
    → unseen_of controlled observed [] ≡ []
    → FoundIn controlled fs
    → All (λ (f : CapturedField). (g : CapturedField) × (lookup f.field observed ≡ some g)) fs
unfolding FoundIn
each_observed controlled observed [] u h = tt
each_observed controlled observed (f ∷ fs) u h = (
  unseen-Observed controlled observed f.field f u h.0,
  each_observed controlled observed fs u h.1,
)

finish_runtime-Adopts :
    (current : List CapturedField) (capture : Capture)
    → FieldsDistinct current
    → missing_of (by_field [] current) capture.uncapturable ≡ []
    → unseen_of (by_field [] current) (by_field [] capture.fields) [] ≡ []
    → Adopts current capture (
        finish_runtime current
          (by_field [] capture.fields)
          (runtime_changes (by_field [] current) (by_field [] capture.fields)))
unfolding finish_runtime
finish_runtime-Adopts current capture dc m u =
    let (cs, r, a) = unseen-changes (by_field [] current) (by_field [] capture.fields) u in
    let (gs, q, o) = pick-IsObservation (by_field [] capture.fields) current (
      each_observed (by_field [] current) (by_field [] capture.fields) current u
        (by_field-FoundIn [] current dc)) in
    subst (λ x. Adopts current capture (finish_runtime current (by_field [] capture.fields) x))
      (sym r) (adopts cs a gs q o)
  where
    adopts :
        (cs : List FieldChange)
        → All IsChange cs
        → (gs : List CapturedField) → pick (by_field [] capture.fields) current ≡ some gs
        → IsObservation (by_field [] capture.fields) current gs
        → Adopts current capture (finish_runtime current (by_field [] capture.fields) (some cs))
    adopts [] a gs q o = tt
    adopts (c ∷ cs) a gs q o =
        subst (λ x. Adopts current capture (runtime_plan (c ∷ cs) x)) (sym q)
          (record { retained = o; changes = a; not_idle = λ e. cc; verified = m })

-- A runtime adoption of distinct fields never looks a missing key up; where it is accepted, its plan
-- has for each current field, in order, the value that the capture observed under its name, it lists
-- at least one change and only changes of value, and no controlled field was uncapturable.
pub plan_runtime_revision-Adopts :
    (current : List CapturedField) (capture : Capture)
    → FieldsDistinct current
    → Adopts current capture (plan_runtime_revision current capture)
unfolding plan_runtime_revision
plan_runtime_revision-Adopts current capture dc = verify _ _ refl refl
  where
    verify :
        (missing unseen : List UncapturableField)
        → missing_of (by_field [] current) capture.uncapturable ≡ missing
        → unseen_of (by_field [] current) (by_field [] capture.fields) missing ≡ unseen
        → Adopts current capture (
            unverified_or
              (missing ++ unseen)
              current
              (by_field [] current)
              (by_field [] capture.fields))
    verify [] [] m u = finish_runtime-Adopts current capture dc m u
    verify [] (x ∷ xs) m u = tt
    verify (x ∷ xs) ys m u = tt
