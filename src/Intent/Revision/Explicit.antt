-- ===== src/Intent/Revision/Explicit.antt =====
-- The explicit revision: what its plan retains.
use local_plane.Prelude.{
  String, ◌≡◌, refl, sym, inl, inr, true, false, some, List, [], ◌∷◌, ◌++◌, map, contains, arith,
  All, All-append, ◌≢◌,
}
use mathlib.Core.Path.{subst}
use local_plane.Prelude.Dict.{Dict, lookup, insert, Distinct}
use local_plane.Intent.{Value, Raw, CapturedField, coerce, value_eq}
use local_plane.Intent.Revision.{
  FieldChange, RevisionPlan, Revision, plan, refuse, key_error, by_field, adoptable_names, accepted,
  request, Collected, stopped, collected, collect, finish_explicit, explicit_plan,
  plan_explicit_revision,
}
use local_plane.Intent.Revision.Collect.{
  FieldsDistinct, revised, by_field-FoundIn, Request-cases, collect-Requested, pick-revised,
}

abbrev pub IsChange : FieldChange → Type 0
IsChange c = value_eq c.now c.was ≡ false

request-IsChange :
    (controlled : Dict CapturedField) (field : String) (raw : Raw) (g : CapturedField)
    (ch : List FieldChange)
    → request controlled field raw ≡ accepted g ch
    → All IsChange ch
unfolding request
request-IsChange controlled field raw g [] h = tt
request-IsChange controlled field raw g (c ∷ []) h = ground arith
request-IsChange controlled field raw g (c ∷ d ∷ ds) h = ground arith

collect-IsChange :
    (controlled : Dict CapturedField) (rest : Dict Raw) (planned : Dict CapturedField)
    (changed : List FieldChange) {planned' : Dict CapturedField} {changed' : List FieldChange}
    → collect controlled rest planned changed ≡ collected planned' changed'
    → All IsChange changed
    → All IsChange changed'
unfolding collect
collect-IsChange controlled [] planned changed {changed' = c} h a =
    let same : changed ≡ c = ground arith in subst (All IsChange) same a
collect-IsChange controlled ((field, raw) ∷ rest) planned changed h a =
    elim (Request-cases (request controlled field raw)) [
      | inl (r, q) ↦ cc (rw (q, collect) at h)
      | inr (g, (ch, q)) ↦
          collect-IsChange controlled rest (insert field g planned) (changed ++ ch)
            (rw (q, collect) at h)
            (All-append IsChange changed ch a (request-IsChange controlled field raw g ch q))
    ]

-- What an accepted explicit revision retains.
pub record IsExplicit (current : List CapturedField) (requested : Dict Raw) (p : RevisionPlan)
    : Type 0 where
  pub retained : p.fields ≡ map (revised requested) current
  pub changes : All IsChange p.changed
  pub not_idle : p.changed ≢ []
  pub allowed :
      (k : String) (raw : Raw)
      → lookup k requested ≡ some raw
      → (contains adoptable_names k ≡ true)
        × ((f : CapturedField) × (lookup k (by_field [] current) ≡ some f)
            × ((v : Value) × (coerce f.value_type raw ≡ some v)))

abbrev pub Explains : List CapturedField → Dict Raw → Revision → Type 0
Explains current requested (plan p) = IsExplicit current requested p
Explains current requested (refuse r) = Unit
Explains current requested key_error = ⊥

finish-Explains :
    (current : List CapturedField) (requested : Dict Raw) (out : Collected)
    → collect (by_field [] current) requested (by_field [] current) [] ≡ out
    → FieldsDistinct current
    → Distinct requested
    → Explains current requested (finish_explicit current requested out)
unfolding finish_explicit
finish-Explains current requested (stopped r) e dc dr = tt
finish-Explains current requested (collected planned []) e dc dr = tt
finish-Explains current requested (collected planned (c ∷ cs)) e dc dr =
    subst (λ o. Explains current requested (explicit_plan current requested (c ∷ cs) o))
      (sym (
        pick-revised (by_field [] current) requested planned (c ∷ cs) current e dr
          (by_field-FoundIn [] current dc)))
      (record {
        retained = refl;
        changes = collect-IsChange (by_field [] current) requested (by_field [] current) [] e tt;
        not_idle = λ q. cc;
        allowed = λ k raw found.
            let r =
              collect-Requested (by_field [] current) requested (by_field [] current) [] k raw e dr
                found in
            (r.known, (r.existing, r.controls, (r.value, r.usable)));
      })

-- An explicit revision of distinct fields by distinct names never looks a missing key up; where it is
-- accepted, its plan has every current field, in order and at its type, with the requested value where
-- one is requested and its own value elsewhere, it lists at least one change and only changes of value,
-- and every requested name is adoptable, controlled, and has a usable value.
pub plan_explicit_revision-Explains :
    (current : List CapturedField) (requested : Dict Raw)
    → FieldsDistinct current
    → Distinct requested
    → Explains current requested (plan_explicit_revision current requested)
unfolding plan_explicit_revision
plan_explicit_revision-Explains current [] dc dr = tt
plan_explicit_revision-Explains current (r ∷ rs) dc dr =
    finish-Explains current (r ∷ rs) _ refl dc dr
