-- ===== src/Intent/Revision/Collect.antt =====
-- The loop over the requested values, and what it leaves for each current field.
use local_plane.Prelude.{
  String, ◌≡◌, refl, ◌⊎◌, inl, inr, true, false, Option, none, some, List, [], ◌∷◌, ◌++◌, map,
  contains, arith, str_eq, eq_iff, eq_refl, Option-cases, Bool-cases, All,
}
use mathlib.Core.Path.{subst}
use local_plane.Prelude.Dict.{Dict, lookup, insert, Distinct, lookup-insert}
use local_plane.Prelude.Dict.Keys
use local_plane.Intent.{Value, Raw, CapturedField, coerce}
use local_plane.Intent.Revision.{
  FieldChange, RevisionRefused, by_field, adoptable_names, Request, rejected, accepted, request,
  collected, collect, pick,
}

-- No field is retained twice.
abbrev pub FieldAbsent : String → List CapturedField → Type 0
FieldAbsent k [] = Unit
FieldAbsent k (f ∷ fs) = (str_eq f.field k ≡ false) × FieldAbsent k fs

abbrev pub FieldsDistinct : List CapturedField → Type 0
FieldsDistinct [] = Unit
FieldsDistinct (f ∷ fs) = FieldAbsent f.field fs × FieldsDistinct fs

-- The field with the requested value, if one is requested and is usable.
abbrev pub with_value : CapturedField → Option Value → CapturedField
with_value f none = f
with_value f (some v) = record f { value = v }

abbrev pub revised_by : CapturedField → Option Raw → CapturedField
revised_by f none = f
revised_by f (some raw) = with_value f (coerce f.value_type raw)

abbrev pub revised : Dict Raw → CapturedField → CapturedField
revised requested f = revised_by f (lookup f.field requested)

lookup-by_field-Absent :
    (k : String) (d : Dict CapturedField) (fs : List CapturedField)
    → FieldAbsent k fs
    → lookup k (by_field d fs) ≡ lookup k d
unfolding by_field
lookup-by_field-Absent k d [] h = refl
lookup-by_field-Absent k d (f ∷ fs) h =
    ground
      (arith, lookup-by_field-Absent k (insert f.field f d) fs h.1, lookup-insert f.field k f d)

-- Every field of the list is found under its own name.
unfoldable pub FoundIn : Dict CapturedField → List CapturedField → Type 0
FoundIn d fs = All (λ f. lookup f.field d ≡ some f) fs

FoundIn-insert :
    (g : CapturedField) (d : Dict CapturedField) (fs : List CapturedField)
    → FieldAbsent g.field fs
    → FoundIn d fs
    → FoundIn (insert g.field g d) fs
unfolding FoundIn
FoundIn-insert g d [] a h = tt
FoundIn-insert g d (f ∷ fs) a h = (
  ground (arith, lookup-insert g.field f.field g d, eq_iff g.field f.field, eq_iff f.field g.field),
  FoundIn-insert g d fs a.1 h.1,
)

pub by_field-FoundIn :
    (d : Dict CapturedField) (fs : List CapturedField)
    → FieldsDistinct fs
    → FoundIn (by_field d fs) fs
unfolding FoundIn by_field
by_field-FoundIn d [] h = tt
by_field-FoundIn d (f ∷ fs) h = (
  ground (
    arith,
    lookup-by_field-Absent f.field (insert f.field f d) fs h.0,
    lookup-insert f.field f.field f d,
    eq_refl f.field,
  ),
  by_field-FoundIn (insert f.field f d) fs h.1,
)

-- What an accepted request says.
pub record Accepts (controlled : Dict CapturedField) (field : String) (raw : Raw)
    (g : CapturedField) : Type 0 where
  pub existing : CapturedField
  pub value : Value
  pub known : contains adoptable_names field ≡ true
  pub controls : lookup field controlled ≡ some existing
  pub usable : coerce existing.value_type raw ≡ some value
  pub result : g ≡ record { field = field; value_type = existing.value_type; value = value }

pub request-Accepts :
    (controlled : Dict CapturedField) (field : String) (raw : Raw) (g : CapturedField)
    (ch : List FieldChange)
    → request controlled field raw ≡ accepted g ch
    → Accepts controlled field raw g
unfolding request
request-Accepts controlled field raw g ch h = elim (Bool-cases (contains adoptable_names field)) [
  | inr e ↦ ground arith
  | inl known ↦ elim (Option-cases (lookup field controlled)) [
    | inl e ↦ ground arith
    | inr (x, c) ↦ elim (Option-cases (coerce x.value_type raw)) [
      | inl e ↦ ground arith
      | inr (v, u) ↦ record {
        existing = x;
        value = v;
        known = known;
        controls = c;
        usable = u;
        result = ground arith;
      }
    ]
  ]
]

pub Request-cases :
    (q : Request)
    → ((r : RevisionRefused) × (q ≡ rejected r))
      ⊎ ((g : CapturedField) × ((ch : List FieldChange) × (q ≡ accepted g ch)))
Request-cases (rejected r) = inl (r, refl)
Request-cases (accepted g ch) = inr (g, (ch, refl))

-- One turn of the loop that went on.
pub collect-cons :
    (controlled : Dict CapturedField) (field : String) (raw : Raw) (rest : Dict Raw)
    (planned : Dict CapturedField) (changed : List FieldChange) {planned' : Dict CapturedField}
    {changed' : List FieldChange}
    → collect controlled ((field, raw) ∷ rest) planned changed ≡ collected planned' changed'
    → (g : CapturedField) × (ch : List FieldChange) × Accepts controlled field raw g
      × (collect controlled rest (insert field g planned) (changed ++ ch)
          ≡ collected planned' changed')
unfolding collect
collect-cons controlled field raw rest planned changed h =
    elim (Request-cases (request controlled field raw)) [
      | inl (r, q) ↦ cc (rw (q, collect) at h)
      | inr (g, (ch, q)) ↦
          (g, ch, request-Accepts controlled field raw g ch q, rw (q, collect) at h)
    ]

-- After the loop a key that is not requested is as it was.
pub collect-skips :
    (controlled : Dict CapturedField) (rest : Dict Raw) (planned : Dict CapturedField)
    (changed : List FieldChange) {planned' : Dict CapturedField} {changed' : List FieldChange}
    (k : String)
    → collect controlled rest planned changed ≡ collected planned' changed'
    → lookup k rest ≡ none
    → lookup k planned' ≡ lookup k planned
unfolding collect lookup
collect-skips controlled [] planned changed k h e = ground arith
collect-skips controlled ((field, raw) ∷ rest) planned changed k h e =
    let (g, ch, acc, more) = collect-cons controlled field raw rest planned changed h in
    ground (
      arith,
      collect-skips controlled rest (insert field g planned) (changed ++ ch) k more,
      lookup-insert field k g planned,
    )

-- A requested key has the coerced value, at the type that was controlled.
pub record Requested (controlled planned' : Dict CapturedField) (k : String) (raw : Raw)
    : Type 0 where
  pub existing : CapturedField
  pub value : Value
  pub known : contains adoptable_names k ≡ true
  pub controls : lookup k controlled ≡ some existing
  pub usable : coerce existing.value_type raw ≡ some value
  pub result :
      lookup k planned'
      ≡ some (record { field = k; value_type = existing.value_type; value = value })

pub collect-Requested :
    (controlled : Dict CapturedField) (rest : Dict Raw) (planned : Dict CapturedField)
    (changed : List FieldChange) {planned' : Dict CapturedField} {changed' : List FieldChange}
    (k : String) (raw : Raw)
    → collect controlled rest planned changed ≡ collected planned' changed'
    → Distinct rest
    → lookup k rest ≡ some raw
    → Requested controlled planned' k raw
unfolding lookup
collect-Requested controlled [] planned changed k raw h d e = cc
collect-Requested controlled ((field, x) ∷ rest) planned changed {planned' = p} k raw h d e =
    let (g, ch, acc, more) = collect-cons controlled field x rest planned changed h in
    elim (Bool-cases (str_eq field k)) [
      | inr other ↦
          collect-Requested controlled rest (insert field g planned) (changed ++ ch) k raw more d.1
            (ground arith)
      | inl same ↦
          let skipped =
            collect-skips controlled rest (insert field g planned) (changed ++ ch) field more
              (Keys.lookup-Absent field rest d.0) in
          let now : x ≡ raw = ground arith in
          subst (λ j. Requested controlled p j raw) ((eq_iff field k).0 same)
            (record {
              existing = acc.existing;
              value = acc.value;
              known = acc.known;
              controls = acc.controls;
              usable =
                  subst (λ y. coerce acc.existing.value_type y ≡ some acc.value) now acc.usable;
              result =
                  ground (
                    arith,
                    skipped,
                    lookup-insert field field g planned,
                    eq_refl field,
                    acc.result,
                  );
            })
    ]

-- Whatever is picked for the current fields is their revision.
pub pick-revised :
    (controlled : Dict CapturedField) (requested : Dict Raw) (planned : Dict CapturedField)
    (changed : List FieldChange) (current : List CapturedField)
    → collect controlled requested controlled [] ≡ collected planned changed
    → Distinct requested
    → FoundIn controlled current
    → pick planned current ≡ some (map (revised requested) current)
unfolding pick FoundIn
pick-revised controlled requested planned changed [] h d f = refl
pick-revised controlled requested planned changed (x ∷ xs) h d f =
    let ih = pick-revised controlled requested planned changed xs h d f.1 in
    elim (Option-cases (lookup x.field requested)) [
      | inl e ↦ ground (arith, ih, collect-skips controlled requested controlled [] x.field h e)
      | inr (raw, e) ↦
          let r = collect-Requested controlled requested controlled [] x.field raw h d e in
          ground (arith, ih, e, f.0, r.controls, r.usable, r.result)
    ]
