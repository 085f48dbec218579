-- ===== src/Reconciliation/Outcome.antt =====
-- What a comparison says of one field.
use local_plane.Prelude.{
  ◌≡◌, refl, ◌≢◌, int_eq_iff, ◌⊎◌, inl, inr, true, false, Option, none, some, List, [], ◌∷◌, arith,
  All, Bool-cases,
}
use local_plane.Prelude.Dict.{Dict}
use local_plane.Intent.{
  ValueType, Value, Raw, null, boolean, integer, truth, number, bool_raw, int_raw, other_raw,
  coerce, value_eq, get_fact, HasType,
}
use local_plane.Intent.Values.{coerce_sound, value_eq_iff}
use local_plane.Reconciliation.{
  Comparison, matches, differs, IntendedField, FieldComparison, compare_raw, compare_coerced,
}

-- Each intended value is of its field's type.
abbrev pub WellTyped : List IntendedField → Type 0
WellTyped = All (λ (i : IntendedField). HasType i.value_type i.value)

-- The host reports a usable value of the field, and it is the intended one.
abbrev pub Agrees : Dict Raw → IntendedField → Type 0
Agrees facts i = coerce i.value_type (get_fact facts i.field) ≡ some i.value

-- The host reports a usable value of the field, and it is another one.
abbrev pub Disagrees : Dict Raw → IntendedField → Type 0
Disagrees facts i =
    (v : Value) × (coerce i.value_type (get_fact facts i.field) ≡ some v) × (v ≢ i.value)

-- Some field of the list has the property.
abbrev pub Some : {A : Type 0} → (A → Type 0) → List A → Type 0
Some P [] = ⊥
Some P (x ∷ xs) = P x ⊎ Some P xs

pub value_eq_refl : (v : Value) → value_eq v v ≡ true
unfolding value_eq
value_eq_refl (truth true) = ground arith
value_eq_refl (truth false) = ground arith
value_eq_refl (number n) = (int_eq_iff n n).1 refl

pub coerce-null : (t : ValueType) → coerce t null ≡ none
unfolding coerce
coerce-null boolean = refl
coerce-null integer = refl

-- What a comparison says, by the coerced value.
pub data Outcome (i : IntendedField) (raw : Raw) (c : FieldComparison) : Type 0 where
  agrees : coerce i.value_type raw ≡ some i.value → c.comparison ≡ matches → Outcome i raw c
  disagrees :
      (v : Value)
      → coerce i.value_type raw ≡ some v
      → v ≢ i.value
      → c.comparison ≡ differs
      → Outcome i raw c
  unusable : coerce i.value_type raw ≡ none → c.comparison ≡ Comparison.unknown → Outcome i raw c

pub compare_coerced-Outcome :
    (i : IntendedField) (raw : Raw) (o : Option Value)
    → HasType i.value_type i.value
    → coerce i.value_type raw ≡ o
    → Outcome i raw (compare_coerced i o)
unfolding compare_coerced
compare_coerced-Outcome i raw none t e = unusable e refl
compare_coerced-Outcome i raw (some v) t e = elim (Bool-cases (value_eq v i.value)) [
  | inl same ↦
      let eq = value_eq_iff i.value_type v i.value (coerce_sound i.value_type raw v e).0 t same in
      agrees (rw (← eq) e) (rw same)
  | inr other ↦ disagrees v e (λ eq. cc (other, value_eq_refl v, eq)) (rw other)
]

pub compare_raw-Outcome :
    (i : IntendedField) (raw : Raw)
    → HasType i.value_type i.value
    → Outcome i raw (compare_raw i raw)
unfolding compare_raw
compare_raw-Outcome i null t = unusable (coerce-null i.value_type) refl
compare_raw-Outcome i (bool_raw b) t = compare_coerced-Outcome i (bool_raw b) _ t refl
compare_raw-Outcome i (int_raw n) t = compare_coerced-Outcome i (int_raw n) _ t refl
compare_raw-Outcome i (other_raw s) t = compare_coerced-Outcome i (other_raw s) _ t refl
