-- ===== src/Intent.antt =====
-- src/localplane/backend/domain/intent.py: the values that an interface's intent retains, and their
-- capture from one observation. The plans of its revisions are in `Intent.Revision`.
-- `Raw` is Python's `Any`, as far as `coerce` tells values apart; `None` and a missing key are one.
pub mod Revision
pub mod Values
use local_plane.Prelude.{
  ℕ, String, Bool, true, false, Option, none, some, List, [], ◌∷◌, ℤ, pos, negsuc, int_eq,
  is_positive, ◌==◌, if◌then◌else◌,
}
use local_plane.Prelude.Dict.{Dict, lookup}

pub data ValueType : Type 0 where
  boolean integer : ValueType

-- `bool | int`
pub data Value : Type 0 where
  truth : Bool → Value
  number : ℤ → Value

pub data Raw : Type 0 where
  null : Raw
  bool_raw : Bool → Raw
  int_raw : ℤ → Raw
  -- a value of any other type, by its rendering
  other_raw : String → Raw

pub record AdoptableField : Type 0 where
  pub name : String
  pub value_type : ValueType

pub record CapturedField : Type 0 where
  pub field : String
  pub value_type : ValueType
  pub value : Value

pub data UncapturableReason : Type 0 where
  observed_value_unreadable observed_value_not_usable : UncapturableReason

pub record UncapturableField : Type 0 where
  pub field : String
  pub value_type : ValueType
  pub reason : UncapturableReason
  pub observed : Raw

pub record Capture : Type 0 where
  pub fields : List CapturedField
  pub uncapturable : List UncapturableField

abbrev pub adoptable_interface_fields : List AdoptableField
adoptable_interface_fields =
    record { name = "admin_up"; value_type = boolean }
    ∷ record { name = "mtu"; value_type = integer }
    ∷ []

-- int(value)
abbrev pub to_int : Value → ℤ
to_int (truth true) = pos 1
to_int (truth false) = pos 0
to_int (number n) = n

-- `a == b` between `bool | int`: Python compares them as numbers.
unfoldable pub value_eq : Value → Value → Bool
value_eq a b = int_eq (to_int a) (to_int b)

unfoldable pub coerce : ValueType → Raw → Option Value
coerce boolean (bool_raw b) = some (truth b)
coerce integer (int_raw n) = if is_positive n then some (number n) else none
coerce _ _ = none

unfoldable pub encode : ValueType → Value → ℤ
encode boolean v = to_int v
encode integer v = to_int v

unfoldable pub decode : ValueType → ℤ → Value
decode boolean stored = truth (if int_eq stored (pos 0) then false else true)
decode integer stored = number stored

-- facts.get(name)
unfoldable pub get_fact : Dict Raw → String → Raw
get_fact facts name = elim (lookup name facts) [ none ↦ null | some raw ↦ raw ]

capture_coerced : AdoptableField → Raw → Option Value → Capture → Capture
capture_coerced f raw (some v) rest = record rest {
  fields = record { field = f.name; value_type = f.value_type; value = v } ∷ rest.fields;
}
capture_coerced f raw none rest = record rest {
  uncapturable =
      record {
        field = f.name;
        value_type = f.value_type;
        reason = observed_value_not_usable;
        observed = raw;
      }
      ∷ rest.uncapturable;
}

-- One turn of the loop: `rest` is what the later fields give.
capture_field : AdoptableField → Raw → Capture → Capture
capture_field f null rest = record rest {
  uncapturable =
      record {
        field = f.name;
        value_type = f.value_type;
        reason = observed_value_unreadable;
        observed = null;
      }
      ∷ rest.uncapturable;
}
capture_field f raw rest = capture_coerced f raw (coerce f.value_type raw) rest

-- The loop over the adoptable fields.
pub capture_fields : List AdoptableField → Dict Raw → Capture
capture_fields [] facts = record { fields = []; uncapturable = [] }
capture_fields (f ∷ fs) facts = capture_field f (get_fact facts f.name) (capture_fields fs facts)

unfoldable pub capture_interface_intent : Dict Raw → Capture
unfolding capture_fields capture_field capture_coerced
capture_interface_intent facts = capture_fields adoptable_interface_fields facts

-- The value is of the type.
abbrev pub HasType : ValueType → Value → Type 0
HasType boolean (truth b) = Unit
HasType integer (number n) = Unit
HasType _ _ = ⊥
