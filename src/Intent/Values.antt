-- ===== src/Intent/Values.antt =====
-- What is captured is of its type and was observed; every adoptable field is accounted for; stored
-- values come back.
use local_plane.Prelude.{◌≡◌, refl, true, false, some, int_eq_iff, arith}
use local_plane.Intent.{
  ValueType, boolean, integer, Value, truth, number, Raw, bool_raw, int_raw, coerce, encode, decode,
  value_eq, HasType,
}

-- A value of its type comes back from the store as it was.
pub decode-encode : (t : ValueType) (v : Value) → HasType t v → decode t (encode t v) ≡ v
unfolding decode encode
decode-encode boolean (truth true) h = refl
decode-encode boolean (truth false) h = refl
decode-encode integer (number n) h = refl
decode-encode boolean (number n) h = elim h [ ]
decode-encode integer (truth b) h = elim h [ ]

pub to_raw : Value → Raw
to_raw (truth b) = bool_raw b
to_raw (number n) = int_raw n

-- A value that is coerced to a type is of that type, and is the raw value itself.
pub coerce_sound :
    (t : ValueType) (raw : Raw) (v : Value) → coerce t raw ≡ some v → HasType t v × (raw ≡ to_raw v)
unfolding coerce to_raw
coerce_sound boolean (bool_raw b) (truth c) h = (tt, ground arith)
coerce_sound integer (int_raw n) (number m) h = (tt, ground arith)
coerce_sound t raw v h = ground arith

-- Between values of one type the comparison of numbers is equality.
pub value_eq_iff :
    (t : ValueType) (a b : Value) → HasType t a → HasType t b → value_eq a b ≡ true → a ≡ b
unfolding value_eq
value_eq_iff boolean (truth a) (truth b) h k e = ground arith
value_eq_iff integer (number a) (number b) h k e = ground (arith, int_eq_iff a b)
value_eq_iff t a b h k e = ground arith
