-- ===== src/Helper/Struct/RoundTrip.antt =====
-- Packing and unpacking undo each other (the `struct` formats of src/localplane/helper/mtu.py).
use mathlib.Core.Path.{subst}
use local_plane.Prelude.{
  append-append, ℕ, ◌<◌, ◌≡◌, refl, sym, ◌∙◌, ap, inl, inr, true, Option, none, some, List, [], ◌∷◌,
  ◌++◌, length, take, drop, ltb, All, All-append, Option-cases, Bool-cases, ltb→lt, arith,
  length-append,
}
use local_plane.Helper.Struct.{
  Bytes, IsByte, ByteOrder, little, big, Code, byte, short, signed_int, unsigned_int, size, limit,
  digits, number, backwards, ordered, pack_field, unpack_field, calcsize, Values, pack, unpack,
}

module _ {ℓ} {A : Type ℓ} where
  pub take-append : (xs ys : List A) → take (length xs) (xs ++ ys) ≡ xs
  take-append [] ys = refl
  take-append (x ∷ xs) ys = ap (λ zs. x ∷ zs) (take-append xs ys)

  pub drop-append : (xs ys : List A) → drop (length xs) (xs ++ ys) ≡ ys
  drop-append [] ys = refl
  drop-append (x ∷ xs) ys = drop-append xs ys

abbrev or_nothing : Option Bytes → Bytes
or_nothing none = []
or_nothing (some bs) = bs

lt→ltb : (a b : ℕ) → a < b → ltb a b ≡ true
lt→ltb a b h = ground arith

length-pack_field : (order : ByteOrder) (c : Code) (n : ℕ) → length (pack_field order c n) ≡ size c
unfolding pack_field digits backwards
length-pack_field little byte n = refl
length-pack_field little short n = refl
length-pack_field little signed_int n = refl
length-pack_field little unsigned_int n = refl
length-pack_field big byte n = refl
length-pack_field big short n = refl
length-pack_field big signed_int n = refl
length-pack_field big unsigned_int n = refl

number-digits : (c : Code) (n : ℕ) → n < limit c → number (digits (size c) n) ≡ n
unfolding number digits
number-digits byte n h = omega arith
number-digits short n h = omega arith
number-digits signed_int n h = omega arith
number-digits unsigned_int n h = omega arith

ordered-ordered :
    (order : ByteOrder) (c : Code) (n : ℕ)
    → ordered order (ordered order (digits (size c) n)) ≡ digits (size c) n
unfolding digits backwards
ordered-ordered little c n = refl
ordered-ordered big byte n = refl
ordered-ordered big short n = refl
ordered-ordered big signed_int n = refl
ordered-ordered big unsigned_int n = refl

unpack_field-pack_field :
    (order : ByteOrder) (c : Code) (n : ℕ) (rest : Bytes)
    → n < limit c
    → unpack_field order c (pack_field order c n ++ rest) ≡ n
unfolding unpack_field pack_field
unpack_field-pack_field order c n rest h =
    ap (λ k. number (ordered order (take k (pack_field order c n ++ rest))))
      (sym (length-pack_field order c n))
    ∙ ap (λ bs. number (ordered order bs)) (take-append (pack_field order c n) rest)
    ∙ ap number (ordered-ordered order c n)
    ∙ number-digits c n h

drop-pack_field :
    (order : ByteOrder) (c : Code) (n : ℕ) (rest : Bytes)
    → drop (size c) (pack_field order c n ++ rest) ≡ rest
drop-pack_field order c n rest =
    ap (λ k. drop k (pack_field order c n ++ rest)) (sym (length-pack_field order c n))
    ∙ drop-append (pack_field order c n) rest

-- What a successful `pack` of one field more consists of.
pub pack-cons :
    (order : ByteOrder) (c : Code) (cs : List Code) (n : ℕ) (ns : Values cs) {bs : Bytes}
    → pack order (c ∷ cs) (n, ns) ≡ some bs
    → (n < limit c)
      × ((rest : Bytes) × (pack order cs ns ≡ some rest) × (bs ≡ pack_field order c n ++ rest))
unfolding pack
pack-cons order c cs n ns h = elim (Option-cases (pack order cs ns)) [
  | inl e ↦ absurd (ground (arith, h, e))
  | inr (rest, e) ↦ elim (Bool-cases (ltb n (limit c))) [
    | inl lt ↦ (ltb→lt n (limit c) lt, (rest, e, ground (arith, h, e, lt)))
    | inr ge ↦ absurd (ground (arith, h, e, ge))
  ]
]

-- What was packed is what is unpacked, whatever follows it.
pub unpack-pack :
    (order : ByteOrder) (cs : List Code) (ns : Values cs) (rest : Bytes) {bs : Bytes}
    → pack order cs ns ≡ some bs
    → unpack order cs (bs ++ rest) ≡ ns
unfolding pack unpack
unpack-pack order [] ns rest h = refl
unpack-pack order (c ∷ cs) (n, ns) rest h =
    let (lt, (tail, packed, e)) = pack-cons order c cs n ns h in
    let e' = ap (λ bs. bs ++ rest) e ∙ append-append (pack_field order c n) tail rest in
    ap (λ bs. (unpack_field order c bs, unpack order cs (drop (size c) bs))) e'
    ∙ ap (λ m. (m, unpack order cs (drop (size c) (pack_field order c n ++ (tail ++ rest)))))
        (unpack_field-pack_field order c n (tail ++ rest) lt)
    ∙ ap (λ bs. (n, unpack order cs bs)) (drop-pack_field order c n (tail ++ rest))
    ∙ ap (λ ms. (n, ms)) (unpack-pack order cs ns rest packed)

pub length-pack :
    (order : ByteOrder) (cs : List Code) (ns : Values cs) {bs : Bytes}
    → pack order cs ns ≡ some bs
    → length bs ≡ calcsize cs
unfolding pack
length-pack order [] ns h = ground (arith, h)
length-pack order (c ∷ cs) (n, ns) h =
    let (lt, (tail, packed, e)) = pack-cons order c cs n ns h in
    ap length e
    ∙ omega (
      arith,
      length-append (pack_field order c n) tail,
      length-pack_field order c n,
      length-pack order cs ns packed,
    )

-- The format takes the values.
abbrev pub Fits : (cs : List Code) → Values cs → Type 0
Fits [] ns = Unit
Fits (c ∷ cs) (n, ns) = (n < limit c) × Fits cs ns

pub pack-Fits :
    (order : ByteOrder) (cs : List Code) (ns : Values cs)
    → Fits cs ns
    → (bs : Bytes) × (pack order cs ns ≡ some bs)
unfolding pack
pack-Fits order [] ns h = ([], refl)
pack-Fits order (c ∷ cs) (n, ns) h =
    let (rest, e) = pack-Fits order cs ns h.1 in
    let lt = lt→ltb n (limit c) h.0 in (pack_field order c n ++ rest, ground (arith, e, lt))

pub Fits-pack :
    (order : ByteOrder) (cs : List Code) (ns : Values cs) {bs : Bytes}
    → pack order cs ns ≡ some bs
    → Fits cs ns
Fits-pack order [] ns h = tt
Fits-pack order (c ∷ cs) (n, ns) h =
    let (lt, (tail, packed, e)) = pack-cons order c cs n ns h in (lt, Fits-pack order cs ns packed)

digits-IsByte : (c : Code) (n : ℕ) → All IsByte (digits (size c) n)
unfolding digits
digits-IsByte byte n = (omega arith, tt)
digits-IsByte short n = (omega arith, (omega arith, tt))
digits-IsByte signed_int n = (omega arith, (omega arith, (omega arith, (omega arith, tt))))
digits-IsByte unsigned_int n = (omega arith, (omega arith, (omega arith, (omega arith, tt))))

pack_field-IsByte : (order : ByteOrder) (c : Code) (n : ℕ) → All IsByte (pack_field order c n)
unfolding pack_field backwards digits
pack_field-IsByte little c n = digits-IsByte c n
pack_field-IsByte big byte n = (omega arith, tt)
pack_field-IsByte big short n = (omega arith, (omega arith, tt))
pack_field-IsByte big signed_int n = (omega arith, (omega arith, (omega arith, (omega arith, tt))))
pack_field-IsByte big unsigned_int n =
    (omega arith, (omega arith, (omega arith, (omega arith, tt))))

pub pack-IsByte :
    (order : ByteOrder) (cs : List Code) (ns : Values cs) {bs : Bytes}
    → pack order cs ns ≡ some bs
    → All IsByte bs
unfolding pack
pack-IsByte order [] ns h = subst (λ o. All IsByte (or_nothing o)) h tt
pack-IsByte order (c ∷ cs) (n, ns) h =
    let (lt, (tail, packed, e)) = pack-cons order c cs n ns h in
    subst (All IsByte) (sym e) (
      All-append IsByte (pack_field order c n) tail (pack_field-IsByte order c n)
        (pack-IsByte order cs ns packed))
