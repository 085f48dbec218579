-- ===== src/Prelude/Ascending.antt =====
-- Texts in strictly ascending order, which the sorted elements of a set are in.
use Prim.Native.Nat.compare as compare_ℕ
use Prim.Native.Nat.{ℕ, zero, suc, Ordering, compare as compare_ℕ}
use Prim.Native.Char.{code}
use Prim.Native.String.compare
use Prim.Native.String.{String, compare, then as or_then}
use mathlib.Core.Path.{◌≡◌, refl, sym, ◌∙◌, ap}
use mathlib.Core.Bool.{Bool, true, false, not, ◌||◌, ◌&&◌}
use mathlib.Core.List.{List, [], ◌∷◌}
use native.Mathlib.Omega.{arith}
use text.Mathlib.TextEquality.{path_by_compare}
use local_plane.Prelude.Tests.{if◌then◌else◌}
use local_plane.Prelude.Text.{str_eq, eq_iff, contains, without, from_keys, place, sorted}

-- The text is smaller than the first of the list.
abbrev Below : String → List String → Type 0
Below a [] = Unit
Below a (x ∷ xs) = compare a x ≡ Ordering.lt

-- Every text is smaller than the next one.
abbrev pub Ascending : List String → Type 0
Ascending [] = Unit
Ascending (x ∷ xs) = Below x xs × Ascending xs

flip : Ordering → Ordering
flip Ordering.lt = Ordering.gt
flip Ordering.eq = Ordering.eq
flip Ordering.gt = Ordering.lt

flip-or_then : (o o' : Ordering) → flip (or_then o o') ≡ or_then (flip o) (flip o')
unfolding flip
flip-or_then Ordering.lt o' = refl
flip-or_then Ordering.eq o' = refl
flip-or_then Ordering.gt o' = refl

compare_number-flip : (m n : ℕ) → compare_ℕ n m ≡ flip (compare_ℕ m n)
unfolding flip
compare_number-flip zero zero = compare_ℕ.zero-zero ∙ sym (ap flip compare_ℕ.zero-zero)
compare_number-flip zero (suc n) = compare_ℕ.suc-zero n ∙ sym (ap flip (compare_ℕ.zero-suc n))
compare_number-flip (suc m) zero = compare_ℕ.zero-suc m ∙ sym (ap flip (compare_ℕ.suc-zero m))
compare_number-flip (suc m) (suc n) =
    compare_ℕ.suc-suc n m ∙ compare_number-flip m n ∙ sym (ap flip (compare_ℕ.suc-suc m n))

compare-flip : (s t : String) → compare t s ≡ flip (compare s t)
unfolding flip
compare-flip String.[] String.[] = compare.nil-nil ∙ sym (ap flip compare.nil-nil)
compare-flip String.[] (String.◌∷◌ d t) =
    compare.cons-nil d t ∙ sym (ap flip (compare.nil-cons d t))
compare-flip (String.◌∷◌ c s) String.[] =
    compare.nil-cons c s ∙ sym (ap flip (compare.cons-nil c s))
compare-flip (String.◌∷◌ c s) (String.◌∷◌ d t) =
    compare.cons-cons d c t s
    ∙ ap (λ o. or_then o (compare t s)) (compare_number-flip (code c) (code d))
    ∙ ap (λ o. or_then (flip (compare_ℕ (code c) (code d))) o) (compare-flip s t)
    ∙ sym (flip-or_then (compare_ℕ (code c) (code d)) (compare s t))
    ∙ sym (ap flip (compare.cons-cons c d s t))

flipped : (s t : String) → compare s t ≡ Ordering.gt → compare t s ≡ Ordering.lt
unfolding flip
flipped s t e = compare-flip s t ∙ ap flip e

contains-place :
    (a b : String) (xs : List String) → contains (place a xs) b ≡ (str_eq a b || contains xs b)
unfolding contains place
contains-place a b [] = refl
contains-place a b (x ∷ xs) = ground (arith, contains-place a b xs)

contains-sorted : (b : String) (xs : List String) → contains (sorted xs) b ≡ contains xs b
unfolding contains sorted
contains-sorted b [] = refl
contains-sorted b (x ∷ xs) =
    contains-place x b (sorted xs) ∙ ap (λ q. str_eq x b || q) (contains-sorted b xs)

contains-without :
    (a b : String) (xs : List String)
    → contains (without a xs) b ≡ (contains xs b && not (str_eq a b))
unfolding contains without
contains-without a b [] = refl
contains-without a b (x ∷ xs) =
    ground (arith, contains-without a b xs, eq_iff x a, eq_iff x b, eq_iff a b)

contains-from_keys : (b : String) (xs : List String) → contains (from_keys xs) b ≡ contains xs b
unfolding contains from_keys
contains-from_keys b [] = refl
contains-from_keys b (x ∷ xs) =
    ground (arith, contains-without x b (from_keys xs), contains-from_keys b xs)

-- No text stands in the list twice.
abbrev NoRepeat : List String → Type 0
NoRepeat [] = Unit
NoRepeat (x ∷ xs) = (contains xs x ≡ false) × NoRepeat xs

without-NoRepeat : (a : String) (xs : List String) → NoRepeat xs → NoRepeat (without a xs)
unfolding without
without-NoRepeat a [] h = tt
without-NoRepeat a (x ∷ xs) h =
    ground (arith, without-NoRepeat a xs h.1, contains-without a x xs, h.0)

from_keys-NoRepeat : (xs : List String) → NoRepeat (from_keys xs)
unfolding from_keys
from_keys-NoRepeat [] = tt
from_keys-NoRepeat (x ∷ xs) = (
  ground (arith, contains-without x x (from_keys xs), eq_iff x x),
  without-NoRepeat x (from_keys xs) (from_keys-NoRepeat xs),
)

Below-place :
    (z a : String) (xs : List String)
    → compare z a ≡ Ordering.lt
    → Below z xs
    → Below z (place a xs)
unfolding place
Below-place z a [] e h = e
Below-place z a (x ∷ xs) e h = ground (arith, e, h)

abbrev le_of : Ordering → Bool
le_of o = elim o [ Ordering.gt ↦ false | _ ↦ true ]

-- By how the text compares with the first
placed :
    (a x : String) (xs : List String) (o : Ordering)
    → compare a x ≡ o
    → str_eq x a ≡ false
    → Ascending (x ∷ xs)
    → Ascending (place a xs)
    → Ascending (if le_of o then a ∷ x ∷ xs else x ∷ place a xs)
placed a x xs Ordering.lt e other h rest = (e, h)
placed a x xs Ordering.eq e other h rest =
    absurd (ground (arith, (eq_iff x a).1 (sym (path_by_compare a x e)), other))
placed a x xs Ordering.gt e other h rest = (Below-place x a xs (flipped a x e) h.0, rest)

place-Ascending :
    (a : String) (xs : List String) → contains xs a ≡ false → Ascending xs → Ascending (place a xs)
unfolding place contains
place-Ascending a [] absent h = (tt, tt)
place-Ascending a (x ∷ xs) absent h =
    let rest = place-Ascending a xs (ground (arith, absent)) h.1 in
    placed a x xs (compare a x) refl (ground (arith, absent)) h rest

sorted-Ascending : (xs : List String) → NoRepeat xs → Ascending (sorted xs)
unfolding sorted
sorted-Ascending [] h = tt
sorted-Ascending (x ∷ xs) h =
    place-Ascending x (sorted xs) (contains-sorted x xs ∙ h.0) (sorted-Ascending xs h.1)

-- `sorted(set(xs))` is in strictly ascending order, and has the same texts.
pub sorted-from_keys-Ascending : (xs : List String) → Ascending (sorted (from_keys xs))
sorted-from_keys-Ascending xs = sorted-Ascending (from_keys xs) (from_keys-NoRepeat xs)

pub contains-sorted-from_keys :
    (b : String) (xs : List String) → contains (sorted (from_keys xs)) b ≡ contains xs b
contains-sorted-from_keys b xs = contains-sorted b (from_keys xs) ∙ contains-from_keys b xs
