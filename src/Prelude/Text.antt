-- ===== src/Prelude/Text.antt =====
-- Equality of texts, and lists of texts as the program uses them for codes and names.
use Prim.Native.Nat.{Ordering}
use Prim.Native.String.{String, compare}
use mathlib.Core.Path.{◌≡◌}
use mathlib.Core.Logic.{◌≢◌}
use mathlib.Core.Bool.{Bool, true, false, ◌||◌}
use mathlib.Core.List.{List, [], ◌∷◌}
pub use text.Mathlib.TextEquality.{eq_iff}
pub use text.Mathlib.TextPositions.{eq_refl}
pub use text.Mathlib.Text.{◌==◌ as str_eq}
use native.Mathlib.Omega.{arith}
use local_plane.Prelude.Tests.{if◌then◌else◌}

pub str_eq-ne : (s t : String) → s ≢ t → str_eq s t ≡ false
str_eq-ne s t h = ground (arith, eq_iff s t)

-- `name in names`
unfoldable pub contains : List String → String → Bool
contains [] a = false
contains (x ∷ xs) a = str_eq x a || contains xs a

unfoldable pub without : String → List String → List String
without a [] = []
without a (x ∷ xs) = let rest = without a xs in if str_eq x a then rest else x ∷ rest

-- `tuple(dict.fromkeys(names))`: the first occurrence of each name, in order
unfoldable pub from_keys : List String → List String
unfolding without
from_keys [] = []
from_keys (x ∷ xs) = x ∷ without x (from_keys xs)

-- Texts are compared by code points, as their bytes are.
abbrev pub text_le : String → String → Bool
text_le s t = elim (compare s t) [ Ordering.gt ↦ false | _ ↦ true ]

unfoldable pub place : String → List String → List String
place a [] = a ∷ []
place a (x ∷ xs) = if text_le a x then a ∷ x ∷ xs else x ∷ place a xs

-- `sorted(names)`
unfoldable pub sorted : List String → List String
unfolding place
sorted [] = []
sorted (x ∷ xs) = place x (sorted xs)

-- `name.endswith(suffix)`
unfoldable pub ends_with : String → String → Bool
ends_with String.[] suffix = str_eq "" suffix
ends_with (String.◌∷◌ c s) suffix = str_eq (String.◌∷◌ c s) suffix || ends_with s suffix
