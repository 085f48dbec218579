-- ===== src/Prelude/Dict.antt =====
-- Python's `dict` and `OrderedDict` with text keys: entries in the order of insertion.
pub mod Keys
use Prim.Native.Nat.{ℕ}
use Prim.Native.String.{String}
use mathlib.Core.Path.{◌≡◌, refl}
use mathlib.Core.Bool.{false}
use mathlib.Core.Option.{Option, none, some}
use mathlib.Core.List.{List, [], ◌∷◌}
use native.Mathlib.Omega.{arith}
use local_plane.Prelude.Tests.{if◌then◌else◌, ltb}
use local_plane.Prelude.Text.{str_eq, eq_iff, eq_refl}
use local_plane.Prelude.Lists.{length}

abbrev pub Dict {ℓ} : Type ℓ → Type ℓ
Dict V = List (String × V)

module _ {ℓ} {V : Type ℓ} where
  -- d.get(k)
  unfoldable pub lookup : String → Dict V → Option V
  lookup k [] = none
  lookup k ((j, v) ∷ d) = if str_eq j k then some v else lookup k d

  -- d[k] = v: in place where the key stands, else at the end
  unfoldable pub insert : String → V → Dict V → Dict V
  insert k v [] = (k, v) ∷ []
  insert k v ((j, w) ∷ d) = if str_eq j k then (j, v) ∷ d else (j, w) ∷ insert k v d

  -- d.pop(k, None)
  unfoldable pub remove : String → Dict V → Dict V
  remove k [] = []
  remove k ((j, v) ∷ d) = if str_eq j k then d else (j, v) ∷ remove k d

  -- d.popitem(last=False) of a dict that is not empty
  unfoldable pub pop_first : Dict V → Dict V
  pop_first [] = []
  pop_first (e ∷ d) = d

  -- The loop `while len(d) > bound: d.popitem(last=False)`.
  unfoldable pub trim : ℕ → Dict V → Dict V
  trim bound [] = []
  trim bound (e ∷ d) = let rest = trim bound d in if ltb bound (length (e ∷ d)) then rest else e ∷ d

  pub lookup-insert :
      (k j : String) (v : V) (d : Dict V)
      → lookup j (insert k v d) ≡ (if str_eq k j then some v else lookup j d)
  unfolding lookup insert
  lookup-insert k j v [] = refl
  lookup-insert k j v ((i, w) ∷ d) =
      ground (arith, eq_iff k j, eq_iff i k, eq_iff i j, lookup-insert k j v d)

  pub lookup-insert_self : (k : String) (v : V) (d : Dict V) → lookup k (insert k v d) ≡ some v
  lookup-insert_self k v d = simp (lookup-insert, eq_refl)

  -- No entry has the key.
  abbrev pub Absent : String → Dict V → Type 0
  Absent k [] = Unit
  Absent k ((j, v) ∷ d) = (str_eq j k ≡ false) × Absent k d

  -- No two entries have one key.
  abbrev pub Distinct : Dict V → Type 0
  Distinct [] = Unit
  Distinct ((j, v) ∷ d) = Absent j d × Distinct d
