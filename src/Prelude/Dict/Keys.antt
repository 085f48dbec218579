-- ===== src/Prelude/Dict/Keys.antt =====
-- Which keys a dictionary has, how long it grows, and what holds of all of its entries.
use Prim.Native.Nat.{ℕ, suc, ◌≤◌, ◌+◌}
use Prim.Native.String.{String}
use mathlib.Core.Path.{◌≡◌, refl, subst}
use mathlib.Core.Logic.{◌⊎◌, inl, inr}
use mathlib.Core.Bool.{true, false}
use mathlib.Core.Option.{none, some}
use mathlib.Core.List.{[], ◌∷◌}
use native.Mathlib.Omega.{arith}
use local_plane.Prelude.Tests.{if◌then◌else◌, ltb, Bool-cases}
use local_plane.Prelude.Text.{str_eq, eq_iff, eq_refl}
use local_plane.Prelude.Lists.{length, All}
use local_plane.Prelude.Dict.{
  Dict, lookup, insert, remove, trim, lookup-insert_self, Absent, Distinct,
}

module _ {ℓ} {V : Type ℓ} where
  pub lookup-Absent : (k : String) (d : Dict V) → Absent k d → lookup k d ≡ none
  unfolding lookup
  lookup-Absent k [] h = refl
  lookup-Absent k ((j, v) ∷ d) h = rw (h.0) (lookup-Absent k d h.1)

  pub Absent-lookup : (k : String) (d : Dict V) → lookup k d ≡ none → Absent k d
  unfolding lookup
  Absent-lookup k [] h = tt
  Absent-lookup k ((j, v) ∷ d) h = (ground arith, Absent-lookup k d (ground arith))

  pub Absent-insert :
      (k j : String) (v : V) (d : Dict V)
      → Absent k d
      → str_eq j k ≡ false
      → Absent k (insert j v d)
  unfolding insert
  Absent-insert k j v [] h e = (e, tt)
  Absent-insert k j v ((i, w) ∷ d) h e = ground (arith, Absent-insert k j v d h.1 e)

  pub Absent-remove : (k j : String) (d : Dict V) → Absent k d → Absent k (remove j d)
  unfolding remove
  Absent-remove k j [] h = tt
  Absent-remove k j ((i, w) ∷ d) h = ground (arith, Absent-remove k j d h.1)

  Absent-eq : (k j : String) (d : Dict V) → str_eq j k ≡ true → Absent j d → Absent k d
  Absent-eq k j [] e h = tt
  Absent-eq k j ((i, w) ∷ d) e h =
      (ground (arith, eq_iff j k, eq_iff i j, eq_iff i k, h.0), Absent-eq k j d e h.1)

  pub remove-Absent_self : (k : String) (d : Dict V) → Distinct d → Absent k (remove k d)
  unfolding remove
  remove-Absent_self k [] h = tt
  remove-Absent_self k ((j, v) ∷ d) h = elim (Bool-cases (str_eq j k)) [
    | inl same ↦ rw same (Absent-eq k j d same h.0)
    | inr other ↦ rw other (other, remove-Absent_self k d h.1)
  ]

  pub Distinct-remove : (k : String) (d : Dict V) → Distinct d → Distinct (remove k d)
  unfolding remove
  Distinct-remove k [] h = tt
  Distinct-remove k ((j, v) ∷ d) h =
      ground (arith, Distinct-remove k d h.1, Absent-remove j k d h.0)

  pub Distinct-insert : (k : String) (v : V) (d : Dict V) → Distinct d → Distinct (insert k v d)
  unfolding insert
  Distinct-insert k v [] h = (tt, tt)
  Distinct-insert k v ((j, w) ∷ d) h =
      ground (arith, Distinct-insert k v d h.1, Absent-insert j k v d h.0, eq_iff j k, eq_iff k j)

  pub lookup-remove :
      (k j : String) (d : Dict V)
      → Distinct d
      → lookup j (remove k d) ≡ (if str_eq k j then none else lookup j d)
  unfolding lookup remove
  lookup-remove k j [] h = ground arith
  lookup-remove k j ((i, w) ∷ d) h =
      ground
        (arith, lookup-remove k j d h.1, eq_iff k j, eq_iff i k, eq_iff i j, lookup-Absent i d h.0)

  pub length-insert : (k : String) (v : V) (d : Dict V) → length (insert k v d) ≤ length d + 1
  unfolding insert
  length-insert k v [] = omega arith
  length-insert k v ((j, w) ∷ d) = ground (arith, length-insert k v d)

  pub length-trim : (bound : ℕ) (d : Dict V) → length (trim bound d) ≤ bound
  unfolding trim
  length-trim bound [] = omega arith
  length-trim bound (e ∷ d) = ground (arith, length-trim bound d)

  pub trim_fits : (bound : ℕ) (d : Dict V) → length d ≤ bound → trim bound d ≡ d
  unfolding trim
  trim_fits bound [] h = refl
  trim_fits bound (e ∷ d) h = ground arith

  pub Absent-trim : (k : String) (bound : ℕ) (d : Dict V) → Absent k d → Absent k (trim bound d)
  unfolding trim
  Absent-trim k bound [] h = tt
  Absent-trim k bound ((j, v) ∷ d) h = ground (arith, Absent-trim k bound d h.1)

  pub Distinct-trim : (bound : ℕ) (d : Dict V) → Distinct d → Distinct (trim bound d)
  unfolding trim
  Distinct-trim bound [] h = tt
  Distinct-trim bound ((j, v) ∷ d) h = ground (arith, Distinct-trim bound d h.1)

module _ {ℓ} {V : Type ℓ} where
  -- The newest entry outlives the trimming.
  pub lookup-trim-insert :
      (k : String) (v : V) (bound : ℕ) (d : Dict V)
      → Absent k d
      → lookup k (trim (suc bound) (insert k v d)) ≡ some v
  unfolding lookup trim insert
  lookup-trim-insert k v bound [] h = ground (arith, eq_refl k)
  lookup-trim-insert k v bound ((j, w) ∷ d) h =
      ground (arith, h.0, lookup-trim-insert k v bound d h.1, lookup-insert_self k v d)

-- A property of entries, under each operation.
module _ {ℓ κ} {V : Type ℓ} (P : String × V → Type κ) where
  pub All-insert : (k : String) (v : V) (d : Dict V) → P (k, v) → All P d → All P (insert k v d)
  unfolding insert
  All-insert k v [] p h = (p, tt)
  All-insert k v ((j, w) ∷ d) p h = elim (Bool-cases (str_eq j k)) [
    | inl same ↦ rw same (rw ((eq_iff j k).0 same) p, h.1)
    | inr other ↦ rw other (h.0, All-insert k v d p h.1)
  ]

  pub All-remove : (k : String) (d : Dict V) → All P d → All P (remove k d)
  unfolding remove
  All-remove k [] h = tt
  All-remove k ((j, w) ∷ d) h = elim (Bool-cases (str_eq j k)) [
    | inl same ↦ rw same h.1
    | inr other ↦ rw other (h.0, All-remove k d h.1)
  ]

  pub All-trim : (bound : ℕ) (d : Dict V) → All P d → All P (trim bound d)
  unfolding trim
  All-trim bound [] h = tt
  All-trim bound (e ∷ d) h = elim (Bool-cases (ltb bound (length (e ∷ d)))) [
    | inl over ↦ rw over (All-trim bound d h.1)
    | inr fits ↦ rw fits h
  ]

  pub All-lookup : (k : String) (d : Dict V) {v : V} → All P d → lookup k d ≡ some v → P (k, v)
  unfolding lookup
  All-lookup k [] h e = cc
  All-lookup k ((j, w) ∷ d) {v} h e = elim (Bool-cases (str_eq j k)) [
    | inl same ↦
        let found : w ≡ v = ground arith in
        subst (λ x. P (x, v)) ((eq_iff j k).0 same) (subst (λ x. P (j, x)) found h.0)
    | inr other ↦ All-lookup k d h.1 (ground arith)
  ]

module _ {ℓ} {V : Type ℓ} where
  -- Trimming forgets entries whole.
  pub lookup-trim :
      (k : String) (bound : ℕ) (d : Dict V)
      → Distinct d
      → (lookup k (trim bound d) ≡ none) ⊎ (lookup k (trim bound d) ≡ lookup k d)
  unfolding lookup trim
  lookup-trim k bound [] h = inl refl
  lookup-trim k bound ((j, v) ∷ d) h = elim (Bool-cases (ltb bound (length ((j, v) ∷ d)))) [
    | inr fits ↦ inr (rw fits refl)
    | inl over ↦ elim (Bool-cases (str_eq j k)) [
      | inl same ↦ inl (
          rw over
            (lookup-Absent k (trim bound d) (Absent-trim k bound d (Absent-eq k j d same h.0))))
      | inr other ↦ rw over (rw other (lookup-trim k bound d h.1))
    ]
  ]
