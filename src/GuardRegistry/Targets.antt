-- ===== src/GuardRegistry/Targets.antt =====
-- Armed guards by their targets, and apart from the settled ones.
use local_plane.Prelude.{
  Bool-cases, inl, inr, ℕ, String, ◌≡◌, false, none, some, [], ◌∷◌, ℤ, int_eq, int_eq_iff, arith,
  str_eq, eq_iff,
}
use mathlib.Core.Path.{subst}
use local_plane.Prelude.Dict.{Dict, lookup, insert, remove, trim, Absent}
use local_plane.Prelude.Dict.Keys.{Absent-insert, Absent-trim}
use local_plane.GuardRegistry.{Guard, find_target}

int_eq_sym : (a b : ℤ) → int_eq a b ≡ false → int_eq b a ≡ false
int_eq_sym a b h = ground (arith, int_eq_iff a b, int_eq_iff b a)

module _ {M : Type 0} where
  -- No armed guard has the target.
  abbrev pub NoTarget : ℤ → Dict (Guard M) → Type 0
  NoTarget t [] = Unit
  NoTarget t ((id, g) ∷ d) = (int_eq g.ifindex t ≡ false) × NoTarget t d

  -- No two armed guards have one target.
  abbrev pub OneEach : Dict (Guard M) → Type 0
  OneEach [] = Unit
  OneEach ((id, g) ∷ d) = NoTarget g.ifindex d × OneEach d

  -- No armed guard's identifier is among the settled.
  abbrev pub Apart : Dict (Guard M) → Dict (Guard M) → Type 0
  Apart [] s = Unit
  Apart ((id, g) ∷ d) s = Absent id s × Apart d s

module _ {M : Type 0} where
  pub NoTarget-find : (t : ℤ) (d : Dict (Guard M)) → find_target t d ≡ none → NoTarget t d
  unfolding find_target
  NoTarget-find t [] h = tt
  NoTarget-find t ((id, g) ∷ d) h = (ground arith, NoTarget-find t d (ground arith))

  pub NoTarget-remove :
      (t : ℤ) (id : String) (d : Dict (Guard M)) → NoTarget t d → NoTarget t (remove id d)
  unfolding remove
  NoTarget-remove t id [] h = tt
  NoTarget-remove t id ((j, g) ∷ d) h = ground (arith, NoTarget-remove t id d h.1)

  pub OneEach-remove : (id : String) (d : Dict (Guard M)) → OneEach d → OneEach (remove id d)
  unfolding remove
  OneEach-remove id [] h = tt
  OneEach-remove id ((j, g) ∷ d) h =
      ground (arith, OneEach-remove id d h.1, NoTarget-remove g.ifindex id d h.0)

  pub NoTarget-insert :
      (t : ℤ) (id : String) (g : Guard M) (d : Dict (Guard M))
      → NoTarget t d
      → int_eq g.ifindex t ≡ false
      → NoTarget t (insert id g d)
  unfolding insert
  NoTarget-insert t id g [] h e = (e, tt)
  NoTarget-insert t id g ((j, w) ∷ d) h e = ground (arith, NoTarget-insert t id g d h.1 e)

  pub OneEach-insert :
      (id : String) (g : Guard M) (d : Dict (Guard M))
      → Absent id d
      → NoTarget g.ifindex d
      → OneEach d
      → OneEach (insert id g d)
  unfolding insert
  OneEach-insert id g [] a n h = (tt, tt)
  OneEach-insert id g ((j, w) ∷ d) a n h = rw (a.0) (
    NoTarget-insert w.ifindex id g d h.0 (int_eq_sym w.ifindex g.ifindex n.0),
    OneEach-insert id g d a.1 n.1 h.1,
  )

  pub Apart-remove : (id : String) (d s : Dict (Guard M)) → Apart d s → Apart (remove id d) s
  unfolding remove
  Apart-remove id [] s h = tt
  Apart-remove id ((j, g) ∷ d) s h = ground (arith, Apart-remove id d s h.1)

  pub Apart-insert :
      (id : String) (g : Guard M) (d s : Dict (Guard M))
      → Absent id s
      → Apart d s
      → Apart (insert id g d) s
  unfolding insert
  Apart-insert id g [] s a h = (a, tt)
  Apart-insert id g ((j, w) ∷ d) s a h = ground (arith, Apart-insert id g d s a h.1)

  -- A guard that has left the armed ones may join the settled ones.
  pub Apart-settle :
      (id : String) (g : Guard M) (bound : ℕ) (d s : Dict (Guard M))
      → Absent id d
      → Apart d s
      → Apart d (trim bound (insert id g s))
  Apart-settle id g bound [] s a h = tt
  Apart-settle id g bound ((j, w) ∷ d) s a h = (
    Absent-trim j bound (insert id g s)
        (Absent-insert j id g s h.0 (ground (arith, eq_iff id j, eq_iff j id, a.0))),
    Apart-settle id g bound d s a.1 h.1,
  )

  pub Apart-lookup :
      (id : String) (d s : Dict (Guard M)) {g : Guard M}
      → Apart d s
      → lookup id d ≡ some g
      → Absent id s
  unfolding lookup
  Apart-lookup id [] s h e = cc
  Apart-lookup id ((j, w) ∷ d) s {g} h e = elim (Bool-cases (str_eq j id)) [
    | inl same ↦ subst (λ x. Absent x s) ((eq_iff j id).0 same) h.0
    | inr other ↦ Apart-lookup id d s {g = g} h.1 (ground arith)
  ]
