-- ===== src/GuardRegistry/Cancelled.antt =====
-- Cancelling the timers keeps the identifiers and the targets of the armed guards.
use local_plane.Prelude.{String, Option, none, some, [], ◌∷◌, ℤ, ◌≡◌, false, refl, arith}
use local_plane.Prelude.Dict.{Dict, lookup, Absent, Distinct}
use local_plane.GuardRegistry.{Guard}
use local_plane.GuardRegistry.Targets.{NoTarget, OneEach, Apart}
use local_plane.GuardRegistry.Handlers.{cancelled}

module _ {M : Type 0} where
  pub cancelled-Absent : (k : String) (d : Dict (Guard M)) → Absent k d → Absent k (cancelled d)
  cancelled-Absent k [] h = tt
  cancelled-Absent k ((id, g) ∷ d) h = (h.0, cancelled-Absent k d h.1)

  pub cancelled-Distinct : (d : Dict (Guard M)) → Distinct d → Distinct (cancelled d)
  cancelled-Distinct [] h = tt
  cancelled-Distinct ((id, g) ∷ d) h = (cancelled-Absent id d h.0, cancelled-Distinct d h.1)

  pub cancelled-NoTarget : (t : ℤ) (d : Dict (Guard M)) → NoTarget t d → NoTarget t (cancelled d)
  cancelled-NoTarget t [] h = tt
  cancelled-NoTarget t ((id, g) ∷ d) h = (h.0, cancelled-NoTarget t d h.1)

  pub cancelled-OneEach : (d : Dict (Guard M)) → OneEach d → OneEach (cancelled d)
  cancelled-OneEach [] h = tt
  cancelled-OneEach ((id, g) ∷ d) h = (cancelled-NoTarget g.ifindex d h.0, cancelled-OneEach d h.1)

  pub cancelled-Apart : (d s : Dict (Guard M)) → Apart d s → Apart (cancelled d) s
  cancelled-Apart [] s h = tt
  cancelled-Apart ((id, g) ∷ d) s h = (h.0, cancelled-Apart d s h.1)

  abbrev pub unwatched : Option (Guard M) → Option (Guard M)
  unwatched none = none
  unwatched (some g) = some (record g { timer = false })

  pub lookup-cancelled :
      (k : String) (d : Dict (Guard M)) → lookup k (cancelled d) ≡ unwatched (lookup k d)
  unfolding lookup
  lookup-cancelled k [] = refl
  lookup-cancelled k ((j, g) ∷ d) = ground (arith, lookup-cancelled k d)
