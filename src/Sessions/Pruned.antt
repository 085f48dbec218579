-- ===== src/Sessions/Pruned.antt =====
-- What pruning leaves of a store.
use local_plane.Prelude.{
  ℕ, String, ◌≡◌, refl, inl, inr, Option, none, some, [], ◌∷◌, leb, arith, Bool-cases, eq_iff,
  if◌then◌else◌,
}
use local_plane.Prelude.Dict.{lookup, Absent, Distinct}
use local_plane.Prelude.Dict.Keys
use local_plane.Sessions.{SessionStore, prune}

-- A session's moment of expiry, if it is still to come.
abbrev pub alive : ℕ → Option ℕ → Option ℕ
alive now none = none
alive now (some expiry) = if leb expiry now then none else some expiry

pub prune-Absent : (now : ℕ) (k : String) (s : SessionStore) → Absent k s → Absent k (prune now s)
unfolding prune
prune-Absent now k [] h = tt
prune-Absent now k ((d, expiry) ∷ s) h = elim (Bool-cases (leb expiry now)) [
  | inl past ↦ rw past (prune-Absent now k s h.1)
  | inr future ↦ rw future (h.0, prune-Absent now k s h.1)
]

pub prune-Distinct : (now : ℕ) (s : SessionStore) → Distinct s → Distinct (prune now s)
unfolding prune
prune-Distinct now [] h = tt
prune-Distinct now ((d, expiry) ∷ s) h = elim (Bool-cases (leb expiry now)) [
  | inl past ↦ rw past (prune-Distinct now s h.1)
  | inr future ↦ rw future (prune-Absent now d s h.0, prune-Distinct now s h.1)
]

pub lookup-prune :
    (now : ℕ) (k : String) (s : SessionStore)
    → Distinct s
    → lookup k (prune now s) ≡ alive now (lookup k s)
unfolding prune lookup
lookup-prune now k [] h = refl
lookup-prune now k ((d, expiry) ∷ s) h = ground (
  arith,
  lookup-prune now k s h.1,
  Keys.lookup-Absent d s h.0,
  Keys.lookup-Absent d (prune now s) (prune-Absent now d s h.0),
  eq_iff d k,
)
