-- ===== src/ManagementPath/Matching.antt =====
-- src/localplane/backend/domain/management_path.py and src/localplane/backend/domain/states.py: which observation is of a
-- connection, and which is recent.
use mathlib.Core.Path.{subst}
use local_plane.Prelude.{
  ℕ, ◌+◌, ◌≤◌, ◌≡◌, ◌↔◌, inl, inr, refl, ap, String, Bool, true, ◌&&◌, Option, none, some, leb,
  if◌then◌else◌, eq_iff, Bool-cases, arith,
}
use local_plane.ManagementPath.{TransportEvidence}
use local_plane.ManagementPath.Derive.{
  current, stale, derive_freshness, PathObservation, matches, is_optional, age_of, at_most,
}

-- The observation is of the request's host and of both ends of its connection.
abbrev pub OfConnection : PathObservation → TransportEvidence → String → Type 0
OfConnection o transport host_id =
    (o.host_id ≡ host_id)
    × (transport.peer_address ≡ some o.transport_peer_address)
    × (transport.local_address ≡ some o.local_endpoint_address)
    × (transport.peer_family ≡ some o.transport_peer_family)
    × (transport.local_family ≡ some o.local_endpoint_family)

is_optional_iff : (s : String) (t : Option String) → (is_optional s t ≡ true) ↔ (t ≡ some s)
is_optional_iff s none = (λ h. absurd (ground (arith, h)), λ h. absurd (ground (arith, h)))
is_optional_iff s (some t) =
    (λ h. ground (arith, h, eq_iff s t), λ h. ground (arith, h, eq_iff s t))

all_five :
    {A B C D E : Type 0} (a b c d e : Bool)
    → (a ≡ true) ↔ A
    → (b ≡ true) ↔ B
    → (c ≡ true) ↔ C
    → (d ≡ true) ↔ D
    → (e ≡ true) ↔ E
    → ((a && b && c && d && e) ≡ true) ↔ (A × B × C × D × E)
all_five a b c d e ha hb hc hd he = (
  λ h. (
    ha.0 (ground (arith, h)),
    hb.0 (ground (arith, h)),
    hc.0 (ground (arith, h)),
    hd.0 (ground (arith, h)),
    he.0 (ground (arith, h)),
  ),
  λ h. ground (arith, ha.1 h.0, hb.1 h.1, hc.1 h.2, hd.1 h.3, he.1 h.4),
)

pub matches-OfConnection_iff :
    (o : PathObservation) (transport : TransportEvidence) (host_id : String)
    → (matches o transport host_id ≡ true) ↔ OfConnection o transport host_id
unfolding matches
matches-OfConnection_iff o transport host_id =
    all_five _ _ _ _ _ (eq_iff o.host_id host_id)
      (is_optional_iff o.transport_peer_address transport.peer_address)
      (is_optional_iff o.local_endpoint_address transport.local_address)
      (is_optional_iff o.transport_peer_family transport.peer_family)
      (is_optional_iff o.local_endpoint_family transport.local_family)

-- The observation was made at a moment no longer ago than the time it stays good.
abbrev pub IsRecent : Option ℕ → ℕ → ℕ → Type 0
IsRecent moment ttl now = (seen : ℕ) × (moment ≡ some seen) × (now ≤ seen + ttl)

at_most-age_of : (seen now ttl : ℕ) → (at_most (age_of now seen) ttl ≡ true) ↔ (now ≤ seen + ttl)
at_most-age_of seen now ttl = elim (Bool-cases (leb seen now)) [
  | inl e ↦ (λ h. ground (arith, h, e), λ h. ground (arith, h, e))
  | inr e ↦ (λ h. ground (arith, h, e), λ h. ground (arith, h, e))
]

aged : (b : Bool) → (if b then current else stale) ≡ current → b ≡ true
aged b h = ground (arith, h)

pub derive_freshness-IsRecent_iff :
    (moment : Option ℕ) (ttl now : ℕ)
    → ((derive_freshness moment ttl now).0 ≡ current) ↔ IsRecent moment ttl now
unfolding derive_freshness
derive_freshness-IsRecent_iff none ttl now =
    (λ h. absurd (ground (arith, h)), λ h. absurd (ground (arith, h.1)))
derive_freshness-IsRecent_iff (some seen) ttl now =
    let (to, from) = at_most-age_of seen now ttl in
    (
      λ h. (seen, refl, to (aged (at_most (age_of now seen) ttl) h)),
      λ h.
          let (seen', same, recent) = h in
          let one : seen' ≡ seen = ground (arith, same) in
          ap (λ b. if b then current else stale) (from (subst (λ m. now ≤ m + ttl) one recent)),
    )
