-- ===== src/Sessions/Renewal.antt =====
-- A new session in place of an old one.
use local_plane.Prelude.{
  ℕ, ◌+◌, String, ◌≡◌, ◌∙◌, ◌≢◌, ap, none, some, str_eq, str_eq-ne, arith, eq_refl, eq_iff,
  if◌then◌else◌,
}
use local_plane.Prelude.Dict.{lookup, insert, remove, Distinct, lookup-insert}
use local_plane.Prelude.Dict.Keys
use local_plane.Sessions.{SessionStore, prune, session_lookup, revoke, create, create_session}
use local_plane.Sessions.Pruned.{alive, prune-Distinct, lookup-prune}

module _ (digest : String → String) (lifetime : ℕ) (now : ℕ) (old token : String) (s : SessionStore)
    (distinct : Distinct s) where
  renewed : SessionStore
  renewed = insert (digest token) (now + lifetime) (prune now (remove (digest old) s))

  renewed-Distinct : Distinct renewed
  unfolding renewed
  renewed-Distinct =
      Keys.Distinct-insert (digest token) (now + lifetime) _
        (prune-Distinct now _ (Keys.Distinct-remove (digest old) s distinct))

  lookup-renewed :
      (d : String)
      → lookup d renewed ≡ (
          if str_eq (digest token) d
          then some (now + lifetime)
          else alive now (if str_eq (digest old) d then none else lookup d s))
  unfolding renewed
  lookup-renewed d =
      lookup-insert (digest token) d (now + lifetime) _
      ∙ ap (λ x. if str_eq (digest token) d then some (now + lifetime) else x)
          (lookup-prune now d (remove (digest old) s) (Keys.Distinct-remove (digest old) s distinct)
            ∙ ap (alive now) (Keys.lookup-remove (digest old) d s distinct))

  -- Where a session replaces another, whose digest differs, the new token is accepted until its lifetime is
  -- over, the old one is not accepted at any time, and every other token is treated as it was before, up to
  -- what has expired.
  pub create_session-renews :
      (later : ℕ)
      → digest token ≢ digest old
      → let s' = (create_session digest lifetime (some old) now token s).1 in
        ((session_lookup digest later token s').0 ≡ alive later (some (now + lifetime)))
        × ((session_lookup digest later old s').0 ≡ none)
        × ((other : String)
            → digest other ≢ digest token
            → digest other ≢ digest old
            → (session_lookup digest later other s').0
              ≡ alive later (alive now (lookup (digest other) s)))
  unfolding create_session create session_lookup revoke renewed
  create_session-renews later ne =
      let new : lookup (digest token) renewed ≡ some (now + lifetime) =
        lookup-renewed (digest token) ∙ ground (arith, eq_refl (digest token)) in
      let gone : lookup (digest old) renewed ≡ none =
        lookup-renewed (digest old)
        ∙ ground (arith, str_eq-ne (digest token) (digest old) ne, eq_refl (digest old)) in
      (
        lookup-prune later (digest token) renewed renewed-Distinct ∙ ap (alive later) new,
        lookup-prune later (digest old) renewed renewed-Distinct ∙ ap (alive later) gone,
        λ other nt no.
            let kept : lookup (digest other) renewed ≡ alive now (lookup (digest other) s) =
              lookup-renewed (digest other)
              ∙ ground (
                arith,
                eq_iff (digest token) (digest other),
                eq_iff (digest old) (digest other),
              ) in
            lookup-prune later (digest other) renewed renewed-Distinct ∙ ap (alive later) kept,
      )
