-- ===== src/Sessions.antt =====
-- src/localplane/backend/auth.py: the browser sessions, which are kept under the digests of their tokens.
-- Every method runs under the store's lock, so that threads are a sequence of calls (`Call`). Moments are
-- microseconds; a clock that is not aware, and the error that it raises, are left out. The digest (SHA-256),
-- the lifetime, the clock's readings and the random tokens are parameters.
pub mod Pruned
pub mod Granted
pub mod Renewal
use local_plane.Prelude.{
  ℕ, ◌+◌, String, Bool, true, false, Option, none, some, List, [], ◌∷◌, leb, str_eq, if◌then◌else◌,
}
use local_plane.Prelude.Dict.{Dict, lookup, insert, remove}

-- Digests to the moments at which their sessions expire.
abbrev pub SessionStore : Type 0
SessionStore = Dict ℕ

-- `_prune_locked`
unfoldable pub prune : ℕ → SessionStore → SessionStore
prune now [] = []
prune now ((digest, expiry) ∷ s) =
    let rest = prune now s in if leb expiry now then rest else (digest, expiry) ∷ rest

abbrev pub is_some {ℓ} : {A : Type ℓ} → Option A → Bool
is_some none = false
is_some (some a) = true

module _ (digest : String → String) where
  -- `SessionStore.lookup`
  unfoldable pub session_lookup : ℕ → String → SessionStore → Option ℕ × SessionStore
  session_lookup now token s = (lookup (digest token) (prune now s), prune now s)

  -- `SessionStore.revoke`
  unfoldable pub revoke : String → SessionStore → Bool × SessionStore
  revoke token s = (is_some (lookup (digest token) s), remove (digest token) s)

module _ (digest : String → String) (lifetime : ℕ) where
  -- `SessionStore.create`
  unfoldable pub create : ℕ → String → SessionStore → ℕ × SessionStore
  create now token s = (now + lifetime, insert (digest token) (now + lifetime) (prune now s))

  -- `Authentication.create_session`
  unfoldable pub create_session : Option String → ℕ → String → SessionStore → ℕ × SessionStore
  create_session none now token s = create now token s
  create_session (some existing) now token s = create now token (revoke digest existing s).1

-- One call on the store, with the moment at which the clock is read.
pub data Call : Type 0 where
  create_call lookup_call : ℕ → String → Call
  revoke_call : String → Call

module _ (digest : String → String) (lifetime : ℕ) where
  unfoldable pub serve : Call → SessionStore → SessionStore
  serve (create_call now token) s = (create digest lifetime now token s).1
  serve (lookup_call now token) s = (session_lookup digest now token s).1
  serve (revoke_call token) s = (revoke digest token s).1

  unfoldable pub serve_all : List Call → SessionStore → SessionStore
  serve_all [] s = s
  serve_all (c ∷ cs) s = serve_all cs (serve c s)
