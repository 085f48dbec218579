-- ===== src/Sessions/Granted.antt =====
-- What a lookup answers, against the history of the calls.
use local_plane.Prelude.{
  ℕ, ◌+◌, ◌≤◌, ◌<◌, String, ◌≡◌, refl, sym, ◌∙◌, ap, ◌⊎◌, inl, Option, none, some, List, [], ◌∷◌,
  str_eq, arith, All, if◌then◌else◌,
}
use local_plane.Prelude.Dict.{lookup, Distinct, lookup-insert}
use mathlib.Core.Path.{subst}
use local_plane.Prelude.Dict.Keys
use local_plane.Sessions.{
  SessionStore, prune, session_lookup, revoke, create, Call, create_call, lookup_call, revoke_call,
  serve, serve_all,
}
use local_plane.Sessions.Pruned.{alive, prune-Distinct, lookup-prune}

-- The expiry that was last granted to a token's digest and has not been revoked since, with no store and no
-- pruning: from what was granted before the calls.
abbrev pub granted_by : (String → String) → ℕ → String → Call → Option ℕ → Option ℕ
granted_by digest lifetime d (create_call now token) before =
    if str_eq (digest token) d then some (now + lifetime) else before
granted_by digest lifetime d (lookup_call now token) before = before
granted_by digest lifetime d (revoke_call token) before =
    if str_eq (digest token) d then none else before

abbrev pub granted : (String → String) → ℕ → String → List Call → Option ℕ → Option ℕ
granted digest lifetime d [] before = before
granted digest lifetime d (c ∷ cs) before =
    granted digest lifetime d cs (granted_by digest lifetime d c before)

-- The clock had not passed the moment at the call.
abbrev pub NotAfter : ℕ → Call → Type 0
NotAfter now (create_call at token) = at ≤ now
NotAfter now (lookup_call at token) = at ≤ now
NotAfter now (revoke_call token) = Unit

module _ (digest : String → String) (lifetime : ℕ) where
  serve-Distinct : (c : Call) (s : SessionStore) → Distinct s → Distinct (serve digest lifetime c s)
  unfolding serve create session_lookup revoke
  serve-Distinct (create_call now token) s h =
      Keys.Distinct-insert (digest token) (now + lifetime) (prune now s) (prune-Distinct now s h)
  serve-Distinct (lookup_call now token) s h = prune-Distinct now s h
  serve-Distinct (revoke_call token) s h = Keys.Distinct-remove (digest token) s h

  -- What the store holds under a digest after a call.
  held_after : String → Call → Option ℕ → Option ℕ
  held_after d (create_call now token) held =
      if str_eq (digest token) d then some (now + lifetime) else alive now held
  held_after d (lookup_call now token) held = alive now held
  held_after d (revoke_call token) held = if str_eq (digest token) d then none else held

  lookup-serve :
      (d : String) (c : Call) (s : SessionStore)
      → Distinct s
      → lookup d (serve digest lifetime c s) ≡ held_after d c (lookup d s)
  unfolding serve create session_lookup revoke held_after
  lookup-serve d (create_call now token) s h =
      lookup-insert (digest token) d (now + lifetime) (prune now s)
      ∙ ap (λ x. if str_eq (digest token) d then some (now + lifetime) else x)
          (lookup-prune now d s h)
  lookup-serve d (lookup_call now token) s h = lookup-prune now d s h
  lookup-serve d (revoke_call token) s h = Keys.lookup-remove (digest token) d s h

  -- At a moment that the clock has not passed, pruning makes no difference.
  held_after-alive :
      (now : ℕ) (d : String) (c : Call) (held before : Option ℕ)
      → NotAfter now c
      → alive now held ≡ alive now before
      → alive now (held_after d c held) ≡ alive now (granted_by digest lifetime d c before)
  unfolding held_after
  held_after-alive now d (create_call at token) held before le e = ground arith
  held_after-alive now d (lookup_call at token) held before le e = ground arith
  held_after-alive now d (revoke_call token) held before le e = ground arith

  -- A store holds nothing but what was granted.
  held_after-granted :
      (d : String) (c : Call) (held before : Option ℕ)
      → (held ≡ none) ⊎ (held ≡ before)
      → (held_after d c held ≡ none) ⊎ (held_after d c held ≡ granted_by digest lifetime d c before)
  unfolding held_after
  held_after-granted d (create_call at token) held before e = ground arith
  held_after-granted d (lookup_call at token) held before e = ground arith
  held_after-granted d (revoke_call token) held before e = ground arith

  alive-serve_all :
      (now : ℕ) (d : String) (cs : List Call) (s : SessionStore) (before : Option ℕ)
      → Distinct s
      → All (NotAfter now) cs
      → alive now (lookup d s) ≡ alive now before
      → alive now (lookup d (serve_all digest lifetime cs s))
        ≡ alive now (granted digest lifetime d cs before)
  unfolding serve_all
  alive-serve_all now d [] s before h a e = e
  alive-serve_all now d (c ∷ cs) s before h a e =
      alive-serve_all now d cs (serve digest lifetime c s) _ (serve-Distinct c s h) a.1
        (ap (alive now) (lookup-serve d c s h) ∙ held_after-alive now d c (lookup d s) before a.0 e)

  granted-serve_all :
      (d : String) (cs : List Call) (s : SessionStore) (before : Option ℕ)
      → Distinct s
      → (lookup d s ≡ none) ⊎ (lookup d s ≡ before)
      → (lookup d (serve_all digest lifetime cs s) ≡ none)
        ⊎ (lookup d (serve_all digest lifetime cs s) ≡ granted digest lifetime d cs before)
  unfolding serve_all
  granted-serve_all d [] s before h e = e
  granted-serve_all d (c ∷ cs) s before h e =
      granted-serve_all d cs (serve digest lifetime c s) _ (serve-Distinct c s h) (
        subst (λ x. (x ≡ none) ⊎ (x ≡ granted_by digest lifetime d c before))
          (sym (lookup-serve d c s h)) (held_after-granted d c (lookup d s) before e))

  serve_all-Distinct :
      (cs : List Call) (s : SessionStore) → Distinct s → Distinct (serve_all digest lifetime cs s)
  unfolding serve_all
  serve_all-Distinct [] s h = h
  serve_all-Distinct (c ∷ cs) s h =
      serve_all-Distinct cs (serve digest lifetime c s) (serve-Distinct c s h)

  -- After any calls, at a moment that the clock had not passed in any of them, a lookup answers with the
  -- expiry that was last granted to the token's digest and not revoked since, if it is still to come, and
  -- with nothing otherwise.
  pub session_lookup-granted :
      (cs : List Call) (now : ℕ) (token : String)
      → All (NotAfter now) cs
      → (session_lookup digest now token (serve_all digest lifetime cs [])).0
        ≡ alive now (granted digest lifetime (digest token) cs none)
  unfolding session_lookup
  session_lookup-granted cs now token a =
      lookup-prune now (digest token) (serve_all digest lifetime cs [])
        (serve_all-Distinct cs [] tt)
      ∙ alive-serve_all now (digest token) cs [] none tt a (unfold lookup in refl)

  -- After any calls, whatever the clock did, a token is accepted only with the expiry that was last granted
  -- to its digest and not revoked since, and only before that moment.
  pub session_lookup-accepts :
      (cs : List Call) (now expiry : ℕ) (token : String)
      → (session_lookup digest now token (serve_all digest lifetime cs [])).0 ≡ some expiry
      → (now < expiry) × (granted digest lifetime (digest token) cs none ≡ some expiry)
  unfolding session_lookup
  session_lookup-accepts cs now expiry token h =
      let s = serve_all digest lifetime cs [] in
      let live = sym (lookup-prune now (digest token) s (serve_all-Distinct cs [] tt)) ∙ h in
      let known = granted-serve_all (digest token) cs [] none tt (unfold lookup in inl refl) in
      accepted (lookup (digest token) s) _ live known
    where
      accepted :
          (held given : Option ℕ)
          → alive now held ≡ some expiry
          → (held ≡ none) ⊎ (held ≡ given)
          → (now < expiry) × (given ≡ some expiry)
      accepted held given live known = (ground arith, ground arith)
