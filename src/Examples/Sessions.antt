-- ===== src/Examples/Sessions.antt =====
-- src/localplane/backend/auth.py: a store whose digest puts a mark before the token.
use local_plane.Prelude.{◌<◌, String, ◌≡◌, refl, some, none, List, [], ◌∷◌, arith}
use local_plane.Prelude.Dict.{lookup, insert, remove}
use local_plane.Sessions.{
  SessionStore, prune, session_lookup, revoke, create, Call, create_call, lookup_call, revoke_call,
  serve, serve_all,
}
use local_plane.Sessions.Pruned.{alive}
use local_plane.Sessions.Granted.{granted, session_lookup-granted, session_lookup-accepts}

abbrev digest : String → String
digest token = String.◌∷◌ "h" token

abbrev history : List Call
history = create_call 5 "t1" ∷ create_call 7 "t2" ∷ lookup_call 8 "t1" ∷ revoke_call "t2" ∷ []

abbrev sessions : SessionStore
sessions = (digest "t1", 105) ∷ (digest "t3", 90) ∷ []

t1_found : (session_lookup digest 20 "t1" (serve_all digest 100 history [])).0 ≡ some 105
unfolding session_lookup serve_all serve create revoke prune lookup insert remove
t1_found = refl

session_lookup-granted_example :
    (session_lookup digest 20 "t1" (serve_all digest 100 history [])).0
    ≡ alive 20 (granted digest 100 (digest "t1") history none)
session_lookup-granted_example =
    session_lookup-granted digest 100 history 20 "t1"
      (omega arith, (omega arith, (omega arith, (tt, tt))))

session_lookup-accepts_example :
    (20 < 105) × (granted digest 100 (digest "t1") history none ≡ some 105)
session_lookup-accepts_example = session_lookup-accepts digest 100 history 20 105 "t1" t1_found
