-- ===== src/Engine/Reach.antt =====
-- src/localplane/backend/changes.py: the moments that a run can be at, by the operations asked of the engine one
-- after another, each of which is carried out, refused, or cut short by the death of the process. Operations that
-- overlap are not among them, and neither are the calls that a recovery makes of the host; what both do to the run's
-- lock is.
use local_plane.Prelude.{
  String, arith, ◌≡◌, refl, Bool, true, Option, none, some, List, [], ◌∷◌, ◌++◌, All, ◌≢◌, ◌⊎◌, inl,
  inr, sym,
}
use mathlib.Core.Path.{subst}
use local_plane.Protection.{ManagementPathRelation}
use local_plane.Engine.{
  RunEvent, Preview, ChangeRow, Lock, held_here, Store, HostCall, Moment, Executor, Replanned,
}
use local_plane.Engine.Actions.{World, Engine}
use local_plane.Engine.Steps.{released}
use local_plane.Engine.Apply.{apply}
use local_plane.Engine.Held.{guard_keep}
use local_plane.Engine.Restart.{restart}
use local_plane.Engine.Confirm.{ConfirmRequest, confirm, grant_self_impact_override}
use local_plane.Engine.Logic.{Holds, Keeps}
use local_plane.Engine.Safe.{Safe, SafeBy, is_before}
use local_plane.Engine.Safe.Run.{Anywhere, apply-Keeps}
use local_plane.Engine.Safe.Kept.{guard_keep-Keeps}
use local_plane.Engine.Safe.Interrupted.{restart-Keeps}
use local_plane.Engine.Safe.Confirmed.{confirm-Keeps, grant-Keeps}

-- What is asked, and how the host behaves meanwhile.
pub data Ask : Type 0 where
  ask_confirm : Executor → ConfirmRequest → String → Replanned → Ask
  ask_override : Executor → ConfirmRequest → Replanned → Ask
  ask_apply : Executor → Replanned → Ask
  ask_keep : Executor → Bool → ManagementPathRelation → Ask
  ask_restart : Executor → Ask

abbrev pub perform : Preview → Ask → Engine (Unit {0})
perform p (ask_confirm x request name plan) = confirm p x request name plan
perform p (ask_override x request plan) = grant_self_impact_override p x request plan
perform p (ask_apply x plan) = apply p x plan
perform p (ask_keep x acknowledge relation) = guard_keep p x acknowledge relation
perform p (ask_restart x) = restart p x

abbrev pub from : Moment → World
from m = record { now = m; past = [] }

abbrev pub Among : Moment → List Moment → Type 0
Among n [] = ⊥
Among n (m ∷ ms) = (n ≡ m) ⊎ Among n ms

-- A run starts with its plan published and nothing done. Other runs may take the lock and give it back.
pub data Reachable (p : Preview) : Moment → Type 0 where
  planned :
      (s : Store)
      → s.change ≡ none
      → is_before s.state ≡ true
      → Reachable p (record { store = s; calls = [] })
  performed : (m : Moment) (a : Ask) → Reachable p m → Reachable p (perform p a (from m)).1.now
  cut_short :
      (m : Moment) (a : Ask) (n : Moment)
      → Reachable p m
      → Among n (perform p a (from m)).1.past
      → Reachable p n
  others :
      (m : Moment) (l : Lock)
      → Reachable p m
      → m.store.lock ≢ held_here
      → l ≢ held_here
      → Reachable p (record m { store = record m.store { lock = l } })
  -- The run's lock is given back by another operation: a second apply of the run that overlaps and is refused, or
  -- the retry or the resolution of a recovery. They record events, and leave the change and the run's state.
  given_back :
      (m : Moment) (es : List RunEvent)
      → Reachable p m
      → Reachable p (record m {
        store = record m.store {
          lock = released m.store.lock;
          events = es ++ m.store.events;
          lock_given_back = true;
        };
      })

perform-Keeps : (p : Preview) (a : Ask) → Keeps Safe Anywhere (perform p a) (λ u. Anywhere)
perform-Keeps p (ask_confirm x request name plan) = confirm-Keeps p x request name plan
perform-Keeps p (ask_override x request plan) = grant-Keeps p x request plan
perform-Keeps p (ask_apply x plan) = apply-Keeps p x plan
perform-Keeps p (ask_keep x acknowledge relation) = guard_keep-Keeps p x acknowledge relation
perform-Keeps p (ask_restart x) = restart-Keeps p x

performed-Safe : (p : Preview) (a : Ask) (m : Moment) → Safe m → Holds Safe (perform p a (from m)).1
performed-Safe p a m i = ((perform-Keeps p a).run (from m) (i, tt) tt).0

among_safe : (n : Moment) (ms : List Moment) → All Safe ms → Among n ms → Safe n
among_safe n [] h a = absurd a
among_safe n (m ∷ ms) h (inl e) = subst Safe (sym e) h.0
among_safe n (m ∷ ms) h (inr a) = among_safe n ms h.1 a

planned-Safe :
    (s : Store) (o : Option ChangeRow) → o ≡ none → is_before s.state ≡ true → SafeBy o s []
planned-Safe s none e b = (refl, refl, refl, b)
planned-Safe s (some c) e b = absurd (ground (arith, e))

others-Safe :
    (s : Store) (calls : List HostCall) (l : Lock) (o : Option ChangeRow)
    → s.lock ≢ held_here
    → SafeBy o s calls
    → SafeBy o (record s { lock = l }) calls
others-Safe s calls l none n i = i
others-Safe s calls l (some c) n (h, q) = (
  h,
  record {
    authorised = q.authorised;
    locked = λ g k. absurd (n (q.locked g k));
    state_of = q.state_of;
    holding = q.holding;
  },
)

given_back-Safe :
    (s : Store) (calls : List HostCall) (es : List RunEvent) (o : Option ChangeRow)
    → SafeBy o s calls
    → SafeBy o
        (record s { lock = released s.lock; events = es ++ s.events; lock_given_back = true })
        calls
given_back-Safe s calls es none i = i
given_back-Safe s calls es (some c) (h, q) = (
  h,
  record {
    authorised = q.authorised;
    locked = λ g k. absurd (ground (arith, g));
    state_of = q.state_of;
    holding = q.holding;
  },
)

pub reachable-Safe : (p : Preview) (m : Moment) → Reachable p m → Safe m
reachable-Safe p _ (planned s e b) = planned-Safe s s.change e b
reachable-Safe p _ (performed m a r) = (performed-Safe p a m (reachable-Safe p m r)).0
reachable-Safe p _ (cut_short m a n r k) =
    among_safe n _ (performed-Safe p a m (reachable-Safe p m r)).1 k
reachable-Safe p _ (others m l r n e) =
    others-Safe m.store m.calls l m.store.change n (reachable-Safe p m r)
reachable-Safe p _ (given_back m es r) =
    given_back-Safe m.store m.calls es m.store.change (reachable-Safe p m r)
