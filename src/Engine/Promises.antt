-- ===== src/Engine/Promises.antt =====
-- src/localplane/backend/changes.py: what the engine promises of a run, at each moment that it can be at.
use local_plane.Prelude.{
  ◌≤◌, ◌≡◌, ◌⊎◌, refl, ap, ◌∙◌, Bool, true, false, not, ◌||◌, Option, none, some, List, arith,
  if◌then◌else◌,
}
use mathlib.Core.Path.{subst}
use local_plane.Protection.{ManagementPathRelation}
use local_plane.Settlement.{not_written, written}
use local_plane.Recovery.{verified}
use local_plane.Engine.{
  RunState, ChangeResult, Preview, ChangeRow, held_here, Store, HostCall, Moment, Executor,
}
use local_plane.Engine.Actions.{World, ran, refused, Engine, continue, pure, refuse, ◌>>=◌, gets}
use local_plane.Engine.Boundary.{is_consumed}
use local_plane.Engine.Constraints.{unsettled}
use local_plane.Engine.Held.{is_held_state, guard_keep}
use local_plane.Engine.Restart.{
  settle_row, settle_interrupted, settle_interrupted_guards, restart, is_flying,
}
use local_plane.Engine.Safe.{SafeBy, applied, reversed, told, keeps_lock, StateOf, Ended}
use local_plane.Engine.InFlight.{safe_row}
use local_plane.Engine.Total.{Reaches}
use local_plane.Engine.Total.Ends.{Closed}
use local_plane.Engine.Total.Run.{settle_interrupted-Runs}
use local_plane.Engine.Reach.{Reachable, reachable-Safe}

once_by :
    (s : Store) (calls : List HostCall) (o : Option ChangeRow)
    → SafeBy o s calls
    → (applied calls ≤ 1) × (reversed calls ≤ 1)
once_by s calls none i = (omega (arith, i.0), omega (arith, i.1))
once_by s calls (some c) (h, p) = (h.once, h.reversed_once)

-- Over confirmations, overrides, applies, requests to keep and restarts in any order, however the host answers and
-- whenever the process dies, the host is asked at most once to make a run's change, and at most once by the engine
-- to reverse it.
pub applied-once :
    (p : Preview) (m : Moment) → Reachable p m → (applied m.calls ≤ 1) × (reversed m.calls ≤ 1)
applied-once p m r = once_by m.store m.calls m.store.change (reachable-Safe p m r)

-- What the row says of the dispatch.
abbrev pub Dispatched : Option ChangeRow → Type 0
Dispatched none = ⊥
Dispatched (some c) = c.dispatch_began ≡ true

began :
    (calls : List HostCall) (b : Bool)
    → 1 ≤ applied calls
    → (b ≡ false → applied calls ≡ 0)
    → b ≡ true
began calls true h f = refl
began calls false h f = absurd (omega (arith, f refl, h))

row-Dispatched :
    (s : Store) (calls : List HostCall) (o : Option ChangeRow)
    → SafeBy o s calls
    → 1 ≤ applied calls
    → Dispatched o × (is_consumed s.confirmation ≡ true)
row-Dispatched s calls none i h = absurd (omega (arith, i.0, h))
row-Dispatched s calls (some c) (y, p) h =
    (began calls c.dispatch_began h y.undispatched, p.authorised)

-- At any moment of a run, if the host has been asked to make its change, then the change's row says that the
-- dispatch began, and the run's confirmation is consumed.
pub applied-Dispatched :
    (p : Preview) (m : Moment)
    → Reachable p m
    → 1 ≤ applied m.calls
    → Dispatched m.store.change × (is_consumed m.store.confirmation ≡ true)
applied-Dispatched p m r h = row-Dispatched m.store m.calls m.store.change (reachable-Safe p m r) h

-- At each moment of a run whose operations are carried out one after another, the run's state is one that goes with
-- the change's result; and as long as no overlapping apply and no recovery has given the run's lock back, a change that
-- is in flight or that needs recovery has its run hold the write lock on the object.
pub result-locked :
    (p : Preview) (m : Moment) (c : ChangeRow)
    → Reachable p m
    → m.store.change ≡ some c
    → (m.store.lock_given_back ≡ false → keeps_lock c.result ≡ true → m.store.lock ≡ held_here)
      × StateOf c.result m.store.state
result-locked p m c r e =
    let (h, q) = safe_row m c e (reachable-Safe p m r) in (q.locked, q.state_of)

-- At any moment of a run, a change whose result is `failed` was never asked of the host, or the host answered that
-- it wrote nothing; and the engine asked for no reversal of it.
pub failed-unwritten :
    (p : Preview) (m : Moment) (c : ChangeRow)
    → Reachable p m
    → m.store.change ≡ some c
    → c.result ≡ ChangeResult.failed
    → ((applied m.calls ≡ 0) ⊎ (told m.calls ≡ some not_written)) × (reversed m.calls ≡ 0)
failed-unwritten p m c r e f =
    let (h, q) = safe_row m c e (reachable-Safe p m r) in
    h.unwritten_told (subst (λ x. Ended x c) f h.ended)

-- At any moment of a run, a change whose result is `succeeded` was acknowledged as written by the host, and a
-- reading verified it.
pub succeeded-written :
    (p : Preview) (m : Moment) (c : ChangeRow)
    → Reachable p m
    → m.store.change ≡ some c
    → c.result ≡ ChangeResult.succeeded
    → (told m.calls ≡ some written) × (c.verification_outcome ≡ some verified)
succeeded-written p m c r e f =
    let (h, q) = safe_row m c e (reachable-Safe p m r) in
    let (w, v) = subst (λ x. Ended x c) f h.ended in (h.written_told w, v)

-- At any moment of a run, a change whose result is `rolled_back` has the record of a reading after the reversal
-- that verified it, and its run's state is `rolled_back`.
pub rolled_back-verified :
    (p : Preview) (m : Moment) (c : ChangeRow)
    → Reachable p m
    → m.store.change ≡ some c
    → c.result ≡ ChangeResult.rolled_back
    → (c.rollback_verification_outcome ≡ some verified) × (m.store.state ≡ RunState.rolled_back)
rolled_back-verified p m c r e f =
    let (h, q) = safe_row m c e (reachable-Safe p m r) in
    (subst (λ x. Ended x c) f h.ended, subst (λ x. StateOf x m.store.state) f q.state_of)

-- From any moment, `settle_interrupted` is never refused, and leaves no change in flight unless its run is held
-- until its connection is proved.
pub settle_interrupted-Closed :
    (p : Preview) (w : World) → Reaches (λ u. Closed) (settle_interrupted p w)
settle_interrupted-Closed p w = (settle_interrupted-Runs p).reach w tt

guards_idle :
    (p : Preview) (x : Executor) (w : World)
    → unsettled w.now.store.guard ≡ false
    → settle_interrupted_guards p x w ≡ (ran tt, w)
unfolding settle_interrupted_guards ◌>>=◌ gets pure
guards_idle p x w e = rw e refl

if_then : (b : Bool) (m n : Engine (Unit {0})) (w : World) → b ≡ true → (if b then m else n) w ≡ m w
if_then true m n w e = refl
if_then false m n w e = absurd (ground (arith, e))

row_idle :
    (p : Preview) (w : World) (o : Option ChangeRow)
    → is_held_state w.now.store.state ≡ true
    → settle_row p w.now.store.state o w ≡ (ran tt, w)
unfolding settle_row pure
row_idle p w none h = refl
row_idle p w (some c) h =
    if_then (not (is_flying (some c)) || is_held_state w.now.store.state) (pure tt) _ w
      (ground (arith, h))

-- A run that is held while its guard is already settled stays as it is for good: a restart changes nothing, and
-- `guard_keep` is refused.
pub restart-stranded :
    (p : Preview) (x : Executor) (acknowledge : Bool) (relation : ManagementPathRelation)
    (w : World)
    → is_held_state w.now.store.state ≡ true
    → unsettled w.now.store.guard ≡ false
    → (restart p x w ≡ (ran tt, w))
      × (guard_keep p x acknowledge relation w ≡ (refused "guard_already_settled", w))
unfolding restart guard_keep settle_interrupted ◌>>=◌ gets refuse
restart-stranded p x acknowledge relation w h e = (
  ap (λ z. continue z.0 (λ u. settle_interrupted p) z.1) (guards_idle p x w e)
      ∙ row_idle p w w.now.store.change h,
  rw (h, e) refl,
)
