-- ===== src/Engine/Safe/After.antt =====
-- Rules for the steps of src/localplane/backend/changes.py from the boundary to the end of the run.
use local_plane.Prelude.{
  ◌≡◌, ◌≢◌, refl, sym, ap, ◌∙◌, Bool, true, false, Option, none, some, List, ◌∷◌, arith, inl, inr,
  if◌then◌else◌,
}
use mathlib.Core.Path.{subst}
use local_plane.Engine.{
  RunState, ChangeResult, RecoveryReason, RunEvent, Preview, Checkpoint, ChangeRow, HostCall,
  Moment,
}
use local_plane.Engine.Actions.{refuse, gets, ask}
use local_plane.Engine.Steps.{at, changed, released, step, stepped}
use local_plane.Engine.Boundary.{crossed_at, crossed, takes_change, cross, new_change}
use local_plane.Engine.Endings.{finish, finished_as, recover}
use local_plane.Engine.Logic.{
  Keeps, Commits, Keeps-refuse, Keeps-gets, Keeps-update, Keeps-transact, Keeps-bind,
}
use local_plane.Engine.Safe.{
  Safe, Honest, Ended, StateOf, applied, reversed, is_running, keeps_lock,
}
use local_plane.Engine.Safe.Before.{Of, Armed, safe_none}
use local_plane.Engine.Safe.Guarded.{Quiet}
use local_plane.Engine.InFlight.{Fact, Under, Moves, Keeps-step, Keeps-asks, safe_row, row_safe}

pub in_flight-Ended : (r : ChangeResult) (c : ChangeRow) → r ≡ ChangeResult.in_flight → Ended r c
in_flight-Ended r c e = subst (λ x. Ended x c) (sym e) tt

-- Two rows that are alike where the host's calls matter.
module _ {calls : List HostCall} {c : ChangeRow} (c' : ChangeRow)
    (began : c'.dispatch_began ≡ c.dispatch_began)
    (outcome : c'.mutation_outcome ≡ c.mutation_outcome)
    (reversing : c'.rollback_dispatch_began ≡ c.rollback_dispatch_began)
    (e : Ended c'.result c') where
  pub Honest-row : Honest calls c → Honest calls c'
  Honest-row h = record {
    once = h.once;
    reversed_once = h.reversed_once;
    undispatched = λ d. h.undispatched (sym began ∙ d);
    written_told = λ d. h.written_told (sym outcome ∙ d);
    unwritten_told = λ d. h.unwritten_told (sym outcome ∙ d);
    unanswered = λ d. h.unanswered (sym outcome ∙ d);
    unreversed = λ d. h.unreversed (sym reversing ∙ d);
    ended = e;
  }

pub Honest-calls :
    (k : HostCall) (calls : List HostCall) (c : ChangeRow)
    → Quiet k
    → Honest calls c
    → Honest (k ∷ calls) c
Honest-calls k calls c q h =
    let (ea, er, et) = q calls in
    record {
      once = omega (arith, ea, h.once);
      reversed_once = omega (arith, er, h.reversed_once);
      undispatched = λ d. ea ∙ h.undispatched d;
      written_told = λ d. et ∙ h.written_told d;
      unwritten_told = λ d.
          let (t, r) = h.unwritten_told d in
          (elim t [ inl z ↦ inl (ea ∙ z) | inr y ↦ inr (et ∙ y) ], er ∙ r);
      unanswered = λ d. er ∙ h.unanswered d;
      unreversed = λ d. er ∙ h.unreversed d;
      ended = h.ended;
    }

-- A step that changes nothing that the host's calls are held against.
module _ {X : Fact} (Y : Fact) (f : ChangeRow → ChangeRow) (next : RunState → RunState) where
  pub plain-Moves :
      ((c : ChangeRow)
        → ((f c).result ≡ c.result)
          × ((f c).dispatch_began ≡ c.dispatch_began)
          × ((f c).mutation_outcome ≡ c.mutation_outcome)
          × ((f c).rollback_dispatch_began ≡ c.rollback_dispatch_began))
      → ((st : RunState) → is_running st ≡ true → is_running (next st) ≡ true)
      → ((st : RunState) (calls : List HostCall) (c : ChangeRow)
          → X st calls c
          → next st ≢ RunState.guarded)
      → ((st : RunState) (calls : List HostCall) (c : ChangeRow)
          → X st calls c
          → Y (next st) calls (f c))
      → Moves X Y f next
  plain-Moves alike runs away after = record {
    flies = λ c. (alike c).0;
    runs = runs;
    honest = λ st calls c fl x h.
        let (er, ed, em, eb) = alike c in
        Honest-row (f c) ed em eb (in_flight-Ended (f c).result (f c) (er ∙ fl)) h;
    holding = λ st calls c x held g. absurd (away st calls c x g);
    after = λ st calls c x h. after st calls c x;
  }

pub quiet_asks {ℓ} :
    {A : Type ℓ} {X : Fact} (k : HostCall) (answer : List HostCall → A)
    → Quiet k
    → ((st : RunState) (calls : List HostCall) (c : ChangeRow) → X st calls c → X st (k ∷ calls) c)
    → Keeps Safe (Under X) (ask k answer) (λ a. Under X)
quiet_asks k answer q after = Keeps-asks k answer (record {
  honest_ask = λ st calls c fl x h. Honest-calls k calls c q h;
  after_ask = λ st calls c x h. after st calls c x;
})

-- The boundary is crossed, and nothing is asked.
abbrev pub Crossed : Fact
Crossed st calls c =
    (applied calls ≡ 0)
    × (reversed calls ≡ 0)
    × (c.mutation_outcome ≡ none)
    × (st ≢ RunState.guarded)

crossed-Commits :
    (m : Moment) (o : Option ChangeRow) (b : Bool)
    → m.store.change ≡ o
    → Armed m.store
    → Safe m
    → Commits Safe (λ u. Under Crossed) (crossed_at o b m.store) m.calls
crossed-Commits m (some c) b e a i = tt
crossed-Commits m none false e a i = tt
crossed-Commits m none true e a i =
    let (ea, er, et, before) = safe_none m e i in
    (
      (
        record {
          once = omega (arith, ea);
          reversed_once = omega (arith, er);
          undispatched = λ d. ea;
          written_told = λ d. absurd (ground (arith, d));
          unwritten_told = λ d. (inl ea, er);
          unanswered = λ d. er;
          unreversed = λ d. er;
          ended = tt;
        },
        record {
          authorised = a.2;
          locked = λ g k. a.1;
          state_of = refl;
          holding = λ g. absurd (ground (arith, g));
        },
      ),
      record {
        row = new_change;
        here = refl;
        flying = refl;
        fact = (ea, er, refl, λ g. ground (arith, g));
      },
    )

pub cross-Keeps :
    (p : Preview) (checkpoint : Option Checkpoint)
    → Keeps Safe (Of Armed) (cross p checkpoint) (λ u. Under Crossed)
unfolding cross
cross-Keeps p checkpoint =
    Keeps-transact (crossed p checkpoint)
      λ m i a. crossed-Commits m m.store.change (takes_change p checkpoint m.store) refl a i

-- The end of a run, which leaves the change with its result.
module _ (X : Fact) (state : RunState) (result : ChangeResult) (recovery : Option RecoveryReason)
    (so : StateOf result state) (held : state ≢ RunState.guarded)
    (lock : keeps_lock result ≡ true → elim recovery [ none ↦ true | some _ ↦ false ] ≡ false)
    (e : (st : RunState) (calls : List HostCall) (c : ChangeRow)
      → X st calls c
      → Honest calls c
      → Ended result (record c { result = result; recovery_reason = recovery })) where
  ending_safe :
      (row : ChangeRow)
      → Keeps Safe (Under X) (step (finished_as state result recovery row)) (λ u m. Unit)
  unfolding step
  ending_safe row = Keeps-update (stepped (finished_as state result recovery row)) λ m i u.
      let a = finished_as state result recovery row in
      let (h, p) = safe_row m u.row u.here i in
      (
        row_safe (record m { store = stepped a m.store }) (a.change u.row)
            (ap (changed a.change) u.here)
            (
              Honest-row (a.change u.row) refl refl refl (e m.store.state m.calls u.row u.fact h) h,
              record {
                authorised = p.authorised;
                locked = λ g k.
                    ap (λ b. if b then released m.store.lock else m.store.lock) (lock k)
                    ∙ p.locked g (ap keeps_lock u.flying);
                state_of = so;
                holding = λ g. absurd (held g);
              },
            ),
        tt,
      )

  finish_from :
      (o : Option ChangeRow)
      → Keeps {A = Unit {0}} Safe
          (Under X)
          (elim o [
            | none ↦ refuse "assertion_error"
            | some c ↦ step (finished_as state result recovery c)
          ])
          (λ u m. Unit)
  finish_from none = Keeps-refuse "assertion_error"
  finish_from (some c) = ending_safe c

  pub finish-Keeps : Keeps Safe (Under X) (finish state result recovery) (λ u m. Unit)
  unfolding finish
  finish-Keeps =
      Keeps-bind {Q = λ o. Under X} (gets (λ s. s.change)) _ (Keeps-gets (λ s. s.change) (λ m u. u))
        finish_from

-- An event alone, and any other step that leaves the row as it is.
pub event-Keeps : (X : Fact) (e : RunEvent) → Keeps Safe (Under X) (step (at e)) (λ u. Under X)
event-Keeps X e = Keeps-step (at e) refl (record {
  flies = λ c. refl;
  runs = λ st r. r;
  honest = λ st calls c fl x h. h;
  holding = λ st calls c x held g. held g;
  after = λ st calls c x h. x;
})

pub recover-Keeps :
    (X : Fact) (reason : RecoveryReason) → Keeps Safe (Under X) (recover reason) (λ u m. Unit)
unfolding recover
recover-Keeps X reason =
    Keeps-bind {Q = λ u. Under X} (step (at RunEvent.recovery_required)) _
      (event-Keeps X RunEvent.recovery_required)
      λ u.
        finish-Keeps X RunState.recovery_required ChangeResult.recovery_required (some reason) refl
          (λ g. ground (arith, g)) (λ k. refl) (λ st calls c x h. tt)
