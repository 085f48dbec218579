-- ===== src/Engine/InFlight.antt =====
-- Actions on a change that is under way: a step is judged by the change's row alone.
use local_plane.Prelude.{◌≡◌, sym, ap, ◌∙◌, true, false, some, List, ◌∷◌, arith, if◌then◌else◌}
use mathlib.Core.Path.{subst}
use local_plane.Settlement.{written}
use local_plane.Recovery.{verified}
use local_plane.Engine.{RunState, ChangeResult, ChangeRow, Store, HostCall, Moment}
use local_plane.Engine.Actions.{ask}
use local_plane.Engine.Steps.{StepArgs, step, stepped, given, changed, released}
use local_plane.Engine.Logic.{Keeps, Keeps-update, Keeps-ask}
use local_plane.Engine.Safe.{Honest, Placed, Safe, SafeBy, StateOf, is_running}

abbrev pub Fact : Type 1
Fact = RunState → List HostCall → ChangeRow → Type 0

-- The change is under way, its row is `c`, and `X` holds of it.
pub record Under (X : Fact) (m : Moment) : Type 0 where
  pub row : ChangeRow
  pub here : m.store.change ≡ some row
  pub flying : row.result ≡ ChangeResult.in_flight
  pub fact : X m.store.state m.calls row

-- The row stays honest, and `Y` holds after.
pub record Moves (X Y : Fact) (f : ChangeRow → ChangeRow) (next : RunState → RunState)
    : Type 0 where
  pub flies : (c : ChangeRow) → (f c).result ≡ c.result
  pub runs : (st : RunState) → is_running st ≡ true → is_running (next st) ≡ true
  pub honest :
      (st : RunState) (calls : List HostCall) (c : ChangeRow)
      → c.result ≡ ChangeResult.in_flight
      → X st calls c
      → Honest calls c
      → Honest calls (f c)
  pub holding :
      (st : RunState) (calls : List HostCall) (c : ChangeRow)
      → X st calls c
      → (st ≡ RunState.guarded
          → (c.mutation_outcome ≡ some written) × (c.verification_outcome ≡ some verified))
      → next st ≡ RunState.guarded
      → ((f c).mutation_outcome ≡ some written) × ((f c).verification_outcome ≡ some verified)
  pub after :
      (st : RunState) (calls : List HostCall) (c : ChangeRow)
      → X st calls c
      → Honest calls c
      → Y (next st) calls (f c)

-- A moment under way is safe where its row is honest and placed.
pub safe_row :
    (m : Moment) (c : ChangeRow)
    → m.store.change ≡ some c
    → Safe m
    → Honest m.calls c
      × Placed m.store.state m.store.lock m.store.lock_given_back m.store.confirmation c
safe_row m c e i = subst (λ x. SafeBy x m.store m.calls) e i

pub row_safe :
    (m : Moment) (c : ChangeRow)
    → m.store.change ≡ some c
    → Honest m.calls c
      × Placed m.store.state m.store.lock m.store.lock_given_back m.store.confirmation c
    → Safe m
row_safe m c e i = subst (λ x. SafeBy x m.store m.calls) (sym e) i

flying_state :
    (st : RunState) (c : ChangeRow)
    → c.result ≡ ChangeResult.in_flight
    → StateOf c.result st
    → is_running st ≡ true
flying_state st c e h = subst (λ r. StateOf r st) e h

state_flying :
    (st : RunState) (c : ChangeRow)
    → c.result ≡ ChangeResult.in_flight
    → is_running st ≡ true
    → StateOf c.result st
state_flying st c e h = subst (λ r. StateOf r st) (sym e) h

module _ {X Y : Fact} (a : StepArgs) (kept : a.release ≡ false)
    (mv : Moves X Y a.change (given a.state)) where
  Placed-step :
      (s : Store) (calls : List HostCall) (c : ChangeRow)
      → c.result ≡ ChangeResult.in_flight
      → X s.state calls c
      → Placed s.state s.lock s.lock_given_back s.confirmation c
      → Placed
          (given a.state s.state)
          (if a.release then released s.lock else s.lock)
          s.lock_given_back
          s.confirmation
          (a.change c)
  Placed-step s calls c fl x p = record {
    authorised = p.authorised;
    locked = λ g k. ground (arith, kept, p.locked g, mv.flies c);
    state_of =
        state_flying (given a.state s.state) (a.change c) (mv.flies c ∙ fl)
          (mv.runs s.state (flying_state s.state c fl p.state_of));
    holding = mv.holding s.state calls c x p.holding;
  }

  pub Keeps-step : Keeps Safe (Under X) (step a) (λ u. Under Y)
  unfolding step
  Keeps-step = Keeps-update (stepped a) λ m i u.
      let (h, p) = safe_row m u.row u.here i in
      let after : (stepped a m.store).change ≡ some (a.change u.row) =
        ap (changed a.change) u.here in
      (
        row_safe (record m { store = stepped a m.store }) (a.change u.row) after
            (
              mv.honest m.store.state m.calls u.row u.flying u.fact h,
              Placed-step m.store m.calls u.row u.flying u.fact p,
            ),
        record {
          row = a.change u.row;
          here = after;
          flying = mv.flies u.row ∙ u.flying;
          fact = mv.after m.store.state m.calls u.row u.fact h;
        },
      )

-- A call of the host that no row has to answer for.
pub record Asks {ℓ} {A : Type ℓ} (X : Fact) (Y : A → Fact) (k : HostCall)
    (answer : List HostCall → A) : Type ℓ where
  pub honest_ask :
      (st : RunState) (calls : List HostCall) (c : ChangeRow)
      → c.result ≡ ChangeResult.in_flight
      → X st calls c
      → Honest calls c
      → Honest (k ∷ calls) c
  pub after_ask :
      (st : RunState) (calls : List HostCall) (c : ChangeRow)
      → X st calls c
      → Honest calls c
      → Y (answer calls) st (k ∷ calls) c

pub Keeps-asks {ℓ} :
    {A : Type ℓ} {X : Fact} {Y : A → Fact} (k : HostCall) (answer : List HostCall → A)
    → Asks X Y k answer
    → Keeps Safe (Under X) (ask k answer) (λ r. Under (Y r))
Keeps-asks k answer asks = Keeps-ask k answer λ m i u.
    let (h, p) = safe_row m u.row u.here i in
    (
      row_safe (record m { calls = k ∷ m.calls }) u.row u.here
          (asks.honest_ask m.store.state m.calls u.row u.flying u.fact h, p),
      record {
        row = u.row;
        here = u.here;
        flying = u.flying;
        fact = asks.after_ask m.store.state m.calls u.row u.fact h;
      },
    )
