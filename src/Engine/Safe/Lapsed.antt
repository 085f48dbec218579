-- ===== src/Engine/Safe/Lapsed.antt =====
-- src/localplane/backend/changes.py: `guard_keep` and `_settle_lapsed` keep the engine safe.
use local_plane.Prelude.{
  ◌≡◌, refl, sym, ap, ◌∙◌, true, Option, none, some, List, arith, Bool, if◌then◌else◌,
}
use mathlib.Core.Path.{subst}
use local_plane.Settlement.{written, MutationReport, GuardReport, is_fired}
use local_plane.Recovery.{VerificationOutcome, verified}
use local_plane.Engine.{RunState, ChangeResult, RunEvent, ChangeRow, Store, HostCall}
use local_plane.Engine.Actions.{pure, ◌>>◌, update_if}
use local_plane.Engine.Steps.{at, step}
use local_plane.Engine.Boundary.{is_consumed, settled_by}
use local_plane.Engine.Constraints.{guard_allows}
use local_plane.Engine.Endings.{record_guard_settlement}
use local_plane.Engine.Held.{kept_row, kept_recorded, keep, lapse_recorded}
use local_plane.Engine.Logic.{Keeps, Keeps-pure, Keeps-if, Keeps-bind, Keeps-update_if}
use local_plane.Engine.Safe.{Safe, SafeBy, StateOf, is_before}
use local_plane.Engine.Safe.After.{plain-Moves, finish-Keeps, in_flight-Ended}
use local_plane.Engine.Safe.Run.{Anywhere}
use local_plane.Engine.InFlight.{Fact, Under, Keeps-step}

-- The change is written and proved, and waits for the connection.
abbrev pub Held : Fact
Held st calls c = (c.mutation_outcome ≡ some written) × (c.verification_outcome ≡ some verified)

abbrev pub HeldProved : VerificationOutcome → Fact
HeldProved v st calls c = Held st calls c × (c.rollback_verification_outcome ≡ some v)

record_safe :
    (f : Store → Store) (s : Store) (calls : List HostCall) (o : Option ChangeRow)
    → (f s).state ≡ s.state
    → (f s).lock ≡ s.lock
    → (f s).lock_given_back ≡ s.lock_given_back
    → (f s).confirmation ≡ s.confirmation
    → SafeBy o s calls
    → SafeBy o (f s) calls
record_safe f s calls none e el eg ec i = (i.0, i.1, i.2, ap is_before e ∙ i.3)
record_safe f s calls (some c) e el eg ec (h, p) = (
  h,
  record {
    authorised = ap is_consumed ec ∙ p.authorised;
    locked = λ g k. el ∙ p.locked (sym eg ∙ g) k;
    state_of = subst (λ st. StateOf c.result st) (sym e) p.state_of;
    holding = λ g. p.holding (sym e ∙ g);
  },
)

-- A record of the guard leaves a change as it is.
module _ (X : Fact) (takes : Store → Bool) (f : Store → Store)
    (plain : (s : Store)
      → ((f s).change ≡ s.change)
        × ((f s).state ≡ s.state)
        × ((f s).lock ≡ s.lock)
        × ((f s).lock_given_back ≡ s.lock_given_back)
        × ((f s).confirmation ≡ s.confirmation)) where
  record-Keeps : Keeps Safe (Under X) (update_if takes f) (λ u. Under X)
  record-Keeps = Keeps-update_if takes f λ m i u.
      let (e, es, el, eg, ec) = plain m.store in
      (
        subst (λ o. SafeBy o (f m.store) m.calls) (sym e)
            (record_safe f m.store m.calls m.store.change es el eg ec i),
        record {
          row = u.row;
          here = e ∙ u.here;
          flying = u.flying;
          fact = subst (λ st. X st m.calls u.row) (sym es) u.fact;
        },
      )

pub keep-Keeps : Keeps Safe (Under Held) keep (λ u. Anywhere)
unfolding keep
keep-Keeps =
    Keeps-bind {Q = λ u. Under Held} _ _
      (record-Keeps Held (guard_allows kept_row) kept_recorded
        (λ s. (refl, refl, refl, refl, refl)))
      λ u.
        finish-Keeps Held RunState.succeeded ChangeResult.succeeded none refl
          (λ g. ground (arith, g)) (λ k. absurd (ground (arith, k))) (λ st calls c h y. h)

pub settlement-Keeps :
    (X : Fact) (r : GuardReport) → Keeps Safe (Under X) (record_guard_settlement r) (λ u. Under X)
unfolding record_guard_settlement
settlement-Keeps X r =
    record-Keeps X (guard_allows (settled_by r)) _ (λ s. (refl, refl, refl, refl, refl))

lapse_steps :
    (m : MutationReport)
    → Keeps Safe
        (Under Held)
        (step (record (at RunEvent.rollback_started) {
          state = some RunState.rolling_back;
          change = λ (c : ChangeRow). record c { rollback_required = true };
        })
          >> step (record (at RunEvent.rollback_mutation_result) {
            change = λ (c : ChangeRow). record c {
              rollback_dispatch_began = true;
              rollback_outcome = some m.outcome;
            };
          }))
        (λ u. Under Held)
lapse_steps m =
    Keeps-bind {Q = λ u. Under Held} _ _
      (Keeps-step _ refl (
        plain-Moves Held (λ c. record c { rollback_required = true }) (λ st. RunState.rolling_back)
          (λ c. (refl, refl, refl, refl)) (λ st r. refl) (λ st calls c h g. ground (arith, g))
          (λ st calls c h. h)))
      λ u. Keeps-step _ refl (record {
        flies = λ c. refl;
        runs = λ st r. r;
        honest = λ st calls c fl h y. record {
          once = y.once;
          reversed_once = y.reversed_once;
          undispatched = y.undispatched;
          written_told = y.written_told;
          unwritten_told = y.unwritten_told;
          unanswered = y.unanswered;
          unreversed = λ d. absurd (ground (arith, d));
          ended = in_flight-Ended c.result _ fl;
        };
        holding = λ st calls c h held g. h;
        after = λ st calls c h y. h;
      })

lapse_of :
    (report : GuardReport) (o : Option MutationReport)
    → Keeps {A = Unit {0}} Safe
        (Under Held)
        (elim o [
          | none ↦ pure tt
          | some m ↦
              if is_fired report.phase
              then step (record (at RunEvent.rollback_started) {
                state = some RunState.rolling_back;
                change = λ (c : ChangeRow). record c { rollback_required = true };
              })
                >> step (record (at RunEvent.rollback_mutation_result) {
                  change = λ (c : ChangeRow). record c {
                    rollback_dispatch_began = true;
                    rollback_outcome = some m.outcome;
                  };
                })
              else pure tt
        ])
        (λ u. Under Held)
lapse_of report none = Keeps-pure tt (λ m u. u)
lapse_of report (some m) =
    Keeps-if (is_fired report.phase) _ (pure tt) (λ e. lapse_steps m)
      (λ e. Keeps-pure tt (λ m u. u))

pub lapse-Keeps :
    (report : GuardReport) → Keeps Safe (Under Held) (lapse_recorded report) (λ u. Under Held)
unfolding lapse_recorded
lapse-Keeps report = lapse_of report report.mutation
