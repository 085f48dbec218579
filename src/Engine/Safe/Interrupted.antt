-- ===== src/Engine/Safe/Interrupted.antt =====
-- src/localplane/backend/changes.py: what a restart does keeps the engine safe.
use local_plane.Prelude.{
  ◌≡◌, ◌≢◌, refl, sym, ap, ◌∙◌, Bool, true, false, not, ◌&&◌, ◌||◌, Option, none, some, arith, inl,
}
use local_plane.Settlement.{MutationOutcome, not_written, written, write_unknown, GuardReport}
use local_plane.Recovery.{VerificationOutcome, verified, host_effect_for, outcome_on_recovery}
use local_plane.Engine.{
  RunState, ChangeResult, RecoveryReason, RunEvent, Preview, ChangeRow, Store, guard_status_call,
  Executor,
}
use local_plane.Engine.Actions.{pure, gets}
use local_plane.Engine.Steps.{at, step, is_guarded}
use local_plane.Engine.Constraints.{unsettled}
use local_plane.Engine.Held.{is_held_state, is_outstanding}
use local_plane.Engine.Restart.{
  has_change, guard_settled_as, settle_interrupted_guards, is_verified, interrupted_end,
  outcome_settled, is_flying, is_flying_result, settle_row, settle_interrupted, restart,
}
use local_plane.Engine.Logic.{
  Keeps, Keeps-pure, Keeps-gets, Keeps-ask, Keeps-if, Keeps-bind, Keeps-from,
}
use local_plane.Engine.Safe.{Safe}
use local_plane.Engine.Safe.After.{finish-Keeps, recover-Keeps, in_flight-Ended}
use local_plane.Engine.Safe.Reversal.{proved_verified}
use local_plane.Engine.Safe.Run.{Anywhere, Quiet-Safe, settlement-Keeps}
use local_plane.Engine.Safe.Kept.{held_under, settle_lapsed-Keeps}
use local_plane.Engine.InFlight.{Fact, Under, Keeps-step}

-- The row as it was read.
abbrev Row : ChangeRow → Fact
Row c st calls c' = (c' ≡ c) × (is_held_state st ≡ false)

-- The row's outcome is known.
abbrev Closed : MutationOutcome → Option VerificationOutcome → Fact
Closed o v st calls c = (c.mutation_outcome ≡ some o) × (c.verification_outcome ≡ v)

unheld : (st : RunState) → is_held_state st ≡ false → st ≢ RunState.guarded
unheld st h g = ground (arith, h, g)

worked_out : (b : Bool) → outcome_on_recovery b none ≢ written
unfolding outcome_on_recovery
worked_out true e = ground (arith, e)
worked_out false e = ground (arith, e)

undispatched_of : (b : Bool) → outcome_on_recovery b none ≡ not_written → b ≡ false
unfolding outcome_on_recovery
undispatched_of true e = ground (arith, e)
undispatched_of false e = refl

some_outcome : (o o' : MutationOutcome) → some o ≡ some o' → o ≡ o'
some_outcome o o' e = ground (arith, e)

verified_of : (v : Option VerificationOutcome) → is_verified v ≡ true → v ≡ some verified
verified_of none e = absurd (ground (arith, e))
verified_of (some v) e = ap some (proved_verified v e)

closing :
    (c : ChangeRow) (o : Option MutationOutcome)
    → c.mutation_outcome ≡ o
    → Keeps {A = Unit {0}} Safe
        (Under (Row c))
        (elim o [
          | some recorded ↦ pure tt
          | none ↦ step (record (at RunEvent.mutation_result) {
            host_effect = some (host_effect_for (outcome_on_recovery c.dispatch_began none));
            change = λ (row : ChangeRow). record row {
              mutation_outcome = some (outcome_on_recovery c.dispatch_began none);
              host_effect = host_effect_for (outcome_on_recovery c.dispatch_began none);
            };
          })
        ])
        (λ u. Under (Closed (outcome_on_recovery c.dispatch_began o) c.verification_outcome))
unfolding outcome_on_recovery
closing c (some o) e = Keeps-pure tt λ m u. record {
  row = u.row;
  here = u.here;
  flying = u.flying;
  fact = (
    ap (λ (x : ChangeRow). x.mutation_outcome) u.fact.0 ∙ e,
    ap (λ (x : ChangeRow). x.verification_outcome) u.fact.0,
  );
}
closing c none e = Keeps-step _ refl (record {
  flies = λ x. refl;
  runs = λ st r. r;
  honest = λ st calls x fl (same, h) y. record {
    once = y.once;
    reversed_once = y.reversed_once;
    undispatched = y.undispatched;
    written_told = λ d. absurd (worked_out c.dispatch_began (some_outcome _ written d));
    unwritten_told = λ d. (
      inl (
          y.undispatched (
            ap (λ (x : ChangeRow). x.dispatch_began) same
            ∙ undispatched_of c.dispatch_began (some_outcome _ not_written d))),
      y.unanswered (ap (λ (x : ChangeRow). x.mutation_outcome) same ∙ e),
    );
    unanswered = λ d. y.unanswered (ap (λ (x : ChangeRow). x.mutation_outcome) same ∙ e);
    unreversed = y.unreversed;
    ended = in_flight-Ended x.result _ fl;
  };
  holding = λ st calls x (same, h) held g. absurd (unheld st h g);
  after = λ st calls x (same, h) y. (refl, ap (λ (x : ChangeRow). x.verification_outcome) same);
})

end-Keeps :
    (guarded : Bool) (v : Option VerificationOutcome) (o : MutationOutcome)
    → Keeps Safe (Under (Closed o v)) (interrupted_end guarded v o) (λ u. Anywhere)
unfolding interrupted_end
end-Keeps guarded v not_written =
    finish-Keeps (Closed not_written v) RunState.failed ChangeResult.failed none refl
      (λ g. ground (arith, g)) (λ k. absurd (ground (arith, k))) (λ st calls c x h. x.0)
end-Keeps guarded v written =
    Keeps-if (is_verified v && not guarded) _ _
      (λ e.
        finish-Keeps (Closed written v) RunState.succeeded ChangeResult.succeeded none refl
          (λ g. ground (arith, g)) (λ k. absurd (ground (arith, k)))
          (λ st calls c x h. (x.0, x.1 ∙ verified_of v (ground (arith, e)))))
      (λ e. recover-Keeps (Closed written v) RecoveryReason.apply_interrupted_after_write)
end-Keeps guarded v write_unknown =
    recover-Keeps (Closed write_unknown v) RecoveryReason.apply_write_unknown

flying_row : (r : ChangeResult) → is_flying_result r ≡ true → r ≡ ChangeResult.in_flight
flying_row r e = ground (arith, e)

-- What the restart read is the run's row.
module _ (p : Preview) (s : Store) where
  row-Keeps :
      (o : Option ChangeRow)
      → s.change ≡ o
      → Keeps Safe (λ m. s ≡ m.store) (settle_row p s.state o) (λ u. Anywhere)
  unfolding settle_row outcome_settled
  row-Keeps none e = Keeps-pure tt (λ m q. tt)
  row-Keeps (some c) e =
      Keeps-if (not (is_flying (some c)) || is_held_state s.state) _ _
        (λ b. Keeps-pure tt (λ m q. tt))
        λ b.
          Keeps-from _
            (λ m i q. record {
              row = c;
              here = ap (λ (t : Store). t.change) (sym q) ∙ e;
              flying = flying_row c.result (ground (arith, b));
              fact = (refl, ap (λ (t : Store). is_held_state t.state) (sym q) ∙ ground (arith, b));
            })
            (Keeps-bind
              {Q = λ u. Under (
                Closed (outcome_on_recovery c.dispatch_began c.mutation_outcome)
                  c.verification_outcome)}
              _ _ (closing c c.mutation_outcome refl)
              λ u.
                end-Keeps (is_guarded p) c.verification_outcome
                  (outcome_on_recovery c.dispatch_began c.mutation_outcome))

pub settle_interrupted-Keeps :
    (p : Preview) → Keeps Safe Anywhere (settle_interrupted p) (λ u. Anywhere)
unfolding settle_interrupted
settle_interrupted-Keeps p =
    Keeps-bind {Q = λ s m. s ≡ m.store} (gets (λ s. s)) _ (Keeps-gets (λ s. s) (λ m u. refl))
      λ s. row-Keeps p s s.change refl

module _ (p : Preview) (x : Executor) where
  guard-Keeps :
      (s : Store) (report : GuardReport)
      → Keeps Safe (λ m. s ≡ m.store) (guard_settled_as p x s report) (λ u. Anywhere)
  unfolding guard_settled_as
  guard-Keeps s report =
      Keeps-if (is_outstanding report.phase) _ _ (λ e. Keeps-pure tt (λ m q. tt))
        λ e.
          Keeps-if (is_held_state s.state && has_change s.change) _ _
            (λ b.
              Keeps-from _
                (λ m i q.
                  held_under m i
                    (ap (λ (t : Store). is_held_state t.state) (sym q) ∙ ground (arith, b)))
                (settle_lapsed-Keeps p x report))
            (λ b. Keeps-from _ (λ m i q. tt) (settlement-Keeps report))

  pub settle_interrupted_guards-Keeps :
      Keeps Safe Anywhere (settle_interrupted_guards p x) (λ u. Anywhere)
  unfolding settle_interrupted_guards
  settle_interrupted_guards-Keeps =
      Keeps-bind {Q = λ s m. s ≡ m.store} (gets (λ s. s)) _ (Keeps-gets (λ s. s) (λ m u. refl)) λ s.
        Keeps-if (unsettled s.guard) _ _
          (λ e.
            Keeps-bind {Q = λ r m. s ≡ m.store} _ _
              (Keeps-ask guard_status_call x.guard_status λ m i q. (
                Quiet-Safe guard_status_call m.store m.calls m.store.change
                    (λ calls. (refl, refl, refl)) i,
                q,
              ))
              (guard-Keeps s))
          (λ e. Keeps-pure tt (λ m q. tt))

  pub restart-Keeps : Keeps Safe Anywhere (restart p x) (λ u. Anywhere)
  unfolding restart
  restart-Keeps =
      Keeps-bind {Q = λ u. Anywhere} _ _ settle_interrupted_guards-Keeps
        λ u. settle_interrupted-Keeps p
