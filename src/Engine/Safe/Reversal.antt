-- ===== src/Engine/Safe/Reversal.antt =====
-- src/localplane/backend/changes.py: reading the change back and reversing it keep the engine safe.
use local_plane.Prelude.{
  ◌≡◌, ◌≢◌, refl, ap, ◌∙◌, Bool, true, false, Option, none, some, List, ◌∷◌, ℤ, arith,
}
use local_plane.Settlement.{MutationOutcome, not_written, MutationReport}
use local_plane.Recovery.{VerificationOutcome, verified, is_proved}
use local_plane.Engine.{
  RunState, ChangeResult, RecoveryReason, RunEvent, Preview, Checkpoint, ChangeRow, rollback_field,
  HostCall, observe_call, mutate_call, mutate_answer, Expectation, ReadBack, Executor,
}
use local_plane.Engine.Actions.{World, ask}
use local_plane.Engine.Steps.{at, step}
use local_plane.Engine.Boundary.{answered}
use local_plane.Engine.Endings.{
  read_back, read_if, read_of, applied_expectation, restored_expectation, verify, is_unknown,
  recovery_reason, rollback_end, verify_rollback, reverse, unread_reason, roll_back,
  unproven_reason, unproven, recover,
}
use local_plane.Engine.Logic.{Post, Holds, Keeps, Keeps-pure, Keeps-if, Keeps-bind}
use local_plane.Engine.Safe.{Safe}
use local_plane.Engine.Safe.After.{
  plain-Moves, quiet_asks, finish-Keeps, recover-Keeps, in_flight-Ended,
}
use local_plane.Engine.Safe.Written.{Told}
use local_plane.Engine.InFlight.{Fact, Under, Keeps-step, Keeps-asks}

pub proved_verified : (v : VerificationOutcome) → is_proved v ≡ true → v ≡ verified
proved_verified v e = ground (arith, e)

-- A reading keeps every fact that it leaves true.
module _ (X : Fact)
    (after : (st : RunState) (calls : List HostCall) (c : ChangeRow)
      → X st calls c
      → X st (observe_call ∷ calls) c) where
  read_known :
      (p : Preview) (x : Executor) (e : Expectation) (w : World) (b : Bool)
      → Holds Safe w
      → Under X w.now
      → Holds Safe (read_if b p x e w).1 × Post (λ r. Under X) (read_if b p x e w)
  read_known p x e w true h u =
      (quiet_asks observe_call (λ calls. read_of p e (x.observe calls))
          (λ calls. (refl, refl, refl)) after).run
        w h u
  read_known p x e w false h u = (h, u)

  pub read-Keeps :
      (p : Preview) (x : Executor) (e : Expectation)
      → Keeps Safe (Under X) (read_back p x e) (λ r. Under X)
  unfolding read_back
  read-Keeps p x e = record { run = λ w h u. read_known p x e w (x.target_known w.now.calls) h u }

-- The reading of the change is on record.
abbrev pub Seen : MutationOutcome → VerificationOutcome → Fact
Seen o v st calls c = Told o st calls c × (c.verification_outcome ≡ some v)

-- The reversal is on record, and not asked for.
abbrev Reversing : MutationOutcome → Fact
Reversing o st calls c = Told o st calls c × (c.rollback_dispatch_began ≡ true)

-- The reversal may have been asked for.
abbrev Back : MutationOutcome → Fact
Back o st calls c = (c.mutation_outcome ≡ some o) × (st ≢ RunState.guarded)

-- The reading after it is on record.
abbrev Proved : MutationOutcome → VerificationOutcome → Fact
Proved o v st calls c = Back o st calls c × (c.rollback_verification_outcome ≡ some v)

pub verify-Keeps :
    (o : MutationOutcome) (p : Preview) (x : Executor)
    → Keeps Safe (Under (Told o)) (verify p x) (λ r. Under (Seen o r.outcome))
unfolding verify
verify-Keeps o p x =
    Keeps-bind {Q = λ u. Under (Told o)} _ _
      (Keeps-step _ refl (
        plain-Moves (Told o) (λ c. c) (λ st. RunState.verifying) (λ c. (refl, refl, refl, refl))
          (λ st r. refl) (λ st calls c t g. ground (arith, g))
          (λ st calls c t. (t.0, t.1, λ g. ground (arith, g)))))
      λ u.
        Keeps-bind {Q = λ r. Under (Told o)} _ _
          (read-Keeps (Told o) (λ st calls c t. t) p x (applied_expectation p))
          λ r.
            Keeps-bind {Q = λ u. Under (Seen o r.outcome)} _ _
              (Keeps-step _ refl (
                plain-Moves (Seen o r.outcome)
                  (λ c. record c { verification_outcome = some r.outcome }) (λ st. st)
                  (λ c. (refl, refl, refl, refl)) (λ st r. r) (λ st calls c t. t.2)
                  (λ st calls c t. (t, refl))))
              λ u. Keeps-pure r (λ m s. s)

module _ (o : MutationOutcome) (some_effect : o ≢ not_written) (p : Preview) (x : Executor)
    (c : Checkpoint) where
  asked_back :
      (current : ℤ) (answer : List HostCall → MutationReport)
      → Keeps Safe
          (Under (Reversing o))
          (ask (mutate_call (rollback_field current c.before_value)) answer)
          (λ r. Under (Back o))
  asked_back current answer = Keeps-asks {Y = λ r. Back o} _ answer (record {
    honest_ask = λ st calls c fl (t, b) h. record {
      once = h.once;
      reversed_once = omega (arith, t.0);
      undispatched = h.undispatched;
      written_told = h.written_told;
      unwritten_told = λ d. absurd (some_effect (ground (arith, d, t.1)));
      unanswered = λ d. absurd (ground (arith, d, t.1));
      unreversed = λ d. absurd (ground (arith, d, b));
      ended = h.ended;
    };
    after_ask = λ st calls c (t, b) h. (t.1, t.2);
  })

  answered_back :
      (current : ℤ) (report : MutationReport)
      → Keeps Safe
          (Under (Back o))
          (answered (rollback_field current c.before_value) report)
          (λ r. Under (Back o))
  unfolding answered ask
  answered_back current report =
      quiet_asks (mutate_answer (rollback_field current c.before_value) report.outcome)
        (λ calls. report) (λ calls. (refl, refl, refl)) (λ st calls c b. b)

  rollback_end-Keeps :
      (v : VerificationOutcome) (report : MutationReport)
      → Keeps Safe (Under (Proved o v)) (rollback_end v report) (λ u m. Unit)
  unfolding rollback_end
  rollback_end-Keeps v report =
      Keeps-if (is_proved v) _ _
        (λ e.
          finish-Keeps (Proved o v) RunState.rolled_back ChangeResult.rolled_back none refl
            (λ g. ground (arith, g)) (λ k. absurd (ground (arith, k)))
            (λ st calls c y h. y.1 ∙ ap some (proved_verified v e)))
        (λ e. recover-Keeps (Proved o v) (recovery_reason v report))

  verify_rollback-Keeps :
      Keeps Safe (Under (Back o)) (verify_rollback p x c) (λ r. Under (Proved o r.outcome))
  unfolding verify_rollback
  verify_rollback-Keeps =
      Keeps-bind {Q = λ u. Under (Back o)} _ _
        (Keeps-step _ refl (
          plain-Moves (Back o) (λ c. c) (λ st. RunState.rollback_verifying)
            (λ c. (refl, refl, refl, refl)) (λ st r. refl) (λ st calls c t g. ground (arith, g))
            (λ st calls c t. (t.0, λ g. ground (arith, g)))))
        λ u.
          Keeps-bind {Q = λ r. Under (Back o)} _ _
            (read-Keeps (Back o) (λ st calls c t. t) p x (restored_expectation c))
            λ r.
              Keeps-bind {Q = λ u. Under (Proved o r.outcome)} _ _
                (Keeps-step _ refl (
                  plain-Moves (Proved o r.outcome)
                    (λ c. record c { rollback_verification_outcome = some r.outcome }) (λ st. st)
                    (λ c. (refl, refl, refl, refl)) (λ st r. r) (λ st calls c t. t.1)
                    (λ st calls c t. (t, refl))))
                λ u. Keeps-pure r (λ m s. s)

  reversal_step :
      Keeps Safe
        (Under (Told o))
        (step (record (at RunEvent.rollback_mutation_dispatched) {
          change = λ (c : ChangeRow). record c { rollback_dispatch_began = true };
        }))
        (λ u. Under (Reversing o))
  reversal_step = Keeps-step _ refl (record {
    flies = λ c. refl;
    runs = λ st r. r;
    honest = λ st calls c fl t h. record {
      once = h.once;
      reversed_once = h.reversed_once;
      undispatched = h.undispatched;
      written_told = h.written_told;
      unwritten_told = h.unwritten_told;
      unanswered = h.unanswered;
      unreversed = λ d. t.0;
      ended = in_flight-Ended c.result _ fl;
    };
    holding = λ st calls c t held g. absurd (t.2 g);
    after = λ st calls c t h. (t, refl);
  })

  reversal_recorded :
      (report : MutationReport)
      → Keeps Safe
          (Under (Back o))
          (step (record (at RunEvent.rollback_mutation_result) {
            change = λ (c : ChangeRow). record c { rollback_outcome = some report.outcome };
          }))
          (λ u. Under (Back o))
  reversal_recorded report = Keeps-step _ refl (
      plain-Moves (Back o) (λ c. record c { rollback_outcome = some report.outcome }) (λ st. st)
        (λ c. (refl, refl, refl, refl)) (λ st r. r) (λ st calls c t. t.1) (λ st calls c t. t))

  reverse-Keeps : (current : ℤ) → Keeps Safe (Under (Told o)) (reverse p x c current) (λ u m. Unit)
  unfolding reverse
  reverse-Keeps current = Keeps-bind {Q = λ u. Under (Reversing o)} _ _ reversal_step λ u.
      Keeps-bind {Q = λ r. Under (Back o)} _ _
        (Keeps-bind {Q = λ r. Under (Back o)} _ _ (asked_back current _)
          λ r. answered_back current r)
        λ report. Keeps-bind {Q = λ u. Under (Back o)} _ _ (reversal_recorded report) λ u.
          Keeps-if (is_unknown report.outcome) _ _
            (λ e. recover-Keeps (Back o) RecoveryReason.rollback_write_unknown)
            λ e.
              Keeps-bind {Q = λ r. Under (Proved o r.outcome)} _ _ verify_rollback-Keeps
                λ r. rollback_end-Keeps r.outcome report

  from_reading :
      (v : VerificationOutcome) (o' : Option ℤ)
      → Keeps {A = Unit {0}} Safe
          (Under (Told o))
          (elim o' [ none ↦ recover (unread_reason v) | some value ↦ reverse p x c value ])
          (λ u m. Unit)
  from_reading v none = recover-Keeps (Told o) (unread_reason v)
  from_reading v (some value) = reverse-Keeps value

  pub roll_back-Keeps : Keeps Safe (Under (Told o)) (roll_back p x c) (λ u m. Unit)
  unfolding roll_back
  roll_back-Keeps =
      Keeps-bind {Q = λ u. Under (Told o)} _ _
        (Keeps-step _ refl (
          plain-Moves (Told o) (λ c. record c { rollback_required = true })
            (λ st. RunState.rolling_back) (λ c. (refl, refl, refl, refl)) (λ st r. refl)
            (λ st calls c t g. ground (arith, g))
            (λ st calls c t. (t.0, t.1, λ g. ground (arith, g)))))
        λ u.
          Keeps-bind {Q = λ r. Under (Told o)} _ _
            (read-Keeps (Told o) (λ st calls c t. t) p x (restored_expectation c))
            λ current. from_reading current.outcome current.value

module _ (o : MutationOutcome) (some_effect : o ≢ not_written) (p : Preview) (x : Executor) where
  pub unproven-Keeps :
      (c : Option Checkpoint) (read : Option ReadBack)
      → Keeps Safe (Under (Told o)) (unproven p x c read) (λ u m. Unit)
  unfolding unproven
  unproven-Keeps (some c) read = roll_back-Keeps o some_effect p x c
  unproven-Keeps none none = recover-Keeps (Told o) RecoveryReason.apply_write_unknown
  unproven-Keeps none (some read) = recover-Keeps (Told o) (unproven_reason read.outcome)
