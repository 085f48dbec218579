-- ===== src/Settlement/Read.antt =====
-- Each settlement, by the agent's answer.
use local_plane.Prelude.{String, ◌≡◌, refl, sym, ◌↔◌, Bool, true, Option, none, some, arith, eq_iff}
use mathlib.Core.Path.{subst}
use local_plane.Settlement.{
  GuardAnswer, ReversalAnswer, Asked, answered, agent_error, guard_report, settlement, kept,
  reverted, guard_phase, GuardPhase, disarmed, fired, MutationOutcome, written, is_written,
  read_phase, read_reversal, mutation_outcome, reversal_report,
}

-- The answer says that the guard fired and its reversal was written.
pub record SaysWritten (asked : Asked) : Type 0 where
  pub answer : GuardAnswer
  pub reversal : ReversalAnswer
  pub given : asked ≡ answered answer
  pub says_fired : answer.phase ≡ "fired"
  pub carries : answer.mutation ≡ some reversal
  pub says_written : reversal.outcome ≡ "written"

abbrev pub SaysPhase : String → Asked → Type 0
SaysPhase phase asked = (a : GuardAnswer) × (asked ≡ answered a) × (a.phase ≡ phase)

guard_phase-disarmed : (s : String) → guard_phase s ≡ some disarmed → s ≡ "disarmed"
guard_phase-disarmed s h = ground (arith, eq_iff s "disarmed")

guard_phase-fired : (s : String) → guard_phase s ≡ some fired → s ≡ "fired"
guard_phase-fired s h = ground (arith, eq_iff s "fired")

mutation_outcome-written : (s : String) → mutation_outcome s ≡ some written → s ≡ "written"
mutation_outcome-written s h = ground (arith, eq_iff s "written")

-- The phase that a settlement rests on, and the reversal.
phase_kept :
    (id : String) (a : GuardAnswer) (proved : Bool) (phase : Option GuardPhase)
    → settlement (read_phase id a phase) proved ≡ kept
    → phase ≡ some disarmed
unfolding settlement read_phase
phase_kept id a proved none h = cc
phase_kept id a proved (some phase) h = ground arith

phase_reverted :
    (id : String) (a : GuardAnswer) (proved : Bool) (phase : Option GuardPhase)
    → settlement (read_phase id a phase) proved ≡ reverted
    → (phase ≡ some fired)
      × (is_written (some (reversal_report id a.mutation)) ≡ true)
      × (proved ≡ true)
unfolding settlement read_phase
phase_reverted id a proved none h = cc
phase_reverted id a proved (some phase) h = ground arith

written_outcome :
    (id : String) (m : ReversalAnswer) (outcome : Option MutationOutcome)
    → is_written (some (read_reversal id m outcome)) ≡ true
    → outcome ≡ some written
unfolding read_reversal
written_outcome id m none h = cc
written_outcome id m (some outcome) h = ground arith

written_reversal :
    (id : String) (m : Option ReversalAnswer)
    → is_written (some (reversal_report id m)) ≡ true
    → (r : ReversalAnswer) × (m ≡ some r) × (r.outcome ≡ "written")
unfolding reversal_report
written_reversal id none h = cc
written_reversal id (some r) h = (
  r,
  refl,
  mutation_outcome-written r.outcome (written_outcome id r (mutation_outcome r.outcome) h),
)

module _ (guard_id : String) (proved : Bool) where
  said_kept :
      (a : GuardAnswer)
      → a.phase ≡ "disarmed"
      → settlement (guard_report guard_id (answered a)) proved ≡ kept
  unfolding settlement guard_report read_phase
  said_kept a e = rw e

  said_written :
      (a : GuardAnswer) (r : ReversalAnswer)
      → a.phase ≡ "fired"
      → a.mutation ≡ some r
      → r.outcome ≡ "written"
      → proved ≡ true
      → settlement (guard_report guard_id (answered a)) proved ≡ reverted
  unfolding settlement guard_report read_phase reversal_report read_reversal
  said_written a r e c o p = rw (e, c, o, p)

  of_kept :
      (asked : Asked)
      → settlement (guard_report guard_id asked) proved ≡ kept
      → SaysPhase "disarmed" asked
  unfolding settlement guard_report
  of_kept (agent_error code) h = ground arith
  of_kept (answered a) h =
      (a, refl, guard_phase-disarmed a.phase (phase_kept guard_id a proved (guard_phase a.phase) h))

  of_reverted :
      (asked : Asked)
      → settlement (guard_report guard_id asked) proved ≡ reverted
      → SaysWritten asked × (proved ≡ true)
  unfolding settlement guard_report
  of_reverted (agent_error code) h = ground arith
  of_reverted (answered a) h =
      let (f, w, p) = phase_reverted guard_id a proved (guard_phase a.phase) h in
      let (r, c, o) = written_reversal guard_id a.mutation w in
      (
        record {
          answer = a;
          reversal = r;
          given = refl;
          says_fired = guard_phase-fired a.phase f;
          carries = c;
          says_written = o;
        },
        p,
      )

  -- The change is kept exactly where the agent answers that the guard was released before its deadline.
  pub settlement-kept_iff :
      (asked : Asked)
      → (settlement (guard_report guard_id asked) proved ≡ kept) ↔ SaysPhase "disarmed" asked
  settlement-kept_iff asked = (
    of_kept asked,
    λ (a, e, p).
        subst (λ k. settlement (guard_report guard_id k) proved ≡ kept) (sym e) (said_kept a p),
  )

  -- The change counts as reverted exactly where the agent answers that the guard fired, that its reversal was
  -- written, and a reading has proved it.
  pub settlement-reverted_iff :
      (asked : Asked)
      → (settlement (guard_report guard_id asked) proved ≡ reverted)
        ↔ (SaysWritten asked × (proved ≡ true))
  settlement-reverted_iff asked = (
    of_reverted asked,
    λ (w, p).
        subst (λ k. settlement (guard_report guard_id k) proved ≡ reverted) (sym w.given)
          (said_written w.answer w.reversal w.says_fired w.carries w.says_written p),
  )
