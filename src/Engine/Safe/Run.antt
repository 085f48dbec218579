-- ===== src/Engine/Safe/Run.antt =====
-- src/localplane/backend/changes.py: a whole `apply` keeps the engine safe at each of its moments.
use local_plane.Prelude.{
  ◌≡◌, ◌≢◌, refl, ap, ◌∙◌, Bool, Option, none, some, List, ◌∷◌, arith, if◌then◌else◌,
}
use local_plane.Settlement.{
  MutationOutcome, not_written, written, write_unknown, MutationReport, GuardReport,
}
use local_plane.Recovery.{VerificationOutcome, verified, is_proved}
use local_plane.Engine.{
  RunState, ChangeResult, RunEvent, Preview, Checkpoint, ChangeRow, Store, HostCall,
  disarm_guard_call, Moment, ReadBack, Executor, Replanned,
}
use local_plane.Engine.Actions.{pure, ◌>>◌, ask}
use local_plane.Engine.Steps.{append, is_guarded}
use local_plane.Engine.Boundary.{guard_changed, settled_by}
use local_plane.Engine.Endings.{finish, hold, record_guard_settlement, release_guard, unproven}
use local_plane.Engine.Apply.{after_written, after_dispatch, execute, apply}
use local_plane.Engine.Logic.{
  Keeps, Keeps-from, Keeps-to, Keeps-pure, Keeps-if, Keeps-bind, Keeps-ask, Keeps-update_if,
}
use local_plane.Engine.Safe.{Safe, SafeBy}
use local_plane.Engine.Safe.Before.{Of, Fresh, Armed, acquire-Keeps}
use local_plane.Engine.Safe.Ready.{authorise-Keeps}
use local_plane.Engine.Safe.Guarded.{Quiet, prepare-Keeps, arm_guard-Keeps}
use local_plane.Engine.Safe.After.{Honest-calls, finish-Keeps, cross-Keeps, Crossed}
use local_plane.Engine.Safe.Written.{Answered, Told, dispatch-Keeps, settle-Keeps}
use local_plane.Engine.Safe.Reversal.{Seen, proved_verified, verify-Keeps, unproven-Keeps}
use local_plane.Engine.InFlight.{Under, Keeps-step}

abbrev pub Anywhere : Moment → Type 0
Anywhere m = Unit

pub Quiet-Safe :
    (k : HostCall) (s : Store) (calls : List HostCall) (o : Option ChangeRow)
    → Quiet k
    → SafeBy o s calls
    → SafeBy o s (k ∷ calls)
Quiet-Safe k s calls none q i = let (ea, er, et) = q calls in (ea ∙ i.0, er ∙ i.1, et ∙ i.2, i.3)
Quiet-Safe k s calls (some c) q (h, p) = (Honest-calls k calls c q h, p)

-- A call that asks for no mutation may be made at any moment.
pub Quiet-Keeps {ℓ} :
    {A : Type ℓ} (k : HostCall) (answer : List HostCall → A)
    → Quiet k
    → Keeps Safe Anywhere (ask k answer) (λ a. Anywhere)
Quiet-Keeps k answer q =
    Keeps-ask k answer λ m i u. (Quiet-Safe k m.store m.calls m.store.change q i, tt)

guard_safe :
    (r : GuardReport) (s : Store) (calls : List HostCall) (o : Option ChangeRow)
    → SafeBy o s calls
    → SafeBy o (append RunEvent.guard_settled (guard_changed (settled_by r) s)) calls
guard_safe r s calls none i = i
guard_safe r s calls (some c) i = i

pub settlement-Keeps :
    (r : GuardReport) → Keeps Safe Anywhere (record_guard_settlement r) (λ u. Anywhere)
unfolding record_guard_settlement
settlement-Keeps r =
    Keeps-update_if _ _ λ m i u. (guard_safe r m.store m.calls m.store.change i, tt)

pub release-Keeps :
    (b : Bool) (x : Executor) → Keeps Safe Anywhere (release_guard b x) (λ u. Anywhere)
unfolding release_guard
release-Keeps b x =
    Keeps-if b _ _
      (λ e.
        Keeps-bind {Q = λ r. Anywhere} _ _
          (Quiet-Keeps disarm_guard_call x.disarm_guard (λ calls. (refl, refl, refl)))
          settlement-Keeps)
      (λ e. Keeps-pure tt (λ m u. u))

hold-Keeps :
    (v : VerificationOutcome)
    → v ≡ verified
    → Keeps Safe (Under (Seen written v)) hold (λ u. Anywhere)
unfolding hold
hold-Keeps v e =
    Keeps-to (λ u. Anywhere) hold (λ u m y. tt)
      (Keeps-step {Y = λ st calls c. Unit {0}} _ refl (record {
        flies = λ c. refl;
        runs = λ st r. refl;
        honest = λ st calls c fl s h. h;
        holding = λ st calls c s held g. (s.0.1, s.1 ∙ ap some e);
        after = λ st calls c s h. tt;
      }))

module _ (p : Preview) (x : Executor) (checkpoint : Option Checkpoint) where
  proved_end :
      (v : VerificationOutcome)
      → v ≡ verified
      → Keeps Safe
          (Under (Seen written v))
          (if is_guarded p then hold else finish RunState.succeeded ChangeResult.succeeded none)
          (λ u. Anywhere)
  proved_end v e =
      Keeps-if (is_guarded p) hold _ (λ b. hold-Keeps v e)
        (λ b.
          finish-Keeps (Seen written v) RunState.succeeded ChangeResult.succeeded none refl
            (λ g. ground (arith, g)) (λ k. absurd (ground (arith, k)))
            (λ st calls c s h. (s.0.1, s.1 ∙ ap some e)))

  unproven_end :
      (o : MutationOutcome)
      → o ≢ not_written
      → (read : Option ReadBack)
      → Keeps Safe
          (Under (Told o))
          (unproven p x checkpoint read >> release_guard (is_guarded p) x)
          (λ u. Anywhere)
  unproven_end o n read =
      Keeps-bind {Q = λ u. Anywhere} _ _ (unproven-Keeps o n p x checkpoint read)
        λ u. release-Keeps (is_guarded p) x

  written-Keeps : Keeps Safe (Under (Told written)) (after_written p x checkpoint) (λ u. Anywhere)
  unfolding after_written
  written-Keeps =
      Keeps-bind {Q = λ r. Under (Seen written r.outcome)} _ _ (verify-Keeps written p x) λ read.
        Keeps-if (is_proved read.outcome) _ _
          (λ e. proved_end read.outcome (proved_verified read.outcome e))
          λ e.
            Keeps-from _
              (λ m i u. record { row = u.row; here = u.here; flying = u.flying; fact = u.fact.0 })
              (unproven_end written (λ d. ground (arith, d)) (some read))

  ended :
      (report : MutationReport) (o : MutationOutcome)
      → report.outcome ≡ o
      → Keeps {A = Unit {0}} Safe
          (Under (Told o))
          (elim o [
            | not_written ↦
                finish RunState.failed ChangeResult.failed none >> release_guard (is_guarded p) x
            | written ↦ after_written p x checkpoint
            | write_unknown ↦ unproven p x checkpoint none >> release_guard (is_guarded p) x
          ])
          (λ u. Anywhere)
  ended report not_written e =
      Keeps-bind {Q = λ u. Anywhere} _ _
        (finish-Keeps (Told not_written) RunState.failed ChangeResult.failed none refl
          (λ g. ground (arith, g)) (λ k. absurd (ground (arith, k))) (λ st calls c t h. t.1))
        λ u. release-Keeps (is_guarded p) x
  ended report written e = written-Keeps
  ended report write_unknown e = unproven_end write_unknown (λ d. ground (arith, d)) none

  execute-Keeps : Keeps Safe (Of Armed) (execute p x checkpoint) (λ u. Anywhere)
  unfolding execute after_dispatch
  execute-Keeps = Keeps-bind {Q = λ u. Under Crossed} _ _ (cross-Keeps p checkpoint) λ u.
      Keeps-bind {Q = λ r. Under (Answered r.outcome)} _ _ (dispatch-Keeps p x) λ report.
        Keeps-bind {Q = λ u. Under (Told report.outcome)} _ _ (settle-Keeps report)
          λ u. ended report report.outcome refl

pub apply-Keeps :
    (p : Preview) (x : Executor) (plan : Replanned)
    → Keeps Safe Anywhere (apply p x plan) (λ u. Anywhere)
unfolding apply
apply-Keeps p x plan = Keeps-bind {Q = λ u. Of Fresh} _ _ acquire-Keeps λ u.
    Keeps-bind {Q = λ u. Of Armed} _ _ (authorise-Keeps p x plan) λ u.
      Keeps-bind {Q = λ c. Of Armed} _ _ (prepare-Keeps p x) λ checkpoint.
        Keeps-bind {Q = λ u. Of Armed} _ _
          (Keeps-if (is_guarded p) _ (pure tt) (λ e. arm_guard-Keeps checkpoint x)
            (λ e. Keeps-pure tt (λ m a. a)))
          λ u. execute-Keeps p x checkpoint
