-- ===== src/Engine/Safe/Kept.antt =====
-- src/localplane/backend/changes.py: the ends of a held change: `guard_keep`, `_keep` and `_settle_lapsed`.
use local_plane.Prelude.{
  ◌≡◌, refl, sym, ap, ◌∙◌, Bool, true, not, ◌&&◌, Option, none, some, List, arith, if◌then◌else◌,
}
use local_plane.Protection.{ManagementPathRelation, on_management_path, relation_eq}
use local_plane.Settlement.{GuardReport, settlement}
use local_plane.Recovery.{VerificationOutcome, is_proved}
use local_plane.Engine.{
  RunState, ChangeResult, RecoveryReason, RunEvent, Preview, Checkpoint, ChangeRow, Store, HostCall,
  Moment, Executor,
}
use local_plane.Engine.Actions.{refuse, gets}
use local_plane.Engine.Endings.{finish, recover, restored_expectation}
use local_plane.Engine.Constraints.{unsettled}
use local_plane.Engine.Held.{
  is_held_state, is_armed, is_disarmed, lapsed_reason, is_reverted_settlement, unverified_reason,
  lapsed_end, verify_lapsed, settle_lapsed_from, settle_lapsed, guard_answer, keep_answered,
  keep_asked, guard_keep,
}
use local_plane.Engine.Logic.{
  Keeps, Keeps-refuse, Keeps-gets, Keeps-if, Keeps-if_true, Keeps-bind, Keeps-from,
}
use local_plane.Engine.Safe.{Safe, SafeBy, StateOf, is_before}
use local_plane.Engine.Safe.After.{
  plain-Moves, quiet_asks, event-Keeps, finish-Keeps, recover-Keeps, Honest-row, in_flight-Ended,
}
use local_plane.Engine.Safe.Reversal.{read-Keeps, proved_verified}
use local_plane.Engine.Safe.Lapsed.{Held, HeldProved, keep-Keeps, settlement-Keeps, lapse-Keeps}
use local_plane.Engine.Safe.Run.{Anywhere}
use local_plane.Engine.InFlight.{Under, Keeps-step}

-- A guard's reversal ends the run as rolled back only where the reading proves it.
reverted_proved :
    (report : GuardReport) (b : Bool)
    → is_reverted_settlement (settlement report b) ≡ true
    → b ≡ true
unfolding settlement
reverted_proved report b e = ground (arith, e)

module _ (report : GuardReport) (v : VerificationOutcome) where
  end_of :
      (o : Option RecoveryReason)
      → Keeps {A = Unit {0}} Safe
          (Under (HeldProved v))
          (elim o [
            | none ↦ refuse "assertion_error"
            | some reason ↦
                if is_reverted_settlement (settlement report (is_proved v))
                then finish RunState.rolled_back ChangeResult.rolled_back none
                else recover reason
          ])
          (λ u. Anywhere)
  end_of none = Keeps-refuse "assertion_error"
  end_of (some reason) =
      Keeps-if (is_reverted_settlement (settlement report (is_proved v))) _ _
        (λ e.
          finish-Keeps (HeldProved v) RunState.rolled_back ChangeResult.rolled_back none refl
            (λ g. ground (arith, g)) (λ k. absurd (ground (arith, k)))
            (λ st calls c h y.
              h.1 ∙ ap some (proved_verified v (reverted_proved report (is_proved v) e))))
        (λ e. recover-Keeps (HeldProved v) reason)

  lapsed_end-Keeps : Keeps Safe (Under (HeldProved v)) (lapsed_end report v) (λ u. Anywhere)
  unfolding lapsed_end
  lapsed_end-Keeps = end_of (unverified_reason v report.mutation)

module _ (p : Preview) (x : Executor) (report : GuardReport) where
  verify_lapsed-Keeps :
      (c : Checkpoint) → Keeps Safe (Under Held) (verify_lapsed p x c report) (λ u. Anywhere)
  unfolding verify_lapsed
  verify_lapsed-Keeps c =
      Keeps-bind {Q = λ u. Under Held} _ _
        (Keeps-step _ refl (
          plain-Moves Held (λ c. c) (λ st. RunState.rollback_verifying)
            (λ c. (refl, refl, refl, refl)) (λ st r. refl) (λ st calls c h g. ground (arith, g))
            (λ st calls c h. h)))
        λ u.
          Keeps-bind {Q = λ r. Under Held} _ _
            (read-Keeps Held (λ st calls c h. h) p x (restored_expectation c))
            λ read.
              Keeps-bind {Q = λ u. Under (HeldProved read.outcome)} _ _
                (Keeps-step _ refl (record {
                  flies = λ c. refl;
                  runs = λ st r. r;
                  honest = λ st calls c fl h y.
                      Honest-row (record c { rollback_verification_outcome = some read.outcome })
                        refl refl refl (in_flight-Ended c.result _ fl) y;
                  holding = λ st calls c h held g. h;
                  after = λ st calls c h y. (h, refl);
                }))
                λ u. lapsed_end-Keeps report read.outcome

  reason_of :
      (c : Checkpoint) (o : Option RecoveryReason)
      → Keeps {A = Unit {0}} Safe
          (Under Held)
          (elim o [ some reason ↦ recover reason | none ↦ verify_lapsed p x c report ])
          (λ u. Anywhere)
  reason_of c none = verify_lapsed-Keeps c
  reason_of c (some reason) = recover-Keeps Held reason

  lapsed_from :
      (o : Option Checkpoint)
      → Keeps Safe (Under Held) (settle_lapsed_from p x report o) (λ u. Anywhere)
  unfolding settle_lapsed_from
  lapsed_from none = Keeps-refuse "assertion_error"
  lapsed_from (some c) = Keeps-bind {Q = λ u. Under Held} _ _ (lapse-Keeps report) λ u.
      Keeps-bind {Q = λ u. Under Held} _ _ (settlement-Keeps Held report)
        λ u. reason_of c (lapsed_reason report)

  pub settle_lapsed-Keeps : Keeps Safe (Under Held) (settle_lapsed p x report) (λ u. Anywhere)
  unfolding settle_lapsed
  settle_lapsed-Keeps =
      Keeps-bind {Q = λ o. Under Held} (gets (λ s. s.checkpoint)) _
        (Keeps-gets (λ s. s.checkpoint) (λ m u. u)) lapsed_from

before_held : (st : RunState) → is_before st ≡ true → is_held_state st ≡ true → ⊥
before_held st b h = ground (arith, b, h)

held_state : (st : RunState) → is_held_state st ≡ true → st ≡ RunState.guarded
held_state st h = ground (arith, h)

held_flying :
    (r : ChangeResult) (st : RunState)
    → st ≡ RunState.guarded
    → StateOf r st
    → r ≡ ChangeResult.in_flight
held_flying ChangeResult.in_flight st g h = refl
held_flying ChangeResult.succeeded st g h = absurd (ground (arith, g, h))
held_flying ChangeResult.failed st g h = absurd (ground (arith, g, h))
held_flying ChangeResult.rolled_back st g h = absurd (ground (arith, g, h))
held_flying ChangeResult.recovery_required st g h = absurd (ground (arith, g, h))

-- A run whose state is the held one has its change under way, written and proved.
held_of :
    (s : Store) (calls : List HostCall) (o : Option ChangeRow)
    → s.change ≡ o
    → is_held_state s.state ≡ true
    → SafeBy o s calls
    → Under Held (record { store = s; calls = calls })
held_of s calls none e h i = absurd (before_held s.state i.3 h)
held_of s calls (some c) e h (y, p) =
    let g = held_state s.state h in
    record {
      row = c;
      here = e;
      flying = held_flying c.result s.state g p.state_of;
      fact = p.holding g;
    }

pub held_under : (m : Moment) → Safe m → is_held_state m.store.state ≡ true → Under Held m
held_under m i h = held_of m.store m.calls m.store.change refl h i

module _ (p : Preview) (x : Executor) where
  answer-Keeps :
      (proved : Bool) → Keeps Safe (Under Held) (guard_answer p x proved) (λ r. Under Held)
  unfolding guard_answer
  answer-Keeps proved =
      Keeps-if proved _ _
        (λ e. quiet_asks _ x.disarm_guard (λ calls. (refl, refl, refl)) (λ st calls c h. h))
        (λ e. quiet_asks _ x.guard_status (λ calls. (refl, refl, refl)) (λ st calls c h. h))

  answered-Keeps :
      (proved : Bool) (report : GuardReport)
      → Keeps Safe (Under Held) (keep_answered p x proved report) (λ u. Anywhere)
  unfolding keep_answered
  answered-Keeps proved report =
      Keeps-if (is_armed report.phase) _ _
        (λ e.
          Keeps-bind {Q = λ u. Under Held} _ _ (event-Keeps Held RunEvent.guard_keep_refused)
            λ u. Keeps-refuse "guard_connection_not_proved")
        λ e.
          Keeps-if (proved && is_disarmed report.phase) _ _ (λ e. keep-Keeps)
            (λ e. settle_lapsed-Keeps p x report)

  asked-Keeps :
      (acknowledge : Bool) (relation : ManagementPathRelation)
      → Keeps Safe (Under Held) (keep_asked p x acknowledge relation) (λ u. Anywhere)
  unfolding keep_asked
  asked-Keeps acknowledge relation =
      Keeps-if (not acknowledge) _ _
        (λ e.
          Keeps-bind {Q = λ u. Under Held} _ _ (event-Keeps Held RunEvent.guard_keep_refused)
            λ u. Keeps-refuse "keep_not_acknowledged")
        λ e.
          Keeps-bind {Q = λ r. Under Held} _ _
            (answer-Keeps (relation_eq relation on_management_path))
            (answered-Keeps (relation_eq relation on_management_path))

  pub guard_keep-Keeps :
      (acknowledge : Bool) (relation : ManagementPathRelation)
      → Keeps Safe Anywhere (guard_keep p x acknowledge relation) (λ u. Anywhere)
  unfolding guard_keep
  guard_keep-Keeps acknowledge relation =
      Keeps-bind {Q = λ s m. s ≡ m.store} (gets (λ s. s)) _ (Keeps-gets (λ s. s) (λ m u. refl)) λ s.
        Keeps-if_true (is_held_state s.state) _ _ (λ e. Keeps-refuse "run_not_guarded")
          λ e.
            Keeps-if_true (unsettled s.guard) _ _ (λ e. Keeps-refuse "guard_already_settled")
              λ e'.
                Keeps-from _ (λ m i q. held_under m i (ap (λ s. is_held_state s.state) (sym q) ∙ e))
                  (asked-Keeps acknowledge relation)
