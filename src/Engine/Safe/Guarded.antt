-- ===== src/Engine/Safe/Guarded.antt =====
-- src/localplane/backend/changes.py: `_prepare` and `_arm_guard` keep the engine safe, whatever the host answers.
use local_plane.Prelude.{
  String, ◌≡◌, refl, ap, ◌∙◌, Bool, true, false, not, if◌then◌else◌, Option, none, some, List, ◌∷◌,
}
use local_plane.Engine.{
  RunEvent, Preview, Checkpoint, GuardRow, Store, HostCall, correlate_call, arm_guard_call,
  disarm_guard_call, Moment, Executor,
}
use local_plane.Engine.Actions.{
  World, Ran, ran, refused, Engine, refuse, transact, gets, ask, update, taken_if, update_if,
}
use local_plane.Engine.Steps.{step, stepped, changed, append, arms_recovery}
use local_plane.Engine.Boundary.{
  failed_at, fail_with, correlate, checkpoint_of, checkpoint_inserted_at, guard_inserted_at,
  or_fail, insert_checkpoint, arm_recovery, prepare, is_consumed, guard_inserted, abandoned_by,
  guard_changed, armed_row, armed_recorded, abandon_guard, arm_guard,
}
use local_plane.Engine.Constraints.{is_storable, guard_allows}
use local_plane.Engine.Logic.{
  Post, Holds, Keeps, Keeps-refuse, Keeps-pure, Keeps-gets, Keeps-ask, Keeps-if, Keeps-bind,
  committed,
}
use local_plane.Engine.Safe.{Safe, applied, reversed, told, is_before}
use local_plane.Engine.Safe.Before.{
  Of, Armed, Prepared, Prepared-Commits, Keeps-prepare, safe_none, none_safe,
}

-- A call that asks for no mutation and tells of none.
abbrev pub Quiet : HostCall → Type 0
Quiet k =
    (calls : List HostCall)
    → (applied (k ∷ calls) ≡ applied calls)
      × (reversed (k ∷ calls) ≡ reversed calls)
      × (told (k ∷ calls) ≡ told calls)

ask-Keeps {ℓ} :
    {A : Type ℓ} (k : HostCall) (answer : List HostCall → A)
    → Quiet k
    → Keeps Safe (Of Armed) (ask k answer) (λ a. Of Armed)
ask-Keeps k answer q = Keeps-ask k answer λ m i a.
    let n = safe_none m a.0 i in
    let e = q m.calls in
    (none_safe (record m { calls = k ∷ m.calls }) a.0 (e.0 ∙ n.0, e.1 ∙ n.1, e.2 ∙ n.2, n.3), a)

fail-Keeps {ℓ} :
    {A : Type ℓ} {Q : A → Moment → Type 0} (e : RunEvent) (code : String)
    → Keeps Safe (Of Armed) (fail_with e code) Q
unfolding step update
fail-Keeps e code =
    Keeps-bind {Q = λ u m. Unit} (step (failed_at e)) _
      (Keeps-prepare (λ s. Unit) (λ s. ran (tt, stepped (failed_at e) s)) (λ s a. a.0)
        λ s a b. (ap (changed (λ c. c)) a.0, refl, tt))
      λ u. Keeps-refuse code

or_fail-Keeps {ℓ} :
    {A : Type ℓ} (e : RunEvent) (r : Ran (A × Store)) (w : World)
    → Holds Safe w
    → Of Armed w.now
    → Prepared Armed r
    → Holds Safe (or_fail e r w).1 × Post (λ a. Of Armed) (or_fail e r w)
or_fail-Keeps e (ran (a, s)) w h p q =
    committed Safe (λ a. Of Armed) (ran (a, s)) w h
      (Prepared-Commits Armed (ran (a, s)) w.now.store w.now.calls (safe_none w.now p.0 h.0) q)
or_fail-Keeps {A = A} e (refused code) w h p q =
    (fail-Keeps {A = A} {Q = λ a. Of Armed} e code).run w h p

stored_Prepared :
    (k : Bool) (s : Store) (c : Checkpoint)
    → Armed s
    → is_before s.state ≡ true
    → Prepared Armed (
        if k
        then ran (some c, append RunEvent.checkpoint_written (record s { checkpoint = some c }))
        else refused "checkpoint_not_written")
stored_Prepared true s c a b = (a.0, b, a)
stored_Prepared false s c a b = tt

checkpoint-Prepared :
    (s : Store) (o o' : Option Checkpoint)
    → Armed s
    → is_before s.state ≡ true
    → Prepared Armed (checkpoint_inserted_at o o' s)
checkpoint-Prepared s none o' a b = tt
checkpoint-Prepared s (some c) none a b = stored_Prepared (is_storable c) s c a b
checkpoint-Prepared s (some c) (some d) a b = tt

insert-Keeps : (p : Preview) → Keeps Safe (Of Armed) (insert_checkpoint p) (λ c. Of Armed)
unfolding insert_checkpoint
insert-Keeps p = record {
  run = λ w h a. or_fail-Keeps RunEvent.arming_failed _ w h a (
      checkpoint-Prepared w.now.store (checkpoint_of p.change p.management_path)
        w.now.store.checkpoint a (safe_none w.now a.0 h.0).3);
}

failing {ℓ} :
    {A : Type ℓ} (e : RunEvent) (m : Engine A) (o : Option String)
    → Keeps Safe (Of Armed) m (λ a. Of Armed)
    → Keeps Safe (Of Armed) (elim o [ some code ↦ fail_with e code | none ↦ m ]) (λ a. Of Armed)
failing e m none k = k
failing e m (some code) k = fail-Keeps e code

-- A record of the guard or an event.
module _ (f : Store → Store)
    (plain : (s : Store)
      → ((f s).change ≡ s.change)
        × ((f s).lock ≡ s.lock)
        × ((f s).state ≡ s.state)
        × ((f s).confirmation ≡ s.confirmation)) where
  update-Keeps : Keeps Safe (Of Armed) (update f) (λ u. Of Armed)
  unfolding update
  update-Keeps =
      Keeps-prepare Armed (λ s. ran (tt, f s)) (λ s a. a.0)
        λ s a b.
          let e = plain s in
          (e.0 ∙ a.0, ap is_before e.2 ∙ b, (e.0 ∙ a.0, e.1 ∙ a.1, ap is_consumed e.3 ∙ a.2))

-- A record of the guard that the table may refuse
taken-Prepared :
    (b : Bool) (s : Store)
    → s.change ≡ none
    → is_before s.state ≡ true
    → Armed s
    → Prepared Armed (taken_if b s)
taken-Prepared true s e b a = (e, b, a)
taken-Prepared false s e b a = tt

module _ (takes : Store → Bool) (f : Store → Store)
    (plain : (s : Store)
      → ((f s).change ≡ s.change)
        × ((f s).lock ≡ s.lock)
        × ((f s).state ≡ s.state)
        × ((f s).confirmation ≡ s.confirmation)) where
  guard-Keeps : Keeps Safe (Of Armed) (update_if takes f) (λ u. Of Armed)
  unfolding update_if
  guard-Keeps =
      Keeps-prepare Armed (λ s. taken_if (takes s) (f s)) (λ s a. a.0)
        λ s a b.
          let e = plain s in
          taken-Prepared (takes s) (f s) (e.0 ∙ a.0) (ap is_before e.2 ∙ b)
            (e.0 ∙ a.0, e.1 ∙ a.1, ap is_consumed e.3 ∙ a.2)

correlate-Keeps : (x : Executor) → Keeps Safe (Of Armed) (correlate x) (λ c. Of Armed)
unfolding correlate
correlate-Keeps x =
    Keeps-bind {Q = λ r. Of Armed} (ask correlate_call x.correlate) _
      (ask-Keeps correlate_call x.correlate (λ calls. (refl, refl, refl)))
      λ o. failing RunEvent.target_correlation_failed _ o (
        Keeps-bind {Q = λ u. Of Armed} _ _
          (update-Keeps (append RunEvent.target_correlated) (λ s. (refl, refl, refl, refl)))
          λ u. Keeps-pure none (λ m a. a))

recovery-Keeps :
    (p : Preview) (x : Executor) → Keeps Safe (Of Armed) (arm_recovery p x) (λ c. Of Armed)
unfolding arm_recovery
recovery-Keeps p x =
    Keeps-bind {Q = λ r. Of Armed} (ask correlate_call x.correlate) _
      (ask-Keeps correlate_call x.correlate (λ calls. (refl, refl, refl)))
      λ o. failing RunEvent.arming_failed _ o (insert-Keeps p)

pub prepare-Keeps :
    (p : Preview) (x : Executor) → Keeps Safe (Of Armed) (prepare p x) (λ c. Of Armed)
unfolding prepare
prepare-Keeps p x =
    Keeps-if (arms_recovery p) (arm_recovery p x) (correlate x) (λ e. recovery-Keeps p x)
      (λ e. correlate-Keeps x)

abandon-Keeps :
    (x : Executor) (code : String) → Keeps Safe (Of Armed) (abandon_guard x code) (λ u. Of Armed)
abandon-Keeps x code =
    Keeps-bind {Q = λ r. Of Armed} (ask disarm_guard_call x.disarm_guard) _
      (ask-Keeps disarm_guard_call x.disarm_guard (λ calls. (refl, refl, refl)))
      λ report.
        Keeps-bind {Q = λ u. Of Armed} _ _
          (guard-Keeps (guard_allows (abandoned_by report)) (guard_changed (abandoned_by report))
            (λ s. (refl, refl, refl, refl)))
          λ u. fail-Keeps RunEvent.guard_arming_failed code

guard-Prepared :
    (s : Store) (o : Option GuardRow)
    → Armed s
    → is_before s.state ≡ true
    → Prepared Armed (guard_inserted_at o s)
guard-Prepared s none a b = (a.0, b, a)
guard-Prepared s (some g) a b = tt

armed_or_abandoned :
    (x : Executor) (o : Option String)
    → Keeps Safe
        (Of Armed)
        (elim o [
          | some code ↦ abandon_guard x code
          | none ↦ update_if (guard_allows armed_row) armed_recorded
        ])
        (λ u. Of Armed)
armed_or_abandoned x none =
    guard-Keeps (guard_allows armed_row) armed_recorded (λ s. (refl, refl, refl, refl))
armed_or_abandoned x (some code) = abandon-Keeps x code

pub arm_guard-Keeps :
    (o : Option Checkpoint) (x : Executor) → Keeps Safe (Of Armed) (arm_guard o x) (λ u. Of Armed)
unfolding arm_guard
arm_guard-Keeps none x = Keeps-refuse "assertion_error"
arm_guard-Keeps (some c) x =
    Keeps-bind {Q = λ b. Of Armed} (gets (λ s. is_consumed s.confirmation)) _
      (Keeps-gets (λ s. is_consumed s.confirmation) (λ m a. a))
      λ authorised.
        Keeps-if (not authorised) (refuse "confirmation_required") _
          (λ e. Keeps-refuse "confirmation_required")
          λ e.
            Keeps-bind {Q = λ u. Of Armed} (transact guard_inserted) _
              (Keeps-prepare Armed guard_inserted (λ s a. a.0)
                (λ s a b. guard-Prepared s s.guard a b))
              λ u.
                Keeps-bind {Q = λ r. Of Armed} (ask arm_guard_call x.arm_guard) _
                  (ask-Keeps arm_guard_call x.arm_guard (λ calls. (refl, refl, refl)))
                  λ o. armed_or_abandoned x o
