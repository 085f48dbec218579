-- ===== src/Engine/Safe/Ready.antt =====
-- src/localplane/backend/changes.py: the authorisation of an attempt and what it makes ready, up to the boundary.
use local_plane.Prelude.{
  ◌≡◌, refl, sym, ap, ◌∙◌, Bool, true, false, not, ◌&&◌, none, some, if◌then◌else◌,
}
use mathlib.Core.Path.{subst}
use local_plane.Protection.{relation_eq}
use local_plane.Engine.{
  RunState, RunEvent, Preview, Store, Moment, Executor, Replanned, plan_refused, replanned,
}
use local_plane.Engine.Actions.{
  World, Ran, ran, refused, Engine, pure, refuse, continue, commit, ◌>>=◌, ◌>>◌, transact, gets,
  update,
}
use local_plane.Engine.Steps.{
  StepArgs, at, step, stepped, changed, append, require_target, require_executable_preview,
  plan_now, consumed_by, override_consumed, confirmation_consumed, arms_recovery, is_preview,
  consume_confirmation, is_available, is_executable, required_relation, path_refusal, permitted,
}
use local_plane.Engine.Apply.{authorise, refusal_recorded}
use local_plane.Engine.Logic.{
  Post, Holds, Keeps, Keeps-pure, Keeps-gets, Keeps-if, Keeps-bind, Keeps-on_refusal,
}
use local_plane.Engine.Safe.{Safe}
use local_plane.Engine.Safe.Before.{
  Of, Fresh, Armed, RanAll, if_ran-RanAll, Alike, override-Alike, confirmed-Prepared, Keeps-prepare,
  safe_none, none_safe,
}

abbrev Uncrossed : World → Type 0
Uncrossed w = w.now.store.change ≡ none

-- The action crosses no boundary, whether it is refused or not.
abbrev Stays {ℓ} : {A : Type ℓ} → Engine A → Type 0
Stays m = (w : World) → Uncrossed w → Uncrossed (m w).1

module _ {ℓ κ} {A : Type ℓ} {B : Type κ} where
  continued :
      (f : A → Engine B) (r : Ran A × World)
      → ((a : A) → Stays (f a))
      → Uncrossed r.1
      → Uncrossed (continue r.0 f r.1).1
  continued f (ran a, w) h e = h a w e
  continued f (refused code, w) h e = e

  Stays-bind :
      (m : Engine A) (f : A → Engine B) → Stays m → ((a : A) → Stays (f a)) → Stays (m >>= f)
  unfolding ◌>>=◌
  Stays-bind m f hm hf w e = continued f (m w) hf (hm w e)

module _ {ℓ} {A : Type ℓ} where
  Stays-if : (b : Bool) (m n : Engine A) → Stays m → Stays n → Stays (if b then m else n)
  Stays-if true m n hm hn = hm
  Stays-if false m n hm hn = hn

  committed :
      (r : Ran (A × Store)) (w : World)
      → Uncrossed w
      → RanAll (λ x. x.1.change ≡ none) r
      → Uncrossed (commit r w).1
  committed (ran (a, s)) w e h = h
  committed (refused code) w e h = e

  Stays-transact :
      (f : Store → Ran (A × Store))
      → ((s : Store) → s.change ≡ none → RanAll (λ x. x.1.change ≡ none) (f s))
      → Stays (transact f)
  unfolding transact
  Stays-transact f h w e = committed (f w.now.store) w e (h w.now.store e)

Stays-step : (a : StepArgs) → Stays (step a)
unfolding step update
Stays-step a = Stays-transact (λ s. ran (tt, stepped a s)) λ s e. ap (changed a.change) e

-- The action only looks.
abbrev pub Idle {ℓ} : {A : Type ℓ} → Engine A → Type 0
Idle m = (w : World) → (m w).1 ≡ w

module _ {ℓ} {A : Type ℓ} where
  pub Idle-if : (b : Bool) (m n : Engine A) → Idle m → Idle n → Idle (if b then m else n)
  Idle-if true m n hm hn = hm
  Idle-if false m n hm hn = hn

  Idle-Stays : (m : Engine A) → Idle m → Stays m
  Idle-Stays m h w e = ap (λ v. v.now.store.change) (h w) ∙ e

  idle_post :
      (P : Moment → Type 0) (r : Ran A × World) (w : World) → r.1 ≡ w → P w.now → Post (λ a. P) r
  idle_post P (ran a, v) w e p = subst (λ u. P u.now) (sym e) p
  idle_post P (refused code, v) w e p = tt

  pub Idle-Keeps : {I P : Moment → Type 0} (m : Engine A) → Idle m → Keeps I P m (λ a. P)
  Idle-Keeps {I = I} {P = P} m h = record {
    run = λ w i p. (subst (Holds I) (sym (h w)) i, idle_post P (m w) w (h w) p);
  }

pub require_target-Idle : (x : Executor) → Idle (require_target x)
unfolding require_target
require_target-Idle x w = refl

pub executable-Idle : (p : Preview) → Idle (require_executable_preview p)
unfolding require_executable_preview pure refuse
executable-Idle p =
    Idle-if (is_available p.availability && is_executable p.eligibility) (pure tt)
      (refuse "preview_not_executable") (λ w. refl) (λ w. refl)

pub plan_now-Idle : (p : Preview) (plan : Replanned) → Idle (plan_now p plan)
unfolding plan_now pure refuse
plan_now-Idle p plan_refused = λ w. refl
plan_now-Idle p (replanned stale relation eligibility) =
    Idle-if stale (refuse "preview_stale") _ (λ w. refl)
      (Idle-if (p.asks_the_resource_relation && not (relation_eq relation (required_relation p)))
        (refuse (path_refusal p relation)) _ (λ w. refl)
        (Idle-if (not (permitted p eligibility)) (refuse "execution_blocked") (pure tt) (λ w. refl)
          (λ w. refl)))

begun_uncrossed :
    (s : Store) (b : Bool)
    → s.change ≡ none
    → (if b
        then append RunEvent.arming_started (record s { state = RunState.arming })
        else s).change
      ≡ none
begun_uncrossed s true e = e
begun_uncrossed s false e = e

trivially {ℓ} : {A : Type ℓ} (r : Ran A) → RanAll (λ a. Unit {0}) r
trivially (ran a) = tt
trivially (refused code) = tt

confirmed_uncrossed :
    (p : Preview) (s : Store)
    → s.change ≡ none
    → RanAll (λ x. x.1.change ≡ none) (confirmation_consumed p s)
confirmed_uncrossed p s e =
    if_ran-RanAll (λ c. Unit {0}) _
      (consumed_by p "confirmation_required" "confirmation_already_consumed" s.confirmation) _
      (trivially _)
      λ c u.
        let s' : Store =
          append RunEvent.confirmation_consumed (record s { confirmation = some c }) in
        if_ran-RanAll (Alike s') _ (override_consumed p s') _ (override-Alike p s')
          λ s'' alike. begun_uncrossed s'' (arms_recovery p) (alike.0 ∙ e)

consume-Stays : (p : Preview) → Stays (consume_confirmation p)
unfolding consume_confirmation gets pure
consume-Stays p =
    Stays-bind (gets (λ s. is_preview s.state)) _ (λ w e. e)
      λ fresh.
        Stays-bind
          (if fresh
            then step (record (at RunEvent.confirmation_required) {
              state = some RunState.awaiting_confirmation;
            })
            else pure tt)
          _ (Stays-if fresh _ (pure tt) (Stays-step _) (λ w e. e))
          λ u. Stays-transact (confirmation_consumed p) (confirmed_uncrossed p)

abbrev awaiting : StepArgs
awaiting = record (at RunEvent.confirmation_required) {
  state = some RunState.awaiting_confirmation;
}

awaiting-step : Keeps Safe (Of Fresh) (step awaiting) (λ u. Of Fresh)
unfolding step update
awaiting-step =
    Keeps-prepare Fresh (λ s. ran (tt, stepped awaiting s)) (λ s f. f.0)
      λ s f b. (ap (changed (λ c. c)) f.0, refl, (ap (changed (λ c. c)) f.0, f.1))

consume-Keeps : (p : Preview) → Keeps Safe (Of Fresh) (consume_confirmation p) (λ u. Of Armed)
unfolding consume_confirmation
consume-Keeps p =
    Keeps-bind {Q = λ b. Of Fresh} (gets (λ s. is_preview s.state)) _
      (Keeps-gets (λ s. is_preview s.state) (λ m f. f))
      λ fresh.
        Keeps-bind {Q = λ u. Of Fresh} _ _
          (Keeps-if fresh _ (pure tt) (λ e. awaiting-step) (λ e. Keeps-pure tt (λ m f. f)))
          λ u. Keeps-prepare Armed (confirmation_consumed p) (λ s f. f.0) (confirmed-Prepared p)

module _ (p : Preview) (x : Executor) (plan : Replanned) where
  checks : Engine (Unit {0})
  checks =
      require_target x >> require_executable_preview p >> plan_now p plan >> consume_confirmation p

  checks-Stays : Stays checks
  unfolding checks
  checks-Stays =
      Stays-bind _ _
        (Stays-bind _ _
          (Stays-bind _ _ (Idle-Stays (require_target x) (require_target-Idle x))
            λ u. Idle-Stays (require_executable_preview p) (executable-Idle p))
          λ u. Idle-Stays (plan_now p plan) (plan_now-Idle p plan))
        λ u. consume-Stays p

  checks-Keeps : Keeps Safe (Of Fresh) checks (λ u. Of Armed)
  unfolding checks
  checks-Keeps =
      Keeps-bind {Q = λ u. Of Fresh} _ _
        (Keeps-bind {Q = λ u. Of Fresh} _ _
          (Keeps-bind {Q = λ u. Of Fresh} _ _
            (Idle-Keeps (require_target x) (require_target-Idle x))
            λ u. Idle-Keeps (require_executable_preview p) (executable-Idle p))
          λ u. Idle-Keeps (plan_now p plan) (plan_now-Idle p plan))
        λ u. consume-Keeps p

  pub authorise-Keeps : Keeps Safe (Of Fresh) (authorise p x plan) (λ u. Of Armed)
  unfolding authorise checks
  authorise-Keeps =
      Keeps-on_refusal (λ m. m.store.change ≡ none) checks refusal_recorded
        (λ w f. checks-Stays w f.0)
        (λ n i e. none_safe (record n { store = refusal_recorded n.store }) e (safe_none n e i))
        checks-Keeps
