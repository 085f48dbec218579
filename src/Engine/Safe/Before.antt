-- ===== src/Engine/Safe/Before.antt =====
-- src/localplane/backend/changes.py: what the engine does before the write boundary keeps it safe, and leaves the
-- lock held and the confirmation consumed.
use local_plane.Prelude.{
  String, str_eq, ◌≡◌, refl, sym, ap, ◌∙◌, Bool, true, false, not, Option, none, some, List, arith,
  if◌then◌else◌,
}
use mathlib.Core.Path.{subst}
use local_plane.Engine.{
  RunState, RunEvent, ChangeResult, Preview, Confirmation, ChangeRow, Lock, free, held_here,
  held_elsewhere, Store, HostCall, Moment,
}
use local_plane.Engine.Actions.{Ran, ran, refused, transact, if_ran}
use local_plane.Engine.Steps.{
  acquire, is_appliable, lock_taken, consumed_by, override_consumed, confirmation_consumed, append,
  requires_self_impact_override, arms_recovery,
}
use local_plane.Engine.Logic.{Keeps, Commits, Keeps-transact}
use local_plane.Engine.Safe.{Safe, SafeBy, StateOf, is_before, is_running}
use local_plane.Engine.Boundary.{is_consumed}

abbrev pub Of : (Store → Type 0) → Moment → Type 0
Of S m = S m.store

-- The boundary is not crossed, and the run holds its lock.
abbrev pub Fresh : Store → Type 0
Fresh s = (s.change ≡ none) × (s.lock ≡ held_here)

-- The confirmation is consumed as well.
abbrev pub Armed : Store → Type 0
Armed s = (s.change ≡ none) × (s.lock ≡ held_here) × (is_consumed s.confirmation ≡ true)

running_appliable : (st : RunState) → is_running st ≡ true → is_appliable st ≡ false
running_appliable RunState.draft e = refl
running_appliable RunState.preview e = absurd (ground arith)
running_appliable RunState.awaiting_confirmation e = absurd (ground arith)
running_appliable RunState.arming e = refl
running_appliable RunState.applying e = refl
running_appliable RunState.verifying e = refl
running_appliable RunState.guarded e = refl
running_appliable RunState.succeeded e = refl
running_appliable RunState.failed e = refl
running_appliable RunState.rolling_back e = refl
running_appliable RunState.rollback_verifying e = refl
running_appliable RunState.rolled_back e = refl
running_appliable RunState.recovery_required e = refl
running_appliable RunState.cancelled e = refl

placed_appliable : (r : ChangeResult) (st : RunState) → StateOf r st → is_appliable st ≡ false
placed_appliable ChangeResult.in_flight st e = running_appliable st e
placed_appliable ChangeResult.succeeded st e = ap is_appliable e
placed_appliable ChangeResult.failed st e = ap is_appliable e
placed_appliable ChangeResult.rolled_back st e = ap is_appliable e
placed_appliable ChangeResult.recovery_required st e = ap is_appliable e

-- A run that may be applied has crossed no boundary.
appliable_by :
    (o : Option ChangeRow) (s : Store) (calls : List HostCall)
    → SafeBy o s calls
    → is_appliable s.state ≡ true
    → o ≡ none
appliable_by none s calls i e = refl
appliable_by (some c) s calls (h, p) e =
    absurd (ground (arith, placed_appliable c.result s.state p.state_of))

pub safe_none : (m : Moment) → m.store.change ≡ none → Safe m → SafeBy none m.store m.calls
safe_none m e i = subst (λ x. SafeBy x m.store m.calls) e i

pub none_safe : (m : Moment) → m.store.change ≡ none → SafeBy none m.store m.calls → Safe m
none_safe m e i = subst (λ x. SafeBy x m.store m.calls) (sym e) i

abbrev pub RanAll {ℓ} : {A : Type ℓ} → (A → Type 0) → Ran A → Type 0
RanAll P (ran a) = P a
RanAll P (refused code) = Unit

-- A transaction before the boundary: what it commits is before the boundary as well.
abbrev pub Prepared {ℓ} : {A : Type ℓ} → (Store → Type 0) → Ran (A × Store) → Type 0
Prepared T r = RanAll (λ x. (x.1.change ≡ none) × (is_before x.1.state ≡ true) × T x.1) r

pub Prepared-Commits {ℓ} :
    {A : Type ℓ} (T : Store → Type 0) (r : Ran (A × Store)) (s : Store) (calls : List HostCall)
    → SafeBy none s calls
    → Prepared T r
    → Commits Safe (λ a. Of T) r calls
Prepared-Commits T (ran (a, s')) s calls i (e, b, t) =
    (none_safe (record { store = s'; calls = calls }) e (i.0, i.1, i.2, b), t)
Prepared-Commits T (refused code) s calls i q = tt

module _ {ℓ} {A : Type ℓ} {S : Store → Type 0} (T : Store → Type 0) where
  pub Keeps-prepare :
      (f : Store → Ran (A × Store))
      → ((s : Store) → S s → s.change ≡ none)
      → ((s : Store) → S s → is_before s.state ≡ true → Prepared T (f s))
      → Keeps Safe (Of S) (transact f) (λ a. Of T)
  Keeps-prepare f e q = Keeps-transact f λ m i p.
      let n = safe_none m (e m.store p) i in
      Prepared-Commits T (f m.store) m.store m.calls n (q m.store p n.3)

lock_taken-Prepared :
    (s : Store) (l : Lock)
    → s.lock ≡ l
    → s.change ≡ none
    → is_before s.state ≡ true
    → Prepared Fresh (lock_taken l s)
lock_taken-Prepared s free e c b = (c, b, (c, refl))
lock_taken-Prepared s held_here e c b = (c, b, (c, e))
lock_taken-Prepared s held_elsewhere e c b = tt

acquired :
    (s : Store) (calls : List HostCall) (b : Bool)
    → is_appliable s.state ≡ b
    → Safe (record { store = s; calls = calls })
    → Commits Safe
        (λ u. Of Fresh)
        (if b then lock_taken s.lock s else refused "run_not_appliable")
        calls
acquired s calls true e i =
    let m : Moment = record { store = s; calls = calls } in
    let c = appliable_by s.change s calls i e in
    let n = safe_none m c i in
    Prepared-Commits Fresh (lock_taken s.lock s) s calls n (lock_taken-Prepared s s.lock refl c n.3)
acquired s calls false e i = tt

pub acquire-Keeps : Keeps Safe (λ m. Unit) acquire (λ u. Of Fresh)
unfolding acquire
acquire-Keeps =
    Keeps-transact
      (λ s. if is_appliable s.state then lock_taken s.lock s else refused "run_not_appliable")
      λ m i p. acquired m.store m.calls (is_appliable m.store.state) refl i

module _ {ℓ} {A : Type ℓ} (P : A → Type 0) where
  if-RanAll : (b : Bool) (r r' : Ran A) → RanAll P r → RanAll P r' → RanAll P (if b then r else r')
  if-RanAll true r r' h h' = h
  if-RanAll false r r' h h' = h'

pub if_ran-RanAll {ℓ κ} :
    {A : Type ℓ} {B : Type κ} (P : B → Type 0) (Q : A → Type 0) (r : Ran B) (f : B → Ran A)
    → RanAll P r
    → ((b : B) → P b → RanAll Q (f b))
    → RanAll Q (if_ran r f)
if_ran-RanAll P Q (ran b) f h q = q b h
if_ran-RanAll P Q (refused code) f h q = tt

abbrev Used : Confirmation → Type 0
Used c = c.consumed ≡ true

consumed_by-Used :
    (p : Preview) (missing used : String) (o : Option Confirmation)
    → RanAll Used (consumed_by p missing used o)
consumed_by-Used p missing used none = tt
consumed_by-Used p missing used (some c) = if-RanAll Used c.consumed (refused used) _ tt (
    if-RanAll Used (not (str_eq c.preview_digest p.digest)) (refused "preview_digest_mismatch")
      (ran (record c { consumed = true })) tt refl)

-- What an override's consumption leaves alone.
abbrev pub Alike : Store → Store → Type 0
Alike s s' =
    (s'.change ≡ s.change)
    × (s'.lock ≡ s.lock)
    × (s'.state ≡ s.state)
    × (s'.confirmation ≡ s.confirmation)

marked-Alike :
    (s : Store) (r : Ran Confirmation)
    → RanAll (Alike s) (
        if_ran r
          (λ o. ran (append RunEvent.confirmation_consumed (record s { override = some o }))))
marked-Alike s (ran o) = (refl, refl, refl, refl)
marked-Alike s (refused code) = tt

pub override-Alike : (p : Preview) (s : Store) → RanAll (Alike s) (override_consumed p s)
override-Alike p s =
    if-RanAll (Alike s) (requires_self_impact_override p) _ (ran s)
      (marked-Alike s (
        consumed_by p "self_impact_override_required" "self_impact_override_already_consumed"
          s.override))
      (refl, refl, refl, refl)

begun-Prepared :
    (s : Store) (b : Bool)
    → Armed s
    → is_before s.state ≡ true
    → Prepared {A = Unit {0}} Armed (
        ran (
          tt,
          if b then append RunEvent.arming_started (record s { state = RunState.arming }) else s,
        ))
begun-Prepared s true a b = (a.0, refl, a)
begun-Prepared s false a b = (a.0, b, a)

pub confirmed-Prepared :
    (p : Preview) (s : Store)
    → Fresh s
    → is_before s.state ≡ true
    → Prepared Armed (confirmation_consumed p s)
confirmed-Prepared p s fresh b =
    if_ran-RanAll Used _ _ _
      (consumed_by-Used p "confirmation_required" "confirmation_already_consumed" s.confirmation)
      λ c used.
        let s' : Store =
          append RunEvent.confirmation_consumed (record s { confirmation = some c }) in
        if_ran-RanAll (Alike s') _ (override_consumed p s') _ (override-Alike p s')
          λ s'' (ec, el, es, ef).
            begun-Prepared s'' (arms_recovery p)
              (ec ∙ fresh.0, el ∙ fresh.1, ap is_consumed ef ∙ used) (ap is_before es ∙ b)
