-- ===== src/Engine/Safe/Confirmed.antt =====
-- src/localplane/backend/changes.py: granting an authority keeps the engine safe, at any moment.
use local_plane.Prelude.{String, ◌≡◌, refl, ap, Bool, Option, none, some, List, arith}
use local_plane.Policy.Confirmation.{ConfirmationMethod}
use local_plane.Engine.{
  RunEvent, Preview, Confirmation, ChangeRow, Store, HostCall, Executor, Replanned,
}
use local_plane.Engine.Actions.{Engine, pure, refuse, ◌>>◌, gets}
use local_plane.Engine.Steps.{
  append, is_appliable, require_target, require_executable_preview, plan_now,
}
use local_plane.Engine.Boundary.{is_consumed}
use local_plane.Engine.Confirm.{
  ConfirmRequest, require, typed_as, typed_confirmation, new_confirmation, confirmation_added,
  override_added, confirmable, confirm, grant_self_impact_override,
}
use local_plane.Engine.Logic.{Keeps, Commits, Keeps-refuse, Keeps-gets, Keeps-bind, Keeps-transact}
use local_plane.Engine.Safe.{Safe, SafeBy}
use local_plane.Engine.Safe.Ready.{
  Idle, Idle-if, Idle-Keeps, require_target-Idle, executable-Idle, plan_now-Idle,
}
use local_plane.Engine.Safe.Before.{none_safe}
use local_plane.Engine.Safe.Run.{Anywhere}

require-Idle : (b : Bool) (code : String) → Idle (require b code)
unfolding require pure refuse
require-Idle b code = Idle-if b (pure tt) (refuse code) (λ w. refl) (λ w. refl)

require-Keeps : (b : Bool) (code : String) → Keeps Safe Anywhere (require b code) (λ u. Anywhere)
require-Keeps b code = Idle-Keeps (require b code) (require-Idle b code)

typed_as-Keeps :
    (name : String) (typed : Option String)
    → Keeps Safe Anywhere (typed_as name typed) (λ u. Anywhere)
typed_as-Keeps name none = Keeps-refuse "confirmation_object_required"
typed_as-Keeps name (some typed) = require-Keeps _ _

typed-Keeps :
    (method : ConfirmationMethod) (x : Executor) (name : String) (typed : Option String)
    → Keeps Safe Anywhere (typed_confirmation method x name typed) (λ u. Anywhere)
typed-Keeps ConfirmationMethod.typed x name typed =
    Keeps-bind {Q = λ u. Anywhere} _ _ (Idle-Keeps (require_target x) (require_target-Idle x))
      λ u. typed_as-Keeps name typed
typed-Keeps ConfirmationMethod.no_method x name typed = require-Keeps _ _
typed-Keeps ConfirmationMethod.acknowledge x name typed = require-Keeps _ _
typed-Keeps ConfirmationMethod.policy x name typed = require-Keeps _ _

-- A change means that a confirmation was consumed, so that none is added.
added-Commits :
    (p : Preview) (s : Store) (calls : List HostCall) (o : Option ChangeRow)
    (k : Option Confirmation)
    → s.change ≡ o
    → s.confirmation ≡ k
    → SafeBy o s calls
    → Commits Safe (λ u. Anywhere) (confirmation_added p k s) calls
added-Commits p s calls o (some c) eo ek i = tt
added-Commits p s calls none none eo ek i = (
  none_safe
      (record {
        store =
            (append RunEvent.confirmation_satisfied
              (record s { confirmation = some (new_confirmation p) }));
        calls = calls;
      })
      eo i,
  tt,
)
added-Commits p s calls (some c) none eo ek (h, q) =
    absurd (ground (arith, ap is_consumed ek, q.authorised))

override_safe :
    (p : Preview) (s : Store) (calls : List HostCall) (o : Option ChangeRow)
    → SafeBy o s calls
    → SafeBy o
        (append RunEvent.confirmation_satisfied (record s { override = some (new_confirmation p) }))
        calls
override_safe p s calls none i = i
override_safe p s calls (some c) i = i

override-Commits :
    (p : Preview) (s : Store) (calls : List HostCall) (k : Option Confirmation)
    → Safe (record { store = s; calls = calls })
    → Commits Safe (λ u. Anywhere) (override_added p k s) calls
override-Commits p s calls none i = (override_safe p s calls s.change i, tt)
override-Commits p s calls (some c) i = tt

then_Keeps :
    (m n : Engine (Unit {0}))
    → Keeps Safe Anywhere m (λ u. Anywhere)
    → Keeps Safe Anywhere n (λ u. Anywhere)
    → Keeps Safe Anywhere (m >> n) (λ u. Anywhere)
then_Keeps m n km kn = Keeps-bind {Q = λ u. Anywhere} m _ km λ u. kn

module _ (p : Preview) (x : Executor) (request : ConfirmRequest) where
  confirmable-Keeps : Keeps Safe Anywhere (confirmable p x request) (λ u. Anywhere)
  unfolding confirmable
  confirmable-Keeps =
      Keeps-bind {Q = λ b. Anywhere} (gets (λ s. is_appliable s.state)) _
        (Keeps-gets (λ s. is_appliable s.state) (λ m u. tt))
        λ b.
          then_Keeps _ _ (then_Keeps _ _ (require-Keeps _ _) (require-Keeps _ _))
            (require-Keeps _ _)

  pub confirm-Keeps :
      (name : String) (plan : Replanned)
      → Keeps Safe Anywhere (confirm p x request name plan) (λ u. Anywhere)
  unfolding confirm
  confirm-Keeps name plan =
      then_Keeps _ _
        (then_Keeps _ _
          (then_Keeps _ _
            (then_Keeps _ _
              (then_Keeps _ _
                (then_Keeps _ _ (then_Keeps _ _ confirmable-Keeps (require-Keeps _ _))
                  (Idle-Keeps (require_executable_preview p) (executable-Idle p)))
                (require-Keeps _ _))
              (require-Keeps _ _))
            (typed-Keeps p.confirmation_method x name request.acknowledge_object))
          (Idle-Keeps (plan_now p plan) (plan_now-Idle p plan)))
        (Keeps-transact (λ s. confirmation_added p s.confirmation s)
          λ m i u. added-Commits p m.store m.calls m.store.change m.store.confirmation refl refl i)

  pub grant-Keeps :
      (plan : Replanned)
      → Keeps Safe Anywhere (grant_self_impact_override p x request plan) (λ u. Anywhere)
  unfolding grant_self_impact_override
  grant-Keeps plan =
      then_Keeps _ _
        (then_Keeps _ _
          (then_Keeps _ _ (then_Keeps _ _ confirmable-Keeps (require-Keeps _ _))
            (require-Keeps _ _))
          (Idle-Keeps (plan_now p plan) (plan_now-Idle p plan)))
        (Keeps-transact (λ s. override_added p s.override s)
          λ m i u. override-Commits p m.store m.calls m.store.override i)
