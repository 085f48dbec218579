-- ===== src/Engine/Confirm.antt =====
-- src/localplane/backend/changes.py: `confirm` and `grant_self_impact_override`, which authorise a run and change
-- nothing of the host.
use local_plane.Prelude.{String, Bool, true, false, Option, none, some, str_eq, if◌then◌else◌}
use local_plane.Policy.Confirmation.{ConfirmationMethod}
use local_plane.Engine.{RunEvent, Preview, Confirmation, Store, Executor, Replanned}
use local_plane.Engine.Actions.{
  Ran, ran, refused, Engine, pure, refuse, ◌>>=◌, ◌>>◌, transact, gets,
}
use local_plane.Engine.Steps.{
  append, is_appliable, require_target, require_executable_preview, requires_self_impact_override,
  plan_now,
}

-- What the request gives.
pub record ConfirmRequest : Type 0 where
  pub preview_id : String
  pub acknowledge : Bool
  pub expected_preview_digest : Option String
  pub acknowledge_object : Option String

unfoldable pub require : Bool → String → Engine (Unit {0})
require b code = if b then pure tt else refuse code

abbrev pub digest_expected : Preview → Option String → Bool
digest_expected p none = true
digest_expected p (some d) = str_eq d p.digest

abbrev pub is_accepted_method : ConfirmationMethod → Bool
is_accepted_method ConfirmationMethod.acknowledge = true
is_accepted_method ConfirmationMethod.typed = true
is_accepted_method _ = false

-- The name typed, against the name of the object.
abbrev pub typed_as : String → Option String → Engine (Unit {0})
typed_as name none = refuse "confirmation_object_required"
typed_as name (some typed) = require (str_eq typed name) "confirmation_object_mismatch"

abbrev pub is_none : Option String → Bool
is_none none = true
is_none (some s) = false

abbrev pub typed_confirmation :
    ConfirmationMethod → Executor → String → Option String → Engine (Unit {0})
typed_confirmation ConfirmationMethod.typed x name typed = require_target x >> typed_as name typed
typed_confirmation _ x name typed = require (is_none typed) "confirmation_object_not_required"

abbrev pub new_confirmation : Preview → Confirmation
new_confirmation p = record { preview_digest = p.digest; consumed = false }

-- One confirmation for each run and purpose.
abbrev pub confirmation_added : Preview → Option Confirmation → Store → Ran (Unit {0} × Store)
confirmation_added p (some c) s = refused "confirmation_already_satisfied"
confirmation_added p none s = ran (
  tt,
  append RunEvent.confirmation_satisfied (record s { confirmation = some (new_confirmation p) }),
)

abbrev pub override_added : Preview → Option Confirmation → Store → Ran (Unit {0} × Store)
override_added p (some c) s = refused "self_impact_override_already_granted"
override_added p none s =
    ran (
      tt,
      append RunEvent.confirmation_satisfied (record s { override = some (new_confirmation p) }),
    )

module _ (p : Preview) (x : Executor) (request : ConfirmRequest) where
  unfoldable pub confirmable : Engine (Unit {0})
  confirmable = gets (λ s. is_appliable s.state) >>= λ appliable.
      require appliable "run_not_confirmable"
      >> require (str_eq request.preview_id p.preview_id) "confirmation_preview_mismatch"
      >> require (digest_expected p request.expected_preview_digest) "preview_digest_mismatch"

  -- `confirm`, of an object with this name
  unfoldable pub confirm : String → Replanned → Engine (Unit {0})
  confirm name plan =
      confirmable
      >> require p.confirmation_required "confirmation_not_required"
      >> require_executable_preview p
      >> require (is_accepted_method p.confirmation_method) "confirmation_method_unsupported"
      >> require request.acknowledge "confirmation_not_acknowledged"
      >> typed_confirmation p.confirmation_method x name request.acknowledge_object
      >> plan_now p plan
      >> transact (λ s. confirmation_added p s.confirmation s)

  -- `grant_self_impact_override`
  unfoldable pub grant_self_impact_override : Replanned → Engine (Unit {0})
  grant_self_impact_override plan =
      confirmable
      >> require (requires_self_impact_override p) "self_impact_override_not_applicable"
      >> require request.acknowledge "confirmation_not_acknowledged"
      >> plan_now p plan
      >> transact (λ s. override_added p s.override s)
