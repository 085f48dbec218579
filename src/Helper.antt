-- ===== src/Helper.antt =====
-- src/localplane/helper/service.py: the privileged helper's one mutating method and its memory of attempts. The
-- setter is a parameter here, a function of its own state, and Helper/Service.antt puts the program's in its place.
pub mod Attempts
pub mod Struct
pub mod Netlink
pub mod Setter
pub mod Params
pub mod Service
use local_plane.Prelude.{ℕ, String, Bool, true, false, Option, none, some, List, [], ◌∷◌}
use local_plane.Prelude.Dict.{Dict, lookup, insert, trim}

abbrev pub attempt_memory : ℕ
attempt_memory = 256

pub record MtuRequest : Type 0 where
  pub attempt_id : String
  pub ifindex : ℕ
  pub expected_current_mtu : ℕ
  pub desired_mtu : ℕ
  pub expected_interface_name : Option String

pub record HelperService (R S : Type 0) : Type 0 where
  pub attempts : Dict R
  pub setter : S

pub record MtuAnswer (R : Type 0) : Type 0 where
  pub result : R
  pub replayed : Bool

-- What the setter's call or the handler's does: it returns, or an exception leaves it.
pub data Return (A : Type 0) : Type 0 where
  returned : A → Return A
  raised : Return A

-- `_remember`
abbrev pub remember : {R : Type 0} → String → R → Dict R → Dict R
remember attempt_id result attempts = trim attempt_memory (insert attempt_id result attempts)

abbrev pub answer_call :
    {R S : Type 0}
    → MtuRequest
    → Return R
    → HelperService R S
    → Return (MtuAnswer R) × HelperService R S
answer_call q (returned result) s = (
  returned (record { result = result; replayed = false }),
  record s { attempts = remember q.attempt_id result s.attempts },
)
answer_call q raised s = (raised, s)

module _ {R S : Type 0} (set_mtu : MtuRequest → S → Return R × S) where
  abbrev pub answer_attempt :
      MtuRequest → HelperService R S → Option R → Return (MtuAnswer R) × HelperService R S
  answer_attempt q s (some remembered) =
      (returned (record { result = remembered; replayed = true }), s)
  answer_attempt q s none =
      let (called, setter) = set_mtu q s.setter in answer_call q called record s { setter = setter }

  -- `_set_interface_mtu`
  unfoldable pub set_interface_mtu :
      MtuRequest → HelperService R S → Return (MtuAnswer R) × HelperService R S
  set_interface_mtu q s = answer_attempt q s (lookup q.attempt_id s.attempts)

  -- Requests one after another. The server answers an exception as an internal error and goes on.
  unfoldable pub serve_requests : List MtuRequest → HelperService R S → HelperService R S
  serve_requests [] s = s
  serve_requests (q ∷ qs) s = serve_requests qs (set_interface_mtu q s).1
