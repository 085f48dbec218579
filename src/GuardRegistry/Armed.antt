-- ===== src/GuardRegistry/Armed.antt =====
-- When the registry takes a guard.
use local_plane.Prelude.{ℕ, String, ◌≡◌, ◌↔◌, true, false, none, int_eq, arith}
use local_plane.Prelude.Dict.{lookup}
use local_plane.GuardRegistry.{
  ArmRequest, Registry, Refusal, held, refused, report, new_guard, in_window, find_target, arm,
  arm_locked,
}

-- What a guard must satisfy to be armed.
pub record Armable {M : Type 0} (r : ArmRequest) (reg : Registry M) : Type 0 where
  pub window : in_window r.window_s ≡ true
  pub reverts : int_eq r.guarded_mtu r.restore_mtu ≡ false
  pub not_armed : lookup r.guard_id reg.armed_guards ≡ none
  pub not_settled : lookup r.guard_id reg.settled_guards ≡ none
  pub free : find_target r.ifindex reg.armed_guards ≡ none

module _ {M : Type 0} (holder : String) (now : ℕ) (r : ArmRequest) (reg : Registry M) where
  -- A guard is armed, and reported with the request's values and the deadline its window gives, exactly
  -- where the window is in range, the reversal would change the value, its identifier is neither armed nor
  -- remembered, and no other guard holds the target.
  pub arm-held_iff :
      ((arm holder now r reg).0 ≡ held (report holder (new_guard now r))) ↔ Armable r reg
  unfolding arm arm_locked
  arm-held_iff = (
    λ h. record {
      window = ground arith;
      reverts = ground arith;
      not_armed = ground arith;
      not_settled = ground arith;
      free = ground arith;
    },
    λ a. rw (a.window, a.reverts, a.not_armed, a.not_settled, a.free),
  )

  -- A guard that is refused, for whichever reason, leaves the registry as it was.
  pub arm-refused_keeps :
      (why : Refusal) → (arm holder now r reg).0 ≡ refused why → (arm holder now r reg).1 ≡ reg
  unfolding arm arm_locked
  arm-refused_keeps why h = ground arith
