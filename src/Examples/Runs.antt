-- ===== src/Examples/Runs.antt =====
-- The engine's promises at concrete runs (src/localplane/backend/changes.py).
use local_plane.Prelude.{
  zero, suc, ◌≤◌, ◌≡◌, ◌⊎◌, refl, true, false, Option, none, some, List, [], pos, arith, ◌∷◌, inl,
  inr, Bool,
}
use local_plane.Policy.Confirmation.{ConfirmationMethod}
use local_plane.Policy.Execution.{ExecutionAvailability, ExecutionEligibility}
use local_plane.Protection.{on_management_path, not_on_management_path}
use local_plane.Settlement.{MutationOutcome, not_written, written, GuardPhase, GuardReport}
use local_plane.Recovery.{no_effect, VerificationOutcome, verified, mismatch}
use local_plane.Engine.{
  RunState, ChangeResult, field_change, Preview, ChangeRow, free, held_here, Store, HostCall,
  Moment, taken, Executor, Replanned, replanned,
}
use local_plane.Engine.Actions.{ran, refused}
use local_plane.Engine.Confirm.{ConfirmRequest}
use local_plane.Engine.Actions.{
  pure, refuse, ◌>>=◌, transact, gets, ask, on_refusal, update, update_if,
}
use local_plane.Engine.Steps.{
  acquire, require_target, require_executable_preview, plan_now, consume_confirmation, step,
}
use local_plane.Engine.Boundary.{
  arm_recovery, arm_guard, insert_checkpoint, cross, dispatch, answered, settle_mutation, prepare,
}
use local_plane.Engine.Endings.{
  verify, read_back, hold, finish, unproven, release_guard, roll_back, reverse, verify_rollback,
  rollback_end, recover,
}
use local_plane.Engine.Apply.{apply, authorise, after_dispatch, after_written}
use local_plane.Engine.Confirm.{confirm, confirmable, require}
use local_plane.Engine.Safe.{applied, reversed, told, StateOf, keeps_lock}
use local_plane.Engine.Boundary.{new_change, is_consumed, checkpoint_of}
use local_plane.Engine.Constraints.{unsettled}
use local_plane.Engine.Apply.{execute}
use local_plane.Engine.Held.{
  guard_keep, keep_asked, guard_answer, keep_answered, keep, is_held_state,
}
use local_plane.Engine.Restart.{restart, settle_interrupted}
use local_plane.Engine.Total.{Reaches}
use local_plane.Engine.Total.Ends.{Closed}
use local_plane.Engine.Reach.{
  Ask, ask_confirm, ask_apply, ask_keep, perform, Among, cut_short, from, Reachable, planned,
  performed,
}
use local_plane.Engine.Promises.{
  applied-once, Dispatched, applied-Dispatched, result-locked, failed-unwritten, succeeded-written,
  rolled_back-verified, settle_interrupted-Closed, restart-stranded,
}

abbrev mtu_plan : Preview
mtu_plan = record {
  preview_id = "preview_1";
  digest = "digest_1";
  availability = ExecutionAvailability.available;
  eligibility = ExecutionEligibility.eligible;
  change = field_change (pos 1500) (pos 9000);
  confirmation_required = true;
  confirmation_method = ConfirmationMethod.acknowledge;
  verification_capability = "mtu";
  verification_provider = "netlink";
  asks_the_resource_relation = true;
  management_path = not_on_management_path;
}

abbrev new_run : Store
new_run = record {
  state = RunState.preview;
  host_effect = no_effect;
  finished = false;
  lock = free;
  confirmation = none;
  override = none;
  checkpoint = none;
  guard = none;
  change = none;
  events = [];
  lock_given_back = false;
}

abbrev lost_guard : GuardReport
lost_guard = record { phase = GuardPhase.lost; mutation = none; reason = none }

-- A host that answers each mutation with the outcome, and reads as the function of the calls says.
abbrev host_of : MutationOutcome → (List HostCall → VerificationOutcome) → Executor
host_of o reads = record {
  target_known = λ calls. true;
  correlate = λ calls. none;
  arm_guard = λ calls. none;
  disarm_guard = λ calls. lost_guard;
  guard_status = λ calls. lost_guard;
  mutate = λ calls request. record {
    outcome = o;
    reason = "answered";
    attempt_id = "attempt_1";
    provider = some "helper";
  };
  observe = λ calls.
      taken "mtu" "netlink" (λ e. record { outcome = reads calls; value = some (pos 1500) });
}

abbrev reads_reversed : List HostCall → VerificationOutcome
reads_reversed calls = elim (reversed calls) [ zero ↦ mismatch | suc n ↦ verified ]

abbrev same_plan : Replanned
same_plan = replanned false not_on_management_path ExecutionEligibility.eligible

abbrev yes : ConfirmRequest
yes = record {
  preview_id = "preview_1";
  acknowledge = true;
  expected_preview_digest = none;
  acknowledge_object = none;
}

abbrev first_moment : Moment
first_moment = record { store = new_run; calls = [] }

abbrev confirmed_moment : Moment
confirmed_moment =
    (perform mtu_plan (ask_confirm (host_of written (λ calls. verified)) yes "eth0" same_plan)
      (from first_moment)).1.now

-- The run after it was applied on the host.
abbrev applied_on : Executor → Moment
applied_on x = (perform mtu_plan (ask_apply x same_plan) (from confirmed_moment)).1.now

applied-Reachable : (x : Executor) → Reachable mtu_plan (applied_on x)
applied-Reachable x = performed confirmed_moment (ask_apply x same_plan) (
    performed first_moment (ask_confirm (host_of written (λ calls. verified)) yes "eth0" same_plan)
      (planned new_run refl refl))

abbrev good_host : Executor
good_host = host_of written (λ calls. verified)

abbrev bad_host : Executor
bad_host = host_of written reads_reversed

abbrev deaf_host : Executor
deaf_host = host_of not_written (λ calls. verified)

abbrev row_of : Option ChangeRow → ChangeRow
row_of none = new_change
row_of (some c) = c

-- The run on the host has its change, with this result, and asked for it once.
abbrev RunOn : Executor → ChangeResult → Type 0
RunOn x result =
    ((applied_on x).store.change ≡ some (row_of (applied_on x).store.change))
    × ((row_of (applied_on x).store.change).result ≡ result)
    × (applied (applied_on x).calls ≡ 1)

good_run : RunOn good_host ChangeResult.succeeded
unfolding apply acquire authorise require_target require_executable_preview plan_now
    consume_confirmation prepare arm_recovery insert_checkpoint cross dispatch step answered
    settle_mutation after_dispatch after_written verify read_back hold finish ◌>>=◌ pure refuse
    transact gets ask on_refusal update execute confirm confirmable require unproven release_guard
    roll_back reverse verify_rollback rollback_end recover
good_run = (refl, refl, refl)

bad_run : RunOn bad_host ChangeResult.rolled_back
unfolding apply acquire authorise require_target require_executable_preview plan_now
    consume_confirmation prepare arm_recovery insert_checkpoint cross dispatch step answered
    settle_mutation after_dispatch after_written verify read_back hold finish ◌>>=◌ pure refuse
    transact gets ask on_refusal update execute confirm confirmable require unproven release_guard
    roll_back reverse verify_rollback rollback_end recover
bad_run = (refl, refl, refl)

deaf_run : RunOn deaf_host ChangeResult.failed
unfolding apply acquire authorise require_target require_executable_preview plan_now
    consume_confirmation prepare arm_recovery insert_checkpoint cross dispatch step answered
    settle_mutation after_dispatch after_written verify read_back hold finish ◌>>=◌ pure refuse
    transact gets ask on_refusal update execute confirm confirmable require unproven release_guard
    roll_back reverse verify_rollback rollback_end recover
deaf_run = (refl, refl, refl)

asked_once : 1 ≤ applied (applied_on good_host).calls
asked_once = omega (arith, good_run.2)

-- The process died after the dispatch was recorded.
abbrev crossed_moment : Moment
crossed_moment = record {
  store = record new_run {
    state = RunState.applying;
    lock = held_here;
    change = some (record new_change { dispatch_began = true });
  };
  calls = [];
}

-- A guarded run, on a host that holds the guard until it is released.
abbrev guarded_plan : Preview
guarded_plan = record mtu_plan {
  eligibility = ExecutionEligibility.guarded;
  management_path = on_management_path;
}

-- The guarded run when it comes to the boundary: its confirmation is consumed, its checkpoint written, its guard armed.
abbrev open_store : Store
open_store = record new_run {
  state = RunState.arming;
  lock = held_here;
  confirmation = some (record { preview_digest = "digest_1"; consumed = true });
  checkpoint = checkpoint_of guarded_plan.change guarded_plan.management_path;
  guard =
      some (record { armed = true; kept = false; settled_phase = none; reversal_outcome = none });
}

abbrev open_moment : Moment
open_moment = record { store = open_store; calls = [] }

abbrev same_guarded_plan : Replanned
same_guarded_plan = replanned false on_management_path ExecutionEligibility.guarded

abbrev guarding_host : Executor
guarding_host = record good_host {
  disarm_guard = λ calls. record { phase = GuardPhase.disarmed; mutation = none; reason = none };
}

abbrev after_ask : Moment → Ask → Moment
after_ask m a = (perform guarded_plan a (from m)).1.now

abbrev held_moment : Moment
held_moment =
    after_ask (after_ask first_moment (ask_confirm guarding_host yes "eth0" same_guarded_plan))
      (ask_apply guarding_host same_guarded_plan)

abbrev second_of : List Moment → Moment
second_of [] = first_moment
second_of (m ∷ []) = m
second_of (m ∷ n ∷ ms) = n

-- The process died after the guard was recorded as kept, and before the run ended.
abbrev keep_past : List Moment
keep_past =
    (perform guarded_plan (ask_keep guarding_host true on_management_path)
      (from held_moment)).1.past

abbrev kept_moment : Moment
kept_moment = second_of keep_past

abbrev has_two : List Moment → Bool
has_two (m ∷ n ∷ ms) = true
has_two _ = false

second-Among : (ms : List Moment) → has_two ms ≡ true → Among (second_of ms) ms
second-Among [] e = absurd (ground (arith, e))
second-Among (m ∷ []) e = absurd (ground (arith, e))
second-Among (m ∷ n ∷ ms) e = inr (inl refl)

kept_many : has_two keep_past ≡ true
unfolding apply acquire authorise require_target require_executable_preview plan_now
    consume_confirmation prepare arm_recovery insert_checkpoint cross dispatch step answered
    settle_mutation after_dispatch after_written verify read_back hold finish ◌>>=◌ pure refuse
    transact gets ask on_refusal update execute confirm confirmable require unproven release_guard
    roll_back reverse verify_rollback rollback_end recover arm_guard guard_keep keep_asked
    guard_answer keep_answered keep update_if
kept_many = refl

-- It is a moment at which a run can be.
kept-Reachable : Reachable guarded_plan kept_moment
kept-Reachable =
    cut_short held_moment (ask_keep guarding_host true on_management_path) kept_moment
      (performed _ (ask_apply guarding_host same_guarded_plan) (
        performed first_moment (ask_confirm guarding_host yes "eth0" same_guarded_plan)
          (planned new_run refl refl)))
      (second-Among keep_past kept_many)

kept_held : is_held_state kept_moment.store.state ≡ true
unfolding apply acquire authorise require_target require_executable_preview plan_now
    consume_confirmation prepare arm_recovery insert_checkpoint cross dispatch step answered
    settle_mutation after_dispatch after_written verify read_back hold finish ◌>>=◌ pure refuse
    transact gets ask on_refusal update execute confirm confirmable require unproven release_guard
    roll_back reverse verify_rollback rollback_end recover arm_guard guard_keep keep_asked
    guard_answer keep_answered keep update_if
kept_held = refl

kept_settled : unsettled kept_moment.store.guard ≡ false
unfolding apply acquire authorise require_target require_executable_preview plan_now
    consume_confirmation prepare arm_recovery insert_checkpoint cross dispatch step answered
    settle_mutation after_dispatch after_written verify read_back hold finish ◌>>=◌ pure refuse
    transact gets ask on_refusal update execute confirm confirmable require unproven release_guard
    roll_back reverse verify_rollback rollback_end recover arm_guard guard_keep keep_asked
    guard_answer keep_answered keep update_if
kept_settled = refl

-- The host is asked again only to reverse.
applied-once_example :
    (applied (applied_on bad_host).calls ≤ 1) × (reversed (applied_on bad_host).calls ≤ 1)
applied-once_example = applied-once mtu_plan (applied_on bad_host) (applied-Reachable bad_host)

applied-Dispatched_example :
    Dispatched (applied_on good_host).store.change
    × (is_consumed (applied_on good_host).store.confirmation ≡ true)
applied-Dispatched_example =
    applied-Dispatched mtu_plan (applied_on good_host) (applied-Reachable good_host) asked_once

result-locked_example :
    ((applied_on good_host).store.lock_given_back ≡ false
      → keeps_lock (row_of (applied_on good_host).store.change).result ≡ true
      → (applied_on good_host).store.lock ≡ held_here)
    × StateOf (row_of (applied_on good_host).store.change).result (applied_on good_host).store.state
result-locked_example =
    result-locked mtu_plan (applied_on good_host) (row_of (applied_on good_host).store.change)
      (applied-Reachable good_host) good_run.0

failed-unwritten_example :
    ((applied (applied_on deaf_host).calls ≡ 0)
      ⊎ (told (applied_on deaf_host).calls ≡ some not_written))
    × (reversed (applied_on deaf_host).calls ≡ 0)
failed-unwritten_example =
    failed-unwritten mtu_plan (applied_on deaf_host) (row_of (applied_on deaf_host).store.change)
      (applied-Reachable deaf_host) deaf_run.0 deaf_run.1

succeeded-written_example :
    (told (applied_on good_host).calls ≡ some written)
    × ((row_of (applied_on good_host).store.change).verification_outcome ≡ some verified)
succeeded-written_example =
    succeeded-written mtu_plan (applied_on good_host) (row_of (applied_on good_host).store.change)
      (applied-Reachable good_host) good_run.0 good_run.1

rolled_back-verified_example :
    ((row_of (applied_on bad_host).store.change).rollback_verification_outcome ≡ some verified)
    × ((applied_on bad_host).store.state ≡ RunState.rolled_back)
rolled_back-verified_example =
    rolled_back-verified mtu_plan (applied_on bad_host) (row_of (applied_on bad_host).store.change)
      (applied-Reachable bad_host) bad_run.0 bad_run.1

settle_interrupted-Closed_example :
    Reaches (λ u. Closed) (settle_interrupted mtu_plan (from crossed_moment))
settle_interrupted-Closed_example = settle_interrupted-Closed mtu_plan (from crossed_moment)

restart-stranded_example :
    (restart guarded_plan good_host (from kept_moment) ≡ (ran tt, from kept_moment))
    × (guard_keep guarded_plan good_host true on_management_path (from kept_moment)
        ≡ (refused "guard_already_settled", from kept_moment))
restart-stranded_example =
    restart-stranded guarded_plan good_host true on_management_path (from kept_moment) kept_held
      kept_settled
