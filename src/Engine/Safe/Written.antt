-- ===== src/Engine/Safe/Written.antt =====
-- src/localplane/backend/changes.py: from the dispatch to the end of the run, the engine stays safe whatever the
-- host does.
use local_plane.Prelude.{
  suc, ◌≡◌, ◌≢◌, refl, ap, ◌∙◌, true, false, none, some, List, ◌∷◌, arith, inr, if◌then◌else◌,
}
use local_plane.Settlement.{MutationOutcome, MutationReport}
use local_plane.Engine.{
  RunState, RunEvent, PlannedChange, field_change, action_change, Preview, ChangeRow,
  MutationRequest, apply_field, apply_action, HostCall, mutate_call, mutate_answer, Executor,
}
use local_plane.Engine.Actions.{ask}
use local_plane.Engine.Steps.{at, step}
use local_plane.Engine.Boundary.{apply_request, answered, dispatch, settle_mutation}
use local_plane.Engine.Logic.{Keeps, Keeps-bind}
use local_plane.Engine.Safe.{Safe, applied, reversed, told, is_rollback}
use local_plane.Engine.Safe.After.{Crossed, in_flight-Ended}
use local_plane.Engine.InFlight.{Fact, Under, Keeps-step, Keeps-asks}

-- The dispatch is on record, and not made.
abbrev Begun : Fact
Begun st calls c =
    (applied calls ≡ 0)
    × (reversed calls ≡ 0)
    × (c.mutation_outcome ≡ none)
    × (st ≢ RunState.guarded)
    × (c.dispatch_began ≡ true)

-- The change has been asked of the host.
abbrev Asked : Fact
Asked st calls c = (reversed calls ≡ 0) × (c.mutation_outcome ≡ none) × (st ≢ RunState.guarded)

-- The host has answered.
abbrev pub Answered : MutationOutcome → Fact
Answered o st calls c =
    (reversed calls ≡ 0)
    × (c.mutation_outcome ≡ none)
    × (st ≢ RunState.guarded)
    × (told calls ≡ some o)

-- The answer is on record, and no reversal was asked for.
abbrev pub Told : MutationOutcome → Fact
Told o st calls c = (reversed calls ≡ 0) × (c.mutation_outcome ≡ some o) × (st ≢ RunState.guarded)

dispatched :
    Keeps Safe
      (Under Crossed)
      (step (record (at RunEvent.mutation_dispatched) {
        change = λ (c : ChangeRow). record c { dispatch_began = true };
      }))
      (λ u. Under Begun)
dispatched = Keeps-step _ refl (record {
  flies = λ c. refl;
  runs = λ st r. r;
  honest = λ st calls c fl x h. record {
    once = h.once;
    reversed_once = h.reversed_once;
    undispatched = λ d. x.0;
    written_told = h.written_told;
    unwritten_told = h.unwritten_told;
    unanswered = h.unanswered;
    unreversed = h.unreversed;
    ended = in_flight-Ended c.result _ fl;
  };
  holding = λ st calls c x held g. absurd (x.3 g);
  after = λ st calls c x h. (x.0, x.1, x.2, x.3, refl);
})

change_forward :
    (ch : PlannedChange)
    → is_rollback (elim ch [
      | field_change before desired ↦ apply_field before desired
      | action_change verb state ↦ apply_action verb
    ])
      ≡ false
change_forward (field_change before desired) = refl
change_forward (action_change verb state) = refl

-- A request that is not a reversal counts as the change's.
module _ (request : MutationRequest) (forward : is_rollback request ≡ false) where
  applied-forward :
      (calls : List HostCall) → applied (mutate_call request ∷ calls) ≡ suc (applied calls)
  applied-forward calls = ap (λ b. if b then applied calls else suc (applied calls)) forward

  reversed-forward :
      (calls : List HostCall) → reversed (mutate_call request ∷ calls) ≡ reversed calls
  reversed-forward calls = ap (λ b. if b then suc (reversed calls) else reversed calls) forward

  told-forward :
      (o : MutationOutcome) (calls : List HostCall)
      → told (mutate_answer request o ∷ calls) ≡ some o
  told-forward o calls = ap (λ b. if b then told calls else some o) forward

  asked {ℓ} :
      {A : Type ℓ} (answer : List HostCall → A)
      → Keeps Safe (Under Begun) (ask (mutate_call request) answer) (λ a. Under Asked)
  asked answer = Keeps-asks {Y = λ a. Asked} (mutate_call request) answer (record {
    honest_ask = λ st calls c fl x h.
        let ea = applied-forward calls in
        let er = reversed-forward calls in
        record {
          once = omega (arith, ea, x.0);
          reversed_once = omega (arith, er, x.1);
          undispatched = λ d. absurd (ground (arith, d, x.4));
          written_told = λ d. absurd (ground (arith, d, x.2));
          unwritten_told = λ d. absurd (ground (arith, d, x.2));
          unanswered = λ d. er ∙ x.1;
          unreversed = λ d. er ∙ x.1;
          ended = h.ended;
        };
    after_ask = λ st calls c x h. (reversed-forward calls ∙ x.1, x.2, x.3);
  })

  answer-Keeps :
      (report : MutationReport)
      → Keeps Safe (Under Asked) (answered request report) (λ r. Under (Answered r.outcome))
  unfolding answered ask
  answer-Keeps report =
      Keeps-asks {Y = λ r. Answered r.outcome} (mutate_answer request report.outcome)
        (λ calls. report)
        (record {
          honest_ask = λ st calls c fl x h. record {
            once = h.once;
            reversed_once = h.reversed_once;
            undispatched = h.undispatched;
            written_told = λ d. absurd (ground (arith, d, x.1));
            unwritten_told = λ d. absurd (ground (arith, d, x.1));
            unanswered = h.unanswered;
            unreversed = h.unreversed;
            ended = h.ended;
          };
          after_ask = λ st calls c x h. (x.0, x.1, x.2, told-forward report.outcome calls);
        })

pub dispatch-Keeps :
    (p : Preview) (x : Executor)
    → Keeps Safe (Under Crossed) (dispatch p x) (λ r. Under (Answered r.outcome))
unfolding dispatch
dispatch-Keeps p x = Keeps-bind {Q = λ u. Under Begun} _ _ dispatched λ u.
    Keeps-bind {Q = λ r. Under Asked} _ _
      (asked (apply_request p) (change_forward p.change)
        (λ calls. x.mutate calls (apply_request p)))
      λ r. answer-Keeps (apply_request p) (change_forward p.change) r

pub settle-Keeps :
    (report : MutationReport)
    → Keeps Safe
        (Under (Answered report.outcome))
        (settle_mutation report)
        (λ u. Under (Told report.outcome))
unfolding settle_mutation
settle-Keeps report = Keeps-step _ refl (record {
  flies = λ c. refl;
  runs = λ st r. r;
  honest = λ st calls c fl x h. record {
    once = h.once;
    reversed_once = h.reversed_once;
    undispatched = h.undispatched;
    written_told = λ d. x.3 ∙ d;
    unwritten_told = λ d. (inr (x.3 ∙ d), x.0);
    unanswered = λ d. x.0;
    unreversed = h.unreversed;
    ended = in_flight-Ended c.result _ fl;
  };
  holding = λ st calls c x held g. absurd (x.2 g);
  after = λ st calls c x h. (x.0, refl, x.2);
})
