-- ===== src/Settlement/Released.antt =====
-- What the agent's registry guarantees where the backend settles a guard after asking for its release.
use local_plane.Prelude.{
  ◌≤◌, List, String, ◌≡◌, refl, sym, ◌∙◌, ap, ◌⊎◌, inl, inr, Bool, true, false, Option, none, some,
  arith, Option-cases, eq_iff,
}
use local_plane.Prelude.Dict.{lookup}
use local_plane.Prelude.Dict.Keys
use local_plane.GuardRegistry.{Guard, Dispatch, Registry, Phase, Report, empty, report, lost_report}
use local_plane.GuardRegistry.Handlers.{disarm, Event, run}
use local_plane.GuardRegistry.Sound.{IsSound, IsHeld, IsSettled, run-IsSound, empty-IsSound}
use local_plane.GuardRegistry.Race.{disarm_armed, settle_places}
use local_plane.GuardRegistry.Dispatches.{dispatches, arms}
use local_plane.GuardRegistry.Unfired.{disarm-undispatched}
use local_plane.Settlement.{
  Asked, answered, agent_error, ReversalAnswer, guard_report, settlement, kept, reverted, answer_of,
  phase_text,
}
use local_plane.Settlement.Read.{settlement-kept_iff, settlement-reverted_iff}

-- The registry remembers the guard as released, without an answer to a reversal, and none of the registry's calls of
-- the helper was made for the guard.
pub record Untouched (id : String) (reg : Registry ReversalAnswer) : Type 0 where
  pub guard : Guard ReversalAnswer
  pub remembered : lookup id reg.settled_guards ≡ some guard
  pub released : guard.phase ≡ Phase.disarmed
  pub unanswered : guard.mutation ≡ none
  pub undispatched : dispatches id reg.dispatched ≡ 0

-- The registry remembers the guard as fired, and its reversal was answered as written.
pub record Reversed (id : String) (reg : Registry ReversalAnswer) : Type 0 where
  pub guard : Guard ReversalAnswer
  pub remembered : lookup id reg.settled_guards ≡ some guard
  pub fired : guard.phase ≡ Phase.fired
  pub answer : (m : ReversalAnswer) × (guard.mutation ≡ some m) × (m.outcome ≡ "written")

abbrev said_phase : Asked → String
said_phase (agent_error code) = ""
said_phase (answered a) = a.phase

abbrev said_mutation : Asked → Option ReversalAnswer
said_mutation (agent_error code) = none
said_mutation (answered a) = a.mutation

phase_text-disarmed : (x : Phase) → phase_text x ≡ "disarmed" → x ≡ Phase.disarmed
phase_text-disarmed Phase.armed h = ground (arith, eq_iff "armed" "disarmed")
phase_text-disarmed Phase.disarmed h = refl
phase_text-disarmed Phase.fired h = ground (arith, eq_iff "fired" "disarmed")
phase_text-disarmed Phase.lost h = ground (arith, eq_iff "lost" "disarmed")

phase_text-fired : (x : Phase) → phase_text x ≡ "fired" → x ≡ Phase.fired
phase_text-fired Phase.armed h = ground (arith, eq_iff "armed" "fired")
phase_text-fired Phase.disarmed h = ground (arith, eq_iff "disarmed" "fired")
phase_text-fired Phase.fired h = refl
phase_text-fired Phase.lost h = ground (arith, eq_iff "lost" "fired")

lost-disarmed : Phase.lost ≡ Phase.disarmed → ⊥
lost-disarmed e = cc

lost-fired : Phase.lost ≡ Phase.fired → ⊥
lost-fired e = cc

module _ (holder id : String) (reg : Registry ReversalAnswer) (sound : IsSound reg) where
  -- The guard that the release leaves settled and answers for, if the registry knows it.
  disarm-IsSettled :
      ((g : Guard ReversalAnswer) × (lookup id (disarm holder id reg).1.settled_guards ≡ some g)
        × ((disarm holder id reg).0 ≡ report holder g)
        × IsSettled (id, g))
      ⊎ ((disarm holder id reg).0 ≡ lost_report holder id)
  unfolding disarm
  disarm-IsSettled = elim (Option-cases (lookup id reg.armed_guards)) [
    | inl gone ↦ elim (Option-cases (lookup id reg.settled_guards)) [
      | inl unknown ↦ inr (rw (gone, unknown))
      | inr (g, known) ↦ inl (
        g,
        rw (gone, known) known,
        rw (gone, known),
        Keys.All-lookup IsSettled id reg.settled_guards sound.settled known,
      )
    ]
    | inr (g, found) ↦
        let held = Keys.All-lookup IsHeld id reg.armed_guards sound.held found in
        let g' = record g { timer = false; phase = Phase.disarmed } in
        let (gone, known) = settle_places id reg g g' reg.dispatched sound found refl in
        let ok : IsSettled (id, g') = record {
          settled_id = held.under_own_id;
          no_timer = refl;
          outcome = inl (refl, held.unfired);
        } in
        rw (disarm_armed holder id reg g found) (inl (g', known, refl, ok))
  ]

  -- The phase of the guard that is answered for.
  answered_phase :
      (g : Guard ReversalAnswer)
      → (disarm holder id reg).0 ≡ report holder g
      → (disarm holder id reg).0.phase ≡ g.phase
  unfolding report
  answered_phase g e = ap (λ (r : Report ReversalAnswer). r.phase) e

  lost_phase :
      (disarm holder id reg).0 ≡ lost_report holder id → (disarm holder id reg).0.phase ≡ Phase.lost
  unfolding lost_report
  lost_phase e = ap (λ (r : Report ReversalAnswer). r.phase) e

  answered_mutation :
      (g : Guard ReversalAnswer)
      → (disarm holder id reg).0 ≡ report holder g
      → (disarm holder id reg).0.mutation ≡ g.mutation
  unfolding report
  answered_mutation g e = ap (λ (r : Report ReversalAnswer). r.mutation) e

  -- Where the backend takes a change as reverted, after a release that a sound registry has answered, the
  -- registry remembers the guard as fired, with an answer to its reversal that says that it was written, and a
  -- reading has proved the reversal.
  pub reverted-Reversed :
      (proved : Bool)
      → settlement (guard_report id (answered (answer_of (disarm holder id reg).0))) proved
        ≡ reverted
      → Reversed id (disarm holder id reg).1 × (proved ≡ true)
  reverted-Reversed proved h =
      let (w, p) = (settlement-reverted_iff id proved _).0 h in
      let fired = phase_text-fired _ (ap said_phase w.given ∙ w.says_fired) in
      elim disarm-IsSettled [
        | inl (g, known, answer, ok) ↦ (
          record {
            guard = g;
            remembered = known;
            fired = sym (answered_phase g answer) ∙ fired;
            answer = (
              w.reversal,
              sym (answered_mutation g answer) ∙ ap said_mutation w.given ∙ w.carries,
              w.says_written,
            );
          },
          p,
        )
        | inr unknown ↦ absurd (lost-fired (sym (lost_phase unknown) ∙ fired))
      ]

module _ (mutate : List Dispatch → Dispatch → ReversalAnswer) (holder id : String)
    (es : List Event) where
  -- Where the backend takes a change as kept, by the answer to the release that it asks of a registry which armed the
  -- guard's identifier at most once in its calls so far, the registry remembers the guard as released, without an
  -- answer to a reversal, and the helper was never called for the guard.
  pub kept-Untouched :
      (proved : Bool)
      → arms id es ≤ 1
      → settlement
          (guard_report id (answered (answer_of (disarm holder id (run mutate holder es empty)).0)))
          proved
        ≡ kept
      → Untouched id (disarm holder id (run mutate holder es empty)).1
  kept-Untouched proved once h =
      let reg = run mutate holder es empty in
      let sound = run-IsSound mutate holder es empty empty-IsSound in
      let (a, e, p) = (settlement-kept_iff id proved _).0 h in
      let released = phase_text-disarmed _ (ap said_phase e ∙ p) in
      elim (disarm-IsSettled holder id reg sound) [
        | inl (g, known, answer, ok) ↦
            let here : g.phase ≡ Phase.disarmed =
              sym (answered_phase holder id reg sound g answer) ∙ released in
            record {
              guard = g;
              remembered = known;
              released = here;
              unanswered = ground (arith, ok.outcome);
              undispatched = disarm-undispatched mutate holder id es once known here;
            }
        | inr unknown ↦
            absurd (lost-disarmed (sym (lost_phase holder id reg sound unknown) ∙ released))
      ]
