-- ===== src/Engine/Logic.antt =====
-- Actions that keep an invariant at every moment, one rule for each way to build an action.
use local_plane.Prelude.{String, ◌≡◌, refl, Bool, true, false, not, List, ◌∷◌, All, if◌then◌else◌}
use local_plane.Engine.{Store, HostCall, Moment}
use local_plane.Engine.Actions.{
  World, Ran, ran, refused, Engine, pure, refuse, continue, rescue, ◌>>=◌, moved, commit, transact,
  gets, ask, update, taken_if, update_if, on_refusal,
}

-- What holds of the answer and the moment, if the action is not refused.
abbrev pub Post {ℓ} : {A : Type ℓ} → (A → Moment → Type 0) → Ran A × World → Type 0
Post Q (ran a, w) = Q a w.now
Post Q (refused code, w) = Unit

abbrev pub Holds : (Moment → Type 0) → World → Type 0
Holds I w = I w.now × All I w.past

-- From `P`, the action keeps `I` at every moment of it, and ends with `Q`.
pub record Keeps {ℓ} {A : Type ℓ} (I P : Moment → Type 0) (m : Engine A) (Q : A → Moment → Type 0)
    : Type ℓ where
  pub run : (w : World) → Holds I w → P w.now → Holds I (m w).1 × Post Q (m w)

-- A transaction is judged by what it commits.
abbrev pub Commits {ℓ} :
    {A : Type ℓ}
    → (Moment → Type 0)
    → (A → Moment → Type 0)
    → Ran (A × Store)
    → List HostCall
    → Type 0
Commits I Q (ran (a, s)) calls =
    I (record { store = s; calls = calls }) × Q a (record { store = s; calls = calls })
Commits I Q (refused code) calls = Unit

pub committed {ℓ} :
    {A : Type ℓ} (I : Moment → Type 0) (Q : A → Moment → Type 0) (r : Ran (A × Store)) (w : World)
    → Holds I w
    → Commits I Q r w.now.calls
    → Holds I (commit r w).1 × Post Q (commit r w)
committed I Q (ran (a, s)) w h (i, q) = ((i, (i, h.1)), q)
committed I Q (refused code) w h q = (h, tt)

weaker {ℓ} :
    {A : Type ℓ} (Q Q' : A → Moment → Type 0) (r : Ran A × World)
    → ((a : A) (n : Moment) → Q a n → Q' a n)
    → Post Q r
    → Post Q' r
weaker Q Q' (ran a, w) h q = h a w.now q
weaker Q Q' (refused code, w) h q = tt

abbrev after_refusal : (Store → Store) → String → World → World
after_refusal f code v = moved (record { store = f v.now.store; calls = v.now.calls }) v

rescued {ℓ} :
    {A : Type ℓ} (I N : Moment → Type 0) (Q : A → Moment → Type 0) (f : Store → Store)
    (r : Ran A × World)
    → ((n : Moment) → I n → N n → I (record n { store = f n.store }))
    → Holds I r.1
    → N r.1.now
    → Post Q r
    → Holds I (rescue r.0 (after_refusal f) r.1).1 × Post Q (rescue r.0 (after_refusal f) r.1)
rescued I N Q f (ran a, w) k h n q = (h, q)
rescued I N Q f (refused code, w) k h n q = let i = k w.now h.0 n in ((i, (i, h.1)), tt)

taken_Commits :
    (I : Moment → Type 0) (Q : Unit {0} → Moment → Type 0) (b : Bool) (s : Store)
    (calls : List HostCall)
    → I (record { store = s; calls = calls }) × Q tt (record { store = s; calls = calls })
    → Commits I Q (taken_if b s) calls
taken_Commits I Q true s calls h = h
taken_Commits I Q false s calls h = tt

module _ {I P : Moment → Type 0} where
  pub Keeps-refuse {ℓ} :
      {A : Type ℓ} {Q : A → Moment → Type 0} (code : String) → Keeps I P (refuse code) Q
  unfolding refuse
  Keeps-refuse code = record { run = λ w h p. (h, tt) }

  pub Keeps-pure {ℓ} :
      {A : Type ℓ} {Q : A → Moment → Type 0} (a : A)
      → ((m : Moment) → P m → Q a m)
      → Keeps I P (pure a) Q
  unfolding pure
  Keeps-pure a q = record { run = λ w h p. (h, q w.now p) }

  pub Keeps-gets {ℓ} :
      {A : Type ℓ} {Q : A → Moment → Type 0} (f : Store → A)
      → ((m : Moment) → P m → Q (f m.store) m)
      → Keeps I P (gets f) Q
  unfolding gets
  Keeps-gets f q = record { run = λ w h p. (h, q w.now p) }

  pub Keeps-update :
      {Q : Unit {0} → Moment → Type 0} (f : Store → Store)
      → ((m : Moment)
          → I m
          → P m
          → I (record m { store = f m.store }) × Q tt (record m { store = f m.store }))
      → Keeps I P (update f) Q
  unfolding update transact
  Keeps-update f q = record { run = λ w h p. let (i, r) = q w.now h.0 p in ((i, (i, h.1)), r) }

  pub Keeps-update_if :
      {Q : Unit {0} → Moment → Type 0} (takes : Store → Bool) (f : Store → Store)
      → ((m : Moment)
          → I m
          → P m
          → I (record m { store = f m.store }) × Q tt (record m { store = f m.store }))
      → Keeps I P (update_if takes f) Q
  unfolding update_if transact
  Keeps-update_if {Q} takes f q = record {
    run = λ w h p.
        committed I Q (taken_if (takes w.now.store) (f w.now.store)) w h
          (taken_Commits I Q (takes w.now.store) (f w.now.store) w.now.calls (q w.now h.0 p));
  }

  pub Keeps-ask {ℓ} :
      {A : Type ℓ} {Q : A → Moment → Type 0} (c : HostCall) (answer : List HostCall → A)
      → ((m : Moment)
          → I m
          → P m
          → I (record m { calls = c ∷ m.calls })
            × Q (answer m.calls) (record m { calls = c ∷ m.calls }))
      → Keeps I P (ask c answer) Q
  unfolding ask
  Keeps-ask c answer q = record { run = λ w h p. let (i, r) = q w.now h.0 p in ((i, (i, h.1)), r) }

  pub Keeps-if {ℓ} :
      {A : Type ℓ} {Q : A → Moment → Type 0} (b : Bool) (m n : Engine A)
      → (b ≡ true → Keeps I P m Q)
      → (b ≡ false → Keeps I P n Q)
      → Keeps I P (if b then m else n) Q
  Keeps-if true m n km kn = km refl
  Keeps-if false m n km kn = kn refl

  -- A guard at the head of an operation.
  pub Keeps-if_true {ℓ} :
      {A : Type ℓ} {Q : A → Moment → Type 0} (b : Bool) (m n : Engine A)
      → (b ≡ false → Keeps I P m Q)
      → (b ≡ true → Keeps I P n Q)
      → Keeps I P (if not b then m else n) Q
  Keeps-if_true true m n km kn = kn refl
  Keeps-if_true false m n km kn = km refl

  pub Keeps-transact {ℓ} :
      {A : Type ℓ} {Q : A → Moment → Type 0} (f : Store → Ran (A × Store))
      → ((m : Moment) → I m → P m → Commits I Q (f m.store) m.calls)
      → Keeps I P (transact f) Q
  unfolding transact
  Keeps-transact {Q = Q} f q = record {
    run = λ w h p. committed I Q (f w.now.store) w h (q w.now h.0 p);
  }

module _ {ℓ κ} {A : Type ℓ} {B : Type κ} {I : Moment → Type 0} {Q : A → Moment → Type 0}
    {S : B → Moment → Type 0} where
  continued :
      (f : A → Engine B) (r : Ran A × World)
      → ((a : A) → Keeps I (Q a) (f a) S)
      → Holds I r.1
      → Post Q r
      → Holds I (continue r.0 f r.1).1 × Post S (continue r.0 f r.1)
  continued f (ran a, w) kf h q = (kf a).run w h q
  continued f (refused code, w) kf h q = (h, tt)

  pub Keeps-bind :
      {P : Moment → Type 0} (m : Engine A) (f : A → Engine B)
      → Keeps I P m Q
      → ((a : A) → Keeps I (Q a) (f a) S)
      → Keeps I P (m >>= f) S
  unfolding ◌>>=◌
  Keeps-bind m f km kf = record {
    run = λ w h p. let (h', q) = km.run w h p in continued f (m w) kf h' q;
  }

module _ {ℓ} {A : Type ℓ} {I P : Moment → Type 0} {Q : A → Moment → Type 0} where
  -- A stronger condition before, and a weaker one after.
  pub Keeps-from :
      {P' : Moment → Type 0} (m : Engine A)
      → ((n : Moment) → I n → P' n → P n)
      → Keeps I P m Q
      → Keeps I P' m Q
  Keeps-from m h k = record { run = λ w i p. k.run w i (h w.now i.0 p) }

  pub Keeps-to :
      (Q' : A → Moment → Type 0) (m : Engine A)
      → ((a : A) (n : Moment) → Q a n → Q' a n)
      → Keeps I P m Q
      → Keeps I P m Q'
  Keeps-to Q' m h k = record {
    run = λ w i p. let (i', q) = k.run w i p in (i', weaker Q Q' (m w) h q);
  }

  pub Keeps-on_refusal :
      (N : Moment → Type 0) (m : Engine A) (f : Store → Store)
      → ((w : World) → P w.now → N (m w).1.now)
      → ((n : Moment) → I n → N n → I (record n { store = f n.store }))
      → Keeps I P m Q
      → Keeps I P (on_refusal m f) Q
  unfolding on_refusal
  Keeps-on_refusal N m f stays k km = record {
    run = λ w h p. let (h', q) = km.run w h p in rescued I N Q f (m w) k h' (stays w p) q;
  }
