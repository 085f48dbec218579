-- ===== src/Engine/Total.antt =====
-- Actions that are not refused, and what holds after them.
pub mod Ends
pub mod Run
use local_plane.Prelude.{◌≡◌, refl, Bool, true, false, Option, none, some, List, ◌∷◌, if◌then◌else◌}
use local_plane.Engine.{Store, HostCall, Moment}
use local_plane.Engine.Actions.{
  World, Ran, ran, refused, Engine, pure, continue, ◌>>=◌, commit, transact, gets, ask, update,
  taken_if, update_if,
}

abbrev pub Reaches {ℓ} : {A : Type ℓ} → (A → Store → Type 0) → Ran A × World → Type 0
Reaches Q (ran a, w) = Q a w.now.store
Reaches Q (refused code, w) = ⊥

-- From `P`, the action is carried out to its end, and `Q` holds there.
pub record Runs {ℓ} {A : Type ℓ} (P : Store → Type 0) (m : Engine A) (Q : A → Store → Type 0)
    : Type ℓ where
  pub reach : (w : World) → P w.now.store → Reaches Q (m w)

module _ {P : Store → Type 0} where
  pub Runs-pure {ℓ} :
      {A : Type ℓ} {Q : A → Store → Type 0} (a : A)
      → ((s : Store) → P s → Q a s)
      → Runs P (pure a) Q
  unfolding pure
  Runs-pure a q = record { reach = λ w p. q w.now.store p }

  pub Runs-gets {ℓ} :
      {A : Type ℓ} {Q : A → Store → Type 0} (f : Store → A)
      → ((s : Store) → P s → Q (f s) s)
      → Runs P (gets f) Q
  unfolding gets
  Runs-gets f q = record { reach = λ w p. q w.now.store p }

  pub Runs-update :
      {Q : Unit {0} → Store → Type 0} (f : Store → Store)
      → ((s : Store) → P s → Q tt (f s))
      → Runs P (update f) Q
  unfolding update transact
  Runs-update f q = record { reach = λ w p. q w.now.store p }

  pub Runs-ask {ℓ} :
      {A : Type ℓ} (k : HostCall) (answer : List HostCall → A) → Runs P (ask k answer) (λ a. P)
  unfolding ask
  Runs-ask k answer = record { reach = λ w p. p }

  pub Runs-if {ℓ} :
      {A : Type ℓ} {Q : A → Store → Type 0} (b : Bool) (m n : Engine A)
      → (b ≡ true → Runs P m Q)
      → (b ≡ false → Runs P n Q)
      → Runs P (if b then m else n) Q
  Runs-if true m n rm rn = rm refl
  Runs-if false m n rm rn = rn refl

module _ {ℓ κ} {A : Type ℓ} {B : Type κ} {Q : A → Store → Type 0} {S : B → Store → Type 0} where
  continued :
      (f : A → Engine B) (r : Ran A × World)
      → ((a : A) → Runs (Q a) (f a) S)
      → Reaches Q r
      → Reaches S (continue r.0 f r.1)
  continued f (ran a, w) rf q = (rf a).reach w q
  continued f (refused code, w) rf q = absurd q

  pub Runs-bind :
      {P : Store → Type 0} (m : Engine A) (f : A → Engine B)
      → Runs P m Q
      → ((a : A) → Runs (Q a) (f a) S)
      → Runs P (m >>= f) S
  unfolding ◌>>=◌
  Runs-bind m f rm rf = record { reach = λ w p. continued f (m w) rf (rm.reach w p) }

-- The end of an action that may be refused at the last, as it says: `ran` where it was carried out.
abbrev pub Concluded : (Bool → Store → Type 0) → Ran (Unit {0}) × World → Type 0
Concluded Q (ran u, w) = Q true w.now.store
Concluded Q (refused code, w) = Q false w.now.store

-- From `P`, the action is carried out or refused, and `Q` holds there.
pub record Concludes (P : Store → Type 0) (m : Engine (Unit {0})) (Q : Bool → Store → Type 0)
    : Type 0 where
  pub conclude : (w : World) → P w.now.store → Concluded Q (m w)

module _ {ℓ} {A : Type ℓ} {R : A → Store → Type 0} {Q : Bool → Store → Type 0} where
  concluded :
      (f : A → Engine (Unit {0})) (r : Ran A × World)
      → ((a : A) → Concludes (R a) (f a) Q)
      → Reaches R r
      → Concluded Q (continue r.0 f r.1)
  concluded f (ran a, w) cf q = (cf a).conclude w q
  concluded f (refused code, w) cf q = absurd q

  -- What comes first is not refused.
  pub Concludes-bind :
      {P : Store → Type 0} (m : Engine A) (f : A → Engine (Unit {0}))
      → Runs P m R
      → ((a : A) → Concludes (R a) (f a) Q)
      → Concludes P (m >>= f) Q
  unfolding ◌>>=◌
  Concludes-bind m f rm cf = record { conclude = λ w p. concluded f (m w) cf (rm.reach w p) }

carried_out :
    (Q : Bool → Store → Type 0) (r : Ran (Unit {0}) × World)
    → Reaches (λ u. Q true) r
    → Concluded Q r
carried_out Q (ran u, w) q = q
carried_out Q (refused code, w) q = absurd q

taken_Concluded :
    (Q : Bool → Store → Type 0) (b : Bool) (s : Store) (w : World)
    → Q true s
    → Q false w.now.store
    → Concluded Q (commit (taken_if b s) w)
taken_Concluded Q true s w h k = h
taken_Concluded Q false s w h k = k

module _ {P : Store → Type 0} {Q : Bool → Store → Type 0} where
  pub Concludes-Runs : (m : Engine (Unit {0})) → Runs P m (λ u. Q true) → Concludes P m Q
  Concludes-Runs m r = record { conclude = λ w p. carried_out Q (m w) (r.reach w p) }

  pub Concludes-if :
      (b : Bool) (m n : Engine (Unit {0}))
      → (b ≡ true → Concludes P m Q)
      → (b ≡ false → Concludes P n Q)
      → Concludes P (if b then m else n) Q
  Concludes-if true m n cm cn = cm refl
  Concludes-if false m n cm cn = cn refl

  pub Concludes-update_if :
      (takes : Store → Bool) (f : Store → Store)
      → ((s : Store) → P s → Q true (f s) × Q false s)
      → Concludes P (update_if takes f) Q
  unfolding update_if transact
  Concludes-update_if takes f q = record {
    conclude = λ w p.
        let (h, k) = q w.now.store p in taken_Concluded Q (takes w.now.store) (f w.now.store) w h k;
  }

pub Runs-from {ℓ} :
    {A : Type ℓ} {P P' : Store → Type 0} {Q : A → Store → Type 0} (m : Engine A)
    → ((s : Store) → P' s → P s)
    → Runs P m Q
    → Runs P' m Q
Runs-from m h r = record { reach = λ w p. r.reach w (h w.now.store p) }

reaches_too {ℓ} :
    {A : Type ℓ} (Q Q' : A → Store → Type 0) (r : Ran A × World)
    → ((a : A) (s : Store) → Q a s → Q' a s)
    → Reaches Q r
    → Reaches Q' r
reaches_too Q Q' (ran a, w) h q = h a w.now.store q
reaches_too Q Q' (refused code, w) h q = absurd q

pub Runs-to {ℓ} :
    {A : Type ℓ} {P : Store → Type 0} {Q Q' : A → Store → Type 0} (m : Engine A)
    → ((a : A) (s : Store) → Q a s → Q' a s)
    → Runs P m Q
    → Runs P m Q'
Runs-to {Q = Q} {Q' = Q'} m h r = record { reach = λ w p. reaches_too Q Q' (m w) h (r.reach w p) }
