-- ===== src/Engine/Actions.antt =====
-- Actions of the engine: they read and change the world, and may be refused. A refusal (`RunRefused`) keeps what
-- was committed before it.
use local_plane.Prelude.{String, Bool, true, false, List, ◌∷◌}
use local_plane.Engine.{Store, HostCall, Moment}

pub record World : Type 0 where
  pub now : Moment
  -- newest first, with the present moment
  pub past : List Moment

pub data Ran {ℓ} (A : Type ℓ) : Type ℓ where
  ran : A → Ran A
  refused : String → Ran A

abbrev pub Engine {ℓ} : Type ℓ → Type ℓ
Engine A = World → Ran A × World

module _ {ℓ} {A : Type ℓ} where
  unfoldable pub pure : A → Engine A
  pure a w = (ran a, w)

  unfoldable pub refuse : String → Engine A
  refuse code w = (refused code, w)

module _ {ℓ κ} {A : Type ℓ} {B : Type κ} where
  -- Inside one transaction: the first refusal ends it.
  abbrev pub if_ran : Ran A → (A → Ran B) → Ran B
  if_ran (ran a) f = f a
  if_ran (refused code) f = refused code

  abbrev pub continue : Ran A → (A → World → Ran B × World) → World → Ran B × World
  continue (ran a) f w = f a w
  continue (refused code) f w = (refused code, w)

  infixl 10 ◌>>=◌
  unfoldable pub ◌>>=◌ : Engine A → (A → Engine B) → Engine B
  ◌>>=◌ m f w = let (r, w') = m w in continue r f w'

infixl 10 ◌>>◌
abbrev pub ◌>>◌ : Engine (Unit {0}) → Engine (Unit {0}) → Engine (Unit {0})
m >> n = m >>= λ _. n

abbrev pub moved : Moment → World → World
moved m w = record { now = m; past = m ∷ w.past }

module _ {ℓ} {A : Type ℓ} where
  abbrev pub commit : Ran (A × Store) → World → Ran A × World
  commit (ran (a, s)) w = (ran a, moved (record { store = s; calls = w.now.calls }) w)
  commit (refused code) w = (refused code, w)

  -- A transaction: a refusal inside rolls it back.
  unfoldable pub transact : (Store → Ran (A × Store)) → Engine A
  transact f w = commit (f w.now.store) w

  unfoldable pub gets : (Store → A) → Engine A
  gets f w = (ran (f w.now.store), w)

  -- A call of the host: it has been made, and the process may die before the answer comes.
  unfoldable pub ask : HostCall → (List HostCall → A) → Engine A
  ask c answer w =
      (ran (answer w.now.calls), moved (record { store = w.now.store; calls = c ∷ w.now.calls }) w)

  abbrev pub rescue : Ran A → (String → World → World) → World → Ran A × World
  rescue (ran a) f w = (ran a, w)
  rescue (refused code) f w = (refused code, f code w)

  -- `except RunRefused: ...; raise`, where what is done in between is not refused
  unfoldable pub on_refusal : Engine A → (Store → Store) → Engine A
  on_refusal m f w =
      let (r, w') = m w in
      rescue r (λ code v. moved (record { store = f v.now.store; calls = v.now.calls }) v) w'

unfoldable pub update : (Store → Store) → Engine (Unit {0})
update f = transact (λ s. ran (tt, f s))

-- A change of the store, where it takes it
abbrev pub taken_if : Bool → Store → Ran (Unit {0} × Store)
taken_if true s = ran (tt, s)
taken_if false s = refused "integrity_error"

unfoldable pub update_if : (Store → Bool) → (Store → Store) → Engine (Unit {0})
update_if takes f = transact (λ s. taken_if (takes s) (f s))
