-- ===== src/Provenance/Blocks.antt =====
-- src/localplane/backend/domain/provenance.py: exactly when ownership forbids LocalPlane to act on an object or to
-- adopt it.
use local_plane.Prelude.{
  eq_iff, ◌⊎◌, String, ◌≡◌, ◌↔◌, refl, ap, ◌∙◌, Bool, true, false, Option, none, some, List, [],
  ◌∷◌, All, select, arith, if◌then◌else◌,
}
use local_plane.Provenance.Conflicts.{
  select-All, unpicked, OneProvider, conflicting_relations-OneProvider_iff,
}
use local_plane.Provenance.{
  OwnershipRelation, created_by, configured_by, OwnerIdentity, OwnershipClaim, Provenance,
  is_relation, conflicting_relations, is_nothing, competes, first_competing, or_claim,
  external_owner, block_of, ownership_block, ManagementState, observe_only, observed, managed,
  unless_blocked, derive_adoption_eligibility, gaps_of,
}

-- The owner is the host's kernel, LocalPlane, or the provider that is acted through.
abbrev pub Uncontesting : Option String → String → Type 0
Uncontesting through provider =
    (provider ≡ "kernel") ⊎ ((provider ≡ "localplane") ⊎ (through ≡ some provider))

abbrev pub Uncontested : Option String → List OwnershipClaim → Type 0
Uncontested through = All (λ c. Uncontesting through c.owner.provider)

competes_iff :
    (through : Option String) (c : OwnershipClaim)
    → (competes through c ≡ false) ↔ Uncontesting through c.owner.provider
competes_iff none c =
    let (k, k') = eq_iff c.owner.provider "kernel" in
    let (l, l') = eq_iff c.owner.provider "localplane" in
    (λ e. ground (arith, k, l, e), λ h. ground (arith, k', l', h))
competes_iff (some t) c =
    let (k, k') = eq_iff c.owner.provider "kernel" in
    let (l, l') = eq_iff c.owner.provider "localplane" in
    let (t, t') = eq_iff c.owner.provider t in
    (λ e. ground (arith, k, l, t, e), λ h. ground (arith, k', l', t', h))

if_none {ℓ} :
    {A : Type ℓ} (b : Bool) (x : A) (r : Option A)
    → (if b then some x else r) ≡ none
    → (b ≡ false) × (r ≡ none)
if_none true x r e = absurd (ground (arith, e))
if_none false x r e = (refl, e)

module _ (ignoring : Option String) where
  none_competing :
      (cs : List OwnershipClaim) → first_competing ignoring cs ≡ none → Uncontested ignoring cs
  none_competing [] e = tt
  none_competing (c ∷ cs) e =
      let (f, r) = if_none (competes ignoring c) c (first_competing ignoring cs) e in
      ((competes_iff ignoring c).0 f, none_competing cs r)

  no_competing :
      (cs : List OwnershipClaim) → Uncontested ignoring cs → first_competing ignoring cs ≡ none
  no_competing [] h = refl
  no_competing (c ∷ cs) h =
      ap (λ b. if b then some c else first_competing ignoring cs) ((competes_iff ignoring c).1 h.0)
      ∙ no_competing cs h.1

module _ {ℓ κ} {A : Type ℓ} (P : A → Type κ) where
  either_way :
      (b b' : Bool) (x : A) → (b ≡ false → b' ≡ true) → (b ≡ true → P x) → (b' ≡ true → P x) → P x
  either_way true b' x or f g = f refl
  either_way false b' x or f g = g (or refl)

  -- Two selections that leave nothing out.
  All-select :
      (t t' : A → Bool) (xs : List A)
      → ((x : A) → t x ≡ false → t' x ≡ true)
      → All P (select t xs)
      → All P (select t' xs)
      → All P xs
  All-select t t' [] or h h' = tt
  All-select t t' (x ∷ xs) or h h' =
      let (f, k) = unpicked P (t x) x (select t xs) h in
      let (g, k') = unpicked P (t' x) x (select t' xs) h' in
      (either_way (t x) (t' x) x (or x) f g, All-select t t' xs or k k')

other_relation :
    (r : OwnershipRelation) → is_relation configured_by r ≡ false → is_relation created_by r ≡ true
other_relation created_by e = refl
other_relation configured_by e = absurd (ground (arith, e))

or_none : (o o' : Option OwnershipClaim) → or_claim o o' ≡ none → (o ≡ none) × (o' ≡ none)
or_none none o' e = (refl, e)
or_none (some c) o' e = absurd (ground (arith, e))

both_none : (o o' : Option OwnershipClaim) → o ≡ none → o' ≡ none → or_claim o o' ≡ none
both_none none o' e e' = e'
both_none (some c) o' e e' = e

external_owner-Uncontested_iff :
    (p : Provenance) (ignoring : Option String)
    → (external_owner p ignoring ≡ none) ↔ Uncontested ignoring p.claims
unfolding external_owner
external_owner-Uncontested_iff p ignoring = (
  λ e.
      let (f, g) = or_none _ _ e in
      All-select (λ c. Uncontesting ignoring c.owner.provider)
        (λ c. is_relation configured_by c.relation) (λ c. is_relation created_by c.relation)
        p.claims (λ c. other_relation c.relation) (none_competing ignoring _ f)
        (none_competing ignoring _ g),
  λ h.
      both_none _ _
        (no_competing ignoring _
          (select-All (λ c. Uncontesting ignoring c.owner.provider) _ p.claims h))
        (no_competing ignoring _
          (select-All (λ c. Uncontesting ignoring c.owner.provider) _ p.claims h)),
)

blocked : (o : Option OwnershipClaim) → block_of o ≡ none → o ≡ none
blocked none e = refl
blocked (some c) e = absurd (ground (arith, e))

block_iff :
    (rs : List OwnershipRelation) (o : Option OwnershipClaim)
    → ((if is_nothing rs then block_of o else some ("conflicting_ownership_claims", none)) ≡ none)
      ↔ ((rs ≡ []) × (o ≡ none))
block_iff [] o = (λ e. (refl, blocked o e), λ (e, n). ap block_of n)
block_iff (r ∷ rs) o = (λ e. absurd (ground (arith, e)), λ (e, n). absurd (ground (arith, e)))

-- Ownership does not block an act exactly where any two claims of one relation name one provider, and the provider of
-- every claim's owner is "kernel", "localplane", or the provider that is acted through.
pub ownership_block-Uncontested_iff :
    (p : Provenance) (acting_through : Option String)
    → (ownership_block p acting_through ≡ none)
      ↔ (OneProvider p.claims × Uncontested acting_through p.claims)
unfolding ownership_block
ownership_block-Uncontested_iff p through =
    let (f, g) = block_iff (conflicting_relations p.claims) (external_owner p through) in
    let (k, l) = external_owner-Uncontested_iff p through in
    let (m, n) = conflicting_relations-OneProvider_iff p.claims in
    (λ e. let (a, b) = f e in (m a, k b), λ (a, b). g (n a, l b))

adoptable :
    (o : Option (String × Option OwnerIdentity)) (gaps : List String)
    → ((unless_blocked o gaps).eligible ≡ true) ↔ (o ≡ none)
adoptable none gaps = (λ e. refl, λ e. refl)
adoptable (some b) gaps = (λ e. absurd (ground (arith, e)), λ e. absurd (ground (arith, e)))

-- An object may be adopted exactly where its state is "observed", any two claims of one relation to it name one
-- provider, and the provider of every claim's owner is "kernel" or "localplane".
pub derive_adoption_eligibility-Uncontested_iff :
    (state : ManagementState) (p : Provenance)
    → ((derive_adoption_eligibility state p).eligible ≡ true)
      ↔ ((state ≡ observed) × OneProvider p.claims × Uncontested none p.claims)
unfolding derive_adoption_eligibility
derive_adoption_eligibility-Uncontested_iff observe_only p =
    (λ e. absurd (ground (arith, e)), λ h. absurd (ground (arith, h.0)))
derive_adoption_eligibility-Uncontested_iff managed p =
    (λ e. absurd (ground (arith, e)), λ h. absurd (ground (arith, h.0)))
derive_adoption_eligibility-Uncontested_iff observed p =
    let (f, g) = adoptable (ownership_block p none) (gaps_of p.sources) in
    let (k, l) = ownership_block-Uncontested_iff p none in
    (λ e. let (a, b) = k (f e) in (refl, a, b), λ (s, a, b). g (l (a, b)))
