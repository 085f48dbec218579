-- ===== src/Provenance/Conflicts.antt =====
-- src/localplane/backend/domain/provenance.py: when no relation is claimed by two providers.
use local_plane.Prelude.{
  eq_iff, ◌≡◌, ◌↔◌, refl, sym, ◌∙◌, Bool, true, false, not, List, [], ◌∷◌, ◌++◌, All, any, select,
  arith, if◌then◌else◌, str_eq,
}
use local_plane.Provenance.{
  OwnershipRelation, created_by, configured_by, OwnershipClaim, is_relation, claims_for,
  several_providers, conflict_in, conflicting_relations,
}

-- Any two claims of one relation name one provider.
abbrev pub OneProvider : List OwnershipClaim → Type 0
OneProvider claims =
    All (λ c. All (λ d. c.relation ≡ d.relation → c.owner.provider ≡ d.owner.provider) claims)
      claims

module _ {ℓ κ} {A : Type ℓ} (P : A → Type κ) where
  picked : (b : Bool) (x : A) (xs : List A) → P x → All P xs → All P (if b then x ∷ xs else xs)
  picked true x xs p h = (p, h)
  picked false x xs p h = h

  pub select-All : (test : A → Bool) (xs : List A) → All P xs → All P (select test xs)
  select-All test [] h = tt
  select-All test (x ∷ xs) h = picked (test x) x (select test xs) h.0 (select-All test xs h.1)

  pub unpicked :
      (b : Bool) (x : A) (xs : List A)
      → All P (if b then x ∷ xs else xs)
      → (b ≡ true → P x) × All P xs
  unpicked true x xs h = (λ e. h.0, h.1)
  unpicked false x xs h = (λ e. absurd (ground (arith, e)), h)

  -- What a selection satisfies, the picked ones satisfy where they stand.
  All-picked :
      (test : A → Bool) (xs : List A) → All P (select test xs) → All (λ x. test x ≡ true → P x) xs
  All-picked test [] h = tt
  All-picked test (x ∷ xs) h =
      let (f, rest) = unpicked (test x) x (select test xs) h in (f, All-picked test xs rest)

  chosen :
      (b : Bool) (x : A) (xs : List A)
      → (b ≡ true → P x)
      → All P xs
      → All P (if b then x ∷ xs else xs)
  chosen true x xs f h = (f refl, h)
  chosen false x xs f h = h

  All-chosen :
      (test : A → Bool) (xs : List A) → All (λ x. test x ≡ true → P x) xs → All P (select test xs)
  All-chosen test [] h = tt
  All-chosen test (x ∷ xs) h = chosen (test x) x (select test xs) h.0 (All-chosen test xs h.1)

All-map {ℓ κ μ} :
    {A : Type ℓ} (P : A → Type κ) (Q : A → Type μ) (xs : List A)
    → ((x : A) → P x → Q x)
    → All P xs
    → All Q xs
All-map P Q [] f h = tt
All-map P Q (x ∷ xs) f h = (f x h.0, All-map P Q xs f h.1)

All-map_both {ℓ κ μ ν} :
    {A : Type ℓ} (P : A → Type κ) (P' : A → Type μ) (Q : A → Type ν) (xs : List A)
    → ((x : A) → P x → P' x → Q x)
    → All P xs
    → All P' xs
    → All Q xs
All-map_both P P' Q [] f h h' = tt
All-map_both P P' Q (x ∷ xs) f h h' = (f x h.0 h'.0, All-map_both P P' Q xs f h.1 h'.1)

-- Two claims name one provider.
abbrev Same : OwnershipClaim → OwnershipClaim → Type 0
Same c d = c.owner.provider ≡ d.owner.provider

-- Any two claims of the list do.
abbrev AllSame : List OwnershipClaim → Type 0
AllSame cs = All (λ c. All (λ d. Same c d) cs) cs

none_differ :
    (c : OwnershipClaim) (cs : List OwnershipClaim)
    → (any (λ (d : OwnershipClaim). not (str_eq c.owner.provider d.owner.provider)) cs ≡ false)
      ↔ All (λ d. Same c d) cs
none_differ c [] = (λ e. tt, λ h. refl)
none_differ c (d ∷ cs) =
    let (f, g) = none_differ c cs in
    let (k, l) = eq_iff c.owner.provider d.owner.provider in
    (λ e. (ground (arith, k, e), f (ground (arith, e))), λ h. ground (arith, l h.0, g h.1))

several_iff : (cs : List OwnershipClaim) → (several_providers cs ≡ false) ↔ AllSame cs
several_iff [] = (λ e. tt, λ h. refl)
several_iff (c ∷ cs) =
    let (f, g) = none_differ c cs in
    (
      λ e.
          let one = f e in
          All-map (λ d. Same c d) (λ d. All (λ b. Same d b) (c ∷ cs)) (c ∷ cs)
            (λ d same.
              All-map (λ b. Same c b) (λ b. Same d b) (c ∷ cs) (λ b other. sym same ∙ other)
                (refl, one))
            (refl, one),
      λ h. g h.0.1,
    )

-- The relation's claims name one provider.
abbrev Alike : List OwnershipClaim → OwnershipRelation → Type 0
Alike cs r = AllSame (claims_for r cs)

-- Of the relation's claims, any two name one provider.
abbrev Agreed : List OwnershipClaim → OwnershipRelation → Type 0
Agreed cs r =
    All
      (λ c.
        is_relation r c.relation ≡ true → All (λ d. is_relation r d.relation ≡ true → Same c d) cs)
      cs

Alike-Agreed : (cs : List OwnershipClaim) (r : OwnershipRelation) → Alike cs r ↔ Agreed cs r
Alike-Agreed cs r =
    let test : OwnershipClaim → Bool = λ c. is_relation r c.relation in
    let inner : OwnershipClaim → Type 0 = λ c. All (λ d. Same c d) (select test cs) in
    (
      λ h.
          All-map (λ c. test c ≡ true → inner c) _ cs
            (λ c k t. All-picked (λ d. Same c d) test cs (k t)) (All-picked inner test cs h),
      λ h. All-chosen inner test cs (
          All-map _ (λ c. test c ≡ true → inner c) cs
            (λ c k t. All-chosen (λ d. Same c d) test cs (k t)) h),
    )

related : (r q : OwnershipRelation) → (is_relation r q ≡ true) ↔ (r ≡ q)
related created_by created_by = (λ e. refl, λ e. refl)
related configured_by configured_by = (λ e. refl, λ e. refl)
related created_by configured_by =
    (λ e. absurd (ground (arith, e)), λ e. absurd (ground (arith, e)))
related configured_by created_by =
    (λ e. absurd (ground (arith, e)), λ e. absurd (ground (arith, e)))

by_relation {κ} :
    (P : OwnershipRelation → Type κ) (q : OwnershipRelation)
    → (is_relation created_by q ≡ true → P created_by)
    → (is_relation configured_by q ≡ true → P configured_by)
    → P q
by_relation P created_by f g = f refl
by_relation P configured_by f g = g refl

of_relation : (cs : List OwnershipClaim) (r : OwnershipRelation) → OneProvider cs → Alike cs r
of_relation cs r h = (Alike-Agreed cs r).1 (
    All-map _
      (λ c.
        is_relation r c.relation ≡ true → All (λ d. is_relation r d.relation ≡ true → Same c d) cs)
      cs
      (λ c k t.
        All-map (λ d. c.relation ≡ d.relation → Same c d) _ cs
          (λ d same t'. same (sym ((related r c.relation).0 t) ∙ (related r d.relation).0 t')) k)
      h)

Alike-OneProvider :
    (cs : List OwnershipClaim) → (Alike cs created_by × Alike cs configured_by) ↔ OneProvider cs
Alike-OneProvider cs = (
  λ (h, h').
      All-map_both _ _ (λ c. All (λ d. c.relation ≡ d.relation → Same c d) cs) cs
        (λ c k k'.
          All-map (λ d. is_relation c.relation d.relation ≡ true → Same c d) _ cs
            (λ d same e. same ((related c.relation d.relation).1 e))
            (by_relation (λ r. All (λ d. is_relation r d.relation ≡ true → Same c d) cs) c.relation
              k k'))
        ((Alike-Agreed cs created_by).0 h) ((Alike-Agreed cs configured_by).0 h'),
  λ h. (of_relation cs created_by h, of_relation cs configured_by h),
)

unconflicted : (r : OwnershipRelation) (b : Bool) → ((if b then r ∷ [] else []) ≡ []) ↔ (b ≡ false)
unconflicted r true = (λ e. absurd (ground (arith, e)), λ e. absurd (ground (arith, e)))
unconflicted r false = (λ e. refl, λ e. refl)

neither : (xs ys : List OwnershipRelation) → xs ++ ys ≡ [] → (xs ≡ []) × (ys ≡ [])
neither [] ys e = (refl, e)
neither (x ∷ xs) ys e = absurd (ground (arith, e))

both : (xs ys : List OwnershipRelation) → xs ≡ [] → ys ≡ [] → xs ++ ys ≡ []
both [] ys e e' = e'
both (x ∷ xs) ys e e' = absurd (ground (arith, e))

conflict_iff :
    (cs : List OwnershipClaim) (r : OwnershipRelation)
    → (conflict_in r cs ≡ []) ↔ (several_providers (claims_for r cs) ≡ false)
conflict_iff cs r = unconflicted r (several_providers (claims_for r cs))

pub conflicting_relations-OneProvider_iff :
    (cs : List OwnershipClaim) → (conflicting_relations cs ≡ []) ↔ OneProvider cs
unfolding conflicting_relations
conflicting_relations-OneProvider_iff cs =
    let (f, g) = conflict_iff cs created_by in
    let (f', g') = conflict_iff cs configured_by in
    let (k, l) = several_iff (claims_for created_by cs) in
    let (k', l') = several_iff (claims_for configured_by cs) in
    let (m, n) = Alike-OneProvider cs in
    (
      λ e. let (a, b) = neither _ _ e in m (k (f a), k' (f' b)),
      λ h. let (a, b) = n h in both _ _ (g (l a)) (g' (l' b)),
    )
