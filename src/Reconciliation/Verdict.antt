-- ===== src/Reconciliation/Verdict.antt =====
-- What each verdict says about the intended fields and the host.
use local_plane.Prelude.{
  String, ◌≡◌, refl, sym, ◌∙◌, ◌≢◌, ◌↔◌, ◌⊎◌, inl, inr, true, false, ◌&&◌, Option, none, some, List,
  [], ◌∷◌, map, any, str_eq, eq_iff, arith, All, Bool-cases,
}
use mathlib.Core.Path.{subst}
use local_plane.Prelude.Dict.{Dict}
use local_plane.Intent.{Raw, get_fact, HasType}
use local_plane.Reconciliation.{
  ReconciliationState, in_sync, drifted, IntendedField, ObservedSnapshot, FieldComparison,
  compare_field, is_differs, is_unknown, verdict, reconcile,
}
use local_plane.Reconciliation.Outcome.{
  WellTyped, Agrees, Disagrees, Some, Outcome, agrees, disagrees, unusable, compare_raw-Outcome,
}

module _ (facts : Dict Raw) where
  outcome :
      (i : IntendedField)
      → HasType i.value_type i.value
      → Outcome i (get_fact facts i.field) (compare_field i facts)
  unfolding compare_field
  outcome i t = compare_raw-Outcome i (get_fact facts i.field) t

  abbrev comparisons : List IntendedField → List FieldComparison
  comparisons is = map (λ i. compare_field i facts) is

  any-differs→ :
      (is : List IntendedField)
      → WellTyped is
      → any is_differs (comparisons is) ≡ true
      → Some (Disagrees facts) is
  any-differs→ [] t h = cc
  any-differs→ (i ∷ is) t h = elim (outcome i t.0) [
    | agrees e c ↦ inr (any-differs→ is t.1 (ground arith))
    | disagrees v e n c ↦ inl (v, e, n)
    | unusable e c ↦ inr (any-differs→ is t.1 (ground arith))
  ]

  any-differs← :
      (is : List IntendedField)
      → WellTyped is
      → Some (Disagrees facts) is
      → any is_differs (comparisons is) ≡ true
  any-differs← [] t h = elim h [ ]
  any-differs← (i ∷ is) t (inr h) = ground (arith, any-differs← is t.1 h)
  any-differs← (i ∷ is) t (inl (w, f, m)) = elim (outcome i t.0) [
    | agrees e c ↦ absurd (m (ground arith))
    | disagrees v e n c ↦ ground arith
    | unusable e c ↦ ground arith
  ]

  comparisons-Agrees→ :
      (is : List IntendedField)
      → WellTyped is
      → any is_differs (comparisons is) ≡ false
      → any is_unknown (comparisons is) ≡ false
      → All (Agrees facts) is
  comparisons-Agrees→ [] t h k = tt
  comparisons-Agrees→ (i ∷ is) t h k = elim (outcome i t.0) [
    | agrees e c ↦ (e, comparisons-Agrees→ is t.1 (ground arith) (ground arith))
    | disagrees v e n c ↦ absurd (ground arith)
    | unusable e c ↦ absurd (ground arith)
  ]

  comparisons-Agrees← :
      (is : List IntendedField)
      → WellTyped is
      → All (Agrees facts) is
      → (any is_differs (comparisons is) ≡ false) × (any is_unknown (comparisons is) ≡ false)
  comparisons-Agrees← [] t h = (refl, refl)
  comparisons-Agrees← (i ∷ is) t h = elim (outcome i t.0) [
    | agrees e c ↦ ground (arith, comparisons-Agrees← is t.1 h.1)
    | disagrees v e n c ↦ absurd (n (ground (arith, h.0)))
    | unusable e c ↦ absurd (ground (arith, h.0))
  ]

verdict-in_sync :
    (cs : List FieldComparison)
    → ((verdict cs).0 ≡ in_sync)
      ↔ ((cs ≢ []) × (any is_differs cs ≡ false) × (any is_unknown cs ≡ false))
unfolding verdict
verdict-in_sync [] = (λ h. cc, λ h. absurd (h.0 refl))
verdict-in_sync (c ∷ cs) = ((λ h. (λ e. cc, ground arith, ground arith)), λ h. ground arith)

verdict-drifted :
    (cs : List FieldComparison) → ((verdict cs).0 ≡ drifted) ↔ (any is_differs cs ≡ true)
unfolding verdict
verdict-drifted [] = (λ h. cc, λ h. cc)
verdict-drifted (c ∷ cs) = (λ h. ground arith, λ h. ground arith)

map-nil : (facts : Dict Raw) (is : List IntendedField) → (comparisons facts is ≡ []) ↔ (is ≡ [])
map-nil facts [] = (λ h. refl, λ h. refl)
map-nil facts (i ∷ is) = (λ h. cc, λ h. cc)

-- The observation was made by the source that the intent was captured from.
abbrev pub FromSource : String → String → Option ObservedSnapshot → ObservedSnapshot → Type 0
FromSource capability provider observation o =
    (observation ≡ some o) × (o.capability ≡ capability) × (o.provider ≡ provider)

-- The state is the verdict on the comparisons where the observation is the source's.
reconcile-FromSource :
    (capability provider : String) (intended : List IntendedField) (o : ObservedSnapshot)
    → ((o.capability ≡ capability)
        × (o.provider ≡ provider)
        × ((reconcile capability provider intended (some o)).state
            ≡ (verdict (comparisons o.facts intended)).0))
      ⊎ (((o.capability ≡ capability) × (o.provider ≡ provider) → ⊥)
          × ((reconcile capability provider intended (some o)).state ≡ ReconciliationState.unknown))
unfolding reconcile
reconcile-FromSource capability provider intended o =
    elim (Bool-cases (str_eq o.capability capability && str_eq o.provider provider)) [
      | inl same ↦ inl (
        ground (arith, eq_iff o.capability capability),
        ground (arith, eq_iff o.provider provider),
        ground arith,
      )
      | inr other ↦ inr (
        λ h. ground (arith, eq_iff o.capability capability, eq_iff o.provider provider),
        ground arith,
      )
    ]

module _ (capability provider : String) (intended : List IntendedField)
    (typed : WellTyped intended) where
  in_sync_of :
      (observation : Option ObservedSnapshot)
      → ((reconcile capability provider intended observation).state ≡ in_sync)
      → ((o : ObservedSnapshot) × FromSource capability provider observation o
          × (intended ≢ [])
          × All (Agrees o.facts) intended)
  in_sync_of none h = unfold reconcile in cc
  in_sync_of (some o) h = elim (reconcile-FromSource capability provider intended o) [
    | inr (other, s) ↦ ground arith
    | inl (c, p, s) ↦
        let (ne, d, u) = (verdict-in_sync (comparisons o.facts intended)).0 (sym s ∙ h) in
        (
          o,
          (refl, c, p),
          λ e. ne ((map-nil o.facts intended).1 e),
          comparisons-Agrees→ o.facts intended typed d u,
        )
  ]

  drifted_of :
      (observation : Option ObservedSnapshot)
      → ((reconcile capability provider intended observation).state ≡ drifted)
      → ((o : ObservedSnapshot) × FromSource capability provider observation o
          × Some (Disagrees o.facts) intended)
  drifted_of none h = unfold reconcile in cc
  drifted_of (some o) h = elim (reconcile-FromSource capability provider intended o) [
    | inr (other, s) ↦ ground arith
    | inl (c, p, s) ↦ (
      o,
      (refl, c, p),
      any-differs→ o.facts intended typed
          ((verdict-drifted (comparisons o.facts intended)).0 (sym s ∙ h)),
    )
  ]

  of_source :
      (o : ObservedSnapshot)
      → o.capability ≡ capability
      → o.provider ≡ provider
      → (reconcile capability provider intended (some o)).state
        ≡ (verdict (comparisons o.facts intended)).0
  of_source o c p = elim (reconcile-FromSource capability provider intended o) [
    | inr (other, s) ↦ absurd (other (c, p))
    | inl (c', p', s) ↦ s
  ]

  -- The verdict is "in sync" exactly when there is an observation by the intent's own source, the
  -- intent controls a field, and the host reports the intended value of every controlled field.
  pub reconcile-in_sync_iff :
      (observation : Option ObservedSnapshot)
      → ((reconcile capability provider intended observation).state ≡ in_sync) ↔ (
          (o : ObservedSnapshot) × FromSource capability provider observation o
          × (intended ≢ [])
          × All (Agrees o.facts) intended)
  reconcile-in_sync_iff observation = (
    in_sync_of observation,
    λ h.
        let (o, (e, c, p), ne, a) = h in
        let (d, u) = comparisons-Agrees← o.facts intended typed a in
        subst (λ x. (reconcile capability provider intended x).state ≡ in_sync) (sym e)
          (of_source o c p
            ∙ (verdict-in_sync (comparisons o.facts intended)).1
                (λ q. ne ((map-nil o.facts intended).0 q), d, u)),
  )

  -- The verdict is "drifted" exactly when there is an observation by the intent's own source, and the
  -- host reports a usable value that is not the intended one for some controlled field.
  pub reconcile-drifted_iff :
      (observation : Option ObservedSnapshot)
      → ((reconcile capability provider intended observation).state ≡ drifted) ↔ (
          (o : ObservedSnapshot) × FromSource capability provider observation o
          × Some (Disagrees o.facts) intended)
  reconcile-drifted_iff observation = (
    drifted_of observation,
    λ h.
        let (o, (e, c, p), a) = h in
        subst (λ x. (reconcile capability provider intended x).state ≡ drifted) (sym e)
          (of_source o c p
            ∙ (verdict-drifted (comparisons o.facts intended)).1
                (any-differs← o.facts intended typed a)),
  )
