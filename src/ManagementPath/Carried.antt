-- ===== src/ManagementPath/Carried.antt =====
-- src/localplane/backend/domain/management_path.py: the last steps of the verdict, from the interfaces that carry the
-- connection's own end.
use local_plane.Prelude.{
  ℕ, ◌≡◌, ◌↔◌, inl, inr, refl, sym, ap, ◌∙◌, String, Bool, true, false, not, Option, none, some,
  List, [], ◌∷◌, if◌then◌else◌, str_eq, contains, eq_iff, eq_refl, Bool-cases, arith,
}
use local_plane.Prelude.Dict.{lookup}
use local_plane.ManagementPath.Derive.{
  PathObservation, ObservedAddresses, or_empty, indexed, unresolved, failure_reason, agreed,
  leaving, carried_by,
}

-- One interface, and no other, carries the connection's own end, the route back leaves by it, and it was seen lately.
abbrev pub Carries : PathObservation → ObservedAddresses → String → Type 0
Carries o observed r =
    (or_empty (lookup o.local_endpoint_address observed.by_address) ≡ r ∷ [])
    × (o.route.status ≡ "resolved")
    × ((i : ℕ) × (o.route.oif_index ≡ some i) × (or_empty (indexed i observed.by_index) ≡ r ∷ []))
    × (contains observed.stale_resources r ≡ false)

agreed_iff :
    (o : PathObservation) (observed : ObservedAddresses) (r endpoint : String)
    (egress : List String)
    → ((agreed o observed endpoint egress).resource_id ≡ some r)
      ↔ ((endpoint ≡ r) × (egress ≡ r ∷ []) × (contains observed.stale_resources r ≡ false))
agreed_iff o observed r endpoint [] =
    (λ h. absurd (ground (arith, h)), λ h. absurd (ground (arith, h.1)))
agreed_iff o observed r endpoint (a ∷ b ∷ rest) =
    (λ h. absurd (ground (arith, h)), λ h. absurd (ground (arith, h.1)))
agreed_iff o observed r endpoint (a ∷ []) = (
  λ h. elim (Bool-cases (str_eq a endpoint)) [
    | inr e ↦ absurd (ground (arith, h, e))
    | inl e ↦ elim (Bool-cases (contains observed.stale_resources endpoint)) [
      | inl e' ↦ absurd (ground (arith, h, e, e'))
      | inr e' ↦
          let same : endpoint ≡ r = ground (arith, h, e, e') in
          let first : a ≡ endpoint = ground (arith, e, eq_iff a endpoint) in
          (
            same,
            ap (λ b. b ∷ []) (first ∙ same),
            ap (contains observed.stale_resources) (sym same) ∙ e',
          )
    ]
  ],
  λ h.
      let (same, only, fresh) = h in
      let first : a ≡ r = ground (arith, only) in
      let e : str_eq a endpoint ≡ true = ap (str_eq a) (same ∙ sym first) ∙ eq_refl a in
      let e' : contains observed.stale_resources endpoint ≡ false =
        ap (contains observed.stale_resources) same ∙ fresh in
      ground (arith, e, e', same),
)

leaving_iff :
    (o : PathObservation) (observed : ObservedAddresses) (r endpoint : String) (index : Option ℕ)
    → ((leaving o observed endpoint index).resource_id ≡ some r) ↔ (
        (endpoint ≡ r)
        × ((i : ℕ) × (index ≡ some i) × (or_empty (indexed i observed.by_index) ≡ r ∷ []))
        × (contains observed.stale_resources r ≡ false))
leaving_iff o observed r endpoint none =
    (λ h. absurd (ground (arith, h)), λ h. absurd (ground (arith, h.1.1)))
leaving_iff o observed r endpoint (some i) =
    let (to, from) = agreed_iff o observed r endpoint (or_empty (indexed i observed.by_index)) in
    (
      λ h. let (same, only, fresh) = to h in (same, (i, refl, only), fresh),
      λ h.
          let (same, (j, which, only), fresh) = h in
          let index : i ≡ j = ground (arith, which) in
          from (same, ap (λ k. or_empty (indexed k observed.by_index)) index ∙ only, fresh),
    )

abbrev resolved_or : PathObservation → ObservedAddresses → String → Bool → Option String
resolved_or o observed a b =
    (if not b
      then unresolved o (failure_reason o.route.status)
      else leaving o observed a o.route.oif_index).resource_id

pub carried_by_iff :
    (o : PathObservation) (observed : ObservedAddresses) (r : String) (endpoints : List String)
    → ((carried_by o observed endpoints).resource_id ≡ some r) ↔ (
        (endpoints ≡ r ∷ [])
        × (o.route.status ≡ "resolved")
        × ((i : ℕ) × (o.route.oif_index ≡ some i)
            × (or_empty (indexed i observed.by_index) ≡ r ∷ []))
        × (contains observed.stale_resources r ≡ false))
carried_by_iff o observed r [] =
    (λ h. absurd (ground (arith, h)), λ h. absurd (ground (arith, h.0)))
carried_by_iff o observed r (a ∷ b ∷ rest) =
    (λ h. absurd (ground (arith, h)), λ h. absurd (ground (arith, h.0)))
carried_by_iff o observed r (a ∷ []) =
    let (to, from) = leaving_iff o observed r a o.route.oif_index in
    (
      λ h. elim (Bool-cases (str_eq o.route.status "resolved")) [
        | inr e ↦ absurd (ground (arith, h, e))
        | inl e ↦
            let (same, left, fresh) = to (ap (λ b. resolved_or o observed a b) (sym e) ∙ h) in
            (
              ap (λ b. b ∷ []) same,
              ground (arith, e, eq_iff o.route.status "resolved"),
              left,
              fresh,
            )
      ],
      λ h.
          let (only, resolved, left, fresh) = h in
          let same : a ≡ r = ground (arith, only) in
          ap (resolved_or o observed a) (ap (λ t. str_eq t "resolved") resolved)
          ∙ from (same, left, fresh),
    )
