-- ===== src/ManagementPath/Transport.antt =====
-- src/localplane/backend/domain/management_path.py: which connections are usable as evidence.
use local_plane.Prelude.{
  ◌≡◌, ◌≢◌, ◌↔◌, inl, inr, refl, sym, ap, ◌∙◌, String, false, Option, none, some, if◌then◌else◌,
  str_eq, eq_iff, Bool-cases, arith,
}
use local_plane.ManagementPath.{
  PathReason, IpAddress, ParsedIp, Cases, peer_cases, endpoint_cases, classify_address,
  classify_parsed, unmapped, classify, transport_reason, text_of, read_transport,
}

abbrev pub IsDistant : IpAddress → Type 0
IsDistant a = (a.is_loopback ≡ false) × (a.is_unspecified ≡ false) × (a.is_link_local ≡ false)

address_clear :
    (c : Cases) (a : IpAddress)
    → (classify_address c a).1 ≡ none
    → IsDistant a × (classify_address c a ≡ (some a, none))
address_clear c a h = ((ground (arith, h), ground (arith, h), ground (arith, h)), ground (arith, h))

address_distant : (c : Cases) (a : IpAddress) → IsDistant a → classify_address c a ≡ (some a, none)
address_distant c a h = ground (arith, h.0, h.1, h.2)

parsed_clear :
    (c : Cases) (o : Option ParsedIp)
    → (classify_parsed c o).1 ≡ none
    → (p : ParsedIp) × (o ≡ some p)
      × IsDistant (unmapped p p.ipv4_mapped)
      × (classify_parsed c o ≡ (some (unmapped p p.ipv4_mapped), none))
parsed_clear c none h = absurd (ground (arith, h))
parsed_clear c (some p) h =
    let (distant, e) = address_clear c (unmapped p p.ipv4_mapped) h in (p, refl, distant, e)

parsed_distant :
    (c : Cases) (o : Option ParsedIp) (p : ParsedIp) (a : IpAddress)
    → o ≡ some p
    → unmapped p p.ipv4_mapped ≡ a
    → IsDistant a
    → classify_parsed c o ≡ (some a, none)
parsed_distant c o p a e e' h =
    ap (classify_parsed c) e ∙ ap (classify_address c) e' ∙ address_distant c a h

not_empty :
    (s : String) (x y : Option IpAddress × Option PathReason)
    → s ≢ ""
    → (if str_eq s "" then x else y) ≡ y
not_empty s x y h = ground (arith, eq_iff s "", h)

usable_reason :
    (a b : IpAddress)
    → (text_of (transport_reason (some a, none) (some b, none)) ≡ none)
      ↔ (a.is_version_4 ≡ b.is_version_4)
usable_reason a b = (λ h. ground (arith, h), λ h. ground (arith, h))

blamed :
    (from to : Option IpAddress × Option PathReason)
    → text_of (transport_reason from to) ≡ none
    → (from.1 ≡ none) × (to.1 ≡ none)
blamed (a, some r) to h = absurd (ground (arith, h))
blamed (a, none) (b, some r) h = absurd (ground (arith, h))
blamed (a, none) (b, none) h = (refl, refl)

module _ (parse_ip : String → Option ParsedIp) where
  -- An end of the connection is an address that another machine has.
  abbrev pub Reaches : Option String → IpAddress → Type 0
  Reaches end a =
      (value : String) × (end ≡ some value)
      × (value ≢ "")
      × ((p : ParsedIp) × (parse_ip value ≡ some p) × (unmapped p p.ipv4_mapped ≡ a))
      × IsDistant a

  clear :
      (c : Cases) (end : Option String)
      → (classify parse_ip c end).1 ≡ none
      → (a : IpAddress) × Reaches end a × (classify parse_ip c end ≡ (some a, none))
  unfolding classify
  clear c none h = absurd (ground (arith, h))
  clear c (some value) h = elim (Bool-cases (str_eq value "")) [
    | inl e ↦ absurd (ground (arith, h, e))
    | inr e ↦
        let (p, parsed, distant, e') = parsed_clear c (parse_ip value) (ground (arith, h, e)) in
        let filled : value ≢ "" = ground (arith, e, eq_iff value "") in
        (
          unmapped p p.ipv4_mapped,
          (value, refl, filled, (p, parsed, refl), distant),
          not_empty value (none, some c.unavailable) (classify_parsed c (parse_ip value)) filled
              ∙ e',
        )
  ]

  reached :
      (c : Cases) (end : Option String) (a : IpAddress)
      → Reaches end a
      → classify parse_ip c end ≡ (some a, none)
  unfolding classify
  reached c end a (value, e, filled, (p, parsed, e'), distant) =
      ap (classify parse_ip c) e
      ∙ not_empty value (none, some c.unavailable) (classify_parsed c (parse_ip value)) filled
      ∙ parsed_distant c (parse_ip value) p a parsed e' distant

  -- A connection is usable as evidence exactly when both its ends are texts that are read as addresses, an IPv4 address
  -- that is mapped into IPv6 counting as itself, neither of them loopback, unspecified or link-local, and both of one
  -- version.
  pub read_transport-Reaches_iff :
      (peer endpoint : Option String)
      → ((read_transport parse_ip peer endpoint).unusable_reason ≡ none) ↔ (
          (a : IpAddress) × (b : IpAddress) × Reaches peer a
          × Reaches endpoint b
          × (a.is_version_4 ≡ b.is_version_4))
  unfolding read_transport
  read_transport-Reaches_iff peer endpoint =
      let from = classify parse_ip peer_cases peer in
      let to = classify parse_ip endpoint_cases endpoint in
      (
        λ h.
            let (p, q) = blamed from to h in
            let (a, far, e) = clear peer_cases peer p in
            let (b, near, e') = clear endpoint_cases endpoint q in
            (
              a,
              b,
              far,
              near,
              (usable_reason a b).0 (
                  ap (λ t. text_of (transport_reason (some a, none) t)) (sym e')
                  ∙ ap (λ f. text_of (transport_reason f to)) (sym e)
                  ∙ h),
            ),
        λ h.
            let (a, b, far, near, same) = h in
            ap (λ f. text_of (transport_reason f to)) (reached peer_cases peer a far)
            ∙ ap (λ t. text_of (transport_reason (some a, none) t))
                (reached endpoint_cases endpoint b near)
            ∙ (usable_reason a b).1 same,
      )
