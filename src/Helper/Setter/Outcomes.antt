-- ===== src/Helper/Setter/Outcomes.antt =====
-- src/localplane/helper/mtu.py: what each outcome of the setter says about the kernel.
use local_plane.Prelude.{
  ℕ, ◌+◌, ◌≤◌, ◌≡◌, ◌≢◌, refl, ap, ◌⊎◌, inl, inr, false, Option, none, some, List, ◌∷◌, arith,
}
use local_plane.Settlement.{not_written}
use local_plane.Helper.{MtuRequest}
use local_plane.Helper.Struct.{Bytes}
use local_plane.Helper.Netlink.{
  Platform, Fault, refused, netlink_failure, struct_error, stuck, Result, ok, err, ◌>>=◌,
  set_mtu_request, get_link_request, LinkFacts,
}
use local_plane.Helper.Netlink.Stream.{Result-cases}
use local_plane.Helper.Setter.{
  MutationResult, Exchange, Setter, check_range, check_link, check_mtu, other_name, read_link,
  check_read, check, send_frame, set_checked, set_mtu,
}
use local_plane.Helper.Setter.Meaning.{Means, settle_reply-Means}

module _ (platform : Platform) {W : Type 0} (socket : Bytes → W → Exchange × W) where
  -- The sequence number behind that of the read
  abbrev pub next_sequence : MtuRequest → Setter W → ℕ
  next_sequence q s = (read_link platform socket q.ifindex s).1.sequence + 1

  -- The one mutating exchange of a request, and what was read of the interface just before it.
  abbrev pub Mutated : MtuRequest → Setter W → Bytes → Exchange → Type 0
  Mutated q s request run =
      (link : LinkFacts) × ((read_link platform socket q.ifindex s).0 ≡ ok link)
      × (link.mtu ≡ some q.expected_current_mtu)
      × (other_name q.expected_interface_name link.name ≡ false)
      × (68 ≤ q.desired_mtu)
      × (q.desired_mtu ≤ 65536)
      × (q.desired_mtu ≢ q.expected_current_mtu)
      × (set_mtu_request platform.order q.ifindex q.desired_mtu (next_sequence q s) ≡ ok request)
      × (run ≡ (socket request (read_link platform socket q.ifindex s).1.host).0)

  -- What a call did, whatever its result: no mutating frame, or the one that its checks allow.
  abbrev pub Did : MtuRequest → Setter W → Result MutationResult → List (Bytes × Exchange) → Type 0
  Did q s result mutations =
      ((mutations ≡ s.mutations) × ((r : MutationResult) → result ≡ ok r → r.outcome ≡ not_written))
      ⊎ ((request : Bytes) × (run : Exchange) × (mutations ≡ (request, run) ∷ s.mutations)
          × Mutated q s request run
          × ((r : MutationResult)
              → result ≡ ok r
              → Means platform (next_sequence q s) run r.outcome))

  read_link-same :
      (ifindex : ℕ) (s : Setter W)
      → ((read_link platform socket ifindex s).1.sequence ≡ s.sequence + 1)
        × ((read_link platform socket ifindex s).1.mutations ≡ s.mutations)
  unfolding read_link
  read_link-same ifindex s =
      elim (Result-cases (get_link_request platform.order ifindex (s.sequence + 1))) [
        | inl (request, e) ↦ (ground (arith, e), ground (arith, e))
        | inr (f, e) ↦ (ground (arith, e), ground (arith, e))
      ]

  check_range-ok :
      (q : MtuRequest) (u : Unit {0})
      → check_range q ≡ ok u
      → (68 ≤ q.desired_mtu) × (q.desired_mtu ≤ 65536) × (q.desired_mtu ≢ q.expected_current_mtu)
  unfolding check_range
  check_range-ok q u h = (ground (arith, h), ground (arith, h), ground (arith, h))

  check_mtu-ok :
      (q : MtuRequest) (link link' : LinkFacts) (mtu : Option ℕ)
      → check_mtu q link mtu ≡ ok link'
      → (mtu ≡ some q.expected_current_mtu)
        × (other_name q.expected_interface_name link.name ≡ false)
  check_mtu-ok q link link' none h = absurd (ground (arith, h))
  check_mtu-ok q link link' (some mtu) h = (ground (arith, h), ground (arith, h))

  not_made :
      (q : MtuRequest) (s s' : Setter W) (f : Fault)
      → s'.mutations ≡ s.mutations
      → Did q s
          (set_checked platform socket q (err f) s').0
          (set_checked platform socket q (err f) s').1.mutations
  not_made q s s' (refused reason seen) h = inl (h, λ r e. ground (arith, e))
  not_made q s s' (netlink_failure reason dispatched) h = inl (h, λ r e. absurd (ground (arith, e)))
  not_made q s s' struct_error h = inl (h, λ r e. absurd (ground (arith, e)))
  not_made q s s' stuck h = inl (h, λ r e. absurd (ground (arith, e)))

  module _ (q : MtuRequest) (s : Setter W) where
    sent :
        (link link' : LinkFacts) (u : Unit {0}) (request : Result Bytes)
        → check_range q ≡ ok u
        → (read_link platform socket q.ifindex s).0 ≡ ok link
        → check_link q link ≡ ok link'
        → set_mtu_request platform.order q.ifindex q.desired_mtu (next_sequence q s) ≡ request
        → (read_link platform socket q.ifindex s).1.mutations ≡ s.mutations
        → Did q s
            (send_frame platform socket q link'
              (next_sequence q s)
              request
              record (read_link platform socket q.ifindex s).1 { sequence = next_sequence q s }).0
            (send_frame platform socket q link'
              (next_sequence q s)
              request
              record (read_link platform socket q.ifindex s).1 {
                sequence = next_sequence q s;
              }).1.mutations
    sent link link' u (err f) range read checked made same =
        inl (same, λ r e. absurd (ground (arith, e)))
    sent link link' u (ok request) range read checked made same =
        let run = (socket request (read_link platform socket q.ifindex s).1.host).0 in
        let compare = check_mtu-ok q link link' link.mtu checked in
        let bounds = check_range-ok q u range in
        inr (
          request,
          run,
          ap (λ ms. (request, run) ∷ ms) same,
          (link, read, compare.0, compare.1, bounds.0, bounds.1, bounds.2, made, refl),
          λ r e. settle_reply-Means platform q link' (next_sequence q s) run r e,
        )

    compared :
        (link : LinkFacts) (u : Unit {0}) (o : Result LinkFacts)
        → check_range q ≡ ok u
        → (read_link platform socket q.ifindex s).0 ≡ ok link
        → check_link q link ≡ o
        → Did q s
            (set_checked platform socket q o (read_link platform socket q.ifindex s).1).0
            (set_checked platform socket q o (read_link platform socket q.ifindex s).1).1.mutations
    compared link u (err f) range read checked =
        not_made q s (read_link platform socket q.ifindex s).1 f (read_link-same q.ifindex s).1
    compared link u (ok link') range read checked =
        sent link link' u
          (set_mtu_request platform.order q.ifindex q.desired_mtu (next_sequence q s)) range read
          checked refl (read_link-same q.ifindex s).1

    linked :
        (u : Unit {0}) (found : Result LinkFacts)
        → check_range q ≡ ok u
        → (read_link platform socket q.ifindex s).0 ≡ found
        → Did q s
            (set_checked platform socket q
              (found >>= check_link q)
              (read_link platform socket q.ifindex s).1).0
            (set_checked platform socket q
              (found >>= check_link q)
              (read_link platform socket q.ifindex s).1).1.mutations
    linked u (err f) range read =
        not_made q s (read_link platform socket q.ifindex s).1 f (read_link-same q.ifindex s).1
    linked u (ok link) range read = compared link u (check_link q link) range read refl

    ranged :
        (range : Result (Unit {0}))
        → check_range q ≡ range
        → Did q s
            (set_checked platform socket q
              (check_read platform socket q range s).0
              (check_read platform socket q range s).1).0
            (set_checked platform socket q
              (check_read platform socket q range s).0
              (check_read platform socket q range s).1).1.mutations
    ranged (err f) range = not_made q s s f refl
    ranged (ok u) range = linked u (read_link platform socket q.ifindex s).0 range refl

  -- A call of the setter sends no mutating frame, and then its result, if it returns one, is `not_written`; or it
  -- sends exactly one, which asks for the desired MTU, for a desired MTU in range and other than the expected one, and
  -- after a read that found the interface, under the expected name if there is one, at the expected MTU. Then a result
  -- `written` has the kernel's own answer to that frame's sequence with the error number zero; `not_written` has a frame
  -- that was never handed over, or such an answer with another error number; and `write_unknown` has neither.
  pub set_mtu-Did :
      (q : MtuRequest) (s : Setter W)
      → Did q s (set_mtu platform socket q s).0 (set_mtu platform socket q s).1.mutations
  unfolding set_mtu check
  set_mtu-Did q s = ranged q s (check_range q) refl
