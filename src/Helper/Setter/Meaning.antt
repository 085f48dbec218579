-- ===== src/Helper/Setter/Meaning.antt =====
-- src/localplane/helper/mtu.py: what an outcome says of the exchange it was made from.
use mathlib.Core.Path.{subst}
use local_plane.Prelude.{
  ℕ, ◌≡◌, ◌≢◌, refl, sym, ap, ◌∙◌, ◌⊎◌, inl, inr, true, Option, none, some, ◌==◌, ℤ, pos, negsuc,
  Bool-cases, arith,
}
use local_plane.Settlement.{MutationOutcome, not_written, written, write_unknown}
use local_plane.Helper.{MtuRequest}
use local_plane.Helper.Struct.{Bytes}
use local_plane.Helper.Netlink.{
  Platform, refused, netlink_failure, struct_error, stuck, Result, ok, err, is_zero, LinkFacts,
}
use local_plane.Helper.Netlink.Read.{acknowledgement}
use local_plane.Helper.Setter.{
  MutationResult, Exchange, no_socket, not_sent, timed_out, not_received, received, exchange,
  judged, settle_reply,
}

-- The socket gave the datagram to nobody.
abbrev pub Unsent : Exchange → Type 0
Unsent run = (run ≡ no_socket) ⊎ (run ≡ not_sent)

-- The kernel itself answered the request, with its error number.
abbrev pub AnsweredWith : Platform → ℕ → Exchange → ℤ → Type 0
AnsweredWith platform sequence run code =
    (reply : Bytes) × (run ≡ received reply (some 0))
    × (acknowledgement platform reply sequence ≡ ok code)

-- What an outcome says of the mutating exchange it was made from.
abbrev pub Means : Platform → ℕ → Exchange → MutationOutcome → Type 0
Means platform sequence run written = AnsweredWith platform sequence run (pos 0)
Means platform sequence run not_written =
    Unsent run ⊎ ((code : ℤ) × (code ≢ pos 0) × AnsweredWith platform sequence run code)
Means platform sequence run write_unknown =
    (Unsent run → ⊥) × ((code : ℤ) → AnsweredWith platform sequence run code → ⊥)

Unsent-received : {reply : Bytes} {port : Option ℕ} → Unsent (received reply port) → ⊥
Unsent-received (inl e) = ground (arith, e)
Unsent-received (inr e) = ground (arith, e)

is_zero-eq : (code : ℤ) → is_zero code ≡ true → code ≡ pos 0
is_zero-eq (pos n) h = ground (arith, h)
is_zero-eq (negsuc n) h = ground (arith, h)

module _ (platform : Platform) where
  by_outcome :
      (sequence : ℕ) (run : Exchange) {o o' : MutationOutcome}
      → o ≡ o'
      → Means platform sequence run o'
      → Means platform sequence run o
  by_outcome sequence run e = subst (Means platform sequence run) (sym e)

  judged-Means :
      (q : MtuRequest) (link : LinkFacts) (sequence : ℕ) (reply : Bytes) (r : MutationResult)
      (code : Result ℤ)
      → acknowledgement platform reply sequence ≡ code
      → judged platform q link code ≡ ok r
      → Means platform sequence (received reply (some 0)) r.outcome
  judged-Means q link sequence reply r (err (refused reason seen)) e h = absurd (ground (arith, h))
  judged-Means q link sequence reply r (err (netlink_failure reason dispatched)) e h =
      by_outcome sequence (received reply (some 0)) {o' = write_unknown} (ground (arith, h))
        (Unsent-received, λ code a. ground (arith, e, a.1, a.2))
  judged-Means q link sequence reply r (err struct_error) e h = absurd (ground (arith, h))
  judged-Means q link sequence reply r (err stuck) e h = absurd (ground (arith, h))
  judged-Means q link sequence reply r (ok code) e h = elim (Bool-cases (is_zero code)) [
    | inl z ↦
        by_outcome sequence (received reply (some 0)) {o' = written} (ground (arith, h, z))
          (reply, refl, e ∙ ap ok (is_zero-eq code z))
    | inr z ↦
        by_outcome sequence (received reply (some 0)) {o' = not_written} (ground (arith, h, z))
          (inr (code, ground (arith, z), (reply, refl, e)))
  ]

  pub settle_reply-Means :
      (q : MtuRequest) (link : LinkFacts) (sequence : ℕ) (run : Exchange) (r : MutationResult)
      → settle_reply platform q link sequence (exchange true run) ≡ ok r
      → Means platform sequence run r.outcome
  unfolding exchange
  settle_reply-Means q link sequence no_socket r h =
      by_outcome sequence no_socket {o' = not_written} (ground (arith, h)) (inl (inl refl))
  settle_reply-Means q link sequence not_sent r h =
      by_outcome sequence not_sent {o' = not_written} (ground (arith, h)) (inl (inr refl))
  settle_reply-Means q link sequence timed_out r h =
      by_outcome sequence timed_out {o' = write_unknown} (ground (arith, h))
        (ground arith, λ code a. ground (arith, a.1))
  settle_reply-Means q link sequence not_received r h =
      by_outcome sequence not_received {o' = write_unknown} (ground (arith, h))
        (ground arith, λ code a. ground (arith, a.1))
  settle_reply-Means q link sequence (received reply none) r h =
      by_outcome sequence (received reply none) {o' = write_unknown} (ground (arith, h))
        (Unsent-received, λ code a. ground (arith, a.1))
  settle_reply-Means q link sequence (received reply (some port)) r h =
      elim (Bool-cases (port == 0)) [
        | inl z ↦
            let zero_port : port ≡ 0 = ground (arith, z) in
            subst (λ n. Means platform sequence (received reply (some n)) r.outcome) (sym zero_port)
              (judged-Means q link sequence reply r (acknowledgement platform reply sequence) refl
                (ground (arith, h, z)))
        | inr z ↦
            by_outcome sequence (received reply (some port)) {o' = write_unknown}
              (ground (arith, h, z)) (Unsent-received, λ code a. ground (arith, z, a.1))
      ]
