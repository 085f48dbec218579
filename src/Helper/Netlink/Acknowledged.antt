-- ===== src/Helper/Netlink/Acknowledged.antt =====
-- src/localplane/helper/mtu.py: which replies are an acknowledgement.
use mathlib.Core.Path.{subst}
use local_plane.Prelude.{
  ℕ, zero, suc, ◌≡◌, ◌≢◌, ◌↔◌, refl, sym, ap, ◌∙◌, inl, inr, true, false, not, Bool-cases, List, [],
  ◌∷◌, ◌++◌, All, ℤ, pos, negsuc, if◌then◌else◌, ◌==◌, arith,
}
use local_plane.Helper.Struct.{Bytes}
use local_plane.Helper.Netlink.{
  Platform, netlink_failure, Fault, Result, ok, err, ◌>>=◌, negated, nlmsg_error, messages,
}
use local_plane.Helper.Netlink.Loops.{>>=-ok}
use local_plane.Helper.Netlink.Read.{
  error_code, echoed_request, echoes_another, listed, acknowledged, acknowledgement,
}
use local_plane.Helper.Netlink.Stream.{Result-cases}

negated-negated : (code : ℤ) → negated (negated code) ≡ code
negated-negated (pos zero) = refl
negated-negated (pos (suc n)) = refl
negated-negated (negsuc n) = refl

self_sequence : (n : ℕ) (a b : Result ℤ) → (if not (n == n) then a else b) ≡ b
self_sequence n a b = ground arith

other_kind :
    (kind : ℕ) (a b : Result ℤ) → kind ≢ nlmsg_error → (if kind == nlmsg_error then a else b) ≡ b
other_kind kind a b h = ground arith

failed_no_answer : {code : ℤ} (f : Fault) → err f ≢ ok code
failed_no_answer f = ground arith

module _ (platform : Platform) (expected : ℕ) where
  -- The first error message has the request's sequence, echoes no other request, and carries the number.
  abbrev pub Acknowledges : ℤ → List (ℕ × ℕ × Bytes) → Type 0
  Acknowledges code ms =
      (earlier : List (ℕ × ℕ × Bytes)) × (body : Bytes) × (later : List (ℕ × ℕ × Bytes)) × (ms
        ≡ earlier ++ ((nlmsg_error, expected, body) ∷ later))
      × All (λ m. m.0 ≢ nlmsg_error) earlier
      × (echoes_another expected (echoed_request platform.order body) ≡ false)
      × (error_code platform.order body ≡ ok (negated code))

  answer-Acknowledges :
      (sequence : ℕ) (body : Bytes) (later : List (ℕ × ℕ × Bytes)) {code : ℤ}
      → acknowledged platform expected ((nlmsg_error, sequence, body) ∷ later) ≡ ok code
      → (sequence ≡ expected)
        × (echoes_another expected (echoed_request platform.order body) ≡ false)
        × (error_code platform.order body ≡ ok (negated code))
  unfolding acknowledged
  answer-Acknowledges sequence body later {code} h =
      elim (Result-cases (error_code platform.order body)) [
        | inl (c, e) ↦ (
          ground (arith, h),
          ground (arith, h),
          e ∙ ap ok (sym (negated-negated c) ∙ ap negated (ground (arith, h, e))),
        )
        | inr (f, e) ↦ absurd (ground (arith, h, e))
      ]

  acknowledged-Acknowledges :
      (ms : List (ℕ × ℕ × Bytes)) {code : ℤ}
      → acknowledged platform expected ms ≡ ok code
      → Acknowledges code ms
  unfolding acknowledged
  acknowledged-Acknowledges [] h = absurd (ground (arith, h))
  acknowledged-Acknowledges ((kind, sequence, body) ∷ ms) {code} h =
      elim (Bool-cases (kind == nlmsg_error)) [
        | inl z ↦
            let two : kind ≡ nlmsg_error = ground (arith, z) in
            let (same, echo, number) = answer-Acknowledges sequence body ms (
              subst (λ k. acknowledged platform expected ((k, sequence, body) ∷ ms) ≡ ok code) two
                h) in
            (
              [],
              body,
              ms,
              ap (λ k. (k, sequence, body) ∷ ms) two ∙ ap (λ n. (nlmsg_error, n, body) ∷ ms) same,
              tt,
              echo,
              number,
            )
        | inr z ↦
            let (earlier, b, later, e, others, echo, number) =
              acknowledged-Acknowledges ms {code = code} (ground (arith, h, z)) in
            (
              (kind, sequence, body) ∷ earlier,
              b,
              later,
              ap (λ rest. (kind, sequence, body) ∷ rest) e,
              (ground (arith, z), others),
              echo,
              number,
            )
      ]

  Acknowledges-acknowledged :
      (earlier : List (ℕ × ℕ × Bytes)) (body : Bytes) (later : List (ℕ × ℕ × Bytes)) (code : ℤ)
      → All (λ m. m.0 ≢ nlmsg_error) earlier
      → echoes_another expected (echoed_request platform.order body) ≡ false
      → error_code platform.order body ≡ ok (negated code)
      → acknowledged platform expected (earlier ++ ((nlmsg_error, expected, body) ∷ later))
        ≡ ok code
  unfolding acknowledged
  Acknowledges-acknowledged [] body later code h echo number =
      ap
        (λ b.
          if not (expected == expected)
          then err (netlink_failure "acknowledgement_uncorrelated" true)
          else if b
          then err (netlink_failure "acknowledgement_echoes_another_request" true)
          else (error_code platform.order body >>= λ c. ok (negated c)))
        echo
      ∙ self_sequence expected _ _
      ∙ >>=-ok (error_code platform.order body) _ number
      ∙ ap ok (negated-negated code)
  Acknowledges-acknowledged ((kind, sequence, other) ∷ earlier) body later code h echo number =
      other_kind kind _ _ h.0 ∙ Acknowledges-acknowledged earlier body later code h.1 echo number

  -- A reply is taken as the kernel's answer with a number exactly when every message in it is well formed and its first
  -- error message has the request's sequence, does not echo another request's header, and carries that number's negation.
  pub acknowledgement-Acknowledges_iff :
      (reply : Bytes) (code : ℤ)
      → (acknowledgement platform reply expected ≡ ok code) ↔ (
          (ms : List (ℕ × ℕ × Bytes)) × (listed (messages platform.order reply) ≡ ok ms)
          × Acknowledges code ms)
  unfolding acknowledgement
  acknowledgement-Acknowledges_iff reply code = (
    λ h. elim (Result-cases (listed (messages platform.order reply))) [
      | inl (ms, e) ↦ (
        ms,
        e,
        acknowledged-Acknowledges ms
            (sym (>>=-ok (listed (messages platform.order reply)) _ e) ∙ h),
      )
      | inr (f, e) ↦
          absurd (failed_no_answer f (sym (ap (λ r. r >>= acknowledged platform expected) e) ∙ h))
    ],
    λ found.
        let (earlier, body, later, split, others, echo, number) = found.2 in
        >>=-ok (listed (messages platform.order reply)) (acknowledged platform expected) found.1
        ∙ ap (acknowledged platform expected) split
        ∙ Acknowledges-acknowledged earlier body later code others echo number,
  )
