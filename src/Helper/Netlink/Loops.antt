-- ===== src/Helper/Netlink/Loops.antt =====
-- src/localplane/helper/mtu.py: the loops over a reply end, since each round passes the header it read at least.
use local_plane.Prelude.{
  ℕ, zero, suc, ◌+◌, ◌<◌, ◌≡◌, refl, Bool, true, false, ◌||◌, List, [], ◌∷◌, length, drop, ltb, leb,
  ◌==◌, if◌then◌else◌, arith, ◌≢◌, not, Option, none, some, Option-cases, inl, inr, ap,
}
use local_plane.Helper.Struct.{Bytes, ByteOrder, unpack, slice, signed_int, unpack_from}
use local_plane.Helper.Netlink.Read.{
  echoes_another, echoed_request, expected_link, error_code, link_facts, interpret_link, listed,
  acknowledged, acknowledgement,
}
use local_plane.Helper.Netlink.{
  Platform, LinkFacts, stuck, is_zero, nlmsg_error, rtm_newlink, Result, ◌>>=◌, ok, err, nlmsghdr,
  rtattr, nlmsg_done, aligned, Messages, finished, malformed, out_of_fuel, message, messages_from,
  messages, attributes_from, attributes,
}

-- The generator's values come to an end.
abbrev pub Ends : Messages → Type 0
Ends finished = Unit
Ends malformed = Unit
Ends out_of_fuel = ⊥
Ends (message kind sequence body rest) = Ends rest

Ends-if :
    (b : Bool) (m n : Messages)
    → (b ≡ true → Ends m)
    → (b ≡ false → Ends n)
    → Ends (if b then m else n)
Ends-if true m n h k = h refl
Ends-if false m n h k = k refl

pub >>=-ok : {A B : Type 0} (m : Result A) (f : A → Result B) {a : A} → m ≡ ok a → (m >>= f) ≡ f a
>>=-ok m f e = ap (λ n. n >>= f) e

unstuck-if :
    {A : Type 0} (b : Bool) {m n : Result A}
    → m ≢ err stuck
    → n ≢ err stuck
    → (if b then m else n) ≢ err stuck
unstuck-if true h k = h
unstuck-if false h k = k

unstuck-bind :
    {A B : Type 0} (m : Result A) (f : A → Result B)
    → m ≢ err stuck
    → ((a : A) → f a ≢ err stuck)
    → (m >>= f) ≢ err stuck
unstuck-bind (ok a) f h k = k a
unstuck-bind (err f) g h k = λ e. h (ground (arith, e))

module _ (order : ByteOrder) where
  messages_from-Ends :
      (fuel : ℕ) (reply : Bytes) (offset : ℕ)
      → 0 < fuel
      → length reply < offset + fuel
      → Ends (messages_from order fuel reply offset)
  unfolding messages_from
  messages_from-Ends zero reply offset h k = absurd (omega (arith, h))
  messages_from-Ends (suc fuel) reply offset h k =
      let (size, (kind, (flags, (sequence, (port, _))))) =
        unpack order nlmsghdr (drop offset reply) in
      Ends-if (leb (offset + 16) (length reply)) _ finished
        (λ room.
          Ends-if (ltb size 16 || ltb (length reply) (offset + size)) malformed _ (λ _. tt)
            (λ sound.
              Ends-if (kind == nlmsg_done) finished _ (λ _. tt)
                (λ _.
                  messages_from-Ends fuel reply (offset + aligned size) (ground (arith, room, k))
                    (ground (arith, sound, k)))))
        (λ _. tt)

  messages-Ends : (reply : Bytes) → Ends (messages order reply)
  unfolding messages
  messages-Ends reply = messages_from-Ends (suc (length reply)) reply 0 (omega arith) (omega arith)

  Ok-if :
      {A : Type 0} (b : Bool) (m n : Result A)
      → (b ≡ true → (a : A) × (m ≡ ok a))
      → (b ≡ false → (a : A) × (n ≡ ok a))
      → (a : A) × ((if b then m else n) ≡ ok a)
  Ok-if true m n h k = h refl
  Ok-if false m n h k = k refl

  attributes_from-ok :
      (fuel : ℕ) (body : Bytes) (offset : ℕ) (found : List (ℕ × Bytes))
      → 0 < fuel
      → length body < offset + fuel
      → (all : List (ℕ × Bytes)) × (attributes_from order fuel body offset found ≡ ok all)
  unfolding attributes_from
  attributes_from-ok zero body offset found h k = absurd (omega (arith, h))
  attributes_from-ok (suc fuel) body offset found h k =
      let (size, (kind, _)) = unpack order rtattr (drop offset body) in
      Ok-if (leb (offset + 4) (length body)) _ (ok found)
        (λ room.
          Ok-if (ltb size 4 || ltb (length body) (offset + size)) (ok found) _ (λ _. (found, refl))
            (λ sound.
              attributes_from-ok fuel body (offset + aligned size)
                ((kind, slice body (offset + 4) (offset + size)) ∷ found) (ground (arith, room, k))
                (ground (arith, sound, k))))
        (λ _. (found, refl))

  pub attributes-ok :
      (body : Bytes) (offset : ℕ)
      → (all : List (ℕ × Bytes)) × (attributes order body offset ≡ ok all)
  unfolding attributes
  attributes-ok body offset =
      attributes_from-ok (suc (length body)) body offset [] (omega arith) (omega arith)

  error_code-unstuck : (body : Bytes) → error_code order body ≢ err stuck
  unfolding error_code
  error_code-unstuck body = elim (Option-cases (unpack_from order (signed_int ∷ []) body 0)) [
    | inl e ↦ ground (arith, e)
    | inr (a, e) ↦ ground (arith, e)
  ]

listed-ok : (ms : Messages) → Ends ms → listed ms ≢ err stuck
unfolding listed
listed-ok finished h = ground arith
listed-ok malformed h = ground arith
listed-ok out_of_fuel h = absurd h
listed-ok (message kind sequence body rest) h = ground (arith, listed-ok rest h)

module _ (platform : Platform) where
  pub link_facts-ok :
      (body : Bytes) → (facts : Option LinkFacts) × (link_facts platform body ≡ ok facts)
  unfolding link_facts
  link_facts-ok body =
      Ok-if platform.order (ltb (length body) 16) (ok none) _ (λ _. (none, refl))
        (λ _.
          let (found, e) = attributes-ok platform.order body 16 in
          (_, >>=-ok (attributes platform.order body 16) _ e))

  link_facts-unstuck : (body : Bytes) → link_facts platform body ≢ err stuck
  link_facts-unstuck body = let (facts, e) = link_facts-ok body in ground (arith, e)

  expected_link-unstuck :
      (ifindex : ℕ) (facts : Option LinkFacts) → expected_link platform ifindex facts ≢ err stuck
  expected_link-unstuck ifindex none = ground arith
  expected_link-unstuck ifindex (some facts) = ground arith

  interpret_link-unstuck :
      (ifindex expected : ℕ) (ms : Messages)
      → Ends ms
      → interpret_link platform ifindex expected ms ≢ err stuck
  unfolding interpret_link
  interpret_link-unstuck ifindex expected finished h = ground arith
  interpret_link-unstuck ifindex expected malformed h = ground arith
  interpret_link-unstuck ifindex expected out_of_fuel h = absurd h
  interpret_link-unstuck ifindex expected (message kind sequence body rest) h =
      let later = interpret_link-unstuck ifindex expected rest h in
      unstuck-if (kind == nlmsg_error)
        (unstuck-bind (error_code platform.order body) _ (error_code-unstuck platform.order body)
          (λ code. unstuck-if (is_zero code) later (ground arith)))
        (unstuck-if (kind == rtm_newlink)
          (unstuck-if (sequence == expected)
            (unstuck-bind (link_facts platform body) (expected_link platform ifindex)
              (link_facts-unstuck body) (expected_link-unstuck ifindex))
            (ground arith))
          later)

  acknowledged-unstuck :
      (expected : ℕ) (ms : List (ℕ × ℕ × Bytes)) → acknowledged platform expected ms ≢ err stuck
  unfolding acknowledged
  acknowledged-unstuck expected [] = ground arith
  acknowledged-unstuck expected ((kind, sequence, body) ∷ later) =
      unstuck-if (kind == nlmsg_error)
        (unstuck-if (not (sequence == expected)) (ground arith) (
          unstuck-if (echoes_another expected (echoed_request platform.order body)) (ground arith) (
            unstuck-bind (error_code platform.order body) _ (error_code-unstuck platform.order body)
              (λ code. ground arith))))
        (acknowledged-unstuck expected later)

  -- Whatever bytes a reply has, reading it as a link or as an acknowledgement ends: the rounds that the length of the
  -- reply allows, and those that the length of a message's body allows, are enough.
  pub reading-ends :
      (ifindex expected : ℕ) (reply : Bytes)
      → (interpret_link platform ifindex expected (messages platform.order reply) ≢ err stuck)
        × (acknowledgement platform reply expected ≢ err stuck)
  unfolding acknowledgement
  reading-ends ifindex expected reply =
      let ends = messages-Ends platform.order reply in
      (
        interpret_link-unstuck ifindex expected (messages platform.order reply) ends,
        unstuck-bind (listed (messages platform.order reply)) (acknowledged platform expected)
            (listed-ok (messages platform.order reply) ends) (acknowledged-unstuck expected),
      )
