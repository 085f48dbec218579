-- ===== src/Helper/Netlink/Stream.antt =====
-- src/localplane/helper/mtu.py: reading gives back what was framed.
use local_plane.Prelude.{
  append-append, ℕ, zero, suc, ◌+◌, ◌-◌, ◌%◌, ◌<◌, ◌≤◌, ◌≡◌, ◌≢◌, refl, sym, ap, ◌∙◌, some, List,
  [], ◌∷◌, ◌++◌, length, take, drop, leb, if◌then◌else◌, All, length-append, Option-cases, inl, inr,
  ◌⊎◌, arith,
}
use local_plane.Helper.Struct.{Bytes, ByteOrder, Values, pack, unpack, slice}
use local_plane.Helper.Struct.RoundTrip.{take-append, drop-append, unpack-pack, length-pack}
use local_plane.Helper.Netlink.{
  Fault, Result, ok, err, ◌>>=◌, nlmsghdr, nlmsg_done, aligned, zeros, framed, Messages, finished,
  message, next_message, messages_from, messages,
}
use local_plane.Helper.Netlink.Read.{listed}

-- The kernel's format of a reply: each message is framed and filled up to the next multiple of four.
abbrev pub Message : Type 0
Message = ℕ × ℕ × ℕ × Bytes

unfoldable pub frames : ByteOrder → List Message → Result Bytes
frames order [] = ok []
frames order ((kind, flags, sequence, body) ∷ ms) = do
  frame ← framed order kind flags sequence body
  later ← frames order ms
  ok (frame ++ (zeros ((4 - length frame % 4) % 4) ++ later))

-- What a reader sees of the messages.
abbrev pub contents : List Message → List (ℕ × ℕ × Bytes)
contents [] = []
contents ((kind, flags, sequence, body) ∷ ms) = (kind, sequence, body) ∷ contents ms

length-zeros : (n : ℕ) → length (zeros n) ≡ n
length-zeros zero = refl
length-zeros (suc n) = ap suc (length-zeros n)

-- A slice of a text that is made of three parts.
pub slice-middle :
    (xs ys zs : Bytes) (start stop : ℕ)
    → start ≡ length xs
    → stop ≡ length xs + length ys
    → slice (xs ++ (ys ++ zs)) start stop ≡ ys
unfolding slice
slice-middle xs ys zs start stop e e' =
    ap (λ k. take (stop - k) (drop k (xs ++ (ys ++ zs)))) e
    ∙ ap (take (stop - length xs)) (drop-append xs (ys ++ zs))
    ∙ ap (λ k. take k (ys ++ zs)) (omega (arith, e'))
    ∙ take-append ys zs

pub framed-parts :
    (order : ByteOrder) (kind flags sequence : ℕ) (body : Bytes) {frame : Bytes}
    → framed order kind flags sequence body ≡ ok frame
    → (header : Bytes) × (pack order nlmsghdr
          (16 + length body, (kind, (flags, (sequence, (0, tt)))))
        ≡ some header)
      × (frame ≡ header ++ body)
unfolding framed
framed-parts order kind flags sequence body h =
    elim (Option-cases
      (pack order nlmsghdr (16 + length body, (kind, (flags, (sequence, (0, tt))))))) [
        | inl e ↦ absurd (ground (arith, h, e))
        | inr (header, e) ↦ (header, e, ground (arith, h, e))
      ]

pub length-framed :
    (order : ByteOrder) (kind flags sequence : ℕ) (body : Bytes) {frame : Bytes}
    → framed order kind flags sequence body ≡ ok frame
    → length frame ≡ 16 + length body
length-framed order kind flags sequence body e =
    let (header, packed, parts) = framed-parts order kind flags sequence body e in
    let values : Values nlmsghdr = (16 + length body, (kind, (flags, (sequence, (0, tt))))) in
    ap length parts
    ∙ omega (arith, length-append header body, length-pack order nlmsghdr values packed)

pub Result-cases :
    {A : Type 0} (r : Result A) → ((a : A) × (r ≡ ok a)) ⊎ ((f : Fault) × (r ≡ err f))
Result-cases (ok a) = inl (a, refl)
Result-cases (err f) = inr (f, refl)

nothing : {reply : Bytes} → ok [] ≡ ok reply → length reply ≡ 0
nothing h = ground (arith, h)

if-true : (m n : Messages) (a b : ℕ) → a ≤ b → (if leb a b then m else n) ≡ m
if-true m n a b h = ground arith

next_message-reads :
    (reply : Bytes) (offset size kind flags sequence : ℕ) (rest : Messages)
    → 16 ≤ size
    → offset + size ≤ length reply
    → kind ≢ nlmsg_done
    → next_message reply offset (size, (kind, (flags, (sequence, (0, tt))))) rest
      ≡ message kind sequence (slice reply (offset + 16) (offset + size)) rest
next_message-reads reply offset size kind flags sequence rest h k l = ground arith

module _ (order : ByteOrder) where
  -- The reader at the start of a frame takes the message and goes on behind it.
  pub read-framed :
      (kind flags sequence : ℕ) (body frame before after : Bytes) (fuel : ℕ)
      → kind ≢ nlmsg_done
      → framed order kind flags sequence body ≡ ok frame
      → messages_from order (suc fuel) (before ++ (frame ++ after)) (length before)
        ≡ message kind sequence body (
            messages_from order fuel
              (before ++ (frame ++ after))
              (length before + aligned (length frame)))
  unfolding messages_from
  read-framed kind flags sequence body frame before after fuel h e =
      let (header, packed, parts) = framed-parts order kind flags sequence body e in
      let reply = before ++ (frame ++ after) in
      let values : Values nlmsghdr = (16 + length body, (kind, (flags, (sequence, (0, tt))))) in
      let read =
        ap (unpack order nlmsghdr) (drop-append before (frame ++ after))
        ∙ ap (λ f. unpack order nlmsghdr (f ++ after)) parts
        ∙ ap (unpack order nlmsghdr) (append-append header body after)
        ∙ unpack-pack order nlmsghdr values (body ++ after) packed in
      let parted =
        ap (λ f. before ++ (f ++ after)) parts
        ∙ ap (λ f. before ++ f) (append-append header body after)
        ∙ sym (append-append before header (body ++ after)) in
      let sixteen = length-pack order nlmsghdr values packed in
      let lengths = ap length parted ∙ length-append (before ++ header) (body ++ after) in
      let long = length-append before header in
      let longer = length-append body after in
      ap
        (λ v.
          if leb (length before + 16) (length reply)
          then next_message reply (length before) v
              (messages_from order fuel reply (length before + aligned v.0))
          else finished)
        read
      ∙ if-true _ finished _ _ (omega (arith, sixteen, lengths, long, longer))
      ∙ next_message-reads reply (length before) (16 + length body) kind flags sequence _
          (omega arith) (omega (arith, sixteen, lengths, long, longer)) h
      ∙ ap
          (λ b.
            message kind sequence b
              (messages_from order fuel reply (length before + aligned (16 + length body))))
          (ap (λ bs. slice bs (length before + 16) (length before + (16 + length body))) parted
            ∙ slice-middle (before ++ header) body after _ _ (omega (arith, sixteen, long))
                (omega (arith, sixteen, long)))
      ∙ ap
          (λ k.
            message kind sequence body (messages_from order fuel reply (length before + aligned k)))
          (omega (arith, sixteen, ap length parts, length-append header body))

  if-false : (m n : Messages) (a b : ℕ) → b < a → (if leb a b then m else n) ≡ n
  if-false m n a b h = ground arith

  frames-parts :
      (kind flags sequence : ℕ) (body : Bytes) (ms : List Message) {reply : Bytes}
      → frames order ((kind, flags, sequence, body) ∷ ms) ≡ ok reply
      → (frame : Bytes) × (later : Bytes) × (framed order kind flags sequence body ≡ ok frame)
        × (frames order ms ≡ ok later)
        × (reply ≡ frame ++ (zeros ((4 - length frame % 4) % 4) ++ later))
  unfolding frames
  frames-parts kind flags sequence body ms h =
      elim (Result-cases (framed order kind flags sequence body)) [
        | inr (f, e) ↦ absurd (ground (arith, h, e))
        | inl (frame, e) ↦ elim (Result-cases (frames order ms)) [
          | inr (f, e') ↦ absurd (ground (arith, h, e, e'))
          | inl (later, e') ↦ (frame, later, e, e', ground (arith, h, e, e'))
        ]
      ]

  read-frames :
      (ms : List Message) (before reply : Bytes) (fuel : ℕ)
      → All (λ m. m.0 ≢ nlmsg_done) ms
      → frames order ms ≡ ok reply
      → length reply < fuel
      → listed (messages_from order fuel (before ++ reply) (length before)) ≡ ok (contents ms)
  unfolding frames listed messages_from
  read-frames ms before reply zero h e k = absurd (omega (arith, k))
  read-frames [] before reply (suc fuel) h e k = ap listed (
      if-false _ finished (length before + 16) (length (before ++ reply))
        (omega (arith, length-append before reply, nothing e)))
  read-frames ((kind, flags, sequence, body) ∷ ms) before reply (suc fuel) h e k =
      let (frame, later, framed_as, later_as, parts) = frames-parts kind flags sequence body ms e in
      let pad = zeros ((4 - length frame % 4) % 4) in
      let passed : length before + aligned (length frame) ≡ length (before ++ (frame ++ pad)) =
        omega (
          arith,
          length-append before (frame ++ pad),
          length-append frame pad,
          length-zeros ((4 - length frame % 4) % 4),
        ) in
      let lengths = ap length parts ∙ length-append frame (pad ++ later) in
      let shifted =
        ap (λ bs. before ++ bs) (sym (append-append frame pad later))
        ∙ sym (append-append before (frame ++ pad) later) in
      ap (λ r. listed (messages_from order (suc fuel) (before ++ r) (length before))) parts
      ∙ ap listed
          (read-framed kind flags sequence body frame before (pad ++ later) fuel h.0 framed_as)
      ∙ ap (λ r. r >>= λ rest. ok ((kind, sequence, body) ∷ rest))
          (ap (λ n. listed (messages_from order fuel (before ++ (frame ++ (pad ++ later))) n))
              passed
            ∙ ap (λ r. listed (messages_from order fuel r (length (before ++ (frame ++ pad)))))
                shifted
            ∙ read-frames ms (before ++ (frame ++ pad)) later fuel h.1 later_as (
                omega (
                  arith,
                  k,
                  lengths,
                  length-append pad later,
                  length-framed order kind flags sequence body framed_as,
                )))

-- Messages that are framed one after the other are read back as they are, in their order and with their bodies, none of
-- them being the end marker, in either byte order.
pub messages-frames :
    (order : ByteOrder) (ms : List Message) {reply : Bytes}
    → All (λ m. m.0 ≢ nlmsg_done) ms
    → frames order ms ≡ ok reply
    → listed (messages order reply) ≡ ok (contents ms)
unfolding messages
messages-frames order ms {reply} h e =
    read-frames order ms [] reply (suc (length reply)) h e (omega arith)
