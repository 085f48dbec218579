-- ===== src/Helper/Setter/Frame.antt =====
-- src/localplane/helper/mtu.py: what the one mutating frame says.
use local_plane.Prelude.{
  append-nil, ℕ, suc, ◌+◌, ◌≤◌, ◌<◌, ◌≡◌, ◌^◌, sym, ap, ◌∙◌, Option, none, some, List, [], ◌∷◌,
  ◌++◌, length, ltb, if◌then◌else◌, length-append, Option-cases, inl, inr, arith, pos, ◌==◌,
}
use local_plane.Helper.Struct.{Bytes, ByteOrder, Values, pack, unpack, unsigned_int, as_signed}
use local_plane.Helper.Struct.RoundTrip.{unpack-pack, length-pack, Fits-pack}
use local_plane.Helper.Netlink.{
  Platform, ok, err, ◌>>=◌, ifinfomsg, rtattr, ifla_mtu, ifla_ifname, rtm_newlink, messages,
  nlmsghdr, message, finished, aligned, messages_from, LinkFacts, set_mtu_request, framed,
  attribute, attributes, attributes_from, get, refused, unseen,
}
use local_plane.Helper.Netlink.Read.{
  listed, link_facts, interpret_link, expected_link, uint32, name_of,
}
use local_plane.Helper.Netlink.Stream.{Result-cases, read-framed, framed-parts, length-framed}
use local_plane.Helper.Netlink.Attribute.{
  attribute-parts, no_padding, read-attribute, attributes_from-stops,
}

abbrev pub link_values : ℕ → Values ifinfomsg
link_values ifindex = (0, (0, (0, (ifindex, (0, (0, tt))))))

-- The parts of the frame: the link's message, the attribute's header and the packed MTU.
abbrev pub Parts : ByteOrder → ℕ → ℕ → ℕ → Bytes → Bytes → Bytes → Bytes → Type 0
Parts order ifindex mtu sequence frame link header payload =
    (pack order ifinfomsg (link_values ifindex) ≡ some link)
    × (pack order (unsigned_int ∷ []) (mtu, tt) ≡ some payload)
    × (pack order rtattr (4 + length payload, (ifla_mtu, tt)) ≡ some header)
    × (framed order rtm_newlink 5 sequence (link ++ (header ++ (payload ++ []))) ≡ ok frame)

module _ (order : ByteOrder) (ifindex mtu sequence : ℕ) where
  pub set_mtu_request-Parts :
      {frame : Bytes}
      → set_mtu_request order ifindex mtu sequence ≡ ok frame
      → (link : Bytes) × (header : Bytes) × (payload : Bytes) × Parts order ifindex mtu sequence
          frame link header payload
  unfolding set_mtu_request
  set_mtu_request-Parts h = elim (Option-cases (pack order ifinfomsg (link_values ifindex))) [
    | inl e ↦ absurd (ground (arith, h, e))
    | inr (link, e) ↦ elim (Option-cases (pack order (unsigned_int ∷ []) (mtu, tt))) [
      | inl e' ↦ absurd (ground (arith, h, e, e'))
      | inr (payload, e') ↦ elim (Result-cases (attribute order ifla_mtu payload)) [
        | inr (f, e'') ↦ absurd (ground (arith, h, e, e', e''))
        | inl (bs, e'') ↦
            let (header, packed, parts) = attribute-parts order ifla_mtu payload e'' in
            let padded =
              parts
              ∙ no_padding header payload
                  (length-pack order rtattr (4 + length payload, (ifla_mtu, tt)) packed)
                  (length-pack order (unsigned_int ∷ []) (mtu, tt) e') in
            (
              link,
              header,
              payload,
              (
                e,
                e',
                packed,
                ap (λ b. framed order rtm_newlink 5 sequence (link ++ b)) (sym padded)
                    ∙ ground (arith, h, e, e', e''),
              ),
            )
      ]
    ]
  ]

abbrev pub sent_link : ℕ → ℕ → LinkFacts
sent_link ifindex mtu = record { ifindex = pos ifindex; name = none; mtu = some mtu }

abbrev facts_of : Platform → ℕ → List (ℕ × Bytes) → LinkFacts
facts_of platform index found = record {
  ifindex = as_signed index;
  name = name_of platform (get ifla_ifname found);
  mtu = uint32 platform (get ifla_mtu found);
}

abbrev read_index : ℕ → Option ℕ → LinkFacts
read_index index m = record { ifindex = as_signed index; name = none; mtu = m }

small_index :
    (size ifindex : ℕ) (m : Option ℕ)
    → ifindex < 2 ^ 31
    → 16 ≤ size
    → (if ltb size 16 then ok none else ok (some (read_index ifindex m)))
      ≡ ok (some (record { ifindex = pos ifindex; name = none; mtu = m }))
small_index size ifindex m h k = ground arith

-- What stands in a frame that sets an MTU: one RTM_NEWLINK message of the frame's own length, as a request that asks for
-- an acknowledgement (flags 5), whose link message names the interface alone, with no flags to change, and whose one
-- attribute is the MTU.
pub record SetsMtu (order : ByteOrder) (ifindex mtu sequence : ℕ) (frame : Bytes) : Type 0 where
  pub body : Bytes
  pub one_message : listed (messages order frame) ≡ ok ((rtm_newlink, sequence, body) ∷ [])
  pub header : unpack order nlmsghdr frame ≡ (length frame, (rtm_newlink, (5, (sequence, (0, tt)))))
  pub link : unpack order ifinfomsg body ≡ (0, (0, (0, (ifindex, (0, (0, tt))))))
  pub payload : Bytes
  pub one_attribute : attributes order body 16 ≡ ok ((ifla_mtu, payload) ∷ [])
  pub value : unpack order (unsigned_int ∷ []) payload ≡ (mtu, tt)
  pub four_bytes : length payload ≡ 4

messages_from-stops :
    (order : ByteOrder) (fuel : ℕ) (reply : Bytes) (offset : ℕ)
    → length reply < offset + 16
    → messages_from order (suc fuel) reply offset ≡ finished
unfolding messages_from
messages_from-stops order fuel reply offset h = ground arith

module _ (platform : Platform) (ifindex mtu sequence : ℕ) where
  read-attributes :
      (link header payload : Bytes)
      → pack platform.order rtattr (4 + length payload, (ifla_mtu, tt)) ≡ some header
      → length link ≡ 16
      → length payload ≡ 4
      → attributes platform.order (link ++ (header ++ (payload ++ []))) 16
        ≡ ok ((ifla_mtu, payload) ∷ [])
  unfolding attributes
  read-attributes link header payload packed h k =
      let body = link ++ (header ++ (payload ++ [])) in
      let long : length body ≡ 24 = omega (
        arith,
        length-append link (header ++ (payload ++ [])),
        length-append header (payload ++ []),
        length-append payload [],
        length-pack platform.order rtattr (4 + length payload, (ifla_mtu, tt)) packed,
        h,
        k,
      ) in
      ap (λ n. attributes_from platform.order (suc n) body 16 []) long
      ∙ ap (λ n. attributes_from platform.order 25 body n []) (sym h)
      ∙ read-attribute platform.order ifla_mtu payload header link [] 24 [] packed
      ∙ attributes_from-stops platform.order 23 body _ ((ifla_mtu, payload) ∷ [])
          (omega (arith, long, h, k))

  read-mtu :
      (payload : Bytes)
      → pack platform.order (unsigned_int ∷ []) (mtu, tt) ≡ some payload
      → uint32 platform (some payload) ≡ some mtu
  read-mtu payload packed =
      let long = length-pack platform.order (unsigned_int ∷ []) (mtu, tt) packed in
      let read =
        ap (unpack platform.order (unsigned_int ∷ [])) (sym (append-nil payload))
        ∙ unpack-pack platform.order (unsigned_int ∷ []) (mtu, tt) [] packed in
      ap (λ v. if ltb (length payload) 4 then none else some v.0) read ∙ ground (arith, long)

  read-link_facts :
      (link header payload frame : Bytes)
      → Parts platform.order ifindex mtu sequence frame link header payload
      → link_facts platform (link ++ (header ++ (payload ++ [])))
        ≡ ok (some (sent_link ifindex mtu))
  unfolding link_facts get
  read-link_facts link header payload frame (linked, paid, headed, framed_as) =
      let body = link ++ (header ++ (payload ++ [])) in
      let sixteen = length-pack platform.order ifinfomsg (link_values ifindex) linked in
      let small = (Fits-pack platform.order ifinfomsg (link_values ifindex) linked).1.1.1.0 in
      let four = length-pack platform.order (unsigned_int ∷ []) (mtu, tt) paid in
      ap
        (λ r.
          if ltb (length body) 16
          then ok none
          else (r >>= λ found.
              ok (some (facts_of platform (unpack platform.order ifinfomsg body).1.1.1.0 found))))
        (read-attributes link header payload headed sixteen four)
      ∙ ap
          (λ v.
            if ltb (length body) 16
            then ok none
            else ok (some (facts_of platform v.1.1.1.0 ((ifla_mtu, payload) ∷ []))))
          (unpack-pack platform.order ifinfomsg (link_values ifindex) (header ++ (payload ++ []))
            linked)
      ∙ ap (λ m. if ltb (length body) 16 then ok none else ok (some (read_index ifindex m)))
          (read-mtu payload paid)
      ∙ small_index (length body) ifindex (some mtu) small
          (omega (arith, length-append link (header ++ (payload ++ [])), sixteen))

  read_value :
      (payload : Bytes)
      → pack platform.order (unsigned_int ∷ []) (mtu, tt) ≡ some payload
      → unpack platform.order (unsigned_int ∷ []) payload ≡ (mtu, tt)
  read_value payload packed =
      ap (unpack platform.order (unsigned_int ∷ [])) (sym (append-nil payload))
      ∙ unpack-pack platform.order (unsigned_int ∷ []) (mtu, tt) [] packed

  -- The frame is one message, behind which nothing is left.
  read-messages :
      (link header payload frame : Bytes)
      → Parts platform.order ifindex mtu sequence frame link header payload
      → messages platform.order frame
        ≡ message rtm_newlink sequence (link ++ (header ++ (payload ++ []))) finished
  unfolding messages
  read-messages link header payload frame (linked, paid, headed, framed_as) =
      let body = link ++ (header ++ (payload ++ [])) in
      let forty : length frame ≡ 40 = omega (
        arith,
        length-framed platform.order rtm_newlink 5 sequence body framed_as,
        length-append link (header ++ (payload ++ [])),
        length-append header (payload ++ []),
        length-append payload [],
        length-pack platform.order rtattr (4 + length payload, (ifla_mtu, tt)) headed,
        length-pack platform.order ifinfomsg (link_values ifindex) linked,
        length-pack platform.order (unsigned_int ∷ []) (mtu, tt) paid,
      ) in
      let whole = append-nil frame in
      let start : (n : ℕ) → 0 + n ≡ n = λ n. omega arith in
      ap (λ f. messages_from platform.order (suc (length frame)) f 0) (sym whole)
      ∙ read-framed platform.order rtm_newlink 5 sequence body frame [] [] (length frame)
          (ground arith) framed_as
      ∙ ap (message rtm_newlink sequence body) (
          ap (λ n. messages_from platform.order (length frame) (frame ++ []) n)
            (start (aligned (length frame)))
          ∙ ap (λ f. messages_from platform.order (length frame) f (aligned (length frame))) whole
          ∙ ap (λ n. messages_from platform.order n frame (aligned n)) forty
          ∙ messages_from-stops platform.order 39 frame 40 (omega (arith, forty)))

  -- The one mutating frame is one RTM_NEWLINK message of the frame's own length with the request's sequence, as a request
  -- that asks for an acknowledgement; it names the interface and changes no flags, and its one attribute is the new MTU;
  -- in either byte order. Read as the helper reads a reply, it says that the interface has the new MTU.
  pub set_mtu_request-SetsMtu :
      {frame : Bytes}
      → set_mtu_request platform.order ifindex mtu sequence ≡ ok frame
      → SetsMtu platform.order ifindex mtu sequence frame
        × (interpret_link platform ifindex sequence (messages platform.order frame)
            ≡ ok (sent_link ifindex mtu))
  unfolding interpret_link listed
  set_mtu_request-SetsMtu {frame} h =
      let (link, header, payload, parts) =
        set_mtu_request-Parts platform.order ifindex mtu sequence h in
      let (linked, paid, headed, framed_as) = parts in
      let body = link ++ (header ++ (payload ++ [])) in
      let read = read-messages link header payload frame parts in
      let (start, packed, whole) =
        framed-parts platform.order rtm_newlink 5 sequence body framed_as in
      let values : Values nlmsghdr = (16 + length body, (rtm_newlink, (5, (sequence, (0, tt))))) in
      let long = length-framed platform.order rtm_newlink 5 sequence body framed_as in
      let sixteen = length-pack platform.order ifinfomsg (link_values ifindex) linked in
      let four = length-pack platform.order (unsigned_int ∷ []) (mtu, tt) paid in
      (
        record {
          body = body;
          one_message = ap listed read;
          header =
              ap (unpack platform.order nlmsghdr) whole
              ∙ unpack-pack platform.order nlmsghdr values body packed
              ∙ ap (λ n. (n, (rtm_newlink, (5, (sequence, (0, tt)))))) (sym long);
          link =
              unpack-pack platform.order ifinfomsg (link_values ifindex) (header ++ (payload ++ []))
                linked;
          payload = payload;
          one_attribute = read-attributes link header payload headed sixteen four;
          value = read_value payload paid;
          four_bytes = four;
        },
        ap (interpret_link platform ifindex sequence) read
            ∙ ap
                (λ r.
                  if sequence == sequence
                  then (r >>= expected_link platform ifindex)
                  else err (refused "link_reply_uncorrelated" unseen))
                (read-link_facts link header payload frame parts)
            ∙ ground arith,
      )
