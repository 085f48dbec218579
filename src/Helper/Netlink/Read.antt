-- ===== src/Helper/Netlink/Read.antt =====
-- src/localplane/helper/mtu.py: what the helper takes from the kernel's replies.
use local_plane.Prelude.{
  ℕ, ◌+◌, String, Bool, true, false, ◌&&◌, not, Option, none, some, List, [], ◌∷◌, length, drop,
  ltb, ◌==◌, if◌then◌else◌, ℤ, pos, int_eq,
}
use local_plane.Helper.Struct.{
  Bytes, ByteOrder, signed_int, unsigned_int, calcsize, unpack, unpack_from, as_signed,
}
use local_plane.Helper.Netlink.{
  Platform, unseen, refused, netlink_failure, stuck, Result, ok, err, ◌>>=◌, or_struct_error,
  nlmsg_error, rtm_newlink, ifla_ifname, ifla_mtu, nlmsghdr, ifinfomsg, negated, is_zero, Messages,
  finished, malformed, out_of_fuel, message, messages, attributes, get, before_nul, LinkFacts,
}

-- `(code,) = struct.unpack_from("=i", body, 0)`
unfoldable pub error_code : ByteOrder → Bytes → Result ℤ
error_code order body = do
  (code, _) ← or_struct_error (unpack_from order (signed_int ∷ []) body 0)
  ok (as_signed code)

-- `_echoed_request`
unfoldable pub echoed_request : ByteOrder → Bytes → Option (ℕ × ℕ)
echoed_request order body =
    let (size, (kind, (flags, (sequence, (port, _))))) = unpack order nlmsghdr (drop 4 body) in
    if ltb (length body) (4 + calcsize nlmsghdr) then none else some (kind, sequence)

-- `echoed is not None and echoed != (RTM_NEWLINK, sequence)`
abbrev pub echoes_another : ℕ → Option (ℕ × ℕ) → Bool
echoes_another sequence none = false
echoes_another sequence (some (kind, echoed)) = not (kind == rtm_newlink && echoed == sequence)

-- `list(_messages(reply, dispatched=True))`: the exception comes before any message is looked at.
unfoldable pub listed : Messages → Result (List (ℕ × ℕ × Bytes))
listed finished = ok []
listed malformed = err (netlink_failure "malformed_netlink_response" true)
listed out_of_fuel = err stuck
listed (message kind sequence body rest) = do
  later ← listed rest
  ok ((kind, sequence, body) ∷ later)

module _ (platform : Platform) where
  -- `_string`
  abbrev pub name_of : Option Bytes → Option String
  name_of none = none
  name_of (some payload) = platform.decode_utf8 (before_nul payload)

  -- `_uint32`
  abbrev pub uint32 : Option Bytes → Option ℕ
  uint32 none = none
  uint32 (some payload) =
      if ltb (length payload) 4
      then none
      else some (unpack platform.order (unsigned_int ∷ []) payload).0

  -- `_link_facts`
  unfoldable pub link_facts : Bytes → Result (Option LinkFacts)
  link_facts body =
      let (family, (padding, (device, (ifindex, (flags, (change, _)))))) =
        unpack platform.order ifinfomsg body in
      if ltb (length body) (calcsize ifinfomsg)
      then ok none
      else (attributes platform.order body (calcsize ifinfomsg) >>= λ found. ok (
          some (record {
            ifindex = as_signed ifindex;
            name = name_of (get ifla_ifname found);
            mtu = uint32 (get ifla_mtu found);
          })))

  abbrev pub expected_link : ℕ → Option LinkFacts → Result LinkFacts
  expected_link ifindex none = err (refused "no_link_in_reply" unseen)
  expected_link ifindex (some facts) =
      if int_eq facts.ifindex (pos ifindex)
      then ok facts
      else err (refused "link_reply_wrong_interface" unseen)

  -- `number == errno.ENODEV`: 19
  abbrev pub query_error : ℤ → Result LinkFacts
  query_error number = err (
      refused (if int_eq number (pos 19) then "interface_not_found" else "link_query_rejected")
        record {
          observed_name = none;
          observed_mtu = none;
          kernel_errno = some number;
          kernel_error = some (platform.strerror number);
        })

  -- `_interpret_link` over what is left of the messages
  unfoldable pub interpret_link : ℕ → ℕ → Messages → Result LinkFacts
  interpret_link ifindex expected finished = err (refused "no_link_in_reply" unseen)
  interpret_link ifindex expected malformed = err (refused "malformed_netlink_response" unseen)
  interpret_link ifindex expected out_of_fuel = err stuck
  interpret_link ifindex expected (message kind sequence body rest) =
      let later = interpret_link ifindex expected rest in
      if kind == nlmsg_error
      then (error_code platform.order body >>= λ code.
          if is_zero code then later else query_error (negated code))
      else if kind == rtm_newlink
      then (if sequence == expected
          then (link_facts body >>= expected_link ifindex)
          else err (refused "link_reply_uncorrelated" unseen))
      else later

  -- The loop of `_acknowledgement`: the kernel's error number, 0 where it took the request
  unfoldable pub acknowledged : ℕ → List (ℕ × ℕ × Bytes) → Result ℤ
  acknowledged expected [] = err (netlink_failure "no_acknowledgement_in_reply" true)
  acknowledged expected ((kind, sequence, body) ∷ later) =
      let rest = acknowledged expected later in
      if kind == nlmsg_error
      then (if not (sequence == expected)
          then err (netlink_failure "acknowledgement_uncorrelated" true)
          else if echoes_another expected (echoed_request platform.order body)
          then err (netlink_failure "acknowledgement_echoes_another_request" true)
          else (error_code platform.order body >>= λ code. ok (negated code)))
      else rest

  -- `_acknowledgement`
  unfoldable pub acknowledgement : Bytes → ℕ → Result ℤ
  acknowledgement reply expected = listed (messages platform.order reply) >>= acknowledged expected
