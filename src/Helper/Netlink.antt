-- ===== src/Helper/Netlink.antt =====
-- src/localplane/helper/mtu.py: the netlink messages the helper sends and how it reads the replies. An exception is a
-- value: `Refused` and `NetlinkFailure` with their reasons, and Python's `struct.error`. Of an exception's detail the
-- four facts are kept that a result reports. The loops run on fuel, and `stuck` is no value of the source.
pub mod Read
pub mod Loops
pub mod Stream
pub mod Attribute
pub mod Acknowledged
use local_plane.Prelude.{
  ℕ, zero, suc, ◌+◌, ◌-◌, ◌*◌, ◌/◌, ◌%◌, String, Bool, true, false, ◌||◌, Option, none, some, List,
  [], ◌∷◌, ◌++◌, length, drop, ltb, leb, ◌==◌, if◌then◌else◌, ℤ, pos, negsuc,
}
use local_plane.Helper.Struct.{
  Bytes, ByteOrder, Code, byte, short, signed_int, unsigned_int, calcsize, Values, pack, unpack,
  unpack_from, as_signed, slice,
}

-- What the code takes from the machine: its byte order, `bytes.decode("utf-8")` and `os.strerror`.
pub record Platform : Type 0 where
  pub order : ByteOrder
  pub decode_utf8 : Bytes → Option String
  pub strerror : ℤ → String

pub record Observed : Type 0 where
  pub observed_name : Option String
  pub observed_mtu : Option ℕ
  pub kernel_errno : Option ℤ
  pub kernel_error : Option String

abbrev pub unseen : Observed
unseen = record {
  observed_name = none;
  observed_mtu = none;
  kernel_errno = none;
  kernel_error = none;
}

-- `netlink_failure reason dispatched`
pub data Fault : Type 0 where
  refused : String → Observed → Fault
  netlink_failure : String → Bool → Fault
  struct_error stuck : Fault

pub data Result {ℓ} (A : Type ℓ) : Type ℓ where
  ok : A → Result A
  err : Fault → Result A

infixl 5 ◌>>=◌
abbrev pub ◌>>=◌ {ℓ κ} : {A : Type ℓ} {B : Type κ} → Result A → (A → Result B) → Result B
ok a >>= f = f a
err e >>= f = err e

abbrev pub or_struct_error {ℓ} : {A : Type ℓ} → Option A → Result A
or_struct_error none = err struct_error
or_struct_error (some a) = ok a

abbrev pub nlmsg_error : ℕ
nlmsg_error = 2

abbrev pub nlmsg_done : ℕ
nlmsg_done = 3

abbrev pub rtm_newlink : ℕ
rtm_newlink = 16

abbrev pub rtm_getlink : ℕ
rtm_getlink = 18

abbrev pub ifla_ifname : ℕ
ifla_ifname = 3

abbrev pub ifla_mtu : ℕ
ifla_mtu = 4

-- `=IHHII`: length, type, flags, sequence and port
abbrev pub nlmsghdr : List Code
nlmsghdr = unsigned_int ∷ short ∷ short ∷ unsigned_int ∷ unsigned_int ∷ []

-- `=BBHiII`: family, padding, device type, index, flags and change mask
abbrev pub ifinfomsg : List Code
ifinfomsg = byte ∷ byte ∷ short ∷ signed_int ∷ unsigned_int ∷ unsigned_int ∷ []

-- `=HH`: length and type
abbrev pub rtattr : List Code
rtattr = short ∷ short ∷ []

abbrev pub zeros : ℕ → Bytes
zeros zero = []
zeros (suc n) = 0 ∷ zeros n

-- `(length + 3) & ~3`
abbrev pub aligned : ℕ → ℕ
aligned length = (length + 3) / 4 * 4

abbrev pub negated : ℤ → ℤ
negated (pos zero) = pos zero
negated (pos (suc n)) = negsuc n
negated (negsuc n) = pos (suc n)

abbrev pub is_zero : ℤ → Bool
is_zero (pos n) = n == 0
is_zero (negsuc n) = false

module _ (order : ByteOrder) where
  -- `_attribute`
  unfoldable pub attribute : ℕ → Bytes → Result Bytes
  attribute kind payload = do
    header ← or_struct_error (pack order rtattr (calcsize rtattr + length payload, (kind, tt)))
    let raw = header ++ payload
    ok (raw ++ zeros ((4 - length raw % 4) % 4))

  -- The header, then the body.
  unfoldable pub framed : ℕ → ℕ → ℕ → Bytes → Result Bytes
  framed kind flags sequence body = do
    header ← or_struct_error (
        pack order nlmsghdr (calcsize nlmsghdr + length body, (kind, (flags, (sequence, (0, tt))))))
    ok (header ++ body)

  -- `_get_link_request`: `NLM_F_REQUEST` is 1.
  unfoldable pub get_link_request : ℕ → ℕ → Result Bytes
  get_link_request ifindex sequence = do
    body ← or_struct_error (pack order ifinfomsg (0, (0, (0, (ifindex, (0, (0, tt)))))))
    framed rtm_getlink 1 sequence body

  -- `_set_mtu_request`: `NLM_F_REQUEST | NLM_F_ACK` is 5.
  unfoldable pub set_mtu_request : ℕ → ℕ → ℕ → Result Bytes
  set_mtu_request ifindex mtu sequence = do
    message ← or_struct_error (pack order ifinfomsg (0, (0, (0, (ifindex, (0, (0, tt)))))))
    payload ← or_struct_error (pack order (unsigned_int ∷ []) (mtu, tt))
    attributes ← attribute ifla_mtu payload
    framed rtm_newlink 5 sequence (message ++ attributes)

-- What `_messages` yields: a generator's values come one at a time, and the end or the exception after the last one.
pub data Messages : Type 0 where
  finished malformed out_of_fuel : Messages
  message : ℕ → ℕ → Bytes → Messages → Messages

-- One round of `_messages` once a header is there
abbrev pub next_message : Bytes → ℕ → Values nlmsghdr → Messages → Messages
next_message reply offset (size, (kind, (flags, (sequence, _)))) rest =
    if ltb size (calcsize nlmsghdr) || ltb (length reply) (offset + size)
    then malformed
    else if kind == nlmsg_done
    then finished
    else message kind sequence (slice reply (offset + calcsize nlmsghdr) (offset + size)) rest

module _ (order : ByteOrder) where
  -- `_messages` from an offset on
  unfoldable pub messages_from : ℕ → Bytes → ℕ → Messages
  messages_from zero reply offset = out_of_fuel
  messages_from (suc fuel) reply offset =
      let header = unpack order nlmsghdr (drop offset reply) in
      let rest = messages_from fuel reply (offset + aligned header.0) in
      if leb (offset + calcsize nlmsghdr) (length reply)
      then next_message reply offset header rest
      else finished

  unfoldable pub messages : Bytes → Messages
  messages reply = messages_from (suc (length reply)) reply 0

  -- The attributes by kind, the last one read first: the dictionary keeps the last of a kind.
  unfoldable pub attributes_from : ℕ → Bytes → ℕ → List (ℕ × Bytes) → Result (List (ℕ × Bytes))
  attributes_from zero body offset found = err stuck
  attributes_from (suc fuel) body offset found =
      let (size, (kind, _)) = unpack order rtattr (drop offset body) in
      let rest =
        attributes_from fuel body (offset + aligned size)
          ((kind, slice body (offset + calcsize rtattr) (offset + size)) ∷ found) in
      if leb (offset + calcsize rtattr) (length body)
      then (if ltb size (calcsize rtattr) || ltb (length body) (offset + size)
          then ok found
          else rest)
      else ok found

  -- `_attributes`
  unfoldable pub attributes : Bytes → ℕ → Result (List (ℕ × Bytes))
  attributes body offset = attributes_from (suc (length body)) body offset []

-- `attributes.get(kind)`
unfoldable pub get : ℕ → List (ℕ × Bytes) → Option Bytes
get kind [] = none
get kind ((k, payload) ∷ found) = if k == kind then some payload else get kind found

-- `payload.split(b"\0", 1)[0]`
unfoldable pub before_nul : Bytes → Bytes
before_nul [] = []
before_nul (b ∷ bs) = if b == 0 then [] else b ∷ before_nul bs

pub record LinkFacts : Type 0 where
  pub ifindex : ℤ
  pub name : Option String
  pub mtu : Option ℕ
