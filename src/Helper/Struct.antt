-- ===== src/Helper/Struct.antt =====
-- Python's `struct`, as far as src/localplane/helper/mtu.py uses it: formats that begin with `=`, whose fields have
-- their standard sizes and no padding. A byte is a number below 256, and the machine's byte order is a parameter.
pub mod RoundTrip
use local_plane.Prelude.{
  ℕ, zero, suc, ◌+◌, ◌-◌, ◌*◌, ◌/◌, ◌%◌, ◌^◌, ◌<◌, Bool, true, false, Option, none, some, List, [],
  ◌∷◌, ◌++◌, length, take, drop, ltb, leb, if◌then◌else◌, ℤ, pos, negsuc,
}

abbrev pub Bytes : Type 0
Bytes = List ℕ

abbrev pub IsByte : ℕ → Type 0
IsByte b = b < 256

pub data ByteOrder : Type 0 where
  little big : ByteOrder

-- The format characters `B`, `H`, `i` and `I`.
pub data Code : Type 0 where
  byte short signed_int unsigned_int : Code

abbrev pub size : Code → ℕ
size byte = 1
size short = 2
size signed_int = 4
size unsigned_int = 4

-- The naturals that a field takes. No negative number is packed.
abbrev pub limit : Code → ℕ
limit byte = 2 ^ 8
limit short = 2 ^ 16
limit signed_int = 2 ^ 31
limit unsigned_int = 2 ^ 32

-- Lowest byte first.
unfoldable pub digits : ℕ → ℕ → Bytes
digits zero n = []
digits (suc w) n = n % 256 ∷ digits w (n / 256)

unfoldable pub number : Bytes → ℕ
number [] = 0
number (b ∷ bs) = b + 256 * number bs

unfoldable pub backwards : Bytes → Bytes → Bytes
backwards [] done = done
backwards (b ∷ bs) done = backwards bs (b ∷ done)

abbrev pub ordered : ByteOrder → Bytes → Bytes
ordered ByteOrder.little bs = bs
ordered ByteOrder.big bs = backwards bs []

unfoldable pub pack_field : ByteOrder → Code → ℕ → Bytes
pack_field order c n = ordered order (digits (size c) n)

unfoldable pub unpack_field : ByteOrder → Code → Bytes → ℕ
unpack_field order c bs = number (ordered order (take (size c) bs))

-- `struct.calcsize`
abbrev pub calcsize : List Code → ℕ
calcsize [] = 0
calcsize (c ∷ cs) = size c + calcsize cs

-- The tuple that a format packs.
abbrev pub Values : List Code → Type 0
Values [] = Unit
Values (c ∷ cs) = ℕ × Values cs

-- `none` stands for `struct.error`.
unfoldable pub pack : ByteOrder → (cs : List Code) → Values cs → Option Bytes
pack order [] _ = some []
pack order (c ∷ cs) (n, ns) = elim (pack order cs ns) [
  | none ↦ none
  | some rest ↦ if ltb n (limit c) then some (pack_field order c n ++ rest) else none
]

-- The fields at the start of the bytes. An `i` is read as its unsigned number, and `as_signed` gives its sign.
unfoldable pub unpack : ByteOrder → (cs : List Code) → Bytes → Values cs
unpack order [] bs = tt
unpack order (c ∷ cs) bs = (unpack_field order c bs, unpack order cs (drop (size c) bs))

-- `struct.unpack_from(bs, offset)`, where `none` stands for `struct.error`
unfoldable pub unpack_from : ByteOrder → (cs : List Code) → Bytes → ℕ → Option (Values cs)
unpack_from order cs bs offset =
    if leb (offset + calcsize cs) (length bs) then some (unpack order cs (drop offset bs)) else none

abbrev pub as_signed : ℕ → ℤ
as_signed n = if ltb n (2 ^ 31) then pos n else negsuc (2 ^ 32 - 1 - n)

-- `bs[start:stop]`
unfoldable pub slice : Bytes → ℕ → ℕ → Bytes
slice bs start stop = take (stop - start) (drop start bs)
