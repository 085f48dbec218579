-- ===== src/Helper/Params.antt =====
-- src/localplane/helper/service.py: the checks of a request's parameters. A parameter is a JSON value, of which the
-- texts, the integers and the Booleans are told apart here.
pub mod Bounds
pub mod Frames
use Prim.Native.Char.{Char, code}
use local_plane.Prelude.{
  ℕ, zero, suc, ◌+◌, ◌-◌, ◌^◌, ◌≤◌, ◌<◌, ◌≡◌, refl, String, Bool, true, false, not, ◌&&◌, ◌||◌,
  Option, none, some, ltb, leb, ◌==◌, if◌then◌else◌, ℤ, pos, negsuc, str_eq, arith,
}
use local_plane.Prelude.Dict.{Dict, lookup}
use local_plane.Helper.{MtuRequest}
use local_plane.Helper.Setter.{max_mtu}

pub data Param : Type 0 where
  null : Param
  flag : Bool → Param
  integer : ℤ → Param
  text : String → Param
  other : Param

-- The causes of `invalid_params`, with the parameter's name
pub data Rejection : Type 0 where
  not_an_identifier not_an_interface_name : Rejection
  not_an_integer out_of_range : String → Rejection

pub data Checked {ℓ} (A : Type ℓ) : Type ℓ where
  accepted : A → Checked A
  rejected : Rejection → Checked A

infixl 5 ◌>>=◌
abbrev pub ◌>>=◌ {ℓ κ} : {A : Type ℓ} {B : Type κ} → Checked A → (A → Checked B) → Checked B
accepted a >>= f = f a
rejected r >>= f = rejected r

-- `params.get(name)`
abbrev pub value_of : Option Param → Param
value_of none = null
value_of (some v) = v

abbrev within : ℕ → ℕ → ℕ → Bool
within low high n = leb low n && leb n high

-- `[A-Za-z0-9_.:-]`
unfoldable pub is_identifier_char : Char → Bool
is_identifier_char c =
    let n = code c in
    within 65 90 n || within 97 122 n || within 48 58 n || n == 95 || n == 46 || n == 45

-- The rest of an identifier that has room for some more characters. `$` also matches before a last line feed.
unfoldable pub matches_rest : ℕ → String → Bool
matches_rest room String.[] = true
matches_rest zero (String.◌∷◌ c s) = code c == 10 && str_eq s ""
matches_rest (suc room) (String.◌∷◌ c s) =
    (is_identifier_char c && matches_rest room s) || (code c == 10 && str_eq s "")

-- `_ATTEMPT_ID_RE.match(value)`
unfoldable pub matches_attempt_id : String → Bool
matches_attempt_id String.[] = false
matches_attempt_id (String.◌∷◌ c s) = is_identifier_char c && matches_rest 127 s

-- `_require_attempt_id`
abbrev pub require_attempt_id : Param → Checked String
require_attempt_id (text s) =
    if matches_attempt_id s then accepted s else rejected not_an_identifier
require_attempt_id _ = rejected not_an_identifier

-- `_require_int`, whose minimum is no negative number here
abbrev pub require_int : Param → String → ℕ → ℕ → Checked ℕ
require_int (integer (pos n)) name minimum maximum =
    if within minimum maximum n then accepted n else rejected (out_of_range name)
require_int (integer (negsuc n)) name minimum maximum = rejected (out_of_range name)
require_int _ name minimum maximum = rejected (not_an_integer name)

-- `len(value)`
unfoldable pub char_count : String → ℕ
char_count String.[] = 0
char_count (String.◌∷◌ c s) = suc (char_count s)

-- `_optional_name`
abbrev pub optional_name : Param → Checked (Option String)
optional_name null = accepted none
optional_name (text s) =
    if within 1 15 (char_count s) then accepted (some s) else rejected not_an_interface_name
optional_name _ = rejected not_an_interface_name

abbrev pub max_ifindex : ℕ
max_ifindex = 2 ^ 31 - 1

-- The checks at the head of `_set_interface_mtu`, in their order
unfoldable pub read_params : Dict Param → Checked MtuRequest
read_params params = do
  attempt_id ← require_attempt_id (value_of (lookup "attempt_id" params))
  ifindex ← require_int (value_of (lookup "ifindex" params)) "ifindex" 1 max_ifindex
  expected ←
      require_int (value_of (lookup "expected_current_mtu" params)) "expected_current_mtu" 0 max_mtu
  desired ← require_int (value_of (lookup "desired_mtu" params)) "desired_mtu" 0 max_mtu
  name ← optional_name (value_of (lookup "expected_interface_name" params))
  accepted (record {
    attempt_id = attempt_id;
    ifindex = ifindex;
    expected_current_mtu = expected;
    desired_mtu = desired;
    expected_interface_name = name;
  })
