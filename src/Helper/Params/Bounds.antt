-- ===== src/Helper/Params/Bounds.antt =====
-- src/localplane/helper/service.py: the ranges of accepted parameters.
use local_plane.Prelude.{ℕ, ◌≤◌, ◌<◌, ◌^◌, ◌≡◌, refl, String, pos, negsuc, arith}
use local_plane.Prelude.Dict.{Dict, lookup}
use local_plane.Helper.{MtuRequest}
use local_plane.Helper.Setter.{max_mtu}
use local_plane.Helper.Params.{
  Param, null, flag, integer, text, other, Checked, accepted, rejected, ◌>>=◌, require_attempt_id,
  require_int, optional_name, value_of, read_params, max_ifindex,
}

-- What a successful bind consists of.
bound-accepted :
    {A B : Type 0} (m : Checked A) (f : A → Checked B) {b : B}
    → (m >>= f) ≡ accepted b
    → (a : A) × (m ≡ accepted a) × (f a ≡ accepted b)
bound-accepted (accepted a) f h = (a, refl, h)
bound-accepted (rejected r) f h = absurd (ground (arith, h))

require_int-bounds :
    (p : Param) (name : String) (low high n : ℕ)
    → require_int p name low high ≡ accepted n
    → (low ≤ n) × (n ≤ high)
require_int-bounds null name low high n h = absurd (ground (arith, h))
require_int-bounds (flag b) name low high n h = absurd (ground (arith, h))
require_int-bounds (integer (pos m)) name low high n h = (ground (arith, h), ground (arith, h))
require_int-bounds (integer (negsuc m)) name low high n h = absurd (ground (arith, h))
require_int-bounds (text s) name low high n h = absurd (ground (arith, h))
require_int-bounds other name low high n h = absurd (ground (arith, h))

pub read_params-bounds :
    (params : Dict Param) (q : MtuRequest)
    → read_params params ≡ accepted q
    → (1 ≤ q.ifindex)
      × (q.ifindex < 2 ^ 31)
      × (q.expected_current_mtu ≤ 65536)
      × (q.desired_mtu ≤ 65536)
unfolding read_params
read_params-bounds params q h =
    let (attempt_id, _, h1) =
      bound-accepted (require_attempt_id (value_of (lookup "attempt_id" params))) _ h in
    let (ifindex, e, h2) =
      bound-accepted (require_int (value_of (lookup "ifindex" params)) "ifindex" 1 max_ifindex) _
        h1 in
    let (expected, e', h3) =
      bound-accepted
        (require_int (value_of (lookup "expected_current_mtu" params)) "expected_current_mtu" 0
          max_mtu)
        _ h2 in
    let (desired, e'', h4) =
      bound-accepted (require_int (value_of (lookup "desired_mtu" params)) "desired_mtu" 0 max_mtu)
        _ h3 in
    let (name, _, h5) =
      bound-accepted (optional_name (value_of (lookup "expected_interface_name" params))) _ h4 in
    let index =
      require_int-bounds (value_of (lookup "ifindex" params)) "ifindex" 1 max_ifindex ifindex e in
    let before =
      require_int-bounds (value_of (lookup "expected_current_mtu" params)) "expected_current_mtu" 0
        max_mtu expected e' in
    let after =
      require_int-bounds (value_of (lookup "desired_mtu" params)) "desired_mtu" 0 max_mtu desired
        e'' in
    (
      ground (arith, h5, index),
      ground (arith, h5, index),
      ground (arith, h5, before),
      ground (arith, h5, after),
    )
