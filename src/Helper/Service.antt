-- ===== src/Helper/Service.antt =====
-- src/localplane/helper/service.py: the helper's handler of messages, over the setter of helper/mtu.py. Of the answer to
-- `helper.hello` it is modelled that it changes nothing. An exception is answered by src/localplane/ipc.py as an
-- internal error.
pub mod Once
pub mod Forgotten
use local_plane.Prelude.{String, Bool, if◌then◌else◌, str_eq}
use local_plane.Prelude.Dict.{Dict}
use local_plane.Helper.{
  MtuRequest, MtuAnswer, HelperService, Return, returned, raised, set_interface_mtu,
}
use local_plane.Helper.Struct.{Bytes}
use local_plane.Helper.Netlink.{Platform, Result, ok, err}
use local_plane.Helper.Setter.{MutationResult, Exchange, Setter, set_mtu}
use local_plane.Helper.Params.{Param, Rejection, Checked, accepted, rejected, read_params}

pub data Reply : Type 0 where
  hello unsupported_method internal_error : Reply
  invalid_params : Rejection → Reply
  answer : MtuAnswer MutationResult → Reply

abbrev pub call_of : Result MutationResult → Return MutationResult
call_of (ok r) = returned r
call_of (err f) = raised

abbrev pub reply_of : Return (MtuAnswer MutationResult) → Reply
reply_of (returned a) = answer a
reply_of raised = internal_error

abbrev pub set_mtu_method : String
set_mtu_method = "network.interface.set_mtu"

module _ (platform : Platform) {W : Type 0} (socket : Bytes → W → Exchange × W) where
  unfoldable pub call_set_mtu : MtuRequest → Setter W → Return MutationResult × Setter W
  call_set_mtu q s = let (result, s') = set_mtu platform socket q s in (call_of result, s')

  abbrev pub handle_checked :
      Checked MtuRequest
      → HelperService MutationResult (Setter W)
      → Reply × HelperService MutationResult (Setter W)
  handle_checked (rejected r) s = (invalid_params r, s)
  handle_checked (accepted q) s =
      let (called, s') = set_interface_mtu call_set_mtu q s in (reply_of called, s')

  -- `handle`
  unfoldable pub handle_message :
      String
      → Dict Param
      → HelperService MutationResult (Setter W)
      → Reply × HelperService MutationResult (Setter W)
  handle_message method params s =
      if str_eq method "helper.hello"
      then (hello, s)
      else if str_eq method set_mtu_method
      then handle_checked (read_params params) s
      else (unsupported_method, s)
