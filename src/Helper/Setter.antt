-- ===== src/Helper/Setter.antt =====
-- src/localplane/helper/mtu.py: the setter, which reads a link, compares it with what the request expects, and sends
-- one mutating frame. The socket is a parameter over a state `W` of the host: what became of one datagram sent on a
-- fresh socket. `mutations` is a record of the mutating exchanges that the source does not keep.
pub mod Frame
pub mod Meaning
pub mod Outcomes
use local_plane.Prelude.{
  ℕ, ◌+◌, String, Bool, true, false, ◌&&◌, not, Option, none, some, List, [], ◌∷◌, leb, ◌==◌,
  if◌then◌else◌, ℤ, str_eq,
}
use local_plane.Settlement.{MutationOutcome, not_written, written, write_unknown}
use local_plane.Helper.{MtuRequest}
use local_plane.Helper.Struct.{Bytes}
use local_plane.Helper.Netlink.{
  Platform, Observed, unseen, Fault, refused, netlink_failure, Result, ok, err, ◌>>=◌, is_zero,
  get_link_request, set_mtu_request, messages, LinkFacts,
}
use local_plane.Helper.Netlink.Read.{interpret_link, acknowledgement}

abbrev pub min_mtu : ℕ
min_mtu = 68

abbrev pub max_mtu : ℕ
max_mtu = 65536

pub record MutationResult : Type 0 where
  pub outcome : MutationOutcome
  pub reason : String
  pub attempt_id : String
  pub ifindex : ℕ
  pub expected_current_mtu : ℕ
  pub desired_mtu : ℕ
  pub seen : Observed

-- What became of one datagram. `received payload port` has the sender's port where the sender is an address.
pub data Exchange : Type 0 where
  no_socket not_sent timed_out not_received : Exchange
  received : Bytes → Option ℕ → Exchange

-- `sender[0] == 0`: the kernel's port
abbrev pub from_kernel : Option ℕ → Bool
from_kernel none = false
from_kernel (some port) = port == 0

-- `KernelLinkTransport._exchange`
unfoldable pub exchange : Bool → Exchange → Result Bytes
exchange dispatched_after_send no_socket = err (netlink_failure "netlink_unavailable" false)
exchange dispatched_after_send not_sent = err (netlink_failure "netlink_send_failed" false)
exchange dispatched_after_send timed_out =
    err (netlink_failure "acknowledgement_timeout" dispatched_after_send)
exchange dispatched_after_send not_received =
    err (netlink_failure "acknowledgement_not_received" dispatched_after_send)
exchange dispatched_after_send (received payload port) =
    if from_kernel port
    then ok payload
    else err (netlink_failure "acknowledgement_not_from_kernel" dispatched_after_send)

-- `KernelLinkTransport.query`
unfoldable pub query : Result Bytes → Result Bytes
query (err (netlink_failure reason dispatched)) = err (refused reason unseen)
query r = r

pub record Setter (W : Type 0) : Type 0 where
  pub sequence : ℕ
  pub host : W
  pub mutations : List (Bytes × Exchange)

-- The ranges and the comparison that `_check` makes before it reads the link
unfoldable pub check_range : MtuRequest → Result (Unit {0})
check_range q =
    if not (leb min_mtu q.desired_mtu && leb q.desired_mtu max_mtu)
    then err (refused "mtu_out_of_range" unseen)
    else if not (leb min_mtu q.expected_current_mtu && leb q.expected_current_mtu max_mtu)
    then err (refused "expected_mtu_out_of_range" unseen)
    else if q.desired_mtu == q.expected_current_mtu
    then err (refused "desired_equals_current" unseen)
    else ok tt

-- `expected_name is not None and link.name != expected_name`
abbrev pub other_name : Option String → Option String → Bool
other_name none name = false
other_name (some expected) none = true
other_name (some expected) (some name) = not (str_eq name expected)

abbrev pub seen_name : LinkFacts → Observed
seen_name link = record {
  observed_name = link.name;
  observed_mtu = none;
  kernel_errno = none;
  kernel_error = none;
}

abbrev pub seen_link : LinkFacts → Observed
seen_link link = record {
  observed_name = link.name;
  observed_mtu = link.mtu;
  kernel_errno = none;
  kernel_error = none;
}

abbrev pub check_mtu : MtuRequest → LinkFacts → Option ℕ → Result LinkFacts
check_mtu q link none = err (refused "current_mtu_unreadable" (seen_name link))
check_mtu q link (some mtu) =
    if other_name q.expected_interface_name link.name
    then err (refused "interface_identity_mismatch" (seen_link link))
    else if not (mtu == q.expected_current_mtu)
    then err (refused "mtu_precondition_failed" (seen_link link))
    else if mtu == q.desired_mtu
    then err (
        refused "desired_equals_current" record {
          observed_name = none;
          observed_mtu = some mtu;
          kernel_errno = none;
          kernel_error = none;
        })
    else ok link

-- What `_check` compares once it has read the link
abbrev pub check_link : MtuRequest → LinkFacts → Result LinkFacts
check_link q link = check_mtu q link link.mtu

abbrev pub result_of : MtuRequest → MutationOutcome → String → Observed → MutationResult
result_of q outcome reason seen = record {
  outcome = outcome;
  reason = reason;
  attempt_id = q.attempt_id;
  ifindex = q.ifindex;
  expected_current_mtu = q.expected_current_mtu;
  desired_mtu = q.desired_mtu;
  seen = seen;
}

module _ (platform : Platform) where
  abbrev pub judged : MtuRequest → LinkFacts → Result ℤ → Result MutationResult
  judged q link (err (netlink_failure reason _)) =
      ok (result_of q write_unknown reason (seen_link link))
  judged q link (err f) = err f
  judged q link (ok code) =
      if is_zero code
      then ok (result_of q written "kernel_acknowledged" (seen_link link))
      else ok (
          result_of q not_written "kernel_rejected" record {
            observed_name = link.name;
            observed_mtu = link.mtu;
            kernel_errno = some code;
            kernel_error = some (platform.strerror code);
          })

  abbrev pub settle_reply : MtuRequest → LinkFacts → ℕ → Result Bytes → Result MutationResult
  settle_reply q link sequence (err (netlink_failure reason dispatched)) =
      ok (result_of q (if dispatched then write_unknown else not_written) reason (seen_link link))
  settle_reply q link sequence (err f) = err f
  settle_reply q link sequence (ok reply) = judged q link (acknowledgement platform reply sequence)

  module _ {W : Type 0} (socket : Bytes → W → Exchange × W) where
    abbrev pub query_link : ℕ → ℕ → Result Bytes → Setter W → Result LinkFacts × Setter W
    query_link ifindex sequence (err f) s = (err f, s)
    query_link ifindex sequence (ok request) s =
        let (run, host) = socket request s.host in
        (
          query (exchange false run) >>= λ reply.
              interpret_link platform ifindex sequence (messages platform.order reply),
          record s { host = host },
        )

    -- `read_link`
    unfoldable pub read_link : ℕ → Setter W → Result LinkFacts × Setter W
    read_link ifindex s =
        let sequence = s.sequence + 1 in
        query_link ifindex sequence (get_link_request platform.order ifindex sequence)
          record s { sequence = sequence }

    abbrev pub check_read : MtuRequest → Result (Unit {0}) → Setter W → Result LinkFacts × Setter W
    check_read q (err f) s = (err f, s)
    check_read q (ok _) s = let (link, s') = read_link q.ifindex s in (link >>= check_link q, s')

    -- `_check`
    unfoldable pub check : MtuRequest → Setter W → Result LinkFacts × Setter W
    check q s = check_read q (check_range q) s

    abbrev pub send_frame :
        MtuRequest → LinkFacts → ℕ → Result Bytes → Setter W → Result MutationResult × Setter W
    send_frame q link sequence (err f) s = (err f, s)
    send_frame q link sequence (ok request) s =
        let (run, host) = socket request s.host in
        (
          settle_reply q link sequence (exchange true run),
          record s { host = host; mutations = (request, run) ∷ s.mutations },
        )

    abbrev pub set_checked :
        MtuRequest → Result LinkFacts → Setter W → Result MutationResult × Setter W
    set_checked q (err (refused reason seen)) s = (ok (result_of q not_written reason seen), s)
    set_checked q (err f) s = (err f, s)
    set_checked q (ok link) s =
        let sequence = s.sequence + 1 in
        send_frame q link sequence (set_mtu_request platform.order q.ifindex q.desired_mtu sequence)
          record s { sequence = sequence }

    -- `set_mtu`
    unfoldable pub set_mtu : MtuRequest → Setter W → Result MutationResult × Setter W
    set_mtu q s = let (link, s') = check q s in set_checked q link s'
