-- ===== src/Examples/Frames.antt =====
-- The helper's netlink exchanges at concrete bytes (src/localplane/helper/mtu.py, src/localplane/helper/service.py).
use local_plane.Prelude.{
  ℕ, ◌≡◌, ◌≢◌, ◌↔◌, ◌⊎◌, refl, none, some, List, [], ◌∷◌, length, All, pos, arith,
}
use local_plane.Prelude.Dict.{Dict, lookup}
use local_plane.Helper.{MtuRequest, HelperService, raised, set_interface_mtu}
use local_plane.Helper.Struct.{
  Bytes, IsByte, little, unpack, unpack_field, number, pack, pack_field, digits, slice,
}
use local_plane.Helper.Netlink.{
  Platform, ok, err, stuck, nlmsg_error, messages, messages_from, LinkFacts, set_mtu_request,
  get_link_request, attribute, framed, attributes, attributes_from, get, before_nul,
}
use local_plane.Helper.Netlink.Read.{interpret_link, acknowledgement, listed, link_facts}
use local_plane.Helper.Netlink.Loops.{reading-ends}
use local_plane.Helper.Netlink.Stream.{Message, frames, contents, messages-frames}
use local_plane.Helper.Netlink.Acknowledged.{Acknowledges, acknowledgement-Acknowledges_iff}
use local_plane.Helper.Setter.{
  MutationResult, Exchange, timed_out, received, exchange, query, Setter, check_range, read_link,
  check, set_mtu,
}
use local_plane.Helper.Setter.Frame.{SetsMtu, sent_link, set_mtu_request-SetsMtu}
use local_plane.Helper.Setter.Outcomes.{Did, set_mtu-Did}
use local_plane.Helper.Params.{
  Param, integer, text, accepted, read_params, matches_attempt_id, matches_rest, is_identifier_char,
}
use local_plane.Helper.Params.Frames.{read_params-IsByte}
use local_plane.Helper.Service.{call_set_mtu, handle_message, set_mtu_method}
use local_plane.Helper.Service.Once.{FirstSent, handle_message-FirstSent}
use local_plane.Helper.Service.Forgotten.{cut_short-forgotten}

abbrev pc : Platform
pc = record { order = little; decode_utf8 = λ bs. some "eth0"; strerror = λ code. "error" }

-- A host that answers as it is told to.
abbrev scripted : Bytes → List Exchange → Exchange × List Exchange
scripted request [] = (timed_out, [])
scripted request (e ∷ es) = (e, es)

-- RTM_NEWLINK for the interface 2 with the sequence 1 and the MTU 1500
abbrev link_reply : Bytes
link_reply =
    40 ∷ 0 ∷ 0 ∷ 0 ∷ 16 ∷ 0 ∷ 5 ∷ 0 ∷ 1 ∷ 0 ∷ 0 ∷ 0 ∷ 0 ∷ 0 ∷ 0 ∷ 0 ∷ 0 ∷ 0 ∷ 0 ∷ 0 ∷ 2 ∷ 0 ∷ 0 ∷ 0
    ∷ 0 ∷ 0 ∷ 0 ∷ 0 ∷ 0 ∷ 0 ∷ 0 ∷ 0 ∷ 8 ∷ 0 ∷ 4 ∷ 0 ∷ 220 ∷ 5 ∷ 0 ∷ 0 ∷ []

-- The mutating frame for the MTU 9000 with the sequence 2
abbrev jumbo_frame : Bytes
jumbo_frame =
    40 ∷ 0 ∷ 0 ∷ 0 ∷ 16 ∷ 0 ∷ 5 ∷ 0 ∷ 2 ∷ 0 ∷ 0 ∷ 0 ∷ 0 ∷ 0 ∷ 0 ∷ 0 ∷ 0 ∷ 0 ∷ 0 ∷ 0 ∷ 2 ∷ 0 ∷ 0 ∷ 0
    ∷ 0 ∷ 0 ∷ 0 ∷ 0 ∷ 0 ∷ 0 ∷ 0 ∷ 0 ∷ 8 ∷ 0 ∷ 4 ∷ 0 ∷ 40 ∷ 35 ∷ 0 ∷ 0 ∷ []

abbrev short_reply : Bytes
short_reply = 18 ∷ 0 ∷ 0 ∷ 0 ∷ 2 ∷ 0 ∷ 0 ∷ 0 ∷ 2 ∷ 0 ∷ 0 ∷ 0 ∷ 0 ∷ 0 ∷ 0 ∷ 0 ∷ 0 ∷ 0 ∷ []

abbrev full_reply : Bytes
full_reply = 20 ∷ 0 ∷ 0 ∷ 0 ∷ 2 ∷ 0 ∷ 0 ∷ 0 ∷ 2 ∷ 0 ∷ 0 ∷ 0 ∷ 0 ∷ 0 ∷ 0 ∷ 0 ∷ 0 ∷ 0 ∷ 0 ∷ 0 ∷ []

abbrev to_jumbo : MtuRequest
to_jumbo = record {
  attempt_id = "a1";
  ifindex = 2;
  expected_current_mtu = 1500;
  desired_mtu = 9000;
  expected_interface_name = none;
}

abbrev setter_of : Bytes → Setter (List Exchange)
setter_of reply = record {
  sequence = 0;
  host = received link_reply (some 0) ∷ received reply (some 0) ∷ [];
  mutations = [];
}

abbrev service_of : Bytes → HelperService MutationResult (Setter (List Exchange))
service_of reply = record { attempts = []; setter = setter_of reply }

abbrev after_read : Bytes → Setter (List Exchange)
after_read reply = record { sequence = 1; host = received reply (some 0) ∷ []; mutations = [] }

abbrev seen_link_facts : LinkFacts
seen_link_facts = record { ifindex = pos 2; name = none; mtu = some 1500 }

reading-ends_example :
    (interpret_link pc 2 1 (messages little link_reply) ≢ err stuck)
    × (acknowledgement pc link_reply 1 ≢ err stuck)
reading-ends_example = reading-ends pc 2 1 link_reply

jumbo_framed : set_mtu_request little 2 9000 2 ≡ ok jumbo_frame
unfolding set_mtu_request attribute framed pack pack_field digits
jumbo_framed = refl

set_mtu_request-SetsMtu_example :
    SetsMtu little 2 9000 2 jumbo_frame
    × (interpret_link pc 2 2 (messages little jumbo_frame) ≡ ok (sent_link 2 9000))
set_mtu_request-SetsMtu_example = set_mtu_request-SetsMtu pc 2 9000 2 jumbo_framed

abbrev two_messages : List Message
two_messages = (2, 0, 7, 1 ∷ []) ∷ (16, 0, 8, []) ∷ []

abbrev two_framed : Bytes
two_framed =
    17 ∷ 0 ∷ 0 ∷ 0 ∷ 2 ∷ 0 ∷ 0 ∷ 0 ∷ 7 ∷ 0 ∷ 0 ∷ 0 ∷ 0 ∷ 0 ∷ 0 ∷ 0 ∷ 1 ∷ 0 ∷ 0 ∷ 0 ∷ 16 ∷ 0 ∷ 0 ∷ 0
    ∷ 16 ∷ 0 ∷ 0 ∷ 0 ∷ 8 ∷ 0 ∷ 0 ∷ 0 ∷ 0 ∷ 0 ∷ 0 ∷ 0 ∷ []

two_messages_framed : frames little two_messages ≡ ok two_framed
unfolding frames framed pack pack_field digits
two_messages_framed = refl

messages-frames_example : listed (messages little two_framed) ≡ ok (contents two_messages)
messages-frames_example =
    messages-frames little two_messages (ground arith, (ground arith, tt)) two_messages_framed

acknowledgement-Acknowledges_iff_example : (acknowledgement pc full_reply 2 ≡ ok (pos 0)) ↔ (
    (ms : List (ℕ × ℕ × Bytes)) × (listed (messages little full_reply) ≡ ok ms)
    × Acknowledges pc 2 (pos 0) ms)
acknowledgement-Acknowledges_iff_example = acknowledgement-Acknowledges_iff pc 2 full_reply (pos 0)

set_mtu-Did_example :
    Did pc scripted to_jumbo
      (setter_of full_reply)
      (set_mtu pc scripted to_jumbo (setter_of full_reply)).0
      (set_mtu pc scripted to_jumbo (setter_of full_reply)).1.mutations
set_mtu-Did_example = set_mtu-Did pc scripted to_jumbo (setter_of full_reply)

abbrev jumbo_params : Dict Param
jumbo_params =
    ("attempt_id", text "a1")
    ∷ ("ifindex", integer (pos 2))
    ∷ ("expected_current_mtu", integer (pos 1500))
    ∷ ("desired_mtu", integer (pos 9000))
    ∷ []

jumbo_accepted : read_params jumbo_params ≡ accepted to_jumbo
unfolding read_params lookup matches_attempt_id matches_rest is_identifier_char
jumbo_accepted = refl

read_params-IsByte_example :
    (frame : Bytes) × (set_mtu_request little 2 9000 2 ≡ ok frame)
    × (length frame ≡ 40)
    × All IsByte frame
read_params-IsByte_example =
    read_params-IsByte little jumbo_params to_jumbo 2 jumbo_accepted (omega arith)

handle_message-FirstSent_example :
    let s' = (handle_message pc scripted set_mtu_method jumbo_params (service_of full_reply)).1 in
    (s'.setter.mutations ≡ [])
    ⊎ ((q : MtuRequest) × (set_mtu_method ≡ set_mtu_method)
        × (read_params jumbo_params ≡ accepted q)
        × FirstSent pc scripted q (service_of full_reply) s'.setter.mutations)
handle_message-FirstSent_example =
    handle_message-FirstSent pc scripted set_mtu_method jumbo_params (service_of full_reply)

jumbo_checked :
    check pc scripted to_jumbo (setter_of short_reply)
    ≡ (ok seen_link_facts, after_read short_reply)
unfolding check check_range read_link get_link_request framed pack pack_field digits exchange query
    interpret_link messages messages_from unpack unpack_field number slice link_facts attributes
    attributes_from get before_nul
jumbo_checked = refl

short_listed : listed (messages little short_reply) ≡ ok ((nlmsg_error, 2, 0 ∷ 0 ∷ []) ∷ [])
unfolding listed messages messages_from unpack unpack_field number slice
short_listed = refl

cut_short-forgotten_example :
    let (called, after) =
      set_interface_mtu (call_set_mtu pc scripted) to_jumbo (service_of short_reply) in
    (called ≡ raised)
    × (after.setter.mutations ≡ (jumbo_frame, received short_reply (some 0)) ∷ [])
    × (lookup "a1" after.attempts ≡ none)
unfolding lookup
cut_short-forgotten_example =
    cut_short-forgotten pc scripted to_jumbo (service_of short_reply) (after_read short_reply)
      seen_link_facts jumbo_frame short_reply (0 ∷ 0 ∷ []) [] refl jumbo_checked jumbo_framed refl
      short_listed (omega arith)
