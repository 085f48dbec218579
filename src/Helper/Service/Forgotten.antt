-- ===== src/Helper/Service/Forgotten.antt =====
-- src/localplane/helper/mtu.py and service.py: an acknowledgement that is cut short.
use local_plane.Prelude.{ℕ, ◌+◌, ◌<◌, ◌≡◌, ap, ◌∙◌, true, none, some, List, ◌∷◌, length, arith}
use local_plane.Prelude.Dict.{lookup}
use local_plane.Helper.{
  MtuRequest, HelperService, raised, answer_attempt, answer_call, set_interface_mtu,
}
use local_plane.Helper.Struct.{Bytes, unpack_from}
use local_plane.Helper.Netlink.{
  Platform, ok, err, struct_error, nlmsg_error, messages, set_mtu_request, LinkFacts,
}
use local_plane.Helper.Netlink.Loops.{>>=-ok}
use local_plane.Helper.Netlink.Read.{
  listed, acknowledged, acknowledgement, error_code, echoed_request,
}
use local_plane.Helper.Setter.{
  MutationResult, Exchange, received, exchange, Setter, check, set_checked, set_mtu, send_frame,
  settle_reply, judged,
}
use local_plane.Helper.Service.{call_of, call_set_mtu}

module _ (platform : Platform) where
  cut_short :
      (expected : ℕ) (body : Bytes) (later : List (ℕ × ℕ × Bytes))
      → length body < 4
      → acknowledged platform expected ((nlmsg_error, expected, body) ∷ later) ≡ err struct_error
  unfolding acknowledged echoed_request error_code unpack_from
  cut_short expected body later h = ground (arith, h)

  cut_short-acknowledgement :
      (expected : ℕ) (reply body : Bytes) (later : List (ℕ × ℕ × Bytes))
      → length body < 4
      → listed (messages platform.order reply) ≡ ok ((nlmsg_error, expected, body) ∷ later)
      → acknowledgement platform reply expected ≡ err struct_error
  unfolding acknowledgement
  cut_short-acknowledgement expected reply body later h e =
      >>=-ok (listed (messages platform.order reply)) (acknowledged platform expected) e
      ∙ cut_short expected body later h

module _ (platform : Platform) {W : Type 0} (socket : Bytes → W → Exchange × W) where
  cut_short-set_mtu :
      (q : MtuRequest) (s s' : Setter W) (link : LinkFacts) (request reply body : Bytes)
      (later : List (ℕ × ℕ × Bytes))
      → check platform socket q s ≡ (ok link, s')
      → set_mtu_request platform.order q.ifindex q.desired_mtu (s'.sequence + 1) ≡ ok request
      → (socket request s'.host).0 ≡ received reply (some 0)
      → listed (messages platform.order reply) ≡ ok ((nlmsg_error, s'.sequence + 1, body) ∷ later)
      → length body < 4
      → ((set_mtu platform socket q s).0 ≡ err struct_error)
        × ((set_mtu platform socket q s).1.mutations
            ≡ (request, received reply (some 0)) ∷ s'.mutations)
  unfolding set_mtu exchange
  cut_short-set_mtu q s s' link request reply body later checked made run messages_are short =
      let sequence = s'.sequence + 1 in
      let sent =
        ap (λ c. set_checked platform socket q c.0 c.1) checked
        ∙ ap (λ o. send_frame platform socket q link sequence o record s' { sequence = sequence })
            made in
      (
        ap (λ p. p.0) sent
            ∙ ap (λ r. settle_reply platform q link sequence (exchange true r)) run
            ∙ ap (judged platform q link)
                (cut_short-acknowledgement platform sequence reply body later short messages_are),
        ap (λ p. p.1.mutations) sent ∙ ap (λ r. (request, r) ∷ s'.mutations) run,
      )

  -- Where the helper does not remember an attempt, its checks pass, and the kernel's reply to the mutating frame starts
  -- with an error message of the frame's sequence whose body holds less than the four bytes of a number, then the call
  -- ends in an exception, one mutating frame was sent, and the attempt is not remembered.
  pub cut_short-forgotten :
      (q : MtuRequest) (s : HelperService MutationResult (Setter W)) (s' : Setter W)
      (link : LinkFacts) (request reply body : Bytes) (later : List (ℕ × ℕ × Bytes))
      → lookup q.attempt_id s.attempts ≡ none
      → check platform socket q s.setter ≡ (ok link, s')
      → set_mtu_request platform.order q.ifindex q.desired_mtu (s'.sequence + 1) ≡ ok request
      → (socket request s'.host).0 ≡ received reply (some 0)
      → listed (messages platform.order reply) ≡ ok ((nlmsg_error, s'.sequence + 1, body) ∷ later)
      → length body < 4
      → let (called, after) = set_interface_mtu (call_set_mtu platform socket) q s in
        (called ≡ raised)
        × (after.setter.mutations ≡ (request, received reply (some 0)) ∷ s'.mutations)
        × (lookup q.attempt_id after.attempts ≡ none)
  unfolding set_interface_mtu call_set_mtu
  cut_short-forgotten q s s' link request reply body later absent checked made run messages_are
        short =
      let setter = (set_mtu platform socket q s.setter).1 in
      let (failed, sent) =
        cut_short-set_mtu q s.setter s' link request reply body later checked made run messages_are
          short in
      let answered_as =
        ap (answer_attempt (call_set_mtu platform socket) q s) absent
        ∙ ap (λ r. answer_call q (call_of r) record s { setter = setter }) failed in
      (
        ap (λ p. p.0) answered_as,
        ap (λ p. p.1.setter.mutations) answered_as ∙ sent,
        ap (λ p. lookup q.attempt_id p.1.attempts) answered_as ∙ absent,
      )
