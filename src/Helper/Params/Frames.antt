-- ===== src/Helper/Params/Frames.antt =====
-- src/localplane/helper/service.py and mtu.py: accepted parameters fit the frame they are packed into.
use local_plane.Prelude.{
  ℕ, ◌+◌, ◌-◌, ◌%◌, ◌<◌, ◌^◌, ◌≡◌, ap, ◌∙◌, some, [], ◌∷◌, ◌++◌, length, length-append, All,
  All-append, arith,
}
use local_plane.Prelude.Dict.{Dict}
use local_plane.Helper.{MtuRequest}
use local_plane.Helper.Struct.{Bytes, IsByte, ByteOrder, Values, pack, unsigned_int}
use local_plane.Helper.Struct.RoundTrip.{pack-Fits, pack-IsByte, length-pack}
use local_plane.Helper.Netlink.{
  ok, or_struct_error, ◌>>=◌, nlmsghdr, ifinfomsg, rtattr, ifla_mtu, rtm_newlink, attribute, framed,
  set_mtu_request, zeros,
}
use local_plane.Helper.Setter.Frame.{link_values}
use local_plane.Helper.Netlink.Attribute.{no_padding}
use local_plane.Helper.Params.{Param, accepted, read_params}
use local_plane.Helper.Params.Bounds.{read_params-bounds}

module _ (order : ByteOrder) where
  payload_attribute :
      (mtu : ℕ) (payload : Bytes)
      → pack order (unsigned_int ∷ []) (mtu, tt) ≡ some payload
      → (bs : Bytes) × (attribute order ifla_mtu payload ≡ ok bs) × (length bs ≡ 8) × All IsByte bs
  unfolding attribute
  payload_attribute mtu payload packed =
      let four = length-pack order (unsigned_int ∷ []) (mtu, tt) packed in
      let (header, e) =
        pack-Fits order rtattr (4 + length payload, (ifla_mtu, tt))
          (omega (arith, four), (omega arith, tt)) in
      let head = length-pack order rtattr (4 + length payload, (ifla_mtu, tt)) e in
      (
        header ++ (payload ++ []),
        ap
              (λ o. or_struct_error o >>= λ h.
                ok ((h ++ payload) ++ zeros ((4 - length (h ++ payload) % 4) % 4)))
              e
            ∙ ap ok (no_padding header payload head four),
        omega (arith, length-append header (payload ++ []), length-append payload [], head, four),
        All-append IsByte header (payload ++ [])
            (pack-IsByte order rtattr (4 + length payload, (ifla_mtu, tt)) e)
            (All-append IsByte payload [] (pack-IsByte order (unsigned_int ∷ []) (mtu, tt) packed)
              tt),
      )

  fits-set_mtu_request :
      (ifindex mtu sequence : ℕ)
      → ifindex < 2 ^ 31
      → mtu < 2 ^ 32
      → sequence < 2 ^ 32
      → (frame : Bytes) × (set_mtu_request order ifindex mtu sequence ≡ ok frame)
        × (length frame ≡ 40)
        × All IsByte frame
  unfolding set_mtu_request framed
  fits-set_mtu_request ifindex mtu sequence h k l =
      let (link, e) =
        pack-Fits order ifinfomsg (link_values ifindex)
          (omega arith, (omega arith, (omega arith, (h, (omega arith, (omega arith, tt)))))) in
      let (payload, e') = pack-Fits order (unsigned_int ∷ []) (mtu, tt) (k, tt) in
      let (bs, e'', eight, bytes) = payload_attribute mtu payload e' in
      let sixteen = length-pack order ifinfomsg (link_values ifindex) e in
      let body = link ++ bs in
      let long : length body ≡ 24 = omega (arith, length-append link bs, sixteen, eight) in
      let values : Values nlmsghdr = (16 + length body, (rtm_newlink, (5, (sequence, (0, tt))))) in
      let (header, e3) =
        pack-Fits order nlmsghdr values
          (omega (arith, long), (omega arith, (omega arith, (l, (omega arith, tt))))) in
      (
        header ++ body,
        ap
              (λ o. or_struct_error o >>= λ m.
                or_struct_error (pack order (unsigned_int ∷ []) (mtu, tt)) >>= λ p.
                attribute order ifla_mtu p >>= λ b. framed order rtm_newlink 5 sequence (m ++ b))
              e
            ∙ ap
                (λ o. or_struct_error o >>= λ p. attribute order ifla_mtu p >>= λ b.
                  framed order rtm_newlink 5 sequence (link ++ b))
                e'
            ∙ ap (λ r. r >>= λ b. framed order rtm_newlink 5 sequence (link ++ b)) e''
            ∙ ap (λ o. or_struct_error o >>= λ h. ok (h ++ body)) e3,
        omega (arith, length-append header body, length-pack order nlmsghdr values e3, long),
        All-append IsByte header body (pack-IsByte order nlmsghdr values e3)
            (All-append IsByte link bs (pack-IsByte order ifinfomsg (link_values ifindex) e) bytes),
      )

  -- Accepted parameters, with a sequence number of 32 bits, have a mutating frame: packing raises nothing, and the frame
  -- is forty numbers that are bytes, in either byte order.
  pub read_params-IsByte :
      (params : Dict Param) (q : MtuRequest) (sequence : ℕ)
      → read_params params ≡ accepted q
      → sequence < 2 ^ 32
      → (frame : Bytes) × (set_mtu_request order q.ifindex q.desired_mtu sequence ≡ ok frame)
        × (length frame ≡ 40)
        × All IsByte frame
  read_params-IsByte params q sequence h l =
      let (_, index, _, mtu) = read_params-bounds params q h in
      fits-set_mtu_request q.ifindex q.desired_mtu sequence index (omega (arith, mtu)) l
