-- ===== src/Helper/Netlink/Attribute.antt =====
-- src/localplane/helper/mtu.py: reading gives back an attribute that was written.
use local_plane.Prelude.{
  append-append, ℕ, suc, ◌+◌, ◌-◌, ◌%◌, ◌≤◌, ◌<◌, ◌≡◌, sym, ap, ◌∙◌, ◌||◌, some, List, [], ◌∷◌,
  ◌++◌, length, ltb, leb, if◌then◌else◌, length-append, Option-cases, inl, inr, arith,
}
use local_plane.Helper.Struct.{Bytes, ByteOrder, Values, pack, unpack, slice}
use local_plane.Helper.Struct.RoundTrip.{drop-append, unpack-pack, length-pack}
use local_plane.Helper.Netlink.{Result, ok, rtattr, aligned, zeros, attribute, attributes_from}
use local_plane.Helper.Netlink.Stream.{slice-middle}

pub attribute-parts :
    (order : ByteOrder) (kind : ℕ) (payload : Bytes) {bs : Bytes}
    → attribute order kind payload ≡ ok bs
    → (header : Bytes) × (pack order rtattr (4 + length payload, (kind, tt)) ≡ some header)
      × (bs ≡ (header ++ payload) ++ zeros ((4 - length (header ++ payload) % 4) % 4))
unfolding attribute
attribute-parts order kind payload h =
    elim (Option-cases (pack order rtattr (4 + length payload, (kind, tt)))) [
      | inl e ↦ absurd (ground (arith, h, e))
      | inr (header, e) ↦ (header, e, ground (arith, h, e))
    ]

pub no_padding :
    (header payload : Bytes)
    → length header ≡ 4
    → length payload ≡ 4
    → (header ++ payload) ++ zeros ((4 - length (header ++ payload) % 4) % 4)
      ≡ header ++ (payload ++ [])
no_padding header payload h k =
    let eight : length (header ++ payload) ≡ 8 =
      omega (arith, length-append header payload, h, k) in
    ap (λ n. (header ++ payload) ++ zeros ((4 - n % 4) % 4)) eight ∙ append-append header payload []

if-room :
    (m n o : Result (List (ℕ × Bytes))) (offset size end : ℕ)
    → offset + 4 ≤ end
    → 4 ≤ size
    → offset + size ≤ end
    → (if leb (offset + 4) end then (if ltb size 4 || ltb end (offset + size) then m else n) else o)
      ≡ n
if-room m n o offset size end h k l = ground arith

module _ (order : ByteOrder) where
  pub attributes_from-stops :
      (fuel : ℕ) (body : Bytes) (offset : ℕ) (found : List (ℕ × Bytes))
      → length body < offset + 4
      → attributes_from order (suc fuel) body offset found ≡ ok found
  unfolding attributes_from
  attributes_from-stops fuel body offset found h = ground arith

  -- The reader at the start of an attribute takes it and goes on behind it.
  pub read-attribute :
      (kind : ℕ) (payload header before after : Bytes) (fuel : ℕ) (found : List (ℕ × Bytes))
      → pack order rtattr (4 + length payload, (kind, tt)) ≡ some header
      → attributes_from order
          (suc fuel)
          (before ++ (header ++ (payload ++ after)))
          (length before)
          found
        ≡ attributes_from order fuel
            (before ++ (header ++ (payload ++ after)))
            (length before + aligned (4 + length payload))
            ((kind, payload) ∷ found)
  unfolding attributes_from
  read-attribute kind payload header before after fuel found packed =
      let body = before ++ (header ++ (payload ++ after)) in
      let values : Values rtattr = (4 + length payload, (kind, tt)) in
      let read =
        ap (unpack order rtattr) (drop-append before (header ++ (payload ++ after)))
        ∙ unpack-pack order rtattr values (payload ++ after) packed in
      let parted = sym (append-append before header (payload ++ after)) in
      let four = length-pack order rtattr values packed in
      let lengths = ap length parted ∙ length-append (before ++ header) (payload ++ after) in
      let long = length-append before header in
      let longer = length-append payload after in
      ap
        (λ v.
          if leb (length before + 4) (length body)
          then (if ltb v.0 4 || ltb (length body) (length before + v.0)
              then ok found
              else attributes_from order fuel body (length before + aligned v.0)
                  ((v.1.0, slice body (length before + 4) (length before + v.0)) ∷ found))
          else ok found)
        read
      ∙ if-room (ok found) _ (ok found) (length before) (4 + length payload) (length body)
          (omega (arith, four, lengths, long, longer)) (omega arith)
          (omega (arith, four, lengths, long, longer))
      ∙ ap
          (λ b.
            attributes_from order fuel body (length before + aligned (4 + length payload))
              ((kind, b) ∷ found))
          (ap (λ bs. slice bs (length before + 4) (length before + (4 + length payload))) parted
            ∙ slice-middle (before ++ header) payload after _ _ (omega (arith, four, long))
                (omega (arith, four, long)))
