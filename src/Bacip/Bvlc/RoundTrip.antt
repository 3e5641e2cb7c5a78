-- ===== src/Bacip/Bvlc/RoundTrip.antt =====
-- A BACnet/IP frame is read back as it was written.
use baetyl_bacnet.Common.{
  ℕ, ◌+◌, ◌/◌, ◌%◌, ◌<◌, ◌≡◌, ◌≢◌, List, [], ◌∷◌, ◌++◌, none, some, arith, true, ◌∙◌, length, ap,
  sym,
}
use baetyl_bacnet.Common.Go.{ok, returns, not_bacnet_ip}
use baetyl_bacnet.Encoding.Bytes.{uint16_bytes}
use baetyl_bacnet.Encoding.Buffer.{read_byte, read_uint_two}
use baetyl_bacnet.Bacip.Npdu.{new_npdu, marshal_npdu, unmarshal_npdu}
use baetyl_bacnet.Bacip.Npdu.RoundTrip.{IsWireNpdu, unmarshal_npdu-marshal_npdu}
use baetyl_bacnet.Bacip.Bvlc.{
  Bvlc, new_bvlc, marshal_bvlc, unmarshal_bvlc, read_packet, type_bacnet_ip,
}

-- The frame of a network packet's bytes, as long as its length fits the length field.
abbrev frame_bytes : Bvlc → List ℕ → List ℕ
frame_bytes v bytes = v.bvlc_type ∷ v.function ∷ (uint16_bytes (4 + length bytes) ++ bytes)

pub unmarshal_frame :
    (v : Bvlc) (bytes : List ℕ)
    → v.bvlc_type ≡ type_bacnet_ip
    → length bytes < 65532
    → unmarshal_npdu new_npdu bytes ≡ returns (v.npdu, none)
    → unmarshal_bvlc new_bvlc (frame_bytes v bytes) ≡ returns (v, none)
unfolding unmarshal_bvlc read_packet read_byte
unmarshal_frame v bytes t h u = ground (
  arith,
  u,
  read_uint_two ((4 + length bytes) / 256 % 256) ((4 + length bytes) % 256)
      (v.function ∷ v.bvlc_type ∷ []) bytes true,
)

-- BVLC.MarshalBinary succeeds on a frame of type 0x81 around a network packet of fewer than 65,532
-- bytes and of version 1, with a priority up to 3, with a destination and a source of another
-- network, if any, with zero in the fields that are not sent, and with a network message of a type
-- other than 0x80, with a vendor above 0x80, or else an application packet that is a Who-Is for
-- all devices or for a range of instances, an I-Am with fields in range, or raw data in a type
-- that is neither a request nor an answer; and UnmarshalBinary into a new receiver gives the same
-- frame.
pub unmarshal_bvlc-marshal_bvlc :
    (v : Bvlc) (bytes : List ℕ)
    → v.bvlc_type ≡ type_bacnet_ip
    → IsWireNpdu v.npdu
    → marshal_npdu v.npdu ≡ returns (ok bytes)
    → length bytes < 65532
    → (packet : List ℕ) × (marshal_bvlc v ≡ returns (ok packet))
      × (unmarshal_bvlc new_bvlc packet ≡ returns (v, none))
unmarshal_bvlc-marshal_bvlc v bytes t w m h =
    let (bytes', m', u) = unmarshal_npdu-marshal_npdu v.npdu w in
    let same : bytes ≡ bytes' = cc in
    (
      frame_bytes v bytes,
      unfold marshal_bvlc in ground (arith, m),
      unmarshal_frame v bytes t h (ap (unmarshal_npdu new_npdu) same ∙ u),
    )

-- What `MarshalBinary` wrote of such a frame is read back as this frame.
pub unmarshal_bvlc_marshalled :
    (v : Bvlc) (packet : List ℕ)
    → v.bvlc_type ≡ type_bacnet_ip
    → IsWireNpdu v.npdu
    → marshal_bvlc v ≡ returns (ok packet)
    → length packet < 65536
    → unmarshal_bvlc new_bvlc packet ≡ returns (v, none)
unmarshal_bvlc_marshalled v packet t w e h =
    let (bytes, m, u) = unmarshal_npdu-marshal_npdu v.npdu w in
    let made : v.bvlc_type ∷ v.function ∷ (uint16_bytes ((4 + length bytes) % 65536) ++ bytes)
        ≡ packet =
      unfold marshal_bvlc in ground (arith, m, e) in
    let counted : 4 + length bytes ≡ length packet = omega (arith, ap length made) in
    let short : length bytes < 65532 = omega arith in
    let (packet', m', u') = unmarshal_bvlc-marshal_bvlc v bytes t w m short in
    let same : packet' ≡ packet = ground (arith, m', e) in
    ap (unmarshal_bvlc new_bvlc) (sym same) ∙ u'

-- A packet whose first byte is not 0x81 is refused as ErrNotBAcnetIP, and nothing else is read.
pub unmarshal_bvlc_foreign :
    (t : ℕ) (rest : List ℕ)
    → t ≢ type_bacnet_ip
    → unmarshal_bvlc new_bvlc (t ∷ rest)
      ≡ returns (record new_bvlc { bvlc_type = t }, some not_bacnet_ip)
unfolding unmarshal_bvlc read_byte
unmarshal_bvlc_foreign t rest h = ground arith
