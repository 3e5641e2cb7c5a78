-- ===== src/Bacip/Apdu/RoundTrip.antt =====
-- The application packets that the program both writes and reads.
use baetyl_bacnet.Common.{ℕ, ◌≡◌, ◌≢◌, List, ◌∷◌, none, arith, false}
use baetyl_bacnet.Common.Go.{ok, returns}
use baetyl_bacnet.Encoding.Buffer.{read_uint, read_uint_one}
use baetyl_bacnet.Bacip.Services.{WhoIs, Iam}
use baetyl_bacnet.Bacip.Services.IamRoundTrip.{
  IsWireIam, iam_bytes, marshal_iam_lem, unmarshal_iam-iam_bytes,
}
use baetyl_bacnet.Bacip.Services.WhoIsRoundTrip.{IsRequest, unmarshal_who_is-marshal_who_is}
use baetyl_bacnet.Bacip.Apdu.{
  Apdu, who_is, iam, data_payload, new_apdu, new_iam, is_answer, marshal_apdu, unmarshal_apdu,
  marshal_payload, confirmed_service_request, unconfirmed_service_request, service_unconfirmed_iam,
  service_unconfirmed_who_is,
}

-- The bytes of a packet exist, and they are read back as the packet.
abbrev pub ApduTrip : Apdu → Type 0
ApduTrip a =
    (bytes : List ℕ) × (marshal_apdu a ≡ returns (ok bytes))
    × (unmarshal_apdu new_apdu bytes ≡ returns (a, none))

abbrev pub asking : WhoIs → Apdu
asking w = record {
  data_type = unconfirmed_service_request;
  service_type = service_unconfirmed_who_is;
  payload = who_is w;
  invoke_id = 0;
}

abbrev pub announcing : Iam → Apdu
announcing i = record {
  data_type = unconfirmed_service_request;
  service_type = service_unconfirmed_iam;
  payload = iam i;
  invoke_id = 0;
}

abbrev pub carrying : ℕ → ℕ → List ℕ → Apdu
carrying t s bytes = record {
  data_type = t;
  service_type = s;
  payload = data_payload bytes;
  invoke_id = 0;
}

-- The packets without an invoke id: a Who-Is, an I-Am, or a packet whose payload is not decoded.
pub data IsReadable : Apdu → Type 0 where
  asks : (w : WhoIs) → IsRequest w → IsReadable (asking w)
  announces : (i : Iam) → IsWireIam i → IsReadable (announcing i)
  carries :
      (t s : ℕ) (bytes : List ℕ)
      → t ≢ confirmed_service_request
      → t ≢ unconfirmed_service_request
      → is_answer t ≡ false
      → IsReadable (carrying t s bytes)

trip_asks : (w : WhoIs) → IsRequest w → ApduTrip (asking w)
trip_asks w h =
    let (bytes, m, u) = unmarshal_who_is-marshal_who_is w h in
    (
      0x10 ∷ 8 ∷ bytes,
      unfold marshal_apdu marshal_payload in rw m,
      unfold unmarshal_apdu in rw (read_uint_one, read_uint_one, u),
    )

trip_announces : (i : Iam) → IsWireIam i → ApduTrip (announcing i)
trip_announces i h = (
  0x10 ∷ 0 ∷ iam_bytes i h,
  unfold marshal_apdu marshal_payload in rw (marshal_iam_lem i h),
  unfold unmarshal_apdu in rw (read_uint_one, read_uint_one, unmarshal_iam-iam_bytes i h new_iam),
)

trip_carries :
    (t s : ℕ) (bytes : List ℕ)
    → t ≢ confirmed_service_request
    → t ≢ unconfirmed_service_request
    → is_answer t ≡ false
    → ApduTrip (carrying t s bytes)
unfolding marshal_apdu marshal_payload unmarshal_apdu read_uint
trip_carries t s bytes h k a = (t ∷ s ∷ bytes, ground arith, ground arith)

-- A Who-Is for all devices or for a range of instances, an I-Am with fields in range, or raw data
-- in a packet whose type is neither a request, confirmed or unconfirmed, nor an answer
-- (ComplexAck, SimpleAck or Error) is written by APDU.MarshalBinary, and UnmarshalBinary into a
-- new receiver gives the same packet from its bytes.
pub unmarshal_apdu-marshal_apdu : (a : Apdu) → IsReadable a → ApduTrip a
unmarshal_apdu-marshal_apdu _ (asks w h) = trip_asks w h
unmarshal_apdu-marshal_apdu _ (announces i h) = trip_announces i h
unmarshal_apdu-marshal_apdu _ (carries t s bytes h k a) = trip_carries t s bytes h k a
