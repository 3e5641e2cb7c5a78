-- ===== src/Bacip/Client/Sending.antt =====
-- What the client's requests are on the wire.
use baetyl_bacnet.Common.{
  ℕ, ◌+◌, ◌<◌, ◌%◌, ◌≡◌, refl, List, ◌∷◌, ◌++◌, Option, none, some, length, arith, append_assoc,
  append-nil,
}
use baetyl_bacnet.Common.Go.{ok, returns}
use baetyl_bacnet.Bacnet.Address.{UdpAddr, address_from_udp, udp_from_address-address_from_udp}
use baetyl_bacnet.Bacnet.Device.{Device, PropertyIdentifier}
use baetyl_bacnet.Bacnet.ObjectId.{ObjectId}
use baetyl_bacnet.Bacnet.ObjectId.Packing.{IsStandard}
use baetyl_bacnet.Encoding.Bytes.{IsU32, uint16_bytes}
use baetyl_bacnet.Encoding.Encoder.{Encoder, new_encoder, context_object_id}
use baetyl_bacnet.Encoding.RoundTrip.Context.{
  object_id_field, unsigned_field, context_object_id_lem, context_unsigned_lem,
}
use baetyl_bacnet.Bacip.Services.{ReadProperty}
use baetyl_bacnet.Bacip.Services.Marshal.{
  marshal_read_property, optional_index, write_property_identifier,
}
use baetyl_bacnet.Bacip.Services.ReadAck.{IndexFits, index_field}
use baetyl_bacnet.Bacip.Apdu.{marshal_apdu, marshal_payload}
use baetyl_bacnet.Bacip.Npdu.{marshal_npdu, npdu_front, control_byte}
use baetyl_bacnet.Bacip.Bvlc.{marshal_bvlc}
use baetyl_bacnet.Bacip.Client.Requests.{read_request, send}

-- The object, the property and perhaps an index, with which both requests begin.
abbrev pub target_bytes : ObjectId → PropertyIdentifier → List ℕ
target_bytes o p =
    object_id_field 0 o ++ (unsigned_field 1 p.property_type ++ index_field p.array_index)

-- The data of a ReadProperty request.
abbrev pub query_bytes : ReadProperty → List ℕ
query_bytes rp = target_bytes rp.object_id rp.property

abbrev pub holding : List ℕ → Encoder
holding bytes = record { buf = bytes; failure = none }

optional_index_lem :
    (bytes : List ℕ) (index : Option ℕ)
    → IndexFits index
    → optional_index (holding bytes) index ≡ holding (bytes ++ index_field index)
optional_index_lem bytes none h = rw (append-nil bytes)
optional_index_lem bytes (some i) h = context_unsigned_lem 2 i (omega arith) h (holding bytes) refl

pub target_lem :
    (o : ObjectId) (p : PropertyIdentifier)
    → IsStandard o
    → IsU32 p.property_type
    → IndexFits p.array_index
    → write_property_identifier (context_object_id new_encoder 0 o) p ≡ holding (target_bytes o p)
target_lem o p ho hp hi = rw (
  context_object_id_lem 0 o (omega arith) ho new_encoder refl,
  context_unsigned_lem 1 p.property_type (omega arith) hp (holding (object_id_field 0 o)) refl,
  optional_index_lem (object_id_field 0 o ++ unsigned_field 1 p.property_type) p.array_index hi,
  append_assoc (object_id_field 0 o) (unsigned_field 1 p.property_type) (index_field p.array_index),
)

marshal_read_property_lem :
    (rp : ReadProperty)
    → IsStandard rp.object_id
    → IsU32 rp.property.property_type
    → IndexFits rp.property.array_index
    → marshal_read_property rp ≡ ok (query_bytes rp)
unfolding marshal_read_property
marshal_read_property_lem rp ho hp hi = rw (target_lem rp.object_id rp.property ho hp hi)

-- The whole request: the frame, the packet without addresses that expects a reply, the confirmed
-- request that takes segments of 1476 bytes, the data.
abbrev pub request_bytes : ℕ → ReadProperty → List ℕ
request_bytes id rp =
    0x81
    ∷ 10
    ∷ (uint16_bytes ((10 + length (query_bytes rp)) % 65536)
        ++ 1 ∷ 4 ∷ 0 ∷ 5 ∷ id ∷ 12 ∷ query_bytes rp)

-- ReadProperty of a device that an address of the local network names is sent to this address, and
-- is the request of the standard: version 1, a reply expected, no addresses, the invoke id, the
-- service 12, then the object, the property and the index if there is one.
pub send-read_request :
    (own udp : UdpAddr) (device : Device) (id : ℕ) (rp : ReadProperty)
    → device.addr ≡ address_from_udp udp
    → length udp.ip ≡ 4
    → udp.port < 65536
    → IsStandard rp.object_id
    → IsU32 rp.property.property_type
    → IndexFits rp.property.array_index
    → send (read_request own device id rp) ≡ returns (ok (request_bytes id rp, udp))
unfolding send read_request marshal_bvlc marshal_npdu npdu_front control_byte marshal_apdu
    marshal_payload address_from_udp
send-read_request own udp device id rp d h p ho hp hi =
    ground
      (arith, udp_from_address-address_from_udp udp h p, marshal_read_property_lem rp ho hp hi, d)
