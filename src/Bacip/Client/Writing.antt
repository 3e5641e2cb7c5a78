-- ===== src/Bacip/Client/Writing.antt =====
-- What a WriteProperty request is on the wire.
use baetyl_bacnet.Common.{
  ℕ, ◌+◌, ◌<◌, ◌≡◌, refl, Bool, true, false, List, [], ◌∷◌, ◌++◌, none, length, arith, append_assoc,
  append-nil, if◌then◌else◌, ◌==◌, ◌%◌,
}
use baetyl_bacnet.Common.Go.{ok, returns}
use baetyl_bacnet.Bacnet.Address.{UdpAddr, address_from_udp, udp_from_address-address_from_udp}
use baetyl_bacnet.Bacnet.Device.{Device}
use baetyl_bacnet.Bacnet.ObjectId.Packing.{IsStandard}
use baetyl_bacnet.Bacnet.Value.{
  Value, boolean, uint32, float32, PropertyValue, type_boolean, type_real, type_enumerated,
}
use baetyl_bacnet.Encoding.Bytes.{IsByte, IsU32, uint16_bytes, uint32_bytes}
use baetyl_bacnet.Encoding.Tag.{plain_tag, opening_tag, closing_tag, tag_bytes}
use baetyl_bacnet.Encoding.Encoder.{context_boolean, context_type_real, context_type_enumerated}
use baetyl_bacnet.Encoding.Encoder.Abstract.{context_abstract_type}
use baetyl_bacnet.Encoding.Encoder.Unsigned.{value_length, unsigned_bytes}
use baetyl_bacnet.Encoding.RoundTrip.Context.{unsigned_field, context_unsigned_lem}
use baetyl_bacnet.Bacip.Services.{WriteProperty}
use baetyl_bacnet.Bacip.Services.Marshal.{marshal_write_property}
use baetyl_bacnet.Bacip.Services.ReadAck.{IndexFits}
use baetyl_bacnet.Bacip.Apdu.{marshal_apdu, marshal_payload}
use baetyl_bacnet.Bacip.Npdu.{marshal_npdu, npdu_front, control_byte}
use baetyl_bacnet.Bacip.Bvlc.{marshal_bvlc}
use baetyl_bacnet.Bacip.Client.Requests.{write_request, send}
use baetyl_bacnet.Bacip.Client.Sending.{holding, target_bytes, target_lem}

-- The property values that are written as application data of their type.
pub data IsTyped : PropertyValue → Type 0 where
  is_boolean : (b : Bool) → IsTyped (record { tag = type_boolean; value = boolean b })
  is_real : (bits : ℕ) → IsTyped (record { tag = type_real; value = float32 bits })
  is_enumerated : (v : ℕ) → IsTyped (record { tag = type_enumerated; value = uint32 v })

-- Application data: a Boolean stands in its tag.
abbrev pub typed_field : Value → List ℕ
typed_field (boolean b) = tag_bytes (plain_tag 1 false (if b then 1 else 0))
typed_field (float32 bits) = tag_bytes (plain_tag 4 false 4) ++ uint32_bytes bits
typed_field (uint32 v) = tag_bytes (plain_tag 9 false (value_length v)) ++ unsigned_bytes v
typed_field _ = []

abbrev pub value_field : Value → List ℕ
value_field v = tag_bytes (opening_tag 3 true) ++ (typed_field v ++ tag_bytes (closing_tag 3 true))

context_abstract_type_lem :
    (bytes : List ℕ) (pv : PropertyValue)
    → IsTyped pv
    → context_abstract_type (holding bytes) 3 pv
      ≡ returns (holding (bytes ++ value_field pv.value), none)
unfolding context_abstract_type context_boolean context_type_real context_type_enumerated
context_abstract_type_lem bytes _ (is_boolean b) = simp append_assoc
context_abstract_type_lem bytes _ (is_real bits) = simp append_assoc
context_abstract_type_lem bytes _ (is_enumerated v) = simp append_assoc

-- The data of a WriteProperty request.
abbrev pub write_bytes : WriteProperty → List ℕ
write_bytes wp =
    target_bytes wp.object_id wp.property
    ++ (value_field wp.property_value.value
        ++ (if wp.priority == 0 then [] else unsigned_field 4 wp.priority))

-- The arguments that are in the range of their types, with a value of a type that is written as
-- application data.
pub record IsWireWrite (wp : WriteProperty) : Type 0 where
  pub standard : IsStandard wp.object_id
  pub property_fits : IsU32 wp.property.property_type
  pub index_fits : IndexFits wp.property.array_index
  pub typed : IsTyped wp.property_value
  pub priority_fits : IsByte wp.priority

pub marshal_write_property_lem :
    (wp : WriteProperty)
    → IsWireWrite wp
    → marshal_write_property wp ≡ returns (ok (write_bytes wp))
unfolding marshal_write_property
marshal_write_property_lem wp h =
    let t : List ℕ = target_bytes wp.object_id wp.property in
    let v : List ℕ = value_field wp.property_value.value in
    rw
      (
        target_lem wp.object_id wp.property h.standard h.property_fits h.index_fits,
        context_abstract_type_lem t wp.property_value h.typed,
      )
      (ground (
        arith,
        append-nil (t ++ v),
        append-nil v,
        append_assoc t v (unsigned_field 4 wp.priority),
        context_unsigned_lem 4 wp.priority (omega arith) (omega (arith, h.priority_fits))
            (holding (t ++ v)) refl,
      ))

-- The whole request: the frame, the packet without addresses that expects a reply, the confirmed
-- request that takes segments of 1476 bytes, the data.
abbrev pub write_request_bytes : ℕ → WriteProperty → List ℕ
write_request_bytes id wp =
    0x81
    ∷ 10
    ∷ (uint16_bytes ((10 + length (write_bytes wp)) % 65536)
        ++ 1 ∷ 4 ∷ 0 ∷ 5 ∷ id ∷ 15 ∷ write_bytes wp)

-- WriteProperty of a Boolean, a Real or an Enumerated on a device that an address of the local
-- network names is sent to this address, and is the request of the standard: version 1, a reply
-- expected, no addresses, the invoke id, the service 15, then the object, the property, the index if
-- there is one, the value as application data between its tags, and the priority if it is not 0.
pub send-write_request :
    (own udp : UdpAddr) (device : Device) (id : ℕ) (wp : WriteProperty)
    → device.addr ≡ address_from_udp udp
    → length udp.ip ≡ 4
    → udp.port < 65536
    → IsWireWrite wp
    → send (write_request own device id wp) ≡ returns (ok (write_request_bytes id wp, udp))
unfolding send write_request marshal_bvlc marshal_npdu npdu_front control_byte marshal_apdu
    marshal_payload address_from_udp
send-write_request own udp device id wp d l p h =
    ground (arith, udp_from_address-address_from_udp udp l p, marshal_write_property_lem wp h, d)
