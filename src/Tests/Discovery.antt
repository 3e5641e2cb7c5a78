-- ===== src/Tests/Discovery.antt =====
-- The answers to a Who-Is on concrete packets.
use baetyl_bacnet.Common.{ℕ, ◌≤◌, ◌≡◌, refl, List, [], ◌∷◌, none, some, true}
use baetyl_bacnet.Common.Go.{ok, returns}
use baetyl_bacnet.Tests.Packets.{controller}
use baetyl_bacnet.Bacnet.Address.{Address}
use baetyl_bacnet.Encoding.Buffer.{read_byte, read_uint}
use baetyl_bacnet.Bacip.Services.{Iam}
use baetyl_bacnet.Bacip.Services.WhoIsRoundTrip.{range}
use baetyl_bacnet.Bacip.Apdu.{unmarshal_apdu, unmarshal_payload}
use baetyl_bacnet.Bacip.Apdu.RoundTrip.{announcing}
use baetyl_bacnet.Bacip.Npdu.{new_npdu}
use baetyl_bacnet.Bacip.Bvlc.{new_bvlc}
use baetyl_bacnet.Bacip.Client.Collect.{Packet, lookup, collect}
use baetyl_bacnet.Bacip.Client.Discovery.{is_well_typed, latest, entries}
use baetyl_bacnet.Bacip.Bvlc.Delimited.{IsDelimited, unmarshal_bvlc_alone}
use baetyl_bacnet.Bacip.Client.Decoded.{collect-IsDecoded}
use baetyl_bacnet.Bacnet.ObjectId.{object_id_from_uint32}
use baetyl_bacnet.Encoding.Decoder.{decode_unsigned_with_len}
use baetyl_bacnet.Encoding.Decoder.AppData
use baetyl_bacnet.Encoding.Tag.{decode_tag}
use baetyl_bacnet.Bacip.Services.Unmarshal.{unmarshal_iam}
use baetyl_bacnet.Bacip.Npdu.{unmarshal_npdu, read_destination, read_source, read_hops, read_body}
use baetyl_bacnet.Bacip.Bvlc.{unmarshal_bvlc, read_packet}
use baetyl_bacnet.Bacip.Apdu.{unmarshal_payload}
use baetyl_bacnet.Tests.Calls.{gateway}

abbrev announcement : Packet
announcement = record {
  bvlc = record new_bvlc { npdu = record new_npdu { adpu = some (announcing controller) } };
  src = gateway;
}

typed : is_well_typed announcement ≡ true
unfolding is_well_typed
typed = refl

-- The I-Am of a controller, as it is on the wire.
abbrev announcement_bytes : List ℕ
announcement_bytes =
    0x81 ∷ 11 ∷ 0 ∷ 21 ∷ 1 ∷ 0 ∷ 0x10 ∷ 0 ∷ 0xC4 ∷ 0 ∷ 0 ∷ 4 ∷ 210 ∷ 0x22 ∷ 5 ∷ 196 ∷ 0x91 ∷ 3
    ∷ 0x22 ∷ 1 ∷ 4 ∷ []

abbrev received : Packet
received = record {
  bvlc = record {
    bvlc_type = 0x81;
    function = 11;
    npdu = record new_npdu { version = 1; adpu = some (announcing controller) };
  };
  src = gateway;
}

received_decodes : unmarshal_bvlc new_bvlc announcement_bytes ≡ returns (received.bvlc, none)
unfolding unmarshal_bvlc read_packet unmarshal_npdu read_destination read_source read_hops read_body
    unmarshal_apdu unmarshal_payload unmarshal_iam AppData.app_data AppData.app_content decode_tag
    decode_unsigned_with_len object_id_from_uint32 read_uint read_byte
received_decodes = refl

collect-IsDecoded_example :
    (out : List (Iam × Address)) × (collect (range 0 2000) [] (received ∷ received ∷ []) ≡ ok out)
    × (lookup controller out ≡ latest (range 0 2000) controller (received ∷ received ∷ []) none)
    × (entries controller out ≤ 1)
collect-IsDecoded_example =
    collect-IsDecoded (range 0 2000) (received ∷ received ∷ []) controller
      ((announcement_bytes, received_decodes), ((announcement_bytes, received_decodes), tt))

unmarshal_bvlc_alone_example : IsDelimited announcement_bytes × ◌≡◌ {A = List ℕ} [] []
unmarshal_bvlc_alone_example =
    unmarshal_bvlc_alone new_bvlc received.bvlc new_bvlc received.bvlc announcement_bytes []
      received_decodes received_decodes
