-- ===== src/Tests/Packets.antt =====
-- The packets of the services and of the network on concrete values.
use baetyl_bacnet.Common.{ℕ, ◌≡◌, refl, List, [], ◌∷◌, ◌++◌, none, some, true, arith, inl}
use baetyl_bacnet.Common.Go.{ok, returns}
use baetyl_bacnet.Tests.Codec.{sensor, sensor-IsStandard}
use baetyl_bacnet.Bacnet.Value.{nil, uint32}
use baetyl_bacnet.Encoding.Bytes.{uint16_bytes}
use baetyl_bacnet.Encoding.RoundTrip.AppData.{is_uint32, uint32_any}
use baetyl_bacnet.Encoding.RoundTrip.Answers.{enumerated, answer_field}
use baetyl_bacnet.Encoding.RoundTrip.Abstract.{abstract_field}
use baetyl_bacnet.Bacip.Services.{Iam}
use baetyl_bacnet.Bacip.Services.Unmarshal.{unmarshal_read_property}
use baetyl_bacnet.Bacip.Services.IamRoundTrip.{IsWireIam}
use baetyl_bacnet.Bacip.Services.WhoIsRoundTrip.{range, between}
use baetyl_bacnet.Bacip.Services.ReadAck.{
  ack_bytes, unmarshal_read_property-ack_bytes, unmarshal_read_property_headless,
}
use baetyl_bacnet.Bacip.Apdu.{new_read_property}
use baetyl_bacnet.Bacip.Apdu.RoundTrip.{ApduTrip, asking, asks, unmarshal_apdu-marshal_apdu}
use baetyl_bacnet.Bacip.Npdu.{Npdu, new_npdu, marshal_npdu, unmarshal_npdu}
use baetyl_bacnet.Bacip.Npdu.RoundTrip.{
  HasWireHeader, IsWireNpdu, unmarshal_npdu-marshal_npdu, vendor_id_lost,
}
use baetyl_bacnet.Bacip.Bvlc.{Bvlc, new_bvlc, marshal_bvlc, unmarshal_bvlc}
use baetyl_bacnet.Bacip.Bvlc.RoundTrip.{unmarshal_bvlc-marshal_bvlc}

abbrev pub controller : Iam
controller = record {
  object_id = sensor;
  max_apdu_length = 1476;
  segmentation_support = 3;
  vendor_id = 260;
}

pub controller-IsWireIam : IsWireIam controller
controller-IsWireIam = record {
  standard = sensor-IsStandard;
  apdu_fits = omega arith;
  segmentation_fits = omega arith;
  vendor_fits = omega arith;
}

unmarshal_read_property-ack_bytes_example :
    unmarshal_read_property new_read_property
      (ack_bytes sensor 85 (some 2) (answer_field (enumerated 300)))
    ≡ returns (
      record {
        object_id = sensor;
        property = record { property_type = 85; array_index = some 2 };
        content = uint32 300;
      },
      none,
    )
unmarshal_read_property-ack_bytes_example =
    unmarshal_read_property-ack_bytes new_read_property sensor 85 (some 2) (enumerated 300)
      sensor-IsStandard (omega arith) (omega arith) (omega arith)

unmarshal_read_property_headless_example :
    unmarshal_read_property new_read_property (abstract_field 3 (uint32 300))
    ≡ returns (
      record {
        object_id = record { object_type = 0; number = 0 };
        property = record { property_type = 0; array_index = none };
        content = uint32 300;
      },
      none,
    )
unmarshal_read_property_headless_example =
    unmarshal_read_property_headless new_read_property (uint32 300) (uint32 300)
      (is_uint32 300 (omega arith)) (uint32_any 300 nil)

unmarshal_apdu-marshal_apdu_example : ApduTrip (asking (range 100 70000))
unmarshal_apdu-marshal_apdu_example =
    unmarshal_apdu-marshal_apdu (asking (range 100 70000))
      (asks (range 100 70000) (between 100 70000 (omega arith) (omega arith)))

-- A Who-Is for every network.
abbrev discovery : Npdu
discovery = record new_npdu {
  version = 1;
  destination = some (record { mac = []; net = 65535; adr = [] });
  hop_count = 255;
  adpu = some (asking (range 100 70000));
}

discovery-IsWireNpdu : IsWireNpdu discovery
discovery-IsWireNpdu = record {
  header = record {
    version_one = refl;
    priority_fits = omega arith;
    destination_fits = record {
      net_pos = omega arith;
      net_fits = omega arith;
      adr_fits = omega arith;
      mac_empty = refl;
    };
    source_fits = tt;
    hops_fit = tt;
  };
  body_fits = (refl, refl, asks (range 100 70000) (between 100 70000 (omega arith) (omega arith)));
}

unmarshal_npdu-marshal_npdu_example :
    (bytes : List ℕ) × (marshal_npdu discovery ≡ returns (ok bytes))
    × (unmarshal_npdu new_npdu bytes ≡ returns (discovery, none))
unmarshal_npdu-marshal_npdu_example = unmarshal_npdu-marshal_npdu discovery discovery-IsWireNpdu

-- A vendor's network message.
abbrev proprietary : Npdu
proprietary = record new_npdu {
  version = 1;
  is_network_layer_message = true;
  network_message_type = 128;
  vendor_id = 260;
}

proprietary-HasWireHeader : HasWireHeader proprietary
proprietary-HasWireHeader = record {
  version_one = refl;
  priority_fits = omega arith;
  destination_fits = tt;
  source_fits = tt;
  hops_fit = refl;
}

vendor_id_lost_example :
    (front : List ℕ) × (marshal_npdu proprietary
      ≡ returns (ok (front ++ (128 ∷ uint16_bytes proprietary.vendor_id))))
    × (unmarshal_npdu new_npdu (front ++ (128 ∷ uint16_bytes proprietary.vendor_id))
        ≡ returns (record proprietary { vendor_id = 0 }, none))
vendor_id_lost_example = vendor_id_lost proprietary proprietary-HasWireHeader refl refl refl

abbrev routing : Npdu
routing = record new_npdu { version = 1; is_network_layer_message = true; network_message_type = 1 }

routing-IsWireNpdu : IsWireNpdu routing
routing-IsWireNpdu = record {
  header = record {
    version_one = refl;
    priority_fits = omega arith;
    destination_fits = tt;
    source_fits = tt;
    hops_fit = refl;
  };
  body_fits = inl (omega arith, refl);
}

abbrev routing_frame : Bvlc
routing_frame = record { bvlc_type = 0x81; function = 11; npdu = routing }

routing_bytes : marshal_npdu routing ≡ returns (ok (1 ∷ 128 ∷ 1 ∷ []))
unfolding marshal_npdu
routing_bytes = refl

unmarshal_bvlc-marshal_bvlc_example :
    (packet : List ℕ) × (marshal_bvlc routing_frame ≡ returns (ok packet))
    × (unmarshal_bvlc new_bvlc packet ≡ returns (routing_frame, none))
unmarshal_bvlc-marshal_bvlc_example =
    unmarshal_bvlc-marshal_bvlc routing_frame (1 ∷ 128 ∷ 1 ∷ []) refl routing-IsWireNpdu
      routing_bytes (omega arith)
