-- ===== src/Tests/Search.antt =====
-- A WhoIs that hears a controller and noise.
use baetyl_bacnet.Common.{
  ℕ, ◌≤◌, ◌≡◌, List, [], ◌∷◌, ◌++◌, none, some, refl, map, All, arith, true, false,
}
use baetyl_bacnet.Common.Go.{ok, err, returns}
use baetyl_bacnet.Bacnet.Address.{Address}
use baetyl_bacnet.Bacip.Services.{Iam}
use baetyl_bacnet.Bacip.Services.WhoIsRoundTrip.{range, between}
use baetyl_bacnet.Bacip.Transaction.{new_transactions}
use baetyl_bacnet.Bacip.Client.Collect.{lookup, device}
use baetyl_bacnet.Bacip.Client.Discovery.{entries}
use baetyl_bacnet.Bacip.Client.Search.{search}
use baetyl_bacnet.Bacip.Client.Search.Finds.{
  Heard, hello, noise, IsHello, IsSound, arrival, last_hello, search-last_hello,
}
use baetyl_bacnet.Bacip.Client.Search.Cut.{cut_arrival, search-cut}
use baetyl_bacnet.Bacip.Client.Discovery.{unexpected_payload}
use baetyl_bacnet.Bacip.Apdu.RoundTrip.{announcing, announces}
use baetyl_bacnet.Bacip.Npdu.{new_npdu, marshal_npdu}
use baetyl_bacnet.Bacip.Apdu.{marshal_apdu, marshal_payload}
use baetyl_bacnet.Bacip.Services.Marshal.{marshal_iam}
use baetyl_bacnet.Encoding.Encoder.{app_data}
use baetyl_bacnet.Bacnet.ObjectId.{encode}
use baetyl_bacnet.Encoding.Tag.{tag_bytes}
use baetyl_bacnet.Encoding.Encoder.Unsigned.{value_length, unsigned_bytes}
use baetyl_bacnet.Bacip.Bvlc.{Bvlc, marshal_bvlc}
use baetyl_bacnet.Tests.Packets.{controller, controller-IsWireIam}
use baetyl_bacnet.Tests.Calls.{gateway}

-- The I-Am of a controller behind a router, as it is broadcast to every network.
abbrev routed : Bvlc
routed = record {
  bvlc_type = 0x81;
  function = 11;
  npdu = record new_npdu {
    version = 1;
    destination = some (record { mac = []; net = 65535; adr = [] });
    source = some (record { mac = []; net = 7; adr = 9 ∷ [] });
    hop_count = 254;
    adpu = some (announcing controller);
  };
}

abbrev routed_bytes : List ℕ
routed_bytes =
    0x81 ∷ 11 ∷ 0 ∷ 29 ∷ 1 ∷ 40 ∷ 255 ∷ 255 ∷ 0 ∷ 0 ∷ 7 ∷ 1 ∷ 9 ∷ 254 ∷ 0x10 ∷ 0 ∷ 0xC4 ∷ 0 ∷ 0 ∷ 4
    ∷ 210 ∷ 0x22 ∷ 5 ∷ 196 ∷ 0x91 ∷ 3 ∷ 0x22 ∷ 1 ∷ 4 ∷ []

abbrev sounds : List Heard
sounds =
    record { transactions = new_transactions; received = false; sound = noise 1 []; src = gateway }
    ∷ record {
      transactions = new_transactions;
      received = true;
      sound = hello routed controller routed_bytes;
      src = gateway;
    }
    ∷ []

routed_written : marshal_bvlc routed ≡ returns (ok routed_bytes)
unfolding marshal_bvlc marshal_npdu marshal_apdu marshal_payload marshal_iam app_data encode
    tag_bytes value_length unsigned_bytes
routed_written = refl

routed-IsHello : IsHello routed controller routed_bytes
routed-IsHello = record {
  announces_it = refl;
  bacnet_ip = refl;
  wire = record {
    header = record {
      version_one = refl;
      priority_fits = omega arith;
      destination_fits = record {
        net_pos = omega arith;
        net_fits = omega arith;
        adr_fits = omega arith;
        mac_empty = refl;
      };
      source_fits = record {
        net_pos = omega arith;
        net_fits = omega arith;
        adr_fits = omega arith;
        mac_empty = refl;
      };
      hops_fit = tt;
    };
    body_fits = (refl, refl, announces controller controller-IsWireIam);
  };
  written = routed_written;
  fits = omega arith;
}

sounds-IsSound : All (λ a. IsSound a.sound) sounds
sounds-IsSound = ((λ e. omega (arith, e)), (routed-IsHello, tt))

search-last_hello_example :
    (set : List (Iam × Address)) × (search
        (10 ∷ 0 ∷ 0 ∷ 255 ∷ [])
        none
        (range 0 2000)
        (map arrival sounds)
      ≡ returns (ok (map device set)))
    × ((i : Iam) → (lookup i set ≡ last_hello (range 0 2000) i sounds none) × (entries i set ≤ 1))
search-last_hello_example =
    search-last_hello (10 ∷ 0 ∷ 0 ∷ 255 ∷ []) (range 0 2000) sounds
      (between 0 2000 (omega arith) (omega arith)) sounds-IsSound

search-cut_example :
    search
      (10 ∷ 0 ∷ 0 ∷ 255 ∷ [])
      none
      (range 0 2000)
      (map arrival sounds ++ (cut_arrival new_transactions false 11 gateway ∷ []))
    ≡ returns (err unexpected_payload)
search-cut_example =
    search-cut (10 ∷ 0 ∷ 0 ∷ 255 ∷ []) (range 0 2000) (map arrival sounds) [] new_transactions false
      11 gateway (between 0 2000 (omega arith) (omega arith))
