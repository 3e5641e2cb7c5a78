-- ===== src/Bacip/Bvlc.antt =====
-- bacip/network_types.go: the BACnet/IP frame around a network packet.
pub mod RoundTrip
pub mod Typed
pub mod Delimited
use baetyl_bacnet.Common.{ℕ, ◌+◌, ◌%◌, List, ◌∷◌, ◌++◌, some, ◌==◌, length, if◌then◌else◌}
use baetyl_bacnet.Common.Go.{message, not_bacnet_ip, Result, ok, err, Outcome, returns, ◌>>=◌}
use baetyl_bacnet.Encoding.Bytes.{uint16_bytes}
use baetyl_bacnet.Encoding.Buffer.{Buffer, new_buffer, read_byte, read_uint}
use baetyl_bacnet.Bacip.Apdu.{Left, attempt}
use baetyl_bacnet.Bacip.Npdu.{Npdu, new_npdu, marshal_npdu, unmarshal_npdu}

abbrev pub type_bacnet_ip : ℕ
type_bacnet_ip = 0x81

abbrev pub unicast : ℕ
unicast = 10

abbrev pub broadcast : ℕ
broadcast = 11

pub record Bvlc : Type 0 where
  pub bvlc_type : ℕ
  pub function : ℕ
  pub npdu : Npdu

abbrev pub new_bvlc : Bvlc
new_bvlc = record { bvlc_type = 0; function = 0; npdu = new_npdu }

abbrev pub frame : Bvlc → Result (List ℕ) → Result (List ℕ)
frame v (err e) = err e
frame v (ok bytes) =
    ok (v.bvlc_type ∷ v.function ∷ (uint16_bytes ((4 + length bytes) % 65536) ++ bytes))

unfoldable pub marshal_bvlc : Bvlc → Outcome (Result (List ℕ))
marshal_bvlc v = do bytes ← marshal_npdu v.npdu; returns (frame v bytes)

-- The packet is read if the length field counts it and the four bytes in front.
unfoldable pub read_packet : Bvlc → ℕ → Buffer → Left Bvlc
read_packet v len b =
    if (length b.rest + 4) == len
    then (do (n, e) ← unmarshal_npdu v.npdu b.rest; returns (record v { npdu = n }, e))
    else returns (
      v,
      some
          (message "incoherent Length field in BVCL. Advertized payload size is %d, real size  %d"),
    )

unfoldable pub unmarshal_bvlc : Bvlc → List ℕ → Left Bvlc
unmarshal_bvlc v bytes = attempt v "read bvlc type" (read_byte (new_buffer bytes)) λ t b.
    let v1 = record v { bvlc_type = t } in
    if t == type_bacnet_ip
    then (attempt v1 "read bvlc func" (read_byte b) λ f b1.
        attempt v1 "read bvlc length" (read_uint 2 b1)
          λ len b2. read_packet (record v1 { function = f }) len b2)
    else returns (v1, some not_bacnet_ip)
