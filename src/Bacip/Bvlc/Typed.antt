-- ===== src/Bacip/Bvlc/Typed.antt =====
-- Whatever datagram arrives, what it is unmarshalled into is in the range of its fields' types.
use baetyl_bacnet.Common.{
  ℕ, zero, suc, ◌≤◌, List, Option, none, some, Bool, true, false, All, Bool-cases, inl, inr, arith,
  if◌then◌else◌, ◌==◌, String, ltb, bit_and, length, ◌+◌,
}
use baetyl_bacnet.Common.Bits.{bit_and-3}
use baetyl_bacnet.Common.Go.{returns, panics, ◌>>=◌}
use baetyl_bacnet.Bacnet.Address.{Address}
use baetyl_bacnet.Encoding.Bytes.{IsByte, IsU16}
use baetyl_bacnet.Encoding.Buffer.{Buffer, new_buffer}
use baetyl_bacnet.Encoding.Decoder.Fits.{
  IsBytes, read_byte-Gives, read_uint_one-Gives, read_uint_two-Gives, read_full-Gives, IsBlock,
}
use baetyl_bacnet.Bacip.Services.Typed.{Leaves}
use baetyl_bacnet.Bacip.Apdu.{Apdu, Left, new_apdu}
use baetyl_bacnet.Bacip.Apdu.Typed.{IsTypedApdu, attempt-Leaves, unmarshal_apdu-IsTyped}
use baetyl_bacnet.Bacip.Npdu.{
  Npdu, zeros, read_address, read_vendor, keep_apdu, read_body, is_some, read_hops, read_source,
  read_destination, with_control, version1, unmarshal_npdu,
}
use baetyl_bacnet.Bacip.Bvlc.{Bvlc, type_bacnet_ip, read_packet, unmarshal_bvlc}

abbrev pub FitsAddress : Option Address → Type 0
FitsAddress none = Unit {0}
FitsAddress (some a) = All IsByte a.mac × IsU16 a.net × All IsByte a.adr

abbrev pub FitsApdu : Option Apdu → Type 0
FitsApdu none = Unit {0}
FitsApdu (some a) = IsTypedApdu a

-- The priority has two bits.
pub record IsTypedNpdu (n : Npdu) : Type 0 where
  pub version_fits : IsByte n.version
  pub priority_fits : n.priority ≤ 3
  pub destination_fits : FitsAddress n.destination
  pub source_fits : FitsAddress n.source
  pub hop_count_fits : IsByte n.hop_count
  pub network_message_type_fits : IsByte n.network_message_type
  pub vendor_id_fits : IsU16 n.vendor_id
  pub apdu_fits : FitsApdu n.adpu

zeros-IsByte : (n : ℕ) → All IsByte (zeros n)
zeros-IsByte zero = tt
zeros-IsByte (suc n) = (omega arith, zeros-IsByte n)

read_address-Leaves :
    (net_text len_text : String) (put : Address → Npdu) (b : Buffer) (k : Npdu → Buffer → Left Npdu)
    → ((a : Address) → FitsAddress (some a) → IsTypedNpdu (put a))
    → IsBytes b
    → ((n : Npdu) (b : Buffer) → IsTypedNpdu n → IsBytes b → Leaves IsTypedNpdu (k n b))
    → Leaves IsTypedNpdu (read_address net_text len_text put b k)
unfolding read_address
read_address-Leaves net_text len_text put b k p h g =
    attempt-Leaves IsTypedNpdu IsU16 _ _ _ _ (p _ (tt, omega arith, tt)) (read_uint_two-Gives b h)
      λ net b1 kn h1.
        attempt-Leaves IsTypedNpdu IsByte _ _ _ _ (p _ (tt, kn, tt)) (read_uint_one-Gives b1 h1)
          λ len b2 kl h2.
            attempt-Leaves IsTypedNpdu (IsBlock len) _ _ _ _ (p _ (tt, kn, zeros-IsByte len))
              (read_full-Gives len b2 h2) λ adr b3 ka h3. g _ b3 (p _ (tt, kn, ka.0)) h3

-- Both branches are considered, whatever the test gives.
either-Leaves :
    {A : Type 0} (P : A → Type 0) (c : Bool) (x y : Left A)
    → Leaves P x
    → Leaves P y
    → Leaves P (if c then x else y)
either-Leaves P true x y h k = h
either-Leaves P false x y h k = k

read_vendor-Leaves :
    (n : Npdu) (b : Buffer) → IsTypedNpdu n → IsBytes b → Leaves IsTypedNpdu (read_vendor n b)
unfolding read_vendor
read_vendor-Leaves n b h i =
    either-Leaves IsTypedNpdu (ltb 0x80 n.network_message_type) _ _
      (attempt-Leaves IsTypedNpdu IsU16 _ _ _ _ h (read_uint_two-Gives b i)
        λ v b' k j. ground arith)
      h

keep_apdu-Leaves :
    (n : Npdu) (r : Left Apdu)
    → IsTypedNpdu n
    → Leaves IsTypedApdu r
    → Leaves IsTypedNpdu (do x ← r; returns (keep_apdu n x))
keep_apdu-Leaves n panics h k = tt
keep_apdu-Leaves n (returns (a, e)) h k = ground arith

new_apdu-IsTyped : IsTypedApdu new_apdu
new_apdu-IsTyped = ground arith

read_body-Leaves :
    (n : Npdu) (b : Buffer) → IsTypedNpdu n → IsBytes b → Leaves IsTypedNpdu (read_body n b)
unfolding read_body
read_body-Leaves n b h i =
    either-Leaves IsTypedNpdu n.is_network_layer_message _ _
      (attempt-Leaves IsTypedNpdu IsByte _ _ _ _ h (read_uint_one-Gives b i)
        λ t b' k j. read_vendor-Leaves (record n { network_message_type = t }) b' (ground arith) j)
      (keep_apdu-Leaves n _ h (unmarshal_apdu-IsTyped new_apdu b.rest new_apdu-IsTyped i.1))

read_hops-Leaves :
    (n : Npdu) (b : Buffer) → IsTypedNpdu n → IsBytes b → Leaves IsTypedNpdu (read_hops n b)
unfolding read_hops
read_hops-Leaves n b h i =
    either-Leaves IsTypedNpdu (is_some n.destination) _ _
      (attempt-Leaves IsTypedNpdu IsByte _ _ _ _ h (read_uint_one-Gives b i)
        λ v b' k j. read_body-Leaves (record n { hop_count = v }) b' (ground arith) j)
      (read_body-Leaves n b h i)

read_source-Leaves :
    (control : ℕ) (n : Npdu) (b : Buffer)
    → IsTypedNpdu n
    → IsBytes b
    → Leaves IsTypedNpdu (read_source control n b)
unfolding read_source
read_source-Leaves control n b h i =
    either-Leaves IsTypedNpdu (ltb 0 (bit_and control 8)) _ _
      (read_address-Leaves _ _ _ b read_hops (λ a k. ground arith) i read_hops-Leaves)
      (read_hops-Leaves n b h i)

read_destination-Leaves :
    (control : ℕ) (n : Npdu) (b : Buffer)
    → IsTypedNpdu n
    → IsBytes b
    → Leaves IsTypedNpdu (read_destination control n b)
unfolding read_destination
read_destination-Leaves control n b h i =
    either-Leaves IsTypedNpdu (ltb 0 (bit_and control 32)) _ _
      (read_address-Leaves _ _ _ b (read_source control) (λ a k. ground arith) i
        (read_source-Leaves control))
      (read_source-Leaves control n b h i)

pub unmarshal_npdu-IsTyped :
    (n : Npdu) (bytes : List ℕ)
    → IsTypedNpdu n
    → All IsByte bytes
    → Leaves IsTypedNpdu (unmarshal_npdu n bytes)
unfolding unmarshal_npdu
unmarshal_npdu-IsTyped n bytes h bs =
    attempt-Leaves IsTypedNpdu IsByte _ _ _ _ h (read_uint_one-Gives (new_buffer bytes) (tt, bs))
      λ version b k i.
        let n1 : Npdu = record n { version = version } in
        let h1 : IsTypedNpdu n1 = ground arith in
        elim (Bool-cases (version == version1)) [
          | inl q ↦ rw q (
              attempt-Leaves IsTypedNpdu IsByte _ _ _ _ h1 (read_byte-Gives b i) λ control b' kc j.
                read_destination-Leaves control (with_control control n1) b'
                  (ground (arith, bit_and-3 control kc)) j)
          | inr q ↦ rw q h1
        ]

pub record IsTypedBvlc (v : Bvlc) : Type 0 where
  pub type_fits : IsByte v.bvlc_type
  pub function_fits : IsByte v.function
  pub npdu_fits : IsTypedNpdu v.npdu

read_packet-Leaves :
    (v : Bvlc) (len : ℕ) (b : Buffer)
    → IsTypedBvlc v
    → IsBytes b
    → Leaves IsTypedBvlc (read_packet v len b)
unfolding read_packet
read_packet-Leaves v len b h i = elim (Bool-cases ((length b.rest + 4) == len)) [
  | inl q ↦ rw q (go _ (unmarshal_npdu-IsTyped v.npdu b.rest h.npdu_fits i.1))
  | inr q ↦ rw q h
]
  where
    go :
        (r : Left Npdu)
        → Leaves IsTypedNpdu r
        → Leaves IsTypedBvlc (do (n, e) ← r; returns (record v { npdu = n }, e))
    go panics k = tt
    go (returns (n, e)) k = ground arith

-- `UnmarshalBinary` of a BACnet/IP frame, whatever the bytes are, leaves in a receiver whose fields
-- are in the range of their types fields that are, unless it panics: in the frame, the network
-- packet, the application packet and its payload. The priority has two bits, object identifiers are
-- ones that BACnet allows, and the payload is never a WriteProperty.
pub unmarshal_bvlc-IsTyped :
    (v : Bvlc) (bytes : List ℕ)
    → IsTypedBvlc v
    → All IsByte bytes
    → Leaves IsTypedBvlc (unmarshal_bvlc v bytes)
unfolding unmarshal_bvlc
unmarshal_bvlc-IsTyped v bytes h bs =
    attempt-Leaves IsTypedBvlc IsByte _ _ _ _ h (read_byte-Gives (new_buffer bytes) (tt, bs))
      λ t b k i.
        let v1 : Bvlc = record v { bvlc_type = t } in
        let h1 : IsTypedBvlc v1 = ground arith in
        elim (Bool-cases (t == type_bacnet_ip)) [
          | inl q ↦ rw q (
              attempt-Leaves IsTypedBvlc IsByte _ _ _ _ h1 (read_byte-Gives b i) λ f b1 kf i1.
                attempt-Leaves IsTypedBvlc IsU16 _ _ _ _ h1 (read_uint_two-Gives b1 i1)
                  λ len b2 kl i2.
                    read_packet-Leaves (record v1 { function = f }) len b2 (ground arith) i2)
          | inr q ↦ rw q h1
        ]
