-- ===== src/Bacip/Npdu/RoundTrip.antt =====
-- A network packet is read back as it was written.
use baetyl_bacnet.Common.{
  ℕ, ◌/◌, ◌%◌, ◌<◌, ◌≤◌, ◌≡◌, ◌⊎◌, inl, inr, refl, List, [], ◌∷◌, ◌++◌, Option, none, some, arith,
  Bool, true, false, ◌∙◌, ap, sym, append_assoc, append-nil,
}
use baetyl_bacnet.Common.Go.{ok, returns}
use baetyl_bacnet.Encoding.Bytes.{IsU16, uint16_bytes}
use baetyl_bacnet.Encoding.Buffer.{
  Buffer, reading, read_byte, read_uint, read_uint_one, read_uint_two,
}
use baetyl_bacnet.Bacip.Apdu.{Apdu, new_apdu, unmarshal_apdu}
use baetyl_bacnet.Bacip.Apdu.RoundTrip.{IsReadable, unmarshal_apdu-marshal_apdu}
use baetyl_bacnet.Bacip.Npdu.{
  Npdu, new_npdu, npdu_front, control_byte, address_bytes, hop_bytes, network_message_bytes,
  append_apdu, with_control, marshal_npdu, unmarshal_npdu, read_destination, read_body, read_vendor,
}
use baetyl_bacnet.Bacip.Npdu.Fields.{
  IsRemoteIfAny, control_bits, HopsFit, read_hops-at, read_destination-at, read_source-at,
}

-- A network message of a type other than 0x80, with a vendor from there on, or an application packet.
abbrev pub BodyFits : Bool → ℕ → ℕ → Option Apdu → Type 0
BodyFits true t v none = ((t < 128) × (v ≡ 0)) ⊎ ((128 < t) × IsU16 v)
BodyFits true t v (some a) = ⊥
BodyFits false t v none = ⊥
BodyFits false t v (some a) = (t ≡ 0) × (v ≡ 0) × IsReadable a

-- The packets whose version, control byte and addresses are sent as they are.
pub record HasWireHeader (n : Npdu) : Type 0 where
  pub version_one : n.version ≡ 1
  pub priority_fits : n.priority ≤ 3
  pub destination_fits : IsRemoteIfAny n.destination
  pub source_fits : IsRemoteIfAny n.source
  pub hops_fit : HopsFit n.destination n.hop_count

-- The packets whose every field is sent.
pub record IsWireNpdu (n : Npdu) : Type 0 where
  pub header : HasWireHeader n
  pub body_fits : BodyFits n.is_network_layer_message n.network_message_type n.vendor_id n.adpu

-- A packet as far as its body is not read yet.
abbrev before_body : Npdu → Npdu
before_body n = record n { network_message_type = 0; vendor_id = 0; adpu = none }

-- The bytes `tail` behind the front, and what is made of the body.
abbrev BodyTrip : Npdu → Npdu → List ℕ → Type 0
BodyTrip n read tail =
    ((front : List ℕ) → append_apdu front n.adpu ≡ returns (ok (front ++ tail)))
    × ((b : Buffer)
        → b.rest ≡ network_message_bytes n ++ tail
        → read_body (before_body n) b ≡ returns (read, none))

network_trip :
    (n : Npdu)
    → n.is_network_layer_message ≡ true
    → n.adpu ≡ none
    → ((n.network_message_type < 128) × (n.vendor_id ≡ 0))
      ⊎ ((128 < n.network_message_type) × IsU16 n.vendor_id)
    → BodyTrip n n []
unfolding read_body read_vendor
network_trip n net lone (inl (t, v)) = (
  (λ front. ground (arith, append-nil front)),
  λ b e.
      let e' : b.rest ≡ n.network_message_type ∷ [] = ground arith in
      ground (
        arith,
        ap (λ (r : List ℕ). read_uint 1 (reading b.back r b.can_unread)) e',
        read_uint_one n.network_message_type b.back [] b.can_unread,
      ),
)
network_trip n net lone (inr (t, v)) = (
  (λ front. ground (arith, append-nil front)),
  λ b e.
      let e' : b.rest ≡ n.network_message_type ∷ uint16_bytes n.vendor_id = ground arith in
      ground (
        arith,
        ap (λ (r : List ℕ). read_uint 1 (reading b.back r b.can_unread)) e',
        read_uint_one n.network_message_type b.back (uint16_bytes n.vendor_id) b.can_unread,
        read_uint_two (n.vendor_id / 256 % 256) (n.vendor_id % 256)
            (n.network_message_type ∷ b.back) [] true,
      ),
)

apdu_trip :
    (n : Npdu) (a : Apdu)
    → n.is_network_layer_message ≡ false
    → n.adpu ≡ some a
    → n.network_message_type ≡ 0
    → n.vendor_id ≡ 0
    → IsReadable a
    → (tail : List ℕ) × BodyTrip n n tail
unfolding read_body
apdu_trip n a net is t v h =
    let (bytes, m, u) = unmarshal_apdu-marshal_apdu a h in
    (
      bytes,
      (
        (λ front. ground (arith, m)),
        λ b e.
            let e' : b.rest ≡ bytes = e ∙ rw net in
            ground (arith, ap (unmarshal_apdu new_apdu) e', u),
      ),
    )

body_trip :
    (n : Npdu) (net : Bool) (adpu : Option Apdu)
    → n.is_network_layer_message ≡ net
    → n.adpu ≡ adpu
    → BodyFits net n.network_message_type n.vendor_id adpu
    → (tail : List ℕ) × BodyTrip n n tail
body_trip n true none p q f = ([], network_trip n p q f)
body_trip n true (some a) p q f = absurd f
body_trip n false none p q f = absurd f
body_trip n false (some a) p q (t, v, h) = apdu_trip n a p q t v h

-- What the version and the control byte leave to be filled.
abbrev bare : Npdu → Npdu
bare n = record (before_body n) { destination = none; source = none; hop_count = 0 }

abbrev behind_control : Npdu → List ℕ
behind_control n =
    address_bytes n.destination
    ++ (address_bytes n.source ++ (hop_bytes n ++ network_message_bytes n))

with_control-bare :
    (n : Npdu)
    → n.priority ≤ 3
    → with_control (control_byte n) (record new_npdu { version = n.version }) ≡ bare n
with_control-bare n h = let (a, b, c, d, e) = control_bits n h in ground (arith, a, b, c)

unmarshal_front :
    (n : Npdu) (tail : List ℕ)
    → n.version ≡ 1
    → n.priority ≤ 3
    → unmarshal_npdu new_npdu (npdu_front n ++ tail)
      ≡ read_destination
          (control_byte n)
          (bare n)
          (reading (control_byte n ∷ n.version ∷ []) (behind_control n ++ tail) true)
unfolding npdu_front unmarshal_npdu read_byte
unmarshal_front n tail v h = ground (
  arith,
  with_control-bare n h,
  read_uint_one n.version [] (control_byte n ∷ (behind_control n ++ tail)) false,
)

-- The whole way, given that of the body.
trip_with_body :
    (n read : Npdu) (tail : List ℕ)
    → HasWireHeader n
    → BodyTrip n read tail
    → (marshal_npdu n ≡ returns (ok (npdu_front n ++ tail)))
      × (unmarshal_npdu new_npdu (npdu_front n ++ tail) ≡ returns (read, none))
trip_with_body n read tail h (m, body) =
    let (x, y, z, cd, cs) = control_bits n h.priority_fits in
    let s : List ℕ = address_bytes n.source in
    let k : List ℕ = network_message_bytes n ++ tail in
    let regroup : behind_control n ++ tail
        ≡ address_bytes n.destination ++ (s ++ (hop_bytes n ++ k)) =
      simp append_assoc in
    let (b1, p1, r1) =
      read_destination-at (control_byte n) (bare n) n.destination
        (reading (control_byte n ∷ n.version ∷ []) (behind_control n ++ tail) true)
        (s ++ (hop_bytes n ++ k)) h.destination_fits cd regroup in
    let (b2, p2, r2) =
      read_source-at (control_byte n) (record (bare n) { destination = n.destination }) n.source b1
        (hop_bytes n ++ k) h.source_fits cs r1 in
    let (b3, p3, r3) =
      read_hops-at (before_body n) n.destination b2 k refl h.destination_fits h.hops_fit r2 in
    (
      unfold marshal_npdu in ground (arith, m (npdu_front n), h.priority_fits),
      unmarshal_front n tail h.version_one h.priority_fits ∙ p1 ∙ p2 ∙ p3 ∙ body b3 r3,
    )

-- NPDU.MarshalBinary succeeds on a packet of version 1, with a priority up to 3, with a
-- destination and a source of another network, if any, with zero in the fields that are not sent,
-- and with a network message of a type other than 0x80, with a vendor above 0x80, or else an
-- application packet that is a Who-Is for all devices or for a range of instances, an I-Am with
-- fields in range, or raw data in a type that is neither a request nor an answer; and
-- UnmarshallBinary into a new receiver gives the same packet from its bytes.
pub unmarshal_npdu-marshal_npdu :
    (n : Npdu)
    → IsWireNpdu n
    → (bytes : List ℕ) × (marshal_npdu n ≡ returns (ok bytes))
      × (unmarshal_npdu new_npdu bytes ≡ returns (n, none))
unmarshal_npdu-marshal_npdu n h =
    let (tail, trip) = body_trip n n.is_network_layer_message n.adpu refl refl h.body_fits in
    let (m, u) = trip_with_body n n tail h.header trip in (npdu_front n ++ tail, m, u)

vendor_trip :
    (n : Npdu)
    → n.is_network_layer_message ≡ true
    → n.adpu ≡ none
    → n.network_message_type ≡ 128
    → BodyTrip n (record n { vendor_id = 0 }) []
unfolding read_body read_vendor
vendor_trip n net lone t = (
  (λ front. ground (arith, append-nil front)),
  λ b e.
      let e' : b.rest ≡ n.network_message_type ∷ uint16_bytes n.vendor_id = ground arith in
      ground (
        arith,
        ap (λ (r : List ℕ). read_uint 1 (reading b.back r b.can_unread)) e',
        read_uint_one n.network_message_type b.back (uint16_bytes n.vendor_id) b.can_unread,
      ),
)

vendor_bytes :
    (n : Npdu)
    → n.is_network_layer_message ≡ true
    → n.network_message_type ≡ 128
    → network_message_bytes n ≡ 128 ∷ uint16_bytes n.vendor_id
vendor_bytes n net t = ground arith

vendor_behind :
    (n : Npdu) (message : List ℕ)
    → network_message_bytes n ≡ message
    → (front : List ℕ) × (npdu_front n ++ [] ≡ front ++ message)
unfolding npdu_front
vendor_behind n message e = (
  n.version
      ∷ (control_byte n ∷ (address_bytes n.destination ++ (address_bytes n.source ++ hop_bytes n))),
  rw e (simp (append_assoc, append-nil)),
)

-- The message type 0x80 is the first that has a vendor: `MarshalBinary` writes the type and the
-- vendor at the end, and `UnmarshallBinary` does not read the vendor, whatever the vendor and the
-- rest of the packet.
pub vendor_id_lost :
    (n : Npdu)
    → HasWireHeader n
    → n.is_network_layer_message ≡ true
    → n.adpu ≡ none
    → n.network_message_type ≡ 128
    → (front : List ℕ) × (marshal_npdu n ≡ returns (ok (front ++ (128 ∷ uint16_bytes n.vendor_id))))
      × (unmarshal_npdu new_npdu (front ++ (128 ∷ uint16_bytes n.vendor_id))
          ≡ returns (record n { vendor_id = 0 }, none))
vendor_id_lost n h net lone t =
    let (m, u) = trip_with_body n (record n { vendor_id = 0 }) [] h (vendor_trip n net lone t) in
    let (front, e) = vendor_behind n (128 ∷ uint16_bytes n.vendor_id) (vendor_bytes n net t) in
    (front, m ∙ ap (λ bytes. returns (ok bytes)) e, ap (unmarshal_npdu new_npdu) (sym e) ∙ u)
