-- ===== src/Bacip/Client/Decoded.antt =====
-- A frame that is decoded without an error carries the payload that its service names.
use baetyl_bacnet.Common.{
  ℕ, ◌+◌, ◌≤◌, ◌≡◌, refl, List, [], ◌∷◌, All, Option-cases, length, Option, none, some, Bool, true,
  String, ◌==◌, ltb, bit_and, ◌⊎◌, inl, inr, Bool-cases, arith, if◌then◌else◌,
}
use baetyl_bacnet.Common.Go.{Error, Result, ok, err, returns, panics}
use baetyl_bacnet.Bacnet.Address.{Address}
use baetyl_bacnet.Encoding.Buffer.{Buffer, new_buffer, read_byte, read_uint, read_full}
use baetyl_bacnet.Bacip.Services.{WhoIs, Iam}
use baetyl_bacnet.Bacip.Apdu.{Apdu, new_apdu, Left, attempt, unmarshal_apdu}
use baetyl_bacnet.Bacip.Npdu.{
  Npdu, new_npdu, version1, unmarshal_npdu, read_destination, read_source, read_address, read_hops,
  read_body, read_vendor, is_some, with_control,
}
use baetyl_bacnet.Bacip.Bvlc.{Bvlc, new_bvlc, type_bacnet_ip, unmarshal_bvlc, read_packet}
use baetyl_bacnet.Bacip.Client.Collect.{Packet, is_iam, lookup, collect}
use baetyl_bacnet.Bacip.Client.Discovery.{
  has_iam, decoded-has_iam, is_well_typed, latest, entries, collect-latest,
}

-- What follows an attempt that went through.
attempt_passed :
    {A B : Type 0} (left x : A) (s : String) (r : Result B × Buffer) (k : B → Buffer → Left A)
    → attempt left s r k ≡ returns (x, none)
    → (v : B) × (b : Buffer) × (k v b ≡ returns (x, none))
attempt_passed left x s (ok v, b) k h = (v, b, h)
attempt_passed left x s (err e, b) k h = absurd (ground arith)

unmarshalled :
    {A : Type 0} (r : Left A) → (r ≡ panics) ⊎ ((a : A) × (e : Option Error) × (r ≡ returns (a, e)))
unmarshalled panics = inl refl
unmarshalled (returns (a, e)) = inr (a, e, refl)

abbrev typed : Option Apdu → Bool
typed none = true
typed (some a) = if is_iam a then has_iam a else true

-- The receiver as a read without an error leaves it.
abbrev Keeps : (Npdu → Buffer → Left Npdu) → Type 0
Keeps f =
    (n x : Npdu) (b : Buffer) → n.adpu ≡ none → f n b ≡ returns (x, none) → typed x.adpu ≡ true

apdu-typed :
    (a : Apdu) (bytes : List ℕ)
    → unmarshal_apdu new_apdu bytes ≡ returns (a, none)
    → typed (some a) ≡ true
apdu-typed a bytes h = ground (arith, decoded-has_iam a bytes h)

read_body-Keeps : Keeps read_body
unfolding read_body read_vendor
read_body-Keeps n x b z h = elim (unmarshalled (unmarshal_apdu new_apdu b.rest)) [
  | inl q ↦ ground (arith, q)
  | inr (a, e, q) ↦ ground (arith, q, apdu-typed a b.rest)
]

read_hops-Keeps : Keeps read_hops
unfolding read_hops
read_hops-Keeps n x b z h = elim (Bool-cases (is_some n.destination)) [
  | inl q ↦
      let (hops, b', e) =
        attempt_passed n x "read NPDU HopCount" (read_uint 1 b)
          (λ v b'. read_body (record n { hop_count = v }) b') (rw q at h) in
      read_body-Keeps (record n { hop_count = hops }) x b' z e
  | inr q ↦ read_body-Keeps n x b z (rw q at h)
]

-- An address is read into a packet that has no application packet yet.
read_address-Keeps :
    (s t : String) (put : Address → Npdu) (f : Npdu → Buffer → Left Npdu)
    → Keeps f
    → ((a : Address) → (put a).adpu ≡ none)
    → (x : Npdu) (b : Buffer) → read_address s t put b f ≡ returns (x, none)
    → typed x.adpu ≡ true
unfolding read_address
read_address-Keeps s t put f keeps bare x b h =
    let (net, b1, h1) = attempt_passed _ x s (read_uint 2 b) _ h in
    let (len, b2, h2) = attempt_passed _ x t (read_uint 1 b1) _ h1 in
    let (adr, b3, h3) = attempt_passed _ x s (read_full len b2) _ h2 in
    keeps (put (record { mac = []; net = net; adr = adr })) x b3 (bare _) h3

read_source-Keeps : (control : ℕ) → Keeps (read_source control)
unfolding read_source
read_source-Keeps control n x b z h = elim (Bool-cases (ltb 0 (bit_and control 8))) [
  | inl q ↦
      read_address-Keeps "read NPDU src Address.Net" "read NPDU src Address.Len"
        (λ a. record n { source = some a }) read_hops read_hops-Keeps (λ a. z) x b (rw q at h)
  | inr q ↦ read_hops-Keeps n x b z (rw q at h)
]

read_destination-Keeps : (control : ℕ) → Keeps (read_destination control)
unfolding read_destination
read_destination-Keeps control n x b z h = elim (Bool-cases (ltb 0 (bit_and control 32))) [
  | inl q ↦
      read_address-Keeps "read NPDU dest Address.Net" "read NPDU dest Address.Len"
        (λ a. record n { destination = some a }) (read_source control) (read_source-Keeps control)
        (λ a. z) x b (rw q at h)
  | inr q ↦ read_source-Keeps control n x b z (rw q at h)
]

unmarshal_npdu-typed :
    (x : Npdu) (bytes : List ℕ)
    → unmarshal_npdu new_npdu bytes ≡ returns (x, none)
    → typed x.adpu ≡ true
unfolding unmarshal_npdu
unmarshal_npdu-typed x bytes h =
    let (version, b, h1) =
      attempt_passed new_npdu x "read NPDU version" (read_uint 1 (new_buffer bytes)) _ h in
    elim (Bool-cases (version == version1)) [
      | inl q ↦
          let (control, b', h2) =
            attempt_passed _ x "read NPDU control byte" (read_byte b) _ (rw q at h1) in
          read_destination-Keeps control
            (with_control control (record new_npdu { version = version })) x b' refl h2
      | inr q ↦ absurd (ground (arith, q))
    ]

packet_typed :
    (v v0 : Bvlc) (len : ℕ) (b : Buffer)
    → v0.npdu ≡ new_npdu
    → read_packet v0 len b ≡ returns (v, none)
    → typed v.npdu.adpu ≡ true
unfolding read_packet
packet_typed v v0 len b z h = elim (Bool-cases ((length b.rest + 4) == len)) [
  | inl q ↦ elim (unmarshalled (unmarshal_npdu v0.npdu b.rest)) [
    | inl u ↦ absurd (ground (arith, q, u))
    | inr (x, e, u) ↦ ground (arith, q, u, z, unmarshal_npdu-typed x b.rest)
  ]
  | inr q ↦ absurd (ground (arith, q))
]

unmarshal_bvlc-typed :
    (v : Bvlc) (bytes : List ℕ)
    → unmarshal_bvlc new_bvlc bytes ≡ returns (v, none)
    → typed v.npdu.adpu ≡ true
unfolding unmarshal_bvlc
unmarshal_bvlc-typed v bytes h =
    let (t, b, h1) =
      attempt_passed new_bvlc v "read bvlc type" (read_byte (new_buffer bytes)) _ h in
    elim (Bool-cases (t == type_bacnet_ip)) [
      | inl q ↦
          let (f, b1, h2) = attempt_passed _ v "read bvlc func" (read_byte b) _ (rw q at h1) in
          let (len, b2, h3) = attempt_passed _ v "read bvlc length" (read_uint 2 b1) _ h2 in
          packet_typed v _ len b2 refl h3
      | inr q ↦ absurd (ground (arith, q))
    ]

-- The packets that `UnmarshalBinary` decoded without an error.
abbrev pub IsDecoded : Packet → Type 0
IsDecoded p = (bytes : List ℕ) × (unmarshal_bvlc new_bvlc bytes ≡ returns (p.bvlc, none))

IsDecoded-is_well_typed : (p : Packet) → IsDecoded p → is_well_typed p ≡ true
unfolding is_well_typed
IsDecoded-is_well_typed p (bytes, h) = elim (Option-cases p.bvlc.npdu.adpu) [
  | inl q ↦ ground (arith, q)
  | inr (a, q) ↦ ground (arith, q, unmarshal_bvlc-typed p.bvlc bytes h)
]

All-is_well_typed : (ps : List Packet) → All IsDecoded ps → All (λ p. is_well_typed p ≡ true) ps
All-is_well_typed [] h = tt
All-is_well_typed (p ∷ ps) (h, hs) = (IsDecoded-is_well_typed p h, All-is_well_typed ps hs)

-- If every packet that arrives is decoded without an error, whatever it is, `WhoIs` ends without
-- an error, and its set has each I-Am, all of whose fields count, exactly once if one arrived and
-- its instance is in the range asked for, at the address of the last packet with the same fields,
-- and has no other: a device that announces itself again with other fields is a further entry.
pub collect-IsDecoded :
    (w : WhoIs) (ps : List Packet) (i : Iam)
    → All IsDecoded ps
    → (out : List (Iam × Address)) × (collect w [] ps ≡ ok out)
      × (lookup i out ≡ latest w i ps none)
      × (entries i out ≤ 1)
collect-IsDecoded w ps i h = collect-latest w ps i (All-is_well_typed ps h)
