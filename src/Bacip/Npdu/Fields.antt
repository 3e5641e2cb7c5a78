-- ===== src/Bacip/Npdu/Fields.antt =====
-- The fields of a network packet, each read back as it was written.
use baetyl_bacnet.Common.{
  ℕ, ◌/◌, ◌%◌, ◌<◌, ◌≤◌, ◌≡◌, refl, List, [], ◌∷◌, ◌++◌, Option, none, some, arith, Bool, true, ◌∙◌,
  sym, String, ltb, bit_and, length, if◌then◌else◌, rev_onto, subst, ap,
}
use baetyl_bacnet.Common.Bits.{bit_and-8, bit_and-4, bit_and-32, bit_and-128, bit_and-3}
use baetyl_bacnet.Common.Go.{ok}
use baetyl_bacnet.Bacnet.Address.{Address}
use baetyl_bacnet.Encoding.Bytes.{IsU16}
use baetyl_bacnet.Encoding.Buffer.{
  Buffer, reading, read_uint_one, read_uint_two, read_full, read_full-append,
}
use baetyl_bacnet.Bacip.Apdu.{Left}
use baetyl_bacnet.Bacip.Npdu.{
  Npdu, control_byte, is_remote, is_some, address_bytes, read_address, read_destination,
  read_source, read_hops, read_body,
}

-- An address of another network: its `mac` field is not sent.
pub record IsRemote (a : Address) : Type 0 where
  pub net_pos : 0 < a.net
  pub net_fits : IsU16 a.net
  pub adr_fits : length a.adr < 256
  pub mac_empty : a.mac ≡ []

abbrev pub IsRemoteIfAny : Option Address → Type 0
IsRemoteIfAny none = Unit {0}
IsRemoteIfAny (some a) = IsRemote a

control_byte-lt : (n : Npdu) → n.priority ≤ 3 → control_byte n < 256
unfolding control_byte
control_byte-lt n h = ground arith

-- The hop count is sent with a destination only.
abbrev pub HopsFit : Option Address → ℕ → Type 0
HopsFit none h = h ≡ 0
HopsFit (some a) h = Unit {0}

-- The bits of the control byte.
pub control_bits :
    (n : Npdu)
    → n.priority ≤ 3
    → (ltb 0 (bit_and (control_byte n) 128) ≡ n.is_network_layer_message)
      × (ltb 0 (bit_and (control_byte n) 4) ≡ n.expecting_reply)
      × (bit_and (control_byte n) 3 ≡ n.priority)
      × (ltb 0 (bit_and (control_byte n) 32) ≡ is_remote n.destination)
      × (ltb 0 (bit_and (control_byte n) 8) ≡ is_remote n.source)
unfolding control_byte
control_bits n h =
    let low : control_byte n < 256 = control_byte-lt n h in
    (
      ground (arith, bit_and-128 (control_byte n)),
      ground (arith, bit_and-4 (control_byte n)),
      ground (arith, bit_and-3 (control_byte n)),
      ground (arith, bit_and-32 (control_byte n)),
      ground (arith, bit_and-8 (control_byte n)),
    )

read_full-any :
    (xs back rest : List ℕ) (u : Bool)
    → (b : Buffer) × (read_full (length xs) (reading back (xs ++ rest) u) ≡ (ok xs, b))
      × (b.rest ≡ rest)
read_full-any [] back rest u = (reading back rest u, unfold read_full in refl, refl)
read_full-any (x ∷ xs) back rest u =
    (reading (rev_onto (x ∷ xs) back) rest true, read_full-append x xs back rest u, refl)

read_address-at :
    (s t : String) (put : Address → Npdu) (k : Npdu → Buffer → Left Npdu) (a : Address)
    (back rest : List ℕ) (u : Bool)
    → IsRemote a
    → (b : Buffer) × (read_address s t put (reading back (address_bytes (some a) ++ rest) u) k
        ≡ k (put a) b)
      × (b.rest ≡ rest)
unfolding read_address
read_address-at s t put k a back rest u h =
    let (b, e, r) =
      read_full-any a.adr ((length a.adr % 256) ∷ (a.net % 256) ∷ (a.net / 256 % 256) ∷ back) rest
        true in
    (
      b,
      ground (
        arith,
        e,
        read_uint_two (a.net / 256 % 256) (a.net % 256) back
            ((length a.adr % 256) ∷ (a.adr ++ rest)) u,
        read_uint_one (length a.adr % 256) ((a.net % 256) ∷ (a.net / 256 % 256) ∷ back)
            (a.adr ++ rest) true,
      ),
      r,
    )

pub is_remote_lem : (a : Address) → IsRemote a → is_remote (some a) ≡ true
is_remote_lem a h = ground arith

pub read_destination-at :
    (control : ℕ) (n : Npdu) (d : Option Address) (b : Buffer) (rest : List ℕ)
    → IsRemoteIfAny d
    → ltb 0 (bit_and control 32) ≡ is_remote d
    → b.rest ≡ address_bytes d ++ rest
    → (b' : Buffer) × (read_destination control (record n { destination = none }) b
        ≡ read_source control (record n { destination = d }) b')
      × (b'.rest ≡ rest)
read_destination-at control n none b rest h c e = (b, unfold read_destination in rw c, e)
read_destination-at control n (some a) b rest h c e =
    let (b', p, r) =
      read_address-at "read NPDU dest Address.Net" "read NPDU dest Address.Len"
        (λ x. record n { destination = some x }) (read_source control) a b.back rest b.can_unread
        h in
    (
      b',
      subst
          (λ bytes.
            read_destination control (record n { destination = none })
              (reading b.back bytes b.can_unread)
            ≡ read_source control (record n { destination = some a }) b')
          (sym e) (unfold read_destination in rw (c ∙ is_remote_lem a h) p),
      r,
    )

pub read_source-at :
    (control : ℕ) (n : Npdu) (d : Option Address) (b : Buffer) (rest : List ℕ)
    → IsRemoteIfAny d
    → ltb 0 (bit_and control 8) ≡ is_remote d
    → b.rest ≡ address_bytes d ++ rest
    → (b' : Buffer) × (read_source control (record n { source = none }) b
        ≡ read_hops (record n { source = d }) b')
      × (b'.rest ≡ rest)
read_source-at control n none b rest h c e = (b, unfold read_source in rw c, e)
read_source-at control n (some a) b rest h c e =
    let (b', p, r) =
      read_address-at "read NPDU src Address.Net" "read NPDU src Address.Len"
        (λ x. record n { source = some x }) read_hops a b.back rest b.can_unread h in
    (
      b',
      subst
          (λ bytes.
            read_source control (record n { source = none }) (reading b.back bytes b.can_unread)
            ≡ read_hops (record n { source = some a }) b')
          (sym e) (unfold read_source in rw (c ∙ is_remote_lem a h) p),
      r,
    )

pub read_hops-at :
    (n : Npdu) (d : Option Address) (b : Buffer) (rest : List ℕ)
    → n.destination ≡ d
    → IsRemoteIfAny d
    → HopsFit d n.hop_count
    → b.rest ≡ (if is_remote d then n.hop_count ∷ [] else []) ++ rest
    → (b' : Buffer) × (read_hops (record n { hop_count = 0 }) b ≡ read_body n b') × (b'.rest ≡ rest)
read_hops-at n none b rest p h f e = (
  b,
  unfold read_hops in
      rw (ap is_some p) (ap (λ (k : ℕ). read_body (record n { hop_count = k }) b) (sym f)),
  e,
)
read_hops-at n (some a) b rest p h f e =
    let e' : b.rest ≡ n.hop_count ∷ rest = e ∙ rw (is_remote_lem a h) in
    (
      reading (n.hop_count ∷ b.back) rest true,
      subst
          (λ bytes.
            read_hops (record n { hop_count = 0 }) (reading b.back bytes b.can_unread)
            ≡ read_body n (reading (n.hop_count ∷ b.back) rest true))
          (sym e') (unfold read_hops in rw (ap is_some p, read_uint_one)),
      refl,
    )
