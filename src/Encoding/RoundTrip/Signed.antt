-- ===== src/Encoding/RoundTrip/Signed.antt =====
-- What ContextSigned writes.
use baetyl_bacnet.Common.{
  ℕ, suc, ◌+◌, ◌-◌, ◌^◌, ◌<◌, ◌≤◌, ◌≡◌, ◌≢◌, List, [], ◌∷◌, ◌++◌, none, true, append_assoc, arith,
  length, All, leb, if◌then◌else◌, refl,
}
use baetyl_bacnet.Encoding.Bytes.{IsByte, IsU32, big_endian}
use baetyl_bacnet.Encoding.Tag.{plain_tag, tag_bytes}
use baetyl_bacnet.Encoding.Encoder.{Encoder, signed_length, signed_bytes, context_signed}

-- The pattern of the int32 that bytes stand for as two's complement: a first byte from 128 on is the
-- sign of a negative number.
abbrev pub twos_complement : List ℕ → ℕ
twos_complement [] = 0
twos_complement (a ∷ rest) =
    big_endian (a ∷ rest) + (if leb 128 a then 4294967296 - 256 ^ suc (length rest) else 0)

twos_complement-signed_bytes : (v : ℕ) → IsU32 v → twos_complement (signed_bytes v) ≡ v
unfolding signed_bytes
twos_complement-signed_bytes v h = ground arith

length-signed_bytes : (v : ℕ) → length (signed_bytes v) ≡ signed_length v
unfolding signed_bytes signed_length
length-signed_bytes v = ground arith

-- ContextSigned of an int32, for an encoder without an error, writes a tag of the number that counts
-- the bytes behind it, and these bytes are the number in two's complement.
pub context_signed-twos_complement :
    (e : Encoder) (k v : ℕ)
    → e.failure ≡ none
    → IsU32 v
    → (bytes : List ℕ) × ((context_signed e k v).buf
        ≡ e.buf ++ (tag_bytes (plain_tag k true (length bytes)) ++ bytes))
      × ((context_signed e k v).failure ≡ none)
      × (twos_complement bytes ≡ v)
unfolding context_signed
context_signed-twos_complement e k v f h = (
  signed_bytes v,
  ground (
    arith,
    f,
    length-signed_bytes v,
    append_assoc e.buf (tag_bytes (plain_tag k true (signed_length v))) (signed_bytes v),
  ),
  ground (arith, f),
  twos_complement-signed_bytes v h,
)

-- The bytes of an int32 other than -8388608, which is the pattern 2 ^ 32 - 2 ^ 23, are the fewest that
-- stand for it in two's complement. For -8388608 they are four, where three are enough.
pub signed_bytes_shortest :
    (v : ℕ) (bytes : List ℕ)
    → All IsByte bytes
    → 0 < length bytes
    → twos_complement bytes ≡ v
    → v ≢ 4286578688
    → (length (signed_bytes v) ≤ length bytes)
      × (length (signed_bytes 4286578688) ≡ 4)
      × (twos_complement (0x80 ∷ 0 ∷ 0 ∷ []) ≡ 4286578688)
unfolding signed_bytes
signed_bytes_shortest v [] h n e x = absurd (omega arith)
signed_bytes_shortest v (a ∷ []) h n e x = (ground arith, refl, refl)
signed_bytes_shortest v (a ∷ b ∷ []) h n e x = (ground arith, refl, refl)
signed_bytes_shortest v (a ∷ b ∷ c ∷ []) h n e x = (ground arith, refl, refl)
signed_bytes_shortest v (a ∷ b ∷ c ∷ d ∷ rest) h n e x = (ground arith, refl, refl)
