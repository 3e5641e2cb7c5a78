-- ===== src/Encoding/RoundTrip/Unsigned.antt =====
-- The shortest form of a uint32 is read back by its length.
use baetyl_bacnet.Common.{
  ℕ, ◌<◌, ◌≤◌, ◌≡◌, Bool, true, List, [], ◌∷◌, ◌++◌, arith, length, rev_onto, All,
}
use baetyl_bacnet.Common.Go.{ok}
use baetyl_bacnet.Encoding.Bytes.{IsByte, IsU32, uint32_bytes, big_endian}
use baetyl_bacnet.Encoding.Buffer.{reading, read_byte, read_uint}
use baetyl_bacnet.Encoding.Encoder.Unsigned.{value_length, unsigned_bytes}
use baetyl_bacnet.Encoding.Decoder.{decode_unsigned_with_len}

pub read_uint32 :
    (v : ℕ) (back rest : List ℕ) (u : Bool)
    → IsU32 v
    → read_uint 4 (reading back (uint32_bytes v ++ rest) u)
      ≡ (ok v, reading (rev_onto (uint32_bytes v) back) rest true)
unfolding read_uint
read_uint32 v back rest u h = ground arith

-- `decodeUnsignedWithLen` reads back a number from the bytes that the encoder writes for it, given
-- the length that it announces, and leaves what follows.
pub decode-unsigned_bytes :
    (v : ℕ) (back rest : List ℕ) (u : Bool)
    → IsU32 v
    → decode_unsigned_with_len (value_length v) (reading back (unsigned_bytes v ++ rest) u)
      ≡ (ok v, reading (rev_onto (unsigned_bytes v) back) rest true)
unfolding decode_unsigned_with_len value_length unsigned_bytes read_uint read_byte
decode-unsigned_bytes v back rest u h = ground arith

-- The encoder writes the shortest form of a number: no bytes that stand for it, big-endian, are
-- fewer.
pub unsigned_bytes_shortest :
    (v : ℕ) (bytes : List ℕ)
    → All IsByte bytes
    → 0 < length bytes
    → big_endian bytes ≡ v
    → length (unsigned_bytes v) ≤ length bytes
unfolding unsigned_bytes
unsigned_bytes_shortest v [] h n e = absurd (omega arith)
unsigned_bytes_shortest v (a ∷ []) h n e = ground arith
unsigned_bytes_shortest v (a ∷ b ∷ []) h n e = ground arith
unsigned_bytes_shortest v (a ∷ b ∷ c ∷ []) h n e = ground arith
unsigned_bytes_shortest v (a ∷ b ∷ c ∷ d ∷ rest) h n e = ground arith
