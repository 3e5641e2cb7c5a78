-- ===== src/Encoding/Tag/RoundTrip.antt =====
-- `decodeTag` reads back what `encodeTag` writes.
use baetyl_bacnet.Common.{
  ℕ, ◌+◌, ◌*◌, ◌%◌, ◌≡◌, ◌<◌, Bool, true, false, List, [], ◌++◌, arith, leb, length, if◌then◌else◌,
  rev_onto, append_assoc, length-append, rev_onto-append, ◌∙◌,
}
use native.Mathlib.Nat.{add-zero}
use baetyl_bacnet.Common.Bits.{bit_and-8, bit_and-7, bit_and-0xf0}
use baetyl_bacnet.Common.Go.{ok}
use baetyl_bacnet.Encoding.Bytes.{IsByte, IsU32}
use baetyl_bacnet.Encoding.Buffer.{reading, read_byte, read_uint}
use baetyl_bacnet.Encoding.Tag.{
  Tag, tag_meta, tag_value, plain_tag, opening_tag, closing_tag, encode_tag, tag_bytes, decode_tag,
  decode_number, decode_value, decode_rest, decode_wide,
}
use baetyl_bacnet.Encoding.Tag.Shape.{
  flag, low_value, low_value-lt, head_of, tag_head_lem, tag_meta_plain, tag_meta_opening,
  tag_meta_closing,
}

-- The first byte that `encode_tag` makes of a tag number and a low nibble.
abbrev first_of : ℕ → ℕ → ℕ
first_of id m = if leb id 14 then id * 16 + m else 240 + m

decode_number_head :
    (id m : ℕ) (back rest : List ℕ) (u : Bool)
    → IsByte id
    → m < 16
    → decode_tag (reading back (head_of id m ++ rest) u)
      ≡ decode_rest
          (first_of id m)
          (length (head_of id m))
          id
          (reading (rev_onto (head_of id m) back) rest true)
unfolding decode_tag decode_number read_byte
decode_number_head id m back rest u hi hm =
    ground (arith, bit_and-0xf0 (id * 16 + m), bit_and-0xf0 (240 + m))

decode_value-tag_value :
    (v first : ℕ) (back rest : List ℕ)
    → IsU32 v
    → IsByte first
    → first % 8 ≡ low_value v
    → decode_value first (reading back (tag_value v ++ rest) true)
      ≡ (ok (length (tag_value v), v), reading (rev_onto (tag_value v) back) rest true)
unfolding decode_value decode_wide tag_value read_byte read_uint
decode_value-tag_value v first back rest hv hf e = ground (arith, bit_and-7 first)

first_of_bits : (id m : ℕ) → IsByte id → m < 16 → IsByte (first_of id m) × (first_of id m % 16 ≡ m)
first_of_bits id m hi hm = ground arith

decode_rest_opening :
    (first count id : ℕ) (c : Bool) (back rest : List ℕ) (u : Bool)
    → IsByte first
    → first % 16 ≡ flag c + 6
    → decode_rest first count id (reading back rest u)
      ≡ (ok (count, opening_tag id c), reading back rest u)
unfolding decode_rest
decode_rest_opening first count id true back rest u h e =
    ground (arith, bit_and-7 first, bit_and-8 first)
decode_rest_opening first count id false back rest u h e =
    ground (arith, bit_and-7 first, bit_and-8 first)

decode_rest_closing :
    (first count id : ℕ) (c : Bool) (back rest : List ℕ) (u : Bool)
    → IsByte first
    → first % 16 ≡ flag c + 7
    → decode_rest first count id (reading back rest u)
      ≡ (ok (count, closing_tag id c), reading back rest u)
unfolding decode_rest
decode_rest_closing first count id true back rest u h e =
    ground (arith, bit_and-7 first, bit_and-8 first)
decode_rest_closing first count id false back rest u h e =
    ground (arith, bit_and-7 first, bit_and-8 first)

decode_rest_plain :
    (first count id v : ℕ) (c : Bool) (back rest : List ℕ)
    → IsU32 v
    → IsByte first
    → first % 16 ≡ flag c + low_value v
    → decode_rest first count id (reading back (tag_value v ++ rest) true) ≡ (
      ok (count + length (tag_value v), plain_tag id c v),
      reading (rev_onto (tag_value v) back) rest true,
    )
unfolding decode_rest
decode_rest_plain first count id v true back rest hv hf e = ground (
  arith,
  bit_and-7 first,
  bit_and-8 first,
  low_value-lt v,
  decode_value-tag_value v first back rest,
)
decode_rest_plain first count id v false back rest hv hf e = ground (
  arith,
  bit_and-7 first,
  bit_and-8 first,
  low_value-lt v,
  decode_value-tag_value v first back rest,
)

-- The tags of the protocol: a plain one, or one that opens or closes a value and has none itself.
pub data IsWireTag : Tag → Type 0 where
  plain : (id v : ℕ) (c : Bool) → IsByte id → IsU32 v → IsWireTag (plain_tag id c v)
  opens : (id : ℕ) (c : Bool) → IsByte id → IsWireTag (opening_tag id c)
  closes : (id : ℕ) (c : Bool) → IsByte id → IsWireTag (closing_tag id c)

flag_lt : (c : Bool) (m : ℕ) → m < 8 → flag c + m < 16
flag_lt true m h = omega arith
flag_lt false m h = omega arith

module _ (back rest : List ℕ) (u : Bool) where
  decodes :
      (t : Tag) (m : ℕ)
      → tag_meta t ≡ m
      → m < 16
      → IsByte t.id
      → ((first count : ℕ) (back' : List ℕ)
          → IsByte first
          → first % 16 ≡ m
          → decode_rest first count t.id (reading back' (tag_value t.value ++ rest) true) ≡ (
            ok (count + length (tag_value t.value), t),
            reading (rev_onto (tag_value t.value) back') rest true,
          ))
      → decode_tag (reading back (tag_bytes t ++ rest) u)
        ≡ (ok (length (tag_bytes t), t), reading (rev_onto (tag_bytes t) back) rest true)
  unfolding tag_bytes
  decodes t m e h hi step =
      let head : List ℕ = head_of t.id m in
      let (hb, hm) = first_of_bits t.id m hi h in
      rw
        (
          tag_head_lem t m e h,
          append_assoc head (tag_value t.value) rest,
          length-append head (tag_value t.value),
          rev_onto-append head (tag_value t.value) back,
        )
        (decode_number_head t.id m back (tag_value t.value ++ rest) u hi h
          ∙ step (first_of t.id m) (length head) (rev_onto head back) hb hm)

  -- `decodeTag` on what `encodeTag` wrote for a tag of the protocol, with any bytes behind it,
  -- returns the tag and the number of bytes written, and leaves the bytes behind it.
  pub decode_tag-encode_tag :
      (t : Tag)
      → IsWireTag t
      → decode_tag (reading back (encode_tag [] t ++ rest) u)
        ≡ (ok (length (encode_tag [] t), t), reading (rev_onto (encode_tag [] t) back) rest true)
  unfolding tag_value
  decode_tag-encode_tag _ (plain id v c hi hv) =
      decodes (plain_tag id c v) (flag c + low_value v) (tag_meta_plain id v c)
        (flag_lt c (low_value v) (omega (arith, low_value-lt v))) hi
        (λ first count back' hb hm. decode_rest_plain first count id v c back' rest hv hb hm)
  decode_tag-encode_tag _ (opens id c hi) =
      decodes (opening_tag id c) (flag c + 6) (tag_meta_opening id c) (flag_lt c 6 (omega arith)) hi
        (λ first count back' hb hm.
          rw add-zero (decode_rest_opening first count id c back' rest true hb hm))
  decode_tag-encode_tag _ (closes id c hi) =
      decodes (closing_tag id c) (flag c + 7) (tag_meta_closing id c) (flag_lt c 7 (omega arith)) hi
        (λ first count back' hb hm.
          rw add-zero (decode_rest_closing first count id c back' rest true hb hm))
