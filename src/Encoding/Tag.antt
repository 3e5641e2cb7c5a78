-- ===== src/Encoding/Tag.antt =====
-- internal/encoding/tag.go: the tag in front of every value, packed into 1 to 7 bytes.
pub mod Shape
pub mod RoundTrip
pub mod Takes
use baetyl_bacnet.Common.{
  ℕ, ◌+◌, ◌*◌, ◌/◌, ◌%◌, ◌≡◌, Bool, true, false, List, [], ◌∷◌, ◌++◌, bit_and, bit_or, leb, ltb,
  ◌==◌, if◌then◌else◌,
}
use baetyl_bacnet.Encoding.Bytes.{uint16_bytes, uint32_bytes}
use baetyl_bacnet.Encoding.Buffer.{Reader, ◌>>=◌, done, wrapping, read_byte, read_uint}

abbrev pub application_null : ℕ
application_null = 0x00

abbrev pub application_boolean : ℕ
application_boolean = 0x01

abbrev pub application_unsigned_int : ℕ
application_unsigned_int = 0x02

abbrev pub application_real : ℕ
application_real = 0x04

abbrev pub application_character_string : ℕ
application_character_string = 0x07

abbrev pub application_enumerated : ℕ
application_enumerated = 0x09

abbrev pub application_object_id : ℕ
application_object_id = 0x0C

abbrev pub flag16bits : ℕ
flag16bits = 0xFE

abbrev pub flag32bits : ℕ
flag32bits = 0xFF

-- `id` is a byte and `value` a uint32.
pub record Tag : Type 0 where
  pub id : ℕ
  pub context : Bool
  pub value : ℕ
  pub opening : Bool
  pub closing : Bool

-- `tag{ID: id, Context: context, Value: value}`, and the zero value at an id.
abbrev pub plain_tag : ℕ → Bool → ℕ → Tag
plain_tag id context value = record {
  id = id;
  context = context;
  value = value;
  opening = false;
  closing = false;
}

abbrev pub opening_tag : ℕ → Bool → Tag
opening_tag id context = record {
  id = id;
  context = context;
  value = 0;
  opening = true;
  closing = false;
}

abbrev pub closing_tag : ℕ → Bool → Tag
closing_tag id context = record {
  id = id;
  context = context;
  value = 0;
  opening = false;
  closing = true;
}

abbrev pub is_extended_tag_number : ℕ → Bool
is_extended_tag_number x = bit_and x 0xF0 == 0xF0

abbrev pub is_extended_value : ℕ → Bool
is_extended_value x = bit_and x 7 == 5

abbrev pub is_opening_tag : ℕ → Bool
is_opening_tag x = bit_and x 7 == 6

abbrev pub is_closing_tag : ℕ → Bool
is_closing_tag x = bit_and x 7 == 7

abbrev pub is_context_specific : ℕ → Bool
is_context_specific x = ltb 0 (bit_and x 8)

-- `tagMeta` before the tag number is joined to it.
unfoldable pub tag_meta : Tag → ℕ
tag_meta t =
    let context = (if t.context then bit_or 0 0x8 else 0) in
    let opening = (if t.opening then bit_or context 0x6 else context) in
    let closing = (if t.closing then bit_or opening 0x7 else opening) in
    bit_or closing (if leb t.value 4 then t.value % 256 else 5)

unfoldable pub tag_head : Tag → List ℕ
unfolding tag_meta
tag_head t =
    if leb t.id 14
    then bit_or (tag_meta t) (t.id * 16 % 256) ∷ []
    else bit_or (tag_meta t) 0xF0 ∷ t.id ∷ []

-- What follows the head of a tag of this value.
unfoldable pub tag_value : ℕ → List ℕ
tag_value v =
    if ltb 4 v
    then (if leb v 253
        then (v % 256) ∷ []
        else if leb v 65535
        then flag16bits ∷ uint16_bytes v
        else flag32bits ∷ uint32_bytes v)
    else []

unfoldable pub tag_bytes : Tag → List ℕ
unfolding tag_head tag_value
tag_bytes t = tag_head t ++ tag_value t.value

-- The bytes are appended to those of the buffer.
abbrev pub encode_tag : List ℕ → Tag → List ℕ
encode_tag buf t = buf ++ tag_bytes t

unfoldable pub decode_number : ℕ → Reader (ℕ × ℕ)
decode_number first =
    if is_extended_tag_number first
    then (do n ← wrapping "read extended tagId" read_byte; done (2, n))
    else done (1, first / 16)

unfoldable pub decode_wide : ℕ → Reader (ℕ × ℕ)
decode_wide v =
    if v == flag16bits
    then (do w ← wrapping "read extended 16bits tag value" (read_uint 2); done (3, w))
    else if v == flag32bits
    then (do w ← wrapping "read extended 32bits tag value" (read_uint 4); done (5, w))
    else done (1, v)

-- The value of a tag that is neither opening nor closing, and the bytes that it took.
unfoldable pub decode_value : ℕ → Reader (ℕ × ℕ)
unfolding decode_wide
decode_value first =
    if is_extended_value first
    then (do v ← wrapping "read first byte of extended value tag" read_byte; decode_wide v)
    else done (0, bit_and first 0x7)

unfoldable pub decode_rest : ℕ → ℕ → ℕ → Reader (ℕ × Tag)
decode_rest first count id =
    let context = is_context_specific first in
    if is_opening_tag first
    then done (count, opening_tag id context)
    else if is_closing_tag first
    then done (count, closing_tag id context)
    else (do (more, v) ← decode_value first; done (count + more, plain_tag id context v))

-- The bytes read, and the tag. On an error Go returns them too, and no caller looks at them.
unfoldable pub decode_tag : Reader (ℕ × Tag)
unfolding decode_number decode_rest decode_value
decode_tag = do
  first ← wrapping "read tagID" read_byte
  (count, id) ← decode_number first
  decode_rest first count id
