-- ===== src/Encoding/Encoder.antt =====
-- internal/encoding/encoding.go: values turned into bytes behind a buffer, with a sticky error.
pub mod Unsigned
pub mod Abstract
use baetyl_bacnet.Common.{
  ℕ, ◌+◌, ◌-◌, ◌/◌, ◌%◌, ◌≡◌, Bool, true, false, List, [], ◌∷◌, ◌++◌, Option, none, some, length,
  ltb, leb, ◌==◌, ◌||◌, ◌&&◌, if◌then◌else◌,
}
use baetyl_bacnet.Common.Go.{Error, message, Result, ok, err}
use baetyl_bacnet.Bacnet.ObjectId.{ObjectId}
use baetyl_bacnet.Bacnet.ObjectId
use baetyl_bacnet.Bacnet.Value.{
  Value, nil, boolean, uint32, int32, float32, float64, text, segmentation, object_id,
  PropertyValue,
}
use baetyl_bacnet.Bacnet.Value
use baetyl_bacnet.Encoding.Bytes.{uint16_bytes, uint32_bytes}
use baetyl_bacnet.Encoding.Tag.{
  Tag, plain_tag, opening_tag, closing_tag, encode_tag, application_null, application_unsigned_int,
  application_real, application_character_string, application_enumerated, application_object_id,
}
use Unsigned.{value_length, unsigned_bytes}

pub record Encoder : Type 0 where
  pub buf : List ℕ
  pub failure : Option Error

abbrev pub new_encoder : Encoder
new_encoder = record { buf = []; failure = none }

-- `if e.err != nil { return }` in front of a method's body.
abbrev pub unless_failed : Encoder → Encoder → Encoder
unless_failed e next = elim e.failure [ none ↦ next | some x ↦ e ]

abbrev pub write : Encoder → List ℕ → Encoder
write e bs = record e { buf = e.buf ++ bs }

abbrev pub write_tag : Encoder → Tag → Encoder
write_tag e t = record e { buf = encode_tag e.buf t }

abbrev pub fails_with : Encoder → Error → Encoder
fails_with e x = record e { failure = some x }

unfoldable pub context_unsigned : Encoder → ℕ → ℕ → Encoder
context_unsigned e tab_number value =
    unless_failed e
      (write (write_tag e (plain_tag tab_number true (value_length value))) (unsigned_bytes value))

-- The tests of ContextSigned on the two's complement pattern of an int32.
abbrev pub fits_int8 : ℕ → Bool
fits_int8 v = ltb v 128 || leb (4294967296 - 128) v

abbrev pub fits_int16 : ℕ → Bool
fits_int16 v = ltb v 32768 || leb (4294967296 - 32768) v

abbrev pub fits_int24 : ℕ → Bool
fits_int24 v = ltb v 8388608 || ltb (4294967296 - 8388608) v

unfoldable pub signed_length : ℕ → ℕ
signed_length v =
    if fits_int8 v then 1 else if fits_int16 v then 2 else if fits_int24 v then 3 else 4

-- `byte(value >> 16)` shifts arithmetically, which leaves bits 16 to 23 as they are.
unfoldable pub signed_bytes : ℕ → List ℕ
signed_bytes v =
    if fits_int8 v
    then (v % 256) ∷ []
    else if fits_int16 v
    then uint16_bytes (v % 65536)
    else if fits_int24 v
    then (v / 65536 % 256) ∷ uint16_bytes (v % 65536)
    else uint32_bytes v

unfoldable pub context_signed : Encoder → ℕ → ℕ → Encoder
context_signed e tab_number value =
    unless_failed e
      (write (write_tag e (plain_tag tab_number true (signed_length value))) (signed_bytes value))

unfoldable pub context_null : Encoder → ℕ → Encoder
context_null e tab_number = write_tag e (plain_tag tab_number false 1)

unfoldable pub context_boolean : Encoder → ℕ → Bool → Encoder
context_boolean e tab_number value =
    write_tag e (plain_tag tab_number false (if value then 1 else 0))

unfoldable pub context_type_real : Encoder → ℕ → ℕ → Encoder
context_type_real e tab_number bits =
    write (write_tag e (plain_tag tab_number false 4)) (uint32_bytes bits)

unfoldable pub context_type_double : Encoder → ℕ → ℕ → Encoder
context_type_double e tab_number bits =
    write (write_tag e (plain_tag tab_number false 8)) (uint32_bytes bits)

unfoldable pub string_length : List ℕ → ℕ
string_length s = if ltb 1476 (length s) then 0 else length s

-- ContextTypeOctetString, ContextTypeTypeCharacterString and ContextTypeTypeBitString, whose bodies
-- are the same.
unfoldable pub context_type_string : Encoder → ℕ → List ℕ → Encoder
unfolding string_length
context_type_string e tab_number value =
    let tagged = write_tag e (plain_tag tab_number true 1) in
    if string_length value == 0 then tagged else write tagged value

unfoldable pub context_type_enumerated : Encoder → ℕ → ℕ → Encoder
context_type_enumerated e tab_number value =
    unless_failed e
      (write (write_tag e (plain_tag tab_number false (value_length value))) (unsigned_bytes value))

-- The tag is written before `objectID.Encode()` may fail.
abbrev pub write_object_id : Encoder → Result ℕ → Encoder
write_object_id e (ok v) = write e (uint32_bytes v)
write_object_id e (err x) = fails_with e x

unfoldable pub context_object_id : Encoder → ℕ → ObjectId → Encoder
context_object_id e tab_number o =
    unless_failed e
      (write_object_id (write_tag e (plain_tag tab_number true 4)) (ObjectId.encode o))

abbrev pub utf8_encoding : ℕ
utf8_encoding = 0

app_value : Encoder → Value → Encoder
app_value e nil = write_tag e (plain_tag application_null false 0)
app_value e (float64 bits) = fails_with e (message "not implemented ")
app_value e (boolean b) = fails_with e (message "not implemented ")
app_value e (float32 bits) =
    write (write_tag e (plain_tag application_real false 4)) (uint32_bytes bits)
app_value e (text s) =
    write (write_tag e (plain_tag application_character_string false ((length s + 1) % 4294967296)))
      (utf8_encoding ∷ s)
app_value e (uint32 v) =
    write (write_tag e (plain_tag application_unsigned_int false (value_length v)))
      (unsigned_bytes v)
app_value e (segmentation v) =
    write (write_tag e (plain_tag application_enumerated false (value_length v))) (unsigned_bytes v)
app_value e (object_id o) =
    write_object_id (write_tag e (plain_tag application_object_id false 4)) (ObjectId.encode o)
app_value e _ = fails_with e (message "encodeAppdata: unknown type %T")

unfoldable pub app_data : Encoder → Value → Encoder
unfolding app_value
app_data e v = unless_failed e (app_value e v)
