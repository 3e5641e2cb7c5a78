-- ===== src/Encoding/Decoder/Panics.antt =====
-- Which bytes make AppData panic.
use baetyl_bacnet.Common.{
  ℕ, ◌≡◌, ◌↔◌, refl, List, [], ◌∷◌, Option, none, some, Bool, true, false, not, ◌&&◌, ◌||◌, ◌==◌,
  arith, Bool-cases, inl, inr, ◌⊎◌,
}
use baetyl_bacnet.Common.Go.{Error, Result, ok, err, panics}
use baetyl_bacnet.Bacnet.Value.{Value}
use baetyl_bacnet.Encoding.Buffer.{Buffer, read_byte, read_uint}
use baetyl_bacnet.Encoding.Encoder.{utf8_encoding}
use baetyl_bacnet.Encoding.Tag.{
  Tag, decode_tag, application_boolean, application_unsigned_int, application_real,
  application_character_string,
}
use baetyl_bacnet.Encoding.Decoder.{Decoder, decode_unsigned_with_len}
use baetyl_bacnet.Encoding.Decoder.Reflect.{
  Target, to_any, to_bool, to_uint8, to_uint16, to_segmentation, to_error_class, to_error_code,
  not_a_pointer, to_named_float32, set, assignable, is_pointer, is_uint_kind, is_empty_interface,
  is_float, is_string, is_object_id,
}
use baetyl_bacnet.Encoding.Decoder.AppData.{app_data, app_content, read_some}

abbrev is_ok : {A : Type 0} → Result A × Buffer → Bool
is_ok (ok v, b) = true
is_ok (err e, b) = false

abbrev pub starts_utf8 : List ℕ → Bool
starts_utf8 [] = false
starts_utf8 (x ∷ xs) = x == utf8_encoding

abbrev pub takes_boolean : Target → Bool
takes_boolean to_any = true
takes_boolean to_bool = true
takes_boolean _ = false

-- The types of the kinds Uint8, Uint16 and Uint32 that a uint32 is not assignable to.
abbrev pub is_narrow : Target → Bool
is_narrow to_uint8 = true
is_narrow to_uint16 = true
is_narrow to_segmentation = true
is_narrow to_error_class = true
is_narrow to_error_code = true
is_narrow _ = false

abbrev pub is_named_float : Target → Bool
is_named_float to_named_float32 = true
is_named_float _ = false

-- A character string without even the byte of its encoding, in front of such a byte; a Boolean for
-- a variable of another type; an unsigned integer for a variable of a narrow type; a
-- Real for a variable of a named float32 type.
abbrev pub is_fatal : Target → Tag → Buffer → Bool
is_fatal target t b =
    (t.id == application_character_string && t.value == 0 && starts_utf8 b.rest)
    || (t.id == application_boolean && not (takes_boolean target))
    || (t.id == application_unsigned_int
        && is_narrow target
        && is_ok (decode_unsigned_with_len t.value b))
    || (t.id == application_real && is_named_float target && is_ok (read_uint 4 b))

app_content_panics :
    (target : Target) (old : Value) (t : Tag) (b : Buffer)
    → is_pointer target ≡ true
    → (app_content target old t b ≡ panics) ↔ (is_fatal target t b ≡ true)
unfolding app_content set assignable is_uint_kind is_empty_interface is_float is_string is_object_id
    read_some read_byte
app_content_panics not_a_pointer old t b p = absurd (ground arith)
app_content_panics _ old t b p = (λ e. ground (arith, e), λ e. ground (arith, e))

abbrev pub is_fatal_tag : Target → Result (ℕ × Tag) × Buffer → Bool
is_fatal_tag target (err e, b) = false
is_fatal_tag target (ok (count, t), b) = not t.context && is_fatal target t b

abbrev pub has_failed : Option Error → Bool
has_failed none = false
has_failed (some e) = true

tag_cases :
    (r : Result (ℕ × Tag) × Buffer)
    → ((count : ℕ) × (t : Tag) × (b : Buffer) × (r ≡ (ok (count, t), b)))
      ⊎ ((e : Error) × (b : Buffer) × (r ≡ (err e, b)))
tag_cases (ok (count, t), b) = inl (count, t, b, refl)
tag_cases (err e, b) = inr (e, b, refl)

-- Where int has 64 bits and the memory is enough, `AppData` panics for exactly these bytes and
-- variables: the decoder has no error yet, the variable is given by a pointer, and the next tag is
-- an application tag of a character string of no bytes in front of a byte 0, of a Boolean for a
-- variable that is neither an empty interface nor a Boolean, of an unsigned integer that can be read
-- for a variable of kind Uint8 or Uint16 or of a named type of kind Uint32, or of a Real that can be
-- read for a variable of a named float32 type.
pub app_data_panics :
    (d : Decoder) (target : Target) (old : Value)
    → (app_data d target old ≡ panics) ↔ (
        (not (has_failed d.failure) && is_pointer target && is_fatal_tag target (decode_tag d.buf))
        ≡ true)
unfolding app_data
app_data_panics d target old = elim (Bool-cases (is_pointer target)) [
  | inl p ↦ elim (tag_cases (decode_tag d.buf)) [
    | inl (count, t, b, q) ↦
        let (to, from) = app_content_panics target old t b p in
        (λ e. ground (arith, p, q, to, e), λ e. ground (arith, p, q, from, e))
    | inr (x, b, q) ↦ (λ e. ground (arith, p, q, e), λ e. ground (arith, p, q, e))
  ]
  | inr p ↦ (λ e. ground (arith, p, e), λ e. ground (arith, p, e))
]
