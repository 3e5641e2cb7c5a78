-- ===== src/Encoding/Decoder/AppData.antt =====
-- internal/encoding/decoding.go: AppData, which stores the next value into a variable of
-- any type. Memory is taken to be unbounded: `make` fails on a negative length only.
pub mod Stores
use baetyl_bacnet.Common.{
  ℕ, zero, suc, ◌%◌, not, List, [], ◌∷◌, none, some, length, take, drop, rev_onto, ◌==◌, ◌||◌, ltb,
  if◌then◌else◌,
}
use baetyl_bacnet.Common.Go.{
  Error, eof, app_data_type_mismatch, message, wrapped, Result, ok, err, returns, panics,
}
use baetyl_bacnet.Bacnet.ObjectId.{object_id_from_uint32}
use baetyl_bacnet.Bacnet.Value.{
  Value, boolean, uint32, float32, text, segmentation, error_class, error_code, object_id,
}
use baetyl_bacnet.Encoding.Buffer.{Buffer, reading, drained, Reader, read_byte, read_uint}
use baetyl_bacnet.Encoding.Encoder.{utf8_encoding}
use baetyl_bacnet.Encoding.Tag.{
  Tag, decode_tag, application_null, application_boolean, application_unsigned_int,
  application_real, application_character_string, application_enumerated, application_object_id,
}
use baetyl_bacnet.Encoding.Decoder.{Decoder, decoding, decode_unsigned_with_len}
use baetyl_bacnet.Encoding.Decoder.Reflect.{
  Target, to_any, to_segmentation, to_error_class, to_error_code, Stored, set, is_uint_kind,
  is_empty_interface, is_float, is_string, is_object_id, is_pointer,
}

abbrev pub stops : Value → Buffer → Error → Stored
stops old b e = returns (decoding b (some e), old)

-- d.buf.Read(b) for a slice of `n` bytes: it may return fewer.
unfoldable pub read_some : ℕ → Reader (List ℕ)
read_some n b = elim b.rest [
  | [] ↦ if n == 0 then (ok [], drained) else (err eof, drained)
  | x ∷ xs ↦
      let got = take n (x ∷ xs) in
      (ok got, reading (rev_onto got b.back) (drop n (x ∷ xs)) (ltb 0 n))
]

module _ (target : Target) (old : Value) where
  store_unsigned : Result ℕ × Buffer → Stored
  unfolding is_uint_kind is_empty_interface set
  store_unsigned (err e, b) = stops old b (wrapped "decodeAppData: read ObjectID" e)
  store_unsigned (ok v, b) =
      if is_uint_kind target || is_empty_interface target
      then set target b (uint32 v)
      else stops old b (app_data_type_mismatch "UnsignedInt")

  store_real : Result ℕ × Buffer → Stored
  unfolding is_float set
  store_real (err e, b) = stops old b (wrapped "decode AppData: read float32" e)
  store_real (ok bits, b) =
      if is_float target
      then set target b (float32 bits)
      else stops old b (app_data_type_mismatch "Real")

  store_text : ℕ → Result (List ℕ) × Buffer → Stored
  unfolding is_string set
  store_text n (err e, b) = stops old b (wrapped "decode appdata: read string" e)
  store_text n (ok s, b) =
      if not (length s == n)
      then stops old b (message "decode string: stort read %d instead of %d")
      else if is_string target
      then set target b (text s)
      else stops old b (app_data_type_mismatch "CharacterString")

  -- `make([]byte, int(tag.Value)-1)` panics at a negative length.
  read_text : ℕ → Buffer → Stored
  unfolding store_text read_some
  read_text zero b = panics
  read_text (suc n) b = store_text n (read_some n b)

  store_string : ℕ → Result ℕ × Buffer → Stored
  unfolding read_text
  store_string value (err e, b) = stops old b (wrapped "decode appData: read string encoding" e)
  store_string value (ok encoding, b) =
      if encoding == utf8_encoding
      then read_text value b
      else stops old b (message "unsuported strign encoding: 0x%x")

  -- The conversions truncate to the width of the enumeration's type.
  set_enumerated : Target → ℕ → Buffer → Stored
  set_enumerated to_segmentation v b = returns (decoding b none, segmentation (v % 256))
  set_enumerated to_error_class v b = returns (decoding b none, error_class (v % 65536))
  set_enumerated to_error_code v b = returns (decoding b none, error_code v)
  set_enumerated to_any v b = returns (decoding b none, uint32 v)
  set_enumerated _ v b = stops old b (app_data_type_mismatch "Enumerated")

  store_enumerated : Result ℕ × Buffer → Stored
  unfolding set_enumerated
  store_enumerated (err e, b) = stops old b (wrapped "decodeAppData: read ObjectID" e)
  store_enumerated (ok v, b) = set_enumerated target v b

  store_object_id : Result ℕ × Buffer → Stored
  unfolding is_object_id set
  store_object_id (err e, b) = stops old b (wrapped "decodeAppData: read ObjectID" e)
  store_object_id (ok v, b) =
      if is_object_id target
      then set target b (object_id (object_id_from_uint32 v))
      else stops old b (app_data_type_mismatch "ObjectID")

  -- The switch on the tag's number.
  unfoldable pub app_content : Tag → Buffer → Stored
  unfolding store_unsigned store_real store_string store_enumerated store_object_id set
  app_content t b =
      if t.id == application_null
      then returns (decoding b none, old)
      else if t.id == application_unsigned_int
      then store_unsigned (decode_unsigned_with_len t.value b)
      else if t.id == application_real
      then store_real (read_uint 4 b)
      else if t.id == application_character_string
      then store_string t.value (read_byte b)
      else if t.id == application_enumerated
      then store_enumerated (decode_unsigned_with_len t.value b)
      else if t.id == application_object_id
      then store_object_id (read_uint 4 b)
      else if t.id == application_boolean
      then set target b (boolean (not (t.value == 0)))
      else stops old b (message "decodeAppData: unsupported type 0x%x")

  app_tag : Result (ℕ × Tag) × Buffer → Stored
  unfolding app_content
  app_tag (err e, b) = stops old b (wrapped "decodeAppData: read tag" e)
  app_tag (ok (count, t), b) =
      if t.context
      then stops old b (message "decode AppData: unexpected context tag ")
      else app_content t b

-- `old` is what the variable holds.
unfoldable pub app_data : Decoder → Target → Value → Stored
unfolding app_tag
app_data d target old = elim d.failure [
  | some e ↦ returns (d, old)
  | none ↦
      if is_pointer target
      then app_tag target old (decode_tag d.buf)
      else stops old d.buf (message "decodeAppData: interface parameter isn't a pointer")
]
