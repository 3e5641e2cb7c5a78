-- ===== src/Tests/Codec.antt =====
-- The encoder and the decoder on concrete values.
use baetyl_bacnet.Common.{◌≤◌, ◌≡◌, refl, [], ◌∷◌, ◌++◌, none, some, true, false, arith, length}
use baetyl_bacnet.Common.Go.{ok, unread_byte}
use baetyl_bacnet.Bacnet.ObjectId.{ObjectId, encode}
use baetyl_bacnet.Bacnet.ObjectId.Packing.{IsStandard}
use baetyl_bacnet.Bacnet.Value.{text}
use baetyl_bacnet.Encoding.Buffer.{reading, read_byte}
use baetyl_bacnet.Encoding.Tag.{
  Tag, plain_tag, tag_bytes, encode_tag, decode_tag, decode_number, decode_value, decode_rest,
  decode_wide, tag_meta, tag_head, tag_value,
}
use baetyl_bacnet.Encoding.Tag.RoundTrip.{plain, decode_tag-encode_tag}
use baetyl_bacnet.Encoding.Tag.Takes.{Takes, decode_tag-Takes}
use baetyl_bacnet.Encoding.Encoder
use baetyl_bacnet.Encoding.Encoder.{signed_bytes, new_encoder, context_unsigned}
use baetyl_bacnet.Encoding.Decoder.{decoding, context_value}
use baetyl_bacnet.Encoding.Decoder.AppData
use baetyl_bacnet.Encoding.Decoder.Reflect.{to_string}
use baetyl_bacnet.Encoding.Decoder.Retry.{context_value_wrong_long_tag}
use baetyl_bacnet.Encoding.RoundTrip.AppData.{is_text, text_same, Reads, app_data-app_data}

-- An analog input, number 1234.
abbrev pub sensor : ObjectId
sensor = record { object_type = 0; number = 1234 }

pub sensor-IsStandard : IsStandard sensor
sensor-IsStandard = record { type_fits = omega arith; number_fits = omega arith }

-- A long tag: number 20, value 70000, which takes seven bytes.
abbrev long_tag : Tag
long_tag = plain_tag 20 true 70000

long_tag_bytes : encode_tag [] long_tag ≡ 253 ∷ 20 ∷ 255 ∷ 0 ∷ 1 ∷ 17 ∷ 112 ∷ []
unfolding tag_meta tag_head tag_value tag_bytes
long_tag_bytes = refl

decode_tag-encode_tag_example : decode_tag (reading [] (encode_tag [] long_tag ++ 9 ∷ []) false) ≡ (
  ok (length (encode_tag [] long_tag), long_tag),
  reading (112 ∷ 17 ∷ 1 ∷ 0 ∷ 255 ∷ 20 ∷ 253 ∷ []) (9 ∷ []) true,
)
unfolding tag_meta tag_head tag_value tag_bytes
decode_tag-encode_tag_example =
    decode_tag-encode_tag [] (9 ∷ []) false long_tag
      (plain 20 70000 true (omega arith) (omega arith))

short_decodes :
    decode_tag (reading [] (0x39 ∷ 5 ∷ []) false)
    ≡ (ok (1, plain_tag 3 true 1), reading (0x39 ∷ []) (5 ∷ []) true)
unfolding decode_tag decode_number decode_rest decode_value decode_wide read_byte
short_decodes = refl

long_decodes :
    decode_tag (reading [] (0xF9 ∷ 33 ∷ 5 ∷ []) false)
    ≡ (ok (2, plain_tag 33 true 1), reading (33 ∷ 0xF9 ∷ []) (5 ∷ []) true)
unfolding decode_tag decode_number decode_rest decode_value decode_wide read_byte
long_decodes = refl

decode_tag-Takes_example :
    (1 ≤ 2)
    × (2 ≤ 7)
    × Takes 2 (reading [] (0xF9 ∷ 33 ∷ 5 ∷ []) false) (reading (33 ∷ 0xF9 ∷ []) (5 ∷ []) true)
decode_tag-Takes_example =
    decode_tag-Takes 2 (plain_tag 33 true 1) (reading [] (0xF9 ∷ 33 ∷ 5 ∷ []) false)
      (reading (33 ∷ 0xF9 ∷ []) (5 ∷ []) true) long_decodes

app_data-app_data_example : Reads (7 ∷ []) (text (104 ∷ 105 ∷ [])) (
    AppData.app_data
      (decoding
        (reading [] ((Encoder.app_data new_encoder (text (104 ∷ 105 ∷ []))).buf ++ 7 ∷ []) false)
        none)
      to_string
      (text []))
app_data-app_data_example =
    app_data-app_data (text (104 ∷ 105 ∷ [])) to_string (text []) (text (104 ∷ 105 ∷ []))
      (reading [] ((Encoder.app_data new_encoder (text (104 ∷ 105 ∷ []))).buf ++ 7 ∷ []) false)
      (7 ∷ []) (is_text (104 ∷ 105 ∷ []) (omega arith)) (text_same (104 ∷ 105 ∷ []) (text [])) refl

sensor_encodes : encode sensor ≡ ok 1234
unfolding encode
sensor_encodes = refl

context_value_wrong_long_tag_example :
    (context_value 2 (decoding (reading [] (0xF9 ∷ 33 ∷ 5 ∷ []) false) none) 4).0.failure
    ≡ some unread_byte
context_value_wrong_long_tag_example =
    context_value_wrong_long_tag 2 4 (plain_tag 33 true 1) (reading [] (0xF9 ∷ 33 ∷ 5 ∷ []) false)
      (reading (33 ∷ 0xF9 ∷ []) (5 ∷ []) true) (λ e. omega arith) 0 long_decodes
