-- ===== src/Encoding/RoundTrip/Answers.antt =====
-- The values that a device answers with, as the decoder of an empty interface reads them.
use baetyl_bacnet.Common.{
  ℕ, ◌+◌, ◌≡◌, refl, Bool, true, false, List, [], ◌++◌, none, length, rev_onto, sym, subst, arith,
  if◌then◌else◌,
}
use baetyl_bacnet.Bacnet.ObjectId.{ObjectId}
use baetyl_bacnet.Bacnet.ObjectId.Packing.{IsStandard}
use baetyl_bacnet.Bacnet.Value.{Value, boolean, uint32, float32, text, segmentation, object_id}
use baetyl_bacnet.Encoding.Bytes.{IsU32}
use baetyl_bacnet.Encoding.Buffer.{Buffer, reading}
use baetyl_bacnet.Encoding.Tag.{Tag, plain_tag, tag_bytes, application_boolean}
use baetyl_bacnet.Encoding.Tag.RoundTrip.{IsWireTag, plain}
use baetyl_bacnet.Encoding.Encoder.Unsigned.{unsigned_bytes}
use baetyl_bacnet.Encoding.Decoder.{decoding}
use baetyl_bacnet.Encoding.Decoder.Reflect.{to_any}
use baetyl_bacnet.Encoding.Decoder.AppData
use baetyl_bacnet.Encoding.Decoder.AppData.{app_content}
use baetyl_bacnet.Encoding.RoundTrip.Unsigned.{decode-unsigned_bytes}
use baetyl_bacnet.Encoding.RoundTrip.Context.{field_bytes, decode_field_tag, value_length-IsU32}
use baetyl_bacnet.Encoding.RoundTrip.AppData.{
  uint32_any, float32_any, text_any, object_id_any, is_uint32, is_float32, is_text, is_object_id,
  Reads, app_tag, app_content_bytes, app_field-Reads,
}

-- A Boolean, an unsigned integer, the bits of a Real, the bytes of a character string in UTF-8, an
-- enumerated value or an object identifier.
pub data Answer : Type 0 where
  truth : Bool → Answer
  unsigned real enumerated : ℕ → Answer
  string : List ℕ → Answer
  object : ObjectId → Answer

-- Numbers of 32 bits, strings whose length is one, and standard object identifiers.
abbrev pub IsAnswer : Answer → Type 0
IsAnswer (truth b) = Unit {0}
IsAnswer (unsigned v) = IsU32 v
IsAnswer (real bits) = IsU32 bits
IsAnswer (enumerated v) = IsU32 v
IsAnswer (string s) = IsU32 (length s + 1)
IsAnswer (object o) = IsStandard o

-- On the wire, where a Boolean is in the tag: the tag, with the length, and the content.
abbrev pub answer_tag : Answer → Tag
answer_tag (truth b) = plain_tag application_boolean false (if b then 1 else 0)
answer_tag (unsigned v) = app_tag (uint32 v)
answer_tag (real bits) = app_tag (float32 bits)
answer_tag (enumerated v) = app_tag (segmentation v)
answer_tag (string s) = app_tag (text s)
answer_tag (object o) = app_tag (object_id o)

abbrev pub answer_content : Answer → List ℕ
answer_content (truth b) = []
answer_content (unsigned v) = app_content_bytes (uint32 v)
answer_content (real bits) = app_content_bytes (float32 bits)
answer_content (enumerated v) = unsigned_bytes v
answer_content (string s) = app_content_bytes (text s)
answer_content (object o) = app_content_bytes (object_id o)

abbrev pub answer_field : Answer → List ℕ
answer_field a = field_bytes (answer_tag a) (answer_content a)

-- What the client gives for it: an enumerated value is a number.
abbrev pub answer_value : Answer → Value
answer_value (truth b) = boolean b
answer_value (unsigned v) = uint32 v
answer_value (real bits) = float32 bits
answer_value (enumerated v) = uint32 v
answer_value (string s) = text s
answer_value (object o) = object_id o

truth-Reads :
    (x : Bool) (old : Value) (b : Buffer) (rest : List ℕ)
    → b.rest ≡ answer_field (truth x) ++ rest
    → Reads rest (boolean x) (AppData.app_data (decoding b none) to_any old)
truth-Reads x old b rest e =
    let back : List ℕ = rev_onto (tag_bytes (answer_tag (truth x))) b.back in
    let wire : IsWireTag (answer_tag (truth x)) = plain 1 _ false (omega arith) (ground arith) in
    subst
      (λ bytes.
        Reads rest (boolean x)
          (AppData.app_data (decoding (reading b.back bytes b.can_unread) none) to_any old))
      (sym e)
      (unfold AppData.app_data app_content in
        rw (decode_field_tag (answer_tag (truth x)) [] b.back rest b.can_unread wire)
          (reading back rest true, ground arith, refl))

enumerated-Reads :
    (v : ℕ) (old : Value) (b : Buffer) (rest : List ℕ)
    → IsU32 v
    → b.rest ≡ answer_field (enumerated v) ++ rest
    → Reads rest (uint32 v) (AppData.app_data (decoding b none) to_any old)
enumerated-Reads v old b rest h e =
    let back : List ℕ = rev_onto (tag_bytes (app_tag (segmentation v))) b.back in
    subst
      (λ bytes.
        Reads rest (uint32 v)
          (AppData.app_data (decoding (reading b.back bytes b.can_unread) none) to_any old))
      (sym e)
      (unfold AppData.app_data app_content in
        rw
          (decode_field_tag (app_tag (segmentation v)) (unsigned_bytes v) b.back rest b.can_unread
            (plain 9 _ false (omega arith) (value_length-IsU32 v)))
          (
            reading (rev_onto (unsigned_bytes v) back) rest true,
            rw (decode-unsigned_bytes v back rest true h) refl,
            refl,
          ))

-- `AppData` stores the value of an answer into an empty interface, and leaves what follows it.
pub answer-Reads :
    (a : Answer) (old : Value) (b : Buffer) (rest : List ℕ)
    → IsAnswer a
    → b.rest ≡ answer_field a ++ rest
    → Reads rest (answer_value a) (AppData.app_data (decoding b none) to_any old)
answer-Reads (truth x) old b rest h e = truth-Reads x old b rest e
answer-Reads (enumerated v) old b rest h e = enumerated-Reads v old b rest h e
answer-Reads (unsigned v) old b rest h e =
    app_field-Reads (uint32 v) to_any old _ b rest (is_uint32 v h) (uint32_any v old) e
answer-Reads (real v) old b rest h e =
    app_field-Reads (float32 v) to_any old _ b rest (is_float32 v h) (float32_any v old) e
answer-Reads (string s) old b rest h e =
    app_field-Reads (text s) to_any old _ b rest (is_text s h) (text_any s old) e
answer-Reads (object o) old b rest h e =
    app_field-Reads (object_id o) to_any old _ b rest (is_object_id o h) (object_id_any o old) e
