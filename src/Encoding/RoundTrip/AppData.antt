-- ===== src/Encoding/RoundTrip/AppData.antt =====
-- Application-tagged values.
use baetyl_bacnet.Common.{
  ℕ, ◌+◌, ◌≡◌, refl, Bool, true, false, List, [], ◌∷◌, ◌++◌, none, arith, length, rev_onto,
  append_assoc, append-nil, ==_refl, ◌∙◌, ap, sym, subst, take-length-append, drop-length-append,
}
use native.Mathlib.Numerals.{add-one}
use baetyl_bacnet.Common.Go.{ok, returns}
use baetyl_bacnet.Bacnet.ObjectId.{ObjectId}
use baetyl_bacnet.Bacnet.ObjectId.Packing.{IsStandard, encode_standard, object_id_from_uint32_sum}
use baetyl_bacnet.Bacnet.Value.{
  Value, nil, uint32, float32, text, segmentation, error_class, error_code, object_id,
}
use baetyl_bacnet.Encoding.Bytes.{IsByte, IsU32, uint32_bytes}
use baetyl_bacnet.Encoding.Buffer.{Buffer, drained, reading, read_byte}
use baetyl_bacnet.Encoding.Tag.{
  Tag, plain_tag, tag_bytes, application_null, application_unsigned_int, application_real,
  application_character_string, application_enumerated, application_object_id,
}
use baetyl_bacnet.Encoding.Tag.RoundTrip.{IsWireTag, plain}
use baetyl_bacnet.Encoding.Encoder.{Encoder, app_data, new_encoder, utf8_encoding}
use baetyl_bacnet.Encoding.Encoder.Unsigned.{value_length, unsigned_bytes}
use baetyl_bacnet.Encoding.Decoder.{decoding}
use baetyl_bacnet.Encoding.Decoder.Reflect.{
  Target, to_any, to_uint32, to_float32, to_string, to_segmentation, to_error_class, to_error_code,
  to_object_id, Stored, is_pointer,
}
use baetyl_bacnet.Encoding.Decoder.AppData
use baetyl_bacnet.Encoding.Decoder.AppData.{app_content, read_some}
use baetyl_bacnet.Encoding.RoundTrip.Unsigned.{decode-unsigned_bytes, read_uint32}
use baetyl_bacnet.Encoding.RoundTrip.Context.{
  field_bytes, decode_field_tag, packed, value_length-IsU32,
}

-- The bytes that `AppData` writes for a value that it accepts.
abbrev pub app_tag : Value → Tag
app_tag (uint32 v) = plain_tag application_unsigned_int false (value_length v)
app_tag (float32 bits) = plain_tag application_real false 4
app_tag (text s) = plain_tag application_character_string false (length s + 1)
app_tag (segmentation v) = plain_tag application_enumerated false (value_length v)
app_tag (object_id o) = plain_tag application_object_id false 4
app_tag _ = plain_tag application_null false 0

abbrev pub app_content_bytes : Value → List ℕ
app_content_bytes (uint32 v) = unsigned_bytes v
app_content_bytes (float32 bits) = uint32_bytes bits
app_content_bytes (text s) = utf8_encoding ∷ s
app_content_bytes (segmentation v) = unsigned_bytes v
app_content_bytes (object_id o) = uint32_bytes (packed o)
app_content_bytes _ = []

abbrev pub app_field : Value → List ℕ
app_field v = field_bytes (app_tag v) (app_content_bytes v)

-- The values that `AppData` writes, in the range of their types.
pub data IsEncodable : Value → Type 0 where
  is_nil : IsEncodable nil
  is_uint32 : (v : ℕ) → IsU32 v → IsEncodable (uint32 v)
  is_float32 : (bits : ℕ) → IsU32 bits → IsEncodable (float32 bits)
  is_text : (s : List ℕ) → IsU32 (length s + 1) → IsEncodable (text s)
  is_segmentation : (v : ℕ) → IsByte v → IsEncodable (segmentation v)
  is_object_id : (o : ObjectId) → IsStandard o → IsEncodable (object_id o)

pub app_data_lem :
    (e : Encoder) (v : Value)
    → IsEncodable v
    → e.failure ≡ none
    → app_data e v ≡ record { buf = e.buf ++ app_field v; failure = none }
unfolding app_data
app_data_lem e _ is_nil h = ground (arith, append-nil (tag_bytes (app_tag nil)))
app_data_lem e _ (is_uint32 v hv) h =
    ground (arith, append_assoc e.buf (tag_bytes (app_tag (uint32 v))) (unsigned_bytes v))
app_data_lem e _ (is_float32 v hv) h =
    ground (arith, append_assoc e.buf (tag_bytes (app_tag (float32 v))) (uint32_bytes v))
app_data_lem e _ (is_text s hv) h =
    ground (arith, append_assoc e.buf (tag_bytes (app_tag (text s))) (utf8_encoding ∷ s))
app_data_lem e _ (is_segmentation v hv) h =
    ground (arith, append_assoc e.buf (tag_bytes (app_tag (segmentation v))) (unsigned_bytes v))
app_data_lem e _ (is_object_id o hv) h = ground (
  arith,
  encode_standard o hv,
  append_assoc e.buf (tag_bytes (app_tag (object_id o))) (uint32_bytes (packed o)),
)

-- The variables that the decoder accepts for a value, what they held, and what they hold then.
pub data ReadsAs : Value → Target → Value → Value → Type 0 where
  null_kept : (t : Target) (old : Value) → is_pointer t ≡ true → ReadsAs nil t old old
  uint32_same : (v : ℕ) (old : Value) → ReadsAs (uint32 v) to_uint32 old (uint32 v)
  uint32_any : (v : ℕ) (old : Value) → ReadsAs (uint32 v) to_any old (uint32 v)
  float32_same : (v : ℕ) (old : Value) → ReadsAs (float32 v) to_float32 old (float32 v)
  float32_any : (v : ℕ) (old : Value) → ReadsAs (float32 v) to_any old (float32 v)
  text_same : (s : List ℕ) (old : Value) → ReadsAs (text s) to_string old (text s)
  text_any : (s : List ℕ) (old : Value) → ReadsAs (text s) to_any old (text s)
  segmentation_same :
      (v : ℕ) (old : Value) → ReadsAs (segmentation v) to_segmentation old (segmentation v)
  segmentation_any : (v : ℕ) (old : Value) → ReadsAs (segmentation v) to_any old (uint32 v)
  segmentation_class :
      (v : ℕ) (old : Value) → ReadsAs (segmentation v) to_error_class old (error_class v)
  segmentation_code :
      (v : ℕ) (old : Value) → ReadsAs (segmentation v) to_error_code old (error_code v)
  object_id_same :
      (o : ObjectId) (old : Value) → ReadsAs (object_id o) to_object_id old (object_id o)
  object_id_any : (o : ObjectId) (old : Value) → ReadsAs (object_id o) to_any old (object_id o)

-- The call returns with no error, the variable holds `w` and the bytes `rest` are still unread.
abbrev pub Reads : List ℕ → Value → Stored → Type 0
Reads rest w r = (b : Buffer) × (r ≡ returns (decoding b none, w)) × (b.rest ≡ rest)

read_some-append :
    (s back rest : List ℕ) (u : Bool)
    → (b : Buffer) × (read_some (length s) (reading back (s ++ rest) u) ≡ (ok s, b))
      × (b.rest ≡ rest)
unfolding read_some
read_some-append [] back [] u = (drained, refl, refl)
read_some-append [] back (y ∷ ys) u = (reading back (y ∷ ys) false, refl, refl)
read_some-append (x ∷ xs) back rest u = (
  reading (rev_onto (x ∷ xs) back) rest true,
  rw (take-length-append xs rest, drop-length-append xs rest) (ground arith),
  refl,
)

content-Reads :
    (v : Value) (t : Target) (old w : Value) (back rest : List ℕ)
    → IsEncodable v
    → ReadsAs v t old w
    → Reads rest w (app_content t old (app_tag v) (reading back (app_content_bytes v ++ rest) true))
unfolding app_content read_byte
content-Reads _ _ _ _ back rest h (null_kept t old p) = (reading back rest true, refl, refl)
content-Reads _ _ _ _ back rest (is_uint32 v h) (uint32_same _ old) = (
  reading (rev_onto (unsigned_bytes v) back) rest true,
  rw (decode-unsigned_bytes v back rest true h),
  refl,
)
content-Reads _ _ _ _ back rest (is_uint32 v h) (uint32_any _ old) = (
  reading (rev_onto (unsigned_bytes v) back) rest true,
  rw (decode-unsigned_bytes v back rest true h),
  refl,
)
content-Reads _ _ _ _ back rest (is_float32 v h) (float32_same _ old) =
    (reading (rev_onto (uint32_bytes v) back) rest true, rw (read_uint32 v back rest true h), refl)
content-Reads _ _ _ _ back rest (is_float32 v h) (float32_any _ old) =
    (reading (rev_onto (uint32_bytes v) back) rest true, rw (read_uint32 v back rest true h), refl)
content-Reads _ _ _ _ back rest (is_text s h) (text_same _ old) =
    let (b, e, r) = read_some-append s (utf8_encoding ∷ back) rest true in
    (b, rw (add-one, e, ==_refl (length s)), r)
content-Reads _ _ _ _ back rest (is_text s h) (text_any _ old) =
    let (b, e, r) = read_some-append s (utf8_encoding ∷ back) rest true in
    (b, rw (add-one, e, ==_refl (length s)), r)
content-Reads _ _ _ _ back rest (is_segmentation v h) (segmentation_same _ old) = (
  reading (rev_onto (unsigned_bytes v) back) rest true,
  rw (decode-unsigned_bytes v back rest true (omega arith)) (ground arith),
  refl,
)
content-Reads _ _ _ _ back rest (is_segmentation v h) (segmentation_any _ old) = (
  reading (rev_onto (unsigned_bytes v) back) rest true,
  rw (decode-unsigned_bytes v back rest true (omega arith)),
  refl,
)
content-Reads _ _ _ _ back rest (is_segmentation v h) (segmentation_class _ old) = (
  reading (rev_onto (unsigned_bytes v) back) rest true,
  rw (decode-unsigned_bytes v back rest true (omega arith)) (ground arith),
  refl,
)
content-Reads _ _ _ _ back rest (is_segmentation v h) (segmentation_code _ old) = (
  reading (rev_onto (unsigned_bytes v) back) rest true,
  rw (decode-unsigned_bytes v back rest true (omega arith)),
  refl,
)
content-Reads _ _ _ _ back rest (is_object_id o h) (object_id_same _ old) = (
  reading (rev_onto (uint32_bytes (packed o)) back) rest true,
  rw (read_uint32 (packed o) back rest true (omega arith), object_id_from_uint32_sum o h),
  refl,
)
content-Reads _ _ _ _ back rest (is_object_id o h) (object_id_any _ old) = (
  reading (rev_onto (uint32_bytes (packed o)) back) rest true,
  rw (read_uint32 (packed o) back rest true (omega arith), object_id_from_uint32_sum o h),
  refl,
)

app_tag-IsWireTag : (v : Value) → IsEncodable v → IsWireTag (app_tag v)
app_tag-IsWireTag _ is_nil = plain 0 0 false (omega arith) (omega arith)
app_tag-IsWireTag _ (is_uint32 v h) = plain 2 _ false (omega arith) (value_length-IsU32 v)
app_tag-IsWireTag _ (is_float32 v h) = plain 4 4 false (omega arith) (omega arith)
app_tag-IsWireTag _ (is_text s h) = plain 7 _ false (omega arith) h
app_tag-IsWireTag _ (is_segmentation v h) = plain 9 _ false (omega arith) (value_length-IsU32 v)
app_tag-IsWireTag _ (is_object_id o h) = plain 12 4 false (omega arith) (omega arith)

app_tag_context : (v : Value) → IsEncodable v → (app_tag v).context ≡ false
app_tag_context _ is_nil = refl
app_tag_context _ (is_uint32 v h) = refl
app_tag_context _ _ = refl

pub ReadsAs-is_pointer : {v w old : Value} {t : Target} → ReadsAs v t old w → is_pointer t ≡ true
ReadsAs-is_pointer (null_kept t old p) = p
ReadsAs-is_pointer (uint32_same v old) = refl
ReadsAs-is_pointer _ = refl

pub app_field-Reads :
    (v : Value) (t : Target) (old w : Value) (b : Buffer) (rest : List ℕ)
    → IsEncodable v
    → ReadsAs v t old w
    → b.rest ≡ app_field v ++ rest
    → Reads rest w (AppData.app_data (decoding b none) t old)
app_field-Reads v t old w b rest h r e =
    subst
      (λ bytes.
        Reads rest w (AppData.app_data (decoding (reading b.back bytes b.can_unread) none) t old))
      (sym e)
      (unfold AppData.app_data in
        rw
          (
            decode_field_tag (app_tag v) (app_content_bytes v) b.back rest b.can_unread
                (app_tag-IsWireTag v h),
            ReadsAs-is_pointer r,
            app_tag_context v h,
          )
          (content-Reads v t old w (rev_onto (tag_bytes (app_tag v)) b.back) rest h r))

-- `AppData` of the decoder, where `AppData` of the encoder wrote: for each type of value that the
-- encoder accepts and each variable that can take it, no error is returned, what follows is left to
-- be read, and the value is stored; null leaves the variable as it was.
pub app_data-app_data :
    (v : Value) (t : Target) (old w : Value) (b : Buffer) (rest : List ℕ)
    → IsEncodable v
    → ReadsAs v t old w
    → b.rest ≡ (app_data new_encoder v).buf ++ rest
    → Reads rest w (AppData.app_data (decoding b none) t old)
app_data-app_data v t old w b rest h r e =
    app_field-Reads v t old w b rest h r
      (e ∙ ap (λ (x : Encoder). x.buf ++ rest) (app_data_lem new_encoder v h refl))
