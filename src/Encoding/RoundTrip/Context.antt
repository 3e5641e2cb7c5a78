-- ===== src/Encoding/RoundTrip/Context.antt =====
-- Context-tagged numbers and object identifiers.
use baetyl_bacnet.Common.{
  ℕ, ◌+◌, ◌*◌, ◌≡◌, refl, sym, ap, ◌∙◌, subst, Bool, true, List, ◌++◌, none, arith, length,
  rev_onto, append_assoc, ==_refl,
}
use baetyl_bacnet.Common.Go.{ok}
use baetyl_bacnet.Bacnet.ObjectId.{ObjectId}
use baetyl_bacnet.Bacnet.ObjectId.Packing.{IsStandard, encode_standard, object_id_from_uint32_sum}
use baetyl_bacnet.Encoding.Bytes.{IsByte, IsU32, uint32_bytes}
use baetyl_bacnet.Encoding.Buffer.{Buffer, reading}
use baetyl_bacnet.Encoding.Tag.{Tag, plain_tag, tag_bytes, decode_tag}
use baetyl_bacnet.Encoding.Tag.RoundTrip.{IsWireTag, plain, decode_tag-encode_tag}
use baetyl_bacnet.Encoding.Encoder.{Encoder, context_unsigned, context_object_id, new_encoder}
use baetyl_bacnet.Encoding.Encoder.Unsigned.{value_length, unsigned_bytes}
use baetyl_bacnet.Encoding.Decoder.{decode_unsigned_with_len, decoding, context_value}
use baetyl_bacnet.Encoding.Decoder
use baetyl_bacnet.Encoding.RoundTrip.Unsigned.{decode-unsigned_bytes, read_uint32}

-- The bytes of a field: a tag and the content that it announces.
abbrev pub field_bytes : Tag → List ℕ → List ℕ
field_bytes t content = tag_bytes t ++ content

abbrev pub unsigned_tag : ℕ → ℕ → Tag
unsigned_tag id v = plain_tag id true (value_length v)

abbrev pub unsigned_field : ℕ → ℕ → List ℕ
unsigned_field id v = field_bytes (unsigned_tag id v) (unsigned_bytes v)

pub value_length-IsU32 : (v : ℕ) → IsU32 (value_length v)
unfolding value_length
value_length-IsU32 v = ground arith

-- The call sets no error, the variable holds `v` and the bytes `rest` are still unread.
abbrev pub FieldReads : {A : Type 0} → List ℕ → A → Decoder.Decoder × A → Type 0
FieldReads rest v r = (b : Buffer) × (r ≡ (decoding b none, v)) × (b.rest ≡ rest)

-- `decodeTag` in front of the content of a field.
pub decode_field_tag :
    (t : Tag) (content back rest : List ℕ) (u : Bool)
    → IsWireTag t
    → decode_tag (reading back (field_bytes t content ++ rest) u)
      ≡ (ok (length (tag_bytes t), t), reading (rev_onto (tag_bytes t) back) (content ++ rest) true)
decode_field_tag t content back rest u h =
    rw (append_assoc (tag_bytes t) content rest)
      (decode_tag-encode_tag back (content ++ rest) u t h)

module _ (id v : ℕ) (hi : IsByte id) (hv : IsU32 v) where
  pub context_unsigned_lem :
      (e : Encoder)
      → e.failure ≡ none
      → context_unsigned e id v ≡ record { buf = e.buf ++ unsigned_field id v; failure = none }
  unfolding context_unsigned
  context_unsigned_lem e h =
      ground (arith, append_assoc e.buf (tag_bytes (unsigned_tag id v)) (unsigned_bytes v))

  pub context_value-unsigned_field :
      (b : Buffer) (rest : List ℕ) (old : ℕ)
      → b.rest ≡ unsigned_field id v ++ rest
      → FieldReads rest v (context_value id (decoding b none) old)
  context_value-unsigned_field b rest old e =
      let t : Tag = unsigned_tag id v in
      let behind : List ℕ = rev_onto (tag_bytes t) b.back in
      (
        reading (rev_onto (unsigned_bytes v) behind) rest true,
        subst
            (λ bytes.
              context_value id (decoding (reading b.back bytes b.can_unread) none) old
              ≡ (decoding (reading (rev_onto (unsigned_bytes v) behind) rest true) none, v))
            (sym e)
            (unfold context_value in
              rw (
                decode_field_tag t (unsigned_bytes v) b.back rest b.can_unread
                    (plain id (value_length v) true hi (value_length-IsU32 v)),
                ==_refl id,
                decode-unsigned_bytes v behind rest true hv,
              )),
        refl,
      )

  -- `ContextValue` reads the number that `ContextUnsigned` wrote under the same tag number, and
  -- leaves what follows.
  pub context_value-context_unsigned :
      (b : Buffer) (rest : List ℕ) (old : ℕ)
      → b.rest ≡ (context_unsigned new_encoder id v).buf ++ rest
      → FieldReads rest v (context_value id (decoding b none) old)
  context_value-context_unsigned b rest old e =
      context_value-unsigned_field b rest old
        (e ∙ ap (λ (x : Encoder). x.buf ++ rest) (context_unsigned_lem new_encoder refl))

abbrev pub object_id_tag : ℕ → Tag
object_id_tag id = plain_tag id true 4

abbrev pub packed : ObjectId → ℕ
packed o = o.object_type * 4194304 + o.number

abbrev pub object_id_field : ℕ → ObjectId → List ℕ
object_id_field id o = field_bytes (object_id_tag id) (uint32_bytes (packed o))

module _ (id : ℕ) (o : ObjectId) (hi : IsByte id) (std : IsStandard o) where
  pub context_object_id_lem :
      (e : Encoder)
      → e.failure ≡ none
      → context_object_id e id o ≡ record { buf = e.buf ++ object_id_field id o; failure = none }
  unfolding context_object_id
  context_object_id_lem e h = ground (
    arith,
    encode_standard o std,
    append_assoc e.buf (tag_bytes (object_id_tag id)) (uint32_bytes (packed o)),
  )

  pub context_object_id-object_id_field :
      (b : Buffer) (rest : List ℕ) (old : ObjectId)
      → b.rest ≡ object_id_field id o ++ rest
      → FieldReads rest o (Decoder.context_object_id id (decoding b none) old)
  context_object_id-object_id_field b rest old e =
      let t : Tag = object_id_tag id in
      let behind : List ℕ = rev_onto (tag_bytes t) b.back in
      let content : List ℕ = uint32_bytes (packed o) in
      (
        reading (rev_onto content behind) rest true,
        subst
            (λ bytes.
              Decoder.context_object_id id (decoding (reading b.back bytes b.can_unread) none) old
              ≡ (decoding (reading (rev_onto content behind) rest true) none, o))
            (sym e)
            (unfold Decoder.context_object_id in
              rw (
                decode_field_tag t content b.back rest b.can_unread
                    (plain id 4 true hi (omega arith)),
                ==_refl id,
                read_uint32 (packed o) behind rest true
                    (omega (arith, std.type_fits, std.number_fits)),
                object_id_from_uint32_sum o std,
              )),
        refl,
      )

  -- `ContextObjectID` reads the identifier that the encoder's method of that name wrote, and
  -- leaves what follows.
  pub context_object_id-context_object_id :
      (b : Buffer) (rest : List ℕ) (old : ObjectId)
      → b.rest ≡ (context_object_id new_encoder id o).buf ++ rest
      → FieldReads rest o (Decoder.context_object_id id (decoding b none) old)
  context_object_id-context_object_id b rest old e =
      context_object_id-object_id_field b rest old
        (e ∙ ap (λ (x : Encoder). x.buf ++ rest) (context_object_id_lem new_encoder refl))
