-- ===== src/Bacip/Services/ReadAck.antt =====
-- The answer to a ReadProperty request, which the program only reads.
use baetyl_bacnet.Common.{
  ℕ, ◌≡◌, refl, sym, true, false, List, [], ◌++◌, Option, none, some, arith, append-nil,
}
use baetyl_bacnet.Common.Go.{ok, returns, is_incorrect_tag}
use baetyl_bacnet.Bacnet.ObjectId.{ObjectId}
use baetyl_bacnet.Bacnet.ObjectId.Packing.{IsStandard}
use baetyl_bacnet.Bacnet.Value.{Value}
use baetyl_bacnet.Encoding.Bytes.{IsU32}
use baetyl_bacnet.Encoding.Buffer.{Buffer, reading, new_buffer}
use baetyl_bacnet.Encoding.Tag.{opening_tag, tag_bytes, decode_tag}
use baetyl_bacnet.Encoding.Tag.RoundTrip.{opens}
use baetyl_bacnet.Encoding.Decoder.{decoding, context_value}
use baetyl_bacnet.Encoding.Decoder.Reflect.{to_any}
use baetyl_bacnet.Encoding.Decoder.Retry.{context_value_wrong_tag, context_object_id_wrong_tag}
use baetyl_bacnet.Encoding.RoundTrip.AppData.{IsEncodable, ReadsAs, app_field}
use baetyl_bacnet.Encoding.RoundTrip.Answers.{
  Answer, IsAnswer, answer_field, answer_value, answer-Reads,
}
use baetyl_bacnet.Encoding.RoundTrip.Abstract.{
  abstract_field, between_tags, decode_tag-at, context_abstract_type-between_tags,
  context_abstract_type-abstract_field,
}
use baetyl_bacnet.Encoding.RoundTrip.Context.{
  object_id_field, unsigned_field, context_value-unsigned_field, context_object_id-object_id_field,
}
use baetyl_bacnet.Bacip.Services.{ReadProperty}
use baetyl_bacnet.Bacip.Services.Unmarshal.{forgive, unmarshal_read_property}

-- A ReadProperty-ACK: the object, the property, perhaps an index, and the value.
abbrev pub index_field : Option ℕ → List ℕ
index_field none = []
index_field (some i) = unsigned_field 2 i

abbrev pub ack_bytes : ObjectId → ℕ → Option ℕ → List ℕ → List ℕ
ack_bytes o p index field =
    object_id_field 0 o ++ (unsigned_field 1 p ++ (index_field index ++ between_tags 3 field))

abbrev pub IndexFits : Option ℕ → Type 0
IndexFits none = Unit {0}
IndexFits (some i) = IsU32 i

-- The opening tag of the value takes one byte.
value_tag :
    (field : List ℕ) (b : Buffer) (rest : List ℕ)
    → b.rest ≡ between_tags 3 field ++ rest
    → (b' : Buffer) × (decode_tag b ≡ (ok (1, opening_tag 3 true), b'))
unfolding tag_bytes
value_tag field b rest e =
    (_, decode_tag-at (opening_tag 3 true) b _ (opens 3 true (omega arith)) e)

-- The optional index, whether it is there or not: what follows it is left to be read.
index_reads :
    (index : Option ℕ) (field : List ℕ) (b : Buffer)
    → IndexFits index
    → b.rest ≡ index_field index ++ (between_tags 3 field ++ [])
    → (b' : Buffer) × (forgive (context_value 2 (decoding b none) 0) ≡ (decoding b' none, index))
      × (b'.rest ≡ between_tags 3 field ++ [])
unfolding is_incorrect_tag
index_reads (some i) field b h e =
    let (b', p, r) =
      context_value-unsigned_field 2 i (omega arith) h b (between_tags 3 field ++ []) 0 e in
    (b', rw p, r)
index_reads none field b h e =
    let (b', d) = value_tag field b [] e in
    (
      reading b.back b.rest false,
      rw (context_value_wrong_tag 2 0 (opening_tag 3 true) b b' (λ q. omega arith) d),
      e,
    )

-- ReadProperty.UnmarshalBinary reads the answer of a device, with fields in range and with the
-- array index or without it, into any receiver: the object, the property and the index are the
-- answer's, and so is the value, a Boolean, an unsigned integer, a Real, a string in UTF-8, an
-- enumerated value or an object identifier.
pub unmarshal_read_property-ack_bytes :
    (rp : ReadProperty) (o : ObjectId) (p : ℕ) (index : Option ℕ) (a : Answer)
    → IsStandard o
    → IsU32 p
    → IndexFits index
    → IsAnswer a
    → unmarshal_read_property rp (ack_bytes o p index (answer_field a))
      ≡ returns (
        record {
          object_id = o;
          property = record { property_type = p; array_index = index };
          content = answer_value a;
        },
        none,
      )
unmarshal_read_property-ack_bytes rp o p index a ho hp hi ha =
    let field : List ℕ = answer_field a in
    let value : List ℕ = between_tags 3 field ++ [] in
    let start : ack_bytes o p index field
        ≡ object_id_field 0 o ++ (unsigned_field 1 p ++ (index_field index ++ value)) =
      rw (append-nil (between_tags 3 field)) in
    let (b1, p1, r1) =
      context_object_id-object_id_field 0 o (omega arith) ho
        (new_buffer (ack_bytes o p index field))
        (unsigned_field 1 p ++ (index_field index ++ value)) rp.object_id start in
    let (b2, p2, r2) =
      context_value-unsigned_field 1 p (omega arith) hp b1 (index_field index ++ value) 0 r1 in
    let (b3, p3, r3) = index_reads index field b2 hi r2 in
    let (b4, p4, r4) =
      context_abstract_type-between_tags 3 field to_any rp.content (answer_value a) b3 []
        (omega arith) refl (λ b tail. answer-Reads a rp.content b tail ha) r3 in
    unfold unmarshal_read_property in rw (p1, p2, p3, p4)

-- An answer that has the value alone is accepted too. The missing object identifier sets the same
-- error as a missing index, which is reset: the object is the receiver's, the property is 0, and no
-- error is returned.
pub unmarshal_read_property_headless :
    (rp : ReadProperty) (v w : Value)
    → IsEncodable v
    → ReadsAs v to_any rp.content w
    → unmarshal_read_property rp (abstract_field 3 v)
      ≡ returns (
        record {
          object_id = rp.object_id;
          property = record { property_type = 0; array_index = none };
          content = w;
        },
        none,
      )
unfolding is_incorrect_tag
unmarshal_read_property_headless rp v w hv r =
    let b : Buffer = new_buffer (abstract_field 3 v) in
    let start : b.rest ≡ abstract_field 3 v ++ [] = sym (append-nil _) in
    let (b', d) = value_tag (app_field v) b [] start in
    let (b4, p4, r4) =
      context_abstract_type-abstract_field 3 v to_any rp.content w (reading b.back b.rest false) []
        (omega arith) hv r start in
    unfold unmarshal_read_property context_value in
    rw (
      context_object_id_wrong_tag 0 0 (opening_tag 3 true) b b' (λ q. omega arith) rp.object_id d,
      p4,
    )
