-- ===== src/Encoding/RoundTrip/Abstract.antt =====
-- A value between an opening and a closing tag.
use baetyl_bacnet.Common.{
  ℕ, ◌≡◌, refl, sym, ◌∙◌, subst, true, List, ◌++◌, none, length, rev_onto, append_assoc, ==_refl,
}
use baetyl_bacnet.Common.Go.{ok}
use baetyl_bacnet.Bacnet.Value.{Value}
use baetyl_bacnet.Encoding.Bytes.{IsByte}
use baetyl_bacnet.Encoding.Buffer.{Buffer, reading}
use baetyl_bacnet.Encoding.Tag.{Tag, opening_tag, closing_tag, tag_bytes, decode_tag}
use baetyl_bacnet.Encoding.Tag.RoundTrip.{IsWireTag, opens, closes, decode_tag-encode_tag}
use baetyl_bacnet.Encoding.Decoder.{decoding}
use baetyl_bacnet.Encoding.Decoder.Reflect.{Target, is_pointer}
use baetyl_bacnet.Encoding.Decoder.AppData
use baetyl_bacnet.Encoding.Decoder.Abstract.{context_abstract_type}
use baetyl_bacnet.Encoding.RoundTrip.AppData.{
  IsEncodable, ReadsAs, Reads, app_field, app_field-Reads, ReadsAs-is_pointer,
}

-- What stands for a value under the tag number `id`.
abbrev pub between_tags : ℕ → List ℕ → List ℕ
between_tags id field =
    tag_bytes (opening_tag id true) ++ (field ++ tag_bytes (closing_tag id true))

abbrev pub abstract_field : ℕ → Value → List ℕ
abstract_field id v = between_tags id (app_field v)

-- `decodeTag` at the front of a buffer.
pub decode_tag-at :
    (t : Tag) (b : Buffer) (rest : List ℕ)
    → IsWireTag t
    → b.rest ≡ tag_bytes t ++ rest
    → decode_tag b
      ≡ (ok (length (tag_bytes t), t), reading (rev_onto (tag_bytes t) b.back) rest true)
decode_tag-at t b rest h e =
    subst
      (λ bytes.
        decode_tag (reading b.back bytes b.can_unread)
        ≡ (ok (length (tag_bytes t), t), reading (rev_onto (tag_bytes t) b.back) rest true))
      (sym e) (decode_tag-encode_tag b.back rest b.can_unread t h)

-- `ContextAbstractType` reads a value between its opening and closing tags, if `AppData` reads it,
-- stores it without an error, and leaves what follows.
pub context_abstract_type-between_tags :
    (id : ℕ) (field : List ℕ) (t : Target) (old w : Value) (b : Buffer) (rest : List ℕ)
    → IsByte id
    → is_pointer t ≡ true
    → ((b1 : Buffer) (tail : List ℕ)
        → b1.rest ≡ field ++ tail
        → Reads tail w (AppData.app_data (decoding b1 none) t old))
    → b.rest ≡ between_tags id field ++ rest
    → Reads rest w (context_abstract_type id (decoding b none) t old)
context_abstract_type-between_tags id field t old w b rest hi pointer reads e =
    let tail : List ℕ = tag_bytes (closing_tag id true) ++ rest in
    let regroup : b.rest ≡ tag_bytes (opening_tag id true) ++ (field ++ tail) =
      e ∙ simp append_assoc in
    let b1 : Buffer =
      reading (rev_onto (tag_bytes (opening_tag id true)) b.back) (field ++ tail) true in
    let (b2, p2, r2) = reads b1 tail refl in
    (
      reading (rev_onto (tag_bytes (closing_tag id true)) b2.back) rest true,
      unfold context_abstract_type in
          rw (
            decode_tag-at (opening_tag id true) b (field ++ tail) (opens id true hi) regroup,
            pointer,
            ==_refl id,
            p2,
            decode_tag-at (closing_tag id true) b2 rest (closes id true hi) r2,
            ==_refl id,
          ),
      refl,
    )

pub context_abstract_type-abstract_field :
    (id : ℕ) (v : Value) (t : Target) (old w : Value) (b : Buffer) (rest : List ℕ)
    → IsByte id
    → IsEncodable v
    → ReadsAs v t old w
    → b.rest ≡ abstract_field id v ++ rest
    → Reads rest w (context_abstract_type id (decoding b none) t old)
context_abstract_type-abstract_field id v t old w b rest hi h r =
    context_abstract_type-between_tags id (app_field v) t old w b rest hi (ReadsAs-is_pointer r)
      (λ b1 tail. app_field-Reads v t old w b1 tail h r)
