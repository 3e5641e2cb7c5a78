-- ===== src/Encoding/Decoder/Abstract.antt =====
-- internal/encoding/decoding.go: ContextAbstractType, a value between an opening and a closing tag.
pub mod Stores
use baetyl_bacnet.Common.{ℕ, not, none, some, ◌==◌, if◌then◌else◌}
use baetyl_bacnet.Common.Go
use baetyl_bacnet.Common.Go.{
  Error, incorrect_tag_id, message, wrapped, Result, ok, err, Outcome, returns, panics,
}
use baetyl_bacnet.Bacnet.Value.{Value}
use baetyl_bacnet.Encoding.Buffer.{Buffer}
use baetyl_bacnet.Encoding.Tag.{Tag, decode_tag}
use baetyl_bacnet.Encoding.Decoder.{Decoder, decoding}
use baetyl_bacnet.Encoding.Decoder.Reflect.{Target, Stored, is_pointer}
use baetyl_bacnet.Encoding.Decoder.AppData.{app_data, stops}

module _ (expected : ℕ) where
  closing : Value → Result (ℕ × Tag) × Buffer → Decoder × Value
  closing v (err e, b) = (decoding b (some (wrapped "decoder abstractType: read closing tag" e)), v)
  closing v (ok (count, t), b) =
      if not t.closing
      then (decoding b (some (message "decoder abstractType: expected closing tag")), v)
      else if t.id == expected
      then (decoding b none, v)
      else (decoding b (some (incorrect_tag_id expected t.id)), v)

  after_content : Decoder × Value → Stored
  unfolding closing
  after_content (d, v) = elim d.failure [
    | some e ↦ returns (d, v)
    | none ↦ returns (closing v (decode_tag d.buf))
  ]

  -- A wrong number on the opening tag sets the error, so that AppData does nothing.
  opening : Target → Value → Result (ℕ × Tag) × Buffer → Stored
  unfolding after_content
  opening target old (err e, b) = stops old b (wrapped "decoder abstractType: read opening tag" e)
  opening target old (ok (count, t), b) =
      if not t.opening
      then stops old b (message "decoder abstractType: expected opening tag")
      else Go.◌>>=◌
          (app_data
            (decoding b (if t.id == expected then none else some (incorrect_tag_id expected t.id)))
            target old)
          after_content

unfoldable pub context_abstract_type : ℕ → Decoder → Target → Value → Stored
unfolding opening
context_abstract_type expected d target old = elim d.failure [
  | some e ↦ returns (d, old)
  | none ↦
      if is_pointer target
      then opening expected target old (decode_tag d.buf)
      else stops old d.buf (message "decodeAppData: interface parameter isn't a pointer")
]
