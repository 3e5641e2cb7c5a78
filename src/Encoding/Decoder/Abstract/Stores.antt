-- ===== src/Encoding/Decoder/Abstract/Stores.antt =====
-- What is decoded from bytes is in the range of its type: ContextAbstractType.
use baetyl_bacnet.Common.{ℕ, not, ◌==◌, Bool-cases, Option-cases, inl, inr}
use baetyl_bacnet.Common.Go
use baetyl_bacnet.Common.Go.{Error, incorrect_tag_id, Result, ok, err, Outcome, returns, panics}
use baetyl_bacnet.Bacnet.Value.{Value}
use baetyl_bacnet.Encoding.Buffer.{Buffer}
use baetyl_bacnet.Encoding.Tag.{Tag, decode_tag}
use baetyl_bacnet.Encoding.Decoder.{Decoder, decoding}
use baetyl_bacnet.Encoding.Decoder.Reflect.{Target, Stored, is_pointer}
use baetyl_bacnet.Encoding.Decoder.AppData.Stores.{HasType, Stores, app_data-HasType}
use baetyl_bacnet.Encoding.Decoder.Fits.{IsBytes, Gives}
use baetyl_bacnet.Encoding.Decoder.Fits.Tags.{FitsRead, decode_tag-Gives}
use baetyl_bacnet.Encoding.Decoder.Abstract.{closing, after_content, opening, context_abstract_type}

module _ (n : ℕ) (target : Target) where
  closing-Fits :
      (v : Value) (r : Result (ℕ × Tag) × Buffer)
      → HasType target v
      → Gives FitsRead r
      → Stores target (returns (closing n v r))
  unfolding closing
  closing-Fits v (err e, b) o h = (h, o)
  closing-Fits v (ok (count, t), b) o (k, h) = elim (Bool-cases (not t.closing)) [
    | inl q ↦ rw q (h, o)
    | inr q ↦ elim (Bool-cases (t.id == n)) [
      | inl q2 ↦ rw (q, q2) (h, o)
      | inr q2 ↦ rw (q, q2) (h, o)
    ]
  ]

  after_content-Stores :
      (r : Stored) → Stores target r → Stores target (Go.◌>>=◌ r (after_content n))
  unfolding after_content
  after_content-Stores panics h = tt
  after_content-Stores (returns (d, v)) (h, o) = elim (Option-cases d.failure) [
    | inl q ↦ rw q (closing-Fits v (decode_tag d.buf) o (decode_tag-Gives d.buf h))
    | inr (e, q) ↦ rw q (h, o)
  ]

  opening-Stores :
      (old : Value) (r : Result (ℕ × Tag) × Buffer)
      → HasType target old
      → Gives FitsRead r
      → Stores target (opening n target old r)
  unfolding opening
  opening-Stores old (err e, b) o h = (h, o)
  opening-Stores old (ok (count, t), b) o (k, h) = elim (Bool-cases (not t.opening)) [
    | inl q ↦ rw q (h, o)
    | inr q ↦ rw q (after_content-Stores _ (app_data-HasType target old o (decoding b _) h))
  ]

  pub context_abstract_type-HasType :
      (d : Decoder) (old : Value)
      → HasType target old
      → IsBytes d.buf
      → Stores target (context_abstract_type n d target old)
  unfolding context_abstract_type
  context_abstract_type-HasType d old o h = elim (Option-cases d.failure) [
    | inl q ↦ elim (Bool-cases (is_pointer target)) [
      | inl p ↦ rw (q, p) (opening-Stores old (decode_tag d.buf) o (decode_tag-Gives d.buf h))
      | inr p ↦ rw (q, p) (h, o)
    ]
    | inr (e, q) ↦ rw q (h, o)
  ]
