-- ===== src/Encoding/Decoder/Fits/Context.antt =====
-- What is decoded from bytes is in the range of its type: ContextValue and ContextObjectID.
use baetyl_bacnet.Common.{ℕ, Option, none, some, ◌==◌, Bool-cases, Option-cases, inl, inr, arith}
use baetyl_bacnet.Common.Go.{Error, Result, ok, err}
use baetyl_bacnet.Bacnet.ObjectId.{ObjectId}
use baetyl_bacnet.Bacnet.ObjectId.Packing.{IsStandard, encode-object_id_from_uint32}
use baetyl_bacnet.Encoding.Bytes.{IsU32}
use baetyl_bacnet.Encoding.Buffer.{Buffer, read_uint}
use baetyl_bacnet.Encoding.Tag.{Tag, decode_tag}
use baetyl_bacnet.Encoding.Decoder.{
  Decoder, mismatch, store, expecting, lenient, context_value_body, context_object_id_body,
  context_value, context_object_id,
}
use baetyl_bacnet.Encoding.Decoder.Fits.{IsBytes, Gives, read_uint_four-Gives}
use baetyl_bacnet.Encoding.Decoder.Fits.Tags.{
  FitsRead, unread-IsBytes, decode_tag-Gives, decode_unsigned_with_len-Gives,
}

-- Bytes are left to read, and the variable has the property.
abbrev pub Holds : {A : Type 0} → (A → Type 0) → Decoder × A → Type 0
Holds P r = IsBytes r.0.buf × P r.1

mismatch-IsBytes :
    (e : Error) (r : Option Error × Buffer) → IsBytes r.1 → IsBytes (mismatch e r).buf
mismatch-IsBytes e (none, b) h = h
mismatch-IsBytes e (some u, b) h = h

module _ {A : Type 0} (P : A → Type 0) (old : A) (p : P old) where
  store-Holds : (f : Option Error) (r : Result A × Buffer) → Gives P r → Holds P (store f old r)
  store-Holds f (ok v, b) (k, h) = (h, k)
  store-Holds f (err e, b) h = (h, p)

  expecting-Holds :
      (n : ℕ) (body : Tag → Buffer → Decoder × A)
      → ((t : Tag) (b : Buffer) → IsBytes b → Holds P (body t b))
      → (r : Result (ℕ × Tag) × Buffer) → Gives FitsRead r
      → Holds P (expecting n old body r)
  unfolding expecting
  expecting-Holds n body g (err e, b) h = (h, p)
  expecting-Holds n body g (ok (length, t), b) (k, h) = elim (Bool-cases (t.id == n)) [
    | inl q ↦ rw q (g t b h)
    | inr q ↦ rw q (mismatch-IsBytes _ _ (unread-IsBytes length b h), p)
  ]

pub context_value-Holds :
    (n old : ℕ) (d : Decoder) → IsU32 old → IsBytes d.buf → Holds IsU32 (context_value n d old)
unfolding context_value context_value_body
context_value-Holds n old d o h = elim (Option-cases d.failure) [
  | inl q ↦ rw q (
      expecting-Holds IsU32 old o n (context_value_body old)
        (λ t b k. store-Holds IsU32 old o _ _ (decode_unsigned_with_len-Gives t.value b k))
        (decode_tag d.buf) (decode_tag-Gives d.buf h))
  | inr (e, q) ↦ rw q (h, o)
]

lenient-Fits :
    (r : Result ℕ × Buffer) → Gives IsU32 r → IsStandard (lenient r).0 × IsBytes (lenient r).1
lenient-Fits (ok v, b) (k, h) = ((encode-object_id_from_uint32 v k).0, h)
lenient-Fits (err e, b) h = ((encode-object_id_from_uint32 0 (omega arith)).0, h)

context_object_id_body-Holds :
    (old : ObjectId) (t : Tag) (b : Buffer)
    → IsStandard old
    → IsBytes b
    → Holds IsStandard (context_object_id_body old t b)
unfolding context_object_id_body
context_object_id_body-Holds old t b o h = elim (Bool-cases t.context) [
  | inl q ↦ let (s, k) = lenient-Fits (read_uint 4 b) (read_uint_four-Gives b h) in rw q (k, s)
  | inr q ↦ rw q (h, o)
]

pub context_object_id-Holds :
    (n : ℕ) (old : ObjectId) (d : Decoder)
    → IsStandard old
    → IsBytes d.buf
    → Holds IsStandard (context_object_id n d old)
unfolding context_object_id
context_object_id-Holds n old d o h = elim (Option-cases d.failure) [
  | inl q ↦ rw q (
      expecting-Holds IsStandard old o n (context_object_id_body old)
        (λ t b k. context_object_id_body-Holds old t b o k) (decode_tag d.buf)
        (decode_tag-Gives d.buf h))
  | inr (e, q) ↦ rw q (h, o)
]
