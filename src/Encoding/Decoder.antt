-- ===== src/Encoding/Decoder.antt =====
-- internal/encoding/decoding.go: values read from bytes, with a sticky error.
pub mod Reflect
pub mod AppData
pub mod Abstract
pub mod Retry
pub mod Panics
pub mod Fits
use baetyl_bacnet.Common.{
  ℕ, zero, suc, ◌+◌, ◌*◌, ◌≡◌, Bool, true, false, not, List, Option, none, some, ◌==◌,
  if◌then◌else◌,
}
use baetyl_bacnet.Common.Go.{Error, incorrect_tag_id, message, Result, ok, err}
use baetyl_bacnet.Bacnet.ObjectId.{ObjectId, object_id_from_uint32}
use baetyl_bacnet.Encoding.Buffer.{
  Buffer, new_buffer, Reader, ◌>>=◌, done, wrapping, read_byte, read_uint, unread_one,
}
use baetyl_bacnet.Encoding.Tag.{Tag, decode_tag}

pub record Decoder : Type 0 where
  pub buf : Buffer
  pub failure : Option Error

abbrev pub new_decoder : List ℕ → Decoder
new_decoder b = record { buf = new_buffer b; failure = none }

abbrev pub decoding : Buffer → Option Error → Decoder
decoding b e = record { buf = b; failure = e }

abbrev pub reset_error : Decoder → Decoder
reset_error d = decoding d.buf none

-- The loop of `unread`, which stops at the first error.
abbrev pub go_on : Option Error × Buffer → (Buffer → Option Error × Buffer) → Option Error × Buffer
go_on (some e, b) next = (some e, b)
go_on (none, b) next = next b

unfoldable pub unread : ℕ → Buffer → Option Error × Buffer
unread zero b = (none, b)
unread (suc n) b = go_on (unread_one b) (unread n)

unfoldable pub decode_unsigned_with_len : ℕ → Reader ℕ
decode_unsigned_with_len length =
    if length == 1
    then wrapping "read unsigned with length 1 : " read_byte
    else if length == 2
    then wrapping "read unsigned with length 2 : " (read_uint 2)
    else if length == 3
    then (do
      msb ← wrapping "read unsigned with length 3 : " read_byte
      val ← wrapping "read unsigned with length 3 : " (read_uint 2)
      done (msb * 65536 + val))
    else if length == 4
    then wrapping "read unsigned with length 4 : " (read_uint 4)
    else done 0

-- The tag has another number: unread it, and keep the error of that if there is one.
abbrev mismatch : Error → Option Error × Buffer → Decoder
mismatch e (none, b) = decoding b (some e)
mismatch e (some u, b) = decoding b (some u)

module _ {A : Type 0} where
  -- A method's result: the decoder, and the variable behind the pointer that it was given.
  abbrev pub store : Option Error → A → Result A × Buffer → Decoder × A
  store failure old (ok v, b) = (decoding b failure, v)
  store failure old (err e, b) = (decoding b (some e), old)

  -- What both context methods do with the tag, before `body` reads the value.
  expecting : ℕ → A → (Tag → Buffer → Decoder × A) → Result (ℕ × Tag) × Buffer → Decoder × A
  expecting expected old body (err e, b) = (decoding b (some e), old)
  expecting expected old body (ok (length, t), b) =
      if t.id == expected
      then body t b
      else (mismatch (incorrect_tag_id expected t.id) (unread length b), old)

-- A tag that is not contextual sets the error, and the value is read all the same.
context_value_body : ℕ → Tag → Buffer → Decoder × ℕ
context_value_body old t b =
    store (if t.context then none else some (message "tag isn't contextual")) old
      (decode_unsigned_with_len t.value b)

unfoldable pub context_value : ℕ → Decoder → ℕ → Decoder × ℕ
unfolding expecting context_value_body
context_value expected d old = elim d.failure [
  | some e ↦ (d, old)
  | none ↦ expecting expected old (context_value_body old) (decode_tag d.buf)
]

-- The error of the read is dropped: `val` stays 0 then.
abbrev lenient : Result ℕ × Buffer → ObjectId × Buffer
lenient (ok v, b) = (object_id_from_uint32 v, b)
lenient (err e, b) = (object_id_from_uint32 0, b)

context_object_id_body : ObjectId → Tag → Buffer → Decoder × ObjectId
context_object_id_body old t b =
    if t.context
    then (let (o, b') = lenient (read_uint 4 b) in (decoding b' none, o))
    else (decoding b (some (message "tag isn't contextual")), old)

unfoldable pub context_object_id : ℕ → Decoder → ObjectId → Decoder × ObjectId
unfolding expecting context_object_id_body
context_object_id expected d old = elim d.failure [
  | some e ↦ (d, old)
  | none ↦ expecting expected old (context_object_id_body old) (decode_tag d.buf)
]
