-- ===== src/Encoding/Decoder/Retry.antt =====
-- Reading a tag again after it was found to have another number.
use baetyl_bacnet.Common.{ℕ, suc, ◌≡◌, ◌≢◌, false, none, some, arith}
use baetyl_bacnet.Common.Go.{incorrect_tag_id, unread_byte, ok}
use baetyl_bacnet.Bacnet.ObjectId.{ObjectId}
use baetyl_bacnet.Encoding.Buffer.{Buffer, reading, unread_one}
use baetyl_bacnet.Encoding.Tag.{Tag, decode_tag}
use baetyl_bacnet.Encoding.Tag.Takes.{Takes, decode_tag-Takes}
use baetyl_bacnet.Encoding.Decoder.{decoding, unread, context_value, context_object_id}

-- `unread` fails whenever it is asked for two bytes or more: the buffer allows one `UnreadByte`
-- after a read, whatever was read.
pub unread_fails : (n : ℕ) (b : Buffer) → (unread (suc (suc n)) b).0 ≡ some unread_byte
unfolding unread unread_one
unread_fails n b = ground arith

unread_single : (b b' : Buffer) → Takes 1 b b' → unread 1 b' ≡ (none, reading b.back b.rest false)
unfolding unread unread_one
unread_single b b' h = ground arith

module _ (expected old : ℕ) (t : Tag) (b b' : Buffer) (ne : t.id ≢ expected) where
  -- `ContextValue` at a tag of one byte and of another number reports ErrorIncorrectTagID, leaves
  -- the variable alone, and the same bytes can be read again.
  pub context_value_wrong_tag :
      decode_tag b ≡ (ok (1, t), b')
      → context_value expected (decoding b none) old
        ≡ (decoding (reading b.back b.rest false) (some (incorrect_tag_id expected t.id)), old)
  unfolding context_value
  context_value_wrong_tag e =
      rw e (ground (arith, unread_single b b' (decode_tag-Takes 1 t b b' e).2))

  -- `ContextValue` at a tag of two or more bytes and of another number reports the failure of
  -- `UnreadByte` in place of
  -- ErrorIncorrectTagID.
  pub context_value_wrong_long_tag :
      (n : ℕ)
      → decode_tag b ≡ (ok (suc (suc n), t), b')
      → (context_value expected (decoding b none) old).0.failure ≡ some unread_byte
  unfolding context_value
  context_value_wrong_long_tag n e = rw e (ground (arith, unread_fails n b'))

  -- `ContextObjectID` does the same at a tag of one byte.
  pub context_object_id_wrong_tag :
      (kept : ObjectId)
      → decode_tag b ≡ (ok (1, t), b')
      → context_object_id expected (decoding b none) kept
        ≡ (decoding (reading b.back b.rest false) (some (incorrect_tag_id expected t.id)), kept)
  unfolding context_object_id
  context_object_id_wrong_tag kept e =
      rw e (ground (arith, unread_single b b' (decode_tag-Takes 1 t b b' e).2))
