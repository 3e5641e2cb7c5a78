-- ===== src/Encoding/Decoder/Fits/Tags.antt =====
-- What is decoded from bytes is in the range of its type: tags and unsigned values.
use baetyl_bacnet.Common.{
  ℕ, zero, suc, Option, none, some, String, arith, ◌==◌, Bool-cases, inl, inr,
}
use baetyl_bacnet.Common.Go.{Error}
use baetyl_bacnet.Common.Bits.{bit_and-7}
use baetyl_bacnet.Encoding.Tag.{
  Tag, is_extended_tag_number, is_extended_value, is_opening_tag, is_closing_tag, flag16bits,
  flag32bits, decode_number, decode_wide, decode_value, decode_rest, decode_tag,
}
use baetyl_bacnet.Encoding.Bytes.{IsByte, IsU16, IsU32}
use baetyl_bacnet.Encoding.Buffer.{Buffer, wrapping, read_byte, read_uint, unread_one}
use baetyl_bacnet.Encoding.Decoder.{unread, go_on, decode_unsigned_with_len}
use baetyl_bacnet.Encoding.Decoder.Fits.{
  IsBytes, Gives, Gives-after, Gives-wrapping, Gives-weaken, read_byte-Gives, read_uint_two-Gives,
  read_uint_four-Gives, unread_one-IsBytes,
}

go_on-IsBytes :
    (r : Option Error × Buffer) (next : Buffer → Option Error × Buffer)
    → IsBytes r.1
    → ((b : Buffer) → IsBytes b → IsBytes (next b).1)
    → IsBytes (go_on r next).1
go_on-IsBytes (some e, b) next h k = h
go_on-IsBytes (none, b) next h k = k b h

pub unread-IsBytes : (n : ℕ) (b : Buffer) → IsBytes b → IsBytes (unread n b).1
unfolding unread
unread-IsBytes zero b h = h
unread-IsBytes (suc n) b h =
    go_on-IsBytes (unread_one b) (unread n) (unread_one-IsBytes b h) (unread-IsBytes n)

-- A read of one, two or four bytes with its label, as a uint32.
labelled_byte : (s : String) (b : Buffer) → IsBytes b → Gives IsU32 (wrapping s read_byte b)
labelled_byte s b h =
    Gives-wrapping IsU32 s read_byte b
      (Gives-weaken IsByte IsU32 (read_byte b) (λ a k. omega (arith, k)) (read_byte-Gives b h))

labelled_two : (s : String) (b : Buffer) → IsBytes b → Gives IsU16 (wrapping s (read_uint 2) b)
labelled_two s b h = Gives-wrapping IsU16 s (read_uint 2) b (read_uint_two-Gives b h)

labelled_four : (s : String) (b : Buffer) → IsBytes b → Gives IsU32 (wrapping s (read_uint 4) b)
labelled_four s b h = Gives-wrapping IsU32 s (read_uint 4) b (read_uint_four-Gives b h)

-- An unsigned value is in the range of a uint32, whatever length its tag announces.
pub decode_unsigned_with_len-Gives :
    (n : ℕ) (b : Buffer) → IsBytes b → Gives IsU32 (decode_unsigned_with_len n b)
unfolding decode_unsigned_with_len
decode_unsigned_with_len-Gives n b h = elim (Bool-cases (n == 1)) [
  | inl q1 ↦ rw q1 (labelled_byte _ b h)
  | inr q1 ↦ elim (Bool-cases (n == 2)) [
    | inl q2 ↦
        rw (q1, q2) (Gives-weaken IsU16 IsU32 _ (λ a k. omega (arith, k)) (labelled_two _ b h))
    | inr q2 ↦ elim (Bool-cases (n == 3)) [
      | inl q3 ↦
          rw (q1, q2, q3)
            (Gives-after IsByte IsU32 _ _
              (Gives-wrapping IsByte _ read_byte b (read_byte-Gives b h))
              λ msb b1 k1 h1.
                Gives-after IsU16 IsU32 _ _ (labelled_two _ b1 h1)
                  λ val b2 k2 h2. (omega (arith, k1, k2), h2))
      | inr q3 ↦ elim (Bool-cases (n == 4)) [
        | inl q4 ↦ rw (q1, q2, q3, q4) (labelled_four _ b h)
        | inr q4 ↦ rw (q1, q2, q3, q4) (omega arith, h)
      ]
    ]
  ]
]

-- A tag's number is a byte and its value a uint32.
pub record FitsTag (t : Tag) : Type 0 where
  pub id_fits : IsByte t.id
  pub value_fits : IsU32 t.value

abbrev pub FitsRead : ℕ × Tag → Type 0
FitsRead (count, t) = FitsTag t

decode_number-Gives :
    (first : ℕ) (b : Buffer)
    → IsByte first
    → IsBytes b
    → Gives (λ (p : ℕ × ℕ). IsByte p.1) (decode_number first b)
unfolding decode_number
decode_number-Gives first b k h = elim (Bool-cases (is_extended_tag_number first)) [
  | inl q ↦ rw q (
      Gives-after IsByte (λ (p : ℕ × ℕ). IsByte p.1) _ _
        (Gives-wrapping IsByte _ read_byte b (read_byte-Gives b h)) λ n b1 k1 h1. (k1, h1))
  | inr q ↦ rw q (omega (arith, k), h)
]

abbrev FitsValue : ℕ × ℕ → Type 0
FitsValue p = IsU32 p.1

decode_wide-Gives : (v : ℕ) (b : Buffer) → IsByte v → IsBytes b → Gives FitsValue (decode_wide v b)
unfolding decode_wide
decode_wide-Gives v b k h = elim (Bool-cases (v == flag16bits)) [
  | inl q ↦
      rw q
        (Gives-after IsU16 FitsValue _ _ (labelled_two _ b h) λ w b1 k1 h1. (omega (arith, k1), h1))
  | inr q ↦ elim (Bool-cases (v == flag32bits)) [
    | inl q2 ↦
        rw (q, q2) (Gives-after IsU32 FitsValue _ _ (labelled_four _ b h) λ w b1 k1 h1. (k1, h1))
    | inr q2 ↦ rw (q, q2) (omega (arith, k), h)
  ]
]

decode_value-Gives :
    (first : ℕ) (b : Buffer) → IsByte first → IsBytes b → Gives FitsValue (decode_value first b)
unfolding decode_value
decode_value-Gives first b k h = elim (Bool-cases (is_extended_value first)) [
  | inl q ↦ rw q (
      Gives-after IsByte FitsValue _ _ (Gives-wrapping IsByte _ read_byte b (read_byte-Gives b h))
        λ v b1 k1 h1. decode_wide-Gives v b1 k1 h1)
  | inr q ↦ rw q (ground (arith, bit_and-7 first k), h)
]

decode_rest-Gives :
    (first count id : ℕ) (b : Buffer)
    → IsByte first
    → IsByte id
    → IsBytes b
    → Gives FitsRead (decode_rest first count id b)
unfolding decode_rest
decode_rest-Gives first count id b k i h = elim (Bool-cases (is_opening_tag first)) [
  | inl q ↦ rw q (record { id_fits = i; value_fits = omega arith }, h)
  | inr q ↦ elim (Bool-cases (is_closing_tag first)) [
    | inl q2 ↦ rw (q, q2) (record { id_fits = i; value_fits = omega arith }, h)
    | inr q2 ↦
        rw (q, q2)
          (Gives-after FitsValue FitsRead _ _ (decode_value-Gives first b k h)
            λ p b1 k1 h1. (record { id_fits = i; value_fits = k1 }, h1))
  ]
]

pub decode_tag-Gives : (b : Buffer) → IsBytes b → Gives FitsRead (decode_tag b)
unfolding decode_tag
decode_tag-Gives b h =
    Gives-after IsByte FitsRead _ _ (Gives-wrapping IsByte _ read_byte b (read_byte-Gives b h))
      λ first b1 k1 h1.
        Gives-after (λ (p : ℕ × ℕ). IsByte p.1) FitsRead _ _ (decode_number-Gives first b1 k1 h1)
          λ p b2 k2 h2. decode_rest-Gives first p.0 p.1 b2 k1 k2 h2
