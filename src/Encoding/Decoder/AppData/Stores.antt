-- ===== src/Encoding/Decoder/AppData/Stores.antt =====
-- What is decoded from bytes is in the range of its type: AppData and the context methods.
use baetyl_bacnet.Common.{
  ℕ, zero, suc, ◌<◌, ◌≡◌, refl, subst, not, List, [], ◌∷◌, All, arith, length, take, ◌==◌, ◌||◌,
  Bool-cases, Option-cases, inl, inr,
}
use baetyl_bacnet.Common.Go.{Result, ok, err, returns, panics}
use baetyl_bacnet.Bacnet.ObjectId.{object_id_from_uint32}
use baetyl_bacnet.Bacnet.ObjectId.Packing.{IsStandard, encode-object_id_from_uint32}
use baetyl_bacnet.Bacnet.Value.{
  Value, nil, foreign, boolean, uint8, uint16, uint32, native_int, int16, int32, int64, float32,
  float64, text, segmentation, error_class, error_code, object_id,
}
use baetyl_bacnet.Encoding.Bytes.{IsByte, IsU16, IsU32}
use baetyl_bacnet.Encoding.Buffer.{Buffer}
use baetyl_bacnet.Encoding.Encoder.{utf8_encoding}
use baetyl_bacnet.Encoding.Tag.{
  Tag, application_null, application_boolean, application_unsigned_int, application_real,
  application_character_string, application_enumerated, application_object_id,
}
use baetyl_bacnet.Encoding.Decoder.{Decoder}
use baetyl_bacnet.Encoding.Decoder.Reflect.{
  Target, to_any, to_bool, to_uint8, to_uint16, to_uint32, to_float32, to_string, to_segmentation,
  to_error_class, to_error_code, to_object_id, to_other, to_named_float32, not_a_pointer, Stored,
  set, assignable, is_pointer, is_uint_kind, is_empty_interface, is_float, is_string, is_object_id,
}
use baetyl_bacnet.Encoding.Decoder.AppData.{
  app_data, app_content, app_tag, read_some, read_text, store_unsigned, store_real, store_text,
  store_string, store_enumerated, set_enumerated, store_object_id,
}
use baetyl_bacnet.Encoding.Decoder.Fits.{
  IsBytes, Gives, take-IsByte, drop-IsByte, rev_onto-IsByte, read_byte-Gives, read_uint_four-Gives,
}
use baetyl_bacnet.Encoding.Decoder.Fits.Tags.{
  FitsTag, FitsRead, decode_tag-Gives, decode_unsigned_with_len-Gives,
}

-- A value in the range of its Go type; an object identifier is one that BACnet allows.
abbrev pub IsFitting : Value → Type 0
IsFitting nil = Unit {0}
IsFitting foreign = Unit {0}
IsFitting (boolean b) = Unit {0}
IsFitting (uint8 n) = IsByte n
IsFitting (uint16 n) = IsU16 n
IsFitting (uint32 n) = IsU32 n
IsFitting (native_int n) = n < 18446744073709551616
IsFitting (int16 n) = IsU16 n
IsFitting (int32 n) = IsU32 n
IsFitting (int64 n) = n < 18446744073709551616
IsFitting (float32 n) = IsU32 n
IsFitting (float64 n) = n < 18446744073709551616
IsFitting (segmentation n) = IsByte n
IsFitting (error_class n) = IsU16 n
IsFitting (error_code n) = IsU32 n
IsFitting (text s) = All IsByte s
IsFitting (object_id o) = IsStandard o

-- What a variable of this type may hold. There is no variable without a pointer to it.
abbrev pub HasType : Target → Value → Type 0
HasType to_any v = IsFitting v
HasType to_bool (boolean b) = Unit {0}
HasType to_uint8 (uint8 n) = IsByte n
HasType to_uint16 (uint16 n) = IsU16 n
HasType to_uint32 (uint32 n) = IsU32 n
HasType to_float32 (float32 n) = IsU32 n
HasType to_string (text s) = All IsByte s
HasType to_segmentation (segmentation n) = IsByte n
HasType to_error_class (error_class n) = IsU16 n
HasType to_error_code (error_code n) = IsU32 n
HasType to_object_id (object_id o) = IsStandard o
HasType to_other foreign = Unit {0}
HasType to_named_float32 foreign = Unit {0}
HasType not_a_pointer v = Unit {0}
HasType _ _ = ⊥

-- A method's outcome: bytes are left to read, and the variable has its type.
abbrev pub Stores : Target → Stored → Type 0
Stores target panics = Unit {0}
Stores target (returns (d, v)) = IsBytes d.buf × HasType target v

set-Stores :
    (target : Target) (b : Buffer) (v : Value)
    → IsBytes b
    → IsFitting v
    → Stores target (set target b v)
unfolding set assignable
set-Stores to_any b v h k = (h, k)
set-Stores to_bool b (boolean x) h k = (h, k)
set-Stores to_uint32 b (uint32 x) h k = (h, k)
set-Stores to_float32 b (float32 x) h k = (h, k)
set-Stores to_string b (text x) h k = (h, k)
set-Stores to_segmentation b (segmentation x) h k = (h, k)
set-Stores to_error_class b (error_class x) h k = (h, k)
set-Stores to_error_code b (error_code x) h k = (h, k)
set-Stores to_object_id b (object_id x) h k = (h, k)
set-Stores _ b v h k = tt

set_enumerated-Stores :
    (any target : Target) (old : Value) (v : ℕ) (b : Buffer)
    → HasType target old
    → IsU32 v
    → IsBytes b
    → Stores target (set_enumerated any old target v b)
unfolding set_enumerated
set_enumerated-Stores any to_segmentation old v b o k h = (h, omega arith)
set_enumerated-Stores any to_error_class old v b o k h = (h, omega arith)
set_enumerated-Stores any to_error_code old v b o k h = (h, k)
set_enumerated-Stores any to_any old v b o k h = (h, k)
set_enumerated-Stores any _ old v b o k h = (h, o)

read_some-Gives : (n : ℕ) (b : Buffer) → IsBytes b → Gives (All IsByte) (read_some n b)
unfolding read_some
read_some-Gives n b h = go b.rest refl
  where
    go : (xs : List ℕ) → b.rest ≡ xs → Gives (All IsByte) (read_some n b)
    go [] e = elim (Bool-cases (n == 0)) [
      | inl q ↦ rw (e, q) (tt, (tt, tt))
      | inr q ↦ rw (e, q) (tt, tt)
    ]
    go (x ∷ xs) e =
        let hs = subst (All IsByte) e h.1 in
        let t = take-IsByte n (x ∷ xs) hs in
        rw e (t, (rev_onto-IsByte (take n (x ∷ xs)) b.back t h.0, drop-IsByte n (x ∷ xs) hs))

module _ (target : Target) (old : Value) (o : HasType target old) where
  store_unsigned-Stores :
      (r : Result ℕ × Buffer) → Gives IsU32 r → Stores target (store_unsigned target old r)
  unfolding store_unsigned
  store_unsigned-Stores (err e, b) h = (h, o)
  store_unsigned-Stores (ok v, b) (k, h) =
      elim (Bool-cases (is_uint_kind target || is_empty_interface target)) [
        | inl q ↦ rw q (set-Stores target b (uint32 v) h k)
        | inr q ↦ rw q (h, o)
      ]

  store_real-Stores :
      (r : Result ℕ × Buffer) → Gives IsU32 r → Stores target (store_real target old r)
  unfolding store_real
  store_real-Stores (err e, b) h = (h, o)
  store_real-Stores (ok v, b) (k, h) = elim (Bool-cases (is_float target)) [
    | inl q ↦ rw q (set-Stores target b (float32 v) h k)
    | inr q ↦ rw q (h, o)
  ]

  store_object_id-Stores :
      (r : Result ℕ × Buffer) → Gives IsU32 r → Stores target (store_object_id target old r)
  unfolding store_object_id
  store_object_id-Stores (err e, b) h = (h, o)
  store_object_id-Stores (ok v, b) (k, h) = elim (Bool-cases (is_object_id target)) [
    | inl q ↦ rw q (
        set-Stores target b (object_id (object_id_from_uint32 v)) h
          (encode-object_id_from_uint32 v k).0)
    | inr q ↦ rw q (h, o)
  ]

  store_enumerated-Stores :
      (r : Result ℕ × Buffer) → Gives IsU32 r → Stores target (store_enumerated target old r)
  unfolding store_enumerated
  store_enumerated-Stores (err e, b) h = (h, o)
  store_enumerated-Stores (ok v, b) (k, h) = set_enumerated-Stores target target old v b o k h

  store_text-Stores :
      (n : ℕ) (r : Result (List ℕ) × Buffer)
      → Gives (All IsByte) r
      → Stores target (store_text target old n r)
  unfolding store_text
  store_text-Stores n (err e, b) h = (h, o)
  store_text-Stores n (ok s, b) (k, h) = elim (Bool-cases (not (length s == n))) [
    | inl q ↦ rw q (h, o)
    | inr q1 ↦ elim (Bool-cases (is_string target)) [
      | inl q ↦ rw (q1, q) (set-Stores target b (text s) h k)
      | inr q ↦ rw (q1, q) (h, o)
    ]
  ]

  read_text-Stores : (n : ℕ) (b : Buffer) → IsBytes b → Stores target (read_text target old n b)
  unfolding read_text
  read_text-Stores zero b h = tt
  read_text-Stores (suc n) b h = store_text-Stores n (read_some n b) (read_some-Gives n b h)

  store_string-Stores :
      (n : ℕ) (r : Result ℕ × Buffer) → Gives IsByte r → Stores target (store_string target old n r)
  unfolding store_string
  store_string-Stores n (err e, b) h = (h, o)
  store_string-Stores n (ok x, b) (k, h) = elim (Bool-cases (x == utf8_encoding)) [
    | inl q ↦ rw q (read_text-Stores n b h)
    | inr q ↦ rw q (h, o)
  ]

  app_content-Stores :
      (t : Tag) (b : Buffer) → FitsTag t → IsBytes b → Stores target (app_content target old t b)
  unfolding app_content
  app_content-Stores t b k h = elim (Bool-cases (t.id == application_null)) [
    | inl q ↦ rw q (h, o)
    | inr q0 ↦ elim (Bool-cases (t.id == application_unsigned_int)) [
      | inl q ↦ rw (q0, q) (store_unsigned-Stores _ (decode_unsigned_with_len-Gives t.value b h))
      | inr q1 ↦ elim (Bool-cases (t.id == application_real)) [
        | inl q ↦ rw (q0, q1, q) (store_real-Stores _ (read_uint_four-Gives b h))
        | inr q2 ↦ elim (Bool-cases (t.id == application_character_string)) [
          | inl q ↦ rw (q0, q1, q2, q) (store_string-Stores t.value _ (read_byte-Gives b h))
          | inr q3 ↦ elim (Bool-cases (t.id == application_enumerated)) [
            | inl q ↦
                rw (q0, q1, q2, q3, q)
                  (store_enumerated-Stores _ (decode_unsigned_with_len-Gives t.value b h))
            | inr q4 ↦ elim (Bool-cases (t.id == application_object_id)) [
              | inl q ↦
                  rw (q0, q1, q2, q3, q4, q) (store_object_id-Stores _ (read_uint_four-Gives b h))
              | inr q5 ↦ elim (Bool-cases (t.id == application_boolean)) [
                | inl q ↦ rw (q0, q1, q2, q3, q4, q5, q) (set-Stores target b (boolean _) h tt)
                | inr q ↦ rw (q0, q1, q2, q3, q4, q5, q) (h, o)
              ]
            ]
          ]
        ]
      ]
    ]
  ]

  app_tag-Stores :
      (r : Result (ℕ × Tag) × Buffer) → Gives FitsRead r → Stores target (app_tag target old r)
  unfolding app_tag
  app_tag-Stores (err e, b) h = (h, o)
  app_tag-Stores (ok (count, t), b) (k, h) = elim (Bool-cases t.context) [
    | inl q ↦ rw q (h, o)
    | inr q ↦ rw q (app_content-Stores t b k h)
  ]

  -- `AppData` on bytes, with a variable that holds a value of its type: the variable holds one
  -- afterwards, in the range of the type, whatever the bytes are, unless it panics.
  pub app_data-HasType : (d : Decoder) → IsBytes d.buf → Stores target (app_data d target old)
  unfolding app_data
  app_data-HasType d h = elim (Option-cases d.failure) [
    | inl q ↦ elim (Bool-cases (is_pointer target)) [
      | inl p ↦ rw (q, p) (app_tag-Stores _ (decode_tag-Gives d.buf h))
      | inr p ↦ rw (q, p) (h, o)
    ]
    | inr (e, q) ↦ rw q (h, o)
  ]
