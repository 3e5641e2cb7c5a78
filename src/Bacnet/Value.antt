-- ===== src/Bacnet/Value.antt =====
-- The dynamic values that an `interface{}` of the program holds.
use baetyl_bacnet.Common.{ℕ, Bool, List}
use baetyl_bacnet.Bacnet.ObjectId.{ObjectId}

-- A float is its IEEE 754 bit pattern, a signed integer of any width its two's complement pattern,
-- and a string its bytes. `native_int` is Go's int, of 64 bits. `foreign` is a value of any type that
-- the program does not name.
pub data Value : Type 0 where
  nil foreign : Value
  boolean : Bool → Value
  uint8 uint16 uint32 native_int int16 int32 int64 float32 float64 : ℕ → Value
  segmentation error_class error_code : ℕ → Value
  text : List ℕ → Value
  object_id : ObjectId → Value

-- bacnet.PropertyValue: `tag` is the PropertyValueType, a byte.
pub record PropertyValue : Type 0 where
  pub tag : ℕ
  pub value : Value

abbrev pub type_null : ℕ
type_null = 0

abbrev pub type_boolean : ℕ
type_boolean = 1

abbrev pub type_unsigned_int : ℕ
type_unsigned_int = 2

abbrev pub type_signed_int : ℕ
type_signed_int = 3

abbrev pub type_real : ℕ
type_real = 4

abbrev pub type_double : ℕ
type_double = 5

abbrev pub type_octet_string : ℕ
type_octet_string = 6

abbrev pub type_character_string : ℕ
type_character_string = 7

abbrev pub type_bit_string : ℕ
type_bit_string = 8

abbrev pub type_enumerated : ℕ
type_enumerated = 9

abbrev pub type_date : ℕ
type_date = 10

abbrev pub type_time : ℕ
type_time = 11

abbrev pub type_object_id : ℕ
type_object_id = 12
