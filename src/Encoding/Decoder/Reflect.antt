-- ===== src/Encoding/Decoder/Reflect.antt =====
-- internal/encoding/decoding.go: the variables that AppData stores into through reflection.
use baetyl_bacnet.Common.{Bool, true, false, none, if◌then◌else◌}
use baetyl_bacnet.Common.Go.{Outcome, returns, panics}
use baetyl_bacnet.Bacnet.Value.{
  Value, boolean, uint32, float32, text, segmentation, error_class, error_code, object_id,
}
use baetyl_bacnet.Encoding.Buffer.{Buffer}
use baetyl_bacnet.Encoding.Decoder.{Decoder, decoding}

-- The type of the variable behind the pointer: `to_any` is an empty interface, `to_other` a type
-- that no test of a kind or of a type finds, `to_named_float32` one of kind Float32 that is not
-- float32, and `not_a_pointer` an argument that is no pointer, or a nil one. A string or an object
-- identifier of a named type is a `to_other`, since these two are tested by their type.
pub data Target : Type 0 where
  to_any to_bool to_uint8 to_uint16 to_uint32 to_float32 to_string to_segmentation : Target
  to_error_class to_error_code to_object_id to_other to_named_float32 not_a_pointer : Target

-- The decoder and the variable afterwards, or a panic.
abbrev pub Stored : Type 0
Stored = Outcome (Decoder × Value)

-- rv.Set(reflect.ValueOf(v)) for the values that the decoder stores: it panics unless the value is
-- assignable to the variable's type.
unfoldable pub assignable : Target → Value → Bool
assignable to_any v = true
assignable to_bool (boolean b) = true
assignable to_uint32 (uint32 n) = true
assignable to_float32 (float32 n) = true
assignable to_string (text s) = true
assignable to_segmentation (segmentation n) = true
assignable to_error_class (error_class n) = true
assignable to_error_code (error_code n) = true
assignable to_object_id (object_id o) = true
assignable _ _ = false

unfoldable pub set : Target → Buffer → Value → Stored
unfolding assignable
set target b v = if assignable target v then returns (decoding b none, v) else panics

-- The kinds Uint8, Uint16 and Uint32, which the named integer types have too.
unfoldable pub is_uint_kind : Target → Bool
is_uint_kind to_uint8 = true
is_uint_kind to_uint16 = true
is_uint_kind to_uint32 = true
is_uint_kind to_segmentation = true
is_uint_kind to_error_class = true
is_uint_kind to_error_code = true
is_uint_kind _ = false

unfoldable pub is_empty_interface : Target → Bool
is_empty_interface to_any = true
is_empty_interface _ = false

unfoldable pub is_float : Target → Bool
is_float to_float32 = true
is_float to_any = true
is_float to_named_float32 = true
is_float _ = false

unfoldable pub is_string : Target → Bool
is_string to_string = true
is_string to_any = true
is_string _ = false

unfoldable pub is_object_id : Target → Bool
is_object_id to_object_id = true
is_object_id to_any = true
is_object_id _ = false

abbrev pub is_pointer : Target → Bool
is_pointer not_a_pointer = false
is_pointer _ = true
