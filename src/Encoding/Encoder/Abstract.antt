-- ===== src/Encoding/Encoder/Abstract.antt =====
-- internal/encoding/encoding.go: ContextAsbtractType, a property value between two tags.
use baetyl_bacnet.Common.{ℕ, Bool, true, Option, none, some, ◌==◌, ◌||◌, if◌then◌else◌}
use baetyl_bacnet.Common.Go.{Error, message, Outcome, returns, panics}
use baetyl_bacnet.Bacnet.Value.{
  Value, nil, boolean, uint32, int32, float32, PropertyValue, type_null, type_boolean,
  type_unsigned_int, type_signed_int, type_real, type_double, type_octet_string,
  type_character_string, type_bit_string, type_enumerated, type_date, type_time, type_object_id,
}
use baetyl_bacnet.Encoding.Tag.{opening_tag, closing_tag}
use baetyl_bacnet.Encoding.Encoder.{
  Encoder, write_tag, context_null, context_boolean, context_unsigned, context_signed,
  context_type_real, context_type_double, context_type_enumerated,
}

-- The encoder after a call, and the error that the call returns.
abbrev pub Reply : Type 0
Reply = Outcome (Encoder × Option Error)

-- The error's text asks for the type of the value, which panics if there is none.
unfoldable pub wrong_value : Encoder → Value → Reply
wrong_value e nil = panics
wrong_value e _ = returns (e, some (message "wrong value, value:[%v]"))

abbrev pub close_with : ℕ → Encoder → Reply
close_with tab_number e = returns (write_tag e (closing_tag tab_number true), none)

-- One helper for each type of Go value that a property type asks for.
unfoldable pub boolean_content : ℕ → Encoder → ℕ → Value → Reply
unfolding wrong_value
boolean_content n e tag (boolean b) = close_with n (context_boolean e tag b)
boolean_content n e tag v = wrong_value e v

unfoldable pub uint32_content : (Encoder → ℕ → ℕ → Encoder) → ℕ → Encoder → ℕ → Value → Reply
unfolding wrong_value
uint32_content method n e tag (uint32 v) = close_with n (method e tag v)
uint32_content method n e tag v = wrong_value e v

unfoldable pub int32_content : ℕ → Encoder → ℕ → Value → Reply
unfolding wrong_value
int32_content n e tag (int32 v) = close_with n (context_signed e tag v)
int32_content n e tag v = wrong_value e v

unfoldable pub float32_content : (Encoder → ℕ → ℕ → Encoder) → ℕ → Encoder → ℕ → Value → Reply
unfolding wrong_value
float32_content method n e tag (float32 v) = close_with n (method e tag v)
float32_content method n e tag v = wrong_value e v

-- The property types of which nothing is written.
abbrev pub is_left_empty : ℕ → Bool
is_left_empty tag =
    tag == type_octet_string
    || tag == type_character_string
    || tag == type_bit_string
    || tag == type_date
    || tag == type_time
    || tag == type_object_id

unfoldable pub content : ℕ → Encoder → PropertyValue → Reply
unfolding boolean_content uint32_content int32_content float32_content
content n e v =
    if v.tag == type_null
    then close_with n (context_null e v.tag)
    else if v.tag == type_boolean
    then boolean_content n e v.tag v.value
    else if v.tag == type_unsigned_int
    then uint32_content context_unsigned n e v.tag v.value
    else if v.tag == type_signed_int
    then int32_content n e v.tag v.value
    else if v.tag == type_real
    then float32_content context_type_real n e v.tag v.value
    else if v.tag == type_double
    then float32_content context_type_double n e v.tag v.value
    else if v.tag == type_enumerated
    then uint32_content context_type_enumerated n e v.tag v.value
    else if is_left_empty v.tag
    then close_with n e
    else returns (e, some (message "wrong Type. type:[%d]"))

unfoldable pub context_abstract_type : Encoder → ℕ → PropertyValue → Reply
unfolding content
context_abstract_type e tab_number v =
    content tab_number (write_tag e (opening_tag tab_number true)) v
