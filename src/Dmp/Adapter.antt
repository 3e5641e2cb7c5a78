-- ===== src/Dmp/Adapter.antt =====
-- dmp/dmp_adapter.go.
use baetyl_bacnet.Common.{ℕ, ◌+◌, ◌%◌, List, [], ◌∷◌, Bool, ltb, if◌then◌else◌}
use baetyl_bacnet.Common.Go.{Error, message, Result, ok, err, Outcome, returns, panics, ◌>>=◌}
use baetyl_bacnet.Common.Text.{Text, same_text}
use baetyl_bacnet.Bacnet.Value.{Value, boolean, native_int, int16, int32, int64, float32, float64}
use baetyl_bacnet.Dmp.Framework.{
  DeviceProperty, ModelMapping, AccessTemplate, Dmcontext, TypeNames, Floats,
}

-- The loop stops at the first property of the id.
unfoldable pub named_by : Text → List DeviceProperty → Text
unfolding same_text
named_by id [] = []
named_by id (p ∷ ps) = if same_text id p.id then p.name else named_by id ps

abbrev pub non_empty : Text → Result Text
non_empty [] = err (message "unknown property id")
non_empty (c ∷ cs) = ok (c ∷ cs)

unfoldable pub get_mapping_name : Text → AccessTemplate → Result Text
unfolding named_by
get_mapping_name id template = non_empty (named_by id template.properties)

-- `s[1:]` panics on the empty string.
abbrev pub tail_of : Text → Outcome Text
tail_of [] = panics
tail_of (c ∷ cs) = returns cs

-- An expression without a parameter lets the loop go on.
abbrev first_id : Result (List Text) → Outcome (Result Text) → Outcome (Result Text)
first_id (err e) next = returns (err e)
first_id (ok []) next = next
first_id (ok (id ∷ ids)) next = do s ← tail_of id; returns (ok s)

module _ (dm : Dmcontext) where
  unfoldable pub config_id : Text → List ModelMapping → Outcome (Result Text)
  unfolding same_text
  config_id name [] = returns (err (message "config id not exist"))
  config_id name (m ∷ ms) =
      let next = config_id name ms in
      if same_text m.attribute name then first_id (dm.parse_expression m.expression) next else next

  unfoldable pub get_config_id_by_model_name : Text → AccessTemplate → Outcome (Result Text)
  unfolding config_id
  get_config_id_by_model_name name template = config_id name template.mappings

-- The signed integers by their patterns of 64 bits.
abbrev sign_extend : ℕ → ℕ → ℕ → ℕ
sign_extend half fill v = if ltb v half then v else v + fill

abbrev pub int64_of_int16 : ℕ → ℕ
int64_of_int16 = sign_extend 0x8000 0xFFFFFFFFFFFF0000

abbrev pub int64_of_int32 : ℕ → ℕ
int64_of_int32 = sign_extend 0x80000000 0xFFFFFFFF00000000

abbrev unsupported {ℓ} : {A : Type ℓ} → Result A
unsupported = err (message "unsupported value type")

module _ (fl : Floats) where
  unfoldable pub parse_value_to_float64 : Value → Result ℕ
  parse_value_to_float64 (native_int v) = ok (fl.float64_of_int v)
  parse_value_to_float64 (int16 v) = ok (fl.float64_of_int (int64_of_int16 v))
  parse_value_to_float64 (int32 v) = ok (fl.float64_of_int (int64_of_int32 v))
  parse_value_to_float64 (int64 v) = ok (fl.float64_of_int v)
  parse_value_to_float64 (float32 v) = fl.decimal_of_float32 v
  parse_value_to_float64 (float64 v) = ok v
  parse_value_to_float64 _ = unsupported

  unfoldable pub parse_value_to_float32 : Value → Result ℕ
  parse_value_to_float32 (int16 v) = ok (fl.float32_of_int (int64_of_int16 v))
  parse_value_to_float32 (int32 v) = ok (fl.float32_of_int (int64_of_int32 v))
  parse_value_to_float32 (int64 v) = ok (fl.float32_of_int v)
  parse_value_to_float32 (float32 v) = ok v
  parse_value_to_float32 (float64 v) = ok (fl.float32_of_float64 v)
  parse_value_to_float32 _ = unsupported

  -- An integer keeps its low 32 bits.
  unfoldable pub parse_value_to_uint32 : Value → Result ℕ
  parse_value_to_uint32 (int16 v) = ok (int64_of_int16 v % 4294967296)
  parse_value_to_uint32 (int32 v) = ok v
  parse_value_to_uint32 (int64 v) = ok (v % 4294967296)
  parse_value_to_uint32 (float32 v) = ok (fl.uint32_of_float32 v)
  parse_value_to_uint32 (float64 v) = ok (fl.uint32_of_float64 v)
  parse_value_to_uint32 _ = unsupported

  unfoldable pub parse_property_value : TypeNames → Error → Text → ℕ → Result Value
  unfolding same_text
  parse_property_value names not_supported kind val =
      if same_text kind names.type_int16
      then ok (int16 (fl.int16_of_float64 val))
      else if same_text kind names.type_int32
      then ok (int32 (fl.int32_of_float64 val))
      else if same_text kind names.type_int64
      then ok (int64 (fl.int64_of_float64 val))
      else if same_text kind names.type_float32
      then ok (float32 (fl.float32_of_float64 val))
      else if same_text kind names.type_float64
      then ok (float64 val)
      else err not_supported

unfoldable pub parse_value_to_bool : Value → Result Bool
parse_value_to_bool (boolean b) = ok b
parse_value_to_bool _ = err (message "unsupported value type except bool")

abbrev solved : Result ℕ → (ℕ → Result Value) → Result Value
solved (err e) f = err e
solved (ok v) f = f v

module _ (dm : Dmcontext) (fl : Floats) where
  unfoldable pub prop_value : Text → Value → List ModelMapping → Result Value
  unfolding same_text parse_value_to_float64
  prop_value name val [] = err (message "prop value not exist")
  prop_value name val (m ∷ ms) =
      if same_text m.attribute name
      then (if same_text m.kind dm.mapping_value
          then ok val
          else solved (parse_value_to_float64 fl val) (dm.solve_expression m.expression))
      else prop_value name val ms

  unfoldable pub get_prop_value_by_model_name : Text → Value → AccessTemplate → Result Value
  unfolding prop_value
  get_prop_value_by_model_name name val template = prop_value name val template.mappings
