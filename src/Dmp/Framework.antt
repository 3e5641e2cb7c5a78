-- ===== src/Dmp/Framework.antt =====
-- The parts of github.com/baetyl/baetyl-go/v2 that the program reads and calls. The structs have the
-- fields that are read; the functions are parameters of the model.
use baetyl_bacnet.Common.{ℕ, List, Option}
use baetyl_bacnet.Common.Go.{Result}
use baetyl_bacnet.Common.Text.{Text}
use baetyl_bacnet.Bacnet.Value.{Value}

-- dmcontext.DeviceProperty; `visitor` is Visitor.Custom, a string behind a pointer.
pub record DeviceProperty : Type 0 where
  pub id : Text
  pub name : Text
  pub kind : Text
  pub mode : Text
  pub visitor : Option Text

-- dmcontext.ModelMapping; `kind` is its Type.
pub record ModelMapping : Type 0 where
  pub attribute : Text
  pub kind : Text
  pub expression : Text

pub record AccessTemplate : Type 0 where
  pub properties : List DeviceProperty
  pub mappings : List ModelMapping

-- dmcontext.DeviceInfo; `custom` is AccessConfig.Custom.
pub record DeviceInfo : Type 0 where
  pub name : Text
  pub custom : Option Text

-- The functions and the constants of dmcontext. Its expressions are over float64 values.
pub record Dmcontext : Type 0 where
  pub mapping_value : Text
  pub parse_expression : Text → Result (List Text)
  pub solve_expression : Text → ℕ → Result Value
  pub exec_expression : Text → List (Text × Value) → Text → Result Value

-- The names of the number types.
pub record TypeNames : Type 0 where
  pub type_int16 : Text
  pub type_int32 : Text
  pub type_int64 : Text
  pub type_float32 : Text
  pub type_float64 : Text

-- The conversions of Go between its number types, on bit patterns, where they go by the rounding of
-- floats: to float64, to float32, and to the integers of each width. `decimal_of_float32` is what
-- `strconv.ParseFloat` makes of the shortest decimal form of a float32.
pub record Floats : Type 0 where
  pub float64_of_int : ℕ → ℕ
  pub float32_of_int : ℕ → ℕ
  pub float32_of_float64 : ℕ → ℕ
  pub decimal_of_float32 : ℕ → Result ℕ
  pub uint32_of_float32 : ℕ → ℕ
  pub uint32_of_float64 : ℕ → ℕ
  pub int16_of_float64 : ℕ → ℕ
  pub int32_of_float64 : ℕ → ℕ
  pub int64_of_float64 : ℕ → ℕ
