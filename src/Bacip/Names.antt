-- ===== src/Bacip/Names.antt =====
-- bacip/network_types.go: the enumerations and their generated String methods.
use baetyl_bacnet.Common.{
  ℕ, ◌-◌, ◌%◌, ◌≡◌, refl, List, [], ◌∷◌, ◌++◌, String, ◌&&◌, arith, length, leb, ltb, if◌then◌else◌,
}
use baetyl_bacnet.Common.Go.{Outcome, returns, ◌>>=◌}
use baetyl_bacnet.Common.Text.{Text, bytes_of, same_text, format_uint}
use baetyl_bacnet.Bacnet.Names.{
  piece_at, numbered, name_of, text_of, agrees_below, are_below, everywhere, not_less, not_in_front,
  not_between,
}
use baetyl_bacnet.Bacnet.Names.Objects.{
  object_types, object_type_string, object_type_string-text_of, segmentation_supports,
  segmentation_support_string, segmentation_support_string-text_of, priorities,
  priority_list_string, priority_list_string-text_of,
}
use baetyl_bacnet.Bacnet.Names.Errors.{
  error_classes, error_class_string, error_class_string-text_of, error_codes, error_code_string,
  error_code_string-text_of,
}
use baetyl_bacnet.Bacnet.Names.Properties.{
  property_types, property_type_string, property_type_string-text_of,
}
use baetyl_bacnet.Bacnet.Names.Units.{units, unit_string, unit_string-text_of}
use baetyl_bacnet.Bacip.Services.{ApduError}

-- The constants of Function, in the order of the source.
abbrev pub functions : List (String × ℕ)
functions =
    ("BacFuncResult", 0)
    ∷ ("BacFuncWriteBroadcastDistributionTable", 1)
    ∷ ("BacFuncBroadcastDistributionTable", 2)
    ∷ ("BacFuncBroadcastDistributionTableAck", 3)
    ∷ ("BacFuncForwardedNPDU", 4)
    ∷ ("BacFuncUnicast", 10)
    ∷ ("BacFuncBroadcast", 11)
    ∷ []

abbrev pub function_names_0 : String
function_names_0 =
    "BacFuncResultBacFuncWriteBroadcastDistributionTableBacFuncBroadcastDistributionTableBacFuncBroadcastDistributionTableAckBacFuncForwardedNPDU"

abbrev pub function_index_0 : List ℕ
function_index_0 = 0 ∷ 13 ∷ 51 ∷ 84 ∷ 120 ∷ 140 ∷ []

abbrev pub function_names_1 : String
function_names_1 = "BacFuncUnicastBacFuncBroadcast"

abbrev pub function_index_1 : List ℕ
function_index_1 = 0 ∷ 14 ∷ 30 ∷ []

unfoldable pub function_string : ℕ → Outcome Text
function_string i =
    if leb i 4
    then piece_at function_names_0 function_index_0 i
    else if leb 10 i && leb i 11
    then piece_at function_names_1 function_index_1 (i - 10)
    else returns (numbered "Function" i)

pub function_string-text_of : (i : ℕ) → function_string i ≡ returns (text_of "Function" functions i)
unfolding function_string agrees_below name_of numbered are_below same_text piece_at format_uint
function_string-text_of =
    everywhere function_string "Function" functions 12 refl refl
      λ i h. rw (not_in_front i 4 (omega (arith, h)), not_between 10 i 11 (omega (arith, h)))

-- The constants of NPDUPriority, in the order of the source.
abbrev pub npdu_priorities : List (String × ℕ)
npdu_priorities = ("LifeSafety", 3) ∷ ("CriticalEquipment", 2) ∷ ("Urgent", 1) ∷ ("Normal", 0) ∷ []

abbrev pub npdu_priority_names : String
npdu_priority_names = "NormalUrgentCriticalEquipmentLifeSafety"

abbrev pub npdu_priority_index : List ℕ
npdu_priority_index = 0 ∷ 6 ∷ 12 ∷ 29 ∷ 39 ∷ []

unfoldable pub npdu_priority_string : ℕ → Outcome Text
npdu_priority_string i =
    if ltb i (length npdu_priority_index - 1)
    then piece_at npdu_priority_names npdu_priority_index i
    else returns (numbered "NPDUPriority" i)

pub npdu_priority_string-text_of :
    (i : ℕ) → npdu_priority_string i ≡ returns (text_of "NPDUPriority" npdu_priorities i)
unfolding npdu_priority_string agrees_below name_of numbered are_below same_text piece_at
    format_uint
npdu_priority_string-text_of =
    everywhere npdu_priority_string "NPDUPriority" npdu_priorities 4 refl refl
      λ i h. rw (not_less i (length npdu_priority_index - 1) (omega (arith, h)))

-- fmt.Sprintf("apdu error class %v code %v", e.Class, e.Code), where %v calls String.
unfoldable pub error_text : ApduError → Outcome Text
error_text e = do
  class ← error_class_string e.class
  code ← error_code_string e.code
  returns (bytes_of "apdu error class " ++ (class ++ (bytes_of " code " ++ code)))

-- The text of an error names its class and its code, or gives their numbers.
pub error_text_lem :
    (e : ApduError)
    → error_text e
      ≡ returns (
          bytes_of "apdu error class "
          ++ (text_of "ErrorClass" error_classes e.class
              ++ (bytes_of " code " ++ text_of "ErrorCode" error_codes e.code)))
unfolding error_text
error_text_lem e = rw (error_class_string-text_of e.class, error_code_string-text_of e.code)

-- The generated String methods give, for a value of a declared constant, the name of the first
-- constant with that value, and for any other value the type and the value in decimal. They never
-- panic. The priority is a byte.
pub strings_name_constants :
    (i : ℕ)
    → (object_type_string i ≡ returns (text_of "ObjectType" object_types i))
      × (segmentation_support_string i
          ≡ returns (text_of "SegmentationSupport" segmentation_supports i))
      × (priority_list_string (i % 256) ≡ returns (text_of "PriorityList" priorities (i % 256)))
      × (error_class_string i ≡ returns (text_of "ErrorClass" error_classes i))
      × (error_code_string i ≡ returns (text_of "ErrorCode" error_codes i))
      × (property_type_string i ≡ returns (text_of "PropertyType" property_types i))
      × (unit_string i ≡ returns (text_of "Unit" units i))
      × (function_string i ≡ returns (text_of "Function" functions i))
      × (npdu_priority_string i ≡ returns (text_of "NPDUPriority" npdu_priorities i))
strings_name_constants i = (
  object_type_string-text_of i,
  segmentation_support_string-text_of i,
  priority_list_string-text_of (i % 256) (omega arith),
  error_class_string-text_of i,
  error_code_string-text_of i,
  property_type_string-text_of i,
  unit_string-text_of i,
  function_string-text_of i,
  npdu_priority_string-text_of i,
)
