-- ===== src/Bacnet/Names/Objects.antt =====
-- bacnet/types.go and its generated String methods.
use baetyl_bacnet.Common.{
  ℕ, ◌+◌, ◌-◌, ◌%◌, ◌≡◌, refl, List, [], ◌∷◌, String, arith, length, leb, ltb, ◌==◌, if◌then◌else◌,
}
use baetyl_bacnet.Common.Go.{Outcome, returns}
use baetyl_bacnet.Common.Text.{Text, bytes_of, same_text, format_uint}
use baetyl_bacnet.Encoding.Bytes.{IsByte}
use baetyl_bacnet.Bacnet.Names.{
  piece_at, numbered, name_of, text_of, agrees_below, agrees_below→eq, are_below, everywhere,
  not_less, not_in_front, not_equal,
}

-- The constants of ObjectType, in the order of the source.
abbrev pub object_types : List (String × ℕ)
object_types =
    ("AnalogInput", 0x00)
    ∷ ("AnalogOutput", 0x01)
    ∷ ("AnalogValue", 0x02)
    ∷ ("BinaryInput", 0x03)
    ∷ ("BinaryOutput", 0x04)
    ∷ ("BinaryValue", 0x05)
    ∷ ("Calendar", 0x06)
    ∷ ("Command", 0x07)
    ∷ ("BacnetDevice", 0x08)
    ∷ ("EventEnrollment", 0x09)
    ∷ ("File", 0x0A)
    ∷ ("Group", 0x0B)
    ∷ ("Loop", 0x0C)
    ∷ ("MultiStateInput", 0x0D)
    ∷ ("MultiStateOutput", 0x0E)
    ∷ ("NotificationClass", 0x0F)
    ∷ ("Program", 0x10)
    ∷ ("Schedule", 0x11)
    ∷ ("Averaging", 0x12)
    ∷ ("MultiStateValue", 0x13)
    ∷ ("Trendlog", 0x14)
    ∷ ("LifeSafetyPoint", 0x15)
    ∷ ("LifeSafetyZone", 0x16)
    ∷ ("Accumulator", 0x17)
    ∷ ("PulseConverter", 0x18)
    ∷ ("EventLog", 0x19)
    ∷ ("GlobalGroup", 0x1A)
    ∷ ("TrendLogMultiple", 0x1B)
    ∷ ("LoadControl", 0x1C)
    ∷ ("StructuredView", 0x1D)
    ∷ ("AccessDoor", 0x1E)
    ∷ ("Timer", 0x1F)
    ∷ ("AccessCredential", 0x20)
    ∷ ("AccessPoint", 0x21)
    ∷ ("AccessRights", 0x22)
    ∷ ("AccessUser", 0x23)
    ∷ ("AccessZone", 0x24)
    ∷ ("CredentialDataInput", 0x25)
    ∷ ("NetworkSecurity", 0x26)
    ∷ ("BitstringValue", 0x27)
    ∷ ("CharacterstringValue", 0x28)
    ∷ ("DatePatternValue", 0x29)
    ∷ ("DateValue", 0x2a)
    ∷ ("DatetimePatternValue", 0x2b)
    ∷ ("DatetimeValue", 0x2c)
    ∷ ("IntegerValue", 0x2d)
    ∷ ("LargeAnalogValue", 0x2e)
    ∷ ("OctetstringValue", 0x2f)
    ∷ ("PositiveIntegerValue", 0x30)
    ∷ ("TimePatternValue", 0x31)
    ∷ ("TimeValue", 0x32)
    ∷ ("NotificationForwarder", 0x33)
    ∷ ("AlertEnrollment", 0x34)
    ∷ ("Channel", 0x35)
    ∷ ("LightingOutput", 0x36)
    ∷ ("BinaryLightingOutput", 0x37)
    ∷ ("NetworkPort", 0x38)
    ∷ ("ProprietaryMin", 0x80)
    ∷ ("Proprietarymax", 0x3ff)
    ∷ []

abbrev pub object_type_names_0 : String
object_type_names_0 =
    "AnalogInputAnalogOutputAnalogValueBinaryInputBinaryOutputBinaryValueCalendarCommandBacnetDeviceEventEnrollmentFileGroupLoopMultiStateInputMultiStateOutputNotificationClassProgramScheduleAveragingMultiStateValueTrendlogLifeSafetyPointLifeSafetyZoneAccumulatorPulseConverterEventLogGlobalGroupTrendLogMultipleLoadControlStructuredViewAccessDoorTimerAccessCredentialAccessPointAccessRightsAccessUserAccessZoneCredentialDataInputNetworkSecurityBitstringValueCharacterstringValueDatePatternValueDateValueDatetimePatternValueDatetimeValueIntegerValueLargeAnalogValueOctetstringValuePositiveIntegerValueTimePatternValueTimeValueNotificationForwarderAlertEnrollmentChannelLightingOutputBinaryLightingOutputNetworkPort"

abbrev pub object_type_index_0 : List ℕ
object_type_index_0 =
    0 ∷ 11 ∷ 23 ∷ 34 ∷ 45 ∷ 57 ∷ 68 ∷ 76 ∷ 83 ∷ 95 ∷ 110 ∷ 114 ∷ 119 ∷ 123 ∷ 138 ∷ 154 ∷ 171 ∷ 178
    ∷ 186 ∷ 195 ∷ 210 ∷ 218 ∷ 233 ∷ 247 ∷ 258 ∷ 272 ∷ 280 ∷ 291 ∷ 307 ∷ 318 ∷ 332 ∷ 342 ∷ 347 ∷ 363
    ∷ 374 ∷ 386 ∷ 396 ∷ 406 ∷ 425 ∷ 440 ∷ 454 ∷ 474 ∷ 490 ∷ 499 ∷ 519 ∷ 532 ∷ 544 ∷ 560 ∷ 576 ∷ 596
    ∷ 612 ∷ 621 ∷ 642 ∷ 657 ∷ 664 ∷ 678 ∷ 698 ∷ 709 ∷ []

abbrev pub object_type_names_1 : String
object_type_names_1 = "ProprietaryMin"

abbrev pub object_type_names_2 : String
object_type_names_2 = "Proprietarymax"

unfoldable pub object_type_string : ℕ → Outcome Text
object_type_string i =
    if leb i 56
    then piece_at object_type_names_0 object_type_index_0 i
    else if i == 128
    then returns (bytes_of object_type_names_1)
    else if i == 1023
    then returns (bytes_of object_type_names_2)
    else returns (numbered "ObjectType" i)

pub object_type_string-text_of :
    (i : ℕ) → object_type_string i ≡ returns (text_of "ObjectType" object_types i)
unfolding object_type_string agrees_below name_of numbered are_below same_text piece_at format_uint
object_type_string-text_of =
    everywhere object_type_string "ObjectType" object_types 1024 refl refl λ i h. rw (
      not_in_front i 56 (omega (arith, h)),
      not_equal i 128 (omega (arith, h)),
      not_equal i 1023 (omega (arith, h)),
    )

-- The constants of SegmentationSupport, in the order of the source.
abbrev pub segmentation_supports : List (String × ℕ)
segmentation_supports =
    ("SegmentationSupportBoth", 0x00)
    ∷ ("SegmentationSupportTransmit", 0x01)
    ∷ ("SegmentationSupportReceive", 0x02)
    ∷ ("SegmentationSupportNone", 0x03)
    ∷ []

abbrev pub segmentation_support_names : String
segmentation_support_names =
    "SegmentationSupportBothSegmentationSupportTransmitSegmentationSupportReceiveSegmentationSupportNone"

abbrev pub segmentation_support_index : List ℕ
segmentation_support_index = 0 ∷ 23 ∷ 50 ∷ 76 ∷ 99 ∷ []

unfoldable pub segmentation_support_string : ℕ → Outcome Text
segmentation_support_string i =
    if ltb i (length segmentation_support_index - 1)
    then piece_at segmentation_support_names segmentation_support_index i
    else returns (numbered "SegmentationSupport" i)

pub segmentation_support_string-text_of :
    (i : ℕ)
    → segmentation_support_string i
      ≡ returns (text_of "SegmentationSupport" segmentation_supports i)
unfolding segmentation_support_string agrees_below name_of numbered are_below same_text piece_at
    format_uint
segmentation_support_string-text_of =
    everywhere segmentation_support_string "SegmentationSupport" segmentation_supports 4 refl refl
      λ i h. rw (not_less i (length segmentation_support_index - 1) (omega (arith, h)))

-- The constants of PriorityList, in the order of the source.
abbrev pub priorities : List (String × ℕ)
priorities =
    ("ManualLifeSafety1", 1)
    ∷ ("ManualLifeSafety2", 2)
    ∷ ("Available3", 3)
    ∷ ("Available4", 4)
    ∷ ("CriticalEquipementControl5", 5)
    ∷ ("MinimumOnOff6", 6)
    ∷ ("Available7", 7)
    ∷ ("ManualOperator8", 8)
    ∷ ("Available9", 9)
    ∷ ("Available10", 10)
    ∷ ("Available11", 11)
    ∷ ("Available12", 12)
    ∷ ("Available13", 13)
    ∷ ("Available14", 14)
    ∷ ("Available15", 15)
    ∷ ("Available16", 16)
    ∷ []

abbrev pub priority_list_names : String
priority_list_names =
    "ManualLifeSafety1ManualLifeSafety2Available3Available4CriticalEquipementControl5MinimumOnOff6Available7ManualOperator8Available9Available10Available11Available12Available13Available14Available15Available16"

abbrev pub priority_list_index : List ℕ
priority_list_index =
    0 ∷ 17 ∷ 34 ∷ 44 ∷ 54 ∷ 80 ∷ 93 ∷ 103 ∷ 118 ∷ 128 ∷ 139 ∷ 150 ∷ 161 ∷ 172 ∷ 183 ∷ 194 ∷ 205 ∷ []

unfoldable pub priority_list_string : ℕ → Outcome Text
priority_list_string i =
    let j = (i + 255) % 256 in
    if ltb j (length priority_list_index - 1)
    then piece_at priority_list_names priority_list_index j
    else returns (numbered "PriorityList" ((j + 1) % 256))

pub priority_list_string-text_of :
    (i : ℕ) → IsByte i → priority_list_string i ≡ returns (text_of "PriorityList" priorities i)
unfolding priority_list_string agrees_below name_of numbered same_text format_uint piece_at
priority_list_string-text_of i h =
    agrees_below→eq priority_list_string "PriorityList" priorities 256 refl i h
