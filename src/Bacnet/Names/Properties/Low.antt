-- ===== src/Bacnet/Names/Properties/Low.antt =====
-- bacnet/properties.go: the constants of PropertyType, in the order of the source.
use baetyl_bacnet.Common.{ℕ, List, [], ◌∷◌, String}

abbrev pub property_types_0 : List (String × ℕ)
property_types_0 =
    ("AckedTransitions", 0x00)
    ∷ ("AckRequired", 0x01)
    ∷ ("Action", 0x02)
    ∷ ("ActionText", 0x03)
    ∷ ("ActiveText", 0x04)
    ∷ ("ActiveVtSessions", 0x05)
    ∷ ("AlarmValue", 0x06)
    ∷ ("AlarmValues", 0x07)
    ∷ ("All", 0x08)
    ∷ ("AllWritesSuccessful", 0x09)
    ∷ ("ApduSegmentTimeout", 0x0A)
    ∷ ("ApduTimeout", 0x0B)
    ∷ ("ApplicationSoftwareVersion", 0x0C)
    ∷ ("Archive", 0x0D)
    ∷ ("Bias", 0x0E)
    ∷ ("ChangeOfStateCount", 0x0F)
    ∷ ("ChangeOfStateTime", 0x10)
    ∷ ("NotificationClassProp", 0x11)
    ∷ ("ControlledVariableReference", 0x13)
    ∷ ("ControlledVariableUnits", 0x14)
    ∷ ("ControlledVariableValue", 0x15)
    ∷ ("CovIncrement", 0x16)
    ∷ ("DateList", 0x17)
    ∷ ("DaylightSavingsStatus", 0x18)
    ∷ ("Deadband", 0x19)
    ∷ ("DerivativeAnt", 0x1A)
    ∷ ("DerivativeAntUnits", 0x1B)
    ∷ ("Description", 0x1C)
    ∷ ("DescriptionOfHalt", 0x1D)
    ∷ ("DeviceAddressBinding", 0x1E)
    ∷ ("DeviceType", 0x1F)
    ∷ ("EffectivePeriod", 0x20)
    ∷ ("ElapsedActiveTime", 0x21)
    ∷ ("ErrorLimit", 0x22)
    ∷ ("EventEnable", 0x23)
    ∷ ("EventState", 0x24)
    ∷ ("EventType", 0x25)
    ∷ ("ExceptionSchedule", 0x26)
    ∷ ("FaultValues", 0x27)
    ∷ ("FeedbackValue", 0x28)
    ∷ ("FileAccessMethod", 0x29)
    ∷ ("FileSize", 0x2A)
    ∷ ("FileType", 0x2B)
    ∷ ("FirmwareRevision", 0x2C)
    ∷ ("HighLimit", 0x2D)
    ∷ ("InactiveText", 0x2E)
    ∷ ("InProcess", 0x2F)
    ∷ ("InstanceOf", 0x30)
    ∷ ("IntegralAnt", 0x31)
    ∷ ("IntegralAntUnits", 0x32)
    ∷ ("IssueConfirmedNotifications", 0x33)
    ∷ ("LimitEnable", 0x34)
    ∷ ("ListOfGroupMembers", 0x35)
    ∷ ("ListOfObjectPropertyReferences", 0x36)
    ∷ ("ListOfSessionKeys", 0x37)
    ∷ ("LocalDate", 0x38)
    ∷ ("LocalTime", 0x39)
    ∷ ("Location", 0x3A)
    ∷ ("LowLimit", 0x3B)
    ∷ ("ManipulatedVariableReference", 0x3C)
    ∷ ("MaximumOutput", 0x3D)
    ∷ ("MaxApduLengthAccepted", 0x3E)
    ∷ ("MaxInfoFrames", 0x3F)
    ∷ ("MaxMaster", 0x40)
    ∷ ("MaxPresValue", 0x41)
    ∷ ("MinimumOffTime", 0x42)
    ∷ ("MinimumOnTime", 0x43)
    ∷ ("MinimumOutput", 0x44)
    ∷ ("MinPresValue", 0x45)
    ∷ ("ModelName", 0x46)
    ∷ ("ModificationDate", 0x47)
    ∷ ("NotifyType", 0x48)
    ∷ ("NumberOfApduRetries", 0x49)
    ∷ ("NumberOfStates", 0x4A)
    ∷ ("ObjectIdentifier", 0x4B)
    ∷ ("ObjectList", 0x4C)
    ∷ ("ObjectName", 0x4D)
    ∷ ("ObjectPropertyReference", 0x4E)
    ∷ ("ObjectTypeProp", 0x4F)
    ∷ ("Optional", 0x50)
    ∷ ("OutOfService", 0x51)
    ∷ ("OutputUnits", 0x52)
    ∷ ("EventParameters", 0x53)
    ∷ ("Polarity", 0x54)
    ∷ ("PresentValue", 0x55)
    ∷ ("Priority", 0x56)
    ∷ ("PriorityArray", 0x57)
    ∷ ("PriorityForWriting", 0x58)
    ∷ ("ProcessIdentifier", 0x59)
    ∷ ("ProgramChange", 0x5A)
    ∷ ("ProgramLocation", 0x5B)
    ∷ ("ProgramState", 0x5C)
    ∷ ("ProportionalAnt", 0x5D)
    ∷ ("ProportionalAntUnits", 0x5E)
    ∷ ("ProtocolConformanceClass", 0x5F)
    ∷ ("ProtocolObjectTypesSupported", 0x60)
    ∷ ("ProtocolServicesSupported", 0x61)
    ∷ ("ProtocolVersion", 0x62)
    ∷ ("ReadOnly", 0x63)
    ∷ ("ReasonForHalt", 0x64)
    ∷ ("Recipient", 0x65)
    ∷ ("RecipientList", 0x66)
    ∷ ("Reliability", 0x67)
    ∷ ("RelinquishDefault", 0x68)
    ∷ ("Required", 0x69)
    ∷ ("Resolution", 0x6A)
    ∷ ("SegmentationSupported", 0x6B)
    ∷ ("Setpoint", 0x6C)
    ∷ ("SetpointReference", 0x6D)
    ∷ ("StateText", 0x6E)
    ∷ ("StatusFlags", 0x6F)
    ∷ ("SystemStatus", 0x70)
    ∷ ("TimeDelay", 0x71)
    ∷ ("TimeOfActiveTimeReset", 0x72)
    ∷ ("TimeOfStateCountReset", 0x73)
    ∷ ("TimeSynchronizationRecipients", 0x74)
    ∷ ("Units", 0x75)
    ∷ ("UpdateInterval", 0x76)
    ∷ ("UtcOffset", 0x77)
    ∷ ("VendorIdentifier", 0x78)
    ∷ []

abbrev pub property_types_1 : List (String × ℕ)
property_types_1 =
    ("VendorName", 0x79)
    ∷ ("VtClassesSupported", 0x7A)
    ∷ ("WeeklySchedule", 0x7B)
    ∷ ("AttemptedSamples", 0x7C)
    ∷ ("AverageValue", 0x7D)
    ∷ ("BufferSize", 0x7E)
    ∷ ("ClientCovIncrement", 0x7F)
    ∷ ("CovResubscriptionInterval", 0x80)
    ∷ ("CurrentNotifyTime", 0x81)
    ∷ ("EventTimeStamps", 0x82)
    ∷ ("LogBuffer", 0x83)
    ∷ ("LogDeviceObjectProperty", 0x84)
    ∷ ("Enable", 0x85)
    ∷ ("LogInterval", 0x86)
    ∷ ("MaximumValue", 0x87)
    ∷ ("MinimumValue", 0x88)
    ∷ ("NotificationThreshold", 0x89)
    ∷ ("PreviousNotifyTime", 0x8A)
    ∷ ("ProtocolRevision", 0x8B)
    ∷ ("RecordsSinceNotification", 0x8C)
    ∷ ("RecordCount", 0x8D)
    ∷ ("StartTime", 0x8E)
    ∷ ("StopTime", 0x8F)
    ∷ ("StopWhenFull", 0x90)
    ∷ ("TotalRecordCount", 0x91)
    ∷ ("ValidSamples", 0x92)
    ∷ ("WindowInterval", 0x93)
    ∷ ("WindowSamples", 0x94)
    ∷ ("MaximumValueTimestamp", 0x95)
    ∷ ("MinimumValueTimestamp", 0x96)
    ∷ ("VarianceValue", 0x97)
    ∷ ("ActiveCovSubscriptions", 0x98)
    ∷ ("BackupFailureTimeout", 0x99)
    ∷ ("ConfigurationFiles", 0x9A)
    ∷ ("DatabaseRevision", 0x9B)
    ∷ ("DirectReading", 0x9C)
    ∷ ("LastRestoreTime", 0x9D)
    ∷ ("MaintenanceRequired", 0x9E)
    ∷ ("MemberOf", 0x9F)
    ∷ ("Mode", 0xA0)
    ∷ ("OperationExpected", 0xA1)
    ∷ ("Setting", 0xA2)
    ∷ ("Silenced", 0xA3)
    ∷ ("TrackingValue", 0xA4)
    ∷ ("ZoneMembers", 0xA5)
    ∷ ("LifeSafetyAlarmValues", 0xA6)
    ∷ ("MaxSegmentsAccepted", 0xA7)
    ∷ ("ProfileName", 0xA8)
    ∷ ("AutoSlaveDiscovery", 0xA9)
    ∷ ("ManualSlaveAddressBinding", 0xAA)
    ∷ ("SlaveAddressBinding", 0xAB)
    ∷ ("SlaveProxyEnable", 0xAC)
    ∷ ("LastNotifyRecord", 0xAD)
    ∷ ("ScheduleDefault", 0xAE)
    ∷ ("AcceptedModes", 0xAF)
    ∷ ("AdjustValue", 0xB0)
    ∷ ("Count", 0xB1)
    ∷ ("CountBeforeChange", 0xB2)
    ∷ ("CountChangeTime", 0xB3)
    ∷ ("CovPeriod", 0xB4)
    ∷ ("InputReference", 0xB5)
    ∷ ("LimitMonitoringInterval", 0xB6)
    ∷ ("LoggingObject", 0xB7)
    ∷ ("LoggingRecord", 0xB8)
    ∷ ("Prescale", 0xB9)
    ∷ ("PulseRate", 0xBA)
    ∷ ("Scale", 0xBB)
    ∷ ("ScaleFactor", 0xBC)
    ∷ ("UpdateTime", 0xBD)
    ∷ ("ValueBeforeChange", 0xBE)
    ∷ ("ValueSet", 0xBF)
    ∷ ("ValueChangeTime", 0xC0)
    ∷ ("AlignIntervals", 0xC1)
    ∷ ("IntervalOffset", 0xC3)
    ∷ ("LastRestartReason", 0xC4)
    ∷ ("LoggingType", 0xC5)
    ∷ ("RestartNotificationRecipients", 0xCA)
    ∷ ("TimeOfDeviceRestart", 0xCB)
    ∷ ("TimeSynchronizationInterval", 0xCC)
    ∷ ("Trigger", 0xCD)
    ∷ ("UTCTimeSynchronizationRecipients", 0xCE)
    ∷ ("NodeSubtype", 0xCF)
    ∷ ("NodeType", 0xD0)
    ∷ ("StructuredObjectList", 0xD1)
    ∷ ("SubordinateAnnotations", 0xD2)
    ∷ ("SubordinateList", 0xD3)
    ∷ ("ActualShedLevel", 0xD4)
    ∷ ("DutyWindow", 0xD5)
    ∷ ("ExpectedShedLevel", 0xD6)
    ∷ ("FullDutyBaseline", 0xD7)
    ∷ ("RequestedShedLevel", 0xDA)
    ∷ ("ShedDuration", 0xDB)
    ∷ ("ShedLevelDescriptions", 0xDC)
    ∷ ("ShedLevels", 0xDD)
    ∷ ("StateDescription", 0xDE)
    ∷ ("DoorAlarmState", 0xE2)
    ∷ ("DoorExtendedPulseTime", 0xE3)
    ∷ ("DoorMembers", 0xE4)
    ∷ ("DoorOpenTooLongTime", 0xE5)
    ∷ ("DoorPulseTime", 0xE6)
    ∷ ("DoorStatus", 0xE7)
    ∷ ("DoorUnlockDelayTime", 0xE8)
    ∷ ("LockStatus", 0xE9)
    ∷ ("MaskedAlarmValues", 0xEA)
    ∷ ("SecuredStatus", 0xEB)
    ∷ ("AbsenteeLimit", 0xF4)
    ∷ ("AccessAlarmEvents", 0xF5)
    ∷ ("AccessDoors", 0xF6)
    ∷ ("AccessEvent", 0xF7)
    ∷ ("AccessEventAuthenticationFactor", 0xF8)
    ∷ ("AccessEventCredential", 0xF9)
    ∷ ("AccessEventTime", 0xFA)
    ∷ ("AccessTransactionEvents", 0xFB)
    ∷ ("Accompaniment", 0xFC)
    ∷ ("AccompanimentTime", 0xFD)
    ∷ ("ActivationTime", 0xFE)
    ∷ ("ActiveAuthenticationPolicy", 0xFF)
    ∷ ("AssignedAccessRights", 0x100)
    ∷ ("AuthenticationFactors", 0x101)
    ∷ ("AuthenticationPolicyList", 0x102)
    ∷ []
