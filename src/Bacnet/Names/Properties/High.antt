-- ===== src/Bacnet/Names/Properties/High.antt =====
-- bacnet/properties.go: the constants of PropertyType, in the order of the source.
use baetyl_bacnet.Common.{ℕ, List, [], ◌∷◌, String}

abbrev pub property_types_2 : List (String × ℕ)
property_types_2 =
    ("AuthenticationPolicyNames", 0x103)
    ∷ ("AuthenticationStatus", 0x104)
    ∷ ("AuthorizationMode", 0x105)
    ∷ ("BelongsTo", 0x106)
    ∷ ("CredentialDisable", 0x107)
    ∷ ("CredentialStatus", 0x108)
    ∷ ("Credentials", 0x109)
    ∷ ("CredentialsInZone", 0x10A)
    ∷ ("DaysRemaining", 0x10B)
    ∷ ("EntryPoints", 0x10C)
    ∷ ("ExitPoints", 0x10D)
    ∷ ("ExpiryTime", 0x10E)
    ∷ ("ExtendedTimeEnable", 0x10F)
    ∷ ("FailedAttemptEvents", 0x110)
    ∷ ("FailedAttempts", 0x111)
    ∷ ("FailedAttemptsTime", 0x112)
    ∷ ("LastAccessEvent", 0x113)
    ∷ ("LastAccessPoint", 0x114)
    ∷ ("LastCredentialAdded", 0x115)
    ∷ ("LastCredentialAddedTime", 0x116)
    ∷ ("LastCredentialRemoved", 0x117)
    ∷ ("LastCredentialRemovedTime", 0x118)
    ∷ ("LastUseTime", 0x119)
    ∷ ("Lockout", 0x11A)
    ∷ ("LockoutRelinquishTime", 0x11B)
    ∷ ("MasterExemption", 0x11C)
    ∷ ("MaxFailedAttempts", 0x11D)
    ∷ ("Members", 0x11E)
    ∷ ("MusterPoint", 0x11F)
    ∷ ("NegativeAccessRules", 0x120)
    ∷ ("NumberOfAuthenticationPolicies", 0x121)
    ∷ ("OccupancyCount", 0x122)
    ∷ ("OccupancyCountAdjust", 0x123)
    ∷ ("OccupancyCountEnable", 0x124)
    ∷ ("OccupancyExemption", 0x125)
    ∷ ("OccupancyLowerLimit", 0x126)
    ∷ ("OccupancyLowerLimitEnforced", 0x127)
    ∷ ("OccupancyState", 0x128)
    ∷ ("OccupancyUpperLimit", 0x129)
    ∷ ("OccupancyUpperLimitEnforced", 0x12A)
    ∷ ("PassbackExemption", 0x12B)
    ∷ ("PassbackMode", 0x12C)
    ∷ ("PassbackTimeout", 0x12D)
    ∷ ("PositiveAccessRules", 0x12E)
    ∷ ("ReasonForDisable", 0x12F)
    ∷ ("SupportedFormats", 0x130)
    ∷ ("SupportedFormatClasses", 0x131)
    ∷ ("ThreatAuthority", 0x132)
    ∷ ("ThreatLevel", 0x133)
    ∷ ("TraceFlag", 0x134)
    ∷ ("TransactionNotificationClass", 0x135)
    ∷ ("UserExternalIdentifier", 0x136)
    ∷ ("UserInformationReference", 0x137)
    ∷ ("UserName", 0x13D)
    ∷ ("UserType", 0x13E)
    ∷ ("UsesRemaining", 0x13F)
    ∷ ("ZoneFrom", 0x140)
    ∷ ("ZoneTo", 0x141)
    ∷ ("AccessEventTag", 0x142)
    ∷ ("GlobalIdentifier", 0x143)
    ∷ ("VerificationTime", 0x146)
    ∷ ("BaseDeviceSecurityPolicy", 0x147)
    ∷ ("DistributionKeyRevision", 0x148)
    ∷ ("DoNotHide", 0x149)
    ∷ ("KeySets", 0x14A)
    ∷ ("LastKeyServer", 0x14B)
    ∷ ("NetworkAccessSecurityPolicies", 0x14C)
    ∷ ("PacketReorderTime", 0x14D)
    ∷ ("SecurityPduTimeout", 0x14E)
    ∷ ("SecurityTimeWindow", 0x14F)
    ∷ ("SupportedSecurityAlgorithm", 0x150)
    ∷ ("UpdateKeySetTimeout", 0x151)
    ∷ ("BackupAndRestoreState", 0x152)
    ∷ ("BackupPreparationTime", 0x153)
    ∷ ("RestoreCompletionTime", 0x154)
    ∷ ("RestorePreparationTime", 0x155)
    ∷ ("BitMask", 0x156)
    ∷ ("BitText", 0x157)
    ∷ ("IsUTC", 0x158)
    ∷ ("GroupMembers", 0x159)
    ∷ ("GroupMemberNames", 0x15A)
    ∷ ("MemberStatusFlags", 0x15B)
    ∷ ("RequestedUpdateInterval", 0x15C)
    ∷ ("CovuPeriod", 0x15D)
    ∷ ("CovuRecipients", 0x15E)
    ∷ ("EventMessageTexts", 0x15F)
    ∷ ("EventMessageTextsConfig", 0x160)
    ∷ ("EventDetectionEnable", 0x161)
    ∷ ("EventAlgorithmInhibit", 0x162)
    ∷ ("EventAlgorithmInhibitRef", 0x163)
    ∷ ("TimeDelayNormal", 0x164)
    ∷ ("ReliabilityEvaluationInhibit", 0x165)
    ∷ ("FaultParameters", 0x166)
    ∷ ("FaultType", 0x167)
    ∷ ("LocalForwardingOnly", 0x168)
    ∷ ("ProcessIdentifierFilter", 0x169)
    ∷ ("SubscribedRecipients", 0x16A)
    ∷ ("PortFilter", 0x16B)
    ∷ ("AuthorizationExemptions", 0x16C)
    ∷ ("AllowGroupDelayInhibit", 0x16D)
    ∷ ("ChannelNumber", 0x16E)
    ∷ ("ControlGroups", 0x16F)
    ∷ ("ExecutionDelay", 0x170)
    ∷ ("LastPriority", 0x171)
    ∷ ("WriteStatus", 0x172)
    ∷ ("PropertyList", 0x173)
    ∷ ("SerialNumber", 0x174)
    ∷ ("BlinkWarnEnable", 0x175)
    ∷ ("DefaultFadeTime", 0x176)
    ∷ ("DefaultRampRate", 0x177)
    ∷ ("DefaultStepIncrement", 0x178)
    ∷ ("EgressTime", 0x179)
    ∷ ("InProgress", 0x17A)
    ∷ ("InstantaneousPower", 0x17B)
    ∷ ("LightingCommand", 0x17C)
    ∷ ("LightingCommandDefaultPriority", 0x17D)
    ∷ ("MaxActualValue", 0x17E)
    ∷ ("MinActualValue", 0x17F)
    ∷ ("Power", 0x180)
    ∷ ("Transition", 0x181)
    ∷ []

abbrev pub property_types_3 : List (String × ℕ)
property_types_3 = ("EgressActive", 0x182) ∷ []
