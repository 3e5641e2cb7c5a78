-- ===== src/Bacnet/Names/Errors.antt =====
-- bacnet/errors.go and its generated String methods.
use baetyl_bacnet.Common.{
  ℕ, ◌-◌, ◌≡◌, refl, List, [], ◌∷◌, ◌++◌, String, ◌&&◌, arith, length, leb, ltb, if◌then◌else◌,
}
use baetyl_bacnet.Common.Go.{Outcome, returns}
use baetyl_bacnet.Common.Text.{Text, same_text, format_uint}
use baetyl_bacnet.Bacnet.Names.{
  piece_at, numbered, name_of, text_of, agrees_below, are_below, everywhere, not_less, not_in_front,
  not_between,
}

-- The constants of ErrorClass, in the order of the source.
abbrev pub error_classes : List (String × ℕ)
error_classes =
    ("DeviceError", 0x00)
    ∷ ("ObjectError", 0x01)
    ∷ ("PropertyError", 0x02)
    ∷ ("ResourcesError", 0x03)
    ∷ ("SecurityError", 0x04)
    ∷ ("ServicesError", 0x05)
    ∷ ("VTError", 0x06)
    ∷ ("CommunicationError", 0x07)
    ∷ []

abbrev pub error_class_names : String
error_class_names =
    "DeviceErrorObjectErrorPropertyErrorResourcesErrorSecurityErrorServicesErrorVTErrorCommunicationError"

abbrev pub error_class_index : List ℕ
error_class_index = 0 ∷ 11 ∷ 22 ∷ 35 ∷ 49 ∷ 62 ∷ 75 ∷ 82 ∷ 100 ∷ []

unfoldable pub error_class_string : ℕ → Outcome Text
error_class_string i =
    if ltb i (length error_class_index - 1)
    then piece_at error_class_names error_class_index i
    else returns (numbered "ErrorClass" i)

pub error_class_string-text_of :
    (i : ℕ) → error_class_string i ≡ returns (text_of "ErrorClass" error_classes i)
unfolding error_class_string agrees_below name_of numbered are_below same_text piece_at format_uint
error_class_string-text_of =
    everywhere error_class_string "ErrorClass" error_classes 8 refl refl
      λ i h. rw (not_less i (length error_class_index - 1) (omega (arith, h)))

-- The constants of ErrorCode, in the order of the source.
abbrev pub error_codes_0 : List (String × ℕ)
error_codes_0 =
    ("Other", 0x00)
    ∷ ("DeviceBusy", 0x03)
    ∷ ("ConfigurationInProgress", 0x02)
    ∷ ("OperationalProblem", 0x19)
    ∷ ("DynamicCreationNotSupported", 0x04)
    ∷ ("NoObjectsOfSpecifiedType", 0x11)
    ∷ ("ObjectDeletionNotPermitted", 0x17)
    ∷ ("ObjectIdentifierAlreadyExists", 0x18)
    ∷ ("ReadAccessDenied", 0x1B)
    ∷ ("UnknownObject", 0x1F)
    ∷ ("UnsupportedObjectType", 0x24)
    ∷ ("CharacterSetNotSupported", 0x29)
    ∷ ("DatatypeNotSupported", 0x2F)
    ∷ ("InconsistentSelectionCriterion", 0x08)
    ∷ ("InvalidArrayIndex", 0x2A)
    ∷ ("InvalidDataType", 0x09)
    ∷ ("NotCovProperty", 0x2C)
    ∷ ("OptionalFunctionalityNotSupported", 0x2D)
    ∷ ("PropertyIsNotAnArray", 0x32)
    ∷ ("UnknownProperty", 0x20)
    ∷ ("ValueOutOfRange", 0x25)
    ∷ ("WriteAccessDenied", 0x28)
    ∷ ("NoSpaceForObject", 0x12)
    ∷ ("NoSpaceToAddListElement", 0x13)
    ∷ ("NoSpaceToWriteProperty", 0x14)
    ∷ ("AuthenticationFailed", 0x01)
    ∷ ("IncompatibleSecurityLevels", 0x06)
    ∷ ("InvalidOperatorName", 0x0C)
    ∷ ("KeyGenerationError", 0x0F)
    ∷ ("PasswordFailure", 0x1A)
    ∷ ("SecurityNotSupported", 0x1C)
    ∷ ("Timeout", 0x1E)
    ∷ ("CovSubscriptionFailed", 0x2B)
    ∷ ("DuplicateName", 0x30)
    ∷ ("DuplicateObjectID", 0x31)
    ∷ ("FileAccessDenied", 0x05)
    ∷ ("InconsistentParameters", 0x07)
    ∷ ("InvalidConfigurationData", 0x2E)
    ∷ ("InvalidFileAccessMethod", 0x0A)
    ∷ ("InvalidFileStartPosition", 0x0B)
    ∷ ("InvalidParameterDataType", 0x0D)
    ∷ ("InvalidTimeStamp", 0x0E)
    ∷ ("MissingRequiredParameter", 0x10)
    ∷ ("PropertyIsNotAList", 0x16)
    ∷ ("ServiceRequestDenied", 0x1D)
    ∷ ("UnknownVtClass", 0x22)
    ∷ ("UnknownVtSession", 0x23)
    ∷ ("NoVtSessionsAvailable", 0x15)
    ∷ ("VtSessionAlreadyClosed", 0x26)
    ∷ ("VtSessionTerminationFailure", 0x27)
    ∷ ("AbortBufferOverflow", 0x33)
    ∷ ("AbortInvalidApduInThisState", 0x34)
    ∷ ("AbortPreemptedByHigherPriorityTask", 0x35)
    ∷ ("AbortSegmentationNotSupported", 0x36)
    ∷ ("AbortProprietary", 0x37)
    ∷ ("AbortOther", 0x38)
    ∷ ("InvalidTag", 0x39)
    ∷ ("NetworkDown", 0x3A)
    ∷ ("RejectBufferOverflow", 0x3B)
    ∷ ("RejectInconsistentParameters", 0x3C)
    ∷ ("RejectInvalidParameterDataType", 0x3D)
    ∷ ("RejectInvalidTag", 0x3E)
    ∷ ("RejectMissingRequiredParameter", 0x3F)
    ∷ ("RejectParameterOutOfRange", 0x40)
    ∷ ("RejectTooManyArguments", 0x41)
    ∷ ("RejectUndefinedEnumeration", 0x42)
    ∷ ("RejectUnrecognizedService", 0x43)
    ∷ ("RejectProprietary", 0x44)
    ∷ ("RejectOther", 0x45)
    ∷ ("UnknownDevice", 0x46)
    ∷ ("UnknownRoute", 0x47)
    ∷ ("ValueNotInitialized", 0x48)
    ∷ ("InvalidEventState", 0x49)
    ∷ ("NoAlarmConfigured", 0x4A)
    ∷ ("LogBufferFull", 0x4B)
    ∷ ("LoggedValuePurged", 0x4C)
    ∷ ("NoPropertySpecified", 0x4D)
    ∷ ("NotConfiguredForTriggeredLogging", 0x4E)
    ∷ ("UnknownSubscription", 0x4F)
    ∷ ("ParameterOutOfRange", 0x50)
    ∷ ("ListElementNotFound", 0x51)
    ∷ ("Busy", 0x52)
    ∷ ("CommunicationDisabled", 0x53)
    ∷ ("Success", 0x54)
    ∷ ("AccessDenied", 0x55)
    ∷ ("BadDestinationAddress", 0x56)
    ∷ ("BadDestinationDeviceID", 0x57)
    ∷ ("BadSignature", 0x58)
    ∷ ("BadSourceAddress", 0x59)
    ∷ ("BadTimestamp", 0x5A)
    ∷ ("CannotUseKey", 0x5B)
    ∷ ("CannotVerifyMessageID", 0x5C)
    ∷ ("CorrectKeyRevision", 0x5D)
    ∷ ("DestinationDeviceIDRequired", 0x5E)
    ∷ ("DuplicateMessage", 0x5F)
    ∷ ("EncryptionNotConfigured", 0x60)
    ∷ ("EncryptionRequired", 0x61)
    ∷ ("IncorrectKey", 0x62)
    ∷ ("InvalidKeyData", 0x63)
    ∷ ("KeyUpdateInProgress", 0x64)
    ∷ ("MalformedMessage", 0x65)
    ∷ ("NotKeyServer", 0x66)
    ∷ ("SecurityNotConfigured", 0x67)
    ∷ ("SourceSecurityRequired", 0x68)
    ∷ ("TooManyKeys", 0x69)
    ∷ ("UnknownAuthenticationType", 0x6A)
    ∷ ("UnknownKey", 0x6B)
    ∷ ("UnknownKeyRevision", 0x6C)
    ∷ ("UnknownSourceMessage", 0x6D)
    ∷ ("NotRouterToDnet", 0x6E)
    ∷ ("RouterBusy", 0x6F)
    ∷ ("UnknownNetworkMessage", 0x70)
    ∷ ("MessageTooLong", 0x71)
    ∷ ("SecurityErrorCode", 0x72)
    ∷ ("AddressingError", 0x73)
    ∷ ("WriteBdtFailed", 0x74)
    ∷ ("ReadBdtFailed", 0x75)
    ∷ ("RegisterForeignDeviceFailed", 0x76)
    ∷ ("ReadFdtFailed", 0x77)
    ∷ ("DeleteFdtEntryFailed", 0x78)
    ∷ []

abbrev pub error_codes_1 : List (String × ℕ)
error_codes_1 =
    ("DistributeBroadcastFailed", 0x79)
    ∷ ("UnknownFileSize", 0x7A)
    ∷ ("AbortApduTooLong", 0x7B)
    ∷ ("AbortApplicationExceededReplyTime", 0x7C)
    ∷ ("AbortOutOfResources", 0x7D)
    ∷ ("AbortTsmTimeout", 0x7E)
    ∷ ("AbortWindowSizeOutOfRange", 0x7F)
    ∷ ("FileFull", 0x80)
    ∷ ("InconsistentConfiguration", 0x81)
    ∷ ("InconsistentObjectType", 0x82)
    ∷ ("InternalError", 0x83)
    ∷ ("NotConfigured", 0x84)
    ∷ ("OutOfMemory", 0x85)
    ∷ ("ValueTooLong", 0x86)
    ∷ ("AbortInsufficientSecurity", 0x87)
    ∷ ("AbortSecurityError", 0x88)
    ∷ []

abbrev pub error_codes : List (String × ℕ)
error_codes = error_codes_0 ++ error_codes_1

abbrev pub error_code_names_0 : String
error_code_names_0 =
    "OtherAuthenticationFailedConfigurationInProgressDeviceBusyDynamicCreationNotSupportedFileAccessDeniedIncompatibleSecurityLevelsInconsistentParametersInconsistentSelectionCriterionInvalidDataTypeInvalidFileAccessMethodInvalidFileStartPositionInvalidOperatorNameInvalidParameterDataTypeInvalidTimeStampKeyGenerationErrorMissingRequiredParameterNoObjectsOfSpecifiedTypeNoSpaceForObjectNoSpaceToAddListElementNoSpaceToWritePropertyNoVtSessionsAvailablePropertyIsNotAListObjectDeletionNotPermittedObjectIdentifierAlreadyExistsOperationalProblemPasswordFailureReadAccessDeniedSecurityNotSupportedServiceRequestDeniedTimeoutUnknownObjectUnknownProperty"

abbrev pub error_code_index_0 : List ℕ
error_code_index_0 =
    0 ∷ 5 ∷ 25 ∷ 48 ∷ 58 ∷ 85 ∷ 101 ∷ 127 ∷ 149 ∷ 179 ∷ 194 ∷ 217 ∷ 241 ∷ 260 ∷ 284 ∷ 300 ∷ 318
    ∷ 342 ∷ 366 ∷ 382 ∷ 405 ∷ 427 ∷ 448 ∷ 466 ∷ 492 ∷ 521 ∷ 539 ∷ 554 ∷ 570 ∷ 590 ∷ 610 ∷ 617 ∷ 630
    ∷ 645 ∷ []

abbrev pub error_code_names_1 : String
error_code_names_1 =
    "UnknownVtClassUnknownVtSessionUnsupportedObjectTypeValueOutOfRangeVtSessionAlreadyClosedVtSessionTerminationFailureWriteAccessDeniedCharacterSetNotSupportedInvalidArrayIndexCovSubscriptionFailedNotCovPropertyOptionalFunctionalityNotSupportedInvalidConfigurationDataDatatypeNotSupportedDuplicateNameDuplicateObjectIDPropertyIsNotAnArrayAbortBufferOverflowAbortInvalidApduInThisStateAbortPreemptedByHigherPriorityTaskAbortSegmentationNotSupportedAbortProprietaryAbortOtherInvalidTagNetworkDownRejectBufferOverflowRejectInconsistentParametersRejectInvalidParameterDataTypeRejectInvalidTagRejectMissingRequiredParameterRejectParameterOutOfRangeRejectTooManyArgumentsRejectUndefinedEnumerationRejectUnrecognizedServiceRejectProprietaryRejectOtherUnknownDeviceUnknownRouteValueNotInitializedInvalidEventStateNoAlarmConfiguredLogBufferFullLoggedValuePurgedNoPropertySpecifiedNotConfiguredForTriggeredLoggingUnknownSubscriptionParameterOutOfRangeListElementNotFoundBusyCommunicationDisabledSuccessAccessDeniedBadDestinationAddressBadDestinationDeviceIDBadSignatureBadSourceAddressBadTimestampCannotUseKeyCannotVerifyMessageIDCorrectKeyRevisionDestinationDeviceIDRequiredDuplicateMessageEncryptionNotConfiguredEncryptionRequiredIncorrectKeyInvalidKeyDataKeyUpdateInProgressMalformedMessageNotKeyServerSecurityNotConfiguredSourceSecurityRequiredTooManyKeysUnknownAuthenticationTypeUnknownKeyUnknownKeyRevisionUnknownSourceMessageNotRouterToDnetRouterBusyUnknownNetworkMessageMessageTooLongSecurityErrorCodeAddressingErrorWriteBdtFailedReadBdtFailedRegisterForeignDeviceFailedReadFdtFailedDeleteFdtEntryFailedDistributeBroadcastFailedUnknownFileSizeAbortApduTooLongAbortApplicationExceededReplyTimeAbortOutOfResourcesAbortTsmTimeoutAbortWindowSizeOutOfRangeFileFullInconsistentConfigurationInconsistentObjectTypeInternalErrorNotConfiguredOutOfMemoryValueTooLongAbortInsufficientSecurityAbortSecurityError"

abbrev pub error_code_index_1 : List ℕ
error_code_index_1 =
    0 ∷ 14 ∷ 30 ∷ 51 ∷ 66 ∷ 88 ∷ 115 ∷ 132 ∷ 156 ∷ 173 ∷ 194 ∷ 208 ∷ 241 ∷ 265 ∷ 285 ∷ 298 ∷ 315
    ∷ 335 ∷ 354 ∷ 381 ∷ 415 ∷ 444 ∷ 460 ∷ 470 ∷ 480 ∷ 491 ∷ 511 ∷ 539 ∷ 569 ∷ 585 ∷ 615 ∷ 640 ∷ 662
    ∷ 688 ∷ 713 ∷ 730 ∷ 741 ∷ 754 ∷ 766 ∷ 785 ∷ 802 ∷ 819 ∷ 832 ∷ 849 ∷ 868 ∷ 900 ∷ 919 ∷ 938 ∷ 957
    ∷ 961 ∷ 982 ∷ 989 ∷ 1001 ∷ 1022 ∷ 1044 ∷ 1056 ∷ 1072 ∷ 1084 ∷ 1096 ∷ 1117 ∷ 1135 ∷ 1162 ∷ 1178
    ∷ 1201 ∷ 1219 ∷ 1231 ∷ 1245 ∷ 1264 ∷ 1280 ∷ 1292 ∷ 1313 ∷ 1335 ∷ 1346 ∷ 1371 ∷ 1381 ∷ 1399
    ∷ 1419 ∷ 1434 ∷ 1444 ∷ 1465 ∷ 1479 ∷ 1496 ∷ 1511 ∷ 1525 ∷ 1538 ∷ 1565 ∷ 1578 ∷ 1598 ∷ 1623
    ∷ 1638 ∷ 1654 ∷ 1687 ∷ 1706 ∷ 1721 ∷ 1746 ∷ 1754 ∷ 1779 ∷ 1801 ∷ 1814 ∷ 1827 ∷ 1838 ∷ 1850
    ∷ 1875 ∷ 1893 ∷ []

unfoldable pub error_code_string : ℕ → Outcome Text
error_code_string i =
    if leb i 32
    then piece_at error_code_names_0 error_code_index_0 i
    else if leb 34 i && leb i 136
    then piece_at error_code_names_1 error_code_index_1 (i - 34)
    else returns (numbered "ErrorCode" i)

pub error_code_string-text_of :
    (i : ℕ) → error_code_string i ≡ returns (text_of "ErrorCode" error_codes i)
unfolding error_code_string agrees_below name_of numbered are_below same_text piece_at format_uint
error_code_string-text_of =
    everywhere error_code_string "ErrorCode" error_codes 137 refl refl
      λ i h. rw (not_in_front i 32 (omega (arith, h)), not_between 34 i 136 (omega (arith, h)))
