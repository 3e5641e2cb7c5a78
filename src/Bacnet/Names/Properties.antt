-- ===== src/Bacnet/Names/Properties.antt =====
-- bacnet/properties.go and its generated String method.
mod Low
mod High
use baetyl_bacnet.Common.{
  ℕ, ◌+◌, ◌-◌, ◌%◌, ◌<◌, ◌≤◌, ◌≡◌, refl, List, [], ◌∷◌, ◌++◌, String, Bool, true, false, ◌&&◌,
  arith, length, leb, ltb, ◌==◌, if◌then◌else◌,
}
use baetyl_bacnet.Common.Go.{Outcome, returns, panics}
use baetyl_bacnet.Common.Text.{Text, bytes_of, same_text, format_uint}
use baetyl_bacnet.Encoding.Bytes.{IsByte}
use baetyl_bacnet.Bacnet.Names.{
  piece_at, numbered, name_of, text_of, agrees, agrees_below, agrees_below→eq, are_below,
  everywhere, not_less, not_in_front, not_between, not_equal,
}
use baetyl_bacnet.Bacnet.Names.Properties.Low.{property_types_0, property_types_1}
use baetyl_bacnet.Bacnet.Names.Properties.High.{property_types_2, property_types_3}

-- The constants of PropertyType, in the order of the source.
abbrev pub property_types : List (String × ℕ)
property_types = property_types_0 ++ (property_types_1 ++ (property_types_2 ++ property_types_3))

abbrev pub property_type_names_0 : String
property_type_names_0 =
    "AckedTransitionsAckRequiredActionActionTextActiveTextActiveVtSessionsAlarmValueAlarmValuesAllAllWritesSuccessfulApduSegmentTimeoutApduTimeoutApplicationSoftwareVersionArchiveBiasChangeOfStateCountChangeOfStateTimeNotificationClassProp"

abbrev pub property_type_index_0 : List ℕ
property_type_index_0 =
    0 ∷ 16 ∷ 27 ∷ 33 ∷ 43 ∷ 53 ∷ 69 ∷ 79 ∷ 90 ∷ 93 ∷ 112 ∷ 130 ∷ 141 ∷ 167 ∷ 174 ∷ 178 ∷ 196 ∷ 213
    ∷ 234 ∷ []

abbrev pub property_type_names_1 : String
property_type_names_1 =
    "ControlledVariableReferenceControlledVariableUnitsControlledVariableValueCovIncrementDateListDaylightSavingsStatusDeadbandDerivativeAntDerivativeAntUnitsDescriptionDescriptionOfHaltDeviceAddressBindingDeviceTypeEffectivePeriodElapsedActiveTimeErrorLimitEventEnableEventStateEventTypeExceptionScheduleFaultValuesFeedbackValueFileAccessMethodFileSizeFileTypeFirmwareRevisionHighLimitInactiveTextInProcessInstanceOfIntegralAntIntegralAntUnitsIssueConfirmedNotificationsLimitEnableListOfGroupMembersListOfObjectPropertyReferencesListOfSessionKeysLocalDateLocalTimeLocationLowLimitManipulatedVariableReferenceMaximumOutputMaxApduLengthAcceptedMaxInfoFramesMaxMasterMaxPresValueMinimumOffTimeMinimumOnTimeMinimumOutputMinPresValueModelNameModificationDateNotifyTypeNumberOfApduRetriesNumberOfStatesObjectIdentifierObjectListObjectNameObjectPropertyReferenceObjectTypePropOptionalOutOfServiceOutputUnitsEventParametersPolarityPresentValuePriorityPriorityArrayPriorityForWritingProcessIdentifierProgramChangeProgramLocationProgramStateProportionalAntProportionalAntUnitsProtocolConformanceClassProtocolObjectTypesSupportedProtocolServicesSupportedProtocolVersionReadOnlyReasonForHaltRecipientRecipientListReliabilityRelinquishDefaultRequiredResolutionSegmentationSupportedSetpointSetpointReferenceStateTextStatusFlagsSystemStatusTimeDelayTimeOfActiveTimeResetTimeOfStateCountResetTimeSynchronizationRecipientsUnitsUpdateIntervalUtcOffsetVendorIdentifierVendorNameVtClassesSupportedWeeklyScheduleAttemptedSamplesAverageValueBufferSizeClientCovIncrementCovResubscriptionIntervalCurrentNotifyTimeEventTimeStampsLogBufferLogDeviceObjectPropertyEnableLogIntervalMaximumValueMinimumValueNotificationThresholdPreviousNotifyTimeProtocolRevisionRecordsSinceNotificationRecordCountStartTimeStopTimeStopWhenFullTotalRecordCountValidSamplesWindowIntervalWindowSamplesMaximumValueTimestampMinimumValueTimestampVarianceValueActiveCovSubscriptionsBackupFailureTimeoutConfigurationFilesDatabaseRevisionDirectReadingLastRestoreTimeMaintenanceRequiredMemberOfModeOperationExpectedSettingSilencedTrackingValueZoneMembersLifeSafetyAlarmValuesMaxSegmentsAcceptedProfileNameAutoSlaveDiscoveryManualSlaveAddressBindingSlaveAddressBindingSlaveProxyEnableLastNotifyRecordScheduleDefaultAcceptedModesAdjustValueCountCountBeforeChangeCountChangeTimeCovPeriodInputReferenceLimitMonitoringIntervalLoggingObjectLoggingRecordPrescalePulseRateScaleScaleFactorUpdateTimeValueBeforeChangeValueSetValueChangeTimeAlignIntervals"

abbrev pub property_type_index_1 : List ℕ
property_type_index_1 =
    0 ∷ 27 ∷ 50 ∷ 73 ∷ 85 ∷ 93 ∷ 114 ∷ 122 ∷ 135 ∷ 153 ∷ 164 ∷ 181 ∷ 201 ∷ 211 ∷ 226 ∷ 243 ∷ 253
    ∷ 264 ∷ 274 ∷ 283 ∷ 300 ∷ 311 ∷ 324 ∷ 340 ∷ 348 ∷ 356 ∷ 372 ∷ 381 ∷ 393 ∷ 402 ∷ 412 ∷ 423 ∷ 439
    ∷ 466 ∷ 477 ∷ 495 ∷ 525 ∷ 542 ∷ 551 ∷ 560 ∷ 568 ∷ 576 ∷ 604 ∷ 617 ∷ 638 ∷ 651 ∷ 660 ∷ 672 ∷ 686
    ∷ 699 ∷ 712 ∷ 724 ∷ 733 ∷ 749 ∷ 759 ∷ 778 ∷ 792 ∷ 808 ∷ 818 ∷ 828 ∷ 851 ∷ 865 ∷ 873 ∷ 885 ∷ 896
    ∷ 911 ∷ 919 ∷ 931 ∷ 939 ∷ 952 ∷ 970 ∷ 987 ∷ 1000 ∷ 1015 ∷ 1027 ∷ 1042 ∷ 1062 ∷ 1086 ∷ 1114
    ∷ 1139 ∷ 1154 ∷ 1162 ∷ 1175 ∷ 1184 ∷ 1197 ∷ 1208 ∷ 1225 ∷ 1233 ∷ 1243 ∷ 1264 ∷ 1272 ∷ 1289
    ∷ 1298 ∷ 1309 ∷ 1321 ∷ 1330 ∷ 1351 ∷ 1372 ∷ 1401 ∷ 1406 ∷ 1420 ∷ 1429 ∷ 1445 ∷ 1455 ∷ 1473
    ∷ 1487 ∷ 1503 ∷ 1515 ∷ 1525 ∷ 1543 ∷ 1568 ∷ 1585 ∷ 1600 ∷ 1609 ∷ 1632 ∷ 1638 ∷ 1649 ∷ 1661
    ∷ 1673 ∷ 1694 ∷ 1712 ∷ 1728 ∷ 1752 ∷ 1763 ∷ 1772 ∷ 1780 ∷ 1792 ∷ 1808 ∷ 1820 ∷ 1834 ∷ 1847
    ∷ 1868 ∷ 1889 ∷ 1902 ∷ 1924 ∷ 1944 ∷ 1962 ∷ 1978 ∷ 1991 ∷ 2006 ∷ 2025 ∷ 2033 ∷ 2037 ∷ 2054
    ∷ 2061 ∷ 2069 ∷ 2082 ∷ 2093 ∷ 2114 ∷ 2133 ∷ 2144 ∷ 2162 ∷ 2187 ∷ 2206 ∷ 2222 ∷ 2238 ∷ 2253
    ∷ 2266 ∷ 2277 ∷ 2282 ∷ 2299 ∷ 2314 ∷ 2323 ∷ 2337 ∷ 2360 ∷ 2373 ∷ 2386 ∷ 2394 ∷ 2403 ∷ 2408
    ∷ 2419 ∷ 2429 ∷ 2446 ∷ 2454 ∷ 2469 ∷ 2483 ∷ []

abbrev pub property_type_names_2 : String
property_type_names_2 = "IntervalOffsetLastRestartReasonLoggingType"

abbrev pub property_type_index_2 : List ℕ
property_type_index_2 = 0 ∷ 14 ∷ 31 ∷ 42 ∷ []

abbrev pub property_type_names_3 : String
property_type_names_3 =
    "RestartNotificationRecipientsTimeOfDeviceRestartTimeSynchronizationIntervalTriggerUTCTimeSynchronizationRecipientsNodeSubtypeNodeTypeStructuredObjectListSubordinateAnnotationsSubordinateListActualShedLevelDutyWindowExpectedShedLevelFullDutyBaseline"

abbrev pub property_type_index_3 : List ℕ
property_type_index_3 =
    0 ∷ 29 ∷ 48 ∷ 75 ∷ 82 ∷ 114 ∷ 125 ∷ 133 ∷ 153 ∷ 175 ∷ 190 ∷ 205 ∷ 215 ∷ 232 ∷ 248 ∷ []

abbrev pub property_type_names_4 : String
property_type_names_4 =
    "RequestedShedLevelShedDurationShedLevelDescriptionsShedLevelsStateDescription"

abbrev pub property_type_index_4 : List ℕ
property_type_index_4 = 0 ∷ 18 ∷ 30 ∷ 51 ∷ 61 ∷ 77 ∷ []

abbrev pub property_type_names_5 : String
property_type_names_5 =
    "DoorAlarmStateDoorExtendedPulseTimeDoorMembersDoorOpenTooLongTimeDoorPulseTimeDoorStatusDoorUnlockDelayTimeLockStatusMaskedAlarmValuesSecuredStatus"

abbrev pub property_type_index_5 : List ℕ
property_type_index_5 = 0 ∷ 14 ∷ 35 ∷ 46 ∷ 65 ∷ 78 ∷ 88 ∷ 107 ∷ 117 ∷ 134 ∷ 147 ∷ []

abbrev pub property_type_names_6 : String
property_type_names_6 =
    "AbsenteeLimitAccessAlarmEventsAccessDoorsAccessEventAccessEventAuthenticationFactorAccessEventCredentialAccessEventTimeAccessTransactionEventsAccompanimentAccompanimentTimeActivationTimeActiveAuthenticationPolicyAssignedAccessRightsAuthenticationFactorsAuthenticationPolicyListAuthenticationPolicyNamesAuthenticationStatusAuthorizationModeBelongsToCredentialDisableCredentialStatusCredentialsCredentialsInZoneDaysRemainingEntryPointsExitPointsExpiryTimeExtendedTimeEnableFailedAttemptEventsFailedAttemptsFailedAttemptsTimeLastAccessEventLastAccessPointLastCredentialAddedLastCredentialAddedTimeLastCredentialRemovedLastCredentialRemovedTimeLastUseTimeLockoutLockoutRelinquishTimeMasterExemptionMaxFailedAttemptsMembersMusterPointNegativeAccessRulesNumberOfAuthenticationPoliciesOccupancyCountOccupancyCountAdjustOccupancyCountEnableOccupancyExemptionOccupancyLowerLimitOccupancyLowerLimitEnforcedOccupancyStateOccupancyUpperLimitOccupancyUpperLimitEnforcedPassbackExemptionPassbackModePassbackTimeoutPositiveAccessRulesReasonForDisableSupportedFormatsSupportedFormatClassesThreatAuthorityThreatLevelTraceFlagTransactionNotificationClassUserExternalIdentifierUserInformationReference"

abbrev pub property_type_index_6 : List ℕ
property_type_index_6 =
    0 ∷ 13 ∷ 30 ∷ 41 ∷ 52 ∷ 83 ∷ 104 ∷ 119 ∷ 142 ∷ 155 ∷ 172 ∷ 186 ∷ 212 ∷ 232 ∷ 253 ∷ 277 ∷ 302
    ∷ 322 ∷ 339 ∷ 348 ∷ 365 ∷ 381 ∷ 392 ∷ 409 ∷ 422 ∷ 433 ∷ 443 ∷ 453 ∷ 471 ∷ 490 ∷ 504 ∷ 522 ∷ 537
    ∷ 552 ∷ 571 ∷ 594 ∷ 615 ∷ 640 ∷ 651 ∷ 658 ∷ 679 ∷ 694 ∷ 711 ∷ 718 ∷ 729 ∷ 748 ∷ 778 ∷ 792 ∷ 812
    ∷ 832 ∷ 850 ∷ 869 ∷ 896 ∷ 910 ∷ 929 ∷ 956 ∷ 973 ∷ 985 ∷ 1000 ∷ 1019 ∷ 1035 ∷ 1051 ∷ 1073 ∷ 1088
    ∷ 1099 ∷ 1108 ∷ 1136 ∷ 1158 ∷ 1182 ∷ []

abbrev pub property_type_names_7 : String
property_type_names_7 = "UserNameUserTypeUsesRemainingZoneFromZoneToAccessEventTagGlobalIdentifier"

abbrev pub property_type_index_7 : List ℕ
property_type_index_7 = 0 ∷ 8 ∷ 16 ∷ 29 ∷ 37 ∷ 43 ∷ 57 ∷ 73 ∷ []

abbrev pub property_type_names_8 : String
property_type_names_8 =
    "VerificationTimeBaseDeviceSecurityPolicyDistributionKeyRevisionDoNotHideKeySetsLastKeyServerNetworkAccessSecurityPoliciesPacketReorderTimeSecurityPduTimeoutSecurityTimeWindowSupportedSecurityAlgorithmUpdateKeySetTimeoutBackupAndRestoreStateBackupPreparationTimeRestoreCompletionTimeRestorePreparationTimeBitMaskBitTextIsUTCGroupMembersGroupMemberNamesMemberStatusFlagsRequestedUpdateIntervalCovuPeriodCovuRecipientsEventMessageTextsEventMessageTextsConfigEventDetectionEnableEventAlgorithmInhibitEventAlgorithmInhibitRefTimeDelayNormalReliabilityEvaluationInhibitFaultParametersFaultTypeLocalForwardingOnlyProcessIdentifierFilterSubscribedRecipientsPortFilterAuthorizationExemptionsAllowGroupDelayInhibitChannelNumberControlGroupsExecutionDelayLastPriorityWriteStatusPropertyListSerialNumberBlinkWarnEnableDefaultFadeTimeDefaultRampRateDefaultStepIncrementEgressTimeInProgressInstantaneousPowerLightingCommandLightingCommandDefaultPriorityMaxActualValueMinActualValuePowerTransitionEgressActive"

abbrev pub property_type_index_8 : List ℕ
property_type_index_8 =
    0 ∷ 16 ∷ 40 ∷ 63 ∷ 72 ∷ 79 ∷ 92 ∷ 121 ∷ 138 ∷ 156 ∷ 174 ∷ 200 ∷ 219 ∷ 240 ∷ 261 ∷ 282 ∷ 304
    ∷ 311 ∷ 318 ∷ 323 ∷ 335 ∷ 351 ∷ 368 ∷ 391 ∷ 401 ∷ 415 ∷ 432 ∷ 455 ∷ 475 ∷ 496 ∷ 520 ∷ 535 ∷ 563
    ∷ 578 ∷ 587 ∷ 606 ∷ 629 ∷ 649 ∷ 659 ∷ 682 ∷ 704 ∷ 717 ∷ 730 ∷ 744 ∷ 756 ∷ 767 ∷ 779 ∷ 791 ∷ 806
    ∷ 821 ∷ 836 ∷ 856 ∷ 866 ∷ 876 ∷ 894 ∷ 909 ∷ 939 ∷ 953 ∷ 967 ∷ 972 ∷ 982 ∷ 994 ∷ []

unfoldable pub property_type_string : ℕ → Outcome Text
property_type_string i =
    if leb i 17
    then piece_at property_type_names_0 property_type_index_0 i
    else if leb 19 i && leb i 193
    then piece_at property_type_names_1 property_type_index_1 (i - 19)
    else if leb 195 i && leb i 197
    then piece_at property_type_names_2 property_type_index_2 (i - 195)
    else if leb 202 i && leb i 215
    then piece_at property_type_names_3 property_type_index_3 (i - 202)
    else if leb 218 i && leb i 222
    then piece_at property_type_names_4 property_type_index_4 (i - 218)
    else if leb 226 i && leb i 235
    then piece_at property_type_names_5 property_type_index_5 (i - 226)
    else if leb 244 i && leb i 311
    then piece_at property_type_names_6 property_type_index_6 (i - 244)
    else if leb 317 i && leb i 323
    then piece_at property_type_names_7 property_type_index_7 (i - 317)
    else if leb 326 i && leb i 386
    then piece_at property_type_names_8 property_type_index_8 (i - 326)
    else returns (numbered "PropertyType" i)

pub property_type_string-text_of :
    (i : ℕ) → property_type_string i ≡ returns (text_of "PropertyType" property_types i)
unfolding property_type_string agrees_below name_of numbered are_below same_text piece_at
    format_uint
property_type_string-text_of =
    everywhere property_type_string "PropertyType" property_types 387 refl refl λ i h. rw (
      not_in_front i 17 (omega (arith, h)),
      not_between 19 i 193 (omega (arith, h)),
      not_between 195 i 197 (omega (arith, h)),
      not_between 202 i 215 (omega (arith, h)),
      not_between 218 i 222 (omega (arith, h)),
      not_between 226 i 235 (omega (arith, h)),
      not_between 244 i 311 (omega (arith, h)),
      not_between 317 i 323 (omega (arith, h)),
      not_between 326 i 386 (omega (arith, h)),
    )
