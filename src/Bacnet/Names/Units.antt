-- ===== src/Bacnet/Names/Units.antt =====
-- bacnet/units.go and its generated String method.
mod Table
use baetyl_bacnet.Common.{
  ℕ, ◌+◌, ◌-◌, ◌%◌, ◌<◌, ◌≤◌, ◌≡◌, refl, List, [], ◌∷◌, ◌++◌, String, Bool, true, false, ◌&&◌,
  arith, length, leb, ltb, ◌==◌, if◌then◌else◌,
}
use baetyl_bacnet.Common.Go.{Outcome, returns, panics}
use baetyl_bacnet.Common.Text.{Text, bytes_of, same_text, format_uint}
use baetyl_bacnet.Encoding.Bytes.{IsByte}
use baetyl_bacnet.Bacnet.Names.{
  piece_at, numbered, name_of, text_of, agrees, agrees_below, agrees_below→eq, are_below,
  everywhere, not_less, not_in_front, not_between, not_equal,
}
use baetyl_bacnet.Bacnet.Names.Units.Table.{units_0, units_1}

-- The constants of Unit, in the order of the source.
abbrev pub units : List (String × ℕ)
units = units_0 ++ units_1

abbrev pub unit_names_0 : String
unit_names_0 =
    "SquareMetersSquareFeetMilliamperesAmperesOhmsVoltsKilovoltsMegavoltsVoltAmperesKilovoltAmperesMegavoltAmperesVoltAmperesReactiveKilovoltAmperesReactiveMegavoltAmperesReactiveDegreesPhasePowerFactorJoulesKilojoulesWattHoursKilowattHoursBtusThermsTonHoursJoulesPerKilogramDryAirBtusPerPoundDryAirCyclesPerHourCyclesPerMinuteHertzGramsOfWaterPerKilogramDryAirPercentRelativeHumidityMillimetersMetersInchesFeetWattsPerSquareFootWattsPerSquareMeterLumensLuxesFootCandlesKilogramsPoundsMassTonsKilogramsPerSecondKilogramsPerMinuteKilogramsPerHourPoundsMassPerMinutePoundsMassPerHourWattsKilowattsMegawattsBtusPerHourHorsepowerTonsRefrigerationPascalsKilopascalsBarsPoundsForcePerSquareInchCentimetersOfWaterInchesOfWaterMillimetersOfMercuryCentimetersOfMercuryInchesOfMercuryDegreesCelsiusDegreesKelvinDegreesFahrenheitDegreeDaysCelsiusDegreeDaysFahrenheitYearsMonthsWeeksDaysHoursMinutesSecondsMetersPerSecondKilometersPerHourFeetPerSecondFeetPerMinuteMilesPerHourCubicFeetCubicMetersImperialGallonsLitersUsGallonsCubicFeetPerMinuteCubicMetersPerSecondImperialGallonsPerMinuteLitersPerSecondLitersPerMinuteUSGallonsPerMinuteDegreesAngularDegreesCelsiusPerHourDegreesCelsiusPerMinuteDegreesFahrenheitPerHourDegreesFahrenheitPerMinuteNoUnitsPartsPerMillionPartsPerBillionPercentPercentPerSecondPerMinutePerSecondPsiPerDegreeFahrenheitRadiansRevolutionsPerMinute"

abbrev pub unit_index_0 : List ℕ
unit_index_0 =
    0 ∷ 12 ∷ 22 ∷ 34 ∷ 41 ∷ 45 ∷ 50 ∷ 59 ∷ 68 ∷ 79 ∷ 94 ∷ 109 ∷ 128 ∷ 151 ∷ 174 ∷ 186 ∷ 197 ∷ 203
    ∷ 213 ∷ 222 ∷ 235 ∷ 239 ∷ 245 ∷ 253 ∷ 276 ∷ 294 ∷ 307 ∷ 322 ∷ 327 ∷ 356 ∷ 379 ∷ 390 ∷ 396 ∷ 402
    ∷ 406 ∷ 424 ∷ 443 ∷ 449 ∷ 454 ∷ 465 ∷ 474 ∷ 484 ∷ 488 ∷ 506 ∷ 524 ∷ 540 ∷ 559 ∷ 576 ∷ 581 ∷ 590
    ∷ 599 ∷ 610 ∷ 620 ∷ 637 ∷ 644 ∷ 655 ∷ 659 ∷ 683 ∷ 701 ∷ 714 ∷ 734 ∷ 754 ∷ 769 ∷ 783 ∷ 796 ∷ 813
    ∷ 830 ∷ 850 ∷ 855 ∷ 861 ∷ 866 ∷ 870 ∷ 875 ∷ 882 ∷ 889 ∷ 904 ∷ 921 ∷ 934 ∷ 947 ∷ 959 ∷ 968 ∷ 979
    ∷ 994 ∷ 1000 ∷ 1009 ∷ 1027 ∷ 1047 ∷ 1071 ∷ 1086 ∷ 1101 ∷ 1119 ∷ 1133 ∷ 1154 ∷ 1177 ∷ 1201 ∷ 1227
    ∷ 1234 ∷ 1249 ∷ 1264 ∷ 1271 ∷ 1287 ∷ 1296 ∷ 1305 ∷ 1327 ∷ 1334 ∷ 1354 ∷ []

abbrev pub unit_names_1 : String
unit_names_1 =
    "SquareInchesSquareCentimetersBtusPerPoundCentimetersPoundsMassPerSecondDeltaDegreesFahrenheitDeltaDegreesKelvinKilohmsMegohmsMillivoltsKilojoulesPerKilogramMegajoulesJoulesPerDegreeKelvinJoulesPerKilogramDegreeKelvinKilohertzMegahertzPerHourMilliwattsHectopascalsMillibarsCubicMetersPerHourLitersPerHourKwHoursPerSquareMeterKwHoursPerSquareFootMegajoulesPerSquareMeterMegajoulesPerSquareFootWattsPerSquareMeterDegreeKelvinCubicFeetPerSecondPercentObscurationPerFootPercentObscurationPerMeterMilliohmsMegawattHoursKiloBtusMegaBtusKilojoulesPerKilogramDryAirMegajoulesPerKilogramDryAirKilojoulesPerDegreeKelvinMegajoulesPerDegreeKelvinNewtonGramsPerSecondGramsPerMinuteTonsPerHourKiloBtusPerHourHundredthsSecondsMillisecondsNewtonMetersMillimetersPerSecondMillimetersPerMinuteMetersPerMinuteMetersPerHourCubicMetersPerMinuteMetersPerSecondPerSecondAmperesPerMeterAmperesPerSquareMeterAmpereSquareMetersFaradsHenrysOhmMetersSiemensSiemensPerMeterTeslasVoltsPerDegreeKelvinVoltsPerMeterWebersCandelasCandelasPerSquareMeterDegreesKelvinPerHourDegreesKelvinPerMinuteJouleSecondsRadiansPerSecondSquareMetersPerNewtonKilogramsPerCubicMeterNewtonSecondsNewtonsPerMeterWattsPerMeterPerDegreeKelvinMicrosiemensCubicFeetPerHourUSGallonsPerHourKilometersMicrometersGramsMilligramsMillilitersMillilitersPerSecondDecibelsDecibelsMillivoltDecibelsVoltMillisiemensWattHoursReactiveKilowattHoursReactiveMegawattHoursReactiveMillimetersOfWaterPerMilleGramsPerGramKilogramsPerKilogramGramsPerKilogramMilligramsPerGramMilligramsPerKilogramGramsPerMilliliterGramsPerLiterMilligramsPerLiterMicrogramsPerLiterGramsPerCubicMeterMilligramsPerCubicMeterMicrogramsPerCubicMeterNanogramsPerCubicMeterGramsPerCubicCentimeterBecquerels"

abbrev pub unit_index_1 : List ℕ
unit_index_1 =
    0 ∷ 12 ∷ 29 ∷ 41 ∷ 52 ∷ 71 ∷ 93 ∷ 111 ∷ 118 ∷ 125 ∷ 135 ∷ 156 ∷ 166 ∷ 187 ∷ 216 ∷ 225 ∷ 234
    ∷ 241 ∷ 251 ∷ 263 ∷ 272 ∷ 290 ∷ 303 ∷ 324 ∷ 344 ∷ 368 ∷ 391 ∷ 422 ∷ 440 ∷ 465 ∷ 491 ∷ 500 ∷ 513
    ∷ 521 ∷ 529 ∷ 556 ∷ 583 ∷ 608 ∷ 633 ∷ 639 ∷ 653 ∷ 667 ∷ 678 ∷ 693 ∷ 710 ∷ 722 ∷ 734 ∷ 754 ∷ 774
    ∷ 789 ∷ 802 ∷ 822 ∷ 846 ∷ 861 ∷ 882 ∷ 900 ∷ 906 ∷ 912 ∷ 921 ∷ 928 ∷ 943 ∷ 949 ∷ 969 ∷ 982 ∷ 988
    ∷ 996 ∷ 1018 ∷ 1038 ∷ 1060 ∷ 1072 ∷ 1088 ∷ 1109 ∷ 1131 ∷ 1144 ∷ 1159 ∷ 1187 ∷ 1199 ∷ 1215 ∷ 1231
    ∷ 1241 ∷ 1252 ∷ 1257 ∷ 1267 ∷ 1278 ∷ 1298 ∷ 1306 ∷ 1323 ∷ 1335 ∷ 1347 ∷ 1364 ∷ 1385 ∷ 1406
    ∷ 1424 ∷ 1432 ∷ 1444 ∷ 1464 ∷ 1480 ∷ 1497 ∷ 1518 ∷ 1536 ∷ 1549 ∷ 1567 ∷ 1585 ∷ 1603 ∷ 1626
    ∷ 1649 ∷ 1671 ∷ 1694 ∷ 1704 ∷ []

abbrev pub unit_names_2 : String
unit_names_2 =
    "MegabecquerelsGrayMilligrayMicrograySievertsMillisievertsMicrosievertsMicrosievertsPerHourDecibelsANephelometricTurbidityUnitPhGramsPerSquareMeterMinutesPerDegreeKelvin"

abbrev pub unit_index_2 : List ℕ
unit_index_2 = 0 ∷ 14 ∷ 18 ∷ 27 ∷ 36 ∷ 44 ∷ 57 ∷ 70 ∷ 90 ∷ 99 ∷ 125 ∷ 127 ∷ 146 ∷ 168 ∷ []

unfoldable pub unit_string : ℕ → Outcome Text
unit_string i =
    if leb i 104
    then piece_at unit_names_0 unit_index_0 i
    else if leb 115 i && leb i 222
    then piece_at unit_names_1 unit_index_1 (i - 115)
    else if leb 224 i && leb i 236
    then piece_at unit_names_2 unit_index_2 (i - 224)
    else returns (numbered "Unit" i)

pub unit_string-text_of : (i : ℕ) → unit_string i ≡ returns (text_of "Unit" units i)
unfolding unit_string agrees_below name_of numbered are_below same_text piece_at format_uint
unit_string-text_of = everywhere unit_string "Unit" units 237 refl refl λ i h. rw (
  not_in_front i 104 (omega (arith, h)),
  not_between 115 i 222 (omega (arith, h)),
  not_between 224 i 236 (omega (arith, h)),
)
