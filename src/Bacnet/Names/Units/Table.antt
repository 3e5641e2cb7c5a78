-- ===== src/Bacnet/Names/Units/Table.antt =====
-- bacnet/units.go: the constants of Unit, in the order of the source.
use baetyl_bacnet.Common.{ℕ, List, [], ◌∷◌, String}

abbrev pub units_0 : List (String × ℕ)
units_0 =
    ("SquareMeters", 0x00)
    ∷ ("SquareFeet", 0x01)
    ∷ ("Milliamperes", 0x02)
    ∷ ("Amperes", 0x03)
    ∷ ("Ohms", 0x04)
    ∷ ("Volts", 0x05)
    ∷ ("Kilovolts", 0x06)
    ∷ ("Megavolts", 0x07)
    ∷ ("VoltAmperes", 0x08)
    ∷ ("KilovoltAmperes", 0x09)
    ∷ ("MegavoltAmperes", 0x0A)
    ∷ ("VoltAmperesReactive", 0x0B)
    ∷ ("KilovoltAmperesReactive", 0x0C)
    ∷ ("MegavoltAmperesReactive", 0x0D)
    ∷ ("DegreesPhase", 0x0E)
    ∷ ("PowerFactor", 0x0F)
    ∷ ("Joules", 0x10)
    ∷ ("Kilojoules", 0x11)
    ∷ ("WattHours", 0x12)
    ∷ ("KilowattHours", 0x13)
    ∷ ("Btus", 0x14)
    ∷ ("Therms", 0x15)
    ∷ ("TonHours", 0x16)
    ∷ ("JoulesPerKilogramDryAir", 0x17)
    ∷ ("BtusPerPoundDryAir", 0x18)
    ∷ ("CyclesPerHour", 0x19)
    ∷ ("CyclesPerMinute", 0x1A)
    ∷ ("Hertz", 0x1B)
    ∷ ("GramsOfWaterPerKilogramDryAir", 0x1C)
    ∷ ("PercentRelativeHumidity", 0x1D)
    ∷ ("Millimeters", 0x1E)
    ∷ ("Meters", 0x1F)
    ∷ ("Inches", 0x20)
    ∷ ("Feet", 0x21)
    ∷ ("WattsPerSquareFoot", 0x22)
    ∷ ("WattsPerSquareMeter", 0x23)
    ∷ ("Lumens", 0x24)
    ∷ ("Luxes", 0x25)
    ∷ ("FootCandles", 0x26)
    ∷ ("Kilograms", 0x27)
    ∷ ("PoundsMass", 0x28)
    ∷ ("Tons", 0x29)
    ∷ ("KilogramsPerSecond", 0x2A)
    ∷ ("KilogramsPerMinute", 0x2B)
    ∷ ("KilogramsPerHour", 0x2C)
    ∷ ("PoundsMassPerMinute", 0x2D)
    ∷ ("PoundsMassPerHour", 0x2E)
    ∷ ("Watts", 0x2F)
    ∷ ("Kilowatts", 0x30)
    ∷ ("Megawatts", 0x31)
    ∷ ("BtusPerHour", 0x32)
    ∷ ("Horsepower", 0x33)
    ∷ ("TonsRefrigeration", 0x34)
    ∷ ("Pascals", 0x35)
    ∷ ("Kilopascals", 0x36)
    ∷ ("Bars", 0x37)
    ∷ ("PoundsForcePerSquareInch", 0x38)
    ∷ ("CentimetersOfWater", 0x39)
    ∷ ("InchesOfWater", 0x3A)
    ∷ ("MillimetersOfMercury", 0x3B)
    ∷ ("CentimetersOfMercury", 0x3C)
    ∷ ("InchesOfMercury", 0x3D)
    ∷ ("DegreesCelsius", 0x3E)
    ∷ ("DegreesKelvin", 0x3F)
    ∷ ("DegreesFahrenheit", 0x40)
    ∷ ("DegreeDaysCelsius", 0x41)
    ∷ ("DegreeDaysFahrenheit", 0x42)
    ∷ ("Years", 0x43)
    ∷ ("Months", 0x44)
    ∷ ("Weeks", 0x45)
    ∷ ("Days", 0x46)
    ∷ ("Hours", 0x47)
    ∷ ("Minutes", 0x48)
    ∷ ("Seconds", 0x49)
    ∷ ("MetersPerSecond", 0x4A)
    ∷ ("KilometersPerHour", 0x4B)
    ∷ ("FeetPerSecond", 0x4C)
    ∷ ("FeetPerMinute", 0x4D)
    ∷ ("MilesPerHour", 0x4E)
    ∷ ("CubicFeet", 0x4F)
    ∷ ("CubicMeters", 0x50)
    ∷ ("ImperialGallons", 0x51)
    ∷ ("Liters", 0x52)
    ∷ ("UsGallons", 0x53)
    ∷ ("CubicFeetPerMinute", 0x54)
    ∷ ("CubicMetersPerSecond", 0x55)
    ∷ ("ImperialGallonsPerMinute", 0x56)
    ∷ ("LitersPerSecond", 0x57)
    ∷ ("LitersPerMinute", 0x58)
    ∷ ("USGallonsPerMinute", 0x59)
    ∷ ("DegreesAngular", 0x5A)
    ∷ ("DegreesCelsiusPerHour", 0x5B)
    ∷ ("DegreesCelsiusPerMinute", 0x5C)
    ∷ ("DegreesFahrenheitPerHour", 0x5D)
    ∷ ("DegreesFahrenheitPerMinute", 0x5E)
    ∷ ("NoUnits", 0x5F)
    ∷ ("PartsPerMillion", 0x60)
    ∷ ("PartsPerBillion", 0x61)
    ∷ ("Percent", 0x62)
    ∷ ("PercentPerSecond", 0x63)
    ∷ ("PerMinute", 0x64)
    ∷ ("PerSecond", 0x65)
    ∷ ("PsiPerDegreeFahrenheit", 0x66)
    ∷ ("Radians", 0x67)
    ∷ ("RevolutionsPerMinute", 0x68)
    ∷ ("SquareInches", 0x73)
    ∷ ("SquareCentimeters", 0x74)
    ∷ ("BtusPerPound", 0x75)
    ∷ ("Centimeters", 0x76)
    ∷ ("PoundsMassPerSecond", 0x77)
    ∷ ("DeltaDegreesFahrenheit", 0x78)
    ∷ ("DeltaDegreesKelvin", 0x79)
    ∷ ("Kilohms", 0x7A)
    ∷ ("Megohms", 0x7B)
    ∷ ("Millivolts", 0x7C)
    ∷ ("KilojoulesPerKilogram", 0x7D)
    ∷ ("Megajoules", 0x7E)
    ∷ ("JoulesPerDegreeKelvin", 0x7F)
    ∷ ("JoulesPerKilogramDegreeKelvin", 0x80)
    ∷ ("Kilohertz", 0x81)
    ∷ []

abbrev pub units_1 : List (String × ℕ)
units_1 =
    ("Megahertz", 0x82)
    ∷ ("PerHour", 0x83)
    ∷ ("Milliwatts", 0x84)
    ∷ ("Hectopascals", 0x85)
    ∷ ("Millibars", 0x86)
    ∷ ("CubicMetersPerHour", 0x87)
    ∷ ("LitersPerHour", 0x88)
    ∷ ("KwHoursPerSquareMeter", 0x89)
    ∷ ("KwHoursPerSquareFoot", 0x8A)
    ∷ ("MegajoulesPerSquareMeter", 0x8B)
    ∷ ("MegajoulesPerSquareFoot", 0x8C)
    ∷ ("WattsPerSquareMeterDegreeKelvin", 0x8D)
    ∷ ("CubicFeetPerSecond", 0x8E)
    ∷ ("PercentObscurationPerFoot", 0x8F)
    ∷ ("PercentObscurationPerMeter", 0x90)
    ∷ ("Milliohms", 0x91)
    ∷ ("MegawattHours", 0x92)
    ∷ ("KiloBtus", 0x93)
    ∷ ("MegaBtus", 0x94)
    ∷ ("KilojoulesPerKilogramDryAir", 0x95)
    ∷ ("MegajoulesPerKilogramDryAir", 0x96)
    ∷ ("KilojoulesPerDegreeKelvin", 0x97)
    ∷ ("MegajoulesPerDegreeKelvin", 0x98)
    ∷ ("Newton", 0x99)
    ∷ ("GramsPerSecond", 0x9A)
    ∷ ("GramsPerMinute", 0x9B)
    ∷ ("TonsPerHour", 0x9C)
    ∷ ("KiloBtusPerHour", 0x9D)
    ∷ ("HundredthsSeconds", 0x9E)
    ∷ ("Milliseconds", 0x9F)
    ∷ ("NewtonMeters", 0xA0)
    ∷ ("MillimetersPerSecond", 0xA1)
    ∷ ("MillimetersPerMinute", 0xA2)
    ∷ ("MetersPerMinute", 0xA3)
    ∷ ("MetersPerHour", 0xA4)
    ∷ ("CubicMetersPerMinute", 0xA5)
    ∷ ("MetersPerSecondPerSecond", 0xA6)
    ∷ ("AmperesPerMeter", 0xA7)
    ∷ ("AmperesPerSquareMeter", 0xA8)
    ∷ ("AmpereSquareMeters", 0xA9)
    ∷ ("Farads", 0xAA)
    ∷ ("Henrys", 0xAB)
    ∷ ("OhmMeters", 0xAC)
    ∷ ("Siemens", 0xAD)
    ∷ ("SiemensPerMeter", 0xAE)
    ∷ ("Teslas", 0xAF)
    ∷ ("VoltsPerDegreeKelvin", 0xB0)
    ∷ ("VoltsPerMeter", 0xB1)
    ∷ ("Webers", 0xB2)
    ∷ ("Candelas", 0xB3)
    ∷ ("CandelasPerSquareMeter", 0xB4)
    ∷ ("DegreesKelvinPerHour", 0xB5)
    ∷ ("DegreesKelvinPerMinute", 0xB6)
    ∷ ("JouleSeconds", 0xB7)
    ∷ ("RadiansPerSecond", 0xB8)
    ∷ ("SquareMetersPerNewton", 0xB9)
    ∷ ("KilogramsPerCubicMeter", 0xBA)
    ∷ ("NewtonSeconds", 0xBB)
    ∷ ("NewtonsPerMeter", 0xBC)
    ∷ ("WattsPerMeterPerDegreeKelvin", 0xBD)
    ∷ ("Microsiemens", 0xBE)
    ∷ ("CubicFeetPerHour", 0xBF)
    ∷ ("USGallonsPerHour", 0xC0)
    ∷ ("Kilometers", 0xC1)
    ∷ ("Micrometers", 0xC2)
    ∷ ("Grams", 0xC3)
    ∷ ("Milligrams", 0xC4)
    ∷ ("Milliliters", 0xC5)
    ∷ ("MillilitersPerSecond", 0xC6)
    ∷ ("Decibels", 0xC7)
    ∷ ("DecibelsMillivolt", 0xC8)
    ∷ ("DecibelsVolt", 0xC9)
    ∷ ("Millisiemens", 0xCA)
    ∷ ("WattHoursReactive", 0xCB)
    ∷ ("KilowattHoursReactive", 0xCC)
    ∷ ("MegawattHoursReactive", 0xCD)
    ∷ ("MillimetersOfWater", 0xCE)
    ∷ ("PerMille", 0xCF)
    ∷ ("GramsPerGram", 0xD0)
    ∷ ("KilogramsPerKilogram", 0xD1)
    ∷ ("GramsPerKilogram", 0xD2)
    ∷ ("MilligramsPerGram", 0xD3)
    ∷ ("MilligramsPerKilogram", 0xD4)
    ∷ ("GramsPerMilliliter", 0xD5)
    ∷ ("GramsPerLiter", 0xD6)
    ∷ ("MilligramsPerLiter", 0xD7)
    ∷ ("MicrogramsPerLiter", 0xD8)
    ∷ ("GramsPerCubicMeter", 0xD9)
    ∷ ("MilligramsPerCubicMeter", 0xDA)
    ∷ ("MicrogramsPerCubicMeter", 0xDB)
    ∷ ("NanogramsPerCubicMeter", 0xDC)
    ∷ ("GramsPerCubicCentimeter", 0xDD)
    ∷ ("Becquerels", 0xDE)
    ∷ ("Megabecquerels", 0xE0)
    ∷ ("Gray", 0xE1)
    ∷ ("Milligray", 0xE2)
    ∷ ("Microgray", 0xE3)
    ∷ ("Sieverts", 0xE4)
    ∷ ("Millisieverts", 0xE5)
    ∷ ("Microsieverts", 0xE6)
    ∷ ("MicrosievertsPerHour", 0xE7)
    ∷ ("DecibelsA", 0xE8)
    ∷ ("NephelometricTurbidityUnit", 0xE9)
    ∷ ("Ph", 0xEA)
    ∷ ("GramsPerSquareMeter", 0xEB)
    ∷ ("MinutesPerDegreeKelvin", 0xEC)
    ∷ []
