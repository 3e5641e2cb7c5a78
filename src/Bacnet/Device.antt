-- ===== src/Bacnet/Device.antt =====
-- bacnet/types.go: a device, and what names one of its properties.
use baetyl_bacnet.Common.{ℕ, Option}
use baetyl_bacnet.Bacnet.ObjectId.{ObjectId}
use baetyl_bacnet.Bacnet.Address.{Address}

pub record Device : Type 0 where
  pub id : ObjectId
  pub max_apdu : ℕ
  pub segmentation : ℕ
  pub vendor : ℕ
  pub addr : Address

-- `array_index` is none for the nil pointer.
pub record PropertyIdentifier : Type 0 where
  pub property_type : ℕ
  pub array_index : Option ℕ
