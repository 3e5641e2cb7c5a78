-- ===== src/Bacip/Services.antt =====
-- bacip/services.go: the services' payloads and their binary forms.
pub mod Marshal
pub mod Unmarshal
pub mod IamRoundTrip
pub mod WhoIsRoundTrip
pub mod ReadAck
pub mod Typed
use baetyl_bacnet.Common.{ℕ, List, Option}
use baetyl_bacnet.Bacnet.Device.{PropertyIdentifier}
use baetyl_bacnet.Bacnet.ObjectId.{ObjectId}
use baetyl_bacnet.Bacnet.Value.{Value, PropertyValue}

-- The limits are none for nil pointers.
pub record WhoIs : Type 0 where
  pub low : Option ℕ
  pub high : Option ℕ

pub record Iam : Type 0 where
  pub object_id : ObjectId
  pub max_apdu_length : ℕ
  pub segmentation_support : ℕ
  pub vendor_id : ℕ

-- `content` is the field Data, which the response fills.
pub record ReadProperty : Type 0 where
  pub object_id : ObjectId
  pub property : PropertyIdentifier
  pub content : Value

pub record WriteProperty : Type 0 where
  pub object_id : ObjectId
  pub property : PropertyIdentifier
  pub property_value : PropertyValue
  pub priority : ℕ

pub record ApduError : Type 0 where
  pub class : ℕ
  pub code : ℕ
