-- ===== src/Baetyl/Config.antt =====
-- baetyl-bacnet/config.go: the configuration. A time.Duration is an integer, of nanoseconds; an uint
-- has 64 bits.
use baetyl_bacnet.Common.{ℕ, ◌%◌, List, Bool, false, not, ◌==◌}
use baetyl_bacnet.Common.Text.{Text}
use baetyl_bacnet.Bacnet.ObjectId.{ObjectId}

-- The integers: `negsuc n` is -1 - n.
pub data ℤ : Type 0 where
  pos negsuc : ℕ → ℤ

unfoldable pub is_zero : ℤ → Bool
is_zero (pos n) = n == 0
is_zero (negsuc n) = false

unfoldable pub is_positive : ℤ → Bool
is_positive (pos n) = not (n == 0)
is_positive (negsuc n) = false

pub record SlaveConfig : Type 0 where
  pub device : Text
  pub device_id : ℕ
  pub interval : ℤ
  pub address : Text
  pub port : ℕ

pub record Property : Type 0 where
  pub id : Text
  pub name : Text
  pub kind : Text
  pub mode : Text
  pub bacnet_type : ℕ
  pub bacnet_address : ℕ
  pub application_tag_number : ℕ

-- `properties` is a map.
pub record Job : Type 0 where
  pub device : Text
  pub device_id : ℕ
  pub address_offset : ℕ
  pub properties : List (Text × Property)
  pub interval : ℤ

pub record Config : Type 0 where
  pub slaves : List SlaveConfig
  pub jobs : List Job

-- The conversions of `Execute` and `DeltaCallback`, which keep the low bits.
unfoldable pub object_of : Property → ObjectId
object_of p = record { object_type = p.bacnet_type % 65536; number = p.bacnet_address % 4294967296 }
