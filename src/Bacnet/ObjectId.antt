-- ===== src/Bacnet/ObjectId.antt =====
-- bacnet/types.go: an object's type and instance number, packed into 32 bits.
pub mod Packing
use baetyl_bacnet.Common.{ℕ, ◌*◌, ◌/◌, ◌%◌, ◌^◌, bit_and, bit_or, ltb, if◌then◌else◌}
use baetyl_bacnet.Common.Go.{Result, ok, err, message}

abbrev pub max_instance : ℕ
max_instance = 0x3FFFFF

abbrev pub instance_bits : ℕ
instance_bits = 22

abbrev pub max_object_type : ℕ
max_object_type = 0x400

-- `object_type` is a uint16 and `number` a uint32.
pub record ObjectId : Type 0 where
  pub object_type : ℕ
  pub number : ℕ

unfoldable pub encode : ObjectId → Result ℕ
encode o =
    if ltb max_instance o.number
    then err (message "invalid ObjectID: instance too high")
    else if ltb max_object_type o.object_type
    then err (message "invalid ObjectID: objectType too high too high")
    else ok (bit_or (o.object_type * 2 ^ instance_bits % 2 ^ 32) o.number)

unfoldable pub object_id_from_uint32 : ℕ → ObjectId
object_id_from_uint32 v = record {
  object_type = v / 2 ^ instance_bits % 65536;
  number = bit_and v max_instance;
}
