-- ===== src/Bacnet/ObjectId/Packing.antt =====
-- Packing and unpacking an object identifier.
use baetyl_bacnet.Common.{ℕ, ◌*◌, ◌+◌, ◌/◌, ◌%◌, ◌<◌, ◌≤◌, ◌≡◌, ◌≢◌, ◌⊎◌, bit_and, arith}
use baetyl_bacnet.Common.Bits.Wide.{bit_and-ones, bit_or_fields}
use baetyl_bacnet.Common.Go.{ok}
use baetyl_bacnet.Bacnet.ObjectId.{ObjectId, encode, object_id_from_uint32, max_instance}

-- The identifiers that BACnet allows: 10 bits of type and 22 bits of instance.
pub record IsStandard (o : ObjectId) : Type 0 where
  pub type_fits : o.object_type < 1024
  pub number_fits : o.number ≤ max_instance

pub number_mask : (v : ℕ) → bit_and v max_instance ≡ v % 4194304
number_mask v = bit_and-ones 22 v

-- A standard identifier is packed as its type above its instance, without loss of bits.
pub encode_standard :
    (o : ObjectId) → IsStandard o → encode o ≡ ok (o.object_type * 4194304 + o.number)
unfolding encode
encode_standard o h = ground (arith, bit_or_fields 22 o.object_type o.number)

pub object_id_from_uint32_sum :
    (o : ObjectId) → IsStandard o → object_id_from_uint32 (o.object_type * 4194304 + o.number) ≡ o
unfolding object_id_from_uint32
object_id_from_uint32_sum o h = ground (arith, number_mask (o.object_type * 4194304 + o.number))

-- Every uint32 unpacks to a standard identifier, which packs to the same uint32.
pub encode-object_id_from_uint32 :
    (v : ℕ)
    → v < 4294967296
    → IsStandard (object_id_from_uint32 v) × (encode (object_id_from_uint32 v) ≡ ok v)
unfolding object_id_from_uint32 encode
encode-object_id_from_uint32 v h = (
  ground (arith, number_mask v),
  ground (arith, number_mask v, bit_or_fields 22 (v / 4194304) (v % 4194304)),
)

-- The guard of `Encode` admits the type 0x400, which does not fit the ten bits: whatever the
-- instance, the identifier is packed as one of type 0.
pub encode_first_proprietary :
    (o : ObjectId)
    → o.object_type ≡ 1024
    → o.number ≤ max_instance
    → (encode o ≡ ok o.number)
      × (object_id_from_uint32 o.number ≡ record { object_type = 0; number = o.number })
unfolding encode object_id_from_uint32
encode_first_proprietary o e h = ground (arith, bit_or_fields 22 0 o.number, number_mask o.number)

-- `Encode` refuses an instance or a type above its limit.
pub encode_fails :
    (o : ObjectId) → (max_instance < o.number) ⊎ (1024 < o.object_type) → (v : ℕ) → encode o ≢ ok v
unfolding encode
encode_fails o h v = ground arith

-- An identifier that `Encode` accepts, unless it is of the type 0x400, is recovered from the packed
-- number, which is a uint32.
pub encode_recovers :
    (o : ObjectId) (v : ℕ)
    → encode o ≡ ok v
    → o.object_type ≢ 1024
    → (v < 4294967296) × (object_id_from_uint32 v ≡ o)
encode_recovers o v e ne =
    let std : IsStandard o = grind (arith, encode_fails) in
    ground (arith, encode_standard o std, object_id_from_uint32_sum o std)
