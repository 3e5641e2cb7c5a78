-- ===== src/Bacip/Services/Marshal.antt =====
-- bacip/services.go: the MarshalBinary methods.
use baetyl_bacnet.Common.{ℕ, List, Option, none, some, ltb, ◌==◌, ◌||◌, if◌then◌else◌}
use baetyl_bacnet.Common.Go.{Error, message, Result, ok, err, Outcome, returns, panics}
use baetyl_bacnet.Bacnet.Device.{PropertyIdentifier}
use baetyl_bacnet.Bacnet.ObjectId.{max_instance}
use baetyl_bacnet.Bacnet.Value.{uint32, segmentation, object_id}
use baetyl_bacnet.Encoding.Encoder.{
  Encoder, new_encoder, context_unsigned, context_object_id, app_data,
}
use baetyl_bacnet.Encoding.Encoder.Abstract.{context_abstract_type}
use baetyl_bacnet.Bacip.Services.{WhoIs, Iam, ReadProperty, WriteProperty, ApduError}

-- `return encoder.Bytes(), encoder.Error()`: callers look at the bytes only without an error.
abbrev pub finish : Encoder → Result (List ℕ)
finish e = elim e.failure [ none ↦ ok e.buf | some x ↦ err x ]

abbrev pub who_is_range : ℕ → ℕ → Result (List ℕ)
who_is_range low high =
    if ltb max_instance low || ltb max_instance high
    then err (message "invalid WhoIs range: [%d, %d]: max value is %d")
    else if ltb high low
    then err (message "invalid WhoIs range: [%d, %d]: low limit is higher than high limit")
    else finish (context_unsigned (context_unsigned new_encoder 0 low) 1 high)

abbrev who_is_limits : Option ℕ → Option ℕ → Result (List ℕ)
who_is_limits (some low) (some high) = who_is_range low high
who_is_limits _ _ = finish new_encoder

unfoldable pub marshal_who_is : WhoIs → Result (List ℕ)
marshal_who_is w = who_is_limits w.low w.high

unfoldable pub marshal_iam : Iam → Result (List ℕ)
marshal_iam iam =
    let e1 = app_data new_encoder (object_id iam.object_id) in
    let e2 = app_data e1 (uint32 iam.max_apdu_length) in
    let e3 = app_data e2 (segmentation iam.segmentation_support) in
    finish (app_data e3 (uint32 iam.vendor_id))

-- The array index is written only if there is one.
abbrev pub optional_index : Encoder → Option ℕ → Encoder
optional_index e none = e
optional_index e (some i) = context_unsigned e 2 i

abbrev pub write_property_identifier : Encoder → PropertyIdentifier → Encoder
write_property_identifier e p = optional_index (context_unsigned e 1 p.property_type) p.array_index

unfoldable pub marshal_read_property : ReadProperty → Result (List ℕ)
marshal_read_property rp =
    finish (write_property_identifier (context_object_id new_encoder 0 rp.object_id) rp.property)

abbrev with_priority : ℕ → Outcome (Encoder × Option Error) → Outcome (Result (List ℕ))
with_priority priority panics = panics
with_priority priority (returns (e, some x)) = returns (err x)
with_priority priority (returns (e, none)) =
    returns (finish (if priority == 0 then e else context_unsigned e 4 priority))

unfoldable pub marshal_write_property : WriteProperty → Outcome (Result (List ℕ))
marshal_write_property wp = with_priority wp.priority (
    context_abstract_type
      (write_property_identifier (context_object_id new_encoder 0 wp.object_id) wp.property) 3
      wp.property_value)

-- `panic("not implemented")`
unfoldable pub marshal_apdu_error : ApduError → Outcome (Result (List ℕ))
marshal_apdu_error e = panics
