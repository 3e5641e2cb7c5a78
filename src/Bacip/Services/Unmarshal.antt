-- ===== src/Bacip/Services/Unmarshal.antt =====
-- bacip/services.go: the UnmarshalBinary methods. Each returns the receiver as it is left, and the
-- error; it may panic.
use baetyl_bacnet.Common.{ℕ, List, [], ◌∷◌, Option, none, some, if◌then◌else◌}
use baetyl_bacnet.Common.Go.{Error, Outcome, returns, ◌>>=◌, is_incorrect_tag}
use baetyl_bacnet.Bacnet.ObjectId.{ObjectId}
use baetyl_bacnet.Bacnet.Value.{Value, uint32, segmentation, error_class, error_code, object_id}
use baetyl_bacnet.Encoding.Decoder.{
  Decoder, new_decoder, reset_error, context_value, context_object_id,
}
use baetyl_bacnet.Encoding.Decoder.Reflect.{
  to_any, to_uint32, to_segmentation, to_error_class, to_error_code, to_object_id,
}
use baetyl_bacnet.Encoding.Decoder.AppData.{app_data}
use baetyl_bacnet.Encoding.Decoder.Abstract.{context_abstract_type}
use baetyl_bacnet.Bacip.Services.{WhoIs, Iam, ReadProperty, WriteProperty, ApduError}

unfoldable pub unmarshal_who_is : WhoIs → List ℕ → WhoIs × Option Error
unmarshal_who_is w [] = (w, none)
unmarshal_who_is w (x ∷ xs) =
    let (d1, low) = context_value 0 (new_decoder (x ∷ xs)) 0 in
    let (d2, high) = context_value 1 d1 0 in
    (record { low = some low; high = some high }, d2.failure)

-- What a variable of a static type holds: the decoder never stores another kind of value there.
abbrev pub as_number : Value → ℕ
as_number (uint32 v) = v
as_number (segmentation v) = v
as_number (error_class v) = v
as_number (error_code v) = v
as_number _ = 0

abbrev pub as_object_id : Value → ObjectId
as_object_id (object_id o) = o
as_object_id _ = record { object_type = 0; number = 0 }

unfoldable pub unmarshal_iam : Iam → List ℕ → Outcome (Iam × Option Error)
unmarshal_iam iam bytes = do
  (d1, o) ← app_data (new_decoder bytes) to_object_id (object_id iam.object_id)
  (d2, m) ← app_data d1 to_uint32 (uint32 iam.max_apdu_length)
  (d3, s) ← app_data d2 to_segmentation (segmentation iam.segmentation_support)
  (d4, v) ← app_data d3 to_uint32 (uint32 iam.vendor_id)
  returns (
    record {
      object_id = as_object_id o;
      max_apdu_length = as_number m;
      segmentation_support = as_number s;
      vendor_id = as_number v;
    },
    d4.failure,
  )

-- A tag of another number means that the optional index is absent.
abbrev pub forgive : Decoder × ℕ → Decoder × Option ℕ
forgive (d, index) = elim d.failure [
  | none ↦ (d, some index)
  | some e ↦ if is_incorrect_tag e then (reset_error d, none) else (d, some index)
]

unfoldable pub unmarshal_read_property :
    ReadProperty → List ℕ → Outcome (ReadProperty × Option Error)
unmarshal_read_property rp bytes = do
  let (d1, o) = context_object_id 0 (new_decoder bytes) rp.object_id
  let (d2, val) = context_value 1 d1 0
  let (d3, index) = forgive (context_value 2 d2 0)
  (d4, content) ← context_abstract_type 3 d3 to_any rp.content
  returns (
    record {
      object_id = o;
      property = record { property_type = val; array_index = index };
      content = content;
    },
    d4.failure,
  )

-- The body reads nothing.
unfoldable pub unmarshal_write_property : WriteProperty → List ℕ → WriteProperty × Option Error
unmarshal_write_property wp bytes = (wp, (new_decoder bytes).failure)

unfoldable pub unmarshal_apdu_error : ApduError → List ℕ → Outcome (ApduError × Option Error)
unmarshal_apdu_error e bytes = do
  (d1, class) ← app_data (new_decoder bytes) to_error_class (error_class e.class)
  (d2, code) ← app_data d1 to_error_code (error_code e.code)
  returns (record { class = as_number class; code = as_number code }, d2.failure)
