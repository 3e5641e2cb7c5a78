-- ===== src/Tests/Delta.antt =====
-- The changes of an attribute, written to the device.
use baetyl_bacnet.Common.{Among, inl, ◌≡◌, refl, List, [], ◌∷◌, none, some, arith, All}
use baetyl_bacnet.Common.Go.{ok, returns, panics}
use baetyl_bacnet.Common.Text.{Text, same_text}
use baetyl_bacnet.Common.Dict.{lookup}
use baetyl_bacnet.Bacnet.Value.{Value, nil, float32}
use baetyl_bacnet.Bacip.Client.Requests.{write_request, send}
use baetyl_bacnet.Bacip.Client.Writing.{write_request_bytes}
use baetyl_bacnet.Bacip.Services.{WriteProperty}
use baetyl_bacnet.Dmp.Adapter.{
  named_by, get_mapping_name, config_id, get_config_id_by_model_name, prop_value,
  get_prop_value_by_model_name, parse_value_to_float32,
}
use baetyl_bacnet.Baetyl.Config.{object_of}
use baetyl_bacnet.Baetyl.Delta.{
  write_of, named, convert, write_value, write_property_of, write_named, change, changes,
  delta_callback,
}
use baetyl_bacnet.Baetyl.Delta.Writes.{DeltaAsks, delta_callback-DeltaAsks}
use baetyl_bacnet.Baetyl.Delta.Done.{AllDone, delta_callback_null}
use baetyl_bacnet.Baetyl.Delta.Complete.{delta_callback-AllDone_asked}
use baetyl_bacnet.Baetyl.Delta.OnWire.{send-write_of}
use baetyl_bacnet.Tests.Codec.{sensor, sensor-IsStandard}
use baetyl_bacnet.Tests.Calls.{gateway, thermostat}
use baetyl_bacnet.Tests.Worker.{
  template, room, parameters, same_bits, one_device, bus, point, job, slave, worker, workers,
}

-- The attribute is set to 20.
abbrev warmer : List (Text × Value)
warmer = (97 ∷ [], float32 1101004800) ∷ []

abbrev setpoint : WriteProperty
setpoint = write_of (point 4) (float32 1101004800)

found : lookup (100 ∷ []) (workers 4) ≡ some (worker 4)
unfolding lookup same_text
found = refl

written :
    delta_callback parameters same_bits one_device bus 0 (workers 4) room warmer
    ≡ returns (setpoint ∷ [], none)
unfolding delta_callback changes change write_named write_property_of write_value convert
    get_config_id_by_model_name config_id get_mapping_name named_by get_prop_value_by_model_name
    prop_value parse_value_to_float32 same_text lookup object_of
written = refl

delta_callback-DeltaAsks_example :
    All (DeltaAsks parameters same_bits template (job 4).properties warmer) (setpoint ∷ [])
delta_callback-DeltaAsks_example =
    delta_callback-DeltaAsks parameters same_bits one_device bus 0 (workers 4) room warmer
      (worker 4) template (setpoint ∷ []) none found refl written

attribute_named : get_config_id_by_model_name parameters (97 ∷ []) template ≡ returns (ok (49 ∷ []))
unfolding get_config_id_by_model_name config_id same_text
attribute_named = refl

value_kept :
    get_prop_value_by_model_name parameters same_bits (97 ∷ []) (float32 1101004800) template
    ≡ ok (float32 1101004800)
unfolding get_prop_value_by_model_name prop_value same_text
value_kept = refl

converted : convert same_bits 4 (float32 1101004800) ≡ returns (ok (float32 1101004800))
unfolding convert parse_value_to_float32
converted = refl

mapped : named template (ok (49 ∷ [])) ≡ some (116 ∷ [])
unfolding get_mapping_name named_by same_text
mapped = refl

delta_callback-AllDone_asked_example :
    Among setpoint (setpoint ∷ []) × AllDone bus slave 0 (setpoint ∷ [])
delta_callback-AllDone_asked_example =
    delta_callback-AllDone_asked parameters same_bits one_device bus 0 (workers 4) room warmer
      (worker 4) template (setpoint ∷ []) setpoint found refl written
      (inl (
        ok (49 ∷ []),
        116 ∷ [],
        float32 1101004800,
        attribute_named,
        mapped,
        value_kept,
        inl (float32 1101004800, refl, converted, refl),
      ))

standard : object_of (point 4) ≡ sensor
unfolding object_of
standard = refl

send-write_of_example :
    send (write_request gateway thermostat 1 setpoint)
    ≡ returns (ok (write_request_bytes 1 setpoint, gateway))
unfolding object_of
send-write_of_example =
    send-write_of gateway gateway thermostat 1 same_bits (point 4) (float32 1101004800)
      (float32 1101004800) refl refl (omega arith) sensor-IsStandard converted

found_named : lookup (100 ∷ []) (workers 7) ≡ some (worker 7)
unfolding lookup same_text
found_named = refl

null_kept : get_prop_value_by_model_name parameters same_bits (97 ∷ []) nil template ≡ ok nil
unfolding get_prop_value_by_model_name prop_value same_text
null_kept = refl

delta_callback_null_example :
    delta_callback parameters same_bits one_device bus 0 (workers 7) room ((97 ∷ [], nil) ∷ [])
    ≡ panics
delta_callback_null_example =
    delta_callback_null parameters same_bits one_device bus 0 (workers 7) room (97 ∷ []) []
      (worker 7) template (ok (49 ∷ [])) (48 ∷ 58 ∷ 49 ∷ []) (point 7) [] found_named refl
      attribute_named mapped null_kept refl (omega arith) (omega arith) (omega arith)
