-- ===== src/Tests/Answers.antt =====
-- A device that refuses a request or acknowledges it, and what any bytes are read into.
use baetyl_bacnet.Common.{
  ℕ, ◌≡◌, ◌≤◌, length, ◌↔◌, refl, List, [], ◌∷◌, none, some, true, false, not, ◌&&◌, All, arith,
}
use baetyl_bacnet.Common.Go.{ok, apdu_error, err, returns, panics}
use baetyl_bacnet.Bacnet.Value.{nil, boolean}
use baetyl_bacnet.Encoding.Bytes.{IsByte}
use baetyl_bacnet.Encoding.Tag.{
  tag_bytes, tag_meta, tag_head, tag_value, decode_tag, decode_number, decode_rest, decode_value,
}
use baetyl_bacnet.Encoding.Encoder.Unsigned.{value_length, unsigned_bytes}
use baetyl_bacnet.Encoding.Buffer.{new_buffer, read_byte}
use baetyl_bacnet.Encoding.Decoder.{new_decoder}
use baetyl_bacnet.Encoding.Decoder.Reflect.{to_any}
use baetyl_bacnet.Encoding.Decoder.AppData.{app_data, app_content}
use baetyl_bacnet.Encoding.Decoder.Panics.{is_fatal_tag, app_data_panics}
use baetyl_bacnet.Encoding.RoundTrip.Answers.{truth}
use baetyl_bacnet.Bacip.Client.Listen.{receive}
use baetyl_bacnet.Bacip.Client.Requests.{send, read_request}
use baetyl_bacnet.Bacip.Client.Sending.{request_bytes}
use baetyl_bacnet.Bacip.Services.Typed.{Leaves}
use baetyl_bacnet.Bacip.Apdu.{Apdu}
use baetyl_bacnet.Bacip.Npdu.{new_npdu}
use baetyl_bacnet.Bacip.Bvlc.{new_bvlc, unmarshal_bvlc}
use baetyl_bacnet.Bacip.Bvlc.Typed.{IsTypedNpdu, IsTypedBvlc, unmarshal_bvlc-IsTyped}
use baetyl_bacnet.Bacip.Client.Handler.{Handled, handle_message}
use baetyl_bacnet.Bacip.Client.Delivery.{answer_frame}
use baetyl_bacnet.Bacip.Client.Answers.{
  refusal, acknowledgement, request_refused, write_property_answered, answer_to, call_read_answered,
}
use baetyl_bacnet.Tests.Client.{out_of_service, out_of_service-IsWireWrite}
use baetyl_bacnet.Tests.Codec.{sensor-IsStandard}
use baetyl_bacnet.Bacip.Client.Invoke.{call_read, call_write, IsLocal, IsWireRead}
use baetyl_bacnet.Tests.Calls.{
  present_value, gateway, thermostat, schedule, busy, second_call, first_call, schedule_runs,
  second_picked,
}

thermostat-IsLocal : IsLocal thermostat gateway
thermostat-IsLocal = record { addressed = refl; four = refl; port_fits = omega arith }

present_value-IsWireRead : IsWireRead present_value
present_value-IsWireRead = record {
  standard = sensor-IsStandard;
  property_fits = omega arith;
  index_fits = tt;
}

-- The device refuses to write: PropertyError, WriteAccessDenied.
request_refused_example :
    (h : Handled) × (a : Apdu) × (handle_message false true busy.transactions
        (answer_frame 10 (refusal 1 15 2 40))
      ≡ returns h)
    × (h.failure ≡ none)
    × (h.sent ≡ some (52, a))
    × (call_read gateway thermostat 1 present_value none (some a) ≡ returns (err (apdu_error 2 40)))
    × (call_write gateway thermostat 1 out_of_service none (some a)
        ≡ returns (some (apdu_error 2 40)))
request_refused_example =
    request_refused schedule busy 1 second_call (first_call ∷ []) 10 false schedule_runs
      second_picked refl gateway gateway thermostat present_value out_of_service 15 2 40
      thermostat-IsLocal present_value-IsWireRead out_of_service-IsWireWrite (omega arith)
      (omega arith)

write_property_answered_example :
    (h : Handled) × (a : Apdu) × (handle_message false true busy.transactions
        (answer_frame 10 (acknowledgement 1))
      ≡ returns h)
    × (h.failure ≡ none)
    × (h.sent ≡ some (52, a))
    × (call_write gateway thermostat 1 out_of_service none (some a) ≡ returns none)
write_property_answered_example =
    write_property_answered schedule busy 1 second_call (first_call ∷ []) 10 false schedule_runs
      second_picked refl gateway gateway thermostat out_of_service thermostat-IsLocal
      out_of_service-IsWireWrite

ack_short : length (answer_to 1 present_value (truth true)) ≤ 2042
unfolding tag_bytes tag_meta tag_head tag_value value_length unsigned_bytes
ack_short = omega arith

call_read_answered_example :
    (h : Handled) × (a : Apdu) × (send (read_request gateway thermostat 1 present_value)
      ≡ returns (ok (request_bytes 1 present_value, gateway)))
    × (receive false true busy.transactions
          (ok (answer_frame 10 (answer_to 1 present_value (truth true))))
        ≡ some h)
    × (h.failure ≡ none)
    × (h.sent ≡ some (52, a))
    × (call_read gateway thermostat 1 present_value none (some a) ≡ returns (ok (boolean true)))
call_read_answered_example =
    call_read_answered schedule busy 1 second_call (first_call ∷ []) 10 false schedule_runs
      second_picked refl gateway gateway thermostat present_value (truth true) thermostat-IsLocal
      present_value-IsWireRead tt ack_short

-- A character string of no bytes, not even the one of its encoding.
abbrev empty_string : List ℕ
empty_string = 0x70 ∷ 0 ∷ []

app_data_panics_example :
    (app_data (new_decoder empty_string) to_any nil ≡ panics)
    ↔ ((not false && true && is_fatal_tag to_any (decode_tag (new_buffer empty_string))) ≡ true)
app_data_panics_example = app_data_panics (new_decoder empty_string) to_any nil

empty_string_panics : app_data (new_decoder empty_string) to_any nil ≡ panics
unfolding app_data app_content decode_tag decode_number decode_rest decode_value read_byte
empty_string_panics = refl

new_npdu-IsTyped : IsTypedNpdu new_npdu
new_npdu-IsTyped = ground arith

new_bvlc-IsTyped : IsTypedBvlc new_bvlc
new_bvlc-IsTyped = record {
  type_fits = omega arith;
  function_fits = omega arith;
  npdu_fits = new_npdu-IsTyped;
}

-- A frame with an Error in it.
abbrev error_frame : List ℕ
error_frame = 0x81 ∷ 10 ∷ 0 ∷ 13 ∷ 1 ∷ 0 ∷ 0x50 ∷ 1 ∷ 15 ∷ 0x91 ∷ 2 ∷ 0x91 ∷ 40 ∷ []

error_frame-IsByte : All IsByte error_frame
error_frame-IsByte = omega arith

unmarshal_bvlc-IsTyped_example : Leaves IsTypedBvlc (unmarshal_bvlc new_bvlc error_frame)
unmarshal_bvlc-IsTyped_example =
    unmarshal_bvlc-IsTyped new_bvlc error_frame new_bvlc-IsTyped error_frame-IsByte
