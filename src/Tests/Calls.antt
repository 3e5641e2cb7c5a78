-- ===== src/Tests/Calls.antt =====
-- The client's calls on concrete schedules and packets.
use baetyl_bacnet.Common.{
  ◌≡◌, ◌↔◌, refl, List, [], ◌∷◌, Option, none, some, true, false, arith, length,
}
use baetyl_bacnet.Common.Go.{ok, returns, panics}
use baetyl_bacnet.Tests.Codec.{sensor, sensor-IsStandard}
use baetyl_bacnet.Bacnet.Address.{UdpAddr, address_from_udp}
use baetyl_bacnet.Bacnet.Device.{Device}
use baetyl_bacnet.Bacnet.Value.{nil}
use baetyl_bacnet.Encoding.Buffer.{read_byte, read_uint}
use baetyl_bacnet.Encoding.Tag.{tag_bytes, tag_head, tag_meta, tag_value}
use baetyl_bacnet.Encoding.Encoder.Unsigned.{value_length, unsigned_bytes}
use baetyl_bacnet.Bacip.Services.{ReadProperty}
use baetyl_bacnet.Bacip.Apdu.{
  Apdu, new_apdu, simple_ack, no_payload, unconfirmed_service_request, unmarshal_apdu,
  unmarshal_payload, unmarshal_service, unmarshal_invoke_id,
}
use baetyl_bacnet.Bacip.Apdu
use baetyl_bacnet.Bacip.Transaction.{
  new_transactions, get_id, free_id, set_transaction, stop_transaction, get_transaction,
}
use baetyl_bacnet.Bacip.Client.Calls.{
  registered, stopped, Call, System, Event, begins, registers, stops, finishes, start, step, run,
  pick, begin, register, stop, finish,
}
use baetyl_bacnet.Bacip.Client.Holders.{IsConsistent}
use baetyl_bacnet.Bacip.Client.Routing.{run-IsConsistent, get_transaction_waiting, get_id_blocks}
use baetyl_bacnet.Bacip.Client.Handler.{Handled, handle_message, await_read, await_write}
use baetyl_bacnet.Bacip.Client.Delivery.{answer_frame, truncated, truncated_error_panics}
use baetyl_bacnet.Bacip.Client.Requests.{read_request, send}
use baetyl_bacnet.Bacip.Client.Sending.{request_bytes, send-read_request}
use baetyl_bacnet.Bacip.Apdu.{unmarshal_payload}

-- The system that a schedule leads to; the start if it is not possible.
abbrev reached : Option System → System
reached none = start
reached (some s) = s

-- Two calls begin, the second registers first, the first one registers and is answered.
abbrev pub schedule : List Event
schedule = begins 51 7 ∷ begins 52 8 ∷ registers 0 ∷ registers 1 ∷ stops 0 ∷ []

abbrev pub busy : System
unfolding run
busy = reached (run schedule start)

pub schedule_runs : run schedule start ≡ some busy
unfolding busy run step begin register stop get_id set_transaction stop_transaction pick start
    new_transactions
schedule_runs = refl

busy_calls :
    busy.calls
    ≡ record { channel = 51; ctx = 7; id = 0; phase = stopped }
      ∷ record { channel = 52; ctx = 8; id = 1; phase = registered }
      ∷ []
unfolding busy run step begin register stop get_id set_transaction stop_transaction pick start
    new_transactions
busy_calls = refl

abbrev pub first_call : Call
first_call = record { channel = 51; ctx = 7; id = 0; phase = stopped }

abbrev pub second_call : Call
second_call = record { channel = 52; ctx = 8; id = 1; phase = registered }

first_picked : pick busy.calls 0 ≡ some (first_call, second_call ∷ [])
unfolding busy run step begin register stop get_id set_transaction stop_transaction pick start
    new_transactions
first_picked = refl

pub second_picked : pick busy.calls 1 ≡ some (second_call, first_call ∷ [])
unfolding busy run step begin register stop get_id set_transaction stop_transaction pick start
    new_transactions
second_picked = refl

run-IsConsistent_example : IsConsistent busy
run-IsConsistent_example = run-IsConsistent schedule busy schedule_runs

second_waits : get_transaction 1 busy.transactions ≡ some (record { apdu = 52; ctx = 8 })
second_waits =
    get_transaction_waiting schedule busy 1 second_call (first_call ∷ []) schedule_runs
      second_picked refl

get_id_blocks_example : (get_id busy.transactions ≡ none) ↔ (length busy.calls ≡ 256)
get_id_blocks_example = get_id_blocks schedule busy schedule_runs

-- One call from its beginning to its end.
abbrev whole_call : List Event
whole_call = begins 51 7 ∷ registers 0 ∷ stops 0 ∷ finishes 0 ∷ []

abbrev quiet : System
unfolding run
quiet = reached (run whole_call start)

whole_call_runs : run whole_call start ≡ some quiet
unfolding quiet run step begin register stop finish get_id free_id set_transaction stop_transaction
    pick start new_transactions
whole_call_runs = refl

quiet_calls : quiet.calls ≡ []
unfolding quiet run step begin register stop finish get_id free_id set_transaction stop_transaction
    pick start new_transactions
quiet_calls = refl

-- A SimpleACK of WriteProperty.
abbrev written : Apdu
written = record {
  data_type = simple_ack;
  service_type = 15;
  payload = Apdu.data_payload [];
  invoke_id = 1;
}

written_decodes : unmarshal_apdu new_apdu (0x20 ∷ 1 ∷ 15 ∷ []) ≡ returns (written, none)
unfolding unmarshal_apdu read_uint read_byte
written_decodes = refl

truncated_error_panics_example :
    (h : Handled) × (handle_message false true busy.transactions (answer_frame 10 (0x50 ∷ 1 ∷ []))
      ≡ returns h)
    × (h.failure ≡ none)
    × (h.sent ≡ some (52, truncated 1))
    × (await_read (some (truncated 1)) ≡ panics)
    × (await_write (some (truncated 1)) ≡ panics)
truncated_error_panics_example =
    truncated_error_panics 10 1 false busy.transactions (record { apdu = 52; ctx = 8 }) second_waits

abbrev pub gateway : UdpAddr
gateway = record { ip = 192 ∷ 168 ∷ 1 ∷ 20 ∷ []; port = 47808 }

abbrev pub thermostat : Device
thermostat = record {
  id = sensor;
  max_apdu = 1476;
  segmentation = 3;
  vendor = 260;
  addr = address_from_udp gateway;
}

abbrev pub present_value : ReadProperty
present_value = record {
  object_id = sensor;
  property = record { property_type = 85; array_index = none };
  content = nil;
}

send-read_request_example :
    send (
      read_request
        (record { ip = 192 ∷ 168 ∷ 1 ∷ 2 ∷ []; port = 47808 })
        thermostat
        1
        present_value)
    ≡ returns (ok (request_bytes 1 present_value, gateway))
send-read_request_example =
    send-read_request (record { ip = 192 ∷ 168 ∷ 1 ∷ 2 ∷ []; port = 47808 }) gateway thermostat 1
      present_value refl refl (omega arith) sensor-IsStandard (omega arith) tt

request_captured :
    request_bytes 1 present_value
    ≡ 0x81 ∷ 10 ∷ 0 ∷ 17 ∷ 1 ∷ 4 ∷ 0 ∷ 5 ∷ 1 ∷ 12 ∷ 0x0C ∷ 0 ∷ 0 ∷ 4 ∷ 210 ∷ 0x19 ∷ 85 ∷ []
unfolding tag_bytes tag_head tag_meta tag_value value_length unsigned_bytes
request_captured = refl
