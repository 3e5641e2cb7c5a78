-- ===== src/Tests/Client.antt =====
-- The client's ids as a table, the end of its calls, and a write, on concrete input.
use baetyl_bacnet.Common.{
  ltb, ◌≤◌, ◌*◌, ◌≡◌, refl, ℕ, List, [], some, none, length, arith, true, List,
}
use baetyl_bacnet.Common.Go.{ok, returns}
use baetyl_bacnet.Bacnet.Value.{boolean}
use baetyl_bacnet.Bacip.Services.{WriteProperty}
use baetyl_bacnet.Bacip.Transaction.{get_transaction}
use baetyl_bacnet.Bacip.Client.Calls.{System, Event, start, run}
use baetyl_bacnet.Bacip.Client.Holders.{bit, count}
use baetyl_bacnet.Bacip.Client.Refinement.Table.{unused, acts, Trace, view, addressee, times_free}
use baetyl_bacnet.Bacip.Client.Refinement.{run-Trace}
use baetyl_bacnet.Bacip.Client.Drain.{run_drains}
use baetyl_bacnet.Bacip.Client.Requests.{write_request, send}
use baetyl_bacnet.Bacip.Client.Writing.{
  IsWireWrite, is_boolean, write_request_bytes, send-write_request,
}
use baetyl_bacnet.Tests.Codec.{sensor, sensor-IsStandard}
use baetyl_bacnet.Tests.Calls.{schedule, busy, schedule_runs, gateway, thermostat}

run-Trace_example :
    Trace (view start) (acts schedule start) (view busy)
    × ((j : ℕ) → get_transaction j busy.transactions ≡ addressee (view busy j))
    × ((j : ℕ) → count j busy.transactions.free_invoke_id ≡ times_free j (view busy j))
    × ((j : ℕ) → view start j ≡ unused)
run-Trace_example = run-Trace schedule busy schedule_runs

run_drains_example :
    (fs : List Event) × (s' : System) × (run fs busy ≡ some s')
    × (s'.calls ≡ [])
    × (length fs ≤ 3 * length busy.calls)
    × ((j : ℕ) → count j s'.transactions.free_invoke_id ≡ bit (ltb j 256))
    × ((j : ℕ) → get_transaction j s'.transactions ≡ none)
run_drains_example = run_drains schedule busy schedule_runs

-- The sensor is taken out of service.
abbrev pub out_of_service : WriteProperty
out_of_service = record {
  object_id = sensor;
  property = record { property_type = 81; array_index = none };
  property_value = record { tag = 1; value = boolean true };
  priority = 0;
}

pub out_of_service-IsWireWrite : IsWireWrite out_of_service
out_of_service-IsWireWrite = record {
  standard = sensor-IsStandard;
  property_fits = omega arith;
  index_fits = tt;
  typed = is_boolean true;
  priority_fits = omega arith;
}

send-write_request_example :
    send (write_request gateway thermostat 1 out_of_service)
    ≡ returns (ok (write_request_bytes 1 out_of_service, gateway))
send-write_request_example =
    send-write_request gateway gateway thermostat 1 out_of_service refl refl (omega arith)
      out_of_service-IsWireWrite
