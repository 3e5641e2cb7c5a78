-- ===== src/Bacip/Client/Invoke.antt =====
-- bacip/client.go: ReadProperty and WriteProperty from the request to the result, for a call that has its
-- invoke id; what becomes of the ids and the transactions meanwhile are the steps of Calls.
use baetyl_bacnet.Common.{ℕ, ◌<◌, ◌≡◌, refl, List, Option, none, some, length}
use baetyl_bacnet.Common.Go.{Error, Result, ok, err, Outcome, returns, ◌>>=◌}
use baetyl_bacnet.Bacnet.Address.{UdpAddr, address_from_udp}
use baetyl_bacnet.Bacnet.Device.{Device}
use baetyl_bacnet.Bacnet.ObjectId.Packing.{IsStandard}
use baetyl_bacnet.Bacnet.Value.{Value}
use baetyl_bacnet.Encoding.Bytes.{IsU32}
use baetyl_bacnet.Bacip.Services.{ReadProperty, WriteProperty}
use baetyl_bacnet.Bacip.Services.ReadAck.{IndexFits}
use baetyl_bacnet.Bacip.Apdu.{Apdu}
use baetyl_bacnet.Bacip.Client.Handler.{await_read, await_write}
use baetyl_bacnet.Bacip.Client.Requests.{send, read_request, write_request}
use baetyl_bacnet.Bacip.Client.Sending.{send-read_request}
use baetyl_bacnet.Bacip.Client.Writing.{IsWireWrite, send-write_request}

-- An error of the encoding or of the socket ends the call before it waits.
abbrev read_sent : Option Error → Option Apdu → Result (List ℕ × UdpAddr) → Outcome (Result Value)
read_sent socket answer (err e) = returns (err e)
read_sent (some e) answer (ok sent) = returns (err e)
read_sent none answer (ok sent) = await_read answer

abbrev write_sent : Option Error → Option Apdu → Result (List ℕ × UdpAddr) → Outcome (Option Error)
write_sent socket answer (err e) = returns (some e)
write_sent (some e) answer (ok sent) = returns (some e)
write_sent none answer (ok sent) = await_write answer

-- The client's own address, the device, the id, the argument, what writing on the socket ends with, and
-- the answer that the call receives before its context is done.
unfoldable pub call_read :
    UdpAddr → Device → ℕ → ReadProperty → Option Error → Option Apdu → Outcome (Result Value)
unfolding await_read
call_read own device id rp socket answer = do
  r ← send (read_request own device id rp)
  read_sent socket answer r

unfoldable pub call_write :
    UdpAddr → Device → ℕ → WriteProperty → Option Error → Option Apdu → Outcome (Option Error)
unfolding await_write
call_write own device id wp socket answer = do
  r ← send (write_request own device id wp)
  write_sent socket answer r

-- A device of the local network: its address is that of an IPv4 host.
pub record IsLocal (device : Device) (udp : UdpAddr) : Type 0 where
  pub addressed : device.addr ≡ address_from_udp udp
  pub four : length udp.ip ≡ 4
  pub port_fits : udp.port < 65536

pub record IsWireRead (rp : ReadProperty) : Type 0 where
  pub standard : IsStandard rp.object_id
  pub property_fits : IsU32 rp.property.property_type
  pub index_fits : IndexFits rp.property.array_index

-- The request of a sensible call is sent, and the result is what becomes of its answer.
pub call_read-await_read :
    (own udp : UdpAddr) (device : Device) (id : ℕ) (rp : ReadProperty) (answer : Option Apdu)
    → IsLocal device udp
    → IsWireRead rp
    → call_read own device id rp none answer ≡ await_read answer
unfolding call_read
call_read-await_read own udp device id rp answer l h =
    rw
      (send-read_request own udp device id rp l.addressed l.four l.port_fits h.standard
        h.property_fits h.index_fits)
      refl

pub call_write-await_write :
    (own udp : UdpAddr) (device : Device) (id : ℕ) (wp : WriteProperty) (answer : Option Apdu)
    → IsLocal device udp
    → IsWireWrite wp
    → call_write own device id wp none answer ≡ await_write answer
unfolding call_write
call_write-await_write own udp device id wp answer l h =
    rw (send-write_request own udp device id wp l.addressed l.four l.port_fits h) refl
