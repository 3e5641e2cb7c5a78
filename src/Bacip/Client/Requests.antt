-- ===== src/Bacip/Client/Requests.antt =====
-- bacip/client.go: the packets of WhoIs, ReadProperty and WriteProperty, and how they are sent.
use baetyl_bacnet.Common.{ℕ, List, [], Option, none, some, true, false}
use baetyl_bacnet.Common.Go.{message, Result, ok, err, Outcome, returns, ◌>>=◌}
use baetyl_bacnet.Bacnet.Address.{Address, UdpAddr, address_from_udp, udp_from_address}
use baetyl_bacnet.Bacnet.Device.{Device}
use baetyl_bacnet.Bacip.Services.{WhoIs, ReadProperty, WriteProperty}
use baetyl_bacnet.Bacip.Apdu.{
  Payload, who_is, read_property, write_property, confirmed_service_request,
  unconfirmed_service_request, service_confirmed_read_property, service_confirmed_write_property,
  service_unconfirmed_who_is,
}
use baetyl_bacnet.Bacip.Npdu.{Npdu, version1, normal}
use baetyl_bacnet.Bacip.Bvlc.{type_bacnet_ip, unicast, broadcast, marshal_bvlc}

abbrev pub default_udp_port : ℕ
default_udp_port = 47808

-- A confirmed request from the client's own IP address and port to a device.
abbrev pub confirmed_request : UdpAddr → Device → ℕ → ℕ → Payload → Npdu
confirmed_request own device service id p = record {
  version = version1;
  is_network_layer_message = false;
  expecting_reply = true;
  priority = normal;
  destination = some device.addr;
  source = some (address_from_udp own);
  hop_count = 255;
  network_message_type = 0;
  vendor_id = 0;
  adpu = some (record {
    data_type = confirmed_service_request;
    service_type = service;
    payload = p;
    invoke_id = id;
  });
}

unfoldable pub read_request : UdpAddr → Device → ℕ → ReadProperty → Npdu
read_request own device id rp =
    confirmed_request own device service_confirmed_read_property id (read_property rp)

unfoldable pub write_request : UdpAddr → Device → ℕ → WriteProperty → Npdu
write_request own device id wp =
    confirmed_request own device service_confirmed_write_property id (write_property wp)

unfoldable pub who_is_request : WhoIs → Npdu
who_is_request w = record {
  version = version1;
  is_network_layer_message = false;
  expecting_reply = false;
  priority = normal;
  destination = some (record { mac = []; net = 0xffff; adr = [] });
  source = none;
  hop_count = 255;
  network_message_type = 0;
  vendor_id = 0;
  adpu = some (record {
    data_type = unconfirmed_service_request;
    service_type = service_unconfirmed_who_is;
    payload = who_is w;
    invoke_id = 0;
  });
}

abbrev sent_to : Option Address → Result (List ℕ) → Outcome (Result (List ℕ × UdpAddr))
sent_to destination (err e) = returns (err e)
sent_to none (ok bytes) =
    returns (err (message "destination baetyl-bacnet address should be not nil to send unicast"))
sent_to (some a) (ok bytes) = do addr ← udp_from_address a; returns (ok (bytes, addr))

-- What is written on the socket, and to which address.
unfoldable pub send : Npdu → Outcome (Result (List ℕ × UdpAddr))
send n = do
  r ← marshal_bvlc (record { bvlc_type = type_bacnet_ip; function = unicast; npdu = n })
  sent_to n.destination r

abbrev broadcast_to : List ℕ → Result (List ℕ) → Result (List ℕ × UdpAddr)
broadcast_to ip (err e) = err e
broadcast_to ip (ok bytes) = ok (bytes, record { ip = ip; port = default_udp_port })

unfoldable pub broadcast_npdu : List ℕ → Npdu → Outcome (Result (List ℕ × UdpAddr))
broadcast_npdu ip n = do
  r ← marshal_bvlc (record { bvlc_type = type_bacnet_ip; function = broadcast; npdu = n })
  returns (broadcast_to ip r)
