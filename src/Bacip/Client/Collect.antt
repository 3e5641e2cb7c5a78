-- ===== src/Bacip/Client/Collect.antt =====
-- bacip/client.go: how WhoIs collects the answers until its timer ends.
use baetyl_bacnet.Common.{
  ℕ, List, [], ◌∷◌, map, Option, none, some, Bool, true, ◌==◌, ◌&&◌, leb, if◌then◌else◌,
}
use baetyl_bacnet.Common.Go.{message, Result, ok, err}
use baetyl_bacnet.Bacnet.Address.{Address, UdpAddr, address_from_udp}
use baetyl_bacnet.Bacnet.Device.{Device}
use baetyl_bacnet.Bacip.Services.{WhoIs, Iam}
use baetyl_bacnet.Bacip.Apdu.{
  Payload, iam, Apdu, unconfirmed_service_request, service_unconfirmed_iam,
}
use baetyl_bacnet.Bacip.Bvlc.{Bvlc}

-- What the subscription's function sends on `rChan`.
pub record Packet : Type 0 where
  pub bvlc : Bvlc
  pub src : UdpAddr

-- Equality of the keys of the map `set`.
abbrev pub same_iam : Iam → Iam → Bool
same_iam i j =
    i.object_id.object_type == j.object_id.object_type
    && i.object_id.number == j.object_id.number
    && i.max_apdu_length == j.max_apdu_length
    && i.segmentation_support == j.segmentation_support
    && i.vendor_id == j.vendor_id

-- `map[Iam]bacnet.Address`; the order of the entries has no meaning.
unfoldable pub lookup : Iam → List (Iam × Address) → Option Address
lookup i [] = none
lookup i ((j, a) ∷ rest) = if same_iam j i then some a else lookup i rest

unfoldable pub put : Iam → Address → List (Iam × Address) → List (Iam × Address)
put i a [] = (i, a) ∷ []
put i a ((j, b) ∷ rest) = if same_iam j i then (j, a) ∷ rest else (j, b) ∷ put i a rest

-- A device may answer another client's request: its instance is compared with the limits.
abbrev limits : Option ℕ → Option ℕ → ℕ → Bool
limits (some low) (some high) n = leb low n && leb n high
limits _ _ n = true

unfoldable pub is_wanted : WhoIs → Iam → Bool
is_wanted w i = limits w.low w.high i.object_id.number

-- The sender's address, behind the router if the packet names its source.
abbrev behind : Address → Option Address → Address
behind a none = a
behind a (some source) = record a { net = source.net; adr = source.adr }

unfoldable pub packet_address : Packet → Address
packet_address p = behind (address_from_udp p.src) p.bvlc.npdu.source

abbrev pub collect_payload :
    WhoIs → List (Iam × Address) → Packet → Payload → Result (List (Iam × Address))
collect_payload w set p (iam i) = ok (if is_wanted w i then put i (packet_address p) set else set)
collect_payload w set p _ = err (message "unexpected payload type %T")

abbrev pub is_iam : Apdu → Bool
is_iam a = a.data_type == unconfirmed_service_request && a.service_type == service_unconfirmed_iam

unfoldable pub collect_packet :
    WhoIs → List (Iam × Address) → Packet → Result (List (Iam × Address))
collect_packet w set p = elim p.bvlc.npdu.adpu [
  | none ↦ ok set
  | some a ↦ if is_iam a then collect_payload w set p a.payload else ok set
]

-- The packets that arrive before the timer ends, in their order.
unfoldable pub collect : WhoIs → List (Iam × Address) → List Packet → Result (List (Iam × Address))
collect w set [] = ok set
collect w set (p ∷ ps) = elim (collect_packet w set p) [
  | ok set' ↦ collect w set' ps
  | err e ↦ err e
]

abbrev pub device : Iam × Address → Device
device (i, a) = record {
  id = i.object_id;
  max_apdu = i.max_apdu_length;
  segmentation = i.segmentation_support;
  vendor = i.vendor_id;
  addr = a;
}

abbrev devices : Result (List (Iam × Address)) → Result (List Device)
devices (ok set) = ok (map device set)
devices (err e) = err e

unfoldable pub who_is_answers : WhoIs → List Packet → Result (List Device)
unfolding collect
who_is_answers w ps = devices (collect w [] ps)
