-- ===== src/Bacip/Client/Search.antt =====
-- bacip/client.go: WhoIs from its request to its result, over the datagrams that `listen` reads meanwhile.
pub mod Finds
pub mod Cut
use baetyl_bacnet.Common.{ℕ, List, [], ◌∷◌, Option, none, some, Bool, true}
use baetyl_bacnet.Common.Go.{Error, Result, ok, err, Outcome, returns, ◌>>=◌}
use baetyl_bacnet.Bacnet.Address.{UdpAddr}
use baetyl_bacnet.Bacnet.Device.{Device}
use baetyl_bacnet.Bacip.Services.{WhoIs}
use baetyl_bacnet.Bacip.Bvlc.{Bvlc}
use baetyl_bacnet.Bacip.Transaction.{Transactions}
use baetyl_bacnet.Bacip.Client.Handler.{Handled}
use baetyl_bacnet.Bacip.Client.Listen.{receive}
use baetyl_bacnet.Bacip.Client.Requests.{who_is_request, broadcast_npdu}
use baetyl_bacnet.Bacip.Client.Collect.{Packet, who_is_answers}

-- One turn of the loop of `listen`, which starts a goroutine for its handler: the transactions and whether a call still receives, as its handler
-- finds them, what ReadFromUDP gives, and the address of the sender.
pub record Arrival : Type 0 where
  pub transactions : Transactions
  pub received : Bool
  pub datagram : Result (List ℕ)
  pub src : UdpAddr

abbrev heard : UdpAddr → Option Handled → List Packet → List Packet
heard src none ps = ps
heard src (some h) ps = elim h.told [ none ↦ ps | some v ↦ record { bvlc = v; src = src } ∷ ps ]

-- What the handlers tell the subscription, which is set. They are goroutines: the list has the
-- datagrams in the order in which their handlers reach the subscription, which may be another than
-- that of their arrival.
unfoldable pub listen : List Arrival → List Packet
listen [] = []
listen (a ∷ arrivals) =
    heard a.src (receive true a.received a.transactions a.datagram) (listen arrivals)

-- An error of the encoding, or else of the socket, ends WhoIs.
abbrev searched :
    WhoIs → Option Error → List Arrival → Result (List ℕ × UdpAddr) → Result (List Device)
searched w socket arrivals (err e) = err e
searched w (some e) arrivals (ok sent) = err e
searched w none arrivals (ok sent) = who_is_answers w (listen arrivals)

-- The client's broadcast address, what writing on the socket ends with, and the datagrams before the
-- timer ends.
unfoldable pub search :
    List ℕ → Option Error → WhoIs → List Arrival → Outcome (Result (List Device))
unfolding listen
search ip socket w arrivals = do
  r ← broadcast_npdu ip (who_is_request w)
  returns (searched w socket arrivals r)
