-- ===== src/Bacip/Client/Search/Cut.antt =====
-- A frame that is cut short behind the type of its application packet, while WhoIs listens.
use baetyl_bacnet.Common.{ℕ, ◌≡◌, refl, List, [], ◌∷◌, ◌++◌, none, Bool, arith}
use baetyl_bacnet.Common.Go.{ok, err, returns}
use baetyl_bacnet.Bacnet.Address.{UdpAddr}
use baetyl_bacnet.Bacip.Services.{WhoIs}
use baetyl_bacnet.Bacip.Services.WhoIsRoundTrip.{IsRequest}
use baetyl_bacnet.Bacip.Apdu.{unconfirmed_service_request}
use baetyl_bacnet.Bacip.Transaction.{Transactions}
use baetyl_bacnet.Bacip.Client.Handler.{handle_message}
use baetyl_bacnet.Bacip.Client.Delivery.{answer_frame, framed, unmarshal_answer}
use baetyl_bacnet.Bacip.Client.Listen.{receive}
use baetyl_bacnet.Bacip.Client.Collect.{Packet, who_is_answers}
use baetyl_bacnet.Bacip.Client.Discovery.{cut, unmarshal_cut, unexpected_payload, collect-cut}
use baetyl_bacnet.Bacip.Client.Search.{Arrival, listen, search}
use baetyl_bacnet.Bacip.Client.Search.Finds.{broadcast-who_is_request}

-- The frame whose application packet is the single byte 0x10.
abbrev pub cut_frame : ℕ → List ℕ
cut_frame f = answer_frame f (unconfirmed_service_request ∷ [])

-- An arrival of it, with the sender and whatever the handler finds.
abbrev pub cut_arrival : Transactions → Bool → ℕ → UdpAddr → Arrival
cut_arrival t received f src = record {
  transactions = t;
  received = received;
  datagram = ok (cut_frame f);
  src = src;
}

abbrev cut_packet : ℕ → UdpAddr → Packet
cut_packet f src = record { bvlc = framed f cut; src = src }

listen-cut :
    (t : Transactions) (r : Bool) (f : ℕ) (src : UdpAddr) (before later : List Arrival)
    → listen (before ++ (cut_arrival t r f src ∷ later))
      ≡ listen before ++ (cut_packet f src ∷ listen later)
unfolding listen receive handle_message
listen-cut t r f src [] later =
    let whole =
      unmarshal_answer f (unconfirmed_service_request ∷ []) cut _ (omega arith) unmarshal_cut in
    ground (arith, whole)
listen-cut t r f src (a ∷ before) later = ground (arith, listen-cut t r f src before later)

-- A frame whose application packet is the single byte 0x10 ends a WhoIs for all
-- devices or for a range of instances, whose request was sent, with an error and no devices,
-- whatever arrives before and after it.
pub search-cut :
    (ip : List ℕ) (w : WhoIs) (before later : List Arrival) (t : Transactions) (r : Bool) (f : ℕ)
    (src : UdpAddr)
    → IsRequest w
    → search ip none w (before ++ (cut_arrival t r f src ∷ later))
      ≡ returns (err unexpected_payload)
unfolding search who_is_answers
search-cut ip w before later t r f src h =
    let (bytes, b) = broadcast-who_is_request ip w h in
    rw
      (
        b,
        listen-cut t r f src before later,
        collect-cut w [] (listen before) (cut_packet f src) (listen later) refl,
      )
      refl
