-- ===== src/Bacip/Client/Search/Finds.antt =====
-- WhoIs finds the devices whose I-Am arrives.
use baetyl_bacnet.Common.{
  ℕ, ◌+◌, ◌%◌, ◌≤◌, ◌≡◌, ◌≢◌, refl, sym, subst, ap, ◌∙◌, List, [], ◌∷◌, ◌++◌, map, Option, none,
  some, Bool, true, length, take-whole, All, arith, ◌&&◌, if◌then◌else◌,
}
use baetyl_bacnet.Common.Go.{not_bacnet_ip, ok, returns}
use baetyl_bacnet.Bacnet.Address.{Address, UdpAddr}
use baetyl_bacnet.Encoding.Bytes.{uint16_bytes}
use baetyl_bacnet.Encoding.Buffer.{read_byte}
use baetyl_bacnet.Bacip.Services.{WhoIs, Iam}
use baetyl_bacnet.Bacip.Services.WhoIsRoundTrip.{IsRequest, unmarshal_who_is-marshal_who_is}
use baetyl_bacnet.Bacip.Apdu.{new_iam, marshal_apdu, marshal_payload}
use baetyl_bacnet.Bacip.Apdu.RoundTrip.{announcing}
use baetyl_bacnet.Bacip.Npdu.{marshal_npdu, npdu_front}
use baetyl_bacnet.Bacip.Npdu.RoundTrip.{IsWireNpdu}
use baetyl_bacnet.Bacip.Bvlc.RoundTrip.{unmarshal_bvlc_marshalled}
use baetyl_bacnet.Bacip.Bvlc.{
  Bvlc, new_bvlc, broadcast, marshal_bvlc, unmarshal_bvlc, type_bacnet_ip,
}
use baetyl_bacnet.Bacip.Transaction.{Transactions}
use baetyl_bacnet.Bacip.Client.Handler.{Handled, dropped, handle_message}
use baetyl_bacnet.Bacip.Client.Listen.{receive}
use baetyl_bacnet.Bacip.Client.Requests.{who_is_request, broadcast_npdu, default_udp_port}
use baetyl_bacnet.Bacip.Client.Collect.{
  Packet, same_iam, lookup, is_wanted, packet_address, collect, device, who_is_answers,
}
use baetyl_bacnet.Bacip.Client.Discovery.{announced, is_well_typed, latest, entries, collect-latest}
use baetyl_bacnet.Bacip.Client.Search.{Arrival, listen, search}

-- What arrives: the bytes of a frame around an I-Am, or bytes that are not a BACnet/IP frame.
pub data Sound : Type 0 where
  hello : Bvlc → Iam → List ℕ → Sound
  noise : ℕ → List ℕ → Sound

abbrev pub sound_bytes : Sound → List ℕ
sound_bytes (hello v i bytes) = bytes
sound_bytes (noise x xs) = x ∷ xs

-- The frame of an I-Am, with or without a destination and a source, and with any function, that
-- `MarshalBinary` writes, and that fits the slice which the client reads into.
pub record IsHello (v : Bvlc) (i : Iam) (bytes : List ℕ) : Type 0 where
  pub announces_it : v.npdu.adpu ≡ some (announcing i)
  pub bacnet_ip : v.bvlc_type ≡ type_bacnet_ip
  pub wire : IsWireNpdu v.npdu
  pub written : marshal_bvlc v ≡ returns (ok bytes)
  pub fits : length bytes ≤ 2048

abbrev pub IsSound : Sound → Type 0
IsSound (hello v i bytes) = IsHello v i bytes
IsSound (noise x xs) = x ≢ type_bacnet_ip

-- An arrival of it, with the sender and whatever the handler finds.
pub record Heard : Type 0 where
  pub transactions : Transactions
  pub received : Bool
  pub sound : Sound
  pub src : UdpAddr

abbrev pub arrival : Heard → Arrival
arrival a = record {
  transactions = a.transactions;
  received = a.received;
  datagram = ok (sound_bytes a.sound);
  src = a.src;
}

abbrev packets_of : List Heard → List Packet
packets_of [] = []
packets_of (a ∷ later) = elim a.sound [
  | hello v i bytes ↦ record { bvlc = v; src = a.src } ∷ packets_of later
  | noise x xs ↦ packets_of later
]

-- The address of the last of these I-Ams among those that the subscription gets: the sender of the
-- datagram, behind the source that the packet names, if it does.
abbrev pub last_hello : WhoIs → Iam → List Heard → Option Address → Option Address
last_hello w i [] before = before
last_hello w i (a ∷ later) before = elim a.sound [
  | noise x xs ↦ last_hello w i later before
  | hello v j bytes ↦ last_hello w i later (
      if same_iam j i && is_wanted w j
      then some (packet_address (record { bvlc = v; src = a.src }))
      else before)
]

abbrev told : Bvlc → Handled
told v = record { told = some v; sent = none; failure = none }

handled-hello :
    (r : Bool) (t : Transactions) (v : Bvlc) (i : Iam) (bytes : List ℕ)
    → unmarshal_bvlc new_bvlc bytes ≡ returns (v, none)
    → v.npdu.adpu ≡ some (announcing i)
    → handle_message true r t bytes ≡ returns (told v)
unfolding handle_message
handled-hello r t v i bytes u a = ground (arith, u, a)

receive-hello :
    (r : Bool) (t : Transactions) (v : Bvlc) (i : Iam) (bytes : List ℕ)
    → IsHello v i bytes
    → receive true r t (ok bytes) ≡ some (told v)
unfolding receive
receive-hello r t v i bytes h =
    let u =
      unmarshal_bvlc_marshalled v bytes h.bacnet_ip h.wire h.written (omega (arith, h.fits)) in
    rw (take-whole 2048 bytes h.fits, handled-hello r t v i bytes u h.announces_it) refl

receive-noise :
    (r : Bool) (t : Transactions) (x : ℕ) (xs : List ℕ)
    → x ≢ type_bacnet_ip
    → receive true r t (ok (x ∷ xs)) ≡ some (dropped (some not_bacnet_ip))
unfolding receive handle_message unmarshal_bvlc read_byte
receive-noise r t x xs h = ground arith

listen-packets_of :
    (ws : List Heard) → All (λ a. IsSound a.sound) ws → listen (map arrival ws) ≡ packets_of ws
unfolding listen
listen-packets_of [] h = refl
listen-packets_of (a ∷ later) (h, hs) = go a.sound refl h (listen-packets_of later hs)
  where
    go :
        (s : Sound)
        → a.sound ≡ s
        → IsSound s
        → listen (map arrival later) ≡ packets_of later
        → listen (map arrival (a ∷ later)) ≡ packets_of (a ∷ later)
    go (hello v i bytes) e k ih =
        rw (e, receive-hello a.received a.transactions v i bytes k, ih) refl
    go (noise x xs) e k ih = rw (e, receive-noise a.received a.transactions x xs k, ih) refl

latest-packets_of :
    (w : WhoIs) (i : Iam) (ws : List Heard) (before : Option Address)
    → All (λ a. IsSound a.sound) ws
    → latest w i (packets_of ws) before ≡ last_hello w i ws before
unfolding latest announced
latest-packets_of w i [] before h = refl
latest-packets_of w i (a ∷ later) before (h, hs) =
    go a.sound refl h (λ b. latest-packets_of w i later b hs)
  where
    go :
        (s : Sound)
        → a.sound ≡ s
        → IsSound s
        → ((b : Option Address) → latest w i (packets_of later) b ≡ last_hello w i later b)
        → latest w i (packets_of (a ∷ later)) before ≡ last_hello w i (a ∷ later) before
    go (hello v j bytes) e k ih = rw (e, k.announces_it) (ih _)
    go (noise x xs) e k ih = rw e (ih before)

packets_of-typed :
    (ws : List Heard)
    → All (λ a. IsSound a.sound) ws
    → All (λ p. is_well_typed p ≡ true) (packets_of ws)
unfolding is_well_typed
packets_of-typed [] h = tt
packets_of-typed (a ∷ later) (h, hs) = go a.sound refl h (packets_of-typed later hs)
  where
    go :
        (s : Sound)
        → a.sound ≡ s
        → IsSound s
        → All (λ p. is_well_typed p ≡ true) (packets_of later)
        → All (λ p. is_well_typed p ≡ true) (packets_of (a ∷ later))
    go (hello v j bytes) e k ih = rw e (rw k.announces_it refl, ih)
    go (noise x xs) e k ih = rw e ih

-- A sensible request is broadcast.
pub broadcast-who_is_request :
    (ip : List ℕ) (w : WhoIs)
    → IsRequest w
    → (bytes : List ℕ) × (broadcast_npdu ip (who_is_request w)
        ≡ returns (ok (bytes, record { ip = ip; port = default_udp_port })))
unfolding broadcast_npdu who_is_request marshal_bvlc marshal_npdu marshal_apdu marshal_payload
broadcast-who_is_request ip w h =
    let (bytes, m, u) = unmarshal_who_is-marshal_who_is w h in
    let packet : List ℕ = npdu_front (who_is_request w) ++ (0x10 ∷ 8 ∷ bytes) in
    (type_bacnet_ip ∷ broadcast ∷ (uint16_bytes ((4 + length packet) % 65536) ++ packet), rw m refl)

same_set :
    (w : WhoIs) (ps : List Packet) (out out' : List (Iam × Address))
    → collect w [] ps ≡ ok out
    → collect w [] ps ≡ ok out'
    → out ≡ out'
same_set w ps out out' e f = ground (arith, e, f)

-- `WhoIs`, asked for all devices or for a range of instances, on a socket that takes the request,
-- succeeds, if what arrives are datagrams that begin with another byte than 0x81, and the frames
-- that `MarshalBinary` writes of I-Ams, with or without network addresses, of at most 2048 bytes.
-- It returns the entries of a set that has each I-Am, all of whose fields count, at most once, and
-- that has exactly those that arrived and whose instance is in the range asked for, with the
-- address of the last one that the subscription gets. The subscription may get them in any order,
-- which that of the handlers' goroutines decides.
pub search-last_hello :
    (ip : List ℕ) (w : WhoIs) (ws : List Heard)
    → IsRequest w
    → All (λ a. IsSound a.sound) ws
    → (set : List (Iam × Address)) × (search ip none w (map arrival ws)
        ≡ returns (ok (map device set)))
      × ((i : Iam) → (lookup i set ≡ last_hello w i ws none) × (entries i set ≤ 1))
unfolding search who_is_answers
search-last_hello ip w ws h hs =
    let ps : List Packet = packets_of ws in
    let (bytes, b) = broadcast-who_is_request ip w h in
    let (set, c, l, n) = collect-latest w ps new_iam (packets_of-typed ws hs) in
    (
      set,
      rw (b, listen-packets_of ws hs, c) refl,
      λ i.
          let (out, c', l', n') = collect-latest w ps i (packets_of-typed ws hs) in
          let same : out ≡ set = same_set w ps out set c' c in
          (
            ap (lookup i) (sym same) ∙ l' ∙ latest-packets_of w i ws none hs,
            subst (λ (x : List (Iam × Address)). entries i x ≤ 1) same n',
          ),
    )
