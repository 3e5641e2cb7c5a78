-- ===== src/Bacip/Client/Discovery.antt =====
-- WhoIs finds the devices that announced themselves, each once.
use baetyl_bacnet.Common.{
  ℕ, suc, ◌≤◌, ◌≡◌, refl, ◌∙◌, List, [], ◌∷◌, ◌++◌, Option, none, some, Bool, true, false, ◌&&◌,
  if◌then◌else◌, arith, All, inl, inr, Option-cases, Bool-cases,
}
use baetyl_bacnet.Common.Go.{Error, eof, wrapped, message, ok, err, returns, Result-cases}
use baetyl_bacnet.Bacnet.Address.{Address}
use baetyl_bacnet.Encoding.Buffer.{read_uint}
use baetyl_bacnet.Bacip.Services.{WhoIs, Iam}
use baetyl_bacnet.Bacip.Apdu.{
  Payload, iam, Apdu, new_apdu, no_payload, unconfirmed_service_request, unmarshal_apdu,
  unmarshal_service, unmarshal_invoke_id, unmarshal_payload,
}
use baetyl_bacnet.Bacip.Client.Collect.{
  Packet, same_iam, lookup, put, is_wanted, packet_address, collect_payload, is_iam, collect_packet,
  collect,
}

-- The I-Am that a packet carries, if it does.
abbrev iam_payload : Payload → Option Iam
iam_payload (iam i) = some i
iam_payload _ = none

unfoldable pub announced : Packet → Option Iam
announced p = elim p.bvlc.npdu.adpu [
  | none ↦ none
  | some a ↦ if is_iam a then iam_payload a.payload else none
]

-- A packet of the I-Am service has an I-Am as its payload.
abbrev pub has_iam : Apdu → Bool
has_iam a = elim (iam_payload a.payload) [ none ↦ false | some i ↦ true ]

unfoldable pub is_well_typed : Packet → Bool
is_well_typed p = elim p.bvlc.npdu.adpu [
  | none ↦ true
  | some a ↦ if is_iam a then has_iam a else true
]

-- What was decoded without an error has the payload that its type and service name.
pub decoded-has_iam :
    (a : Apdu) (bytes : List ℕ)
    → unmarshal_apdu new_apdu bytes ≡ returns (a, none)
    → is_iam a ≡ true
    → has_iam a ≡ true
unfolding unmarshal_apdu unmarshal_service unmarshal_invoke_id unmarshal_payload read_uint
decoded-has_iam a bytes h q = ground arith

-- The last address of a device among some packets; `before` if it sent none.
abbrev note : WhoIs → Iam → Packet → Option Iam → Option Address → Option Address
note w i p none before = before
note w i p (some j) before =
    if same_iam j i && is_wanted w j then some (packet_address p) else before

unfoldable pub latest : WhoIs → Iam → List Packet → Option Address → Option Address
unfolding announced
latest w i [] before = before
latest w i (p ∷ ps) before = latest w i ps (note w i p (announced p) before)

same_iam_refl : (i : Iam) → same_iam i i ≡ true
same_iam_refl i = ground arith

lookup-put :
    (i j : Iam) (a : Address) (set : List (Iam × Address))
    → lookup i (put j a set) ≡ (if same_iam j i then some a else lookup i set)
unfolding lookup put
lookup-put i j a [] = refl
lookup-put i j a ((k, b) ∷ rest) = ground (arith, lookup-put i j a rest)

abbrev enter : WhoIs → List (Iam × Address) → Packet → Option Iam → List (Iam × Address)
enter w set p none = set
enter w set p (some i) = if is_wanted w i then put i (packet_address p) set else set

lookup-enter :
    (w : WhoIs) (i : Iam) (set : List (Iam × Address)) (p : Packet) (o : Option Iam)
    → lookup i (enter w set p o) ≡ note w i p o (lookup i set)
lookup-enter w i set p none = refl
lookup-enter w i set p (some j) = ground (arith, lookup-put i j (packet_address p) set)

collect_payload_lem :
    (w : WhoIs) (set : List (Iam × Address)) (p : Packet) (a : Apdu)
    → has_iam a ≡ true
    → collect_payload w set p a.payload ≡ ok (enter w set p (iam_payload a.payload))
collect_payload_lem w set p a h = ground arith

collect_packet_lem :
    (w : WhoIs) (set : List (Iam × Address)) (p : Packet)
    → is_well_typed p ≡ true
    → collect_packet w set p ≡ ok (enter w set p (announced p))
unfolding collect_packet announced is_well_typed
collect_packet_lem w set p h = elim (Option-cases p.bvlc.npdu.adpu) [
  | inl q ↦ ground (arith, q)
  | inr (a, q) ↦ ground (arith, q, collect_payload_lem w set p a)
]

-- The map after some packets.
unfoldable entered : WhoIs → List (Iam × Address) → List Packet → List (Iam × Address)
unfolding announced
entered w set [] = set
entered w set (p ∷ ps) = entered w (enter w set p (announced p)) ps

collect-entered :
    (w : WhoIs) (set : List (Iam × Address)) (ps : List Packet)
    → All (λ p. is_well_typed p ≡ true) ps
    → collect w set ps ≡ ok (entered w set ps)
unfolding collect entered
collect-entered w set [] h = refl
collect-entered w set (p ∷ ps) (h, hs) =
    ground
      (arith, collect_packet_lem w set p h, collect-entered w (enter w set p (announced p)) ps hs)

lookup-entered :
    (w : WhoIs) (i : Iam) (set : List (Iam × Address)) (ps : List Packet)
    → lookup i (entered w set ps) ≡ latest w i ps (lookup i set)
unfolding entered latest
lookup-entered w i set [] = refl
lookup-entered w i set (p ∷ ps) =
    lookup-entered w i (enter w set p (announced p)) ps ∙ rw (lookup-enter w i set p (announced p))

-- How many entries of the map a device has.
unfoldable pub entries : Iam → List (Iam × Address) → ℕ
entries i [] = 0
entries i ((j, a) ∷ rest) = if same_iam j i then suc (entries i rest) else entries i rest

same_iam_shared : (i j k : Iam) → same_iam k i ≡ true → same_iam j i ≡ true → same_iam k j ≡ true
same_iam_shared i j k h l = ground arith

entries-put_other :
    (i j : Iam) (a : Address) (set : List (Iam × Address))
    → same_iam j i ≡ false
    → entries i (put j a set) ≡ entries i set
unfolding entries put
entries-put_other i j a [] h = rw h
entries-put_other i j a ((k, b) ∷ rest) h = elim (Bool-cases (same_iam k j)) [
  | inl q ↦ rw q
  | inr q ↦ rw (q, entries-put_other i j a rest h)
]

-- A key next to the one that is put has its own entry.
apart : (i j k : Iam) → same_iam k j ≡ false → same_iam k i ≡ true → same_iam j i ≡ false
apart i j k h l = elim (Bool-cases (same_iam j i)) [
  | inl q ↦ absurd (ground (arith, same_iam_shared i j k l q))
  | inr q ↦ q
]

entries-put :
    (i j : Iam) (a : Address) (set : List (Iam × Address))
    → entries i set ≤ 1
    → entries i (put j a set) ≤ 1
unfolding entries put
entries-put i j a [] h = ground arith
entries-put i j a ((k, b) ∷ rest) h = elim (Bool-cases (same_iam k j)) [
  | inl q ↦ ground (arith, q)
  | inr q ↦ elim (Bool-cases (same_iam k i)) [
    | inl r ↦ ground (arith, q, entries-put_other i j a rest (apart i j k q r))
    | inr r ↦ ground (arith, q, r, entries-put i j a rest)
  ]
]

entries-enter :
    (w : WhoIs) (i : Iam) (set : List (Iam × Address)) (p : Packet) (o : Option Iam)
    → entries i set ≤ 1
    → entries i (enter w set p o) ≤ 1
entries-enter w i set p none h = h
entries-enter w i set p (some j) h = ground (arith, entries-put i j (packet_address p) set h)

entries-entered :
    (w : WhoIs) (i : Iam) (set : List (Iam × Address)) (ps : List Packet)
    → entries i set ≤ 1
    → entries i (entered w set ps) ≤ 1
unfolding entered
entries-entered w i set [] h = h
entries-entered w i set (p ∷ ps) h =
    entries-entered w i (enter w set p (announced p)) ps (entries-enter w i set p (announced p) h)

-- Unless a packet of the I-Am service carries no I-Am, WhoIs ends without an error, and its map has
-- each device at most once: with the address of the last packet that announced it, if its instance
-- is in the range asked for, and not at all if it did not announce itself.
pub collect-latest :
    (w : WhoIs) (ps : List Packet) (i : Iam)
    → All (λ p. is_well_typed p ≡ true) ps
    → (out : List (Iam × Address)) × (collect w [] ps ≡ ok out)
      × (lookup i out ≡ latest w i ps none)
      × (entries i out ≤ 1)
unfolding lookup entries
collect-latest w ps i h = (
  entered w [] ps,
  collect-entered w [] ps h,
  lookup-entered w i [] ps,
  entries-entered w i [] ps (omega arith),
)

-- What is left of a packet that ends behind its PDU type.
abbrev pub cut : Apdu
cut = record {
  data_type = unconfirmed_service_request;
  service_type = 0;
  payload = no_payload;
  invoke_id = 0;
}

-- It is read with an error, and leaves the service 0, I-Am, and no payload.
pub unmarshal_cut :
    unmarshal_apdu new_apdu (unconfirmed_service_request ∷ [])
    ≡ returns (cut, some (wrapped "read APDU ServiceType" eof))
unfolding unmarshal_apdu unmarshal_service read_uint
unmarshal_cut = refl

abbrev pub unexpected_payload : Error
unexpected_payload = message "unexpected payload type %T"

collect_packet-unexpected :
    (w : WhoIs) (set : List (Iam × Address)) (p : Packet) (e : Error)
    → collect_packet w set p ≡ err e
    → e ≡ unexpected_payload
unfolding collect_packet
collect_packet-unexpected w set p e h = ground (arith, h)

-- Wherever such a packet stands, the error of its payload ends WhoIs: no packet has another error.
pub collect-cut :
    (w : WhoIs) (set : List (Iam × Address)) (before : List Packet) (p : Packet) (ps : List Packet)
    → p.bvlc.npdu.adpu ≡ some cut
    → collect w set (before ++ (p ∷ ps)) ≡ err unexpected_payload
unfolding collect collect_packet
collect-cut w set [] p ps h = rw h refl
collect-cut w set (x ∷ before) p ps h = elim (Result-cases (collect_packet w set x)) [
  | inl (set', q) ↦ ground (arith, q, collect-cut w set' before p ps h)
  | inr (e, q) ↦ ground (arith, q, collect_packet-unexpected w set x e q)
]
