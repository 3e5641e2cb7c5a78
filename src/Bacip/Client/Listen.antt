-- ===== src/Bacip/Client/Listen.antt =====
-- bacip/client.go: the loop that reads the socket, for one datagram.
use baetyl_bacnet.Common.{
  ℕ, zero, suc, ap, if◌then◌else◌, ◌+◌, ◌<◌, ◌≤◌, ◌≡◌, ◌/◌, ◌%◌, refl, List, [], ◌∷◌, ◌++◌, Option,
  none, some, Bool, true, length, take, take-whole, arith, Bool-cases, inl, inr, ◌==◌,
}
use baetyl_bacnet.Common.Go.{not_bacnet_ip, Result, ok, err, Outcome, returns, panics}
use baetyl_bacnet.Encoding.Bytes.{uint16_bytes}
use baetyl_bacnet.Encoding.Buffer.{read_byte, read_uint_two}
use baetyl_bacnet.Bacip.Bvlc.{unmarshal_bvlc, read_packet, type_bacnet_ip}
use baetyl_bacnet.Bacip.Transaction.{Transactions}
use baetyl_bacnet.Bacip.Client.Handler.{Handled, dropped, handle_message}

-- ReadFromUDP fills the slice of 2048 bytes, and the rest of the datagram is lost; it gives no bytes
-- with an error, which is logged.
abbrev pub filled : Result (List ℕ) → List ℕ
filled (ok datagram) = take 2048 datagram
filled (err e) = []

-- A panic of the handler is recovered and logged: none.
abbrev pub recovered : Outcome Handled → Option Handled
recovered (returns h) = some h
recovered panics = none

unfoldable pub receive : Bool → Bool → Transactions → Result (List ℕ) → Option Handled
unfolding handle_message
receive subscribed received t datagram =
    recovered (handle_message subscribed received t (filled datagram))

-- A datagram that fits the slice is handled as it is.
pub receive-whole :
    (subscribed received : Bool) (t : Transactions) (datagram : List ℕ) (h : Handled)
    → length datagram ≤ 2048
    → handle_message subscribed received t datagram ≡ returns h
    → receive subscribed received t (ok datagram) ≡ some h
unfolding receive
receive-whole subscribed received t datagram h fits e = rw (take-whole 2048 datagram fits, e) refl

-- A frame of a type, a function and what the length counts.
abbrev pub whole_frame : ℕ → ℕ → List ℕ → List ℕ
whole_frame kind f rest = kind ∷ f ∷ (uint16_bytes (4 + length rest) ++ rest)

length-take : (n : ℕ) (xs : List ℕ) → length (take n xs) ≤ n
length-take zero xs = omega arith
length-take (suc n) [] = omega arith
length-take (suc n) (x ∷ xs) = omega (arith, length-take n xs)

-- A frame whose length field counts other bytes goes nowhere.
handle_message_incoherent :
    (subscribed received : Bool) (t : Transactions) (kind f len : ℕ) (xs : List ℕ)
    → len < 65536
    → length xs + 4 < len
    → handle_message subscribed received t (kind ∷ f ∷ (uint16_bytes len ++ xs))
      ≡ returns (dropped (if kind == type_bacnet_ip then none else some not_bacnet_ip))
unfolding handle_message unmarshal_bvlc read_packet read_byte
handle_message_incoherent subscribed received t kind f len xs fits short =
    elim (Bool-cases (kind == type_bacnet_ip)) [
      | inl q ↦
          ground (arith, q, read_uint_two (len / 256 % 256) (len % 256) (f ∷ kind ∷ []) xs true)
      | inr q ↦ ground (arith, q)
    ]

-- A frame of more than 2048 bytes, whose length field is right, never reaches a call or a
-- subscription: what is left of it is refused for its length.
pub receive_oversize :
    (subscribed received : Bool) (t : Transactions) (kind f : ℕ) (rest : List ℕ)
    → 2044 < length rest
    → length rest < 65532
    → (h : Handled) × (receive subscribed received t (ok (whole_frame kind f rest)) ≡ some h)
      × (h.told ≡ none)
      × (h.sent ≡ none)
unfolding receive
receive_oversize subscribed received t kind f rest big small = (
  dropped (if kind == type_bacnet_ip then none else some not_bacnet_ip),
  ap recovered (
      handle_message_incoherent subscribed received t kind f (4 + length rest) (take 2044 rest)
        (omega arith) (omega (arith, length-take 2044 rest))),
  refl,
  refl,
)
