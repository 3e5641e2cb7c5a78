-- ===== src/Bacip/Client/Handler.antt =====
-- bacip/client.go: what the client does with a packet that it receives, and how the call that waits
-- for it takes the answer.
use baetyl_bacnet.Common.{ℕ, List, Option, none, some, Bool, true, false, ◌==◌, ◌&&◌, if◌then◌else◌}
use baetyl_bacnet.Common.Go.{
  Error, not_bacnet_ip, context_done, apdu_error, message, wrapped, Result, ok, err, Outcome,
  returns, panics, ◌>>=◌,
}
use baetyl_bacnet.Bacnet.Value.{Value}
use baetyl_bacnet.Bacip.Apdu.{
  Payload, no_payload, who_is, iam, read_property, write_property, data_payload, Apdu, is_answer,
  complex_ack, simple_ack, error_pdu, service_confirmed_read_property,
  service_confirmed_write_property,
}
use baetyl_bacnet.Bacip.Apdu
use baetyl_bacnet.Bacip.Bvlc.{Bvlc, new_bvlc, unmarshal_bvlc}
use baetyl_bacnet.Bacip.Transaction.{Tx, Transactions, get_transaction}

-- What a packet led to: the call of the subscription, the channel that an answer was sent on, and
-- the error returned.
pub record Handled : Type 0 where
  pub told : Option Bvlc
  pub sent : Option (ℕ × Apdu)
  pub failure : Option Error

abbrev pub dropped : Option Error → Handled
dropped e = record { told = none; sent = none; failure = e }

-- `select` takes the send if the call still receives, or else ends with the context.
abbrev pub deliver : Bool → Tx → Apdu → Handled → Handled
deliver received tx a h =
    if received
    then record h { sent = some (tx.apdu, a) }
    else record h { failure = some (wrapped "handler for tx %d" context_done) }

abbrev pub route : Bool → Transactions → Apdu → Handled → Handled
route received t a h =
    if is_answer a.data_type
    then (elim (get_transaction a.invoke_id t) [
      | none ↦ record h { failure = some (message "no transaction found for id %d") }
      | some tx ↦ deliver received tx a h
    ])
    else h

-- Of the decoder's errors only ErrNotBAcnetIP stops the handler: what was read so far goes on.
abbrev pub is_foreign : Option Error → Bool
is_foreign none = false
is_foreign (some not_bacnet_ip) = true
is_foreign (some (wrapped s e)) = is_foreign (some e)
is_foreign (some _) = false

abbrev pub handle_bvlc : Bool → Bool → Transactions → Bvlc → Handled
handle_bvlc subscribed received t v = elim v.npdu.adpu [
  | none ↦ dropped none
  | some a ↦
      route received t a
        (record { told = (if subscribed then some v else none); sent = none; failure = none })
]

unfoldable pub handle_message : Bool → Bool → Transactions → List ℕ → Outcome Handled
unfolding get_transaction
handle_message subscribed received t bytes = do
  (v, e) ← unmarshal_bvlc new_bvlc bytes
  returns (if is_foreign e then dropped e else handle_bvlc subscribed received t v)

-- The conversions of a payload in ReadProperty and WriteProperty panic on any other type.
abbrev pub as_failure : Payload → Outcome Error
as_failure (Apdu.apdu_error e) = returns (apdu_error e.class e.code)
as_failure _ = panics

abbrev pub as_read : Payload → Outcome Value
as_read (read_property rp) = returns rp.content
as_read _ = panics

-- None stands for a context that is done before an answer is there.
unfoldable pub await_read : Option Apdu → Outcome (Result Value)
await_read none = returns (err context_done)
await_read (some a) =
    if a.data_type == error_pdu
    then (do e ← as_failure a.payload; returns (err e))
    else if a.data_type == complex_ack && a.service_type == service_confirmed_read_property
    then (do v ← as_read a.payload; returns (ok v))
    else returns (err (message "invalid answer"))

unfoldable pub await_write : Option Apdu → Outcome (Option Error)
await_write none = returns (some context_done)
await_write (some a) =
    if a.data_type == error_pdu
    then (do e ← as_failure a.payload; returns (some e))
    else if a.data_type == simple_ack && a.service_type == service_confirmed_write_property
    then returns none
    else returns (some (message "invalid answer"))
