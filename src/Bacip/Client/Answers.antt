-- ===== src/Bacip/Client/Answers.antt =====
-- The answers of a device: a value, an acknowledgement of a write, and a refusal.
use baetyl_bacnet.Common.{
  ℕ, ◌<◌, ◌≤◌, ◌≡◌, refl, sym, ◌∙◌, List, [], ◌∷◌, ◌++◌, none, some, Bool, true, length, arith,
  append-nil, if◌then◌else◌,
}
use baetyl_bacnet.Common.Go.{ok, apdu_error, err, returns}
use baetyl_bacnet.Bacnet.Value.{segmentation, error_class, error_code}
use baetyl_bacnet.Encoding.Bytes.{IsByte}
use baetyl_bacnet.Encoding.Buffer.{new_buffer, read_byte, read_uint_one}
use baetyl_bacnet.Encoding.Tag.{tag_bytes, tag_meta, tag_head, tag_value}
use baetyl_bacnet.Encoding.Encoder.Unsigned.{value_length, unsigned_bytes}
use baetyl_bacnet.Encoding.Decoder.Reflect.{to_error_class, to_error_code}
use baetyl_bacnet.Encoding.RoundTrip.AppData.{
  app_field, app_field-Reads, is_segmentation, segmentation_class, segmentation_code,
}
use baetyl_bacnet.Encoding.RoundTrip.Answers.{Answer, IsAnswer, answer_value}
use baetyl_bacnet.Bacip.Client.Listen.{receive, receive-whole}
use baetyl_bacnet.Bacnet.Address.{UdpAddr}
use baetyl_bacnet.Bacnet.Device.{Device}
use baetyl_bacnet.Bacip.Client.Requests.{send, read_request}
use baetyl_bacnet.Bacip.Client.Sending.{request_bytes, send-read_request}
use baetyl_bacnet.Bacip.Client.Writing.{IsWireWrite}
use baetyl_bacnet.Bacip.Client.Invoke.{
  call_read, call_write, IsLocal, IsWireRead, call_read-await_read, call_write-await_write,
}
use baetyl_bacnet.Bacip.Services.{ReadProperty, WriteProperty, ApduError}
use baetyl_bacnet.Bacip.Services.Unmarshal.{unmarshal_apdu_error}
use baetyl_bacnet.Bacip.Apdu
use baetyl_bacnet.Bacip.Apdu.{
  new_read_property, Apdu, new_apdu, error_pdu, simple_ack, unmarshal_apdu, unmarshal_payload,
  unmarshal_service, unmarshal_invoke_id, service_confirmed_write_property,
}
use baetyl_bacnet.Bacip.Client.Calls.{Call, System, start, Event, is_registered, pick, run}
use baetyl_bacnet.Bacip.Client.Routing.{get_transaction_waiting}
use baetyl_bacnet.Bacip.Client.Handler.{Handled, handle_message, await_read, await_write}
use baetyl_bacnet.Bacip.Client.Delivery.{
  read_ack, read_property_answered, answer_frame, framed, unmarshal_answer,
}
use baetyl_bacnet.Bacip.Transaction.{get_transaction}

-- The class and the code of an error, as enumerated values.
abbrev pub error_bytes : ℕ → ℕ → List ℕ
error_bytes class code = app_field (segmentation class) ++ app_field (segmentation code)

unmarshal_apdu_error-error_bytes :
    (e0 : ApduError) (class code : ℕ)
    → IsByte class
    → IsByte code
    → unmarshal_apdu_error e0 (error_bytes class code)
      ≡ returns (record { class = class; code = code }, none)
unfolding unmarshal_apdu_error
unmarshal_apdu_error-error_bytes e0 class code hc hd =
    let (b1, p1, r1) =
      app_field-Reads (segmentation class) to_error_class (error_class e0.class) _
        (new_buffer (error_bytes class code)) _ (is_segmentation class hc)
        (segmentation_class class _) refl in
    let (b2, p2, r2) =
      app_field-Reads (segmentation code) to_error_code (error_code e0.code) _ b1 []
        (is_segmentation code hd) (segmentation_code code _) (r1 ∙ sym (append-nil _)) in
    rw (p1, p2) refl

-- The bytes of an Error: the type of the packet, the invoke id, the service, the class and the code.
abbrev pub refusal : ℕ → ℕ → ℕ → ℕ → List ℕ
refusal id service class code = error_pdu ∷ id ∷ service ∷ error_bytes class code

abbrev pub refused : ℕ → ℕ → ℕ → ℕ → Apdu
refused id service class code = record {
  data_type = error_pdu;
  service_type = service;
  payload = Apdu.apdu_error (record { class = class; code = code });
  invoke_id = id;
}

unmarshal_refusal :
    (id service class code : ℕ)
    → IsByte class
    → IsByte code
    → unmarshal_apdu new_apdu (refusal id service class code)
      ≡ returns (refused id service class code, none)
unfolding unmarshal_apdu read_byte
unmarshal_refusal id service class code hc hd = rw (
  read_uint_one,
  read_uint_one,
  unmarshal_apdu_error-error_bytes (record { class = 0; code = 0 }) class code hc hd,
)

length-refusal :
    (id service class code : ℕ)
    → IsByte class
    → IsByte code
    → length (refusal id service class code) < 65530
unfolding tag_bytes tag_meta tag_head tag_value value_length unsigned_bytes
length-refusal id service class code hc hd = ground arith

-- The bytes of a SimpleACK: the type of the packet, the invoke id and the service.
abbrev pub acknowledgement : ℕ → List ℕ
acknowledgement id = simple_ack ∷ id ∷ service_confirmed_write_property ∷ []

abbrev pub done : ℕ → Apdu
done id = record {
  data_type = simple_ack;
  service_type = service_confirmed_write_property;
  payload = Apdu.data_payload [];
  invoke_id = id;
}

unmarshal_acknowledgement :
    (id : ℕ) → unmarshal_apdu new_apdu (acknowledgement id) ≡ returns (done id, none)
unfolding unmarshal_apdu read_byte
unmarshal_acknowledgement id = rw (read_uint_one, read_uint_one) refl

-- The answer to a ReadProperty request: a ReadProperty-ACK for what was asked for.
abbrev pub answer_to : ℕ → ReadProperty → Answer → List ℕ
answer_to id rp v = read_ack id rp.object_id rp.property.property_type rp.property.array_index v

-- What the handler does with a decoded answer to a call that waits.
module _ (es : List Event) (s : System) (k : ℕ) (c : Call) (others : List Call) (f : ℕ)
    (subscribed : Bool) (r : run es start ≡ some s) (q : pick s.calls k ≡ some (c, others))
    (wait : is_registered c.phase ≡ true) where
  abbrev delivered : Apdu → Handled
  delivered a = record {
    told = (if subscribed then some (framed f a) else none);
    sent = some (c.channel, a);
    failure = none;
  }

  handle_refusal :
      (service class code : ℕ)
      → IsByte class
      → IsByte code
      → handle_message subscribed true s.transactions
          (answer_frame f (refusal c.id service class code))
        ≡ returns (delivered (refused c.id service class code))
  unfolding handle_message get_transaction
  handle_refusal service class code hc hd =
      let waiting = get_transaction_waiting es s k c others r q wait in
      let whole =
        unmarshal_answer f (refusal c.id service class code) (refused c.id service class code) none
          (length-refusal c.id service class code hc hd)
          (unmarshal_refusal c.id service class code hc hd) in
      rw (whole, waiting)

  handle_acknowledgement :
      handle_message subscribed true s.transactions (answer_frame f (acknowledgement c.id))
      ≡ returns (delivered (done c.id))
  unfolding handle_message get_transaction
  handle_acknowledgement =
      let waiting = get_transaction_waiting es s k c others r q wait in
      let whole =
        unmarshal_answer f (acknowledgement c.id) (done c.id) none (omega arith)
          (unmarshal_acknowledgement c.id) in
      rw (whole, waiting)

  -- However the client's calls interleave: when a device of the local network refuses the request of a
  -- call that waits, with a class and a code of one byte, and the call still receives, then the
  -- handler sends the answer on the channel of this call, and the call, whose request was sent, ends
  -- with this class and this code: ReadProperty as well as WriteProperty.
  pub request_refused :
      (own udp : UdpAddr) (device : Device) (rp : ReadProperty) (wp : WriteProperty)
      (service class code : ℕ)
      → IsLocal device udp
      → IsWireRead rp
      → IsWireWrite wp
      → IsByte class
      → IsByte code
      → (h : Handled) × (a : Apdu) × (handle_message subscribed true s.transactions
            (answer_frame f (refusal c.id service class code))
          ≡ returns h)
        × (h.failure ≡ none)
        × (h.sent ≡ some (c.channel, a))
        × (call_read own device c.id rp none (some a) ≡ returns (err (apdu_error class code)))
        × (call_write own device c.id wp none (some a) ≡ returns (some (apdu_error class code)))
  unfolding await_read await_write
  request_refused own udp device rp wp service class code l hr hw hc hd = (
    delivered (refused c.id service class code),
    refused c.id service class code,
    handle_refusal service class code hc hd,
    refl,
    refl,
    call_read-await_read own udp device c.id rp _ l hr,
    call_write-await_write own udp device c.id wp _ l hw,
  )

  -- However the client's calls interleave: when a device of the local network acknowledges the
  -- WriteProperty request of a call that waits, and the call still receives, then the handler sends
  -- the answer on the channel of this call, and the call, whose request was sent, ends without an error.
  pub write_property_answered :
      (own udp : UdpAddr) (device : Device) (wp : WriteProperty)
      → IsLocal device udp
      → IsWireWrite wp
      → (h : Handled) × (a : Apdu) × (handle_message subscribed true s.transactions
            (answer_frame f (acknowledgement c.id))
          ≡ returns h)
        × (h.failure ≡ none)
        × (h.sent ≡ some (c.channel, a))
        × (call_write own device c.id wp none (some a) ≡ returns none)
  unfolding await_write
  write_property_answered own udp device wp l hw = (
    delivered (done c.id),
    done c.id,
    handle_acknowledgement,
    refl,
    refl,
    call_write-await_write own udp device c.id wp _ l hw,
  )

  -- However the client's calls interleave: ReadProperty of a standard object of a device of the
  -- local network, with numbers of 32 bits, sends its request to this device; and when the device
  -- answers the request of this call, while the call waits and still receives, with a packet of at
  -- most 2042 bytes for the object, the property and the index that were asked for, whose value,
  -- in the range of its type, is a Boolean, an unsigned integer, a Real, a string in UTF-8, an
  -- enumerated value or an object identifier, then the loop that reads the socket hands the answer
  -- to the handler, which sends it on the channel of this call, and the call returns the value.
  pub call_read_answered :
      (own udp : UdpAddr) (device : Device) (rp : ReadProperty) (v : Answer)
      → IsLocal device udp
      → IsWireRead rp
      → IsAnswer v
      → length (answer_to c.id rp v) ≤ 2042
      → (h : Handled) × (a : Apdu) × (send (read_request own device c.id rp)
          ≡ returns (ok (request_bytes c.id rp, udp)))
        × (receive subscribed true s.transactions (ok (answer_frame f (answer_to c.id rp v)))
            ≡ some h)
        × (h.failure ≡ none)
        × (h.sent ≡ some (c.channel, a))
        × (call_read own device c.id rp none (some a) ≡ returns (ok (answer_value v)))
  call_read_answered own udp device rp v l hr hv short =
      let (h, a, told, fine, sent, value) =
        read_property_answered es s k c others f subscribed rp.object_id rp.property.property_type
          rp.property.array_index v r q wait hr.standard hr.property_fits hr.index_fits hv
          (omega (arith, short)) in
      (
        h,
        a,
        send-read_request own udp device c.id rp l.addressed l.four l.port_fits hr.standard
            hr.property_fits hr.index_fits,
        receive-whole subscribed true s.transactions (answer_frame f (answer_to c.id rp v)) h
            (omega (arith, short)) told,
        fine,
        sent,
        call_read-await_read own udp device c.id rp (some a) l hr ∙ value,
      )
