-- ===== src/Bacip/Client/Delivery.antt =====
-- From a packet of the network to the result of the call that waits for it.
use baetyl_bacnet.Common.{
  ℕ, ◌+◌, ◌<◌, ◌/◌, ◌%◌, ◌≡◌, ◌≢◌, refl, List, [], ◌∷◌, ◌++◌, Option, none, some, Bool, true, false,
  length, arith, if◌then◌else◌,
}
use baetyl_bacnet.Common.Go.{Error, eof, not_bacnet_ip, wrapped, ok, returns, panics}
use baetyl_bacnet.Bacnet.Value.{Value}
use baetyl_bacnet.Bacnet.ObjectId.{ObjectId}
use baetyl_bacnet.Bacnet.ObjectId.Packing.{IsStandard}
use baetyl_bacnet.Encoding.Bytes.{IsU32, uint16_bytes}
use baetyl_bacnet.Encoding.Buffer.{read_byte, read_uint, read_full, read_uint_one, read_uint_two}
use baetyl_bacnet.Encoding.RoundTrip.Answers.{Answer, IsAnswer, answer_field, answer_value}
use baetyl_bacnet.Bacip.Services.{ReadProperty}
use baetyl_bacnet.Bacip.Services.Unmarshal.{unmarshal_read_property}
use baetyl_bacnet.Bacip.Services.ReadAck.{ack_bytes, IndexFits, unmarshal_read_property-ack_bytes}
use baetyl_bacnet.Bacip.Apdu.{
  Apdu, new_apdu, new_read_property, no_payload, read_property, error_pdu, complex_ack,
  unmarshal_apdu, unmarshal_payload, unmarshal_service, unmarshal_invoke_id,
  service_confirmed_read_property,
}
use baetyl_bacnet.Bacip.Npdu.{
  new_npdu, unmarshal_npdu, read_destination, read_source, read_hops, read_body,
}
use baetyl_bacnet.Bacip.Bvlc.{Bvlc, new_bvlc, unmarshal_bvlc, read_packet, type_bacnet_ip}
use baetyl_bacnet.Bacip.Transaction.{Tx, Transactions, get_transaction}
use baetyl_bacnet.Bacip.Client.Calls.{Call, System, start, Event, is_registered, pick, run}
use baetyl_bacnet.Bacip.Client.Routing.{get_transaction_waiting}
use baetyl_bacnet.Bacip.Client.Handler.{
  Handled, is_foreign, handle_message, await_read, await_write,
}

-- An application packet that `UnmarshalBinary` decoded without an error never makes ReadProperty panic.
pub await_read_decoded :
    (a : Apdu) (bytes : List ℕ)
    → unmarshal_apdu new_apdu bytes ≡ returns (a, none)
    → await_read (some a) ≢ panics
unfolding await_read unmarshal_apdu unmarshal_service unmarshal_invoke_id unmarshal_payload
    read_uint
await_read_decoded a bytes h = ground arith

-- An application packet that `UnmarshalBinary` decoded without an error never makes WriteProperty panic.
pub await_write_decoded :
    (a : Apdu) (bytes : List ℕ)
    → unmarshal_apdu new_apdu bytes ≡ returns (a, none)
    → await_write (some a) ≢ panics
unfolding await_write unmarshal_apdu unmarshal_service unmarshal_invoke_id unmarshal_payload
    read_uint
await_write_decoded a bytes h = ground arith

-- The answer of a device on the local network: a frame around a packet without addresses.
abbrev pub answer_frame : ℕ → List ℕ → List ℕ
answer_frame f apdu = type_bacnet_ip ∷ f ∷ (uint16_bytes (6 + length apdu) ++ 1 ∷ 0 ∷ apdu)

abbrev pub framed : ℕ → Apdu → Bvlc
framed f a = record {
  bvlc_type = type_bacnet_ip;
  function = f;
  npdu = record new_npdu { version = 1; adpu = some a };
}

pub unmarshal_answer :
    (f : ℕ) (apdu : List ℕ) (a : Apdu) (e : Option Error)
    → length apdu < 65530
    → unmarshal_apdu new_apdu apdu ≡ returns (a, e)
    → unmarshal_bvlc new_bvlc (answer_frame f apdu) ≡ returns (framed f a, e)
unfolding unmarshal_bvlc read_packet unmarshal_npdu read_destination read_source read_hops read_body
    read_byte
unmarshal_answer f apdu a e l u = ground (
  arith,
  u,
  read_uint_two ((6 + length apdu) / 256 % 256) ((6 + length apdu) % 256) (f ∷ type_bacnet_ip ∷ [])
      (1 ∷ 0 ∷ apdu) true,
  read_uint_one 1 [] (0 ∷ apdu) false,
)

-- What is left of an Error answer that ends behind its invoke id.
abbrev pub truncated : ℕ → Apdu
truncated id = record {
  data_type = error_pdu;
  service_type = 0;
  payload = no_payload;
  invoke_id = id;
}

unmarshal_truncated :
    (id : ℕ)
    → (e : Error) × (unmarshal_apdu new_apdu (error_pdu ∷ id ∷ [])
        ≡ returns (truncated id, some (wrapped "read APDU ServiceType" e)))
      × (e ≢ not_bacnet_ip)
      × (is_foreign (some e) ≡ false)
unfolding unmarshal_apdu unmarshal_service unmarshal_invoke_id read_uint read_full read_byte
unmarshal_truncated id = (eof, refl, ground arith, refl)

-- A frame with an Error answer that ends behind the invoke id is delivered, without an error of the
-- handler, to the call that waits under that id, whichever device sent it, and the call panics: in
-- ReadProperty and in WriteProperty.
pub truncated_error_panics :
    (f id : ℕ) (subscribed : Bool) (t : Transactions) (tx : Tx)
    → get_transaction id t ≡ some tx
    → (h : Handled) × (handle_message subscribed true t (answer_frame f (error_pdu ∷ id ∷ []))
        ≡ returns h)
      × (h.failure ≡ none)
      × (h.sent ≡ some (tx.apdu, truncated id))
      × (await_read (some (truncated id)) ≡ panics)
      × (await_write (some (truncated id)) ≡ panics)
unfolding handle_message await_read await_write get_transaction
truncated_error_panics f id subscribed t tx g =
    let (e, u, n, own) = unmarshal_truncated id in
    let whole =
      unmarshal_answer f (error_pdu ∷ id ∷ []) (truncated id)
        (some (wrapped "read APDU ServiceType" e)) (omega arith) u in
    (
      record {
        told = (if subscribed then some (framed f (truncated id)) else none);
        sent = some (tx.apdu, truncated id);
        failure = none;
      },
      ground (arith, whole, g, own),
      refl,
      refl,
      refl,
      refl,
    )

-- The bytes of a ReadProperty-ACK: the type of the packet, the invoke id, the service, the data.
abbrev pub read_ack : ℕ → ObjectId → ℕ → Option ℕ → Answer → List ℕ
read_ack id o p index v =
    complex_ack ∷ id ∷ service_confirmed_read_property ∷ ack_bytes o p index (answer_field v)

abbrev acknowledged : ℕ → ObjectId → ℕ → Option ℕ → Value → Apdu
acknowledged id o p index w = record {
  data_type = complex_ack;
  service_type = service_confirmed_read_property;
  payload = read_property (record {
    object_id = o;
    property = record { property_type = p; array_index = index };
    content = w;
  });
  invoke_id = id;
}

unmarshal_read_answer :
    (id : ℕ) (bytes : List ℕ) (rp : ReadProperty)
    → unmarshal_read_property new_read_property bytes ≡ returns (rp, none)
    → unmarshal_apdu new_apdu (complex_ack ∷ id ∷ service_confirmed_read_property ∷ bytes)
      ≡ returns (
        record {
          data_type = complex_ack;
          service_type = service_confirmed_read_property;
          payload = read_property rp;
          invoke_id = id;
        },
        none,
      )
unfolding unmarshal_apdu read_byte
unmarshal_read_answer id bytes rp u = rw (read_uint_one, read_uint_one, u)

unmarshal_read_ack :
    (id : ℕ) (o : ObjectId) (p : ℕ) (index : Option ℕ) (v : Answer)
    → IsStandard o
    → IsU32 p
    → IndexFits index
    → IsAnswer v
    → unmarshal_apdu new_apdu (read_ack id o p index v)
      ≡ returns (acknowledged id o p index (answer_value v), none)
unmarshal_read_ack id o p index v ho hp hi hv =
    unmarshal_read_answer id (ack_bytes o p index (answer_field v)) _
      (unmarshal_read_property-ack_bytes new_read_property o p index v ho hp hi hv)

-- However the client's calls interleave: when a device answers the ReadProperty request of a call
-- that waits with a value of a type that the client reads, and the call still receives, then the handler
-- sends the answer on the channel of this call, and the call returns the value.
pub read_property_answered :
    (es : List Event) (s : System) (k : ℕ) (c : Call) (others : List Call) (f : ℕ)
    (subscribed : Bool) (o : ObjectId) (p : ℕ) (index : Option ℕ) (v : Answer)
    → run es start ≡ some s
    → pick s.calls k ≡ some (c, others)
    → is_registered c.phase ≡ true
    → IsStandard o
    → IsU32 p
    → IndexFits index
    → IsAnswer v
    → length (read_ack c.id o p index v) < 65530
    → (h : Handled) × (a : Apdu) × (handle_message subscribed true s.transactions
          (answer_frame f (read_ack c.id o p index v))
        ≡ returns h)
      × (h.failure ≡ none)
      × (h.sent ≡ some (c.channel, a))
      × (await_read (some a) ≡ returns (ok (answer_value v)))
unfolding handle_message await_read get_transaction
read_property_answered es s k c others f subscribed o p index v r q wait ho hp hi hv l =
    let a : Apdu = acknowledged c.id o p index (answer_value v) in
    let waiting = get_transaction_waiting es s k c others r q wait in
    let whole =
      unmarshal_answer f (read_ack c.id o p index v) a none l
        (unmarshal_read_ack c.id o p index v ho hp hi hv) in
    (
      record {
        told = (if subscribed then some (framed f a) else none);
        sent = some (c.channel, a);
        failure = none;
      },
      a,
      rw (whole, waiting),
      refl,
      refl,
      refl,
    )
