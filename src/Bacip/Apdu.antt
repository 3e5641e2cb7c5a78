-- ===== src/Bacip/Apdu.antt =====
-- bacip/network_types.go: the application layer packet and its payload.
pub mod RoundTrip
pub mod Typed
use baetyl_bacnet.Common.{
  ℕ, List, [], ◌∷◌, ◌++◌, Option, none, some, ◌==◌, ◌&&◌, ◌||◌, Bool, String, if◌then◌else◌,
}
use baetyl_bacnet.Common.Go.{Error, wrapped, Result, ok, err, Outcome, returns, panics, ◌>>=◌}
use baetyl_bacnet.Bacnet.Value.{nil}
use baetyl_bacnet.Encoding.Buffer.{Buffer, new_buffer, read_byte, read_uint}
use baetyl_bacnet.Bacip.Services.{WhoIs, Iam, ReadProperty, WriteProperty, ApduError}
use baetyl_bacnet.Bacip.Services.Marshal.{
  marshal_who_is, marshal_iam, marshal_read_property, marshal_write_property, marshal_apdu_error,
}
use baetyl_bacnet.Bacip.Services.Unmarshal.{
  unmarshal_who_is, unmarshal_iam, unmarshal_read_property, unmarshal_apdu_error,
}

-- The PDU types.
abbrev pub confirmed_service_request : ℕ
confirmed_service_request = 0

abbrev pub unconfirmed_service_request : ℕ
unconfirmed_service_request = 0x10

abbrev pub simple_ack : ℕ
simple_ack = 0x20

abbrev pub complex_ack : ℕ
complex_ack = 0x30

abbrev pub error_pdu : ℕ
error_pdu = 0x50

-- The services that the program uses.
abbrev pub service_unconfirmed_iam : ℕ
service_unconfirmed_iam = 0

abbrev pub service_unconfirmed_who_is : ℕ
service_unconfirmed_who_is = 8

abbrev pub service_confirmed_read_property : ℕ
service_confirmed_read_property = 12

abbrev pub service_confirmed_write_property : ℕ
service_confirmed_write_property = 15

-- A Payload behind its pointer; `no_payload` is the nil interface.
pub data Payload : Type 0 where
  no_payload : Payload
  who_is : WhoIs → Payload
  iam : Iam → Payload
  read_property : ReadProperty → Payload
  write_property : WriteProperty → Payload
  apdu_error : ApduError → Payload
  data_payload : List ℕ → Payload

pub record Apdu : Type 0 where
  pub data_type : ℕ
  pub service_type : ℕ
  pub payload : Payload
  pub invoke_id : ℕ

abbrev pub new_apdu : Apdu
new_apdu = record { data_type = 0; service_type = 0; payload = no_payload; invoke_id = 0 }

-- A method call on the nil interface panics.
unfoldable pub marshal_payload : Payload → Outcome (Result (List ℕ))
marshal_payload no_payload = panics
marshal_payload (who_is w) = returns (marshal_who_is w)
marshal_payload (iam i) = returns (marshal_iam i)
marshal_payload (read_property rp) = returns (marshal_read_property rp)
marshal_payload (write_property wp) = marshal_write_property wp
marshal_payload (apdu_error e) = marshal_apdu_error e
marshal_payload (data_payload bytes) = returns (ok bytes)

abbrev pub then_prefix : List ℕ → Result (List ℕ) → Result (List ℕ)
then_prefix front (ok bytes) = ok (front ++ bytes)
then_prefix front (err e) = err e

abbrev pub apdu_front : Apdu → List ℕ
apdu_front a =
    if a.data_type == confirmed_service_request
    then a.data_type ∷ 5 ∷ a.invoke_id ∷ a.service_type ∷ []
    else a.data_type ∷ a.service_type ∷ []

unfoldable pub marshal_apdu : Apdu → Outcome (Result (List ℕ))
marshal_apdu a = do bytes ← marshal_payload a.payload; returns (then_prefix (apdu_front a) bytes)

-- The receiver as it is left, and the error returned.
abbrev pub Left : Type 0 → Type 0
Left A = Outcome (A × Option Error)

-- An early return on the error of a read, with the text that wraps it.
abbrev pub attempt :
    {A B : Type 0} → A → String → Result B × Buffer → (B → Buffer → Left A) → Left A
attempt left s (ok v, b) k = k v b
attempt left s (err e, b) k = returns (left, some (wrapped s e))

abbrev pub is_answer : ℕ → Bool
is_answer data_type = data_type == complex_ack || data_type == simple_ack || data_type == error_pdu

-- The receivers of the payloads' methods are new.
abbrev pub new_who_is : WhoIs
new_who_is = record { low = none; high = none }

abbrev pub new_iam : Iam
new_iam = record {
  object_id = record { object_type = 0; number = 0 };
  max_apdu_length = 0;
  segmentation_support = 0;
  vendor_id = 0;
}

abbrev pub new_read_property : ReadProperty
new_read_property = record {
  object_id = record { object_type = 0; number = 0 };
  property = record { property_type = 0; array_index = none };
  content = nil;
}

abbrev pub new_apdu_error : ApduError
new_apdu_error = record { class = 0; code = 0 }

abbrev pub filled : {A : Type 0} → Apdu → (A → Payload) → A × Option Error → Apdu × Option Error
filled a make (p, e) = (record a { payload = make p }, e)

unfoldable pub unmarshal_payload : Apdu → List ℕ → Left Apdu
unmarshal_payload a bytes =
    if a.data_type == unconfirmed_service_request && a.service_type == service_unconfirmed_who_is
    then returns (filled a who_is (unmarshal_who_is new_who_is bytes))
    else if a.data_type == unconfirmed_service_request && a.service_type == service_unconfirmed_iam
    then (do r ← unmarshal_iam new_iam bytes; returns (filled a iam r))
    else if a.data_type == complex_ack && a.service_type == service_confirmed_read_property
    then (do
      r ← unmarshal_read_property new_read_property bytes
      returns (filled a read_property r))
    else if a.data_type == error_pdu
    then (do r ← unmarshal_apdu_error new_apdu_error bytes; returns (filled a apdu_error r))
    else returns (record a { payload = data_payload bytes }, none)

unfoldable pub unmarshal_service : Apdu → Buffer → Left Apdu
unfolding unmarshal_payload
unmarshal_service a b =
    attempt a "read APDU ServiceType" (read_uint 1 b)
      λ service b'. unmarshal_payload (record a { service_type = service }) b'.rest

-- The error of the invoke id's read is returned as it is; the id is 0 then.
unfoldable pub unmarshal_invoke_id : Apdu → Result ℕ × Buffer → Left Apdu
unfolding unmarshal_service
unmarshal_invoke_id a (ok id, b) = unmarshal_service (record a { invoke_id = id }) b
unmarshal_invoke_id a (err e, b) = returns (record a { invoke_id = 0 }, some e)

unfoldable pub unmarshal_apdu : Apdu → List ℕ → Left Apdu
unfolding unmarshal_invoke_id unmarshal_service
unmarshal_apdu a bytes =
    attempt a "read APDU DataType" (read_uint 1 (new_buffer bytes)) λ data_type b.
      let a1 = record a { data_type = data_type } in
      if is_answer data_type then unmarshal_invoke_id a1 (read_byte b) else unmarshal_service a1 b
