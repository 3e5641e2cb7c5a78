-- ===== src/Bacip/Apdu/Typed.antt =====
-- What an application layer packet is unmarshalled into is in the range of its fields' types.
use baetyl_bacnet.Common.{ℕ, List, All, Bool-cases, inl, inr, arith, ◌==◌, ◌&&◌, String}
use baetyl_bacnet.Common.Go.{Result, ok, err, returns, panics, ◌>>=◌}
use baetyl_bacnet.Encoding.Bytes.{IsByte}
use baetyl_bacnet.Encoding.Buffer.{Buffer, new_buffer, read_byte}
use baetyl_bacnet.Encoding.Decoder.Fits.{IsBytes, Gives, read_byte-Gives, read_uint_one-Gives}
use baetyl_bacnet.Bacip.Services.IamRoundTrip.{IsWireIam}
use baetyl_bacnet.Bacip.Services.Typed.{
  IsTypedWhoIs, IsTypedReadProperty, IsTypedError, Leaves, unmarshal_iam-IsWireIam,
  unmarshal_apdu_error-IsTyped, unmarshal_who_is-IsTyped, unmarshal_read_property-IsTyped,
}
use baetyl_bacnet.Bacip.Apdu.{
  Payload, no_payload, who_is, iam, read_property, write_property, apdu_error, data_payload, Apdu,
  Left, new_iam, new_read_property, attempt, filled, is_answer, unconfirmed_service_request,
  service_unconfirmed_who_is, service_unconfirmed_iam, complex_ack, service_confirmed_read_property,
  error_pdu, unmarshal_payload, unmarshal_service, unmarshal_invoke_id, unmarshal_apdu,
}

-- A payload as it is read: a WriteProperty never is.
abbrev pub IsTypedPayload : Payload → Type 0
IsTypedPayload no_payload = Unit {0}
IsTypedPayload (who_is w) = IsTypedWhoIs w
IsTypedPayload (iam i) = IsWireIam i
IsTypedPayload (read_property rp) = IsTypedReadProperty rp
IsTypedPayload (write_property wp) = ⊥
IsTypedPayload (apdu_error e) = IsTypedError e
IsTypedPayload (data_payload bytes) = All IsByte bytes

pub record IsTypedApdu (a : Apdu) : Type 0 where
  pub data_type_fits : IsByte a.data_type
  pub service_type_fits : IsByte a.service_type
  pub invoke_id_fits : IsByte a.invoke_id
  pub payload_fits : IsTypedPayload a.payload

with_payload :
    (a : Apdu) (p : Payload)
    → IsTypedApdu a
    → IsTypedPayload p
    → IsTypedApdu (record a { payload = p })
with_payload a p h k = record {
  data_type_fits = h.data_type_fits;
  service_type_fits = h.service_type_fits;
  invoke_id_fits = h.invoke_id_fits;
  payload_fits = k;
}

filled-Leaves :
    {A : Type 0} (P : A → Type 0) (a : Apdu) (make : A → Payload) (r : Left A)
    → IsTypedApdu a
    → ((p : A) → P p → IsTypedPayload (make p))
    → Leaves P r
    → Leaves IsTypedApdu (do x ← r; returns (filled a make x))
filled-Leaves P a make panics h g k = tt
filled-Leaves P a make (returns (p, e)) h g k = with_payload a (make p) h (g p k)

unmarshal_payload-IsTyped :
    (a : Apdu) (bytes : List ℕ)
    → IsTypedApdu a
    → All IsByte bytes
    → Leaves IsTypedApdu (unmarshal_payload a bytes)
unfolding unmarshal_payload
unmarshal_payload-IsTyped a bytes h bs =
    elim (Bool-cases (
      a.data_type == unconfirmed_service_request && a.service_type == service_unconfirmed_who_is)) [
        | inl q ↦ rw q (with_payload a _ h (unmarshal_who_is-IsTyped _ bytes (tt, tt) bs))
        | inr q1 ↦
            elim (Bool-cases (
              a.data_type == unconfirmed_service_request
              && a.service_type == service_unconfirmed_iam)) [
                | inl q ↦
                    rw (q1, q)
                      (filled-Leaves IsWireIam a iam _ h (λ p k. k)
                        (unmarshal_iam-IsWireIam new_iam bytes (ground arith) bs))
                | inr q2 ↦
                    elim (Bool-cases (
                      a.data_type == complex_ack
                      && a.service_type == service_confirmed_read_property)) [
                        | inl q ↦
                            rw (q1, q2, q)
                              (filled-Leaves IsTypedReadProperty a read_property _ h (λ p k. k)
                                (unmarshal_read_property-IsTyped new_read_property bytes
                                  (ground arith) bs))
                        | inr q3 ↦ elim (Bool-cases (a.data_type == error_pdu)) [
                          | inl q ↦
                              rw (q1, q2, q3, q)
                                (filled-Leaves IsTypedError a apdu_error _ h (λ p k. k)
                                  (unmarshal_apdu_error-IsTyped _ bytes (omega arith) bs))
                          | inr q ↦ rw (q1, q2, q3, q) (with_payload a (data_payload bytes) h bs)
                        ]
                      ]
              ]
      ]

pub attempt-Leaves :
    {A B : Type 0} (Q : A → Type 0) (P : B → Type 0) (a : A) (s : String) (r : Result B × Buffer)
    (k : B → Buffer → Left A)
    → Q a
    → Gives P r
    → ((v : B) (b : Buffer) → P v → IsBytes b → Leaves Q (k v b))
    → Leaves Q (attempt a s r k)
attempt-Leaves Q P a s (ok v, b) k h (p, i) g = g v b p i
attempt-Leaves Q P a s (err e, b) k h i g = h

unmarshal_service-IsTyped :
    (a : Apdu) (b : Buffer) → IsTypedApdu a → IsBytes b → Leaves IsTypedApdu (unmarshal_service a b)
unfolding unmarshal_service
unmarshal_service-IsTyped a b h i =
    attempt-Leaves IsTypedApdu IsByte a _ _ _ h (read_uint_one-Gives b i) λ service b' k j.
      unmarshal_payload-IsTyped (record a { service_type = service }) b'.rest
        (record {
          data_type_fits = h.data_type_fits;
          service_type_fits = k;
          invoke_id_fits = h.invoke_id_fits;
          payload_fits = h.payload_fits;
        })
        j.1

unmarshal_invoke_id-IsTyped :
    (a : Apdu) (r : Result ℕ × Buffer)
    → IsTypedApdu a
    → Gives IsByte r
    → Leaves IsTypedApdu (unmarshal_invoke_id a r)
unfolding unmarshal_invoke_id
unmarshal_invoke_id-IsTyped a (ok id, b) h (k, i) =
    unmarshal_service-IsTyped (record a { invoke_id = id }) b
      (record {
        data_type_fits = h.data_type_fits;
        service_type_fits = h.service_type_fits;
        invoke_id_fits = k;
        payload_fits = h.payload_fits;
      })
      i
unmarshal_invoke_id-IsTyped a (err e, b) h i = record {
  data_type_fits = h.data_type_fits;
  service_type_fits = h.service_type_fits;
  invoke_id_fits = omega arith;
  payload_fits = h.payload_fits;
}

pub unmarshal_apdu-IsTyped :
    (a : Apdu) (bytes : List ℕ)
    → IsTypedApdu a
    → All IsByte bytes
    → Leaves IsTypedApdu (unmarshal_apdu a bytes)
unfolding unmarshal_apdu
unmarshal_apdu-IsTyped a bytes h bs =
    attempt-Leaves IsTypedApdu IsByte a _ _ _ h (read_uint_one-Gives (new_buffer bytes) (tt, bs))
      λ t b k i.
        let a1 : Apdu = record a { data_type = t } in
        let h1 : IsTypedApdu a1 = record {
          data_type_fits = k;
          service_type_fits = h.service_type_fits;
          invoke_id_fits = h.invoke_id_fits;
          payload_fits = h.payload_fits;
        } in
        elim (Bool-cases (is_answer t)) [
          | inl q ↦ rw q (unmarshal_invoke_id-IsTyped a1 (read_byte b) h1 (read_byte-Gives b i))
          | inr q ↦ rw q (unmarshal_service-IsTyped a1 b h1 i)
        ]
