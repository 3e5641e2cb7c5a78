-- ===== src/Baetyl/Delta/OnWire.antt =====
-- The writes of changes are requests that the client can send.
use baetyl_bacnet.Common.{
  ℕ, ◌<◌, ◌≡◌, inl, inr, sym, subst, true, ◌==◌, arith, Bool-cases, length, ==_iff,
}
use baetyl_bacnet.Common.Go.{Result, ok, err, Outcome, returns}
use baetyl_bacnet.Bacnet.Address.{UdpAddr, address_from_udp}
use baetyl_bacnet.Bacnet.Device.{Device}
use baetyl_bacnet.Bacnet.ObjectId.Packing.{IsStandard}
use baetyl_bacnet.Bacnet.Value.{
  Value, boolean, uint32, float32, PropertyValue, type_boolean, type_real, type_enumerated,
}
use baetyl_bacnet.Bacip.Client.Requests.{write_request, send}
use baetyl_bacnet.Bacip.Client.Writing.{
  IsTyped, is_boolean, is_real, is_enumerated, write_request_bytes, send-write_request,
}
use baetyl_bacnet.Dmp.Framework.{Floats}
use baetyl_bacnet.Dmp.Adapter.{parse_value_to_bool, parse_value_to_float32, parse_value_to_uint32}
use baetyl_bacnet.Baetyl.Config.{Property, object_of}
use baetyl_bacnet.Baetyl.Delta.{as_value, unsupported_tag, write_of, convert}

abbrev pair : ℕ → Value → PropertyValue
pair tag v = record { tag = tag; value = v }

-- A converted value has the type that its tag names.
typed_by :
    {A : Type 0} (make : A → Value) (tag : ℕ) (r : Result A) (v : Value)
    → ((a : A) → IsTyped (pair tag (make a)))
    → ◌≡◌ {A = Outcome (Result Value)} (returns (as_value make r)) (returns (ok v))
    → IsTyped (pair tag v)
typed_by make tag (err e) v h q = absurd (ground arith)
typed_by make tag (ok a) v h q =
    let same : make a ≡ v = ground arith in subst (λ (x : Value). IsTyped (pair tag x)) same (h a)

unsupported-IsTyped :
    (tag : ℕ) (val v : Value) → unsupported_tag val ≡ returns (ok v) → IsTyped (pair tag v)
unsupported-IsTyped tag val v q = absurd (ground arith)

retag : (tag k : ℕ) (v : Value) → (tag == k) ≡ true → IsTyped (pair k v) → IsTyped (pair tag v)
retag tag k v q h = subst (λ (x : ℕ). IsTyped (pair x v)) (sym ((==_iff tag k).0 q)) h

convert-IsTyped :
    (fl : Floats) (tag : ℕ) (val v : Value)
    → convert fl tag val ≡ returns (ok v)
    → IsTyped (pair tag v)
unfolding convert
convert-IsTyped fl tag val v h = elim (Bool-cases (tag == type_boolean)) [
  | inl q ↦
      retag tag type_boolean v q
        (typed_by boolean type_boolean (parse_value_to_bool val) v is_boolean (rw q at h))
  | inr q ↦ elim (Bool-cases (tag == type_real)) [
    | inl r ↦
        retag tag type_real v r
          (typed_by float32 type_real (parse_value_to_float32 fl val) v is_real (rw (q, r) at h))
    | inr r ↦ elim (Bool-cases (tag == type_enumerated)) [
      | inl s ↦ retag tag type_enumerated v s (
          typed_by uint32 type_enumerated (parse_value_to_uint32 fl val) v is_enumerated
            (rw (q, r, s) at h))
      | inr s ↦ unsupported-IsTyped tag val v (rw (q, r, s) at h)
    ]
  ]
]

-- The write that a change leads to is a request that the client sends, whatever the value of the
-- change: neither its encoding nor its address fails, if the property's object identifier is a
-- standard one and the device has an address of the local network.
pub send-write_of :
    (own udp : UdpAddr) (device : Device) (id : ℕ) (fl : Floats) (p : Property) (val v : Value)
    → device.addr ≡ address_from_udp udp
    → length udp.ip ≡ 4
    → udp.port < 65536
    → IsStandard (object_of p)
    → convert fl p.application_tag_number val ≡ returns (ok v)
    → send (write_request own device id (write_of p v))
      ≡ returns (ok (write_request_bytes id (write_of p v), udp))
send-write_of own udp device id fl p val v d l port std c =
    send-write_request own udp device id (write_of p v) d l port (record {
      standard = std;
      property_fits = omega arith;
      index_fits = tt;
      typed = convert-IsTyped fl p.application_tag_number val v c;
      priority_fits = omega arith;
    })
