-- ===== src/Bacip/Services/Typed.antt =====
-- What the services' UnmarshalBinary methods read is in the range of its fields' types.
use baetyl_bacnet.Common.{
  ℕ, ◌≡◌, subst, List, [], ◌∷◌, Option, none, All, Bool-cases, Option-cases, inl, inr, arith,
}
use baetyl_bacnet.Common.Go.{Error, ok, Outcome, returns, panics, ◌>>=◌, is_incorrect_tag}
use baetyl_bacnet.Bacnet.ObjectId.Packing.{IsStandard}
use baetyl_bacnet.Bacnet.Value.{Value, uint32, segmentation, error_class, error_code, object_id}
use baetyl_bacnet.Encoding.Bytes.{IsByte, IsU16, IsU32}
use baetyl_bacnet.Encoding.Decoder.{Decoder, new_decoder}
use baetyl_bacnet.Encoding.Decoder.Reflect.{
  Target, Stored, to_any, to_uint32, to_segmentation, to_error_class, to_error_code, to_object_id,
}
use baetyl_bacnet.Encoding.Decoder.AppData.Stores.{IsFitting, HasType, Stores, app_data-HasType}
use baetyl_bacnet.Encoding.Decoder.Abstract.Stores.{context_abstract_type-HasType}
use baetyl_bacnet.Encoding.Decoder.Fits.{IsBytes}
use baetyl_bacnet.Encoding.Decoder.Fits.Context.{
  Holds, context_value-Holds, context_object_id-Holds,
}
use baetyl_bacnet.Bacip.Services.{WhoIs, Iam, ReadProperty, ApduError}
use baetyl_bacnet.Bacip.Services.Marshal.{marshal_iam}
use baetyl_bacnet.Bacip.Services.IamRoundTrip.{IsWireIam, unmarshal_iam-marshal_iam}
use baetyl_bacnet.Bacip.Services.ReadAck.{IndexFits}
use baetyl_bacnet.Bacip.Services.Unmarshal.{
  as_number, as_object_id, forgive, unmarshal_who_is, unmarshal_iam, unmarshal_read_property,
  unmarshal_apdu_error,
}

abbrev pub IsTypedWhoIs : WhoIs → Type 0
IsTypedWhoIs w = IndexFits w.low × IndexFits w.high

pub record IsTypedReadProperty (rp : ReadProperty) : Type 0 where
  pub object_fits : IsStandard rp.object_id
  pub property_fits : IsU32 rp.property.property_type
  pub index_fits : IndexFits rp.property.array_index
  pub content_fits : IsFitting rp.content

abbrev pub IsTypedError : ApduError → Type 0
IsTypedError e = IsU16 e.class × IsU32 e.code

-- A receiver with the property is left, whatever error is returned.
abbrev pub Leaves : {A : Type 0} → (A → Type 0) → Outcome (A × Option Error) → Type 0
Leaves P panics = Unit {0}
Leaves P (returns (a, e)) = P a

-- One read of a chain.
Leaves-stored :
    {A : Type 0} (P : A → Type 0) (target : Target) (r : Stored)
    (f : Decoder × Value → Outcome (A × Option Error))
    → Stores target r
    → ((d : Decoder) (v : Value) → IsBytes d.buf → HasType target v → Leaves P (f (d, v)))
    → Leaves P (r >>= f)
Leaves-stored P target panics f h g = tt
Leaves-stored P target (returns (d, v)) f (h, k) g = g d v h k

zero_fits : IsU32 0
zero_fits = omega arith

number_of : (v : Value) → HasType to_uint32 v → IsU32 (as_number v)
number_of (uint32 n) h = h
number_of _ h = absurd h

segmentation_of : (v : Value) → HasType to_segmentation v → IsByte (as_number v)
segmentation_of (segmentation n) h = h
segmentation_of _ h = absurd h

class_of : (v : Value) → HasType to_error_class v → IsU16 (as_number v)
class_of (error_class n) h = h
class_of _ h = absurd h

code_of : (v : Value) → HasType to_error_code v → IsU32 (as_number v)
code_of (error_code n) h = h
code_of _ h = absurd h

object_of : (v : Value) → HasType to_object_id v → IsStandard (as_object_id v)
object_of (object_id o) h = h
object_of _ h = absurd h

pub unmarshal_iam-IsWireIam :
    (i : Iam) (bytes : List ℕ)
    → IsWireIam i
    → All IsByte bytes
    → Leaves IsWireIam (unmarshal_iam i bytes)
unfolding unmarshal_iam
unmarshal_iam-IsWireIam i bytes h bs =
    Leaves-stored IsWireIam to_object_id _ _ (app_data-HasType to_object_id _ h.standard _ (tt, bs))
      λ d1 o b1 ho.
        Leaves-stored IsWireIam to_uint32 _ _ (app_data-HasType to_uint32 _ h.apdu_fits d1 b1)
          λ d2 m b2 hm.
            Leaves-stored IsWireIam to_segmentation _ _
              (app_data-HasType to_segmentation _ h.segmentation_fits d2 b2)
              λ d3 s b3 hs.
                Leaves-stored IsWireIam to_uint32 _ _
                  (app_data-HasType to_uint32 _ h.vendor_fits d3 b3)
                  λ d4 v b4 hv. record {
                    standard = object_of o ho;
                    apdu_fits = number_of m hm;
                    segmentation_fits = segmentation_of s hs;
                    vendor_fits = number_of v hv;
                  }

pub unmarshal_apdu_error-IsTyped :
    (e : ApduError) (bytes : List ℕ)
    → IsTypedError e
    → All IsByte bytes
    → Leaves IsTypedError (unmarshal_apdu_error e bytes)
unfolding unmarshal_apdu_error
unmarshal_apdu_error-IsTyped e bytes h bs =
    Leaves-stored IsTypedError to_error_class _ _ (app_data-HasType to_error_class _ h.0 _ (tt, bs))
      λ d1 c b1 hc.
        Leaves-stored IsTypedError to_error_code _ _ (app_data-HasType to_error_code _ h.1 d1 b1)
          λ d2 n b2 hn. (class_of c hc, code_of n hn)

pub unmarshal_who_is-IsTyped :
    (w : WhoIs) (bytes : List ℕ)
    → IsTypedWhoIs w
    → All IsByte bytes
    → IsTypedWhoIs (unmarshal_who_is w bytes).0
unfolding unmarshal_who_is
unmarshal_who_is-IsTyped w [] h bs = h
unmarshal_who_is-IsTyped w (x ∷ xs) h bs =
    let (b1, low) = context_value-Holds 0 0 (new_decoder (x ∷ xs)) zero_fits (tt, bs) in
    let (b2, high) = context_value-Holds 1 0 _ zero_fits b1 in (low, high)

forgive-Holds : (r : Decoder × ℕ) → Holds IsU32 r → Holds IndexFits (forgive r)
forgive-Holds (d, index) (h, k) = elim (Option-cases d.failure) [
  | inl q ↦ rw q (h, k)
  | inr (e, q) ↦ elim (Bool-cases (is_incorrect_tag e)) [
    | inl p ↦ rw (q, p) (h, tt)
    | inr p ↦ rw (q, p) (h, k)
  ]
]

pub unmarshal_read_property-IsTyped :
    (rp : ReadProperty) (bytes : List ℕ)
    → IsTypedReadProperty rp
    → All IsByte bytes
    → Leaves IsTypedReadProperty (unmarshal_read_property rp bytes)
unfolding unmarshal_read_property
unmarshal_read_property-IsTyped rp bytes h bs =
    let (b1, o) =
      context_object_id-Holds 0 rp.object_id (new_decoder bytes) h.object_fits (tt, bs) in
    let (b2, p) = context_value-Holds 1 0 _ zero_fits b1 in
    let (b3, i) = forgive-Holds _ (context_value-Holds 2 0 _ zero_fits b2) in
    Leaves-stored IsTypedReadProperty to_any _ _
      (context_abstract_type-HasType 3 to_any _ _ h.content_fits b3)
      λ d4 v b4 hv. record { object_fits = o; property_fits = p; index_fits = i; content_fits = hv }

-- What `UnmarshalBinary` makes of any bytes as an I-Am, into a receiver in the range of its types,
-- can be sent on, whatever error it returned: `MarshalBinary` succeeds, and `UnmarshalBinary` of
-- its bytes gives the same I-Am without an error.
pub marshal_iam-unmarshal_iam :
    (i j : Iam) (bytes : List ℕ) (e : Option Error)
    → IsWireIam i
    → All IsByte bytes
    → unmarshal_iam i bytes ≡ returns (j, e)
    → (out : List ℕ) × (marshal_iam j ≡ ok out) × (unmarshal_iam i out ≡ returns (j, none))
marshal_iam-unmarshal_iam i j bytes e h bs q =
    unmarshal_iam-marshal_iam j (subst (Leaves IsWireIam) q (unmarshal_iam-IsWireIam i bytes h bs))
      i
