-- ===== src/Bacip/Services/WhoIsRoundTrip.antt =====
-- A Who-Is is read back as it was written.
use baetyl_bacnet.Common.{
  ℕ, ◌<◌, ◌≤◌, ◌≡◌, ◌≢◌, refl, List, [], ◌∷◌, ◌++◌, none, some, append-nil, length, ◌∙◌, sym, arith,
  ◌⊎◌,
}
use baetyl_bacnet.Common.Go.{ok}
use baetyl_bacnet.Bacnet.ObjectId.{max_instance}
use baetyl_bacnet.Encoding.Buffer.{new_buffer}
use baetyl_bacnet.Encoding.Tag.{tag_bytes}
use baetyl_bacnet.Encoding.Encoder.{new_encoder}
use baetyl_bacnet.Encoding.Decoder.{context_value, new_decoder}
use baetyl_bacnet.Encoding.RoundTrip.Context.{
  unsigned_field, context_unsigned_lem, context_value-unsigned_field,
}
use baetyl_bacnet.Bacip.Services.{WhoIs}
use baetyl_bacnet.Bacip.Services.Marshal.{marshal_who_is}
use baetyl_bacnet.Bacip.Services.Unmarshal.{unmarshal_who_is}

abbrev pub range : ℕ → ℕ → WhoIs
range low high = record { low = some low; high = some high }

abbrev pub everyone : WhoIs
everyone = record { low = none; high = none }

-- The requests that make sense: all devices, or the instances of a range.
pub data IsRequest : WhoIs → Type 0 where
  all : IsRequest everyone
  between : (low high : ℕ) → low ≤ high → high ≤ max_instance → IsRequest (range low high)

abbrev range_bytes : ℕ → ℕ → List ℕ
range_bytes low high = unsigned_field 0 low ++ unsigned_field 1 high

marshal_range :
    (low high : ℕ)
    → low ≤ high
    → high ≤ max_instance
    → marshal_who_is (range low high) ≡ ok (range_bytes low high)
unfolding marshal_who_is
marshal_range low high h m = ground (
  arith,
  context_unsigned_lem 0 low (omega arith) (omega arith) new_encoder refl,
  context_unsigned_lem 1 high (omega arith) (omega arith)
      (record { buf = unsigned_field 0 low; failure = none }) refl,
)

range_bytes-ne-nil : (low high : ℕ) → 0 < length (range_bytes low high)
unfolding tag_bytes
range_bytes-ne-nil low high = ground (arith)

unmarshal_nonempty :
    (w : WhoIs) (bytes : List ℕ)
    → 0 < length bytes
    → unmarshal_who_is w bytes ≡ (
        let (d1, low) = context_value 0 (new_decoder bytes) 0 in
        let (d2, high) = context_value 1 d1 0 in (range low high, d2.failure))
unfolding unmarshal_who_is
unmarshal_nonempty w [] h = absurd (omega arith)
unmarshal_nonempty w (x ∷ xs) h = refl

-- `MarshalBinary` succeeds on a Who-Is for all devices or for a range of instances, and
-- `UnmarshalBinary` into a new receiver gives the same request from its bytes.
pub unmarshal_who_is-marshal_who_is :
    (w : WhoIs)
    → IsRequest w
    → (bytes : List ℕ) × (marshal_who_is w ≡ ok bytes)
      × (unmarshal_who_is everyone bytes ≡ (w, none))
unmarshal_who_is-marshal_who_is _ all =
    ([], unfold marshal_who_is in refl, unfold unmarshal_who_is in refl)
unmarshal_who_is-marshal_who_is _ (between low high h m) = (
  range_bytes low high,
  marshal_range low high h m,
  (let (b1, p1, r1) =
        context_value-unsigned_field 0 low (omega arith) (omega arith)
          (new_buffer (range_bytes low high)) (unsigned_field 1 high) 0 refl in
      let (b2, p2, r2) =
        context_value-unsigned_field 1 high (omega arith) (omega arith) b1 [] 0
          (r1 ∙ sym (append-nil _)) in
      unmarshal_nonempty everyone (range_bytes low high) (range_bytes-ne-nil low high)
      ∙ rw (p1, p2)),
)

-- `MarshalBinary` refuses a range if a limit is no instance number or the limits are exchanged.
pub marshal_who_is_fails :
    (low high : ℕ)
    → (max_instance < low) ⊎ (max_instance < high) ⊎ (high < low)
    → (bytes : List ℕ) → marshal_who_is (range low high) ≢ ok bytes
unfolding marshal_who_is
marshal_who_is_fails low high h bytes = ground arith
