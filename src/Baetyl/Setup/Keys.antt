-- ===== src/Baetyl/Setup/Keys.antt =====
-- The keys of a job's properties.
use baetyl_bacnet.Common.{ℕ, ◌<◌, ◌≡◌, sym, ap, ◌∙◌, [], ◌∷◌, arith}
use baetyl_bacnet.Common.Text.{
  Text, format_uint, read_number, read_number-format_uint, read_number-append,
}
use baetyl_bacnet.Baetyl.Setup.{property_key}

-- Properties with the same key have the same type and the same address, which are uints: the map
-- loses a property only if another one is for the same BACnet object.
pub property_key_injective :
    (t a t' a' : ℕ)
    → t < 18446744073709551616
    → a < 18446744073709551616
    → t' < 18446744073709551616
    → a' < 18446744073709551616
    → property_key t a ≡ property_key t' a'
    → (t ≡ t') × (a ≡ a')
unfolding property_key
property_key_injective t a t' a' ht ha ht' ha' e =
    let front : ◌≡◌ {A = ℕ × Text} (t, 58 ∷ format_uint a) (t', 58 ∷ format_uint a') =
      sym (read_number-append t (format_uint a) ht)
      ∙ ap (read_number 0) e
      ∙ read_number-append t' (format_uint a') ht' in
    let rest : format_uint a ≡ format_uint a' = ground arith in
    let address : ◌≡◌ {A = ℕ × Text} (a, []) (a', []) =
      sym (read_number-format_uint a ha)
      ∙ ap (read_number 0) rest
      ∙ read_number-format_uint a' ha' in
    (ground arith, ground arith)
