-- ===== src/Common/Text.antt =====
-- Go strings as their bytes: equality, and the decimal form of a number.
use Prim.Native.Char.{code}
use Prim.Native.String.{String}
use Prim.Native.Nat.{ℕ, zero, suc, ◌+◌, ◌-◌, ◌*◌, ◌/◌, ◌%◌, ◌<◌}
use mathlib.Core.Path.{◌≡◌, refl, sym, ap, ◌∙◌}
use mathlib.Core.Logic.{inl, inr}
use mathlib.Core.Bool.{Bool, true, false, ◌&&◌}
use mathlib.Core.List.{List, [], ◌∷◌, ◌++◌, append_assoc}
use native.Mathlib.Omega.{arith}
use baetyl_bacnet.Common.Tests.{◌==◌, ltb, leb, if◌then◌else◌, Bool-cases}

abbrev pub Text : Type 0
Text = List ℕ

-- The bytes of an ASCII string.
abbrev pub bytes_of : String → Text
bytes_of String.[] = []
bytes_of (String.◌∷◌ c s) = code c ∷ bytes_of s

-- `a == b` of two strings.
unfoldable pub same_text : Text → Text → Bool
same_text [] [] = true
same_text (x ∷ xs) (y ∷ ys) = x == y && same_text xs ys
same_text _ _ = false

pub same_text_refl : (s : Text) → same_text s s ≡ true
unfolding same_text
same_text_refl [] = refl
same_text_refl (x ∷ xs) = ground (arith, same_text_refl xs)

pub same_text-eq : (s t : Text) → same_text s t ≡ true → s ≡ t
unfolding same_text
same_text-eq [] [] h = refl
same_text-eq [] (y ∷ ys) h = cc
same_text-eq (x ∷ xs) [] h = cc
same_text-eq (x ∷ xs) (y ∷ ys) h = ground (arith, same_text-eq xs ys)

-- Two texts that differ are not both equal to a third.
pub same_text_apart :
    (s t u : Text) → same_text s t ≡ false → same_text s u ≡ true → same_text t u ≡ false
same_text_apart s t u h q = elim (Bool-cases (same_text t u)) [
  | inl r ↦
      let e : s ≡ t = same_text-eq s u q ∙ sym (same_text-eq t u r) in
      absurd (ground (arith, same_text_refl t, rw e at h))
  | inr r ↦ r
]

-- `strconv.FormatUint(n, 10)` on numbers of at most 20 digits; `n / 10` has one digit less.
unfoldable pub digits : ℕ → ℕ → Text → Text
digits zero n acc = acc
digits (suc f) n acc =
    let rest = digits f (n / 10) ((48 + n % 10) ∷ acc) in if ltb n 10 then (48 + n) ∷ acc else rest

unfoldable pub format_uint : ℕ → Text
unfolding digits
format_uint n = digits 20 n []

-- The number in front of a text, and what follows it.
unfoldable pub read_number : ℕ → Text → ℕ × Text
read_number v [] = (v, [])
read_number v (c ∷ cs) =
    let rest = read_number (v * 10 + (c - 48)) cs in
    if leb 48 c && leb c 57 then rest else (v, c ∷ cs)

abbrev tens : ℕ → ℕ
tens zero = 1
tens (suc f) = 10 * tens f

read_number-digits :
    (f n : ℕ) (acc : Text) → n < tens f → read_number 0 (digits f n acc) ≡ read_number n acc
unfolding digits read_number
read_number-digits zero n acc h = ground arith
read_number-digits (suc f) n acc h =
    let ih = read_number-digits f (n / 10) ((48 + n % 10) ∷ acc) (omega arith) in ground (arith, ih)

digits-append : (f n : ℕ) (acc : Text) → digits f n acc ≡ digits f n [] ++ acc
unfolding digits
digits-append zero n acc = refl
digits-append (suc f) n acc = ground (
  arith,
  digits-append f (n / 10) ((48 + n % 10) ∷ acc),
  digits-append f (n / 10) ((48 + n % 10) ∷ []),
  append_assoc (digits f (n / 10) []) ((48 + n % 10) ∷ []) acc,
)

-- A uint64 that was formatted is read back, up to the end or to a colon.
pub read_number-format_uint :
    (n : ℕ) → n < 18446744073709551616 → read_number 0 (format_uint n) ≡ (n, [])
unfolding format_uint
read_number-format_uint n h =
    read_number-digits 20 n [] (omega arith) ∙ (unfold read_number in refl)

pub read_number-append :
    (n : ℕ) (rest : Text)
    → n < 18446744073709551616
    → read_number 0 (format_uint n ++ 58 ∷ rest) ≡ (n, 58 ∷ rest)
unfolding format_uint
read_number-append n rest h =
    ap (read_number 0) (sym (digits-append 20 n (58 ∷ rest)))
    ∙ read_number-digits 20 n (58 ∷ rest) (omega arith)
    ∙ (unfold read_number in refl)
