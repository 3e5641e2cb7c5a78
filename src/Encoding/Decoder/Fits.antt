-- ===== src/Encoding/Decoder/Fits.antt =====
-- What is decoded from bytes is in the range of its type: the readers.
pub mod Tags
pub mod Context
use baetyl_bacnet.Common.{
  ℕ, zero, suc, ◌+◌, ◌*◌, ◌<◌, ◌≡◌, refl, sym, subst, List, [], ◌∷◌, ◌++◌, Option, none, some, Bool,
  true, false, String, All, All-append, arith, length, take, drop, rev_onto, leb, ◌==◌,
  if◌then◌else◌, Bool-cases, inl, inr,
}
use baetyl_bacnet.Common.Go.{Error, wrapped, Result, ok, err}
use baetyl_bacnet.Common.Bits.{bit_and-7}
use baetyl_bacnet.Encoding.Tag.{
  Tag, is_extended_tag_number, is_extended_value, is_opening_tag, is_closing_tag, flag16bits,
  flag32bits, decode_number, decode_wide, decode_value, decode_rest, decode_tag,
}
use baetyl_bacnet.Encoding.Bytes.{IsByte, IsU16, IsU32, big_endian}
use baetyl_bacnet.Encoding.Buffer.{
  Buffer, reading, Reader, after, ◌>>=◌, done, wrapping, read_byte, read_full, read_uint,
  unread_one,
}
use baetyl_bacnet.Encoding.Decoder.{unread, go_on, decode_unsigned_with_len}

-- A buffer of bytes.
abbrev pub IsBytes : Buffer → Type 0
IsBytes b = All IsByte b.back × All IsByte b.rest

-- A reader leaves a buffer of bytes, and what it returns has the property.
abbrev pub Gives : {A : Type 0} → (A → Type 0) → Result A × Buffer → Type 0
Gives P (ok a, b) = P a × IsBytes b
Gives P (err e, b) = IsBytes b

pub Gives-after :
    {A B : Type 0} (P : A → Type 0) (Q : B → Type 0) (r : Result A × Buffer) (f : A → Reader B)
    → Gives P r
    → ((a : A) (b : Buffer) → P a → IsBytes b → Gives Q (f a b))
    → Gives Q (after r f)
Gives-after P Q (ok a, b) f (h, k) g = g a b h k
Gives-after P Q (err e, b) f h g = h

pub Gives-wrapping :
    {A : Type 0} (P : A → Type 0) (s : String) (m : Reader A) (b : Buffer)
    → Gives P (m b)
    → Gives P (wrapping s m b)
Gives-wrapping P s m b h = go (m b) h
  where
    go : (r : Result _ × Buffer) → Gives P r → Gives P (wrapping s (λ x. r) b)
    go (ok a, b') h = h
    go (err e, b') h = h

pub take-IsByte : (n : ℕ) (xs : List ℕ) → All IsByte xs → All IsByte (take n xs)
take-IsByte zero xs h = tt
take-IsByte (suc n) [] h = tt
take-IsByte (suc n) (x ∷ xs) (h, hs) = (h, take-IsByte n xs hs)

pub drop-IsByte : (n : ℕ) (xs : List ℕ) → All IsByte xs → All IsByte (drop n xs)
drop-IsByte zero xs h = h
drop-IsByte (suc n) [] h = tt
drop-IsByte (suc n) (x ∷ xs) (h, hs) = drop-IsByte n xs hs

pub rev_onto-IsByte :
    (xs acc : List ℕ) → All IsByte xs → All IsByte acc → All IsByte (rev_onto xs acc)
rev_onto-IsByte [] acc h k = k
rev_onto-IsByte (x ∷ xs) acc (h, hs) k = rev_onto-IsByte xs (x ∷ acc) hs (h, k)

pub read_byte-Gives : (b : Buffer) → IsBytes b → Gives IsByte (read_byte b)
unfolding read_byte
read_byte-Gives b h = go b.rest refl
  where
    go : (xs : List ℕ) → b.rest ≡ xs → Gives IsByte (read_byte b)
    go [] e = rw e (tt, tt)
    go (x ∷ xs) e = let (hx, hs) = subst (All IsByte) e h.1 in rw e (hx, ((hx, h.0), hs))

length-take_of : (n : ℕ) (xs : List ℕ) → leb n (length xs) ≡ true → length (take n xs) ≡ n
length-take_of zero xs h = refl
length-take_of (suc n) [] h = absurd (ground arith)
length-take_of (suc n) (x ∷ xs) h = ground (arith, length-take_of n xs)

abbrev pub IsBlock : ℕ → List ℕ → Type 0
IsBlock n bs = All IsByte bs × (length bs ≡ n)

pub read_full-Gives : (n : ℕ) (b : Buffer) → IsBytes b → Gives (IsBlock n) (read_full n b)
unfolding read_full
read_full-Gives zero b h = ((tt, refl), h)
read_full-Gives (suc n) b h = elim (Bool-cases (leb (suc n) (length b.rest))) [
  | inl q ↦
      let t = take-IsByte (suc n) b.rest h.1 in
      rw q (
        (t, length-take_of (suc n) b.rest q),
        (rev_onto-IsByte (take (suc n) b.rest) b.back t h.0, drop-IsByte (suc n) b.rest h.1),
      )
  | inr q ↦ rw q (tt, tt)
]

-- The numbers of one, two and four bytes.
pub read_uint_one-Gives : (b : Buffer) → IsBytes b → Gives IsByte (read_uint 1 b)
unfolding read_uint
read_uint_one-Gives b h =
    Gives-after (IsBlock 1) IsByte (read_full 1 b) (λ bs. done (big_endian bs))
      (read_full-Gives 1 b h) (λ bs b' (p, e) k. (one bs p e, k))
  where
    one : (bs : List ℕ) → All IsByte bs → length bs ≡ 1 → IsByte (big_endian bs)
    one [] p e = absurd (ground arith)
    one (x ∷ []) p e = omega (arith, p.0)
    one (x ∷ y ∷ xs) p e = absurd (ground arith)

pub read_uint_two-Gives : (b : Buffer) → IsBytes b → Gives IsU16 (read_uint 2 b)
unfolding read_uint
read_uint_two-Gives b h =
    Gives-after (IsBlock 2) IsU16 (read_full 2 b) (λ bs. done (big_endian bs))
      (read_full-Gives 2 b h) (λ bs b' (p, e) k. (two bs p e, k))
  where
    two : (bs : List ℕ) → All IsByte bs → length bs ≡ 2 → IsU16 (big_endian bs)
    two [] p e = absurd (ground arith)
    two (x ∷ []) p e = absurd (ground arith)
    two (x ∷ y ∷ []) p e = omega (arith, p.0, p.1.0)
    two (x ∷ y ∷ z ∷ xs) p e = absurd (ground arith)

pub read_uint_four-Gives : (b : Buffer) → IsBytes b → Gives IsU32 (read_uint 4 b)
unfolding read_uint
read_uint_four-Gives b h =
    Gives-after (IsBlock 4) IsU32 (read_full 4 b) (λ bs. done (big_endian bs))
      (read_full-Gives 4 b h) (λ bs b' (p, e) k. (four bs p e, k))
  where
    four : (bs : List ℕ) → All IsByte bs → length bs ≡ 4 → IsU32 (big_endian bs)
    four (x ∷ y ∷ z ∷ w ∷ []) p e = omega (arith, p.0, p.1.0, p.1.1.0, p.1.1.1.0)
    four (x ∷ y ∷ z ∷ w ∷ v ∷ xs) p e = absurd (ground arith)
    four _ p e = absurd (ground arith)

pub unread_one-IsBytes : (b : Buffer) → IsBytes b → IsBytes (unread_one b).1
unfolding unread_one
unread_one-IsBytes b h = elim (Bool-cases b.can_unread) [
  | inl q ↦ rw q (go b.back refl)
  | inr q ↦ rw q h
]
  where
    go :
        (xs : List ℕ)
        → b.back ≡ xs
        → IsBytes
            (elim b.back [ [] ↦ reading [] b.rest false | x ∷ xs ↦ reading xs (x ∷ b.rest) false ])
    go [] e = rw e (tt, h.1)
    go (x ∷ xs) e = let (hx, hs) = subst (All IsByte) e h.0 in rw e (hs, (hx, h.1))

pub Gives-weaken :
    {A : Type 0} (P : A → Type 0) (Q : A → Type 0) (r : Result A × Buffer)
    → ((a : A) → P a → Q a)
    → Gives P r
    → Gives Q r
Gives-weaken P Q (ok a, b) f (h, k) = (f a h, k)
Gives-weaken P Q (err e, b) f h = h
