-- ===== src/Encoding/Tag/Takes.antt =====
-- How many bytes `decodeTag` takes from any buffer.
use Prim.Native.Nat.add
use mathlib.Core.Path.{subst₂}
use baetyl_bacnet.Common.{
  subst, ℕ, zero, suc, ◌+◌, ◌≤◌, ◌≡◌, ap, sym, ◌∙◌, true, List, [], ◌∷◌, ◌++◌, arith, length, take,
  drop, rev_onto, rev_onto-append, ◌⊎◌, inl, inr, Bool-cases,
}
use baetyl_bacnet.Common.Go.{ok}
use baetyl_bacnet.Encoding.Buffer.{Buffer, after-ok, wrapping, wrapping-ok, read_byte, read_uint}
use baetyl_bacnet.Encoding.Tag.{
  Tag, decode_tag, decode_number, decode_value, decode_rest, decode_wide, is_extended_value,
  is_opening_tag, is_closing_tag,
}

-- `b'` is `b` after `n` bytes were read, the last of which may be unread.
pub record Takes (n : ℕ) (b b' : Buffer) : Type 0 where
  pub in_range : n ≤ length b.rest
  pub left : b'.rest ≡ drop n b.rest
  pub passed : b'.back ≡ rev_onto (take n b.rest) b.back
  pub fresh : b'.can_unread ≡ true

take-add : (m n : ℕ) (xs : List ℕ) → take (m + n) xs ≡ take m xs ++ take n (drop m xs)
take-add zero n xs = rw (add.zero n)
take-add (suc m) zero [] = rw (add.suc m zero)
take-add (suc m) (suc n) [] = rw (add.suc m (suc n))
take-add (suc m) n (x ∷ xs) = rw (add.suc m n) (ap (◌∷◌ x) (take-add m n xs))

drop-add : (m n : ℕ) (xs : List ℕ) → drop (m + n) xs ≡ drop n (drop m xs)
drop-add zero n xs = rw (add.zero n)
drop-add (suc m) zero [] = rw (add.suc m zero)
drop-add (suc m) (suc n) [] = rw (add.suc m (suc n))
drop-add (suc m) n (x ∷ xs) = rw (add.suc m n) (drop-add m n xs)

length-drop_add :
    (m n : ℕ) (xs : List ℕ) → m ≤ length xs → n ≤ length (drop m xs) → m + n ≤ length xs
length-drop_add zero n xs h k = omega arith
length-drop_add (suc m) n [] h k = absurd (omega arith)
length-drop_add (suc m) n (x ∷ xs) h k = omega (arith, length-drop_add m n xs (omega arith) k)

Takes-add : (m n : ℕ) (a b c : Buffer) → Takes m a b → Takes n b c → Takes (m + n) a c
Takes-add m n a b c p q = record {
  in_range = length-drop_add m n a.rest p.in_range (rw p.left at q.in_range);
  left = rw (drop-add m n a.rest, ← p.left) q.left;
  passed =
      rw
        (
          take-add m n a.rest,
          rev_onto-append (take m a.rest) (take n (drop m a.rest)) a.back,
          ← p.left,
          ← p.passed,
        )
        q.passed;
  fresh = q.fresh;
}

read_byte-Takes : (x : ℕ) (b b' : Buffer) → read_byte b ≡ (ok x, b') → Takes 1 b b'
unfolding read_byte
read_byte-Takes x b b' e = ground arith

read_uint-Takes : (n v : ℕ) (b b' : Buffer) → read_uint (suc n) b ≡ (ok v, b') → Takes (suc n) b b'
unfolding read_uint
read_uint-Takes n v b b' e = ground arith

decode_number-Takes :
    (first n id : ℕ) (b b' : Buffer)
    → decode_number first b ≡ (ok (n, id), b')
    → ((n ≡ 1) × (b' ≡ b)) ⊎ ((n ≡ 2) × Takes 1 b b')
unfolding decode_number
decode_number-Takes first n id b b' e = ground (arith, read_byte-Takes id b b')

decode_wide-Takes :
    (first n v : ℕ) (b b' : Buffer)
    → decode_wide first b ≡ (ok (n, v), b')
    → ((n ≡ 1) × (b' ≡ b)) ⊎ ((n ≡ 3) × Takes 2 b b') ⊎ ((n ≡ 5) × Takes 4 b b')
unfolding decode_wide
decode_wide-Takes first n v b b' e =
    ground (arith, read_uint-Takes 1 v b b', read_uint-Takes 3 v b b')

decode_value-Takes :
    (first n v : ℕ) (b b' : Buffer)
    → decode_value first b ≡ (ok (n, v), b')
    → ((n ≡ 0) × (b' ≡ b)) ⊎ ((n ≤ 5) × Takes n b b')
unfolding decode_value
decode_value-Takes first n v b b' e = elim (Bool-cases (is_extended_value first)) [
  | inl y ↦
      let (x, b1, p, q) =
        after-ok (wrapping "read first byte of extended value tag" read_byte b) decode_wide
          (rw y at e) in
      let one : Takes 1 b b1 =
        read_byte-Takes x b b1
          (wrapping-ok "read first byte of extended value tag" read_byte b p) in
      ground (
        arith,
        decode_wide-Takes x n v b1 b' q,
        Takes-add 1 2 b b1 b' one,
        Takes-add 1 4 b b1 b' one,
      )
  | inr z ↦ ground arith
]

decode_rest-Takes :
    (first count id n : ℕ) (t : Tag) (b b' : Buffer)
    → decode_rest first count id b ≡ (ok (n, t), b')
    → (m : ℕ) × (n ≡ count + m) × (((m ≡ 0) × (b' ≡ b)) ⊎ ((m ≤ 5) × Takes m b b'))
unfolding decode_rest
decode_rest-Takes first count id n t b b' e = elim (Bool-cases (is_opening_tag first)) [
  | inl y ↦ (0, ground arith, ground arith)
  | inr y ↦ elim (Bool-cases (is_closing_tag first)) [
    | inl z ↦ (0, ground arith, ground arith)
    | inr z ↦
        let ((m, v), b1, p, q) = after-ok (decode_value first b) _ (rw (y, z) at e) in
        (m, ground arith, ground (arith, decode_value-Takes first m v b b1 p))
  ]
]

-- The first byte, the number's byte if there is one, and those of the value.
joins :
    (n count m : ℕ) (b b1 b2 b' : Buffer)
    → Takes 1 b b1
    → ((count ≡ 1) × (b2 ≡ b1)) ⊎ ((count ≡ 2) × Takes 1 b1 b2)
    → n ≡ count + m
    → ((m ≡ 0) × (b' ≡ b2)) ⊎ ((m ≤ 5) × Takes m b2 b')
    → (1 ≤ n) × (n ≤ 7) × Takes n b b'
joins n count m b b1 b2 b' one (inl (c, e)) s (inl (z, f)) =
    (omega arith, omega arith, subst₂ (λ k x. Takes k b x) (omega arith) (sym e ∙ sym f) one)
joins n count m b b1 b2 b' one (inl (c, e)) s (inr (h, q)) = (
  omega arith,
  omega arith,
  subst (λ k. Takes k b b') (omega arith) (Takes-add 1 m b b1 b' one (rw e at q)),
)
joins n count m b b1 b2 b' one (inr (c, two)) s (inl (z, f)) = (
  omega arith,
  omega arith,
  subst₂ (λ k x. Takes k b x) (omega arith) (sym f) (Takes-add 1 1 b b1 b2 one two),
)
joins n count m b b1 b2 b' one (inr (c, two)) s (inr (h, q)) = (
  omega arith,
  omega arith,
  subst (λ k. Takes k b b') (omega arith)
      (Takes-add (1 + 1) m b b2 b' (Takes-add 1 1 b b1 b2 one two) q),
)

-- `decodeTag` on any bytes: when it returns a tag, the length it returns is the number of bytes that
-- it took from the buffer, from 1 to 7.
pub decode_tag-Takes :
    (n : ℕ) (t : Tag) (b b' : Buffer)
    → decode_tag b ≡ (ok (n, t), b')
    → (1 ≤ n) × (n ≤ 7) × Takes n b b'
unfolding decode_tag
decode_tag-Takes n t b b' e =
    let (first, b1, p, q) = after-ok (wrapping "read tagID" read_byte b) _ e in
    let ((count, id), b2, p2, q2) = after-ok (decode_number first b1) _ q in
    let (m, eq, r) = decode_rest-Takes first count id n t b2 b' q2 in
    let one : Takes 1 b b1 = read_byte-Takes first b b1 (wrapping-ok "read tagID" read_byte b p) in
    joins n count m b b1 b2 b' one (decode_number-Takes first count id b1 b2 p2) eq r
