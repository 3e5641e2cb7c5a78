-- ===== src/Encoding/Tag/Shape.antt =====
-- What `encode_tag` writes, in plain arithmetic.
use baetyl_bacnet.Common.{
  ℕ, ◌+◌, ◌*◌, ◌≡◌, ◌<◌, refl, Bool, true, false, List, ◌∷◌, [], arith, leb, if◌then◌else◌,
}
use baetyl_bacnet.Common.Bits.{bit_or-8, bit_or-0, bit_or-nibbles}
use baetyl_bacnet.Encoding.Tag.{Tag, tag_meta, tag_head, plain_tag, opening_tag, closing_tag}

abbrev pub flag : Bool → ℕ
flag true = 8
flag false = 0

-- The low three bits of the first byte of a plain tag: the value, or 5 if it does not fit.
abbrev pub low_value : ℕ → ℕ
low_value v = if leb v 4 then v else 5

pub low_value-lt : (v : ℕ) → low_value v < 6
low_value-lt v = ground arith

pub tag_meta_plain : (id v : ℕ) (c : Bool) → tag_meta (plain_tag id c v) ≡ flag c + low_value v
unfolding tag_meta
tag_meta_plain id v true = ground (arith, bit_or-8 v, bit_or-8 5)
tag_meta_plain id v false = ground (arith, bit_or-0 v, bit_or-0 5)

pub tag_meta_opening : (id : ℕ) (c : Bool) → tag_meta (opening_tag id c) ≡ flag c + 6
unfolding tag_meta
tag_meta_opening id true = refl
tag_meta_opening id false = refl

pub tag_meta_closing : (id : ℕ) (c : Bool) → tag_meta (closing_tag id c) ≡ flag c + 7
unfolding tag_meta
tag_meta_closing id true = refl
tag_meta_closing id false = refl

-- The head of a tag whose meta nibble is known.
abbrev pub head_of : ℕ → ℕ → List ℕ
head_of id m = if leb id 14 then (id * 16 + m) ∷ [] else (240 + m) ∷ id ∷ []

pub tag_head_lem : (t : Tag) (m : ℕ) → tag_meta t ≡ m → m < 16 → tag_head t ≡ head_of t.id m
unfolding tag_head
tag_head_lem t m e h = rw e (ground (arith, bit_or-nibbles m t.id, bit_or-nibbles m 15))
