-- ===== src/Bacip/Bvlc/Delimited.antt =====
-- A frame says where it ends: what is accepted is as long as its length field says.
use baetyl_bacnet.Common.{
  ℕ, ◌+◌, ◌*◌, ◌≤◌, ◌≡◌, refl, List, [], ◌∷◌, ◌++◌, length, length-append, none, true, arith, ◌==◌,
  Bool-cases, inl, inr,
}
use baetyl_bacnet.Common.Go.{returns}
use baetyl_bacnet.Encoding.Buffer.{Buffer, read_byte, read_uint, read_full, read_uint_two}
use baetyl_bacnet.Bacip.Bvlc.{Bvlc, type_bacnet_ip, read_packet, unmarshal_bvlc}

-- The four bytes in front: the type, the function, and the length of the whole.
abbrev pub IsDelimited : List ℕ → Type 0
IsDelimited (t ∷ f ∷ hi ∷ lo ∷ rest) = (t ≡ type_bacnet_ip) × (length rest + 4 ≡ hi * 256 + lo)
IsDelimited _ = ⊥

read_packet-length :
    (v v' : Bvlc) (len : ℕ) (b : Buffer)
    → read_packet v len b ≡ returns (v', none)
    → length b.rest + 4 ≡ len
unfolding read_packet
read_packet-length v v' len b e = elim (Bool-cases ((length b.rest + 4) == len)) [
  | inl q ↦ ground (arith, q)
  | inr q ↦ absurd (ground (arith, q, e))
]

-- Fewer than four bytes are refused.
short_refused :
    (v v' : Bvlc) (bytes : List ℕ) → unmarshal_bvlc v bytes ≡ returns (v', none) → 4 ≤ length bytes
unfolding unmarshal_bvlc read_byte read_uint read_full
short_refused v v' [] e = absurd (ground (arith, e))
short_refused v v' (t ∷ []) e = absurd (ground (arith, e))
short_refused v v' (t ∷ f ∷ []) e = absurd (ground (arith, e))
short_refused v v' (t ∷ f ∷ hi ∷ []) e = absurd (ground (arith, e))
short_refused v v' (t ∷ f ∷ hi ∷ lo ∷ rest) e = omega arith

whole_length :
    (v v' : Bvlc) (t f hi lo : ℕ) (rest : List ℕ)
    → unmarshal_bvlc v (t ∷ f ∷ hi ∷ lo ∷ rest) ≡ returns (v', none)
    → IsDelimited (t ∷ f ∷ hi ∷ lo ∷ rest)
unfolding unmarshal_bvlc read_byte
whole_length v v' t f hi lo rest e = elim (Bool-cases (t == type_bacnet_ip)) [
  | inl q ↦
      let e1 = rw (q, read_uint_two hi lo (f ∷ t ∷ []) rest true) at e in
      (ground (arith, q), read_packet-length _ v' (hi * 256 + lo) _ e1)
  | inr q ↦ absurd (ground (arith, q, e))
]

unmarshal_bvlc-IsDelimited :
    (v v' : Bvlc) (bytes : List ℕ) → unmarshal_bvlc v bytes ≡ returns (v', none) → IsDelimited bytes
unmarshal_bvlc-IsDelimited v v' (t ∷ f ∷ hi ∷ lo ∷ rest) e = whole_length v v' t f hi lo rest e
unmarshal_bvlc-IsDelimited v v' [] e = absurd (omega (arith, short_refused v v' [] e))
unmarshal_bvlc-IsDelimited v v' (t ∷ []) e = absurd (omega (arith, short_refused v v' (t ∷ []) e))
unmarshal_bvlc-IsDelimited v v' (t ∷ f ∷ []) e =
    absurd (omega (arith, short_refused v v' (t ∷ f ∷ []) e))
unmarshal_bvlc-IsDelimited v v' (t ∷ f ∷ hi ∷ []) e =
    absurd (omega (arith, short_refused v v' (t ∷ f ∷ hi ∷ []) e))

ends : (xs : List ℕ) → length xs ≡ 0 → xs ≡ []
ends [] h = refl
ends (x ∷ xs) h = absurd (ground arith)

delimited_alone : (xs ys : List ℕ) → IsDelimited xs → IsDelimited (xs ++ ys) → ys ≡ []
delimited_alone (t ∷ f ∷ hi ∷ lo ∷ rest) ys h k =
    ends ys (omega (arith, h.1, k.1, length-append rest ys))
delimited_alone [] ys h k = absurd h
delimited_alone (t ∷ []) ys h k = absurd h
delimited_alone (t ∷ f ∷ []) ys h k = absurd h
delimited_alone (t ∷ f ∷ hi ∷ []) ys h k = absurd h

-- A frame that `UnmarshalBinary` reads without an error starts with the type of BACnet/IP, and its
-- length field counts all of its bytes; and if it reads a continuation of the frame without an error
-- too, there is nothing behind the frame: a frame that is cut short, or that has bytes behind it, is
-- refused.
pub unmarshal_bvlc_alone :
    (v v' v0 v0' : Bvlc) (bytes more : List ℕ)
    → unmarshal_bvlc v bytes ≡ returns (v', none)
    → unmarshal_bvlc v0 (bytes ++ more) ≡ returns (v0', none)
    → IsDelimited bytes × (more ≡ [])
unmarshal_bvlc_alone v v' v0 v0' bytes more e e0 =
    let h = unmarshal_bvlc-IsDelimited v v' bytes e in
    (h, delimited_alone bytes more h (unmarshal_bvlc-IsDelimited v0 v0' (bytes ++ more) e0))
