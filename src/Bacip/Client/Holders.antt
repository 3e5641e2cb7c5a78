-- ===== src/Bacip/Client/Holders.antt =====
-- What every interleaving of the client's calls keeps: an id is free or held by one call, and the
-- table of transactions lists exactly the calls that wait.
use baetyl_bacnet.Common.{
  ℕ, zero, suc, ◌+◌, ◌≤◌, ◌≡◌, refl, List, [], ◌∷◌, ◌++◌, Option, none, some, Bool, ◌==◌, ◌&&◌, leb,
  ltb, Option-cases, inl, inr, if◌then◌else◌, length, arith,
}
use baetyl_bacnet.Bacip.Transaction.{Tx, capacity, ids_from}
use baetyl_bacnet.Bacip.Client.Calls.{Call, System, start, is_registered, pick}

-- How often an id occurs in a list, and how many calls hold it.
unfoldable pub count : ℕ → List ℕ → ℕ
count j [] = 0
count j (x ∷ xs) = if x == j then suc (count j xs) else count j xs

unfoldable pub holders : ℕ → List Call → ℕ
holders j [] = 0
holders j (c ∷ cs) = if c.id == j then suc (holders j cs) else holders j cs

-- The transaction of the first call that waits under an id.
unfoldable pub awaited : ℕ → List Call → Option Tx
awaited j [] = none
awaited j (c ∷ cs) =
    if c.id == j && is_registered c.phase
    then some (record { apdu = c.channel; ctx = c.ctx })
    else awaited j cs

abbrev pub bit : Bool → ℕ
bit b = if b then 1 else 0

-- Each byte is free or held by exactly one call; the table has the calls that wait; and the free
-- ids and the calls are together 256.
abbrev pub IsConsistent : System → Type 0
IsConsistent s =
    ((j : ℕ) → count j s.transactions.free_invoke_id + holders j s.calls ≡ bit (ltb j capacity))
    × ((j : ℕ) → s.transactions.currents j ≡ awaited j s.calls)
    × (length s.transactions.free_invoke_id + length s.calls ≡ capacity)

pub count-append : (j : ℕ) (xs ys : List ℕ) → count j (xs ++ ys) ≡ count j xs + count j ys
unfolding count
count-append j [] ys = omega arith
count-append j (x ∷ xs) ys = ground (arith, count-append j xs ys)

pub unheld_awaited : (j : ℕ) (cs : List Call) → holders j cs ≡ 0 → awaited j cs ≡ none
unfolding holders awaited
unheld_awaited j [] h = refl
unheld_awaited j (c ∷ cs) h = ground (arith, unheld_awaited j cs)

-- A pick further down is a pick among the rest.
pub pick-suc :
    (x : Call) (cs : List Call) (k : ℕ) (c : Call) (others : List Call)
    → pick (x ∷ cs) (suc k) ≡ some (c, others)
    → (rest : List Call) × (pick cs k ≡ some (c, rest)) × (others ≡ x ∷ rest)
unfolding pick
pick-suc x cs k c others e = elim (Option-cases (pick cs k)) [
  | inl q ↦ absurd (ground (arith, q))
  | inr (p, q) ↦ (p.1, ground (arith, q), ground (arith, q))
]

pub pick-holders :
    (cs : List Call) (k : ℕ) (c : Call) (others : List Call)
    → pick cs k ≡ some (c, others)
    → (j : ℕ) → holders j cs ≡ holders j (c ∷ others)
unfolding holders pick
pick-holders [] k c others e j = absurd (ground arith)
pick-holders (x ∷ cs) zero c others e j = ground arith
pick-holders (x ∷ cs) (suc k) c others e j =
    let (rest, e', o) = pick-suc x cs k c others e in
    ground (arith, o, pick-holders cs k c rest e' j)

-- What a pick leaves waits under the same ids, as long as no other call has the picked call's id.
pub pick-awaited :
    (cs : List Call) (k : ℕ) (c : Call) (others : List Call)
    → pick cs k ≡ some (c, others)
    → (j : ℕ) → holders j cs ≤ 1
    → awaited j cs ≡ awaited j (c ∷ others)
unfolding holders awaited pick
pick-awaited [] k c others e j h = absurd (ground arith)
pick-awaited (x ∷ cs) zero c others e j h = ground arith
pick-awaited (x ∷ cs) (suc k) c others e j h =
    let (rest, e', o) = pick-suc x cs k c others e in
    let same = pick-holders cs k c rest e' j in
    ground (
      arith,
      o,
      same,
      pick-awaited cs k c rest e' j,
      unheld_awaited j cs,
      unheld_awaited j (c ∷ rest),
    )

pub pick-length :
    (cs : List Call) (k : ℕ) (c : Call) (others : List Call)
    → pick cs k ≡ some (c, others)
    → length cs ≡ suc (length others)
unfolding pick
pick-length [] k c others e = absurd (ground arith)
pick-length (x ∷ cs) zero c others e = ground arith
pick-length (x ∷ cs) (suc k) c others e =
    let (rest, e', o) = pick-suc x cs k c others e in ground (arith, o, pick-length cs k c rest e')

-- Initially each byte is free once.
count-ids_from : (j x n : ℕ) → count j (ids_from x n) ≡ bit (leb x j && ltb j (x + n))
unfolding count ids_from
count-ids_from j x zero = ground arith
count-ids_from j x (suc n) = ground (arith, count-ids_from j (suc x) n)

pub length-ids_from : (x n : ℕ) → length (ids_from x n) ≡ n
unfolding ids_from
length-ids_from x zero = refl
length-ids_from x (suc n) = omega (arith, length-ids_from (suc x) n)

pub start-IsConsistent : IsConsistent start
unfolding start holders awaited
start-IsConsistent = (
  λ j. ground (arith, count-ids_from j 0 capacity),
  λ j. refl,
  ground (arith, length-ids_from 0 capacity),
)
