-- ===== src/Bacnet/Names.antt =====
-- The names of the package's enumerations: what a generated String method does, and the text that
-- a table of constants gives.
pub mod Objects
pub mod Errors
pub mod Properties
pub mod Units
use Prim.Native.Char.{code}
use text.Mathlib.Text.{get?}
use baetyl_bacnet.Common.{
  ℕ, zero, suc, ◌+◌, ◌<◌, ◌≤◌, ◌≡◌, ◌≢◌, refl, ap, sym, ◌∙◌, List, [], ◌∷◌, ◌++◌, Option, none,
  some, String, Bool, true, false, ◌&&◌, arith, ltb, leb, ◌==◌, if◌then◌else◌, Bool-cases, inl, inr,
}
use baetyl_bacnet.Common.Go.{Outcome, returns, panics}
use baetyl_bacnet.Common.Text.{Text, bytes_of, same_text, same_text-eq, format_uint}

abbrev nth : List ℕ → ℕ → Option ℕ
nth [] i = none
nth (x ∷ xs) zero = some x
nth (x ∷ xs) (suc i) = nth xs i

-- `names[a:b]`, which panics out of range.
abbrev cut : Option String → Outcome Text
cut none = panics
cut (some s) = returns (bytes_of s)

abbrev piece : String → Option ℕ → Option ℕ → Outcome Text
piece names (some a) (some b) = cut (get? names a b)
piece names _ _ = panics

-- `names[index[i]:index[i+1]]`
unfoldable pub piece_at : String → List ℕ → ℕ → Outcome Text
piece_at names index i = piece names (nth index i) (nth index (i + 1))

-- `kind + "(" + strconv.FormatInt(int64(i), 10) + ")"` for a number that is not negative.
unfoldable pub numbered : String → ℕ → Text
numbered kind i = bytes_of kind ++ 40 ∷ (format_uint i ++ 41 ∷ [])

-- The name of the first constant with this value, and the value in decimal if there is none.
unfoldable pub name_of : Text → List (String × ℕ) → ℕ → Text
name_of other [] i = other
name_of other ((s, v) ∷ cs) i = let rest = name_of other cs i in if v == i then bytes_of s else rest

abbrev pub text_of : String → List (String × ℕ) → ℕ → Text
text_of kind constants i = name_of (numbered kind i) constants i

-- A check by evaluation that a method gives these texts below a bound.
abbrev pub agrees : Outcome Text → Text → Bool
agrees panics t = false
agrees (returns s) t = same_text s t

agrees-eq : (o : Outcome Text) (t : Text) → agrees o t ≡ true → o ≡ returns t
agrees-eq panics t h = absurd (ground arith)
agrees-eq (returns s) t h = ap returns (same_text-eq s t h)

unfoldable pub are_below : ℕ → List (String × ℕ) → Bool
are_below n [] = true
are_below n ((s, v) ∷ cs) = ltb v n && are_below n cs

name_of-above :
    (n : ℕ) (other : Text) (cs : List (String × ℕ)) (i : ℕ)
    → are_below n cs ≡ true
    → n ≤ i
    → name_of other cs i ≡ other
unfolding are_below name_of
name_of-above n other [] i h k = refl
name_of-above n other ((s, v) ∷ cs) i h k = ground (arith, name_of-above n other cs i)

-- The tests of the methods fail above their ranges.
pub not_less : (i n : ℕ) → n ≤ i → ltb i n ≡ false
not_less i n h = ground arith

pub not_in_front : (i n : ℕ) → n < i → leb i n ≡ false
not_in_front i n h = ground arith

pub not_between : (a i b : ℕ) → b < i → (leb a i && leb i b) ≡ false
not_between a i b h = ground arith

pub not_equal : (i n : ℕ) → n < i → (i == n) ≡ false
not_equal i n h = ground arith

module _ (f : ℕ → Outcome Text) (kind : String) (constants : List (String × ℕ)) where
  unfoldable pub agrees_below : ℕ → Bool
  agrees_below zero = true
  agrees_below (suc n) =
      let rest = agrees_below n in if agrees (f n) (text_of kind constants n) then rest else false

  pub agrees_below→eq :
      (n : ℕ) → agrees_below n ≡ true → (i : ℕ) → i < n → f i ≡ returns (text_of kind constants i)
  unfolding agrees_below
  agrees_below→eq zero e i h = absurd (omega arith)
  agrees_below→eq (suc n) e i h =
      ground (arith, agrees_below→eq n (ground arith) i, agrees-eq (f n) (text_of kind constants n))

  -- A method that agrees below a bound, and gives the number from there on.
  pub everywhere :
      (n : ℕ)
      → agrees_below n ≡ true
      → are_below n constants ≡ true
      → ((i : ℕ) → n ≤ i → f i ≡ returns (numbered kind i))
      → (i : ℕ) → f i ≡ returns (text_of kind constants i)
  everywhere n e b g i = elim (Bool-cases (ltb i n)) [
    | inl q ↦ agrees_below→eq n e i (ground arith)
    | inr q ↦
        g i (ground arith)
        ∙ ap returns (sym (name_of-above n (numbered kind i) constants i b (ground arith)))
  ]
