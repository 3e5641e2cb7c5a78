-- ===== src/Encoding/Buffer.antt =====
-- Go's bytes.Buffer on its reading side, as the decoder uses it: `ReadByte`, `Read`, `UnreadByte`,
-- and `binary.Read`, which fills its bytes by `io.ReadFull`.
use Prim.Native.Nat.{◌*◌, ◌+◌}
use baetyl_bacnet.Common.{
  ℕ, zero, suc, ◌<◌, ◌≡◌, refl, ◌∙◌, Bool, true, false, List, [], ◌∷◌, ◌++◌, Option, none, some,
  String, arith, length, length-append, take, drop, rev_onto, take-length-append,
  drop-length-append, leb, if◌then◌else◌,
}
use baetyl_bacnet.Common.Go.{Error, eof, unexpected_eof, unread_byte, wrapped, Result, ok, err}
use baetyl_bacnet.Encoding.Bytes.{big_endian}

-- `rest` is buf[off:], `back` is buf[:off] with the last byte first, and `can_unread` says that
-- `lastRead` is not `opInvalid`.
pub record Buffer : Type 0 where
  pub back : List ℕ
  pub rest : List ℕ
  pub can_unread : Bool

abbrev pub reading : List ℕ → List ℕ → Bool → Buffer
reading back rest can_unread = record { back = back; rest = rest; can_unread = can_unread }

abbrev pub new_buffer : List ℕ → Buffer
new_buffer b = reading [] b false

-- A read of an empty buffer resets it.
abbrev pub drained : Buffer
drained = reading [] [] false

abbrev pub Reader : Type 0 → Type 0
Reader A = Buffer → Result A × Buffer

abbrev pub after : {A B : Type 0} → Result A × Buffer → (A → Reader B) → Result B × Buffer
after (ok a, b) f = f a b
after (err e, b) f = (err e, b)

infixl 5 ◌>>=◌
abbrev pub ◌>>=◌ : {A B : Type 0} → Reader A → (A → Reader B) → Reader B
◌>>=◌ m f b = after (m b) f

abbrev pub done : {A : Type 0} → A → Reader A
done a b = (ok a, b)

-- `fmt.Errorf("…: %w", err)` on the error of a read.
abbrev relabel : {A : Type 0} → String → Result A × Buffer → Result A × Buffer
relabel s (ok a, b) = (ok a, b)
relabel s (err e, b) = (err (wrapped s e), b)

abbrev pub wrapping : {A : Type 0} → String → Reader A → Reader A
wrapping s m b = relabel s (m b)

abbrev pub fail : {A : Type 0} → Error → Reader A
fail e b = (err e, b)

-- buf.ReadByte()
unfoldable pub read_byte : Reader ℕ
read_byte b = elim b.rest [
  | [] ↦ (err eof, drained)
  | x ∷ xs ↦ (ok x, reading (x ∷ b.back) xs true)
]

-- io.ReadFull(buf, bs) for a slice of `n` bytes: for none it does not touch the buffer.
unfoldable pub read_full : ℕ → Reader (List ℕ)
read_full zero b = (ok [], b)
read_full (suc n) b =
    if leb (suc n) (length b.rest)
    then (
      ok (take (suc n) b.rest),
      reading (rev_onto (take (suc n) b.rest) b.back) (drop (suc n) b.rest) true,
    )
    else (err (elim b.rest [ [] ↦ eof | _ ∷ _ ↦ unexpected_eof ]), drained)

-- binary.Read(buf, binary.BigEndian, &v) for an unsigned integer of `n` bytes.
unfoldable pub read_uint : ℕ → Reader ℕ
unfolding read_full
read_uint n = do bs ← read_full n; done (big_endian bs)

-- buf.UnreadByte(): it wants a read just before, and forbids a second call.
unfoldable pub unread_one : Buffer → Option Error × Buffer
unread_one b =
    if b.can_unread
    then (
      none,
      elim b.back [ [] ↦ reading [] b.rest false | x ∷ xs ↦ reading xs (x ∷ b.rest) false ],
    )
    else (some unread_byte, b)

pub read_full-append :
    (x : ℕ) (xs back rest : List ℕ) (u : Bool)
    → read_full (length (x ∷ xs)) (reading back ((x ∷ xs) ++ rest) u)
      ≡ (ok (x ∷ xs), reading (rev_onto (x ∷ xs) back) rest true)
unfolding read_full
read_full-append x xs back rest u =
    ground (arith, length-append xs rest, take-length-append xs rest, drop-length-append xs rest)

-- binary.Read of one and of two bytes that are there.
pub read_uint_one :
    (x : ℕ) (back rest : List ℕ) (u : Bool)
    → read_uint 1 (reading back (x ∷ rest) u) ≡ (ok x, reading (x ∷ back) rest true)
unfolding read_uint
read_uint_one x back rest u = ground arith

pub read_uint_two :
    (x y : ℕ) (back rest : List ℕ) (u : Bool)
    → read_uint 2 (reading back (x ∷ y ∷ rest) u)
      ≡ (ok (x * 256 + y), reading (y ∷ x ∷ back) rest true)
unfolding read_uint
read_uint_two x y back rest u = ground arith

-- A read of more than there is drains the buffer.
pub read_full_short :
    (n : ℕ) (b : Buffer)
    → length b.rest < suc n
    → (e : Error) × (read_full (suc n) b ≡ (err e, drained))
unfolding read_full
read_full_short n b h = (elim b.rest [ [] ↦ eof | _ ∷ _ ↦ unexpected_eof ], ground arith)

-- Inversion of a chain of reads that succeeds.
pub after-ok :
    {A B : Type 0} (r : Result A × Buffer) (f : A → Reader B) {c : B} {b' : Buffer}
    → after r f ≡ (ok c, b')
    → (a : A) × (b : Buffer) × (r ≡ (ok a, b)) × (f a b ≡ (ok c, b'))
after-ok (ok a, b) f h = (a, b, refl, h)
after-ok (err e, b) f h = cc

pub wrapping-ok :
    {A : Type 0} (s : String) (m : Reader A) (b : Buffer) {a : A} {b' : Buffer}
    → wrapping s m b ≡ (ok a, b')
    → m b ≡ (ok a, b')
wrapping-ok {A} s m b {a} {b'} h = go (m b) refl h
  where
    go : (r : Result A × Buffer) → m b ≡ r → relabel s r ≡ (ok a, b') → m b ≡ (ok a, b')
    go (ok x, b1) e k = e ∙ k
    go (err x, b1) e k = cc
