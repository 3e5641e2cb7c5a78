-- ===== src/Encoding/Bytes.antt =====
-- Go's encoding/binary over big-endian unsigned integers: what `binary.Write` appends, and the
-- number that `binary.Read` makes of the bytes.
use Prim.Native.Nat.{ℕ, ◌+◌, ◌*◌, ◌/◌, ◌%◌, ◌<◌}
use mathlib.Core.Path.{◌≡◌}
use mathlib.Core.List.{List, [], ◌∷◌, foldl}
use native.Mathlib.Omega.{arith}
use baetyl_bacnet.Common.{All}

abbrev pub IsByte : ℕ → Type 0
IsByte b = b < 256

abbrev pub IsU16 : ℕ → Type 0
IsU16 v = v < 65536

abbrev pub IsU32 : ℕ → Type 0
IsU32 v = v < 4294967296

-- `binary.Write(buf, binary.BigEndian, uint16(v))` and the same for a uint32.
abbrev pub uint16_bytes : ℕ → List ℕ
uint16_bytes v = (v / 256 % 256) ∷ (v % 256) ∷ []

abbrev pub uint32_bytes : ℕ → List ℕ
uint32_bytes v = (v / 16777216 % 256) ∷ (v / 65536 % 256) ∷ (v / 256 % 256) ∷ (v % 256) ∷ []

abbrev pub big_endian : List ℕ → ℕ
big_endian = foldl (λ acc x. acc * 256 + x) 0

pub big_endian-uint16_bytes : (v : ℕ) → IsU16 v → big_endian (uint16_bytes v) ≡ v
big_endian-uint16_bytes v h = omega arith

pub big_endian-uint32_bytes : (v : ℕ) → IsU32 v → big_endian (uint32_bytes v) ≡ v
big_endian-uint32_bytes v h = omega arith

pub uint16_bytes-IsByte : (v : ℕ) → All IsByte (uint16_bytes v)
uint16_bytes-IsByte v = omega arith

pub uint32_bytes-IsByte : (v : ℕ) → All IsByte (uint32_bytes v)
uint32_bytes-IsByte v = omega arith
