-- ===== src/Encoding/Encoder/Unsigned.antt =====
-- internal/encoding/encoding.go: the shortest big-endian form of a uint32.
use baetyl_bacnet.Common.{ℕ, ◌/◌, ◌%◌, List, [], ◌∷◌, ltb, if◌then◌else◌}
use baetyl_bacnet.Encoding.Bytes.{uint16_bytes, uint32_bytes}

unfoldable pub value_length : ℕ → ℕ
value_length v =
    if ltb v 0x100 then 1 else if ltb v 0x10000 then 2 else if ltb v 0x1000000 then 3 else 4

-- What `unsigned` appends to the buffer; the number of bytes that it returns is not used.
unfoldable pub unsigned_bytes : ℕ → List ℕ
unsigned_bytes v =
    if ltb v 0x100
    then (v % 256) ∷ []
    else if ltb v 0x10000
    then uint16_bytes (v % 65536)
    else if ltb v 0x1000000
    then (v / 65536 % 256) ∷ uint16_bytes (v % 65536)
    else uint32_bytes v
