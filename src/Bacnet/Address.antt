-- ===== src/Bacnet/Address.antt =====
-- bacnet/types.go: the address of a device, and its two conversions with UDP addresses.
use baetyl_bacnet.Common.{
  ℕ, ◌<◌, ◌≡◌, List, [], ◌∷◌, ◌++◌, arith, length, take, drop, leb, if◌then◌else◌, refl, ◌%◌,
}
use baetyl_bacnet.Common.Go.{Outcome, returns, panics}
use baetyl_bacnet.Encoding.Bytes.{uint16_bytes, big_endian}

-- `mac` is the IP address and the port; `net` is a uint16, 0 for the local network.
pub record Address : Type 0 where
  pub mac : List ℕ
  pub net : ℕ
  pub adr : List ℕ

-- net.UDPAddr without its zone, which is always empty here.
pub record UdpAddr : Type 0 where
  pub ip : List ℕ
  pub port : ℕ

unfoldable pub address_from_udp : UdpAddr → Address
address_from_udp udp = record { mac = udp.ip ++ uint16_bytes (udp.port % 65536); net = 0; adr = [] }

-- `addr.Mac[4:]` and the read of a uint16 there panic on fewer than six bytes.
unfoldable pub udp_from_address : Address → Outcome UdpAddr
udp_from_address addr =
    if leb 6 (length addr.mac)
    then returns (record { ip = take 4 addr.mac; port = big_endian (take 2 (drop 4 addr.mac)) })
    else panics

four_items : (xs : List ℕ) → length xs ≡ 4 → (a b c d : ℕ) × (xs ≡ a ∷ b ∷ c ∷ d ∷ [])
four_items (a ∷ b ∷ c ∷ d ∷ []) h = (a, b, c, d, refl)
four_items (a ∷ b ∷ c ∷ d ∷ e ∷ xs) h = absurd (omega arith)
four_items _ h = absurd (omega arith)

-- An IPv4 address and port survive the way to a BACnet address and back.
pub udp_from_address-address_from_udp :
    (udp : UdpAddr)
    → length udp.ip ≡ 4
    → udp.port < 65536
    → udp_from_address (address_from_udp udp) ≡ returns udp
unfolding udp_from_address address_from_udp
udp_from_address-address_from_udp udp h p =
    let (a, b, c, d, e) = four_items udp.ip h in ground arith
