-- ===== src/Bacip/Client/Interface.antt =====
-- bacip/client.go: the addresses of a new client, chosen from those of the network interfaces.
use baetyl_bacnet.Common.{
  ℕ, ◌-◌, List, [], ◌∷◌, Option, none, some, Bool, true, ◌==◌, ◌&&◌, length, take, drop, bit_and,
  bit_or, if◌then◌else◌,
}
use baetyl_bacnet.Common.Go.{Error, message, Result, ok, err, Outcome, returns, panics, ◌>>=◌}
use baetyl_bacnet.Encoding.Bytes.{uint32_bytes, big_endian}
use baetyl_bacnet.Bacip.Client.Requests.{default_udp_port}

-- net.IPNet: an address and a mask, each of 4 or 16 bytes.
pub record IpNet : Type 0 where
  pub ip : List ℕ
  pub mask : List ℕ

abbrev pub all_zero : List ℕ → Bool
all_zero [] = true
all_zero (x ∷ xs) = x == 0 && all_zero xs

-- net.IP.To4: none for nil. An IPv4 address may stand behind 80 zeros and 16 ones.
unfoldable pub to4 : List ℕ → Option (List ℕ)
to4 ip =
    if length ip == 4
    then some ip
    else if length ip == 16 && all_zero (take 10 ip) && big_endian (take 2 (drop 10 ip)) == 65535
    then some (drop 12 ip)
    else none

-- `binary.BigEndian.Uint32` panics on fewer than four bytes, such as those of nil.
abbrev pub uint32_of : Option (List ℕ) → Outcome ℕ
uint32_of none = panics
uint32_of (some bytes) = returns (big_endian (take 4 bytes))

abbrev pub complement : ℕ → ℕ
complement v = 4294967295 - v

unfoldable pub broadcast_addr : IpNet → Outcome (Result (List ℕ))
unfolding to4
broadcast_addr n = elim (to4 n.ip) [
  | none ↦ returns (err (message "does not support IPv6 addresses"))
  | some ip ↦ do
    mask ← uint32_of (to4 n.mask)
    returns (ok (uint32_bytes (bit_or (big_endian ip) (complement mask))))
]

-- What a client is made with.
pub record Binding : Type 0 where
  pub ip_address : List ℕ
  pub broadcast_address : List ℕ
  pub udp_port : ℕ

abbrev pub port_or_default : ℕ → ℕ
port_or_default port = if port == 0 then default_udp_port else port

-- The first IPv4 address of the interface and its broadcast address; an address that cannot be
-- parsed ends the search, and an IPv6 address is left out.
unfoldable pub first_ip4 :
    List (Result (List ℕ × IpNet)) → Outcome (Result (Option (List ℕ × List ℕ)))
unfolding broadcast_addr
first_ip4 [] = returns (ok none)
first_ip4 (err e ∷ adrs) = returns (err e)
first_ip4 (ok (ip, n) ∷ adrs) = elim (to4 ip) [
  | none ↦ first_ip4 adrs
  | some ip4 ↦ do
    b ← broadcast_addr n
    returns (elim b [ ok addr ↦ ok (some (ip4, addr)) | err e ↦ err e ])
]

-- net.ListenUDP is an argument: its error.
abbrev pub bound : Option Error → Binding → Result Binding
bound none b = ok b
bound (some e) b = err e

abbrev pub bind_found : Option Error → ℕ → Result (Option (List ℕ × List ℕ)) → Result Binding
bind_found listens port (err e) = err e
bind_found listens port (ok none) = err (message "no IPv4 address assigned to interface %s")
bind_found listens port (ok (some (ip, addr))) =
    bound listens
      (record { ip_address = ip; broadcast_address = addr; udp_port = port_or_default port })

-- NewClient from the addresses of the interface, parsed.
unfoldable pub new_client :
    Option Error → List (Result (List ℕ × IpNet)) → ℕ → Outcome (Result Binding)
unfolding first_ip4
new_client listens adrs port =
    if length adrs == 0
    then returns (err (message "interface %s has no addresses"))
    else (do r ← first_ip4 adrs; returns (bind_found listens port r))

-- net.IPNet.Contains.
abbrev pub same_masked : List ℕ → List ℕ → List ℕ → Bool
same_masked (m ∷ ms) (x ∷ xs) (y ∷ ys) = bit_and x m == bit_and y m && same_masked ms xs ys
same_masked _ _ _ = true

abbrev pub shortest : List ℕ → List ℕ
shortest ip = elim (to4 ip) [ none ↦ ip | some ip4 ↦ ip4 ]

-- The mask for an address of its length, or none if one of them has another length than those of IP.
abbrev pub mask_for : List ℕ → List ℕ → Option (List ℕ)
mask_for ip mask =
    if length mask == 4 && length ip == 4
    then some mask
    else if length mask == 16 && length ip == 4
    then some (drop 12 mask)
    else if length mask == 16 && length ip == 16
    then some mask
    else none

unfoldable pub contains : IpNet → List ℕ → Bool
unfolding to4
contains n ip = elim (mask_for (shortest n.ip) n.mask) [
  | none ↦ length (shortest ip) == 0
  | some mask ↦
      length (shortest ip) == length (shortest n.ip)
      && same_masked mask (shortest n.ip) (shortest ip)
]

-- The broadcast address of the first network that has the client's address; none stands for an
-- address of another type.
unfoldable pub network_of : List ℕ → List (Option IpNet) → Outcome (Result (Option (List ℕ)))
unfolding contains broadcast_addr
network_of ip [] = returns (ok none)
network_of ip (none ∷ adrs) = network_of ip adrs
network_of ip (some n ∷ adrs) =
    let rest = network_of ip adrs in
    if contains n ip
    then (do b ← broadcast_addr n; returns (elim b [ ok addr ↦ ok (some addr) | err e ↦ err e ]))
    else rest

abbrev pub bind_network : Option Error → List ℕ → ℕ → Result (Option (List ℕ)) → Result Binding
bind_network listens ip port (err e) = err e
bind_network listens ip port (ok none) = err (message "broadcast address not found")
bind_network listens ip port (ok (some addr)) =
    bound listens
      (record { ip_address = ip; broadcast_address = addr; udp_port = port_or_default port })

-- NewClientByIp with the parsed address, which is empty if it could not be parsed.
unfoldable pub new_client_by_ip :
    Option Error → List (Option IpNet) → List ℕ → ℕ → Outcome (Result Binding)
unfolding network_of
new_client_by_ip listens adrs ip port = do
  r ← network_of ip adrs
  returns (bind_network listens ip port r)
