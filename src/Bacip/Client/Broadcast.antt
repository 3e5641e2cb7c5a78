-- ===== src/Bacip/Client/Broadcast.antt =====
-- The broadcast address of a network, and of a client.
use baetyl_bacnet.Common.{
  Among, true, subst, inl, inr, refl, none, some, Option, List, [], ◌∷◌, Bool-cases, if◌then◌else◌,
  ◌==◌, ℕ, ◌+◌, ◌-◌, ◌*◌, ◌/◌, ◌%◌, ◌^◌, ◌≤◌, ◌≡◌, sym, ap, ◌∙◌, arith, bit_or,
}
use native.Mathlib.Nat.{one-le-pow, mod-lt, div-add-mod'}
use baetyl_bacnet.Common.Bits.Wide.{bit_or-ones}
use baetyl_bacnet.Common.Go.{Error, Result, ok, err, Outcome, returns, Outcome-cases}
use baetyl_bacnet.Encoding.Bytes.{IsU32, uint32_bytes, big_endian, big_endian-uint32_bytes}
use baetyl_bacnet.Bacip.Client.Interface.{
  IpNet, broadcast_addr, complement, Binding, contains, network_of, new_client_by_ip,
}

-- An IPv4 network by its address and how many bits count the hosts.
abbrev pub network : ℕ → ℕ → IpNet
network v k = record { ip = uint32_bytes v; mask = uint32_bytes (4294967296 - 2 ^ k) }

-- The complement of a mask are its host bits.
mask-complement :
    (k : ℕ)
    → 2 ^ k ≤ 4294967296
    → complement (big_endian (uint32_bytes (4294967296 - 2 ^ k))) ≡ 2 ^ k - 1
mask-complement k kh =
    let one = one-le-pow k 2 (omega arith) in
    omega (arith, big_endian-uint32_bytes (4294967296 - 2 ^ k) (omega arith))

-- An address with the host bits added.
host_bits : (v k : ℕ) → bit_or v (2 ^ k - 1) ≡ v / 2 ^ k * 2 ^ k + (2 ^ k - 1)
host_bits v k =
    sym (ap (λ x. bit_or x (2 ^ k - 1)) (div-add-mod' v (2 ^ k)))
    ∙ bit_or-ones k (v / 2 ^ k) (v % 2 ^ k) (mod-lt v (one-le-pow k 2 (omega arith)))

-- `broadcastAddr` of an IPv4 network whose last k bits count the hosts is its highest address: the
-- network's bits of the address, and ones behind them.
pub broadcast_addr-network :
    (v k : ℕ)
    → IsU32 v
    → 2 ^ k ≤ 4294967296
    → broadcast_addr (network v k) ≡ returns (ok (uint32_bytes (v / 2 ^ k * 2 ^ k + (2 ^ k - 1))))
unfolding broadcast_addr
broadcast_addr-network v k h kh =
    ap
      (λ x. returns (
        ok (uint32_bytes (bit_or x (complement (big_endian (uint32_bytes (4294967296 - 2 ^ k))))))))
      (big_endian-uint32_bytes v h)
    ∙ ap (λ x. returns (ok (uint32_bytes (bit_or v x)))) (mask-complement k kh)
    ∙ ap (λ x. returns (ok (uint32_bytes x))) (host_bits v k)

-- The network that a broadcast address was taken from.
abbrev pub IsFrom : List ℕ → List (Option IpNet) → List ℕ → IpNet → Type 0
IsFrom ip adrs addr n =
    Among (some n) adrs × (contains n ip ≡ true) × (broadcast_addr n ≡ returns (ok addr))

broadcast_found :
    (n : IpNet) (r : Result (List ℕ)) (addr : List ℕ)
    → broadcast_addr n ≡ returns r
    → ◌≡◌ {A = Outcome (Result (Option (List ℕ)))}
        (returns (elim r [ ok a ↦ ok (some a) | err e ↦ err e ]))
        (returns (ok (some addr)))
    → broadcast_addr n ≡ returns (ok addr)
broadcast_found n (ok a) addr b e =
    let same : a ≡ addr = ground arith in rw b (ap (λ x. returns (ok x)) same)
broadcast_found n (err x) addr b e = absurd (ground arith)

network_of-IsFrom :
    (ip : List ℕ) (adrs : List (Option IpNet)) (addr : List ℕ)
    → network_of ip adrs ≡ returns (ok (some addr))
    → (n : IpNet) × IsFrom ip adrs addr n
unfolding network_of
network_of-IsFrom ip [] addr e = absurd (ground (arith, e))
network_of-IsFrom ip (none ∷ adrs) addr e =
    let (n, f) = network_of-IsFrom ip adrs addr e in let (a, c, b) = f in (n, (inr a, c, b))
network_of-IsFrom ip (some n ∷ adrs) addr e = elim (Bool-cases (contains n ip)) [
  | inl q ↦ elim (Outcome-cases (broadcast_addr n)) [
    | inl (r, b) ↦ (n, (inl refl, q, broadcast_found n r addr b (rw (q, b) at e)))
    | inr b ↦ absurd (ground (arith, q, b, e))
  ]
  | inr q ↦
      let (m, f) = network_of-IsFrom ip adrs addr (rw q at e) in
      let (a, c, b) = f in (m, (inr a, c, b))
]

-- A client that `NewClientByIp` makes has the address asked for, the broadcast address of a network
-- of the interfaces that has this address, and the port asked for, or 47808 in place of 0.
pub new_client_by_ip-IsFrom :
    (listens : Option Error) (adrs : List (Option IpNet)) (ip : List ℕ) (port : ℕ) (b : Binding)
    → new_client_by_ip listens adrs ip port ≡ returns (ok b)
    → (n : IpNet) × IsFrom ip adrs b.broadcast_address n
      × (b.ip_address ≡ ip)
      × (b.udp_port ≡ (if port == 0 then 47808 else port))
unfolding new_client_by_ip
new_client_by_ip-IsFrom listens adrs ip port b e = elim (Outcome-cases (network_of ip adrs)) [
  | inl (ok (some addr), q) ↦
      let (n, f) = network_of-IsFrom ip adrs addr q in
      let same : addr ≡ b.broadcast_address = ground (arith, q, e) in
      (
        n,
        subst (λ (x : List ℕ). IsFrom ip adrs x n) same f,
        ground (arith, q, e),
        ground (arith, q, e),
      )
  | inl (ok none, q) ↦ absurd (ground (arith, q, e))
  | inl (err x, q) ↦ absurd (ground (arith, q, e))
  | inr q ↦ absurd (ground (arith, q, e))
]
