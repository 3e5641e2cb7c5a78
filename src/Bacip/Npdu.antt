-- ===== src/Bacip/Npdu.antt =====
-- bacip/network_types.go: the network layer packet.
pub mod Fields
pub mod RoundTrip
use baetyl_bacnet.Common.{
  ℕ, zero, suc, ◌+◌, ◌%◌, List, [], ◌∷◌, ◌++◌, Option, none, some, ◌==◌, not, ltb, leb, Bool, true,
  false, String, length, bit_and, if◌then◌else◌,
}
use baetyl_bacnet.Common.Go.{Error, message, Result, ok, err, Outcome, returns, ◌>>=◌}
use baetyl_bacnet.Bacnet.Address.{Address}
use baetyl_bacnet.Encoding.Bytes.{uint16_bytes}
use baetyl_bacnet.Encoding.Buffer.{Buffer, new_buffer, read_byte, read_uint, read_full}
use baetyl_bacnet.Bacip.Apdu.{
  Apdu, new_apdu, Left, attempt, then_prefix, marshal_apdu, unmarshal_apdu,
}

abbrev pub version1 : ℕ
version1 = 1

abbrev pub normal : ℕ
normal = 0

pub record Npdu : Type 0 where
  pub version : ℕ
  pub is_network_layer_message : Bool
  pub expecting_reply : Bool
  pub priority : ℕ
  pub destination : Option Address
  pub source : Option Address
  pub hop_count : ℕ
  pub network_message_type : ℕ
  pub vendor_id : ℕ
  pub adpu : Option Apdu

abbrev pub new_npdu : Npdu
new_npdu = record {
  version = 0;
  is_network_layer_message = false;
  expecting_reply = false;
  priority = 0;
  destination = none;
  source = none;
  hop_count = 0;
  network_message_type = 0;
  vendor_id = 0;
  adpu = none;
}

-- An address is written if it is there and not on the local network.
abbrev pub is_remote : Option Address → Bool
is_remote none = false
is_remote (some a) = not (a.net == 0)

unfoldable pub control_byte : Npdu → ℕ
control_byte n =
    (if n.is_network_layer_message then 128 else 0)
    + (if n.expecting_reply then 4 else 0)
    + n.priority
    + (if is_remote n.destination then 32 else 0)
    + (if is_remote n.source then 8 else 0)

abbrev pub address_bytes : Option Address → List ℕ
address_bytes none = []
address_bytes (some a) =
    if not (a.net == 0) then uint16_bytes a.net ++ (length a.adr % 256) ∷ a.adr else []

abbrev pub hop_bytes : Npdu → List ℕ
hop_bytes n = if is_remote n.destination then n.hop_count ∷ [] else []

abbrev pub network_message_bytes : Npdu → List ℕ
network_message_bytes n =
    if n.is_network_layer_message
    then n.network_message_type
      ∷ (if leb 0x80 n.network_message_type then uint16_bytes n.vendor_id else [])
    else []

unfoldable pub npdu_front : Npdu → List ℕ
unfolding control_byte
npdu_front n =
    n.version
    ∷ control_byte n
    ∷ (address_bytes n.destination
        ++ (address_bytes n.source ++ (hop_bytes n ++ network_message_bytes n)))

abbrev pub append_apdu : List ℕ → Option Apdu → Outcome (Result (List ℕ))
append_apdu front none = returns (ok front)
append_apdu front (some a) = do bytes ← marshal_apdu a; returns (then_prefix front bytes)

unfoldable pub marshal_npdu : Npdu → Outcome (Result (List ℕ))
unfolding npdu_front
marshal_npdu n =
    if ltb 3 n.priority
    then returns (err (message "invalid Priority %d"))
    else append_apdu (npdu_front n) n.adpu

abbrev pub zeros : ℕ → List ℕ
zeros zero = []
zeros (suc n) = 0 ∷ zeros n

-- The three reads of an address, each into the field behind the new pointer.
unfoldable pub read_address :
    String → String → (Address → Npdu) → Buffer → (Npdu → Buffer → Left Npdu) → Left Npdu
read_address net_text len_text put b k =
    attempt (put (record { mac = []; net = 0; adr = [] })) net_text (read_uint 2 b) λ net b1.
      attempt (put (record { mac = []; net = net; adr = [] })) len_text (read_uint 1 b1) λ len b2.
        attempt (put (record { mac = []; net = net; adr = zeros len })) net_text (read_full len b2)
          λ adr b3. k (put (record { mac = []; net = net; adr = adr })) b3

unfoldable pub read_vendor : Npdu → Buffer → Left Npdu
read_vendor n b =
    if ltb 0x80 n.network_message_type
    then (attempt n "read NPDU VendorId" (read_uint 2 b)
        λ v b'. returns (record n { vendor_id = v }, none))
    else returns (n, none)

abbrev pub keep_apdu : Npdu → Apdu × Option Error → Npdu × Option Error
keep_apdu n (a, e) = (record n { adpu = some a }, e)

-- What follows the addresses and the hop count.
unfoldable pub read_body : Npdu → Buffer → Left Npdu
read_body n b =
    if n.is_network_layer_message
    then (attempt n "read NPDU NetworkMessageType" (read_uint 1 b)
        λ t b'. read_vendor (record n { network_message_type = t }) b')
    else (do r ← unmarshal_apdu new_apdu b.rest; returns (keep_apdu n r))

abbrev pub is_some : Option Address → Bool
is_some none = false
is_some (some a) = true

unfoldable pub read_hops : Npdu → Buffer → Left Npdu
read_hops n b =
    if is_some n.destination
    then (attempt n "read NPDU HopCount" (read_uint 1 b)
        λ h b'. read_body (record n { hop_count = h }) b')
    else read_body n b

unfoldable pub read_source : ℕ → Npdu → Buffer → Left Npdu
read_source control n b =
    if ltb 0 (bit_and control 8)
    then read_address "read NPDU src Address.Net" "read NPDU src Address.Len"
        (λ a. record n { source = some a }) b read_hops
    else read_hops n b

unfoldable pub read_destination : ℕ → Npdu → Buffer → Left Npdu
read_destination control n b =
    if ltb 0 (bit_and control 32)
    then read_address "read NPDU dest Address.Net" "read NPDU dest Address.Len"
        (λ a. record n { destination = some a }) b (read_source control)
    else read_source control n b

abbrev pub with_control : ℕ → Npdu → Npdu
with_control control n = record n {
  is_network_layer_message =
      (if ltb 0 (bit_and control 128) then true else n.is_network_layer_message);
  expecting_reply = (if ltb 0 (bit_and control 4) then true else n.expecting_reply);
  priority = bit_and control 3;
}

unfoldable pub unmarshal_npdu : Npdu → List ℕ → Left Npdu
unmarshal_npdu n bytes = attempt n "read NPDU version" (read_uint 1 (new_buffer bytes)) λ version b.
    let n1 = record n { version = version } in
    if version == version1
    then (attempt n1 "read NPDU control byte" (read_byte b)
        λ control b'. read_destination control (with_control control n1) b')
    else returns (n1, some (message "invalid NPDU version %d"))
