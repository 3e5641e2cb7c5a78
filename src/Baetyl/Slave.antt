-- ===== src/Baetyl/Slave.antt =====
-- baetyl-bacnet/slave.go: the slave of a device, with the client and the devices that all slaves share.
pub mod Found
use baetyl_bacnet.Common.{
  ℕ, suc, List, [], ◌∷◌, Option, none, some, Bool, true, false, ◌==◌, not, ltb, length,
  if◌then◌else◌,
}
use baetyl_bacnet.Common.Go.{Error, message, Result, ok, err}
use baetyl_bacnet.Common.Text.{Text}
use baetyl_bacnet.Bacnet.Device.{Device}
use baetyl_bacnet.Dmp.Framework.{DeviceInfo}
use baetyl_bacnet.Baetyl.Config.{SlaveConfig}

-- `client` is a client by its number.
pub record Slave : Type 0 where
  pub info : DeviceInfo
  pub client : ℕ
  pub device : Device
  pub cfg : SlaveConfig

-- The variables of the package, and how many clients were made and how many Who-Is were sent.
pub record Globals : Type 0 where
  pub client : Option ℕ
  pub devices : List Device
  pub connects : ℕ
  pub searches : ℕ

-- The network: what the n-th `NewClientByIp` returns for an address and a port, and the n-th `WhoIs`
-- for a client.
pub record Network : Type 0 where
  pub connect : ℕ → Text → ℕ → Result ℕ
  pub search_devices : ℕ → ℕ → Result (List Device)

unfoldable pub device_of : ℕ → List Device → Option Device
device_of id [] = none
device_of id (d ∷ ds) = if d.id.number == id then some d else device_of id ds

unfoldable pub generate_slave : DeviceInfo → SlaveConfig → ℕ → List Device → Result Slave
unfolding device_of
generate_slave info cfg client devices = elim (device_of cfg.device_id devices) [
  | none ↦ err (message "device not find")
  | some d ↦ ok (record { info = info; client = client; device = d; cfg = cfg })
]

-- The last half of NewSlave: a new search, which replaces the devices.
abbrev pub search_result :
    DeviceInfo → SlaveConfig → ℕ → Globals → Result (List Device) → Result Slave × Globals
search_result info cfg client g (err e) = (err e, g)
search_result info cfg client g (ok devs) =
    (generate_slave info cfg client devs, record g { devices = devs })

unfoldable pub search_slave :
    Network → DeviceInfo → SlaveConfig → ℕ → Globals → Result Slave × Globals
search_slave net info cfg client g =
    search_result info cfg client (record g { searches = suc g.searches })
      (net.search_devices g.searches client)

-- The devices that are known are tried first.
unfoldable pub known_slave :
    Network → DeviceInfo → SlaveConfig → ℕ → Globals → Result Slave × Globals
unfolding generate_slave search_slave
known_slave net info cfg client g =
    let again = search_slave net info cfg client g in
    if ltb 0 (length g.devices)
    then (elim (generate_slave info cfg client g.devices) [ ok s ↦ (ok s, g) | err e ↦ again ])
    else again

abbrev pub connected :
    Network → DeviceInfo → SlaveConfig → Globals → Result ℕ → Result Slave × Globals
connected net info cfg g (err e) = (err e, g)
connected net info cfg g (ok client) =
    known_slave net info cfg client (record g { client = some client })

unfoldable pub new_slave : Network → DeviceInfo → SlaveConfig → Globals → Result Slave × Globals
unfolding known_slave
new_slave net info cfg g = elim g.client [
  | some client ↦ known_slave net info cfg client g
  | none ↦
      connected net info cfg (record g { connects = suc g.connects })
        (net.connect g.connects cfg.address cfg.port)
]
