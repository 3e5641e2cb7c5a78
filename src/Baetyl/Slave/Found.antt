-- ===== src/Baetyl/Slave/Found.antt =====
-- What NewSlave finds.
use baetyl_bacnet.Common.{
  ℕ, suc, ◌≡◌, ◌<◌, inl, inr, List, [], ◌∷◌, some, ◌==◌, length, arith, Option-cases, Bool-cases,
}
use baetyl_bacnet.Common.Go.{ok, Result-cases}
use baetyl_bacnet.Bacnet.Device.{Device}
use baetyl_bacnet.Dmp.Framework.{DeviceInfo}
use baetyl_bacnet.Baetyl.Config.{SlaveConfig}
use baetyl_bacnet.Baetyl.Slave.{
  Slave, Globals, Network, device_of, generate_slave, search_slave, known_slave, new_slave,
}

-- The slave is for its configuration: the device has the number asked for and is the first such one
-- of the list.
abbrev pub Fits : DeviceInfo → SlaveConfig → List Device → Slave → Type 0
Fits info cfg devices s =
    (s.info ≡ info)
    × (s.cfg ≡ cfg)
    × (s.device.id.number ≡ cfg.device_id)
    × (device_of cfg.device_id devices ≡ some s.device)

device_of-number :
    (id : ℕ) (ds : List Device) (d : Device) → device_of id ds ≡ some d → d.id.number ≡ id
unfolding device_of
device_of-number id [] d h = absurd (ground arith)
device_of-number id (x ∷ ds) d h = elim (Bool-cases (x.id.number == id)) [
  | inl q ↦ ground (arith, q, h)
  | inr q ↦ device_of-number id ds d (rw q at h)
]

generate_slave-Fits :
    (info : DeviceInfo) (cfg : SlaveConfig) (client : ℕ) (ds : List Device) (s : Slave)
    → generate_slave info cfg client ds ≡ ok s
    → Fits info cfg ds s
unfolding generate_slave
generate_slave-Fits info cfg client ds s h = elim (Option-cases (device_of cfg.device_id ds)) [
  | inl q ↦ absurd (ground (arith, q))
  | inr (d, q) ↦ ground (arith, q, device_of-number cfg.device_id ds d q)
]

module _ (net : Network) (info : DeviceInfo) (cfg : SlaveConfig) (g' : Globals) (s : Slave) where
  search_slave-Fits :
      (client : ℕ) (g : Globals)
      → search_slave net info cfg client g ≡ (ok s, g')
      → Fits info cfg g'.devices s
  unfolding search_slave
  search_slave-Fits client g h = elim (Result-cases (net.search_devices g.searches client)) [
    | inl (devs, q) ↦ ground (arith, q, generate_slave-Fits info cfg client devs s)
    | inr (e, q) ↦ absurd (ground (arith, q))
  ]

  known_slave-Fits :
      (client : ℕ) (g : Globals)
      → known_slave net info cfg client g ≡ (ok s, g')
      → Fits info cfg g'.devices s
  unfolding known_slave
  known_slave-Fits client g h = elim (Result-cases (generate_slave info cfg client g.devices)) [
    | inl (s1, q) ↦
        ground
          (arith, q, generate_slave-Fits info cfg client g.devices s, search_slave-Fits client g)
    | inr (e, q) ↦ ground (arith, q, search_slave-Fits client g)
  ]

  -- A slave that NewSlave returns is for its configuration: its device has the number asked for, and is
  -- the first such one of the devices that are known afterwards.
  pub new_slave-Fits :
      (g : Globals) → new_slave net info cfg g ≡ (ok s, g') → Fits info cfg g'.devices s
  unfolding new_slave
  new_slave-Fits g h = elim (Option-cases g.client) [
    | inl q ↦ elim (Result-cases (net.connect g.connects cfg.address cfg.port)) [
      | inl (client, c) ↦
          known_slave-Fits client (record g { client = some client; connects = suc g.connects })
            (ground (arith, q, c))
      | inr (e, c) ↦ absurd (ground (arith, q, c))
    ]
    | inr (client, q) ↦ known_slave-Fits client g (ground (arith, q))
  ]

device_of-pos : (id : ℕ) (ds : List Device) (d : Device) → device_of id ds ≡ some d → 0 < length ds
unfolding device_of
device_of-pos id [] d h = absurd (ground arith)
device_of-pos id (x ∷ ds) d h = ground arith

-- NewSlave finds a device that is known without a search, and any other by one search that
-- replaces the known devices; it makes a client only if there is none.
pub new_slave_known :
    (net : Network) (info : DeviceInfo) (cfg : SlaveConfig) (g : Globals) (client : ℕ) (d : Device)
    → g.client ≡ some client
    → device_of cfg.device_id g.devices ≡ some d
    → new_slave net info cfg g
      ≡ (ok (record { info = info; client = client; device = d; cfg = cfg }), g)
unfolding new_slave known_slave generate_slave device_of
new_slave_known net info cfg g client d c q =
    ground (arith, c, q, device_of-pos cfg.device_id g.devices d)
