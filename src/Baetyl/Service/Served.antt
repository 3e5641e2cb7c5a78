-- ===== src/Baetyl/Service/Served.antt =====
-- Which worker runs for which device.
use baetyl_bacnet.Common.{
  Among, ◌≡◌, inl, inr, refl, sym, ap, ◌∙◌, subst, List, [], ◌∷◌, Option, none, some, arith,
}
use baetyl_bacnet.Common.Go.{Result, ok, err}
use baetyl_bacnet.Common.Text.{Text}
use baetyl_bacnet.Common.Dict.{lookup, put, Entries, put-Entries, lookup-Entries}
use baetyl_bacnet.Dmp.Framework.{DeviceInfo}
use baetyl_bacnet.Baetyl.Config.{SlaveConfig, Job, Config}
use baetyl_bacnet.Baetyl.Slave.{Slave, Globals, Network, new_slave}
use baetyl_bacnet.Baetyl.Slave.Found.{new_slave-Fits}
use baetyl_bacnet.Baetyl.Worker.{Worker, Context}
use baetyl_bacnet.Baetyl.Service.{
  Bacnet, Building, infos_by_name, keep_slave, add_slave, make_slaves, add_worker, make_workers,
  slaves_of, new_bacnet,
}

-- One of the devices under its name.
abbrev IsNamed : List DeviceInfo → Text → DeviceInfo → Type 0
IsNamed devices key info = (info.name ≡ key) × Among info devices

infos_by_name-IsNamed :
    (devices is : List DeviceInfo) (infos : List (Text × DeviceInfo))
    → ((i : DeviceInfo) → Among i is → Among i devices)
    → Entries (IsNamed devices) infos
    → Entries (IsNamed devices) (infos_by_name is infos)
unfolding infos_by_name
infos_by_name-IsNamed devices [] infos m h = h
infos_by_name-IsNamed devices (i ∷ is) infos m h =
    infos_by_name-IsNamed devices is (put i.name i infos) (λ j a. m j (inr a))
      (put-Entries (IsNamed devices) i.name i infos (refl, m i (inl refl)) h)

-- The slave of one of the devices was configured under its name, and has the instance number asked
-- for.
abbrev pub IsSlaveOf : List DeviceInfo → List SlaveConfig → Text → Slave → Type 0
IsSlaveOf devices cfgs key s =
    (s.info.name ≡ key)
    × Among s.info devices
    × (s.cfg.device ≡ key)
    × (s.device.id.number ≡ s.cfg.device_id)
    × Among s.cfg cfgs

module _ (net : Network) (devices : List DeviceInfo) (infos : List (Text × DeviceInfo))
    (named : Entries (IsNamed devices) infos) (all : List SlaveConfig) where
  keep_slave-IsSlaveOf :
      (cfg : SlaveConfig) (info : DeviceInfo) (b : Building) (r : Result Slave) (g' : Globals)
      → new_slave net info cfg b.globals ≡ (r, g')
      → IsNamed devices cfg.device info
      → Among cfg all
      → Entries (IsSlaveOf devices all) b.slaves
      → Entries (IsSlaveOf devices all) (keep_slave cfg info b (r, g')).slaves
  keep_slave-IsSlaveOf cfg info b (err e) g' q n m h = h
  keep_slave-IsSlaveOf cfg info b (ok s) g' q n m h =
      let (i, c, number, d) = new_slave-Fits net info cfg g' s b.globals q in
      put-Entries (IsSlaveOf devices all) cfg.device s b.slaves
        (
          rw i n.0,
          subst (λ (x : DeviceInfo). Among x devices) (sym i) n.1,
          ap (λ (x : SlaveConfig). x.device) c,
          number ∙ ap (λ (x : SlaveConfig). x.device_id) (sym c),
          subst (λ (x : SlaveConfig). Among x all) (sym c) m,
        )
        h

  add_slave-IsSlaveOf :
      (cfg : SlaveConfig) (b : Building) (o : Option DeviceInfo)
      → lookup cfg.device infos ≡ o
      → Among cfg all
      → Entries (IsSlaveOf devices all) b.slaves
      → Entries (IsSlaveOf devices all) (add_slave net cfg b o).slaves
  add_slave-IsSlaveOf cfg b none q m h = h
  add_slave-IsSlaveOf cfg b (some info) q m h =
      let r = new_slave net info cfg b.globals in
      keep_slave-IsSlaveOf cfg info b r.0 r.1 refl
        (lookup-Entries (IsNamed devices) cfg.device info infos named q) m h

  make_slaves-IsSlaveOf :
      (cfgs : List SlaveConfig) (b : Building)
      → ((cfg : SlaveConfig) → Among cfg cfgs → Among cfg all)
      → Entries (IsSlaveOf devices all) b.slaves
      → Entries (IsSlaveOf devices all) (make_slaves net infos cfgs b).slaves
  unfolding make_slaves
  make_slaves-IsSlaveOf [] b m h = h
  make_slaves-IsSlaveOf (cfg ∷ cfgs) b m h =
      make_slaves-IsSlaveOf cfgs (add_slave net cfg b (lookup cfg.device infos))
        (λ c a. m c (inr a))
        (add_slave-IsSlaveOf cfg b (lookup cfg.device infos) refl (m cfg (inl refl)) h)

-- The worker of a device runs a job for it on a slave of it.
abbrev pub IsServed : List DeviceInfo → Config → Text → Worker → Type 0
IsServed devices cfg key w =
    (w.job.device ≡ key) × Among w.job cfg.jobs × IsSlaveOf devices cfg.slaves key w.slave

module _ (devices : List DeviceInfo) (cfg : Config) (slaves : List (Text × Slave))
    (hs : Entries (IsSlaveOf devices cfg.slaves) slaves) where
  add_worker-IsServed :
      (job : Job) (o : Option Slave) (ws : List (Text × Worker))
      → lookup job.device slaves ≡ o
      → Among job cfg.jobs
      → Entries (IsServed devices cfg) ws
      → Entries (IsServed devices cfg) (add_worker job o ws)
  add_worker-IsServed job none ws q m h = h
  add_worker-IsServed job (some s) ws q m h =
      put-Entries (IsServed devices cfg) job.device (record { job = job; slave = s }) ws
        (refl, m, lookup-Entries (IsSlaveOf devices cfg.slaves) job.device s slaves hs q) h

  make_workers-IsServed :
      (jobs : List Job) (ws : List (Text × Worker))
      → ((job : Job) → Among job jobs → Among job cfg.jobs)
      → Entries (IsServed devices cfg) ws
      → Entries (IsServed devices cfg) (make_workers slaves jobs ws)
  unfolding make_workers
  make_workers-IsServed [] ws m h = h
  make_workers-IsServed (job ∷ jobs) ws m h =
      make_workers-IsServed jobs (add_worker job (lookup job.device slaves) ws) (λ j a. m j (inr a))
        (add_worker-IsServed job (lookup job.device slaves) ws refl (m job (inl refl)) h)

-- Every worker that NewBacnet starts stands under the name of a device, runs a configured job for this
-- device, and has a configured slave of the same name, whose BACnet device has the instance number
-- of the configuration.
pub new_bacnet-IsServed :
    (net : Network) (ctx : Context) (cfg : Config) (g g' : Globals) (b : Bacnet)
    → new_bacnet net ctx cfg g ≡ (ok b, g')
    → Entries (IsServed ctx.get_all_devices cfg) b.ws
unfolding new_bacnet
new_bacnet-IsServed net ctx cfg g g' b e =
    let slaves : List (Text × Slave) = (slaves_of net ctx cfg g).slaves in
    let same : make_workers slaves cfg.jobs [] ≡ b.ws = ground (arith, e) in
    subst (Entries (IsServed ctx.get_all_devices cfg)) same (
      make_workers-IsServed ctx.get_all_devices cfg slaves
        (make_slaves-IsSlaveOf net ctx.get_all_devices (infos_by_name ctx.get_all_devices [])
          (infos_by_name-IsNamed ctx.get_all_devices ctx.get_all_devices [] (λ i a. a) tt)
          cfg.slaves cfg.slaves (record { slaves = []; announced = []; globals = g }) (λ c a. a) tt)
        cfg.jobs [] (λ j a. a) tt)
