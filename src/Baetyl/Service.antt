-- ===== src/Baetyl/Service.antt =====
-- baetyl-bacnet/bacnet.go: how the slaves and the workers are made.
pub mod Served
pub mod Loop
use baetyl_bacnet.Common.{List, [], ◌∷◌, ◌++◌, Option, none, some}
use baetyl_bacnet.Common.Go.{Error, Result, ok, err}
use baetyl_bacnet.Common.Text.{Text}
use baetyl_bacnet.Common.Dict.{lookup, put}
use baetyl_bacnet.Dmp.Framework.{DeviceInfo}
use baetyl_bacnet.Baetyl.Config.{SlaveConfig, Job, Config}
use baetyl_bacnet.Baetyl.Slave.{Slave, Globals, Network, new_slave}
use baetyl_bacnet.Baetyl.Worker.{Worker, Context}

-- `ws`, and the devices that were announced as online.
pub record Bacnet : Type 0 where
  pub ws : List (Text × Worker)
  pub online : List DeviceInfo

unfoldable pub infos_by_name : List DeviceInfo → List (Text × DeviceInfo) → List (Text × DeviceInfo)
infos_by_name [] infos = infos
infos_by_name (i ∷ is) infos = infos_by_name is (put i.name i infos)

-- The slaves so far, the devices online, and the shared variables.
pub record Building : Type 0 where
  pub slaves : List (Text × Slave)
  pub announced : List DeviceInfo
  pub globals : Globals

-- A slave that cannot be made is logged and left out.
abbrev pub keep_slave : SlaveConfig → DeviceInfo → Building → Result Slave × Globals → Building
keep_slave cfg info b (err e, g) = record b { globals = g }
keep_slave cfg info b (ok s, g) = record {
  slaves = put cfg.device s b.slaves;
  announced = b.announced ++ info ∷ [];
  globals = g;
}

abbrev pub add_slave : Network → SlaveConfig → Building → Option DeviceInfo → Building
add_slave net cfg b none = b
add_slave net cfg b (some info) = keep_slave cfg info b (new_slave net info cfg b.globals)

unfoldable pub make_slaves :
    Network → List (Text × DeviceInfo) → List SlaveConfig → Building → Building
make_slaves net infos [] b = b
make_slaves net infos (cfg ∷ cfgs) b =
    make_slaves net infos cfgs (add_slave net cfg b (lookup cfg.device infos))

-- A job without a slave is logged and left out.
abbrev pub add_worker : Job → Option Slave → List (Text × Worker) → List (Text × Worker)
add_worker job none ws = ws
add_worker job (some s) ws = put job.device (record { job = job; slave = s }) ws

unfoldable pub make_workers :
    List (Text × Slave) → List Job → List (Text × Worker) → List (Text × Worker)
make_workers slaves [] ws = ws
make_workers slaves (job ∷ jobs) ws =
    make_workers slaves jobs (add_worker job (lookup job.device slaves) ws)

abbrev pub registered : Option Error → Option Error → Bacnet → Result Bacnet
registered (some e) second b = err e
registered none (some e) b = err e
registered none none b = ok b

abbrev pub slaves_of : Network → Context → Config → Globals → Building
slaves_of net ctx cfg g =
    make_slaves net (infos_by_name ctx.get_all_devices []) cfg.slaves
      (record { slaves = []; announced = []; globals = g })

unfoldable pub new_bacnet : Network → Context → Config → Globals → Result Bacnet × Globals
unfolding infos_by_name make_slaves make_workers
new_bacnet net ctx cfg g =
    let b = slaves_of net ctx cfg g in
    (
      registered ctx.register_delta_callback ctx.register_property_get_callback
          (record { ws = make_workers b.slaves cfg.jobs []; online = b.announced }),
      b.globals,
    )

unfoldable pub close : Bacnet → Option Error
close bac = none
