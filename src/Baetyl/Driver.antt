-- ===== src/Baetyl/Driver.antt =====
-- main.go: main, whose callback makes the configuration and the service, and waits.
pub mod Distinct
pub mod Serves
use baetyl_bacnet.Common.{ℕ, ◌==◌, if◌then◌else◌, Option, none, some, map}
use baetyl_bacnet.Common.Go.{Error, Result, ok, err}
use baetyl_bacnet.Baetyl.Config.{ℤ, pos, is_zero, Job, Config}
use baetyl_bacnet.Baetyl.Slave.{Globals, Network}
use baetyl_bacnet.Baetyl.Worker.{Context}
use baetyl_bacnet.Baetyl.Service.{Bacnet, new_bacnet, close}
use baetyl_bacnet.Baetyl.Setup.{Source, gen_config}

abbrev with_config : Network → Context → Globals → Result Config → Result Bacnet × Globals
with_config net ctx g (err e) = (err e, g)
with_config net ctx g (ok cfg) = new_bacnet net ctx cfg g

-- The service that the callback makes, before it waits.
unfoldable pub driver : Source → Network → Context → Globals → Result Bacnet × Globals
unfolding gen_config
driver src net ctx g = with_config net ctx g (gen_config src ctx)

-- What the callback returns once it has waited: the error of the deferred Close is dropped.
abbrev returned : Result Bacnet → Option Error
returned (err e) = some e
returned (ok bac) = let dropped = close bac in none

unfoldable pub main_callback : Source → Network → Context → Globals → Option Error × Globals
main_callback src net ctx g = let (r, g') = driver src net ctx g in (returned r, g')

-- 15 s in nanoseconds, the default that config.go names for the interval of a job.
abbrev pub default_interval : ℤ
default_interval = pos 15000000000

-- A job whose interval is zero gets the default.
abbrev pub fill_interval : Job → Job
fill_interval j = record j {
  interval = (if is_zero j.interval then default_interval else j.interval);
}

-- What utils.SetDefaults does by the `default` tags of the configuration.
abbrev pub fill_defaults : Config → Config
fill_defaults cfg = record cfg { jobs = map fill_interval cfg.jobs }
