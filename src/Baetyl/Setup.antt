-- ===== src/Baetyl/Setup.antt =====
-- main.go: the configuration, from the devices of the framework.
pub mod Keys
pub mod Aligned
use baetyl_bacnet.Common.{ℕ, ◌+◌, ◌%◌, List, [], ◌∷◌, ◌++◌, Option, none, some}
use baetyl_bacnet.Common.Go.{Error, Result, ok, err}
use baetyl_bacnet.Common.Text.{Text, format_uint}
use baetyl_bacnet.Common.Dict.{put}
use baetyl_bacnet.Dmp.Framework.{DeviceProperty, DeviceInfo, AccessTemplate}
use baetyl_bacnet.Baetyl.Config.{ℤ, pos, SlaveConfig, Property, Job, Config}
use baetyl_bacnet.Baetyl.Worker.{Context}

-- What the program takes from gopkg.in/yaml.v2 and from the framework: yaml.Unmarshal into a variable
-- of each type, GetDriverConfig, and utils.SetDefaults.
pub record Source : Type 0 where
  pub driver_config : Text
  pub decode_slave : Text → SlaveConfig → Result SlaveConfig
  pub decode_job : Text → Job → Result Job
  pub decode_property : Text → Property → Result Property
  pub set_defaults : Config → Result Config

infixl 5 ◌>>=◌
abbrev pub ◌>>=◌ : {A B : Type 0} → Result A → (A → Result B) → Result B
ok a >>= f = f a
err e >>= f = err e

abbrev pub new_slave_config : SlaveConfig
new_slave_config = record { device = []; device_id = 0; interval = pos 0; address = []; port = 0 }

abbrev pub new_job : Job
new_job = record {
  device = [];
  device_id = 0;
  address_offset = 0;
  properties = [];
  interval = pos 0;
}

abbrev pub new_property : Property
new_property = record {
  id = [];
  name = [];
  kind = [];
  mode = [];
  bacnet_type = 0;
  bacnet_address = 0;
  application_tag_number = 0;
}

-- The type and the address, with a colon between them.
unfoldable pub property_key : ℕ → ℕ → Text
property_key t a = format_uint t ++ 58 ∷ format_uint a

-- The address is moved by the job's offset; a uint has 64 bits.
abbrev pub configured : ℕ → DeviceProperty → Property → Property
configured offset prop p = record p {
  id = prop.id;
  name = prop.name;
  kind = prop.kind;
  mode = prop.mode;
  bacnet_address = (p.bacnet_address + offset) % 18446744073709551616;
}

abbrev pub put_property : Property → List (Text × Property) → List (Text × Property)
put_property p m = put (property_key p.bacnet_type p.bacnet_address) p m

module _ (src : Source) where
  abbrev pub add_property :
      ℕ → DeviceProperty → Option Text → List (Text × Property) → Result (List (Text × Property))
  add_property offset prop none m = ok m
  add_property offset prop (some visitor) m = do
    p ← src.decode_property visitor new_property
    ok (put_property (configured offset prop p) m)

  -- The loop over the properties of the template.
  unfoldable pub job_map :
      ℕ → List DeviceProperty → List (Text × Property) → Result (List (Text × Property))
  unfolding property_key
  job_map offset [] m = ok m
  job_map offset (prop ∷ props) m = do
    m' ← add_property offset prop prop.visitor m
    job_map offset props m'

  abbrev pub template_properties : Option AccessTemplate → List DeviceProperty
  template_properties none = []
  template_properties (some t) = t.properties

  -- A job and its slave, for a device with a configuration of its own.
  unfoldable pub device_job : Context → SlaveConfig → DeviceInfo → Text → Result (SlaveConfig × Job)
  unfolding job_map
  device_job ctx slave info custom = do
    job ← src.decode_job custom new_job
    template ← ctx.get_access_templates info
    m ← job_map job.address_offset (template_properties template) []
    ok (
      record slave { device = info.name; device_id = job.device_id },
      record job { interval = slave.interval; device = info.name; properties = m },
    )

  abbrev pub add_job : Config → SlaveConfig × Job → Config
  add_job cfg (s, j) = record { slaves = cfg.slaves ++ s ∷ []; jobs = cfg.jobs ++ j ∷ [] }

  -- The loop over the devices; one without a configuration of its own is left out.
  unfoldable pub add_jobs : Context → SlaveConfig → List DeviceInfo → Config → Result Config
  unfolding device_job
  add_jobs ctx slave [] cfg = ok cfg
  add_jobs ctx slave (info ∷ infos) cfg = elim info.custom [
    | none ↦ add_jobs ctx slave infos cfg
    | some custom ↦ do
      r ← device_job ctx slave info custom
      add_jobs ctx slave infos (add_job cfg r)
  ]

  unfoldable pub gen_config : Context → Result Config
  unfolding add_jobs
  gen_config ctx = do
    slave ← src.decode_slave src.driver_config new_slave_config
    cfg ← add_jobs ctx slave ctx.get_all_devices (record { slaves = []; jobs = [] })
    src.set_defaults cfg
