-- ===== src/Tests/Worker.antt =====
-- The workers of a device on a concrete template, network and bus.
use baetyl_bacnet.Common.{ℕ, ◌≡◌, refl, List, [], ◌∷◌, Option, none, some}
use baetyl_bacnet.Common.Go.{message, Result, ok, err, returns}
use baetyl_bacnet.Common.Text.{Text, same_text}
use baetyl_bacnet.Common.Dict.{lookup, put, Entries}
use baetyl_bacnet.Bacnet.Value.{Value, float32, float64}
use baetyl_bacnet.Dmp.Framework.{
  DeviceProperty, ModelMapping, AccessTemplate, DeviceInfo, Dmcontext, Floats,
}
use baetyl_bacnet.Dmp.Adapter.{named_by, get_mapping_name}
use baetyl_bacnet.Baetyl.Config.{pos, SlaveConfig, Property, Job, object_of}
use baetyl_bacnet.Baetyl.Slave.{Slave}
use baetyl_bacnet.Baetyl.Worker.{
  Worker, Context, Bus, read_value, read_all, arguments, model_value, models, execute,
}
use baetyl_bacnet.Baetyl.Worker.Origin.{WasRead, WasEvaluated, execute-WasEvaluated}
use baetyl_bacnet.Baetyl.Worker.Latest.{last_read, last_value, lookup-execute}
use baetyl_bacnet.Tests.Calls.{thermostat}

-- The device `d` has the property `t` with the id `1`, and its attribute `a` is the parameter `x1`.
abbrev property : DeviceProperty
property = record { id = 49 ∷ []; name = 116 ∷ []; kind = []; mode = []; visitor = some (118 ∷ []) }

abbrev mapping : ModelMapping
mapping = record { attribute = 97 ∷ []; kind = 118 ∷ []; expression = 120 ∷ 49 ∷ [] }

abbrev pub template : AccessTemplate
template = record { properties = property ∷ []; mappings = mapping ∷ [] }

abbrev pub room : DeviceInfo
room = record { name = 100 ∷ []; custom = some (99 ∷ []) }

abbrev value_of : Option Value → Result Value
value_of none = err (message "no argument")
value_of (some v) = ok v

-- The expressions that are one parameter.
abbrev pub parameters : Dmcontext
parameters = record {
  mapping_value = 118 ∷ [];
  parse_expression = λ e. ok (e ∷ []);
  solve_expression = λ e v. ok (float64 v);
  exec_expression = λ e args kind. value_of (lookup e args);
}

abbrev pub same_bits : Floats
same_bits = record {
  float64_of_int = λ v. v;
  float32_of_int = λ v. v;
  float32_of_float64 = λ v. v;
  decimal_of_float32 = λ v. ok v;
  uint32_of_float32 = λ v. v;
  uint32_of_float64 = λ v. v;
  int16_of_float64 = λ v. v;
  int32_of_float64 = λ v. v;
  int64_of_float64 = λ v. v;
}

abbrev pub one_device : Context
one_device = record {
  get_all_devices = room ∷ [];
  register_delta_callback = none;
  register_property_get_callback = none;
  get_access_templates = λ info. ok (some template);
  report_device_properties = λ info r. none;
}

-- Each read gives 21.5, and each write succeeds.
abbrev pub bus : Bus
bus = record {
  read = λ n client device rp. returns (ok (float32 1101791232));
  write = λ n client device wp. returns none;
}

abbrev pub slave_config : SlaveConfig
slave_config = record {
  device = 100 ∷ [];
  device_id = 1234;
  interval = pos 15;
  address = 49 ∷ [];
  port = 47808;
}

abbrev pub point : ℕ → Property
point tag = record {
  id = 49 ∷ [];
  name = 116 ∷ [];
  kind = [];
  mode = [];
  bacnet_type = 0;
  bacnet_address = 1234;
  application_tag_number = tag;
}

abbrev pub job : ℕ → Job
job tag = record {
  device = 100 ∷ [];
  device_id = 1234;
  address_offset = 0;
  properties = (48 ∷ 58 ∷ 49 ∷ [], point tag) ∷ [];
  interval = pos 15;
}

abbrev pub slave : Slave
slave = record { info = room; client = 0; device = thermostat; cfg = slave_config }

abbrev pub worker : ℕ → Worker
worker tag = record { job = job tag; slave = slave }

abbrev pub workers : ℕ → List (Text × Worker)
workers tag = (100 ∷ [], worker tag) ∷ []

pub executed :
    execute parameters one_device bus 0 (worker 4)
    ≡ returns (none, some ((97 ∷ [], float32 1101791232) ∷ []))
unfolding execute read_all read_value models model_value arguments get_mapping_name named_by
    same_text lookup put object_of
executed = refl

execute-WasEvaluated_example :
    Entries
      (WasEvaluated parameters template (WasRead bus 0 slave (job 4).properties) template.mappings)
      ((97 ∷ [], float32 1101791232) ∷ [])
execute-WasEvaluated_example =
    execute-WasEvaluated parameters one_device bus 0 (worker 4) none
      ((97 ∷ [], float32 1101791232) ∷ []) template refl executed

lookup-execute_example :
    (temp : List (Text × Value)) × ((name : Text)
      → lookup name temp ≡ last_read bus 0 slave name (job 4).properties none)
    × ((name : Text)
        → lookup name ((97 ∷ [], float32 1101791232) ∷ [])
          ≡ last_value parameters template temp name template.mappings none)
    × (none ≡ one_device.report_device_properties room ((97 ∷ [], float32 1101791232) ∷ []))
lookup-execute_example =
    lookup-execute parameters one_device bus 0 (worker 4) none ((97 ∷ [], float32 1101791232) ∷ [])
      template refl executed
