-- ===== src/Baetyl/Worker.antt =====
-- baetyl-bacnet/worker.go: the job that reads the properties of a device and reports its model.
pub mod Origin
pub mod Latest
use baetyl_bacnet.Common.{ℕ, suc, List, [], ◌∷◌, Option, none, some}
use baetyl_bacnet.Common.Go.{Error, Result, ok, err, Outcome, returns, panics, ◌>>=◌}
use baetyl_bacnet.Common.Text.{Text}
use baetyl_bacnet.Common.Dict.{lookup, put}
use baetyl_bacnet.Bacnet.Device.{Device}
use baetyl_bacnet.Bacnet.ObjectId.{ObjectId}
use baetyl_bacnet.Bacnet.Value.{Value, nil}
use baetyl_bacnet.Bacip.Services.{ReadProperty, WriteProperty}
use baetyl_bacnet.Dmp.Framework.{DeviceInfo, ModelMapping, AccessTemplate, Dmcontext}
use baetyl_bacnet.Dmp.Adapter.{get_mapping_name, tail_of}
use baetyl_bacnet.Baetyl.Config.{Property, Job, object_of}
use baetyl_bacnet.Baetyl.Slave.{Slave}

pub record Worker : Type 0 where
  pub job : Job
  pub slave : Slave

-- dm.Context: the devices, the template of a device, which may be a nil pointer, the report of its
-- properties, and the errors of the registrations of the two callbacks.
pub record Context : Type 0 where
  pub get_all_devices : List DeviceInfo
  pub register_delta_callback : Option Error
  pub register_property_get_callback : Option Error
  pub get_access_templates : DeviceInfo → Result (Option AccessTemplate)
  pub report_device_properties : DeviceInfo → List (Text × Value) → Option Error

-- What the n-th ReadProperty and the n-th WriteProperty of a client end with.
pub record Bus : Type 0 where
  pub read : ℕ → ℕ → Device → ReadProperty → Outcome (Result Value)
  pub write : ℕ → ℕ → Device → WriteProperty → Outcome (Option Error)

abbrev pub present_value : ℕ
present_value = 85

unfoldable pub read_value : Bus → ℕ → Slave → ObjectId → Outcome (Result Value)
read_value bus n s o = bus.read n s.client s.device (record {
  object_id = o;
  property = record { property_type = present_value; array_index = none };
  content = nil;
})

-- An error of a read is logged, and the property is left out.
abbrev pub keep_read : Text → Result Value → List (Text × Value) → List (Text × Value)
keep_read name (ok v) temp = put name v temp
keep_read name (err e) temp = temp

unfoldable pub read_all :
    Bus → ℕ → Slave → List (Text × Property) → List (Text × Value) → Outcome (List (Text × Value))
unfolding read_value
read_all bus n s [] temp = returns temp
read_all bus n s ((key, p) ∷ ps) temp = do
  r ← read_value bus n s (object_of p)
  read_all bus (suc n) s ps (keep_read p.name r temp)

-- The name behind a parameter, and the value that was read for it.
abbrev pub argument : AccessTemplate → List (Text × Value) → Text → Option Value
argument t temp id = elim (get_mapping_name id t) [ err e ↦ none | ok name ↦ lookup name temp ]

abbrev pub keep_argument : Text → Option Value → List (Text × Value) → List (Text × Value)
keep_argument param none args = args
keep_argument param (some v) args = put param v args

unfoldable pub arguments :
    AccessTemplate
    → List (Text × Value)
    → List Text
    → List (Text × Value)
    → Outcome (List (Text × Value))
arguments t temp [] args = returns args
arguments t temp (param ∷ params) args = do
  id ← tail_of param
  arguments t temp params (keep_argument param (argument t temp id) args)

abbrev pub as_option {ℓ} : {A : Type ℓ} → Result A → Option A
as_option (ok v) = some v
as_option (err e) = none

module _ (dm : Dmcontext) where
  -- None if a step fails, which is logged.
  abbrev pub evaluate :
      AccessTemplate
      → List (Text × Value)
      → ModelMapping
      → Result (List Text)
      → Outcome (Option Value)
  evaluate t temp m (err e) = returns none
  evaluate t temp m (ok params) = do
    args ← arguments t temp params []
    returns (as_option (dm.exec_expression m.expression args m.kind))

  unfoldable pub model_value :
      AccessTemplate → List (Text × Value) → ModelMapping → Outcome (Option Value)
  unfolding arguments
  model_value t temp m = evaluate t temp m (dm.parse_expression m.expression)

  unfoldable pub models :
      AccessTemplate
      → List (Text × Value)
      → List ModelMapping
      → List (Text × Value)
      → Outcome (List (Text × Value))
  unfolding model_value
  models t temp [] report = returns report
  models t temp (m ∷ ms) report = do
    v ← model_value t temp m
    models t temp ms (keep_argument m.attribute v report)

  -- The error returned, and the report that was handed to the framework.
  abbrev pub reported :
      Context → DeviceInfo → List (Text × Value) → Option Error × Option (List (Text × Value))
  reported ctx info r = (ctx.report_device_properties info r, some r)

  abbrev pub report_models :
      Context
      → DeviceInfo
      → List (Text × Value)
      → Result (Option AccessTemplate)
      → Outcome (Option Error × Option (List (Text × Value)))
  report_models ctx info temp (err e) = returns (some e, none)
  report_models ctx info temp (ok none) = panics
  report_models ctx info temp (ok (some t)) = do
    r ← models t temp t.mappings []
    returns (reported ctx info r)

  unfoldable pub execute :
      Context → Bus → ℕ → Worker → Outcome (Option Error × Option (List (Text × Value)))
  unfolding read_all models
  execute ctx bus n w = do
    temp ← read_all bus n w.slave w.job.properties []
    report_models ctx w.slave.info temp (ctx.get_access_templates w.slave.info)
