-- ===== src/Baetyl/Delta.antt =====
-- baetyl-bacnet/bacnet.go: the changes that the framework asks for, as writes of BACnet properties.
pub mod Writes
pub mod Done
pub mod Covers
pub mod Complete
pub mod OnWire
use baetyl_bacnet.Common.{
  ℕ, suc, List, [], ◌∷◌, ◌++◌, Option, none, some, Bool, true, false, ◌==◌, if◌then◌else◌,
}
use baetyl_bacnet.Common.Go.{Error, message, Result, ok, err, Outcome, returns, panics, ◌>>=◌}
use baetyl_bacnet.Common.Text.{Text, same_text}
use baetyl_bacnet.Common.Dict.{lookup}
use baetyl_bacnet.Bacnet.Value.{
  Value, nil, boolean, uint32, float32, PropertyValue, type_boolean, type_real, type_enumerated,
}
use baetyl_bacnet.Bacip.Services.{WriteProperty}
use baetyl_bacnet.Dmp.Framework.{DeviceInfo, AccessTemplate, Dmcontext, Floats}
use baetyl_bacnet.Dmp.Adapter.{
  get_mapping_name, get_config_id_by_model_name, get_prop_value_by_model_name, parse_value_to_bool,
  parse_value_to_float32, parse_value_to_uint32,
}
use baetyl_bacnet.Baetyl.Config.{Property, object_of}
use baetyl_bacnet.Baetyl.Slave.{Slave}
use baetyl_bacnet.Baetyl.Worker.{Worker, Context, Bus, present_value, execute}

abbrev pub available16 : ℕ
available16 = 16

-- The writes that were attempted, in their order, and the error returned.
abbrev pub Ran : Type 0
Ran = Outcome (List WriteProperty × Option Error)

abbrev pub quiet : Ran
quiet = returns ([], none)

-- What runs after the writes so far, unless they ended with an error.
abbrev pub go_on : List WriteProperty × Option Error → Ran → Ran
go_on (ws, some e) next = returns (ws, some e)
go_on (ws, none) next = do (more, e) ← next; returns (ws ++ more, e)

abbrev pub write_of : Property → Value → WriteProperty
write_of p v = record {
  object_id = object_of p;
  property = record { property_type = present_value; array_index = none };
  property_value = record { tag = p.application_tag_number; value = v };
  priority = available16;
}

unfoldable pub write_value : Bus → ℕ → Slave → WriteProperty → Ran
write_value bus n s wp = do e ← bus.write n s.client s.device wp; returns (wp ∷ [], e)

abbrev pub as_value {ℓ} : {A : Type ℓ} → (A → Value) → Result A → Result Value
as_value make (ok v) = ok (make v)
as_value make (err e) = err e

-- The error's text asks for the name of the value's type, which panics if there is no value.
abbrev pub unsupported_tag : Value → Outcome (Result Value)
unsupported_tag nil = panics
unsupported_tag _ = returns (
    err
      (message "unsupported type conversion.prop name: %v, prop type: %v, application tag num: %v"))

unfoldable pub convert : Floats → ℕ → Value → Outcome (Result Value)
unfolding parse_value_to_bool parse_value_to_float32 parse_value_to_uint32
convert fl tag val =
    if tag == type_boolean
    then returns (as_value boolean (parse_value_to_bool val))
    else if tag == type_real
    then returns (as_value float32 (parse_value_to_float32 fl val))
    else if tag == type_enumerated
    then returns (as_value uint32 (parse_value_to_uint32 fl val))
    else unsupported_tag val

abbrev pub write_converted : Bus → ℕ → Slave → Property → Result Value → Ran
write_converted bus n s p (err e) = returns ([], some e)
write_converted bus n s p (ok v) = write_value bus n s (write_of p v)

-- The number of the next write.
abbrev pub next_write : List WriteProperty × Option Error → ℕ → ℕ
next_write ([], e) n = n
next_write (w ∷ ws, e) n = next_write (ws, e) (suc n)

unfoldable pub write_property_of : Floats → Bus → ℕ → Slave → Value → Property → Ran
unfolding convert write_value
write_property_of fl bus n s val p = do
  v ← convert fl p.application_tag_number val
  write_converted bus n s p v

-- The loop over the job's properties, for one change.
unfoldable pub write_named : Floats → Bus → ℕ → Slave → Text → Value → List (Text × Property) → Ran
unfolding write_property_of
write_named fl bus n s name val [] = quiet
write_named fl bus n s name val ((key, p) ∷ ps) = do
  r ← (if same_text name p.name then write_property_of fl bus n s val p else quiet)
  go_on r (write_named fl bus (next_write r n) s name val ps)

-- What the names of a change are, or none if one is not found, which is logged.
abbrev pub named : AccessTemplate → Result Text → Option Text
named t (err e) = none
named t (ok []) = none
named t (ok (c ∷ cs)) = elim (get_mapping_name (c ∷ cs) t) [ err e ↦ none | ok name ↦ some name ]

abbrev pub write_change : Floats → Bus → ℕ → Worker → Option Text → Result Value → Ran
write_change fl bus n w none val = quiet
write_change fl bus n w (some name) (err e) = quiet
write_change fl bus n w (some name) (ok val) =
    write_named fl bus n w.slave name val w.job.properties

module _ (dm : Dmcontext) (fl : Floats) where
  unfoldable pub change : Bus → ℕ → Worker → AccessTemplate → Text → Value → Ran
  unfolding write_named
  change bus n w t key val = do
    id ← get_config_id_by_model_name dm key t
    write_change fl bus n w (named t id) (get_prop_value_by_model_name dm fl key val t)

  -- The loop over the changes.
  unfoldable pub changes : Bus → ℕ → Worker → AccessTemplate → List (Text × Value) → Ran
  unfolding change
  changes bus n w t [] = quiet
  changes bus n w t ((key, val) ∷ delta) = do
    r ← change bus n w t key val
    go_on r (changes bus (next_write r n) w t delta)

  -- Without mappings a nil template panics at the first change, and is not looked at without one.
  abbrev pub with_template :
      Bus → ℕ → Worker → List (Text × Value) → Result (Option AccessTemplate) → Ran
  with_template bus n w delta (err e) = returns ([], some e)
  with_template bus n w [] (ok none) = quiet
  with_template bus n w (d ∷ delta) (ok none) = panics
  with_template bus n w delta (ok (some t)) = changes bus n w t delta

  unfoldable pub delta_callback :
      Context → Bus → ℕ → List (Text × Worker) → DeviceInfo → List (Text × Value) → Ran
  unfolding changes
  delta_callback ctx bus n ws info delta = elim (lookup info.name ws) [
    | none ↦ returns ([], some (message "worker not exist"))
    | some w ↦ with_template bus n w delta (ctx.get_access_templates info)
  ]

  -- The properties asked for play no part: the whole job runs.
  unfoldable pub property_get_callback :
      Context → Bus → ℕ → List (Text × Worker) → DeviceInfo → List Text → Outcome (Option Error)
  unfolding execute
  property_get_callback ctx bus n ws info properties = elim (lookup info.name ws) [
    | none ↦ returns (some (message "worker not exist"))
    | some w ↦ do (e, report) ← execute dm ctx bus n w; returns e
  ]
