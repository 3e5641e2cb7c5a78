-- ===== src/Baetyl/Worker/Latest.antt =====
-- What a report has for each attribute.
use baetyl_bacnet.Common.{
  ℕ, suc, ◌≡◌, ap, ◌∙◌, inl, inr, List, [], ◌∷◌, Option, none, some, arith, if◌then◌else◌,
}
use baetyl_bacnet.Common.Go.{Error, Result, ok, err, Outcome, returns, Outcome-cases}
use baetyl_bacnet.Common.Text.{Text, same_text}
use baetyl_bacnet.Common.Dict.{lookup, lookup-put}
use baetyl_bacnet.Bacnet.Value.{Value}
use baetyl_bacnet.Dmp.Framework.{ModelMapping, AccessTemplate, Dmcontext}
use baetyl_bacnet.Baetyl.Config.{Property, object_of}
use baetyl_bacnet.Baetyl.Slave.{Slave}
use baetyl_bacnet.Baetyl.Worker.{
  Worker, Context, Bus, read_value, keep_read, read_all, keep_argument, model_value, models,
  execute,
}

-- The value of the last property of the name whose read succeeded, the reads being numbered from n on.
abbrev pub newer : Outcome (Result Value) → Option Value → Option Value
newer (returns (ok v)) old = some v
newer _ old = old

abbrev pub last_read : Bus → ℕ → Slave → Text → List (Text × Property) → Option Value → Option Value
last_read bus n s name [] old = old
last_read bus n s name ((key, p) ∷ ps) old =
    last_read bus (suc n) s name ps
      (if same_text p.name name then newer (read_value bus n s (object_of p)) old else old)

-- The value of the last mapping for the attribute that has one.
abbrev pub newer_value : Outcome (Option Value) → Option Value → Option Value
newer_value (returns (some v)) old = some v
newer_value _ old = old

abbrev pub last_value :
    Dmcontext
    → AccessTemplate
    → List (Text × Value)
    → Text
    → List ModelMapping
    → Option Value
    → Option Value
last_value dm t temp name [] old = old
last_value dm t temp name (m ∷ ms) old =
    last_value dm t temp name ms
      (if same_text m.attribute name then newer_value (model_value dm t temp m) old else old)

lookup-keep_read :
    (name key : Text) (r : Result Value) (temp : List (Text × Value))
    → lookup name (keep_read key r temp)
      ≡ (if same_text key name then newer (returns r) (lookup name temp) else lookup name temp)
lookup-keep_read name key (ok v) temp = ground (arith, lookup-put name key v temp)
lookup-keep_read name key (err e) temp = ground arith

lookup-keep_argument :
    (name key : Text) (o : Option Value) (temp : List (Text × Value))
    → lookup name (keep_argument key o temp) ≡ (
        if same_text key name then newer_value (returns o) (lookup name temp) else lookup name temp)
lookup-keep_argument name key (some v) temp = ground (arith, lookup-put name key v temp)
lookup-keep_argument name key none temp = ground arith

lookup-read_all :
    (bus : Bus) (n : ℕ) (s : Slave) (name : Text) (ps : List (Text × Property))
    (temp out : List (Text × Value))
    → read_all bus n s ps temp ≡ returns out
    → lookup name out ≡ last_read bus n s name ps (lookup name temp)
unfolding read_all
lookup-read_all bus n s name [] temp out e = ground (arith, e)
lookup-read_all bus n s name ((key, p) ∷ ps) temp out e =
    elim (Outcome-cases (read_value bus n s (object_of p))) [
      | inl (r, q) ↦
          lookup-read_all bus (suc n) s name ps (keep_read p.name r temp) out (rw q at e)
          ∙ ap (last_read bus (suc n) s name ps) (rw q (lookup-keep_read name p.name r temp))
      | inr q ↦ absurd (ground (arith, q, e))
    ]

lookup-models :
    (dm : Dmcontext) (t : AccessTemplate) (temp : List (Text × Value)) (name : Text)
    (ms : List ModelMapping) (report out : List (Text × Value))
    → models dm t temp ms report ≡ returns out
    → lookup name out ≡ last_value dm t temp name ms (lookup name report)
unfolding models
lookup-models dm t temp name [] report out e = ground (arith, e)
lookup-models dm t temp name (m ∷ ms) report out e =
    elim (Outcome-cases (model_value dm t temp m)) [
      | inl (o, q) ↦
          lookup-models dm t temp name ms (keep_argument m.attribute o report) out (rw q at e)
          ∙ ap (last_value dm t temp name ms)
              (rw q (lookup-keep_argument name m.attribute o report))
      | inr q ↦ absurd (ground (arith, q, e))
    ]

-- What `Execute` reports for an attribute is the value of the last mapping of the template for it whose
-- expression has one, over the table that has for each name the last value read for a property of
-- this name: a read or an expression that fails leaves out its own value, and no other. The error is
-- that of the report.
pub lookup-execute :
    (dm : Dmcontext) (ctx : Context) (bus : Bus) (n : ℕ) (w : Worker) (failure : Option Error)
    (report : List (Text × Value)) (t : AccessTemplate)
    → ctx.get_access_templates w.slave.info ≡ ok (some t)
    → execute dm ctx bus n w ≡ returns (failure, some report)
    → (temp : List (Text × Value)) × ((name : Text)
        → lookup name temp ≡ last_read bus n w.slave name w.job.properties none)
      × ((name : Text) → lookup name report ≡ last_value dm t temp name t.mappings none)
      × (failure ≡ ctx.report_device_properties w.slave.info report)
unfolding execute lookup
lookup-execute dm ctx bus n w failure report t g e =
    elim (Outcome-cases (read_all bus n w.slave w.job.properties [])) [
      | inl (temp, q) ↦ elim (Outcome-cases (models dm t temp t.mappings [])) [
        | inl (r, m) ↦
            let same : r ≡ report = ground (arith, q, g, m, e) in
            (
              temp,
              λ name. lookup-read_all bus n w.slave name w.job.properties [] temp q,
              λ name. lookup-models dm t temp name t.mappings [] report (m ∙ ap returns same),
              ground (arith, q, g, m, e),
            )
        | inr m ↦ absurd (ground (arith, q, g, m, e))
      ]
      | inr q ↦ absurd (ground (arith, q, e))
    ]
