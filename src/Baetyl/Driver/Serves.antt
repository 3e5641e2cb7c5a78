-- ===== src/Baetyl/Driver/Serves.antt =====
-- Every worker that main starts reads the device of its own job.
use baetyl_bacnet.Common.{◌≢◌, ◌≡◌, inl, inr, sym, ap, ◌∙◌, subst, List, [], ◌∷◌, Among, arith, map}
use baetyl_bacnet.Common.Go.{ok, Result-cases}
use baetyl_bacnet.Common.Text.{Text}
use baetyl_bacnet.Common.Dict.{Entries}
use baetyl_bacnet.Dmp.Framework.{DeviceInfo}
use baetyl_bacnet.Baetyl.Config.{pos, is_zero, SlaveConfig, Job, Config}
use baetyl_bacnet.Baetyl.Slave.{Globals, Network}
use baetyl_bacnet.Baetyl.Worker.{Worker, Context}
use baetyl_bacnet.Baetyl.Service.{Bacnet, new_bacnet}
use baetyl_bacnet.Baetyl.Service.Served.{IsServed, new_bacnet-IsServed}
use baetyl_bacnet.Baetyl.Setup.{Source, gen_config}
use baetyl_bacnet.Baetyl.Setup.Aligned.{slave_names, IsKeyed, AllPaired}
use baetyl_bacnet.Baetyl.Driver.{driver, fill_interval, fill_defaults}
use baetyl_bacnet.Baetyl.Driver.Distinct.{Distinct, names, gen_config-Distinct}

slave_names-Among :
    (s : SlaveConfig) (ss : List SlaveConfig) → Among s ss → Among s.device (slave_names ss)
slave_names-Among s [] h = absurd h
slave_names-Among s (x ∷ ss) (inl q) = inl (ap (λ (y : SlaveConfig). y.device) q)
slave_names-Among s (x ∷ ss) (inr h) = inr (slave_names-Among s ss h)

-- A job whose interval is filled, and whose properties are under their keys: a negative interval stays
-- as it is.
abbrev pub IsFilled : Job → Type 0
IsFilled j = (j.interval ≢ pos 0) × Entries IsKeyed j.properties

fill_interval-nonzero : (j : Job) → (fill_interval j).interval ≢ pos 0
unfolding is_zero
fill_interval-nonzero j e = ground (arith, e)

job_name-Among :
    (ss : List SlaveConfig) (js : List Job) (j : Job)
    → AllPaired ss js
    → Among j (map fill_interval js)
    → Among j.device (slave_names ss)
job_name-Among [] [] j p h = absurd h
job_name-Among (x ∷ ss) [] j p h = absurd p
job_name-Among [] (y ∷ js) j p h = absurd p
job_name-Among (x ∷ ss) (y ∷ js) j (p, ps) (inl q) = inl (ap (λ (y : Job). y.device) q ∙ sym p.0)
job_name-Among (x ∷ ss) (y ∷ js) j (p, ps) (inr h) = inr (job_name-Among ss js j ps h)

-- A slave and a job with the same name were made together.
paired-Among :
    (ss : List SlaveConfig) (js : List Job) (s : SlaveConfig) (j : Job)
    → AllPaired ss js
    → Distinct (slave_names ss)
    → Among s ss
    → Among j (map fill_interval js)
    → s.device ≡ j.device
    → (s.device_id ≡ j.device_id) × IsFilled j
paired-Among [] [] s j p d hs hj e = absurd hs
paired-Among (x ∷ ss) [] s j p d hs hj e = absurd p
paired-Among [] (y ∷ js) s j p d hs hj e = absurd p
paired-Among (x ∷ ss) (y ∷ js) s j (p, ps) (d, ds) (inr hs) (inr hj) e =
    paired-Among ss js s j ps ds hs hj e
paired-Among (x ∷ ss) (y ∷ js) s j (p, ps) (d, ds) (inl hs) (inl hj) e =
    (ground (arith, hs, hj, p), subst IsFilled (sym hj) (fill_interval-nonzero y, p.3))
paired-Among (x ∷ ss) (y ∷ js) s j (p, ps) (d, ds) (inl hs) (inr hj) e = absurd (
    d (
      subst (λ (n : Text). Among n (slave_names ss)) (sym e ∙ ap (λ (y : SlaveConfig). y.device) hs)
        (job_name-Among ss js j ps hj)))
paired-Among (x ∷ ss) (y ∷ js) s j (p, ps) (d, ds) (inr hs) (inl hj) e = absurd (
    d (
      subst (λ (n : Text). Among n (slave_names ss)) (e ∙ ap (λ (y : Job). y.device) hj ∙ sym p.0)
        (slave_names-Among s ss hs)))

-- A worker under the name of one of the devices: it runs a job of this name, with its properties under
-- their keys and an interval that is not zero, on the slave of this device, which has the instance
-- number of the job.
abbrev pub IsWorkerOf : List DeviceInfo → Text → Worker → Type 0
IsWorkerOf devices key w =
    (w.job.device ≡ key)
    × (w.slave.info.name ≡ key)
    × Among w.slave.info devices
    × (w.slave.device.id.number ≡ w.job.device_id)
    × IsFilled w.job

Entries-weaken :
    (P Q : Text → Worker → Type 0) (ws : List (Text × Worker))
    → ((key : Text) (w : Worker) → P key w → Q key w)
    → Entries P ws
    → Entries Q ws
Entries-weaken P Q [] f h = tt
Entries-weaken P Q ((k, w) ∷ ws) f (h, hs) = (f k w h, Entries-weaken P Q ws f hs)

served-IsWorkerOf :
    (devices : List DeviceInfo) (cfg : Config)
    → Distinct (slave_names cfg.slaves)
    → AllPaired cfg.slaves cfg.jobs
    → (key : Text) (w : Worker) → IsServed devices (fill_defaults cfg) key w
    → IsWorkerOf devices key w
served-IsWorkerOf devices cfg d p key w (dev, among, (name, known, own, number, slave)) =
    let (id, run) =
      paired-Among cfg.slaves cfg.jobs w.slave.cfg w.job p d slave among (own ∙ sym dev) in
    (dev, name, known, number ∙ id, run)

-- If the devices of the framework have different names, and SetDefaults fills the intervals that are
-- zero and no other field, then every worker of the service that main makes stands under the name of
-- a device of the framework, runs the job of this name, whose properties are under their keys and
-- whose interval is not zero, and has the slave of this device, which is the BACnet device with the
-- instance number that the job names.
pub driver-IsWorkerOf :
    (src : Source) (net : Network) (ctx : Context) (g g' : Globals) (b : Bacnet)
    → Distinct (names ctx.get_all_devices)
    → ((cfg : Config) → src.set_defaults cfg ≡ ok (fill_defaults cfg))
    → driver src net ctx g ≡ (ok b, g')
    → Entries (IsWorkerOf ctx.get_all_devices) b.ws
unfolding driver
driver-IsWorkerOf src net ctx g g' b d fills e = elim (Result-cases (gen_config src ctx)) [
  | inl (out, q) ↦
      let (cfg, s, ds, p) = gen_config-Distinct src ctx out d q in
      let filled : out ≡ fill_defaults cfg = ground (arith, s, fills cfg) in
      let made : new_bacnet net ctx (fill_defaults cfg) g ≡ (ok b, g') =
        subst (λ (c : Config). new_bacnet net ctx c g ≡ (ok b, g')) filled (rw q at e) in
      Entries-weaken (IsServed ctx.get_all_devices (fill_defaults cfg))
        (IsWorkerOf ctx.get_all_devices) b.ws (served-IsWorkerOf ctx.get_all_devices cfg ds p)
        (new_bacnet-IsServed net ctx (fill_defaults cfg) g g' b made)
  | inr (x, q) ↦ absurd (ground (arith, q, e))
]
