-- ===== src/Baetyl/Setup/Aligned.antt =====
-- Every job of the configuration has its slave.
use baetyl_bacnet.Common.{
  ℕ, ◌+◌, ◌<◌, ◌%◌, ◌≡◌, ◌∙◌, inl, inr, refl, sym, ap, subst, append-nil, List, [], ◌∷◌, ◌++◌,
  Option, none, some, arith, Option-cases,
}
use baetyl_bacnet.Common.Go.{Result, ok, err}
use baetyl_bacnet.Common.Text.{Text}
use baetyl_bacnet.Common.Dict.{Entries, put-Entries}
use baetyl_bacnet.Dmp.Framework.{DeviceProperty, DeviceInfo}
use baetyl_bacnet.Baetyl.Config.{SlaveConfig, Property, Job, Config}
use baetyl_bacnet.Baetyl.Worker.{Context}
use baetyl_bacnet.Baetyl.Setup.{
  Source, ◌>>=◌, new_job, property_key, configured, put_property, add_property, job_map,
  template_properties, device_job, add_job, add_jobs, gen_config, new_slave_config, new_property,
}

-- A property stands under its own type and address, which is a uint.
abbrev pub IsKeyed : Text → Property → Type 0
IsKeyed key p =
    (key ≡ property_key p.bacnet_type p.bacnet_address) × (p.bacnet_address < 18446744073709551616)

-- A slave and a job for one device: the same name, the same instance, the same interval, and the
-- job's properties under their keys.
abbrev pub Pairs : SlaveConfig → Job → Type 0
Pairs s j =
    (s.device ≡ j.device)
    × (s.device_id ≡ j.device_id)
    × (s.interval ≡ j.interval)
    × Entries IsKeyed j.properties

-- The slaves and the jobs in the same order, and as many.
abbrev pub AllPaired : List SlaveConfig → List Job → Type 0
AllPaired [] [] = Unit {0}
AllPaired (s ∷ ss) (j ∷ js) = Pairs s j × AllPaired ss js
AllPaired _ _ = ⊥

AllPaired-append :
    (ss : List SlaveConfig) (js : List Job) (s : SlaveConfig) (j : Job)
    → AllPaired ss js
    → Pairs s j
    → AllPaired (ss ++ s ∷ []) (js ++ j ∷ [])
AllPaired-append [] [] s j h p = (p, tt)
AllPaired-append (x ∷ ss) (y ∷ js) s j (h, hs) p = (h, AllPaired-append ss js s j hs p)
AllPaired-append [] (y ∷ js) s j h p = absurd h
AllPaired-append (x ∷ ss) [] s j h p = absurd h

abbrev pub name_if : Text → Option Text → List Text → List Text
name_if name none names = names
name_if name (some custom) names = name ∷ names

-- The names of the devices that have a configuration of their own, in order.
abbrev pub configured_names : List DeviceInfo → List Text
configured_names [] = []
configured_names (info ∷ infos) = name_if info.name info.custom (configured_names infos)

abbrev pub slave_names : List SlaveConfig → List Text
slave_names [] = []
slave_names (s ∷ ss) = s.device ∷ slave_names ss

pub slave_names-append :
    (ss : List SlaveConfig) (s : SlaveConfig) (rest : List Text)
    → slave_names (ss ++ s ∷ []) ++ rest ≡ slave_names ss ++ (s.device ∷ rest)
slave_names-append [] s rest = refl
slave_names-append (x ∷ ss) s rest = ap (λ xs. x.device ∷ xs) (slave_names-append ss s rest)

-- A step of the `do` blocks that went through.
pub bind_passed :
    {A B : Type 0} (r : Result A) (f : A → Result B) (b : B)
    → (r >>= f) ≡ ok b
    → (a : A) × (r ≡ ok a) × (f a ≡ ok b)
bind_passed (ok a) f b h = (a, refl, h)
bind_passed (err e) f b h = absurd (ground arith)

module _ (src : Source) where
  put_property-IsKeyed :
      (offset : ℕ) (prop : DeviceProperty) (p : Property) (m : List (Text × Property))
      → Entries IsKeyed m
      → Entries IsKeyed (put_property (configured offset prop p) m)
  put_property-IsKeyed offset prop p m h =
      put-Entries IsKeyed
        (property_key p.bacnet_type ((p.bacnet_address + offset) % 18446744073709551616))
        (configured offset prop p) m (refl, omega arith) h

  add_property-IsKeyed :
      (offset : ℕ) (prop : DeviceProperty) (v : Option Text) (m out : List (Text × Property))
      → Entries IsKeyed m
      → add_property src offset prop v m ≡ ok out
      → Entries IsKeyed out
  add_property-IsKeyed offset prop none m out h e = subst (Entries IsKeyed) (ground (arith, e)) h
  add_property-IsKeyed offset prop (some visitor) m out h e =
      let (p, d, r) = bind_passed (src.decode_property visitor new_property) _ out e in
      subst (Entries IsKeyed) (ground (arith, r)) (put_property-IsKeyed offset prop p m h)

  job_map-IsKeyed :
      (offset : ℕ) (props : List DeviceProperty) (m out : List (Text × Property))
      → Entries IsKeyed m
      → job_map src offset props m ≡ ok out
      → Entries IsKeyed out
  unfolding job_map
  job_map-IsKeyed offset [] m out h e = subst (Entries IsKeyed) (ground (arith, e)) h
  job_map-IsKeyed offset (prop ∷ props) m out h e =
      let (m', a, r) = bind_passed (add_property src offset prop prop.visitor m) _ out e in
      job_map-IsKeyed offset props m' out (add_property-IsKeyed offset prop prop.visitor m m' h a) r

  device_job-Pairs :
      (ctx : Context) (slave s : SlaveConfig) (info : DeviceInfo) (custom : Text) (j : Job)
      → device_job src ctx slave info custom ≡ ok (s, j)
      → Pairs s j
  unfolding device_job
  device_job-Pairs ctx slave s info custom j e =
      let (job, a, e1) = bind_passed (src.decode_job custom new_job) _ (s, j) e in
      let (template, b, e2) = bind_passed (ctx.get_access_templates info) _ (s, j) e1 in
      let (m, c, e3) =
        bind_passed (job_map src job.address_offset (template_properties src template) []) _ (s, j)
          e2 in
      let keyed = job_map-IsKeyed job.address_offset (template_properties src template) [] m tt c in
      (
        ground (arith, e3),
        ground (arith, e3),
        ground (arith, e3),
        subst (Entries IsKeyed) (ground (arith, e3)) keyed,
      )

  pub add_jobs-AllPaired :
      (ctx : Context) (slave : SlaveConfig) (infos : List DeviceInfo) (cfg out : Config)
      → AllPaired cfg.slaves cfg.jobs
      → add_jobs src ctx slave infos cfg ≡ ok out
      → AllPaired out.slaves out.jobs
  unfolding add_jobs
  add_jobs-AllPaired ctx slave [] cfg out h e =
      subst (λ (c : Config). AllPaired c.slaves c.jobs) (ground (arith, e)) h
  add_jobs-AllPaired ctx slave (info ∷ infos) cfg out h e = elim (Option-cases info.custom) [
    | inl q ↦ add_jobs-AllPaired ctx slave infos cfg out h (ground (arith, q, e))
    | inr (custom, q) ↦
        let (r, d, e') =
          bind_passed (device_job src ctx slave info custom)
            (λ (r : SlaveConfig × Job). add_jobs src ctx slave infos (add_job src cfg r)) out
            (ground (arith, q, e)) in
        add_jobs-AllPaired ctx slave infos (add_job src cfg r) out
          (AllPaired-append cfg.slaves cfg.jobs r.0 r.1 h
            (device_job-Pairs ctx slave r.0 info custom r.1 d))
          e'
  ]

  pub device_job-name :
      (ctx : Context) (slave s : SlaveConfig) (info : DeviceInfo) (custom : Text) (j : Job)
      → device_job src ctx slave info custom ≡ ok (s, j)
      → s.device ≡ info.name
  unfolding device_job
  device_job-name ctx slave s info custom j e =
      let (job, a, e1) = bind_passed (src.decode_job custom new_job) _ (s, j) e in
      let (template, b, e2) = bind_passed (ctx.get_access_templates info) _ (s, j) e1 in
      let (m, c, e3) =
        bind_passed (job_map src job.address_offset (template_properties src template) []) _ (s, j)
          e2 in
      ground (arith, e3)

  add_jobs-names :
      (ctx : Context) (slave : SlaveConfig) (infos : List DeviceInfo) (cfg out : Config)
      → add_jobs src ctx slave infos cfg ≡ ok out
      → slave_names out.slaves ≡ slave_names cfg.slaves ++ configured_names infos
  unfolding add_jobs
  add_jobs-names ctx slave [] cfg out e =
      let same : out.slaves ≡ cfg.slaves = ground (arith, e) in
      ap slave_names same ∙ sym (append-nil (slave_names cfg.slaves))
  add_jobs-names ctx slave (info ∷ infos) cfg out e = elim (Option-cases info.custom) [
    | inl q ↦ rw q (add_jobs-names ctx slave infos cfg out (ground (arith, q, e)))
    | inr (custom, q) ↦
        let (r, d, e') =
          bind_passed (device_job src ctx slave info custom)
            (λ (r : SlaveConfig × Job). add_jobs src ctx slave infos (add_job src cfg r)) out
            (ground (arith, q, e)) in
        let named : r.0.device ≡ info.name = device_job-name ctx slave r.0 info custom r.1 d in
        rw q (
          add_jobs-names ctx slave infos (add_job src cfg r) out e'
          ∙ slave_names-append cfg.slaves r.0 (configured_names infos)
          ∙ ap (λ (x : Text). slave_names cfg.slaves ++ (x ∷ configured_names infos)) named)
  ]

-- The configuration that is generated, before its defaults are set, has one slave for each device of
-- the framework with a configuration of its own, under the name of this device and in the order of
-- the devices, and one job for each slave, in the same order, with the same name, instance and
-- interval; and each property of a job stands under its own type and address, which fits a uint
-- also where the offset makes it wrap.
pub gen_config-AllPaired :
    (src : Source) (ctx : Context) (out : Config)
    → gen_config src ctx ≡ ok out
    → (cfg : Config) × (src.set_defaults cfg ≡ ok out)
      × AllPaired cfg.slaves cfg.jobs
      × (slave_names cfg.slaves ≡ configured_names ctx.get_all_devices)
unfolding gen_config
gen_config-AllPaired src ctx out e =
    let (slave, a, e1) =
      bind_passed (src.decode_slave src.driver_config new_slave_config) _ out e in
    let (cfg, b, e2) =
      bind_passed (add_jobs src ctx slave ctx.get_all_devices (record { slaves = []; jobs = [] })) _
        out e1 in
    (
      cfg,
      e2,
      add_jobs-AllPaired src ctx slave ctx.get_all_devices (record { slaves = []; jobs = [] }) cfg
          tt b,
      add_jobs-names src ctx slave ctx.get_all_devices (record { slaves = []; jobs = [] }) cfg b,
    )
