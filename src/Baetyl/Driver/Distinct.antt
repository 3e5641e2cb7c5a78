-- ===== src/Baetyl/Driver/Distinct.antt =====
-- The slaves that are configured have the names of different devices.
use baetyl_bacnet.Common.{
  ◌≡◌, inl, inr, sym, ap, subst, List, [], ◌∷◌, ◌++◌, Among, Among-append_left, arith, Option-cases,
}
use baetyl_bacnet.Common.Go.{ok}
use baetyl_bacnet.Common.Text.{Text}
use baetyl_bacnet.Dmp.Framework.{DeviceInfo}
use baetyl_bacnet.Baetyl.Config.{SlaveConfig, Job, Config}
use baetyl_bacnet.Baetyl.Worker.{Context}
use baetyl_bacnet.Baetyl.Setup.{Source, add_job, add_jobs, device_job, gen_config, new_slave_config}
use baetyl_bacnet.Baetyl.Setup.Aligned.{
  slave_names, slave_names-append, device_job-name, AllPaired, bind_passed, add_jobs-AllPaired,
}

-- No name occurs twice.
abbrev pub Distinct : List Text → Type 0
Distinct [] = Unit {0}
Distinct (x ∷ xs) = (Among x xs → ⊥) × Distinct xs

abbrev pub names : List DeviceInfo → List Text
names [] = []
names (i ∷ is) = i.name ∷ names is

Among-drop : (z y : Text) (xs ys : List Text) → Among z (xs ++ ys) → Among z (xs ++ (y ∷ ys))
Among-drop z y [] ys h = inr h
Among-drop z y (x ∷ xs) ys (inl q) = inl q
Among-drop z y (x ∷ xs) ys (inr h) = inr (Among-drop z y xs ys h)

Distinct-drop : (y : Text) (xs ys : List Text) → Distinct (xs ++ (y ∷ ys)) → Distinct (xs ++ ys)
Distinct-drop y [] ys h = h.1
Distinct-drop y (x ∷ xs) ys (h, hs) = (λ a. h (Among-drop x y xs ys a), Distinct-drop y xs ys hs)

Distinct-front : (xs ys : List Text) → Distinct (xs ++ ys) → Distinct xs
Distinct-front [] ys h = tt
Distinct-front (x ∷ xs) ys (h, hs) = (λ a. h (Among-append_left x xs ys a), Distinct-front xs ys hs)

module _ (src : Source) (ctx : Context) where
  add_jobs-Distinct :
      (slave : SlaveConfig) (infos : List DeviceInfo) (cfg out : Config)
      → Distinct (slave_names cfg.slaves ++ names infos)
      → add_jobs src ctx slave infos cfg ≡ ok out
      → Distinct (slave_names out.slaves)
  unfolding add_jobs
  add_jobs-Distinct slave [] cfg out h e =
      let same : cfg.slaves ≡ out.slaves = ground (arith, e) in
      subst Distinct (ap slave_names same) (Distinct-front (slave_names cfg.slaves) [] h)
  add_jobs-Distinct slave (info ∷ infos) cfg out h e = elim (Option-cases info.custom) [
    | inl q ↦
        add_jobs-Distinct slave infos cfg out
          (Distinct-drop info.name (slave_names cfg.slaves) (names infos) h) (ground (arith, q, e))
    | inr (custom, q) ↦
        let (r, d, e') =
          bind_passed (device_job src ctx slave info custom)
            (λ (r : SlaveConfig × Job). add_jobs src ctx slave infos (add_job src cfg r)) out
            (ground (arith, q, e)) in
        let named : r.0.device ≡ info.name = device_job-name src ctx slave r.0 info custom r.1 d in
        add_jobs-Distinct slave infos (add_job src cfg r) out
          (subst Distinct (sym (slave_names-append cfg.slaves r.0 (names infos))) (rw named h)) e'
  ]

  -- `genConfig` gives its slaves different names, if the devices of the framework have.
  pub gen_config-Distinct :
      (out : Config)
      → Distinct (names ctx.get_all_devices)
      → gen_config src ctx ≡ ok out
      → (cfg : Config) × (src.set_defaults cfg ≡ ok out)
        × Distinct (slave_names cfg.slaves)
        × AllPaired cfg.slaves cfg.jobs
  unfolding gen_config
  gen_config-Distinct out h e =
      let (slave, a, e1) =
        bind_passed (src.decode_slave src.driver_config new_slave_config) _ out e in
      let start : Config = record { slaves = []; jobs = [] } in
      let (cfg, b, e2) = bind_passed (add_jobs src ctx slave ctx.get_all_devices start) _ out e1 in
      (
        cfg,
        e2,
        add_jobs-Distinct slave ctx.get_all_devices start cfg h b,
        add_jobs-AllPaired src ctx slave ctx.get_all_devices start cfg tt b,
      )
