-- ===== src/Baetyl/Delta/Done.antt =====
-- When DeltaCallback returns without an error, its writes are done.
use baetyl_bacnet.Common.{
  ℕ, suc, ◌≡◌, ◌≢◌, inl, inr, subst, List, [], ◌∷◌, ◌++◌, Option, none, some, arith, Bool-cases,
}
use baetyl_bacnet.Common.Go.{Error, Result, ok, err, returns, panics, ◌>>=◌, Outcome-cases}
use baetyl_bacnet.Common.Text.{Text, same_text, same_text_refl}
use baetyl_bacnet.Common.Dict.{lookup}
use baetyl_bacnet.Bacnet.Value.{Value, nil, type_boolean, type_real, type_enumerated}
use baetyl_bacnet.Bacip.Services.{WriteProperty}
use baetyl_bacnet.Dmp.Framework.{DeviceInfo, AccessTemplate, Dmcontext, Floats}
use baetyl_bacnet.Dmp.Adapter.{get_config_id_by_model_name, get_prop_value_by_model_name}
use baetyl_bacnet.Baetyl.Config.{Property}
use baetyl_bacnet.Baetyl.Slave.{Slave}
use baetyl_bacnet.Baetyl.Worker.{Worker, Context, Bus}
use baetyl_bacnet.Baetyl.Delta.{
  Ran, go_on, write_of, write_value, convert, write_converted, next_write, write_property_of,
  write_named, named, write_change, change, changes, delta_callback,
}

-- The writes, from the n-th on, were answered without an error.
abbrev pub AllDone : Bus → Slave → ℕ → List WriteProperty → Type 0
AllDone bus s n [] = Unit {0}
AllDone bus s n (wp ∷ ws) =
    (bus.write n s.client s.device wp ≡ returns none) × AllDone bus s (suc n) ws

abbrev Succeeds : Bus → Slave → ℕ → Ran → Type 0
Succeeds bus s n panics = Unit {0}
Succeeds bus s n (returns (ws, some e)) = Unit {0}
Succeeds bus s n (returns (ws, none)) = AllDone bus s n ws

module _ (bus : Bus) (s : Slave) where
  AllDone-append :
      (n : ℕ) (ws more : List WriteProperty)
      → AllDone bus s n ws
      → AllDone bus s (next_write (ws, none) n) more
      → AllDone bus s n (ws ++ more)
  AllDone-append n [] more h k = k
  AllDone-append n (wp ∷ ws) more (h, hs) k = (h, AllDone-append (suc n) ws more hs k)

  Succeeds-go_on :
      (n : ℕ) (x : List WriteProperty × Option Error) (next : Ran)
      → Succeeds bus s n (returns x)
      → Succeeds bus s (next_write x n) next
      → Succeeds bus s n (go_on x next)
  Succeeds-go_on n (ws, some e) next h k = tt
  Succeeds-go_on n (ws, none) panics h k = tt
  Succeeds-go_on n (ws, none) (returns (more, some e)) h k = tt
  Succeeds-go_on n (ws, none) (returns (more, none)) h k = AllDone-append n ws more h k

  Succeeds-bind :
      (n : ℕ) (r : Ran) (next : List WriteProperty × Option Error → Ran)
      → Succeeds bus s n r
      → ((x : List WriteProperty × Option Error) → Succeeds bus s (next_write x n) (next x))
      → Succeeds bus s n (r >>= λ x. go_on x (next x))
  Succeeds-bind n panics next h k = tt
  Succeeds-bind n (returns x) next h k = Succeeds-go_on n x (next x) h (k x)

  write_value-Succeeds : (n : ℕ) (wp : WriteProperty) → Succeeds bus s n (write_value bus n s wp)
  unfolding write_value
  write_value-Succeeds n wp = elim (Outcome-cases (bus.write n s.client s.device wp)) [
    | inl (none, q) ↦ rw q (q, tt)
    | inl (some e, q) ↦ rw q tt
    | inr q ↦ rw q tt
  ]

  write_converted-Succeeds :
      (n : ℕ) (p : Property) (r : Result Value) → Succeeds bus s n (write_converted bus n s p r)
  write_converted-Succeeds n p (err e) = tt
  write_converted-Succeeds n p (ok v) = write_value-Succeeds n (write_of p v)

  module _ (fl : Floats) where
    write_property_of-Succeeds :
        (n : ℕ) (val : Value) (p : Property) → Succeeds bus s n (write_property_of fl bus n s val p)
    unfolding write_property_of
    write_property_of-Succeeds n val p =
        elim (Outcome-cases (convert fl p.application_tag_number val)) [
          | inl (r, q) ↦ rw q (write_converted-Succeeds n p r)
          | inr q ↦ rw q tt
        ]

    write_named-Succeeds :
        (n : ℕ) (name : Text) (val : Value) (ps : List (Text × Property))
        → Succeeds bus s n (write_named fl bus n s name val ps)
    unfolding write_named
    write_named-Succeeds n name val [] = tt
    write_named-Succeeds n name val ((key, p) ∷ ps) =
        let rest = λ (x : List WriteProperty × Option Error).
          write_named-Succeeds (next_write x n) name val ps in
        elim (Bool-cases (same_text name p.name)) [
          | inl q ↦ rw q (
              Succeeds-bind n (write_property_of fl bus n s val p)
                (λ x. write_named fl bus (next_write x n) s name val ps)
                (write_property_of-Succeeds n val p) rest)
          | inr q ↦ rw q (
              Succeeds-go_on n ([], none) (write_named fl bus n s name val ps) tt (rest ([], none)))
        ]

module _ (dm : Dmcontext) (fl : Floats) (bus : Bus) (w : Worker) (t : AccessTemplate) where
  write_change-Succeeds :
      (n : ℕ) (o : Option Text) (r : Result Value)
      → Succeeds bus w.slave n (write_change fl bus n w o r)
  write_change-Succeeds n none r = tt
  write_change-Succeeds n (some name) (err e) = tt
  write_change-Succeeds n (some name) (ok v) =
      write_named-Succeeds bus w.slave fl n name v w.job.properties

  change-Succeeds :
      (n : ℕ) (key : Text) (val : Value) → Succeeds bus w.slave n (change dm fl bus n w t key val)
  unfolding change
  change-Succeeds n key val = elim (Outcome-cases (get_config_id_by_model_name dm key t)) [
    | inl (id, q) ↦
        rw q (write_change-Succeeds n (named t id) (get_prop_value_by_model_name dm fl key val t))
    | inr q ↦ rw q tt
  ]

  changes-Succeeds :
      (n : ℕ) (delta : List (Text × Value)) → Succeeds bus w.slave n (changes dm fl bus n w t delta)
  unfolding changes
  changes-Succeeds n [] = tt
  changes-Succeeds n ((key, val) ∷ delta) =
      let rest =
        λ (x : List WriteProperty × Option Error). changes-Succeeds (next_write x n) delta in
      Succeeds-bind bus w.slave n (change dm fl bus n w t key val)
        (λ x. changes dm fl bus (next_write x n) w t delta) (change-Succeeds n key val) rest

-- If `DeltaCallback` returns without an error, then the device answered every write that it attempted
-- without an error.
pub delta_callback-AllDone :
    (dm : Dmcontext) (fl : Floats) (ctx : Context) (bus : Bus) (n : ℕ) (ws : List (Text × Worker))
    (info : DeviceInfo) (delta : List (Text × Value)) (w : Worker) (t : AccessTemplate)
    (writes : List WriteProperty)
    → lookup info.name ws ≡ some w
    → ctx.get_access_templates info ≡ ok (some t)
    → delta_callback dm fl ctx bus n ws info delta ≡ returns (writes, none)
    → AllDone bus w.slave n writes
unfolding delta_callback
delta_callback-AllDone dm fl ctx bus n ws info delta w t writes l g r =
    let run : changes dm fl bus n w t delta ≡ returns (writes, none) = ground (arith, l, g, r) in
    subst (Succeeds bus w.slave n) run (changes-Succeeds dm fl bus w t n delta)

write_property_of_nil :
    (fl : Floats) (bus : Bus) (n : ℕ) (s : Slave) (p : Property)
    → p.application_tag_number ≢ type_boolean
    → p.application_tag_number ≢ type_real
    → p.application_tag_number ≢ type_enumerated
    → write_property_of fl bus n s nil p ≡ panics
unfolding write_property_of convert
write_property_of_nil fl bus n s p a b c = ground arith

-- Null as the new value of an attribute makes `DeltaCallback` panic, if the template maps the attribute
-- to the first property of the device's job and hands the value on, and the type of this property
-- is not Boolean, Real or Enumerated.
pub delta_callback_null :
    (dm : Dmcontext) (fl : Floats) (ctx : Context) (bus : Bus) (n : ℕ) (ws : List (Text × Worker))
    (info : DeviceInfo) (key : Text) (delta : List (Text × Value)) (w : Worker) (t : AccessTemplate)
    (id : Result Text) (k : Text) (p : Property) (ps : List (Text × Property))
    → lookup info.name ws ≡ some w
    → ctx.get_access_templates info ≡ ok (some t)
    → get_config_id_by_model_name dm key t ≡ returns id
    → named t id ≡ some p.name
    → get_prop_value_by_model_name dm fl key nil t ≡ ok nil
    → w.job.properties ≡ (k, p) ∷ ps
    → p.application_tag_number ≢ type_boolean
    → p.application_tag_number ≢ type_real
    → p.application_tag_number ≢ type_enumerated
    → delta_callback dm fl ctx bus n ws info ((key, nil) ∷ delta) ≡ panics
unfolding delta_callback changes change write_named
delta_callback_null dm fl ctx bus n ws info key delta w t id k p ps l g i nm v props a b c =
    ground (
      arith,
      l,
      g,
      i,
      nm,
      v,
      props,
      same_text_refl p.name,
      write_property_of_nil fl bus n w.slave p a b c,
    )
