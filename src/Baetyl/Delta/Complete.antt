-- ===== src/Baetyl/Delta/Complete.antt =====
-- When DeltaCallback returns without an error, everything asked for was written.
use baetyl_bacnet.Common.{
  ℕ, ◌≡◌, inl, inr, sym, ap, subst, ◌∙◌, List, [], ◌∷◌, Option, none, some, false, arith, Among,
  Bool-cases,
}
use baetyl_bacnet.Common.Go.{Error, Result, ok, err, Outcome, returns, ◌>>=◌, Outcome-cases}
use baetyl_bacnet.Common.Text.{Text, same_text, same_text_refl}
use baetyl_bacnet.Common.Dict.{lookup}
use baetyl_bacnet.Bacnet.Value.{Value}
use baetyl_bacnet.Bacip.Services.{WriteProperty}
use baetyl_bacnet.Dmp.Framework.{DeviceInfo, AccessTemplate, Dmcontext, Floats}
use baetyl_bacnet.Dmp.Adapter.{get_config_id_by_model_name, get_prop_value_by_model_name}
use baetyl_bacnet.Baetyl.Config.{Property}
use baetyl_bacnet.Baetyl.Slave.{Slave}
use baetyl_bacnet.Baetyl.Worker.{Worker, Context, Bus}
use baetyl_bacnet.Baetyl.Delta.{
  go_on, write_of, write_value, convert, write_converted, next_write, write_property_of,
  write_named, named, write_change, change, changes, delta_callback,
}
use baetyl_bacnet.Baetyl.Delta.Covers.{Covers, Either, Covers-less, Covers-go_on, Covers-bind}
use baetyl_bacnet.Baetyl.Delta.Writes.{Asked, ChangeAsks, DeltaAsks}
use baetyl_bacnet.Baetyl.Delta.Done.{AllDone, delta_callback-AllDone}

-- The write of a property, once its value is converted.
abbrev Converted : Floats → Value → Property → WriteProperty → Type 0
Converted fl val p wp =
    (v : Value) × (convert fl p.application_tag_number val ≡ returns (ok v)) × (wp ≡ write_of p v)

same_value :
    (v w : Value) → ◌≡◌ {A = Outcome (Result Value)} (returns (ok v)) (returns (ok w)) → v ≡ w
same_value v w e = ground arith

module _ (fl : Floats) (bus : Bus) (s : Slave) (name : Text) (val : Value) where
  write_value-Covers :
      (n : ℕ) (given : WriteProperty) → Covers (λ wp. wp ≡ given) (write_value bus n s given)
  unfolding write_value
  write_value-Covers n given = elim (Outcome-cases (bus.write n s.client s.device given)) [
    | inl (none, q) ↦ rw q (λ wp e. inl e)
    | inl (some e, q) ↦ rw q tt
    | inr q ↦ rw q tt
  ]

  write_converted-Covers :
      (n : ℕ) (p : Property) (r : Result Value)
      → convert fl p.application_tag_number val ≡ returns r
      → Covers (Converted fl val p) (write_converted bus n s p r)
  write_converted-Covers n p (err e) c = tt
  write_converted-Covers n p (ok v) c =
      Covers-less (Converted fl val p) (λ wp. wp ≡ write_of p v)
        (write_value bus n s (write_of p v))
        (λ wp (v', c', e). e ∙ ap (write_of p) (same_value v' v (sym c' ∙ c)))
        (write_value-Covers n (write_of p v))

  write_property_of-Covers :
      (n : ℕ) (p : Property) → Covers (Converted fl val p) (write_property_of fl bus n s val p)
  unfolding write_property_of
  write_property_of-Covers n p = elim (Outcome-cases (convert fl p.application_tag_number val)) [
    | inl (r, q) ↦ rw q (write_converted-Covers n p r q)
    | inr q ↦ rw q tt
  ]

  write_named-Covers :
      (n : ℕ) (ps : List (Text × Property))
      → Covers (Asked fl name val ps) (write_named fl bus n s name val ps)
  unfolding write_named
  write_named-Covers n [] = λ wp h. absurd h
  write_named-Covers n ((key, p) ∷ ps) =
      let rest =
        λ (x : List WriteProperty × Option Error). write_named-Covers (next_write x n) ps in
      elim (Bool-cases (same_text name p.name)) [
        | inl q ↦ rw q (
            Covers-less (Asked fl name val ((key, p) ∷ ps))
              (Either (Converted fl val p) (Asked fl name val ps))
              (write_property_of fl bus n s val p >>= λ x.
                go_on x (write_named fl bus (next_write x n) s name val ps))
              asked_first
              (Covers-bind (Converted fl val p) (Asked fl name val ps)
                (write_property_of fl bus n s val p)
                (λ x. write_named fl bus (next_write x n) s name val ps)
                (write_property_of-Covers n p) rest))
        | inr q ↦ rw q (
            Covers-less (Asked fl name val ((key, p) ∷ ps))
              (Either (λ wp. ⊥) (Asked fl name val ps))
              (go_on ([], none) (write_named fl bus n s name val ps)) (asked_later q)
              (Covers-go_on (λ wp. ⊥) (Asked fl name val ps) ([], none)
                (write_named fl bus n s name val ps) (λ wp h. absurd h) (rest ([], none))))
      ]
    where
      asked_first :
          (wp : WriteProperty)
          → Asked fl name val ((key, p) ∷ ps) wp
          → Either (Converted fl val p) (Asked fl name val ps) wp
      asked_first wp (inl (v, e, c, w)) = inl (v, c, w)
      asked_first wp (inr a) = inr a

      asked_later :
          same_text name p.name ≡ false
          → (wp : WriteProperty) → Asked fl name val ((key, p) ∷ ps) wp
          → Either (λ wp. ⊥) (Asked fl name val ps) wp
      asked_later q wp (inl (v, e, c, w)) = absurd (ground (arith, same_text_refl name, rw e at q))
      asked_later q wp (inr a) = inr a

module _ (dm : Dmcontext) (fl : Floats) (bus : Bus) (w : Worker) (t : AccessTemplate) where
  -- What a change whose names and value are known asks for.
  abbrev Known : Option Text → Result Value → WriteProperty → Type 0
  Known o r wp =
      (name : Text) × (v : Value) × (o ≡ some name)
      × (r ≡ ok v)
      × Asked fl name v w.job.properties wp

  write_change-Covers :
      (n : ℕ) (o : Option Text) (r : Result Value)
      → Covers (Known o r) (write_change fl bus n w o r)
  write_change-Covers n none r = λ wp (name, v, e, f, a). absurd (ground (arith, e))
  write_change-Covers n (some name) (err x) = λ wp (name', v, e, f, a). absurd (ground (arith, f))
  write_change-Covers n (some name) (ok v) =
      Covers-less (Known (some name) (ok v)) (Asked fl name v w.job.properties)
        (write_named fl bus n w.slave name v w.job.properties)
        (λ wp (name', v', e, f, a). asked wp name' v' e f a)
        (write_named-Covers fl bus w.slave name v n w.job.properties)
    where
      asked :
          (wp : WriteProperty) (name' : Text) (v' : Value)
          → ◌≡◌ {A = Option Text} (some name) (some name')
          → ◌≡◌ {A = Result Value} (ok v) (ok v')
          → Asked fl name' v' w.job.properties wp
          → Asked fl name v w.job.properties wp
      asked wp name' v' e f a =
          let names : name' ≡ name = ground arith in
          let values : v' ≡ v = ground arith in
          subst (λ (x : Text). Asked fl x v w.job.properties wp) names
            (subst (λ (y : Value). Asked fl name' y w.job.properties wp) values a)

  same_id :
      (id id' : Result Text)
      → ◌≡◌ {A = Outcome (Result Text)} (returns id) (returns id')
      → named t id ≡ named t id'
  same_id id id' e = let same : id ≡ id' = ground arith in ap (named t) same

  change-Covers :
      (n : ℕ) (key : Text) (val : Value)
      → Covers (ChangeAsks dm fl t w.job.properties key val) (change dm fl bus n w t key val)
  unfolding change
  change-Covers n key val = elim (Outcome-cases (get_config_id_by_model_name dm key t)) [
    | inl (id, q) ↦ rw q (
        Covers-less (ChangeAsks dm fl t w.job.properties key val)
          (Known (named t id) (get_prop_value_by_model_name dm fl key val t))
          (write_change fl bus n w (named t id) (get_prop_value_by_model_name dm fl key val t))
          (λ wp (id', name, v, q', nm, pv, a). (name, v, same_id id id' (sym q ∙ q') ∙ nm, pv, a))
          (write_change-Covers n (named t id) (get_prop_value_by_model_name dm fl key val t)))
    | inr q ↦ rw q tt
  ]

  changes-Covers :
      (n : ℕ) (delta : List (Text × Value))
      → Covers (DeltaAsks dm fl t w.job.properties delta) (changes dm fl bus n w t delta)
  unfolding changes
  changes-Covers n [] = λ wp h. absurd h
  changes-Covers n ((key, val) ∷ delta) =
      let rest = λ (x : List WriteProperty × Option Error). changes-Covers (next_write x n) delta in
      Covers-bind (ChangeAsks dm fl t w.job.properties key val)
        (DeltaAsks dm fl t w.job.properties delta) (change dm fl bus n w t key val)
        (λ x. changes dm fl bus (next_write x n) w t delta) (change-Covers n key val) rest

-- If `DeltaCallback` returns without an error, then whatever the framework asked for was written:
-- where a changed attribute names a property of the device's job through the template, and its value
-- is computed and converted to the property's type, the write of this value is among those
-- attempted, and the device answered all of these without an error.
pub delta_callback-AllDone_asked :
    (dm : Dmcontext) (fl : Floats) (ctx : Context) (bus : Bus) (n : ℕ) (ws : List (Text × Worker))
    (info : DeviceInfo) (delta : List (Text × Value)) (w : Worker) (t : AccessTemplate)
    (writes : List WriteProperty) (wp : WriteProperty)
    → lookup info.name ws ≡ some w
    → ctx.get_access_templates info ≡ ok (some t)
    → delta_callback dm fl ctx bus n ws info delta ≡ returns (writes, none)
    → DeltaAsks dm fl t w.job.properties delta wp
    → Among wp writes × AllDone bus w.slave n writes
unfolding delta_callback
delta_callback-AllDone_asked dm fl ctx bus n ws info delta w t writes wp l g r asks =
    let run : changes dm fl bus n w t delta ≡ returns (writes, none) = ground (arith, l, g, r) in
    let covered =
      subst (Covers (DeltaAsks dm fl t w.job.properties delta)) run
        (changes-Covers dm fl bus w t n delta) in
    (covered wp asks, delta_callback-AllDone dm fl ctx bus n ws info delta w t writes l g r)
