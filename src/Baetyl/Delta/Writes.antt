-- ===== src/Baetyl/Delta/Writes.antt =====
-- Which writes a change of the framework leads to.
use baetyl_bacnet.Common.{
  ℕ, ◌≡◌, ◌⊎◌, inl, inr, refl, sym, subst, List, [], ◌∷◌, Option, none, some, arith, All,
  All-append, Bool-cases,
}
use baetyl_bacnet.Common.Go.{Error, Result, ok, err, returns, panics, ◌>>=◌, Outcome-cases}
use baetyl_bacnet.Common.Text.{Text, same_text, same_text-eq}
use baetyl_bacnet.Common.Dict.{lookup}
use baetyl_bacnet.Bacnet.Value.{Value}
use baetyl_bacnet.Bacip.Services.{WriteProperty}
use baetyl_bacnet.Dmp.Framework.{DeviceInfo, AccessTemplate, Dmcontext, Floats}
use baetyl_bacnet.Dmp.Adapter.{get_config_id_by_model_name, get_prop_value_by_model_name}
use baetyl_bacnet.Baetyl.Config.{Property}
use baetyl_bacnet.Baetyl.Slave.{Slave}
use baetyl_bacnet.Baetyl.Worker.{Worker, Context, Bus}
use baetyl_bacnet.Baetyl.Delta.{
  Ran, go_on, write_of, write_value, convert, write_converted, next_write, write_property_of,
  write_named, named, write_change, change, changes, delta_callback,
}

-- What holds of the writes if the run does not panic.
abbrev Runs : (WriteProperty → Type 0) → Ran → Type 0
Runs P panics = Unit {0}
Runs P (returns (ws, e)) = All P ws

module _ (P : WriteProperty → Type 0) where
  Runs-go_on :
      (ws : List WriteProperty) (e : Option Error) (next : Ran)
      → All P ws
      → Runs P next
      → Runs P (go_on (ws, e) next)
  Runs-go_on ws (some e) next h k = h
  Runs-go_on ws none panics h k = tt
  Runs-go_on ws none (returns (more, e)) h k = All-append P ws more h k

  Runs-bind :
      (r : Ran) (next : List WriteProperty × Option Error → Ran)
      → Runs P r
      → ((x : List WriteProperty × Option Error) → Runs P (next x))
      → Runs P (r >>= λ x. go_on x (next x))
  Runs-bind panics next h k = tt
  Runs-bind (returns (ws, e)) next h k = Runs-go_on ws e (next (ws, e)) h (k (ws, e))

-- A property of the job of this name takes the value, converted to its type.
abbrev pub Asked : Floats → Text → Value → List (Text × Property) → WriteProperty → Type 0
Asked fl name val [] wp = ⊥
Asked fl name val ((key, p) ∷ ps) wp =
    ((v : Value) × (p.name ≡ name)
      × (convert fl p.application_tag_number val ≡ returns (ok v))
      × (wp ≡ write_of p v))
    ⊎ Asked fl name val ps wp

module _ (P : WriteProperty → Type 0) (fl : Floats) (bus : Bus) (s : Slave) (name : Text)
    (val : Value) where
  write_converted-Runs :
      (n : ℕ) (p : Property) (r : Result Value)
      → ((v : Value) → r ≡ ok v → P (write_of p v))
      → Runs P (write_converted bus n s p r)
  unfolding write_value
  write_converted-Runs n p (err e) h = tt
  write_converted-Runs n p (ok v) h =
      elim (Outcome-cases (bus.write n s.client s.device (write_of p v))) [
        | inl (e, q) ↦ rw q (h v refl, tt)
        | inr q ↦ rw q tt
      ]

  write_property_of-Runs :
      (n : ℕ) (p : Property)
      → ((v : Value) → convert fl p.application_tag_number val ≡ returns (ok v) → P (write_of p v))
      → Runs P (write_property_of fl bus n s val p)
  unfolding write_property_of
  write_property_of-Runs n p h = elim (Outcome-cases (convert fl p.application_tag_number val)) [
    | inl (r, q) ↦ rw q (write_converted-Runs n p r (λ v f. h v (rw (q, f))))
    | inr q ↦ rw q tt
  ]

  write_named-Runs :
      (n : ℕ) (ps : List (Text × Property))
      → ((wp : WriteProperty) → Asked fl name val ps wp → P wp)
      → Runs P (write_named fl bus n s name val ps)
  unfolding write_named
  write_named-Runs n [] h = tt
  write_named-Runs n ((key, p) ∷ ps) h =
      let rest = λ (x : List WriteProperty × Option Error).
        write_named-Runs (next_write x n) ps (λ wp a. h wp (inr a)) in
      elim (Bool-cases (same_text name p.name)) [
        | inl q ↦ rw q (
            Runs-bind P (write_property_of fl bus n s val p)
              (λ x. write_named fl bus (next_write x n) s name val ps)
              (write_property_of-Runs n p
                (λ v f. h (write_of p v) (inl (v, sym (same_text-eq name p.name q), f, refl))))
              rest)
        | inr q ↦
            rw q (Runs-go_on P [] none (write_named fl bus n s name val ps) tt (rest ([], none)))
      ]

module _ (dm : Dmcontext) (fl : Floats) (t : AccessTemplate) (props : List (Text × Property)) where
  -- The change names a property of the job through the template, whose value the template computes
  -- from the value of the change.
  abbrev pub ChangeAsks : Text → Value → WriteProperty → Type 0
  ChangeAsks key val wp =
      (id : Result Text) × (name : Text) × (v : Value) × (get_config_id_by_model_name dm key t
        ≡ returns id)
      × (named t id ≡ some name)
      × (get_prop_value_by_model_name dm fl key val t ≡ ok v)
      × Asked fl name v props wp

  -- One of the changes asks for the write.
  abbrev pub DeltaAsks : List (Text × Value) → WriteProperty → Type 0
  DeltaAsks [] wp = ⊥
  DeltaAsks ((key, val) ∷ delta) wp = ChangeAsks key val wp ⊎ DeltaAsks delta wp

module _ (P : WriteProperty → Type 0) (dm : Dmcontext) (fl : Floats) (bus : Bus) (w : Worker)
    (t : AccessTemplate) where
  write_change-Runs :
      (n : ℕ) (o : Option Text) (r : Result Value)
      → ((name : Text) (v : Value) (wp : WriteProperty)
          → o ≡ some name
          → r ≡ ok v
          → Asked fl name v w.job.properties wp
          → P wp)
      → Runs P (write_change fl bus n w o r)
  write_change-Runs n none r h = tt
  write_change-Runs n (some name) (err e) h = tt
  write_change-Runs n (some name) (ok v) h =
      write_named-Runs P fl bus w.slave name v n w.job.properties (λ wp a. h name v wp refl refl a)

  change-Runs :
      (n : ℕ) (key : Text) (val : Value)
      → ((wp : WriteProperty) → ChangeAsks dm fl t w.job.properties key val wp → P wp)
      → Runs P (change dm fl bus n w t key val)
  unfolding change
  change-Runs n key val h = elim (Outcome-cases (get_config_id_by_model_name dm key t)) [
    | inl (id, q) ↦ rw q (
        write_change-Runs n (named t id) (get_prop_value_by_model_name dm fl key val t)
          (λ name v wp a b c. h wp (id, name, v, q, a, b, c)))
    | inr q ↦ rw q tt
  ]

  changes-Runs :
      (n : ℕ) (delta : List (Text × Value))
      → ((wp : WriteProperty) → DeltaAsks dm fl t w.job.properties delta wp → P wp)
      → Runs P (changes dm fl bus n w t delta)
  unfolding changes
  changes-Runs n [] h = tt
  changes-Runs n ((key, val) ∷ delta) h =
      let rest = λ (x : List WriteProperty × Option Error).
        changes-Runs (next_write x n) delta (λ wp a. h wp (inr a)) in
      Runs-bind P (change dm fl bus n w t key val)
        (λ x. changes dm fl bus (next_write x n) w t delta)
        (change-Runs n key val (λ wp a. h wp (inl a))) rest

-- `DeltaCallback` attempts no write but what the framework asked for: each is for a property of the
-- device's job, which a changed attribute names through the template, and its value is what the
-- template computes from the value of the change, converted to the property's type.
pub delta_callback-DeltaAsks :
    (dm : Dmcontext) (fl : Floats) (ctx : Context) (bus : Bus) (n : ℕ) (ws : List (Text × Worker))
    (info : DeviceInfo) (delta : List (Text × Value)) (w : Worker) (t : AccessTemplate)
    (writes : List WriteProperty) (e : Option Error)
    → lookup info.name ws ≡ some w
    → ctx.get_access_templates info ≡ ok (some t)
    → delta_callback dm fl ctx bus n ws info delta ≡ returns (writes, e)
    → All (DeltaAsks dm fl t w.job.properties delta) writes
unfolding delta_callback
delta_callback-DeltaAsks dm fl ctx bus n ws info delta w t writes e l g r =
    let P : WriteProperty → Type 0 = DeltaAsks dm fl t w.job.properties delta in
    let run : changes dm fl bus n w t delta ≡ returns (writes, e) = ground (arith, l, g, r) in
    subst (Runs P) run (changes-Runs P dm fl bus w t n delta (λ wp a. a))
