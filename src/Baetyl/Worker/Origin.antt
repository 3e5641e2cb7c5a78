-- ===== src/Baetyl/Worker/Origin.antt =====
-- Where the values of a report come from.
use baetyl_bacnet.Common.{
  ℕ, suc, ◌≡◌, ◌⊎◌, inl, inr, refl, subst, List, [], ◌∷◌, Option, none, some, arith,
}
use baetyl_bacnet.Common.Go.{Error, Result, ok, err, Outcome, returns, Result-cases, Outcome-cases}
use baetyl_bacnet.Common.Text.{Text}
use baetyl_bacnet.Common.Dict.{Entries, put-Entries, lookup-Entries}
use baetyl_bacnet.Bacnet.Value.{Value}
use baetyl_bacnet.Dmp.Framework.{ModelMapping, AccessTemplate, Dmcontext}
use baetyl_bacnet.Dmp.Adapter.{get_mapping_name, tail_of}
use baetyl_bacnet.Baetyl.Config.{Property, object_of}
use baetyl_bacnet.Baetyl.Slave.{Slave}
use baetyl_bacnet.Baetyl.Worker.{
  Worker, Context, Bus, read_value, keep_read, read_all, argument, keep_argument, arguments,
  as_option, evaluate, model_value, models, execute,
}

-- The reads of a run, from the n-th on, gave this value for a property of this name.
abbrev pub WasRead : Bus → ℕ → Slave → List (Text × Property) → Text → Value → Type 0
WasRead bus n s [] name v = ⊥
WasRead bus n s ((key, p) ∷ ps) name v =
    ((p.name ≡ name) × (read_value bus n s (object_of p) ≡ returns (ok v)))
    ⊎ WasRead bus (suc n) s ps name v

module _ (P : Text → Value → Type 0) (bus : Bus) (s : Slave) where
  keep_read-Entries :
      (name : Text) (r : Result Value) (temp : List (Text × Value))
      → ((v : Value) → r ≡ ok v → P name v)
      → Entries P temp
      → Entries P (keep_read name r temp)
  keep_read-Entries name (ok v) temp h t = put-Entries P name v temp (h v refl) t
  keep_read-Entries name (err e) temp h t = t

  read_all-Entries :
      (n : ℕ) (ps : List (Text × Property)) (temp out : List (Text × Value))
      → ((name : Text) (v : Value) → WasRead bus n s ps name v → P name v)
      → Entries P temp
      → read_all bus n s ps temp ≡ returns out
      → Entries P out
  unfolding read_all
  read_all-Entries n [] temp out h t e = subst (Entries P) (ground (arith, e)) t
  read_all-Entries n ((key, p) ∷ ps) temp out h t e =
      elim (Outcome-cases (read_value bus n s (object_of p))) [
        | inl (r, q) ↦
            read_all-Entries (suc n) ps (keep_read p.name r temp) out (λ name v w. h name v (inr w))
              (keep_read-Entries p.name r temp (λ v f. h p.name v (inl (refl, rw (q, f)))) t)
              (rw q at e)
        | inr q ↦ absurd (ground (arith, q, e))
      ]

-- A parameter of an expression stands for a value that was read for the property it names.
abbrev pub IsArgument : AccessTemplate → (Text → Value → Type 0) → Text → Value → Type 0
IsArgument t P param v =
    (id : Text) × (name : Text) × (tail_of param ≡ returns id)
    × (get_mapping_name id t ≡ ok name)
    × P name v

module _ (P : Text → Value → Type 0) (t : AccessTemplate) (temp : List (Text × Value))
    (ht : Entries P temp) where
  argument-IsArgument :
      (param id : Text) (v : Value)
      → tail_of param ≡ returns id
      → argument t temp id ≡ some v
      → IsArgument t P param v
  argument-IsArgument param id v q e = elim (Result-cases (get_mapping_name id t)) [
    | inl (name, g) ↦ (id, name, q, g, lookup-Entries P name v temp ht (ground (arith, g, e)))
    | inr (x, g) ↦ absurd (ground (arith, g, e))
  ]

  keep_argument-Entries :
      (Q : Text → Value → Type 0) (param : Text) (o : Option Value) (args : List (Text × Value))
      → ((v : Value) → o ≡ some v → Q param v)
      → Entries Q args
      → Entries Q (keep_argument param o args)
  keep_argument-Entries Q param none args h a = a
  keep_argument-Entries Q param (some v) args h a = put-Entries Q param v args (h v refl) a

  arguments-Entries :
      (params : List Text) (args out : List (Text × Value))
      → Entries (IsArgument t P) args
      → arguments t temp params args ≡ returns out
      → Entries (IsArgument t P) out
  unfolding arguments
  arguments-Entries [] args out a e = subst (Entries (IsArgument t P)) (ground (arith, e)) a
  arguments-Entries (param ∷ params) args out a e = elim (Outcome-cases (tail_of param)) [
    | inl (id, q) ↦
        arguments-Entries params (keep_argument param (argument t temp id) args) out
          (keep_argument-Entries (IsArgument t P) param (argument t temp id) args
            (λ v f. argument-IsArgument param id v q f) a)
          (rw q at e)
    | inr q ↦ absurd (ground (arith, q, e))
  ]

-- A mapping of the template of this attribute was evaluated to this value, from such arguments.
abbrev pub WasEvaluated :
    Dmcontext → AccessTemplate → (Text → Value → Type 0) → List ModelMapping → Text → Value → Type 0
WasEvaluated dm t P [] name v = ⊥
WasEvaluated dm t P (m ∷ ms) name v =
    ((args : List (Text × Value)) × (m.attribute ≡ name)
      × (dm.exec_expression m.expression args m.kind ≡ ok v)
      × Entries (IsArgument t P) args)
    ⊎ WasEvaluated dm t P ms name v

module _ (dm : Dmcontext) (P : Text → Value → Type 0) (t : AccessTemplate)
    (temp : List (Text × Value)) (ht : Entries P temp) where
  abbrev Evaluates : ModelMapping → Value → Type 0
  Evaluates m v =
      (args : List (Text × Value)) × (m.attribute ≡ m.attribute)
      × (dm.exec_expression m.expression args m.kind ≡ ok v)
      × Entries (IsArgument t P) args

  executed :
      (m : ModelMapping) (args : List (Text × Value)) (v : Value)
      → ◌≡◌ {A = Outcome (Option Value)}
          (returns (as_option (dm.exec_expression m.expression args m.kind)))
          (returns (some v))
      → dm.exec_expression m.expression args m.kind ≡ ok v
  executed m args v e = ground arith

  evaluate-Evaluates :
      (m : ModelMapping) (r : Result (List Text)) (v : Value)
      → evaluate dm t temp m r ≡ returns (some v)
      → Evaluates m v
  evaluate-Evaluates m (err x) v e = absurd (ground arith)
  evaluate-Evaluates m (ok params) v e = elim (Outcome-cases (arguments t temp params [])) [
    | inl (args, q) ↦ (
      args,
      refl,
      executed m args v (rw q at e),
      arguments-Entries P t temp ht params [] args tt q,
    )
    | inr q ↦ absurd (ground (arith, q, e))
  ]

  models-Entries :
      (Q : Text → Value → Type 0) (ms : List ModelMapping) (report out : List (Text × Value))
      → ((name : Text) (v : Value) → WasEvaluated dm t P ms name v → Q name v)
      → Entries Q report
      → models dm t temp ms report ≡ returns out
      → Entries Q out
  unfolding models model_value
  models-Entries Q [] report out h r e = subst (Entries Q) (ground (arith, e)) r
  models-Entries Q (m ∷ ms) report out h r e = elim (Outcome-cases (model_value dm t temp m)) [
    | inl (o, q) ↦
        models-Entries Q ms (keep_argument m.attribute o report) out (λ name v w. h name v (inr w))
          (keep_argument-Entries P t temp ht Q m.attribute o report
            (λ v f.
              h m.attribute v
                (inl (evaluate-Evaluates m (dm.parse_expression m.expression) v (rw f at q))))
            r)
          (rw q at e)
    | inr q ↦ absurd (ground (arith, q, e))
  ]

-- Everything that `Execute` reports was computed in this run: each attribute by the expression of
-- a mapping of the template for it, from arguments that each were read in this run for a property
-- of the job, whose name is the one that the template gives to the parameter.
pub execute-WasEvaluated :
    (dm : Dmcontext) (ctx : Context) (bus : Bus) (n : ℕ) (w : Worker) (failure : Option Error)
    (report : List (Text × Value)) (t : AccessTemplate)
    → ctx.get_access_templates w.slave.info ≡ ok (some t)
    → execute dm ctx bus n w ≡ returns (failure, some report)
    → Entries (WasEvaluated dm t (WasRead bus n w.slave w.job.properties) t.mappings) report
unfolding execute
execute-WasEvaluated dm ctx bus n w failure report t g e =
    elim (Outcome-cases (read_all bus n w.slave w.job.properties [])) [
      | inl (temp, q) ↦ elim (Outcome-cases (models dm t temp t.mappings [])) [
        | inl (r, m) ↦
            let P : Text → Value → Type 0 = WasRead bus n w.slave w.job.properties in
            let same : r ≡ report = ground (arith, q, g, m, e) in
            subst (Entries (WasEvaluated dm t P t.mappings)) same (
              models-Entries dm P t temp
                (read_all-Entries P bus w.slave n w.job.properties [] temp (λ name v x. x) tt q)
                (WasEvaluated dm t P t.mappings) t.mappings [] r (λ name v x. x) tt m)
        | inr m ↦ absurd (ground (arith, q, g, m, e))
      ]
      | inr q ↦ absurd (ground (arith, q, e))
    ]
