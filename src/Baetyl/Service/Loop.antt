-- ===== src/Baetyl/Service/Loop.antt =====
-- baetyl-bacnet/bacnet.go: the loop of a worker, which executes its job at each tick.
use baetyl_bacnet.Common.{
  ℕ, ◌<◌, ◌≡◌, ◌≢◌, refl, ap, ◌∙◌, List, [], ◌∷◌, All, Bool, true, false, Option, none, some, arith,
  ◌++◌, map, if◌then◌else◌, inl, inr,
}
use baetyl_bacnet.Common.Go.{Error, Result, ok, err, Outcome, returns, panics, ◌>>=◌, Outcome-cases}
use baetyl_bacnet.Common.Text.{Text}
use baetyl_bacnet.Common.Dict.{Entries}
use baetyl_bacnet.Bacnet.Value.{Value}
use baetyl_bacnet.Baetyl.Config.{ℤ, pos, is_positive}
use baetyl_bacnet.Dmp.Framework.{AccessTemplate, Dmcontext}
use baetyl_bacnet.Baetyl.Worker.{Worker, Context, Bus, execute, read_all, report_models, models}
use baetyl_bacnet.Baetyl.Worker.Origin.{WasRead, WasEvaluated, execute-WasEvaluated}

-- What the loop's select receives: a tick, before which the client made so many reads, or that the
-- channel of the context is closed. If both are ready, select takes either: a tick that was pending
-- when the channel was closed may still come first.
pub data Wake : Type 0 where
  ticked : ℕ → Wake
  closed : Wake

abbrev pub Round : Type 0
Round = Option Error × Option (List (Text × Value))

-- The rounds of a worker in their order, and whether its loop still waits.
pub record Loop : Type 0 where
  pub rounds : List Round
  pub running : Bool

abbrev add_round : Round → Loop → Loop
add_round r l = record l { rounds = r ∷ l.rounds }

-- What select receives behind the ticks of a run: nothing, or that the channel is closed, and then
-- whatever would come after it.
abbrev pub ending : Option (List Wake) → List Wake
ending none = []
ending (some later) = closed ∷ later

abbrev pub wakes_of : List ℕ → Option (List Wake) → List Wake
wakes_of ns end = map ticked ns ++ ending end

abbrev pub is_none : Option (List Wake) → Bool
is_none none = true
is_none (some later) = false

module _ (dm : Dmcontext) (ctx : Context) (bus : Bus) (w : Worker) where
  -- The loop, over what select receives, in the order in which it chooses: an error of a round is
  -- logged, and the loop goes on.
  unfoldable pub working_loop : List Wake → Outcome Loop
  working_loop [] = returns (record { rounds = []; running = true })
  working_loop (closed ∷ wakes) = returns (record { rounds = []; running = false })
  working_loop (ticked n ∷ wakes) = do
    r ← execute dm ctx bus n w
    l ← working_loop wakes
    returns (add_round r l)

  -- `time.NewTicker` panics on an interval that is not positive.
  unfoldable pub working : List Wake → Outcome Loop
  unfolding working_loop is_positive
  working wakes =
      let loop = working_loop wakes in if is_positive w.job.interval then loop else panics

  -- A round for each tick: `Execute` returned its error, and each value that it reported was computed
  -- in this round, from reads of this round.
  abbrev pub IsFresh : ℕ → Round → Type 0
  IsFresh n (e, none) = execute dm ctx bus n w ≡ returns (e, none)
  IsFresh n (e, some report) =
      (t : AccessTemplate) × (ctx.get_access_templates w.slave.info ≡ ok (some t))
      × Entries (WasEvaluated dm t (WasRead bus n w.slave w.job.properties) t.mappings) report
      × (e ≡ ctx.report_device_properties w.slave.info report)

  abbrev pub AllFresh : List ℕ → List Round → Type 0
  AllFresh [] [] = Unit {0}
  AllFresh (n ∷ ns) (r ∷ rs) = IsFresh n r × AllFresh ns rs
  AllFresh _ _ = ⊥

  report_models-template :
      (temp report : List (Text × Value)) (r : Result (Option AccessTemplate)) (e : Option Error)
      → report_models dm ctx w.slave.info temp r ≡ returns (e, some report)
      → (t : AccessTemplate) × (r ≡ ok (some t))
        × (e ≡ ctx.report_device_properties w.slave.info report)
  report_models-template temp report (err x) e h = absurd (ground arith)
  report_models-template temp report (ok none) e h = absurd (ground arith)
  report_models-template temp report (ok (some t)) e h =
      elim (Outcome-cases (models dm t temp t.mappings [])) [
        | inl (out, q) ↦ (t, refl, ground (arith, q, h))
        | inr q ↦ absurd (ground (arith, q, h))
      ]

  execute-IsFresh : (n : ℕ) (r : Round) → execute dm ctx bus n w ≡ returns r → IsFresh n r
  unfolding execute
  execute-IsFresh n (e, none) h = h
  execute-IsFresh n (e, some report) h =
      elim (Outcome-cases (read_all bus n w.slave w.job.properties [])) [
        | inl (temp, q) ↦
            let (t, g, x) =
              report_models-template temp report (ctx.get_access_templates w.slave.info) e
                (rw q at h) in
            (t, g, execute-WasEvaluated dm ctx bus n w e report t g h, x)
        | inr q ↦ absurd (ground (arith, q, h))
      ]

  working_loop-AllFresh :
      (ns : List ℕ) (end : Option (List Wake))
      → All (λ n. execute dm ctx bus n w ≢ panics) ns
      → (l : Loop) × (working_loop (wakes_of ns end) ≡ returns l)
        × AllFresh ns l.rounds
        × (l.running ≡ is_none end)
  unfolding working_loop
  working_loop-AllFresh [] none h = (_, refl, tt, refl)
  working_loop-AllFresh [] (some later) h = (_, refl, tt, refl)
  working_loop-AllFresh (n ∷ ns) end (h, hs) = elim (Outcome-cases (execute dm ctx bus n w)) [
    | inl (r, q) ↦
        let (l, e, fresh, waits) = working_loop-AllFresh ns end hs in
        (add_round r l, rw (q, e), (execute-IsFresh n r q, fresh), waits)
    | inr q ↦ absurd (h q)
  ]

is_positive-pos : (x : ℤ) (i : ℕ) → 0 < i → x ≡ pos i → is_positive x ≡ true
unfolding is_positive
is_positive-pos x i h e = ap is_positive e ∙ ground arith

-- The loop of a worker with a positive interval, none of whose executions at the ticks panics, has one
-- round for each tick that its select receives before it receives that the channel is closed, in
-- their order, and no other, whatever would come later; it waits on exactly if select has not
-- received that the channel is closed. Each round ends with the error of `Execute`, also after
-- rounds that failed; and each value that it reports was computed by a mapping of the template, from
-- values read in this round.
pub working-AllFresh :
    (dm : Dmcontext) (ctx : Context) (bus : Bus) (w : Worker) (i : ℕ) (ns : List ℕ)
    (end : Option (List Wake))
    → 0 < i
    → w.job.interval ≡ pos i
    → All (λ n. execute dm ctx bus n w ≢ panics) ns
    → (l : Loop) × (working dm ctx bus w (wakes_of ns end) ≡ returns l)
      × AllFresh dm ctx bus w ns l.rounds
      × (l.running ≡ is_none end)
unfolding working
working-AllFresh dm ctx bus w i ns end positive interval h =
    let (l, e, fresh, waits) = working_loop-AllFresh dm ctx bus w ns end h in
    let p = is_positive-pos w.job.interval i positive interval in (l, rw (p, e), fresh, waits)
