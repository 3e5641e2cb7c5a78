-- ===== src/Bacip/Client/Refinement.antt =====
-- Every run of the client's calls is a trace of the abstract table of ids.
pub mod Table
use baetyl_bacnet.Common.{
  ltb, ℕ, zero, suc, ◌+◌, ◌≤◌, ◌<◌, ◌≡◌, ◌∙◌, sym, refl, List, [], ◌∷◌, Option, none, some, true,
  ◌==◌, Option-cases, inl, inr, if◌then◌else◌, arith, subst,
}
use baetyl_bacnet.Bacip.Transaction.{Tx, Transactions, capacity, get_id, free_id, get_transaction}
use baetyl_bacnet.Bacip.Client.Calls.{
  Phase, taken, registered, stopped, is_taken, is_registered, is_stopped, Call, System, start, pick,
  Event, begins, registers, stops, finishes, begin, register, stop, finish, with_call, step, run,
}
use baetyl_bacnet.Bacip.Client.Holders.{
  bit, count, holders, awaited, IsConsistent, unheld_awaited, pick-holders, pick-suc,
  start-IsConsistent,
}
use baetyl_bacnet.Bacip.Client.Routing.{
  Fronted, pick-Fronted, ids-cases, step_keeps, run-IsConsistent,
}
use baetyl_bacnet.Bacip.Client.Refinement.Table.{
  Slot, unused, reserved, waiting, left, Ids, Act, takes, waits, gives_up, frees, Moves, taking,
  beginning_to_wait, giving_up, freeing, Trace, rests, moves, tx_of, slot, slot_in, view, act_of,
  act, acts, addressee, times_free, assign, add_act,
}

taken_slot : (p : Phase) (tx : Tx) → is_taken p ≡ true → slot p tx ≡ reserved tx
taken_slot taken tx h = refl
taken_slot registered tx h = absurd (ground arith)
taken_slot stopped tx h = absurd (ground arith)

registered_slot : (p : Phase) (tx : Tx) → is_registered p ≡ true → slot p tx ≡ waiting tx
registered_slot taken tx h = absurd (ground arith)
registered_slot registered tx h = refl
registered_slot stopped tx h = absurd (ground arith)

stopped_slot : (p : Phase) (tx : Tx) → is_stopped p ≡ true → slot p tx ≡ left tx
stopped_slot taken tx h = absurd (ground arith)
stopped_slot registered tx h = absurd (ground arith)
stopped_slot stopped tx h = refl

unheld_slot : (j : ℕ) (cs : List Call) → holders j cs ≡ 0 → slot_in j cs ≡ unused
unfolding holders slot_in
unheld_slot j [] h = refl
unheld_slot j (c ∷ cs) h = ground (arith, unheld_slot j cs)

pick-slot_in :
    (cs : List Call) (k : ℕ) (c : Call) (others : List Call)
    → pick cs k ≡ some (c, others)
    → (j : ℕ) → holders j cs ≤ 1
    → slot_in j cs ≡ slot_in j (c ∷ others)
unfolding holders slot_in pick
pick-slot_in [] k c others e j h = absurd (ground arith)
pick-slot_in (x ∷ cs) zero c others e j h = ground arith
pick-slot_in (x ∷ cs) (suc k) c others e j h =
    let (rest, e', o) = pick-suc x cs k c others e in
    let same = pick-holders cs k c rest e' j in
    ground
      (arith, o, same, pick-slot_in cs k c rest e' j, unheld_slot j cs, unheld_slot j (c ∷ rest))

Moves-ap : {u v v' : Ids} {a : Act} → ((i : ℕ) → v i ≡ u i) → Moves v a v' → Moves u a v'
Moves-ap e (taking j tx b h k) = taking j tx b (sym (e j) ∙ h) (λ i. ground (arith, k i, e i))
Moves-ap e (beginning_to_wait j tx h k) =
    beginning_to_wait j tx (sym (e j) ∙ h) (λ i. ground (arith, k i, e i))
Moves-ap e (giving_up j tx h k) = giving_up j tx (sym (e j) ∙ h) (λ i. ground (arith, k i, e i))
Moves-ap e (freeing j tx h k) = freeing j tx (sym (e j) ∙ h) (λ i. ground (arith, k i, e i))

-- The step of an event is a move of its act.
abbrev Acts : Event → System → System → Type 0
Acts e s s' = (a : Act) × (act e s ≡ some a) × Moves (view s) a (view s')

begin-Acts :
    (channel ctx : ℕ) (s s' : System)
    → IsConsistent s
    → begin channel ctx s ≡ some s'
    → Acts (begins channel ctx) s s'
unfolding begin get_id act count
begin-Acts channel ctx s s' (one, table, total) e = elim (ids-cases s.transactions.free_invoke_id) [
  | inl q ↦ absurd (ground arith)
  | inr (id, ids, q) ↦
      let tx : Tx = record { apdu = channel; ctx = ctx } in
      (
        takes id tx,
        ground (arith, q),
        taking {v = view s} {v' = view s'} id tx (ground (arith, q, one id))
            (unheld_slot id s.calls (ground (arith, q, one id)))
            (λ i. unfold slot_in in ground (arith, q, e)),
      )
]

register-Moves :
    (t : Transactions) (c : Call) (others : List Call) (s' : System)
    → Fronted t c others
    → register t c others ≡ some s'
    → Moves (λ i. slot_in i (c ∷ others)) (waits c.id (tx_of c)) (view s')
unfolding register slot_in
register-Moves t c others s' h e =
    beginning_to_wait c.id (tx_of c) (ground (arith, e, taken_slot c.phase (tx_of c)))
      (λ i. ground (arith, e))

stop-Moves :
    (t : Transactions) (c : Call) (others : List Call) (s' : System)
    → Fronted t c others
    → stop t c others ≡ some s'
    → Moves (λ i. slot_in i (c ∷ others)) (gives_up c.id (tx_of c)) (view s')
unfolding stop slot_in
stop-Moves t c others s' h e =
    giving_up c.id (tx_of c) (ground (arith, e, registered_slot c.phase (tx_of c)))
      (λ i. ground (arith, e))

finish-Moves :
    (t : Transactions) (c : Call) (others : List Call) (s' : System)
    → Fronted t c others
    → finish t c others ≡ some s'
    → Moves (λ i. slot_in i (c ∷ others)) (frees c.id (tx_of c)) (view s')
unfolding finish free_id slot_in holders
finish-Moves t c others s' (one, table, total) e =
    freeing c.id (tx_of c) (ground (arith, e, stopped_slot c.phase (tx_of c)))
      (λ i. ground (arith, e, unheld_slot c.id others, one c.id))

with_call-Acts :
    (f : Transactions → Call → List Call → Option System) (e : Event) (a : ℕ → Tx → Act)
    → ((t : Transactions) (c : Call) (others : List Call) (s' : System)
        → Fronted t c others
        → f t c others ≡ some s'
        → Moves (λ i. slot_in i (c ∷ others)) (a c.id (tx_of c)) (view s'))
    → (k : ℕ) (s s' : System) → (act e s ≡ act_of a (pick s.calls k))
    → IsConsistent s
    → with_call f k s ≡ some s'
    → Acts e s s'
with_call-Acts f ev a to k s s' same h e = elim (Option-cases (pick s.calls k)) [
  | inl q ↦ absurd (ground (arith, q))
  | inr (p, q) ↦ (
    a p.0.id (tx_of p.0),
    ground (arith, same, q),
    Moves-ap (λ i. sym (pick-slot_in s.calls k p.0 p.1 q i (ground (arith, h.0 i))))
        (to s.transactions p.0 p.1 s' (pick-Fronted s k p.0 p.1 h q) (ground (arith, q))),
  )
]

-- Every step of a consistent system is a move of the abstract table that the calls stand for.
pub step-Acts : (e : Event) (s s' : System) → IsConsistent s → step e s ≡ some s' → Acts e s s'
unfolding step act
step-Acts (begins channel ctx) s s' h q = begin-Acts channel ctx s s' h q
step-Acts (registers k) s s' h q =
    with_call-Acts register (registers k) waits register-Moves k s s' refl h q
step-Acts (stops k) s s' h q = with_call-Acts stop (stops k) gives_up stop-Moves k s s' refl h q
step-Acts (finishes k) s s' h q =
    with_call-Acts finish (finishes k) frees finish-Moves k s s' refl h q

run-Trace_from :
    (es : List Event) (s s' : System)
    → IsConsistent s
    → run es s ≡ some s'
    → Trace (view s) (acts es s) (view s')
unfolding run acts
run-Trace_from [] s s' h e =
    let same : s ≡ s' = ground (arith, e) in
    subst (λ (x : System). Trace (view s) [] (view x)) same rests
run-Trace_from (ev ∷ es) s s' h e = elim (Option-cases (step ev s)) [
  | inl q ↦ absurd (ground (arith, q))
  | inr (s1, q) ↦
      let (a, named, move) = step-Acts ev s s1 h q in
      rw (named, q)
        (moves move (run-Trace_from es s1 s' (step_keeps ev s s1 h q) (ground (arith, q))))
]

view-addressee :
    (j : ℕ) (cs : List Call) → holders j cs ≤ 1 → awaited j cs ≡ addressee (slot_in j cs)
unfolding holders awaited slot_in
view-addressee j [] h = refl
view-addressee j (c ∷ cs) h = view-front c.phase refl (view-addressee j cs)
  where
    view-front :
        (p : Phase)
        → c.phase ≡ p
        → (holders j cs ≤ 1 → awaited j cs ≡ addressee (slot_in j cs))
        → awaited j (c ∷ cs) ≡ addressee (slot_in j (c ∷ cs))
    view-front taken q ih = rw q (ground (arith, ih, unheld_awaited j cs))
    view-front registered q ih = rw q (ground (arith, ih))
    view-front stopped q ih = rw q (ground (arith, ih, unheld_awaited j cs))

view-times_free :
    (j n : ℕ) (cs : List Call)
    → n + holders j cs ≡ bit (ltb j capacity)
    → n ≡ times_free j (slot_in j cs)
unfolding holders slot_in
view-times_free j n [] h = ground (arith, h)
view-times_free j n (c ∷ cs) h = ground (arith, h, view-times_free j n cs)

-- Every run of the client's calls is a trace of an abstract table of ids, from the table where no id
-- is used: a call takes a byte that no call uses, and the call that begins to wait under an id, that
-- gives up, and that frees it, is the one that has taken it, in this order. After the run,
-- `GetTransaction` gives for each id the channel and the context of the call that waits under it in
-- the table, and the free ids are the bytes that are unused in the table, each once.
pub run-Trace :
    (es : List Event) (s : System)
    → run es start ≡ some s
    → Trace (view start) (acts es start) (view s)
      × ((j : ℕ) → get_transaction j s.transactions ≡ addressee (view s j))
      × ((j : ℕ) → count j s.transactions.free_invoke_id ≡ times_free j (view s j))
      × ((j : ℕ) → view start j ≡ unused)
unfolding get_transaction start slot_in
run-Trace es s r =
    let (one, table, total) = run-IsConsistent es s r in
    (
      run-Trace_from es start s start-IsConsistent r,
      λ j. table j ∙ view-addressee j s.calls (ground (arith, one j)),
      λ j. view-times_free j (count j s.transactions.free_invoke_id) s.calls (one j),
      λ j. refl,
    )
