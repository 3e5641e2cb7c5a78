-- ===== src/Bacip/Client/Routing.antt =====
-- Every interleaving of the client's calls keeps its ids apart and its table of transactions right.
use baetyl_bacnet.Common.{
  ℕ, ◌<◌, ◌≡◌, refl, ◌∙◌, List, [], ◌∷◌, ◌++◌, Option, none, some, true, false, Option-cases, ◌⊎◌,
  inl, inr, length, length-append, arith, subst, ◌↔◌,
}
use baetyl_bacnet.Bacip.Transaction.{
  Transactions, get_id, free_id, set_transaction, stop_transaction, get_transaction,
}
use baetyl_bacnet.Bacip.Client.Calls.{
  taken, registered, stopped, Call, System, start, is_registered, is_stopped, pick, Event, begins,
  registers, stops, finishes, begin, register, stop, finish, with_call, step, run,
}
use baetyl_bacnet.Bacip.Client.Holders.{
  count, holders, awaited, IsConsistent, count-append, unheld_awaited, pick-holders, pick-awaited,
  pick-length, start-IsConsistent,
}

-- A call that was picked, in front of the others, leaves the system consistent.
abbrev pub Fronted : Transactions → Call → List Call → Type 0
Fronted t c others = IsConsistent (record { transactions = t; calls = c ∷ others })

pub pick-Fronted :
    (s : System) (k : ℕ) (c : Call) (others : List Call)
    → IsConsistent s
    → pick s.calls k ≡ some (c, others)
    → Fronted s.transactions c others
pick-Fronted s k c others (one, table, total) e = (
  λ j. omega (arith, one j, pick-holders s.calls k c others e j),
  λ j. table j ∙ pick-awaited s.calls k c others e j (ground (arith, one j)),
  omega (arith, total, pick-length s.calls k c others e),
)

-- The systems that the steps lead to.
abbrev begun : Transactions → ℕ → List ℕ → ℕ → ℕ → List Call → System
begun t id ids channel ctx cs = record {
  transactions = record t { free_invoke_id = ids };
  calls = record { channel = channel; ctx = ctx; id = id; phase = taken } ∷ cs;
}

pub ids-cases : (xs : List ℕ) → (xs ≡ []) ⊎ ((id : ℕ) × (ids : List ℕ) × (xs ≡ id ∷ ids))
ids-cases [] = inl refl
ids-cases (id ∷ ids) = inr (id, ids, refl)

begin_keeps :
    (channel ctx : ℕ) (s s' : System)
    → IsConsistent s
    → begin channel ctx s ≡ some s'
    → IsConsistent s'
unfolding begin get_id count holders awaited
begin_keeps channel ctx s s' (one, table, total) e =
    elim (ids-cases s.transactions.free_invoke_id) [
      | inl q ↦ absurd (ground arith)
      | inr (id, ids, q) ↦
          let to : begun s.transactions id ids channel ctx s.calls ≡ s' = ground (arith, q) in
          subst IsConsistent to
            (λ j. ground (arith, one j), λ j. ground (arith, table j), ground (arith, total))
    ]

register_keeps :
    (t : Transactions) (c : Call) (others : List Call) (s' : System)
    → Fronted t c others
    → register t c others ≡ some s'
    → IsConsistent s'
unfolding register set_transaction count holders awaited
register_keeps t c others s' (one, table, total) e =
    let to : record {
      transactions = set_transaction c.id c.channel c.ctx t;
      calls = record c { phase = registered } ∷ others;
    }
        ≡ s' =
      ground (arith, e) in
    subst IsConsistent to
      (λ j. ground (arith, one j), λ j. ground (arith, table j), ground (arith, total))

stop_keeps :
    (t : Transactions) (c : Call) (others : List Call) (s' : System)
    → Fronted t c others
    → stop t c others ≡ some s'
    → IsConsistent s'
unfolding stop stop_transaction count holders awaited
stop_keeps t c others s' (one, table, total) e =
    let to : record {
      transactions = stop_transaction c.id t;
      calls = record c { phase = stopped } ∷ others;
    }
        ≡ s' =
      ground (arith, e) in
    subst IsConsistent to (
      λ j. ground (arith, one j),
      λ j. ground (arith, table j, one j, unheld_awaited j others),
      ground (arith, total),
    )

finish_keeps :
    (t : Transactions) (c : Call) (others : List Call) (s' : System)
    → Fronted t c others
    → finish t c others ≡ some s'
    → IsConsistent s'
unfolding finish free_id count holders awaited
finish_keeps t c others s' (one, table, total) e =
    let to : record {
      transactions = record t { free_invoke_id = t.free_invoke_id ++ c.id ∷ [] };
      calls = others;
    }
        ≡ s' =
      ground (arith, e) in
    subst IsConsistent to (
      λ j. ground (arith, one j, count-append j t.free_invoke_id (c.id ∷ [])),
      λ j. ground (arith, table j),
      ground (arith, total, length-append t.free_invoke_id (c.id ∷ [])),
    )

-- What a step at a position does, it does to the picked call and the others.
with_call_keeps :
    (f : Transactions → Call → List Call → Option System)
    → ((t : Transactions) (c : Call) (others : List Call) (s' : System)
        → Fronted t c others
        → f t c others ≡ some s'
        → IsConsistent s')
    → (k : ℕ) (s s' : System) → IsConsistent s
    → with_call f k s ≡ some s'
    → IsConsistent s'
with_call_keeps f keeps k s s' h e = elim (Option-cases (pick s.calls k)) [
  | inl q ↦ absurd (ground (arith, q))
  | inr (p, q) ↦ keeps s.transactions p.0 p.1 s' (pick-Fronted s k p.0 p.1 h q) (ground (arith, q))
]

-- Every step keeps the system consistent: each byte is free or held by exactly one call, the table
-- of transactions lists the channel and the context of each call that waits and nothing else, and
-- the free ids and the calls are 256.
pub step_keeps : (e : Event) (s s' : System) → IsConsistent s → step e s ≡ some s' → IsConsistent s'
unfolding step
step_keeps (begins channel ctx) s s' h q = begin_keeps channel ctx s s' h q
step_keeps (registers k) s s' h q = with_call_keeps register register_keeps k s s' h q
step_keeps (stops k) s s' h q = with_call_keeps stop stop_keeps k s s' h q
step_keeps (finishes k) s s' h q = with_call_keeps finish finish_keeps k s s' h q

pub run_keeps :
    (es : List Event) (s s' : System) → IsConsistent s → run es s ≡ some s' → IsConsistent s'
unfolding run
run_keeps [] s s' h e = subst IsConsistent (ground (arith, e)) h
run_keeps (ev ∷ es) s s' h e = elim (Option-cases (step ev s)) [
  | inl q ↦ absurd (ground (arith, q))
  | inr (s1, q) ↦ run_keeps es s1 s' (step_keeps ev s s1 h q) (ground (arith, q))
]

-- However the calls of a client interleave, from new transactions on each byte is free or the invoke
-- id of exactly one call, the table of transactions lists the channel and the context of each call
-- that waits and nothing else, and the free ids and the calls are 256.
pub run-IsConsistent : (es : List Event) (s : System) → run es start ≡ some s → IsConsistent s
run-IsConsistent es s e = run_keeps es start s start-IsConsistent e

-- After any interleaving, a call that waits is found under its id: an answer with that id is
-- handed to the channel and the context of this call.
pub get_transaction_waiting :
    (es : List Event) (s : System) (k : ℕ) (c : Call) (others : List Call)
    → run es start ≡ some s
    → pick s.calls k ≡ some (c, others)
    → is_registered c.phase ≡ true
    → get_transaction c.id s.transactions ≡ some (record { apdu = c.channel; ctx = c.ctx })
unfolding get_transaction awaited
get_transaction_waiting es s k c others r p w =
    let (one, table, total) = pick-Fronted s k c others (run-IsConsistent es s r) p in
    ground (arith, table c.id)

-- After any interleaving, the id of a call that does not wait, because SetTransaction has not run yet
-- or StopTransaction has, has no transaction: a late answer reaches no other call.
pub get_transaction_late :
    (es : List Event) (s : System) (k : ℕ) (c : Call) (others : List Call)
    → run es start ≡ some s
    → pick s.calls k ≡ some (c, others)
    → is_registered c.phase ≡ false
    → get_transaction c.id s.transactions ≡ none
unfolding get_transaction awaited holders
get_transaction_late es s k c others r p w =
    let (one, table, total) = pick-Fronted s k c others (run-IsConsistent es s r) p in
    ground (arith, table c.id, one c.id, unheld_awaited c.id others)

-- After any interleaving, a call that ends never blocks in FreeID: the channel of the free ids has
-- room.
pub finish_total :
    (es : List Event) (s : System) (k : ℕ) (c : Call) (others : List Call)
    → run es start ≡ some s
    → pick s.calls k ≡ some (c, others)
    → is_stopped c.phase ≡ true
    → (s' : System) × (step (finishes k) s ≡ some s') × (s'.calls ≡ others)
unfolding step finish free_id
finish_total es s k c others r p w =
    let (one, table, total) = pick-Fronted s k c others (run-IsConsistent es s r) p in
    (
      record {
        transactions = record s.transactions {
          free_invoke_id = s.transactions.free_invoke_id ++ c.id ∷ [];
        };
        calls = others;
      },
      ground (arith, total),
      refl,
    )

-- After any interleaving, GetID blocks if and only if 256 calls are under way.
pub get_id_blocks :
    (es : List Event) (s : System)
    → run es start ≡ some s
    → (get_id s.transactions ≡ none) ↔ (length s.calls ≡ 256)
unfolding get_id
get_id_blocks es s r =
    let (one, table, total) = run-IsConsistent es s r in
    elim (ids-cases s.transactions.free_invoke_id) [
      | inl q ↦ (λ n. ground (arith, q, total), λ l. ground (arith, q))
      | inr (id, ids, q) ↦ (λ n. absurd (ground (arith, q)), λ l. absurd (ground (arith, q, total)))
    ]

-- Once all calls have ended, every id is free exactly once and no transaction is left.
pub run_quiet :
    (es : List Event) (s : System) (j : ℕ)
    → run es start ≡ some s
    → s.calls ≡ []
    → j < 256
    → (count j s.transactions.free_invoke_id ≡ 1) × (get_transaction j s.transactions ≡ none)
unfolding get_transaction awaited holders
run_quiet es s j r q b =
    let (one, table, total) = run-IsConsistent es s r in
    (ground (arith, q, one j), ground (arith, q, table j))
