-- ===== src/Bacip/Client/Calls.antt =====
-- bacip/client.go: the steps of ReadProperty and WriteProperty on the transactions they share, and
-- every interleaving of them as a sequence of events.
use baetyl_bacnet.Common.{
  ℕ, zero, suc, List, [], ◌∷◌, Option, none, some, Bool, true, false, if◌then◌else◌,
}
use baetyl_bacnet.Bacip.Transaction.{
  Transactions, new_transactions, get_id, free_id, set_transaction, stop_transaction,
}

-- How far a call has come: it holds an id, it waits for an answer, or its first deferred call,
-- StopTransaction, has run.
pub data Phase : Type 0 where
  taken registered stopped : Phase

-- A call under way, with its context and the channel it made.
pub record Call : Type 0 where
  pub channel : ℕ
  pub ctx : ℕ
  pub id : ℕ
  pub phase : Phase

pub record System : Type 0 where
  pub transactions : Transactions
  pub calls : List Call

unfoldable pub start : System
unfolding new_transactions
start = record { transactions = new_transactions; calls = [] }

abbrev pub is_taken : Phase → Bool
is_taken taken = true
is_taken _ = false

abbrev pub is_registered : Phase → Bool
is_registered registered = true
is_registered _ = false

abbrev pub is_stopped : Phase → Bool
is_stopped stopped = true
is_stopped _ = false

-- The call at a position, and the others.
unfoldable pub pick : List Call → ℕ → Option (Call × List Call)
pick [] k = none
pick (c ∷ cs) zero = some (c, cs)
pick (c ∷ cs) (suc k) = elim (pick cs k) [ none ↦ none | some p ↦ some (p.0, c ∷ p.1) ]

-- A call begins with GetID; then the call at a position goes on: SetTransaction with its channel,
-- StopTransaction when it is answered or gives up, FreeID as it returns.
pub data Event : Type 0 where
  begins : ℕ → ℕ → Event
  registers stops finishes : ℕ → Event

unfoldable pub begin : ℕ → ℕ → System → Option System
unfolding get_id
begin channel ctx s = elim (get_id s.transactions) [
  | none ↦ none
  | some p ↦ some (record {
    transactions = p.1;
    calls = record { channel = channel; ctx = ctx; id = p.0; phase = taken } ∷ s.calls;
  })
]

unfoldable pub register : Transactions → Call → List Call → Option System
unfolding set_transaction
register t c others =
    if is_taken c.phase
    then some (record {
      transactions = set_transaction c.id c.channel c.ctx t;
      calls = record c { phase = registered } ∷ others;
    })
    else none

unfoldable pub stop : Transactions → Call → List Call → Option System
unfolding stop_transaction
stop t c others =
    if is_registered c.phase
    then some (record {
      transactions = stop_transaction c.id t;
      calls = record c { phase = stopped } ∷ others;
    })
    else none

unfoldable pub finish : Transactions → Call → List Call → Option System
unfolding free_id
finish t c others =
    if is_stopped c.phase
    then (elim (free_id c.id t) [
      | none ↦ none
      | some t' ↦ some (record { transactions = t'; calls = others })
    ])
    else none

abbrev pub with_call :
    (Transactions → Call → List Call → Option System) → ℕ → System → Option System
with_call f k s = elim (pick s.calls k) [ none ↦ none | some p ↦ f s.transactions p.0 p.1 ]

-- None if the event cannot happen: no id is left, the channel is full, or no call at that position
-- is in the phase before.
unfoldable pub step : Event → System → Option System
step (begins channel ctx) s = begin channel ctx s
step (registers k) s = with_call register k s
step (stops k) s = with_call stop k s
step (finishes k) s = with_call finish k s

unfoldable pub run : List Event → System → Option System
run [] s = some s
run (e ∷ es) s = elim (step e s) [ none ↦ none | some s' ↦ run es s' ]
