-- ===== src/Bacip/Client/Refinement/Table.antt =====
-- The client's ids as an abstract table: which call uses an id and how far it has come, without the
-- order of the free ids and without the table of transactions.
use baetyl_bacnet.Common.{ltb, ℕ, ◌<◌, ◌≡◌, List, [], ◌∷◌, Option, none, some, ◌==◌, if◌then◌else◌}
use baetyl_bacnet.Bacip.Transaction.{Tx, capacity, get_id}
use baetyl_bacnet.Bacip.Client.Calls.{
  Phase, taken, registered, stopped, Call, System, pick, Event, begins, registers, stops, finishes,
  step,
}
use baetyl_bacnet.Bacip.Client.Holders.{bit}

-- What an id is used for, by the call with this channel and context: it has reserved the id, it waits
-- for an answer under it, or it has given up waiting.
pub data Slot : Type 0 where
  unused : Slot
  reserved waiting left : Tx → Slot

abbrev pub Ids : Type 0
Ids = ℕ → Slot

abbrev pub assign : ℕ → Slot → Ids → Ids
assign j x v i = if i == j then x else v i

-- What a call does, with its id, its channel and its context.
pub data Act : Type 0 where
  takes waits gives_up frees : ℕ → Tx → Act

-- What a client promises of its ids: a call takes an id that no other call uses; and a call waits,
-- gives up and frees an id only after the call itself has reserved it, waited and given up.
pub data Moves : Ids → Act → Ids → Type 0 where
  taking :
      {v v' : Ids} (j : ℕ) (tx : Tx)
      → j < capacity
      → v j ≡ unused
      → ((i : ℕ) → v' i ≡ assign j (reserved tx) v i)
      → Moves v (takes j tx) v'
  beginning_to_wait :
      {v v' : Ids} (j : ℕ) (tx : Tx)
      → v j ≡ reserved tx
      → ((i : ℕ) → v' i ≡ assign j (waiting tx) v i)
      → Moves v (waits j tx) v'
  giving_up :
      {v v' : Ids} (j : ℕ) (tx : Tx)
      → v j ≡ waiting tx
      → ((i : ℕ) → v' i ≡ assign j (left tx) v i)
      → Moves v (gives_up j tx) v'
  freeing :
      {v v' : Ids} (j : ℕ) (tx : Tx)
      → v j ≡ left tx
      → ((i : ℕ) → v' i ≡ assign j unused v i)
      → Moves v (frees j tx) v'

pub data Trace : Ids → List Act → Ids → Type 0 where
  rests : {v : Ids} → Trace v [] v
  moves :
      {v v1 v' : Ids} {a : Act} {rest : List Act}
      → Moves v a v1
      → Trace v1 rest v'
      → Trace v (a ∷ rest) v'

-- The table that the calls stand for.
abbrev pub tx_of : Call → Tx
tx_of c = record { apdu = c.channel; ctx = c.ctx }

abbrev pub slot : Phase → Tx → Slot
slot taken tx = reserved tx
slot registered tx = waiting tx
slot stopped tx = left tx

unfoldable pub slot_in : ℕ → List Call → Slot
slot_in j [] = unused
slot_in j (c ∷ cs) = if c.id == j then slot c.phase (tx_of c) else slot_in j cs

abbrev pub view : System → Ids
view s j = slot_in j s.calls

-- What an event does: the call that begins takes the id that GetID gives; each other event is one of
-- the call at its position.
abbrev pub act_of : (ℕ → Tx → Act) → Option (Call × List Call) → Option Act
act_of a none = none
act_of a (some p) = some (a p.0.id (tx_of p.0))

unfoldable pub act : Event → System → Option Act
act (begins channel ctx) s = elim (get_id s.transactions) [
  | none ↦ none
  | some p ↦ some (takes p.0 (record { apdu = channel; ctx = ctx }))
]
act (registers k) s = act_of waits (pick s.calls k)
act (stops k) s = act_of gives_up (pick s.calls k)
act (finishes k) s = act_of frees (pick s.calls k)

abbrev pub add_act : Option Act → List Act → List Act
add_act none rest = rest
add_act (some a) rest = a ∷ rest

-- What the events of a run do, in their order.
unfoldable pub acts : List Event → System → List Act
unfolding act
acts [] s = []
acts (e ∷ es) s = add_act (act e s) (elim (step e s) [ none ↦ [] | some s1 ↦ acts es s1 ])

-- Whom an answer reaches, and whether an id is free.
abbrev pub addressee : Slot → Option Tx
addressee (waiting tx) = some tx
addressee _ = none

abbrev pub times_free : ℕ → Slot → ℕ
times_free j unused = bit (ltb j capacity)
times_free j _ = 0
