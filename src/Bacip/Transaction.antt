-- ===== src/Bacip/Transaction.antt =====
-- bacip/transaction.go: the pool of invoke ids and the table of the calls that wait for an answer.
use baetyl_bacnet.Common.{
  ℕ, zero, suc, List, [], ◌∷◌, ◌++◌, Option, none, some, ◌==◌, ltb, length, if◌then◌else◌,
}

-- A channel and a context are known by their numbers.
pub record Tx : Type 0 where
  pub apdu : ℕ
  pub ctx : ℕ

-- `free_invoke_id` is what the buffered channel holds, the oldest id first.
pub record Transactions : Type 0 where
  pub currents : ℕ → Option Tx
  pub free_invoke_id : List ℕ

abbrev pub capacity : ℕ
capacity = 256

-- `n` ids from `x` on.
unfoldable pub ids_from : ℕ → ℕ → List ℕ
ids_from x zero = []
ids_from x (suc n) = x ∷ ids_from (suc x) n

unfoldable pub new_transactions : Transactions
unfolding ids_from
new_transactions = record { currents = λ id. none; free_invoke_id = ids_from 0 capacity }

-- None while no id is available: the call blocks.
unfoldable pub get_id : Transactions → Option (ℕ × Transactions)
get_id t = elim t.free_invoke_id [
  | [] ↦ none
  | id ∷ rest ↦ some (id, record t { free_invoke_id = rest })
]

-- None while the channel is full: the call blocks.
unfoldable pub free_id : ℕ → Transactions → Option Transactions
free_id id t =
    if ltb (length t.free_invoke_id) capacity
    then some (record t { free_invoke_id = t.free_invoke_id ++ id ∷ [] })
    else none

abbrev pub update : (ℕ → Option Tx) → ℕ → Option Tx → ℕ → Option Tx
update f id v j = if j == id then v else f j

unfoldable pub set_transaction : ℕ → ℕ → ℕ → Transactions → Transactions
set_transaction id apdu ctx t = record t {
  currents = update t.currents id (some (record { apdu = apdu; ctx = ctx }));
}

unfoldable pub stop_transaction : ℕ → Transactions → Transactions
stop_transaction id t = record t { currents = update t.currents id none }

unfoldable pub get_transaction : ℕ → Transactions → Option Tx
get_transaction id t = t.currents id
