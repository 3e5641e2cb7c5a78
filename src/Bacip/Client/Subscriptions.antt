-- ===== src/Bacip/Client/Subscriptions.antt =====
-- bacip/client.go: the subscription of WhoIs, its lock, and the handlers that call it.
pub mod Stuck
pub mod Overlap
use baetyl_bacnet.Common.{
  ℕ, suc, List, [], ◌∷◌, Option, none, some, Bool, true, false, ◌&&◌, ◌==◌, ltb, if◌then◌else◌,
}
use baetyl_bacnet.Bacip.Client.Holders.{count}

-- The function `f` by the channel that it sends on; the WhoIs calls that wait for the lock, and those
-- whose loop receives, by their channels; the channels that handlers send on, while they hold the
-- read lock; and how many channels were made.
pub record Subscriptions : Type 0 where
  pub f : Option ℕ
  pub waiting : List ℕ
  pub listening : List ℕ
  pub sending : List ℕ
  pub made : ℕ

unfoldable pub unsubscribed : Subscriptions
unsubscribed = record { f = none; waiting = []; listening = []; sending = []; made = 0 }

abbrev pub has : ℕ → List ℕ → Bool
has ch xs = ltb 0 (count ch xs)

abbrev pub is_empty : List ℕ → Bool
is_empty [] = true
is_empty (x ∷ xs) = false

-- The list without the first occurrence.
unfoldable pub without : ℕ → List ℕ → List ℕ
without ch [] = []
without ch (x ∷ xs) = if x == ch then xs else x ∷ without ch xs

-- WhoIs makes a channel and asks for the lock; it gets the lock, and sets `f`; a handler with an
-- application packet takes the read lock, and calls `f` if there is one; the loop of WhoIs receives from a
-- handler, which then gives the read lock back; WhoIs returns, and clears `f` without the lock.
pub data Turn : Type 0 where
  asks arrives : Turn
  subscribes receives returns_from : ℕ → Turn

-- Each of them is none if it cannot happen. A writer waits for the readers, and a reader for the
-- writers that wait.
abbrev pub ask : Subscriptions → Option Subscriptions
ask s = some (record s { waiting = s.made ∷ s.waiting; made = suc s.made })

abbrev pub subscribe : ℕ → Subscriptions → Option Subscriptions
subscribe ch s =
    if has ch s.waiting && is_empty s.sending
    then some
        (record s { f = some ch; waiting = without ch s.waiting; listening = ch ∷ s.listening })
    else none

-- The handler's two reads of `f`, a test and a call, are one step: a WhoIs that clears `f` between
-- them makes it call nil, which is not followed here.
abbrev pub arrive : Subscriptions → Option Subscriptions
arrive s =
    if is_empty s.waiting
    then (elim s.f [ none ↦ some s | some ch ↦ some (record s { sending = ch ∷ s.sending }) ])
    else none

abbrev pub receive_from : ℕ → Subscriptions → Option Subscriptions
receive_from ch s =
    if has ch s.listening && has ch s.sending
    then some (record s { sending = without ch s.sending })
    else none

abbrev pub return_from : ℕ → Subscriptions → Option Subscriptions
return_from ch s =
    if has ch s.listening
    then some (record s { f = none; listening = without ch s.listening })
    else none

unfoldable pub turn : Turn → Subscriptions → Option Subscriptions
unfolding count without
turn asks s = ask s
turn (subscribes ch) s = subscribe ch s
turn arrives s = arrive s
turn (receives ch) s = receive_from ch s
turn (returns_from ch) s = return_from ch s

unfoldable pub turns : List Turn → Subscriptions → Option Subscriptions
unfolding turn
turns [] s = some s
turns (c ∷ cs) s = elim (turn c s) [ none ↦ none | some s' ↦ turns cs s' ]
