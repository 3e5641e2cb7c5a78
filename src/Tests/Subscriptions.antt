-- ===== src/Tests/Subscriptions.antt =====
-- A WhoIs that returns while a handler sends to it, and one that returns while another one listens.
use baetyl_bacnet.Common.{◌<◌, ◌≡◌, refl, [], ◌∷◌, none, some, arith}
use baetyl_bacnet.Bacip.Client.Holders.{count}
use baetyl_bacnet.Bacip.Client.Subscriptions.{
  Subscriptions, unsubscribed, without, asks, arrives, subscribes, returns_from, turn, turns,
}
use baetyl_bacnet.Bacip.Client.Subscriptions.Stuck.{turns_stuck}
use baetyl_bacnet.Bacip.Client.Subscriptions.Overlap.{returns_from_deaf}

-- A handler sends to the only WhoIs.
abbrev sent : Subscriptions
sent = record { f = some 0; waiting = []; listening = 0 ∷ []; sending = 0 ∷ []; made = 1 }

abbrev orphaned : Subscriptions
orphaned = record sent { f = none; listening = [] }

abbrev stuck : Subscriptions
stuck = record orphaned { waiting = 1 ∷ []; made = 2 }

-- It returns, and another one asks for the lock, and then a third one.
sends : turns (asks ∷ subscribes 0 ∷ arrives ∷ []) unsubscribed ≡ some sent
unfolding turns turn unsubscribed without count
sends = refl

returns_early : turn (returns_from 0) sent ≡ some orphaned
unfolding turn without count
returns_early = refl

asks_again : turn asks orphaned ≡ some stuck
unfolding turn
asks_again = refl

a_third : turns (asks ∷ []) stuck ≡ some (record stuck { waiting = 2 ∷ 1 ∷ []; made = 3 })
unfolding turns turn
a_third = refl

one_sends : 0 < count 0 sent.sending
unfolding count
one_sends = omega arith

turns_stuck_example :
    (0 < count 0 (0 ∷ []))
    × (turn (subscribes 1) (record stuck { waiting = 2 ∷ 1 ∷ []; made = 3 }) ≡ none)
    × (turn arrives (record stuck { waiting = 2 ∷ 1 ∷ []; made = 3 }) ≡ none)
turns_stuck_example =
    turns_stuck (asks ∷ subscribes 0 ∷ arrives ∷ []) (asks ∷ []) sent orphaned stuck
      (record stuck { waiting = 2 ∷ 1 ∷ []; made = 3 }) 0 1 sends one_sends returns_early asks_again
      a_third

-- Two WhoIs listen, of which the second has the subscription.
abbrev both : Subscriptions
both = record { f = some 1; waiting = []; listening = 1 ∷ 0 ∷ []; sending = []; made = 2 }

abbrev deaf : Subscriptions
deaf = record both { f = none; listening = 1 ∷ [] }

first_returns : turn (returns_from 0) both ≡ some deaf
unfolding turn without count
first_returns = refl

nothing_since : turns [] deaf ≡ some deaf
unfolding turns
nothing_since = refl

returns_from_deaf_example : turn arrives deaf ≡ some deaf
returns_from_deaf_example = returns_from_deaf [] both deaf deaf 0 first_returns tt nothing_since
