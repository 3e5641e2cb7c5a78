-- ===== src/Bacip/Client/Subscriptions/Overlap.antt =====
-- Calls of WhoIs that overlap share one subscription.
use baetyl_bacnet.Common.{
  ℕ, ◌≡◌, List, [], ◌∷◌, none, some, Bool, true, false, All, Option-cases, inl, inr, arith,
  if◌then◌else◌,
}
use baetyl_bacnet.Bacip.Client.Holders.{count}
use baetyl_bacnet.Bacip.Client.Subscriptions.{
  Subscriptions, is_empty, Turn, asks, arrives, subscribes, receives, returns_from, turn, turns,
}

abbrev pub is_subscription : Turn → Bool
is_subscription (subscribes ch) = true
is_subscription _ = false

-- Without a subscription there is none until a WhoIs subscribes.
turn_deaf :
    (c : Turn) (s s' : Subscriptions)
    → s.f ≡ none
    → is_subscription c ≡ false
    → turn c s ≡ some s'
    → s'.f ≡ none
unfolding turn count
turn_deaf asks s s' f n e = ground (arith, e)
turn_deaf (subscribes x) s s' f n e = absurd (ground (arith, n))
turn_deaf arrives s s' f n e = ground (arith, e)
turn_deaf (receives x) s s' f n e = ground (arith, e)
turn_deaf (returns_from x) s s' f n e = ground (arith, e)

turns_deaf :
    (cs : List Turn) (s s' : Subscriptions)
    → s.f ≡ none
    → All (λ c. is_subscription c ≡ false) cs
    → turns cs s ≡ some s'
    → s'.f ≡ none
unfolding turns
turns_deaf [] s s' f n e = ground (arith, e)
turns_deaf (c ∷ cs) s s' f (n, ns) e = elim (Option-cases (turn c s)) [
  | inl q ↦ absurd (ground (arith, q))
  | inr (s1, q) ↦ turns_deaf cs s1 s' (turn_deaf c s s1 f n q) ns (ground (arith, q))
]

-- When a WhoIs has returned, a packet that arrives is handed to no WhoIs, not even to another one that
-- still waits for answers, until a WhoIs subscribes: its handler changes nothing, if it gets the
-- lock.
pub returns_from_deaf :
    (cs : List Turn) (s s1 s' : Subscriptions) (ch : ℕ)
    → turn (returns_from ch) s ≡ some s1
    → All (λ c. is_subscription c ≡ false) cs
    → turns cs s1 ≡ some s'
    → turn arrives s' ≡ (if is_empty s'.waiting then some s' else none)
unfolding turn count
returns_from_deaf cs s s1 s' ch q n e = ground (arith, turns_deaf cs s1 s' cleared n e)
  where
    cleared : s1.f ≡ none
    cleared = ground (arith, q)
