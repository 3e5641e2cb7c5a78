-- ===== src/Bacip/Client/Subscriptions/Stuck.antt =====
-- A handler that sends to a WhoIs which has returned keeps the read lock.
use baetyl_bacnet.Common.{
  ℕ, ◌+◌, ◌-◌, ◌<◌, ◌≤◌, ◌≡◌, List, [], ◌∷◌, none, some, ◌==◌, ltb, Option-cases, inl, inr, length,
  arith, subst, if◌then◌else◌,
}
use baetyl_bacnet.Bacip.Client.Holders.{count, bit}
use baetyl_bacnet.Bacip.Client.Subscriptions.{
  Subscriptions, unsubscribed, without, Turn, asks, arrives, subscribes, receives, returns_from,
  turn, turns,
}

pub count-without :
    (j ch : ℕ) (xs : List ℕ)
    → count j (without ch xs) ≡ (if ch == j then count j xs - 1 else count j xs)
unfolding count without
count-without j ch [] = ground arith
count-without j ch (x ∷ xs) = ground (arith, count-without j ch xs)

-- A channel is waited with or listened to once, if it was made.
abbrev pub IsOnce : Subscriptions → Type 0
IsOnce s = (j : ℕ) → count j s.waiting + count j s.listening ≤ bit (ltb j s.made)

turn-IsOnce : (c : Turn) (s s' : Subscriptions) → IsOnce s → turn c s ≡ some s' → IsOnce s'
unfolding turn count
turn-IsOnce asks s s' h e = λ j. ground (arith, e, h j)
turn-IsOnce (subscribes ch) s s' h e = λ j. ground (arith, e, h j, count-without j ch s.waiting)
turn-IsOnce arrives s s' h e = λ j. ground (arith, e, h j)
turn-IsOnce (receives ch) s s' h e = λ j. ground (arith, e, h j)
turn-IsOnce (returns_from ch) s s' h e = λ j. ground (arith, e, h j, count-without j ch s.listening)

turns-IsOnce : (cs : List Turn) (s s' : Subscriptions) → IsOnce s → turns cs s ≡ some s' → IsOnce s'
unfolding turns
turns-IsOnce [] s s' h e = let same : s ≡ s' = ground (arith, e) in subst IsOnce same h
turns-IsOnce (c ∷ cs) s s' h e = elim (Option-cases (turn c s)) [
  | inl q ↦ absurd (ground (arith, q))
  | inr (s1, q) ↦ turns-IsOnce cs s1 s' (turn-IsOnce c s s1 h q) (ground (arith, q))
]

-- A handler sends on a channel that no loop receives from.
abbrev pub IsOrphan : ℕ → Subscriptions → Type 0
IsOrphan ch s = (0 < count ch s.sending) × (count ch s.listening ≡ 0)

turn-IsOrphan :
    (ch : ℕ) (c : Turn) (s s' : Subscriptions) → IsOrphan ch s → turn c s ≡ some s' → IsOrphan ch s'
unfolding turn count
turn-IsOrphan ch asks s s' (h, k) e = ground (arith, e)
turn-IsOrphan ch (subscribes x) s s' (h, k) e = absurd (ground (arith, e))
turn-IsOrphan ch arrives s s' (h, k) e = ground (arith, e)
turn-IsOrphan ch (receives x) s s' (h, k) e = ground (arith, e, count-without ch x s.sending)
turn-IsOrphan ch (returns_from x) s s' (h, k) e = ground (arith, e, count-without ch x s.listening)

turn-waiting :
    (c : Turn) (ch : ℕ) (s s' : Subscriptions)
    → IsOrphan ch s
    → 0 < length s.waiting
    → turn c s ≡ some s'
    → 0 < length s'.waiting
unfolding turn count
turn-waiting asks ch s s' (h, k) w e = ground (arith, e)
turn-waiting (subscribes x) ch s s' (h, k) w e = absurd (ground (arith, e))
turn-waiting arrives ch s s' (h, k) w e = ground (arith, e)
turn-waiting (receives x) ch s s' (h, k) w e = ground (arith, e)
turn-waiting (returns_from x) ch s s' (h, k) w e = ground (arith, e)

-- What stays so once a WhoIs waits behind such a handler.
abbrev IsStuck : ℕ → Subscriptions → Type 0
IsStuck ch s = IsOrphan ch s × (0 < length s.waiting)

turns-IsStuck :
    (ch : ℕ) (cs : List Turn) (s s' : Subscriptions)
    → IsStuck ch s
    → turns cs s ≡ some s'
    → IsStuck ch s'
unfolding turns
turns-IsStuck ch [] s s' h e = let same : s ≡ s' = ground (arith, e) in subst (IsStuck ch) same h
turns-IsStuck ch (c ∷ cs) s s' (o, w) e = elim (Option-cases (turn c s)) [
  | inl q ↦ absurd (ground (arith, q))
  | inr (s1, q) ↦
      turns-IsStuck ch cs s1 s' (turn-IsOrphan ch c s s1 o q, turn-waiting c ch s s1 o w q)
        (ground (arith, q))
]

unsubscribed-IsOnce : IsOnce unsubscribed
unfolding unsubscribed count
unsubscribed-IsOnce = λ j. ground arith

-- However the calls of WhoIs and the handlers have interleaved: if a WhoIs returns while a handler
-- sends to it, then after the next call of WhoIs, whatever follows, the handler still sends, no WhoIs
-- ever subscribes, and no handler that has yet to take the lock ever does.
pub turns_stuck :
    (cs after : List Turn) (s s1 s2 s' : Subscriptions) (ch other : ℕ)
    → turns cs unsubscribed ≡ some s
    → 0 < count ch s.sending
    → turn (returns_from ch) s ≡ some s1
    → turn asks s1 ≡ some s2
    → turns after s2 ≡ some s'
    → (0 < count ch s'.sending) × (turn (subscribes other) s' ≡ none) × (turn arrives s' ≡ none)
unfolding turn count
turns_stuck cs after s s1 s2 s' ch other r h q a e =
    let once = turns-IsOnce cs unsubscribed s unsubscribed-IsOnce r ch in
    let orphan : IsOrphan ch s1 = ground (arith, h, q, once, count-without ch ch s.listening) in
    let stuck : IsStuck ch s2 = ground (arith, orphan, a) in
    let (o, w) = turns-IsStuck ch after s2 s' stuck e in (o.0, ground (arith, o), ground (arith, w))
