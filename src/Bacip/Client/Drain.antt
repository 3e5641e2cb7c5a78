-- ===== src/Bacip/Client/Drain.antt =====
-- The client's calls can all come to an end, whatever they have interleaved to.
use baetyl_bacnet.Common.{
  ltb, ℕ, suc, ◌+◌, ◌*◌, ◌≤◌, ◌≡◌, refl, List, [], ◌∷◌, ◌++◌, none, some, length, arith,
}
use baetyl_bacnet.Bacip.Transaction.{get_transaction, set_transaction, stop_transaction, free_id}
use baetyl_bacnet.Bacip.Client.Calls.{
  Phase, taken, registered, stopped, Call, System, start, pick, Event, registers, stops, finishes,
  register, stop, finish, step, run,
}
use baetyl_bacnet.Bacip.Client.Holders.{bit, count, holders, awaited, IsConsistent}
use baetyl_bacnet.Bacip.Client.Routing.{step_keeps, run_keeps, run-IsConsistent}

-- At most n events end all calls.
abbrev pub Drains : ℕ → System → Type 0
Drains n s =
    (fs : List Event) × (s' : System) × (run fs s ≡ some s') × (s'.calls ≡ []) × (length fs ≤ n)

Drains-step :
    (n : ℕ) (e : Event) (s s' : System) → step e s ≡ some s' → Drains n s' → Drains (suc n) s
unfolding run
Drains-step n e s s' h (fs, last, r, ended, l) =
    (e ∷ fs, last, ground (arith, h), ended, omega arith)

module _ (s : System) (c : Call) (cs : List Call) (h : IsConsistent s) (q : s.calls ≡ c ∷ cs) where
  -- The first call goes on.
  goes_on :
      c.phase ≡ taken
      → (s' : System) × (step (registers 0) s ≡ some s')
        × (s'.calls ≡ record c { phase = registered } ∷ cs)
  unfolding step register pick
  goes_on p = (
    record {
      transactions = set_transaction c.id c.channel c.ctx s.transactions;
      calls = record c { phase = registered } ∷ cs;
    },
    ground (arith, q, p),
    refl,
  )

  gives_up :
      c.phase ≡ registered
      → (s' : System) × (step (stops 0) s ≡ some s')
        × (s'.calls ≡ record c { phase = stopped } ∷ cs)
  unfolding step stop pick
  gives_up p = (
    record {
      transactions = stop_transaction c.id s.transactions;
      calls = record c { phase = stopped } ∷ cs;
    },
    ground (arith, q, p),
    refl,
  )

  ends : c.phase ≡ stopped → (s' : System) × (step (finishes 0) s ≡ some s') × (s'.calls ≡ cs)
  unfolding step finish free_id pick
  ends p = (
    record {
      transactions = record s.transactions {
        free_invoke_id = s.transactions.free_invoke_id ++ c.id ∷ [];
      };
      calls = cs;
    },
    ground (arith, q, p, h.2),
    refl,
  )

within : (m n : ℕ) (s : System) → m ≤ n → Drains m s → Drains n s
within m n s b (fs, s', r, e, l) = (fs, s', r, e, omega arith)

-- What drains the other calls drains a call in each of its phases and the others.
module _ (n : ℕ) (cs : List Call)
    (others : (s : System) → IsConsistent s → s.calls ≡ cs → Drains n s) where
  Drains-stopped :
      (s : System) (c : Call)
      → IsConsistent s
      → s.calls ≡ c ∷ cs
      → c.phase ≡ stopped
      → Drains (suc n) s
  Drains-stopped s c h q p =
      let (s', st, q') = ends s c cs h q p in
      Drains-step n (finishes 0) s s' st (others s' (step_keeps (finishes 0) s s' h st) q')

  Drains-registered :
      (s : System) (c : Call)
      → IsConsistent s
      → s.calls ≡ c ∷ cs
      → c.phase ≡ registered
      → Drains (suc (suc n)) s
  Drains-registered s c h q p =
      let (s', st, q') = gives_up s c cs h q p in
      Drains-step (suc n) (stops 0) s s' st
        (Drains-stopped s' (record c { phase = stopped }) (step_keeps (stops 0) s s' h st) q' refl)

  Drains-taken :
      (s : System) (c : Call)
      → IsConsistent s
      → s.calls ≡ c ∷ cs
      → c.phase ≡ taken
      → Drains (suc (suc (suc n))) s
  Drains-taken s c h q p =
      let (s', st, q') = goes_on s c cs h q p in
      Drains-step (suc (suc n)) (registers 0) s s' st (
        Drains-registered s' (record c { phase = registered }) (step_keeps (registers 0) s s' h st)
          q' refl)

  Drains-phase :
      (p : Phase) (s : System) (c : Call)
      → IsConsistent s
      → s.calls ≡ c ∷ cs
      → c.phase ≡ p
      → Drains (3 + n) s
  Drains-phase taken s c h q p =
      within (suc (suc (suc n))) (3 + n) s (omega arith) (Drains-taken s c h q p)
  Drains-phase registered s c h q p =
      within (suc (suc n)) (3 + n) s (omega arith) (Drains-registered s c h q p)
  Drains-phase stopped s c h q p = within (suc n) (3 + n) s (omega arith) (Drains-stopped s c h q p)

Drains-calls :
    (cs : List Call) (s : System) → IsConsistent s → s.calls ≡ cs → Drains (3 * length cs) s
unfolding run
Drains-calls [] s h q = ([], s, refl, q, omega arith)
Drains-calls (c ∷ cs) s h q =
    within (3 + 3 * length cs) (3 * length (c ∷ cs)) s (omega arith)
      (Drains-phase (3 * length cs) cs (Drains-calls cs) c.phase s c h q refl)

-- However the calls of a client have interleaved, at most three more events of each call end all
-- calls, and then every byte is a free id, exactly once, no other number is, and no transaction is
-- left.
pub run_drains :
    (es : List Event) (s : System)
    → run es start ≡ some s
    → (fs : List Event) × (s' : System) × (run fs s ≡ some s')
      × (s'.calls ≡ [])
      × (length fs ≤ 3 * length s.calls)
      × ((j : ℕ) → count j s'.transactions.free_invoke_id ≡ bit (ltb j 256))
      × ((j : ℕ) → get_transaction j s'.transactions ≡ none)
unfolding get_transaction awaited holders
run_drains es s r =
    let h = run-IsConsistent es s r in
    let (fs, s', r', e, l) = Drains-calls s.calls s h refl in
    let (one, table, total) = run_keeps fs s s' h r' in
    (fs, s', r', e, l, λ j. ground (arith, e, one j), λ j. ground (arith, e, table j))
