-- ===== src/Baetyl/Delta/Covers.antt =====
-- Runs whose writes have all of some writes.
use baetyl_bacnet.Common.{
  ◌⊎◌, inl, inr, List, ◌++◌, Option, none, some, Among, Among-append_left, Among-append_right,
}
use baetyl_bacnet.Common.Go.{Error, returns, panics, ◌>>=◌}
use baetyl_bacnet.Bacip.Services.{WriteProperty}
use baetyl_bacnet.Baetyl.Delta.{Ran, go_on}

-- If the run ends without an error, its writes have all that is asked for.
abbrev pub Covers : (WriteProperty → Type 0) → Ran → Type 0
Covers Q panics = Unit {0}
Covers Q (returns (ws, some e)) = Unit {0}
Covers Q (returns (ws, none)) = (wp : WriteProperty) → Q wp → Among wp ws

pub Covers-less :
    (P Q : WriteProperty → Type 0) (r : Ran)
    → ((wp : WriteProperty) → P wp → Q wp)
    → Covers Q r
    → Covers P r
Covers-less P Q panics f h = tt
Covers-less P Q (returns (ws, some e)) f h = tt
Covers-less P Q (returns (ws, none)) f h = λ wp p. h wp (f wp p)

module _ (P Q : WriteProperty → Type 0) where
  abbrev pub Either : WriteProperty → Type 0
  Either wp = P wp ⊎ Q wp

  Among-append_both :
      (ws more : List WriteProperty)
      → ((wp : WriteProperty) → P wp → Among wp ws)
      → ((wp : WriteProperty) → Q wp → Among wp more)
      → (wp : WriteProperty) → Either wp
      → Among wp (ws ++ more)
  Among-append_both ws more h k wp (inl p) = Among-append_left wp ws more (h wp p)
  Among-append_both ws more h k wp (inr q) = Among-append_right wp ws more (k wp q)

  pub Covers-go_on :
      (x : List WriteProperty × Option Error) (next : Ran)
      → Covers P (returns x)
      → Covers Q next
      → Covers Either (go_on x next)
  Covers-go_on (ws, some e) next h k = tt
  Covers-go_on (ws, none) panics h k = tt
  Covers-go_on (ws, none) (returns (more, some e)) h k = tt
  Covers-go_on (ws, none) (returns (more, none)) h k = Among-append_both ws more h k

  pub Covers-bind :
      (r : Ran) (next : List WriteProperty × Option Error → Ran)
      → Covers P r
      → ((x : List WriteProperty × Option Error) → Covers Q (next x))
      → Covers Either (r >>= λ x. go_on x (next x))
  Covers-bind panics next h k = tt
  Covers-bind (returns x) next h k = Covers-go_on x (next x) h (k x)
