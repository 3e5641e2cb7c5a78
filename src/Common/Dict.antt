-- ===== src/Common/Dict.antt =====
-- Go's maps with string keys: the entries in the order in which a range goes through them.
use mathlib.Core.Path.{◌≡◌, refl, ap, subst, sym}
use mathlib.Core.Logic.{inl, inr}
use mathlib.Core.Option.{Option, none, some}
use mathlib.Core.List.{List, [], ◌∷◌}
use native.Mathlib.Omega.{arith}
use baetyl_bacnet.Common.Tests.{Bool-cases, if◌then◌else◌}
use baetyl_bacnet.Common.Text.{Text, same_text, same_text-eq, same_text_apart}

module _ {ℓ} {A : Type ℓ} where
  -- `m[k]` and whether it is there.
  unfoldable pub lookup : Text → List (Text × A) → Option A
  lookup k [] = none
  lookup k ((j, v) ∷ rest) = if same_text j k then some v else lookup k rest

  -- `m[k] = v`
  unfoldable pub put : Text → A → List (Text × A) → List (Text × A)
  put k v [] = (k, v) ∷ []
  put k v ((j, w) ∷ rest) = if same_text j k then (j, v) ∷ rest else (j, w) ∷ put k v rest

  pub lookup-put :
      (k j : Text) (v : A) (m : List (Text × A))
      → lookup k (put j v m) ≡ (if same_text j k then some v else lookup k m)
  unfolding lookup put
  lookup-put k j v [] = refl
  lookup-put k j v ((i, w) ∷ rest) = elim (Bool-cases (same_text i j)) [
    | inl q ↦ ground (arith, q, ap (λ (x : Text). same_text x k) (same_text-eq i j q))
    | inr q ↦ ground (arith, q, same_text_apart i j k q, lookup-put k j v rest)
  ]

module _ {ℓ κ} {A : Type ℓ} (P : Text → A → Type κ) where
  -- A predicate of each entry.
  abbrev pub Entries : List (Text × A) → Type κ
  Entries [] = Unit {κ}
  Entries ((k, v) ∷ rest) = P k v × Entries rest

  pub put-Entries :
      (k : Text) (v : A) (m : List (Text × A)) → P k v → Entries m → Entries (put k v m)
  unfolding put
  put-Entries k v [] h hs = (h, tt)
  put-Entries k v ((j, w) ∷ rest) h (hj, hs) = elim (Bool-cases (same_text j k)) [
    | inl q ↦ rw q (subst (λ (x : Text). P x v) (sym (same_text-eq j k q)) h, hs)
    | inr q ↦ rw q (hj, put-Entries k v rest h hs)
  ]

  pub lookup-Entries :
      (k : Text) (v : A) (m : List (Text × A)) → Entries m → lookup k m ≡ some v → P k v
  unfolding lookup
  lookup-Entries k v [] hs e = absurd (ground arith)
  lookup-Entries k v ((j, w) ∷ rest) (hj, hs) e = elim (Bool-cases (same_text j k)) [
    | inl q ↦
        let f : w ≡ v = ground (arith, q, e) in
        subst (λ (x : Text). P x v) (same_text-eq j k q) (subst (P j) f hj)
    | inr q ↦ lookup-Entries k v rest hs (ground (arith, q, e))
  ]
