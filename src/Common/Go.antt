-- ===== src/Common/Go.antt =====
-- How the Go code fails: error values, wrapped errors, and panics.
use Prim.Native.Nat.{ℕ}
use Prim.Native.String.{String}
use mathlib.Core.Path.{◌≡◌, refl}
use mathlib.Core.Logic.{◌⊎◌, inl, inr}
use mathlib.Core.Bool.{Bool, true, false}

-- An `error` that is not nil. `message` is `errors.New` or a `fmt.Errorf` that wraps nothing, with
-- the format's constant text; `wrapped` is a `fmt.Errorf` with `%w`. `incorrect_tag_id` is the
-- struct ErrorIncorrectTagID, `app_data_type_mismatch` is AppDataTypeMismatch with the type wanted,
-- `apdu_error` is ApduError with its class and code, and the others are the sentinel values of the packages.
pub data Error : Type 0 where
  eof unexpected_eof unread_byte not_bacnet_ip context_done : Error
  incorrect_tag_id : ℕ → ℕ → Error
  apdu_error : ℕ → ℕ → Error
  app_data_type_mismatch : String → Error
  message : String → Error
  wrapped : String → Error → Error

-- A pair (value, error) of which only one half is used.
pub data Result {ℓ} (A : Type ℓ) : Type ℓ where
  ok : A → Result A
  err : Error → Result A

-- What a call may do besides returning.
pub data Outcome {ℓ} (A : Type ℓ) : Type ℓ where
  returns : A → Outcome A
  panics : Outcome A

infixl 5 ◌>>=◌
abbrev pub ◌>>=◌ {ℓ κ} : {A : Type ℓ} {B : Type κ} → Outcome A → (A → Outcome B) → Outcome B
returns a >>= f = f a
panics >>= f = panics

-- `errors.As(err, &ErrorIncorrectTagID{})`: somewhere along the chain of wrapped errors.
unfoldable pub is_incorrect_tag : Error → Bool
is_incorrect_tag (incorrect_tag_id expected got) = true
is_incorrect_tag (wrapped s e) = is_incorrect_tag e
is_incorrect_tag _ = false

-- To split on a result and keep the equation.
pub Result-cases {ℓ} :
    {A : Type ℓ} (r : Result A) → ((a : A) × (r ≡ ok a)) ⊎ ((e : Error) × (r ≡ err e))
Result-cases (ok a) = inl (a, refl)
Result-cases (err e) = inr (e, refl)

pub Outcome-cases {ℓ} : {A : Type ℓ} (o : Outcome A) → ((a : A) × (o ≡ returns a)) ⊎ (o ≡ panics)
Outcome-cases (returns a) = inl (a, refl)
Outcome-cases panics = inr refl
