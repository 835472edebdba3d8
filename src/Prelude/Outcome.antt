-- ===== src/Prelude/Outcome.antt =====
-- Rust's `Result`, with `?` as a bind.
use mathlib.Core.Path.{◌≡◌, refl}
use mathlib.Core.Logic.{◌⊎◌, inl, inr}

-- The error type comes first, so that a chain of `?` fixes it.
pub data Result {ℓ κ} (Failure : Type ℓ) (Value : Type κ) : Type (ℓ ⊔ κ) where
  ok : Value → Result Failure Value
  err : Failure → Result Failure Value

-- `?` on the first result, then the rest of the function.
infixl 5 ◌>>=◌
abbrev pub ◌>>=◌ {ℓ κ} :
    {Failure : Type ℓ} {Before After : Type κ}
    → Result Failure Before
    → (Before → Result Failure After)
    → Result Failure After
err failure >>= rest = err failure
ok value >>= rest = rest value

infixl 5 ◌>>◌
abbrev pub ◌>>◌ {ℓ κ} :
    {Failure : Type ℓ} {After : Type κ}
    → Result Failure (Unit {κ})
    → Result Failure After
    → Result Failure After
checked >> rest = checked >>= λ _. rest

module _ {ℓ κ} {Failure : Type ℓ} where
  pub Result-cases :
      {Value : Type κ} (result : Result Failure Value)
      → ((value : Value) × (result ≡ ok value)) ⊎ ((failure : Failure) × (result ≡ err failure))
  Result-cases (err failure) = inr (failure, refl)
  Result-cases (ok value) = inl (value, refl)

  -- A chain that succeeds has succeeded in each part.
  pub passed_through :
      {Before After : Type κ} (first : Result Failure Before) (rest : Before → Result Failure After)
      {end : After}
      → (first >>= rest) ≡ ok end
      → (value : Before) × (first ≡ ok value) × (rest value ≡ ok end)
  passed_through (err failure) rest h = cc
  passed_through (ok value) rest h = (value, refl, h)
