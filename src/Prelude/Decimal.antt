-- ===== src/Prelude/Decimal.antt =====
-- `to_string` of an unsigned integer. The fuel `n + 1` is enough, since each round divides by ten.
use Prim.Native.Nat.{ℕ, zero, suc, ◌+◌, ◌-◌, ◌*◌, ◌/◌, ◌%◌, ◌<◌, ◌≤◌}
use mathlib.Core.Path.{◌≡◌, subst, refl, sym, ap, ◌∙◌}
use mathlib.Core.Logic.{inl, inr, ◌≢◌}
use mathlib.Core.List.{[], ◌∷◌, ◌++◌}
use native.Mathlib.Omega.{arith}
use package.ratewall.Prelude.Tests.{ltb, Bool-cases, if◌then◌else◌}
use package.ratewall.Prelude.Lists.{All}
use package.ratewall.Prelude.Text.{Text}

digits : ℕ → ℕ → Text
digits zero n = []
digits (suc fuel) n =
    let more = digits fuel (n / 10) in
    if ltb n 10 then (b'0' + n) ∷ [] else more ++ (b'0' + n % 10) ∷ []

unfoldable pub to_decimal : ℕ → Text
unfolding digits
to_decimal n = digits (suc n) n

-- The number that a text of digits stands for.
unfoldable pub value_from : ℕ → Text → ℕ
value_from acc [] = acc
value_from acc (c ∷ s) = value_from (acc * 10 + (c - b'0')) s

value_from-append :
    (acc c : ℕ) (s : Text) → value_from acc (s ++ c ∷ []) ≡ value_from acc s * 10 + (c - b'0')
unfolding value_from
value_from-append acc c [] = refl
value_from-append acc c (b ∷ s) = value_from-append (acc * 10 + (b - b'0')) c s

value_from-digits : (fuel n : ℕ) → n < fuel → value_from 0 (digits fuel n) ≡ n
unfolding digits value_from
value_from-digits zero n h = elim h [ ]
value_from-digits (suc fuel) n h = elim (Bool-cases (ltb n 10)) [
  | inl small ↦ rw small (omega arith)
  | inr large ↦ rw large (
      rw (value_from-append 0 (b'0' + n % 10) (digits fuel (n / 10)))
        (ground (arith, value_from-digits fuel (n / 10))))
]

pub value_from-to_decimal : (n : ℕ) → value_from 0 (to_decimal n) ≡ n
unfolding to_decimal
value_from-to_decimal n = value_from-digits (suc n) n (omega arith)

pub to_decimal_injective : (m n : ℕ) → to_decimal m ≡ to_decimal n → m ≡ n
to_decimal_injective m n e =
    sym (value_from-to_decimal m) ∙ ap (value_from 0) e ∙ value_from-to_decimal n

abbrev IsDigit : ℕ → Type 0
IsDigit c = (b'0' ≤ c) × (c ≤ b'9')

All-snoc : (s : Text) (c : ℕ) → All IsDigit s → IsDigit c → All IsDigit (s ++ c ∷ [])
All-snoc [] c h k = (k, tt)
All-snoc (b ∷ s) c h k = (h.0, All-snoc s c h.1 k)

digits-IsDigit : (fuel n : ℕ) → All IsDigit (digits fuel n)
unfolding digits
digits-IsDigit zero n = tt
digits-IsDigit (suc fuel) n = ground (
  arith,
  All-snoc (digits fuel (n / 10)) (b'0' + n % 10) (digits-IsDigit fuel (n / 10)) (omega arith),
)

to_decimal-IsDigit : (n : ℕ) → All IsDigit (to_decimal n)
unfolding to_decimal
to_decimal-IsDigit n = digits-IsDigit (suc n) n

-- A decimal text holds no character that is not a digit.
pub to_decimal-Lacks : (d n : ℕ) → ¬ ((b'0' ≤ d) × (d ≤ b'9')) → All (λ c. c ≢ d) (to_decimal n)
to_decimal-Lacks d n h = weaken (to_decimal n) (to_decimal-IsDigit n)
  where
    weaken : (s : Text) → All IsDigit s → All (λ c. c ≢ d) s
    weaken [] k = tt
    weaken (c ∷ s) k = ((λ e. h (subst IsDigit e k.0)), weaken s k.1)
