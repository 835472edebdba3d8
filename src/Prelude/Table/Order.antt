-- ===== src/Prelude/Table/Order.antt =====
-- The order of keys: insertion keeps a table in strictly ascending key order, which is the order
-- in which `iter` and `keys` walk a `BTreeMap`.
use Prim.Native.Nat.{Ordering}
use mathlib.Core.Path.{◌≡◌, refl}
use mathlib.Core.Option.{none}
use mathlib.Core.List.{[], ◌∷◌}
use native.Mathlib.Omega.{arith}
use package.ratewall.Prelude.Lists.{All}
use package.ratewall.Prelude.Text.{text_eq_iff, Text}
use package.ratewall.Prelude.Table.{get, text_compare, text_compare-eq_iff, Table, insert, keys}

pub text_compare_flip :
    (s t : Text) → text_compare s t ≡ Ordering.gt → text_compare t s ≡ Ordering.lt
unfolding text_compare
text_compare_flip [] [] h = cc
text_compare_flip [] (b ∷ t) h = cc
text_compare_flip (a ∷ s) [] h = refl
text_compare_flip (a ∷ s) (b ∷ t) h = ground (arith, text_compare_flip s t)

pub text_compare_trans :
    (s t u : Text)
    → text_compare s t ≡ Ordering.lt
    → text_compare t u ≡ Ordering.lt
    → text_compare s u ≡ Ordering.lt
unfolding text_compare
text_compare_trans [] [] u h k = cc
text_compare_trans [] (b ∷ t) [] h k = cc
text_compare_trans [] (b ∷ t) (c ∷ u) h k = refl
text_compare_trans (a ∷ s) [] u h k = cc
text_compare_trans (a ∷ s) (b ∷ t) [] h k = cc
text_compare_trans (a ∷ s) (b ∷ t) (c ∷ u) h k = ground (arith, text_compare_trans s t u)

-- Every key of the table is above `k`.
abbrev pub IsBelow {ℓ} : {V : Type ℓ} → Text → Table V → Type 0
IsBelow k m = All (λ j. text_compare k j ≡ Ordering.lt) (keys m)

abbrev pub IsAscending {ℓ} : {V : Type ℓ} → Table V → Type 0
IsAscending [] = Unit
IsAscending ((k, v) ∷ m) = IsBelow k m × IsAscending m

module _ {ℓ} {V : Type ℓ} where
  IsBelow-trans :
      (i k : Text) (m : Table V) → text_compare i k ≡ Ordering.lt → IsBelow k m → IsBelow i m
  IsBelow-trans i k [] h b = tt
  IsBelow-trans i k ((j, w) ∷ m) h b = (text_compare_trans i k j h b.0, IsBelow-trans i k m h b.1)

  IsBelow-insert :
      (i k : Text) (v : V) (m : Table V)
      → text_compare i k ≡ Ordering.lt
      → IsBelow i m
      → IsBelow i (insert k v m)
  unfolding insert
  IsBelow-insert i k v [] h b = (h, tt)
  IsBelow-insert i k v ((j, w) ∷ m) h b = ground (arith, IsBelow-insert i k v m)

  pub insert-IsAscending :
      (k : Text) (v : V) (m : Table V) → IsAscending m → IsAscending (insert k v m)
  unfolding insert
  insert-IsAscending k v [] h = (tt, tt)
  insert-IsAscending k v ((j, w) ∷ m) h = ground (
    arith,
    insert-IsAscending k v m,
    text_compare_flip k j,
    IsBelow-insert j k v m,
    IsBelow-trans k j m,
    text_compare-eq_iff k j,
  )

  -- A key below all keys of a table is not in it.
  pub get_of_IsBelow : (k : Text) (m : Table V) → IsBelow k m → get k m ≡ none
  unfolding get
  get_of_IsBelow k [] b = refl
  get_of_IsBelow k ((j, w) ∷ m) b =
      ground (arith, get_of_IsBelow k m b.1, b.0, text_eq_iff j k, text_compare-eq_iff k j)
