-- ===== src/Prelude/Table.antt =====
-- Rust's `BTreeMap` with text keys: an association list that insertion keeps in key order.
pub mod Order
use Prim.Native.Nat.{compare, Ordering}
use mathlib.Core.Path.{◌≡◌, refl}
use mathlib.Core.Logic.{◌↔◌}
use mathlib.Core.Option.{Option, none, some}
use mathlib.Core.List.{List, [], ◌∷◌}
use native.Mathlib.Omega.{arith}
use package.ratewall.Prelude.Tests.{if◌then◌else◌}
use package.ratewall.Prelude.Text.{Text, text_eq, text_eq_iff}

-- `Ord` on `str`: lexicographic. UTF-8 keeps the order of scalar values.
unfoldable pub text_compare : Text → Text → Ordering
text_compare [] [] = Ordering.eq
text_compare [] (b ∷ t) = Ordering.lt
text_compare (a ∷ s) [] = Ordering.gt
text_compare (a ∷ s) (b ∷ t) = elim (compare a b) [
  | Ordering.lt ↦ Ordering.lt
  | Ordering.gt ↦ Ordering.gt
  | Ordering.eq ↦ text_compare s t
]

pub text_compare-eq_iff : (s t : Text) → (text_compare s t ≡ Ordering.eq) ↔ (s ≡ t)
unfolding text_compare
text_compare-eq_iff [] [] = ground arith
text_compare-eq_iff [] (b ∷ t) = ground arith
text_compare-eq_iff (a ∷ s) [] = ground arith
text_compare-eq_iff (a ∷ s) (b ∷ t) = ground (arith, text_compare-eq_iff s t)

abbrev pub Table {ℓ} : Type ℓ → Type ℓ
Table V = List (Text × V)

module _ {ℓ} {V : Type ℓ} where
  unfoldable pub get : Text → Table V → Option V
  get k [] = none
  get k ((j, v) ∷ m) = if text_eq j k then some v else get k m

  unfoldable pub insert : Text → V → Table V → Table V
  unfolding text_compare
  insert k v [] = (k, v) ∷ []
  insert k v ((j, w) ∷ m) = elim (text_compare k j) [
    | Ordering.lt ↦ (k, v) ∷ (j, w) ∷ m
    | Ordering.eq ↦ (k, v) ∷ m
    | Ordering.gt ↦ (j, w) ∷ insert k v m
  ]

  abbrev pub or_default : V → Option V → V
  or_default d none = d
  or_default d (some v) = v

  -- `entry(k).or_insert(d)`, then a change of the value.
  unfoldable pub modify : Text → V → (V → V) → Table V → Table V
  modify k d f m = insert k (f (or_default d (get k m))) m

  abbrev pub keys : Table V → List Text
  keys [] = []
  keys ((k, v) ∷ m) = k ∷ keys m

  pub get-insert :
      (k j : Text) (v : V) (m : Table V)
      → get j (insert k v m) ≡ (if text_eq k j then some v else get j m)
  unfolding get insert
  get-insert k j v [] = refl
  get-insert k j v ((i, w) ∷ m) =
      ground (arith, get-insert k j v m, text_eq_iff k j, text_eq_iff i j, text_compare-eq_iff k i)

  pub get-modify :
      (k j : Text) (d : V) (f : V → V) (m : Table V)
      → get j (modify k d f m)
        ≡ (if text_eq k j then some (f (or_default d (get k m))) else get j m)
  unfolding modify
  get-modify k j d f m = get-insert k j (f (or_default d (get k m))) m
