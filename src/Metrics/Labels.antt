-- ===== src/Metrics/Labels.antt =====
-- The prefixes that a scrape lists, in `Metrics::render`.
use Prim.Native.Nat.{Ordering}
use ratewall.Prelude.{◌≡◌, ◌≢◌, ◌⊎◌, ◌↔◌, List, [], ◌∷◌, ◌++◌, arith, All}
use ratewall.Prelude.Text.{Text, text_eq_iff}
use ratewall.Prelude.Table.{keys, text_compare, text_compare-eq_iff}
use ratewall.Prelude.Table.Order.{text_compare_flip, text_compare_trans}
use ratewall.Metrics.{Floats, Metrics}
use ratewall.Metrics.Render.{insert_sorted, sort, drop_same, dedup, all_prefixes}

-- `k` stands in the list.
abbrev pub In : Text → List Text → Type 0
In k [] = ⊥
In k (j ∷ rest) = (j ≡ k) ⊎ In k rest

abbrev AllAbove : Text → List Text → Type 0
AllAbove k = All (λ j. text_compare k j ≡ Ordering.lt)

abbrev pub Ascends : List Text → Type 0
Ascends [] = Unit
Ascends (k ∷ rest) = AllAbove k rest × Ascends rest

In-append : (k : Text) (xs ys : List Text) → In k (xs ++ ys) ↔ (In k xs ⊎ In k ys)
In-append k [] ys = ground arith
In-append k (x ∷ xs) ys = ground (arith, In-append k xs ys)

In-insert_sorted : (k j : Text) (xs : List Text) → In k (insert_sorted j xs) ↔ ((j ≡ k) ⊎ In k xs)
unfolding insert_sorted
In-insert_sorted k j [] = ground arith
In-insert_sorted k j (x ∷ xs) = ground (arith, In-insert_sorted k j xs)

In-sort : (k : Text) (xs : List Text) → In k (sort xs) ↔ In k xs
unfolding sort
In-sort k [] = ground arith
In-sort k (x ∷ xs) = ground (arith, In-sort k xs, In-insert_sorted k x (sort xs))

In-drop_same : (k x : Text) (ys : List Text) → In k (drop_same x ys) ↔ ((x ≡ k) ⊎ In k ys)
In-drop_same k x [] = ground arith
In-drop_same k x (y ∷ ys) = ground (arith, text_eq_iff x y)

In-dedup : (k : Text) (xs : List Text) → In k (dedup xs) ↔ In k xs
unfolding dedup
In-dedup k [] = ground arith
In-dedup k (x ∷ xs) = ground (arith, In-drop_same k x (dedup xs), In-dedup k xs)

-- Every element of the list is `k` or above it.
abbrev AllFrom : Text → List Text → Type 0
AllFrom k = All (λ j. text_compare k j ≢ Ordering.gt)

abbrev NeverDescends : List Text → Type 0
NeverDescends [] = Unit
NeverDescends (k ∷ rest) = AllFrom k rest × NeverDescends rest

from_trans :
    (i k j : Text)
    → text_compare i k ≢ Ordering.gt
    → text_compare k j ≢ Ordering.gt
    → text_compare i j ≢ Ordering.gt
from_trans i k j h g =
    ground (arith, text_compare_trans i k j, text_compare-eq_iff i k, text_compare-eq_iff k j)

AllFrom-trans :
    (i k : Text) (xs : List Text) → text_compare i k ≢ Ordering.gt → AllFrom k xs → AllFrom i xs
AllFrom-trans i k [] h a = tt
AllFrom-trans i k (x ∷ xs) h a = (from_trans i k x h a.0, AllFrom-trans i k xs h a.1)

AllFrom-insert_sorted :
    (i k : Text) (xs : List Text)
    → text_compare i k ≢ Ordering.gt
    → AllFrom i xs
    → AllFrom i (insert_sorted k xs)
unfolding insert_sorted
AllFrom-insert_sorted i k [] h a = (h, tt)
AllFrom-insert_sorted i k (x ∷ xs) h a = ground (arith, AllFrom-insert_sorted i k xs)

insert_sorted-NeverDescends :
    (k : Text) (xs : List Text) → NeverDescends xs → NeverDescends (insert_sorted k xs)
unfolding insert_sorted
insert_sorted-NeverDescends k [] h = (tt, tt)
insert_sorted-NeverDescends k (x ∷ xs) h = ground (
  arith,
  insert_sorted-NeverDescends k xs,
  AllFrom-insert_sorted x k xs,
  AllFrom-trans k x xs,
  text_compare_flip k x,
)

sort-NeverDescends : (xs : List Text) → NeverDescends (sort xs)
unfolding sort
sort-NeverDescends [] = tt
sort-NeverDescends (x ∷ xs) = insert_sorted-NeverDescends x (sort xs) (sort-NeverDescends xs)

AllFrom-dedup : (k : Text) (xs : List Text) → AllFrom k xs → AllFrom k (dedup xs)
unfolding dedup
AllFrom-dedup k [] h = tt
AllFrom-dedup k (x ∷ xs) h = keep (dedup xs) (AllFrom-dedup k xs h.1)
  where
    keep : (ys : List Text) → AllFrom k ys → AllFrom k (drop_same x ys)
    keep [] g = (h.0, tt)
    keep (y ∷ ys) g = ground arith

AllAbove-of_AllFrom :
    (k j : Text) (xs : List Text) → text_compare k j ≡ Ordering.lt → AllAbove j xs → AllAbove k xs
AllAbove-of_AllFrom k j [] h a = tt
AllAbove-of_AllFrom k j (x ∷ xs) h a =
    (text_compare_trans k j x h a.0, AllAbove-of_AllFrom k j xs h a.1)

drop_same-Ascends :
    (k : Text) (ys : List Text) → AllFrom k ys → Ascends ys → Ascends (drop_same k ys)
drop_same-Ascends k [] h a = (tt, tt)
drop_same-Ascends k (y ∷ ys) h a =
    ground (arith, text_eq_iff k y, text_compare-eq_iff k y, AllAbove-of_AllFrom k y ys)

dedup-Ascends : (xs : List Text) → NeverDescends xs → Ascends (dedup xs)
unfolding dedup
dedup-Ascends [] h = tt
dedup-Ascends (x ∷ xs) h =
    drop_same-Ascends x (dedup xs) (AllFrom-dedup x xs h.0) (dedup-Ascends xs h.1)

-- A scrape lists the prefixes in strictly ascending order, so each once, and a prefix is listed
-- exactly if it has counters, a histogram or a breaker gauge.
pub all_prefixes_lem :
    (floats : Floats) (m : Metrics floats)
    → Ascends (all_prefixes floats m)
      × ((k : Text)
          → In k (all_prefixes floats m)
            ↔ (In k (keys m.per_prefix) ⊎ In k (keys m.latencies) ⊎ In k (keys m.breaker_state)))
unfolding all_prefixes
all_prefixes_lem floats m =
    let listed = keys m.per_prefix ++ (keys m.latencies ++ keys m.breaker_state) in
    (
      dedup-Ascends (sort listed) (sort-NeverDescends listed),
      λ k. ground (
        arith,
        In-dedup k (sort listed),
        In-sort k listed,
        In-append k (keys m.per_prefix) (keys m.latencies ++ keys m.breaker_state),
        In-append k (keys m.latencies) (keys m.breaker_state),
      ),
    )
