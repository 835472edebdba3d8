-- ===== src/Metrics/Buckets.antt =====
-- A histogram of core/src/metrics.rs after any observations.
use ratewall.Prelude.{
  ℕ, ◌+◌, ◌%◌, ◌^◌, ◌≤◌, ◌<◌, ◌≡◌, refl, sym, ◌∙◌, true, List, [], ◌∷◌, map, arith, length,
  if◌then◌else◌,
}
use ratewall.Metrics.{Floats, Histogram, new_histogram, bump, observe}

module _ (floats : Floats) where
  open floats use {F64, le, nanos}

  pub observe_all : List F64 → Histogram floats → Histogram floats
  observe_all [] h = h
  observe_all (x ∷ xs) h = observe_all xs (observe floats x h)

  -- The number of observations that are at most the bound.
  pub within : F64 → List F64 → ℕ
  within bound [] = 0
  within bound (x ∷ xs) = (if le x bound then 1 else 0) + within bound xs

  abbrev add_within : List F64 → List F64 → List ℕ → List ℕ
  add_within xs (bound ∷ bounds) (c ∷ counts) =
      ((c + within bound xs) % 2 ^ 64) ∷ add_within xs bounds counts
  add_within xs _ counts = counts

  AllBelow : List ℕ → Type 0
  AllBelow [] = Unit
  AllBelow (c ∷ counts) = (c < 2 ^ 64) × AllBelow counts

  within-bump :
      (x : F64) (xs bounds : List F64) (counts : List ℕ)
      → add_within xs bounds (bump floats x bounds counts) ≡ add_within (x ∷ xs) bounds counts
  unfolding bump within
  within-bump x xs [] [] = refl
  within-bump x xs [] (c ∷ counts) = refl
  within-bump x xs (b ∷ bounds) [] = refl
  within-bump x xs (b ∷ bounds) (c ∷ counts) = ground (arith, within-bump x xs bounds counts)

  buckets_kept :
      (xs : List F64) (h : Histogram floats) → (observe_all xs h).buckets_secs ≡ h.buckets_secs
  unfolding observe_all observe
  buckets_kept [] h = refl
  buckets_kept (x ∷ xs) h = buckets_kept xs (observe floats x h)

  add_within_none :
      (bounds : List F64) (counts : List ℕ) → AllBelow counts → add_within [] bounds counts ≡ counts
  unfolding AllBelow within
  add_within_none [] counts h = refl
  add_within_none (b ∷ bounds) [] h = refl
  add_within_none (b ∷ bounds) (c ∷ counts) h = ground (arith, add_within_none bounds counts h.1)

  AllBelow-bump :
      (x : F64) (bounds : List F64) (counts : List ℕ)
      → AllBelow counts
      → AllBelow (bump floats x bounds counts)
  unfolding bump AllBelow
  AllBelow-bump x [] counts h = h
  AllBelow-bump x (b ∷ bounds) [] h = h
  AllBelow-bump x (b ∷ bounds) (c ∷ counts) h = (ground arith, AllBelow-bump x bounds counts h.1)

  counts_after :
      (xs : List F64) (h : Histogram floats)
      → AllBelow h.counts
      → (observe_all xs h).counts ≡ add_within xs h.buckets_secs h.counts
  unfolding observe_all observe
  counts_after [] h a = sym (add_within_none h.buckets_secs h.counts a)
  counts_after (x ∷ xs) h a =
      counts_after xs (observe floats x h) (AllBelow-bump x h.buckets_secs h.counts a)
      ∙ within-bump x xs h.buckets_secs h.counts

  count_after :
      (xs : List F64) (h : Histogram floats)
      → h.count < 2 ^ 64
      → (observe_all xs h).count ≡ (h.count + length xs) % 2 ^ 64
  unfolding observe_all observe
  count_after [] h a = omega arith
  count_after (x ∷ xs) h a = omega (arith, count_after xs (observe floats x h) (omega arith))

  from_zero :
      (xs bounds : List F64)
      → AllBelow (new_histogram floats bounds).counts
        × (add_within xs bounds (new_histogram floats bounds).counts
            ≡ map (λ b. within b xs % 2 ^ 64) bounds)
  unfolding new_histogram AllBelow
  from_zero xs [] = (tt, refl)
  from_zero xs (b ∷ bounds) =
      let (below, same) = from_zero xs bounds in ((omega arith, below), ground (arith, same))

  -- After any observations on a new histogram, each bucket has counted the observations that are
  -- at most its bound, and the total has counted all of them, both modulo 2^64.
  pub observe_all-counts :
      (bounds xs : List F64)
      → ((observe_all xs (new_histogram floats bounds)).counts
          ≡ map (λ b. within b xs % 2 ^ 64) bounds)
        × ((observe_all xs (new_histogram floats bounds)).count ≡ length xs % 2 ^ 64)
  observe_all-counts bounds xs =
      let (below, same) = from_zero xs bounds in
      (counts_after xs (new_histogram floats bounds) below ∙ buckets, total)
    where
      total : (observe_all xs (new_histogram floats bounds)).count ≡ length xs % 2 ^ 64
      total =
          unfold new_histogram in
          omega (arith, count_after xs (new_histogram floats bounds) (omega arith))

      buckets :
          add_within xs
            (new_histogram floats bounds).buckets_secs
            (new_histogram floats bounds).counts
          ≡ map (λ b. within b xs % 2 ^ 64) bounds
      buckets = unfold new_histogram in (from_zero xs bounds).1

  -- If every value within one bound is within another, no fewer observations are within the
  -- other, and never more than there are: the buckets are cumulative and end at the total.
  pub within_mono :
      (b b' : F64) (xs : List F64)
      → ((x : F64) → le x b ≡ true → le x b' ≡ true)
      → (within b xs ≤ within b' xs) × (within b' xs ≤ length xs)
  unfolding within
  within_mono b b' [] h = (omega arith, omega arith)
  within_mono b b' (x ∷ xs) h = let (below, total) = within_mono b b' xs h in ground (arith, h x)
