-- ===== src/Circuit/Streak.antt =====
-- Reports on a breaker that admits, and the runs of failures among them.
use ratewall.Prelude.{
  ℕ, zero, suc, ◌+◌, ◌≤◌, ◌<◌, ◌≡◌, refl, Bool, true, false, ◌||◌, List, [], ◌∷◌, arith,
}
use ratewall.Circuit.{State, closed, opened, BreakerConfig, Inner, fresh, record_outcome}
use ratewall.Circuit.Traces.{IsSound}

-- The outcomes that callers report, each with the instant of the report.
pub record_all : BreakerConfig → List (ℕ × Bool) → Inner → Inner
record_all cfg [] b = b
record_all cfg ((now, success) ∷ rest) b = record_all cfg rest (record_outcome cfg now success b)

-- The list begins with `n` failures.
pub starts_failing : ℕ → List Bool → Bool
starts_failing zero outcomes = true
starts_failing (suc n) [] = false
starts_failing (suc n) (true ∷ rest) = false
starts_failing (suc n) (false ∷ rest) = starts_failing n rest

-- Somewhere in the list stand `n` failures in a row.
pub has_streak : ℕ → List Bool → Bool
unfolding starts_failing
has_streak n [] = starts_failing n []
has_streak n (o ∷ rest) = starts_failing n (o ∷ rest) || has_streak n rest

abbrev pub is_opened : State → Bool
is_opened opened = true
is_opened _ = false

abbrev outcomes : List (ℕ × Bool) → List Bool
outcomes [] = []
outcomes ((now, success) ∷ rest) = success ∷ outcomes rest

record_all_of_opened :
    (cfg : BreakerConfig) (reports : List (ℕ × Bool)) (b : Inner)
    → b.state ≡ opened
    → is_opened (record_all cfg reports b).state ≡ true
unfolding record_all record_outcome
record_all_of_opened cfg [] b h = ground arith
record_all_of_opened cfg ((now, success) ∷ rest) b h =
    record_all_of_opened cfg rest _ (ground arith)

starts_failing_mono :
    (m n : ℕ) (os : List Bool) → m ≤ n → starts_failing n os ≡ true → starts_failing m os ≡ true
unfolding starts_failing
starts_failing_mono zero n os h e = refl
starts_failing_mono (suc m) zero os h e = absurd (omega arith)
starts_failing_mono (suc m) (suc n) [] h e = e
starts_failing_mono (suc m) (suc n) (true ∷ os) h e = e
starts_failing_mono (suc m) (suc n) (false ∷ os) h e = starts_failing_mono m n os (omega arith) e

has_streak_of_starts_failing :
    (n : ℕ) (os : List Bool) → starts_failing n os ≡ true → has_streak n os ≡ true
unfolding has_streak
has_streak_of_starts_failing n [] e = e
has_streak_of_starts_failing n (o ∷ os) e = ground arith

starts_failing_nil : (n : ℕ) → 0 < n → starts_failing n [] ≡ false
unfolding starts_failing
starts_failing_nil zero h = elim h [ ]
starts_failing_nil (suc n) h = refl

starts_failing_success : (n : ℕ) (os : List Bool) → 0 < n → starts_failing n (true ∷ os) ≡ false
unfolding starts_failing
starts_failing_success zero os h = elim h [ ]
starts_failing_success (suc n) os h = refl

starts_failing_failure :
    (n : ℕ) (os : List Bool) → starts_failing (suc n) (false ∷ os) ≡ starts_failing n os
unfolding starts_failing
starts_failing_failure n os = refl

-- A streak that begins earlier is longer than what is left to count.
later_streak :
    (m n : ℕ) (os : List Bool)
    → suc m ≤ n
    → starts_failing n (false ∷ os) ≡ true
    → starts_failing m os ≡ true
later_streak m zero os h e = elim h [ ]
later_streak m (suc n) os h e =
    starts_failing_mono m n os (omega arith) (rw starts_failing_failure at e)

module _ (cfg : BreakerConfig) (s : IsSound cfg) where
  after_success :
      (now : ℕ) (b : Inner)
      → b.state ≡ closed
      → ((record_outcome cfg now true b).state ≡ closed)
        × ((record_outcome cfg now true b).consecutive_failures ≡ 0)
  unfolding record_outcome
  after_success now b c = ground arith

  after_failure :
      (now : ℕ) (b : Inner)
      → b.state ≡ closed
      → b.consecutive_failures + 1 < cfg.failure_threshold
      → ((record_outcome cfg now false b).state ≡ closed)
        × ((record_outcome cfg now false b).consecutive_failures ≡ b.consecutive_failures + 1)
  unfolding record_outcome
  after_failure now b c h = ground arith

  at_threshold :
      (now : ℕ) (b : Inner)
      → b.state ≡ closed
      → b.consecutive_failures + 1 ≡ cfg.failure_threshold
      → (record_outcome cfg now false b).state ≡ opened
  unfolding record_outcome
  at_threshold now b c h = ground arith

  -- With `m` more failures to go, the breaker opens on `m` failures at once or on a later streak.
  opens_from :
      (m : ℕ) (reports : List (ℕ × Bool)) (b : Inner)
      → b.state ≡ closed
      → 0 < m
      → b.consecutive_failures + m ≡ cfg.failure_threshold
      → is_opened (record_all cfg reports b).state ≡ (
          starts_failing m (outcomes reports)
          || has_streak cfg.failure_threshold (outcomes reports))
  unfolding record_all has_streak
  opens_from m [] b c h e =
      ground (arith, starts_failing_nil m h, starts_failing_nil cfg.failure_threshold s.0)
  opens_from m ((now, true) ∷ rest) b c h e =
      let (c', z) = after_success now b c in
      let ih =
        opens_from cfg.failure_threshold rest (record_outcome cfg now true b) c' s.0
          (omega arith) in
      ground (
        arith,
        starts_failing_success m (outcomes rest) h,
        starts_failing_success cfg.failure_threshold (outcomes rest) s.0,
        ih,
        has_streak_of_starts_failing cfg.failure_threshold (outcomes rest),
      )
  opens_from zero ((now, false) ∷ rest) b c h e = elim h [ ]
  opens_from (suc zero) ((now, false) ∷ rest) b c h e = ground (
    arith,
    record_all_of_opened cfg rest (record_outcome cfg now false b)
        (at_threshold now b c (omega arith)),
    starts_failing_failure 0 (outcomes rest),
  )
  opens_from (suc (suc m)) ((now, false) ∷ rest) b c h e =
      let (c', z) = after_failure now b c (omega arith) in
      let ih =
        opens_from (suc m) rest (record_outcome cfg now false b) c' (omega arith) (omega arith) in
      ground (
        arith,
        ih,
        starts_failing_failure (suc m) (outcomes rest),
        later_streak (suc m) cfg.failure_threshold (outcomes rest) (omega arith),
      )

-- If the threshold is at least 1 and fits a `u32`, then reports on a new breaker leave it open
-- exactly when somewhere among them stand as many consecutive failures as the threshold.
pub record_all-opens :
    (cfg : BreakerConfig) (reports : List (ℕ × Bool))
    → IsSound cfg
    → is_opened (record_all cfg reports fresh).state
      ≡ has_streak cfg.failure_threshold (outcomes reports)
record_all-opens cfg reports s = ground (
  arith,
  opens_from cfg s cfg.failure_threshold reports fresh refl s.0 (omega arith),
  has_streak_of_starts_failing cfg.failure_threshold (outcomes reports),
)
