-- ===== src/Examples/Limits.antt =====
-- The rate limiter over a toy Redis.
use ratewall.Prelude.{
  ℕ, ◌+◌, ◌*◌, ◌-◌, ◌≤◌, ◌++◌, replicate, arith, ◌≡◌, refl, true, some, List, [], ◌∷◌, ltb,
  if◌then◌else◌,
}
use ratewall.Prelude.Text.{Text, codes}
use ratewall.Prelude.Table.{get}
use ratewall.Prelude.Time.{from_secs}
use ratewall.Ratelimit.{RateLimiter, allow, limit, decide, window_secs}
use ratewall.Ratelimit.Window.{decide_all, occurrences, decide_fair}
use ratewall.Ratelimit.Span.{passes, passes-le}
use ratewall.Ratelimit.Edge.{passes-edge}
use ratewall.Examples.Crates.{toy_redis, toy_counters}

abbrev pub two_a_minute : RateLimiter
two_a_minute = record { limit = 2; window = from_secs 60; key_prefix = [] }

abbrev seen : List Text
seen = codes "sub:ann" ∷ codes "sub:bob" ∷ codes "sub:ann" ∷ []

decide_fair_example :
    (decide toy_redis two_a_minute
      (codes "sub:ann")
      (some 120)
      (decide_all toy_redis two_a_minute (some 120) seen (true, []))).0
    ≡ (if ltb (occurrences (codes "sub:ann") seen) 2
        then allow
        else limit (window_secs two_a_minute))
unfolding toy_counters get
decide_fair_example =
    decide_fair toy_redis toy_counters two_a_minute (some 120) seen (codes "sub:ann") (true, [])
      refl refl

-- Around the edge at second 120, each second with its key.
abbrev around : List (ℕ × Text)
around =
    (100, codes "sub:ann")
    ∷ (119, codes "sub:ann")
    ∷ (119, codes "sub:bob")
    ∷ (120, codes "sub:ann")
    ∷ (159, codes "sub:ann")
    ∷ []

passes-le_example : passes toy_redis two_a_minute (codes "sub:ann") around (true, []) ≤ 2 * 2
unfolding toy_counters
passes-le_example =
    passes-le toy_redis toy_counters two_a_minute (codes "sub:ann") 100 around (true, []) refl
      (omega arith)

passes-edge_example :
    passes toy_redis two_a_minute
      (codes "sub:ann")
      (replicate 2 (1 * 60 + (60 - 1), codes "sub:ann")
        ++ (replicate 2 ((1 + 1) * 60, codes "sub:ann") ++ []))
      (true, [])
    ≡ 2 * 2
unfolding toy_counters get
passes-edge_example =
    passes-edge toy_redis toy_counters two_a_minute (codes "sub:ann") 1 (true, []) refl refl refl
