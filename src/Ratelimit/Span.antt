-- ===== src/Ratelimit/Span.antt =====
-- How many requests of one key pass in a span as long as a window, wherever the window's edge lies
-- in it.
use ratewall.Prelude.{
  ℕ, suc, ◌+◌, ◌*◌, ◌/◌, ◌≤◌, ◌<◌, ◌≡◌, ◌⊎◌, Bool, true, false, ◌&&◌, some, List, [], ◌∷◌, arith,
  All, ◌-◌, leb, ◌==◌, if◌then◌else◌,
}
use native.Mathlib.Nat.{
  le-div_iff_mul-le, div-lt_iff_lt-mul, div-mul-le_self, le-max_right, lt-div-mul-add,
}
use ratewall.Prelude.Text.{Text, text_eq, text_eq_iff}
use ratewall.Prelude.Time.{as_secs}
use ratewall.Ratelimit.{
  Redis, RateLimiter, Decision, allow, limit, open_window, window_secs, window_key, window_of,
  decide,
}
use ratewall.Ratelimit.Keys.{window_key_injective}
use ratewall.Ratelimit.Window.{Counters, decide_store, decide_answer, decide-Alive}

-- The request passes.
abbrev is_allowed : Decision → Bool
is_allowed allow = true
is_allowed (limit retry_after) = false
is_allowed open_window = true

-- How many of the requests, each with its unix time and key, are of key `k` and pass.
unfoldable pub passes : (redis : Redis) → RateLimiter → Text → List (ℕ × Text) → redis.Store → ℕ
passes redis limiter k [] s = 0
passes redis limiter k ((now, key) ∷ rest) s =
    let (decision, s') = decide redis limiter key (some now) s in
    let later = passes redis limiter k rest s' in
    if text_eq key k && is_allowed decision then suc later else later

-- Two instants less than a window apart lie in the same window or in the next.
next_window :
    (w start now : ℕ)
    → 0 < w
    → start ≤ now
    → now < start + w
    → (now / w ≡ start / w) ⊎ (now / w ≡ start / w + 1)
next_window w start now p h k =
    let below : start / w * w ≤ start = div-mul-le_self start w in
    let above : start < start / w * w + w = lt-div-mul-add p in
    let low : start / w ≤ now / w = (le-div_iff_mul-le p).1 (omega arith) in
    let high : now / w < start / w + 2 = (div-lt_iff_lt-mul p).1 (grind arith) in ground arith

module _ (redis : Redis) (c : Counters redis) (limiter : RateLimiter) (k : Text) where
  open redis use {Store, incr_expire}
  open c use {Alive, count, counts}

  abbrev pub counter : ℕ → Text
  counter window = window_key limiter.key_prefix k window

  -- A request counts for its own key in its own window only.
  pub count_step :
      (now : ℕ) (key : Text) (window : ℕ) (s : Store)
      → Alive s
      → count (decide redis limiter key (some now) s).1 (counter window) ≡ (
          if text_eq key k && (now / window_secs limiter == window)
          then count s (counter window) + 1
          else count s (counter window))
  unfolding window_of
  count_step now key window s a = rw (decide_store redis c limiter (some now) key s a) (
      ground (
        arith,
        counts (window_key limiter.key_prefix key (now / window_secs limiter)) (counter window)
            (window_secs limiter) s a,
        text_eq_iff (window_key limiter.key_prefix key (now / window_secs limiter))
            (counter window),
        text_eq_iff key k,
        window_key_injective limiter.key_prefix key k (now / window_secs limiter) window,
      ))

  pub answer_in :
      (now : ℕ) (key : Text) (window : ℕ) (s : Store)
      → Alive s
      → key ≡ k
      → now / window_secs limiter ≡ window
      → is_allowed (decide redis limiter key (some now) s).0
        ≡ leb (count s (counter window) + 1) limiter.limit
  unfolding window_of
  answer_in now key window s a e e' =
      rw (decide_answer redis c limiter (some now) key s a) (rw (e, e') (ground arith))

  -- How many of a window's requests can still pass.
  abbrev left : ℕ → Store → ℕ
  left window s = limiter.limit - count s (counter window)

  module _ (start : ℕ) where
    abbrev edge : ℕ
    edge = start / window_secs limiter

    passes_step :
        (now : ℕ) (key : Text) (s : Store) (later : ℕ)
        → Alive s
        → start ≤ now
        → now < start + window_secs limiter
        → later
          ≤ left edge (decide redis limiter key (some now) s).1
            + left (edge + 1) (decide redis limiter key (some now) s).1
        → (if text_eq key k && is_allowed (decide redis limiter key (some now) s).0
            then suc later
            else later)
          ≤ left edge s + left (edge + 1) s
    passes_step now key s later a h h' q = ground (
      arith,
      next_window (window_secs limiter) start now (le-max_right (as_secs limiter.window) 1) h h',
      answer_in now key edge s a,
      answer_in now key (edge + 1) s a,
      text_eq_iff key k,
      count_step now key edge s a,
      count_step now key (edge + 1) s a,
    )

    passes-le-left :
        (requests : List (ℕ × Text)) (s : Store)
        → Alive s
        → All (λ r. (start ≤ r.0) × (r.0 < start + window_secs limiter)) requests
        → passes redis limiter k requests s ≤ left edge s + left (edge + 1) s
    unfolding passes
    passes-le-left [] s a h = omega arith
    passes-le-left ((now, key) ∷ rest) s a h =
        passes_step now key s
          (passes redis limiter k rest (decide redis limiter key (some now) s).1) a h.0.0 h.0.1
          (passes-le-left rest (decide redis limiter key (some now) s).1
            (decide-Alive redis c limiter (some now) key s a) h.1)

-- Over a Redis that answers, of any requests within a span as long as one window, in whatever
-- order and among whatever other keys, at most twice the limit are of one key and pass: the span
-- meets two windows at most.
pub passes-le :
    (redis : Redis) (c : Counters redis) (limiter : RateLimiter) (k : Text) (start : ℕ)
    (requests : List (ℕ × Text)) (s : redis.Store)
    → c.Alive s
    → All (λ r. (start ≤ r.0) × (r.0 < start + window_secs limiter)) requests
    → passes redis limiter k requests s ≤ 2 * limiter.limit
passes-le redis c limiter k start requests s a h =
    omega (arith, passes-le-left redis c limiter k start requests s a h)
