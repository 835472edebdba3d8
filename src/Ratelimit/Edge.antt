-- ===== src/Ratelimit/Edge.antt =====
-- What a burst across a window's edge gets through.
use ratewall.Prelude.{
  ℕ, suc, ◌+◌, ◌*◌, ◌/◌, ◌≤◌, ◌<◌, ◌≡◌, some, List, [], arith, ◌-◌, zero, sym, ap, ◌∙◌, refl, ◌++◌,
  replicate, ◌==◌, if◌then◌else◌,
}
use native.Mathlib.Nat.{add-zero, le-div_iff_mul-le, div-lt_iff_lt-mul, le-max_right}
use ratewall.Prelude.Text.{Text}
use ratewall.Prelude.Time.{as_secs}
use ratewall.Prelude.Text.Split.{text_eq_refl}
use ratewall.Ratelimit.{Redis, RateLimiter, window_secs, window_key, decide}
use ratewall.Ratelimit.Window.{Counters, decide-Alive}
use ratewall.Ratelimit.Span.{passes, counter, count_step, answer_in}

-- A second of a window lies in that window.
in_window : (w window off : ℕ) → 0 < w → off < w → (window * w + off) / w ≡ window
in_window w window off p h =
    let low : window ≤ (window * w + off) / w = (le-div_iff_mul-le p).1 (omega arith) in
    let high : (window * w + off) / w < window + 1 = (div-lt_iff_lt-mul p).1 (grind arith) in
    omega arith

module _ (redis : Redis) (c : Counters redis) (limiter : RateLimiter) (k : Text) where
  open redis use {Store}
  open c use {Alive, count}

  -- The same request, as often as the window still has room.
  burst :
      (n now : ℕ) (rest : List (ℕ × Text)) (s : Store)
      → Alive s
      → count s (counter redis c limiter k (now / window_secs limiter)) + n ≤ limiter.limit
      → (s' : Store) × Alive s'
        × (passes redis limiter k (replicate n (now, k) ++ rest) s
            ≡ n + passes redis limiter k rest s')
        × ((window : ℕ)
            → count s' (counter redis c limiter k window) ≡ (
                if now / window_secs limiter == window
                then count s (counter redis c limiter k window) + n
                else count s (counter redis c limiter k window)))
  unfolding passes
  burst zero now rest s a h = (s, a, omega arith, λ window. ground arith)
  burst (suc n) now rest s a h =
      let w = now / window_secs limiter in
      let s' = (decide redis limiter k (some now) s).1 in
      let a' = decide-Alive redis c limiter (some now) k s a in
      let counted = λ (window : ℕ). count_step redis c limiter k now k window s a in
      let same = text_eq_refl k in
      let room : count s' (counter redis c limiter k w) + n ≤ limiter.limit =
        ground (arith, counted w, same) in
      let (t, alive, passed, counts') = burst n now rest s' a' room in
      (
        t,
        alive,
        ground (arith, answer_in redis c limiter k now k w s a refl refl, same, passed),
        λ window. ground (arith, counts' window, counted window, same),
      )

-- The bound is met at a window's edge: over a Redis that answers and has counted nothing of a key
-- in either window, as many of its requests as the limit in the last second of one window and as
-- many again in the second after it all pass.
pub passes-edge :
    (redis : Redis) (c : Counters redis) (limiter : RateLimiter) (k : Text) (window : ℕ)
    (s : redis.Store)
    → c.Alive s
    → c.count s (window_key limiter.key_prefix k window) ≡ 0
    → c.count s (window_key limiter.key_prefix k (window + 1)) ≡ 0
    → passes redis limiter k
        (replicate limiter.limit (window * window_secs limiter + (window_secs limiter - 1), k)
          ++ (replicate limiter.limit ((window + 1) * window_secs limiter, k) ++ []))
        s
      ≡ 2 * limiter.limit
unfolding passes
passes-edge redis c limiter k window s a z z' =
    let w = window_secs limiter in
    let p : 0 < w = le-max_right (as_secs limiter.window) 1 in
    let e : (window * w + (w - 1)) / w ≡ window = in_window w window (w - 1) p (omega arith) in
    let e' : (window + 1) * w / w ≡ window + 1 =
      sym (ap (λ (x : ℕ). x / w) (add-zero ((window + 1) * w))) ∙ in_window w (window + 1) 0 p p in
    let (t, alive, passed, counted) =
      burst redis c limiter k limiter.limit (window * w + (w - 1))
        (replicate limiter.limit ((window + 1) * w, k) ++ []) s a (rw (e, z) (omega arith)) in
    let zero' : c.count t (window_key limiter.key_prefix k (window + 1)) ≡ 0 =
      counted (window + 1) ∙ rw e (ground arith) in
    let (t', alive', passed', counted') =
      burst redis c limiter k limiter.limit ((window + 1) * w) [] t alive
        (rw (e', zero') (omega arith)) in
    omega (arith, passed, passed')
