-- ===== src/Ratelimit/Window.antt =====
-- How many requests of one key pass in one window, over a Redis that answers; and what happens
-- when it does not.
use ratewall.Prelude.{
  ℕ, suc, ◌+◌, ◌≡◌, ◌⊎◌, ◌↔◌, true, false, Option, none, some, List, [], ◌∷◌, arith, ltb,
  if◌then◌else◌,
}
use ratewall.Prelude.Text.{Text, text_eq, text_eq_iff}
use ratewall.Ratelimit.{
  pos, Redis, RateLimiter, allow, limit, open_window, window_secs, window_key, window_of, decide,
}
use ratewall.Ratelimit.Keys.{window_key_injective}

-- What `INCR` and `EXPIRE` document, as long as Redis answers and no key expires: the reply is
-- one more than the key's counter, which holds the reply from then on, and other keys are left.
pub record Counters (redis : Redis) : Type 1 where
  pub Alive : redis.Store → Type 0
  pub count : redis.Store → Text → ℕ
  pub connects : (s : redis.Store) → Alive s → redis.has_connection s ≡ true
  pub replies :
      (k : Text) (ttl : ℕ) (s : redis.Store)
      → Alive s
      → (redis.incr_expire k ttl s).0 ≡ some (pos (count s k + 1))
  pub survives :
      (k : Text) (ttl : ℕ) (s : redis.Store) → Alive s → Alive (redis.incr_expire k ttl s).1
  pub counts :
      (k j : Text) (ttl : ℕ) (s : redis.Store)
      → Alive s
      → count (redis.incr_expire k ttl s).1 j ≡ (if text_eq k j then count s j + 1 else count s j)

-- Requests with the given keys, in order, all within the second `now`'s window.
pub decide_all : (redis : Redis) → RateLimiter → Option ℕ → List Text → redis.Store → redis.Store
decide_all redis limiter now [] s = s
decide_all redis limiter now (key ∷ rest) s =
    decide_all redis limiter now rest (decide redis limiter key now s).1

pub occurrences : Text → List Text → ℕ
occurrences k [] = 0
occurrences k (j ∷ rest) =
    let later = occurrences k rest in if text_eq j k then suc later else later

module _ (redis : Redis) (c : Counters redis) (limiter : RateLimiter) (now : Option ℕ) where
  open redis use {Store, incr_expire}
  open c use {Alive, count, connects, replies, survives, counts}

  abbrev counter : Text → Text
  counter key = window_key limiter.key_prefix key (window_of limiter now)

  pub decide_store :
      (key : Text) (s : Store)
      → Alive s
      → (decide redis limiter key now s).1 ≡ (incr_expire (counter key) (window_secs limiter) s).1
  unfolding decide
  decide_store key s a = ground (arith, connects s a)

  pub decide_answer :
      (key : Text) (s : Store)
      → Alive s
      → (decide redis limiter key now s).0 ≡ (
          if ltb limiter.limit (count s (counter key) + 1)
          then limit (window_secs limiter)
          else allow)
  unfolding decide
  decide_answer key s a =
      ground (arith, connects s a, replies (counter key) (window_secs limiter) s a)

  counter_eq : (j k : Text) → text_eq (counter j) (counter k) ≡ text_eq j k
  counter_eq j k = ground (
    arith,
    text_eq_iff (counter j) (counter k),
    text_eq_iff j k,
    window_key_injective limiter.key_prefix j k (window_of limiter now) (window_of limiter now),
  )

  count_step :
      (j k : Text) (s : Store)
      → Alive s
      → count (decide redis limiter j now s).1 (counter k)
        ≡ (if text_eq j k then count s (counter k) + 1 else count s (counter k))
  count_step j k s a =
      rw (decide_store j s a)
        (rw (counts (counter j) (counter k) (window_secs limiter) s a) (rw (counter_eq j k)))

  pub decide-Alive : (key : Text) (s : Store) → Alive s → Alive (decide redis limiter key now s).1
  decide-Alive key s a =
      rw (decide_store key s a) (survives (counter key) (window_secs limiter) s a)

  count_all :
      (keys : List Text) (k : Text) (s : Store)
      → Alive s
      → Alive (decide_all redis limiter now keys s)
        × (count (decide_all redis limiter now keys s) (counter k)
            ≡ count s (counter k) + occurrences k keys)
  unfolding decide_all occurrences
  count_all [] k s a = (a, omega arith)
  count_all (j ∷ keys) k s a =
      let (alive, counted) =
        count_all keys k (decide redis limiter j now s).1 (decide-Alive j s a) in
      (alive, ground (arith, counted, count_step j k s a))

  -- Over a Redis that answers, and from a counter at zero: after any requests of any keys in one
  -- window, the next request of a key passes exactly when fewer of them than the limit were of
  -- that key, and is otherwise told to retry after the whole window.
  pub decide_fair :
      (keys : List Text) (k : Text) (s : Store)
      → Alive s
      → count s (counter k) ≡ 0
      → (decide redis limiter k now (decide_all redis limiter now keys s)).0
        ≡ (if ltb (occurrences k keys) limiter.limit then allow else limit (window_secs limiter))
  decide_fair keys k s a zeroed =
      let (alive, counted) = count_all keys k s a in
      rw (decide_answer k (decide_all redis limiter now keys s) alive) (ground (arith, counted))

-- The decision is the fail-open one exactly when there is no connection, or there is one and the
-- transaction fails.
decide_fail_open :
    (redis : Redis) (limiter : RateLimiter) (key : Text) (now : Option ℕ) (s : redis.Store)
    → ((redis.has_connection s ≡ false)
        ⊎ ((redis.incr_expire
              (window_key limiter.key_prefix key (window_of limiter now))
              (window_secs limiter)
              s).0
            ≡ none))
      ↔ ((decide redis limiter key now s).0 ≡ open_window)
unfolding decide
decide_fail_open redis limiter key now s = (λ h. ground arith, λ h. ground arith)
