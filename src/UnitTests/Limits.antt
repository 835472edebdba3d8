-- ===== src/UnitTests/Limits.antt =====
-- `mod tests` of core/src/ratelimit.rs. The pool that a URL gives, the clock and the store of
-- Redis are arguments.
use ratewall.Prelude.{
  ℕ, zero, suc, ◌≡◌, refl, Bool, true, false, ◌&&◌, Option, none, some, Result, ok, err,
}
use ratewall.Prelude.Text.{Text, codes, text_eq}
use ratewall.Prelude.Time.{from_secs}
use ratewall.Ratelimit.{Decision, open_window, Redis, RateLimiter, connect, decide, limit_key}

limit_key_prefers_subject_over_ip : Bool
limit_key_prefers_subject_over_ip =
    text_eq (limit_key (some (codes "demo")) (codes "10.0.0.1")) (codes "sub:demo")
    && text_eq (limit_key none (codes "10.0.0.1")) (codes "ip:10.0.0.1")

module _ (debug : Text → Text) (create_pool : Text → Result Text (Unit {0})) where
  abbrev connect_to : Text → Result Text RateLimiter
  connect_to url = connect debug create_pool url 10 (from_secs 60) none

  connect_rejects_unparseable_url : Bool
  connect_rejects_unparseable_url = elim (connect_to (codes ":://nope")) [
    | ok limiter ↦ false
    | err e ↦ true
  ]

  abbrev is_open : Decision → Bool
  is_open open_window = true
  is_open _ = false

  -- The loop of so many rounds; `now` is the clock in each.
  all_open : (redis : Redis) → RateLimiter → (now : ℕ → Option ℕ) → ℕ → redis.Store → Bool
  all_open redis limiter now zero s = true
  all_open redis limiter now (suc n) s =
      let (decision, s') = decide redis limiter (codes "ip:10.0.0.1") (now n) s in
      let later = all_open redis limiter now n s' in is_open decision && later

  unreachable_redis_fails_open : (redis : Redis) (now : ℕ → Option ℕ) → redis.Store → Bool
  unfolding all_open
  unreachable_redis_fails_open redis now s = elim (connect_to (codes "redis://127.0.0.1:1")) [
    | err e ↦ false
    | ok limiter ↦ all_open redis limiter now 25 s
  ]

  key_test_passes : limit_key_prefers_subject_over_ip ≡ true
  unfolding limit_key_prefers_subject_over_ip limit_key text_eq
  key_test_passes = refl

  unparseable_test_passes :
      (e : Text) → create_pool (codes ":://nope") ≡ err e → connect_rejects_unparseable_url ≡ true
  unfolding connect_rejects_unparseable_url connect
  unparseable_test_passes e h = rw (h, connect_rejects_unparseable_url, connect) refl

  -- A store that gives no connection is left as it is.
  all_open_of_outage :
      (redis : Redis) (limiter : RateLimiter) (now : ℕ → Option ℕ) (n : ℕ) (s : redis.Store)
      → redis.has_connection s ≡ false
      → all_open redis limiter now n s ≡ true
  unfolding all_open decide
  all_open_of_outage redis limiter now zero s h = refl
  all_open_of_outage redis limiter now (suc n) s h =
      rw h (all_open_of_outage redis limiter now n s h)

  outage_test_passes :
      (redis : Redis) (now : ℕ → Option ℕ) (s : redis.Store)
      → create_pool (codes "redis://127.0.0.1:1") ≡ ok tt
      → redis.has_connection s ≡ false
      → unreachable_redis_fails_open redis now s ≡ true
  unfolding unreachable_redis_fails_open connect
  outage_test_passes redis now s pool h =
      rw (pool, unreachable_redis_fails_open, connect) (all_open_of_outage redis _ now 25 s h)
