-- ===== src/Ratelimit.antt =====
-- core/src/ratelimit.rs: the fixed-window limiter over counters in Redis, fail-open.
-- The Redis client is a parameter: a store, whether the pool gives a connection, and what the
-- `INCR`/`EXPIRE` transaction and `PING` answer on it.
pub mod Keys
pub mod Window
pub mod Span
pub mod Edge
use ratewall.Prelude.{
  ℕ, ◌-◌, ◌/◌, ◌^◌, max, Bool, false, Option, none, some, [], ◌++◌, ltb, if◌then◌else◌, Result, ok,
  err,
}
use ratewall.Prelude.Text.{Text, codes, text_eq}
use ratewall.Prelude.Table.{or_default}
use ratewall.Prelude.Decimal.{to_decimal}
use ratewall.Prelude.Time.{as_secs}

-- An `i64`; `negsuc n` is -(n + 1).
pub data ℤ : Type 0 where
  pos : ℕ → ℤ
  negsuc : ℕ → ℤ

-- `count as u64`
abbrev pub as_u64 : ℤ → ℕ
as_u64 (pos n) = n
as_u64 (negsuc n) = 2 ^ 64 - 1 - n

pub data Decision : Type 0 where
  allow : Decision
  limit : (retry_after : ℕ) → Decision
  open_window : Decision

-- `none` is any error of the client.
pub record Redis : Type 1 where
  pub Store : Type 0
  pub has_connection : Store → Bool
  pub incr_expire : (key : Text) (ttl : ℕ) → Store → Option ℤ × Store
  pub ping_reply : Store → Option Text

pub record RateLimiter : Type 0 where
  pub limit : ℕ
  pub window : ℕ
  pub key_prefix : Text

abbrev connected : Text → RateLimiter → Result Text (Unit {0}) → Result Text RateLimiter
connected quoted_url limiter (err e) =
    err (codes "invalid redis url " ++ (quoted_url ++ (codes ": " ++ e)))
connected quoted_url limiter (ok pool) = ok limiter

-- `RateLimiter::connect`: an error only if no pool can be made for the URL. `debug` is `{:?}`.
unfoldable pub connect :
    (debug : Text → Text)
    → (create_pool : Text → Result Text (Unit {0})) → (redis_url : Text) → (max_requests window : ℕ)
    → (key_prefix : Option Text) → Result Text RateLimiter
connect debug create_pool redis_url max_requests window key_prefix =
    let limiter : RateLimiter = record {
      limit = max_requests;
      window = window;
      key_prefix = or_default [] key_prefix;
    } in
    connected (debug redis_url) limiter (create_pool redis_url)

-- `self.window.as_secs().max(1)`
abbrev pub window_secs : RateLimiter → ℕ
window_secs limiter = max (as_secs limiter.window) 1

-- The number of the window that the unix time lies in.
abbrev pub window_key_suffix : RateLimiter → ℕ → ℕ
window_key_suffix limiter unix_secs = unix_secs / window_secs limiter

-- `rl{prefix}:{key}:{window}`
unfoldable pub window_key : Text → Text → ℕ → Text
window_key key_prefix key window =
    codes "rl" ++ (key_prefix ++ (codes ":" ++ (key ++ (codes ":" ++ to_decimal window))))

-- A clock before the epoch gives the window 0.
unfoldable pub window_of : RateLimiter → Option ℕ → ℕ
window_of limiter none = 0
window_of limiter (some unix_secs) = window_key_suffix limiter unix_secs

unfoldable pub limit_key : Option Text → Text → Text
limit_key (some subject) client_ip = codes "sub:" ++ subject
limit_key none client_ip = codes "ip:" ++ client_ip

module _ (redis : Redis) (limiter : RateLimiter) where
  open redis use {Store, has_connection, incr_expire, ping_reply}

  judge : Option ℤ → Decision
  judge none = open_window
  judge (some count) =
      if ltb limiter.limit (as_u64 count) then limit (window_secs limiter) else allow

  unfoldable pub decide : Text → Option ℕ → Store → Decision × Store
  unfolding judge
  decide key now s =
      if has_connection s
      then (let (count, s') =
            incr_expire (window_key limiter.key_prefix key (window_of limiter now))
              (window_secs limiter) s in
          (judge count, s'))
      else (open_window, s)

  is_pong : Option Text → Bool
  is_pong none = false
  is_pong (some reply) = text_eq reply (codes "PONG")

  unfoldable pub ping : Store → Bool
  unfolding is_pong
  ping s = if has_connection s then is_pong (ping_reply s) else false
