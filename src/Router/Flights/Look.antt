-- ===== src/Router/Flights/Look.antt =====
-- The breaker of a prefix before and after the handlers' accesses to it.
use ratewall.Prelude.{ℕ, ◌≡◌, refl, Bool, Option, none, some, if◌then◌else◌, arith}
use ratewall.Prelude.Text.{Text, text_eq, text_eq_iff}
use ratewall.Circuit.{try_admit}
use ratewall.Circuit.Registry.{
  Breakers, CircuitBreaker, get-admit_at, get-record_at, admit_at-answer, admitted, recorded,
  on_found,
}
use ratewall.Router.{Outside, Shared}
use ratewall.Router.Forward.{try_breaker, report, is_short}
use ratewall.Router.Flights.{breaker_in, breaker_of}

module _ (o : Outside) (q p : Text) (now : ℕ) where
  try_breaker_in :
      (breakers : Option Breakers) (s : Shared o)
      → s.breakers ≡ breakers
      → breaker_of o p (try_breaker o q now s).1
        ≡ (if text_eq q p then on_found (admitted now) (breaker_of o q s) else breaker_of o p s)
  unfolding try_breaker
  try_breaker_in none s e = rw e (ground (arith, text_eq_iff q p))
  try_breaker_in (some b) s e = rw e (get-admit_at q p now b)

  -- An admission changes the breaker of its own prefix and no other.
  pub breaker_of-try_breaker :
      (s : Shared o)
      → breaker_of o p (try_breaker o q now s).1
        ≡ (if text_eq q p then on_found (admitted now) (breaker_of o q s) else breaker_of o p s)
  breaker_of-try_breaker s = try_breaker_in s.breakers s refl

  report_in :
      (success : Bool) (breakers : Option Breakers) (s : Shared o)
      → s.breakers ≡ breakers
      → breaker_of o p (report o q now success s) ≡ (
          if text_eq q p
          then on_found (recorded now success) (breaker_of o q s)
          else breaker_of o p s)
  unfolding report
  report_in success none s e = rw e (ground (arith, text_eq_iff q p))
  report_in success (some b) s e = rw e (get-record_at q p now b success)

  -- A report too.
  pub breaker_of-report :
      (success : Bool) (s : Shared o)
      → breaker_of o p (report o q now success s) ≡ (
          if text_eq q p
          then on_found (recorded now success) (breaker_of o q s)
          else breaker_of o p s)
  breaker_of-report success s = report_in success s.breakers s refl

module _ (o : Outside) (p : Text) (now : ℕ) (b : CircuitBreaker) where
  short_in :
      (breakers : Option Breakers) (s : Shared o)
      → s.breakers ≡ breakers
      → breaker_of o p s ≡ some b
      → (try_breaker o p now s).0 ≡ is_short (some (try_admit b.cfg now b.inner).0)
  unfolding try_breaker
  short_in none s e h = let h' : breaker_in o p none ≡ some b = rw e at h in cc
  short_in (some t) s e h = rw (e, admit_at-answer p now t b (rw e at h)) refl

  -- A handler fails fast exactly when `try_admit` says so.
  pub try_breaker-short :
      (s : Shared o)
      → breaker_of o p s ≡ some b
      → (try_breaker o p now s).0 ≡ is_short (some (try_admit b.cfg now b.inner).0)
  try_breaker-short s h = short_in s.breakers s refl h
