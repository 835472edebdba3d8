-- ===== src/Metrics/Counts.antt =====
-- What the updates of the registry change.
use ratewall.Prelude.{ℕ, ◌≡◌, refl, Option, some, arith, if◌then◌else◌}
use ratewall.Prelude.Text.{Text, text_eq, split_once}
use ratewall.Prelude.Text.Split.{Lacks, split_once-append}
use ratewall.Prelude.Table.{get, or_default, get-modify}
use ratewall.Metrics.{
  Floats, PrefixCounters, no_counts, Metrics, fetch_add, inc_rate_limited, inc_circuit_open, finish,
  status_key,
}

module _ (floats : Floats) where
  -- The counters of a prefix; a prefix without an entry has zeros.
  abbrev pub counters : Text → Metrics floats → PrefixCounters
  counters prefix m = or_default no_counts (get prefix m.per_prefix)

  counters-finish :
      (prefix other : Text) (elapsed : ℕ) (class : Option Text) (m : Metrics floats)
      → counters other (finish floats prefix elapsed class m) ≡ (
          if text_eq prefix other
          then record (counters prefix m) {
            requests_total = fetch_add (counters prefix m).requests_total 1;
          }
          else counters other m)
  unfolding finish
  counters-finish prefix other elapsed class m = rw get-modify (ground arith)

  totals-finish :
      (prefix key : Text) (elapsed : ℕ) (class : Text) (m : Metrics floats)
      → or_default 0 (get key (finish floats prefix elapsed (some class) m).status_totals) ≡ (
          if text_eq (status_key class prefix) key
          then fetch_add (or_default 0 (get (status_key class prefix) m.status_totals)) 1
          else or_default 0 (get key m.status_totals))
  unfolding finish
  totals-finish prefix key elapsed class m = rw get-modify (ground arith)

  -- A finished request with a status class adds one to the requests of its own prefix and to the
  -- responses of that class and prefix; every other counter of every prefix stays as it was.
  finish-counts :
      (prefix other key : Text) (elapsed : ℕ) (class : Text) (m : Metrics floats)
      → (counters other (finish floats prefix elapsed (some class) m) ≡ (
          if text_eq prefix other
          then record (counters prefix m) {
            requests_total = fetch_add (counters prefix m).requests_total 1;
          }
          else counters other m))
        × (or_default 0 (get key (finish floats prefix elapsed (some class) m).status_totals) ≡ (
            if text_eq (status_key class prefix) key
            then fetch_add (or_default 0 (get (status_key class prefix) m.status_totals)) 1
            else or_default 0 (get key m.status_totals)))
        × ((finish floats prefix elapsed (some class) m).breaker_state ≡ m.breaker_state)
  unfolding finish
  finish-counts prefix other key elapsed class m = (
    counters-finish prefix other elapsed (some class) m,
    totals-finish prefix key elapsed class m,
    refl,
  )

  -- The two rejections count for the prefix that they are given, each in its own counter.
  rejection-counts :
      (prefix other : Text) (m : Metrics floats)
      → (counters other (inc_rate_limited floats prefix m) ≡ (
          if text_eq prefix other
          then record (counters prefix m) {
            rate_limited_total = fetch_add (counters prefix m).rate_limited_total 1;
          }
          else counters other m))
        × (counters other (inc_circuit_open floats prefix m) ≡ (
            if text_eq prefix other
            then record (counters prefix m) {
              circuit_open_total = fetch_add (counters prefix m).circuit_open_total 1;
            }
            else counters other m))
  unfolding inc_rate_limited inc_circuit_open
  rejection-counts prefix other m = (rw get-modify (ground arith), rw get-modify (ground arith))

-- A status key is read back as the class and the prefix that it was made of, if the class holds
-- no bar, whatever the prefix holds.
split_once-status_key :
    (class prefix : Text)
    → Lacks b'|' class
    → split_once b'|' (status_key class prefix) ≡ some (class, prefix)
split_once-status_key class prefix h = split_once-append b'|' class prefix h
