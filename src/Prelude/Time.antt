-- ===== src/Prelude/Time.antt =====
-- `std::time::Duration` as its nanoseconds.
use Prim.Native.Nat.{ℕ, ◌*◌, ◌/◌}

abbrev pub nanos_per_sec : ℕ
nanos_per_sec = 1_000_000_000

abbrev pub from_secs : ℕ → ℕ
from_secs n = n * nanos_per_sec

abbrev pub as_secs : ℕ → ℕ
as_secs d = d / nanos_per_sec

abbrev pub from_millis : ℕ → ℕ
from_millis n = n * 1_000_000
