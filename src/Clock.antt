-- ===== src/Clock.antt =====
-- std::time: an `Instant` and a `Duration` are counts of nanoseconds. Every handler of the model
-- takes the instant at which it runs, and reads the clock as that instant throughout.
use qstream.Base.{ℕ, ◌-◌, ◌*◌, ◌/◌, min}

abbrev pub ms : ℕ → ℕ
ms n = n * 1000000

abbrev pub secs : ℕ → ℕ
secs n = n * 1000000000

-- `duration.as_millis()`.
abbrev pub as_millis : ℕ → ℕ
as_millis d = d / 1000000

-- `Duration::MAX`: 2^64 - 1 seconds and 999,999,999 nanoseconds.
abbrev pub duration_max : ℕ
duration_max = 18446744073709551615999999999

-- `Duration::saturating_mul`.
abbrev pub saturating_mul : ℕ → ℕ → ℕ
saturating_mul d k = min (d * k) duration_max

-- `now.duration_since(earlier)`, and `earlier.elapsed()` at `now`: zero if `earlier` is later.
abbrev pub duration_since : ℕ → ℕ → ℕ
duration_since now earlier = now - earlier
