-- ===== src/Transfer/Timing.antt =====
-- The constants and timers of src/transfer.rs. Durations are in nanoseconds.
use qstream.Base.{ℕ, ◌+◌, ◌*◌, ◌^◌, ◌%◌, min, max}
use qstream.Clock.{ms, secs, saturating_mul}

abbrev pub segment_packet_size : ℕ
segment_packet_size = 1400

abbrev pub initial_window : ℕ
initial_window = 5

abbrev pub max_window : ℕ
max_window = 64

abbrev pub retry_limit : ℕ
retry_limit = 8

abbrev pub sender_retry_limit : ℕ
sender_retry_limit = 30

abbrev pub complete_grace : ℕ
complete_grace = ms 4000

abbrev pub max_concurrent_transfers : ℕ
max_concurrent_transfers = 32

-- Packets sent per tick.
abbrev pub send_chunk : ℕ
send_chunk = 8

-- What `settings()` read from the environment.
pub record Settings : Type 0 where
  pub pace_ms : ℕ
  pub quiet_ms : ℕ
  pub first_timeout_ms : ℕ

unfoldable pub quiet_period : Settings → ℕ
quiet_period c = ms c.quiet_ms

unfoldable pub adaptive_quiet : Settings → ℕ → ℕ → ℕ
unfolding quiet_period
adaptive_quiet c gap_est backoff =
    let base = max (quiet_period c) (saturating_mul gap_est 3 + ms 50) in
    min (saturating_mul base (2 ^ min backoff 4)) (secs 8)

-- The sum wraps in a `u64`.
unfoldable pub ack_timeout : Settings → ℕ → ℕ → ℕ
ack_timeout c count rtt_est =
    let base = max ((count * c.pace_ms + c.quiet_ms + 100) % 2 ^ 64) 300 in
    max (ms base) (saturating_mul rtt_est 2 + ms 150)

unfoldable pub retry_interval : Settings → ℕ → ℕ → ℕ → ℕ
unfolding ack_timeout
retry_interval c count rtt_est retries =
    min (saturating_mul (ack_timeout c count rtt_est) (2 ^ min retries 4)) (secs 8)
