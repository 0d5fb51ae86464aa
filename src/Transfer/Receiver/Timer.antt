-- ===== src/Transfer/Receiver/Timer.antt =====
-- `ReceiverTransfer::on_tick` of src/transfer.rs.
use qstream.Base.{
  ℕ, ◌+◌, ◌/◌, Bool, true, false, not, leb, ltb, ◌&&◌, if◌then◌else◌, Option, none, some, List, [],
  ◌∷◌, min,
}
use qstream.Clock.{ms}
use qstream.Protocol.Types.{Message}
use qstream.Transfer.Timing.{Settings, retry_limit, adaptive_quiet}
use qstream.Transfer.Receiver.{
  ReceiverTransfer, World, range_incomplete, post, send_ack, fail, fail_unresponsive,
  recompute_deadline, range_complete,
}

unfoldable pub is_empty {ℓ} : {A : Type ℓ} → List A → Bool
is_empty [] = true
is_empty (x ∷ xs) = false

-- No packet after half the first-response timeout: the request is sent once more.
unfoldable pub resend_request : Settings → ReceiverTransfer → World → ℕ → ReceiverTransfer × World
unfolding is_empty
resend_request c r w now =
    let timeout = ms c.first_timeout_ms in
    if is_empty r.packets && not r.request_resent && leb (r.started_at + timeout / 2) now
    then (
      record r { request_resent = true; first_response_deadline = now + timeout },
      post r w (Message.segment_request r.transfer_id r.filename) now,
    )
    else (r, w)

-- The current range is not complete: ask for it again, or give up.
unfoldable pub retry_range : ReceiverTransfer → World → ℕ × ℕ → ℕ → ReceiverTransfer × World
retry_range r w range now =
    let r' = record r { retry_count = r.retry_count + 1 } in
    if ltb retry_limit r'.retry_count
    then (fail r' range_incomplete now, w)
    else (recompute_deadline r', send_ack r' w range now)

unfoldable pub retry_missing :
    ReceiverTransfer → World → Option (ℕ × ℕ) → ℕ → ReceiverTransfer × World
retry_missing r w none now = (recompute_deadline r, w)
retry_missing r w (some (start, count)) now =
    if range_complete r start count
    then (recompute_deadline r, w)
    else retry_range r w (start, count) now

-- The quiet period is over.
unfoldable pub quiet_tick : Settings → ReceiverTransfer → World → ℕ → ReceiverTransfer × World
quiet_tick c r w now =
    let backoff = min (r.backoff + 1) 4 in
    let r' = record r {
      backoff = backoff;
      quiet_deadline = now + adaptive_quiet c r.gap_est backoff;
    } in
    if leb r.quiet_deadline now then retry_missing r' w r.range now else (r, w)

unfoldable pub first_response_tick :
    Settings → ReceiverTransfer → World → ℕ → ReceiverTransfer × World
unfolding is_empty
first_response_tick c r w now =
    if leb r.first_response_deadline now && is_empty r.packets
    then (fail_unresponsive r now, w)
    else quiet_tick c r w now

-- `on_tick`.
unfoldable pub on_tick : Settings → ReceiverTransfer → World → ℕ → ReceiverTransfer × World
on_tick c r w now = elim r.outcome [
  | some o ↦ (r, w)
  | none ↦ (let (r', w') = resend_request c r w now in first_response_tick c r' w' now)
]
