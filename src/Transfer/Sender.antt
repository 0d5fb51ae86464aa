-- ===== src/Transfer/Sender.antt =====
-- `SenderTransfer` of src/transfer.rs: one file served to one peer.
pub mod Safety
pub mod Stuck
pub mod GivesUp
use qstream.Base.{
  ℕ, zero, suc, ◌+◌, ◌-◌, ◌*◌, ◌/◌, Bool, true, false, leb, ltb, ◌&&◌, if◌then◌else◌, Option, none,
  some, List, length, min,
}
use mathlib.Core.Option
use qstream.Net.{SocketAddr, as_u16}
use qstream.Clock.{ms, saturating_mul, duration_since}
use qstream.Protocol.Types.{Message, AckType}
use qstream.Protocol.Encode.{encode}
use qstream.Fault.Injector.{Link, send}
use qstream.Transfer.Timing.{
  Settings, initial_window, sender_retry_limit, send_chunk, retry_interval,
}
use qstream.Transfer.Packets.{packet_count, chunk}

-- `start` and `count` are the pair `range`: the current window.
pub record SenderTransfer : Type 0 where
  pub transfer_id : ℕ
  pub remote : SocketAddr
  pub total_packets : ℕ
  pub file : List ℕ
  pub start : ℕ
  pub count : ℕ
  pub range_sent : ℕ
  pub retry_count : ℕ
  pub ack_deadline : Option ℕ
  pub send_deadline : ℕ
  pub rtt_est : ℕ
  pub window_sent_at : Option ℕ

unfoldable pub new_sender : ℕ → SocketAddr → List ℕ → ℕ → SenderTransfer
new_sender id remote file now = record {
  transfer_id = id;
  remote = remote;
  total_packets = packet_count (length file);
  file = file;
  start = 1;
  count = min initial_window (packet_count (length file));
  range_sent = 0;
  retry_count = 0;
  ack_deadline = none;
  send_deadline = now;
  rtt_est = ms 250;
  window_sent_at = none;
}

unfoldable pub sender_deadline : SenderTransfer → ℕ
sender_deadline t =
    if leb t.count t.range_sent
    then Option.get_or t.ack_deadline t.send_deadline
    else t.send_deadline

unfoldable pub contents : SenderTransfer → ℕ → List ℕ → Message
contents t number bytes = Message.segment_contents t.transfer_id number t.total_packets bytes

-- The loop of `send_packets`: `rounds` packets from `first + i` on. `none` is a panic.
unfoldable pub send_packets : SenderTransfer → Link → ℕ → ℕ → ℕ → ℕ → Option Link
send_packets t l first i zero now = some l
send_packets t l first i (suc rounds) now = elim (chunk t.file (as_u16 (first + i))) [
  | none ↦ none
  | some bytes ↦
      send_packets t (send l (encode (contents t (as_u16 (first + i)) bytes), t.remote) now) first
        (i + 1) rounds now
]

-- The window is fully sent: start the ack timer.
unfoldable pub arm_ack : Settings → SenderTransfer → ℕ → SenderTransfer
arm_ack c t now =
    if leb t.count t.range_sent
    then record t {
      window_sent_at = some now;
      ack_deadline = some (now + retry_interval c t.count t.rtt_est t.retry_count);
    }
    else t

-- The bookkeeping behind `send_packets` in `tick`.
unfoldable pub after_chunk : Settings → SenderTransfer → ℕ → ℕ → SenderTransfer
after_chunk c t to_send now =
    let pace = ms c.pace_ms in
    arm_ack c
      (record t {
        range_sent = t.range_sent + to_send;
        send_deadline =
            if ltb 0 pace && ltb 0 to_send then now + saturating_mul pace to_send else now;
      })
      now

-- The first half of `tick`: send the next chunk of the window.
unfoldable pub tick_send : Settings → SenderTransfer → Link → ℕ → Option (SenderTransfer × Link)
tick_send c t l now =
    if ltb t.range_sent t.count && leb t.send_deadline now
    then (let to_send = min (t.count - t.range_sent) send_chunk in
        Option.map (λ m. (after_chunk c t to_send now, m))
          (send_packets t l (as_u16 (t.start + t.range_sent)) 0 to_send now))
    else some (t, l)

-- `Ok(())`, or the error of a sender that has had no ACK.
pub data Verdict : Type 0 where
  alive gave_up : Verdict

unfoldable pub resend : SenderTransfer → ℕ → SenderTransfer × Verdict
resend t now =
    if ltb sender_retry_limit (t.retry_count + 1)
    then (record t { retry_count = t.retry_count + 1 }, gave_up)
    else (
      record t {
        retry_count = t.retry_count + 1;
        range_sent = 0;
        ack_deadline = none;
        send_deadline = now;
      },
      alive,
    )

unfoldable pub ack_due : Option ℕ → ℕ → Bool
ack_due none now = false
ack_due (some ack) now = leb ack now

-- The second half of `tick`: the ack timer.
unfoldable pub tick_ack : SenderTransfer → ℕ → SenderTransfer × Verdict
tick_ack t now =
    if leb t.count t.range_sent && ack_due t.ack_deadline now then resend t now else (t, alive)

-- `SenderTransfer::tick`. `none` is a panic.
unfoldable pub tick :
    Settings → SenderTransfer → Link → ℕ → Option ((SenderTransfer × Verdict) × Link)
tick c t l now = Option.map (λ p. (tick_ack p.0 now, p.1)) (tick_send c t l now)

-- `if let Some(t) = self.window_sent_at.take()`: a sample of the round trip.
unfoldable pub sample_rtt : Option ℕ → ℕ → ℕ → ℕ
sample_rtt none rtt now = rtt
sample_rtt (some sent_at) rtt now = (rtt * 3 + duration_since now sent_at) / 4

-- `SenderTransfer::on_ack`: true when the transfer is complete.
unfoldable pub on_ack : Settings → SenderTransfer → AckType → ℕ → ℕ → ℕ → SenderTransfer × Bool
on_ack c t AckType.complete next_start next_count now = (t, true)
on_ack c t AckType.progress next_start next_count now =
    if leb 1 next_start && leb next_start t.total_packets
    then (
      record t {
        rtt_est = sample_rtt t.window_sent_at t.rtt_est now;
        window_sent_at = none;
        start = next_start;
        count = min next_count (t.total_packets - next_start + 1);
        range_sent = 0;
        ack_deadline = none;
        retry_count = 0;
        send_deadline = now;
      },
      false,
    )
    else (
      record t {
        start = 1;
        count = 0;
        range_sent = 0;
        ack_deadline = some (now + retry_interval c 1 t.rtt_est 1);
      },
      false,
    )
