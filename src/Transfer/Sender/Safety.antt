-- ===== src/Transfer/Sender/Safety.antt =====
-- The sender of src/transfer.rs stays inside its file.
use qstream.Base.{
  ℕ, zero, suc, ◌+◌, ◌-◌, ◌*◌, ◌≤◌, ◌<◌, ◌≡◌, refl, leb, ltb, ◌&&◌, ◌⊎◌, inl, inr, Bool-cases, some,
  List, length, take, drop, min, arith,
}
use qstream.Net.{SocketAddr, as_u16}
use qstream.Protocol.Types.{AckType}
use qstream.Protocol.Encode.{encode}
use qstream.Fault.Injector.{Link, send}
use qstream.Transfer.Timing.{Settings}
use qstream.Transfer.Packets.{packet_count, slice, chunk}
use qstream.Transfer.Sender.{
  SenderTransfer, new_sender, contents, send_packets, arm_ack, after_chunk, tick_send, tick_ack,
  tick, resend, Verdict, alive, gave_up, on_ack,
}

pub packet_count_bounds : (size : ℕ) → (1 ≤ packet_count size) × (packet_count size ≤ 65535)
unfolding packet_count
packet_count_bounds size = omega arith

-- The bytes of packet `n`.
abbrev pub piece : List ℕ → ℕ → List ℕ
piece file n =
    take (min ((n - 1) * 1400 + 1400) (length file) - (n - 1) * 1400) (drop ((n - 1) * 1400) file)

-- Every packet of the file can be cut: it starts inside the file and holds at most 1,400 bytes.
pub chunk-packet_count :
    (file : List ℕ) (n : ℕ)
    → 1 ≤ n
    → n ≤ packet_count (length file)
    → chunk file n ≡ some (piece file n)
unfolding chunk slice packet_count
chunk-packet_count file n lo hi = ground arith

-- The sender's window lies inside its file, what it has sent inside the window, and its retries
-- inside the limit.
pub record IsSound (t : SenderTransfer) : Type 0 where
  pub total : t.total_packets ≡ packet_count (length t.file)
  pub window : (t.count ≡ 0) ⊎ ((1 ≤ t.start) × (t.start + t.count ≤ t.total_packets + 1))
  pub progress : t.range_sent ≤ t.count
  pub retries : t.retry_count ≤ 30

pub new_sender-IsSound :
    (id : ℕ) (remote : SocketAddr) (file : List ℕ) (now : ℕ)
    → IsSound (new_sender id remote file now)
unfolding new_sender
new_sender-IsSound id remote file now = record {
  total = refl;
  window = inr (omega arith, omega arith);
  progress = omega arith;
  retries = omega arith;
}

send_packets_runs :
    (t : SenderTransfer) (l : Link) (first i rounds now : ℕ)
    → t.total_packets ≡ packet_count (length t.file)
    → 1 ≤ first
    → first + i + rounds ≤ t.total_packets + 1
    → (m : Link) × (send_packets t l first i rounds now ≡ some m)
unfolding send_packets
send_packets_runs t l first i zero now e lo hi = (l, refl)
send_packets_runs t l first i (suc rounds) now e lo hi =
    let b = packet_count_bounds (length t.file) in
    let n = as_u16 (first + i) in
    let sent = send l (encode (contents t n (piece t.file n)), t.remote) now in
    let (m, q) = send_packets_runs t sent first (i + 1) rounds now e lo (omega arith) in
    (m, rw (chunk-packet_count t.file n (omega arith) (omega arith), send_packets) q)

pub after_chunk-IsSound :
    (c : Settings) (t : SenderTransfer) (now : ℕ)
    → IsSound t
    → IsSound (after_chunk c t (min (t.count - t.range_sent) 8) now)
unfolding after_chunk arm_ack
after_chunk-IsSound c t now s = ground arith

pub tick_ack-IsSound :
    (t : SenderTransfer) (now : ℕ)
    → IsSound t
    → (tick_ack t now).1 ≡ alive
    → IsSound (tick_ack t now).0
unfolding tick_ack resend
tick_ack-IsSound t now s e = ground arith

-- The chunk that `tick` sends can be cut.
pub send_chunk_runs :
    (t : SenderTransfer) (l : Link) (now : ℕ)
    → IsSound t
    → t.range_sent < t.count
    → (m : Link) × (send_packets t l
          (as_u16 (t.start + t.range_sent))
          0
          (min (t.count - t.range_sent) 8)
          now
        ≡ some m)
send_chunk_runs t l now s lt =
    let b = packet_count_bounds (length t.file) in
    send_packets_runs t l (as_u16 (t.start + t.range_sent)) 0 (min (t.count - t.range_sent) 8) now
      s.total (ground arith) (ground arith)

tick_send-IsSound :
    (c : Settings) (t : SenderTransfer) (l : Link) (now : ℕ)
    → IsSound t
    → (u : SenderTransfer) × (m : Link) × (tick_send c t l now ≡ some (u, m)) × IsSound u
unfolding tick_send
tick_send-IsSound c t l now s =
    elim (Bool-cases (ltb t.range_sent t.count && leb t.send_deadline now)) [
      | inr wait ↦ (t, l, rw wait, s)
      | inl go ↦
          let rounds = min (t.count - t.range_sent) 8 in
          let (m, q) = send_chunk_runs t l now s (ground arith) in
          (after_chunk c t rounds now, m, rw (go, q), after_chunk-IsSound c t now s)
    ]

Verdict-cases : (v : Verdict) → (v ≡ gave_up) ⊎ (v ≡ alive)
Verdict-cases alive = inr refl
Verdict-cases gave_up = inl refl

-- A tick of a sound sender never slices out of its file, whatever its timers say; unless it gives
-- up it leaves the sender sound.
pub tick-IsSound :
    (c : Settings) (t : SenderTransfer) (l : Link) (now : ℕ)
    → IsSound t
    → (u : SenderTransfer) × (v : Verdict) × (m : Link) × (tick c t l now ≡ some ((u, v), m))
      × ((v ≡ gave_up) ⊎ IsSound u)
unfolding tick
tick-IsSound c t l now s =
    let (u, m, q, s') = tick_send-IsSound c t l now s in
    (
      (tick_ack u now).0,
      (tick_ack u now).1,
      m,
      rw q,
      elim (Verdict-cases (tick_ack u now).1) [
        | inl over ↦ inl over
        | inr on ↦ inr (tick_ack-IsSound u now s' on)
      ],
    )

-- No ACK takes the sender out of its file: for any range that a peer asks for, the window that
-- `on_ack` sets lies inside the file or is empty.
pub on_ack-IsSound :
    (c : Settings) (t : SenderTransfer) (k : AckType) (next_start next_count now : ℕ)
    → IsSound t
    → IsSound (on_ack c t k next_start next_count now).0
unfolding on_ack
on_ack-IsSound c t AckType.complete next_start next_count now s = s
on_ack-IsSound c t AckType.progress next_start next_count now s = ground arith
