-- ===== src/Transfer/Sender/Stuck.antt =====
-- What a sender of src/transfer.rs does after an ACK that asks for no packet.
use qstream.Base.{ℕ, ◌≤◌, ◌≡◌, some, arith}
use qstream.Protocol.Types.{AckType}
use qstream.Fault.Injector.{Link}
use qstream.Transfer.Timing.{Settings}
use qstream.Transfer.Sender.{
  SenderTransfer, sender_deadline, tick_send, tick_ack, tick, ack_due, alive, on_ack,
}

-- A progress ACK that names a packet of the file and a count of 0 leaves a sender that no tick ever
-- changes, whenever it comes: it sends nothing, it never gives up, and its deadline is the time of
-- that ACK for good.
pub on_ack-zero_count :
    (c : Settings) (t : SenderTransfer) (l : Link) (next_start acked now : ℕ)
    → 1 ≤ next_start
    → next_start ≤ t.total_packets
    → let u = (on_ack c t AckType.progress next_start 0 acked).0 in
      (tick c u l now ≡ some ((u, alive), l)) × (sender_deadline u ≡ acked)
unfolding on_ack tick tick_send tick_ack ack_due sender_deadline
on_ack-zero_count c t l next_start acked now lo hi = ground arith
