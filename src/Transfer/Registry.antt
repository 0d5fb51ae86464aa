-- ===== src/Transfer/Registry.antt =====
-- `TransferRegistry` of src/transfer.rs: the transfers of a node. Its `segment_root` is the directory
-- of the `World`, to which a peer also downloads; `names` is what `fs::read_dir` lists of it.
pub mod Availability
pub mod Tick
pub mod Answers
pub mod Starts
pub mod Kept
pub mod Safety
use qstream.Base.{
  ℕ, zero, suc, ◌+◌, ◌-◌, ◌^◌, ◌*◌, Bool, true, false, not, leb, ltb, ◌==◌, ◌&&◌, ◌||◌,
  if◌then◌else◌, Option, none, some, List, [], ◌∷◌, ◌++◌, length, min,
}
use mathlib.Core.Option
use qstream.Net.{SocketAddr}
use qstream.Protocol.Types.{Message, AckType, SegmentAvailability}
use qstream.Protocol.Encode.{encode}
use qstream.Fault.Injector.{Link, send}
use qstream.Transfer.Timing.{Settings, max_concurrent_transfers}
use qstream.Transfer.Packets.{valid_filename}
use qstream.Transfer.Table.{find, has_key, remove, insert, put, remove_all}
use qstream.Transfer.Sender
use qstream.Transfer.Sender.{SenderTransfer, Verdict, alive, gave_up, new_sender, sender_deadline}
use qstream.Transfer.Receiver
use qstream.Transfer.Receiver.{
  ReceiverTransfer, World, Outcome, not_ready, absent, new_receiver, fail, mark_not_found,
}
use qstream.Transfer.Receiver.Timer.{on_tick}
use qstream.Transfer.Registry.Availability.{segment_availability}

pub data RegEvent : Type 0 where
  served : (src : SocketAddr) (bytes : ℕ) → RegEvent
  not_found : (src : SocketAddr) → RegEvent
  sender_failed : (src : SocketAddr) → RegEvent

pub record TransferRegistry : Type 0 where
  pub senders : List (ℕ × SenderTransfer)
  pub receivers : List (ℕ × ReceiverTransfer)
  pub events : List RegEvent

unfoldable pub new_registry : TransferRegistry
new_registry = record { senders = []; receivers = []; events = [] }

-- `active_count`.
unfoldable pub active_count : TransferRegistry → ℕ
active_count r = length r.senders + length r.receivers

-- `drain_events`.
unfoldable pub drain_events : TransferRegistry → TransferRegistry × List RegEvent
drain_events r = (record r { events = [] }, r.events)

earliest : Option ℕ → List ℕ → Option ℕ
earliest best [] = best
earliest none (t ∷ ts) = earliest (some t) ts
earliest (some b) (t ∷ ts) = earliest (some (min b t)) ts

sender_deadlines : List (ℕ × SenderTransfer) → List ℕ
sender_deadlines [] = []
sender_deadlines ((id, t) ∷ xs) = sender_deadline t ∷ sender_deadlines xs

receiver_deadlines : List (ℕ × ReceiverTransfer) → List ℕ
receiver_deadlines [] = []
receiver_deadlines ((id, t) ∷ xs) = t.deadline ∷ receiver_deadlines xs

-- `next_deadline`.
unfoldable pub next_deadline : TransferRegistry → Option ℕ
unfolding earliest sender_deadlines receiver_deadlines
next_deadline r = earliest none (sender_deadlines r.senders ++ receiver_deadlines r.receivers)

-- The loop of `fresh_id` over the numbers that `random_id` draws; `none` if none of them is free.
unfoldable pub fresh_id : TransferRegistry → List ℕ → Option ℕ
fresh_id r [] = none
fresh_id r (id ∷ ids) =
    let rest = fresh_id r ids in
    if not (id == 0) && not (has_key id r.senders) && not (has_key id r.receivers)
    then some id
    else rest

-- `reject_not_found`: the refusal is an event, and an answer.
unfoldable pub reject_not_found :
    TransferRegistry
    → Link
    → Option (List (List ℕ))
    → ℕ
    → SocketAddr
    → Bool
    → ℕ
    → TransferRegistry × Link
reject_not_found r l names id src retryable now = (
  record r { events = r.events ++ not_found src ∷ [] },
  send l (encode (Message.segment_not_found id (segment_availability names) retryable), src) now,
)

-- `serve`.
unfoldable pub serve :
    TransferRegistry
    → World
    → Option (List (List ℕ))
    → ℕ
    → List ℕ
    → SocketAddr
    → ℕ
    → TransferRegistry × Link
serve r w names id filename src now =
    if not (valid_filename filename)
    then reject_not_found r w.link names id src false now
    else if leb max_concurrent_transfers (active_count r)
    then reject_not_found r w.link names id src false now
    else elim (w.disk.files filename) [
      | none ↦ reject_not_found r w.link names id src false now
      | some file ↦
          (record r { senders = insert id (new_sender id src file now) r.senders }, w.link)
    ]

-- `start_receiver`; `draws` are the numbers that `random_id` returns.
unfoldable pub start_receiver :
    Settings
    → TransferRegistry
    → Link
    → List ℕ
    → SocketAddr
    → List ℕ
    → ℕ
    → Option ((TransferRegistry × Link) × Option ℕ)
start_receiver c r l draws remote filename now =
    if leb max_concurrent_transfers (active_count r)
    then some ((r, l), none)
    else Option.map
        (λ id. (
          (
            record r { receivers = insert id (new_receiver c id remote filename now) r.receivers },
            send l (encode (Message.segment_request id filename), remote) now,
          ),
          some id,
        ))
        (fresh_id r draws)

-- `on_content`: packets of an unknown transfer are ignored.
unfoldable pub on_content :
    Settings → TransferRegistry → World → ℕ → ℕ → ℕ → List ℕ → ℕ → TransferRegistry × World
on_content c r w id packet_number total_packets bytes now = elim (find id r.receivers) [
  | none ↦ (r, w)
  | some t ↦
      let (t', w') = Receiver.on_content c t w packet_number total_packets bytes now in
      (record r { receivers = put id t' r.receivers }, w')
]

-- `on_ack`: a complete ACK frees the sender.
unfoldable pub on_ack : Settings → TransferRegistry → ℕ → AckType → ℕ → ℕ → ℕ → TransferRegistry
on_ack c r id ack_type next_start next_count now = elim (find id r.senders) [
  | none ↦ r
  | some t ↦
      let (t', over) = Sender.on_ack c t ack_type next_start next_count now in
      if over
      then record r {
        events = r.events ++ served t'.remote (length t'.file) ∷ [];
        senders = remove id r.senders;
      }
      else record r { senders = put id t' r.senders }
]

-- `on_not_found`.
unfoldable pub on_not_found :
    TransferRegistry → ℕ → Bool → ℕ → TransferRegistry × Option (List ℕ × Bool)
on_not_found r id retryable now = elim (find id r.receivers) [
  | none ↦ (r, none)
  | some t ↦
      let reason = if retryable then not_ready else absent in
      (
        record r { receivers = put id (fail (mark_not_found t retryable) reason now) r.receivers },
        some (t.filename, retryable),
      )
]

-- `receiver_outcome`, and the other getters that read one receiver.
unfoldable pub receiver_outcome : TransferRegistry → ℕ → Option Outcome
receiver_outcome r id = Option.get_or (Option.map (λ t. t.outcome) (find id r.receivers)) none

unfoldable pub remove_receiver : TransferRegistry → ℕ → TransferRegistry
remove_receiver r id = record r { receivers = remove id r.receivers }
