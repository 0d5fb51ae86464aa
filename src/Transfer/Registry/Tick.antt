-- ===== src/Transfer/Registry/Tick.antt =====
-- `TransferRegistry::tick` of src/transfer.rs, and what the event loop does to a registry.
use qstream.Base.{ℕ, Bool, leb, if◌then◌else◌, Option, none, some, List, [], ◌∷◌, ◌++◌}
use mathlib.Core.Option
use qstream.Net.{SocketAddr}
use qstream.Protocol.Types.{AckType}
use qstream.Fault.Injector.{Link}
use qstream.Transfer.Timing.{Settings}
use qstream.Transfer.Table.{remove_all}
use qstream.Transfer.Sender
use qstream.Transfer.Sender.{SenderTransfer, Verdict, alive, gave_up}
use qstream.Transfer.Receiver.{ReceiverTransfer, World}
use qstream.Transfer.Receiver.Timer.{on_tick}
use qstream.Transfer.Registry.{
  TransferRegistry, RegEvent, sender_failed, reject_not_found, serve, start_receiver, on_content,
  on_ack, on_not_found, remove_receiver, drain_events,
}

-- The senders after their ticks, the numbers and the events of the expired ones, and the link.
pub record Ticked : Type 0 where
  pub senders : List (ℕ × SenderTransfer)
  pub expired : List ℕ
  pub failures : List RegEvent
  pub link : Link

unfoldable pub ticked_one : ℕ → SenderTransfer → Verdict → Ticked → Ticked
ticked_one id t alive rest = record rest { senders = (id, t) ∷ rest.senders }
ticked_one id t gave_up rest = record rest {
  senders = (id, t) ∷ rest.senders;
  expired = id ∷ rest.expired;
  failures = sender_failed t.remote ∷ rest.failures;
}

-- The loop over the senders; `none` is a panic.
unfoldable pub tick_senders : Settings → List (ℕ × SenderTransfer) → Link → ℕ → Option Ticked
tick_senders c [] l now = some (record { senders = []; expired = []; failures = []; link = l })
tick_senders c ((id, t) ∷ xs) l now = elim (Sender.tick c t l now) [
  | none ↦ none
  | some ((t', verdict), l') ↦ Option.map (ticked_one id t' verdict) (tick_senders c xs l' now)
]

-- The loop over the receivers: those that are over and past their deadline are done.
unfoldable pub tick_receivers :
    Settings
    → List (ℕ × ReceiverTransfer)
    → World
    → ℕ
    → List (ℕ × ReceiverTransfer) × (List ℕ × World)
tick_receivers c [] w now = ([], ([], w))
tick_receivers c ((id, t) ∷ xs) w now = elim t.outcome [
  | some o ↦
      let (xs', (done, w')) = tick_receivers c xs w now in
      ((id, t) ∷ xs', (if leb t.deadline now then id ∷ done else done, w'))
  | none ↦
      let (t', w') = on_tick c t w now in
      let (xs', (done, w'')) = tick_receivers c xs w' now in ((id, t') ∷ xs', (done, w''))
]

unfoldable pub tick : Settings → TransferRegistry → World → ℕ → Option (TransferRegistry × World)
tick c r w now = elim (tick_senders c r.senders w.link now) [
  | none ↦ none
  | some after ↦
      let (xs, (done, w')) = tick_receivers c r.receivers (record w { link = after.link }) now in
      some (
        record {
          senders = remove_all after.expired after.senders;
          receivers = remove_all done xs;
          events = r.events ++ after.failures;
        },
        w',
      )
]

-- What happens to a registry: a datagram comes in, the node starts or drops a download, or time goes on.
pub data Op : Type 0 where
  requested :
      (names : Option (List (List ℕ))) (id : ℕ) (filename : List ℕ) (src : SocketAddr) (now : ℕ)
      → Op
  refused :
      (names : Option (List (List ℕ))) (id : ℕ) (src : SocketAddr) (retryable : Bool) (now : ℕ) → Op
  started : (draws : List ℕ) (remote : SocketAddr) (filename : List ℕ) (now : ℕ) → Op
  content : (id packet_number total_packets : ℕ) (bytes : List ℕ) (now : ℕ) → Op
  acked : (id : ℕ) (ack_type : AckType) (next_start next_count now : ℕ) → Op
  missing : (id : ℕ) (retryable : Bool) (now : ℕ) → Op
  dropped : (id : ℕ) → Op
  drained : Op
  ticked : (now : ℕ) → Op

-- Draws without a free number leave `fresh_id` still in its loop.
unfoldable pub begun :
    TransferRegistry × World
    → Option ((TransferRegistry × Link) × Option ℕ)
    → TransferRegistry × World
begun s none = s
begun (r, w) (some ((r', l), id)) = (r', record w { link = l })

-- One call; `none` is a panic.
unfoldable pub perform :
    Settings → TransferRegistry × World → Op → Option (TransferRegistry × World)
perform c (r, w) (requested names id filename src now) =
    let (r', l) = serve r w names id filename src now in some (r', record w { link = l })
perform c (r, w) (refused names id src retryable now) =
    let (r', l) = reject_not_found r w.link names id src retryable now in
    some (r', record w { link = l })
perform c (r, w) (started draws remote filename now) =
    some (begun (r, w) (start_receiver c r w.link draws remote filename now))
perform c (r, w) (content id packet_number total_packets bytes now) =
    some (on_content c r w id packet_number total_packets bytes now)
perform c (r, w) (acked id ack_type next_start next_count now) =
    some (on_ack c r id ack_type next_start next_count now, w)
perform c (r, w) (missing id retryable now) = some ((on_not_found r id retryable now).0, w)
perform c (r, w) (dropped id) = some (remove_receiver r id, w)
perform c (r, w) drained = some ((drain_events r).0, w)
perform c (r, w) (ticked now) = tick c r w now

unfoldable pub perform_all :
    Settings → TransferRegistry × World → List Op → Option (TransferRegistry × World)
perform_all c s [] = some s
perform_all c s (op ∷ ops) = elim (perform c s op) [ none ↦ none | some s' ↦ perform_all c s' ops ]
