-- ===== src/Transfer/Receiver.antt =====
-- `ReceiverTransfer` of src/transfer.rs: one file pulled from one peer.
pub mod Timer
pub mod Windows
pub mod Saves
pub mod Named
pub mod Pull
pub mod Waiting
pub mod NextPacket
pub mod InOrder
use qstream.Base.{
  ℕ, ◌+◌, ◌-◌, ◌*◌, ◌/◌, ◌%◌, ◌^◌, Bool, true, false, not, leb, ltb, ◌==◌, ◌&&◌, ◌||◌,
  if◌then◌else◌, Option, none, some, List, [], ◌∷◌, length, min,
}
use mathlib.Core.Option
use qstream.Net.{SocketAddr, as_u16}
use qstream.Clock.{ms, secs, as_millis, duration_since}
use qstream.Protocol.Types.{Message, AckType}
use qstream.Protocol.Encode.{encode}
use qstream.Fault.Injector.{Link, send}
use qstream.Disk.{Disk}
use qstream.Transfer.Timing.{
  Settings, initial_window, max_window, complete_grace, quiet_period, adaptive_quiet,
}
use qstream.Transfer.Assembly.{contains_key, all_received, assemble, save}

-- Why a transfer failed; the Rust code keeps a text for people.
pub data Failure : Type 0 where
  no_response range_incomplete write_failed not_ready absent : Failure

pub data Outcome : Type 0 where
  saved : Outcome
  failed : Failure → Outcome

-- The map `packets` is the list of its entries; what iterates over it must not hang on their order.
pub record ReceiverTransfer : Type 0 where
  pub transfer_id : ℕ
  pub remote : SocketAddr
  pub filename : List ℕ
  pub packets : List (ℕ × List ℕ)
  pub total : Option ℕ
  pub range : Option (ℕ × ℕ)
  pub retry_count : ℕ
  pub first_response_deadline : ℕ
  pub quiet_deadline : ℕ
  pub deadline : ℕ
  pub outcome : Option Outcome
  pub unresponsive : Bool
  pub not_found : Bool
  pub retryable_not_found : Bool
  pub started_at : ℕ
  pub gap_est : ℕ
  pub backoff : ℕ
  pub last_arrival : Option ℕ
  pub first_packet_latency : Option ℕ
  pub request_resent : Bool
  pub saved_bytes : Option ℕ

-- What a receiver acts on: the link, and the directory that it saves to.
pub record World : Type 0 where
  pub link : Link
  pub disk : Disk

unfoldable pub new_receiver : Settings → ℕ → SocketAddr → List ℕ → ℕ → ReceiverTransfer
unfolding quiet_period
new_receiver c id remote filename now = record {
  transfer_id = id;
  remote = remote;
  filename = filename;
  packets = [];
  total = none;
  range = none;
  retry_count = 0;
  first_response_deadline = now + ms c.first_timeout_ms;
  quiet_deadline = now + quiet_period c;
  deadline = now + quiet_period c;
  outcome = none;
  unresponsive = false;
  not_found = false;
  retryable_not_found = false;
  started_at = now;
  gap_est = quiet_period c;
  backoff = 0;
  last_arrival = none;
  first_packet_latency = none;
  request_resent = false;
  saved_bytes = none;
}

unfoldable pub fail : ReceiverTransfer → Failure → ℕ → ReceiverTransfer
fail r reason now = record r { outcome = some (failed reason); deadline = now + complete_grace }

unfoldable pub fail_unresponsive : ReceiverTransfer → ℕ → ReceiverTransfer
unfolding fail
fail_unresponsive r now = fail (record r { unresponsive = true }) no_response now

unfoldable pub mark_not_found : ReceiverTransfer → Bool → ReceiverTransfer
mark_not_found r retryable = record r { retryable_not_found = retryable; not_found = not retryable }

unfoldable pub recompute_deadline : ReceiverTransfer → ReceiverTransfer
recompute_deadline r = record r { deadline = min r.first_response_deadline r.quiet_deadline }

-- `fault.send(socket, protocol::encode(&msg), self.remote, now)`.
unfoldable pub post : ReceiverTransfer → World → Message → ℕ → World
post r w m now = record w { link = send w.link (encode m, r.remote) now }

unfoldable pub send_ack : ReceiverTransfer → World → ℕ × ℕ → ℕ → World
send_ack r w range now = post r w (Message.ack r.transfer_id AckType.progress range.0 range.1) now

unfoldable pub send_complete : ReceiverTransfer → World → ℕ → World
send_complete r w now = post r w (Message.ack r.transfer_id AckType.complete 0 0) now

-- `range_complete`.
unfoldable pub range_complete : ReceiverTransfer → ℕ → ℕ → Bool
range_complete r start count = all_received r.packets start count

-- `complete`.
unfoldable pub complete : ReceiverTransfer → World → ℕ → ReceiverTransfer × World
complete r w now =
    let bytes = assemble (Option.get_or r.total 0) r.packets in
    let (disk, done) = save w.disk r.filename bytes in
    let w' = record w { disk = disk } in
    if done
    then (
      record r {
        saved_bytes = some (length bytes);
        outcome = some saved;
        deadline = now + complete_grace;
      },
      send_complete r w' now,
    )
    else (fail r write_failed now, w')

-- `total as u32 - next_start + 1` in a release build, where the subtraction wraps.
unfoldable pub remaining : ℕ → ℕ → ℕ
remaining total next_start = (total + 2 ^ 32 - next_start + 1) % 2 ^ 32

-- `advance`: ask for the next window.
unfoldable pub advance :
    Settings → ReceiverTransfer → World → ℕ → ℕ → ℕ → ℕ → ReceiverTransfer × World
advance c r w start count total now =
    let next_start = start + count in
    let left = remaining total next_start in
    if left == 0
    then complete r w now
    else (let next_count = min (min (count * 2) max_window) left in
        let range : ℕ × ℕ = (as_u16 next_start, as_u16 next_count) in
        let r' = record r {
          range = some range;
          retry_count = 0;
          quiet_deadline = now + adaptive_quiet c r.gap_est 0;
        } in
        (r', send_ack r' w range now))

-- The first content packet fixes the total and opens the first window.
unfoldable pub first_contact : Settings → ReceiverTransfer → ℕ → ℕ → ReceiverTransfer
first_contact c r total_packets now = elim r.total [
  | some n ↦ r
  | none ↦ record r {
    total = some total_packets;
    first_packet_latency = some (as_millis (duration_since now r.started_at));
    range = some (1, min initial_window total_packets);
    first_response_deadline = now + secs 3600;
    quiet_deadline = now + adaptive_quiet c r.gap_est 0;
  }
]

unfoldable pub sample_gap : Option ℕ → ℕ → ℕ → ℕ
sample_gap none gap now = gap
sample_gap (some prev) gap now = (gap * 3 + duration_since now prev) / 4

-- A new packet of the current window enters the map.
unfoldable pub insert_packet : Settings → ReceiverTransfer → ℕ → List ℕ → ℕ → ReceiverTransfer
insert_packet c r packet_number bytes now =
    let gap = sample_gap r.last_arrival r.gap_est now in
    record r {
      gap_est = gap;
      last_arrival = some now;
      backoff = 0;
      packets = (packet_number, bytes) ∷ r.packets;
      quiet_deadline = now + adaptive_quiet c gap 0;
    }

-- What follows the insertion: the file is whole, or the window is.
unfoldable pub after_insert :
    Settings → ReceiverTransfer → World → ℕ × ℕ → ℕ → ℕ → ReceiverTransfer × World
after_insert c r w (start, count) total now =
    if leb total (length r.packets)
    then complete r w now
    else if range_complete r start count
    then advance c r w start count total now
    else (r, w)

-- `on_content` behind the checks of the total and of the range.
unfoldable pub accept :
    Settings → ReceiverTransfer → World → ℕ → ℕ × ℕ → ℕ → List ℕ → ℕ → ReceiverTransfer × World
accept c r w total range packet_number bytes now =
    if ltb packet_number range.0 || leb (range.0 + range.1) packet_number
    then (r, send_ack r w range now)
    else if contains_key packet_number r.packets
    then (r, w)
    else after_insert c (insert_packet c r packet_number bytes now) w range total now

unfoldable pub dispatch :
    Settings
    → ReceiverTransfer
    → World
    → Option ℕ
    → Option (ℕ × ℕ)
    → ℕ
    → List ℕ
    → ℕ
    → ReceiverTransfer × World
dispatch c r w none range packet_number bytes now = (r, w)
dispatch c r w (some total) none packet_number bytes now = (r, w)
dispatch c r w (some total) (some range) packet_number bytes now =
    if packet_number == 0 || ltb total packet_number
    then (r, w)
    else accept c r w total range packet_number bytes now

-- `on_content` once the transfer is over: a lost final ACK is repeated.
unfoldable pub on_stray : Outcome → ReceiverTransfer → World → ℕ → ReceiverTransfer × World
on_stray saved r w now = (r, send_complete r w now)
on_stray (failed reason) r w now = (r, w)

-- `ReceiverTransfer::on_content`.
unfoldable pub on_content :
    Settings → ReceiverTransfer → World → ℕ → ℕ → List ℕ → ℕ → ReceiverTransfer × World
on_content c r w packet_number total_packets bytes now = elim r.outcome [
  | some o ↦ on_stray o r w now
  | none ↦
      let r' = first_contact c r total_packets now in
      dispatch c r' w r'.total r'.range packet_number bytes now
]
