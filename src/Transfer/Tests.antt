-- ===== src/Transfer/Tests.antt =====
-- The theorems on src/transfer.rs at a file of three bytes.
use qstream.Base.{
  ℕ, ◌-◌, ◌≤◌, ◌<◌, ◌≡◌, refl, ◌↔◌, ◌⊎◌, inl, inr, true, false, Option, none, some, List, [], ◌∷◌,
  Has, arith,
}
use qstream.Net.{SocketAddr, v4}
use qstream.Disk.{Disk}
use qstream.Protocol.Types.{AckType, SegmentAvailability, contains}
use qstream.Fault.Injector.{Link}
use qstream.Transfer.Timing.{Settings, retry_interval}
use qstream.Transfer.Packets.{packet_count, valid_filename}
use qstream.Transfer.Table.{has_key, find}
use qstream.Transfer.Assembly.{assemble}
use qstream.Transfer.Assembly.Place.{assemble-pieces}
use qstream.Transfer.Sender.{
  SenderTransfer, Verdict, alive, gave_up, new_sender, sender_deadline, tick, on_ack,
}
use qstream.Transfer.Sender.Safety.{IsSound, new_sender-IsSound, tick-IsSound, on_ack-IsSound}
use qstream.Transfer.Sender.Stuck.{on_ack-zero_count}
use qstream.Transfer.Sender.GivesUp.{wait_loop, sender_gives_up, retry_interval_bounds}
use qstream.Transfer.Receiver.{
  ReceiverTransfer, World, Outcome, saved, failed, not_ready, absent, new_receiver,
}
use qstream.Transfer.Receiver.Pull.{Step, arrives, ticks, pull, pull-saves}
use qstream.Transfer.Receiver.InOrder.{timetable, pull-in_order}
use qstream.Transfer.Registry.{
  TransferRegistry, start_receiver, new_registry, active_count, serve, reject_not_found, fresh_id,
  on_not_found, receiver_outcome,
}
use qstream.Transfer.Registry.Availability.{
  segment_number, segment_numbers, segment_availability, segment_availability-contains,
}
use qstream.Transfer.Registry.Tick.{Op, requested, started, acked, ticked, missing, perform_all}
use qstream.Transfer.Registry.Kept.{IsSafe, new_registry-IsSafe}
use qstream.Transfer.Registry.Safety.{perform_all-IsSafe}
use qstream.Transfer.Registry.Starts.{IsFree, Starts, start_receiver-Starts}
use qstream.Transfer.Registry.Answers.{Serves, Refuses, serve_answers, on_not_found-overrules}

abbrev settings : Settings
settings = record { pace_ms = 1; quiet_ms = 200; first_timeout_ms = 1000 }

abbrev host : SocketAddr
host = v4 10 0 0 1 20000

abbrev link : Link
link = record {
  fault = record {
    rng = record { state = 42 };
    started = 0;
    drop_pct = 0;
    dup_pct = 0;
    reorder_pct = 0;
    delay_ms = 0;
    burst_every_ms = 0;
    burst_dur_ms = 0;
    held = none;
    delayed = [];
    stats = record { dropped = 0; emitted = 0 };
  };
  socket = record { accepts = λ d. true; sent = [] };
}

abbrev file : List ℕ
file = 7 ∷ 8 ∷ 9 ∷ []

abbrev name : List ℕ
name = b'a' ∷ b'.' ∷ b't' ∷ b's' ∷ []

-- A directory in which every name leads to `content`.
abbrev disk : Option (List ℕ) → Disk
disk content = record {
  files = λ n. content;
  is_dir = λ n. false;
  can_write = λ n. true;
  torn = λ n b. none;
  can_rename = λ n m. true;
}

abbrev world : Option (List ℕ) → World
world content = record { link = link; disk = disk content }

assemble-pieces_example : assemble (packet_count 3) ((1, file) ∷ []) ≡ file
unfolding packet_count qstream.Transfer.Assembly.contains_key
assemble-pieces_example =
    assemble-pieces file ((1, file) ∷ []) (omega arith) (omega arith, omega arith, refl, tt)
      (omega arith) (refl, tt)

abbrev sender : SenderTransfer
sender = new_sender 5 host file 0

abbrev sender-IsSound : IsSound sender
sender-IsSound = new_sender-IsSound 5 host file 0

tick-IsSound_example :
    (u : SenderTransfer) × (v : Verdict) × (m : Link) × (tick settings sender link 3
      ≡ some ((u, v), m))
    × ((v ≡ gave_up) ⊎ IsSound u)
tick-IsSound_example = tick-IsSound settings sender link 3 sender-IsSound

on_ack-IsSound_example : IsSound (on_ack settings sender AckType.progress 1 64 9).0
on_ack-IsSound_example = on_ack-IsSound settings sender AckType.progress 1 64 9 sender-IsSound

on_ack-zero_count_example :
    let u = (on_ack settings sender AckType.progress 1 0 9).0 in
    (tick settings u link 500 ≡ some ((u, alive), link)) × (sender_deadline u ≡ 9)
unfolding new_sender packet_count
on_ack-zero_count_example =
    on_ack-zero_count settings sender link 1 9 500 (omega arith) (omega arith)

sender_gives_up_example :
    (u : SenderTransfer) × (wait_loop settings 100 sender link ≡ some (u, gave_up))
unfolding new_sender packet_count
sender_gives_up_example =
    sender_gives_up settings 100 sender link sender-IsSound
      (record { some_packets = omega arith; timer = inl (omega arith) }) (omega arith)

retry_interval_bounds_example :
    (300000000 ≤ retry_interval settings 5 250000000 3)
    × (retry_interval settings 5 250000000 3 ≤ 8000000000)
retry_interval_bounds_example = retry_interval_bounds settings 5 250000000 3

abbrev events : List Step
events = ticks 5 ∷ arrives 9 6 ∷ arrives 1 7 ∷ arrives 1 8 ∷ []

pull-saved :
    (pull settings file (new_receiver settings 5 host name 0, world none) events).0.outcome
    ≡ some saved
unfolding pull qstream.Transfer.Receiver.on_content qstream.Transfer.Receiver.Timer.on_tick
    new_receiver qstream.Transfer.Receiver.Timer.first_response_tick
    qstream.Transfer.Receiver.Timer.resend_request qstream.Transfer.Receiver.Timer.quiet_tick
    qstream.Transfer.Receiver.dispatch qstream.Transfer.Receiver.first_contact packet_count
    qstream.Transfer.Receiver.accept qstream.Transfer.Assembly.contains_key
    qstream.Transfer.Receiver.after_insert qstream.Transfer.Receiver.insert_packet
    qstream.Transfer.Receiver.complete qstream.Transfer.Assembly.save qstream.Disk.write
    qstream.Disk.rename qstream.Transfer.Receiver.on_stray
pull-saved = refl

pull-saves_example :
    (pull settings file (new_receiver settings 5 host name 0, world none) events).1.disk.files name
    ≡ some file
pull-saves_example =
    pull-saves settings file 5 host name 0 (world none) events (omega arith) pull-saved

-- The event loop ticks at 3, and at 600 ms, when the request is sent again.
abbrev arrivals : List (List ℕ × ℕ)
arrivals = (3 ∷ 600000000 ∷ [], 700000000) ∷ []

pull-in_order_example :
    let s =
      pull settings file (new_receiver settings 5 host name 0, world none) (timetable 0 arrivals) in
    (s.0.outcome ≡ some saved) × (s.1.disk.files name ≡ some file)
unfolding packet_count
pull-in_order_example =
    pull-in_order settings file 5 host name 0 (world none) arrivals (omega arith) refl
      ((omega arith, (omega arith, tt)), tt) refl refl

abbrev ops : List Op
ops =
    requested none 5 name host 0
    ∷ started (5 ∷ 6 ∷ []) host name 1
    ∷ ticked 2
    ∷ missing 6 true 3
    ∷ acked 5 AckType.complete 0 0 4
    ∷ []

perform_all-IsSafe_example :
    (s : TransferRegistry × World) × (perform_all settings (new_registry, world (some file)) ops
      ≡ some s)
    × IsSafe s.0
perform_all-IsSafe_example =
    perform_all-IsSafe settings new_registry (world (some file)) ops new_registry-IsSafe

serve_answers_example :
    let x = serve new_registry (world (some file)) none 5 name host 9 in
    ((f : List ℕ) × Serves new_registry (world (some file)) name f
      × (find 5 x.0.senders ≡ some (new_sender 5 host f 9))
      × (x.1 ≡ link))
    ⊎ (((valid_filename name ≡ false)
          ⊎ ((32 ≤ active_count new_registry) ⊎ ((world (some file)).disk.files name ≡ none)))
        × Refuses new_registry link none 5 host 9 x)
serve_answers_example = serve_answers new_registry (world (some file)) none 5 name host 9

-- A download that has succeeded.
abbrev over : ReceiverTransfer
over = record (new_receiver settings 6 host name 0) { outcome = some saved }

abbrev pulled : TransferRegistry
pulled = record { senders = []; receivers = (6, over) ∷ []; events = [] }

on_not_found-overrules_example :
    let x = on_not_found pulled 6 false 9 in
    (receiver_outcome x.0 6 ≡ some (failed absent)) × (x.1 ≡ some (over.filename, false))
unfolding find
on_not_found-overrules_example = on_not_found-overrules pulled 6 false 9 over refl

-- `seg_25.ts`, `seg_30.ts` and `live.m3u8`.
abbrev listing : List (List ℕ)
listing =
    (115 ∷ 101 ∷ 103 ∷ 95 ∷ 50 ∷ 53 ∷ 46 ∷ 116 ∷ 115 ∷ [])
    ∷ (115 ∷ 101 ∷ 103 ∷ 95 ∷ 51 ∷ 48 ∷ 46 ∷ 116 ∷ 115 ∷ [])
    ∷ (108 ∷ 105 ∷ 118 ∷ 101 ∷ 46 ∷ 109 ∷ 51 ∷ 117 ∷ 56 ∷ [])
    ∷ []

abbrev announced : SegmentAvailability
announced = record { newest = 30; mask = 33 }

listing-announced : segment_availability (some listing) ≡ some announced
unfolding segment_availability qstream.Transfer.Registry.Availability.summary segment_numbers
    segment_number qstream.Transfer.Registry.Availability.strip_prefix
    qstream.Transfer.Registry.Availability.strip_suffix
    qstream.Transfer.Registry.Availability.parse_u64
    qstream.Transfer.Registry.Availability.digits_u64
    qstream.Transfer.Registry.Availability.newest_of qstream.Transfer.Registry.Availability.mask_of
listing-announced = refl

segment_availability-contains_example :
    (contains announced 25 ≡ some true) ↔ (Has (segment_numbers listing) 25 × (30 - 25 < 16))
segment_availability-contains_example =
    segment_availability-contains listing announced 25 listing-announced

six-IsFree : IsFree new_registry 6
unfolding new_registry has_key
six-IsFree = record { positive = omega arith; unsent = refl; unread = refl }

start_receiver-Starts_example :
    (k : ℕ) × (x : TransferRegistry × Link) × (start_receiver settings new_registry link
        (0 ∷ 6 ∷ [])
        host
        name
        9
      ≡ some (x, some k))
    × Starts settings new_registry link host name 9 k 7 x
unfolding new_registry active_count
start_receiver-Starts_example =
    start_receiver-Starts settings new_registry link (0 ∷ 6 ∷ []) host name 9 6 7 (omega arith)
      (inr (inl refl)) six-IsFree
