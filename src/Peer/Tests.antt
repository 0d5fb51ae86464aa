-- ===== src/Peer/Tests.antt =====
-- The theorems on src/peer.rs at a peer with two others.
use qstream.Base.{
  ℕ, ◌+◌, ◌-◌, ◌*◌, ◌/◌, ◌≡◌, ◌≢◌, refl, ◌⊎◌, inl, true, false, not, leb, max, ◌&&◌, ◌||◌, none,
  some, List, [], ◌∷◌, ok, err, arith,
}
use qstream.Net.{SocketAddr}
use qstream.Text.{codes}
use qstream.Names.{has_name}
use qstream.Transfer.Manifest.{parse_manifest}
use qstream.Node.State.{Node, effective_addr}
use qstream.Peer.Jobs.Stuck.{requeue-pick_peer}
use qstream.Node.Addr.{any, same_addr, keys, member}
use qstream.Node.Among.{Among}
use qstream.Node.Inventory.{peer_availability}
use qstream.Node.Tick.{Surroundings}
use qstream.Node.Sample.{settings, host, guest, segment, playlist, disk, origin, origin-IsHealthy}
use qstream.Peer.Files.{write_manifest, live_name}
use qstream.Peer.Files.Atomic.{write_manifest_live}
use qstream.Peer.Queue.{Wanted, is_fetchable, sync_queue}
use qstream.Peer.Queue.Window.{sync_queue_names}
use qstream.Peer.Sources.{is_untried, Float, ActiveJob, History, eligible, inflight, pick_peer}
use qstream.Peer.Sources.Advertised.{pick_peer-announced}
use qstream.Peer.Jobs.{requeue, Scheduler, Outside}
use qstream.Peer.Schedule.Limits.{IsLimited}
use qstream.Peer.Session.{Session, io_error, on_peerlist_response}
use qstream.Peer.Session.Requests.{Requests}
use qstream.Peer.Session.Discovery.{on_peerlist_response-Requests}
use qstream.Peer.Loop.{Round, datagram, timed_out, rounds}
use qstream.Peer.Loop.Safety.{IsSteady, rounds-IsSteady}

-- Numbers in thousandths.
abbrev fixed : Float
fixed = record {
  F = ℕ;
  milli = λ n. n;
  of_nat = λ n. n * 1000;
  add = λ a b. a + b;
  sub = λ a b. a - b;
  mul = λ a b. a * b / 1000;
  div = λ a b. a * 1000 / b;
  max = λ a b. max a b;
  le = λ a b. leb a b;
}

abbrev stale : Wanted
stale = record { queue = codes "seg_1.ts" ∷ []; queued = codes "seg_1.ts" ∷ [] }

sync_queue_names_example :
    (has_name (codes "seg_1.ts") (sync_queue disk playlist stale [] 7).queue ≡ (
      has_name (codes "seg_1.ts") (parse_manifest playlist)
      && (has_name (codes "seg_1.ts") stale.queue
          || (is_fetchable disk [] 7 (codes "seg_1.ts")
              && not (has_name (codes "seg_1.ts") stale.queued)))))
    × (has_name (codes "seg_1.ts") (sync_queue disk playlist stale [] 7).queued ≡ (
        has_name (codes "seg_1.ts") (parse_manifest playlist)
        && (has_name (codes "seg_1.ts") stale.queued || is_fetchable disk [] 7 (codes "seg_1.ts"))))
sync_queue_names_example = sync_queue_names disk [] 7 (codes "seg_1.ts") stale playlist

write_manifest_live_example :
    (((write_manifest disk playlist).1 ≢ none
        × ((write_manifest disk playlist).0.files live_name ≡ some playlist))
      ⊎ (((write_manifest disk playlist).1 ≡ none)
          × ((write_manifest disk playlist).0.files live_name ≡ disk.files live_name)))
    × ((write_manifest disk playlist).0.files segment ≡ disk.files segment)
write_manifest_live_example = write_manifest_live disk playlist segment refl refl

abbrev history : History
history = record { tried = []; retry_after = []; parents = [] }

abbrev here : SocketAddr
here = origin.local_addr

picked :
    (pick_peer fixed origin [] history segment here guest (record { state = 42 }) 7).0 ≡ some host
unfolding pick_peer qstream.Node.Stats.new_stat qstream.Node.Paths.path_fresh
    qstream.Node.Paths.fresh qstream.Fault.Rng.next qstream.Node.Seeding.is_true
    qstream.Node.Addr.has_addr qstream.Peer.Sources.is_empty eligible qstream.Node.Addr.keep keys
    qstream.Node.State.effective_addr qstream.Node.State.lan_twin
    qstream.Node.Inventory.peer_may_have qstream.Names.find_name member
    qstream.Node.Paths.is_lan_path qstream.Peer.Sources.has_room inflight
    qstream.Peer.Sources.is_cooling qstream.Peer.Sources.is_untried qstream.Peer.Sources.retry_until
    peer_availability qstream.Transfer.Registry.Availability.segment_number
    qstream.Transfer.Registry.Availability.strip_prefix
    qstream.Transfer.Registry.Availability.strip_suffix
    qstream.Transfer.Registry.Availability.parse_u64
    qstream.Transfer.Registry.Availability.digits_u64 qstream.Node.Inventory.number_availability
    qstream.Node.Inventory.still_missing qstream.Node.Inventory.missing_until
    qstream.Node.Inventory.inventory_answer qstream.Node.Addr.lookup same_addr
    qstream.Protocol.Types.contains
picked = refl

host_eligible : Among (eligible origin [] history segment here guest 7) host
unfolding eligible qstream.Node.Addr.keep keys qstream.Node.State.effective_addr
    qstream.Node.State.lan_twin qstream.Node.Inventory.peer_may_have qstream.Names.find_name member
    qstream.Node.Paths.is_lan_path qstream.Peer.Sources.has_room inflight
    qstream.Peer.Sources.is_cooling qstream.Peer.Sources.is_untried qstream.Peer.Sources.retry_until
    peer_availability qstream.Transfer.Registry.Availability.segment_number
    qstream.Transfer.Registry.Availability.strip_prefix
    qstream.Transfer.Registry.Availability.strip_suffix
    qstream.Transfer.Registry.Availability.parse_u64
    qstream.Transfer.Registry.Availability.digits_u64 qstream.Node.Inventory.number_availability
    qstream.Node.Inventory.still_missing qstream.Node.Inventory.missing_until
    qstream.Node.Inventory.inventory_answer qstream.Node.Addr.lookup same_addr
    qstream.Protocol.Types.contains
host_eligible = inl refl

host_announces : peer_availability origin.knowledge host segment 7 ≡ some true
unfolding peer_availability qstream.Transfer.Registry.Availability.segment_number
    qstream.Transfer.Registry.Availability.strip_prefix
    qstream.Transfer.Registry.Availability.strip_suffix
    qstream.Transfer.Registry.Availability.parse_u64
    qstream.Transfer.Registry.Availability.digits_u64 qstream.Node.Inventory.number_availability
    qstream.Node.Inventory.still_missing qstream.Node.Inventory.missing_until
    qstream.Node.Inventory.inventory_answer qstream.Node.Addr.lookup same_addr
    qstream.Protocol.Types.contains
host_announces = refl

host_other : same_addr host guest ≡ false
unfolding same_addr
host_other = refl

no_parent : member guest history.parents ≡ false
unfolding member
no_parent = refl

pick_peer-announced_example :
    (same_addr host guest ≡ false) × (peer_availability origin.knowledge host segment 7 ≡ some true)
pick_peer-announced_example =
    pick_peer-announced origin [] history segment here guest 7 fixed (record { state = 42 }) host
      host no_parent host_eligible host_other host_announces picked

abbrev scheduler : Scheduler
scheduler = record {
  active = [];
  wanted = record { queue = codes "seg_26.ts" ∷ []; queued = codes "seg_26.ts" ∷ [] };
  history = history;
  failed_at = [];
  unresponsive_hits = [];
  rng = record { state = 42 };
}

abbrev outside : Outside
outside = record {
  local_addr = here;
  bootstrap = guest;
  names = none;
  show = λ a. [];
  draws = λ filename. 5 ∷ [];
  lossy = λ bytes. bytes;
  can_remove = true;
  playback_holdback = 3;
}

abbrev session : Session
session = record {
  node = origin;
  scheduler = scheduler;
  handshake_done = false;
  next_handshake_retry = 3;
  poll_timeout = none;
  pending_handshakes = [];
  next_poll = 0;
  next_peerlist = 0;
}

abbrev newcomer : SocketAddr
newcomer = SocketAddr.v4 10 0 0 3 20000

on_peerlist_response-Requests_example :
    Requests outside session
      ((newcomer, 0) ∷ [])
      7
      (on_peerlist_response outside session ((newcomer, 0) ∷ []) 7)
on_peerlist_response-Requests_example =
    on_peerlist_response-Requests outside session ((newcomer, 0) ∷ []) 7

nothing-IsLimited : IsLimited []
unfolding inflight
nothing-IsLimited = record { slots = omega arith; per_peer = λ p. omega arith }

session-IsSteady : IsSteady session
session-IsSteady = record { node = origin-IsHealthy; jobs = nothing-IsLimited }

abbrev quiet : Surroundings
quiet = record { entries = some []; can_remove = λ n. true; names = none; show = λ a. [] }

abbrev loop : List Round
loop =
    record {
      received = datagram (1 ∷ 2 ∷ []) host;
      at = 7;
      now = 8;
      limit = 2;
      outside = outside;
      surroundings = quiet;
    }
    ∷ record {
      received = timed_out;
      at = 9;
      now = 9;
      limit = 2;
      outside = outside;
      surroundings = quiet;
    }
    ∷ []

rounds-IsSteady_example :
    (rounds settings fixed session loop ≡ err io_error)
    ⊎ ((t : Session) × (rounds settings fixed session loop ≡ ok t) × IsSteady t)
rounds-IsSteady_example = rounds-IsSteady settings fixed session loop session-IsSteady

-- The guest has the name of the host, which is in the LAN and has been tried.
abbrev shared : Node
shared = record origin {
  peers =
      (host, record { name = codes "peer"; last_seen = 1 })
      ∷ (guest, record { name = codes "peer"; last_seen = 1 })
      ∷ [];
  paths = (host, record { last_ping = 1; last_pong = some 1; lan = true }) ∷ [];
}

abbrev failing : Scheduler
failing = record scheduler {
  history = record { tried = (segment, host ∷ []) ∷ []; retry_after = []; parents = [] };
}

all_tried :
    any (λ k. is_untried failing.history segment (effective_addr shared k)) (keys shared.peers)
    ≡ false
unfolding any keys is_untried effective_addr member qstream.Names.find_name same_addr
    qstream.Node.Addr.lookup qstream.Node.State.lan_twin qstream.Node.Paths.is_lan_path
all_tried = refl

host_tried : is_untried failing.history segment host ≡ false
unfolding is_untried member qstream.Names.find_name same_addr
host_tried = refl

guest_untried :
    any (λ p. not (same_addr p here) && is_untried failing.history segment p) (keys shared.peers)
    ≡ true
unfolding any keys is_untried same_addr member qstream.Names.find_name
guest_untried = refl

requeue-pick_peer_example :
    ((requeue shared failing here segment 7).wanted.queue ≡ segment ∷ failing.wanted.queue)
    × ((pick_peer fixed shared failing.active failing.history segment here host
          (record { state = 42 })
          7).0
        ≡ none)
requeue-pick_peer_example =
    requeue-pick_peer shared failing segment here host 7 fixed (record { state = 42 }) all_tried
      host_tried guest_untried
