-- ===== src/Node/Tick.antt =====
-- `tick` of src/node.rs, less the texts that it publishes.
pub mod Prune
use qstream.Base.{
  ℕ, ◌+◌, Bool, true, false, not, leb, ltb, ◌==◌, ◌&&◌, ◌||◌, if◌then◌else◌, Option, none, some,
  List, [], ◌∷◌,
}
use mathlib.Core.Option
use qstream.Net.{SocketAddr, v4}
use qstream.Clock.{secs}
use qstream.Disk.{Disk, remove_file}
use qstream.Text.{codes, starts_with, ends_with}
use qstream.Names.{has_name}
use qstream.Fault.Injector.{drain}
use qstream.Protocol.Types.{Message}
use qstream.Transfer.Timing.{Settings}
use qstream.Transfer.Manifest.{parse_manifest}
use qstream.Transfer.Receiver.{World}
use qstream.Transfer.Registry.{RegEvent, TransferRegistry, drain_events}
use qstream.Transfer.Registry
use qstream.Transfer.Registry.Tick
use qstream.Transfer.Registry.Availability.{segment_availability}
use qstream.Node.Addr.{lookup, at_entry, keys}
use qstream.Node.Stats.{ServeResult, record_serve}
use qstream.Node.State.{Node, PeerInfo, Role, node_send, new_path, ping_interval, beacon_interval}
use qstream.Node.Seeding.{is_master, prune_origin_seeders}
use qstream.Node.Handle.{with_transfers, manifest_bytes}

-- The name under which a peer is booked: its own, or its address as `show` writes it.
unfoldable pub booked_name : (SocketAddr → List ℕ) → Node → SocketAddr → List ℕ
booked_name show n a = Option.get_or (Option.map (λ info. info.name) (lookup a n.peers)) (show a)

-- One outcome of a serve becomes an entry of the book.
unfoldable pub record_event : (SocketAddr → List ℕ) → Node → RegEvent → ℕ → Node
unfolding booked_name
record_event show n (RegEvent.served src bytes) now = record n {
  book = record_serve n.book src (booked_name show n src) ServeResult.served bytes now;
}
record_event show n (RegEvent.not_found src) now = record n {
  book = record_serve n.book src (booked_name show n src) ServeResult.not_found 0 now;
}
record_event show n (RegEvent.sender_failed src) now = record n {
  book = record_serve n.book src (booked_name show n src) ServeResult.sender_failed 0 now;
}

unfoldable pub record_events : (SocketAddr → List ℕ) → Node → List RegEvent → ℕ → Node
unfolding record_event
record_events show n [] now = n
record_events show n (e ∷ es) now = record_events show (record_event show n e now) es now

-- The outcomes are taken from the registry.
unfoldable pub book_events : (SocketAddr → List ℕ) → Node → ℕ → Node
unfolding record_events
book_events show n now =
    let (r, events) = drain_events n.registry in
    record_events show (record n { registry = r }) events now

-- A PING to an address, with an entry for its path.
unfoldable pub ping_one : Node → SocketAddr → ℕ → Node
unfolding node_send
ping_one n a now =
    let sent = node_send n (Message.ping n.beacon_nonce n.name) a now in
    record sent { paths = at_entry a (new_path now) (λ p. p) sent.paths }

unfoldable pub ping_all : Node → List SocketAddr → ℕ → Node
unfolding ping_one
ping_all n [] now = n
ping_all n (a ∷ rest) now = ping_all (ping_one n a now) rest now

unfoldable pub port_of : SocketAddr → ℕ
port_of (v4 a b c d port) = port
port_of (SocketAddr.v6 octets port flow scope) = port

unfoldable pub ping_peers : Node → ℕ → Node
unfolding ping_all
ping_peers n now =
    if leb n.next_ping now
    then ping_all (record n { next_ping = now + ping_interval }) (keys n.peers) now
    else n

unfoldable pub beacon : Node → ℕ → Node
unfolding port_of node_send
beacon n now =
    if not (is_master n.role) && leb n.next_beacon now
    then node_send (record n { next_beacon = now + beacon_interval })
        (Message.ping n.beacon_nonce n.name) (v4 255 255 255 255 (port_of n.local_addr)) now
    else n

-- `ping_cycle`.
unfoldable pub ping_cycle : Node → ℕ → Node
unfolding ping_peers beacon
ping_cycle n now = beacon (ping_peers n now) now

unfoldable pub announce_all : Node → Message → List SocketAddr → ℕ → Node
announce_all n m [] now = n
announce_all n m (a ∷ rest) now = announce_all (node_send n m a now) m rest now

-- `announce_availability`.
unfoldable pub announce_availability : Node → Option (List (List ℕ)) → ℕ → Node
unfolding announce_all
announce_availability n names now =
    announce_all n (Message.pong (segment_availability names)) (keys n.peers) now

-- An entry of the directory: its name, and its age if the system knows one.
abbrev pub DirEntry : Type 0
DirEntry = List ℕ × Option ℕ

-- A segment, or a file that is still written.
unfoldable pub is_prunable : List ℕ → Bool
unfolding starts_with ends_with
is_prunable name =
    (starts_with (codes "seg_") name && ends_with (codes ".ts") name)
    || ends_with (codes ".tmp") name

unfoldable pub old_enough : Option ℕ → ℕ → Bool
old_enough none retention = false
old_enough (some age) retention = leb retention age

-- The loop of `prune_segments`; `can_remove` says which removals the system grants.
unfoldable pub prune_entries :
    List (List ℕ) → ℕ → (List ℕ → Bool) → List DirEntry → Disk → Disk × Bool
unfolding is_prunable old_enough remove_file
prune_entries playlist retention can_remove [] d = (d, false)
prune_entries playlist retention can_remove ((name, age) ∷ rest) d =
    let gone =
      is_prunable name
      && not (has_name name playlist)
      && old_enough age retention
      && can_remove name in
    let (d', removed) =
      prune_entries playlist retention can_remove rest (if gone then remove_file d name else d) in
    (d', gone || removed)

unfoldable pub with_disk : Node → Disk → Node
with_disk n d = record n { world = record (n.world) { disk = d } }

-- `prune_segments`; `entries` is what `fs::read_dir` lists.
unfoldable pub prune_segments : Node → Option (List DirEntry) → (List ℕ → Bool) → ℕ → Node × Bool
unfolding prune_entries with_disk
prune_segments n entries can_remove now =
    if n.retention_secs == 0 || ltb now n.next_prune then (n, false) else elim entries [
      | none ↦ (record n { next_prune = now + secs 30 }, false)
      | some listed ↦
          let (d, removed) =
            prune_entries (parse_manifest (manifest_bytes n)) (secs n.retention_secs) can_remove
              listed n.world.disk in
          (with_disk (record n { next_prune = now + secs 30 }) d, removed)
    ]

-- What the system tells a tick: the directory before, and the names that are left after pruning.
pub record Surroundings : Type 0 where
  pub entries : Option (List DirEntry)
  pub can_remove : List ℕ → Bool
  pub names : Option (List (List ℕ))
  pub show : SocketAddr → List ℕ

unfoldable pub prune_and_tell : Surroundings → Node → ℕ → Node
unfolding prune_segments announce_availability
prune_and_tell s n now =
    let (pruned, changed) = prune_segments n s.entries s.can_remove now in
    if changed then announce_availability pruned s.names now else pruned

-- The part of `tick` behind the transfers: what is due leaves the injector first.
unfoldable pub after_transfers : Surroundings → Node → ℕ → Node
unfolding book_events ping_cycle prune_origin_seeders prune_and_tell
after_transfers s n now =
    let drained = record n { world = record (n.world) { link = drain n.world.link now } } in
    prune_and_tell s (prune_origin_seeders (ping_cycle (book_events s.show drained now) now)) now

-- `tick`; `none` is a panic.
unfoldable pub tick : Settings → Surroundings → Node → ℕ → Option Node
unfolding after_transfers with_transfers
tick c s n now =
    Option.map (λ t. after_transfers s (with_transfers n t) now)
      (qstream.Transfer.Registry.Tick.tick c n.registry n.world now)
