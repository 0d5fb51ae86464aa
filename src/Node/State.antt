-- ===== src/Node/State.antt =====
-- `Node` of src/node.rs: its state, and how it keeps its peers. The texts that it publishes are left out.
use qstream.Base.{ℕ, false, not, leb, ltb, ◌&&◌, if◌then◌else◌, Option, none, some, List, [], ◌∷◌}
use qstream.Net.{SocketAddr}
use qstream.Clock.{secs, duration_since}
use qstream.Disk.{bytes_eq}
use qstream.Protocol.Types.{Message}
use qstream.Protocol.Encode.{encode}
use qstream.Fault.Injector.{Link, send}
use qstream.Fault.Injector
use qstream.Transfer.Receiver.{World}
use qstream.Transfer.Registry.{TransferRegistry}
use qstream.Transfer.Registry
use qstream.Node.Addr.{lookup, at_entry, change, same_addr}
use qstream.Node.Paths.{PathState, is_lan_path}
use qstream.Node.Stats.{Book, new_stat}
use qstream.Node.Inventory.{Knowledge}

pub record PeerInfo : Type 0 where
  pub name : List ℕ
  pub last_seen : ℕ

pub data Role : Type 0 where
  master peer : Role

-- `registry` and the pair `fault`, `socket` of the `World` are the transfers; `manifest_path` is a name
-- in the same directory.
pub record Node : Type 0 where
  pub name : List ℕ
  pub role : Role
  pub manifest_path : List ℕ
  pub registry : TransferRegistry
  pub world : World
  pub peers : List (SocketAddr × PeerInfo)
  pub book : Book
  pub my_public : Option SocketAddr
  pub claimed : Option SocketAddr
  pub beacon_nonce : ℕ
  pub claims : List (SocketAddr × SocketAddr)
  pub paths : List (SocketAddr × PathState)
  pub knowledge : Knowledge
  pub origin_seeders : List (List ℕ × List SocketAddr)
  pub origin_seed_assignments : ℕ
  pub origin_seed_denials : ℕ
  pub local_addr : SocketAddr
  pub next_ping : ℕ
  pub next_beacon : ℕ
  pub retention_secs : ℕ
  pub next_prune : ℕ

-- `Node::send` of an encoded message.
unfoldable pub node_send : Node → Message → SocketAddr → ℕ → Node
node_send n m dst now = record n {
  world = record (n.world) { link = send n.world.link (encode m, dst) now };
}

-- `set_claimed`.
unfoldable pub set_claimed : Node → SocketAddr → Node
set_claimed n addr = record n { claimed = some addr }

abbrev pub new_path : ℕ → PathState
new_path now = record { last_ping = now; last_pong = none; lan = false }

-- `register_peer`.
unfoldable pub register_peer : Node → SocketAddr → List ℕ → ℕ → Node
register_peer n addr name now = record n {
  peers =
      at_entry addr (record { name = name; last_seen = now })
        (λ info. record { name = name; last_seen = now }) n.peers;
  book = record (n.book) {
    peer_stats = at_entry addr (new_stat name now) (λ s. s) n.book.peer_stats;
  };
  paths = at_entry addr (new_path now) (λ p. p) n.paths;
}

-- `touch_peer`.
unfoldable pub touch_peer : Node → SocketAddr → ℕ → Node
touch_peer n addr now = record n {
  peers = change addr (λ info. record info { last_seen = now }) n.peers;
  book = record (n.book) {
    peer_stats = change addr (λ s. record s { last_seen = now }) n.book.peer_stats;
  };
}

-- The peers that `prune_peers` finds stale are removed; addresses are distinct, so this is a filter.
unfoldable pub without_stale : ℕ → ℕ → List (SocketAddr × PeerInfo) → List (SocketAddr × PeerInfo)
without_stale ttl now [] = []
without_stale ttl now ((a, info) ∷ xs) =
    let rest = without_stale ttl now xs in
    if leb ttl (duration_since now info.last_seen) then rest else (a, info) ∷ rest

-- `prune_peers`.
unfoldable pub prune_peers : Node → ℕ → ℕ → Node
prune_peers n ttl now = record n { peers = without_stale ttl now n.peers }

-- The loop of `effective_addr`: a LAN path of another peer of the same name.
unfoldable pub lan_twin :
    List (SocketAddr × PathState) → List ℕ → SocketAddr → List (SocketAddr × PeerInfo) → SocketAddr
lan_twin paths name addr [] = addr
lan_twin paths name addr ((a, info) ∷ xs) =
    let rest = lan_twin paths name addr xs in
    if bytes_eq info.name name && not (same_addr a addr) && is_lan_path paths a then a else rest

-- `effective_addr`.
unfoldable pub effective_addr : Node → SocketAddr → SocketAddr
effective_addr n addr = elim (lookup addr n.peers) [
  | none ↦ addr
  | some info ↦ lan_twin n.paths info.name addr n.peers
]

unfoldable pub earlier : Option ℕ → Option ℕ → Option ℕ
earlier none b = b
earlier (some a) none = some a
earlier (some a) (some b) = some (if ltb b a then b else a)

-- `next_deadline`.
unfoldable pub node_deadline : Node → ℕ → Option ℕ
node_deadline n now =
    earlier (Registry.next_deadline n.registry) (Injector.next_deadline n.world.link.fault now)

-- `PING_INTERVAL` and `BEACON_INTERVAL`.
abbrev pub ping_interval : ℕ
ping_interval = secs 10

abbrev pub beacon_interval : ℕ
beacon_interval = secs 5
