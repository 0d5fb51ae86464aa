-- ===== src/Node/Handle.antt =====
-- `handle` of src/node.rs: what a node does with a datagram. `names` is what `fs::read_dir` lists of the
-- segment root, and `limit` the number of origin seeders that the environment sets.
pub mod Peers
use qstream.Base.{
  ℕ, Bool, true, not, ◌==◌, ◌&&◌, ◌||◌, if◌then◌else◌, Option, some, List, [], ◌∷◌, length, ok, err,
}
use mathlib.Core.Option
use qstream.Net.{SocketAddr}
use qstream.Protocol.Types.{Message, AckType, SegmentAvailability}
use qstream.Protocol.Decode.{decode}
use qstream.Transfer.Timing.{Settings}
use qstream.Transfer.Receiver.{World}
use qstream.Transfer.Registry.{
  TransferRegistry, serve, reject_not_found, on_content, on_ack, on_not_found,
}
use qstream.Transfer.Registry.Availability.{segment_availability}
use qstream.Node.Addr.{same_addr, store, has_addr, change}
use qstream.Node.Public.{is_lan_source}
use qstream.Node.Paths.{PathState, record_pong}
use qstream.Node.Inventory.{Knowledge, record_availability, record_missing}
use qstream.Node.State.{Node, node_send, register_peer, touch_peer}
use qstream.Node.Seeding.{origin_seed_allowed}
use qstream.Node.Peerlist.{advertised}

-- What the caller may react to.
pub data Event : Type 0 where
  handshake_response : (src : SocketAddr) (name : List ℕ) → Event
  manifest_response : (bytes : List ℕ) → Event
  peerlist_response : (peers : List (SocketAddr × ℕ)) → Event
  none : Event

-- A handshake: the peer is registered, its claim kept, and its address answered.
unfoldable pub on_handshake : Node → SocketAddr → SocketAddr → List ℕ → ℕ → Node
unfolding register_peer node_send
on_handshake n src claimed name now =
    let registered = register_peer n src name now in
    node_send (record registered { claims = store src claimed registered.claims })
      (Message.handshake_response src n.name) src now

-- The first PING of a named peer; from a private or loopback address it is a LAN beacon.
unfoldable pub first_contact : Node → SocketAddr → List ℕ → ℕ → Node
unfolding register_peer
first_contact n src name now =
    let registered = register_peer n src name now in
    if is_lan_source src
    then record registered { paths = change src (λ p. record p { lan = true }) registered.paths }
    else registered

-- A PING, unless it is the node's own beacon or comes from its own address.
unfoldable pub on_ping : Node → Option (List (List ℕ)) → SocketAddr → ℕ → List ℕ → ℕ → Node
unfolding first_contact node_send
on_ping n names src nonce name now =
    let met =
      if not (has_addr src n.peers) && not (length name == 0)
      then first_contact n src name now
      else n in
    if nonce == n.beacon_nonce || same_addr src n.local_addr
    then n
    else node_send met (Message.pong (segment_availability names)) src now

-- `if let Some(availability) = availability { self.record_availability(src, availability) }`.
unfoldable pub told : Knowledge → SocketAddr → Option SegmentAvailability → ℕ → Knowledge
told k src Option.none now = k
told k src (some v) now = record_availability k src v now

unfoldable pub on_pong : Node → SocketAddr → Option SegmentAvailability → ℕ → Node
unfolding told
on_pong n src availability now = record n {
  paths = record_pong n.paths src now;
  knowledge = told n.knowledge src availability now;
}

-- The registry and what it acts on, after one of its operations.
unfoldable pub with_transfers : Node → TransferRegistry × World → Node
with_transfers n (r, w) = record n { registry = r; world = w }

-- A request that the origin declines is refused for now: another peer has the segment.
unfoldable pub on_segment_request :
    Node → Option (List (List ℕ)) → ℕ → ℕ → List ℕ → SocketAddr → ℕ → Node
unfolding with_transfers
on_segment_request n names limit id filename src now =
    let (asked, allowed) = origin_seed_allowed n filename src limit now in
    let (r, l) =
      if allowed
      then serve asked.registry asked.world names id filename src now
      else reject_not_found asked.registry asked.world.link names id src true now in
    with_transfers asked (r, record (asked.world) { link = l })

-- What a refused download says of the peer: a segment that will not come is missing there.
unfoldable pub missing_there : Knowledge → SocketAddr → Option (List ℕ × Bool) → ℕ → Knowledge
missing_there k src Option.none now = k
missing_there k src (some (filename, retryable)) now =
    if retryable then k else record_missing k src filename now

unfoldable pub on_segment_not_found :
    Node → ℕ → Option SegmentAvailability → Bool → SocketAddr → ℕ → Node
unfolding told missing_there
on_segment_not_found n id availability retryable src now =
    let (r, refused) = on_not_found n.registry id retryable now in
    record n {
      registry = r;
      knowledge = missing_there (told n.knowledge src availability now) src refused now;
    }

-- The bytes of the manifest, read again each time.
unfoldable pub manifest_bytes : Node → List ℕ
manifest_bytes n = Option.get_or (n.world.disk.files n.manifest_path) []

-- The `match` of `handle`.
unfoldable pub handle_message :
    Settings → Option (List (List ℕ)) → ℕ → Node → Message → SocketAddr → ℕ → Node × Event
unfolding on_handshake on_ping on_pong with_transfers on_segment_request on_segment_not_found
    manifest_bytes node_send
handle_message c names limit n (Message.handshake_request claimed name) src now =
    (on_handshake n src claimed name now, Event.none)
handle_message c names limit n (Message.handshake_response observed name) src now =
    (record n { my_public = some observed }, Event.handshake_response src name)
handle_message c names limit n (Message.ping nonce name) src now =
    (on_ping n names src nonce name now, Event.none)
handle_message c names limit n (Message.pong availability) src now =
    (on_pong n src availability now, Event.none)
handle_message c names limit n Message.manifest_request src now =
    (node_send n (Message.manifest_response (manifest_bytes n)) src now, Event.none)
handle_message c names limit n (Message.manifest_response bytes) src now =
    (n, Event.manifest_response bytes)
handle_message c names limit n Message.peerlist_request src now =
    (node_send n (Message.peerlist_response (advertised n src)) src now, Event.none)
handle_message c names limit n (Message.peerlist_response peers) src now =
    (n, Event.peerlist_response peers)
handle_message c names limit n (Message.segment_request id filename) src now =
    (on_segment_request n names limit id filename src now, Event.none)
handle_message c names limit n (Message.segment_contents id packet_number total bytes) src now = (
  with_transfers n (on_content c n.registry n.world id packet_number total bytes now),
  Event.none,
)
handle_message c names limit n (Message.segment_not_found id availability retryable) src now =
    (on_segment_not_found n id availability retryable src now, Event.none)
handle_message c names limit n (Message.ack id ack_type next_start next_count) src now =
    (record n { registry = on_ack c n.registry id ack_type next_start next_count now }, Event.none)

-- `handle`: a datagram that does not decode is dropped.
unfoldable pub handle :
    Settings → Option (List (List ℕ)) → ℕ → Node → List ℕ → SocketAddr → ℕ → Node × Event
unfolding handle_message touch_peer
handle c names limit n datagram src now = elim (decode datagram) [
  | err e ↦ (n, Event.none)
  | ok m ↦ handle_message c names limit (touch_peer n src now) m src now
]
