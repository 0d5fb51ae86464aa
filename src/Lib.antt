-- ===== src/Lib.antt =====
-- qstream: a swarm that hands a live video stream on over UDP. A node decodes datagrams
-- (src/protocol.rs), serves and pulls segments (src/transfer.rs), keeps book on its peers
-- (src/node.rs), and sends every datagram through an injector of faults (src/fault.rs). Paths are
-- from the repository's root.
--
-- Which file models what:
-- - Base, with Base.Lists, Base.Results, Base.Tests and Base.Bits: shared types and lemmas.
-- - Net: `SocketAddr` and the big-endian integers. Clock: `Instant` and `Duration`. Disk:
--   `fs::write` and `fs::rename` on a directory; a write that fails may leave anything of the file
--   that it writes.
-- - Protocol: src/protocol.rs. Protocol.Types has the messages and errors, Protocol.Encode
--   `encode`, Protocol.Decode `decode`, Protocol.Utf8 the check of `String::from_utf8`;
--   Protocol.Valid says what the types and the wire can hold, and how a message arrives.
-- - Fault: src/fault.rs. Fault.Rng is `Rng`, Fault.Injector is `FaultInjector` with the socket.
-- - Transfer: src/transfer.rs. Transfer.Timing has the constants and timers, Transfer.Packets
--   `packet_count`, `valid_filename` and the cutting of a file, Transfer.Sender `SenderTransfer`,
--   Transfer.Receiver `ReceiverTransfer` (its `on_tick` in Transfer.Receiver.Timer, the body of
--   `complete` in Transfer.Assembly), Transfer.Registry `TransferRegistry` (its `tick` in
--   Transfer.Registry.Tick, `segment_availability` in Transfer.Registry.Availability) over the
--   tables of Transfer.Table.
-- - Names: sets and tables of file names. Text: operations of std on texts. Transfer.Manifest:
--   `parse_manifest` of src/transfer.rs.
-- - Node: src/node.rs. Node.State has the struct `Node`, its peers and its sending, Node.Handle the
--   dispatch of a datagram, Node.Tick what is due, Node.Seeding the leases of origin seeders,
--   Node.Peerlist the answer to PEERLIST_REQUEST, Node.Stats `PeerStat`, `record_pull` and
--   `record_serve`, Node.Inventory the known and the missing segments, Node.Paths the `PathState`s,
--   Node.Public the address ranges, Node.Addr and Node.Among the tables over addresses. Node.Run is
--   the sequence of calls that an event loop makes.
-- - Http: part of src/http.rs. Http.Playlist has `playback_playlist` and `filter_playlist`.
-- - Peer: src/peer.rs. Peer.Files writes the manifest and the player's playlist, Peer.Queue is
--   `sync_queue`, Peer.Sources `pick_peer`, Peer.Jobs and Peer.Schedule are the two parts of
--   `schedule_jobs`, Peer.Session the reactions of `run` to the events of its node
--   (Peer.Session.Requests says what a peer list may lead to), and Peer.Loop a round of its loop,
--   which hands on a node (Node.Handle, Node.Tick) and its registry of transfers.
-- - Node.Sample is a node for the tests, which stand in the modules named Tests.
--
-- How the state corresponds: a struct is a record with its fields, an enum a data type. A handler
-- takes the state and returns the new one; what it sends goes through the `Link`, the pair of
-- injector and socket, whose `sent` is the list of datagrams that the system has taken. A panic is
-- `none`. A `HashMap` is the list of its entries. Bytes, ports and counters are native numbers,
-- with the wrap-around written out, as a release build computes them; a `String` is the list of its
-- UTF-8 bytes, and the text of an error is an enumeration. Times are in nanoseconds, and each
-- handler reads the clock once: the instant is an argument. What the operating system decides is a
-- parameter: whether a socket takes a datagram, whether a write, a rename or a removal succeeds and
-- what a failed write leaves, which names and ages a directory lists, which numbers `random_id`
-- draws. So are the arithmetic of `f64` (the record `Float`), `String::from_utf8_lossy` and the
-- text of an address. A peer downloads into the directory that it serves from.
--
-- Bounds and fuel: no definition of the program runs on fuel, but for the decimal digits of a
-- `u64`, of which there are twenty at most; the loops run over lists or over counts that the code
-- computes. The loop that fills free slots runs over the queue, which each round shortens.
-- `wait_loop` counts the ticks of an event loop in which no datagram comes in; 31 * (count + 1)
-- ticks are enough for a sender to give up. Where the numbers that `random_id` draws for a download
-- are all taken, the code draws on, and the model starts no download.
--
-- Not modelled: of src/node.rs, the statistics and the ranking that `tick` publishes, which are
-- texts, and `Node::new`, which reads the environment; of src/peer.rs, the start of `run` (socket,
-- threads, UPnP) and the timeout that it sets on the socket; of src/http.rs, the server around the
-- playlists; src/upnp.rs, src/log.rs, src/server.rs and src/main.rs; of src/transfer.rs, getters of
-- one field; of src/fault.rs, the reading of the environment and the summary line; the texts of
-- errors and of the log.
pub mod Base
pub mod Net
pub mod Clock
pub mod Disk
pub mod Names
pub mod Text
pub mod Fault
pub mod Protocol
pub mod Transfer
pub mod Node
pub mod Http
pub mod Peer
