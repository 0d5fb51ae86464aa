-- ===== src/Peer/Session.antt =====
-- What `run` of src/peer.rs does with the events of its node.
pub mod Requests
pub mod Discovery
use qstream.Base.{
  ℕ, ◌+◌, Bool, true, false, not, ◌==◌, ◌&&◌, ◌||◌, if◌then◌else◌, Option, none, some, List, [],
  ◌∷◌, length, bit_and, Result, ok, err,
}
use mathlib.Core.Option
use qstream.Net.{SocketAddr, v4}
use qstream.Clock.{secs}
use qstream.Disk.{Disk}
use qstream.Protocol.Types.{Message}
use qstream.Node.Addr.{same_addr, has_addr, drop_addr, store, add}
use qstream.Node.Public.{remote_public}
use qstream.Node.State.{Node, node_send, register_peer}
use qstream.Node.Peerlist.{peer_same_ip, peer_parent}
use qstream.Node.Handle.{Event, handshake_response, manifest_response, peerlist_response}
use qstream.Node.Tick.{port_of, with_disk}
use qstream.Peer.Files.{write_manifest, refresh_playback_manifest}
use qstream.Peer.Queue.{Wanted, sync_queue}
use qstream.Peer.Sources.{History}
use qstream.Peer.Jobs.{Scheduler, Outside}

-- The variables of `run`; `pending_handshakes` has the deadline of each address.
pub record Session : Type 0 where
  pub node : Node
  pub scheduler : Scheduler
  pub handshake_done : Bool
  pub next_handshake_retry : ℕ
  pub poll_timeout : Option ℕ
  pub pending_handshakes : List (SocketAddr × ℕ)
  pub next_poll : ℕ
  pub next_peerlist : ℕ

-- How `run` ends: by an error of the system, or by a panic.
pub data Halt : Type 0 where
  io_error panicked : Halt

abbrev pub handshake_timeout : ℕ
handshake_timeout = secs 3

-- The request that `run` sends to the bootstrap node and to the peers that it discovers.
unfoldable pub handshake_request : Node → Message
handshake_request n = Message.handshake_request (Option.get_or n.claimed (v4 0 0 0 0 0)) n.name

unfoldable pub on_handshake_response : Outside → Session → SocketAddr → List ℕ → ℕ → Session
on_handshake_response o s src name now =
    let first = same_addr src o.bootstrap && not s.handshake_done in
    record s {
      node = register_peer s.node src name now;
      handshake_done = s.handshake_done || first;
      next_poll = if first then now else s.next_poll;
      next_peerlist = if first then now else s.next_peerlist;
      pending_handshakes = drop_addr src s.pending_handshakes;
    }

-- A new manifest is in the directory: the queue follows it, and the player's playlist.
unfoldable pub on_new_manifest : Outside → Session → Disk → List ℕ → ℕ → Result Halt Session
on_new_manifest o s d bytes now =
    let (d', written) = refresh_playback_manifest o.lossy d o.can_remove o.playback_holdback in
    let wanted = sync_queue d bytes s.scheduler.wanted s.scheduler.failed_at now in
    if written
    then ok (record s {
      node = with_disk s.node d';
      scheduler = record (s.scheduler) { wanted = wanted };
      poll_timeout = none;
    })
    else err io_error

unfoldable pub on_manifest_written :
    Outside → Session → Disk → Option Bool → List ℕ → ℕ → Result Halt Session
unfolding on_new_manifest
on_manifest_written o s d none bytes now = err io_error
on_manifest_written o s d (some false) bytes now =
    ok (record s { node = with_disk s.node d; poll_timeout = none })
on_manifest_written o s d (some true) bytes now = on_new_manifest o s d bytes now

-- An empty manifest leaves the copy that the peer has.
unfoldable pub on_manifest_response : Outside → Session → List ℕ → ℕ → Result Halt Session
unfolding on_manifest_written
on_manifest_response o s bytes now =
    let (d, outcome) = write_manifest s.node.world.disk bytes in
    if length bytes == 0
    then ok (record s { poll_timeout = none })
    else on_manifest_written o s d outcome bytes now

-- `node.my_public.map(remote_public).unwrap_or(false)`.
unfoldable pub is_remote : Option SocketAddr → Bool
is_remote none = false
is_remote (some a) = remote_public a

-- The tests that pass over an entry of a peer list.
unfoldable pub is_contactable : Outside → Node → SocketAddr → ℕ → Bool
unfolding is_remote port_of
is_contactable o n peer flags =
    not (same_addr peer o.local_addr || port_of peer == 0)
    && not (is_remote n.my_public && not (remote_public peer))
    && not (not (bit_and flags peer_same_ip == 0) && is_remote n.my_public)

unfoldable pub note_parent : Scheduler → SocketAddr → ℕ → Scheduler
note_parent s peer flags =
    if bit_and flags peer_parent == 0
    then s
    else record s { history = record (s.history) { parents = add peer s.history.parents } }

-- A handshake with a peer that is neither known nor asked.
unfoldable pub discover : Session → SocketAddr → ℕ → Session
unfolding handshake_request node_send
discover s peer now =
    if has_addr peer s.node.peers || has_addr peer s.pending_handshakes then s else record s {
      pending_handshakes = store peer (now + handshake_timeout) s.pending_handshakes;
      node = node_send s.node (handshake_request s.node) peer now;
    }

unfoldable pub on_entry : Outside → Session → SocketAddr × ℕ → ℕ → Session
unfolding note_parent discover
on_entry o s (peer, flags) now =
    if is_contactable o s.node peer flags
    then discover (record s { scheduler = note_parent s.scheduler peer flags }) peer now
    else s

unfoldable pub on_entries : Outside → Session → List (SocketAddr × ℕ) → ℕ → Session
unfolding on_entry
on_entries o s [] now = s
on_entries o s (e ∷ rest) now = on_entries o (on_entry o s e now) rest now

abbrev pub without_parents : Session → Session
without_parents s = record s {
  scheduler = record (s.scheduler) { history = record (s.scheduler.history) { parents = [] } };
}

unfoldable pub on_peerlist_response : Outside → Session → List (SocketAddr × ℕ) → ℕ → Session
unfolding on_entries
on_peerlist_response o s peers now = on_entries o (without_parents s) peers now

-- The `match` on the event.
unfoldable pub on_event : Outside → Session → Event → ℕ → Result Halt Session
unfolding on_handshake_response on_manifest_response on_peerlist_response
on_event o s (handshake_response src name) now = ok (on_handshake_response o s src name now)
on_event o s (manifest_response bytes) now = on_manifest_response o s bytes now
on_event o s (peerlist_response peers) now = ok (on_peerlist_response o s peers now)
on_event o s Event.none now = ok s
