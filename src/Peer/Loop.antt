-- ===== src/Peer/Loop.antt =====
-- The loop of `run` of src/peer.rs: a datagram or none, then what is due, then the downloads.
pub mod Safety
use qstream.Base.{
  ℕ, ◌+◌, ◌*◌, ◌%◌, Bool, true, false, not, leb, ◌&&◌, if◌then◌else◌, Option, none, some, List, [],
  ◌∷◌, Result, ok, err, ◌>>=◌,
}
use qstream.Net.{SocketAddr}
use qstream.Clock.{ms, secs}
use qstream.Fault.Rng.{next}
use qstream.Protocol.Types.{Message}
use qstream.Transfer.Timing.{Settings}
use qstream.Node.Addr.{drop_addr}
use qstream.Node.State.{Node, PeerInfo, node_send, prune_peers}
use qstream.Node.Handle.{handle}
use qstream.Node.Tick.{Surroundings, tick}
use qstream.Peer.Sources.{Float}
use qstream.Peer.Jobs.{Scheduler, Outside}
use qstream.Peer.Schedule.{schedule_jobs, with_rng}
use qstream.Peer.Session.{
  Session, Halt, io_error, panicked, handshake_timeout, handshake_request, on_event,
}

abbrev pub manifest_poll_interval : ℕ
manifest_poll_interval = secs 2

abbrev pub poll_jitter_ms : ℕ
poll_jitter_ms = 1000

abbrev pub manifest_response_timeout : ℕ
manifest_response_timeout = secs 3

abbrev pub peerlist_poll_interval : ℕ
peerlist_poll_interval = secs 5

abbrev pub peer_ttl : ℕ
peer_ttl = secs 600

-- What `recv_from` gives.
pub data Received : Type 0 where
  datagram : (bytes : List ℕ) (src : SocketAddr) → Received
  timed_out : Received
  failed : Received

-- What a round is told: `at` is when the datagram comes, and `now` when the timers are read.
pub record Round : Type 0 where
  pub received : Received
  pub at : ℕ
  pub now : ℕ
  pub limit : ℕ
  pub outside : Outside
  pub surroundings : Surroundings

abbrev pub with_node : Session → Node → Session
with_node s n = record s { node = n }

-- `recv_from`, `handle` and what follows from the event.
unfoldable pub receive : Settings → Session → Round → Received → Result Halt Session
receive c s r (datagram bytes src) =
    let (n, event) = handle c r.outside.names r.limit s.node bytes src r.at in
    on_event r.outside (with_node s n) event r.at
receive c s r timed_out = ok s
receive c s r failed = err io_error

-- `node.tick(now); node.prune_peers(PEER_TTL, now)`.
unfoldable pub tick_node : Settings → Round → Session → Option Node → Result Halt Session
tick_node c r s none = err panicked
tick_node c r s (some n) = ok (with_node s (prune_peers n peer_ttl r.now))

unfoldable pub retry_handshake : Round → Session → Session
retry_handshake r s =
    if not s.handshake_done && leb s.next_handshake_retry r.now
    then record s {
      node = node_send s.node (handshake_request s.node) r.outside.bootstrap r.now;
      next_handshake_retry = r.now + handshake_timeout;
    }
    else s

-- `pending_handshakes.retain`: who has not answered is forgotten as a peer, too.
unfoldable pub still_pending : ℕ → List (SocketAddr × ℕ) → List (SocketAddr × ℕ)
still_pending now [] = []
still_pending now ((p, deadline) ∷ rest) =
    let others = still_pending now rest in
    if leb deadline now then others else (p, deadline) ∷ others

unfoldable pub forget_silent :
    ℕ → List (SocketAddr × ℕ) → List (SocketAddr × PeerInfo) → List (SocketAddr × PeerInfo)
forget_silent now [] peers = peers
forget_silent now ((p, deadline) ∷ rest) peers =
    forget_silent now rest (if leb deadline now then drop_addr p peers else peers)

unfoldable pub expire_handshakes : Round → Session → Session
unfolding still_pending forget_silent
expire_handshakes r s = record s {
  node = record (s.node) { peers = forget_silent r.now s.pending_handshakes s.node.peers };
  pending_handshakes = still_pending r.now s.pending_handshakes;
}

-- The manifest is asked for, with a staggered next time.
unfoldable pub poll_manifest : Round → Session → Session
poll_manifest r s =
    let (word, rng) = next s.scheduler.rng in
    if leb s.next_poll r.now
    then record s {
      node = node_send s.node Message.manifest_request r.outside.bootstrap r.now;
      scheduler = with_rng s.scheduler rng;
      next_poll = r.now + manifest_poll_interval + ms (word % poll_jitter_ms);
      poll_timeout = some (r.now + manifest_response_timeout);
    }
    else s

unfoldable pub is_past : Option ℕ → ℕ → Bool
is_past none now = false
is_past (some t) now = leb t now

unfoldable pub expire_poll : Round → Session → Session
unfolding is_past
expire_poll r s = if is_past s.poll_timeout r.now then record s { poll_timeout = none } else s

unfoldable pub poll_peerlist : Round → Session → Session
poll_peerlist r s =
    let (word, rng) = next s.scheduler.rng in
    if leb s.next_peerlist r.now
    then record s {
      node = node_send s.node Message.peerlist_request r.outside.bootstrap r.now;
      scheduler = with_rng s.scheduler rng;
      next_peerlist = r.now + peerlist_poll_interval + ms (word % (2 * poll_jitter_ms));
    }
    else s

unfoldable pub schedule : Settings → Float → Round → Session → Session
schedule c fl r s =
    let (n, jobs) = schedule_jobs c fl r.outside s.node s.scheduler r.now in
    record s { node = n; scheduler = jobs }

-- What is due after the tick.
unfoldable pub timers : Settings → Float → Round → Session → Session
unfolding retry_handshake expire_handshakes poll_manifest expire_poll poll_peerlist schedule
timers c fl r s =
    schedule c fl r (
      poll_peerlist r (expire_poll r (poll_manifest r (expire_handshakes r (retry_handshake r s)))))

-- One round of the loop.
unfoldable pub round : Settings → Float → Session → Round → Result Halt Session
unfolding receive tick_node timers
round c fl s r = do
  heard ← receive c s r r.received
  ticked ← tick_node c r heard (tick c r.surroundings heard.node r.now)
  ok (timers c fl r ticked)

unfoldable pub rounds : Settings → Float → Session → List Round → Result Halt Session
unfolding round
rounds c fl s [] = ok s
rounds c fl s (r ∷ rest) = do s' ← round c fl s r; rounds c fl s' rest
