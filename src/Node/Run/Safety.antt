-- ===== src/Node/Run/Safety.antt =====
-- The node of src/node.rs does not panic, and stays healthy, in every run.
use qstream.Base.{
  ℕ, ◌≡◌, refl, ◌+◌, ◌∙◌, Bool, inl, inr, Bool-cases, Option, none, some, List, [], ◌∷◌, arith,
}
use qstream.Net.{SocketAddr}
use qstream.Protocol.Types.{Message}
use qstream.Fault.Injector.{drain}
use qstream.Transfer.Timing.{Settings}
use qstream.Transfer.Registry.{RegEvent, drain_events}
use qstream.Transfer.Registry.Availability.{segment_availability}
use qstream.Transfer.Registry.Kept.{
  tick-IsSafe, begun-start_receiver-IsSafe, remove_receiver-IsSafe, drain_events-IsSafe,
}
use qstream.Node.Addr.{keys}
use qstream.Node.Stats.{ServeResult}
use qstream.Node.Stats.Totals.{enter-IsBalanced, Entry, enter}
use qstream.Node.State.{Node, node_send, ping_interval}
use qstream.Node.Seeding.{prune_origin_seeders}
use qstream.Node.Safety.{IsHealthy, Keeps, Keeps-IsHealthy, handle-IsHealthy}
use qstream.Node.Handle.{with_transfers}
use qstream.Node.Tick.{
  booked_name, record_event, record_events, book_events, ping_one, DirEntry, ping_all, ping_peers,
  beacon, ping_cycle, announce_all, announce_availability, prune_segments, Surroundings,
  prune_and_tell, after_transfers, tick,
}
use qstream.Node.Run.{Step, received, ticked, started, pulled, dropped, step, run}

record_event-IsHealthy :
    (show : SocketAddr → List ℕ) (n : Node) (e : RegEvent) (now : ℕ)
    → IsHealthy n
    → IsHealthy (record_event show n e now)
unfolding record_event enter
record_event-IsHealthy show n (RegEvent.served src bytes) now h = record {
  transfers = h.transfers;
  book =
      enter-IsBalanced n.book
        (Entry.serve src (booked_name show n src) ServeResult.served bytes now) h.book;
}
record_event-IsHealthy show n (RegEvent.not_found src) now h = record {
  transfers = h.transfers;
  book =
      enter-IsBalanced n.book (Entry.serve src (booked_name show n src) ServeResult.not_found 0 now)
        h.book;
}
record_event-IsHealthy show n (RegEvent.sender_failed src) now h = record {
  transfers = h.transfers;
  book =
      enter-IsBalanced n.book
        (Entry.serve src (booked_name show n src) ServeResult.sender_failed 0 now) h.book;
}

record_events-IsHealthy :
    (show : SocketAddr → List ℕ) (n : Node) (es : List RegEvent) (now : ℕ)
    → IsHealthy n
    → IsHealthy (record_events show n es now)
unfolding record_events
record_events-IsHealthy show n [] now h = h
record_events-IsHealthy show n (e ∷ es) now h =
    record_events-IsHealthy show (record_event show n e now) es now
      (record_event-IsHealthy show n e now h)

book_events-IsHealthy :
    (show : SocketAddr → List ℕ) (n : Node) (now : ℕ)
    → IsHealthy n
    → IsHealthy (book_events show n now)
unfolding book_events
book_events-IsHealthy show n now h =
    record_events-IsHealthy show (record n { registry = (drain_events n.registry).0 })
      (drain_events n.registry).1 now
      (record { transfers = drain_events-IsSafe n.registry h.transfers; book = h.book })

-- A changed clock, link, directory or lease touches neither the registry nor the book.
ping_all-Keeps : (n : Node) (addrs : List SocketAddr) (now : ℕ) → Keeps n (ping_all n addrs now)
unfolding ping_all
ping_all-Keeps n [] now = (refl, refl)
ping_all-Keeps n (a ∷ rest) now = ping_all-Keeps (ping_one n a now) rest now

ping_cycle-Keeps : (n : Node) (now : ℕ) → Keeps n (ping_cycle n now)
unfolding ping_cycle beacon ping_peers
ping_cycle-Keeps n now =
    let pinged = ping_all-Keeps (record n { next_ping = now + ping_interval }) (keys n.peers) now in
    ground (arith, pinged.0, pinged.1)

pub announce_all-Keeps :
    (n : Node) (m : Message) (addrs : List SocketAddr) (now : ℕ)
    → Keeps n (announce_all n m addrs now)
unfolding announce_all node_send
announce_all-Keeps n m [] now = (refl, refl)
announce_all-Keeps n m (a ∷ rest) now = announce_all-Keeps (node_send n m a now) m rest now

prune_segments-Keeps :
    (n : Node) (entries : Option (List DirEntry)) (can_remove : List ℕ → Bool) (now : ℕ)
    → Keeps n (prune_segments n entries can_remove now).0
unfolding prune_segments
prune_segments-Keeps n none can_remove now = ground arith
prune_segments-Keeps n (some listed) can_remove now = ground arith

prune_and_tell-Keeps : (s : Surroundings) (n : Node) (now : ℕ) → Keeps n (prune_and_tell s n now)
unfolding prune_and_tell announce_availability
prune_and_tell-Keeps s n now =
    let pruned = prune_segments n s.entries s.can_remove now in
    let (r, b) = prune_segments-Keeps n s.entries s.can_remove now in
    let (r', b') =
      announce_all-Keeps pruned.0 (Message.pong (segment_availability s.names))
        (keys pruned.0.peers) now in
    elim (Bool-cases pruned.1) [ inl e ↦ rw e (r' ∙ r, b' ∙ b) | inr e ↦ rw e (r, b) ]

after_transfers-IsHealthy :
    (s : Surroundings) (n : Node) (now : ℕ) → IsHealthy n → IsHealthy (after_transfers s n now)
unfolding after_transfers prune_origin_seeders
after_transfers-IsHealthy s n now h =
    let drained = record n { world = record (n.world) { link = drain n.world.link now } } in
    let booked = book_events s.show drained now in
    let pinged = ping_cycle booked now in
    let k =
      book_events-IsHealthy s.show drained now
        (record { transfers = h.transfers; book = h.book }) in
    let p = Keeps-IsHealthy booked pinged (ping_cycle-Keeps booked now) k in
    Keeps-IsHealthy (prune_origin_seeders pinged)
      (prune_and_tell s (prune_origin_seeders pinged) now)
      (prune_and_tell-Keeps s (prune_origin_seeders pinged) now)
      (record { transfers = p.transfers; book = p.book })

-- A step goes on without a panic, to a healthy node.
abbrev pub Goes : Option Node → Type 0
Goes o = (m : Node) × (o ≡ some m) × IsHealthy m

pub tick-Goes :
    (c : Settings) (s : Surroundings) (n : Node) (now : ℕ) → IsHealthy n → Goes (tick c s n now)
unfolding tick
tick-Goes c s n now h =
    let (t, e, safe) = tick-IsSafe c n.registry n.world now h.transfers in
    (
      after_transfers s (with_transfers n t) now,
      rw (e, tick) refl,
      after_transfers-IsHealthy s (with_transfers n t) now
          (unfold with_transfers in record { transfers = safe; book = h.book }),
    )

step-Goes : (c : Settings) (n : Node) (s : Step) → IsHealthy n → Goes (step c n s)
unfolding step enter
step-Goes c n (received names limit datagram src now) h =
    (_, refl, handle-IsHealthy c names limit n datagram src now h)
step-Goes c n (ticked s now) h = tick-Goes c s n now h
step-Goes c n (started draws remote filename now) h = (
  _,
  refl,
  record {
    transfers =
        begun-start_receiver-IsSafe c n.registry n.world draws remote filename now h.transfers;
    book = h.book;
  },
)
step-Goes c n (pulled show peer result latency bytes now) h = (
  _,
  refl,
  record {
    transfers = h.transfers;
    book =
        enter-IsBalanced n.book (Entry.pull peer (booked_name show n peer) result latency bytes now)
          h.book;
  },
)
step-Goes c n (dropped id) h = (
  _,
  refl,
  record { transfers = remove_receiver-IsSafe n.registry id h.transfers; book = h.book },
)

-- Whatever datagrams a healthy node is sent, by whomever, whatever downloads it starts, books and
-- drops and however time goes on, it never panics, and in the end it is healthy: it has at most 32
-- transfers, its senders are inside their files, the scores of its peers are at most 100, and its
-- totals of bytes are the sums over its peers to 64 bits.
pub run-IsHealthy :
    (c : Settings) (n : Node) (steps : List Step)
    → IsHealthy n
    → (m : Node) × (run c n steps ≡ some m) × IsHealthy m
unfolding run
run-IsHealthy c n [] h = (n, refl, h)
run-IsHealthy c n (s ∷ rest) h =
    let (m, e, g) = step-Goes c n s h in
    let (k, e', g') = run-IsHealthy c m rest g in (k, rw (e, run) e', g')
