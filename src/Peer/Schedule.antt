-- ===== src/Peer/Schedule.antt =====
-- `schedule_jobs` of src/peer.rs: its second part fills the free slots.
pub mod Limits
pub mod Safety
use qstream.Base.{
  ℕ, Bool, true, false, leb, if◌then◌else◌, Option, none, some, List, [], ◌∷◌, length,
}
use qstream.Net.{SocketAddr}
use qstream.Transfer.Timing.{Settings}
use qstream.Transfer.Registry.{TransferRegistry, start_receiver}
use qstream.Fault.Injector.{Link}
use qstream.Fault.Rng.{Rng}
use qstream.Node.State.{Node}
use qstream.Node.Handle.{with_transfers}
use qstream.Peer.Sources.{Float, pick_peer}
use qstream.Peer.Jobs.{Scheduler, Outside, begin, finished, reap, max_parallel_downloads}

abbrev pub with_rng : Scheduler → Rng → Scheduler
with_rng s rng = record s { rng = rng }

abbrev pub with_queue : Scheduler → List (List ℕ) → Scheduler
with_queue s queue = record s { wanted = record (s.wanted) { queue = queue } }

-- What `start_receiver` gives: a download, a refusal, or draws that are all taken.
unfoldable pub started :
    Node
    → Scheduler
    → List ℕ
    → SocketAddr
    → Option ((TransferRegistry × Link) × Option ℕ)
    → (Node × Scheduler) × Bool
unfolding with_transfers
started n s filename p none = ((n, s), false)
started n s filename p (some ((r, l), none)) =
    ((with_transfers n (r, record (n.world) { link = l }), s), false)
started n s filename p (some ((r, l), some id)) =
    ((with_transfers n (r, record (n.world) { link = l }), begin s id filename p), true)

unfoldable pub start_from :
    Settings
    → Outside
    → Node
    → Scheduler
    → List ℕ
    → Option SocketAddr
    → ℕ
    → (Node × Scheduler) × Bool
unfolding started
start_from c o n s filename none now = ((n, s), false)
start_from c o n s filename (some p) now =
    started n s filename p
      (start_receiver c n.registry n.world.link (o.draws filename) p filename now)

-- One round of the loop: a peer is picked for the file, and asked for it.
unfoldable pub start_one :
    Settings → Float → Outside → Node → Scheduler → List ℕ → ℕ → (Node × Scheduler) × Bool
unfolding start_from
start_one c fl o n s filename now =
    let (choice, rng) =
      pick_peer fl n s.active s.history filename o.local_addr o.bootstrap s.rng now in
    start_from c o n (with_rng s rng) filename choice now

-- The loop, over the queue. A file that is not started goes back to its place.
unfoldable pub fill :
    Settings → Float → Outside → Node → Scheduler → List (List ℕ) → ℕ → Node × Scheduler
unfolding start_one
fill c fl o n s [] now = (n, with_queue s [])
fill c fl o n s (filename ∷ rest) now =
    let ((n', s'), on) = start_one c fl o n s filename now in
    let more = fill c fl o n' s' rest now in
    if leb max_parallel_downloads (length s.active)
    then (n, with_queue s (filename ∷ rest))
    else if on
    then more
    else (n', with_queue s' (filename ∷ rest))

-- `schedule_jobs`.
unfoldable pub schedule_jobs : Settings → Float → Outside → Node → Scheduler → ℕ → Node × Scheduler
unfolding fill
schedule_jobs c fl o n s now =
    let (n', s') = reap o (n, s) (finished n.registry.receivers s.active) now in
    fill c fl o n' s' s'.wanted.queue now
