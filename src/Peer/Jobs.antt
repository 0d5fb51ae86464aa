-- ===== src/Peer/Jobs.antt =====
-- The first part of `schedule_jobs` of src/peer.rs: the finished downloads are booked.
pub mod Stuck
use qstream.Base.{
  ℕ, ◌+◌, ◌%◌, ◌^◌, Bool, true, false, not, leb, ◌&&◌, if◌then◌else◌, Option, none, some, List, [],
  ◌∷◌, ◌++◌,
}
use mathlib.Core.Option
use qstream.Net.{SocketAddr}
use qstream.Disk.{bytes_eq}
use qstream.Names.{find_name, put_name, drop_name, remove_name}
use qstream.Fault.Rng.{Rng}
use qstream.Transfer.Table.{find, insert, remove}
use qstream.Transfer.Receiver.{ReceiverTransfer, Outcome, saved, failed}
use qstream.Transfer.Registry.{remove_receiver}
use qstream.Node.Addr.{same_addr, lookup, store, drop_addr, keys, add, any, keep}
use qstream.Node.Stats.{PullResult, record_pull}
use qstream.Node.State.{Node}
use qstream.Node.Tick.{booked_name, announce_availability, with_disk}
use qstream.Peer.Files.{refresh_playback_manifest}
use qstream.Peer.Queue.{Wanted, fail_retry_cooldown}
use qstream.Peer.Sources.{ActiveJob, History, is_untried}

-- The maps and lists of the scheduler.
pub record Scheduler : Type 0 where
  pub active : List (ℕ × ActiveJob)
  pub wanted : Wanted
  pub history : History
  pub failed_at : List (List ℕ × ℕ)
  pub unresponsive_hits : List (SocketAddr × ℕ)
  pub rng : Rng

-- What the call is told: the addresses, the listing of the directory, how an address is written, the
-- numbers that `random_id` draws for a file, and what the playlist needs.
pub record Outside : Type 0 where
  pub local_addr : SocketAddr
  pub bootstrap : SocketAddr
  pub names : Option (List (List ℕ))
  pub show : SocketAddr → List ℕ
  pub draws : List ℕ → List ℕ
  pub lossy : List ℕ → List ℕ
  pub can_remove : Bool
  pub playback_holdback : ℕ

abbrev pub max_parallel_downloads : ℕ
max_parallel_downloads = 4

abbrev pub evict_after_unresponsive : ℕ
evict_after_unresponsive = 3

-- A download that is over, with its receiver.
pub record Finished : Type 0 where
  pub id : ℕ
  pub job : ActiveJob
  pub outcome : Outcome
  pub receiver : ReceiverTransfer

-- The receivers of the active jobs that have an outcome.
unfoldable pub finished : List (ℕ × ReceiverTransfer) → List (ℕ × ActiveJob) → List Finished
finished receivers [] = []
finished receivers ((id, job) ∷ rest) = elim (find id receivers) [
  | none ↦ finished receivers rest
  | some t ↦ elim t.outcome [
    | none ↦ finished receivers rest
    | some o ↦ record { id = id; job = job; outcome = o; receiver = t } ∷ finished receivers rest
  ]
]

-- `result` of a finished download.
unfoldable pub result_of : Outcome → ReceiverTransfer → PullResult
result_of saved t = PullResult.pulled
result_of (failed reason) t =
    if t.unresponsive
    then PullResult.timeout
    else if t.retryable_not_found
    then PullResult.retryable_not_found
    else if t.not_found
    then PullResult.not_found
    else PullResult.other

unfoldable pub is_saved : Outcome → Bool
is_saved saved = true
is_saved (failed reason) = false

-- The failed receiver is dropped, a saved one stays for its grace; the pull is booked.
unfoldable pub booked : Outside → Node → Finished → ℕ → Node
unfolding result_of is_saved booked_name
booked o n f now =
    let r = if is_saved f.outcome then n.registry else remove_receiver n.registry f.id in
    record n {
      registry = r;
      book =
          record_pull n.book f.job.peer (booked_name o.show n f.job.peer)
            (result_of f.outcome f.receiver) f.receiver.first_packet_latency
            (Option.get_or f.receiver.saved_bytes 0) now;
    }

-- `retry_after.retain(|(f, _), _| f != filename)`.
unfoldable pub without_file :
    List ℕ → List ((List ℕ × SocketAddr) × ℕ) → List ((List ℕ × SocketAddr) × ℕ)
without_file filename [] = []
without_file filename (((f, p), t) ∷ rest) =
    let others = without_file filename rest in
    if bytes_eq f filename then others else ((f, p), t) ∷ others

-- `retry_after.insert((filename, peer), until)`.
unfoldable pub put_retry :
    List ℕ → SocketAddr → ℕ → List ((List ℕ × SocketAddr) × ℕ) → List ((List ℕ × SocketAddr) × ℕ)
put_retry filename p until [] = ((filename, p), until) ∷ []
put_retry filename p until (((f, q), t) ∷ rest) =
    let others = put_retry filename p until rest in
    if bytes_eq f filename && same_addr q p then ((f, q), until) ∷ rest else ((f, q), t) ∷ others

-- A saved segment: the player's playlist is written, the peers are told, and its traces are removed.
unfoldable pub on_saved : Outside → Node → Scheduler → ActiveJob → ℕ → Node × Scheduler
unfolding without_file
on_saved o n s job now =
    let (d, written) =
      refresh_playback_manifest o.lossy n.world.disk o.can_remove o.playback_holdback in
    (
      announce_availability (with_disk n d) o.names now,
      record s {
        wanted = record (s.wanted) { queued = remove_name job.filename s.wanted.queued };
        history = record (s.history) {
          tried = drop_name job.filename s.history.tried;
          retry_after = without_file job.filename s.history.retry_after;
        };
        unresponsive_hits = drop_addr job.peer s.unresponsive_hits;
      },
    )

-- `tried.get_mut(filename)`, less the peer.
unfoldable pub untry :
    List ℕ → SocketAddr → List (List ℕ × List SocketAddr) → List (List ℕ × List SocketAddr)
untry filename p [] = []
untry filename p ((f, ps) ∷ rest) =
    let others = untry filename p rest in
    if bytes_eq f filename then (f, keep (λ q. not (same_addr q p)) ps) ∷ rest else (f, ps) ∷ others

-- A segment that its peer has not yet: it cools there, and goes to the end of the queue.
unfoldable pub on_not_ready : Scheduler → ActiveJob → ℕ → Scheduler
unfolding put_retry untry
on_not_ready s job now = record s {
  history = record (s.history) {
    retry_after = put_retry job.filename job.peer (now + fail_retry_cooldown) s.history.retry_after;
    tried = untry job.filename job.peer s.history.tried;
  };
  wanted = record (s.wanted) { queue = s.wanted.queue ++ job.filename ∷ [] };
}

-- `unresponsive_hits.entry(peer).or_insert(0) + 1`.
unfoldable pub hits_of : Scheduler → SocketAddr → ℕ
hits_of s p = (Option.get_or (lookup p s.unresponsive_hits) 0 + 1) % 2 ^ 32

-- A pull that failed: three times without any answer evict the peer.
unfoldable pub on_hit : Node → Scheduler → SocketAddr → Bool → Node × Scheduler
unfolding hits_of
on_hit n s p unresponsive =
    if not unresponsive
    then (n, record s { unresponsive_hits = drop_addr p s.unresponsive_hits })
    else if leb evict_after_unresponsive (hits_of s p)
    then (
      record n { peers = drop_addr p n.peers },
      record s { unresponsive_hits = drop_addr p s.unresponsive_hits },
    )
    else (n, record s { unresponsive_hits = store p (hits_of s p) s.unresponsive_hits })

-- A failed segment is tried elsewhere at once, or given up for a while.
unfoldable pub requeue : Node → Scheduler → SocketAddr → List ℕ → ℕ → Scheduler
requeue n s local filename now =
    if any (λ p. not (same_addr p local) && is_untried s.history filename p) (keys n.peers)
    then record s { wanted = record (s.wanted) { queue = filename ∷ s.wanted.queue } }
    else record s {
      wanted = record (s.wanted) { queued = remove_name filename s.wanted.queued };
      history = record (s.history) { tried = drop_name filename s.history.tried };
      failed_at = put_name filename now s.failed_at;
    }

unfoldable pub on_failed : Outside → Node → Scheduler → ActiveJob → Bool → ℕ → Node × Scheduler
unfolding on_hit requeue
on_failed o n s job unresponsive now =
    let (n', s') = on_hit n s job.peer unresponsive in
    (n', requeue n' s' o.local_addr job.filename now)

unfoldable pub settle : Outside → Node → Scheduler → Finished → PullResult → ℕ → Node × Scheduler
unfolding on_saved on_not_ready on_failed
settle o n s f PullResult.pulled now = on_saved o n s f.job now
settle o n s f PullResult.retryable_not_found now = (n, on_not_ready s f.job now)
settle o n s f PullResult.timeout now = on_failed o n s f.job f.receiver.unresponsive now
settle o n s f PullResult.not_found now = on_failed o n s f.job f.receiver.unresponsive now
settle o n s f PullResult.other now = on_failed o n s f.job f.receiver.unresponsive now

-- The loop over the finished downloads.
unfoldable pub reap_one : Outside → Node × Scheduler → Finished → ℕ → Node × Scheduler
unfolding booked settle
reap_one o (n, s) f now =
    settle o (booked o n f now) (record s { active = remove f.id s.active }) f
      (result_of f.outcome f.receiver) now

unfoldable pub reap : Outside → Node × Scheduler → List Finished → ℕ → Node × Scheduler
unfolding reap_one
reap o t [] now = t
reap o t (f ∷ rest) now = reap o (reap_one o t f now) rest now

-- `tried.entry(filename).or_default().insert(peer)`.
unfoldable pub try :
    List ℕ → SocketAddr → List (List ℕ × List SocketAddr) → List (List ℕ × List SocketAddr)
try filename p tried = put_name filename (add p (Option.get_or (find_name filename tried) [])) tried

-- The scheduler after a download has begun.
unfoldable pub begin : Scheduler → ℕ → List ℕ → SocketAddr → Scheduler
unfolding try
begin s id filename p = record s {
  active = insert id (record { filename = filename; peer = p }) s.active;
  history = record (s.history) { tried = try filename p s.history.tried };
}
