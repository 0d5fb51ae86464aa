-- ===== src/Peer/Schedule/Safety.antt =====
-- Scheduling keeps the node of src/peer.rs healthy.
use qstream.Base.{
  ℕ, refl, inl, inr, Bool, leb, Bool-cases, Option-cases, Option, none, some, List, [], ◌∷◌, length,
  arith,
}
use mathlib.Core.Option
use qstream.Net.{SocketAddr}
use qstream.Fault.Injector.{Link}
use qstream.Protocol.Types.{Message}
use qstream.Transfer.Table.{remove}
use qstream.Transfer.Timing.{Settings}
use qstream.Transfer.Registry.{TransferRegistry, start_receiver}
use qstream.Transfer.Registry.Availability.{segment_availability}
use qstream.Transfer.Registry.Kept.{remove_receiver-IsSafe, start_receiver-Started, Started}
use qstream.Node.Addr.{keys}
use qstream.Node.Stats.{PullResult}
use qstream.Node.Stats.Totals.{Entry, enter, enter-IsBalanced}
use qstream.Node.State.{Node}
use qstream.Node.Safety.{IsHealthy, Keeps, Keeps-IsHealthy}
use qstream.Node.Run.Safety.{announce_all-Keeps}
use qstream.Node.Tick.{booked_name, announce_availability, with_disk}
use qstream.Peer.Files.{refresh_playback_manifest}
use qstream.Peer.Sources.{Float, ActiveJob, pick_peer}
use qstream.Peer.Jobs.{
  Scheduler, Outside, Finished, finished, result_of, is_saved, booked, on_saved, on_hit, on_failed,
  settle, reap_one, reap,
}
use qstream.Peer.Schedule.{started, start_from, start_one, fill, schedule_jobs, with_rng}

booked-IsHealthy :
    (o : Outside) (n : Node) (f : Finished) (now : ℕ) → IsHealthy n → IsHealthy (booked o n f now)
unfolding booked enter
booked-IsHealthy o n f now h = record {
  transfers = elim (Bool-cases (is_saved f.outcome)) [
    | inl y ↦ rw y h.transfers
    | inr y ↦ rw y (remove_receiver-IsSafe n.registry f.id h.transfers)
  ];
  book =
      enter-IsBalanced n.book
        (Entry.pull f.job.peer (booked_name o.show n f.job.peer) (result_of f.outcome f.receiver)
          f.receiver.first_packet_latency (Option.get_or f.receiver.saved_bytes 0) now)
        h.book;
}

on_saved-Keeps :
    (o : Outside) (n : Node) (s : Scheduler) (job : ActiveJob) (now : ℕ)
    → Keeps n (on_saved o n s job now).0
unfolding on_saved announce_availability with_disk
on_saved-Keeps o n s job now =
    let d = (refresh_playback_manifest o.lossy n.world.disk o.can_remove o.playback_holdback).0 in
    announce_all-Keeps (with_disk n d) (Message.pong (segment_availability o.names)) (keys n.peers)
      now

on_failed-Keeps :
    (o : Outside) (n : Node) (s : Scheduler) (job : ActiveJob) (b : Bool) (now : ℕ)
    → Keeps n (on_failed o n s job b now).0
unfolding on_failed on_hit
on_failed-Keeps o n s job b now = ground arith

settle-Keeps :
    (o : Outside) (n : Node) (s : Scheduler) (f : Finished) (result : PullResult) (now : ℕ)
    → Keeps n (settle o n s f result now).0
unfolding settle
settle-Keeps o n s f PullResult.pulled now = on_saved-Keeps o n s f.job now
settle-Keeps o n s f PullResult.retryable_not_found now = (refl, refl)
settle-Keeps o n s f PullResult.timeout now =
    on_failed-Keeps o n s f.job f.receiver.unresponsive now
settle-Keeps o n s f PullResult.not_found now =
    on_failed-Keeps o n s f.job f.receiver.unresponsive now
settle-Keeps o n s f PullResult.other now = on_failed-Keeps o n s f.job f.receiver.unresponsive now

reap-IsHealthy :
    (o : Outside) (n : Node) (s : Scheduler) (fs : List Finished) (now : ℕ)
    → IsHealthy n
    → IsHealthy (reap o (n, s) fs now).0
unfolding reap reap_one
reap-IsHealthy o n s [] now h = h
reap-IsHealthy o n s (f ∷ rest) now h =
    let b = booked o n f now in
    let s' = record s { active = remove f.id s.active } in
    let t = reap_one o (n, s) f now in
    reap-IsHealthy o t.0 t.1 rest now (
      Keeps-IsHealthy b t.0 (settle-Keeps o b s' f (result_of f.outcome f.receiver) now)
        (booked-IsHealthy o n f now h))

started-IsHealthy :
    (n : Node) (s : Scheduler) (filename : List ℕ) (p : SocketAddr)
    (r : Option ((TransferRegistry × Link) × Option ℕ))
    → Started r
    → IsHealthy n
    → IsHealthy (started n s filename p r).0.0
unfolding started
started-IsHealthy n s filename p none g h = h
started-IsHealthy n s filename p (some ((r, l), none)) g h = record { transfers = g; book = h.book }
started-IsHealthy n s filename p (some ((r, l), some id)) g h = record {
  transfers = g;
  book = h.book;
}

start_one-IsHealthy :
    (c : Settings) (fl : Float) (o : Outside) (n : Node) (s : Scheduler) (filename : List ℕ)
    (now : ℕ)
    → IsHealthy n
    → IsHealthy (start_one c fl o n s filename now).0.0
unfolding start_one start_from
start_one-IsHealthy c fl o n s filename now h =
    let pick = pick_peer fl n s.active s.history filename o.local_addr o.bootstrap s.rng now in
    elim (Option-cases pick.0) [
      | inl q ↦ rw (q, start_from) h
      | inr (p, q) ↦
          rw (q, start_from)
            (started-IsHealthy n (with_rng s pick.1) filename p
              (start_receiver c n.registry n.world.link (o.draws filename) p filename now)
              (start_receiver-Started c n.registry n.world.link (o.draws filename) p filename now
                h.transfers)
              h)
    ]

fill-IsHealthy :
    (c : Settings) (fl : Float) (o : Outside) (n : Node) (s : Scheduler) (queue : List (List ℕ))
    (now : ℕ)
    → IsHealthy n
    → IsHealthy (fill c fl o n s queue now).0
unfolding fill
fill-IsHealthy c fl o n s [] now h = h
fill-IsHealthy c fl o n s (filename ∷ rest) now h = elim (Bool-cases (leb 4 (length s.active))) [
  | inl full ↦ rw full h
  | inr room ↦
      let t = start_one c fl o n s filename now in
      let h' = start_one-IsHealthy c fl o n s filename now h in
      rw room (elim (Bool-cases t.1) [
        | inl on ↦ rw on (fill-IsHealthy c fl o t.0.0 t.0.1 rest now h')
        | inr off ↦ rw off h'
      ])
]

-- Scheduling keeps a healthy node healthy: at most 32 transfers, every sender inside its file, and
-- totals that are the sums over the peers.
pub schedule_jobs-IsHealthy :
    (c : Settings) (fl : Float) (o : Outside) (n : Node) (s : Scheduler) (now : ℕ)
    → IsHealthy n
    → IsHealthy (schedule_jobs c fl o n s now).0
unfolding schedule_jobs
schedule_jobs-IsHealthy c fl o n s now h =
    let t = reap o (n, s) (finished n.registry.receivers s.active) now in
    fill-IsHealthy c fl o t.0 t.1 t.1.wanted.queue now
      (reap-IsHealthy o n s (finished n.registry.receivers s.active) now h)
