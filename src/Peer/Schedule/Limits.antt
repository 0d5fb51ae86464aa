-- ===== src/Peer/Schedule/Limits.antt =====
-- The bounds on the downloads of a peer of src/peer.rs.
use qstream.Base.{
  ℕ, ◌≤◌, ◌<◌, ◌≡◌, refl, subst, ◌∙◌, inl, inr, Bool, leb, Bool-cases, Option-cases, Option, none,
  some, List, [], ◌∷◌, length, arith,
}
use qstream.Net.{SocketAddr}
use qstream.Fault.Injector.{Link}
use qstream.Transfer.Timing.{Settings}
use qstream.Transfer.Table.{insert, remove}
use qstream.Transfer.Table.Each.{length-remove}
use qstream.Transfer.Registry.{TransferRegistry, start_receiver}
use qstream.Node.Addr.{same_addr}
use qstream.Node.Among.{same_addr_eq}
use qstream.Node.Stats.{PullResult}
use qstream.Node.State.{Node}
use qstream.Peer.Sources.{Float, ActiveJob, inflight, pick_peer}
use qstream.Peer.Sources.Choice.{pick_peer-Allowed}
use qstream.Peer.Jobs.{
  Scheduler, Outside, Finished, finished, booked, on_saved, on_not_ready, on_hit, requeue,
  on_failed, settle, reap_one, reap, begin, result_of,
}
use qstream.Peer.Schedule.{started, start_from, start_one, fill, schedule_jobs, with_rng}

-- At most four downloads, and at most two from any peer.
pub record IsLimited (active : List (ℕ × ActiveJob)) : Type 0 where
  pub slots : length active ≤ 4
  pub per_peer : (p : SocketAddr) → inflight active p ≤ 2

inflight-remove :
    (id : ℕ) (active : List (ℕ × ActiveJob)) (p : SocketAddr)
    → inflight (remove id active) p ≤ inflight active p
unfolding inflight remove
inflight-remove id [] p = omega arith
inflight-remove id ((k, job) ∷ rest) p = ground (arith, inflight-remove id rest p)

remove-IsLimited :
    (id : ℕ) (active : List (ℕ × ActiveJob)) → IsLimited active → IsLimited (remove id active)
remove-IsLimited id active h = record {
  slots = omega (arith, h.slots, length-remove id active);
  per_peer = λ p. omega (arith, h.per_peer p, inflight-remove id active p);
}

insert-IsLimited :
    (id : ℕ) (job : ActiveJob) (active : List (ℕ × ActiveJob))
    → length active < 4
    → inflight active job.peer < 2
    → IsLimited active
    → IsLimited (insert id job active)
unfolding insert inflight
insert-IsLimited id job active room free h = record {
  slots = omega (arith, length-remove id active);
  per_peer = λ p. elim (Bool-cases (same_addr job.peer p)) [
    | inl same ↦
        let e : job.peer ≡ p = same_addr_eq job.peer p same in
        let f : inflight active p < 2 = subst (λ q. inflight active q < 2) e free in
        rw same (omega (arith, inflight-remove id active p))
    | inr other ↦ rw other (omega (arith, h.per_peer p, inflight-remove id active p))
  ];
}

-- What follows the end of a download leaves the others.
on_hit_active :
    (n : Node) (s : Scheduler) (p : SocketAddr) (b : Bool) → (on_hit n s p b).1.active ≡ s.active
unfolding on_hit
on_hit_active n s p b = ground arith

requeue_active :
    (n : Node) (s : Scheduler) (local : SocketAddr) (filename : List ℕ) (now : ℕ)
    → (requeue n s local filename now).active ≡ s.active
unfolding requeue
requeue_active n s local filename now = ground arith

on_failed_active :
    (o : Outside) (n : Node) (s : Scheduler) (job : ActiveJob) (b : Bool) (now : ℕ)
    → (on_failed o n s job b now).1.active ≡ s.active
unfolding on_failed
on_failed_active o n s job b now =
    requeue_active (on_hit n s job.peer b).0 (on_hit n s job.peer b).1 o.local_addr job.filename now
    ∙ on_hit_active n s job.peer b

settle_active :
    (o : Outside) (n : Node) (s : Scheduler) (f : Finished) (result : PullResult) (now : ℕ)
    → (settle o n s f result now).1.active ≡ s.active
unfolding settle on_saved on_not_ready
settle_active o n s f PullResult.pulled now = refl
settle_active o n s f PullResult.retryable_not_found now = refl
settle_active o n s f PullResult.timeout now =
    on_failed_active o n s f.job f.receiver.unresponsive now
settle_active o n s f PullResult.not_found now =
    on_failed_active o n s f.job f.receiver.unresponsive now
settle_active o n s f PullResult.other now =
    on_failed_active o n s f.job f.receiver.unresponsive now

reap-IsLimited :
    (o : Outside) (n : Node) (s : Scheduler) (fs : List Finished) (now : ℕ)
    → IsLimited s.active
    → IsLimited (reap o (n, s) fs now).1.active
unfolding reap reap_one
reap-IsLimited o n s [] now h = h
reap-IsLimited o n s (f ∷ rest) now h =
    let t = reap_one o (n, s) f now in
    let e : t.1.active ≡ remove f.id s.active =
      settle_active o (booked o n f now) (record s { active = remove f.id s.active }) f
        (result_of f.outcome f.receiver) now in
    reap-IsLimited o t.0 t.1 rest now (rw e (remove-IsLimited f.id s.active h))

started-IsLimited :
    (n : Node) (s : Scheduler) (filename : List ℕ) (p : SocketAddr)
    (r : Option ((TransferRegistry × Link) × Option ℕ))
    → length s.active < 4
    → inflight s.active p < 2
    → IsLimited s.active
    → IsLimited (started n s filename p r).0.1.active
unfolding started begin
started-IsLimited n s filename p none room free h = h
started-IsLimited n s filename p (some ((r, l), none)) room free h = h
started-IsLimited n s filename p (some ((r, l), some id)) room free h =
    insert-IsLimited id (record { filename = filename; peer = p }) s.active room free h

start_one-IsLimited :
    (c : Settings) (fl : Float) (o : Outside) (n : Node) (s : Scheduler) (filename : List ℕ)
    (now : ℕ)
    → length s.active < 4
    → IsLimited s.active
    → IsLimited (start_one c fl o n s filename now).0.1.active
unfolding start_one start_from
start_one-IsLimited c fl o n s filename now room h =
    let pick = pick_peer fl n s.active s.history filename o.local_addr o.bootstrap s.rng now in
    elim (Option-cases pick.0) [
      | inl q ↦ rw (q, start_from) h
      | inr (p, q) ↦
          let a =
            pick_peer-Allowed n s.active s.history filename o.local_addr o.bootstrap now fl s.rng p
              q in
          rw (q, start_from)
            (started-IsLimited n (with_rng s pick.1) filename p
              (start_receiver c n.registry n.world.link (o.draws filename) p filename now) room
              a.room h)
    ]

fill-IsLimited :
    (c : Settings) (fl : Float) (o : Outside) (n : Node) (s : Scheduler) (queue : List (List ℕ))
    (now : ℕ)
    → IsLimited s.active
    → IsLimited (fill c fl o n s queue now).1.active
unfolding fill
fill-IsLimited c fl o n s [] now h = h
fill-IsLimited c fl o n s (filename ∷ rest) now h = elim (Bool-cases (leb 4 (length s.active))) [
  | inl full ↦ rw full h
  | inr room ↦
      let t = start_one c fl o n s filename now in
      let h' = start_one-IsLimited c fl o n s filename now (ground arith) h in
      rw room (elim (Bool-cases t.1) [
        | inl on ↦ rw on (fill-IsLimited c fl o t.0.0 t.0.1 rest now h')
        | inr off ↦ rw off h'
      ])
]

-- However downloads end and whatever the draws, a peer that has at most four downloads, and at most
-- two from any one peer, has so after `schedule_jobs`.
pub schedule_jobs-IsLimited :
    (c : Settings) (fl : Float) (o : Outside) (n : Node) (s : Scheduler) (now : ℕ)
    → IsLimited s.active
    → IsLimited (schedule_jobs c fl o n s now).1.active
unfolding schedule_jobs
schedule_jobs-IsLimited c fl o n s now h =
    let t = reap o (n, s) (finished n.registry.receivers s.active) now in
    fill-IsLimited c fl o t.0 t.1 t.1.wanted.queue now
      (reap-IsLimited o n s (finished n.registry.receivers s.active) now h)
