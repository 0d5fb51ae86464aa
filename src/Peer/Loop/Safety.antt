-- ===== src/Peer/Loop/Safety.antt =====
-- The loop of src/peer.rs does not panic, and keeps its bounds.
use qstream.Base.{
  ℕ, ◌≡◌, refl, ap, inl, inr, ◌⊎◌, Bool, true, false, ◌==◌, Bool-cases, Option, none, some, List,
  [], ◌∷◌, length, Result, ok, err, ◌>>=◌, arith,
}
use qstream.Net.{SocketAddr}
use qstream.Disk.{Disk}
use qstream.Transfer.Timing.{Settings}
use qstream.Node.State.{prune_peers, node_send}
use qstream.Node.Safety.{IsHealthy, handle-IsHealthy, register_peer-IsHealthy}
use qstream.Node.Run.Safety.{tick-Goes}
use qstream.Node.Handle.{Event, handshake_response, manifest_response, peerlist_response, handle}
use qstream.Node.Tick.{tick, with_disk}
use qstream.Peer.Files.{write_manifest, refresh_playback_manifest}
use qstream.Peer.Queue.{sync_queue}
use qstream.Peer.Sources.{Float}
use qstream.Peer.Jobs.{Outside}
use qstream.Peer.Schedule.Limits.{IsLimited, schedule_jobs-IsLimited}
use qstream.Peer.Schedule.Safety.{schedule_jobs-IsHealthy}
use qstream.Peer.Session.{
  Session, Halt, io_error, on_handshake_response, on_new_manifest, on_manifest_written,
  on_manifest_response, note_parent, discover, on_entry, on_entries, on_peerlist_response, on_event,
  without_parents,
}
use qstream.Peer.Loop.{
  Received, datagram, timed_out, failed, Round, with_node, receive, tick_node, retry_handshake,
  expire_handshakes, poll_manifest, expire_poll, poll_peerlist, schedule, timers, round, rounds,
}

-- A healthy node, and downloads within the bounds.
pub record IsSteady (s : Session) : Type 0 where
  pub node : IsHealthy s.node
  pub jobs : IsLimited s.scheduler.active

-- The registry, the book and the downloads are those of `s`.
abbrev Holds : Session → Session → Type 0
Holds s t =
    (t.node.registry ≡ s.node.registry)
    × (t.node.book ≡ s.node.book)
    × (t.scheduler.active ≡ s.scheduler.active)

Holds-IsSteady : (s t : Session) → Holds s t → IsSteady s → IsSteady t
Holds-IsSteady s t (r, b, a) h = record {
  node = record { transfers = rw r h.node.transfers; book = rw b h.node.book };
  jobs = rw a h.jobs;
}

-- No panic, and a steady session where the loop goes on.
abbrev Steady : Result Halt Session → Type 0
Steady (ok s) = IsSteady s
Steady (err e) = e ≡ io_error

on_new_manifest-Steady :
    (o : Outside) (s : Session) (d : Disk) (bytes : List ℕ) (now : ℕ)
    → IsSteady s
    → Steady (on_new_manifest o s d bytes now)
unfolding on_new_manifest with_disk sync_queue
on_new_manifest-Steady o s d bytes now h =
    elim (Bool-cases (refresh_playback_manifest o.lossy d o.can_remove o.playback_holdback).1) [
      | inl y ↦ rw y (Holds-IsSteady s _ (refl, refl, refl) h)
      | inr y ↦ rw y refl
    ]

on_manifest_written-Steady :
    (o : Outside) (s : Session) (d : Disk) (outcome : Option Bool) (bytes : List ℕ) (now : ℕ)
    → IsSteady s
    → Steady (on_manifest_written o s d outcome bytes now)
unfolding on_manifest_written with_disk
on_manifest_written-Steady o s d none bytes now h = refl
on_manifest_written-Steady o s d (some false) bytes now h = Holds-IsSteady s _ (refl, refl, refl) h
on_manifest_written-Steady o s d (some true) bytes now h = on_new_manifest-Steady o s d bytes now h

on_manifest_response-Steady :
    (o : Outside) (s : Session) (bytes : List ℕ) (now : ℕ)
    → IsSteady s
    → Steady (on_manifest_response o s bytes now)
unfolding on_manifest_response
on_manifest_response-Steady o s bytes now h = elim (Bool-cases (length bytes == 0)) [
  | inl y ↦ rw y (Holds-IsSteady s _ (refl, refl, refl) h)
  | inr y ↦
      let w = write_manifest s.node.world.disk bytes in
      rw y (on_manifest_written-Steady o s w.0 w.1 bytes now h)
]

on_entry-Holds :
    (o : Outside) (s : Session) (e : SocketAddr × ℕ) (now : ℕ) → Holds s (on_entry o s e now)
unfolding on_entry note_parent discover node_send
on_entry-Holds o s (peer, flags) now = ground arith

retry_handshake-Holds : (r : Round) (s : Session) → Holds s (retry_handshake r s)
unfolding retry_handshake node_send
retry_handshake-Holds r s = ground arith

poll_manifest-Holds : (r : Round) (s : Session) → Holds s (poll_manifest r s)
unfolding poll_manifest node_send
poll_manifest-Holds r s = ground arith

expire_poll-Holds : (r : Round) (s : Session) → Holds s (expire_poll r s)
unfolding expire_poll
expire_poll-Holds r s = ground arith

poll_peerlist-Holds : (r : Round) (s : Session) → Holds s (poll_peerlist r s)
unfolding poll_peerlist node_send
poll_peerlist-Holds r s = ground arith

expire_handshakes-IsSteady :
    (r : Round) (s : Session) → IsSteady s → IsSteady (expire_handshakes r s)
unfolding expire_handshakes
expire_handshakes-IsSteady r s h = record {
  node = record { transfers = h.node.transfers; book = h.node.book };
  jobs = h.jobs;
}

on_entries-IsSteady :
    (o : Outside) (s : Session) (es : List (SocketAddr × ℕ)) (now : ℕ)
    → IsSteady s
    → IsSteady (on_entries o s es now)
unfolding on_entries
on_entries-IsSteady o s [] now h = h
on_entries-IsSteady o s (e ∷ rest) now h =
    on_entries-IsSteady o (on_entry o s e now) rest now
      (Holds-IsSteady s (on_entry o s e now) (on_entry-Holds o s e now) h)

on_event-Steady :
    (o : Outside) (s : Session) (e : Event) (now : ℕ) → IsSteady s → Steady (on_event o s e now)
unfolding on_event on_handshake_response on_peerlist_response
on_event-Steady o s (handshake_response src name) now h = record {
  node = register_peer-IsHealthy s.node src name now h.node;
  jobs = h.jobs;
}
on_event-Steady o s (manifest_response bytes) now h = on_manifest_response-Steady o s bytes now h
on_event-Steady o s (peerlist_response peers) now h =
    on_entries-IsSteady o (without_parents s) peers now (record { node = h.node; jobs = h.jobs })
on_event-Steady o s Event.none now h = h

receive-Steady :
    (c : Settings) (s : Session) (r : Round) (x : Received) → IsSteady s → Steady (receive c s r x)
unfolding receive
receive-Steady c s r (datagram bytes src) h =
    let t = handle c r.outside.names r.limit s.node bytes src r.at in
    on_event-Steady r.outside (with_node s t.0) t.1 r.at (record {
      node = handle-IsHealthy c r.outside.names r.limit s.node bytes src r.at h.node;
      jobs = h.jobs;
    })
receive-Steady c s r timed_out h = h
receive-Steady c s r failed h = refl

tick_node-Steady :
    (c : Settings) (r : Round) (s : Session)
    → IsSteady s
    → Steady (tick_node c r s (tick c r.surroundings s.node r.now))
unfolding tick_node prune_peers
tick_node-Steady c r s h =
    let (n, e, healthy) = tick-Goes c r.surroundings s.node r.now h.node in
    rw e (record {
      node = record { transfers = healthy.transfers; book = healthy.book };
      jobs = h.jobs;
    })

timers-IsSteady :
    (c : Settings) (fl : Float) (r : Round) (s : Session) → IsSteady s → IsSteady (timers c fl r s)
unfolding timers schedule
timers-IsSteady c fl r s h =
    let s1 = retry_handshake r s in
    let s2 = expire_handshakes r s1 in
    let s3 = poll_manifest r s2 in
    let s4 = expire_poll r s3 in
    let t = poll_peerlist r s4 in
    let h2 = expire_handshakes-IsSteady r s1 (Holds-IsSteady s s1 (retry_handshake-Holds r s) h) in
    let h4 =
      Holds-IsSteady s3 s4 (expire_poll-Holds r s3)
        (Holds-IsSteady s2 s3 (poll_manifest-Holds r s2) h2) in
    let g = Holds-IsSteady s4 t (poll_peerlist-Holds r s4) h4 in
    record {
      node = schedule_jobs-IsHealthy c fl r.outside t.node t.scheduler r.now g.node;
      jobs = schedule_jobs-IsLimited c fl r.outside t.node t.scheduler r.now g.jobs;
    }

-- One step behind another.
bind-Steady :
    (m : Result Halt Session) (f : Session → Result Halt Session)
    → Steady m
    → ((s : Session) → IsSteady s → Steady (f s))
    → Steady (m >>= f)
bind-Steady (ok s) f h k = k s h
bind-Steady (err e) f h k = h

round-Steady :
    (c : Settings) (fl : Float) (s : Session) (r : Round) → IsSteady s → Steady (round c fl s r)
unfolding round
round-Steady c fl s r h =
    bind-Steady (receive c s r r.received) _ (receive-Steady c s r r.received h) (λ heard g.
      bind-Steady (tick_node c r heard (tick c r.surroundings heard.node r.now)) _
        (tick_node-Steady c r heard g) (λ ticked k. timers-IsSteady c fl r ticked k))

rounds-Steady :
    (c : Settings) (fl : Float) (s : Session) (rs : List Round)
    → IsSteady s
    → Steady (rounds c fl s rs)
unfolding rounds
rounds-Steady c fl s [] h = h
rounds-Steady c fl s (r ∷ rest) h =
    bind-Steady (round c fl s r) _ (round-Steady c fl s r h) (λ t g. rounds-Steady c fl t rest g)

Steady-cases :
    (m : Result Halt Session)
    → Steady m
    → (m ≡ err io_error) ⊎ ((t : Session) × (m ≡ ok t) × IsSteady t)
Steady-cases (ok t) h = inr (t, refl, h)
Steady-cases (err e) h = inl (ap (λ x. err x) h)

-- Whatever datagrams a peer is sent and however often its loop goes round, it never panics: the loop
-- ends by an error of the system, or goes on with a healthy node, at most four downloads, and at most
-- two from any one peer.
pub rounds-IsSteady :
    (c : Settings) (fl : Float) (s : Session) (rs : List Round)
    → IsSteady s
    → (rounds c fl s rs ≡ err io_error) ⊎ ((t : Session) × (rounds c fl s rs ≡ ok t) × IsSteady t)
rounds-IsSteady c fl s rs h = Steady-cases (rounds c fl s rs) (rounds-Steady c fl s rs h)
