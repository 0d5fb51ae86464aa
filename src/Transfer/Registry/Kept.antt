-- ===== src/Transfer/Registry/Kept.antt =====
-- Every operation of the registry of src/transfer.rs keeps its bounds, and its senders inside their files.
use qstream.Base.{
  ℕ, suc, ◌+◌, ◌≤◌, ◌≡◌, refl, ap, Bool, not, leb, Bool-cases, Option-cases, inl, inr, ◌⊎◌,
  if◌then◌else◌, Option, none, some, List, [], ◌∷◌, ◌++◌, length, arith,
}
use qstream.Net.{SocketAddr}
use qstream.Protocol.Types.{AckType}
use qstream.Fault.Injector.{Link}
use qstream.Transfer.Timing.{Settings}
use qstream.Transfer.Packets.{valid_filename}
use qstream.Transfer.Table.Each.{
  length-remove, length-remove_all, length-put, Each, Each-remove, Each-put, Each-find, Excepting,
  Excepting-more, remove_all-Each,
}
use qstream.Transfer.Table.{find, insert, remove_all}
use qstream.Transfer.Sender
use qstream.Transfer.Sender.{SenderTransfer, Verdict, alive, gave_up, new_sender}
use qstream.Transfer.Sender.Safety.{IsSound, new_sender-IsSound, tick-IsSound, on_ack-IsSound}
use qstream.Transfer.Receiver
use qstream.Transfer.Receiver.{
  ReceiverTransfer, World, not_ready, absent, new_receiver, fail, mark_not_found,
}
use qstream.Transfer.Receiver.Timer.{on_tick}
use qstream.Transfer.Registry.{
  TransferRegistry, new_registry, active_count, reject_not_found, serve, fresh_id, start_receiver,
  on_content, on_ack, on_not_found, remove_receiver, drain_events,
}
use qstream.Transfer.Registry.Tick.{Ticked, ticked_one, tick_senders, tick_receivers, tick, begun}

-- At most 32 transfers, and every sender inside its file.
pub record IsSafe (r : TransferRegistry) : Type 0 where
  pub bounded : active_count r ≤ 32
  pub sound : Each IsSound r.senders

pub new_registry-IsSafe : IsSafe new_registry
unfolding new_registry active_count
new_registry-IsSafe = record { bounded = omega arith; sound = tt }

-- The ticks of sound senders: no panic, and only the expired are no longer sound.
record Passes (xs : List (ℕ × SenderTransfer)) (t : Ticked) : Type 0 where
  kept : Excepting IsSound t.expired t.senders
  count : length t.senders ≡ length xs

ticked_one-Passes :
    (id : ℕ) (t u : SenderTransfer) (xs : List (ℕ × SenderTransfer)) (v : Verdict) (rest : Ticked)
    → (v ≡ gave_up) ⊎ IsSound u
    → Passes xs rest
    → Passes ((id, t) ∷ xs) (ticked_one id u v rest)
unfolding ticked_one
ticked_one-Passes id t u xs alive rest (inl e) p = absurd (ground arith)
ticked_one-Passes id t u xs alive rest (inr s) p = record {
  kept = (inl s, p.kept);
  count = ap suc p.count;
}
ticked_one-Passes id t u xs gave_up rest s p = record {
  kept = (inr (inl refl), Excepting-more IsSound id rest.expired rest.senders p.kept);
  count = ap suc p.count;
}

tick_senders-Passes :
    (c : Settings) (xs : List (ℕ × SenderTransfer)) (l : Link) (now : ℕ)
    → Each IsSound xs
    → (t : Ticked) × (tick_senders c xs l now ≡ some t) × Passes xs t
unfolding tick_senders
tick_senders-Passes c [] l now h = (_, refl, record { kept = tt; count = refl })
tick_senders-Passes c ((id, t) ∷ xs) l now (s, h) =
    let (u, v, m, q, s') = tick-IsSound c t l now s in
    let (rest, q', p) = tick_senders-Passes c xs m now h in
    (ticked_one id u v rest, rw (q, tick_senders, q') refl, ticked_one-Passes id t u xs v rest s' p)

length-tick_receivers :
    (c : Settings) (xs : List (ℕ × ReceiverTransfer)) (w : World) (now : ℕ)
    → length (tick_receivers c xs w now).0 ≡ length xs
unfolding tick_receivers
length-tick_receivers c [] w now = refl
length-tick_receivers c ((id, t) ∷ xs) w now = elim (Option-cases t.outcome) [
  | inl q ↦ rw (q, tick_receivers) (ap suc (length-tick_receivers c xs (on_tick c t w now).1 now))
  | inr (o, q) ↦ rw (q, tick_receivers) (ap suc (length-tick_receivers c xs w now))
]

pub tick-IsSafe :
    (c : Settings) (r : TransferRegistry) (w : World) (now : ℕ)
    → IsSafe r
    → (s : TransferRegistry × World) × (tick c r w now ≡ some s) × IsSafe s.0
unfolding tick active_count
tick-IsSafe c r w now h =
    let (t, q, p) = tick_senders-Passes c r.senders w.link now h.sound in
    let v = record w { link = t.link } in
    let over = (tick_receivers c r.receivers v now).1.0 in
    let xs = (tick_receivers c r.receivers v now).0 in
    let r' : TransferRegistry = record {
      senders = remove_all t.expired t.senders;
      receivers = remove_all over xs;
      events = r.events ++ t.failures;
    } in
    (
      (r', (tick_receivers c r.receivers v now).1.1),
      rw (q, tick) refl,
      record {
        bounded = omega (
          arith,
          length-remove_all t.expired t.senders,
          p.count,
          h.bounded,
          length-remove_all over xs,
          length-tick_receivers c r.receivers v now,
        );
        sound = remove_all-Each IsSound t.expired t.senders p.kept;
      },
    )

pub serve-IsSafe :
    (r : TransferRegistry) (w : World) (names : Option (List (List ℕ))) (id : ℕ) (filename : List ℕ)
    (src : SocketAddr) (now : ℕ)
    → IsSafe r
    → IsSafe (serve r w names id filename src now).0
unfolding serve reject_not_found active_count insert
serve-IsSafe r w names id filename src now h = elim (Bool-cases (not (valid_filename filename))) [
  | inl bad ↦ rw bad (record { bounded = h.bounded; sound = h.sound })
  | inr good ↦ rw good (elim (Bool-cases (leb 32 (length r.senders + length r.receivers))) [
    | inl full ↦ rw full (record { bounded = h.bounded; sound = h.sound })
    | inr room ↦ rw room (elim (Option-cases (w.disk.files filename)) [
      | inl q ↦ rw (q, serve) (record { bounded = h.bounded; sound = h.sound })
      | inr (file, q) ↦
          rw (q, serve)
            (record {
              bounded = ground (arith, length-remove id r.senders);
              sound =
                  (new_sender-IsSound id src file now, Each-remove IsSound id r.senders h.sound);
            })
    ])
  ])
]

abbrev pub Started : Option ((TransferRegistry × Link) × Option ℕ) → Type 0
Started none = Unit
Started (some ((r, l), id)) = IsSafe r

pub start_receiver-Started :
    (c : Settings) (r : TransferRegistry) (l : Link) (draws : List ℕ) (remote : SocketAddr)
    (filename : List ℕ) (now : ℕ)
    → IsSafe r
    → Started (start_receiver c r l draws remote filename now)
unfolding start_receiver active_count insert
start_receiver-Started c r l draws remote filename now h =
    elim (Bool-cases (leb 32 (length r.senders + length r.receivers))) [
      | inl full ↦ rw full h
      | inr room ↦ rw room (elim (Option-cases (fresh_id r draws)) [
        | inl q ↦ rw q tt
        | inr (id, q) ↦
            rw q
              (record { bounded = ground (arith, length-remove id r.receivers); sound = h.sound })
      ])
    ]

begun-IsSafe :
    (r : TransferRegistry) (w : World) (o : Option ((TransferRegistry × Link) × Option ℕ))
    → IsSafe r
    → Started o
    → IsSafe (begun (r, w) o).0
unfolding begun
begun-IsSafe r w none h g = h
begun-IsSafe r w (some ((r', l), id)) h g = g

pub on_content-IsSafe :
    (c : Settings) (r : TransferRegistry) (w : World) (id pn total : ℕ) (bytes : List ℕ) (now : ℕ)
    → IsSafe r
    → IsSafe (on_content c r w id pn total bytes now).0
unfolding on_content active_count
on_content-IsSafe c r w id pn total bytes now h = elim (Option-cases (find id r.receivers)) [
  | inl q ↦ rw (q, on_content) h
  | inr (t, q) ↦
      rw (q, on_content)
        (record {
          bounded = omega (
            arith,
            h.bounded,
            length-put id (Receiver.on_content c t w pn total bytes now).0 r.receivers,
          );
          sound = h.sound;
        })
]

pub on_ack-IsSafe :
    (c : Settings) (r : TransferRegistry) (id : ℕ) (k : AckType) (start count now : ℕ)
    → IsSafe r
    → IsSafe (on_ack c r id k start count now)
unfolding on_ack active_count
on_ack-IsSafe c r id k start count now h = elim (Option-cases (find id r.senders)) [
  | inl q ↦ rw (q, on_ack) h
  | inr (t, q) ↦
      let u = (Sender.on_ack c t k start count now).0 in
      rw (q, on_ack)
        (elim (Bool-cases (Sender.on_ack c t k start count now).1) [
          | inl over ↦ rw over (record {
            bounded = omega (arith, h.bounded, length-remove id r.senders);
            sound = Each-remove IsSound id r.senders h.sound;
          })
          | inr again ↦ rw again (record {
            bounded = omega (arith, h.bounded, length-put id u r.senders);
            sound =
                Each-put IsSound id u r.senders
                  (on_ack-IsSound c t k start count now
                    (Each-find IsSound id r.senders t h.sound q))
                  h.sound;
          })
        ])
]

pub on_not_found-IsSafe :
    (r : TransferRegistry) (id : ℕ) (retryable : Bool) (now : ℕ)
    → IsSafe r
    → IsSafe (on_not_found r id retryable now).0
unfolding on_not_found active_count
on_not_found-IsSafe r id retryable now h = elim (Option-cases (find id r.receivers)) [
  | inl q ↦ rw (q, on_not_found) h
  | inr (t, q) ↦
      rw (q, on_not_found)
        (record {
          bounded = omega (
            arith,
            h.bounded,
            length-put id
                (fail (mark_not_found t retryable) (if retryable then not_ready else absent) now)
                r.receivers,
          );
          sound = h.sound;
        })
]

pub reject_not_found-IsSafe :
    (r : TransferRegistry) (l : Link) (names : Option (List (List ℕ))) (id : ℕ) (src : SocketAddr)
    (retryable : Bool) (now : ℕ)
    → IsSafe r
    → IsSafe (reject_not_found r l names id src retryable now).0
unfolding reject_not_found active_count
reject_not_found-IsSafe r l names id src retryable now h = record {
  bounded = h.bounded;
  sound = h.sound;
}

pub begun-start_receiver-IsSafe :
    (c : Settings) (r : TransferRegistry) (w : World) (draws : List ℕ) (remote : SocketAddr)
    (filename : List ℕ) (now : ℕ)
    → IsSafe r
    → IsSafe (begun (r, w) (start_receiver c r w.link draws remote filename now)).0
begun-start_receiver-IsSafe c r w draws remote filename now h =
    begun-IsSafe r w (start_receiver c r w.link draws remote filename now) h
      (start_receiver-Started c r w.link draws remote filename now h)

pub remove_receiver-IsSafe :
    (r : TransferRegistry) (id : ℕ) → IsSafe r → IsSafe (remove_receiver r id)
unfolding remove_receiver active_count
remove_receiver-IsSafe r id h = record {
  bounded = omega (arith, h.bounded, length-remove id r.receivers);
  sound = h.sound;
}

pub drain_events-IsSafe : (r : TransferRegistry) → IsSafe r → IsSafe (drain_events r).0
unfolding drain_events active_count
drain_events-IsSafe r h = record { bounded = h.bounded; sound = h.sound }
