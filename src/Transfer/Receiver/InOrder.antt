-- ===== src/Transfer/Receiver/InOrder.antt =====
-- A download of src/transfer.rs on a link that loses nothing: the packets arrive in order.
use qstream.Base.{
  ℕ, suc, ◌+◌, ◌*◌, ◌≤◌, ◌<◌, leb, ◌&&◌, ◌≡◌, refl, sym, ap, ◌∙◌, true, false, ltb, ◌==◌, ◌||◌,
  none, some, List, [], ◌∷◌, ◌++◌, length, arith,
}
use qstream.Net.{SocketAddr}
use qstream.Transfer.Timing.{Settings}
use qstream.Transfer.Packets.{packet_count}
use qstream.Transfer.Sender.Safety.{piece, packet_count_bounds}
use qstream.Transfer.Assembly.{tmp_suffix}
use qstream.Transfer.Receiver.{
  ReceiverTransfer, World, saved, new_receiver, first_contact, accept, dispatch, on_content,
}
use qstream.Transfer.Receiver.Timer.{
  is_empty, resend_request, quiet_tick, first_response_tick, on_tick,
}
use qstream.Clock.{ms}
use qstream.Transfer.Receiver.Waiting.{Waiting, new_receiver-Waiting, tick-Waiting, first-Reached}
use qstream.Transfer.Receiver.Pull.{Step, arrives, ticks, pull, pull_step, pull-saves}
use qstream.Transfer.Receiver.NextPacket.{
  patience, pieces, Reached, contacted, accept_next, accept_last,
}

opened :
    (c : Settings) (r : ReceiverTransfer) (w : World) (pn n : ℕ) (p : List ℕ) (now : ℕ)
    → r.outcome ≡ none
    → on_content c r w pn n p now
      ≡ (let x = first_contact c r n now in dispatch c x w x.total x.range pn p now)
unfolding on_content
opened c r w pn n p now o = simp (o, on_content)

-- A packet that comes in with the first contact behind it goes to `accept`.
accepted :
    (c : Settings) (file name : List ℕ) (n k : ℕ) (r : ReceiverTransfer) (w : World) (p : List ℕ)
    (now : ℕ)
    → suc k ≤ n
    → (s : Reached file name n k r)
    → on_content c r w (suc k) n p now ≡ accept c r w n (s.start, s.count) (suc k) p now
unfolding on_content dispatch
accepted c file name n k r w p now more s =
    let number : (suc k == 0 || ltb n (suc k)) ≡ false = ground arith in
    opened c r w (suc k) n p now s.open_still
    ∙ (ap (λ (x : ReceiverTransfer). dispatch c x w x.total x.range (suc k) p now)
          (contacted c r n now s.total)
        ∙ ap (λ t. dispatch c r w t r.range (suc k) p now) s.total
        ∙ ap (λ q. dispatch c r w (some n) q (suc k) p now) s.range
        ∙ rw number refl)

ticked :
    (c : Settings) (r : ReceiverTransfer) (w : World) (t : ℕ)
    → r.outcome ≡ none
    → on_tick c r w t ≡ (let (r', w') = resend_request c r w t in first_response_tick c r' w' t)
unfolding on_tick
ticked c r w t o = simp (o, on_tick)

resend_idle :
    (c : Settings) (r : ReceiverTransfer) (w : World) (t : ℕ)
    → is_empty r.packets ≡ false
    → resend_request c r w t ≡ (r, w)
unfolding resend_request
resend_idle c r w t p = simp p

first_response_idle :
    (c : Settings) (r : ReceiverTransfer) (w : World) (t : ℕ)
    → is_empty r.packets ≡ false
    → t < r.quiet_deadline
    → first_response_tick c r w t ≡ (r, w)
unfolding first_response_tick quiet_tick
first_response_idle c r w t p q =
    let early : leb r.quiet_deadline t ≡ false = ground arith in
    let heard : (leb r.first_response_deadline t && is_empty r.packets) ≡ false = ground arith in
    simp (heard, early)

-- A tick before the quiet deadline does nothing once a packet is there.
tick_idle :
    (c : Settings) (r : ReceiverTransfer) (w : World) (t : ℕ)
    → r.outcome ≡ none
    → is_empty r.packets ≡ false
    → t < r.quiet_deadline
    → on_tick c r w t ≡ (r, w)
tick_idle c r w t o p q =
    ticked c r w t o
    ∙ ap (λ (x : ReceiverTransfer × World). first_response_tick c x.0 x.1 t) (resend_idle c r w t p)
    ∙ first_response_idle c r w t p q

-- Ticks at the given instants, then the rest.
abbrev pub ticking : List ℕ → List Step → List Step
ticking [] xs = xs
ticking (t ∷ ts) xs = ticks t ∷ ticking ts xs

-- The packets behind the first `k`, in order, each with the instants of the ticks before it and the
-- instant at which it arrives.
abbrev pub timetable : ℕ → List (List ℕ × ℕ) → List Step
timetable k [] = []
timetable k ((ts, at) ∷ rest) = ticking ts (arrives (suc k) at ∷ timetable (suc k) rest)

abbrev pub AllBefore : ℕ → List ℕ → Type 0
AllBefore limit [] = Unit
AllBefore limit (t ∷ ts) = (t < limit) × AllBefore limit ts

-- The ticks before the first packet come before `limit`, those before a later one within the quiet
-- period after the packet in front of it.
abbrev pub IsTimely : Settings → ℕ → List (List ℕ × ℕ) → Type 0
IsTimely c limit [] = Unit
IsTimely c limit ((ts, at) ∷ rest) = AllBefore limit ts × IsTimely c (at + patience c) rest

ticks_idle :
    (c : Settings) (file : List ℕ) (r : ReceiverTransfer) (w : World) (limit : ℕ) (ts : List ℕ)
    (xs : List Step)
    → r.outcome ≡ none
    → is_empty r.packets ≡ false
    → limit ≤ r.quiet_deadline
    → AllBefore limit ts
    → pull c file (r, w) (ticking ts xs) ≡ pull c file (r, w) xs
unfolding pull pull_step
ticks_idle c file r w limit [] xs o p q h = refl
ticks_idle c file r w limit (t ∷ ts) xs o p q (before, h) =
    ap (λ y. pull c file y (ticking ts xs)) (tick_idle c r w t o p (omega (arith, before, q)))
    ∙ ticks_idle c file r w limit ts xs o p q h

holds_some :
    (file : List ℕ) (k : ℕ) (ps : List (ℕ × List ℕ))
    → ps ≡ pieces file (suc k)
    → is_empty ps ≡ false
unfolding pieces is_empty
holds_some file k ps e = ap is_empty e

-- From the arrival of packet `k + 1` on.
rest_saved :
    (c : Settings) (file name : List ℕ) (k at : ℕ) (rest : List (List ℕ × ℕ)) (r : ReceiverTransfer)
    (w : World)
    → k + suc (length rest) ≡ packet_count (length file)
    → Reached file name (packet_count (length file)) k r
    → IsTimely c (at + patience c) rest
    → w.disk.can_write (name ++ tmp_suffix) ≡ true
    → w.disk.can_rename (name ++ tmp_suffix) name ≡ true
    → (pull c file (r, w) (arrives (suc k) at ∷ timetable (suc k) rest)).0.outcome ≡ some saved
unfolding pull pull_step
rest_saved c file name k at [] r w e s h cw cr =
    let n = packet_count (length file) in
    ap (λ (x : ReceiverTransfer × World). x.0.outcome)
      (accepted c file name n k r w (piece file (suc k)) at (omega (arith, e)) s)
    ∙ accept_last c file name n k r w at (omega (arith, e)) s cw cr
rest_saved c file name k at ((ts, next) ∷ rest) r w e s (before, h) cw cr =
    let n = packet_count (length file) in
    let b = packet_count_bounds (length file) in
    let x = accept c r w n (s.start, s.count) (suc k) (piece file (suc k)) at in
    let xs = timetable (suc k) ((ts, next) ∷ rest) in
    let (s', d, calm) = accept_next c file name n k r w at b.1 (omega (arith, e)) s in
    ap (λ y. (pull c file y xs).0.outcome)
      (accepted c file name n k r w (piece file (suc k)) at (omega (arith, e)) s)
    ∙ ap (λ (y : ReceiverTransfer × World). y.0.outcome)
        (ticks_idle c file x.0 x.1 (at + patience c) ts
          (arrives (suc (suc k)) next ∷ timetable (suc (suc k)) rest) s'.open_still
          (holds_some file k x.0.packets s'.held) calm before)
    ∙ rest_saved c file name (suc k) next rest x.0 x.1 (omega (arith, e)) s' h
        (ap (λ y. y.can_write (name ++ tmp_suffix)) d ∙ cw)
        (ap (λ y. y.can_rename (name ++ tmp_suffix) name) d ∙ cr)

first_step :
    (c : Settings) (file name : List ℕ) (limit : ℕ) (r : ReceiverTransfer) (w : World) (now : ℕ)
    (p : List ℕ)
    → Waiting c name limit r
    → let n = packet_count (length file) in
      on_content c r w 1 n p now ≡ on_content c (first_contact c r n now) w 1 n p now
first_step c file name limit r w now p h =
    let n = packet_count (length file) in
    let s = first-Reached c file name limit r now h in
    opened c r w 1 n p now h.open_still
    ∙ ap (λ (x : ReceiverTransfer). dispatch c x w x.total x.range 1 p now)
        (sym (contacted c (first_contact c r n now) n now s.total))
    ∙ sym (opened c (first_contact c r n now) w 1 n p now s.open_still)

ticking_saved :
    (c : Settings) (file name : List ℕ) (limit : ℕ) (ts : List ℕ) (at : ℕ)
    (rest : List (List ℕ × ℕ)) (r : ReceiverTransfer) (w : World)
    → suc (length rest) ≡ packet_count (length file)
    → Waiting c name limit r
    → AllBefore limit ts
    → IsTimely c (at + patience c) rest
    → w.disk.can_write (name ++ tmp_suffix) ≡ true
    → w.disk.can_rename (name ++ tmp_suffix) name ≡ true
    → (pull c file (r, w) (ticking ts (arrives 1 at ∷ timetable 1 rest))).0.outcome ≡ some saved
unfolding pull pull_step
ticking_saved c file name limit [] at rest r w e h b t cw cr =
    let n = packet_count (length file) in
    ap (λ y. (pull c file y (timetable 1 rest)).0.outcome)
      (first_step c file name limit r w at (piece file 1) h)
    ∙ rest_saved c file name 0 at rest (first_contact c r n at) w (omega (arith, e))
        (first-Reached c file name limit r at h) t cw cr
ticking_saved c file name limit (now ∷ ts) at rest r w e h (before, b) t cw cr =
    let x = on_tick c r w now in
    let (h', d) = tick-Waiting r w now h before in
    ticking_saved c file name limit ts at rest x.0 x.1 e h' b t
      (ap (λ y. y.can_write (name ++ tmp_suffix)) d ∙ cw)
      (ap (λ y. y.can_rename (name ++ tmp_suffix) name) d ∙ cr)

in_order_saved :
    (c : Settings) (file : List ℕ) (id : ℕ) (remote : SocketAddr) (name : List ℕ) (started : ℕ)
    (w : World) (schedule : List (List ℕ × ℕ))
    → length schedule ≡ packet_count (length file)
    → IsTimely c (started + ms c.first_timeout_ms) schedule
    → w.disk.can_write (name ++ tmp_suffix) ≡ true
    → w.disk.can_rename (name ++ tmp_suffix) name ≡ true
    → (pull c file (new_receiver c id remote name started, w) (timetable 0 schedule)).0.outcome
      ≡ some saved
in_order_saved c file id remote name started w [] e t cw cr =
    absurd (omega (arith, (packet_count_bounds (length file)).0, e))
in_order_saved c file id remote name started w ((ts, at) ∷ rest) e (before, t) cw cr =
    ticking_saved c file name (started + ms c.first_timeout_ms) ts at rest _ w e
      (new_receiver-Waiting c id remote name started) before t cw cr

-- A download ends in success: if the packets of a file of at most 65,535 packets arrive in order, at
-- any instants, and the directory can be written, then with the last of them the receiver has
-- succeeded and left the file under the name that it asked for. The event loop may tick the receiver
-- as often as it likes between them: before the first packet until the first-response timeout has
-- passed, and before a later one until the configured quiet period (8 s at most) has passed since the
-- packet in front of it.
pub pull-in_order :
    (c : Settings) (file : List ℕ) (id : ℕ) (remote : SocketAddr) (name : List ℕ) (started : ℕ)
    (w : World) (schedule : List (List ℕ × ℕ))
    → length file ≤ 65535 * 1400
    → length schedule ≡ packet_count (length file)
    → IsTimely c (started + ms c.first_timeout_ms) schedule
    → w.disk.can_write (name ++ tmp_suffix) ≡ true
    → w.disk.can_rename (name ++ tmp_suffix) name ≡ true
    → let s = pull c file (new_receiver c id remote name started, w) (timetable 0 schedule) in
      (s.0.outcome ≡ some saved) × (s.1.disk.files name ≡ some file)
pull-in_order c file id remote name started w schedule small size t cw cr =
    let e = in_order_saved c file id remote name started w schedule size t cw cr in
    (e, pull-saves c file id remote name started w (timetable 0 schedule) small e)
