-- ===== src/Transfer/Sender/GivesUp.antt =====
-- A sender of src/transfer.rs that hears nothing ends.
use qstream.Base.{
  ℕ, zero, suc, ◌+◌, ◌-◌, ◌*◌, ◌%◌, ◌^◌, ◌≤◌, ◌<◌, ◌≡◌, refl, ◌∙◌, ap, ltb→lt, true, false, leb,
  ltb, ◌&&◌, Bool-cases, inl, inr, ◌⊎◌, Option, none, some, min, max, arith,
}
use mathlib.Core.Option
use native.Mathlib.Nat.{pow-suc}
use qstream.Net.{as_u16}
use qstream.Clock.{ms, saturating_mul}
use qstream.Fault.Injector.{Link}
use qstream.Transfer.Timing.{Settings, retry_interval, ack_timeout}
use qstream.Transfer.Sender.{
  SenderTransfer, sender_deadline, after_chunk, arm_ack, tick_send, tick_ack, tick, resend, ack_due,
  send_packets, Verdict, alive, gave_up,
}
use qstream.Transfer.Sender.Safety.{IsSound, send_chunk_runs, after_chunk-IsSound, tick_ack-IsSound}

-- The event loop with no incoming datagram: it sleeps until the sender's deadline and ticks it.
unfoldable pub wait_loop : Settings → ℕ → SenderTransfer → Link → Option (SenderTransfer × Verdict)
wait_loop c zero t l = some (t, alive)
wait_loop c (suc rounds) t l = elim (tick c t l (sender_deadline t)) [
  | none ↦ none
  | some ((u, gave_up), m) ↦ some (u, gave_up)
  | some ((u, alive), m) ↦ wait_loop c rounds u m
]

-- A window that is not empty, whose timer runs once it is sent.
pub record IsArmed (t : SenderTransfer) : Type 0 where
  pub some_packets : 0 < t.count
  pub timer : (t.range_sent < t.count) ⊎ ((ack : ℕ) × (t.ack_deadline ≡ some ack))

-- What is left before the sender gives up: its retries, each a whole window, and its window.
measure : SenderTransfer → ℕ
measure t = (30 - t.retry_count) * suc t.count + (t.count - t.range_sent) + 1

measure_pos : (t : SenderTransfer) → 0 < measure t
unfolding measure
measure_pos t = omega arith

pow_pos : (k : ℕ) → 0 < 2 ^ k
pow_pos zero = omega arith
pow_pos (suc k) = rw (pow-suc 2 k) (omega (arith, pow_pos k))

-- The ack timer runs for 300 ms at least and for 8 s at most.
pub retry_interval_bounds :
    (c : Settings) (count rtt retries : ℕ)
    → (300000000 ≤ retry_interval c count rtt retries)
      × (retry_interval c count rtt retries ≤ 8000000000)
unfolding retry_interval ack_timeout
retry_interval_bounds c count rtt retries =
    let p = pow_pos (min retries 4) in
    let x =
      max (ms (max ((count * c.pace_ms + c.quiet_ms + 100) % 2 ^ 64) 300))
        (saturating_mul rtt 2 + ms 150) in
    let big : 300000000 ≤ x = omega arith in
    let grows : x ≤ x * 2 ^ min retries 4 = grind arith in (omega (arith, big, grows), omega arith)

-- One wait and tick: a chunk of the window is sent, or the timer has run out.
record Progress (t u : SenderTransfer) : Type 0 where
  armed : IsArmed u
  less : measure u < measure t

sends_on :
    (c : Settings) (t : SenderTransfer)
    → IsArmed t
    → t.range_sent < t.count
    → let u = after_chunk c t (min (t.count - t.range_sent) 8) t.send_deadline in
      (tick_ack u t.send_deadline ≡ (u, alive)) × Progress t u
unfolding after_chunk arm_ack tick_ack ack_due measure
sends_on c t a lt =
    let b = retry_interval_bounds c t.count t.rtt_est t.retry_count in
    elim (Bool-cases (leb t.count (t.range_sent + min (t.count - t.range_sent) 8))) [
      | inl full ↦ rw full (
        ground (arith, b),
        record {
          armed = record { some_packets = a.some_packets; timer = inr (_, refl) };
          less = ground arith;
        },
      )
      | inr part ↦
          rw (part, part)
            (
              refl,
              record {
                armed = record { some_packets = a.some_packets; timer = inl (ground arith) };
                less = ground arith;
              },
            )
    ]

fewer : (r n left : ℕ) → r < 30 → (30 - (r + 1)) * suc n + (n - 0) + 1 < (30 - r) * suc n + left + 1
fewer r n left h = let e : 30 - r ≡ suc (30 - (r + 1)) = omega arith in rw e (omega arith)

times_out :
    (t : SenderTransfer) (ack : ℕ)
    → IsArmed t
    → t.count ≤ t.range_sent
    → t.ack_deadline ≡ some ack
    → (((tick_ack t ack).1 ≡ gave_up)
        ⊎ (((tick_ack t ack).1 ≡ alive) × Progress t (tick_ack t ack).0))
unfolding tick_ack resend ack_due measure
times_out t ack a le e =
    let due : (leb t.count t.range_sent && ack_due t.ack_deadline ack) ≡ true = ground arith in
    rw due (elim (Bool-cases (ltb 30 (t.retry_count + 1))) [
      | inl over ↦ rw over (inl refl)
      | inr again ↦ rw again (
          inr (
            refl,
            record {
              armed = record { some_packets = a.some_packets; timer = inl a.some_packets };
              less = fewer t.retry_count t.count (t.count - t.range_sent) (ground arith);
            },
          ))
    ])

tick_sends :
    (c : Settings) (t : SenderTransfer) (l m : Link)
    → IsArmed t
    → (lt : t.range_sent < t.count)
    → send_packets t l
        (as_u16 (t.start + t.range_sent))
        0
        (min (t.count - t.range_sent) 8)
        t.send_deadline
      ≡ some m
    → tick c t l (sender_deadline t)
      ≡ some ((after_chunk c t (min (t.count - t.range_sent) 8) t.send_deadline, alive), m)
unfolding tick tick_send sender_deadline
tick_sends c t l m a lt q =
    let (quiet, _) = sends_on c t a lt in
    let early : leb t.count t.range_sent ≡ false = ground arith in
    let go : (ltb t.range_sent t.count && leb t.send_deadline t.send_deadline) ≡ true =
      ground arith in
    rw early (rw (go, q) (rw quiet))

tick_times_out :
    (c : Settings) (t : SenderTransfer) (l : Link) (ack : ℕ)
    → t.count ≤ t.range_sent
    → t.ack_deadline ≡ some ack
    → tick c t l (sender_deadline t) ≡ some (tick_ack t ack, l)
unfolding tick tick_send sender_deadline
tick_times_out c t l ack le e =
    let full : leb t.count t.range_sent ≡ true = ground arith in
    let none_left : ltb t.range_sent t.count ≡ false = ground arith in
    let at : Option.get_or t.ack_deadline t.send_deadline ≡ ack = ground (arith, e) in
    rw full (rw at (rw none_left))

loop_step :
    (c : Settings) (rounds : ℕ) (t : SenderTransfer) (l : Link) {u : SenderTransfer} {v : Verdict}
    {m : Link}
    → tick c t l (sender_deadline t) ≡ some ((u, v), m)
    → wait_loop c (suc rounds) t l
      ≡ elim v [ gave_up ↦ some (u, gave_up) | alive ↦ wait_loop c rounds u m ]
unfolding wait_loop
loop_step c rounds t l {v = gave_up} e = rw (e, wait_loop)
loop_step c rounds t l {v = alive} e = rw (e, wait_loop)

wait_loop_ends :
    (c : Settings) (rounds : ℕ) (t : SenderTransfer) (l : Link)
    → IsSound t
    → IsArmed t
    → measure t ≤ rounds
    → (u : SenderTransfer) × (wait_loop c rounds t l ≡ some (u, gave_up))
wait_loop_ends c zero t l s a h = absurd (omega (arith, measure_pos t, h))
wait_loop_ends c (suc rounds) t l s a h = elim (Bool-cases (ltb t.range_sent t.count)) [
  | inl left ↦
      let lt : t.range_sent < t.count = ltb→lt _ _ left in
      let (m, q) = send_chunk_runs t l t.send_deadline s lt in
      let (_, p) = sends_on c t a lt in
      let (u, r) =
        wait_loop_ends c rounds _ m (after_chunk-IsSound c t t.send_deadline s) p.armed
          (omega (arith, p.less, h)) in
      (u, loop_step c rounds t l (tick_sends c t l m a lt q) ∙ r)
  | inr sent ↦ elim a.timer [
    | inl lt ↦ absurd (ground arith)
    | inr (ack, e) ↦
        let le : t.count ≤ t.range_sent = ground arith in
        let k = tick_ack t ack in
        let ticked = λ (v : Verdict) (q : k.1 ≡ v).
          tick_times_out c t l ack le e ∙ ap (λ (w : Verdict). some ((k.0, w), l)) q in
        elim (times_out t ack a le e) [
          | inl over ↦ (k.0, loop_step c rounds t l (ticked gave_up over))
          | inr (again, p) ↦
              let (u, r) =
                wait_loop_ends c rounds k.0 l (tick_ack-IsSound t ack s again) p.armed
                  (omega (arith, p.less, h)) in
              (u, loop_step c rounds t l (ticked alive again) ∙ r)
        ]
  ]
]

-- A sender that hears no ACK gives up: if it is inside its file, its window is not empty, and the
-- window has a packet to send or its ack timer is set, then the event loop that sleeps until the
-- sender's deadline and ticks it reaches the error within 31 * (count + 1) ticks, where `count` is the
-- length of the window, and never panics.
pub sender_gives_up :
    (c : Settings) (rounds : ℕ) (t : SenderTransfer) (l : Link)
    → IsSound t
    → IsArmed t
    → 31 * suc t.count ≤ rounds
    → (u : SenderTransfer) × (wait_loop c rounds t l ≡ some (u, gave_up))
unfolding measure
sender_gives_up c rounds t l s a h =
    let most : (30 - t.retry_count) * suc t.count ≤ 30 * suc t.count = grind arith in
    wait_loop_ends c rounds t l s a (omega (arith, most, h))
