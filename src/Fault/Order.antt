-- ===== src/Fault/Order.antt =====
-- When and in which order the injector of src/fault.rs lets datagrams go.
use qstream.Base.{
  ℕ, ◌<◌, ◌≡◌, refl, sym, ap, ◌∙◌, ◌↔◌, Bool, true, false, ltb, ◌==◌, ◌||◌, lt→ltb, Bool-cases, inl,
  inr, if◌then◌else◌, none, some, List, [], ◌∷◌, ◌++◌, append_assoc, append-nil, arith,
}
use qstream.Fault.Injector.{
  Datagram, FaultInjector, Link, enabled, in_burst, roll_if, transmit, pipeline_copy, pipeline,
  reordered, send_reordered, send, release_due, release_since, release_held, drain, next_deadline,
}
use qstream.Fault.Ledger.{TakesAll}

roll_if_zero : (f : FaultInjector) (pct : ℕ) → ltb 0 pct ≡ false → roll_if f pct ≡ (false, f)
unfolding roll_if
roll_if_zero f pct e = rw e

-- No rate that changes a single datagram is set.
abbrev pub OnlyReorders : FaultInjector → Type 0
OnlyReorders f = (ltb 0 f.drop_pct ≡ false) × (ltb 0 f.dup_pct ≡ false) × (ltb 0 f.delay_ms ≡ false)

copy-transmit :
    (l : Link) (d : Datagram) (now : ℕ)
    → OnlyReorders l.fault
    → pipeline_copy l d now ≡ transmit l d
unfolding pipeline_copy
copy-transmit l d now o = rw (roll_if_zero l.fault l.fault.drop_pct o.0, o.2)

pipeline-transmit :
    (l : Link) (d : Datagram) (now : ℕ) → OnlyReorders l.fault → pipeline l d now ≡ transmit l d
unfolding pipeline
pipeline-transmit l d now o =
    rw (roll_if_zero l.fault l.fault.dup_pct o.1) (copy-transmit l d now o)

or_false : (a b : Bool) → (a || b) ≡ false → (a ≡ false) × (b ≡ false)
or_false a b h = ground arith

-- With no fault configured `send` hands the datagram to the socket and does nothing else.
pub send_disabled :
    (l : Link) (d : Datagram) (now : ℕ) → enabled l.fault ≡ false → send l d now ≡ transmit l d
unfolding enabled send in_burst
send_disabled l d now off =
    let f = l.fault in
    let (off', burst) = or_false _ (ltb 0 f.burst_every_ms) off in
    let (off'', delay) = or_false _ (ltb 0 f.delay_ms) off' in
    let (off''', reorder) = or_false _ (ltb 0 f.reorder_pct) off'' in
    let (drop, dup) = or_false (ltb 0 f.drop_pct) (ltb 0 f.dup_pct) off''' in
    let quiet : (f.burst_every_ms == 0) ≡ true = ground (arith, burst) in
    rw (quiet, reorder) (pipeline-transmit l d now (drop, dup, delay))

transmit-sent :
    (l : Link) (d : Datagram)
    → TakesAll l
    → ((transmit l d).socket.sent ≡ l.socket.sent ++ d ∷ [])
      × ((transmit l d).fault.held ≡ l.fault.held)
      × ((transmit l d).fault.delayed ≡ l.fault.delayed)
      × TakesAll (transmit l d)
      × (OnlyReorders l.fault → OnlyReorders (transmit l d).fault)
unfolding transmit
transmit-sent l d all = rw (all d) (refl, refl, refl, all, λ o. o)

-- With reordering on, with no loss, duplication or delay configured, and on a socket that takes every
-- datagram: with a datagram `h` held back, `send` outside a burst puts the new one on the wire first
-- and `h` behind it, and holds nothing back any more.
pub send_swaps :
    (l : Link) (d h : Datagram) (since now : ℕ)
    → TakesAll l
    → OnlyReorders l.fault
    → in_burst l.fault now ≡ false
    → 0 < l.fault.reorder_pct
    → l.fault.held ≡ some (since, h)
    → ((send l d now).socket.sent ≡ l.socket.sent ++ d ∷ h ∷ [])
      × ((send l d now).fault.held ≡ none)
unfolding send send_reordered reordered
send_swaps l d h since now all o calm on e =
    let k : Link = record l { fault = record (l.fault) { held = none } } in
    let (s, n, _, t, keep) = transmit-sent k d all in
    let (s', n', _, _, _) = transmit-sent (transmit k d) h t in
    rw (calm, lt→ltb 0 l.fault.reorder_pct on, e, reordered)
      (rw (pipeline-transmit k d now o, pipeline-transmit (transmit k d) h now (keep o))
        (s' ∙ ap (λ x. x ++ h ∷ []) s ∙ append_assoc l.socket.sent (d ∷ []) (h ∷ []), n' ∙ n))

-- The datagrams that `drain` finds due: those in front of the first that is not.
abbrev pub due_prefix : ℕ → List (ℕ × Datagram) → List Datagram
due_prefix now [] = []
due_prefix now ((due, d) ∷ q) = if ltb now due then [] else d ∷ due_prefix now q

abbrev pub not_due : ℕ → List (ℕ × Datagram) → List (ℕ × Datagram)
not_due now [] = []
not_due now ((due, d) ∷ q) = if ltb now due then (due, d) ∷ q else not_due now q

release_due-sent :
    (q : List (ℕ × Datagram)) (l : Link) (now : ℕ)
    → TakesAll l
    → ((release_due q l now).socket.sent ≡ l.socket.sent ++ due_prefix now q)
      × ((release_due q l now).fault.delayed ≡ not_due now q)
      × ((release_due q l now).fault.held ≡ l.fault.held)
unfolding release_due
release_due-sent [] l now all = (sym (append-nil l.socket.sent), refl, refl)
release_due-sent ((due, d) ∷ q) l now all = elim (Bool-cases (ltb now due)) [
  | inl early ↦ rw early (sym (append-nil l.socket.sent), refl, refl)
  | inr ready ↦
      let (s, n, y, t, _) = transmit-sent l d all in
      let (r, x, u) = release_due-sent q (transmit l d) now t in
      rw ready (
        r
            ∙ ap (λ v. v ++ due_prefix now q) s
            ∙ append_assoc l.socket.sent (d ∷ []) (due_prefix now q),
        x,
        u ∙ n,
      )
]

-- On a socket that takes every datagram and with nothing held back, `drain` puts the datagrams that
-- are due on the wire in the order in which they were queued, and keeps the queue from the first that
-- is not due on.
pub drain_in_order :
    (l : Link) (now : ℕ)
    → TakesAll l
    → l.fault.held ≡ none
    → ((drain l now).socket.sent ≡ l.socket.sent ++ due_prefix now l.fault.delayed)
      × ((drain l now).fault.delayed ≡ not_due now l.fault.delayed)
unfolding drain release_held release_since
drain_in_order l now all e =
    let (r, x, u) = release_due-sent l.fault.delayed l now all in
    let h : (release_due l.fault.delayed l now).fault.held ≡ none = u ∙ e in
    rw (h, release_since) (r, x)

-- `next_deadline` lies in the future.
pub next_deadline_future : (f : FaultInjector) (now t : ℕ) → next_deadline f now ≡ some t → now < t
unfolding next_deadline
next_deadline_future f now t e = ground arith

-- `next_deadline` is none exactly when nothing waits.
pub next_deadline_idle :
    (f : FaultInjector) (now : ℕ)
    → (next_deadline f now ≡ none) ↔ ((f.delayed ≡ []) × (f.held ≡ none))
unfolding next_deadline
next_deadline_idle f now = (λ e. ground arith, λ h. ground arith)
