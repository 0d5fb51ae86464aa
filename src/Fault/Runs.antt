-- ===== src/Fault/Runs.antt =====
-- Histories of the injector of src/fault.rs: calls of `send` and of `drain` in any order.
use qstream.Base.{
  ℕ, ◌+◌, ◌*◌, ◌≤◌, ◌≡◌, Bool, refl, sym, ap, ◌∙◌, ltb, leb, Bool-cases, inl, inr, Option, none,
  some, List, [], ◌∷◌, arith,
}
use qstream.Clock.{duration_since}
use qstream.Fault.Rng.{Rng}
use qstream.Fault.Injector.{
  Datagram, Link, hold_max, drop_one, transmit, send, release_due, release_held, release_since,
  drain,
}
use qstream.Fault.Steps.{reseed, Piped, Sent, burst, keep, swap, plain, send-Sent}
use qstream.Fault.Ledger.{
  count, count_queue, count_held, accounted, IsCounted, TakesAll, TakesAll-kept, drop_one-Adds,
  transmit-Adds, Piped-Pipes,
}

pub data Call : Type 0 where
  sends : (d : Datagram) (now : ℕ) → Call
  drains : (now : ℕ) → Call

unfoldable pub call : Link → Call → Link
call l (sends d now) = send l d now
call l (drains now) = drain l now

unfoldable pub run : Link → List Call → Link
unfolding call
run l [] = l
run l (c ∷ cs) = run (call l c) cs

-- The datagrams that a history sends, the newest first, in front of `done`.
abbrev pub given : List Datagram → List Call → List Datagram
given done [] = done
given done (sends d now ∷ cs) = given (d ∷ done) cs
given done (drains now ∷ cs) = given done cs

-- The datagrams `done` were given to `send`, and the copies `dropped` are lost. By any test, as many
-- of `done` pass it as copies are accounted for, or up to twice as many, and exactly as many where
-- nothing is duplicated. A datagram held back may still be duplicated.
pub record IsBalanced (done dropped : List Datagram) (l : Link) : Type 0 where
  pub takes : TakesAll l
  pub counted : IsCounted dropped l
  pub at_least : (p : Datagram → Bool) → count p done ≤ accounted p dropped l
  pub at_most :
      (p : Datagram → Bool) → accounted p dropped l + count_held p l.fault.held ≤ 2 * count p done
  pub exact : l.fault.dup_pct ≡ 0 → (p : Datagram → Bool) → accounted p dropped l ≡ count p done

module _ {done dropped : List Datagram} {l : Link} (b : IsBalanced done dropped l) where
  drop_one-IsBalanced : (d : Datagram) → IsBalanced (d ∷ done) (d ∷ dropped) (drop_one l)
  drop_one-IsBalanced d =
      let a = drop_one-Adds dropped l l.fault.rng d in
      record {
        takes = TakesAll-kept l (drop_one l) a.accepts b.takes;
        counted = a.counted b.counted;
        at_least = λ p. omega (arith, a.copies p, b.at_least p);
        at_most = λ p. omega (arith, a.copies p, b.at_most p, ap (count_held p) a.held);
        exact = λ z p. omega (arith, a.copies p, b.exact (sym a.dup_pct ∙ z) p);
      }

  keep-IsBalanced :
      (r : Rng) (d : Datagram) (now : ℕ)
      → l.fault.held ≡ none
      → IsBalanced
          (d ∷ done)
          dropped
          (record l { fault = record (l.fault) { rng = r; held = some (now, d) } })
  keep-IsBalanced r d now e =
      let empty = λ (p : Datagram → Bool). ap (count_held p) e in
      record {
        takes = b.takes;
        counted = b.counted;
        at_least = λ p. omega (arith, b.at_least p, empty p);
        at_most = λ p. omega (arith, b.at_most p, empty p);
        exact = λ z p. omega (arith, b.exact z p, empty p);
      }

  plain-IsBalanced :
      {d : Datagram} {now : ℕ} {m : Link} (r : Rng)
      → Piped (reseed l r) d now m
      → (gone : List Datagram) × IsBalanced (d ∷ done) gone m
  plain-IsBalanced {m = m} r q =
      let (gone, a) = Piped-Pipes dropped b.takes q in
      (
        gone,
        record {
          takes = TakesAll-kept l m a.accepts b.takes;
          counted = a.counted b.counted;
          at_least = λ p. omega (arith, a.low p, b.at_least p);
          at_most = λ p. omega (arith, a.high p, b.at_most p, ap (count_held p) a.held);
          exact = λ z p.
              let z' : l.fault.dup_pct ≡ 0 = sym a.dup_pct ∙ z in
              omega (arith, a.exact z' p, b.exact z' p);
        },
      )

  swap-IsBalanced :
      {d h : Datagram} {now : ℕ} {k m : Link} (since : ℕ)
      → l.fault.held ≡ some (since, h)
      → Piped (record l { fault = record (l.fault) { held = none } }) d now k
      → Piped k h now m
      → (gone : List Datagram) × IsBalanced (d ∷ done) gone m
  swap-IsBalanced {k = k} {m = m} since e q q' =
      let (gone, a) = Piped-Pipes dropped b.takes q in
      let (gone', c) = Piped-Pipes gone (TakesAll-kept l k a.accepts b.takes) q' in
      let full = λ (p : Datagram → Bool). ap (count_held p) e in
      let empty = λ (p : Datagram → Bool). ap (count_held p) (c.held ∙ a.held) in
      (
        gone',
        record {
          takes = TakesAll-kept l m (c.accepts ∙ a.accepts) b.takes;
          counted = c.counted (a.counted b.counted);
          at_least = λ p. omega (arith, a.low p, c.low p, b.at_least p, full p);
          at_most = λ p. omega (arith, a.high p, c.high p, b.at_most p, full p, empty p);
          exact = λ z p.
              let zk : k.fault.dup_pct ≡ 0 = sym c.dup_pct ∙ z in
              let zl : l.fault.dup_pct ≡ 0 = sym a.dup_pct ∙ zk in
              omega (arith, a.exact zl p, c.exact zk p, b.exact zl p, full p);
        },
      )

send-IsBalanced :
    (done dropped : List Datagram) (l : Link) (d : Datagram) (now : ℕ)
    → IsBalanced done dropped l
    → (gone : List Datagram) × IsBalanced (d ∷ done) gone (send l d now)
send-IsBalanced done dropped l d now b = go (send-Sent l d now)
  where
    go : {m : Link} → Sent l d now m → (gone : List Datagram) × IsBalanced (d ∷ done) gone m
    go (burst e) = (d ∷ dropped, rw e (drop_one-IsBalanced b d))
    go (keep r none_held e) = (dropped, rw e (keep-IsBalanced b r d now none_held))
    go (swap since h k e p q) = swap-IsBalanced b since e p q
    go (plain r p) = plain-IsBalanced b r p

transmit-delayed : (l : Link) (d : Datagram) → (transmit l d).fault.delayed ≡ l.fault.delayed
unfolding transmit
transmit-delayed l d = ground arith

-- Releasing the queue `q` turns queued copies into sent ones.
record Releases (dropped : List Datagram) (q : List (ℕ × Datagram)) (l m : Link) : Type 0 where
  copies :
      (p : Datagram → Bool)
      → accounted p dropped m + count_queue p l.fault.delayed
        ≡ accounted p dropped l + count_queue p q
  counted : IsCounted dropped l → IsCounted dropped m
  accepts : m.socket.accepts ≡ l.socket.accepts
  dup_pct : m.fault.dup_pct ≡ l.fault.dup_pct
  held : m.fault.held ≡ l.fault.held

release_due-Releases :
    (dropped : List Datagram) (q : List (ℕ × Datagram)) (l : Link) (now : ℕ)
    → TakesAll l
    → Releases dropped q l (release_due q l now)
unfolding release_due
release_due-Releases dropped [] l now all = record {
  copies = λ p. omega arith;
  counted = λ h. h;
  accepts = refl;
  dup_pct = refl;
  held = refl;
}
release_due-Releases dropped ((due, d) ∷ q) l now all = elim (Bool-cases (ltb now due)) [
  | inl early ↦ rw early (record {
    copies = λ p. omega arith;
    counted = λ h. h;
    accepts = refl;
    dup_pct = refl;
    held = refl;
  })
  | inr ready ↦
      let a = transmit-Adds dropped l l.fault.rng d all in
      let rest =
        release_due-Releases dropped q (transmit l d) now
          (TakesAll-kept l (transmit l d) a.accepts all) in
      rw ready (record {
        copies = λ p.
            omega (arith, rest.copies p, a.copies p, ap (count_queue p) (transmit-delayed l d));
        counted = λ h. rest.counted (a.counted h);
        accepts = rest.accepts ∙ a.accepts;
        dup_pct = rest.dup_pct ∙ a.dup_pct;
        held = rest.held ∙ a.held;
      })
]

release_since-IsBalanced :
    (o : Option (ℕ × Datagram)) (done dropped : List Datagram) (l : Link) (now : ℕ)
    → l.fault.held ≡ o
    → IsBalanced done dropped l
    → IsBalanced done dropped (release_since o l now)
unfolding release_since
release_since-IsBalanced none done dropped l now e b = b
release_since-IsBalanced (some (since, d)) done dropped l now e b =
    elim (Bool-cases (leb hold_max (duration_since now since))) [
      | inr early ↦ rw early b
      | inl due ↦
          let k : Link = record l { fault = record (l.fault) { held = none } } in
          let a = transmit-Adds dropped k k.fault.rng d b.takes in
          let full = λ (p : Datagram → Bool). ap (count_held p) e in
          let empty = λ (p : Datagram → Bool). ap (count_held p) a.held in
          rw due (record {
            takes = TakesAll-kept l (transmit k d) a.accepts b.takes;
            counted = a.counted b.counted;
            at_least = λ p. omega (arith, a.copies p, full p, b.at_least p);
            at_most = λ p. omega (arith, a.copies p, full p, empty p, b.at_most p);
            exact = λ z p. omega (arith, a.copies p, full p, b.exact (sym a.dup_pct ∙ z) p);
          })
    ]

drain-IsBalanced :
    (done dropped : List Datagram) (l : Link) (now : ℕ)
    → IsBalanced done dropped l
    → IsBalanced done dropped (drain l now)
unfolding drain release_held
drain-IsBalanced done dropped l now b =
    let k = release_due l.fault.delayed l now in
    let r = release_due-Releases dropped l.fault.delayed l now b.takes in
    release_since-IsBalanced k.fault.held done dropped k now refl (record {
      takes = TakesAll-kept l k r.accepts b.takes;
      counted = r.counted b.counted;
      at_least = λ p. omega (arith, r.copies p, b.at_least p);
      at_most = λ p. omega (arith, r.copies p, ap (count_held p) r.held, b.at_most p);
      exact = λ z p. omega (arith, r.copies p, b.exact (sym r.dup_pct ∙ z) p);
    })

-- Over any history of sends and drains, on a socket that takes every datagram, there is a list of the
-- copies that were dropped, whose length the statistics give, so that each datagram is found among
-- the dropped, sent, delayed and held ones at least as often as it was given to `send`, at most twice
-- as often, and exactly as often if the duplication rate is 0.
pub run-IsBalanced :
    (cs : List Call) (done dropped : List Datagram) (l : Link)
    → IsBalanced done dropped l
    → (gone : List Datagram) × IsBalanced (given done cs) gone (run l cs)
unfolding run call
run-IsBalanced [] done dropped l b = (dropped, b)
run-IsBalanced (sends d now ∷ cs) done dropped l b =
    let (gone, b') = send-IsBalanced done dropped l d now b in
    run-IsBalanced cs (d ∷ done) gone (send l d now) b'
run-IsBalanced (drains now ∷ cs) done dropped l b =
    run-IsBalanced cs done dropped (drain l now) (drain-IsBalanced done dropped l now b)
