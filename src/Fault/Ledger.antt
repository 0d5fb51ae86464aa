-- ===== src/Fault/Ledger.antt =====
-- Every datagram given to the injector of src/fault.rs is accounted for.
use qstream.Base.{
  ℕ, ◌+◌, ◌*◌, ◌≤◌, ◌≡◌, refl, ◌∙◌, Bool, true, false, ltb→lt, Option, none, some, List, [], ◌∷◌,
  ◌++◌, length, length-append, arith,
}
use qstream.Fault.Rng.{Rng}
use qstream.Fault.Injector.{Datagram, Link, drop_one, put_off, transmit}
use qstream.Fault.Steps.{reseed, Copied, lost, later, sent, Piped, once, twice}

abbrev pub one : Bool → ℕ
one true = 1
one false = 0

-- How many datagrams pass the test.
abbrev pub count : (Datagram → Bool) → List Datagram → ℕ
count p [] = 0
count p (d ∷ ds) = one (p d) + count p ds

abbrev pub count_queue : (Datagram → Bool) → List (ℕ × Datagram) → ℕ
count_queue p [] = 0
count_queue p ((due, d) ∷ q) = one (p d) + count_queue p q

abbrev pub count_held : (Datagram → Bool) → Option (ℕ × Datagram) → ℕ
count_held p none = 0
count_held p (some (since, d)) = one (p d)

-- The copies that pass the test: dropped, sent, waiting out their delay, and held back.
abbrev pub accounted : (Datagram → Bool) → List Datagram → Link → ℕ
accounted p dropped l =
    count p dropped
    + count p l.socket.sent
    + count_queue p l.fault.delayed
    + count_held p l.fault.held

-- The statistics count what was dropped and what was sent.
abbrev pub IsCounted : List Datagram → Link → Type 0
IsCounted dropped l =
    (l.fault.stats.dropped ≡ length dropped) × (l.fault.stats.emitted ≡ length l.socket.sent)

-- The system takes every datagram.
abbrev pub TakesAll : Link → Type 0
TakesAll l = (d : Datagram) → l.socket.accepts d ≡ true

pub TakesAll-kept : (l m : Link) → m.socket.accepts ≡ l.socket.accepts → TakesAll l → TakesAll m
TakesAll-kept l m e all d = rw e (all d)

pub count-append :
    (p : Datagram → Bool) (ds : List Datagram) (d : Datagram)
    → count p (ds ++ d ∷ []) ≡ count p ds + one (p d)
count-append p [] d = omega arith
count-append p (e ∷ ds) d = omega (arith, count-append p ds d)

count_queue-append :
    (p : Datagram → Bool) (q : List (ℕ × Datagram)) (due : ℕ) (d : Datagram)
    → count_queue p (q ++ (due, d) ∷ []) ≡ count_queue p q + one (p d)
count_queue-append p [] due d = omega arith
count_queue-append p ((t, e) ∷ q) due d = omega (arith, count_queue-append p q due d)

-- With `gone` dropped, `m` accounts for one more copy of `d` than `l` with `dropped`; the socket's
-- behaviour, the duplication rate and the datagram held back are those of `l`.
pub record Adds (d : Datagram) (dropped gone : List Datagram) (l m : Link) : Type 0 where
  pub copies : (p : Datagram → Bool) → accounted p gone m ≡ accounted p dropped l + one (p d)
  pub counted : IsCounted dropped l → IsCounted gone m
  pub accepts : m.socket.accepts ≡ l.socket.accepts
  pub dup_pct : m.fault.dup_pct ≡ l.fault.dup_pct
  pub held : m.fault.held ≡ l.fault.held

pub drop_one-Adds :
    (dropped : List Datagram) (l : Link) (r : Rng) (d : Datagram)
    → Adds d dropped (d ∷ dropped) l (drop_one (reseed l r))
unfolding drop_one
drop_one-Adds dropped l r d = record {
  copies = λ p. omega arith;
  counted = λ (a, b). (omega (arith, a), b);
  accepts = refl;
  dup_pct = refl;
  held = refl;
}

put_off-Adds :
    (dropped : List Datagram) (l : Link) (r : Rng) (d : Datagram) (now : ℕ)
    → Adds d dropped dropped l (put_off (reseed l r) d now)
unfolding put_off
put_off-Adds dropped l r d now = record {
  copies = λ p. omega (arith, count_queue-append p l.fault.delayed _ d);
  counted = λ h. h;
  accepts = refl;
  dup_pct = refl;
  held = refl;
}

pub transmit-Adds :
    (dropped : List Datagram) (l : Link) (r : Rng) (d : Datagram)
    → TakesAll l
    → Adds d dropped dropped l (transmit (reseed l r) d)
unfolding transmit
transmit-Adds dropped l r d all = rw (all d) (record {
  copies = λ p. omega (arith, count-append p l.socket.sent d);
  counted = λ (a, b). (a, grind (arith, b, length-append));
  accepts = refl;
  dup_pct = refl;
  held = refl;
})

Copied-Adds :
    (dropped : List Datagram) {l : Link} {d : Datagram} {now : ℕ} {m : Link}
    → TakesAll l
    → Copied l d now m
    → (gone : List Datagram) × Adds d dropped gone l m
Copied-Adds dropped {l} {d} all (lost r e) = (d ∷ dropped, rw e (drop_one-Adds dropped l r d))
Copied-Adds dropped {l} {d} {now} all (later r e) = (dropped, rw e (put_off-Adds dropped l r d now))
Copied-Adds dropped {l} {d} all (sent r e) = (dropped, rw e (transmit-Adds dropped l r d all))

unseed :
    {d : Datagram} {dropped gone : List Datagram} {l m : Link} (r : Rng)
    → Adds d dropped gone (reseed l r) m
    → Adds d dropped gone l m
unseed r a = record {
  copies = a.copies;
  counted = a.counted;
  accepts = a.accepts;
  dup_pct = a.dup_pct;
  held = a.held;
}

-- `m` accounts for one or two more copies of `d` than `l`, and for one if nothing is duplicated.
pub record Pipes (d : Datagram) (dropped gone : List Datagram) (l m : Link) : Type 0 where
  pub low : (p : Datagram → Bool) → accounted p dropped l + one (p d) ≤ accounted p gone m
  pub high : (p : Datagram → Bool) → accounted p gone m ≤ accounted p dropped l + 2 * one (p d)
  pub exact :
      l.fault.dup_pct ≡ 0
      → (p : Datagram → Bool) → accounted p gone m ≡ accounted p dropped l + one (p d)
  pub counted : IsCounted dropped l → IsCounted gone m
  pub accepts : m.socket.accepts ≡ l.socket.accepts
  pub dup_pct : m.fault.dup_pct ≡ l.fault.dup_pct
  pub held : m.fault.held ≡ l.fault.held

pub Piped-Pipes :
    (dropped : List Datagram) {l : Link} {d : Datagram} {now : ℕ} {m : Link}
    → TakesAll l
    → Piped l d now m
    → (gone : List Datagram) × Pipes d dropped gone l m
Piped-Pipes dropped {l} all (once r c) =
    let (gone, b) = Copied-Adds dropped all c in
    let a = unseed {l = l} r b in
    (
      gone,
      record {
        low = λ p. omega (arith, a.copies p);
        high = λ p. omega (arith, a.copies p);
        exact = λ z p. a.copies p;
        counted = a.counted;
        accepts = a.accepts;
        dup_pct = a.dup_pct;
        held = a.held;
      },
    )
Piped-Pipes dropped {l} all (twice r k rate c c') =
    let (gone, b) = Copied-Adds dropped all c in
    let a = unseed {l = l} r b in
    let (gone', a') = Copied-Adds gone (TakesAll-kept l k a.accepts all) c' in
    (
      gone',
      record {
        low = λ p. omega (arith, a.copies p, a'.copies p);
        high = λ p. omega (arith, a.copies p, a'.copies p);
        exact = λ z p. absurd (omega (arith, z, ltb→lt 0 l.fault.dup_pct rate));
        counted = λ h. a'.counted (a.counted h);
        accepts = a'.accepts ∙ a.accepts;
        dup_pct = a'.dup_pct ∙ a.dup_pct;
        held = a'.held ∙ a.held;
      },
    )
