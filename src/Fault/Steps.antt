-- ===== src/Fault/Steps.antt =====
-- What one call of the injector of src/fault.rs amounts to, with the random draws left open.
use qstream.Base.{ℕ, ◌≡◌, refl, true, ltb, Bool-cases, inl, inr, Option, some, none, arith}
use qstream.Fault.Rng.{Rng, roll}
use qstream.Fault.Injector.{
  Datagram, FaultInjector, Link, in_burst, drop_one, transmit, put_off, roll_if, pipeline_copy,
  pipeline, reordered, send_reordered, send,
}

-- The link with another generator state.
abbrev pub reseed : Link → Rng → Link
reseed l r = record l { fault = record (l.fault) { rng = r } }

-- `m` follows from `l` by dropping, putting off or sending one copy of `d`.
pub data Copied (l : Link) (d : Datagram) (now : ℕ) (m : Link) : Type 0 where
  lost : (r : Rng) → m ≡ drop_one (reseed l r) → Copied l d now m
  later : (r : Rng) → m ≡ put_off (reseed l r) d now → Copied l d now m
  sent : (r : Rng) → m ≡ transmit (reseed l r) d → Copied l d now m

roll_if-rng : (f : FaultInjector) (pct : ℕ) → (r : Rng) × ((roll_if f pct).1 ≡ record f { rng = r })
unfolding roll_if
roll_if-rng f pct = elim (Bool-cases (ltb 0 pct)) [
  | inl q ↦ ((roll f.rng pct).1, rw q)
  | inr q ↦ (f.rng, rw q)
]

pub pipeline_copy-Copied :
    (l : Link) (d : Datagram) (now : ℕ) → Copied l d now (pipeline_copy l d now)
unfolding pipeline_copy
pipeline_copy-Copied l d now =
    let (r, e) = roll_if-rng l.fault l.fault.drop_pct in
    elim (Bool-cases (roll_if l.fault l.fault.drop_pct).0) [
      | inl hit ↦ lost r (rw (hit, e))
      | inr miss ↦ elim (Bool-cases (ltb 0 l.fault.delay_ms)) [
        | inl q ↦ later r (rw (miss, e, q))
        | inr q ↦ sent r (rw (miss, e, q))
      ]
    ]

-- One copy, or two in a row; without a duplication rate, one.
pub data Piped (l : Link) (d : Datagram) (now : ℕ) (m : Link) : Type 0 where
  once : (r : Rng) → Copied (reseed l r) d now m → Piped l d now m
  twice :
      (r : Rng) (k : Link)
      → ltb 0 l.fault.dup_pct ≡ true
      → Copied (reseed l r) d now k
      → Copied k d now m
      → Piped l d now m

dup_rate : (f : FaultInjector) (pct : ℕ) → (roll_if f pct).0 ≡ true → ltb 0 pct ≡ true
unfolding roll_if
dup_rate f pct h = ground arith

pub pipeline-Piped : (l : Link) (d : Datagram) (now : ℕ) → Piped l d now (pipeline l d now)
unfolding pipeline
pipeline-Piped l d now =
    let (r, e) = roll_if-rng l.fault l.fault.dup_pct in
    elim (Bool-cases (roll_if l.fault l.fault.dup_pct).0) [
      | inl hit ↦
          twice r (pipeline_copy (reseed l r) d now) (dup_rate l.fault l.fault.dup_pct hit)
            (pipeline_copy-Copied (reseed l r) d now)
            (rw (hit, e) (pipeline_copy-Copied (pipeline_copy (reseed l r) d now) d now))
      | inr miss ↦ once r (rw (miss, e) (pipeline_copy-Copied (reseed l r) d now))
    ]

-- `send`: dropped in a burst, held back, sent with the datagram held before, or sent alone.
pub data Sent (l : Link) (d : Datagram) (now : ℕ) (m : Link) : Type 0 where
  burst : m ≡ drop_one l → Sent l d now m
  keep :
      (r : Rng)
      → l.fault.held ≡ none
      → m ≡ record l { fault = record (l.fault) { rng = r; held = some (now, d) } }
      → Sent l d now m
  swap :
      (since : ℕ) (h : Datagram) (k : Link)
      → l.fault.held ≡ some (since, h)
      → Piped (record l { fault = record (l.fault) { held = none } }) d now k
      → Piped k h now m
      → Sent l d now m
  plain : (r : Rng) → Piped (reseed l r) d now m → Sent l d now m

held_go :
    (l : Link) (d : Datagram) (now : ℕ) (o : Option (ℕ × Datagram))
    → l.fault.held ≡ o
    → Sent l d now (reordered o l d now)
unfolding reordered
held_go l d now (some (since, h)) e =
    swap since h _ e (pipeline-Piped _ d now) (pipeline-Piped _ h now)
held_go l d now none e = elim (Bool-cases (roll l.fault.rng l.fault.reorder_pct).0) [
  | inl hit ↦ keep (roll l.fault.rng l.fault.reorder_pct).1 e (rw hit)
  | inr miss ↦ rw miss (plain (roll l.fault.rng l.fault.reorder_pct).1 (pipeline-Piped _ d now))
]

pub send-Sent : (l : Link) (d : Datagram) (now : ℕ) → Sent l d now (send l d now)
unfolding send send_reordered
send-Sent l d now = elim (Bool-cases (in_burst l.fault now)) [
  | inl q ↦ burst (rw q)
  | inr q ↦ rw q (elim (Bool-cases (ltb 0 l.fault.reorder_pct)) [
    | inr no_reorder ↦ rw no_reorder (plain l.fault.rng (pipeline-Piped l d now))
    | inl reorder ↦ rw reorder (held_go l d now l.fault.held refl)
  ])
]
