-- ===== src/Transfer/Receiver/NextPacket.antt =====
-- One packet of a download of src/transfer.rs in which the packets arrive in order.
use qstream.Base.{
  ℕ, zero, suc, ◌+◌, ◌*◌, ◌≤◌, ◌<◌, ◌≡◌, refl, ap, ◌∙◌, true, false, leb, ltb, ◌==◌, ◌||◌,
  Bool-cases, inl, inr, none, some, List, [], ◌∷◌, ◌++◌, length, min, arith,
}
use mathlib.Core.Option
use qstream.Net.{as_u16}
use qstream.Disk.{Disk, write, rename, bytes_eq_refl}
use qstream.Clock.{ms, secs}
use qstream.Transfer.Timing.{Settings, quiet_period, adaptive_quiet}
use qstream.Transfer.Sender.Safety.{piece}
use qstream.Transfer.Assembly.{contains_key, all_received, assemble, save, tmp_suffix}
use qstream.Transfer.Receiver.{
  ReceiverTransfer, World, saved, send_ack, post, complete, advance, remaining, first_contact,
  insert_packet, sample_gap, after_insert, accept, range_complete,
}

-- The quiet period lasts at least so long.
abbrev pub patience : Settings → ℕ
patience c = min (ms c.quiet_ms) (secs 8)

adaptive_quiet-patience : (c : Settings) (gap : ℕ) → patience c ≤ adaptive_quiet c gap 0
unfolding adaptive_quiet quiet_period
adaptive_quiet-patience c gap = omega arith

-- Packets 1 to `k`, the last in front.
unfoldable pub pieces : List ℕ → ℕ → List (ℕ × List ℕ)
pieces file zero = []
pieces file (suc k) = (suc k, piece file (suc k)) ∷ pieces file k

length-pieces : (file : List ℕ) (k : ℕ) → length (pieces file k) ≡ k
unfolding pieces
length-pieces file zero = refl
length-pieces file (suc k) = ap suc (length-pieces file k)

contains_key-pieces : (file : List ℕ) (k j : ℕ) → 1 ≤ j → contains_key j (pieces file k) ≡ leb j k
unfolding pieces contains_key
contains_key-pieces file zero j lo = ground arith
contains_key-pieces file (suc k) j lo = ground (arith, contains_key-pieces file k j lo)

all_received-pieces :
    (file : List ℕ) (k start count : ℕ)
    → 1 ≤ start
    → start + count ≤ 65536
    → start ≤ k + 1
    → all_received (pieces file k) start count ≡ leb (start + count) (k + 1)
unfolding all_received
all_received-pieces file k start zero lo hi near = ground arith
all_received-pieces file k start (suc count) lo hi near =
    let e : as_u16 start ≡ start = omega arith in
    elim (Bool-cases (leb start k)) [
      | inl have ↦
          let ih =
            all_received-pieces file k (start + 1) count (omega arith) (omega arith)
              (ground arith) in
          ground (arith, contains_key-pieces file k (as_u16 start) (omega arith))
      | inr lack ↦ ground (arith, contains_key-pieces file k (as_u16 start) (omega arith))
    ]

-- The receiver has packets 1 to `k` of `n` and is inside a window.
pub record Reached (file name : List ℕ) (n k : ℕ) (r : ReceiverTransfer) : Type 0 where
  pub open_still : r.outcome ≡ none
  pub named : r.filename ≡ name
  pub total : r.total ≡ some n
  pub held : r.packets ≡ pieces file k
  pub start : ℕ
  pub count : ℕ
  pub range : r.range ≡ some (start, count)
  pub lo : 1 ≤ start
  pub near : start ≤ k + 1
  pub inside : k + 1 < start + count
  pub last : start + count ≤ n + 1

-- `first_contact` has nothing to do.
pub contacted :
    (c : Settings) (r : ReceiverTransfer) (n now : ℕ)
    → r.total ≡ some n
    → first_contact c r n now ≡ r
unfolding first_contact
contacted c r n now t = simp (t, first_contact)

-- Behind the insertion of packet `k`, which is not the last one: the window goes on or the next opens.
after_next :
    (c : Settings) (file name : List ℕ) (n k : ℕ) (r : ReceiverTransfer) (w : World)
    (start count now : ℕ)
    → n ≤ 65535
    → k < n
    → r.outcome ≡ none
    → r.filename ≡ name
    → r.total ≡ some n
    → r.packets ≡ pieces file k
    → r.range ≡ some (start, count)
    → 1 ≤ start
    → start ≤ k
    → k < start + count
    → start + count ≤ n + 1
    → now + patience c ≤ r.quiet_deadline
    → let x = after_insert c r w (start, count) n now in
      Reached file name n k x.0 × (x.1.disk ≡ w.disk) × (now + patience c ≤ x.0.quiet_deadline)
unfolding after_insert range_complete advance remaining send_ack post
after_next c file name n k r w start count now small more o f t h q lo near inside last calm =
    let size : length r.packets ≡ k = ap length h ∙ length-pieces file k in
    let short : leb n (length r.packets) ≡ false = ground arith in
    let whole : all_received r.packets start count ≡ leb (start + count) (k + 1) =
      ap (λ ps. all_received ps start count) h
      ∙ all_received-pieces file k start count lo (omega arith) (omega arith) in
    rw short (elim (Bool-cases (leb (start + count) (k + 1))) [
      | inl done ↦
          let left : (remaining n (start + count) == 0) ≡ false = ground arith in
          rw (whole ∙ done, left, advance)
            (
              record {
                open_still = o;
                named = f;
                total = t;
                held = h;
                start = as_u16 (start + count);
                count = as_u16 (min (min (count * 2) 64) (remaining n (start + count)));
                range = refl;
                lo = ground arith;
                near = ground arith;
                inside = ground arith;
                last = ground arith;
              },
              refl,
              omega (arith, adaptive_quiet-patience c r.gap_est),
            )
      | inr again ↦ rw (whole ∙ again) (
        record {
          open_still = o;
          named = f;
          total = t;
          held = h;
          start = start;
          count = count;
          range = q;
          lo = lo;
          near = omega arith;
          inside = ground arith;
          last = last;
        },
        refl,
        calm,
      )
    ])

new_packet :
    (file : List ℕ) (k : ℕ) (ps : List (ℕ × List ℕ))
    → ps ≡ pieces file k
    → contains_key (suc k) ps ≡ false
new_packet file k ps h =
    ap (contains_key (suc k)) h ∙ contains_key-pieces file k (suc k) (omega arith) ∙ ground arith

pub accept_next :
    (c : Settings) (file name : List ℕ) (n k : ℕ) (r : ReceiverTransfer) (w : World) (now : ℕ)
    → n ≤ 65535
    → suc k < n
    → (s : Reached file name n k r)
    → let x = accept c r w n (s.start, s.count) (suc k) (piece file (suc k)) now in
      Reached file name n (suc k) x.0
      × (x.1.disk ≡ w.disk)
      × (now + patience c ≤ x.0.quiet_deadline)
unfolding accept insert_packet pieces
accept_next c file name n k r w now small more s =
    let inside : (ltb (suc k) s.start || leb (s.start + s.count) (suc k)) ≡ false =
      ground (arith, s.near, s.inside) in
    let new = new_packet file k r.packets s.held in
    rw (inside, new)
      (after_next c file name n (suc k) (insert_packet c r (suc k) (piece file (suc k)) now) w
        s.start s.count now small more s.open_still s.named s.total
        (ap (λ ps. (suc k, piece file (suc k)) ∷ ps) s.held) s.range s.lo (omega (arith, s.near))
        (omega (arith, s.inside)) s.last
        (omega (arith, adaptive_quiet-patience c (sample_gap r.last_arrival r.gap_est now))))

saves :
    (d : Disk) (name bytes : List ℕ)
    → d.can_write (name ++ tmp_suffix) ≡ true
    → d.can_rename (name ++ tmp_suffix) name ≡ true
    → (save d name bytes).1 ≡ true
unfolding save write rename
saves d name bytes cw cr = ground (arith, bytes_eq_refl (name ++ tmp_suffix))

completes :
    (r : ReceiverTransfer) (w : World) (now : ℕ)
    → w.disk.can_write (r.filename ++ tmp_suffix) ≡ true
    → w.disk.can_rename (r.filename ++ tmp_suffix) r.filename ≡ true
    → (complete r w now).0.outcome ≡ some saved
unfolding complete
completes r w now cw cr =
    let q = saves w.disk r.filename (assemble (Option.get_or r.total 0) r.packets) cw cr in
    rw (q, complete) refl

pub accept_last :
    (c : Settings) (file name : List ℕ) (n k : ℕ) (r : ReceiverTransfer) (w : World) (now : ℕ)
    → suc k ≡ n
    → (s : Reached file name n k r) → w.disk.can_write (name ++ tmp_suffix) ≡ true
    → w.disk.can_rename (name ++ tmp_suffix) name ≡ true
    → (accept c r w n (s.start, s.count) (suc k) (piece file (suc k)) now).0.outcome ≡ some saved
unfolding accept insert_packet after_insert
accept_last c file name n k r w now e s cw cr =
    let inside : (ltb (suc k) s.start || leb (s.start + s.count) (suc k)) ≡ false =
      ground (arith, s.near, s.inside) in
    let new = new_packet file k r.packets s.held in
    let full : leb n (suc (length r.packets)) ≡ true =
      ground (arith, ap length s.held ∙ length-pieces file k) in
    rw (inside, new, full)
      (completes (insert_packet c r (suc k) (piece file (suc k)) now) w now
        (ap (λ f. w.disk.can_write (f ++ tmp_suffix)) s.named ∙ cw)
        (ap (λ f. w.disk.can_rename (f ++ tmp_suffix) f) s.named ∙ cr))
