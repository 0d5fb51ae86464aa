-- ===== src/Transfer/Receiver/Windows.antt =====
-- The windows that a receiver of src/transfer.rs asks for.
use qstream.Base.{
  ℕ, ◌+◌, ◌-◌, ◌*◌, ◌%◌, ◌^◌, ◌≤◌, ◌<◌, ◌≡◌, true, false, leb, ltb, Bool-cases, inl, inr, List, [],
  ◌∷◌, length, min, arith,
}
use qstream.Net.{as_u16}
use qstream.Transfer.Assembly.{contains_key, all_received}
use qstream.Transfer.Assembly.Keys.{
  AreKeys, AreKeys-all, AreKeys-mono, all_received-contains, contains-cons,
}
use qstream.Transfer.Receiver.{remaining}

-- With `total` packets and the window of `count` from `start` on: the window is not empty, lies in
-- the file and has at most 64 packets; what is held lies before its end; what lies before it is held.
pub record IsWindow (total start count : ℕ) (ps : List (ℕ × List ℕ)) : Type 0 where
  pub some_packets : 1 ≤ count
  pub first : 1 ≤ start
  pub last : start + count ≤ total + 1
  pub small : count ≤ 64
  pub u16 : total ≤ 65535
  pub keys : AreKeys (start + count - 1) ps
  pub before : (k : ℕ) → 1 ≤ k → k < start → contains_key k ps ≡ true

pub first-IsWindow : (total : ℕ) → 1 ≤ total → total ≤ 65535 → IsWindow total 1 (min 5 total) []
first-IsWindow total lo hi = record {
  some_packets = omega arith;
  first = omega arith;
  last = omega arith;
  small = omega arith;
  u16 = hi;
  keys = tt;
  before = λ k h l. absurd (omega arith);
}

pub insert-IsWindow :
    {total start count : ℕ} {ps : List (ℕ × List ℕ)} (pn : ℕ) (bytes : List ℕ)
    → IsWindow total start count ps
    → start ≤ pn
    → pn < start + count
    → contains_key pn ps ≡ false
    → IsWindow total start count ((pn, bytes) ∷ ps)
insert-IsWindow {start = start} {count = count} {ps = ps} pn bytes w lo hi new = record {
  some_packets = w.some_packets;
  first = w.first;
  last = w.last;
  small = w.small;
  u16 = w.u16;
  keys = (omega (arith, w.first, lo), omega arith, new, w.keys);
  before = λ k h l. contains-cons k pn bytes ps (w.before k h l);
}

module _ {total start count : ℕ} {ps : List (ℕ × List ℕ)} (w : IsWindow total start count ps)
    (done : all_received ps start count ≡ true) where
  held : (k : ℕ) → 1 ≤ k → k < start + count → contains_key k ps ≡ true
  held k lo hi = elim (Bool-cases (ltb k start)) [
    | inl early ↦ w.before k lo (ground arith)
    | inr late ↦
        all_received-contains ps start count k done (omega (arith, w.last, w.u16)) (ground arith) hi
  ]

  -- `advance` runs only while a packet is missing, and then the next window starts in the file.
  pub next_in_file : length ps < total → start + count ≤ total
  next_in_file short = elim (Bool-cases (leb (start + count) total)) [
    | inl fits ↦ ground arith
    | inr over ↦
        let e : start + count ≡ total + 1 =
          let past : total < start + count = ground arith in omega (arith, w.last, past) in
        absurd (
          omega (
            arith,
            AreKeys-all total ps (AreKeys-mono (start + count - 1) total ps (omega arith) w.keys)
                (λ k lo hi. held k lo (omega arith)),
          ))
  ]

  pub next-IsWindow :
      length ps < total
      → let left = remaining total (start + count) in
        (1 ≤ left)
        × IsWindow total (as_u16 (start + count)) (as_u16 (min (min (count * 2) 64) left)) ps
  unfolding remaining
  next-IsWindow short =
      let n = next_in_file short in
      let u = w.u16 in
      let l : (total + 2 ^ 32 - (start + count) + 1) % 2 ^ 32 ≡ total + 1 - (start + count) =
        omega arith in
      let wide : (start + count) % 65536 ≡ start + count = omega arith in
      let c = w.some_packets in
      rw (l, wide)
        (
          omega arith,
          record {
            some_packets = omega arith;
            first = omega (arith, w.first);
            last = omega arith;
            small = omega arith;
            u16 = u;
            keys = AreKeys-mono (start + count - 1) _ ps (omega arith) w.keys;
            before = held;
          },
        )
