-- ===== src/Node/Stats/Unmoved.antt =====
-- Meeting a peer or hearing of it, in src/node.rs, moves no total.
use qstream.Base.{ℕ, Bool-cases, inl, inr, List, [], ◌∷◌, arith}
use qstream.Net.{SocketAddr}
use qstream.Node.Addr.{same_addr, at_entry, change}
use qstream.Node.Stats.{PeerStat, new_stat, Book}
use qstream.Node.Stats.Totals.{IsBalanced, Adds, Sums, at_entry-Sums, downloaded, uploaded}

change-Sums :
    (a : SocketAddr) (now : ℕ) (xs : List (SocketAddr × PeerStat))
    → Sums 0 0 xs (change a (λ s. record s { last_seen = now }) xs)
unfolding change downloaded uploaded
change-Sums a now [] = record { down = omega arith; up = omega arith; scored = λ t. t }
change-Sums a now ((k, s) ∷ xs) = elim (Bool-cases (same_addr k a)) [
  | inl q ↦ rw q (record { down = omega arith; up = omega arith; scored = λ t. t })
  | inr q ↦
      let rest = change-Sums a now xs in
      rw q (record {
        down = omega (arith, rest.down);
        up = omega (arith, rest.up);
        scored = λ t. (t.0, rest.scored t.1);
      })
]

settle :
    (b : Book) (xs : List (SocketAddr × PeerStat))
    → Sums 0 0 b.peer_stats xs
    → IsBalanced b
    → IsBalanced (record b { peer_stats = xs })
settle b xs s h = record {
  scores = s.scored h.scores;
  down = omega (arith, h.down, s.down);
  up = omega (arith, h.up, s.up);
}

same_entry : Adds 0 0 (λ s. s)
same_entry = record { down = λ s. omega arith; up = λ s. omega arith; scored = λ s h. h }

-- A peer that is met, as `register_peer` books it.
pub met-IsBalanced :
    (b : Book) (a : SocketAddr) (name : List ℕ) (now : ℕ)
    → IsBalanced b
    → IsBalanced (record b { peer_stats = at_entry a (new_stat name now) (λ s. s) b.peer_stats })
met-IsBalanced b a name now h =
    settle b (at_entry a (new_stat name now) (λ s. s) b.peer_stats)
      (at_entry-Sums a name now 0 0 (λ s. s) b.peer_stats same_entry) h

-- A peer that is heard of, as `touch_peer` books it.
pub heard-IsBalanced :
    (b : Book) (a : SocketAddr) (now : ℕ)
    → IsBalanced b
    → IsBalanced
        (record b { peer_stats = change a (λ s. record s { last_seen = now }) b.peer_stats })
heard-IsBalanced b a now h =
    settle b (change a (λ s. record s { last_seen = now }) b.peer_stats)
      (change-Sums a now b.peer_stats) h
