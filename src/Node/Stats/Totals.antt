-- ===== src/Node/Stats/Totals.antt =====
-- The scores and the totals that src/node.rs keeps.
use qstream.Base.{
  ℕ, ◌+◌, ◌%◌, ◌^◌, ◌≤◌, ◌<◌, ◌≡◌, Bool-cases, inl, inr, Option, List, [], ◌∷◌, arith,
}
use qstream.Net.{SocketAddr}
use qstream.Node.Addr.{same_addr, at_entry}
use qstream.Node.Stats.{
  PeerStat, new_stat, PullResult, ServeResult, on_pull, on_serve, Book, new_book, total_pull,
  record_pull, total_serve, record_serve,
}

-- A pull or a serve that is recorded.
pub data Entry : Type 0 where
  pull :
      (peer : SocketAddr) (name : List ℕ) (result : PullResult) (latency : Option ℕ) (bytes now : ℕ)
      → Entry
  serve : (peer : SocketAddr) (name : List ℕ) (result : ServeResult) (bytes now : ℕ) → Entry

unfoldable pub enter : Book → Entry → Book
enter b (pull peer name result latency bytes now) = record_pull b peer name result latency bytes now
enter b (serve peer name result bytes now) = record_serve b peer name result bytes now

unfoldable pub enter_all : Book → List Entry → Book
unfolding enter
enter_all b [] = b
enter_all b (e ∷ es) = enter_all (enter b e) es

-- The bytes that the entries of all peers add up to.
unfoldable pub downloaded : List (SocketAddr × PeerStat) → ℕ
downloaded [] = 0
downloaded ((a, s) ∷ xs) = s.downloaded_bytes + downloaded xs

unfoldable pub uploaded : List (SocketAddr × PeerStat) → ℕ
uploaded [] = 0
uploaded ((a, s) ∷ xs) = s.uploaded_bytes + uploaded xs

abbrev pub Scored : List (SocketAddr × PeerStat) → Type 0
Scored [] = Unit
Scored ((a, s) ∷ xs) = (s.score ≤ 100) × Scored xs

-- Every score is at most 100, and the totals are the sums over the peers, to 64 bits.
pub record IsBalanced (b : Book) : Type 0 where
  pub scores : Scored b.peer_stats
  pub down : b.downloaded_bytes ≡ downloaded b.peer_stats % 2 ^ 64
  pub up : b.served_bytes ≡ uploaded b.peer_stats % 2 ^ 64

-- What a change of one entry does to the sums.
pub record Adds (d u : ℕ) (f : PeerStat → PeerStat) : Type 0 where
  pub down : (s : PeerStat) → (f s).downloaded_bytes % 2 ^ 64 ≡ (s.downloaded_bytes + d) % 2 ^ 64
  pub up : (s : PeerStat) → (f s).uploaded_bytes % 2 ^ 64 ≡ (s.uploaded_bytes + u) % 2 ^ 64
  pub scored : (s : PeerStat) → s.score ≤ 100 → (f s).score ≤ 100

pub record Sums (d u : ℕ) (xs ys : List (SocketAddr × PeerStat)) : Type 0 where
  pub down : downloaded ys % 2 ^ 64 ≡ (downloaded xs + d) % 2 ^ 64
  pub up : uploaded ys % 2 ^ 64 ≡ (uploaded xs + u) % 2 ^ 64
  pub scored : Scored xs → Scored ys

pub at_entry-Sums :
    (a : SocketAddr) (name : List ℕ) (now d u : ℕ) (f : PeerStat → PeerStat)
    (xs : List (SocketAddr × PeerStat))
    → Adds d u f
    → Sums d u xs (at_entry a (new_stat name now) f xs)
unfolding at_entry downloaded uploaded new_stat
at_entry-Sums a name now d u f [] h = record {
  down = omega (arith, h.down (new_stat name now));
  up = omega (arith, h.up (new_stat name now));
  scored = λ t. (h.scored (new_stat name now) (omega arith), tt);
}
at_entry-Sums a name now d u f ((k, s) ∷ xs) h = elim (Bool-cases (same_addr k a)) [
  | inl q ↦ rw q (record {
    down = omega (arith, h.down s);
    up = omega (arith, h.up s);
    scored = λ t. (h.scored s t.0, t.1);
  })
  | inr q ↦
      let rest = at_entry-Sums a name now d u f xs h in
      rw q (record {
        down = omega (arith, rest.down);
        up = omega (arith, rest.up);
        scored = λ t. (t.0, rest.scored t.1);
      })
]

-- The bytes of a result that count.
abbrev pulled_bytes : PullResult → ℕ → ℕ
pulled_bytes PullResult.pulled bytes = bytes
pulled_bytes PullResult.not_found bytes = 0
pulled_bytes PullResult.retryable_not_found bytes = 0
pulled_bytes PullResult.timeout bytes = 0
pulled_bytes PullResult.other bytes = 0

abbrev served_bytes_of : ServeResult → ℕ → ℕ
served_bytes_of ServeResult.served bytes = bytes
served_bytes_of ServeResult.not_found bytes = 0
served_bytes_of ServeResult.sender_failed bytes = 0

on_pull-Adds :
    (result : PullResult) (latency : Option ℕ) (bytes now : ℕ)
    → Adds (pulled_bytes result bytes) 0 (on_pull result latency bytes now)
unfolding on_pull
on_pull-Adds PullResult.pulled latency bytes now = record {
  down = λ s. omega arith;
  up = λ s. omega arith;
  scored = λ s h. omega arith;
}
on_pull-Adds PullResult.not_found latency bytes now = record {
  down = λ s. omega arith;
  up = λ s. omega arith;
  scored = λ s h. h;
}
on_pull-Adds PullResult.retryable_not_found latency bytes now = record {
  down = λ s. omega arith;
  up = λ s. omega arith;
  scored = λ s h. h;
}
on_pull-Adds PullResult.timeout latency bytes now = record {
  down = λ s. omega arith;
  up = λ s. omega arith;
  scored = λ s h. omega arith;
}
on_pull-Adds PullResult.other latency bytes now = record {
  down = λ s. omega arith;
  up = λ s. omega arith;
  scored = λ s h. omega arith;
}

on_serve-Adds :
    (result : ServeResult) (bytes : ℕ)
    → Adds 0 (served_bytes_of result bytes) (on_serve result bytes)
unfolding on_serve
on_serve-Adds ServeResult.served bytes = record {
  down = λ s. omega arith;
  up = λ s. omega arith;
  scored = λ s h. omega arith;
}
on_serve-Adds ServeResult.not_found bytes = record {
  down = λ s. omega arith;
  up = λ s. omega arith;
  scored = λ s h. h;
}
on_serve-Adds ServeResult.sender_failed bytes = record {
  down = λ s. omega arith;
  up = λ s. omega arith;
  scored = λ s h. omega arith;
}

-- The totals move by what the results count.
record Counts (b c : Book) (d u : ℕ) : Type 0 where
  down : c.downloaded_bytes % 2 ^ 64 ≡ (b.downloaded_bytes + d) % 2 ^ 64
  down_bound : b.downloaded_bytes < 2 ^ 64 → c.downloaded_bytes < 2 ^ 64
  up : c.served_bytes % 2 ^ 64 ≡ (b.served_bytes + u) % 2 ^ 64
  up_bound : b.served_bytes < 2 ^ 64 → c.served_bytes < 2 ^ 64

total_pull-Counts :
    (result : PullResult) (bytes : ℕ) (b : Book)
    → Counts b (total_pull result bytes b) (pulled_bytes result bytes) 0
unfolding total_pull
total_pull-Counts PullResult.pulled bytes b = record {
  down = omega arith;
  down_bound = λ h. omega arith;
  up = omega arith;
  up_bound = λ h. h;
}
total_pull-Counts PullResult.not_found bytes b = record {
  down = omega arith;
  down_bound = λ h. h;
  up = omega arith;
  up_bound = λ h. h;
}
total_pull-Counts PullResult.retryable_not_found bytes b = record {
  down = omega arith;
  down_bound = λ h. h;
  up = omega arith;
  up_bound = λ h. h;
}
total_pull-Counts PullResult.timeout bytes b = record {
  down = omega arith;
  down_bound = λ h. h;
  up = omega arith;
  up_bound = λ h. h;
}
total_pull-Counts PullResult.other bytes b = record {
  down = omega arith;
  down_bound = λ h. h;
  up = omega arith;
  up_bound = λ h. h;
}

total_serve-Counts :
    (result : ServeResult) (bytes : ℕ) (b : Book)
    → Counts b (total_serve result bytes b) 0 (served_bytes_of result bytes)
unfolding total_serve
total_serve-Counts ServeResult.served bytes b = record {
  down = omega arith;
  down_bound = λ h. h;
  up = omega arith;
  up_bound = λ h. omega arith;
}
total_serve-Counts ServeResult.not_found bytes b = record {
  down = omega arith;
  down_bound = λ h. h;
  up = omega arith;
  up_bound = λ h. h;
}
total_serve-Counts ServeResult.sender_failed bytes b = record {
  down = omega arith;
  down_bound = λ h. h;
  up = omega arith;
  up_bound = λ h. h;
}

balance :
    (b c : Book) (d u : ℕ) (xs : List (SocketAddr × PeerStat))
    → Counts b c d u
    → Sums d u b.peer_stats xs
    → IsBalanced b
    → IsBalanced (record c { peer_stats = xs })
balance b c d u xs n s h =
    let low = n.down_bound (omega (arith, h.down)) in
    let high = n.up_bound (omega (arith, h.up)) in
    record {
      scores = s.scored h.scores;
      down = omega (arith, n.down, s.down, h.down, low);
      up = omega (arith, n.up, s.up, h.up, high);
    }

pub enter-IsBalanced : (b : Book) (e : Entry) → IsBalanced b → IsBalanced (enter b e)
unfolding enter record_pull record_serve
enter-IsBalanced b (pull peer name result latency bytes now) h =
    balance b (total_pull result bytes b) (pulled_bytes result bytes) 0 _
      (total_pull-Counts result bytes b)
      (at_entry-Sums peer name now (pulled_bytes result bytes) 0 (on_pull result latency bytes now)
        b.peer_stats (on_pull-Adds result latency bytes now))
      h
enter-IsBalanced b (serve peer name result bytes now) h =
    balance b (total_serve result bytes b) 0 (served_bytes_of result bytes) _
      (total_serve-Counts result bytes b)
      (at_entry-Sums peer name now 0 (served_bytes_of result bytes) (on_serve result bytes)
        b.peer_stats (on_serve-Adds result bytes))
      h

enter_all-IsBalanced : (b : Book) (es : List Entry) → IsBalanced b → IsBalanced (enter_all b es)
unfolding enter_all
enter_all-IsBalanced b [] h = h
enter_all-IsBalanced b (e ∷ es) h = enter_all-IsBalanced (enter b e) es (enter-IsBalanced b e h)

-- After any pulls and serves that are recorded from the start on, every peer's score is at most 100,
-- and the node's totals of downloaded and served bytes are the sums of its peers' to 64 bits.
pub enter_all-new_book : (es : List Entry) → IsBalanced (enter_all new_book es)
unfolding new_book downloaded uploaded
enter_all-new_book es =
    enter_all-IsBalanced new_book es (record { scores = tt; down = omega arith; up = omega arith })
