-- ===== src/Node/Stats.antt =====
-- `PeerStat`, `record_pull` and `record_serve` of src/node.rs. Counters wrap, as in a release build.
pub mod Totals
pub mod Unmoved
use qstream.Base.{
  ℕ, ◌+◌, ◌-◌, ◌*◌, ◌/◌, ◌%◌, ◌^◌, ◌==◌, min, Bool, if◌then◌else◌, Option, none, some, List, [],
  ◌∷◌,
}
use qstream.Net.{SocketAddr}
use qstream.Node.Addr.{at_entry}

pub record PeerStat : Type 0 where
  pub name : List ℕ
  pub pulls : ℕ
  pub downloaded_bytes : ℕ
  pub nf_pulls : ℕ
  pub timeouts : ℕ
  pub other_fails : ℕ
  pub served : ℕ
  pub nf_served : ℕ
  pub sender_fails : ℕ
  pub uploaded_bytes : ℕ
  pub latency_ms : ℕ
  pub score : ℕ
  pub last_seen : ℕ

unfoldable pub new_stat : List ℕ → ℕ → PeerStat
new_stat name now = record {
  name = name;
  pulls = 0;
  downloaded_bytes = 0;
  nf_pulls = 0;
  timeouts = 0;
  other_fails = 0;
  served = 0;
  nf_served = 0;
  sender_fails = 0;
  uploaded_bytes = 0;
  latency_ms = 0;
  score = 50;
  last_seen = now;
}

-- `PullResult`, of a pull of `bytes` that took `latency` to the first packet.
pub data PullResult : Type 0 where
  pulled : PullResult
  not_found : PullResult
  retryable_not_found : PullResult
  timeout : PullResult
  other : PullResult

pub data ServeResult : Type 0 where
  served : ServeResult
  not_found : ServeResult
  sender_failed : ServeResult

-- `adjust(delta)` for a positive and for a negative delta: the clamp to 0..100.
abbrev pub raise : ℕ → ℕ → ℕ
raise score delta = min (score + delta) 100

abbrev pub lower : ℕ → ℕ → ℕ
lower score delta = min (score - delta) 100

abbrev pub count_u32 : ℕ → ℕ
count_u32 n = (n + 1) % 2 ^ 32

abbrev pub add_u64 : ℕ → ℕ → ℕ
add_u64 a b = (a + b) % 2 ^ 64

-- `latency_ms`: the first sample, or the average of three parts old and one part new.
unfoldable pub average : ℕ → Option ℕ → ℕ
average old none = old
average old (some sample) =
    if old == 0 then sample % 2 ^ 32 else (old * 3 % 2 ^ 32 + sample % 2 ^ 32) % 2 ^ 32 / 4

unfoldable pub on_pull : PullResult → Option ℕ → ℕ → ℕ → PeerStat → PeerStat
on_pull PullResult.pulled latency bytes now s = record s {
  last_seen = now;
  pulls = count_u32 s.pulls;
  score = raise s.score 2;
  latency_ms = average s.latency_ms latency;
  downloaded_bytes = add_u64 s.downloaded_bytes bytes;
}
on_pull PullResult.not_found latency bytes now s = record s {
  last_seen = now;
  nf_pulls = count_u32 s.nf_pulls;
}
on_pull PullResult.retryable_not_found latency bytes now s = record s { last_seen = now }
on_pull PullResult.timeout latency bytes now s = record s {
  last_seen = now;
  timeouts = count_u32 s.timeouts;
  score = lower s.score 10;
}
on_pull PullResult.other latency bytes now s = record s {
  last_seen = now;
  other_fails = count_u32 s.other_fails;
  score = lower s.score 3;
}

unfoldable pub on_serve : ServeResult → ℕ → PeerStat → PeerStat
on_serve ServeResult.served bytes s = record s {
  served = count_u32 s.served;
  score = raise s.score 2;
  uploaded_bytes = add_u64 s.uploaded_bytes bytes;
}
on_serve ServeResult.not_found bytes s = record s { nf_served = count_u32 s.nf_served }
on_serve ServeResult.sender_failed bytes s = record s {
  sender_fails = count_u32 s.sender_fails;
  score = lower s.score 5;
}

-- The part of `Node` that the two functions change.
pub record Book : Type 0 where
  pub peer_stats : List (SocketAddr × PeerStat)
  pub downloaded_total : ℕ
  pub downloaded_bytes : ℕ
  pub served_total : ℕ
  pub served_bytes : ℕ

unfoldable pub new_book : Book
new_book = record {
  peer_stats = [];
  downloaded_total = 0;
  downloaded_bytes = 0;
  served_total = 0;
  served_bytes = 0;
}

unfoldable pub total_pull : PullResult → ℕ → Book → Book
total_pull PullResult.pulled bytes b = record b {
  downloaded_total = add_u64 b.downloaded_total 1;
  downloaded_bytes = add_u64 b.downloaded_bytes bytes;
}
total_pull PullResult.not_found bytes b = b
total_pull PullResult.retryable_not_found bytes b = b
total_pull PullResult.timeout bytes b = b
total_pull PullResult.other bytes b = b

-- `record_pull`; `name` is the peer's name, or its address as text.
unfoldable pub record_pull : Book → SocketAddr → List ℕ → PullResult → Option ℕ → ℕ → ℕ → Book
record_pull b peer name result latency bytes now =
    let counted = total_pull result bytes b in
    record counted {
      peer_stats =
          at_entry peer (new_stat name now) (on_pull result latency bytes now) b.peer_stats;
    }

unfoldable pub total_serve : ServeResult → ℕ → Book → Book
total_serve ServeResult.served bytes b = record b {
  served_total = add_u64 b.served_total 1;
  served_bytes = add_u64 b.served_bytes bytes;
}
total_serve ServeResult.not_found bytes b = b
total_serve ServeResult.sender_failed bytes b = b

-- `record_serve`.
unfoldable pub record_serve : Book → SocketAddr → List ℕ → ServeResult → ℕ → ℕ → Book
record_serve b peer name result bytes now =
    let counted = total_serve result bytes b in
    record counted {
      peer_stats = at_entry peer (new_stat name now) (on_serve result bytes) b.peer_stats;
    }
