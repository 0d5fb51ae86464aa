-- ===== src/Node/Sample.antt =====
-- A master with two peers, for the tests of src/node.rs and src/peer.rs.
use qstream.Base.{ℕ, true, false, if◌then◌else◌, none, some, List, [], ◌∷◌, ◌++◌, arith}
use qstream.Net.{SocketAddr, v4}
use qstream.Disk.{Disk, bytes_eq}
use qstream.Text.{codes}
use qstream.Fault.Injector.{Link}
use qstream.Transfer.Timing.{Settings}
use qstream.Transfer.Registry.{new_registry}
use qstream.Transfer.Registry.Kept.{new_registry-IsSafe}
use qstream.Node.Paths.{PathState}
use qstream.Node.Stats.{new_book, new_stat}
use qstream.Node.Stats.Totals.{downloaded, uploaded}
use qstream.Node.State.{Node, Role}
use qstream.Node.Safety.{IsHealthy}

abbrev pub settings : Settings
settings = record { pace_ms = 1; quiet_ms = 200; first_timeout_ms = 1000 }

abbrev pub host : SocketAddr
host = v4 10 0 0 1 20000

abbrev pub guest : SocketAddr
guest = v4 10 0 0 2 20000

abbrev pub segment : List ℕ
segment = codes "seg_25.ts"

abbrev pub playlist : List ℕ
playlist = codes "#EXTM3U" ++ 10 ∷ segment ++ 10 ∷ []

abbrev pub disk : Disk
disk = record {
  files = λ n.
      if bytes_eq n segment
      then some (1 ∷ 2 ∷ [])
      else if bytes_eq n (codes "live.m3u8")
      then some playlist
      else none;
  is_dir = λ n. false;
  can_write = λ n. true;
  torn = λ n b. none;
  can_rename = λ n m. true;
}

abbrev pub link : Link
link = record {
  fault = record {
    rng = record { state = 42 };
    started = 0;
    drop_pct = 0;
    dup_pct = 0;
    reorder_pct = 0;
    delay_ms = 0;
    burst_every_ms = 0;
    burst_dur_ms = 0;
    held = none;
    delayed = [];
    stats = record { dropped = 0; emitted = 0 };
  };
  socket = record { accepts = λ d. true; sent = [] };
}

abbrev pub heard : PathState
heard = record { last_ping = 1; last_pong = some 1; lan = false }

-- The host has told that it has the segments 25 and 30, and holds the lease of segment 25.
abbrev pub origin : Node
origin = record {
  name = codes "origin";
  role = Role.master;
  manifest_path = codes "live.m3u8";
  registry = new_registry;
  world = record { link = link; disk = disk };
  peers =
      (host, record { name = codes "host"; last_seen = 1 })
      ∷ (guest, record { name = codes "guest"; last_seen = 1 })
      ∷ [];
  book = record (new_book) {
    peer_stats = (host, new_stat (codes "host") 1) ∷ (guest, new_stat (codes "guest") 1) ∷ [];
  };
  my_public = none;
  claimed = none;
  beacon_nonce = 9;
  claims = [];
  paths = (host, heard) ∷ (guest, heard) ∷ [];
  knowledge = record {
    availability = (host, (record { newest = 30; mask = 33 }, 1)) ∷ [];
    missing_segments = [];
  };
  origin_seeders = (segment, host ∷ []) ∷ [];
  origin_seed_assignments = 1;
  origin_seed_denials = 0;
  local_addr = v4 10 0 0 9 20000;
  next_ping = 0;
  next_beacon = 0;
  retention_secs = 60;
  next_prune = 0;
}

pub origin-IsHealthy : IsHealthy origin
unfolding new_book new_stat downloaded uploaded
origin-IsHealthy = record {
  transfers = new_registry-IsSafe;
  book = record { scores = omega arith; down = omega arith; up = omega arith };
}
