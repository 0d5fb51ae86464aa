-- ===== src/Node/Tests.antt =====
-- The theorems on src/node.rs at two peers.
use qstream.Base.{
  ℕ, ◌+◌, ◌-◌, ◌≤◌, ◌⊎◌, inl, max, length, ◌==◌, ◌≡◌, refl, true, false, ltb, if◌then◌else◌, none,
  some, List, [], ◌∷◌, arith,
}
use qstream.Net.{SocketAddr, v4}
use qstream.Protocol.Types.{SegmentAvailability, contains}
use qstream.Transfer.Registry.Availability.{segment_number}
use qstream.Clock.{secs}
use qstream.Transfer.Manifest.{parse_manifest}
use qstream.Node.Addr.{lookup, same_addr, keys, member, any}
use qstream.Node.Among.{Among}
use qstream.Node.Public.{remote_public}
use qstream.Node.State.{Node, Role}
use qstream.Node.Seeding.{origin_seed_allowed, has_segment, reachable, good_seeders, is_source}
use qstream.Node.Seeding.Bounds.{
  Source, leases, origin_seed_allowed-denied, origin_seed_allowed-bounded,
}
use qstream.Node.Peerlist.{advertised, parents, is_advertised, served_count}
use qstream.Node.Peerlist.Contents.{Entered, advertised_entries, advertised_parents}
use qstream.Node.Handle.{handle, manifest_bytes}
use qstream.Node.Handle.Peers.{Gains, handle-Gains}
use qstream.Node.Tick.{Surroundings, prune_segments}
use qstream.Node.Tick.Prune.{Disposable, prune_segments_files}
use qstream.Node.Run.{Step, received, ticked, started, pulled, dropped, run}
use qstream.Node.Run.Safety.{run-IsHealthy}
use qstream.Node.Safety.{IsHealthy}
use qstream.Node.Sample.{settings, host, guest, segment, origin, origin-IsHealthy}
use qstream.Node.Stats.{PullResult, ServeResult, new_book}
use qstream.Node.Stats.Totals.{Entry, pull, serve, enter_all, IsBalanced, enter_all-new_book}
use qstream.Node.Paths.{PathState, path_fresh, is_lan_path, record_pong, record_pong-path_fresh}
use qstream.Node.Inventory.{
  Knowledge, record_availability, record_missing, peer_availability, peer_may_have, may_have,
  inventory_answer, record_availability-has, record_missing-lacks,
}

abbrev entries : List Entry
entries =
    pull host [] PullResult.pulled (some 40) 1000 1
    ∷ pull guest [] PullResult.timeout none 0 2
    ∷ serve host [] ServeResult.served 500 3
    ∷ []

enter_all-new_book_example : IsBalanced (enter_all new_book entries)
enter_all-new_book_example = enter_all-new_book entries

abbrev paths : List (SocketAddr × PathState)
paths = (host, record { last_ping = 1; last_pong = none; lan = true }) ∷ []

record_pong-path_fresh_example :
    let after = record_pong paths host 5 in
    (path_fresh after host 7 ≡ ltb (7 - 5) 30000000000)
    × (is_lan_path after host ≡ is_lan_path paths host)
record_pong-path_fresh_example = record_pong-path_fresh paths host 5 7

-- `seg_25.ts`, and an inventory that has it.
abbrev filename : List ℕ
filename = 115 ∷ 101 ∷ 103 ∷ 95 ∷ 50 ∷ 53 ∷ 46 ∷ 116 ∷ 115 ∷ []

abbrev inventory : SegmentAvailability
inventory = record { newest = 30; mask = 33 }

abbrev lacking : Knowledge
lacking = record { availability = []; missing_segments = ((host, 25), 90) ∷ [] }

record_availability-has_example :
    peer_availability (record_availability lacking host inventory 5) host filename 7 ≡ some true
unfolding segment_number qstream.Transfer.Registry.Availability.strip_prefix
    qstream.Transfer.Registry.Availability.strip_suffix
    qstream.Transfer.Registry.Availability.parse_u64
    qstream.Transfer.Registry.Availability.digits_u64 contains
record_availability-has_example =
    record_availability-has lacking host inventory filename 25 5 7 refl refl (omega arith)

record_missing-lacks_example :
    peer_may_have (record_missing lacking host filename 5) host filename 7 ≡ (
      if ltb 7 (5 + 15000000000)
      then false
      else may_have (inventory_answer (lookup host lacking.availability) 25 7))
unfolding segment_number qstream.Transfer.Registry.Availability.strip_prefix
    qstream.Transfer.Registry.Availability.strip_suffix
    qstream.Transfer.Registry.Availability.parse_u64
    qstream.Transfer.Registry.Availability.digits_u64
record_missing-lacks_example = record_missing-lacks lacking host filename 25 5 7 refl

denied : (origin_seed_allowed origin segment guest 1 7).1 ≡ false
unfolding origin_seed_allowed has_segment qstream.Node.Seeding.lease
    qstream.Node.Seeding.seed_lease_allowed member reachable qstream.Node.Addr.keep good_seeders
    qstream.Names.find_name qstream.Node.Addr.has_addr peer_may_have any keys is_source same_addr
    remote_public path_fresh qstream.Node.Paths.fresh peer_availability segment_number
    qstream.Transfer.Registry.Availability.strip_prefix
    qstream.Transfer.Registry.Availability.strip_suffix
    qstream.Transfer.Registry.Availability.parse_u64
    qstream.Transfer.Registry.Availability.digits_u64 qstream.Node.Inventory.number_availability
    qstream.Node.Inventory.still_missing qstream.Node.Inventory.missing_until inventory_answer
    contains
denied = refl

origin_seed_allowed-denied_example :
    (origin.role ≡ Role.master)
    × (has_segment origin segment ≡ true)
    × (1 ≤ length (reachable guest (good_seeders origin segment 7)))
    × (member guest (reachable guest (good_seeders origin segment 7)) ≡ false)
    × (a : SocketAddr) × Source origin segment guest 7 a
origin_seed_allowed-denied_example = origin_seed_allowed-denied origin segment guest 1 7 denied

source_known : any (is_source origin segment guest 7) (keys origin.peers) ≡ true
unfolding any keys is_source same_addr remote_public path_fresh qstream.Node.Paths.fresh
    peer_availability segment_number qstream.Transfer.Registry.Availability.strip_prefix
    qstream.Transfer.Registry.Availability.strip_suffix
    qstream.Transfer.Registry.Availability.parse_u64
    qstream.Transfer.Registry.Availability.digits_u64 qstream.Node.Inventory.number_availability
    qstream.Node.Inventory.still_missing qstream.Node.Inventory.missing_until inventory_answer
    contains
source_known = refl

has_25 : has_segment origin segment ≡ true
unfolding has_segment
has_25 = refl

origin_seed_allowed-bounded_example :
    length (reachable guest (leases origin segment guest 1 7))
    ≤ max 1 (length (reachable guest (good_seeders origin segment 7)))
origin_seed_allowed-bounded_example =
    origin_seed_allowed-bounded origin segment guest 1 7 refl has_25 source_known

host_entry : Entered (advertised origin guest) (host, 4)
unfolding advertised qstream.Node.Addr.keep keys same_addr remote_public member
    qstream.Node.Public.same_ip4 lookup
host_entry = inl refl

advertised_entries_example :
    (length (advertised origin guest) ≤ 16)
    × Among (keys origin.peers) host
    × (same_addr host guest ≡ false)
    × ((remote_public guest ≡ false) ⊎ (remote_public host ≡ true))
advertised_entries_example = advertised_entries origin guest host 4 host_entry

host_known : Among (keys origin.peers) host
unfolding keys
host_known = inl refl

host_advertised : is_advertised guest host ≡ true
unfolding is_advertised same_addr remote_public
host_advertised = refl

advertised_parents_example :
    Among (parents origin guest) host
    ⊎ (served_count origin.book.peer_stats host ≤ served_count origin.book.peer_stats host)
advertised_parents_example =
    advertised_parents origin guest host host 4 host_entry (omega arith) host_known host_advertised

-- A PING of the host, and a datagram that is too short.
abbrev ping : List ℕ
ping = 81 ∷ 83 ∷ 84 ∷ 3 ∷ 0x60 ∷ 0 ∷ 0 ∷ 5 ∷ 0 ∷ 0 ∷ 0 ∷ 0 ∷ 0 ∷ 0 ∷ 0 ∷ 0 ∷ 0 ∷ 1 ∷ 104 ∷ []

abbrev stranger : SocketAddr
stranger = v4 10 0 0 3 20000

handle-Gains_example :
    Gains stranger
      (keys origin.peers)
      (keys (handle settings none 2 origin ping stranger 7).0.peers)
handle-Gains_example = handle-Gains settings none 2 origin ping stranger 7

prune_segments_files_example :
    ((prune_segments origin (some ((segment, some 1) ∷ [])) (λ n. true) 7).0.world.disk.files
        segment
      ≡ origin.world.disk.files segment)
    ⊎ (((origin.retention_secs == 0) ≡ false)
        × Disposable
            (parse_manifest (manifest_bytes origin))
            (secs origin.retention_secs)
            ((segment, some 1) ∷ [])
            segment)
prune_segments_files_example =
    prune_segments_files origin ((segment, some 1) ∷ []) (λ n. true) 7 segment

abbrev quiet : Surroundings
quiet = record { entries = some []; can_remove = λ n. true; names = none; show = λ a. [] }

abbrev steps : List Step
steps =
    received none 2 ping stranger 7
    ∷ received none 2 [] host 8
    ∷ started (5 ∷ []) host segment 9
    ∷ ticked quiet 10
    ∷ pulled (λ a. []) host PullResult.pulled (some 40) 1000 11
    ∷ dropped 5
    ∷ []

run-IsHealthy_example : (m : Node) × (run settings origin steps ≡ some m) × IsHealthy m
run-IsHealthy_example = run-IsHealthy settings origin steps origin-IsHealthy
