-- ===== src/Node/Seeding.antt =====
-- `origin_seed_allowed` of src/node.rs: whether the master serves a segment to a peer, or leaves it to the
-- peers that have it already.
pub mod Bounds
use qstream.Base.{
  ℕ, ◌+◌, Bool, true, false, not, ltb, ◌==◌, ◌&&◌, ◌||◌, if◌then◌else◌, Option, none, some, List,
  [], ◌∷◌, length,
}
use mathlib.Core.Option
use qstream.Net.{SocketAddr}
use qstream.Names.{find_name, put_name}
use qstream.Node.Addr.{same_addr, has_addr, keys, member, add, keep, any}
use qstream.Node.Public.{remote_public}
use qstream.Node.Paths.{path_fresh}
use qstream.Node.Inventory.{peer_availability, peer_may_have}
use qstream.Node.Stats.{add_u64}
use qstream.Node.State.{Node, Role}

unfoldable pub same_bool : Bool → Bool → Bool
same_bool true b = b
same_bool false b = not b

unfoldable pub is_true : Option Bool → Bool
is_true none = false
is_true (some b) = b

unfoldable pub is_master : Role → Bool
is_master Role.master = true
is_master Role.peer = false

-- `seed_lease_allowed`.
unfoldable pub seed_lease_allowed : List SocketAddr → SocketAddr → ℕ → Bool
seed_lease_allowed seeders peer limit = member peer seeders || ltb (length seeders) limit

-- A seeder that is known, has a fresh path and may have the segment.
unfoldable pub is_viable : Node → List ℕ → ℕ → SocketAddr → Bool
is_viable n filename now candidate =
    has_addr candidate n.peers
    && path_fresh n.paths candidate now
    && peer_may_have n.knowledge candidate filename now

-- The leases of a segment that are still good.
unfoldable pub good_seeders : Node → List ℕ → ℕ → List SocketAddr
unfolding is_viable
good_seeders n filename now =
    let seeders = Option.get_or (find_name filename n.origin_seeders) [] in
    let viable = keep (is_viable n filename now) seeders in keep (λ c. member c viable) seeders

-- The seeders on the same side of the public network as `peer`.
unfoldable pub reachable : SocketAddr → List SocketAddr → List SocketAddr
unfolding same_bool
reachable peer seeders = keep (λ c. same_bool (remote_public c) (remote_public peer)) seeders

-- Another known peer with a fresh path that announces the segment.
unfoldable pub is_source : Node → List ℕ → SocketAddr → ℕ → SocketAddr → Bool
unfolding same_bool is_true
is_source n filename peer now candidate =
    not (same_addr candidate peer)
    && same_bool (remote_public candidate) (remote_public peer)
    && path_fresh n.paths candidate now
    && is_true (peer_availability n.knowledge candidate filename now)

unfoldable pub with_seeders : Node → List ℕ → List SocketAddr → Node
with_seeders n filename seeders = record n {
  origin_seeders = put_name filename seeders n.origin_seeders;
}

-- A lease for `peer`.
unfoldable pub assign : Node → List ℕ → List SocketAddr → SocketAddr → Node
unfolding with_seeders
assign n filename seeders peer = record (with_seeders n filename (add peer seeders)) {
  origin_seed_assignments = add_u64 n.origin_seed_assignments 1;
}

-- The part of `origin_seed_allowed` behind its first test.
unfoldable pub lease : Node → List ℕ → SocketAddr → ℕ → ℕ → Node × Bool
unfolding assign with_seeders
lease n filename peer limit now =
    let seeders = good_seeders n filename now in
    if seed_lease_allowed (reachable peer seeders) peer limit
    then (
      if member peer seeders
          then with_seeders n filename seeders
          else assign n filename seeders peer,
      true,
    )
    else if any (is_source n filename peer now) (keys n.peers)
    then (
      record (with_seeders n filename seeders) {
        origin_seed_denials = add_u64 n.origin_seed_denials 1;
      },
      false,
    )
    else (assign n filename seeders peer, true)

unfoldable pub has_segment : Node → List ℕ → Bool
has_segment n filename = elim (n.world.disk.files filename) [ none ↦ false | some bytes ↦ true ]

-- `origin_seed_allowed`; `limit` is read from the environment.
unfoldable pub origin_seed_allowed : Node → List ℕ → SocketAddr → ℕ → ℕ → Node × Bool
unfolding is_master
origin_seed_allowed n filename peer limit now =
    if not (is_master n.role) || not (has_segment n filename)
    then (n, true)
    else lease n filename peer limit now

unfoldable pub prune_leases :
    Node → List (List ℕ × List SocketAddr) → List (List ℕ × List SocketAddr)
prune_leases n [] = []
prune_leases n ((filename, seeders) ∷ xs) =
    let rest = prune_leases n xs in
    let known = keep (λ a. has_addr a n.peers) seeders in
    if length known == 0 then rest else (filename, known) ∷ rest

-- `prune_origin_seeders`.
unfoldable pub prune_origin_seeders : Node → Node
prune_origin_seeders n = record n { origin_seeders = prune_leases n n.origin_seeders }
