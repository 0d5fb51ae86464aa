-- ===== src/Node/Seeding/Bounds.antt =====
-- Whom the master of src/node.rs refuses a segment, and how many peers it serves one to.
use qstream.Base.{
  ℕ, ◌+◌, ◌≤◌, ◌≡◌, refl, ap, inl, inr, Bool, true, false, not, ltb, ◌&&◌, ◌||◌, max, Bool-cases,
  Option, none, some, List, [], ◌∷◌, length, arith,
}
use mathlib.Core.Option
use qstream.Net.{SocketAddr}
use qstream.Names.{find_name, find_name-put_name}
use qstream.Node.Among.{Among, any-Among}
use qstream.Node.Addr.{same_addr, keys, member, add, keep, any}
use qstream.Node.Public.{remote_public}
use qstream.Node.Paths.{path_fresh}
use qstream.Node.Inventory.{peer_availability}
use qstream.Node.State.{Node, Role}
use qstream.Node.Seeding.{
  same_bool, is_true, is_master, seed_lease_allowed, good_seeders, reachable, is_source,
  with_seeders, assign, lease, has_segment, origin_seed_allowed,
}

-- Another peer that the requester can pull the segment from.
pub record Source (n : Node) (filename : List ℕ) (peer : SocketAddr) (now : ℕ) (a : SocketAddr)
    : Type 0 where
  pub known : Among (keys n.peers) a
  pub other : same_addr a peer ≡ false
  pub side : remote_public a ≡ remote_public peer
  pub path : path_fresh n.paths a now ≡ true
  pub announced : peer_availability n.knowledge a filename now ≡ some true

same_bool_eq : (a b : Bool) → same_bool a b ≡ true → a ≡ b
unfolding same_bool
same_bool_eq true true e = refl
same_bool_eq true false e = cc
same_bool_eq false true e = cc
same_bool_eq false false e = refl

pub is_true-some : (o : Option Bool) → is_true o ≡ true → o ≡ some true
unfolding is_true
is_true-some none e = cc
is_true-some (some b) e = ap some e

and_parts :
    (a b c d : Bool) → (a && b && c && d) ≡ true → (a ≡ true) × (b ≡ true) × (c ≡ true) × (d ≡ true)
and_parts a b c d e = ground arith

is_master_eq : (r : Role) → is_master r ≡ true → r ≡ Role.master
unfolding is_master
is_master_eq Role.master e = refl
is_master_eq Role.peer e = cc

is_source-Source :
    (n : Node) (filename : List ℕ) (peer : SocketAddr) (now : ℕ) (a : SocketAddr)
    → Among (keys n.peers) a
    → is_source n filename peer now a ≡ true
    → Source n filename peer now a
unfolding is_source
is_source-Source n filename peer now a known e =
    let s =
      and_parts (not (same_addr a peer)) (same_bool (remote_public a) (remote_public peer))
        (path_fresh n.paths a now) (is_true (peer_availability n.knowledge a filename now)) e in
    record {
      known = known;
      other = ground (arith, s.0);
      side = same_bool_eq (remote_public a) (remote_public peer) s.1;
      path = s.2;
      announced = is_true-some (peer_availability n.knowledge a filename now) s.3;
    }

-- A peer is refused a segment only if there is another way to it: the node is a master that has the
-- segment, its leases on the requester's side of the public network are all given to others, and
-- another known peer on that side, with a fresh path, announces the segment.
pub origin_seed_allowed-denied :
    (n : Node) (filename : List ℕ) (peer : SocketAddr) (limit now : ℕ)
    → (origin_seed_allowed n filename peer limit now).1 ≡ false
    → (n.role ≡ Role.master)
      × (has_segment n filename ≡ true)
      × (limit ≤ length (reachable peer (good_seeders n filename now)))
      × (member peer (reachable peer (good_seeders n filename now)) ≡ false)
      × (a : SocketAddr) × Source n filename peer now a
unfolding origin_seed_allowed is_master lease seed_lease_allowed
origin_seed_allowed-denied n filename peer limit now e =
    elim (Bool-cases (not (is_master n.role) || not (has_segment n filename))) [
      | inl free ↦ absurd (let f = rw free at e in cc)
      | inr mine ↦
          let e' = rw mine at e in
          let seeders = good_seeders n filename now in
          elim (Bool-cases
            (member peer (reachable peer seeders) || ltb (length (reachable peer seeders)) limit)) [
              | inl room ↦ absurd (let f = rw room at e' in cc)
              | inr full ↦ elim (Bool-cases (any (is_source n filename peer now) (keys n.peers))) [
                | inr none_else ↦ absurd (let f = rw (full, none_else) at e' in cc)
                | inl some_else ↦
                    let (a, known, q) =
                      any-Among (is_source n filename peer now) (keys n.peers) some_else in
                    (
                      is_master_eq n.role (ground arith),
                      ground arith,
                      ground arith,
                      ground arith,
                      a,
                      is_source-Source n filename peer now a known q,
                    )
              ]
            ]
    ]

length-keep : (p : SocketAddr → Bool) (ks : List SocketAddr) → length (keep p ks) ≤ length ks
unfolding keep
length-keep p [] = omega arith
length-keep p (k ∷ ks) = ground (arith, length-keep p ks)

member-keep :
    (a : SocketAddr) (p : SocketAddr → Bool) (ks : List SocketAddr)
    → member a (keep p ks) ≡ true
    → member a ks ≡ true
unfolding member keep
member-keep a p [] e = e
member-keep a p (k ∷ ks) e = ground (arith, member-keep a p ks)

length-reachable_add :
    (peer : SocketAddr) (seeders : List SocketAddr)
    → length (reachable peer (add peer seeders)) ≤ length (reachable peer seeders) + 1
unfolding add reachable keep
length-reachable_add peer seeders = ground arith

-- What the leases of a segment are after a request of `peer`.
abbrev pub leases : Node → List ℕ → SocketAddr → ℕ → ℕ → List SocketAddr
leases n filename peer limit now =
    Option.get_or
      (find_name filename (origin_seed_allowed n filename peer limit now).0.origin_seeders) []

-- The origin stays bounded: while another peer on the requester's side can give the segment, a
-- request leaves at most `limit` leases on that side, or no more than were good before it.
pub origin_seed_allowed-bounded :
    (n : Node) (filename : List ℕ) (peer : SocketAddr) (limit now : ℕ)
    → n.role ≡ Role.master
    → has_segment n filename ≡ true
    → any (is_source n filename peer now) (keys n.peers) ≡ true
    → length (reachable peer (leases n filename peer limit now))
      ≤ max limit (length (reachable peer (good_seeders n filename now)))
unfolding origin_seed_allowed is_master lease seed_lease_allowed assign with_seeders reachable
origin_seed_allowed-bounded n filename peer limit now master file source =
    let seeders = good_seeders n filename now in
    let mine : (not (is_master n.role) || not (has_segment n filename)) ≡ false =
      ground (arith, ap is_master master) in
    rw mine
      (elim (Bool-cases
        (member peer (reachable peer seeders) || ltb (length (reachable peer seeders)) limit)) [
          | inl room ↦ rw room (elim (Bool-cases (member peer seeders)) [
            | inl old ↦ rw (old, find_name-put_name filename seeders n.origin_seeders) (omega arith)
            | inr new ↦
                rw (new, find_name-put_name filename (add peer seeders) n.origin_seeders)
                  (ground (
                    arith,
                    length-reachable_add peer seeders,
                    member-keep peer (λ c. same_bool (remote_public c) (remote_public peer))
                        seeders,
                  ))
          ])
          | inr full ↦
              rw (full, source, find_name-put_name filename seeders n.origin_seeders) (omega arith)
        ])
