-- ===== src/Node/Peerlist.antt =====
-- The answer of src/node.rs to a PEERLIST_REQUEST: which peers are named, and with which flags.
pub mod Order
pub mod Contents
use qstream.Base.{
  ℕ, Bool, true, false, not, ltb, ◌==◌, ◌&&◌, ◌||◌, if◌then◌else◌, Option, none, some, List, [],
  ◌∷◌, ◌++◌, bit_or, take,
}
use mathlib.Core.Option
use qstream.Net.{SocketAddr, v4, v6}
use qstream.Node.Addr.{same_addr, lookup, keys, member, keep}
use qstream.Node.Public.{remote_public, same_ip4}
use qstream.Node.Stats.{PeerStat}
use qstream.Node.State.{Node}

-- `PEER_UPNP_MAPPED`, `PEER_SAME_IP` and `PEER_PARENT` of src/protocol.rs.
abbrev pub peer_upnp_mapped : ℕ
peer_upnp_mapped = 1

abbrev pub peer_same_ip : ℕ
peer_same_ip = 2

abbrev pub peer_parent : ℕ
peer_parent = 4

abbrev pub max_advertised_peers : ℕ
max_advertised_peers = 16

abbrev pub parent_count : ℕ
parent_count = 2

-- The order of addresses: IPv4 before IPv6, then by octets, then by port.
unfoldable pub order_key : SocketAddr → List ℕ
order_key (v4 a b c d port) = 4 ∷ a ∷ b ∷ c ∷ d ∷ port ∷ []
order_key (v6 octets port flow scope) = 6 ∷ (octets ++ port ∷ [])

unfoldable pub lex_less : List ℕ → List ℕ → Bool
lex_less [] [] = false
lex_less [] (b ∷ bs) = true
lex_less (a ∷ xs) [] = false
lex_less (a ∷ xs) (b ∷ bs) = ltb a b || (a == b && lex_less xs bs)

unfoldable pub served_by : Option PeerStat → ℕ
served_by none = 0
served_by (some s) = s.served

-- How often the peer has been served.
unfoldable pub served_count : List (SocketAddr × PeerStat) → SocketAddr → ℕ
unfolding served_by
served_count stats a = served_by (lookup a stats)

-- `a_served.cmp(&b_served).then(a.cmp(b))` is less.
unfoldable pub comes_before : List (SocketAddr × PeerStat) → SocketAddr → SocketAddr → Bool
unfolding order_key lex_less served_count
comes_before stats a b =
    ltb (served_count stats a) (served_count stats b)
    || (served_count stats a == served_count stats b && lex_less (order_key a) (order_key b))

unfoldable pub insert_peer :
    List (SocketAddr × PeerStat) → SocketAddr → List SocketAddr → List SocketAddr
unfolding comes_before
insert_peer stats a [] = a ∷ []
insert_peer stats a (b ∷ bs) =
    let later = insert_peer stats a bs in if comes_before stats b a then b ∷ later else a ∷ b ∷ bs

-- `sort_by`, which is stable.
unfoldable pub sort_peers : List (SocketAddr × PeerStat) → List SocketAddr → List SocketAddr
unfolding insert_peer
sort_peers stats [] = []
sort_peers stats (a ∷ xs) = insert_peer stats a (sort_peers stats xs)

-- A peer that is named to `src`: not itself, and nothing private to a remote peer.
unfoldable pub is_advertised : SocketAddr → SocketAddr → Bool
is_advertised src a = not (same_addr a src) && not (remote_public src && not (remote_public a))

unfoldable pub candidates : Node → SocketAddr → List SocketAddr
unfolding sort_peers is_advertised
candidates n src = sort_peers n.book.peer_stats (keep (is_advertised src) (keys n.peers))

unfoldable pub parents : Node → SocketAddr → List SocketAddr
unfolding candidates
parents n src = take parent_count (candidates n src)

unfoldable pub claims_itself : Option SocketAddr → SocketAddr → Bool
claims_itself none a = false
claims_itself (some c) a = same_addr c a

unfoldable pub flag : Bool → ℕ → ℕ → ℕ
flag set bit flags = if set then bit_or flags bit else flags

unfoldable pub flags_of : Node → SocketAddr → SocketAddr → ℕ
unfolding claims_itself flag parents
flags_of n src a = flag (member a (parents n src)) peer_parent (
    flag (same_ip4 a src) peer_same_ip
      (flag (claims_itself (lookup a n.claims) a) peer_upnp_mapped 0))

unfoldable pub with_flags : Node → SocketAddr → List SocketAddr → List (SocketAddr × ℕ)
unfolding flags_of
with_flags n src [] = []
with_flags n src (a ∷ xs) = (a, flags_of n src a) ∷ with_flags n src xs

-- The entries of the PEERLIST_RESPONSE.
unfoldable pub advertised : Node → SocketAddr → List (SocketAddr × ℕ)
unfolding with_flags candidates
advertised n src = with_flags n src (take max_advertised_peers (candidates n src))
