-- ===== src/Node/Public.antt =====
-- `remote_public` and `same_ip4` of src/node.rs, over the address ranges of std::net.
use qstream.Base.{ℕ, ◌/◌, Bool, false, not, leb, ◌==◌, ◌&&◌, ◌||◌, List, [], ◌∷◌}
use qstream.Net.{SocketAddr, v4, v6}

-- `Ipv4Addr::is_loopback` and `is_private`, of the first two octets.
unfoldable pub is_loopback4 : ℕ → Bool
is_loopback4 a = a == 127

unfoldable pub is_private4 : ℕ → ℕ → Bool
is_private4 a b = a == 10 || (a == 172 && leb 16 b && leb b 31) || (a == 192 && b == 168)

-- `Ipv6Addr::is_loopback`: fifteen zeros and a one.
unfoldable pub is_loopback6 : List ℕ → Bool
is_loopback6 [] = false
is_loopback6 (o ∷ []) = o == 1
is_loopback6 (o ∷ p ∷ os) = o == 0 && is_loopback6 (p ∷ os)

-- `Ipv6Addr::is_unicast_link_local`: fe80::/10.
unfoldable pub is_link_local : List ℕ → Bool
is_link_local [] = false
is_link_local (o ∷ []) = false
is_link_local (o ∷ p ∷ os) = o == 0xfe && p / 64 == 2

-- `remote_public`.
unfoldable pub remote_public : SocketAddr → Bool
unfolding is_loopback4 is_private4 is_loopback6 is_link_local
remote_public (v4 a b c d port) = not (is_loopback4 a) && not (is_private4 a b)
remote_public (v6 octets port flow scope) = not (is_loopback6 octets) && not (is_link_local octets)

-- The test of a beacon's source in `handle`.
unfoldable pub is_lan_source : SocketAddr → Bool
unfolding is_loopback4 is_private4 is_loopback6 is_link_local
is_lan_source (v4 a b c d port) = is_private4 a b || is_loopback4 a
is_lan_source (v6 octets port flow scope) = is_loopback6 octets || is_link_local octets

-- `same_ip4`.
unfoldable pub same_ip4 : SocketAddr → SocketAddr → Bool
same_ip4 (v4 a b c d p) (v4 a' b' c' d' p') = a == a' && b == b' && c == c' && d == d'
same_ip4 (v4 a b c d p) (v6 x p' f s) = false
same_ip4 (v6 x p f s) y = false
