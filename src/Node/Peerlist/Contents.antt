-- ===== src/Node/Peerlist/Contents.antt =====
-- Which peers src/node.rs names in a PEERLIST_RESPONSE.
use qstream.Base.{
  ℕ, zero, suc, ◌≤◌, ◌≡◌, refl, sym, ap, ◌∙◌, leb, ◌⊎◌, inl, inr, Bool, true, false, Bool-cases,
  List, [], ◌∷◌, take, length, arith,
}
use qstream.Net.{SocketAddr}
use qstream.Node.Addr.{same_addr, lookup, keys, member, keep}
use qstream.Node.Public.{remote_public, same_ip4}
use qstream.Node.Among.{Among, member-Among, Among-keep, keep-Among}
use qstream.Node.State.{Node}
use qstream.Node.Peerlist.{
  served_count, sort_peers, is_advertised, candidates, parents, flags_of, with_flags, advertised,
  max_advertised_peers, flag, claims_itself, peer_parent, peer_same_ip, peer_upnp_mapped,
}
use qstream.Node.Peerlist.Order.{Among-sort_peers, sort_peers-Among, sort_peers-Rising, Rising-take}

abbrev pub Entered : List (SocketAddr × ℕ) → SocketAddr × ℕ → Type 0
Entered [] x = ⊥
Entered (y ∷ ys) x = (y ≡ x) ⊎ Entered ys x

Among-take : (k : ℕ) (x : SocketAddr) (xs : List SocketAddr) → Among (take k xs) x → Among xs x
Among-take zero x xs h = absurd h
Among-take (suc k) x [] h = absurd h
Among-take (suc k) x (a ∷ xs) (inl e) = inl e
Among-take (suc k) x (a ∷ xs) (inr h) = inr (Among-take k x xs h)

length-with_flags :
    (n : Node) (src : SocketAddr) (xs : List SocketAddr) → length (with_flags n src xs) ≡ length xs
unfolding with_flags
length-with_flags n src [] = refl
length-with_flags n src (a ∷ xs) = omega (arith, length-with_flags n src xs)

length-take-le : (k : ℕ) (xs : List SocketAddr) → length (take k xs) ≤ k
length-take-le zero xs = omega arith
length-take-le (suc k) [] = omega arith
length-take-le (suc k) (x ∷ xs) = omega (arith, length-take-le k xs)

Entered-with_flags :
    (n : Node) (src a : SocketAddr) (flags : ℕ) (xs : List SocketAddr)
    → Entered (with_flags n src xs) (a, flags)
    → Among xs a × (flags ≡ flags_of n src a)
unfolding with_flags
Entered-with_flags n src a flags [] h = absurd h
Entered-with_flags n src a flags (b ∷ bs) (inl e) =
    let q : b ≡ a = ap (λ x. x.0) e in (inl q, sym (ap (λ x. x.1) e) ∙ ap (flags_of n src) q)
Entered-with_flags n src a flags (b ∷ bs) (inr h) =
    let (m, q) = Entered-with_flags n src a flags bs h in (inr m, q)

parent_bit :
    (parent same mapped : Bool)
    → leb peer_parent
        (flag parent peer_parent (flag same peer_same_ip (flag mapped peer_upnp_mapped 0)))
      ≡ parent
unfolding flag
parent_bit true true true = refl
parent_bit true true false = refl
parent_bit true false true = refl
parent_bit true false false = refl
parent_bit false true true = refl
parent_bit false true false = refl
parent_bit false false true = refl
parent_bit false false false = refl

flags_of-parent :
    (n : Node) (src a : SocketAddr) → leb peer_parent (flags_of n src a) ≡ member a (parents n src)
unfolding flags_of
flags_of-parent n src a =
    parent_bit (member a (parents n src)) (same_ip4 a src) (claims_itself (lookup a n.claims) a)

candidate_lem :
    (n : Node) (src a : SocketAddr)
    → Among (candidates n src) a
    → Among (keys n.peers) a × (is_advertised src a ≡ true)
unfolding candidates
candidate_lem n src a h =
    Among-keep (is_advertised src) a (keys n.peers)
      (Among-sort_peers n.book.peer_stats a (keep (is_advertised src) (keys n.peers)) h)

-- A response to `src` has at most 16 entries, and each names a peer that the node knows, other than
-- `src`, and with a public address if the address of `src` is public.
pub advertised_entries :
    (n : Node) (src a : SocketAddr) (flags : ℕ)
    → Entered (advertised n src) (a, flags)
    → (length (advertised n src) ≤ 16)
      × Among (keys n.peers) a
      × (same_addr a src ≡ false)
      × ((remote_public src ≡ false) ⊎ (remote_public a ≡ true))
unfolding advertised is_advertised
advertised_entries n src a flags h =
    let (taken, e) =
      Entered-with_flags n src a flags (take max_advertised_peers (candidates n src)) h in
    let (known, ok) =
      candidate_lem n src a (Among-take max_advertised_peers a (candidates n src) taken) in
    (
      omega (
        arith,
        length-with_flags n src (take max_advertised_peers (candidates n src)),
        length-take-le max_advertised_peers (candidates n src),
      ),
      known,
      ground arith,
      elim (Bool-cases (remote_public src)) [ inl r ↦ inr (ground arith) | inr r ↦ inl r ],
    )

-- The entries with the flag PEER_PARENT spread the load: no peer that could be named instead, and
-- that is not a parent too, has been served less.
pub advertised_parents :
    (n : Node) (src a c : SocketAddr) (flags : ℕ)
    → Entered (advertised n src) (a, flags)
    → 4 ≤ flags
    → Among (keys n.peers) c
    → is_advertised src c ≡ true
    → Among (parents n src) c
      ⊎ (served_count n.book.peer_stats a ≤ served_count n.book.peer_stats c)
unfolding advertised parents candidates
advertised_parents n src a c flags h bit known ok =
    let (taken, e) =
      Entered-with_flags n src a flags (take max_advertised_peers (candidates n src)) h in
    let parent : member a (parents n src) ≡ true =
      sym (flags_of-parent n src a) ∙ ap (leb peer_parent) (sym e) ∙ ground arith in
    let free = keep (is_advertised src) (keys n.peers) in
    Rising-take n.book.peer_stats 2 (sort_peers n.book.peer_stats free) a c
      (sort_peers-Rising n.book.peer_stats free) (member-Among a (parents n src) parent)
      (sort_peers-Among n.book.peer_stats c free
        (keep-Among (is_advertised src) c (keys n.peers) known ok))
