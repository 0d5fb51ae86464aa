-- ===== src/Peer/Sources/Advertised.antt =====
-- src/peer.rs leaves the origin alone while a peer announces the segment.
use qstream.Base.{
  ℕ, ◌≡◌, refl, ap, sym, ◌∙◌, inl, inr, Bool, true, false, ◌&&◌, Bool-cases, Option, some, List, [],
  ◌∷◌, arith,
}
use qstream.Net.{SocketAddr}
use qstream.Fault.Rng.{Rng}
use qstream.Node.Addr.{same_addr, member, keep}
use qstream.Node.Among.{Among, Among-keep, keep-Among, same_addr_eq}
use qstream.Node.Inventory.{peer_availability}
use qstream.Node.State.{Node}
use qstream.Node.Seeding.{is_true}
use qstream.Node.Seeding.Bounds.{is_true-some}
use qstream.Peer.Sources.{
  Float, ActiveJob, History, eligible, is_empty, or_else, is_announced, prefer_advertised_peers,
  sources, weight, draw, pick_peer,
}
use qstream.Peer.Sources.Choice.{spin-Among}

-- An alternative that has something is taken.
or_else_full :
    (first second : List SocketAddr) (a : SocketAddr)
    → Among first a
    → (or_else first second ≡ first) × (is_empty first ≡ false)
unfolding or_else is_empty
or_else_full [] second a m = absurd m
or_else_full (b ∷ rest) second a m = (refl, refl)

first_of : (xs : List SocketAddr) → is_empty xs ≡ false → (b : SocketAddr) × Among xs b
unfolding is_empty
first_of [] e = absurd (cc)
first_of (b ∷ rest) e = (b, inl refl)

-- Once a candidate other than the origin announces, the preferred ones all do, and are others.
prefer_advertised_peers_lem :
    (candidates : List SocketAddr) (bootstrap : SocketAddr)
    (availability : SocketAddr → Option Bool) (a : SocketAddr)
    → Among candidates a
    → is_announced availability bootstrap a ≡ true
    → (prefer_advertised_peers candidates bootstrap availability
        ≡ keep (is_announced availability bootstrap) candidates)
      × (is_empty (prefer_advertised_peers candidates bootstrap availability) ≡ false)
unfolding prefer_advertised_peers
prefer_advertised_peers_lem candidates bootstrap availability a m e =
    let told = keep (is_announced availability bootstrap) candidates in
    let (q, full) =
      or_else_full told _ a (keep-Among (is_announced availability bootstrap) a candidates m e) in
    (q, ap is_empty q ∙ full)

module _ (n : Node) (active : List (ℕ × ActiveJob)) (h : History) (filename : List ℕ)
    (local bootstrap : SocketAddr) (now : ℕ) where
  abbrev told : SocketAddr → Option Bool
  told p = peer_availability n.knowledge p filename now

  abbrev offers : SocketAddr → Bool
  offers p = member p h.parents && is_true (told p)

  parent_told :
      (b : SocketAddr)
      → member bootstrap h.parents ≡ false
      → offers b ≡ true
      → is_announced told bootstrap b ≡ true
  unfolding is_announced
  parent_told b apart good = elim (Bool-cases (same_addr b bootstrap)) [
    | inl same ↦
        let e : b ≡ bootstrap = same_addr_eq b bootstrap same in
        absurd (let k : offers bootstrap ≡ true = ap offers (sym e) ∙ good in ground arith)
    | inr other ↦ ground arith
  ]

  announced_parts :
      (p : SocketAddr)
      → is_announced told bootstrap p ≡ true
      → (same_addr p bootstrap ≡ false) × (peer_availability n.knowledge p filename now ≡ some true)
  unfolding is_announced
  announced_parts p e = (ground arith, is_true-some (told p) (ground arith))

  -- The candidates of the last filter hold a peer that announces.
  stays :
      (all : List SocketAddr) (a : SocketAddr)
      → member bootstrap h.parents ≡ false
      → Among all a
      → is_announced told bootstrap a ≡ true
      → (b : SocketAddr) × Among (or_else (keep offers all) all) b
        × (is_announced told bootstrap b ≡ true)
  unfolding or_else
  stays all a apart m e = elim (Bool-cases (is_empty (keep offers all))) [
    | inl none_left ↦ rw none_left (a, m, e)
    | inr some_left ↦
        let (b, k) = first_of (keep offers all) some_left in
        let (within, good) = Among-keep offers b all k in
        rw some_left (b, k, parent_told b apart good)
  ]

  -- While an eligible peer other than the origin announces the segment, the source that is picked
  -- announces it too and is not the origin, unless a peer list has made the origin a parent.
  pub pick_peer-announced :
      (fl : Float) (rng : Rng) (a p : SocketAddr)
      → member bootstrap h.parents ≡ false
      → Among (eligible n active h filename local bootstrap now) a
      → same_addr a bootstrap ≡ false
      → peer_availability n.knowledge a filename now ≡ some true
      → (pick_peer fl n active h filename local bootstrap rng now).0 ≡ some p
      → (same_addr p bootstrap ≡ false) × (peer_availability n.knowledge p filename now ≡ some true)
  unfolding pick_peer sources draw is_announced is_true
  pick_peer-announced fl rng a p apart m other has e =
      let all = eligible n active h filename local bootstrap now in
      let (b, k, good) = stays all a apart m (rw (has, other) refl) in
      let (q, full) =
        prefer_advertised_peers_lem (or_else (keep offers all) all) bootstrap told b k good in
      let candidates = sources n active h filename local bootstrap now in
      let chosen : Among candidates p =
        spin-Among fl (weight fl n active filename bootstrap now) _ candidates p (rw full at e) in
      let (within, ok) =
        Among-keep (is_announced told bootstrap) p (or_else (keep offers all) all)
          (rw q at chosen) in
      announced_parts p ok
