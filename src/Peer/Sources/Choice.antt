-- ===== src/Peer/Sources/Choice.antt =====
-- Whom src/peer.rs may pull a segment from.
use qstream.Base.{
  ℕ, ◌<◌, ◌≡◌, refl, ◌⊎◌, inl, inr, Bool, true, false, ◌&&◌, Bool-cases, Option, some, List, [],
  ◌∷◌, map, arith,
}
use qstream.Net.{SocketAddr}
use qstream.Fault.Rng.{Rng}
use qstream.Node.Addr.{same_addr, has_addr, keys, member, keep}
use qstream.Node.Among.{Among, Among-keep, same_addr_eq}
use qstream.Node.Inventory.{peer_availability, peer_may_have}
use qstream.Node.State.{Node, effective_addr}
use qstream.Node.Seeding.{is_true}
use qstream.Peer.Sources.{
  Float, ActiveJob, History, inflight, is_cooling, is_untried, has_room, is_eligible, eligible,
  is_empty, or_else, is_announced, prefer_advertised_peers, sources,
  is_bootstrap_recovery_candidate, recovery, weight, spin, draw, pick_peer,
}

-- The address of a known peer, or its LAN twin's.
abbrev pub Reached : Node → List SocketAddr → SocketAddr → Type 0
Reached n [] p = ⊥
Reached n (k ∷ ks) p = (effective_addr n k ≡ p) ⊎ Reached n ks p

Among-map :
    (n : Node) (ks : List SocketAddr) (p : SocketAddr)
    → Among (map (effective_addr n) ks) p
    → Reached n ks p
Among-map n [] p h = h
Among-map n (k ∷ ks) p (inl e) = inl e
Among-map n (k ∷ ks) p (inr h) = inr (Among-map n ks p h)

Among-or_else :
    (first second : List SocketAddr) (p : SocketAddr)
    → Among (or_else first second) p
    → Among first p ⊎ Among second p
unfolding or_else is_empty
Among-or_else [] second p h = inr h
Among-or_else (a ∷ rest) second p h = inl h

Among-prefer_advertised_peers :
    (candidates : List SocketAddr) (bootstrap : SocketAddr)
    (availability : SocketAddr → Option Bool) (p : SocketAddr)
    → Among (prefer_advertised_peers candidates bootstrap availability) p
    → Among candidates p
unfolding prefer_advertised_peers
Among-prefer_advertised_peers candidates bootstrap availability p h =
    elim (Among-or_else (keep (is_announced availability bootstrap) candidates) _ p h) [
      | inl m ↦ (Among-keep (is_announced availability bootstrap) p candidates m).0
      | inr m ↦ elim (Bool-cases (is_true (availability bootstrap))) [
        | inl y ↦ (Among-keep (λ q. same_addr q bootstrap) p candidates (rw y at m)).0
        | inr y ↦ rw y at m
      ]
    ]

pub spin-Among :
    (fl : Float) (w : SocketAddr → fl.F) (left : fl.F) (xs : List SocketAddr) (p : SocketAddr)
    → spin fl w left xs ≡ some p
    → Among xs p
unfolding spin
spin-Among fl w left [] p e = absurd (cc)
spin-Among fl w left (q ∷ rest) p e = elim (Bool-cases (fl.le (fl.sub left (w q)) (fl.milli 0))) [
  | inl y ↦ inl (let f = rw y at e in cc)
  | inr y ↦ inr (spin-Among fl w (fl.sub left (w q)) rest p (rw y at e))
]

module _ (n : Node) (active : List (ℕ × ActiveJob)) (h : History) (filename : List ℕ)
    (local bootstrap : SocketAddr) (now : ℕ) where
  -- A peer that the segment may be asked of.
  pub record Allowed (p : SocketAddr) : Type 0 where
    pub reached :
        Reached n (keys n.peers) p ⊎ ((p ≡ bootstrap) × (has_addr bootstrap n.peers ≡ true))
    pub room : inflight active p < 2
    pub rested : is_cooling h filename p now ≡ false
    pub untried : is_untried h filename p ≡ true
    pub may_have : (p ≡ bootstrap) ⊎ (peer_may_have n.knowledge p filename now ≡ true)

  eligible-Allowed :
      (p : SocketAddr) → Among (eligible n active h filename local bootstrap now) p → Allowed p
  unfolding eligible is_eligible has_room
  eligible-Allowed p m =
      let (k, e) =
        Among-keep (is_eligible n active h filename local bootstrap now) p
          (map (effective_addr n) (keys n.peers)) m in
      record {
        reached = inl (Among-map n (keys n.peers) p k);
        room = ground arith;
        rested = ground arith;
        untried = ground arith;
        may_have = elim (Bool-cases (same_addr p bootstrap)) [
          | inl y ↦ inl (same_addr_eq p bootstrap y)
          | inr y ↦ inr (ground arith)
        ];
      }

  sources-Allowed :
      (p : SocketAddr) → Among (sources n active h filename local bootstrap now) p → Allowed p
  unfolding sources
  sources-Allowed p m =
      let all = eligible n active h filename local bootstrap now in
      let availability = λ (q : SocketAddr). peer_availability n.knowledge q filename now in
      let offered = keep (λ q. member q h.parents && is_true (availability q)) all in
      elim (Among-or_else offered all p
        (Among-prefer_advertised_peers (or_else offered all) bootstrap availability p m)) [
          | inl k ↦
              eligible-Allowed p
                (Among-keep (λ q. member q h.parents && is_true (availability q)) p all k).0
          | inr k ↦ eligible-Allowed p k
        ]

  recovery-Allowed :
      (p : SocketAddr) → recovery n active h filename bootstrap now ≡ some p → Allowed p
  unfolding recovery is_bootstrap_recovery_candidate
  recovery-Allowed p e =
      let b : bootstrap ≡ p = ground arith in
      rw (← b) (record {
        reached = inr (refl, ground arith);
        room = ground arith;
        rested = ground arith;
        untried = ground arith;
        may_have = inl refl;
      })

  pub pick_peer-Allowed :
      (fl : Float) (rng : Rng) (p : SocketAddr)
      → (pick_peer fl n active h filename local bootstrap rng now).0 ≡ some p
      → Allowed p
  unfolding pick_peer draw
  pick_peer-Allowed fl rng p e =
      let candidates = sources n active h filename local bootstrap now in
      elim (Bool-cases (is_empty candidates)) [
        | inl y ↦ recovery-Allowed p (rw y at e)
        | inr y ↦
            sources-Allowed p
              (spin-Among fl (weight fl n active filename bootstrap now) _ candidates p (rw y at e))
      ]
