-- ===== src/Peer/Jobs/Stuck.antt =====
-- A segment that src/peer.rs neither downloads nor gives up.
use qstream.Base.{
  ℕ, ◌≡◌, refl, inl, inr, Bool, true, false, not, ◌&&◌, Bool-cases, Option, none, List, [], ◌∷◌,
  map, arith,
}
use qstream.Net.{SocketAddr}
use qstream.Fault.Rng.{Rng}
use qstream.Node.Addr.{same_addr, keys, keep, any}
use qstream.Node.State.{Node, effective_addr}
use qstream.Node.Inventory.{peer_availability}
use qstream.Peer.Sources.{
  Float, is_untried, is_eligible, eligible, is_empty, or_else, prefer_advertised_peers, sources,
  is_bootstrap_recovery_candidate, recovery, pick_peer,
}
use qstream.Peer.Jobs.{Scheduler, requeue}

any-keep :
    (f : SocketAddr → SocketAddr) (p q : SocketAddr → Bool) (ks : List SocketAddr)
    → any (λ k. q (f k)) ks ≡ false
    → ((a : SocketAddr) → p a ≡ true → q a ≡ true)
    → keep p (map f ks) ≡ []
unfolding any keep
any-keep f p q [] e sub = refl
any-keep f p q (k ∷ ks) e sub = elim (Bool-cases (q (f k))) [
  | inl y ↦ absurd (let c = rw y at e in cc)
  | inr y ↦ elim (Bool-cases (p (f k))) [
    | inl x ↦ absurd (let c = sub (f k) x in cc)
    | inr x ↦ rw x (any-keep f p q ks (rw y at e) sub)
  ]
]

prefer_none :
    (bootstrap : SocketAddr) (availability : SocketAddr → Option Bool)
    → prefer_advertised_peers [] bootstrap availability ≡ []
unfolding prefer_advertised_peers keep is_empty
prefer_none bootstrap availability = ground arith

module _ (n : Node) (s : Scheduler) (filename : List ℕ) (local bootstrap : SocketAddr)
    (now : ℕ) where
  eligible_none :
      any (λ k. is_untried s.history filename (effective_addr n k)) (keys n.peers) ≡ false
      → eligible n s.active s.history filename local bootstrap now ≡ []
  unfolding eligible is_eligible
  eligible_none e =
      any-keep (effective_addr n) (is_eligible n s.active s.history filename local bootstrap now)
        (is_untried s.history filename) (keys n.peers) e (λ a x. ground arith)

  sources_none :
      any (λ k. is_untried s.history filename (effective_addr n k)) (keys n.peers) ≡ false
      → sources n s.active s.history filename local bootstrap now ≡ []
  unfolding sources keep or_else is_empty
  sources_none e =
      rw (eligible_none e)
        (prefer_none bootstrap (λ p. peer_availability n.knowledge p filename now))

  -- A failed segment that has been tried at every address that its peers are reached at, and at the
  -- bootstrap node, but not at the own address of some peer, goes back to the front of the queue,
  -- although nobody is picked for it any more.
  pub requeue-pick_peer :
      (fl : Float) (rng : Rng)
      → any (λ k. is_untried s.history filename (effective_addr n k)) (keys n.peers) ≡ false
      → is_untried s.history filename bootstrap ≡ false
      → any (λ p. not (same_addr p local) && is_untried s.history filename p) (keys n.peers) ≡ true
      → ((requeue n s local filename now).wanted.queue ≡ filename ∷ s.wanted.queue)
        × ((pick_peer fl n s.active s.history filename local bootstrap rng now).0 ≡ none)
  unfolding requeue pick_peer recovery is_bootstrap_recovery_candidate is_empty
  requeue-pick_peer fl rng tried asked alias =
      (rw alias refl, rw (sources_none tried) (ground arith))
