-- ===== src/Node/Peerlist/Order.antt =====
-- The peers of a PEERLIST_RESPONSE of src/node.rs come in the order of how often they were served.
use qstream.Base.{
  ℕ, zero, suc, ◌≤◌, ◌≡◌, ◌⊎◌, inl, inr, true, false, Bool-cases, List, [], ◌∷◌, take, arith,
}
use qstream.Net.{SocketAddr}
use qstream.Node.Stats.{PeerStat}
use qstream.Node.Among.{Among}
use qstream.Node.Peerlist.{served_count, comes_before, insert_peer, sort_peers}

-- Where an address of a list may stand once another is inserted behind the first.
behind_first :
    (a b x : SocketAddr) (bs : List SocketAddr) {P : Type 0}
    → (P → (a ≡ x) ⊎ Among bs x)
    → (b ≡ x) ⊎ P
    → (a ≡ x) ⊎ ((b ≡ x) ⊎ Among bs x)
behind_first a b x bs found (inl e) = inr (inl e)
behind_first a b x bs found (inr p) = elim (found p) [ inl e ↦ inl e | inr m ↦ inr (inr m) ]

module _ (stats : List (SocketAddr × PeerStat)) where
  -- Every address of the list has been served at least `n` times.
  abbrev pub AtLeast : ℕ → List SocketAddr → Type 0
  AtLeast n [] = Unit
  AtLeast n (a ∷ xs) = (n ≤ served_count stats a) × AtLeast n xs

  abbrev pub Rising : List SocketAddr → Type 0
  Rising [] = Unit
  Rising (a ∷ xs) = AtLeast (served_count stats a) xs × Rising xs

  AtLeast-mono : (m n : ℕ) (xs : List SocketAddr) → m ≤ n → AtLeast n xs → AtLeast m xs
  AtLeast-mono m n [] le h = tt
  AtLeast-mono m n (a ∷ xs) le (p, h) = (omega arith, AtLeast-mono m n xs le h)

  AtLeast-insert_peer :
      (n : ℕ) (a : SocketAddr) (xs : List SocketAddr)
      → n ≤ served_count stats a
      → AtLeast n xs
      → AtLeast n (insert_peer stats a xs)
  unfolding insert_peer
  AtLeast-insert_peer n a [] p h = (p, tt)
  AtLeast-insert_peer n a (b ∷ bs) p (q, h) = elim (Bool-cases (comes_before stats b a)) [
    | inl e ↦ rw e (q, AtLeast-insert_peer n a bs p h)
    | inr e ↦ rw e (p, (q, h))
  ]

  before_served :
      (a b : SocketAddr)
      → comes_before stats b a ≡ true
      → served_count stats b ≤ served_count stats a
  unfolding comes_before
  before_served a b e = ground arith

  not_before_served :
      (a b : SocketAddr)
      → comes_before stats b a ≡ false
      → served_count stats a ≤ served_count stats b
  unfolding comes_before
  not_before_served a b e = ground arith

  insert_peer-Rising :
      (a : SocketAddr) (xs : List SocketAddr) → Rising xs → Rising (insert_peer stats a xs)
  unfolding insert_peer
  insert_peer-Rising a [] h = (tt, tt)
  insert_peer-Rising a (b ∷ bs) (low, h) = elim (Bool-cases (comes_before stats b a)) [
    | inl e ↦ rw e (
      AtLeast-insert_peer (served_count stats b) a bs (before_served a b e) low,
      insert_peer-Rising a bs h,
    )
    | inr e ↦
        let le = not_before_served a b e in
        rw e ((le, AtLeast-mono (served_count stats a) (served_count stats b) bs le low), (low, h))
  ]

  pub sort_peers-Rising : (xs : List SocketAddr) → Rising (sort_peers stats xs)
  unfolding sort_peers
  sort_peers-Rising [] = tt
  sort_peers-Rising (a ∷ xs) = insert_peer-Rising a (sort_peers stats xs) (sort_peers-Rising xs)

  Among-insert_peer :
      (a x : SocketAddr) (xs : List SocketAddr)
      → Among (insert_peer stats a xs) x
      → (a ≡ x) ⊎ Among xs x
  unfolding insert_peer
  Among-insert_peer a x [] h = h
  Among-insert_peer a x (b ∷ bs) h = elim (Bool-cases (comes_before stats b a)) [
    | inl e ↦ behind_first a b x bs (Among-insert_peer a x bs) (rw e at h)
    | inr e ↦ rw e at h
  ]

  pub Among-sort_peers :
      (x : SocketAddr) (xs : List SocketAddr) → Among (sort_peers stats xs) x → Among xs x
  unfolding sort_peers
  Among-sort_peers x [] h = h
  Among-sort_peers x (a ∷ xs) h = elim (Among-insert_peer a x (sort_peers stats xs) h) [
    | inl e ↦ inl e
    | inr m ↦ inr (Among-sort_peers x xs m)
  ]

  insert_peer-Among :
      (a x : SocketAddr) (xs : List SocketAddr)
      → (a ≡ x) ⊎ Among xs x
      → Among (insert_peer stats a xs) x
  unfolding insert_peer
  insert_peer-Among a x [] h = h
  insert_peer-Among a x (b ∷ bs) h = elim (Bool-cases (comes_before stats b a)) [
    | inl e ↦ rw e (elim (h) [
      | inl q ↦ inr (insert_peer-Among a x bs (inl q))
      | inr m ↦ elim (m) [ inl q ↦ inl q | inr k ↦ inr (insert_peer-Among a x bs (inr k)) ]
    ])
    | inr e ↦ rw e h
  ]

  pub sort_peers-Among :
      (x : SocketAddr) (xs : List SocketAddr) → Among xs x → Among (sort_peers stats xs) x
  unfolding sort_peers
  sort_peers-Among x [] h = h
  sort_peers-Among x (a ∷ xs) (inl e) = insert_peer-Among a x (sort_peers stats xs) (inl e)
  sort_peers-Among x (a ∷ xs) (inr m) =
      insert_peer-Among a x (sort_peers stats xs) (inr (sort_peers-Among x xs m))

AtLeast-Among :
    (stats : List (SocketAddr × PeerStat)) (n : ℕ) (xs : List SocketAddr) (a : SocketAddr)
    → AtLeast stats n xs
    → Among xs a
    → n ≤ served_count stats a
AtLeast-Among stats n [] a h m = absurd m
AtLeast-Among stats n (b ∷ bs) a (p, h) (inl e) = rw (← e) p
AtLeast-Among stats n (b ∷ bs) a (p, h) (inr m) = AtLeast-Among stats n bs a h m

-- In a rising list the first `k` have been served no more than those behind them.
pub Rising-take :
    (stats : List (SocketAddr × PeerStat)) (k : ℕ) (xs : List SocketAddr) (p c : SocketAddr)
    → Rising stats xs
    → Among (take k xs) p
    → Among xs c
    → Among (take k xs) c ⊎ (served_count stats p ≤ served_count stats c)
Rising-take stats zero xs p c h hp hc = absurd hp
Rising-take stats (suc k) [] p c h hp hc = absurd hp
Rising-take stats (suc k) (b ∷ bs) p c (low, h) hp (inl e) = inl (inl e)
Rising-take stats (suc k) (b ∷ bs) p c (low, h) (inl e) (inr hc) =
    inr (rw (← e) (AtLeast-Among stats (served_count stats b) bs c low hc))
Rising-take stats (suc k) (b ∷ bs) p c (low, h) (inr hp) (inr hc) =
    elim (Rising-take stats k bs p c h hp hc) [ inl m ↦ inl (inr m) | inr le ↦ inr le ]
