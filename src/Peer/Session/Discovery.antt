-- ===== src/Peer/Session/Discovery.antt =====
-- Whom src/peer.rs asks for a handshake after a peer list.
use qstream.Base.{
  ℕ, ◌+◌, ◌≡◌, refl, ap, subst, ◌∙◌, inl, inr, true, false, not, ◌||◌, Bool-cases, List, [], ◌∷◌,
  arith,
}
use qstream.Net.{SocketAddr}
use qstream.Node.Addr.{same_addr, same_addr_refl, has_addr, at_entry, store}
use qstream.Node.State.{Node, node_send}
use qstream.Peer.Jobs.{Outside}
use qstream.Peer.Session.Requests.{Contacted, AllContacted, AllMet, Requests, ask, await}
use qstream.Peer.Session.{
  Session, is_remote, is_contactable, discover, on_entry, on_entries, on_peerlist_response,
  without_parents, handshake_request, handshake_timeout,
}

module _ {ℓ} {A : Type ℓ} where
  has_addr-store :
      (a : SocketAddr) (x : A) (xs : List (SocketAddr × A)) → has_addr a (store a x xs) ≡ true
  unfolding has_addr store at_entry
  has_addr-store a x [] = rw (same_addr_refl a) refl
  has_addr-store a x ((k, y) ∷ xs) = elim (Bool-cases (same_addr k a)) [
    | inl q ↦ rw (q, has_addr, q) refl
    | inr q ↦ rw (q, has_addr, q) (has_addr-store a x xs)
  ]

  store_keeps :
      (a b : SocketAddr) (x : A) (xs : List (SocketAddr × A))
      → has_addr a xs ≡ true
      → has_addr a (store b x xs) ≡ true
  unfolding has_addr store at_entry
  store_keeps a b x [] h = absurd (cc)
  store_keeps a b x ((k, y) ∷ xs) h = ground (arith, store_keeps a b x xs)

-- An entry either changes nothing here, or its address is new and is asked.
data Entry (o : Outside) (s : Session) (peer : SocketAddr) (flags now : ℕ) (t : Session)
    : Type 0 where
  leaves :
      t.node ≡ s.node
      → t.pending_handshakes ≡ s.pending_handshakes
      → (not (is_contactable o s.node peer flags)
          || has_addr peer s.node.peers
          || has_addr peer s.pending_handshakes)
        ≡ true
      → Entry o s peer flags now t
  asks :
      Contacted o s.node ((peer, flags) ∷ []) s.pending_handshakes peer
      → t.node ≡ node_send s.node (handshake_request s.node) peer now
      → t.pending_handshakes ≡ store peer (now + handshake_timeout) s.pending_handshakes
      → Entry o s peer flags now t

contactable_lem :
    (o : Outside) (n : Node) (pending : List (SocketAddr × ℕ)) (peer : SocketAddr) (flags : ℕ)
    → is_contactable o n peer flags ≡ true
    → has_addr peer n.peers ≡ false
    → has_addr peer pending ≡ false
    → Contacted o n ((peer, flags) ∷ []) pending peer
unfolding is_contactable
contactable_lem o n pending peer flags e new unasked = record {
  listed = inl refl;
  foreign = ground arith;
  port = ground arith;
  side = elim (Bool-cases (is_remote n.my_public)) [ inl r ↦ inr (ground arith) | inr r ↦ inl r ];
  unknown = new;
  unasked = unasked;
}

on_entry-Entry :
    (o : Outside) (s : Session) (peer : SocketAddr) (flags now : ℕ)
    → Entry o s peer flags now (on_entry o s (peer, flags) now)
unfolding on_entry discover
on_entry-Entry o s peer flags now = elim (Bool-cases (is_contactable o s.node peer flags)) [
  | inr no_ ↦ rw no_ (leaves refl refl (ground arith))
  | inl ok_ ↦
      rw ok_ (elim (Bool-cases (has_addr peer s.node.peers || has_addr peer s.pending_handshakes)) [
        | inl met ↦ rw met (leaves refl refl (ground arith))
        | inr new ↦ rw new (
            asks
              (contactable_lem o s.node s.pending_handshakes peer flags ok_ (ground arith)
                (ground arith))
              refl refl)
      ])
]

await_keeps :
    (a : SocketAddr) (pending : List (SocketAddr × ℕ)) (asked : List SocketAddr) (now : ℕ)
    → has_addr a pending ≡ true
    → has_addr a (await pending asked now) ≡ true
unfolding await
await_keeps a pending [] now h = h
await_keeps a pending (b ∷ rest) now h =
    await_keeps a (store b (now + handshake_timeout) pending) rest now
      (store_keeps a b (now + handshake_timeout) pending h)

first-Contacted :
    (o : Outside) (n : Node) (e : SocketAddr × ℕ) (rest pending : List (SocketAddr × ℕ))
    (a : SocketAddr)
    → Contacted o n (e ∷ []) pending a
    → Contacted o n (e ∷ rest) pending a
first-Contacted o n (b, flags) rest pending a c = record {
  listed = elim (c.listed) [ inl q ↦ inl q | inr q ↦ absurd q ];
  foreign = c.foreign;
  port = c.port;
  side = c.side;
  unknown = c.unknown;
  unasked = c.unasked;
}

-- The same with one more entry in front.
later-AllContacted :
    (o : Outside) (n : Node) (e : SocketAddr × ℕ) (rest : List (SocketAddr × ℕ)) (now : ℕ)
    (pending : List (SocketAddr × ℕ)) (asked : List SocketAddr)
    → AllContacted o n rest now pending asked
    → AllContacted o n (e ∷ rest) now pending asked
later-AllContacted o n e rest now pending [] h = tt
later-AllContacted o n (b, flags) rest now pending (a ∷ asked) (c, h) = (
  record {
    listed = inr c.listed;
    foreign = c.foreign;
    port = c.port;
    side = c.side;
    unknown = c.unknown;
    unasked = c.unasked;
  },
  later-AllContacted o n (b, flags) rest now (store a (now + handshake_timeout) pending) asked h,
)

-- Sending changes nothing that the tests read.
sent-AllContacted :
    (o : Outside) (n : Node) (peer : SocketAddr) (at : ℕ) (entries : List (SocketAddr × ℕ))
    (now : ℕ) (pending : List (SocketAddr × ℕ)) (asked : List SocketAddr)
    → AllContacted o (node_send n (handshake_request n) peer at) entries now pending asked
    → AllContacted o n entries now pending asked
unfolding node_send
sent-AllContacted o n peer at entries now pending [] h = tt
sent-AllContacted o n peer at entries now pending (a ∷ asked) (c, h) = (
  record {
    listed = c.listed;
    foreign = c.foreign;
    port = c.port;
    side = c.side;
    unknown = c.unknown;
    unasked = c.unasked;
  },
  sent-AllContacted o n peer at entries now (store a (now + handshake_timeout) pending) asked h,
)

sent-AllMet :
    (o : Outside) (n : Node) (peer : SocketAddr) (at : ℕ) (entries pending : List (SocketAddr × ℕ))
    → AllMet o (node_send n (handshake_request n) peer at) entries pending
    → AllMet o n entries pending
unfolding node_send is_contactable
sent-AllMet o n peer at [] pending h = tt
sent-AllMet o n peer at ((a, flags) ∷ rest) pending (m, h) =
    (m, sent-AllMet o n peer at rest pending h)

step-Requests :
    (o : Outside) (s t u : Session) (peer : SocketAddr) (flags : ℕ) (rest : List (SocketAddr × ℕ))
    (now : ℕ)
    → Entry o s peer flags now t
    → Requests o t rest now u
    → Requests o s ((peer, flags) ∷ rest) now u
unfolding ask await
step-Requests o s t u peer flags rest now (leaves en ep m) q =
    let new =
      subst (λ n. AllContacted o n rest now s.pending_handshakes q.asked) en
        (subst (λ p. AllContacted o t.node rest now p q.asked) ep q.fresh) in
    let pending : u.pending_handshakes ≡ await s.pending_handshakes q.asked now =
      q.pending ∙ ap (λ p. await p q.asked now) ep in
    let kept = await_keeps peer s.pending_handshakes q.asked now in
    record {
      asked = q.asked;
      fresh = later-AllContacted o s.node (peer, flags) rest now s.pending_handshakes q.asked new;
      sent = q.sent ∙ ap (λ n. ask n q.asked now) en;
      pending = pending;
      met = (
        ground (arith, m, kept, ap (has_addr peer) pending),
        subst (λ n. AllMet o n rest u.pending_handshakes) en q.met,
      );
    }
step-Requests o s t u peer flags rest now (asks c en ep) q =
    let pend = store peer (now + handshake_timeout) s.pending_handshakes in
    let n = node_send s.node (handshake_request s.node) peer now in
    let new =
      subst (λ m. AllContacted o m rest now pend q.asked) en
        (subst (λ p. AllContacted o t.node rest now p q.asked) ep q.fresh) in
    let pending : u.pending_handshakes ≡ await pend q.asked now =
      q.pending ∙ ap (λ p. await p q.asked now) ep in
    let kept =
      await_keeps peer pend q.asked now
        (has_addr-store peer (now + handshake_timeout) s.pending_handshakes) in
    record {
      asked = peer ∷ q.asked;
      fresh = (
        first-Contacted o s.node (peer, flags) rest s.pending_handshakes peer c,
        later-AllContacted o s.node (peer, flags) rest now pend q.asked
            (sent-AllContacted o s.node peer now rest now pend q.asked new),
      );
      sent = q.sent ∙ ap (λ m. ask m q.asked now) en;
      pending = pending;
      met = (
        ground (arith, kept, ap (has_addr peer) pending),
        sent-AllMet o s.node peer now rest u.pending_handshakes
            (subst (λ m. AllMet o m rest u.pending_handshakes) en q.met),
      );
    }

on_entries-Requests :
    (o : Outside) (s : Session) (entries : List (SocketAddr × ℕ)) (now : ℕ)
    → Requests o s entries now (on_entries o s entries now)
unfolding on_entries ask await
on_entries-Requests o s [] now = record {
  asked = [];
  fresh = tt;
  sent = refl;
  pending = refl;
  met = tt;
}
on_entries-Requests o s ((peer, flags) ∷ rest) now =
    let t = on_entry o s (peer, flags) now in
    step-Requests o s t (on_entries o t rest now) peer flags rest now
      (on_entry-Entry o s peer flags now) (on_entries-Requests o t rest now)

-- A peer list makes the peer send HANDSHAKE_REQUESTs to the addresses of a list, once each, and
-- nothing else, and wait for their answers besides those it was waiting for. Each has a port, an entry
-- names it, it is neither the peer's own address nor of a known peer nor asked before, and it is public
-- if the peer's own address is. Of every entry that may be contacted, the address is then known or
-- asked.
pub on_peerlist_response-Requests :
    (o : Outside) (s : Session) (entries : List (SocketAddr × ℕ)) (now : ℕ)
    → Requests o s entries now (on_peerlist_response o s entries now)
unfolding on_peerlist_response
on_peerlist_response-Requests o s entries now =
    let q = on_entries-Requests o (without_parents s) entries now in
    record { asked = q.asked; fresh = q.fresh; sent = q.sent; pending = q.pending; met = q.met }
