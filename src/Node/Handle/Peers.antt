-- ===== src/Node/Handle/Peers.antt =====
-- Which peers a node of src/node.rs comes to know by a datagram.
use qstream.Base.{
  ℕ, ◌≡◌, refl, ap, ◌⊎◌, inl, inr, false, not, ◌==◌, ◌&&◌, ◌||◌, Bool-cases, Option, List, [], ◌∷◌,
  ◌++◌, length, Result-cases, arith,
}
use qstream.Net.{SocketAddr}
use qstream.Protocol.Types.{Message}
use qstream.Protocol.Decode.{decode}
use qstream.Transfer.Timing.{Settings}
use qstream.Node.Addr.{same_addr, has_addr, at_entry, change, keys, member}
use qstream.Node.Public.{is_lan_source}
use qstream.Node.State.{Node, register_peer, touch_peer, node_send}
use qstream.Node.Seeding.{origin_seed_allowed, lease, assign, with_seeders}
use qstream.Node.Handle.{
  on_handshake, first_contact, on_ping, on_segment_request, with_transfers, handle_message, handle,
}

keys-change {ℓ} :
    {A : Type ℓ} (a : SocketAddr) (f : A → A) (xs : List (SocketAddr × A))
    → keys (change a f xs) ≡ keys xs
unfolding keys change
keys-change a f [] = refl
keys-change a f ((k, x) ∷ xs) = elim (Bool-cases (same_addr k a)) [
  | inl q ↦ rw q refl
  | inr q ↦ rw q (ap (λ ks. k ∷ ks) (keys-change a f xs))
]

-- The peers are the same, or `a` is added, which was none of them.
abbrev pub Gains : SocketAddr → List SocketAddr → List SocketAddr → Type 0
Gains a ks ls = (ls ≡ ks) ⊎ ((member a ks ≡ false) × (ls ≡ ks ++ a ∷ []))

at_entry-Gains {ℓ} :
    {A : Type ℓ} (a : SocketAddr) (x : A) (f : A → A) (xs : List (SocketAddr × A))
    → Gains a (keys xs) (keys (at_entry a x f xs))
unfolding keys at_entry member
at_entry-Gains a x f [] = inr (refl, refl)
at_entry-Gains a x f ((k, y) ∷ xs) = elim (Bool-cases (same_addr k a)) [
  | inl q ↦ rw q (inl refl)
  | inr q ↦ rw q (elim (at_entry-Gains a x f xs) [
    | inl e ↦ inl (ap (λ ks. k ∷ ks) e)
    | inr g ↦ inr (g.0, ap (λ ks. k ∷ ks) g.1)
  ])
]

origin_seed_allowed_peers :
    (n : Node) (filename : List ℕ) (src : SocketAddr) (limit now : ℕ)
    → (origin_seed_allowed n filename src limit now).0.peers ≡ n.peers
unfolding origin_seed_allowed lease assign with_seeders
origin_seed_allowed_peers n filename src limit now = ground arith

register_peer-Gains :
    (n : Node) (src : SocketAddr) (name : List ℕ) (now : ℕ)
    → Gains src (keys n.peers) (keys (register_peer n src name now).peers)
unfolding register_peer
register_peer-Gains n src name now =
    at_entry-Gains src (record { name = name; last_seen = now })
      (λ info. record { name = name; last_seen = now }) n.peers

on_ping-Gains :
    (n : Node) (names : Option (List (List ℕ))) (src : SocketAddr) (nonce : ℕ) (name : List ℕ)
    (now : ℕ)
    → Gains src (keys n.peers) (keys (on_ping n names src nonce name now).peers)
unfolding on_ping first_contact node_send
on_ping-Gains n names src nonce name now =
    elim (Bool-cases (nonce == n.beacon_nonce || same_addr src n.local_addr)) [
      | inl own ↦ rw own (inl refl)
      | inr other ↦
          rw other (elim (Bool-cases (not (has_addr src n.peers) && not (length name == 0))) [
            | inl new ↦ rw new (elim (Bool-cases (is_lan_source src)) [
              | inl lan ↦ rw lan (register_peer-Gains n src name now)
              | inr far ↦ rw far (register_peer-Gains n src name now)
            ])
            | inr old ↦ rw old (inl refl)
          ])
    ]

handle_message-Gains :
    (c : Settings) (names : Option (List (List ℕ))) (limit : ℕ) (n : Node) (m : Message)
    (src : SocketAddr) (now : ℕ)
    → Gains src (keys n.peers) (keys (handle_message c names limit n m src now).0.peers)
unfolding handle_message on_handshake on_segment_request with_transfers node_send
handle_message-Gains c names limit n (Message.handshake_request claimed name) src now =
    register_peer-Gains n src name now
handle_message-Gains c names limit n (Message.ping nonce name) src now =
    on_ping-Gains n names src nonce name now
handle_message-Gains c names limit n (Message.segment_request id filename) src now =
    inl (ap keys (origin_seed_allowed_peers n filename src limit now))
handle_message-Gains c names limit n m src now = inl refl

touch_peer_keys :
    (n : Node) (src : SocketAddr) (now : ℕ) → keys (touch_peer n src now).peers ≡ keys n.peers
unfolding touch_peer
touch_peer_keys n src now = keys-change src (λ info. record info { last_seen = now }) n.peers

-- Whatever a datagram says, the peers that a node knows stay the same, or its sender is added behind
-- them, which was not known: no peer is lost, and nobody can announce another.
pub handle-Gains :
    (c : Settings) (names : Option (List (List ℕ))) (limit : ℕ) (n : Node) (datagram : List ℕ)
    (src : SocketAddr) (now : ℕ)
    → Gains src (keys n.peers) (keys (handle c names limit n datagram src now).0.peers)
unfolding handle
handle-Gains c names limit n datagram src now = elim (Result-cases (decode datagram)) [
  | inl (m, e) ↦
      rw (e, handle)
        (rw (← touch_peer_keys n src now)
          (handle_message-Gains c names limit (touch_peer n src now) m src now))
  | inr (x, e) ↦ rw (e, handle) (inl refl)
]
