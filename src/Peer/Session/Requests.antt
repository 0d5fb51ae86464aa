-- ===== src/Peer/Session/Requests.antt =====
-- What src/peer.rs may do at a peer list: whom it asks for a handshake.
use qstream.Base.{ℕ, ◌+◌, ◌≡◌, ◌⊎◌, true, false, not, ◌==◌, ◌||◌, List, [], ◌∷◌}
use qstream.Net.{SocketAddr}
use qstream.Node.Addr.{same_addr, has_addr, store}
use qstream.Node.Public.{remote_public}
use qstream.Node.State.{Node, node_send}
use qstream.Node.Tick.{port_of}
use qstream.Peer.Jobs.{Outside}
use qstream.Peer.Session.{Session, is_remote, is_contactable, handshake_request, handshake_timeout}

-- The address is in an entry of the list.
abbrev pub Listed : List (SocketAddr × ℕ) → SocketAddr → Type 0
Listed [] a = ⊥
Listed ((b, flags) ∷ rest) a = (b ≡ a) ⊎ Listed rest a

-- A new address: an entry names it, with a port, it is neither the peer's own nor that of a known
-- peer, it has not been asked yet, and it is public if the peer's own address is.
pub record Contacted (o : Outside) (n : Node) (entries : List (SocketAddr × ℕ))
    (pending : List (SocketAddr × ℕ)) (a : SocketAddr) : Type 0 where
  pub listed : Listed entries a
  pub foreign : same_addr a o.local_addr ≡ false
  pub port : (port_of a == 0) ≡ false
  pub side : (is_remote n.my_public ≡ false) ⊎ (remote_public a ≡ true)
  pub unknown : has_addr a n.peers ≡ false
  pub unasked : has_addr a pending ≡ false

-- A HANDSHAKE_REQUEST to each address of a list.
unfoldable pub ask : Node → List SocketAddr → ℕ → Node
ask n [] now = n
ask n (a ∷ rest) now = ask (node_send n (handshake_request n) a now) rest now

-- The table of pending handshakes, with each address of a list asked at `now`.
unfoldable pub await : List (SocketAddr × ℕ) → List SocketAddr → ℕ → List (SocketAddr × ℕ)
await pending [] now = pending
await pending (a ∷ rest) now = await (store a (now + handshake_timeout) pending) rest now

-- Each address is new when its turn comes, so that none is asked twice.
abbrev pub AllContacted :
    Outside → Node → List (SocketAddr × ℕ) → ℕ → List (SocketAddr × ℕ) → List SocketAddr → Type 0
AllContacted o n entries now pending [] = Unit
AllContacted o n entries now pending (a ∷ rest) =
    Contacted o n entries pending a
    × AllContacted o n entries now (store a (now + handshake_timeout) pending) rest

-- Every entry that may be contacted is of a known peer or has been asked.
abbrev pub AllMet : Outside → Node → List (SocketAddr × ℕ) → List (SocketAddr × ℕ) → Type 0
AllMet o n [] pending = Unit
AllMet o n ((a, flags) ∷ rest) pending =
    ((not (is_contactable o n a flags) || has_addr a n.peers || has_addr a pending) ≡ true)
    × AllMet o n rest pending

-- What a peer list does to the node and to the pending handshakes: `asked` are asked, nothing else is
-- sent.
pub record Requests (o : Outside) (s : Session) (entries : List (SocketAddr × ℕ)) (now : ℕ)
    (t : Session) : Type 0 where
  pub asked : List SocketAddr
  pub fresh : AllContacted o s.node entries now s.pending_handshakes asked
  pub sent : t.node ≡ ask s.node asked now
  pub pending : t.pending_handshakes ≡ await s.pending_handshakes asked now
  pub met : AllMet o s.node entries t.pending_handshakes
