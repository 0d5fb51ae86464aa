-- ===== src/Node/Safety.antt =====
-- The node of src/node.rs keeps its registry safe and its book balanced, whatever it is sent.
use qstream.Base.{
  ℕ, ◌≡◌, inl, inr, true, not, ◌==◌, ◌&&◌, ◌||◌, Bool-cases, Option, List, length, Result-cases,
  arith,
}
use qstream.Net.{SocketAddr}
use qstream.Protocol.Types.{Message}
use qstream.Protocol.Decode.{decode}
use qstream.Transfer.Timing.{Settings}
use qstream.Transfer.Registry.Kept.{
  IsSafe, serve-IsSafe, reject_not_found-IsSafe, on_content-IsSafe, on_ack-IsSafe,
  on_not_found-IsSafe,
}
use qstream.Node.Addr.{same_addr, has_addr}
use qstream.Node.Public.{is_lan_source}
use qstream.Node.Stats.Totals.{IsBalanced}
use qstream.Node.Stats.Unmoved.{met-IsBalanced, heard-IsBalanced}
use qstream.Node.State.{Node, register_peer, touch_peer, node_send}
use qstream.Node.Seeding.{origin_seed_allowed, lease, assign, with_seeders}
use qstream.Node.Handle.{
  on_handshake, first_contact, on_ping, on_pong, on_segment_request, on_segment_not_found,
  with_transfers, handle_message, handle,
}

-- At most 32 transfers, every sender inside its file, and totals that are the sums over the peers.
pub record IsHealthy (n : Node) : Type 0 where
  pub transfers : IsSafe n.registry
  pub book : IsBalanced n.book

-- The registry and the book are those of `n`.
abbrev pub Keeps : Node → Node → Type 0
Keeps n m = (m.registry ≡ n.registry) × (m.book ≡ n.book)

pub Keeps-IsHealthy : (n m : Node) → Keeps n m → IsHealthy n → IsHealthy m
Keeps-IsHealthy n m (r, b) h = record { transfers = rw r h.transfers; book = rw b h.book }

origin_seed_allowed-Keeps :
    (n : Node) (filename : List ℕ) (src : SocketAddr) (limit now : ℕ)
    → Keeps n (origin_seed_allowed n filename src limit now).0
unfolding origin_seed_allowed lease assign with_seeders
origin_seed_allowed-Keeps n filename src limit now = ground arith

pub register_peer-IsHealthy :
    (n : Node) (src : SocketAddr) (name : List ℕ) (now : ℕ)
    → IsHealthy n
    → IsHealthy (register_peer n src name now)
unfolding register_peer
register_peer-IsHealthy n src name now h = record {
  transfers = h.transfers;
  book = met-IsBalanced n.book src name now h.book;
}

touch_peer-IsHealthy :
    (n : Node) (src : SocketAddr) (now : ℕ) → IsHealthy n → IsHealthy (touch_peer n src now)
unfolding touch_peer
touch_peer-IsHealthy n src now h = record {
  transfers = h.transfers;
  book = heard-IsBalanced n.book src now h.book;
}

on_ping-IsHealthy :
    (n : Node) (names : Option (List (List ℕ))) (src : SocketAddr) (nonce : ℕ) (name : List ℕ)
    (now : ℕ)
    → IsHealthy n
    → IsHealthy (on_ping n names src nonce name now)
unfolding on_ping first_contact node_send
on_ping-IsHealthy n names src nonce name now h =
    let met = register_peer-IsHealthy n src name now h in
    elim (Bool-cases (nonce == n.beacon_nonce || same_addr src n.local_addr)) [
      | inl own ↦ rw own h
      | inr other ↦
          rw other (elim (Bool-cases (not (has_addr src n.peers) && not (length name == 0))) [
            | inl new ↦ rw new (elim (Bool-cases (is_lan_source src)) [
              | inl lan ↦ rw lan (record { transfers = met.transfers; book = met.book })
              | inr far ↦ rw far (record { transfers = met.transfers; book = met.book })
            ])
            | inr old ↦ rw old (record { transfers = h.transfers; book = h.book })
          ])
    ]

on_segment_request-IsHealthy :
    (n : Node) (names : Option (List (List ℕ))) (limit id : ℕ) (filename : List ℕ)
    (src : SocketAddr) (now : ℕ)
    → IsHealthy n
    → IsHealthy (on_segment_request n names limit id filename src now)
unfolding on_segment_request with_transfers
on_segment_request-IsHealthy n names limit id filename src now h =
    let asked = (origin_seed_allowed n filename src limit now).0 in
    let k = Keeps-IsHealthy n asked (origin_seed_allowed-Keeps n filename src limit now) h in
    elim (Bool-cases (origin_seed_allowed n filename src limit now).1) [
      | inl yes_ ↦ rw yes_ (record {
        transfers = serve-IsSafe asked.registry asked.world names id filename src now k.transfers;
        book = k.book;
      })
      | inr no_ ↦ rw no_ (record {
        transfers =
            reject_not_found-IsSafe asked.registry asked.world.link names id src true now
              k.transfers;
        book = k.book;
      })
    ]

handle_message-IsHealthy :
    (c : Settings) (names : Option (List (List ℕ))) (limit : ℕ) (n : Node) (m : Message)
    (src : SocketAddr) (now : ℕ)
    → IsHealthy n
    → IsHealthy (handle_message c names limit n m src now).0
unfolding handle_message on_handshake on_pong on_segment_not_found with_transfers node_send
handle_message-IsHealthy c names limit n (Message.handshake_request claimed name) src now h =
    let met = register_peer-IsHealthy n src name now h in
    record { transfers = met.transfers; book = met.book }
handle_message-IsHealthy c names limit n (Message.ping nonce name) src now h =
    on_ping-IsHealthy n names src nonce name now h
handle_message-IsHealthy c names limit n (Message.segment_request id filename) src now h =
    on_segment_request-IsHealthy n names limit id filename src now h
handle_message-IsHealthy c names limit n (Message.segment_contents id packet_number total bytes) src
      now h =
    record {
      transfers =
          on_content-IsSafe c n.registry n.world id packet_number total bytes now h.transfers;
      book = h.book;
    }
handle_message-IsHealthy c names limit n (Message.segment_not_found id availability retryable) src
      now h =
    record {
      transfers = on_not_found-IsSafe n.registry id retryable now h.transfers;
      book = h.book;
    }
handle_message-IsHealthy c names limit n (Message.ack id ack_type next_start next_count) src now h =
    record {
      transfers = on_ack-IsSafe c n.registry id ack_type next_start next_count now h.transfers;
      book = h.book;
    }
handle_message-IsHealthy c names limit n m src now h = record {
  transfers = h.transfers;
  book = h.book;
}

pub handle-IsHealthy :
    (c : Settings) (names : Option (List (List ℕ))) (limit : ℕ) (n : Node) (datagram : List ℕ)
    (src : SocketAddr) (now : ℕ)
    → IsHealthy n
    → IsHealthy (handle c names limit n datagram src now).0
unfolding handle
handle-IsHealthy c names limit n datagram src now h = elim (Result-cases (decode datagram)) [
  | inl (m, e) ↦
      rw (e, handle)
        (handle_message-IsHealthy c names limit (touch_peer n src now) m src now
          (touch_peer-IsHealthy n src now h))
  | inr (x, e) ↦ rw (e, handle) h
]
