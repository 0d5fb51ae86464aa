-- ===== src/Protocol/Accepted.antt =====
-- What `decode` of src/protocol.rs accepts: the other direction of the round trip.
use qstream.Base.{
  ℕ, ◌+◌, ◌%◌, ◌≤◌, ◌≡◌, ◌==◌, Bool-cases, Option-cases, inl, inr, Option, List, [], ◌∷◌, ◌++◌,
  length, All, Result-cases, ok, arith,
}
use qstream.Net.{SocketAddr, v4, v6, IsByte, IsU16}
use qstream.Protocol.Types.{MessageType, AckType, ack_from_u8, Message, SegmentAvailability}
use qstream.Protocol.Encode.{
  header_of, payload_of, encode_availability, encode_peers, endpoint_bytes,
}
use qstream.Protocol.Decode.{
  Raw, decode_body, decode_availability, decode_peers, peer_chunks, split_endpoint_name, utf8_name,
  decode_ack, decode_ping,
}
use qstream.Protocol.Valid.{IsValid, FitsLength, IsEndpoint, IsInventory, IsText, ArePeers}

utf8_name-ok :
    (payload name : List ℕ) → utf8_name payload ≡ ok name → (name ≡ payload) × IsText name
unfolding utf8_name
utf8_name-ok payload name e = ground arith

split_endpoint_name-ok :
    (payload : List ℕ) (addr : SocketAddr) (name : List ℕ)
    → All IsByte payload
    → split_endpoint_name payload ≡ ok (addr, name)
    → IsEndpoint addr × IsText name × (length name + 6 ≡ length payload)
unfolding split_endpoint_name
split_endpoint_name-ok (a ∷ b ∷ c ∷ d ∷ p1 ∷ p0 ∷ rest) addr name h e =
    ground (arith, utf8_name-ok rest name)
split_endpoint_name-ok payload addr name h e = cc

length-endpoint_bytes :
    (addr : SocketAddr) (name : List ℕ) → length (endpoint_bytes addr ++ name) ≡ length name + 6
unfolding endpoint_bytes
length-endpoint_bytes (v4 a b c d port) name = ground arith
length-endpoint_bytes (v6 octets port flow scope) name = omega arith

decode_availability-ok :
    (payload : List ℕ) (a : Option SegmentAvailability)
    → All IsByte payload
    → decode_availability payload ≡ ok a
    → IsInventory a × (length (encode_availability a) ≤ 10)
unfolding decode_availability encode_availability
decode_availability-ok [] a h e = ground arith
decode_availability-ok (a ∷ b ∷ c ∷ d ∷ p ∷ f ∷ g ∷ i ∷ m1 ∷ m0 ∷ []) o h e = ground arith
decode_availability-ok payload a h e = cc

peer_chunks-ArePeers : (payload : List ℕ) → All IsByte payload → ArePeers (peer_chunks payload)
unfolding peer_chunks
peer_chunks-ArePeers (a ∷ b ∷ c ∷ d ∷ p1 ∷ p0 ∷ flags ∷ rest) h =
    ground (arith, peer_chunks-ArePeers rest)
peer_chunks-ArePeers payload h = tt

length-encode-peer_chunks :
    (payload : List ℕ) → length (encode_peers (peer_chunks payload)) ≤ length payload
unfolding peer_chunks encode_peers
length-encode-peer_chunks (a ∷ b ∷ c ∷ d ∷ p1 ∷ p0 ∷ flags ∷ rest) =
    ground (arith, length-encode-peer_chunks rest)
length-encode-peer_chunks payload = omega arith

decode_peers-ok :
    (payload : List ℕ) (peers : List (SocketAddr × ℕ))
    → All IsByte payload
    → decode_peers payload ≡ ok peers
    → ArePeers peers × (length (encode_peers peers) ≤ length payload)
unfolding decode_peers
decode_peers-ok payload peers h e = elim (Bool-cases (length payload % 7 == 0)) [
  | inl whole ↦
      let same : peer_chunks payload ≡ peers = ground arith in
      rw (← same) (peer_chunks-ArePeers payload h, length-encode-peer_chunks payload)
  | inr cut ↦ absurd (ground arith)
]

-- The counters of a header made of bytes.
pub record IsRead (r : Raw) : Type 0 where
  pub id : IsU16 r.transfer_id
  pub number : IsU16 r.packet_number
  pub total : IsU16 r.total_packets

abbrev pub Good : MessageType → List ℕ → Message → Type 0
Good t payload m = IsValid m × FitsLength m × ((header_of m).message_type ≡ t)

ack-Good :
    (r : Raw)
    → IsRead r
    → (payload : List ℕ) (m : Message) → All IsByte payload
    → (t : AckType) → decode_ack r.transfer_id t payload ≡ ok m
    → Good MessageType.ack payload m
unfolding decode_ack header_of payload_of
ack-Good r read (s1 ∷ s0 ∷ c1 ∷ c0 ∷ []) m bytes AckType.progress e = ground arith
ack-Good r read payload m bytes AckType.complete e = ground arith
ack-Good r read payload m bytes AckType.progress e = cc

ping-Good :
    (payload : List ℕ) (m : Message)
    → All IsByte payload
    → IsU16 (length payload)
    → decode_ping payload ≡ ok m
    → Good MessageType.ping payload m
unfolding decode_ping header_of payload_of
ping-Good (a ∷ b ∷ c ∷ d ∷ rest) m bytes fits e = elim (Result-cases (utf8_name rest)) [
  | inl (name, q) ↦ ground (arith, utf8_name-ok rest name)
  | inr (x, q) ↦ ground (arith, q)
]
ping-Good payload m bytes fits e = cc

module _ (r : Raw) (read : IsRead r) (payload : List ℕ) (m : Message) (bytes : All IsByte payload)
    (fits : IsU16 (length payload)) where
  decode_ack-ok :
      (t : AckType) → decode_ack r.transfer_id t payload ≡ ok m → Good MessageType.ack payload m
  decode_ack-ok t e = ack-Good r read payload m bytes t e

  pub decode_body-ok : (t : MessageType) → decode_body t r payload ≡ ok m → Good t payload m
  unfolding decode_body header_of payload_of
  decode_body-ok MessageType.handshake_request e =
      elim (Result-cases (split_endpoint_name payload)) [
        | inl ((addr, name), q) ↦
            ground
              (arith, split_endpoint_name-ok payload addr name, length-endpoint_bytes addr name)
        | inr (x, q) ↦ ground (arith, q)
      ]
  decode_body-ok MessageType.handshake_response e =
      elim (Result-cases (split_endpoint_name payload)) [
        | inl ((addr, name), q) ↦
            ground
              (arith, split_endpoint_name-ok payload addr name, length-endpoint_bytes addr name)
        | inr (x, q) ↦ ground (arith, q)
      ]
  decode_body-ok MessageType.manifest_request e = ground arith
  decode_body-ok MessageType.manifest_response e = ground arith
  decode_body-ok MessageType.segment_request e = elim (Result-cases (utf8_name payload)) [
    | inl (name, q) ↦ ground (arith, utf8_name-ok payload name)
    | inr (x, q) ↦ ground (arith, q)
  ]
  decode_body-ok MessageType.segment_contents e = ground arith
  decode_body-ok MessageType.segment_not_found e =
      elim (Result-cases (decode_availability payload)) [
        | inl (a, q) ↦ ground (arith, decode_availability-ok payload a)
        | inr (x, q) ↦ ground (arith, q)
      ]
  decode_body-ok MessageType.ack e = elim (Option-cases (ack_from_u8 r.flags)) [
    | inl q ↦ ground (arith, q)
    | inr (t, q) ↦ decode_ack-ok t (rw q at e)
  ]
  decode_body-ok MessageType.peerlist_request e = ground arith
  decode_body-ok MessageType.peerlist_response e = elim (Result-cases (decode_peers payload)) [
    | inl (peers, q) ↦ ground (arith, decode_peers-ok payload peers)
    | inr (x, q) ↦ ground (arith, q)
  ]
  decode_body-ok MessageType.ping e = ping-Good payload m bytes fits e
  decode_body-ok MessageType.pong e = elim (Result-cases (decode_availability payload)) [
    | inl (a, q) ↦ ground (arith, decode_availability-ok payload a)
    | inr (x, q) ↦ ground (arith, q)
  ]
