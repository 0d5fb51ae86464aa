-- ===== src/Protocol/Decode.antt =====
-- `decode` of src/protocol.rs and its helpers.
use qstream.Base.{
  ℕ, ◌%◌, Bool, ltb, ◌&&◌, ◌==◌, if◌then◌else◌, not, Option, none, some, List, [], ◌∷◌, length,
  take, bit_and, Result, ok, err, ◌>>=◌, ok_or,
}
use qstream.Net.{SocketAddr, v4, as_u16, u16_from_be, u32_from_be, u64_from_be}
use qstream.Protocol.Utf8.{is_utf8}
use qstream.Protocol.Types.{
  protocol_version, segment_not_ready, MessageType, message_from_u8, AckType, ack_from_u8,
  SegmentAvailability, Message, ProtocolError, truncated_header, bad_magic, bad_version,
  unknown_message_type, truncated_payload, invalid_utf8, bad_ack_flags, bad_ack_payload,
  bad_peerlist_payload, bad_availability_payload,
}

abbrev pub Decoded : Type 0 → Type 0
Decoded A = Result ProtocolError A

unfoldable pub utf8_name : List ℕ → Decoded (List ℕ)
utf8_name payload = if is_utf8 payload then ok payload else err invalid_utf8

unfoldable pub decode_availability : List ℕ → Decoded (Option SegmentAvailability)
decode_availability [] = ok none
decode_availability (a ∷ b ∷ c ∷ d ∷ e ∷ f ∷ g ∷ h ∷ m1 ∷ m0 ∷ []) =
    ok (some (record { newest = u64_from_be a b c d e f g h; mask = u16_from_be m1 m0 }))
decode_availability payload = err (bad_availability_payload (length payload))

-- A payload shorter than the endpoint is reported with its own length as the declared one.
unfoldable pub split_endpoint_name : List ℕ → Decoded (SocketAddr × List ℕ)
unfolding utf8_name
split_endpoint_name (a ∷ b ∷ c ∷ d ∷ p1 ∷ p0 ∷ rest) = do
  name ← utf8_name rest
  ok (v4 a b c d (u16_from_be p1 p0), name)
split_endpoint_name payload = err (truncated_payload (as_u16 (length payload)) 0)

-- `chunks_exact(7)`: entries with port 0 are skipped, a remainder is not looked at.
unfoldable pub peer_chunks : List ℕ → List (SocketAddr × ℕ)
peer_chunks (a ∷ b ∷ c ∷ d ∷ p1 ∷ p0 ∷ flags ∷ rest) =
    let peers = peer_chunks rest in
    let port = u16_from_be p1 p0 in
    if not (port == 0) then (v4 a b c d port, flags) ∷ peers else peers
peer_chunks payload = []

unfoldable pub decode_peers : List ℕ → Decoded (List (SocketAddr × ℕ))
unfolding peer_chunks
decode_peers payload =
    if length payload % 7 == 0
    then ok (peer_chunks payload)
    else err (bad_peerlist_payload (length payload))

unfoldable pub decode_ack : ℕ → AckType → List ℕ → Decoded Message
decode_ack id AckType.complete payload = ok (Message.ack id AckType.complete 0 0)
decode_ack id AckType.progress (s1 ∷ s0 ∷ c1 ∷ c0 ∷ []) =
    ok (Message.ack id AckType.progress (u16_from_be s1 s0) (u16_from_be c1 c0))
decode_ack id AckType.progress payload = err (bad_ack_payload (length payload))

unfoldable pub decode_ping : List ℕ → Decoded Message
unfolding utf8_name
decode_ping (a ∷ b ∷ c ∷ d ∷ rest) = do
  name ← utf8_name rest
  ok (Message.ping (u32_from_be a b c d) name)
decode_ping payload = err (truncated_payload (as_u16 (length payload)) 0)

-- The header fields that `decode` reads at fixed offsets, and what follows the header.
pub record Raw : Type 0 where
  pub magic : ℕ × ℕ × ℕ
  pub version : ℕ
  pub code : ℕ
  pub flags : ℕ
  pub data_length : ℕ
  pub transfer_id : ℕ
  pub packet_number : ℕ
  pub total_packets : ℕ
  pub payload : List ℕ

-- The bytes at offsets 0 to 13. `none` is a datagram with fewer than 14 bytes.
unfoldable pub read_header : List ℕ → Option Raw
read_header (q ∷ s ∷ t ∷ ver ∷ code ∷ flags ∷ l1 ∷ l0 ∷ i1 ∷ i0 ∷ n1 ∷ n0 ∷ t1 ∷ t0 ∷ rest) =
    some (record {
      magic = (q, s, t);
      version = ver;
      code = code;
      flags = flags;
      data_length = u16_from_be l1 l0;
      transfer_id = u16_from_be i1 i0;
      packet_number = u16_from_be n1 n0;
      total_packets = u16_from_be t1 t0;
      payload = rest;
    })
read_header datagram = none

unfoldable pub decode_body : MessageType → Raw → List ℕ → Decoded Message
unfolding utf8_name decode_availability split_endpoint_name decode_peers decode_ack decode_ping
    ack_from_u8
decode_body MessageType.handshake_request r payload = do
  (claimed, name) ← split_endpoint_name payload
  ok (Message.handshake_request claimed name)
decode_body MessageType.handshake_response r payload = do
  (observed, name) ← split_endpoint_name payload
  ok (Message.handshake_response observed name)
decode_body MessageType.manifest_request r payload = ok Message.manifest_request
decode_body MessageType.manifest_response r payload = ok (Message.manifest_response payload)
decode_body MessageType.segment_request r payload = do
  filename ← utf8_name payload
  ok (Message.segment_request r.transfer_id filename)
decode_body MessageType.segment_contents r payload =
    ok (Message.segment_contents r.transfer_id r.packet_number r.total_packets payload)
decode_body MessageType.segment_not_found r payload = do
  availability ← decode_availability payload
  let retryable = not (bit_and r.flags segment_not_ready == 0)
  ok (Message.segment_not_found r.transfer_id availability retryable)
decode_body MessageType.ack r payload = do
  ack_type ← ok_or (ack_from_u8 r.flags) (bad_ack_flags r.flags)
  decode_ack r.transfer_id ack_type payload
decode_body MessageType.peerlist_request r payload = ok Message.peerlist_request
decode_body MessageType.peerlist_response r payload = do
  peers ← decode_peers payload
  ok (Message.peerlist_response peers)
decode_body MessageType.ping r payload = decode_ping payload
decode_body MessageType.pong r payload = do
  availability ← decode_availability payload
  ok (Message.pong availability)

unfoldable pub is_magic : ℕ × ℕ × ℕ → Bool
is_magic m = m.0 == b'Q' && m.1 == b'S' && m.2 == b'T'

-- The checks behind the length check, in the order of the source.
unfoldable pub decode_frame : Raw → Decoded Message
unfolding decode_body is_magic message_from_u8
decode_frame r =
    if not (is_magic r.magic)
    then err (bad_magic r.magic.0 r.magic.1 r.magic.2)
    else if not (r.version == protocol_version)
    then err (bad_version r.version)
    else (do
      message_type ← ok_or (message_from_u8 r.code) (unknown_message_type r.code)
      if ltb (length r.payload) r.data_length
          then err (truncated_payload (as_u16 r.data_length) (length r.payload))
          else decode_body message_type r (take r.data_length r.payload))

unfoldable pub decode : List ℕ → Decoded Message
unfolding read_header decode_frame
decode datagram = elim (read_header datagram) [
  | none ↦ err (truncated_header (length datagram))
  | some r ↦ decode_frame r
]
