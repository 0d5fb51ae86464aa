-- ===== src/Protocol/Encode.antt =====
-- `encode` of src/protocol.rs and its helpers.
use qstream.Base.{
  ℕ, ◌==◌, if◌then◌else◌, Option, none, some, List, [], ◌∷◌, ◌++◌, length, replicate,
}
use qstream.Net.{SocketAddr, v4, v6, as_u16, u16_to_be, u32_to_be, u64_to_be}
use qstream.Protocol.Types.{
  magic, protocol_version, segment_not_ready, MessageType, message_code, AckType, ack_code,
  SegmentAvailability, Message,
}

-- The header fields that `encode` picks for a message: type, flags and the three counters.
pub record Header : Type 0 where
  pub message_type : MessageType
  pub flags : ℕ
  pub transfer_id : ℕ
  pub packet_number : ℕ
  pub total_packets : ℕ

plain : MessageType → Header
plain t = record {
  message_type = t;
  flags = 0;
  transfer_id = 0;
  packet_number = 0;
  total_packets = 0;
}

unfoldable pub header_of : Message → Header
unfolding plain ack_code
header_of (Message.handshake_request claimed name) = plain MessageType.handshake_request
header_of (Message.handshake_response observed name) = plain MessageType.handshake_response
header_of Message.manifest_request = plain MessageType.manifest_request
header_of (Message.manifest_response bytes) = plain MessageType.manifest_response
header_of (Message.segment_request id filename) = record (plain MessageType.segment_request) {
  transfer_id = id;
}
header_of (Message.segment_contents id number total bytes) =
    record (plain MessageType.segment_contents) {
      transfer_id = id;
      packet_number = number;
      total_packets = total;
    }
header_of (Message.segment_not_found id availability retryable) =
    record (plain MessageType.segment_not_found) {
      flags = if retryable then segment_not_ready else 0;
      transfer_id = id;
    }
header_of (Message.ack id ack_type start count) = record (plain MessageType.ack) {
  flags = ack_code ack_type;
  transfer_id = id;
}
header_of Message.peerlist_request = plain MessageType.peerlist_request
header_of (Message.peerlist_response peers) = plain MessageType.peerlist_response
header_of (Message.ping nonce name) = plain MessageType.ping
header_of (Message.pong availability) = plain MessageType.pong

unfoldable pub encode_availability : Option SegmentAvailability → List ℕ
encode_availability none = []
encode_availability (some a) = u64_to_be a.newest ++ u16_to_be a.mask

-- An IPv4 address with a port; anything else becomes six zero bytes.
unfoldable pub endpoint_bytes : SocketAddr → List ℕ
endpoint_bytes (v4 a b c d port) =
    if port == 0 then replicate 6 0 else a ∷ b ∷ c ∷ d ∷ u16_to_be port
endpoint_bytes (v6 octets port flow scope) = replicate 6 0

-- IPv6 peers are left out.
unfoldable pub encode_peers : List (SocketAddr × ℕ) → List ℕ
encode_peers [] = []
encode_peers ((v4 a b c d port, flags) ∷ peers) =
    a ∷ b ∷ c ∷ d ∷ (u16_to_be port ++ flags ∷ encode_peers peers)
encode_peers ((v6 octets port flow scope, flags) ∷ peers) = encode_peers peers

unfoldable pub payload_of : Message → List ℕ
unfolding encode_availability endpoint_bytes encode_peers
payload_of (Message.handshake_request claimed name) = endpoint_bytes claimed ++ name
payload_of (Message.handshake_response observed name) = endpoint_bytes observed ++ name
payload_of Message.manifest_request = []
payload_of (Message.manifest_response bytes) = bytes
payload_of (Message.segment_request id filename) = filename
payload_of (Message.segment_contents id number total bytes) = bytes
payload_of (Message.segment_not_found id availability retryable) = encode_availability availability
payload_of (Message.ack id AckType.progress start count) = u16_to_be start ++ u16_to_be count
payload_of (Message.ack id AckType.complete start count) = []
payload_of Message.peerlist_request = []
payload_of (Message.peerlist_response peers) = encode_peers peers
payload_of (Message.ping nonce name) = u32_to_be nonce ++ name
payload_of (Message.pong availability) = encode_availability availability

-- The bytes pushed into the buffer: the fixed header, then the payload.
unfoldable pub frame : Header → List ℕ → List ℕ
unfolding message_code
frame h payload =
    magic
    ++ protocol_version
      ∷ message_code h.message_type
      ∷ h.flags
      ∷ (u16_to_be (as_u16 (length payload))
          ++ (u16_to_be h.transfer_id
              ++ (u16_to_be h.packet_number ++ (u16_to_be h.total_packets ++ payload))))

unfoldable pub encode : Message → List ℕ
unfolding header_of payload_of frame
encode m = frame (header_of m) (payload_of m)
