-- ===== src/Protocol/Types.antt =====
-- The messages of src/protocol.rs, their codes and the decoding errors. A `String` is its UTF-8 bytes.
use qstream.Base.{
  ℕ, ◌-◌, ◌^◌, Bool, ltb, leb, ◌==◌, if◌then◌else◌, not, Option, none, some, List, [], ◌∷◌, bit_and,
}
use qstream.Net.{SocketAddr}

abbrev pub magic : List ℕ
magic = b'Q' ∷ b'S' ∷ b'T' ∷ []

abbrev pub protocol_version : ℕ
protocol_version = 0x03

abbrev pub header_size : ℕ
header_size = 14

abbrev pub availability_mask_bits : ℕ
availability_mask_bits = 16

abbrev pub segment_not_ready : ℕ
segment_not_ready = 0x01

pub data MessageType : Type 0 where
  handshake_request handshake_response : MessageType
  manifest_request manifest_response : MessageType
  segment_request segment_contents segment_not_found : MessageType
  ack : MessageType
  peerlist_request peerlist_response : MessageType
  ping pong : MessageType

-- `message_type as u8`, the discriminants of the enum.
unfoldable pub message_code : MessageType → ℕ
message_code handshake_request = 0x01
message_code handshake_response = 0x02
message_code manifest_request = 0x20
message_code manifest_response = 0x21
message_code segment_request = 0x30
message_code segment_contents = 0x31
message_code segment_not_found = 0x32
message_code ack = 0x40
message_code peerlist_request = 0x50
message_code peerlist_response = 0x51
message_code ping = 0x60
message_code pong = 0x61

-- `MessageType::from_u8`.
unfoldable pub message_from_u8 : ℕ → Option MessageType
message_from_u8 code =
    if code == 0x01
    then some handshake_request
    else if code == 0x02
    then some handshake_response
    else if code == 0x20
    then some manifest_request
    else if code == 0x21
    then some manifest_response
    else if code == 0x30
    then some segment_request
    else if code == 0x31
    then some segment_contents
    else if code == 0x32
    then some segment_not_found
    else if code == 0x40
    then some ack
    else if code == 0x50
    then some peerlist_request
    else if code == 0x51
    then some peerlist_response
    else if code == 0x60
    then some ping
    else if code == 0x61
    then some pong
    else none

pub data AckType : Type 0 where
  progress complete : AckType

-- `ack_type as u8`.
unfoldable pub ack_code : AckType → ℕ
ack_code progress = 0x00
ack_code complete = 0x04

-- `AckType::from_u8`.
unfoldable pub ack_from_u8 : ℕ → Option AckType
ack_from_u8 v = if v == 0x00 then some progress else if v == 0x04 then some complete else none

pub record SegmentAvailability : Type 0 where
  pub newest : ℕ
  pub mask : ℕ

-- `SegmentAvailability::contains`; `none` is "unknown".
unfoldable pub contains : SegmentAvailability → ℕ → Option Bool
contains a segment =
    if ltb a.newest segment
    then none
    else if leb availability_mask_bits (a.newest - segment)
    then none
    else some (not (bit_and a.mask (2 ^ (a.newest - segment)) == 0))

pub data Message : Type 0 where
  handshake_request : (claimed : SocketAddr) (name : List ℕ) → Message
  handshake_response : (observed : SocketAddr) (name : List ℕ) → Message
  manifest_request : Message
  manifest_response : (bytes : List ℕ) → Message
  segment_request : (transfer_id : ℕ) (filename : List ℕ) → Message
  segment_contents : (transfer_id packet_number total_packets : ℕ) (bytes : List ℕ) → Message
  segment_not_found :
      (transfer_id : ℕ) (availability : Option SegmentAvailability) (retryable : Bool) → Message
  ack : (transfer_id : ℕ) (ack_type : AckType) (next_start next_count : ℕ) → Message
  peerlist_request : Message
  peerlist_response : (peers : List (SocketAddr × ℕ)) → Message
  ping : (nonce : ℕ) (name : List ℕ) → Message
  pong : (availability : Option SegmentAvailability) → Message

pub data ProtocolError : Type 0 where
  truncated_header : (len : ℕ) → ProtocolError
  bad_magic : (a b c : ℕ) → ProtocolError
  bad_version : (got : ℕ) → ProtocolError
  unknown_message_type : (code : ℕ) → ProtocolError
  truncated_payload : (declared actual : ℕ) → ProtocolError
  invalid_utf8 : ProtocolError
  bad_ack_flags : (got : ℕ) → ProtocolError
  bad_ack_payload : (len : ℕ) → ProtocolError
  bad_peerlist_payload : (len : ℕ) → ProtocolError
  bad_availability_payload : (len : ℕ) → ProtocolError
