-- ===== src/Protocol/RoundTrip.antt =====
-- `decode` after `encode` of src/protocol.rs.
use qstream.Base.{
  ℕ, ◌/◌, ◌%◌, ◌≡◌, refl, ◌∙◌, true, false, ◌==◌, Bool-cases, inl, inr, Option, none, some, List,
  [], ◌∷◌, ◌++◌, length, take, take-append, take_all, length-append, le→ltb, ok, arith,
}
use qstream.Net.{SocketAddr, v4, v6, IsU16, as_u16, u16_from_be, u16_be, u32_be, u64_be}
use qstream.Protocol.Types.{MessageType, message_code, message_from_u8, AckType, Message}
use qstream.Protocol.Encode.{
  Header, header_of, payload_of, frame, encode, encode_availability, encode_peers, endpoint_bytes,
}
use qstream.Protocol.Decode.{
  Raw, decode, decode_body, decode_frame, decode_availability, decode_peers, peer_chunks,
  split_endpoint_name, utf8_name, read_header, is_magic,
}
use qstream.Protocol.Valid.{
  IsValid, FitsLength, IsEndpoint, IsInventory, IsText, ArePeers, canonical, wire_endpoint,
  wire_peers,
}

message_from_u8-code : (t : MessageType) → message_from_u8 (message_code t) ≡ some t
unfolding message_code message_from_u8
message_from_u8-code MessageType.handshake_request = refl
message_from_u8-code t = refl

-- The header that `decode` reads in a datagram that `frame` wrote.
abbrev raw_of : Header → List ℕ → List ℕ → Raw
raw_of h payload rest = record {
  magic = (b'Q', b'S', b'T');
  version = 3;
  code = message_code h.message_type;
  flags = h.flags;
  data_length = length payload;
  transfer_id = h.transfer_id;
  packet_number = h.packet_number;
  total_packets = h.total_packets;
  payload = payload ++ rest;
}

record FitsHeader (h : Header) : Type 0 where
  id : IsU16 h.transfer_id
  number : IsU16 h.packet_number
  total : IsU16 h.total_packets

length_be : (n : ℕ) → IsU16 n → u16_from_be (as_u16 n / 256 % 256) (as_u16 n % 256) ≡ n
length_be n h = omega arith

take_front : (xs ys : List ℕ) → take (length xs) (xs ++ ys) ≡ xs
take_front xs ys =
    take-append (length xs) xs ys (omega arith) ∙ take_all (length xs) xs (omega arith)

decode-frame_append :
    (h : Header) (payload rest : List ℕ)
    → FitsHeader h
    → IsU16 (length payload)
    → decode (frame h payload ++ rest) ≡ decode_body h.message_type (raw_of h payload rest) payload
unfolding decode frame read_header decode_frame is_magic
decode-frame_append h payload rest f fits = rw (
  message_from_u8-code h.message_type,
  length_be (length payload) fits,
  u16_be h.transfer_id f.id,
  u16_be h.packet_number f.number,
  u16_be h.total_packets f.total,
  le→ltb (length (payload ++ rest)) (length payload) (omega (arith, length-append payload rest)),
  take_front payload rest,
)

split-endpoint_bytes :
    (addr : SocketAddr) (name : List ℕ)
    → IsEndpoint addr
    → IsText name
    → split_endpoint_name (endpoint_bytes addr ++ name) ≡ ok (wire_endpoint addr, name)
unfolding split_endpoint_name endpoint_bytes utf8_name wire_endpoint
split-endpoint_bytes (v4 a b c d port) name h t = elim (Bool-cases (port == 0)) [
  | inl zero_port ↦ rw (zero_port, split_endpoint_name) (rw t)
  | inr some_port ↦ rw (some_port, split_endpoint_name, u16_be port h.4) (rw t)
]
split-endpoint_bytes (v6 octets port flow scope) name h t = rw t

decode-encode_availability :
    (a : Option _) → IsInventory a → decode_availability (encode_availability a) ≡ ok a
unfolding decode_availability encode_availability
decode-encode_availability none h = refl
decode-encode_availability (some a) h = rw (u64_be a.newest h.0, u16_be a.mask h.1)

length-encode_peers : (peers : List (SocketAddr × ℕ)) → length (encode_peers peers) % 7 ≡ 0
unfolding encode_peers
length-encode_peers [] = refl
length-encode_peers ((v4 a b c d port, flags) ∷ peers) = omega (arith, length-encode_peers peers)
length-encode_peers ((v6 octets port flow scope, flags) ∷ peers) = length-encode_peers peers

chunks-encode_peers :
    (peers : List (SocketAddr × ℕ))
    → ArePeers peers
    → peer_chunks (encode_peers peers) ≡ wire_peers peers
unfolding peer_chunks encode_peers wire_peers
chunks-encode_peers [] h = refl
chunks-encode_peers ((v4 a b c d port, flags) ∷ peers) h =
    rw (u16_be port h.0.4, chunks-encode_peers peers h.2) (ground arith)
chunks-encode_peers ((v6 octets port flow scope, flags) ∷ peers) h = chunks-encode_peers peers h.2

decode-encode_peers :
    (peers : List (SocketAddr × ℕ))
    → ArePeers peers
    → decode_peers (encode_peers peers) ≡ ok (wire_peers peers)
unfolding decode_peers
decode-encode_peers peers h = rw (length-encode_peers peers, chunks-encode_peers peers h)

header-IsValid : (m : Message) → IsValid m → FitsHeader (header_of m)
unfolding header_of
header-IsValid (Message.segment_request id filename) v = ground arith
header-IsValid m v = ground arith

decode_body-payload :
    (m : Message) (rest : List ℕ)
    → IsValid m
    → decode_body
        (header_of m).message_type
        (raw_of (header_of m) (payload_of m) rest)
        (payload_of m)
      ≡ ok (canonical m)
unfolding decode_body header_of payload_of canonical
decode_body-payload (Message.handshake_request claimed name) rest v =
    rw (split-endpoint_bytes claimed name v.0 v.1)
decode_body-payload (Message.handshake_response observed name) rest v =
    rw (split-endpoint_bytes observed name v.0 v.1)
decode_body-payload Message.manifest_request rest v = refl
decode_body-payload (Message.manifest_response bytes) rest v = refl
decode_body-payload (Message.segment_request id filename) rest v = rw v.1
decode_body-payload (Message.segment_contents id number total bytes) rest v = refl
decode_body-payload (Message.segment_not_found id availability true) rest v =
    rw (decode-encode_availability availability v.1)
decode_body-payload (Message.segment_not_found id availability false) rest v =
    rw (decode-encode_availability availability v.1)
decode_body-payload (Message.ack id AckType.progress start count) rest v =
    rw (u16_be start v.1, u16_be count v.2)
decode_body-payload (Message.ack id AckType.complete start count) rest v = refl
decode_body-payload Message.peerlist_request rest v = refl
decode_body-payload (Message.peerlist_response peers) rest v = rw (decode-encode_peers peers v)
decode_body-payload (Message.ping nonce name) rest v = rw (u32_be nonce v.0) (rw v.1)
decode_body-payload (Message.pong availability) rest v =
    rw (decode-encode_availability availability v)

-- A message whose fields lie in the ranges of their types and whose payload fits the length field
-- is decoded to its canonical form, whatever bytes follow the encoding in the datagram.
pub decode-encode :
    (m : Message) (rest : List ℕ)
    → IsValid m
    → FitsLength m
    → decode (encode m ++ rest) ≡ ok (canonical m)
unfolding encode
decode-encode m rest v fits =
    decode-frame_append (header_of m) (payload_of m) rest (header-IsValid m v) fits
    ∙ decode_body-payload m rest v
