-- ===== src/Protocol/Valid.antt =====
-- Which messages of src/protocol.rs the wire can carry: the value ranges that the Rust types give,
-- the size limit of the 16-bit length field, and the form in which a message arrives.
use qstream.Base.{ℕ, ◌≡◌, true, ◌==◌, if◌then◌else◌, Option, none, some, List, [], ◌∷◌, length}
use qstream.Net.{SocketAddr, v4, v6, IsByte, IsU16, IsU32, IsU64}
use qstream.Protocol.Utf8.{is_utf8}
use qstream.Protocol.Types.{AckType, SegmentAvailability, Message}
use qstream.Protocol.Encode.{payload_of}

abbrev pub IsEndpoint : SocketAddr → Type 0
IsEndpoint (v4 a b c d port) = IsByte a × IsByte b × IsByte c × IsByte d × IsU16 port
IsEndpoint (v6 octets port flow scope) = Unit

-- A Rust `String`.
abbrev pub IsText : List ℕ → Type 0
IsText name = is_utf8 name ≡ true

abbrev pub IsInventory : Option SegmentAvailability → Type 0
IsInventory none = Unit
IsInventory (some a) = IsU64 a.newest × IsU16 a.mask

abbrev pub ArePeers : List (SocketAddr × ℕ) → Type 0
ArePeers [] = Unit
ArePeers ((peer, flags) ∷ peers) = IsEndpoint peer × IsByte flags × ArePeers peers

-- Every field lies in the range of its Rust type.
abbrev pub IsValid : Message → Type 0
IsValid (Message.handshake_request claimed name) = IsEndpoint claimed × IsText name
IsValid (Message.handshake_response observed name) = IsEndpoint observed × IsText name
IsValid Message.manifest_request = Unit
IsValid (Message.manifest_response bytes) = Unit
IsValid (Message.segment_request id filename) = IsU16 id × IsText filename
IsValid (Message.segment_contents id number total bytes) = IsU16 id × IsU16 number × IsU16 total
IsValid (Message.segment_not_found id availability retryable) = IsU16 id × IsInventory availability
IsValid (Message.ack id ack_type start count) = IsU16 id × IsU16 start × IsU16 count
IsValid Message.peerlist_request = Unit
IsValid (Message.peerlist_response peers) = ArePeers peers
IsValid (Message.ping nonce name) = IsU32 nonce × IsText name
IsValid (Message.pong availability) = IsInventory availability

-- The payload's length fits the header's length field.
abbrev pub FitsLength : Message → Type 0
FitsLength m = IsU16 (length (payload_of m))

abbrev pub no_endpoint : SocketAddr
no_endpoint = v4 0 0 0 0 0

-- An endpoint as it arrives: IPv6 and port 0 become 0.0.0.0:0.
unfoldable pub wire_endpoint : SocketAddr → SocketAddr
wire_endpoint (v4 a b c d port) = if port == 0 then no_endpoint else v4 a b c d port
wire_endpoint (v6 octets port flow scope) = no_endpoint

-- A peer list as it arrives: IPv6 peers and peers with port 0 are gone.
unfoldable pub wire_peers : List (SocketAddr × ℕ) → List (SocketAddr × ℕ)
wire_peers [] = []
wire_peers ((v4 a b c d port, flags) ∷ peers) =
    let rest = wire_peers peers in if port == 0 then rest else (v4 a b c d port, flags) ∷ rest
wire_peers ((v6 octets port flow scope, flags) ∷ peers) = wire_peers peers

-- A message as it arrives.
unfoldable pub canonical : Message → Message
unfolding wire_endpoint wire_peers
canonical (Message.handshake_request claimed name) =
    Message.handshake_request (wire_endpoint claimed) name
canonical (Message.handshake_response observed name) =
    Message.handshake_response (wire_endpoint observed) name
canonical (Message.ack id AckType.complete start count) = Message.ack id AckType.complete 0 0
canonical (Message.peerlist_response peers) = Message.peerlist_response (wire_peers peers)
canonical m = m
