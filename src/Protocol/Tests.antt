-- ===== src/Protocol/Tests.antt =====
-- The theorems on src/protocol.rs at messages of its tests.
use qstream.Base.{ℕ, ◌≡◌, refl, List, [], ◌∷◌, ◌++◌, length, All, ok, arith}
use qstream.Net.{IsByte, IsU16}
use qstream.Protocol.Types.{Message}
use qstream.Protocol.Encode.{Header, header_of, payload_of, frame, encode}
use qstream.Protocol.Decode.{decode}
use qstream.Protocol.Valid.{IsValid, FitsLength, canonical}
use qstream.Protocol.RoundTrip.{decode-encode}
use qstream.Protocol.Frames.{decode-IsValid, decode-encode_decoded, decode-frame}
use qstream.Protocol.Limits.{decode-encode_manifest}

-- A request for `a.ts`, and its datagram.
abbrev request : Message
request = Message.segment_request 0x1234 (b'a' ∷ b'.' ∷ b't' ∷ b's' ∷ [])

abbrev datagram : List ℕ
datagram =
    81 ∷ 83 ∷ 84 ∷ 3 ∷ 0x30 ∷ 0 ∷ 0 ∷ 4 ∷ 0x12 ∷ 0x34 ∷ 0 ∷ 0 ∷ 0 ∷ 0 ∷ 97 ∷ 46 ∷ 116 ∷ 115 ∷ []

request-FitsLength : FitsLength request
unfolding payload_of
request-FitsLength = omega arith

decode-encode_example : decode (encode request ++ 7 ∷ []) ≡ ok (canonical request)
unfolding qstream.Protocol.Utf8.is_utf8
decode-encode_example = decode-encode request (7 ∷ []) (omega arith, refl) request-FitsLength

datagram_bytes : All IsByte datagram
datagram_bytes = ground arith

datagram-request : decode datagram ≡ ok request
unfolding decode qstream.Protocol.Utf8.is_utf8
datagram-request = refl

decode-IsValid_example : IsValid request × FitsLength request
decode-IsValid_example = decode-IsValid datagram request datagram_bytes datagram-request

decode-encode_decoded_example : decode (encode request) ≡ ok (canonical request)
decode-encode_decoded_example =
    decode-encode_decoded datagram request datagram_bytes datagram-request

decode-frame_example :
    (h : Header) × (payload : List ℕ) × (rest : List ℕ) × (datagram ≡ frame h payload ++ rest)
    × (h.message_type ≡ (header_of request).message_type)
    × IsU16 (length payload)
decode-frame_example = decode-frame datagram request datagram_bytes datagram-request

abbrev short : List ℕ
short = 81 ∷ 83 ∷ []

decode-encode_manifest_example :
    decode (encode (Message.manifest_response (1 ∷ 2 ∷ [])))
    ≡ ok (Message.manifest_response (1 ∷ 2 ∷ []))
decode-encode_manifest_example = decode-encode_manifest (1 ∷ 2 ∷ [])
