-- ===== src/Protocol/Limits.antt =====
-- The edges of the codec of src/protocol.rs: short datagrams and payloads past the length field.
use qstream.Base.{
  ℕ, ◌%◌, ◌<◌, ◌≡◌, refl, ◌↔◌, Option-cases, inl, inr, none, List, [], ◌∷◌, length, take, ok, err,
  le→ltb, arith,
}
use qstream.Net.{as_u16, u16_be}
use qstream.Protocol.Types.{
  MessageType, message_from_u8, AckType, ack_from_u8, Message, truncated_header,
}
use qstream.Protocol.Encode.{encode}
use qstream.Protocol.Decode.{
  Raw, decode, decode_body, decode_frame, read_header, utf8_name, decode_availability,
  split_endpoint_name, decode_peers, decode_ack, decode_ping,
}

read_header_short : (d : List ℕ) → (read_header d ≡ none) ↔ (length d < 14)
unfolding read_header
read_header_short (q ∷ s ∷ t ∷ ver ∷ code ∷ flags ∷ l1 ∷ l0 ∷ i1 ∷ i0 ∷ n1 ∷ n0 ∷ t1 ∷ t0 ∷ rest) =
    (λ e. cc, λ h. absurd (omega arith))
read_header_short d = (λ e. omega arith, λ h. refl)

utf8_name_err : (p : List ℕ) (n : ℕ) → ¬ (utf8_name p ≡ err (truncated_header n))
unfolding utf8_name
utf8_name_err p n e = ground arith

availability_err : (p : List ℕ) (n : ℕ) → ¬ (decode_availability p ≡ err (truncated_header n))
unfolding decode_availability
availability_err [] n e = cc
availability_err (a ∷ b ∷ c ∷ d ∷ p ∷ f ∷ g ∷ i ∷ m1 ∷ m0 ∷ []) n e = cc
availability_err p n e = cc

endpoint_err : (p : List ℕ) (n : ℕ) → ¬ (split_endpoint_name p ≡ err (truncated_header n))
unfolding split_endpoint_name
endpoint_err (a ∷ b ∷ c ∷ d ∷ p1 ∷ p0 ∷ rest) n e = ground (arith, utf8_name_err rest n)
endpoint_err p n e = cc

ack_err :
    (id : ℕ) (t : AckType) (p : List ℕ) (n : ℕ) → ¬ (decode_ack id t p ≡ err (truncated_header n))
unfolding decode_ack
ack_err id AckType.complete p n e = cc
ack_err id AckType.progress (s1 ∷ s0 ∷ c1 ∷ c0 ∷ []) n e = cc
ack_err id AckType.progress p n e = cc

ping_err : (p : List ℕ) (n : ℕ) → ¬ (decode_ping p ≡ err (truncated_header n))
unfolding decode_ping
ping_err (a ∷ b ∷ c ∷ d ∷ rest) n e = ground (arith, utf8_name_err rest n)
ping_err p n e = cc

body_err :
    (t : MessageType) (r : Raw) (p : List ℕ) (n : ℕ)
    → ¬ (decode_body t r p ≡ err (truncated_header n))
unfolding decode_body decode_peers
body_err MessageType.manifest_request r p n e = cc
body_err MessageType.ack r p n e = elim (Option-cases (ack_from_u8 r.flags)) [
  | inl q ↦ ground (arith, q)
  | inr (t, q) ↦ ack_err r.transfer_id t p n (rw q at e)
]
body_err t r p n e =
    ground (arith, utf8_name_err p n, availability_err p n, endpoint_err p n, ping_err p n)

frame_err : (r : Raw) (n : ℕ) → ¬ (decode_frame r ≡ err (truncated_header n))
unfolding decode_frame
frame_err r n e = elim (Option-cases (message_from_u8 r.code)) [
  | inl q ↦ ground (arith, q)
  | inr (t, q) ↦ ground (arith, q, body_err t r (take r.data_length r.payload) n)
]

-- A datagram is refused for its missing header exactly when it has fewer than 14 bytes, with its
-- length in the error.
pub decode_truncated :
    (d : List ℕ) (n : ℕ) → (decode d ≡ err (truncated_header n)) ↔ ((length d ≡ n) × (n < 14))
unfolding decode
decode_truncated d n = elim (Option-cases (read_header d)) [
  | inl q ↦ (λ e. ground (arith, (read_header_short d).0 q), λ h. ground (arith, q))
  | inr (r, q) ↦ (
    λ e. absurd (frame_err r n (rw (q, decode) at e)),
    λ h. absurd (ground (arith, q, (read_header_short d).1)),
  )
]

-- The length field holds the payload's length modulo 2 ^ 16, so what a manifest of any size decodes
-- to is the prefix of that length: the whole manifest exactly up to 65,535 bytes.
pub decode-encode_manifest :
    (bytes : List ℕ)
    → decode (encode (Message.manifest_response bytes))
      ≡ ok (Message.manifest_response (take (length bytes % 65536) bytes))
unfolding decode encode
decode-encode_manifest bytes = rw (
  u16_be (as_u16 (length bytes)) (omega arith),
  le→ltb (length bytes) (as_u16 (length bytes)) (omega arith),
)
