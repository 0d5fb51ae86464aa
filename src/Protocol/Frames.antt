-- ===== src/Protocol/Frames.antt =====
-- The datagrams that `decode` of src/protocol.rs accepts are frames, and what it returns is valid.
use qstream.Base.{
  ℕ, ◌/◌, ◌%◌, ◌≤◌, ◌≡◌, sym, ◌∙◌, subst, true, Option-cases, inl, inr, some, List, [], ◌∷◌, ◌++◌,
  append-nil, length, take, drop, All, All-take, length-take, take-append-drop, ok, arith,
}
use native.Mathlib.Nat.{mod-eq_of_lt}
use mathlib.Core.Option.{some-injective}
use qstream.Net.{IsByte, IsU16, u16_from_be, u16_to_be}
use qstream.Protocol.Types.{MessageType, message_code, message_from_u8, Message}
use qstream.Protocol.Encode.{Header, header_of, frame, encode}
use qstream.Protocol.Decode.{Raw, decode, decode_frame, decode_body, read_header, is_magic}
use qstream.Protocol.Valid.{IsValid, FitsLength, canonical}
use qstream.Protocol.Accepted.{IsRead, Good, decode_body-ok}
use qstream.Protocol.RoundTrip.{decode-encode}

code-message_from_u8 : (c : ℕ) (t : MessageType) → message_from_u8 c ≡ some t → message_code t ≡ c
unfolding message_from_u8 message_code
code-message_from_u8 c t e = ground arith

-- The checks that a header has passed once `decode_frame` returns a message.
record Passed (r : Raw) (m : Message) : Type 0 where
  kind : MessageType
  magic_ok : is_magic r.magic ≡ true
  version_ok : r.version ≡ 3
  code_ok : message_from_u8 r.code ≡ some kind
  length_ok : r.data_length ≤ length r.payload
  body_ok : decode_body kind r (take r.data_length r.payload) ≡ ok m

decode_frame-Passed : (r : Raw) (m : Message) → decode_frame r ≡ ok m → Passed r m
unfolding decode_frame
decode_frame-Passed r m e = elim (Option-cases (message_from_u8 r.code)) [
  | inl q ↦ absurd (ground (arith, q))
  | inr (t, q) ↦ record {
    kind = t;
    magic_ok = ground arith;
    version_ok = ground arith;
    code_ok = q;
    length_ok = ground arith;
    body_ok = ground arith;
  }
]

record IsSound (d : List ℕ) (r : Raw) : Type 0 where
  read : IsRead r
  bytes : All IsByte r.payload
  size : IsU16 r.data_length
  flags : IsByte r.flags
  whole :
      d
      ≡ r.magic.0
        ∷ r.magic.1
        ∷ r.magic.2
        ∷ r.version
        ∷ r.code
        ∷ r.flags
        ∷ (u16_to_be r.data_length
            ++ (u16_to_be r.transfer_id
                ++ (u16_to_be r.packet_number ++ (u16_to_be r.total_packets ++ r.payload))))

high_byte : (a b : ℕ) → IsByte a → IsByte b → u16_from_be a b / 256 % 256 ≡ a
high_byte a b ha hb = omega arith

low_byte : (a b : ℕ) → IsByte b → u16_from_be a b % 256 ≡ b
low_byte a b hb = omega arith

read_header-IsSound : (d : List ℕ) (r : Raw) → All IsByte d → read_header d ≡ some r → IsSound d r
unfolding read_header
read_header-IsSound (q ∷ s ∷ t ∷ ver ∷ code ∷ flags ∷ l1 ∷ l0 ∷ i1 ∷ i0 ∷ n1 ∷ n0 ∷ t1 ∷ t0 ∷ rest)
      r (_, (_, (_, (_, (_, (hf, (h6, (h7, (h8, (h9, (h10, (h11, (h12, (h13, hr)))))))))))))) e =
    subst (IsSound _) (some-injective _ _ e) (record {
      read = record { id = ground arith; number = ground arith; total = ground arith };
      bytes = ground arith;
      size = ground arith;
      flags = ground arith;
      whole = rw (
        high_byte l1 l0 h6 h7,
        low_byte l1 l0 h7,
        high_byte i1 i0 h8 h9,
        low_byte i1 i0 h9,
        high_byte n1 n0 h10 h11,
        low_byte n1 n0 h11,
        high_byte t1 t0 h12 h13,
        low_byte t1 t0 h13,
      );
    })
read_header-IsSound d r h e = cc

decode-cases :
    (d : List ℕ) (m : Message)
    → All IsByte d
    → decode d ≡ ok m
    → (r : Raw) × IsSound d r × Passed r m
unfolding decode
decode-cases d m h e = elim (Option-cases (read_header d)) [
  | inl q ↦ absurd (ground (arith, q))
  | inr (r, q) ↦ (r, read_header-IsSound d r h q, decode_frame-Passed r m (ground (arith, q)))
]

length-take_le : (n : ℕ) (xs : List ℕ) → n ≤ length xs → length (take n xs) ≡ n
length-take_le n xs h = omega (arith, length-take n xs)

-- What `decode_body` gives for the payload that was read.
body_of :
    {d : List ℕ} {m : Message} (r : Raw)
    → IsSound d r
    → (p : Passed r m) → Good p.kind (take r.data_length r.payload) m
body_of {m = m} r s p =
    decode_body-ok r s.read (take r.data_length r.payload) m
      (All-take IsByte r.data_length r.payload s.bytes)
      (omega (arith, length-take_le r.data_length r.payload p.length_ok, s.size)) p.kind p.body_ok

magic_bytes : (m : ℕ × ℕ × ℕ) → is_magic m ≡ true → m ≡ (b'Q', b'S', b'T')
unfolding is_magic
magic_bytes m h = ground arith

-- A message decoded from a datagram of bytes has every field in the range of its type, and its
-- encoding fits the length field.
pub decode-IsValid :
    (d : List ℕ) (m : Message) → All IsByte d → decode d ≡ ok m → IsValid m × FitsLength m
decode-IsValid d m h e =
    let (r, s, p) = decode-cases d m h e in let (v, f, k) = body_of r s p in (v, f)

-- Decoding again what a node sends on for a decoded message gives that message in canonical form.
pub decode-encode_decoded :
    (d : List ℕ) (m : Message)
    → All IsByte d
    → decode d ≡ ok m
    → decode (encode m) ≡ ok (canonical m)
decode-encode_decoded d m h e =
    let (v, f) = decode-IsValid d m h e in rw append-nil at (decode-encode m [] v f)

-- A datagram of bytes that decodes to `m` is a frame of the kind of `m`: magic, version and type
-- byte, flags, a declared length and counters, then as many payload bytes as declared, then anything.
pub decode-frame :
    (d : List ℕ) (m : Message)
    → All IsByte d
    → decode d ≡ ok m
    → (h : Header) × (payload : List ℕ) × (rest : List ℕ) × (d ≡ frame h payload ++ rest)
      × (h.message_type ≡ (header_of m).message_type)
      × IsU16 (length payload)
unfolding frame is_magic
decode-frame d m h e =
    let (r, s, p) = decode-cases d m h e in
    let size : length (take r.data_length r.payload) ≡ r.data_length =
      length-take_le r.data_length r.payload p.length_ok in
    (
      record {
        message_type = p.kind;
        flags = r.flags;
        transfer_id = r.transfer_id;
        packet_number = r.packet_number;
        total_packets = r.total_packets;
      },
      take r.data_length r.payload,
      drop r.data_length r.payload,
      s.whole
          ∙ rw (
            size,
            mod-eq_of_lt s.size,
            take-append-drop r.data_length r.payload,
            code-message_from_u8 r.code p.kind p.code_ok,
            magic_bytes r.magic p.magic_ok,
            p.version_ok,
          ),
      sym (body_of r s p).2,
      omega (arith, size, s.size),
    )
