-- ===== src/Net.antt =====
-- What the code takes from std::net and from the byte conversions of std: socket addresses, and
-- big-endian integers as lists of bytes.
use qstream.Base.{ℕ, ◌+◌, ◌*◌, ◌/◌, ◌%◌, ◌<◌, ◌≡◌, List, [], ◌∷◌, arith}

-- An address. `v4` has the four octets and the port; `v6` the sixteen octets, the port, the flow
-- information and the scope.
pub data SocketAddr : Type 0 where
  v4 : ℕ → ℕ → ℕ → ℕ → ℕ → SocketAddr
  v6 : List ℕ → ℕ → ℕ → ℕ → SocketAddr

abbrev pub IsByte : ℕ → Type 0
IsByte b = b < 256

abbrev pub IsU16 : ℕ → Type 0
IsU16 n = n < 65536

abbrev pub IsU32 : ℕ → Type 0
IsU32 n = n < 4294967296

abbrev pub IsU64 : ℕ → Type 0
IsU64 n = n < 18446744073709551616

-- `n as u16`.
abbrev pub as_u16 : ℕ → ℕ
as_u16 n = n % 65536

-- `u16::from_be_bytes` and `u16::to_be_bytes`, and so for the wider integers.
abbrev pub u16_from_be : ℕ → ℕ → ℕ
u16_from_be hi lo = hi * 256 + lo

abbrev pub u16_to_be : ℕ → List ℕ
u16_to_be n = (n / 256 % 256) ∷ (n % 256) ∷ []

abbrev pub u32_from_be : ℕ → ℕ → ℕ → ℕ → ℕ
u32_from_be a b c d = u16_from_be a b * 65536 + u16_from_be c d

abbrev pub u32_to_be : ℕ → List ℕ
u32_to_be n = (n / 16777216 % 256) ∷ (n / 65536 % 256) ∷ (n / 256 % 256) ∷ (n % 256) ∷ []

abbrev pub u64_from_be : ℕ → ℕ → ℕ → ℕ → ℕ → ℕ → ℕ → ℕ → ℕ
u64_from_be a b c d e f g h = u32_from_be a b c d * 4294967296 + u32_from_be e f g h

abbrev pub u64_to_be : ℕ → List ℕ
u64_to_be n =
    (n / 72057594037927936 % 256)
    ∷ (n / 281474976710656 % 256)
    ∷ (n / 1099511627776 % 256)
    ∷ (n / 4294967296 % 256)
    ∷ (n / 16777216 % 256)
    ∷ (n / 65536 % 256)
    ∷ (n / 256 % 256)
    ∷ (n % 256)
    ∷ []

pub u16_be : (n : ℕ) → IsU16 n → u16_from_be (n / 256 % 256) (n % 256) ≡ n
u16_be n h = omega arith

pub u32_be :
    (n : ℕ)
    → IsU32 n
    → u32_from_be (n / 16777216 % 256) (n / 65536 % 256) (n / 256 % 256) (n % 256) ≡ n
u32_be n h = omega arith

pub u64_be :
    (n : ℕ)
    → IsU64 n
    → u64_from_be
        (n / 72057594037927936 % 256)
        (n / 281474976710656 % 256)
        (n / 1099511627776 % 256)
        (n / 4294967296 % 256)
        (n / 16777216 % 256)
        (n / 65536 % 256)
        (n / 256 % 256)
        (n % 256)
      ≡ n
u64_be n h = omega arith

pub u16_from_be-IsU16 : (a b : ℕ) → IsByte a → IsByte b → IsU16 (u16_from_be a b)
u16_from_be-IsU16 a b ha hb = omega arith
