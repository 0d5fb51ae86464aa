-- ===== src/Base/Bits.antt =====
-- The bit operations digit by digit, and the bits of a mask: `mask & (1 << i)`, `mask | (1 << i)`.
use Prim.Native.Nat.{
  ℕ, zero, suc, ◌+◌, ◌*◌, ◌/◌, ◌%◌, ◌^◌, ◌≤◌, min, max, bit_and, bit_or, digits, bit_and-bitwise,
  bit_or-bitwise,
}
use mathlib.Core.Path.{◌≡◌, refl, ap, ◌∙◌}
use mathlib.Core.Logic.{◌≢◌}
use native.Mathlib.Nat.{pow-suc}
use native.Mathlib.Omega.{arith}

module _ (z : ℕ → ℕ) (f : ℕ → ℕ → ℕ) where
  -- More rounds than the first number has digits change nothing.
  digits_enough : (m n a b : ℕ) → a ≤ m → a ≤ n → digits z f m a b ≡ digits z f n a b
  digits_enough zero zero a b p q = refl
  digits_enough zero (suc n) zero b p q = refl
  digits_enough zero (suc n) (suc a) b p q = absurd (omega arith)
  digits_enough (suc m) zero zero b p q = refl
  digits_enough (suc m) zero (suc a) b p q = absurd (omega arith)
  digits_enough (suc m) (suc n) zero b p q = refl
  digits_enough (suc m) (suc n) (suc a) b p q =
      omega (arith, digits_enough m n (suc a / 2) (b / 2) (omega arith) (omega arith))

zero-bit_and : (b : ℕ) → bit_and 0 b ≡ 0
zero-bit_and b = bit_and-bitwise 0 b

zero-bit_or : (b : ℕ) → bit_or 0 b ≡ b
zero-bit_or b = bit_or-bitwise 0 b

-- The lowest digit of `a & b` and of `a | b`, and the rest.
pub bit_and_digit : (a b : ℕ) → bit_and a b ≡ bit_and (a / 2) (b / 2) * 2 + min (a % 2) (b % 2)
bit_and_digit zero b = omega (arith, zero-bit_and b, zero-bit_and (b / 2))
bit_and_digit (suc a) b = omega (
  arith,
  bit_and-bitwise (suc a) b,
  bit_and-bitwise (suc a / 2) (b / 2),
  digits_enough (λ c. zero) min a (suc a / 2) (suc a / 2) (b / 2) (omega arith) (omega arith),
)

pub bit_or_digit : (a b : ℕ) → bit_or a b ≡ bit_or (a / 2) (b / 2) * 2 + max (a % 2) (b % 2)
bit_or_digit zero b = omega (arith, zero-bit_or b, zero-bit_or (b / 2))
bit_or_digit (suc a) b = omega (
  arith,
  bit_or-bitwise (suc a) b,
  bit_or-bitwise (suc a / 2) (b / 2),
  digits_enough (λ c. c) max a (suc a / 2) (suc a / 2) (b / 2) (omega arith) (omega arith),
)

-- Bit `i` of `m`.
abbrev pub bit : ℕ → ℕ → ℕ
bit m zero = m % 2
bit m (suc i) = bit (m / 2) i

half-pow : (i : ℕ) → 2 ^ suc i / 2 ≡ 2 ^ i
half-pow i = let e : 2 ^ suc i ≡ 2 ^ i * 2 = pow-suc 2 i in omega arith

low-pow : (i : ℕ) → 2 ^ suc i % 2 ≡ 0
low-pow i = let e : 2 ^ suc i ≡ 2 ^ i * 2 = pow-suc 2 i in omega arith

bit_and-zero : (n m : ℕ) → m ≤ n → bit_and m 0 ≡ 0
bit_and-zero zero zero h = refl
bit_and-zero zero (suc m) h = absurd (omega arith)
bit_and-zero (suc n) zero h = refl
bit_and-zero (suc n) (suc m) h =
    omega (arith, bit_and_digit (suc m) 0, bit_and-zero n (suc m / 2) (omega arith))

-- `mask & (1 << i)` is bit `i`, in its place.
pub bit_and-pow : (m i : ℕ) → bit_and m (2 ^ i) ≡ bit m i * 2 ^ i
bit_and-pow m zero = omega (arith, bit_and_digit m 1, bit_and-zero (m / 2) (m / 2) (omega arith))
bit_and-pow m (suc i) =
    bit_and_digit m (2 ^ suc i)
    ∙ rw (half-pow i, low-pow i, bit_and-pow (m / 2) i)
        (let e : 2 ^ suc i ≡ 2 ^ i * 2 = pow-suc 2 i in
          omega (arith, ap (λ (t : ℕ). bit (m / 2) i * t) e))

pub bit_bound : (m i : ℕ) → bit m i ≤ 1
bit_bound m zero = omega arith
bit_bound m (suc i) = bit_bound (m / 2) i

bit_or_half : (a b : ℕ) → bit_or a b / 2 ≡ bit_or (a / 2) (b / 2)
bit_or_half a b = omega (arith, bit_or_digit a b)

pub bit-bit_or : (a b i : ℕ) → bit (bit_or a b) i ≡ max (bit a i) (bit b i)
bit-bit_or a b zero = omega (arith, bit_or_digit a b)
bit-bit_or a b (suc i) = rw (bit_or_half a b) (bit-bit_or (a / 2) (b / 2) i)

pub bit-pow_self : (i : ℕ) → bit (2 ^ i) i ≡ 1
bit-pow_self zero = refl
bit-pow_self (suc i) = rw (half-pow i) (bit-pow_self i)

bit-pow_zero : (m : ℕ) → m ≢ 0 → bit (2 ^ m) 0 ≡ 0
bit-pow_zero zero h = absurd (h refl)
bit-pow_zero (suc m) h = low-pow m

pub bit-none : (i : ℕ) → bit 0 i ≡ 0
bit-none zero = refl
bit-none (suc i) = bit-none i

bit-one : (i : ℕ) → bit 1 (suc i) ≡ 0
bit-one i = bit-none i

pub bit-pow_ne : (d i : ℕ) → d ≢ i → bit (2 ^ d) i ≡ 0
bit-pow_ne d zero h = bit-pow_zero d h
bit-pow_ne zero (suc i) h = bit-one i
bit-pow_ne (suc d) (suc i) h = rw (half-pow d) (bit-pow_ne d i (λ e. h (ap suc e)))
