-- ===== src/Prelude/Bits.antt =====
-- The binary digits of a number, and what `&` and `|` do to each of them.
use Prim.Native.Nat.{
  ℕ, zero, suc, ◌+◌, ◌*◌, ◌/◌, ◌%◌, ◌≤◌, ◌<◌, min, max, bit_and, bit_or, digits, bit_and-bitwise,
  bit_or-bitwise,
}
use mathlib.Core.Path.{◌≡◌, refl}
use native.Mathlib.Omega.{arith}
use native.Mathlib.Nat.{le_refl}

-- The digit of weight 2 ^ k.
unfoldable pub bit : ℕ → ℕ → ℕ
bit n zero = n % 2
bit n (suc k) = bit (n / 2) k

pub bit-lt-two : (n k : ℕ) → bit n k < 2
unfolding bit
bit-lt-two n zero = omega arith
bit-lt-two n (suc k) = bit-lt-two (n / 2) k

pub zero-bit : (k : ℕ) → bit 0 k ≡ 0
unfolding bit
zero-bit zero = refl
zero-bit (suc k) = zero-bit k

module _ (z : ℕ → ℕ) (f : ℕ → ℕ → ℕ) (small : (x y : ℕ) → x < 2 → y < 2 → f x y < 2)
    (rest : (b k : ℕ) → bit (z b) k ≡ f 0 (bit b k)) where
  bit-digits : (n a b k : ℕ) → a ≤ n → bit (digits z f n a b) k ≡ f (bit a k) (bit b k)
  unfolding bit
  bit-digits zero zero b k h = rw zero-bit (rest b k)
  bit-digits zero (suc a) b k h = absurd (omega arith)
  bit-digits (suc n) zero b k h = rw zero-bit (rest b k)
  bit-digits (suc n) (suc a) b zero h =
      omega (arith, small (suc a % 2) (b % 2) (omega arith) (omega arith))
  bit-digits (suc n) (suc a) b (suc k) h =
      rw shifted (bit-digits n (suc a / 2) (b / 2) k (omega arith))
    where
      shifted :
          (digits z f n (suc a / 2) (b / 2) * 2 + f (suc a % 2) (b % 2)) / 2
          ≡ digits z f n (suc a / 2) (b / 2)
      shifted = omega (arith, small (suc a % 2) (b % 2) (omega arith) (omega arith))

pub bit-bit_and : (a b k : ℕ) → bit (bit_and a b) k ≡ min (bit a k) (bit b k)
bit-bit_and a b k =
    rw bit_and-bitwise (bit-digits (λ y. 0) min (λ x y p q. omega arith) rest a a b k (le_refl a))
  where
    rest : (b k : ℕ) → bit 0 k ≡ min 0 (bit b k)
    rest b k = omega (arith, zero-bit k)

pub bit-bit_or : (a b k : ℕ) → bit (bit_or a b) k ≡ max (bit a k) (bit b k)
bit-bit_or a b k =
    rw bit_or-bitwise (bit-digits (λ y. y) max (λ x y p q. omega arith) rest a a b k (le_refl a))
  where
    rest : (b k : ℕ) → bit b k ≡ max 0 (bit b k)
    rest b k = omega arith

-- Numbers with the same digits are equal.
pub eq_of_bits : (n a b : ℕ) → a ≤ n → b ≤ n → ((k : ℕ) → bit a k ≡ bit b k) → a ≡ b
unfolding bit
eq_of_bits zero a b p q h = omega arith
eq_of_bits (suc n) a b p q h =
    omega (arith, h 0, eq_of_bits n (a / 2) (b / 2) (omega arith) (omega arith) (λ k. h (suc k)))
