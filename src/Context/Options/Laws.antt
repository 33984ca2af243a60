-- ===== src/Context/Options/Laws.antt =====
-- What setting and clearing option bits does to each of them.
use efa_libfabric_bench.Prelude.{
  ℕ, zero, suc, ◌-◌, ◌/◌, ◌^◌, ◌≡◌, refl, ◌==◌, ◌||◌, ◌&&◌, arith, if◌then◌else◌, ap, ◌∙◌,
}
use native.Mathlib.Nat.{pow-suc}
use efa_libfabric_bench.Prelude.Bits.{bit, bit-lt-two, zero-bit, bit-bit_and, bit-bit_or}
use efa_libfabric_bench.Context.Options.{has, mask, set_flags, clear_flags}

bit-pow : (j k : ℕ) → bit (2 ^ j) k ≡ (if j == k then 1 else 0)
unfolding bit
bit-pow zero zero = refl
bit-pow zero (suc k) = zero-bit k ∙ ground arith
bit-pow (suc j) zero = ground (arith, pow-suc 2 j)
bit-pow (suc j) (suc k) = half ∙ bit-pow j k ∙ ground arith
  where
    half : bit (2 ^ suc j / 2) k ≡ bit (2 ^ j) k
    half = ap (λ n. bit n k) (omega (arith, pow-suc 2 j))

-- `options |= 1 << j` sets bit j and no other.
pub has-set_flags : (o j k : ℕ) → has (set_flags o (mask j)) k ≡ (has o k || j == k)
unfolding has set_flags mask
has-set_flags o j k = ground (arith, bit-bit_or o (2 ^ j) k, bit-pow j k, bit-lt-two o k)

-- `options &= ~flags` keeps a bit where the complement of the flags has it.
pub has-clear_flags :
    (o flags k : ℕ) → has (clear_flags o flags) k ≡ (has o k && has (2 ^ 32 - 1 - flags) k)
unfolding has clear_flags
has-clear_flags o flags k =
    ground (
      arith,
      bit-bit_and o (2 ^ 32 - 1 - flags) k,
      bit-lt-two o k,
      bit-lt-two (2 ^ 32 - 1 - flags) k,
    )
