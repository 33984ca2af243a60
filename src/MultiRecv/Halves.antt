-- ===== src/MultiRecv/Halves.antt =====
-- How many messages half of the buffer holds.
use native.Mathlib.Nat.{
  le-div_iff_mul-le, div-le_of_le-mul, div-mul-le_self, div-eq_of_lt-le, div-eq_of_lt,
}
use efa_libfabric_bench.Prelude.{ap, ◌∙◌, ℕ, ◌*◌, ◌/◌, ◌%◌, ◌^◌, ◌<◌, ◌≤◌, ◌≡◌, arith, min}
use efa_libfabric_bench.Context.{Context}
use efa_libfabric_bench.MultiRecv.{max_xfer_size, multi_recv_sizes}

-- Half of the buffer, for messages of `t` bytes.
abbrev half : ℕ → ℕ
half t = min (t * 128 % 2 ^ 64) (max_xfer_size * 4) / 2

half_small : (t : ℕ) → t ≤ max_xfer_size → (2 * t ≤ half t) × (half t ≤ t * 64)
half_small t h = (omega arith, omega arith)

half_large : (t : ℕ) → max_xfer_size < t → t < 2 ^ 57 → half t ≡ 2 * max_xfer_size
half_large t h k = omega arith

-- A message of at most MAX_XFER_SIZE bytes: half of the buffer holds at least 2 and at most 64 of
-- them, whole.
pub multi_recv_halves :
    (c : Context)
    → 0 < c.opts.transfer_size
    → c.opts.transfer_size ≤ max_xfer_size
    → let d = multi_recv_sizes c in
      (2 ≤ d.comp_per_buf)
      × (d.comp_per_buf ≤ 64)
      × (d.comp_per_buf * d.opts.transfer_size ≤ d.rx_size / 2)
unfolding multi_recv_sizes
multi_recv_halves c h k =
    let t = c.opts.transfer_size in
    let b = half_small t k in
    ((le-div_iff_mul-le h).1 b.0, div-le_of_le-mul t b.1, div-mul-le_self (half t) t)

-- A larger one, up to 2 ^ 57 bytes: half of the buffer holds one of them if it has at most 2 MiB, and
-- none otherwise, so that no message ever fits.
pub multi_recv_too_large :
    (c : Context)
    → max_xfer_size < c.opts.transfer_size
    → c.opts.transfer_size < 2 ^ 57
    → let d = multi_recv_sizes c in
      (c.opts.transfer_size ≤ 2 * max_xfer_size → d.comp_per_buf ≡ 1)
      × (2 * max_xfer_size < c.opts.transfer_size
          → (d.comp_per_buf ≡ 0) × (d.rx_size / 2 < c.opts.transfer_size))
unfolding multi_recv_sizes
multi_recv_too_large c h k =
    let t = c.opts.transfer_size in
    let e = half_large t h k in
    (
      λ m. ap (λ n. n / t) e ∙ div-eq_of_lt-le t (omega arith) (omega arith),
      λ m. (ap (λ n. n / t) e ∙ div-eq_of_lt m, omega (arith, e)),
    )
