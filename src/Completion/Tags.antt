-- ===== src/Completion/Tags.antt =====
-- A tag that `ft_tag_is_valid` refuses (libefa/src/libefa/ftlib/shared.c).
use efa_libfabric_bench.Prelude.{ℕ, ◌+◌, ◌^◌, ◌<◌, ◌≡◌, true, false, arith}
use efa_libfabric_bench.Context.{Context, opt}
use efa_libfabric_bench.Context.Options
use efa_libfabric_bench.Completion.{ft_tag_is_valid}

module _ (c : Context) (tag : ℕ) where
  -- In the bandwidth tests of a tagged connection, the expected tag itself is refused when it is within
  -- a window of 2 ^ 64, for windows below 2 ^ 63: the `uint64_t` sum wraps.
  pub ft_tag_is_valid_wraps :
      c.hints.caps.tagged ≡ true
      → opt c Options.bw ≡ true
      → tag < 2 ^ 64
      → 2 ^ 64 < tag + c.opts.window_size + 1
      → c.opts.window_size < 2 ^ 63
      → ft_tag_is_valid c c.rxcq tag tag ≡ false
  unfolding ft_tag_is_valid
  ft_tag_is_valid_wraps a b h k w = ground arith
