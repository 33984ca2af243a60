-- ===== src/Format/Rounded.antt =====
-- What is shown of a size or a count is the number, rounded down.
use efa_libfabric_bench.Prelude.{ℕ, ◌+◌, ◌*◌, ◌^◌, ◌<◌, ◌≤◌, ◌≡◌, arith}
use efa_libfabric_bench.Format.{size_base, size_mag, size_str, cnt_base, cnt_str}

-- A size is shown rounded down: to a tenth of its unit where less than ten units are shown, to a
-- whole unit otherwise; what is shown is below 1024 units for sizes below 1 TiB, and not 0 for
-- sizes above 0.
pub size_str_lem :
    (size : ℕ)
    → let s = size_str size in
      let base = size_base s.mag in
      (s.whole * base ≤ size)
      × (size < (s.whole + 1) * base)
      × (s.whole < 10
          → ((s.whole * 10 + s.tenths) * base ≤ size * 10)
            × (size * 10 < (s.whole * 10 + s.tenths + 1) * base))
      × (s.tenths < 10)
      × (size < 2 ^ 40 → s.whole < 1024)
      × (0 < size → 0 < s.whole)
unfolding size_str size_mag size_base
size_str_lem size = ground arith

-- A count is shown rounded down to a whole unit, which is below 1000 for counts below 10 ^ 12, and
-- not 0 for counts above 0.
pub cnt_str_lem :
    (cnt : ℕ)
    → let s = cnt_str cnt in
      let base = cnt_base s.mag in
      (s.whole * base ≤ cnt)
      × (cnt < (s.whole + 1) * base)
      × (s.tenths ≡ 0)
      × (cnt < 1000000000000 → s.whole < 1000)
      × (0 < cnt → 0 < s.whole)
unfolding cnt_str cnt_base
cnt_str_lem cnt = ground arith
