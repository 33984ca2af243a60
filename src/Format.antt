-- ===== src/Format.antt =====
-- How sizes and counts are shown, and how many iterations a size gets: `size_str`, `cnt_str` and
-- `size_to_count` of libefa/src/libefa/ftlib/shared.c. The decimal digits of a number are written
-- by `snprintf`; the model gives the numbers and the letter that follows them.
pub mod Rounded
use efa_libfabric_bench.Prelude.{ℕ, zero, suc, ◌*◌, ◌/◌, ◌%◌, ◌^◌, ltb, leb, if◌then◌else◌}
use efa_libfabric_bench.Context.{Context, opt}
use efa_libfabric_bench.Context.Options

-- The letter after the number; none is '\0'.
pub data Magnitude : Type 0 where
  units kilo mega giga billion : Magnitude

pub record Shown : Type 0 where
  pub whole : ℕ
  pub tenths : ℕ  -- not shown when it is 0
  pub mag : Magnitude

-- The divisor that a letter stands for in a size.
unfoldable pub size_base : Magnitude → ℕ
size_base units = 1
size_base kilo = 2 ^ 10
size_base mega = 2 ^ 20
size_base giga = 2 ^ 30
size_base billion = 1

unfoldable pub size_mag : ℕ → Magnitude
size_mag size =
    if leb (2 ^ 30) size
    then giga
    else if leb (2 ^ 20) size
    then mega
    else if leb (2 ^ 10) size
    then kilo
    else units

unfoldable pub size_str : ℕ → Shown
unfolding size_base size_mag
size_str size =
    let mag = size_mag size in
    let base = size_base mag in
    record {
      whole = size / base;
      tenths = if ltb (size / base) 10 then size % base * 10 / base else 0;
      mag = mag;
    }

-- The divisor that a letter stands for in a count.
unfoldable pub cnt_base : Magnitude → ℕ
cnt_base units = 1
cnt_base kilo = 1000
cnt_base mega = 1000000
cnt_base giga = 1
cnt_base billion = 1000000000

unfoldable pub cnt_str : ℕ → Shown
cnt_str cnt =
    if leb 1000000000 cnt
    then record { whole = cnt / 1000000000; tenths = 0; mag = billion }
    else if leb 1000000 cnt
    then record { whole = cnt / 1000000; tenths = 0; mag = mega }
    else if leb 1000 cnt
    then record { whole = cnt / 1000; tenths = 0; mag = kilo }
    else record { whole = cnt; tenths = 0; mag = units }

unfoldable pub size_to_count : Context → ℕ → ℕ
size_to_count c size =
    if leb (2 ^ 20) size
    then (if opt c Options.bw then 200 else 100)
    else if leb (2 ^ 16) size
    then (if opt c Options.bw then 2000 else 1000)
    else (if opt c Options.bw then 20000 else 10000)
