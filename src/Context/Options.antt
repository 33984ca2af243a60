-- ===== src/Context/Options.antt =====
-- The option bits `FT_OPT_…` of libefa/src/libefa/ftlib/shared.h, by position, and the operations
-- on a set of them.
pub mod Laws
use efa_libfabric_bench.Prelude.{ℕ, ◌-◌, ◌^◌, Bool, bit_and, bit_or, ◌==◌}
use efa_libfabric_bench.Prelude.Bits.{bit}

abbrev pub active : ℕ
active = 0

abbrev pub iter : ℕ
iter = 1

abbrev pub size : ℕ
size = 2

abbrev pub rx_cq : ℕ
rx_cq = 3

abbrev pub tx_cq : ℕ
tx_cq = 4

abbrev pub rx_cntr : ℕ
rx_cntr = 5

abbrev pub tx_cntr : ℕ
tx_cntr = 6

abbrev pub verify_data : ℕ
verify_data = 7

abbrev pub align : ℕ
align = 8

abbrev pub bw : ℕ
bw = 9

abbrev pub cq_shared : ℕ
cq_shared = 10

abbrev pub oob_sync : ℕ
oob_sync = 11

abbrev pub skip_msg_alloc : ℕ
skip_msg_alloc = 12

abbrev pub skip_reg_mr : ℕ
skip_reg_mr = 13

abbrev pub oob_addr_exch : ℕ
oob_addr_exch = 14

abbrev pub alloc_mult_mr : ℕ
alloc_mult_mr = 15

abbrev pub server_persist : ℕ
server_persist = 16

abbrev pub enable_hmem : ℕ
enable_hmem = 17

abbrev pub use_device : ℕ
use_device = 18

abbrev pub domain_eq : ℕ
domain_eq = 19

abbrev pub fork_child : ℕ
fork_child = 20

abbrev pub selective_comp : ℕ
selective_comp = 21

abbrev pub init_large_buffer : ℕ
init_large_buffer = 22

abbrev pub fi_more : ℕ
fi_more = 23

-- `1 << k`
unfoldable pub mask : ℕ → ℕ
mask k = 2 ^ k

-- `options & (1 << k)`, as a condition
unfoldable pub has : ℕ → ℕ → Bool
has o k = bit o k == 1

-- `ft_check_opts`: all the bits of `flags` are set.
unfoldable pub ft_check_opts : ℕ → ℕ → Bool
ft_check_opts o flags = bit_and o flags == flags

-- `options |= flags`
unfoldable pub set_flags : ℕ → ℕ → ℕ
set_flags o flags = bit_or o flags

-- `options &= ~flags`, on 32 bits
unfoldable pub clear_flags : ℕ → ℕ → ℕ
clear_flags o flags = bit_and o (2 ^ 32 - 1 - flags)
