-- ===== src/Context.antt =====
-- The state of a connection: `struct ConnectionContext`, `struct ft_opts` and the parts of
-- `struct fi_info` that libefa reads (libefa/src/libefa/ftlib/shared.h), with their initial values
-- and the small accessors of libefa/src/libefa/ftlib/shared.c.
pub mod Options
pub mod Fids
use efa_libfabric_bench.Prelude.{
  ℕ, zero, suc, ◌+◌, ◌%◌, ◌^◌, Bool, true, false, Option, none, some, List, if◌then◌else◌, bit_or,
}
use efa_libfabric_bench.Fabric.{RmaIov}
use Fids.{Objects, Attributes}
use Options.{has, rx_cq, tx_cq, mask}

-- Text arguments and names are lists of bytes, without the final NUL.
abbrev pub Text : Type 0
Text = List ℕ

-- `enum ft_comp_method`
pub data CompMethod : Type 0 where
  spin sread waitset wait_fd yield : CompMethod

-- `enum ft_rma_opcodes`
pub data RmaOpcode : Type 0 where
  rma_read rma_write rma_writedata : RmaOpcode

-- `enum ft_atomic_opcodes`
pub data AtomicOpcode : Type 0 where
  atomic_base atomic_fetch atomic_compare : AtomicOpcode

-- `enum fi_hmem_iface`, as far as the library names it
pub data HmemIface : Type 0 where
  system cuda ze : HmemIface

pub data EpType : Type 0 where
  ep_unspec msg rdm dgram : EpType

pub data AddressFormat : Type 0 where
  format_unspec sockaddr sockaddr_in sockaddr_in6 sockaddr_ib : AddressFormat

-- The capability bits of `fi_info.caps`. libfabric gives each its own bit, so a set of flags is a
-- truth value for each.
pub record Caps : Type 0 where
  pub msg : Bool
  pub tagged : Bool
  pub rma : Bool
  pub atomic : Bool
  pub read : Bool
  pub write : Bool
  pub send : Bool
  pub recv : Bool
  pub remote_read : Bool
  pub remote_write : Bool

-- The parts of `struct fi_info` that are read.
pub record Info : Type 0 where
  pub caps : Caps
  pub local_mr_mode : Bool  -- mode & FI_LOCAL_MR
  pub rx_cq_data : Bool  -- rx_attr->mode & FI_RX_CQ_DATA
  pub tx_prefix : Bool  -- tx_attr->mode & FI_MSG_PREFIX
  pub rx_prefix : Bool  -- rx_attr->mode & FI_MSG_PREFIX
  pub msg_prefix_size : ℕ
  pub max_msg_size : ℕ
  pub mr_local : Bool  -- domain_attr->mr_mode & FI_MR_LOCAL
  pub mr_hmem : Bool  -- domain_attr->mr_mode & FI_MR_HMEM
  pub cq_data_size : ℕ
  pub ep_type : EpType
  pub attr : Attributes

-- `struct ft_opts`
pub record Opts : Type 0 where
  pub iterations : ℕ
  pub warmup_iterations : ℕ
  pub transfer_size : ℕ
  pub window_size : ℕ
  pub av_size : ℕ
  pub tx_cq_size : ℕ
  pub rx_cq_size : ℕ
  pub src_port : Option Text
  pub dst_port : Option Text
  pub src_addr : Option Text
  pub dst_addr : Option Text
  pub av_name : Option Text
  pub sizes_all : Bool  -- sizes_enabled is FT_ENABLE_ALL, else FT_DEFAULT_SIZE
  pub options : ℕ
  pub comp_method : CompMethod
  pub machr : Bool
  pub rma_op : RmaOpcode
  pub oob_port : Option Text
  pub num_connections : ℕ
  pub address_format : AddressFormat
  pub mr_local : Bool  -- mr_mode & FI_MR_LOCAL
  pub iface : HmemIface
  pub device : ℕ
  pub large_buffer_size_gbs : ℕ
  pub force_prefix : Bool

-- `struct ConnectionContext`. Queues and counters are numbers, 0 for `NULL`; a negative timeout is
-- `none`.
pub record Context : Type 0 where
  pub hints : Info
  pub fi : Info
  pub txcq : ℕ
  pub rxcq : ℕ
  pub txcntr : ℕ
  pub rxcntr : ℕ
  pub remote_fi_addr : ℕ
  pub buf : ℕ
  pub tx_buf : ℕ
  pub rx_buf : ℕ
  pub buf_size : ℕ
  pub tx_size : ℕ
  pub rx_size : ℕ
  pub tx_mr_size : ℕ
  pub rx_mr_size : ℕ
  pub tx_fd : ℕ
  pub rx_fd : ℕ
  pub timeout : Option ℕ
  pub remote_cq_data : ℕ
  pub tx_seq : ℕ
  pub rx_seq : ℕ
  pub tx_cq_cntr : ℕ
  pub rx_cq_cntr : ℕ
  pub remote : RmaIov
  pub opts : Opts
  pub ft_tag : ℕ
  pub comp_per_buf : ℕ
  pub objects : Objects

-- `init_opts` writes these fields and leaves the others as they are.
unfoldable pub init_opts : Opts → Opts
unfolding mask
init_opts o = record o {
  iterations = 1000;
  warmup_iterations = 10;
  transfer_size = 1024;
  window_size = 64;
  av_size = 1;
  tx_cq_size = 0;
  rx_cq_size = 0;
  sizes_all = false;
  rma_op = rma_write;
  options = bit_or (mask rx_cq) (mask tx_cq);
  oob_port = none;
  mr_local = true;
  iface = system;
  device = 0;
  address_format = format_unspec;
}

unfoldable pub ft_tx_prefix_size : Context → ℕ
ft_tx_prefix_size c = if c.fi.tx_prefix then c.fi.msg_prefix_size else 0

unfoldable pub ft_rx_prefix_size : Context → ℕ
ft_rx_prefix_size c = if c.fi.rx_prefix then c.fi.msg_prefix_size else 0

-- A `uint64_t` after `++`.
abbrev pub inc64 : ℕ → ℕ
inc64 n = (n + 1) % 2 ^ 64

-- A test of one bit, `ctx->opts.options & FT_OPT_…`.
abbrev pub opt : Context → ℕ → Bool
opt c k = has c.opts.options k
