-- ===== src/Context/Fids.antt =====
-- What a connection holds besides its numbers: the objects of libfabric, and the attributes with
-- which they are opened (struct ConnectionContext of libefa/src/libefa/ftlib/shared.h).
use efa_libfabric_bench.Prelude.{ℕ, Bool, true, Option, List, ◌==◌, if◌then◌else◌}

-- The fields of the connection that hold an object. `slot_mr` stands for the regions of the slots, which
-- `tx_ctx_arr` and `rx_ctx_arr` hold.
pub data Fid : Type 0 where
  mc alias_ep ep pep rxcq txcq rxcntr txcntr pollset mr av domain eq waitset fabric slot_mr : Fid

abbrev pub number : Fid → ℕ
number mc = 0
number alias_ep = 1
number ep = 2
number pep = 3
number rxcq = 4
number txcq = 5
number rxcntr = 6
number txcntr = 7
number pollset = 8
number mr = 9
number av = 10
number domain = 11
number eq = 12
number waitset = 13
number fabric = 14
number slot_mr = 15

abbrev pub same : Fid → Fid → Bool
same a b = number a == number b

-- `enum fi_wait_obj`, as far as the library names it
pub data WaitObj : Type 0 where
  wait_none wait_unspec wait_set wait_fd_obj wait_yield : WaitObj

-- `enum fi_cq_format`
pub data CqFormat : Type 0 where
  cq_unspec cq_context cq_tagged cq_data : CqFormat

-- `enum fi_av_type`
pub data AvType : Type 0 where
  av_unspec av_map av_table : AvType

-- The parts of `struct fi_cq_attr` that are set.
pub record CqAttr : Type 0 where
  pub format : CqFormat
  pub size : ℕ
  pub wait_obj : WaitObj

-- `struct fi_av_attr`
pub record AvAttr : Type 0 where
  pub kind : AvType
  pub count : ℕ
  pub name : Option (List ℕ)

-- `struct ft_context`: where a message of the window lies, and whether it has a region of its own.
pub record Slot : Type 0 where
  pub buf : ℕ
  pub has_mr : Bool

-- Of the objects: which fields are not NULL, and whether the region is `no_mr`, which is not
-- registered. A socket that is -1 is `none`. `has_fi` says that `fi` is not NULL.
pub record Objects : Type 0 where
  pub is_open : Fid → Bool
  pub is_no_mr : Bool
  pub has_fi : Bool
  pub cq_attr : CqAttr
  pub cntr_wait : WaitObj
  pub av_attr : AvAttr
  pub tx_ctx_arr : List Slot
  pub rx_ctx_arr : List Slot
  pub oob_sock : Option ℕ
  pub listen_sock : Option ℕ
  pub sock : Option ℕ

-- The parts of `struct fi_info` that only the set-up reads. The addresses are pointers.
pub record Attributes : Type 0 where
  pub tx_attr_size : ℕ
  pub rx_attr_size : ℕ
  pub av_type : AvType
  pub multicast : Bool  -- caps & FI_MULTICAST
  pub collective : Bool  -- caps & FI_COLLECTIVE
  pub mr_basic : Bool  -- mr_mode == FI_MR_BASIC
  pub mr_virt_addr : Bool  -- mr_mode & FI_MR_VIRT_ADDR
  pub mr_raw : Bool  -- mr_mode & FI_MR_RAW
  pub hmem : Bool  -- caps & FI_HMEM
  pub src_addr : ℕ
  pub src_addrlen : ℕ
  pub dest_addr : ℕ
  pub dest_addrlen : ℕ

-- The field of `x` is set.
abbrev pub holds : Fid → Objects → Objects
holds x o = record o { is_open = λ y. if same y x then true else o.is_open y }
