-- ===== src/Transfer/Remote.antt =====
-- Remote memory access and atomics: `ft_post_rma`, `ft_rma`, `ft_post_rma_inject`,
-- `ft_post_rma_selective_comp` and `ft_post_atomic` of libefa/src/libefa/ftlib/shared.c.
use efa_libfabric_bench.Prelude.{ℕ, ◌+◌, ◌/◌, Bool, if◌then◌else◌, ◌==◌}
use efa_libfabric_bench.Fabric.{
  val, Request, Fabric, Handle, plain, completion, RmaIov, Buffer, AtomicCall, atomic, fetch_atomic,
  compare_atomic, exit_failure,
}
use efa_libfabric_bench.Context.{
  Context, RmaOpcode, rma_read, rma_write, rma_writedata, AtomicOpcode, atomic_base, atomic_fetch,
  atomic_compare, inc64,
}
use efa_libfabric_bench.Machine.{returns, out_of_rounds, fault, Step, ◌>>◌, then_update}
use efa_libfabric_bench.Post.{tx, ft_post}
use efa_libfabric_bench.Completion.Get.{ft_get_tx_comp, ft_get_rx_comp}
use efa_libfabric_bench.Transfer.{ft_rx, count_tx}

-- The local side of a write or a read; the length is the transfer size of the options.
abbrev pub tx_iov : Context → Buffer
tx_iov c = record { base = c.tx_buf; len = c.opts.transfer_size }

abbrev pub rx_iov : Context → Buffer
rx_iov c = record { base = c.rx_buf; len = c.opts.transfer_size }

unfoldable pub rma_request : Context → RmaOpcode → RmaIov → Handle → Request
rma_request c rma_write r h = Request.write (tx_iov c) c.remote_fi_addr r.addr r.key h
rma_request c rma_writedata r h =
    Request.writedata (tx_iov c) c.remote_cq_data c.remote_fi_addr r.addr r.key h
rma_request c rma_read r h = Request.read (rx_iov c) c.remote_fi_addr r.addr r.key h

-- `enum fi_datatype`: the types of `datatype_size_table`, and any other.
pub data Datatype : Type 0 where
  int8 uint8 int16 uint16 int32 uint32 int64 uint64 float double long_double unlisted : Datatype

-- The sizes on x86-64.
unfoldable pub datatype_to_size : Datatype → ℕ
datatype_to_size int8 = 1
datatype_to_size uint8 = 1
datatype_to_size int16 = 2
datatype_to_size uint16 = 2
datatype_to_size int32 = 4
datatype_to_size uint32 = 4
datatype_to_size int64 = 8
datatype_to_size uint64 = 8
datatype_to_size float = 4
datatype_to_size double = 8
datatype_to_size long_double = 16
datatype_to_size unlisted = 0

abbrev atomic_call : AtomicOpcode → AtomicCall
atomic_call atomic_base = atomic
atomic_call atomic_fetch = fetch_atomic
atomic_call atomic_compare = compare_atomic

module _ {W : Type 0} (fab : Fabric W) (rounds : ℕ) where
  unfoldable pub ft_post_rma : RmaOpcode → RmaIov → Handle → Step W
  ft_post_rma op remote context s = ft_post fab rounds tx (rma_request s.ctx op remote context) s

  -- A write with data also waits for the data of the peer.
  unfoldable pub await_data : RmaOpcode → Step W
  await_data rma_writedata s =
      if s.ctx.fi.rx_cq_data
      then ft_rx fab rounds 0 s
      else elim (ft_get_rx_comp fab rounds s.ctx.rx_seq s) [
        | returns r t ↦
            returns r (record t { ctx = record (t.ctx) { rx_seq = inc64 t.ctx.rx_seq } })
        | out_of_rounds ↦ out_of_rounds
        | fault ↦ fault
      ]
  await_data rma_write s = returns (val 0) s
  await_data rma_read s = returns (val 0) s

  unfoldable pub ft_rma : RmaOpcode → RmaIov → Handle → Step W
  ft_rma op remote context =
      ft_post_rma op remote context
      >> await_data op
      >> (λ s. ft_get_tx_comp fab rounds s.ctx.tx_seq s)

  -- A write is posted with a key one above the key of the remote region.
  unfoldable pub ft_post_rma_inject : RmaOpcode → RmaIov → Step W
  ft_post_rma_inject rma_write remote s =
      (ft_post fab rounds tx
            (Request.inject_write (tx_iov s.ctx) s.ctx.remote_fi_addr remote.addr (remote.key + 1))
          >> then_update count_tx)
        s
  ft_post_rma_inject rma_writedata remote s =
      (ft_post fab rounds tx (
            Request.inject_writedata (tx_iov s.ctx) s.ctx.remote_cq_data s.ctx.remote_fi_addr
              remote.addr remote.key)
          >> then_update count_tx)
        s
  ft_post_rma_inject rma_read remote s = returns exit_failure s

  unfoldable pub ft_post_rma_selective_comp : RmaOpcode → RmaIov → Handle → Bool → Step W
  ft_post_rma_selective_comp op remote context enable_completion s =
      let iov = tx_iov s.ctx in
      let there : RmaIov = record { addr = remote.addr; len = iov.len; key = remote.key } in
      let flags = if enable_completion then completion else plain in
      let count : Step W =
        if enable_completion then then_update (λ c. c) else then_update count_tx in
      elim op [
        | rma_write ↦
            (ft_post fab rounds tx (Request.writemsg iov s.ctx.remote_fi_addr there context flags)
                >> count)
              s
        | rma_read ↦
            (ft_post fab rounds tx (Request.readmsg iov s.ctx.remote_fi_addr there context flags)
                >> count)
              s
        | rma_writedata ↦ returns exit_failure s
      ]

  unfoldable pub ft_post_atomic : AtomicOpcode → RmaIov → Datatype → Handle → Step W
  ft_post_atomic opcode remote datatype context s =
      let size = datatype_to_size datatype in
      if size == 0
      then returns exit_failure s
      else ft_post fab rounds tx
          (Request.atomic_op (atomic_call opcode) s.ctx.buf (s.ctx.opts.transfer_size / size)
            s.ctx.remote_fi_addr remote.addr remote.key context)
          s
