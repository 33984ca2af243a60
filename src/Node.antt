-- ===== src/Node.antt =====
-- `libefa::Node` with its two kinds, `libefa::Client` and `libefa::Server`
-- (libefa/src/libefa/Node.cpp, Client.cpp, Server.cpp): each method is a step of the connection.
pub mod Setup
pub mod Timeout
use efa_libfabric_bench.Prelude.{ℕ, zero, suc, ◌+◌, ◌-◌, ◌%◌, ◌^◌, Bool, Option, if◌then◌else◌, ltb}
use efa_libfabric_bench.Fabric.{
  Ret, val, fail, Fabric, Completion, Handle, null, tx_ctx, rx_ctx, RmaIov, is_negative,
}
use efa_libfabric_bench.Fabric.Contract.{taken}
use efa_libfabric_bench.Context.{Context, Opts, ft_tx_prefix_size}
use efa_libfabric_bench.Machine.{State, Outcome, returns, out_of_rounds, fault, Step, ◌>>◌}
use efa_libfabric_bench.Buffer.{ft_fill_buf}
use efa_libfabric_bench.Completion.Get.{ft_get_tx_comp, ft_get_rx_comp}
use efa_libfabric_bench.Transfer.{
  ft_post_tx, ft_post_tx_selective_comp, ft_post_tx_buf, ft_inject, ft_post_rx_buf, ft_post_rx,
}
use efa_libfabric_bench.Transfer.Remote.{
  ft_post_rma, ft_post_rma_inject, ft_post_rma_selective_comp,
}
use efa_libfabric_bench.MultiRecv.{
  alloc_ep_res_multi_recv, repost_multi_recv, wait_for_multi_recv_completion,
}

-- The transfer size of the options.
abbrev pub with_size : ℕ → Context → Context
with_size size c = record c { opts = record (c.opts) { transfer_size = size } }

-- Another timeout in the connection.
abbrev pub with_timeout : {W : Type 0} → Option ℕ → State W → State W
with_timeout o s = record s { ctx = record (s.ctx) { timeout = o } }

module _ {W : Type 0} (fab : Fabric W) (rounds : ℕ) where
  -- The result of `fi_setopt` for FI_OPT_MIN_MULTI_RECV is that of `setopt`, and `reg` is
  -- `fi_mr_reg`.
  unfoldable pub init_multi_recv :
      (reg : ℕ → ℕ → Bool → ℕ → W → record { ret : Ret; next : W })
      → (setopt : ℕ → W → record { ret : Ret; next : W }) → Step W
  init_multi_recv reg setopt =
      alloc_ep_res_multi_recv fab reg
      >> (λ s. let r = setopt s.ctx.tx_size s.world in returns r.ret (record s { world = r.next }))
      >> repost_multi_recv fab 0
      >> repost_multi_recv fab 1

  unfoldable pub post_multi_recv : ℕ → Step W
  post_multi_recv n = wait_for_multi_recv_completion fab rounds n

  unfoldable pub init_tx_buffer : ℕ → Step W
  init_tx_buffer size s =
      let c : Context = with_size size s.ctx in
      ft_fill_buf fab (c.tx_buf + ft_tx_prefix_size c) size (record s { ctx = c })

  unfoldable pub post_tx : Step W
  post_tx s = ft_post_tx fab rounds s.ctx.remote_fi_addr s.ctx.opts.transfer_size 0 tx_ctx s

  unfoldable pub post_tx_selective_comp : Bool → Step W
  post_tx_selective_comp enable s =
      ft_post_tx_selective_comp fab rounds s.ctx.remote_fi_addr s.ctx.opts.transfer_size tx_ctx
        enable s

  unfoldable pub post_tx_buffer : ℕ → Step W
  post_tx_buffer buffer s =
      ft_post_tx_buf fab rounds s.ctx.remote_fi_addr s.ctx.opts.transfer_size 0 tx_ctx buffer
        s.ctx.ft_tag s

  unfoldable pub get_tx_completion : Step W
  get_tx_completion s = ft_get_tx_comp fab rounds s.ctx.tx_seq s

  -- The timeout of the context is replaced for the call.
  unfoldable pub get_tx_completion_with_timeout : Option ℕ → Step W
  get_tx_completion_with_timeout timeout s =
      elim (ft_get_tx_comp fab rounds s.ctx.tx_seq (with_timeout timeout s)) [
        | returns r t ↦ returns r (with_timeout s.ctx.timeout t)
        | out_of_rounds ↦ out_of_rounds
        | fault ↦ fault
      ]

  -- `n` is a number modulo 2 ^ 64, as the sum is.
  unfoldable pub get_n_tx_completion : ℕ → Step W
  get_n_tx_completion n s = ft_get_tx_comp fab rounds ((s.ctx.tx_cq_cntr + n) % 2 ^ 64) s

  unfoldable pub node_tx : Step W
  node_tx = post_tx >> get_tx_completion

  unfoldable pub node_inject : Step W
  node_inject s = ft_inject fab rounds s.ctx.remote_fi_addr s.ctx.opts.transfer_size s

  unfoldable pub get_rx_completion : Step W
  get_rx_completion s = ft_get_rx_comp fab rounds s.ctx.rx_seq s

  -- The loop of `getNRxCompletion`, while `left` completions are missing: it reads up to all of
  -- them, and looks at none.
  unfoldable pub n_rx_loop : ℕ → ℕ → Step W
  n_rx_loop n zero s = returns (val 0) s
  n_rx_loop zero (suc left) s = out_of_rounds
  n_rx_loop (suc n) (suc left) s =
      let r = fab.cq_sread s.ctx.rxcq (suc left) s.ctx.timeout s.world in
      let rest = n_rx_loop n (suc left - taken r.ret) (record s { world = r.next }) in
      if is_negative r.ret then returns r.ret (record s { world = r.next }) else rest

  unfoldable pub get_n_rx_completion : ℕ → Step W
  get_n_rx_completion n = n_rx_loop rounds n

  unfoldable pub post_rx_buffer : ℕ → Step W
  post_rx_buffer buffer s = ft_post_rx_buf fab rounds s.ctx.rx_size rx_ctx buffer s.ctx.ft_tag s

  unfoldable pub node_rx : Step W
  node_rx = get_rx_completion >> (λ s. ft_post_rx fab rounds s.ctx.rx_size rx_ctx s)

  unfoldable pub post_rma : RmaIov → Step W
  post_rma iov s = ft_post_rma fab rounds s.ctx.opts.rma_op iov null s

  unfoldable pub post_rma_inject : Step W
  post_rma_inject s = ft_post_rma_inject fab rounds s.ctx.opts.rma_op s.ctx.remote s

  unfoldable pub post_rma_selective_comp : Bool → Step W
  post_rma_selective_comp enable s =
      ft_post_rma_selective_comp fab rounds s.ctx.opts.rma_op s.ctx.remote null enable s

  unfoldable pub node_rma : Step W
  node_rma = (λ s. post_rma s.ctx.remote s) >> get_tx_completion

  -- Reads up to `n` completions of a queue; what they say is dropped.
  unfoldable pub fi_cq_read : ℕ → ℕ → State W → record { ret : Ret; next : State W }
  fi_cq_read cq n s =
      let r = fab.cq_read cq n s.world in record { ret = r.ret; next = record s { world = r.next } }
