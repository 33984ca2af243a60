-- ===== src/MultiRecv.antt =====
-- Receives into two halves of one buffer that take many messages each: `alloc_ep_res_multi_recv`,
-- `repost_multi_recv` and `wait_for_multi_recv_completion` of
-- libefa/src/libefa/ftlib/shared.c.
pub mod Halves
use efa_libfabric_bench.Prelude.{
  ℕ, zero, suc, ◌+◌, ◌*◌, ◌/◌, ◌%◌, ◌^◌, Bool, true, false, Option, none, not, ◌&&◌, ◌||◌, ltb,
  ◌==◌, min, if◌then◌else◌,
}
use efa_libfabric_bench.Fabric.{
  Ret, val, fail, errno, eio, Fabric, Request, Handle, multi_recv_ctx, Completion, is_ok,
  is_negative, is_eagain,
}
use efa_libfabric_bench.Context.{Context, Opts, opt}
use efa_libfabric_bench.Context.Options
use efa_libfabric_bench.Machine.{State, Outcome, returns, out_of_rounds, fault, Step, ◌>>◌, ◌>>=◌}
use efa_libfabric_bench.Buffer.{ft_check_buf}

-- MAX_XFER_SIZE
abbrev pub max_xfer_size : ℕ
max_xfer_size = 2 ^ 20

-- The sizes: `MIN(ctx->tx_size * 128, MAX_XFER_SIZE * 4)`, and the messages that half of it holds.
-- A transfer size of 0 faults in the source, here it gives 0.
unfoldable pub multi_recv_sizes : Context → Context
multi_recv_sizes c =
    let size = c.opts.transfer_size in
    let rx = min (size * 128 % 2 ^ 64) (max_xfer_size * 4) in
    record c { tx_size = size; rx_size = rx; comp_per_buf = rx / 2 / size }

abbrev pub is_multi_recv_ctx_1 : Handle → Bool
is_multi_recv_ctx_1 (multi_recv_ctx (suc zero)) = true
is_multi_recv_ctx_1 _ = false

-- `comp.op_context == &ctx->ctx_multi_recv[1]`
unfoldable pub chunk_of : Completion → ℕ
chunk_of comp = if is_multi_recv_ctx_1 comp.op_context then 1 else 0

-- The half that a receive is posted for.
unfoldable pub chunk_request : Context → ℕ → Request
chunk_request c chunk =
    Request.recv (record { base = c.rx_buf + c.rx_size / 2 * chunk; len = c.rx_size / 2 }) 0
      (multi_recv_ctx chunk)

module _ {W : Type 0} (fab : Fabric W) where
  -- `reg` is `fi_mr_reg`: the start, the size, whether it is for sends, and the key.
  module _ (reg : ℕ → ℕ → Bool → ℕ → W → record { ret : Ret; next : W }) where
    -- What follows a registration or an allocation that succeeded.
    unfoldable pub register : ℕ → ℕ → Bool → ℕ → Step W
    register p size sends key s =
        let r = reg p size sends key s.world in returns r.ret (record s { world = r.next })

    unfoldable pub alloc_rx : Step W
    unfolding register
    alloc_rx s =
        let d = multi_recv_sizes s.ctx in
        let m = fab.malloc d.rx_size s.world in
        let c : Context = record d { rx_buf = m.ptr } in
        let t : State W = record { ctx = c; world = m.next } in
        if m.ptr == 0 then returns (fail (errno 1)) t else register m.ptr d.rx_size false 0xC0DF t

    unfoldable pub alloc_ep_res_multi_recv : Step W
    unfolding register alloc_rx
    alloc_ep_res_multi_recv s =
        let size = s.ctx.opts.transfer_size in
        let m = fab.malloc size s.world in
        let t : State W = record {
          ctx = record s.ctx { tx_size = size; tx_buf = m.ptr };
          world = m.next;
        } in
        if ltb s.ctx.fi.max_msg_size size
        then returns (fail (errno 1)) (record s { ctx = record s.ctx { tx_size = size } })
        else if m.ptr == 0
        then returns (fail (errno 1)) t
        else (register m.ptr size true 0xC0DE >> alloc_rx) t

  unfoldable pub repost_multi_recv : ℕ → Step W
  repost_multi_recv chunk s =
      let p = fab.post (chunk_request s.ctx chunk) s.world in
      returns p.ret (record s { world = p.next })

  -- A completion of a receive: its length and its data.
  unfoldable pub check_message : Completion → Step W
  check_message comp s =
      if not (comp.len == s.ctx.opts.transfer_size)
      then returns (fail eio) s
      else if opt s.ctx Options.verify_data && opt s.ctx Options.active
      then (ft_check_buf fab comp.buf s.ctx.opts.transfer_size
            >>= (λ r t. returns (if is_ok r then val 0 else fail eio) t))
          s
      else returns (val 0) s

  -- The end of a half: how many messages it took, and the new receive for it.
  unfoldable pub finish_half : ℕ → Completion → Step W
  finish_half per_buf_cnt comp s =
      if not (per_buf_cnt == s.ctx.comp_per_buf)
      then returns (fail eio) s
      else repost_multi_recv (chunk_of comp) s

  -- What one completion adds to the counts, and what is checked of it.
  unfoldable pub handle_completion : ℕ → Completion → Step W
  handle_completion per_buf_cnt comp =
      (λ s. if comp.is_recv then check_message comp s else returns (val 0) s)
      >> (λ s. if comp.is_multi_recv then finish_half per_buf_cnt comp s else returns (val 0) s)

  -- The count of messages in the half, after the completion.
  unfoldable pub next_count : ℕ → Completion → ℕ
  next_count n comp = if comp.is_multi_recv then 0 else if comp.is_recv then suc n else n

  -- The loop, while `left` completions are missing. The read is of up to 64 entries; the entry that
  -- is looked at is one.
  unfoldable pub multi_recv_loop : ℕ → ℕ → ℕ → Step W
  multi_recv_loop n zero per_buf_cnt s = returns (val 0) s
  multi_recv_loop zero (suc left) per_buf_cnt s = out_of_rounds
  multi_recv_loop (suc n) (suc left) per_buf_cnt s =
      let r = fab.cq_sread s.ctx.rxcq 64 s.ctx.timeout s.world in
      let t : State W = record s { world = r.next } in
      let counted = if r.comp.is_recv then suc per_buf_cnt else per_buf_cnt in
      let remaining = if r.comp.is_recv then left else suc left in
      let busy = multi_recv_loop n (suc left) per_buf_cnt t in
      if is_eagain r.ret
      then busy
      else if is_negative r.ret
      then returns r.ret t
      else (handle_completion counted r.comp
            >> (λ u. multi_recv_loop n remaining (next_count per_buf_cnt r.comp) u))
          t

  unfoldable pub wait_for_multi_recv_completion : ℕ → ℕ → Step W
  wait_for_multi_recv_completion n num_completions = multi_recv_loop n num_completions 0
