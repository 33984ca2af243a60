-- ===== src/Transfer.antt =====
-- The operations that post messages and remote accesses, of libefa/src/libefa/ftlib/shared.c:
-- below, the messages; in the children, remote memory access, and what is proved of them.
-- The endpoint and the descriptor of the memory region are passed on as they are and left out.
pub mod Remote
pub mod Balance
pub mod Tags
use efa_libfabric_bench.Prelude.{
  ℕ, zero, suc, ◌+◌, Bool, true, false, if◌then◌else◌, ◌==◌, not, ◌&&◌, max,
}
use efa_libfabric_bench.Fabric.{
  Ret, val, fail, Request, Fabric, Buffer, Handle, connection, tx_ctx, rx_ctx, Flag, plain,
  completion, more, is_ok,
}
use efa_libfabric_bench.Context.{Context, ft_tx_prefix_size, ft_rx_prefix_size, opt, inc64}
use efa_libfabric_bench.Context.Options
use efa_libfabric_bench.Machine.{
  State, Outcome, returns, out_of_rounds, fault, Step, ◌>>◌, then_update,
}
use efa_libfabric_bench.Post.{Side, tx, rx, ft_post}
use efa_libfabric_bench.Buffer.{ft_fill_buf, ft_check_buf}
use efa_libfabric_bench.Completion.Get.{ft_get_tx_comp, ft_get_rx_comp}

abbrev pub ft_max_ctrl_msg : ℕ
ft_max_ctrl_msg = 256

-- `tag ? tag : otherwise`
abbrev pub or_else : ℕ → ℕ → ℕ
or_else tag otherwise = if tag == 0 then otherwise else tag

-- The request of `ft_post_tx_buf`; a `cq_data` of 0 is NO_CQ_DATA.
unfoldable pub tx_request :
    Context → (dest size cq_data : ℕ) → Handle → (op_buf op_tag : ℕ) → Request
tx_request c dest size cq_data ctxptr op_buf op_tag =
    let buf : Buffer = record { base = op_buf; len = size + ft_tx_prefix_size c } in
    if c.hints.caps.tagged
    then (if not (cq_data == 0)
        then Request.tsenddata buf cq_data dest (or_else op_tag c.tx_seq) ctxptr
        else Request.tsend buf dest (or_else op_tag c.tx_seq) ctxptr)
    else if not (cq_data == 0)
    then Request.senddata buf cq_data dest ctxptr
    else Request.send buf dest ctxptr

-- The request of `ft_sendmsg`, from the transmit buffer.
unfoldable pub sendmsg_request : Context → (dest size : ℕ) → Handle → Flag → Request
sendmsg_request c dest size ctxptr flags =
    let buf : Buffer = record { base = c.tx_buf; len = size } in
    if c.hints.caps.tagged
    then Request.tsendmsg buf dest (or_else c.ft_tag c.tx_seq) ctxptr flags
    else Request.sendmsg buf dest ctxptr flags

-- The request of `ft_recvmsg`, into the receive buffer; its tag is that of the next send.
unfoldable pub recvmsg_request : Context → (src size : ℕ) → Handle → Flag → Request
recvmsg_request c src size ctxptr flags =
    let buf : Buffer = record { base = c.rx_buf; len = size } in
    if c.hints.caps.tagged
    then Request.trecvmsg buf src (or_else c.ft_tag c.tx_seq) ctxptr flags
    else Request.recvmsg buf src ctxptr flags

unfoldable pub inject_request : Context → (dest size : ℕ) → Request
inject_request c dest size =
    let buf : Buffer = record { base = c.tx_buf; len = size + ft_tx_prefix_size c } in
    if c.hints.caps.tagged then Request.tinject buf dest c.tx_seq else Request.inject buf dest

-- The request of `ft_post_rx_buf`. The context that it passes is the connection: the argument
-- `ctxptr` is not used.
unfoldable pub rx_request : Context → (size : ℕ) → Handle → (op_buf op_tag : ℕ) → Request
rx_request c size ctxptr op_buf op_tag =
    let buf : Buffer = record {
      base = op_buf;
      len = max size ft_max_ctrl_msg + ft_rx_prefix_size c;
    } in
    if c.hints.caps.tagged
    then Request.trecv buf c.remote_fi_addr (or_else op_tag c.rx_seq) connection
    else Request.recv buf 0 connection

abbrev pub count_tx : Context → Context
count_tx c = record c { tx_cq_cntr = inc64 c.tx_cq_cntr }

module _ {W : Type 0} (fab : Fabric W) (rounds : ℕ) where
  unfoldable pub ft_post_tx_buf : (dest size cq_data : ℕ) → Handle → (op_buf op_tag : ℕ) → Step W
  ft_post_tx_buf dest size cq_data ctxptr op_buf op_tag s =
      ft_post fab rounds tx (tx_request s.ctx dest size cq_data ctxptr op_buf op_tag) s

  -- One attempt; what the provider answers is handed on, -FI_EAGAIN included.
  unfoldable pub ft_sendmsg : (dest size : ℕ) → Handle → Flag → Step W
  ft_sendmsg dest size ctxptr flags s =
      let p = fab.post (sendmsg_request s.ctx dest size ctxptr flags) s.world in
      if is_ok p.ret
      then returns (val 0)
          (record { ctx = record s.ctx { tx_seq = inc64 s.ctx.tx_seq }; world = p.next })
      else returns p.ret (record s { world = p.next })

  unfoldable pub ft_recvmsg : (src size : ℕ) → Handle → Flag → Step W
  ft_recvmsg src size ctxptr flags s =
      let p = fab.post (recvmsg_request s.ctx src size ctxptr flags) s.world in
      returns p.ret (record s { world = p.next })

  unfoldable pub ft_post_tx : (dest size cq_data : ℕ) → Handle → Step W
  ft_post_tx dest size cq_data ctxptr s =
      if opt s.ctx Options.selective_comp
      then ft_sendmsg dest (size + ft_tx_prefix_size s.ctx) ctxptr completion s
      else if opt s.ctx Options.fi_more
      then ft_sendmsg dest (size + ft_tx_prefix_size s.ctx) ctxptr more s
      else ft_post_tx_buf dest size cq_data ctxptr s.ctx.tx_buf s.ctx.ft_tag s

  -- A message with no completion is counted at once.
  unfoldable pub ft_post_tx_selective_comp : (dest size : ℕ) → Handle → Bool → Step W
  ft_post_tx_selective_comp dest size ctxptr enable_completion s =
      let buf : Buffer = record { base = s.ctx.tx_buf; len = size + ft_tx_prefix_size s.ctx } in
      let flags = if enable_completion then completion else plain in
      (ft_post fab rounds tx (Request.sendmsg buf dest ctxptr flags)
          >> (if enable_completion then then_update (λ c. c) else then_update count_tx))
        s

  -- In tests with data verification the buffer is filled first.
  unfoldable pub fill_if_active : ℕ → Step W
  fill_if_active size s =
      if opt s.ctx Options.verify_data && opt s.ctx Options.active
      then ft_fill_buf fab (s.ctx.tx_buf + ft_tx_prefix_size s.ctx) size s
      else returns (val 0) s

  unfoldable pub ft_tx : (dest size : ℕ) → Handle → Step W
  ft_tx dest size ctxptr =
      fill_if_active size
      >> ft_post_tx dest size 0 ctxptr
      >> (λ s. ft_get_tx_comp fab rounds s.ctx.tx_seq s)

  unfoldable pub ft_post_inject : (dest size : ℕ) → Step W
  ft_post_inject dest size s =
      (ft_post fab rounds tx (inject_request s.ctx dest size) >> then_update count_tx) s

  unfoldable pub ft_inject : (dest size : ℕ) → Step W
  ft_inject dest size = fill_if_active size >> ft_post_inject dest size

  unfoldable pub ft_post_rx_buf : (size : ℕ) → Handle → (op_buf op_tag : ℕ) → Step W
  ft_post_rx_buf size ctxptr op_buf op_tag s =
      ft_post fab rounds rx (rx_request s.ctx size ctxptr op_buf op_tag) s

  unfoldable pub ft_post_rx : (size : ℕ) → Handle → Step W
  ft_post_rx size ctxptr s = ft_post_rx_buf size ctxptr s.ctx.rx_buf s.ctx.ft_tag s

  unfoldable pub check_if_active : ℕ → Step W
  check_if_active size s =
      if opt s.ctx Options.verify_data && opt s.ctx Options.active
      then ft_check_buf fab (s.ctx.rx_buf + ft_rx_prefix_size s.ctx) size s
      else returns (val 0) s

  -- The next receive is posted for the largest message, whatever `size` is.
  unfoldable pub ft_rx : ℕ → Step W
  ft_rx size =
      (λ s. ft_get_rx_comp fab rounds s.ctx.rx_seq s)
      >> check_if_active size
      >> (λ s. ft_post_rx s.ctx.rx_size rx_ctx s)
