-- ===== src/Opening/Memory.antt =====
-- The memory for messages and its registration: `ft_alloc_msgs`, `ft_reg_mr`, `ft_alloc_ctx_array`
-- of libefa/src/libefa/ftlib/shared.c, and `ft_hmem_alloc`, `ft_hmem_memset` of hmem.c with the
-- functions for the memory of the system of hmem.h, which are the only ones in the table `hmem_ops`.
use efa_libfabric_bench.Prelude.{
  ℕ, zero, suc, ◌+◌, ◌*◌, true, false, List, [], ◌∷◌, ◌++◌, not, ◌&&◌, if◌then◌else◌, ◌==◌,
}
use efa_libfabric_bench.Fabric.{val, fail, enomem, Fabric, is_ok, is_negative}
use efa_libfabric_bench.Context.{Context, Info, HmemIface, system, cuda, ze, opt}
use efa_libfabric_bench.Context.Fids.{Fid, Slot, Objects, holds}
use efa_libfabric_bench.Context.Options
use efa_libfabric_bench.Context.Options.{set_flags, mask}
use efa_libfabric_bench.Machine.{Outcome, returns, fault, Step, ◌>>◌, then_update}
use efa_libfabric_bench.Access.{Access, registers, ft_info_to_mr_access}
use efa_libfabric_bench.Buffer.{ft_init_cq_data}
use efa_libfabric_bench.Buffer.Layout.{message_sizes, large_size, aligned_size, place_buffers}
use efa_libfabric_bench.Opening.{
  open_mr, Calls, open_object, when, with_objects, alloc_queues, open_ep,
}

abbrev pub ft_mr_key : ℕ
ft_mr_key = 0xC0DE

abbrev pub ft_tx_mr_key : ℕ
ft_tx_mr_key = 0xC0DF

abbrev pub ft_rx_mr_key : ℕ
ft_rx_mr_key = 0xFFFF

module _ {W : Type 0} (fab : Fabric W) where
  unfoldable pub hmem_init : HmemIface → Step W
  hmem_init system s = returns (val 0) s
  hmem_init cuda s = fault
  hmem_init ze s = fault

  -- The address goes where `assign` puts it, 0 if there is no memory.
  unfoldable pub hmem_alloc : HmemIface → ℕ → (ℕ → Context → Context) → Step W
  hmem_alloc system size assign s =
      let m = fab.malloc size s.world in
      returns (if m.ptr == 0 then fail enomem else val 0)
        (record { ctx = assign m.ptr s.ctx; world = m.next })
  hmem_alloc cuda size assign s = fault
  hmem_alloc ze size assign s = fault

  -- `memset`
  unfoldable pub set_bytes : (size buf value : ℕ) → W → W
  set_bytes zero buf value w = w
  set_bytes (suc size) buf value w = set_bytes size (buf + 1) value (fab.store buf value w)

  unfoldable pub hmem_memset : HmemIface → (buf value size : ℕ) → Step W
  hmem_memset system buf value size s =
      returns (val 0) (record s { world = set_bytes size buf value s.world })
  hmem_memset cuda buf value size s = fault
  hmem_memset ze buf value size s = fault

  -- `ft_init`
  unfoldable pub ft_init : Step W
  ft_init s =
      let flags =
        if opt s.ctx Options.enable_hmem
        then set_flags s.ctx.opts.options (mask Options.oob_addr_exch)
        else s.ctx.opts.options in
      hmem_init s.ctx.opts.iface (record s {
        ctx = record (s.ctx) {
          tx_seq = 0;
          rx_seq = 0;
          tx_cq_cntr = 0;
          rx_cq_cntr = 0;
          opts = record (s.ctx.opts) { options = flags };
        };
      })

module _ {W : Type 0} (fab : Fabric W) (calls : Calls W) where
  abbrev pub set_buf : ℕ → Context → Context
  set_buf p c = record c { buf = p }

  -- The memory itself, aligned to a page or not. `sysconf` may fail.
  unfoldable pub alloc_buffer : Step W
  alloc_buffer s =
      let page = calls.page_size s.world in
      let c = aligned_size page.size s.ctx in
      let m = calls.memalign page.size c.buf_size page.next in
      if opt s.ctx Options.align && not (opt s.ctx Options.use_device)
      then (if is_negative page.ret
          then returns page.ret (record s { world = page.next })
          else if is_ok m.ret
          then returns (val 0) (record { ctx = set_buf m.ptr c; world = m.next })
          else returns m.ret (record { ctx = c; world = m.next }))
      else hmem_alloc fab s.ctx.opts.iface s.ctx.buf_size set_buf s

  -- `ft_reg_mr`: the region is registered by `reg` where one is needed.
  unfoldable pub ft_reg_mr :
      (reg : (buf size : ℕ) → Access → (key : ℕ) → Step W)
      → (buf size : ℕ) → Access
      → (key : ℕ) → Step W
  ft_reg_mr reg buf size access key s =
      if registers s.ctx then reg buf size access key s else returns (val 0) s

  -- A registered region takes the place of `no_mr`.
  abbrev pub own_region : Context → Context
  own_region = with_objects (λ o. record (holds Fid.mr o) { is_no_mr = false })

  unfoldable pub reg_whole : (buf size : ℕ) → Access → (key : ℕ) → Step W
  reg_whole buf size access key s =
      let r = calls.create (open_mr buf size access key) s.world in
      if is_ok r.ret
      then returns r.ret (record { ctx = own_region s.ctx; world = r.next })
      else returns r.ret (record s { world = r.next })

  -- The region of a slot, which goes into `ctx_arr[i].mr`
  abbrev pub reg_one : (buf size : ℕ) → Access → (key : ℕ) → Step W
  reg_one buf size access key s =
      let r = calls.reg_slot buf size access key s.world in
      returns r.ret (record s { world = r.next })

  -- The loop over the window from slot `i` on; `got` are the slots before it, and `keep` puts them
  -- into the connection.
  unfoldable pub ctx_array_loop :
      (keep : List Slot → Context → Context)
      → (left i : ℕ) → (default_buf mr_size start_key : ℕ) → (got : List Slot) → Step W
  ctx_array_loop keep zero i default_buf mr_size start_key got s = then_update (keep got) s
  ctx_array_loop keep (suc left) i default_buf mr_size start_key got s =
      let m = fab.malloc mr_size s.world in
      let rest : Slot → Step W =
        λ x. ctx_array_loop keep left (i + 1) default_buf mr_size start_key (got ++ (x ∷ [])) in
      if not (opt s.ctx Options.alloc_mult_mr)
      then rest (record { buf = default_buf + mr_size * i; has_mr = s.ctx.objects.is_open Fid.mr })
          s
      else (hmem_alloc fab s.ctx.opts.iface mr_size (λ p c. c)
            >> ft_reg_mr reg_one m.ptr mr_size (ft_info_to_mr_access s.ctx.fi) (start_key + i)
            >> rest (record { buf = m.ptr; has_mr = registers s.ctx }))
          s

  -- `calloc` of the array, and with FT_OPT_ALLOC_MULT_MR of its buffers; of the latter the failure is
  -- not noticed, since the wrong pointer is tested, and the first write faults.
  unfoldable pub ft_alloc_ctx_array :
      (keep : List Slot → Context → Context) → (default_buf mr_size start_key : ℕ) → Step W
  ft_alloc_ctx_array keep default_buf mr_size start_key s =
      let n = s.ctx.opts.window_size in
      let a = fab.malloc n s.world in
      let b = fab.malloc n a.next in
      let fill = ctx_array_loop keep n 0 default_buf mr_size start_key [] in
      if a.ptr == 0
      then returns (fail enomem) (record s { world = a.next })
      else if not (opt s.ctx Options.alloc_mult_mr)
      then fill (record s { world = a.next })
      else if b.ptr == 0 && not (n == 0)
      then fault
      else fill (record s { world = b.next })

  -- Any failure is -FI_ENOMEM to the caller.
  abbrev pub as_enomem : Step W → Step W
  as_enomem m s = elim (m s) [
    | returns r t ↦ returns (if is_ok r then val 0 else fail enomem) t
    | Outcome.out_of_rounds ↦ Outcome.out_of_rounds
    | fault ↦ fault
  ]

  -- `ctx->mr = &ctx->no_mr`
  abbrev pub no_region : Objects → Objects
  no_region o = record (holds Fid.mr o) { is_no_mr = true }

  abbrev pub prepare_messages : Context → Context
  prepare_messages c =
      with_objects no_region
        (record (place_buffers c.buf c) { remote_cq_data = ft_init_cq_data c.fi })

  -- The parts of `ft_alloc_msgs`, in their order
  unfoldable pub set_sizes : Step W
  set_sizes = then_update (λ c. large_size (message_sizes c))

  unfoldable pub clear_buffer : Step W
  clear_buffer s = hmem_memset fab s.ctx.opts.iface s.ctx.buf 0 s.ctx.buf_size s

  unfoldable pub place_messages : Step W
  place_messages = then_update prepare_messages

  -- `ft_mr_alloc_func` is NULL: nothing sets it.
  unfoldable pub reg_buffer : Step W
  reg_buffer s =
      ft_reg_mr reg_whole s.ctx.buf s.ctx.buf_size (ft_info_to_mr_access s.ctx.fi) ft_mr_key s

  unfoldable pub reg_messages : Step W
  reg_messages = when calls (λ c. not (opt c Options.skip_reg_mr)) reg_buffer

  unfoldable pub alloc_tx_array : Step W
  alloc_tx_array = as_enomem (λ s.
      ft_alloc_ctx_array (λ xs. with_objects (λ o. record o { tx_ctx_arr = xs })) s.ctx.tx_buf
        s.ctx.tx_mr_size ft_tx_mr_key s)

  unfoldable pub alloc_rx_array : Step W
  alloc_rx_array = as_enomem (λ s.
      ft_alloc_ctx_array (λ xs. with_objects (λ o. record o { rx_ctx_arr = xs })) s.ctx.rx_buf
        s.ctx.rx_mr_size ft_rx_mr_key s)

  unfoldable pub ft_alloc_msgs : Step W
  ft_alloc_msgs =
      when calls (λ c. not (opt c Options.skip_msg_alloc))
        (set_sizes >> alloc_buffer >> clear_buffer >> place_messages >> reg_messages
          >> alloc_tx_array >> alloc_rx_array)

  unfoldable pub ft_alloc_ep_res : Info → Step W
  ft_alloc_ep_res fi = ft_alloc_msgs >> alloc_queues calls fi

  unfoldable pub ft_alloc_active_res : Info → Step W
  ft_alloc_active_res fi = ft_alloc_ep_res fi >> open_object calls open_ep
