-- ===== src/Opening/Address.antt =====
-- The addresses of the two ends (libefa/src/libefa/ftlib/shared.c): `ft_av_insert`,
-- `ft_exchange_addresses_oob`, `ft_init_av`, `ft_init_av_dst_addr`, `ft_init_av_addr`,
-- `ft_accept_next_client` and `ft_init_fabric`.
use efa_libfabric_bench.Prelude.{
  ℕ, zero, suc, ◌+◌, Bool, true, false, none, some, List, [], ◌∷◌, not, ◌&&◌, ◌==◌, if◌then◌else◌,
}
use efa_libfabric_bench.Fabric.{val, fail, errno, Fabric, tx_ctx, rx_ctx, is_ok, is_negative}
use efa_libfabric_bench.Context.{Context, opt, inc64, ft_tx_prefix_size, ft_rx_prefix_size}
use efa_libfabric_bench.Context.Fids.{av_unspec, av_map, av_table}
use efa_libfabric_bench.Context.Options
use efa_libfabric_bench.Machine.{State, returns, out_of_rounds, Step, ◌>>◌, then_update}
use efa_libfabric_bench.Socket.{Sockets, Exchange, ended, endless, ft_sock_send, ft_sock_recv}
use efa_libfabric_bench.Transfer.{ft_tx, ft_rx, ft_post_rx, ft_max_ctrl_msg}
use efa_libfabric_bench.Completion.Get.{ft_get_rx_comp}
use efa_libfabric_bench.Opening.{Calls, ft_open_fabric_res}
use efa_libfabric_bench.Opening.Memory.{ft_init, ft_alloc_active_res}
use efa_libfabric_bench.Opening.Endpoint.{ft_enable_ep_recv, post_first_rx}
use efa_libfabric_bench.Opening.Oob.{Net, ft_init_oob}
use efa_libfabric_bench.Opening.Connect.{set_fi, given, ft_getinfo, fork_if_asked}

-- Where the addresses of an endpoint lie in messages.
abbrev pub tx_address : Context → ℕ
tx_address c = c.tx_buf + ft_tx_prefix_size c

abbrev pub rx_address : Context → ℕ
rx_address c = c.rx_buf + ft_rx_prefix_size c

abbrev pub is_table : Context → Bool
is_table c = elim c.fi.attr.av_type [ av_table ↦ true | av_map ↦ false | av_unspec ↦ false ]

abbrev pub set_remote : ℕ → Context → Context
set_remote a c = record c { remote_fi_addr = a }

-- The sequence number goes on where no receive was posted.
unfoldable pub set_rx_seq_close : Context → Context
set_rx_seq_close c =
    if not c.fi.caps.msg && not c.fi.caps.tagged && given c.opts.oob_port
    then record c { rx_seq = inc64 c.rx_seq }
    else c

module _ {W : Type 0} (fab : Fabric W) (calls : Calls W) where
  unfoldable pub load_bytes : (len addr : ℕ) → W → List ℕ
  load_bytes zero addr w = []
  load_bytes (suc len) addr w = fab.load addr w ∷ load_bytes len (addr + 1) w

  unfoldable pub store_bytes : List ℕ → (addr : ℕ) → W → W
  store_bytes [] addr w = w
  store_bytes (x ∷ xs) addr w = store_bytes xs (addr + 1) (fab.store addr x w)

  -- One address is inserted; `keeps` says whether `fi_addr` is passed.
  unfoldable pub ft_av_insert : (keeps : Bool) → (addr : ℕ) → Step W
  ft_av_insert keeps addr s =
      let r = calls.av_insert addr s.world in
      let t : State W = record {
        ctx = if keeps then set_remote r.fi_addr s.ctx else s.ctx;
        world = r.next;
      } in
      if is_negative r.ret then returns r.ret t else elim r.ret [
        | fail e ↦ returns (fail e) t
        | val n ↦ if n == 1 then returns (val 0) t else returns (fail (errno 1)) t
      ]

  -- `fi_getname` into the transmit buffer, whose length the rest of the function gets
  unfoldable pub name_in_tx : (ℕ → Step W) → Step W
  name_in_tx k s =
      let r = calls.getname (tx_address s.ctx) s.world in
      let t : State W = record s { world = r.next } in
      if is_ok r.ret then k r.len t else returns r.ret t

module _ {W : Type 0} (fab : Fabric W) (rounds : ℕ) (calls : Calls W) (net : Net W)
    (sk : Sockets W) where
  -- What came is stored at `frame`, the array `buf` of the function, and inserted.
  unfoldable pub take_address : (frame : ℕ) → Exchange W → Step W
  take_address frame endless s = out_of_rounds
  take_address frame (ended rcvd got w) s =
      let t : State W = record s { world = store_bytes fab calls got frame w } in
      if not (is_ok rcvd) then returns rcvd t else ft_av_insert fab calls true frame t

  unfoldable pub after_send : (fd frame : ℕ) → Exchange W → Step W
  after_send fd frame endless s = out_of_rounds
  after_send fd frame (ended sent got w) s =
      if not (is_ok sent)
      then returns sent (record s { world = w })
      else take_address frame (ft_sock_recv fab sk rounds s.ctx fd ft_max_ctrl_msg [] w) s

  -- `fd` is `ctx->oob_sock`.
  unfoldable pub ft_exchange_addresses_oob : (fd frame : ℕ) → Step W
  ft_exchange_addresses_oob fd frame s =
      let r = calls.getname frame s.world in
      let name = load_bytes fab calls ft_max_ctrl_msg frame r.next in
      if not (is_ok r.ret)
      then returns r.ret (record s { world = r.next })
      else after_send fd frame (ft_sock_send fab sk rounds s.ctx fd name r.next) s

  -- The client's address goes to the server in its first message, which it answers.
  unfoldable pub dst_addr_client : Step W
  dst_addr_client =
      (λ s. ft_av_insert fab calls true s.ctx.fi.attr.dest_addr s)
      >> name_in_tx fab calls (λ n s. ft_tx fab rounds s.ctx.remote_fi_addr n tx_ctx s)
      >> ft_rx fab rounds 1

  -- In a table the first address is number 0.
  unfoldable pub forget_remote : Step W
  forget_remote s =
      if is_table s.ctx
      then returns (val 0) (record s { ctx = set_remote 0 s.ctx })
      else returns (val 0) s

  unfoldable pub dst_addr_server : Step W
  dst_addr_server =
      (λ s. ft_get_rx_comp fab rounds s.ctx.rx_seq s)
      >> (λ s. ft_av_insert fab calls (not (is_table s.ctx)) (rx_address s.ctx) s)
      >> (λ s. ft_post_rx fab rounds s.ctx.rx_size rx_ctx s)
      >> forget_remote
      >> (λ s. ft_tx fab rounds s.ctx.remote_fi_addr 1 tx_ctx s)

  -- The ways to get the address of the other end
  unfoldable pub learn_address : (fd frame : ℕ) → Step W
  learn_address fd frame s =
      if opt s.ctx Options.oob_addr_exch
      then ft_exchange_addresses_oob fd frame s
      else if given s.ctx.opts.dst_addr
      then dst_addr_client s
      else dst_addr_server s

  unfoldable pub close_rx_seq : Step W
  close_rx_seq = then_update set_rx_seq_close

  unfoldable pub ft_init_av_dst_addr : (fd frame : ℕ) → Step W
  ft_init_av_dst_addr fd frame = learn_address fd frame >> close_rx_seq

  unfoldable pub ft_init_av : (fd frame : ℕ) → Step W
  ft_init_av = ft_init_av_dst_addr

  abbrev send_name : Step W
  send_name = name_in_tx fab calls (λ n s. ft_tx fab rounds s.ctx.remote_fi_addr n tx_ctx s)

  abbrev receive_name : Step W
  receive_name =
      ft_rx fab rounds ft_max_ctrl_msg >> (λ s. ft_av_insert fab calls true (rx_address s.ctx) s)

  -- The result of `ft_av_insert` goes to the caller's variable, here `ctx->remote_fi_addr`.
  unfoldable pub ft_init_av_addr : (fd frame : ℕ) → Step W
  ft_init_av_addr fd frame s =
      if opt s.ctx Options.oob_addr_exch
      then ft_exchange_addresses_oob fd frame s
      else if given s.ctx.opts.dst_addr
      then (send_name >> receive_name) s
      else (receive_name >> send_name) s

  unfoldable pub ft_accept_next_client : (fd frame : ℕ) → Step W
  ft_accept_next_client fd frame = post_first_rx fab rounds calls >> ft_init_av fd frame

  abbrev pub oob_fd : Context → ℕ
  oob_fd c = elim c.objects.oob_sock [ none ↦ 0 | some fd ↦ fd ]

  unfoldable pub ft_init_fabric : (frame : ℕ) → Step W
  ft_init_fabric frame =
      ft_init fab
      >> ft_init_oob net
      >> ft_getinfo fab calls set_fi
      >> ft_open_fabric_res calls
      >> (λ s. ft_alloc_active_res fab calls s.ctx.fi s)
      >> ft_enable_ep_recv fab rounds calls
      >> (λ s. ft_init_av (oob_fd s.ctx) frame s)
      >> fork_if_asked fab calls
