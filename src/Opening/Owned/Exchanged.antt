-- ===== src/Opening/Owned/Exchanged.antt =====
-- The exchange of addresses changes no object of libfabric.
use efa_libfabric_bench.Prelude.{
  ℕ, ◌+◌, ◌≡◌, ◌∙◌, refl, Bool, true, false, List, [], ◌∷◌, not, ◌&&◌, ◌==◌, if◌then◌else◌,
}
use efa_libfabric_bench.Fabric.{Fabric, Ret, val, fail, errno, is_ok, is_negative, tx_ctx, rx_ctx}
use efa_libfabric_bench.Context.{opt, inc64}
use efa_libfabric_bench.Context.Fids.{Fid}
use efa_libfabric_bench.Context.Options
use efa_libfabric_bench.Machine.{State, returns, Step}
use efa_libfabric_bench.Socket.{Sockets, Exchange, ended, endless, ft_sock_send, ft_sock_recv}
use efa_libfabric_bench.Transfer.{ft_max_ctrl_msg}
use efa_libfabric_bench.Opening.{Calls}
use efa_libfabric_bench.Opening.Oob.{Net}
use efa_libfabric_bench.Opening.Connect.{given}
use efa_libfabric_bench.Opening.Address.{
  is_table, set_remote, tx_address, rx_address, load_bytes, store_bytes, ft_av_insert, name_in_tx,
  ft_exchange_addresses_oob, dst_addr_client, forget_remote, dst_addr_server, set_rx_seq_close,
  take_address, after_send, learn_address, close_rx_seq, ft_init_av_dst_addr, ft_init_av,
}
use efa_libfabric_bench.Opening.Owned.{Same, Quiet, Calm, FabricKeeps, AddressesKeep, SocketsKeep}
use efa_libfabric_bench.Opening.Owned.Combine.{
  Same-refl, Same-world, Quiet-returns, pick, calm_from, ◌⨾◌,
}
use efa_libfabric_bench.Opening.Owned.Posting.{ft_post_rx-Calm}
use efa_libfabric_bench.Opening.Owned.Counting.{rx_comp-Calm}
use efa_libfabric_bench.Opening.Owned.Messages.{ft_tx-Calm, ft_rx-Calm}
use efa_libfabric_bench.Opening.Owned.Addresses.{ExchangeKeeps, further, send_keeps, recv_keeps}

module _ {W : Type 0} {live : Fid → W → Bool} {fab : Fabric W} {calls : Calls W}
    (law : FabricKeeps fab live) (names : AddressesKeep calls live) where
  store_keeps :
      (xs : List ℕ) (a : ℕ) (w : W) (y : Fid) → live y (store_bytes fab calls xs a w) ≡ live y w
  unfolding store_bytes
  store_keeps [] a w y = refl
  store_keeps (x ∷ xs) a w y = store_keeps xs (a + 1) _ y ∙ law.store a x w y

  Same-set_remote :
      (keeps : Bool) (a : ℕ) {s : State W} {w : W}
      → ((y : Fid) → live y w ≡ live y s.world)
      → Same live s (record { ctx = if keeps then set_remote a s.ctx else s.ctx; world = w })
  Same-set_remote true a h = record {
    fields = refl;
    region = refl;
    sharing = (refl, refl);
    existing = h;
  }
  Same-set_remote false a h = record {
    fields = refl;
    region = refl;
    sharing = (refl, refl);
    existing = h;
  }

  insert-Calm : (keeps : Bool) (a : ℕ) → Calm live (ft_av_insert fab calls keeps a)
  unfolding ft_av_insert
  insert-Calm keeps a = record {
    calm = λ s.
        let r = calls.av_insert a s.world in
        let kept = Same-set_remote keeps r.fi_addr (λ y. names.av_insert a s.world y) in
        pick (is_negative r.ret) (Quiet-returns kept) (counted r.ret kept);
  }
    where
      counted :
          {s t : State W} (r : Ret)
          → Same live s t
          → Quiet live s (elim r [
            | fail e ↦ returns (fail e) t
            | val n ↦ if n == 1 then returns (val 0) t else returns (fail (errno 1)) t
          ])
      counted (fail e) p = Quiet-returns p
      counted (val n) p = pick (n == 1) (Quiet-returns p) (Quiet-returns p)

  name-Calm : (k : ℕ → Step W) → ((n : ℕ) → Calm live (k n)) → Calm live (name_in_tx fab calls k)
  unfolding name_in_tx
  name-Calm k p = record {
    calm = λ s.
        let r = calls.getname (tx_address s.ctx) s.world in
        let named = λ (y : Fid). names.getname (tx_address s.ctx) s.world y in
        pick (is_ok r.ret) (calm_from _ (Same-world named) ((p r.len).calm _))
          (Quiet-returns (Same-world named));
  }

module _ {W : Type 0} {live : Fid → W → Bool} {fab : Fabric W} {calls : Calls W} {sk : Sockets W}
    (law : FabricKeeps fab live) (names : AddressesKeep calls live) (sockets : SocketsKeep sk live)
    (n : ℕ) (net : Net W) where
  client-Calm : Calm live (dst_addr_client fab n calls net sk)
  unfolding dst_addr_client
  client-Calm =
      record { calm = λ s. (insert-Calm law names true s.ctx.fi.attr.dest_addr).calm s }
      ⨾ name-Calm law names _
          (λ m. record { calm = λ s. (ft_tx-Calm law n s.ctx.remote_fi_addr m tx_ctx).calm s })
      ⨾ ft_rx-Calm law n 1

  forget-Calm : Calm live (forget_remote fab n calls net sk)
  unfolding forget_remote
  forget-Calm = record {
    calm = λ s.
        pick (is_table s.ctx)
          (Quiet-returns
            (record { fields = refl; region = refl; sharing = (refl, refl); existing = λ y. refl }))
          (Quiet-returns Same-refl);
  }

  server-Calm : Calm live (dst_addr_server fab n calls net sk)
  unfolding dst_addr_server
  server-Calm =
      record { calm = λ s. (rx_comp-Calm law n s.ctx.rx_seq).calm s }
      ⨾ record {
        calm = λ s. (insert-Calm law names (not (is_table s.ctx)) (rx_address s.ctx)).calm s;
      }
      ⨾ record { calm = λ s. (ft_post_rx-Calm law n s.ctx.rx_size rx_ctx).calm s }
      ⨾ forget-Calm
      ⨾ record { calm = λ s. (ft_tx-Calm law n s.ctx.remote_fi_addr 1 tx_ctx).calm s }

  take-Quiet :
      (frame : ℕ) (x : Exchange W) (s : State W)
      → ExchangeKeeps live s.world x
      → Quiet live s (take_address fab n calls net sk frame x s)
  unfolding take_address
  take-Quiet frame endless s k = record { quiet = tt }
  take-Quiet frame (ended rcvd got w) s k =
      let stored = λ (y : Fid). store_keeps law names got frame w y ∙ k y in
      pick (not (is_ok rcvd)) (Quiet-returns (Same-world stored))
        (calm_from _ (Same-world stored) ((insert-Calm law names true frame).calm _))

  sent-Quiet :
      (fd frame : ℕ) (x : Exchange W) (s : State W)
      → ExchangeKeeps live s.world x
      → Quiet live s (after_send fab n calls net sk fd frame x s)
  unfolding after_send
  sent-Quiet fd frame endless s k = record { quiet = tt }
  sent-Quiet fd frame (ended sent got w) s k =
      let come = ft_sock_recv fab sk n s.ctx fd ft_max_ctrl_msg [] w in
      pick (not (is_ok sent)) (Quiet-returns (Same-world k)) (
        take-Quiet frame come s
          (further law sockets come k (recv_keeps law sockets n s.ctx fd ft_max_ctrl_msg [] w)))

  exchange-Calm : (fd frame : ℕ) → Calm live (ft_exchange_addresses_oob fab n calls net sk fd frame)
  unfolding ft_exchange_addresses_oob
  exchange-Calm fd frame = record {
    calm = λ s.
        let r = calls.getname frame s.world in
        let named = λ (y : Fid). names.getname frame s.world y in
        let name = load_bytes fab calls ft_max_ctrl_msg frame r.next in
        let gone = ft_sock_send fab sk n s.ctx fd name r.next in
        pick (not (is_ok r.ret)) (Quiet-returns (Same-world named)) (
          sent-Quiet fd frame gone s
            (further law sockets gone named (send_keeps law sockets n s.ctx fd name r.next)));
  }

  learn-Calm : (fd frame : ℕ) → Calm live (learn_address fab n calls net sk fd frame)
  unfolding learn_address
  learn-Calm fd frame = record {
    calm = λ s.
        pick (opt s.ctx Options.oob_addr_exch) ((exchange-Calm fd frame).calm s)
          (pick (given s.ctx.opts.dst_addr) (client-Calm.calm s) (server-Calm.calm s));
  }

  close-Calm : Calm live (close_rx_seq fab n calls net sk)
  unfolding close_rx_seq set_rx_seq_close
  close-Calm = record {
    calm = λ s.
        Quiet-returns (
          counted (not s.ctx.fi.caps.msg && not s.ctx.fi.caps.tagged && given s.ctx.opts.oob_port));
  }
    where
      counted :
          {s : State W} (b : Bool)
          → Same live s (record s {
            ctx = if b then record (s.ctx) { rx_seq = inc64 s.ctx.rx_seq } else s.ctx;
          })
      counted true = record {
        fields = refl;
        region = refl;
        sharing = (refl, refl);
        existing = λ y. refl;
      }
      counted false = record {
        fields = refl;
        region = refl;
        sharing = (refl, refl);
        existing = λ y. refl;
      }

  pub ft_init_av-Calm : (fd frame : ℕ) → Calm live (ft_init_av fab n calls net sk fd frame)
  unfolding ft_init_av ft_init_av_dst_addr
  ft_init_av-Calm fd frame = learn-Calm fd frame ⨾ close-Calm
