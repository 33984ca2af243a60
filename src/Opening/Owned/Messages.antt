-- ===== src/Opening/Owned/Messages.antt =====
-- Messages that are sent and received change no object of libfabric.
use efa_libfabric_bench.Prelude.{ℕ, zero, suc, ◌+◌, ◌≡◌, ◌∙◌, refl, Bool, ◌&&◌, ◌==◌}
use efa_libfabric_bench.Fabric.{Fabric, Handle, Flag, is_ok, rx_ctx, completion, more}
use efa_libfabric_bench.Context.{
  HmemIface, system, cuda, ze, opt, ft_tx_prefix_size, ft_rx_prefix_size,
}
use efa_libfabric_bench.Context.Fids.{Fid}
use efa_libfabric_bench.Context.Options
use efa_libfabric_bench.Buffer.{
  fill_bytes, check_bytes, letter, next_index, ft_hmem_copy, is_system, ft_fill_buf, ft_check_buf,
}
use efa_libfabric_bench.Post.{tx}
use efa_libfabric_bench.Transfer.{
  sendmsg_request, ft_sendmsg, ft_post_tx_buf, ft_post_tx, fill_if_active, ft_tx, check_if_active,
  ft_rx,
}
use efa_libfabric_bench.Opening.Owned.{Calm, FabricKeeps}
use efa_libfabric_bench.Opening.Owned.Combine.{
  Same-refl, Same-world, Quiet-returns, Quiet-fault, pick, calm_from, ◌⨾◌,
}
use efa_libfabric_bench.Opening.Owned.Posting.{ft_post-Calm, ft_post_rx-Calm}
use efa_libfabric_bench.Opening.Owned.Counting.{rx_comp-Calm, tx_comp-Calm}

module _ {W : Type 0} {live : Fid → W → Bool} {fab : Fabric W} (law : FabricKeeps fab live) where
  fill_keeps : (n a i : ℕ) (w : W) (y : Fid) → live y (fill_bytes fab n a i w) ≡ live y w
  unfolding fill_bytes
  fill_keeps zero a i w y = refl
  fill_keeps (suc n) a i w y = fill_keeps n (a + 1) (next_index i) _ y ∙ law.store a (letter i) w y

  copy-Calm : (i : HmemIface) → Calm live (ft_hmem_copy fab i (λ w. w))
  unfolding ft_hmem_copy
  copy-Calm system = record { calm = λ s. Quiet-returns Same-refl }
  copy-Calm cuda = record { calm = λ s. Quiet-fault }
  copy-Calm ze = record { calm = λ s. Quiet-fault }

  fill_buf-Calm : (buf size : ℕ) → Calm live (ft_fill_buf fab buf size)
  unfolding ft_fill_buf
  fill_buf-Calm buf size = record {
    calm = λ s.
        let m = fab.malloc size s.world in
        let taken = λ (y : Fid). law.malloc size s.world y in
        pick (is_system fab s.ctx.opts.iface)
          (Quiet-returns (Same-world (λ y. fill_keeps size buf 0 s.world y)))
          (pick (m.ptr == 0) (Quiet-returns (Same-world taken)) (
            calm_from _ (Same-world (λ y. fill_keeps size m.ptr 0 m.next y ∙ taken y))
              ((copy-Calm s.ctx.opts.iface).calm _)));
  }

  check_buf-Calm : (buf size : ℕ) → Calm live (ft_check_buf fab buf size)
  unfolding ft_check_buf
  check_buf-Calm buf size = record {
    calm = λ s.
        let m = fab.malloc size s.world in
        let taken = λ (y : Fid). law.malloc size s.world y in
        pick (is_system fab s.ctx.opts.iface)
          (pick (check_bytes fab size buf 0 s.world) (Quiet-returns Same-refl)
            (Quiet-returns Same-refl))
          (pick (m.ptr == 0) (Quiet-returns (Same-world taken))
            (calm_from _ (Same-world taken) ((copy-Calm s.ctx.opts.iface).calm _)));
  }

  sendmsg-Calm :
      (n dest size : ℕ) (h : Handle) (f : Flag) → Calm live (ft_sendmsg fab n dest size h f)
  unfolding ft_sendmsg
  sendmsg-Calm n dest size h f = record {
    calm = λ s.
        let posted = λ (y : Fid). law.post (sendmsg_request s.ctx dest size h f) s.world y in
        pick (is_ok (fab.post (sendmsg_request s.ctx dest size h f) s.world).ret)
          (Quiet-returns
            (record { fields = refl; region = refl; sharing = (refl, refl); existing = posted }))
          (Quiet-returns (Same-world posted));
  }

  tx_buf-Calm :
      (n dest size cq_data : ℕ) (h : Handle) (buf tag : ℕ)
      → Calm live (ft_post_tx_buf fab n dest size cq_data h buf tag)
  unfolding ft_post_tx_buf
  tx_buf-Calm n dest size cq_data h buf tag = record {
    calm = λ s. (ft_post-Calm law n tx _).calm s;
  }

  post_tx-Calm :
      (n dest size cq_data : ℕ) (h : Handle) → Calm live (ft_post_tx fab n dest size cq_data h)
  unfolding ft_post_tx
  post_tx-Calm n dest size cq_data h = record {
    calm = λ s.
        let long = size + ft_tx_prefix_size s.ctx in
        pick (opt s.ctx Options.selective_comp) ((sendmsg-Calm n dest long h completion).calm s) (
          pick (opt s.ctx Options.fi_more) ((sendmsg-Calm n dest long h more).calm s)
            ((tx_buf-Calm n dest size cq_data h s.ctx.tx_buf s.ctx.ft_tag).calm s));
  }

  fill_active-Calm : (n size : ℕ) → Calm live (fill_if_active fab n size)
  unfolding fill_if_active
  fill_active-Calm n size = record {
    calm = λ s.
        pick (opt s.ctx Options.verify_data && opt s.ctx Options.active)
          ((fill_buf-Calm (s.ctx.tx_buf + ft_tx_prefix_size s.ctx) size).calm s)
          (Quiet-returns Same-refl);
  }

  pub ft_tx-Calm : (n dest size : ℕ) (h : Handle) → Calm live (ft_tx fab n dest size h)
  unfolding ft_tx
  ft_tx-Calm n dest size h =
      fill_active-Calm n size
      ⨾ post_tx-Calm n dest size 0 h
      ⨾ record { calm = λ s. (tx_comp-Calm law n s.ctx.tx_seq).calm s }

  check_active-Calm : (n size : ℕ) → Calm live (check_if_active fab n size)
  unfolding check_if_active
  check_active-Calm n size = record {
    calm = λ s.
        pick (opt s.ctx Options.verify_data && opt s.ctx Options.active)
          ((check_buf-Calm (s.ctx.rx_buf + ft_rx_prefix_size s.ctx) size).calm s)
          (Quiet-returns Same-refl);
  }

  pub ft_rx-Calm : (n size : ℕ) → Calm live (ft_rx fab n size)
  unfolding ft_rx
  ft_rx-Calm n size =
      record { calm = λ s. (rx_comp-Calm law n s.ctx.rx_seq).calm s }
      ⨾ check_active-Calm n size
      ⨾ record { calm = λ s. (ft_post_rx-Calm law n s.ctx.rx_size rx_ctx).calm s }
