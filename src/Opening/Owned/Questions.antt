-- ===== src/Opening/Owned/Questions.antt =====
-- The first receive, and what is asked of `fi_getinfo`, open no object of libfabric.
use efa_libfabric_bench.Prelude.{
  ℕ, zero, suc, ◌+◌, ◌==◌, ◌≡◌, ◌∙◌, refl, Bool, true, false, Option, not, ◌&&◌,
}
use efa_libfabric_bench.Fabric.{Fabric, is_ok, rx_ctx}
use efa_libfabric_bench.Context.{Context, Info, Text}
use efa_libfabric_bench.Context.Fids.{Fid}
use efa_libfabric_bench.Machine.{Step, then_update}
use efa_libfabric_bench.Opening.{Calls}
use efa_libfabric_bench.Opening.Endpoint.{receives, post_first_rx, ft_enable_ep_recv}
use efa_libfabric_bench.Opening.Connect.{
  given, or_default, names_peer, set_opts, addrlen_of, addr_of, complete_hints, set_fi, set_fi_pep,
  copy_bytes, dupaddr, getaddr, ft_getsrcaddr, ft_read_addr_opts, ask_info, ft_getinfo,
}
use efa_libfabric_bench.Opening.Owned.{Calm, FabricKeeps, CallsKeep}
use efa_libfabric_bench.Opening.Owned.Combine.{
  Same-world, Quiet-returns, pick, calm_from, Calm-if, ◌⨾◌,
}
use efa_libfabric_bench.Opening.Owned.Posting.{ft_post_rx-Calm}
use efa_libfabric_bench.Opening.Owned.Asking.{
  AssignsOther, Same-complete_hints, Same-set_fi, ft_enable_ep-Calm,
}

module _ {W : Type 0} {live : Fid → W → Bool} {fab : Fabric W} {calls : Calls W}
    (memory : FabricKeeps fab live) (law : CallsKeep calls live) where
  post_first_rx-Calm : (rounds : ℕ) → Calm live (post_first_rx fab rounds calls)
  unfolding post_first_rx
  post_first_rx-Calm rounds =
      Calm-if receives (record { calm = λ s. (ft_post_rx-Calm memory rounds _ rx_ctx).calm s })

  pub ft_enable_ep_recv-Calm : (rounds : ℕ) → Calm live (ft_enable_ep_recv fab rounds calls)
  unfolding ft_enable_ep_recv
  ft_enable_ep_recv-Calm rounds = ft_enable_ep-Calm law ⨾ post_first_rx-Calm rounds

  copy_keeps :
      (n dst src : ℕ) (w : W) (y : Fid) → live y (copy_bytes fab calls n dst src w) ≡ live y w
  unfolding copy_bytes
  copy_keeps zero dst src w y = refl
  copy_keeps (suc n) dst src w y = copy_keeps n (dst + 1) (src + 1) _ y ∙ memory.store dst _ w y

  dupaddr-Calm : (source : Bool) (i : Info) → Calm live (dupaddr fab calls source i)
  unfolding dupaddr
  dupaddr-Calm source i = record {
    calm = λ s.
        let n = addrlen_of source i in
        let m = fab.malloc n s.world in
        let taken = λ (y : Fid). memory.malloc n s.world y in
        pick (m.ptr == 0)
          (Quiet-returns
            (record { fields = refl; region = refl; sharing = (refl, refl); existing = taken }))
          (Quiet-returns (record {
            fields = refl;
            region = refl;
            sharing = (refl, refl);
            existing = λ y. copy_keeps n m.ptr (addr_of source i) m.next y ∙ taken y;
          }));
  }

  getaddr-Calm :
      (node service : Option Text) (source : Bool)
      → Calm live (getaddr fab calls node service source)
  unfolding getaddr
  getaddr-Calm node service source = record {
    calm = λ s.
        let r = calls.getinfo node service source s.ctx.hints s.world in
        let asked = λ (y : Fid). law.getinfo node service source s.ctx.hints s.world y in
        pick (not (given node) && not (given service))
          (Quiet-returns
            (record { fields = refl; region = refl; sharing = (refl, refl); existing = λ y. refl }))
          (pick (not (is_ok r.ret)) (Quiet-returns (Same-world asked))
            (calm_from _ (Same-world asked) ((dupaddr-Calm source r.info).calm _)));
  }

  ask_info-Calm :
      (assign : Info → Context → Context) (node service : Option Text) (source : Bool)
      → ((i : Info) → AssignsOther live (λ c. assign i (complete_hints c)))
      → Calm live (ask_info fab calls assign node service source)
  unfolding ask_info
  ask_info-Calm assign node service source other = record {
    calm = λ s.
        let c = complete_hints s.ctx in
        let r = calls.getinfo node service source c.hints s.world in
        let asked = λ (y : Fid). law.getinfo node service source c.hints s.world y in
        pick (not (is_ok r.ret)) (Quiet-returns (Same-complete_hints s r.next asked))
          (Quiet-returns (other r.info s r.next asked));
  }

  -- The default port of one side or the other
  src_ported :
      Calm live (then_update (set_opts (λ o. record o { src_port = or_default o.src_port })))
  src_ported = record {
    calm = λ s.
        Quiet-returns
          (record { fields = refl; region = refl; sharing = (refl, refl); existing = λ y. refl });
  }

  dst_ported :
      Calm live (then_update (set_opts (λ o. record o { dst_port = or_default o.dst_port })))
  dst_ported = record {
    calm = λ s.
        Quiet-returns
          (record { fields = refl; region = refl; sharing = (refl, refl); existing = λ y. refl });
  }

  ft_getsrcaddr-Calm :
      (node service : Option Text) → Calm live (ft_getsrcaddr fab calls node service)
  unfolding ft_getsrcaddr
  ft_getsrcaddr-Calm node service = getaddr-Calm node service true

  read_addr-Calm :
      (k : (node service : Option Text) → (source : Bool) → Step W)
      → ((node service : Option Text) (source : Bool) → Calm live (k node service source))
      → Calm live (ft_read_addr_opts fab calls k)
  unfolding ft_read_addr_opts
  read_addr-Calm k p = record {
    calm = λ s.
        pick (names_peer s.ctx.opts)
          ((dst_ported
              ⨾ record {
                calm = λ t. (ft_getsrcaddr-Calm t.ctx.opts.src_addr t.ctx.opts.src_port).calm t;
              }
              ⨾ record {
                calm = λ t. (p t.ctx.opts.dst_addr t.ctx.opts.dst_port false).calm t;
              }).calm
            s)
          ((src_ported
              ⨾ record { calm = λ t. (p t.ctx.opts.src_addr t.ctx.opts.src_port true).calm t }).calm
            s);
  }

  pub ft_getinfo-Calm : Calm live (ft_getinfo fab calls set_fi)
  unfolding ft_getinfo
  ft_getinfo-Calm =
      read_addr-Calm (ask_info fab calls set_fi)
        (λ node service b. ask_info-Calm set_fi node service b (λ i. Same-set_fi i))

  pub passive_getinfo-Calm : Calm live (ft_getinfo fab calls set_fi_pep)
  unfolding ft_getinfo
  passive_getinfo-Calm =
      read_addr-Calm (ask_info fab calls set_fi_pep)
        (λ node service b. ask_info-Calm set_fi_pep node service b (λ i. Same-complete_hints))
