-- ===== src/Opening/Owned/Counting.antt =====
-- Waiting for a counter, or for the completions of a side, changes no object of libfabric.
use efa_libfabric_bench.Prelude.{ℕ, zero, suc, ◌-◌, ◌∙◌, Bool, Option, none, not, ◌==◌, leb}
use efa_libfabric_bench.Fabric.{Fabric, is_ok}
use efa_libfabric_bench.Context.{CompMethod, spin, sread, waitset, wait_fd, yield, opt}
use efa_libfabric_bench.Context.Fids.{Fid}
use efa_libfabric_bench.Context.Options
use efa_libfabric_bench.Post.{tx, rx}
use efa_libfabric_bench.Completion.{expired, read_clock}
use efa_libfabric_bench.Completion.Get.{
  cntr_loop, ft_spin_for_cntr, ft_wait_for_cntr, cntr_wait_by, ft_get_cntr_comp, ft_get_rx_comp,
  ft_get_tx_comp,
}
use efa_libfabric_bench.Opening.Owned.{Calm, FabricKeeps}
use efa_libfabric_bench.Opening.Owned.Combine.{
  Same-refl, Same-world, Quiet-returns, pick, calm_from,
}
use efa_libfabric_bench.Opening.Owned.Waiting.{clock_keeps, cq_comp-Calm}

module _ {W : Type 0} {live : Fid → W → Bool} {fab : Fabric W} (law : FabricKeeps fab live) where
  cntr_loop-Calm :
      (n cntr total : ℕ) (o : Option ℕ) (since : ℕ) → Calm live (cntr_loop fab n cntr total o since)
  unfolding cntr_loop
  cntr_loop-Calm zero cntr total o since = record { calm = λ s. record { quiet = tt } }
  cntr_loop-Calm (suc n) cntr total o since = record {
    calm = λ s.
        let r = fab.cntr_read cntr s.world in
        let k = read_clock fab o r.next in
        let read = λ (y : Fid). law.cntr_read cntr s.world y in
        let timed = λ (y : Fid). clock_keeps law o r.next y ∙ read y in
        pick (leb total r.value) (Quiet-returns (Same-world read)) (
          pick (expired o (k.seconds - since)) (Quiet-returns (Same-world timed))
            (calm_from _ (Same-world timed) ((cntr_loop-Calm n cntr total o since).calm _)));
  }

  cntr_wait-Calm :
      (n cntr total : ℕ) (o : Option ℕ) → Calm live (ft_wait_for_cntr fab n cntr total o)
  unfolding ft_wait_for_cntr
  cntr_wait-Calm zero cntr total o = record { calm = λ s. record { quiet = tt } }
  cntr_wait-Calm (suc n) cntr total o = record {
    calm = λ s.
        let r = fab.cntr_read cntr s.world in
        let v = fab.cntr_wait cntr total o r.next in
        let read = λ (y : Fid). law.cntr_read cntr s.world y in
        let waited = λ (y : Fid). law.cntr_wait cntr total o r.next y ∙ read y in
        pick (leb total r.value) (Quiet-returns (Same-world read)) (
          pick (is_ok v.ret) (Quiet-returns (Same-world waited))
            (calm_from _ (Same-world waited) ((cntr_wait-Calm n cntr total o).calm _)));
  }

  cntr_spin-Calm :
      (n cntr total : ℕ) (o : Option ℕ) → Calm live (ft_spin_for_cntr fab n cntr total o)
  unfolding ft_spin_for_cntr
  cntr_spin-Calm n cntr total o = record {
    calm = λ s.
        calm_from _ (Same-world (λ y. clock_keeps law o s.world y))
          ((cntr_loop-Calm n cntr total o _).calm _);
  }

  cntr_by-Calm :
      (m : CompMethod) (n cntr total : ℕ) (o : Option ℕ)
      → Calm live (cntr_wait_by fab m n cntr total o)
  unfolding cntr_wait_by
  cntr_by-Calm sread = cntr_wait-Calm
  cntr_by-Calm waitset = cntr_wait-Calm
  cntr_by-Calm wait_fd = cntr_wait-Calm
  cntr_by-Calm yield = cntr_wait-Calm
  cntr_by-Calm spin = cntr_spin-Calm

  cntr_comp-Calm :
      (n cntr total : ℕ) (o : Option ℕ) → Calm live (ft_get_cntr_comp fab n cntr total o)
  unfolding ft_get_cntr_comp
  cntr_comp-Calm n cntr total o = record {
    calm = λ s. (cntr_by-Calm s.ctx.opts.comp_method n cntr total o).calm s;
  }

  pub rx_comp-Calm : (n total : ℕ) → Calm live (ft_get_rx_comp fab n total)
  unfolding ft_get_rx_comp
  rx_comp-Calm n total = record {
    calm = λ s.
        pick (opt s.ctx Options.rx_cq) ((cq_comp-Calm law n rx total s.ctx.timeout).calm s) (
          pick (not (s.ctx.rxcntr == 0))
            ((cntr_comp-Calm n s.ctx.rxcntr total s.ctx.timeout).calm s) (Quiet-returns Same-refl));
  }

  pub tx_comp-Calm : (n total : ℕ) → Calm live (ft_get_tx_comp fab n total)
  unfolding ft_get_tx_comp
  tx_comp-Calm n total = record {
    calm = λ s. pick (opt s.ctx Options.tx_cq) ((cq_comp-Calm law n tx total none).calm s) (
        pick (not (s.ctx.txcntr == 0)) ((cntr_comp-Calm n s.ctx.txcntr total none).calm s)
          (Quiet-returns Same-refl));
  }
