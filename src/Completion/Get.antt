-- ===== src/Completion/Get.antt =====
-- `ft_get_rx_comp` and `ft_get_tx_comp` with the waits on counters, and `ft_cq_read_verify`
-- (libefa/src/libefa/ftlib/shared.c).
use efa_libfabric_bench.Prelude.{
  ℕ, zero, suc, ◌-◌, Bool, Option, none, not, if◌then◌else◌, leb, ◌==◌,
}
use efa_libfabric_bench.Fabric.{
  val, fail, enodata, eother, Fabric, Completion, is_ok, is_positive, is_eagain,
}
use efa_libfabric_bench.Context.{CompMethod, spin, sread, waitset, wait_fd, yield, opt}
use efa_libfabric_bench.Context.Options
use efa_libfabric_bench.Machine.{State, returns, out_of_rounds, Step}
use efa_libfabric_bench.Post.{tx, rx}
use efa_libfabric_bench.Completion.{
  ft_get_cq_comp, ft_tag_is_valid, expected_tag, read_clock, expired,
}

module _ {W : Type 0} (fab : Fabric W) where
  -- The loop of `ft_spin_for_cntr`, since the time `since`.
  unfoldable pub cntr_loop : ℕ → ℕ → ℕ → Option ℕ → ℕ → Step W
  cntr_loop zero cntr total timeout since s = out_of_rounds
  cntr_loop (suc n) cntr total timeout since s =
      let r = fab.cntr_read cntr s.world in
      let k = read_clock fab timeout r.next in
      let more = cntr_loop n cntr total timeout since (record s { world = k.next }) in
      if leb total r.value
      then returns (val 0) (record s { world = r.next })
      else if expired timeout (k.seconds - since)
      then returns (fail enodata) (record s { world = k.next })
      else more

  unfoldable pub ft_spin_for_cntr : ℕ → ℕ → ℕ → Option ℕ → Step W
  ft_spin_for_cntr n cntr total timeout s =
      let k = read_clock fab timeout s.world in
      cntr_loop n cntr total timeout k.seconds (record s { world = k.next })

  -- A failed wait is reported and tried again; one that succeeds ends the loop.
  unfoldable pub ft_wait_for_cntr : ℕ → ℕ → ℕ → Option ℕ → Step W
  ft_wait_for_cntr zero cntr total timeout s = out_of_rounds
  ft_wait_for_cntr (suc n) cntr total timeout s =
      let r = fab.cntr_read cntr s.world in
      let v = fab.cntr_wait cntr total timeout r.next in
      let more = ft_wait_for_cntr n cntr total timeout (record s { world = v.next }) in
      if leb total r.value
      then returns (val 0) (record s { world = r.next })
      else if is_ok v.ret
      then returns (val 0) (record s { world = v.next })
      else more

  unfoldable pub cntr_wait_by : CompMethod → ℕ → ℕ → ℕ → Option ℕ → Step W
  cntr_wait_by sread = ft_wait_for_cntr
  cntr_wait_by waitset = ft_wait_for_cntr
  cntr_wait_by wait_fd = ft_wait_for_cntr
  cntr_wait_by yield = ft_wait_for_cntr
  cntr_wait_by spin = ft_spin_for_cntr

  unfoldable pub ft_get_cntr_comp : ℕ → ℕ → ℕ → Option ℕ → Step W
  ft_get_cntr_comp n cntr total timeout s =
      cntr_wait_by s.ctx.opts.comp_method n cntr total timeout s

  unfoldable pub ft_get_rx_comp : ℕ → ℕ → Step W
  ft_get_rx_comp n total s =
      if opt s.ctx Options.rx_cq
      then ft_get_cq_comp fab n rx total s.ctx.timeout s
      else if not (s.ctx.rxcntr == 0)
      then ft_get_cntr_comp n s.ctx.rxcntr total s.ctx.timeout s
      else returns (fail eother) s

  -- Transmit completions are waited for without a timeout.
  unfoldable pub ft_get_tx_comp : ℕ → ℕ → Step W
  ft_get_tx_comp n total s =
      if opt s.ctx Options.tx_cq
      then ft_get_cq_comp fab n tx total none s
      else if not (s.ctx.txcntr == 0)
      then ft_get_cntr_comp n s.ctx.txcntr total none s
      else returns (fail eother) s

  -- Reads one completion of the queue `cq`, and compares its context and its tag.
  unfoldable pub ft_cq_read_verify : ℕ → ℕ → (Completion → Bool) → Step W
  ft_cq_read_verify zero cq same_context s = out_of_rounds
  ft_cq_read_verify (suc n) cq same_context s =
      let r = fab.cq_read cq 1 s.world in
      let t : State W = record s { world = r.next } in
      let more = ft_cq_read_verify n cq same_context t in
      if is_positive r.ret
      then (if not (same_context r.comp)
          then returns (fail eother) t
          else if not (ft_tag_is_valid s.ctx cq r.comp.tag (expected_tag s.ctx))
          then returns (fail eother) t
          else returns (val 0) t)
      else if is_eagain r.ret
      then more
      else returns (fail eother) t
