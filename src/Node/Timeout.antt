-- ===== src/Node/Timeout.antt =====
-- The timeout of `getTxCompletionWithTimeout` (libefa/src/libefa/Node.cpp): the wait for transmit
-- completions does not look at the timeout of the connection.
mod Queue
use efa_libfabric_bench.Prelude.{
  ℕ, zero, suc, ◌-◌, ◌≡◌, refl, Bool, true, false, Option, none, some, arith, Bool-cases, inl, inr,
  ap, ◌∙◌, sym, not, ◌&&◌, leb, ◌==◌,
}
use efa_libfabric_bench.Fabric.{
  Ret, Fabric, Completion, is_ok, is_positive, is_negative, is_eagain, is_eavail,
}
use efa_libfabric_bench.Context.{Context, CompMethod, spin, sread, waitset, wait_fd, yield, opt}
use efa_libfabric_bench.Context.Options
use efa_libfabric_bench.Context.Options.{has}
use efa_libfabric_bench.Machine.{State, Outcome, Outcome-cases, returns, out_of_rounds, fault}
use efa_libfabric_bench.Post.{Side, tx, rx, queue, cq_cntr, inc_cq_cntr}
use efa_libfabric_bench.Completion.{
  Round, halt, again, ft_tag_is_valid, expected_tag, pending, expired, read_clock, take_completion,
  spin_round, spin_loop, ft_spin_for_comp, wait_round, ft_wait_for_comp, wait_descriptor,
  ft_poll_fd, fdwait_read, fdwait_round, ft_fdwait_for_comp, wait_by, after_wait, ft_get_cq_comp,
}
use efa_libfabric_bench.Completion.Drain.{Round-cases}
use efa_libfabric_bench.Completion.Get.{
  cntr_loop, ft_spin_for_cntr, ft_wait_for_cntr, cntr_wait_by, ft_get_cntr_comp, ft_get_tx_comp,
}
use efa_libfabric_bench.Node.{with_timeout, get_tx_completion, get_tx_completion_with_timeout}
use efa_libfabric_bench.Node.Timeout.Queue.{timed, ft_get_cq_comp-with_timeout}

module _ {W : Type 0} (fab : Fabric W) (o : Option ℕ) where
  cntr_loop-with_timeout :
      (n cntr total : ℕ) (timeout : Option ℕ) (since : ℕ) (s : State W)
      → cntr_loop fab n cntr total timeout since (with_timeout o s)
        ≡ timed o (cntr_loop fab n cntr total timeout since s)
  unfolding cntr_loop
  cntr_loop-with_timeout zero cntr total timeout since s = refl
  cntr_loop-with_timeout (suc n) cntr total timeout since s =
      let r = fab.cntr_read cntr s.world in
      let k = read_clock fab timeout r.next in
      ground
        (arith, cntr_loop-with_timeout n cntr total timeout since (record s { world = k.next }))

  ft_wait_for_cntr-with_timeout :
      (n cntr total : ℕ) (timeout : Option ℕ) (s : State W)
      → ft_wait_for_cntr fab n cntr total timeout (with_timeout o s)
        ≡ timed o (ft_wait_for_cntr fab n cntr total timeout s)
  unfolding ft_wait_for_cntr
  ft_wait_for_cntr-with_timeout zero cntr total timeout s = refl
  ft_wait_for_cntr-with_timeout (suc n) cntr total timeout s =
      let r = fab.cntr_read cntr s.world in
      let v = fab.cntr_wait cntr total timeout r.next in
      ground
        (arith, ft_wait_for_cntr-with_timeout n cntr total timeout (record s { world = v.next }))

  cntr_wait_by-with_timeout :
      (m : CompMethod) (n cntr total : ℕ) (timeout : Option ℕ) (s : State W)
      → cntr_wait_by fab m n cntr total timeout (with_timeout o s)
        ≡ timed o (cntr_wait_by fab m n cntr total timeout s)
  unfolding cntr_wait_by ft_spin_for_cntr
  cntr_wait_by-with_timeout sread = ft_wait_for_cntr-with_timeout
  cntr_wait_by-with_timeout waitset = ft_wait_for_cntr-with_timeout
  cntr_wait_by-with_timeout wait_fd = ft_wait_for_cntr-with_timeout
  cntr_wait_by-with_timeout yield = ft_wait_for_cntr-with_timeout
  cntr_wait_by-with_timeout spin = λ n cntr total timeout s.
      let k = read_clock fab timeout s.world in
      cntr_loop-with_timeout n cntr total timeout k.seconds (record s { world = k.next })

  ft_get_tx_comp-with_timeout :
      (n total : ℕ) (s : State W)
      → ft_get_tx_comp fab n total (with_timeout o s) ≡ timed o (ft_get_tx_comp fab n total s)
  unfolding ft_get_tx_comp ft_get_cntr_comp
  ft_get_tx_comp-with_timeout n total s = ground (
    arith,
    ft_get_cq_comp-with_timeout fab o n tx total none s,
    cntr_wait_by-with_timeout s.ctx.opts.comp_method n s.ctx.txcntr total none s,
  )

-- `getTxCompletionWithTimeout` returns what `getTxCompletion` does, in the same states and after the
-- same number of rounds, whatever the timeout is.
pub get_tx_completion_with_timeout_lem :
    {W : Type 0} (fab : Fabric W) (rounds : ℕ) (timeout : Option ℕ) (s : State W)
    → get_tx_completion_with_timeout fab rounds timeout s ≡ get_tx_completion fab rounds s
unfolding get_tx_completion_with_timeout get_tx_completion
get_tx_completion_with_timeout_lem fab rounds timeout s =
    let total = s.ctx.tx_seq in
    rw (get_tx_completion_with_timeout, ft_get_tx_comp-with_timeout fab timeout rounds total s)
      (elim (Outcome-cases (ft_get_tx_comp fab rounds total s)) [
        | inl (r, t, e) ↦
            rw (get_tx_completion_with_timeout, get_tx_completion, e)
              (ap (timed s.ctx.timeout) (sym e)
                ∙ sym (ft_get_tx_comp-with_timeout fab s.ctx.timeout rounds total s)
                ∙ e)
        | inr (inl e) ↦ rw (get_tx_completion_with_timeout, get_tx_completion, e) refl
        | inr (inr e) ↦ rw (get_tx_completion_with_timeout, get_tx_completion, e) refl
      ])
