-- ===== src/Completion.antt =====
-- Waiting for completions: `ft_tag_is_valid`, the loops over a completion queue or a counter, and
-- `ft_get_cq_comp`, `ft_get_cntr_comp`, `ft_get_rx_comp`, `ft_get_tx_comp` and `ft_cq_read_verify`
-- of libefa/src/libefa/ftlib/shared.c.
pub mod Tags
pub mod Drain
pub mod Get
pub mod Settle
pub mod Rounds
use efa_libfabric_bench.Prelude.{
  ℕ, zero, suc, ◌+◌, ◌-◌, ◌%◌, ◌^◌, Bool, true, false, Option, none, some, not, ◌&&◌, if◌then◌else◌,
  ltb, leb, ◌==◌,
}
use efa_libfabric_bench.Fabric.{
  Ret, val, fail, enodata, eother, eagain, Fabric, Completion, Handle, is_ok, is_positive,
  is_negative, is_eagain, is_eavail,
}
use efa_libfabric_bench.Context.{
  Context, Opts, CompMethod, spin, sread, waitset, wait_fd, yield, opt, inc64,
}
use efa_libfabric_bench.Context.Options
use efa_libfabric_bench.Machine.{State, Outcome, returns, out_of_rounds, Step}
use efa_libfabric_bench.Post.{Side, tx, rx, cq_cntr, queue, inc_cq_cntr, ft_cq_readerr}

-- Within the window of the expected tag in bandwidth tests, else equal to it; `uint64_t` sums.
unfoldable pub ft_tag_is_valid : Context → ℕ → ℕ → ℕ → Bool
ft_tag_is_valid c cq comp_tag tag =
    if c.hints.caps.tagged && cq == c.rxcq
    then (if opt c Options.bw
        then ltb tag ((comp_tag + c.opts.window_size) % 2 ^ 64)
          && ltb comp_tag ((tag + c.opts.window_size) % 2 ^ 64)
        else comp_tag == tag)
    else true

-- `ctx->ft_tag ? ctx->ft_tag : ctx->rx_cq_cntr`
unfoldable pub expected_tag : Context → ℕ
expected_tag c = if c.ft_tag == 0 then c.rx_cq_cntr else c.ft_tag

-- `total - *cur > 0` on `uint64_t`
unfoldable pub pending : ℕ → ℕ → Bool
pending total cur = not ((total + 2 ^ 64 - cur) % 2 ^ 64 == 0)

-- How the body of a loop ends: with `return`, or at the test, with the time of the last progress.
pub data Round (W : Type 0) : Type 0 where
  halt : Ret → State W → Round W
  again : ℕ → State W → Round W

-- Whether more than the timeout has passed; without a timeout, never.
unfoldable pub expired : Option ℕ → ℕ → Bool
expired none waited = false
expired (some n) waited = ltb n waited

-- The file descriptor of a side: `cq == ctx->txcq ? ctx->tx_fd : ctx->rx_fd`
unfoldable pub wait_descriptor : ℕ → Context → ℕ
wait_descriptor cq c = if cq == c.txcq then c.tx_fd else c.rx_fd

module _ {W : Type 0} (fab : Fabric W) where
  -- One completion was read: check its tag and count it.
  unfoldable pub take_completion : Side → ℕ → Completion → ℕ → State W → Round W
  take_completion d cq comp since s =
      if ft_tag_is_valid s.ctx cq comp.tag (expected_tag s.ctx)
      then again since (record { ctx = inc_cq_cntr d s.ctx; world = s.world })
      else halt (fail eother) s

  -- The time, read only where there is a timeout.
  unfoldable pub read_clock : Option ℕ → W → record { seconds : ℕ; next : W }
  read_clock none w = record { seconds = 0; next = w }
  read_clock (some n) w = fab.clock w

  -- The body of `ft_spin_for_comp`.
  unfoldable pub spin_round : Side → Option ℕ → ℕ → State W → Round W
  spin_round d timeout since s =
      let r = fab.cq_read (queue d s.ctx) 1 s.world in
      if is_positive r.ret
      then (let k = read_clock timeout r.next in
          take_completion d (queue d s.ctx) r.comp k.seconds (record s { world = k.next }))
      else if is_negative r.ret && not (is_eagain r.ret)
      then halt r.ret (record s { world = r.next })
      else (let k = read_clock timeout r.next in
          if expired timeout (k.seconds - since)
          then halt (fail enodata) (record s { world = k.next })
          else again since (record s { world = k.next }))

  -- The loop of `ft_spin_for_comp`: its test comes after the body.
  unfoldable pub spin_loop : ℕ → Side → ℕ → Option ℕ → ℕ → Step W
  spin_loop zero d total timeout since s = out_of_rounds
  spin_loop (suc n) d total timeout since s = elim (spin_round d timeout since s) [
    | halt r t ↦ returns r t
    | again since' t ↦ elim (pending total (cq_cntr d t.ctx)) [
      | true ↦ spin_loop n d total timeout since' t
      | false ↦ returns (val 0) t
    ]
  ]

  unfoldable pub ft_spin_for_comp : ℕ → Side → ℕ → Option ℕ → Step W
  ft_spin_for_comp n d total timeout s =
      let k = read_clock timeout s.world in
      spin_loop n d total timeout k.seconds (record s { world = k.next })

  -- The body of `ft_wait_for_comp`.
  unfoldable pub wait_round : Side → Option ℕ → State W → Round W
  wait_round d timeout s =
      let r = fab.cq_sread (queue d s.ctx) 1 timeout s.world in
      if is_positive r.ret
      then take_completion d (queue d s.ctx) r.comp 0 (record s { world = r.next })
      else if is_negative r.ret && not (is_eagain r.ret)
      then halt r.ret (record s { world = r.next })
      else again 0 (record s { world = r.next })

  unfoldable pub ft_wait_for_comp : ℕ → Side → ℕ → Option ℕ → Step W
  ft_wait_for_comp zero d total timeout s = out_of_rounds
  ft_wait_for_comp (suc n) d total timeout s = elim (pending total (cq_cntr d s.ctx)) [
    | false ↦ returns (val 0) s
    | true ↦ elim (wait_round d timeout s) [
      | halt r t ↦ returns r t
      | again _ t ↦ ft_wait_for_comp n d total timeout t
    ]
  ]

  -- `ft_poll_fd`: a `poll` with no event is -FI_EAGAIN.
  unfoldable pub ft_poll_fd : ℕ → Option ℕ → W → record { ret : Ret; next : W }
  ft_poll_fd fd timeout w =
      let p = fab.poll fd timeout w in
      if is_negative p.ret
      then record { ret = p.ret; next = p.next }
      else if is_ok p.ret
      then record { ret = fail eagain; next = p.next }
      else record { ret = val 0; next = p.next }

  -- The body of `ft_fdwait_for_comp` after `fi_trywait` and the poll.
  unfoldable pub fdwait_read : Side → State W → Round W
  fdwait_read d s =
      let r = fab.cq_read (queue d s.ctx) 1 s.world in
      if is_positive r.ret
      then take_completion d (queue d s.ctx) r.comp 0 (record s { world = r.next })
      else if is_negative r.ret && not (is_eagain r.ret)
      then halt r.ret (record s { world = r.next })
      else again 0 (record s { world = r.next })

  unfoldable pub fdwait_round : Side → Option ℕ → State W → Round W
  fdwait_round d timeout s =
      let y = fab.trywait (queue d s.ctx) s.world in
      if is_ok y.ret
      then (let p = ft_poll_fd (wait_descriptor (queue d s.ctx) s.ctx) timeout y.next in
          if not (is_ok p.ret) && not (is_eagain p.ret)
          then halt p.ret (record s { world = p.next })
          else fdwait_read d (record s { world = p.next }))
      else fdwait_read d (record s { world = y.next })

  unfoldable pub ft_fdwait_for_comp : ℕ → Side → ℕ → Option ℕ → Step W
  ft_fdwait_for_comp zero d total timeout s = out_of_rounds
  ft_fdwait_for_comp (suc n) d total timeout s = elim (pending total (cq_cntr d s.ctx)) [
    | false ↦ returns (val 0) s
    | true ↦ elim (fdwait_round d timeout s) [
      | halt r t ↦ returns r t
      | again _ t ↦ ft_fdwait_for_comp n d total timeout t
    ]
  ]

  -- The loop that the completion method names; FT_COMP_WAITSET falls to the default, the spin.
  unfoldable pub wait_by : CompMethod → ℕ → Side → ℕ → Option ℕ → Step W
  wait_by sread = ft_wait_for_comp
  wait_by yield = ft_wait_for_comp
  wait_by wait_fd = ft_fdwait_for_comp
  wait_by spin = ft_spin_for_comp
  wait_by waitset = ft_spin_for_comp

  -- What `ft_get_cq_comp` does with the result: an error completion is read and counted.
  unfoldable pub after_wait : Side → Ret → Step W
  after_wait d r s =
      if is_eavail r
      then (let e = ft_cq_readerr fab (queue d s.ctx) s.world in
          returns e.ret (record { ctx = inc_cq_cntr d s.ctx; world = e.next }))
      else returns r s

  unfoldable pub ft_get_cq_comp : ℕ → Side → ℕ → Option ℕ → Step W
  ft_get_cq_comp n d total timeout s = elim (wait_by s.ctx.opts.comp_method n d total timeout s) [
    | returns r t ↦ after_wait d r t
    | out_of_rounds ↦ out_of_rounds
    | Outcome.fault ↦ Outcome.fault
  ]
