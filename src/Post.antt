-- ===== src/Post.antt =====
-- The macro `FT_POST` of libefa/src/libefa/ftlib/shared.c with `ft_progress` and `ft_cq_readerr`:
-- a request is posted again and again while the provider answers -FI_EAGAIN, and the completion
-- queue is read in between.
pub mod Laws
pub mod Account
pub mod Rounds
use efa_libfabric_bench.Prelude.{
  ℕ, zero, suc, ◌+◌, ◌%◌, ◌^◌, Bool, true, false, Option, none, some, not, ◌&&◌, if◌then◌else◌,
}
use efa_libfabric_bench.Fabric.{
  Ret, val, fail, Request, Fabric, is_ok, is_positive, is_negative, is_eagain, is_eavail,
}
use efa_libfabric_bench.Context.{Context, inc64}
use efa_libfabric_bench.Machine.{State, Outcome, returns, out_of_rounds, Step}

-- Which queue and which counters a post works on: all but receives use the transmit side.
pub data Side : Type 0 where
  tx rx : Side

-- The number of operations posted, `ctx->tx_seq` or `ctx->rx_seq`.
abbrev pub seq : Side → Context → ℕ
seq tx c = c.tx_seq
seq rx c = c.rx_seq

-- The number of completions seen, `ctx->tx_cq_cntr` or `ctx->rx_cq_cntr`.
abbrev pub cq_cntr : Side → Context → ℕ
cq_cntr tx c = c.tx_cq_cntr
cq_cntr rx c = c.rx_cq_cntr

abbrev pub queue : Side → Context → ℕ
queue tx c = c.txcq
queue rx c = c.rxcq

abbrev pub inc_seq : Side → Context → Context
inc_seq tx c = record c { tx_seq = inc64 c.tx_seq }
inc_seq rx c = record c { rx_seq = inc64 c.rx_seq }

abbrev pub inc_cq_cntr : Side → Context → Context
inc_cq_cntr tx c = record c { tx_cq_cntr = inc64 c.tx_cq_cntr }
inc_cq_cntr rx c = record c { rx_cq_cntr = inc64 c.rx_cq_cntr }

module _ {W : Type 0} (fab : Fabric W) where
  -- The error that a failed completion carries, or the failure to read it.
  unfoldable pub ft_cq_readerr : ℕ → W → record { ret : Ret; next : W }
  ft_cq_readerr cq w =
      let e = fab.cq_readerr cq w in
      if is_negative e.ret
      then record { ret = e.ret; next = e.next }
      else record { ret = e.err; next = e.next }

  unfoldable pub ft_progress : Side → State W → record { ret : Ret; next : State W }
  unfolding ft_cq_readerr
  ft_progress d s =
      let r = fab.cq_read (queue d s.ctx) 1 s.world in
      let counted : Context = inc_cq_cntr d s.ctx in
      if is_positive r.ret
      then record { ret = val 0; next = record { ctx = counted; world = r.next } }
      else if not (is_negative r.ret)
      then record { ret = val 0; next = record s { world = r.next } }
      else if is_eagain r.ret
      then record { ret = val 0; next = record s { world = r.next } }
      else if is_eavail r.ret
      then (let e = ft_cq_readerr (queue d s.ctx) r.next in
          record { ret = e.ret; next = record { ctx = counted; world = e.next } })
      else record { ret = r.ret; next = record s { world = r.next } }

  -- What follows a post that the provider refused: a read of the queue with the timeout at 0.
  unfoldable pub retry : Side → Request → State W → record { ret : Ret; next : State W }
  retry d req s =
      ft_progress d
        (record { ctx = record s.ctx { timeout = some 0 }; world = (fab.post req s.world).next })

  -- The state in which the loop goes on: the timeout is put back.
  unfoldable pub restored : Side → Request → State W → State W
  restored d req s =
      let t = (retry d req s).next in
      record { ctx = record (t.ctx) { timeout = s.ctx.timeout }; world = t.world }

  -- One round of the loop, which goes on with `again` when the provider is busy.
  unfoldable pub post_round : Side → Request → Step W → Step W
  post_round d req again s =
      let p = fab.post req s.world in
      if is_ok p.ret
      then returns (val 0) (record { ctx = inc_seq d s.ctx; world = p.next })
      else if not (is_eagain p.ret)
      then returns p.ret (record s { world = p.next })
      else (let g = retry d req s in
          if not (is_ok g.ret) && not (is_eagain g.ret)
          then returns g.ret g.next
          else again (restored d req s))

  -- `FT_POST`, in at most the given number of rounds. 0 stands for falling through.
  unfoldable pub ft_post : ℕ → Side → Request → Step W
  ft_post zero d req s = out_of_rounds
  ft_post (suc n) d req s = post_round d req (ft_post n d req) s
