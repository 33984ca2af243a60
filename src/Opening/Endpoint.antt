-- ===== src/Opening/Endpoint.antt =====
-- The endpoint of a connection (libefa/src/libefa/ftlib/shared.c): `ft_get_cq_fd`,
-- `ft_init_alias_ep`, `ft_enable_ep` with the macro `FT_EP_BIND`, `ft_enable_ep_recv`, `ft_join_mc`,
-- and what `FT_PROCESS_EQ_ERR` and `eq_readerr` do with an event queue.
use efa_libfabric_bench.Prelude.{ℕ, Bool, true, false, not, ◌&&◌, ◌||◌, max, if◌then◌else◌}
use efa_libfabric_bench.Fabric.{Ret, val, fail, eother, Fabric, rx_ctx, is_ok, is_eavail}
use efa_libfabric_bench.Context.{Context, EpType, msg, CompMethod, wait_fd, opt}
use efa_libfabric_bench.Context.Fids.{Fid, txcq, rxcq}
use efa_libfabric_bench.Context.Options
use efa_libfabric_bench.Machine.{State, returns, Step, ◌>>◌}
use efa_libfabric_bench.Transfer.{ft_post_rx, ft_max_ctrl_msg}
use efa_libfabric_bench.Opening.{
  BindFlags, bind_ep, enable, open_alias, open_mc, Calls, EventKind, join_complete, no_event, entry,
  open_object, change, when,
}

abbrev no_flags : BindFlags
no_flags = record {
  transmit = false;
  recv = false;
  selective = false;
  send = false;
  read = false;
  write = false;
  remote_read = false;
  remote_write = false;
}

-- FI_TRANSMIT, and FI_SELECTIVE_COMPLETION where completions are not asked for
unfoldable pub tx_queue_flags : Context → BindFlags
tx_queue_flags c = record no_flags {
  transmit = true;
  selective = not (opt c Options.tx_cq) || opt c Options.selective_comp;
}

unfoldable pub rx_queue_flags : Context → BindFlags
rx_queue_flags c = record no_flags { recv = true; selective = not (opt c Options.rx_cq) }

-- What a counter counts: messages where no queue does, and the accesses that the hints name, or both
-- kinds where they only say FI_RMA.
unfoldable pub tx_counter_flags : Context → BindFlags
tx_counter_flags c =
    let caps = c.hints.caps in
    let both = not (caps.write || caps.read) && caps.rma in
    record no_flags {
      send = not (opt c Options.tx_cq);
      write = caps.write || both;
      read = caps.read || both;
    }

unfoldable pub rx_counter_flags : Context → BindFlags
rx_counter_flags c =
    let caps = c.hints.caps in
    let both = not (caps.remote_write || caps.remote_read) && caps.rma in
    record no_flags {
      recv = not (opt c Options.rx_cq);
      remote_write = caps.remote_write || both;
      remote_read = caps.remote_read || both;
    }

abbrev is_msg : EpType → Bool
is_msg msg = true
is_msg _ = false

abbrev pub waits_on_fd : CompMethod → Bool
waits_on_fd wait_fd = true
waits_on_fd _ = false

-- The endpoint itself is bound to the event queue.
abbrev binds_eq : Context → Bool
binds_eq c =
    (is_msg c.fi.ep_type || (c.fi.attr.multicast || c.fi.attr.collective))
    && not (opt c Options.domain_eq)

abbrev pub put_fd : Fid → ℕ → Context → Context
put_fd txcq n c = record c { tx_fd = n }
put_fd rxcq n c = record c { rx_fd = n }
put_fd _ n c = c

-- Receives are posted for messages, and where there are buffers for them.
abbrev pub receives : Context → Bool
receives c = not (opt c Options.skip_msg_alloc) && (c.fi.caps.msg || c.fi.caps.tagged)

module _ {W : Type 0} (calls : Calls W) where
  -- `FT_EP_BIND`: what is not there is not bound.
  unfoldable pub bind_if : Fid → (Context → BindFlags) → Step W
  bind_if x flags =
      when calls (λ c. c.objects.is_open x) (λ s. change calls (bind_ep x (flags s.ctx)) s)

  unfoldable pub ft_get_cq_fd : Fid → Step W
  ft_get_cq_fd x s =
      let r = calls.get_wait x s.world in
      if s.ctx.objects.is_open x && waits_on_fd s.ctx.opts.comp_method
      then (if is_ok r.ret
          then returns r.ret (record { ctx = put_fd x r.fd s.ctx; world = r.next })
          else returns r.ret (record s { world = r.next }))
      else returns (val 0) s

  unfoldable pub ft_init_alias_ep : ℕ → Step W
  ft_init_alias_ep flags = open_object calls (open_alias flags)

  unfoldable pub ft_enable_ep : Step W
  ft_enable_ep =
      when calls binds_eq (bind_if Fid.eq (λ c. no_flags))
      >> bind_if Fid.av (λ c. no_flags)
      >> bind_if txcq tx_queue_flags
      >> bind_if rxcq rx_queue_flags
      >> ft_get_cq_fd txcq
      >> ft_get_cq_fd rxcq
      >> bind_if Fid.txcntr tx_counter_flags
      >> bind_if Fid.rxcntr rx_counter_flags
      >> change calls enable

  -- What `fi_eq_sread` returned, as an `int`; an error that is in the queue is read.
  unfoldable pub process_eq_err : Ret → Step W
  process_eq_err rd s =
      if is_eavail rd
      then returns rd (record s { world = calls.eq_readerr s.world })
      else returns rd s

  -- Waits for an event of one kind on the object that the caller names.
  unfoldable pub await_event : (EventKind → Bool) → Step W
  await_event expected s =
      let e = calls.eq_sread s.world in
      let t : State W = record s { world = e.next } in
      elim e.event [
        | no_event rd ↦ process_eq_err rd t
        | entry kind own info ↦
            if expected kind && own then returns (val 0) t else returns (fail eother) t
      ]

  abbrev is_join : EventKind → Bool
  is_join join_complete = true
  is_join _ = false

  unfoldable pub ft_join_mc : Step W
  ft_join_mc = open_object calls open_mc >> await_event is_join

module _ {W : Type 0} (fab : Fabric W) (rounds : ℕ) (calls : Calls W) where
  -- The first receive, which will take the address of the other end.
  unfoldable pub post_first_rx : Step W
  post_first_rx =
      when calls receives (λ s. ft_post_rx fab rounds (max s.ctx.rx_size ft_max_ctrl_msg) rx_ctx s)

  unfoldable pub ft_enable_ep_recv : Step W
  ft_enable_ep_recv = ft_enable_ep calls >> post_first_rx
