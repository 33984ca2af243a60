-- ===== src/Opening/Owned/Slots.antt =====
-- The slots of the window, and all that the endpoint needs.
use efa_libfabric_bench.Prelude.{
  ℕ, zero, suc, ◌+◌, ◌≡◌, refl, false, Bool, List, [], if◌then◌else◌, ◌==◌, arith,
}
use efa_libfabric_bench.Fabric.{Fabric, val, fail, enomem, is_ok}
use efa_libfabric_bench.Context.{Context, Info, opt}
use efa_libfabric_bench.Context.Fids.{Fid, Slot}
use efa_libfabric_bench.Context.Options
use efa_libfabric_bench.Machine.{State, Outcome, returns, out_of_rounds, fault, Step}
use efa_libfabric_bench.Opening.{open_ep, Calls, with_objects}
use efa_libfabric_bench.Opening.Memory.{
  ft_tx_mr_key, ft_rx_mr_key, ctx_array_loop, ft_alloc_ctx_array, as_enomem, alloc_tx_array,
  alloc_rx_array, ft_alloc_msgs, ft_alloc_ep_res, ft_alloc_active_res,
}
use efa_libfabric_bench.Opening.Owned.{Same, Quiet, Leads, FabricKeeps, CallsKeep}
use efa_libfabric_bench.Opening.Owned.Combine.{
  Same-world, Quiet-returns, pick, calm_from, Calm-Leads, ◌▸◌, when-Leads, Quiet-Reaches,
}
use efa_libfabric_bench.Opening.Owned.Opens.{open-Leads}
use efa_libfabric_bench.Opening.Owned.Queues.{queues-Leads}
use efa_libfabric_bench.Opening.Owned.Region.{
  set_sizes-Calm, alloc_buffer-Calm, clear_buffer-Calm, place-Leads, reg_messages-Leads,
}

module _ {W : Type 0} {live : Fid → W → Bool} {fab : Fabric W} {calls : Calls W}
    (memory : FabricKeeps fab live) (law : CallsKeep calls live) where
  -- The slots go to a field that `owned` does not read.
  abbrev KeepsSlots : (List Slot → Context → Context) → Type 0
  KeepsSlots keep = (xs : List Slot) (s : State W) → Same live s (record s { ctx = keep xs s.ctx })

  -- Without FT_OPT_ALLOC_MULT_MR the slots lie in the one region.
  loop-Quiet :
      (keep : List Slot → Context → Context) (left i buf size key : ℕ) (got : List Slot)
      (s : State W)
      → KeepsSlots keep
      → opt s.ctx Options.alloc_mult_mr ≡ false
      → Quiet live s (ctx_array_loop fab calls keep left i buf size key got s)
  unfolding ctx_array_loop
  loop-Quiet keep zero i buf size key got s k e = Quiet-returns (k got s)
  loop-Quiet keep (suc left) i buf size key got s k e =
      rw (ctx_array_loop, e) (loop-Quiet keep left (i + 1) buf size key _ s k e)

  array-Quiet :
      (keep : List Slot → Context → Context) (buf size key : ℕ) (s : State W)
      → KeepsSlots keep
      → opt s.ctx Options.alloc_mult_mr ≡ false
      → Quiet live s (ft_alloc_ctx_array fab calls keep buf size key s)
  unfolding ft_alloc_ctx_array
  array-Quiet keep buf size key s k e =
      let n = s.ctx.opts.window_size in
      let a = fab.malloc n s.world in
      let one = λ (y : Fid). memory.malloc n s.world y in
      rw (ft_alloc_ctx_array, e)
        (pick (a.ptr == 0) (Quiet-returns (Same-world one)) (
          calm_from _ (Same-world one)
            (loop-Quiet keep n 0 buf size key [] (record s { world = a.next }) k e)))

  enomem-Quiet :
      (m : Step W) (s : State W) → Quiet live s (m s) → Quiet live s (as_enomem fab calls m s)
  enomem-Quiet m s p = mapped (m s) p
    where
      mapped :
          {s : State W} (x : Outcome W)
          → Quiet live s x
          → Quiet live s (elim x [
            | returns r t ↦ returns (if is_ok r then val 0 else fail enomem) t
            | out_of_rounds ↦ out_of_rounds
            | fault ↦ fault
          ])
      mapped (returns r t) q = Quiet-returns q.quiet
      mapped out_of_rounds q = q
      mapped fault q = q

  tx_array-Leads : (shared : Bool) → Leads live shared 5 5 (alloc_tx_array fab calls)
  unfolding alloc_tx_array
  tx_array-Leads shared = record {
    leads = λ s h.
        let keep : List Slot → Context → Context =
          λ xs. with_objects (λ o. record o { tx_ctx_arr = xs }) in
        Quiet-Reaches (alloc_tx_array fab calls s)
          (enomem-Quiet
            (λ t. ft_alloc_ctx_array fab calls keep t.ctx.tx_buf t.ctx.tx_mr_size ft_tx_mr_key t) s
            (array-Quiet keep s.ctx.tx_buf s.ctx.tx_mr_size ft_tx_mr_key s
              (λ xs t. record {
                fields = refl;
                region = refl;
                sharing = (refl, refl);
                existing = λ y. refl;
              })
              h.one_region))
          h;
  }

  rx_array-Leads : (shared : Bool) → Leads live shared 5 5 (alloc_rx_array fab calls)
  unfolding alloc_rx_array
  rx_array-Leads shared = record {
    leads = λ s h.
        let keep : List Slot → Context → Context =
          λ xs. with_objects (λ o. record o { rx_ctx_arr = xs }) in
        Quiet-Reaches (alloc_rx_array fab calls s)
          (enomem-Quiet
            (λ t. ft_alloc_ctx_array fab calls keep t.ctx.rx_buf t.ctx.rx_mr_size ft_rx_mr_key t) s
            (array-Quiet keep s.ctx.rx_buf s.ctx.rx_mr_size ft_rx_mr_key s
              (λ xs t. record {
                fields = refl;
                region = refl;
                sharing = (refl, refl);
                existing = λ y. refl;
              })
              h.one_region))
          h;
  }

  messages-Leads : (shared : Bool) → Leads live shared 4 5 (ft_alloc_msgs fab calls)
  unfolding ft_alloc_msgs
  messages-Leads shared = when-Leads calls _ (omega arith) (
      Calm-Leads (set_sizes-Calm memory law)
      ▸ Calm-Leads (alloc_buffer-Calm memory law)
      ▸ Calm-Leads (clear_buffer-Calm memory law)
      ▸ place-Leads memory law shared
      ▸ reg_messages-Leads memory law shared
      ▸ tx_array-Leads shared
      ▸ rx_array-Leads shared)

  -- All that an endpoint needs, and the endpoint.
  pub active-Leads :
      (shared : Bool) (fi : Info) → Leads live shared 4 11 (ft_alloc_active_res fab calls fi)
  unfolding ft_alloc_active_res ft_alloc_ep_res
  active-Leads shared fi =
      (messages-Leads shared ▸ queues-Leads law shared fi)
      ▸ open-Leads law shared open_ep (refl, refl)
