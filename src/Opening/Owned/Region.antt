-- ===== src/Opening/Owned/Region.antt =====
-- The memory for messages and its region.
use efa_libfabric_bench.Prelude.{
  ℕ, ◌≡◌, ◌∙◌, sym, ap, refl, Bool, true, false, not, ◌&&◌, if◌then◌else◌, arith, Bool-cases, inl,
  inr,
}
use efa_libfabric_bench.Fabric.{Fabric, Ret, is_ok, is_negative}
use efa_libfabric_bench.Context.{Context, opt}
use efa_libfabric_bench.Context.Fids.{Fid, mr, same}
use efa_libfabric_bench.Context.Options
use efa_libfabric_bench.Release.Order.{same_path}
use efa_libfabric_bench.Machine.{State, returns}
use efa_libfabric_bench.Access.{Access, registers, ft_info_to_mr_access}
use efa_libfabric_bench.Buffer.Layout.{
  sizes_by, message_sizes, large_size, aligned_size, place_buffers,
}
use efa_libfabric_bench.Opening.{open_mr, Calls}
use efa_libfabric_bench.Opening.Memory.{
  ft_mr_key, set_buf, alloc_buffer, ft_reg_mr, own_region, reg_whole, prepare_messages, set_sizes,
  clear_buffer, place_messages, reg_buffer, reg_messages,
}
use efa_libfabric_bench.Opening.Owned.{
  owned, rank, Stage, Quiet, Calm, Leads, FabricKeeps, CallsKeep,
}
use efa_libfabric_bench.Opening.Owned.Combine.{
  Same-world, Stage-Same, later-Stage, Stage-Reaches, Stage-Reaches_failed, Quiet-returns, pick,
  choose, when-Leads,
}
use efa_libfabric_bench.Opening.Owned.Posting.{hmem_alloc-Calm, hmem_memset-Calm}

-- What `owned` reads of a connection is in these two fields.
record KeepsFields (c d : Context) : Type 0 where
  objects : d.objects ≡ c.objects
  opts : d.opts ≡ c.opts

kept_if : (b : Bool) {c d : Context} → KeepsFields c d → KeepsFields c (if b then d else c)
kept_if true p = p
kept_if false p = record { objects = refl; opts = refl }

sizes_kept : (b : Bool) (c : Context) → KeepsFields c (sizes_by b c)
unfolding sizes_by
sizes_kept true c = record { objects = refl; opts = refl }
sizes_kept false c = record { objects = refl; opts = refl }

large_kept : (c : Context) → KeepsFields c (large_size c)
unfolding large_size
large_kept c = kept_if (opt c Options.init_large_buffer) (record { objects = refl; opts = refl })

aligned_kept : (page : ℕ) (c : Context) → KeepsFields c (aligned_size page c)
unfolding aligned_size
aligned_kept page c =
    kept_if (opt c Options.align && not (opt c Options.use_device))
      (record { objects = refl; opts = refl })

module _ {W : Type 0} {live : Fid → W → Bool} {fab : Fabric W} {calls : Calls W}
    (memory : FabricKeeps fab live) (law : CallsKeep calls live) where
  -- An assignment of sizes and addresses, after calls of the host
  assigned :
      {s : State W} {d : Context} {w : W} {r : Ret}
      → KeepsFields s.ctx d
      → ((y : Fid) → live y w ≡ live y s.world)
      → Quiet live s (returns r (record { ctx = d; world = w }))
  assigned k h = Quiet-returns (record {
    fields = ap (λ v. v.is_open) k.objects;
    region = ap (λ v. v.is_no_mr) k.objects;
    sharing = (
      ap (λ v. Options.has v.options Options.cq_shared) k.opts,
      ap (λ v. Options.has v.options Options.alloc_mult_mr) k.opts,
    );
    existing = h;
  })

  pub set_sizes-Calm : Calm live (set_sizes fab calls)
  unfolding set_sizes message_sizes
  set_sizes-Calm = record {
    calm = λ s.
        let sized = sizes_kept (opt s.ctx Options.alloc_mult_mr) s.ctx in
        let large = large_kept (sizes_by (opt s.ctx Options.alloc_mult_mr) s.ctx) in
        assigned
          (record { objects = large.objects ∙ sized.objects; opts = large.opts ∙ sized.opts })
          (λ y. refl);
  }

  pub alloc_buffer-Calm : Calm live (alloc_buffer fab calls)
  unfolding alloc_buffer
  alloc_buffer-Calm = record {
    calm = λ s.
        let page = calls.page_size s.world in
        let c = aligned_size page.size s.ctx in
        let m = calls.memalign page.size c.buf_size page.next in
        let k = aligned_kept page.size s.ctx in
        let asked = λ (y : Fid). law.page_size s.world y in
        let taken = λ (y : Fid). law.memalign page.size c.buf_size page.next y ∙ asked y in
        pick (opt s.ctx Options.align && not (opt s.ctx Options.use_device))
          (pick (is_negative page.ret) (Quiet-returns (Same-world asked)) (
            pick (is_ok m.ret) (assigned (record { objects = k.objects; opts = k.opts }) taken)
              (assigned k taken)))
          ((hmem_alloc-Calm memory s.ctx.opts.iface s.ctx.buf_size (set_buf fab calls) (λ p t.
              record {
                fields = refl;
                region = refl;
                sharing = (refl, refl);
                existing = λ y. refl;
              })).calm
            s);
  }

  pub clear_buffer-Calm : Calm live (clear_buffer fab calls)
  unfolding clear_buffer
  clear_buffer-Calm = record {
    calm = λ s. (hmem_memset-Calm memory s.ctx.opts.iface s.ctx.buf 0 s.ctx.buf_size).calm s;
  }

  -- The region that is not registered takes an empty field, and is not owned.
  pub place-Leads : (shared : Bool) → Leads live shared 4 4 (place_messages fab calls)
  unfolding place_messages place_buffers
  place-Leads shared = record {
    leads = λ s h.
        let same_owner : (y : Fid) → owned y (prepare_messages fab calls s.ctx) ≡ owned y s.ctx =
          λ y. elim (Bool-cases (same y mr)) [
            | inl q ↦ ground (
              arith,
              q,
              ap rank (same_path y mr q),
              h.later y (ground (arith, ap rank (same_path y mr q))),
            )
            | inr q ↦ ground (arith, q)
          ] in
        Stage-Reaches (record {
          true_to = λ y. h.true_to y ∙ sym (same_owner y);
          later = λ y l. same_owner y ∙ h.later y l;
          option = h.option;
          one_region = h.one_region;
        });
  }

  registered :
      {shared : Bool} (buf size : ℕ) (access : Access) (key : ℕ) (s : State W)
      → is_ok (calls.create (open_mr buf size access key) s.world).ret ≡ true
      → Stage live shared 4 s
      → let r = calls.create (open_mr buf size access key) s.world in
        Stage live shared 5 (record { ctx = own_region fab calls s.ctx; world = r.next })
  registered buf size access key s e h =
      let fresh : live mr s.world ≡ false = h.true_to mr ∙ h.later mr (omega arith) in
      let made = law.creates (open_mr buf size access key) s.world fresh e in
      record {
        true_to = λ y. elim (Bool-cases (same y mr)) [
          | inl q ↦ ground (arith, q, made y, ap rank (same_path y mr q))
          | inr q ↦ ground (arith, q, made y, h.true_to y)
        ];
        later = λ y l. elim (Bool-cases (same y mr)) [
          | inl q ↦ absurd (ground (arith, ap rank (same_path y mr q)))
          | inr q ↦ ground (arith, q, h.later y (omega arith))
        ];
        option = h.option;
        one_region = h.one_region;
      }

  reg_whole-Leads :
      {shared : Bool} (buf size : ℕ) (access : Access) (key : ℕ)
      → Leads live shared 4 5 (reg_whole fab calls buf size access key)
  unfolding reg_whole
  reg_whole-Leads buf size access key = record {
    leads = λ s h.
        let r = calls.create (open_mr buf size access key) s.world in
        choose (is_ok r.ret) (λ e. Stage-Reaches (registered buf size access key s e h))
          (λ e. Stage-Reaches_failed e (Stage-Same (Same-world (law.refused _ s.world e)) h));
  }

  reg_buffer-Leads : (shared : Bool) → Leads live shared 4 5 (reg_buffer fab calls)
  unfolding reg_buffer ft_reg_mr
  reg_buffer-Leads shared = record {
    leads = λ s h.
        choose (registers s.ctx)
          (λ _.
            (reg_whole-Leads s.ctx.buf s.ctx.buf_size (ft_info_to_mr_access s.ctx.fi)
                ft_mr_key).leads
              s h)
          (λ _. Stage-Reaches (later-Stage (omega arith) h));
  }

  pub reg_messages-Leads : (shared : Bool) → Leads live shared 4 5 (reg_messages fab calls)
  unfolding reg_messages
  reg_messages-Leads shared = when-Leads calls _ (omega arith) (reg_buffer-Leads shared)
