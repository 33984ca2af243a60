-- ===== src/Opening/Owned/Posting.antt =====
-- Posts and the memory for messages change no object of libfabric.
use efa_libfabric_bench.Prelude.{
  ℕ, zero, suc, ◌+◌, ◌≡◌, ◌∙◌, refl, Bool, true, false, some, not, ◌&&◌, if◌then◌else◌, arith,
}
use efa_libfabric_bench.Fabric.{
  Fabric, Request, Handle, Ret, val, is_ok, is_positive, is_negative, is_eagain, is_eavail,
}
use efa_libfabric_bench.Context.{Context, HmemIface, system, cuda, ze, opt}
use efa_libfabric_bench.Context.Fids.{Fid}
use efa_libfabric_bench.Context.Options
use efa_libfabric_bench.Context.Options.{has, set_flags, mask}
use efa_libfabric_bench.Context.Options.Laws.{has-set_flags}
use efa_libfabric_bench.Machine.{State}
use efa_libfabric_bench.Post.{
  Side, tx, rx, inc_seq, inc_cq_cntr, queue, ft_cq_readerr, ft_progress, retry, restored,
  post_round, ft_post,
}
use efa_libfabric_bench.Transfer.{ft_post_rx_buf, ft_post_rx}
use efa_libfabric_bench.Opening.Memory.{hmem_init, hmem_alloc, set_bytes, hmem_memset, ft_init}
use efa_libfabric_bench.Opening.Owned.{Same, Calm, FabricKeeps}
use efa_libfabric_bench.Opening.Owned.Combine.{
  Same-refl, Same-trans, Same-world, Quiet-returns, pick, calm_from,
}

-- A result whose state is the same.
record SameNext {W : Type 0} (live : Fid → W → Bool) (s : State W)
    (x : record { ret : Ret; next : State W }) : Type 0 where
  after : Same live s x.next

module _ {W : Type 0} {live : Fid → W → Bool} where
  -- Counting changes numbers only.
  pub Same-inc_cq_cntr :
      (d : Side) {s : State W} {w : W}
      → ((y : Fid) → live y w ≡ live y s.world)
      → Same live s (record { ctx = inc_cq_cntr d s.ctx; world = w })
  Same-inc_cq_cntr tx h = record {
    fields = refl;
    region = refl;
    sharing = (refl, refl);
    existing = h;
  }
  Same-inc_cq_cntr rx h = record {
    fields = refl;
    region = refl;
    sharing = (refl, refl);
    existing = h;
  }

  with_ret :
      {s t : State W} (r : Ret) → Same live s t → SameNext live s (record { ret = r; next = t })
  with_ret r p = record { after = p }

  same_pick :
      {s : State W} {x y : record { ret : Ret; next : State W }} (b : Bool)
      → SameNext live s x
      → SameNext live s y
      → SameNext live s (if b then x else y)
  same_pick true p q = p
  same_pick false p q = q

module _ {W : Type 0} {live : Fid → W → Bool} {fab : Fabric W} (law : FabricKeeps fab live) where
  pub readerr_keeps : (q : ℕ) (w : W) (y : Fid) → live y (ft_cq_readerr fab q w).next ≡ live y w
  unfolding ft_cq_readerr
  readerr_keeps q w y = ground (arith, law.cq_readerr q w y)

  ft_progress-Same : (d : Side) (s : State W) → SameNext live s (ft_progress fab d s)
  unfolding ft_progress
  ft_progress-Same d s =
      let r = fab.cq_read (queue d s.ctx) 1 s.world in
      let e = ft_cq_readerr fab (queue d s.ctx) r.next in
      let read = λ (y : Fid). law.cq_read (queue d s.ctx) 1 s.world y in
      same_pick (is_positive r.ret) (with_ret (val 0) (Same-inc_cq_cntr d read)) (
        same_pick (not (is_negative r.ret)) (with_ret (val 0) (Same-world read)) (
          same_pick (is_eagain r.ret) (with_ret (val 0) (Same-world read)) (
            same_pick (is_eavail r.ret)
              (with_ret e.ret
                (Same-inc_cq_cntr d (λ y. readerr_keeps (queue d s.ctx) r.next y ∙ read y)))
              (with_ret r.ret (Same-world read)))))

  retry-Same : (d : Side) (req : Request) (s : State W) → Same live s (retry fab d req s).next
  unfolding retry
  retry-Same d req s =
      let p =
        ft_progress-Same d (record {
          ctx = record s.ctx { timeout = some 0 };
          world = (fab.post req s.world).next;
        }) in
      Same-trans
        (record {
          fields = refl;
          region = refl;
          sharing = (refl, refl);
          existing = law.post req s.world;
        })
        p.after

  restored-Same : (d : Side) (req : Request) (s : State W) → Same live s (restored fab d req s)
  unfolding restored
  restored-Same d req s =
      let p = retry-Same d req s in
      record { fields = p.fields; region = p.region; sharing = p.sharing; existing = p.existing }

  pub ft_post-Calm : (n : ℕ) (d : Side) (req : Request) → Calm live (ft_post fab n d req)
  unfolding ft_post post_round
  ft_post-Calm zero d req = record { calm = λ s. record { quiet = tt } }
  ft_post-Calm (suc n) d req = record {
    calm = λ s. pick _ (Quiet-returns (sent d s)) (
        pick (not (is_eagain (fab.post req s.world).ret))
          (Quiet-returns (Same-world (law.post req s.world)))
          (pick (not (is_ok (retry fab d req s).ret) && not (is_eagain (retry fab d req s).ret))
            (Quiet-returns (retry-Same d req s))
            (calm_from _ (restored-Same d req s) ((ft_post-Calm n d req).calm _))));
  }
    where
      sent :
          (e : Side) (s : State W)
          → Same live s (record { ctx = inc_seq e s.ctx; world = (fab.post req s.world).next })
      sent tx s = record {
        fields = refl;
        region = refl;
        sharing = (refl, refl);
        existing = law.post req s.world;
      }
      sent rx s = record {
        fields = refl;
        region = refl;
        sharing = (refl, refl);
        existing = law.post req s.world;
      }

  pub ft_post_rx-Calm : (n size : ℕ) (h : Handle) → Calm live (ft_post_rx fab n size h)
  unfolding ft_post_rx ft_post_rx_buf
  ft_post_rx-Calm n size h = record { calm = λ s. (ft_post-Calm n rx _).calm s }

  hmem_init-Calm : (i : HmemIface) → Calm live (hmem_init fab i)
  unfolding hmem_init
  hmem_init-Calm system = record { calm = λ s. Quiet-returns Same-refl }
  hmem_init-Calm cuda = record { calm = λ s. record { quiet = tt } }
  hmem_init-Calm ze = record { calm = λ s. record { quiet = tt } }

  pub hmem_alloc-Calm :
      (i : HmemIface) (size : ℕ) (assign : ℕ → Context → Context)
      → ((p : ℕ) (s : State W) → Same live s (record s { ctx = assign p s.ctx }))
      → Calm live (hmem_alloc fab i size assign)
  unfolding hmem_alloc
  hmem_alloc-Calm system size assign p = record {
    calm = λ s. Quiet-returns (Same-trans (p _ s) (Same-world (law.malloc size s.world)));
  }
  hmem_alloc-Calm cuda size assign p = record { calm = λ s. record { quiet = tt } }
  hmem_alloc-Calm ze size assign p = record { calm = λ s. record { quiet = tt } }

  set_bytes_keeps : (n buf v : ℕ) (w : W) (y : Fid) → live y (set_bytes fab n buf v w) ≡ live y w
  unfolding set_bytes
  set_bytes_keeps zero buf v w y = refl
  set_bytes_keeps (suc n) buf v w y = set_bytes_keeps n (buf + 1) v _ y ∙ law.store buf v w y

  pub hmem_memset-Calm : (i : HmemIface) (buf v n : ℕ) → Calm live (hmem_memset fab i buf v n)
  unfolding hmem_memset
  hmem_memset-Calm system buf v n = record {
    calm = λ s. Quiet-returns (Same-world (set_bytes_keeps n buf v s.world));
  }
  hmem_memset-Calm cuda buf v n = record { calm = λ s. record { quiet = tt } }
  hmem_memset-Calm ze buf v n = record { calm = λ s. record { quiet = tt } }

  abbrev init_options : ℕ → Bool → ℕ
  init_options o b = if b then set_flags o (mask Options.oob_addr_exch) else o

  keeps_sharing :
      (o : ℕ) (b : Bool)
      → (has (init_options o b) Options.cq_shared ≡ has o Options.cq_shared)
        × (has (init_options o b) Options.alloc_mult_mr ≡ has o Options.alloc_mult_mr)
  keeps_sharing o true = (
    ground (arith, has-set_flags o Options.oob_addr_exch Options.cq_shared),
    ground (arith, has-set_flags o Options.oob_addr_exch Options.alloc_mult_mr),
  )
  keeps_sharing o false = (refl, refl)

  pub ft_init-Calm : Calm live (ft_init fab)
  unfolding ft_init
  ft_init-Calm = record {
    calm = λ s.
        calm_from _
          (record {
            fields = refl;
            region = refl;
            sharing = keeps_sharing s.ctx.opts.options (opt s.ctx Options.enable_hmem);
            existing = λ y. refl;
          })
          ((hmem_init-Calm s.ctx.opts.iface).calm _);
  }
