-- ===== src/Opening/Owned/Opens.antt =====
-- The steps that open an object lead from its rank to the next.
use mathlib.Core.Path.{subst}
use efa_libfabric_bench.Prelude.{
  ℕ, ◌+◌, ◌<◌, ◌≡◌, ◌∙◌, sym, ap, refl, Bool, true, false, ◌&&◌, ◌||◌, arith, Bool-cases, inl, inr,
}
use efa_libfabric_bench.Fabric.{is_ok}
use efa_libfabric_bench.Context.{Context, CompMethod, waitset, opt}
use efa_libfabric_bench.Context.Fids.{Fid, rxcq, txcq, rxcntr, txcntr, mr, slot_mr, same}
use efa_libfabric_bench.Context.Options
use efa_libfabric_bench.Release.Order.{same_path}
use efa_libfabric_bench.Machine.{State, then_update}
use efa_libfabric_bench.Opening.{
  Opening, opens, open_cq, open_cntr, Calls, set_fid, open_object, cq_wait_by, ft_cq_set_wait_attr,
  cntr_set_by, ft_cntr_set_wait_attr, ft_cntr_open, open_queue, set_cq_size,
}
use efa_libfabric_bench.Opening.Owned.{owned, rank, Stage, Calm, Reaches, Leads, CallsKeep}
use efa_libfabric_bench.Opening.Owned.Combine.{
  Same-world, Stage-Same, Stage-Reaches, Stage-Reaches_failed, Quiet-returns, Quiet-fault, pick,
  Calm-Leads, ◌▸◌, choose,
}

pub owned-set_fid :
    (x y : Fid) (n : ℕ) (c : Context) → same y x ≡ false → owned y (set_fid x n c) ≡ owned y c
owned-set_fid txcq y n c h = ground arith
owned-set_fid rxcq y n c h = ground arith
owned-set_fid txcntr y n c h = ground arith
owned-set_fid rxcntr y n c h = ground arith
owned-set_fid x y n c h = ground arith

-- A field of one's own: no region, and not the shared queue.
abbrev pub Plain : Bool → Fid → Type 0
Plain shared x = ((same x mr || same x slot_mr) ≡ false) × ((same x rxcq && shared) ≡ false)

owned_self :
    (x : Fid) (n : ℕ) (c : Context)
    → Plain (opt c Options.cq_shared) x
    → owned x (set_fid x n c) ≡ true
owned_self txcq n c h = refl
owned_self rxcq n c h = ground arith
owned_self txcntr n c h = refl
owned_self rxcntr n c h = refl
owned_self mr n c h = absurd (ground arith)
owned_self slot_mr n c h = absurd (ground arith)
owned_self x n c h = refl

options-set_fid : (x : Fid) (n : ℕ) (c : Context) → (set_fid x n c).opts ≡ c.opts
options-set_fid txcq n c = refl
options-set_fid rxcq n c = refl
options-set_fid txcntr n c = refl
options-set_fid rxcntr n c = refl
options-set_fid x n c = refl

later_differs : (x y : Fid) → rank x < rank y → same y x ≡ false
later_differs x y l = elim (Bool-cases (same y x)) [
  | inl e ↦ absurd (ground (arith, ap rank (same_path y x e)))
  | inr e ↦ e
]

module _ {W : Type 0} {live : Fid → W → Bool} {calls : Calls W} (law : CallsKeep calls live) where
  opened :
      (shared : Bool) (o : Opening) (s : State W)
      → Plain shared (opens o)
      → is_ok (calls.create o s.world).ret ≡ true
      → Stage live shared (rank (opens o)) s
      → let r = calls.create o s.world in
        Stage live shared
          (rank (opens o) + 1)
          (record { ctx = set_fid (opens o) r.fid s.ctx; world = r.next })
  opened shared o s p e h =
      let x = opens o in
      let r = calls.create o s.world in
      let fresh : live x s.world ≡ false = h.true_to x ∙ h.later x (omega arith) in
      let made = law.creates o s.world fresh e in
      let own : Plain (opt s.ctx Options.cq_shared) x = subst (λ b. Plain b x) (sym h.option) p in
      record {
        true_to = λ y. elim (Bool-cases (same y x)) [
          | inl q ↦
              ground (arith, made y, q)
              ∙ sym (
                  ap (λ v. owned v (set_fid x r.fid s.ctx)) (same_path y x q)
                  ∙ owned_self x r.fid s.ctx own)
          | inr q ↦ ground (arith, made y, q, h.true_to y, owned-set_fid x y r.fid s.ctx q)
        ];
        later = λ y l.
            owned-set_fid x y r.fid s.ctx (later_differs x y (omega arith))
            ∙ h.later y (omega arith);
        option =
            ap (λ v. Options.has v.options Options.cq_shared) (options-set_fid x r.fid s.ctx)
            ∙ h.option;
        one_region =
            ap (λ v. Options.has v.options Options.alloc_mult_mr) (options-set_fid x r.fid s.ctx)
            ∙ h.one_region;
      }

  -- A field of its own is filled at its rank.
  pub open-Leads :
      (shared : Bool) (o : Opening)
      → Plain shared (opens o)
      → Leads live shared (rank (opens o)) (rank (opens o) + 1) (open_object calls o)
  unfolding open_object
  open-Leads shared o p = record {
    leads = λ s h.
        let r = calls.create o s.world in
        choose (is_ok r.ret) (λ e. Stage-Reaches (opened shared o s p e h))
          (λ e. Stage-Reaches_failed e (Stage-Same (Same-world (law.refused o s.world e)) h));
  }

  cq_wait_by-Calm : (m : CompMethod) → Calm live (cq_wait_by calls m)
  unfolding cq_wait_by
  cq_wait_by-Calm waitset = record {
    calm = λ s.
        pick (s.ctx.objects.is_open Fid.waitset)
          (Quiet-returns
            (record { fields = refl; region = refl; sharing = (refl, refl); existing = λ y. refl }))
          Quiet-fault;
  }
  cq_wait_by-Calm _ = record {
    calm = λ s.
        Quiet-returns
          (record { fields = refl; region = refl; sharing = (refl, refl); existing = λ y. refl });
  }

  cntr_set_by-Calm : (m : CompMethod) → Calm live (cntr_set_by calls m)
  unfolding cntr_set_by
  cntr_set_by-Calm waitset = record {
    calm = λ s.
        pick (s.ctx.objects.is_open Fid.waitset)
          (Quiet-returns
            (record { fields = refl; region = refl; sharing = (refl, refl); existing = λ y. refl }))
          Quiet-fault;
  }
  cntr_set_by-Calm _ = record {
    calm = λ s.
        Quiet-returns
          (record { fields = refl; region = refl; sharing = (refl, refl); existing = λ y. refl });
  }

  pub open_here :
      (shared : Bool) (f : Context → Opening) (x : Fid)
      → ((c : Context) → opens (f c) ≡ x)
      → Plain shared x
      → Leads live shared (rank x) (rank x + 1) (λ s. open_object calls (f s.ctx) s)
  open_here shared f x e p = record {
    leads = λ s h.
        subst (λ v. Reaches live shared (rank v + 1) (open_object calls (f s.ctx) s)) (e s.ctx)
          ((open-Leads shared (f s.ctx) (subst (Plain shared) (sym (e s.ctx)) p)).leads s
            (subst (λ v. Stage live shared (rank v) s) (sym (e s.ctx)) h));
  }

  pub counter-Leads :
      (shared : Bool) (x : Fid)
      → Plain shared x
      → Leads live shared (rank x) (rank x + 1) (ft_cntr_open calls x)
  unfolding ft_cntr_open ft_cntr_set_wait_attr
  counter-Leads shared x p =
      Calm-Leads (record { calm = λ s. (cntr_set_by-Calm s.ctx.opts.comp_method).calm s })
      ▸ open_here shared (λ c. open_cntr x c.objects.cntr_wait) x (λ c. refl) p

  set_size-Calm : (n : Context → ℕ) → Calm live (then_update (set_cq_size calls n))
  set_size-Calm n = record {
    calm = λ s.
        Quiet-returns
          (record { fields = refl; region = refl; sharing = (refl, refl); existing = λ y. refl });
  }

  pub queue-Leads :
      (shared : Bool) (x : Fid) (n : Context → ℕ)
      → Plain shared x
      → Leads live shared (rank x) (rank x + 1) (open_queue calls x n)
  unfolding open_queue ft_cq_set_wait_attr
  queue-Leads shared x n p =
      Calm-Leads (record { calm = λ s. (cq_wait_by-Calm s.ctx.opts.comp_method).calm s })
      ▸ Calm-Leads (set_size-Calm n)
      ▸ open_here shared (λ c. open_cq x c.objects.cq_attr) x (λ c. refl) p
