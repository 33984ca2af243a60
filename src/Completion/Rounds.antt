-- ===== src/Completion/Rounds.antt =====
-- The loop of `ft_spin_for_comp` ends with a provider that delivers what it owes.
use mathlib.Core.Path.{subst}
use efa_libfabric_bench.Prelude.{ℕ, zero, suc, ◌<◌, ◌≡◌, true, none, arith, Bool-cases, inl, inr}
use efa_libfabric_bench.Fabric.{Ret, val, Request, Fabric, is_eavail}
use efa_libfabric_bench.Fabric.Contract.{Accounting, Delivering}
use efa_libfabric_bench.Context.{spin, opt}
use efa_libfabric_bench.Context.Options
use efa_libfabric_bench.Machine.{State, returns}
use efa_libfabric_bench.Post.{Side, tx, cq_cntr, queue, inc_cq_cntr, ft_cq_readerr}
use efa_libfabric_bench.Completion.{
  again, pending, take_completion, read_clock, spin_round, spin_loop, ft_spin_for_comp, wait_by,
  after_wait, ft_get_cq_comp,
}
use efa_libfabric_bench.Completion.Get.{ft_get_tx_comp}
use efa_libfabric_bench.Completion.Drain.{Awaiting, Round-cases, spin_round-Awaiting}

-- Where completions are missing, the provider owes some.
owed_if_pending :
    {W : Type 0} {q : ℕ} {due : W → ℕ} (d : Side) (m : ℕ) (s : State W)
    → Awaiting d q due m s
    → pending m (cq_cntr d s.ctx) ≡ true
    → 0 < due s.world
unfolding pending
owed_if_pending d m s h p = ground (arith, h.in_range, h.balance)

module _ {W : Type 0} {fab : Fabric W} {q : ℕ} {cost : Request → ℕ} {due work : W → ℕ}
    (acc : Accounting fab q cost due) (del : Delivering fab q due work) where
  -- A round that goes on without a timeout is one read of the queue.
  world-spin_round :
      (d : Side) (since a : ℕ) (s t : State W)
      → spin_round fab d none since s ≡ again a t
      → t.world ≡ (fab.cq_read (queue d s.ctx) 1 s.world).next
  unfolding spin_round take_completion read_clock
  world-spin_round d since a s t e = ground arith

  round-lt :
      (d : Side) (m since a : ℕ) (s t : State W)
      → Awaiting d q due m s
      → spin_round fab d none since s ≡ again a t
      → pending m (cq_cntr d t.ctx) ≡ true
      → work t.world < work s.world
  round-lt d m since a s t h e p =
      let e' : t.world ≡ (fab.cq_read q 1 s.world).next =
        subst (λ x. t.world ≡ (fab.cq_read x 1 s.world).next) h.on_queue
          (world-spin_round d since a s t e) in
      let o = owed_if_pending d m t (spin_round-Awaiting acc m d none since a s t h e) p in
      rw e' (
        del.read_works 1 s.world (omega arith)
          (omega (arith, acc.read_due 1 s.world, subst (λ x. 0 < due x) e' o)))

  spin_loop-returns :
      (n : ℕ) (d : Side) (m since : ℕ) (s : State W)
      → Awaiting d q due m s
      → work s.world < n
      → (r : Ret) × (t : State W) × (spin_loop fab n d m none since s ≡ returns r t)
  unfolding spin_loop
  spin_loop-returns zero d m since s h k = absurd (omega arith)
  spin_loop-returns (suc n) d m since s h k = elim (Round-cases (spin_round fab d none since s)) [
    | inl (r, t, c) ↦ (r, t, ground arith)
    | inr (a, t, c) ↦ elim (Bool-cases (pending m (cq_cntr d t.ctx))) [
      | inr p ↦ (val 0, t, ground arith)
      | inl p ↦
          let (r, u, e) =
            spin_loop-returns n d m a t (spin_round-Awaiting acc m d none since a s t h c)
              (omega (arith, round-lt d m since a s t h c p)) in
          (r, u, ground arith)
    ]
  ]

  after_wait-returns :
      (d : Side) (r : Ret) (s : State W)
      → (r' : Ret) × (t : State W) × (after_wait fab d r s ≡ returns r' t)
  unfolding after_wait
  after_wait-returns d r s = elim (Bool-cases (is_eavail r)) [
    | inl y ↦ (
      (ft_cq_readerr fab (queue d s.ctx) s.world).ret,
      record {
        ctx = inc_cq_cntr d s.ctx;
        world = (ft_cq_readerr fab (queue d s.ctx) s.world).next;
      },
      ground arith,
    )
    | inr z ↦ (r, s, ground arith)
  ]

  -- `ft_get_tx_comp` with FT_COMP_SPIN, for all that was posted, on a connection that counts transmit
  -- completions by a queue and whose account is balanced: it returns within one round more than
  -- the reads that the provider needs to deliver what it owes.
  pub ft_get_tx_comp-returns :
      (n m : ℕ) (s : State W)
      → opt s.ctx Options.tx_cq ≡ true
      → s.ctx.opts.comp_method ≡ spin
      → Awaiting tx q due m s
      → work s.world < n
      → (r : Ret) × (t : State W) × (ft_get_tx_comp fab n m s ≡ returns r t)
  unfolding ft_get_tx_comp ft_get_cq_comp wait_by ft_spin_for_comp read_clock
  ft_get_tx_comp-returns n m s cq by h k =
      let (r, t, e) = spin_loop-returns n tx m 0 s h k in
      let (r', u, e') = after_wait-returns tx r t in (r', u, ground arith)
