-- ===== src/Completion/Settle.antt =====
-- A successful wait for everything that was posted, by any completion method, leaves nothing owed.
use efa_libfabric_bench.Prelude.{
  ℕ, zero, suc, ◌≡◌, refl, true, false, Option, none, arith, Bool-cases, inl, inr, ◌∙◌, sym, ◌||◌,
  ◌⊎◌,
}
use efa_libfabric_bench.Fabric.{Ret, val, Request, Fabric, is_ok, is_eagain}
use efa_libfabric_bench.Fabric.Contract.{Accounting}
use efa_libfabric_bench.Context.{CompMethod, spin, opt}
use efa_libfabric_bench.Context.Options
use efa_libfabric_bench.Machine.{State, returns, Outcome-cases}
use efa_libfabric_bench.Post.{Side, tx, rx, cq_cntr, queue, ft_cq_readerr}
use efa_libfabric_bench.Completion.{
  halt, again, pending, take_completion, wait_by, after_wait, ft_get_cq_comp, fdwait_read,
  fdwait_round, ft_fdwait_for_comp, ft_poll_fd, wait_descriptor,
}
use efa_libfabric_bench.Completion.Get.{ft_get_tx_comp, ft_get_rx_comp}
use efa_libfabric_bench.Completion.Drain.{
  Awaiting, Round-cases, pending-false, ft_spin_for_comp-success, ft_wait_for_comp-success,
}
use efa_libfabric_bench.Context.{sread, waitset, wait_fd, yield}

module _ {W : Type 0} {fab : Fabric W} {q : ℕ} {cost : Request → ℕ} {due : W → ℕ}
    (acc : Accounting fab q cost due) (m : ℕ) where
  fdwait_read-Awaiting :
      (d : Side) (a : ℕ) (s t : State W)
      → Awaiting d q due m s
      → fdwait_read fab d s ≡ again a t
      → Awaiting d q due m t
  unfolding fdwait_read take_completion
  fdwait_read-Awaiting tx a s t h e = ground (arith, acc.read_due 1 s.world, acc.read_few 1 s.world)
  fdwait_read-Awaiting rx a s t h e = ground (arith, acc.read_due 1 s.world, acc.read_few 1 s.world)

  fdwait_read-halt :
      (d : Side) (s t : State W) {r : Ret} → fdwait_read fab d s ≡ halt r t → is_ok r ≡ false
  unfolding fdwait_read take_completion
  fdwait_read-halt d s t e = ground arith

  due-ft_poll_fd : (fd : ℕ) (o : Option ℕ) (w : W) → due (ft_poll_fd fab fd o w).next ≡ due w
  unfolding ft_poll_fd
  due-ft_poll_fd fd o w = ground (arith, acc.poll_due fd o w)

  -- The state in which `ft_fdwait_for_comp` reads the queue.
  Awaiting-world :
      (d : Side) (s : State W) (w : W)
      → due w ≡ due s.world
      → Awaiting d q due m s
      → Awaiting d q due m (record s { world = w })
  Awaiting-world d s w e h = record {
    on_queue = h.on_queue;
    in_range = h.in_range;
    posted = h.posted;
    balance = rw e h.balance;
  }

  fdwait_round-cases :
      (d : Side) (timeout : Option ℕ) (s : State W)
      → queue d s.ctx ≡ q
      → ((w : W) × (due w ≡ due s.world)
          × (fdwait_round fab d timeout s ≡ fdwait_read fab d (record s { world = w })))
        ⊎ ((r : Ret) × (t : State W) × (is_ok r ≡ false)
            × (fdwait_round fab d timeout s ≡ halt r t))
  unfolding fdwait_round
  fdwait_round-cases d timeout s h =
      let y = fab.trywait (queue d s.ctx) s.world in
      let fd = wait_descriptor (queue d s.ctx) s.ctx in
      let p = ft_poll_fd fab fd timeout y.next in
      let tried : due y.next ≡ due s.world = ground (arith, acc.trywait_due s.world) in
      elim (Bool-cases (is_ok y.ret)) [
        | inr f ↦ inl (y.next, tried, ground arith)
        | inl o ↦ elim (Bool-cases (is_ok p.ret || is_eagain p.ret)) [
          | inl g ↦ inl (p.next, due-ft_poll_fd fd timeout y.next ∙ tried, ground arith)
          | inr b ↦ inr (p.ret, record s { world = p.next }, ground arith, ground arith)
        ]
      ]

  fdwait_round-Awaiting :
      (d : Side) (timeout : Option ℕ) (a : ℕ) (s t : State W)
      → Awaiting d q due m s
      → fdwait_round fab d timeout s ≡ again a t
      → Awaiting d q due m t
  fdwait_round-Awaiting d timeout a s t h e = elim (fdwait_round-cases d timeout s h.on_queue) [
    | inl (w, k, c) ↦
        fdwait_read-Awaiting d a (record s { world = w }) t (Awaiting-world d s w k h) (sym c ∙ e)
    | inr (r, u, k, c) ↦ absurd (cc)
  ]

  fdwait_round-halt :
      (d : Side) (timeout : Option ℕ) (s t : State W) {r : Ret}
      → Awaiting d q due m s
      → fdwait_round fab d timeout s ≡ halt r t
      → is_ok r ≡ false
  fdwait_round-halt d timeout s t {r} h e = elim (fdwait_round-cases d timeout s h.on_queue) [
    | inl (w, k, c) ↦ fdwait_read-halt d (record s { world = w }) t (sym c ∙ e)
    | inr (r', u, k, c) ↦ ground arith
  ]

  ft_fdwait_for_comp-success :
      (n : ℕ) (d : Side) (total : ℕ) (timeout : Option ℕ) (s : State W) (r : Ret) (t : State W)
      → Awaiting d q due m s
      → ft_fdwait_for_comp fab n d total timeout s ≡ returns r t
      → is_ok r ≡ true
      → Awaiting d q due m t × (pending total (cq_cntr d t.ctx) ≡ false)
  unfolding ft_fdwait_for_comp
  ft_fdwait_for_comp-success zero d total timeout s r t h e o = absurd (ground arith)
  ft_fdwait_for_comp-success (suc n) d total timeout s r t h e o =
      elim (Bool-cases (pending total (cq_cntr d s.ctx))) [
        | inr p ↦ let same : t ≡ s = ground arith in rw same (h, p)
        | inl p ↦ elim (Round-cases (fdwait_round fab d timeout s)) [
          | inl (r', t', c) ↦ absurd (ground (arith, fdwait_round-halt d timeout s t' h c))
          | inr (a, t', c) ↦
              ft_fdwait_for_comp-success n d total timeout t' r t
                (fdwait_round-Awaiting d timeout a s t' h c) (ground arith) o
        ]
      ]

  -- Each completion method is one of the three loops.
  wait_by-success :
      (method : CompMethod) (n : ℕ) (d : Side) (total : ℕ) (timeout : Option ℕ) (s : State W)
      (r : Ret) (t : State W)
      → Awaiting d q due m s
      → wait_by fab method n d total timeout s ≡ returns r t
      → is_ok r ≡ true
      → Awaiting d q due m t × (pending total (cq_cntr d t.ctx) ≡ false)
  unfolding wait_by
  wait_by-success spin = ft_spin_for_comp-success acc m
  wait_by-success waitset = ft_spin_for_comp-success acc m
  wait_by-success sread = ft_wait_for_comp-success acc m
  wait_by-success yield = ft_wait_for_comp-success acc m
  wait_by-success wait_fd = ft_fdwait_for_comp-success

  after_wait-success :
      (d : Side) (r r' : Ret) (s t : State W)
      → after_wait fab d r' s ≡ returns r t
      → is_ok r ≡ true
      → (is_ok r' ≡ true) × (t ≡ s)
  unfolding after_wait ft_cq_readerr
  after_wait-success d r r' s t e o = ground (arith, acc.error_code (queue d s.ctx) s.world)

  pub ft_get_cq_comp-success :
      (n : ℕ) (d : Side) (total : ℕ) (timeout : Option ℕ) (s : State W) (r : Ret) (t : State W)
      → Awaiting d q due m s
      → ft_get_cq_comp fab n d total timeout s ≡ returns r t
      → is_ok r ≡ true
      → Awaiting d q due m t × (pending total (cq_cntr d t.ctx) ≡ false)
  unfolding ft_get_cq_comp
  ft_get_cq_comp-success n d total timeout s r t h e o =
      elim (Outcome-cases (wait_by fab s.ctx.opts.comp_method n d total timeout s)) [
        | inl (r', u, c) ↦
            let k = after_wait-success d r r' u t (ground arith) o in
            rw (k.1) (wait_by-success s.ctx.opts.comp_method n d total timeout s r' u h c k.0)
        | inr (inl c) ↦ absurd (ground arith)
        | inr (inr c) ↦ absurd (ground arith)
      ]

  -- A side whose counter has reached the number of operations posted has nothing owed.
  Awaiting-done :
      (d : Side) (s : State W)
      → Awaiting d q due m s
      → pending m (cq_cntr d s.ctx) ≡ false
      → (cq_cntr d s.ctx ≡ m) × (due s.world ≡ 0)
  Awaiting-done d s h p =
      let e : cq_cntr d s.ctx ≡ m =
        pending-false m (cq_cntr d s.ctx) (omega (arith, h.balance)) h.in_range p in
      (e, omega (arith, h.balance, acc.bounded s.world))

  module _ (n : ℕ) (s t : State W) where
    -- A successful `ft_get_tx_comp` for all that was posted, on a connection that counts transmit
    -- completions by a queue and whose account is balanced: every posted operation has been
    -- counted, and the provider owes none, whatever the completion method.
    pub ft_get_tx_comp_drains :
        opt s.ctx Options.tx_cq ≡ true
        → Awaiting tx q due m s
        → ft_get_tx_comp fab n m s ≡ returns (val 0) t
        → Awaiting tx q due m t × (t.ctx.tx_cq_cntr ≡ m) × (due t.world ≡ 0)
    unfolding ft_get_tx_comp
    ft_get_tx_comp_drains cq h e =
        let k = ft_get_cq_comp-success n tx m none s (val 0) t h (ground arith) refl in
        let z = Awaiting-done tx t k.0 k.1 in (k.0, z.0, z.1)

    -- A successful `ft_get_rx_comp` for all that was posted, on a connection that counts receive
    -- completions by a queue and whose account is balanced: every posted receive has been
    -- counted, and the provider owes none, whatever the completion method.
    pub ft_get_rx_comp_drains :
        opt s.ctx Options.rx_cq ≡ true
        → Awaiting rx q due m s
        → ft_get_rx_comp fab n m s ≡ returns (val 0) t
        → Awaiting rx q due m t × (t.ctx.rx_cq_cntr ≡ m) × (due t.world ≡ 0)
    unfolding ft_get_rx_comp
    ft_get_rx_comp_drains cq h e =
        let k = ft_get_cq_comp-success n rx m s.ctx.timeout s (val 0) t h (ground arith) refl in
        let z = Awaiting-done rx t k.0 k.1 in (k.0, z.0, z.1)
