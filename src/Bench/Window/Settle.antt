-- ===== src/Bench/Window/Settle.antt =====
-- How the batch worker of SendRecvServer.cpp on an endpoint with FT_OPT_FI_MORE: the account at its end.
use efa_libfabric_bench.Prelude.{
  ℕ, zero, suc, ◌+◌, ◌-◌, ◌*◌, ◌%◌, ◌^◌, ◌<◌, ◌≡◌, true, false, arith, Bool-cases, inl, inr, ltb,
  ◌==◌, ==_iff, if◌then◌else◌, ◌&&◌, not, ◌∙◌, sym,
}
use mathlib.Core.Path.{subst}
use efa_libfabric_bench.Fabric.{Ret, val, Fabric, is_ok, is_positive, is_negative, is_eagain}
use efa_libfabric_bench.Fabric.Contract.{Accounting, tx_cost, taken}
use efa_libfabric_bench.Context.{CompMethod}
use efa_libfabric_bench.Machine.{Outcome-cases, returns}
use efa_libfabric_bench.Post.{tx}
use efa_libfabric_bench.Completion.Drain.{Awaiting}
use efa_libfabric_bench.Completion.Get.{ft_get_tx_comp}
use efa_libfabric_bench.Completion.Settle.{ft_get_tx_comp_drains}
use efa_libfabric_bench.Node.{fi_cq_read, get_n_tx_completion}
use efa_libfabric_bench.Bench.{
  Worker, End, finished, returned, exited, endless, crashed, call, or_exit, count_op, Steady,
  unless_over,
}
use efa_libfabric_bench.Bench.Loops.{
  add32, sub32, extend, drain, fill, make_room, settle, window_loop, window_rest,
}
use efa_libfabric_bench.Bench.Window.{
  Window, moved, Window-settle, Window-moved, attempt, posted, post_tx_cases, Window-posted,
  Window-refused, Window-clock,
}

ok_val : (r : Ret) → is_ok r ≡ true → r ≡ val 0
ok_val r h = ground arith

module _ {W : Type 0} {fab : Fabric W} {q : ℕ} {due : W → ℕ}
    (acc : Accounting fab q (tx_cost false) due) (st : Steady W) (runtime start base batch : ℕ)
    (small : batch < 2 ^ 31) (method : CompMethod) (Good : Worker W → Type 0) where
  abbrev Win : ℕ → Worker W → Type 0
  Win = Window acc st runtime start base batch small method

  -- What an end of the worker says of the account: `Good` where it finishes.
  pub data Settled : End W → Type 0 where
    good_end : {x : Worker W} → Good x → Settled (finished x)
    broken_off :
        {r : Ret} {x : Worker W} → is_ok r ≡ false → (o : ℕ) → Win o x → Settled (returned r x)
    gave_up : {x : Worker W} → Settled (exited x)
    no_end : Settled endless
    crashes : Settled crashed

  -- A continuation that settles what it is given.
  abbrev Settles : (ℕ → Worker W → End W) → Type 0
  Settles k = (o : ℕ) (x : Worker W) → Win o x → Settled (k o x)

  drain-Settled :
      (rounds n o : ℕ) (k : ℕ → Worker W → End W) (x : Worker W)
      → Settles k
      → Win o x
      → Settled (drain fab st rounds runtime start n o k x)
  unfolding drain fi_cq_read
  drain-Settled rounds zero o k x good h = no_end
  drain-Settled rounds (suc n) o k x good h =
      let r = fab.cq_read x.node.ctx.txcq 10 x.node.world in
      elim (Bool-cases (is_positive r.ret)) [
        | inl p ↦
            rw (drain, p)
              (good (sub32 o (taken r.ret)) (settle (taken r.ret) (moved x r.next))
                (Window-settle o x h))
        | inr p ↦ elim (Bool-cases (is_negative r.ret && not (is_eagain r.ret))) [
          | inl e ↦ rw (drain, p, e) (broken_off (ground arith) o (Window-moved o x h p))
          | inr e ↦
              rw (drain, p, e)
                (drain-Settled rounds n o k (moved x r.next) good (Window-moved o x h p))
        ]
      ]

  make_room-Settled :
      (rounds o : ℕ) (k : ℕ → Worker W → End W) (x : Worker W)
      → Settles k
      → Win o x
      → Settled (make_room fab st rounds runtime start batch o k x)
  unfolding make_room
  make_room-Settled rounds o k x good h = elim (Bool-cases (o == batch)) [
    | inl e ↦ rw (make_room, e) (drain-Settled rounds rounds o k x good h)
    | inr e ↦ rw (make_room, e) (good o x h)
  ]

  module _ (rounds o : ℕ) (x : Worker W) (h : Win o x) where
    fill-Settled :
        (k : ℕ → Worker W → End W)
        → Settles k
        → Settled (fill fab st rounds runtime start batch o k x)
    unfolding fill
    fill-Settled k good = elim (Bool-cases (ltb o batch)) [
      | inr l ↦ rw (fill, l) (good o x h)
      | inl l ↦ elim (post_tx_cases o x h rounds) [
        | inl (e, p) ↦
            rw (fill, l, call, p)
              (good (add32 o 1) (count_op (record x { node = posted fab x }))
                (Window-posted o x h e l))
        | inr (e, p) ↦ elim (Bool-cases (is_eagain (attempt fab x).ret)) [
          | inl a ↦
              rw (fill, l, call, p, e, a)
                (drain-Settled rounds rounds o k (moved x (attempt fab x).next) good
                  (Window-refused o x h e))
          | inr a ↦ rw (fill, l, call, p, e, a) (broken_off e o (Window-refused o x h e))
        ]
      ]
    ]

  module _ (quiet : (w : W) → due (st.now w).next ≡ due w) where
    unless_over-Settled :
        (o : ℕ) (k leave : ℕ → Worker W → End W) (x : Worker W)
        → Settles k
        → Settles leave
        → Win o x
        → Settled (unless_over st runtime start (k o) (leave o) x)
    unless_over-Settled o k leave x goes good h =
        let w = st.now x.node.world in
        elim (Bool-cases (ltb (runtime * 1000000000) (w.time - start))) [
          | inl e ↦ rw (unless_over, e) (good o (moved x w.next) (Window-clock quiet o x h))
          | inr e ↦ rw (unless_over, e) (goes o (moved x w.next) (Window-clock quiet o x h))
        ]

    window_loop-Settled :
        (rounds n o : ℕ) (leave : ℕ → Worker W → End W) (x : Worker W)
        → Settles leave
        → Win o x
        → Settled (window_loop fab st rounds runtime start n batch o leave x)
    unfolding window_loop
    window_loop-Settled rounds zero o leave x good h = no_end
    window_loop-Settled rounds (suc n) o leave x good h = fill-Settled rounds o x h _ (λ o' y w'.
        make_room-Settled rounds o' _ y
          (λ o'' z w''.
            unless_over-Settled o'' (λ p. window_loop fab st rounds runtime start n batch p leave)
              leave z (λ p u v. window_loop-Settled rounds n p leave u good v) good w'')
          w')

module _ {W : Type 0} {fab : Fabric W} {q : ℕ} {due : W → ℕ}
    (acc : Accounting fab q (tx_cost false) due) (st : Steady W) (runtime start base batch : ℕ)
    (small : batch < 2 ^ 31) (method : CompMethod) where
  -- As many completions are owed as operations are outstanding.
  abbrev pub Owing : ℕ → Worker W → Type 0
  Owing = Window acc st runtime start base batch small method

  -- Nothing is owed, and every operation is counted.
  pub record Done (x : Worker W) : Type 0 where
    pub all_counted : x.node.ctx.tx_cq_cntr ≡ x.node.ctx.tx_seq
    pub none_owed : due x.node.world ≡ 0
    pub all_posted : x.node.ctx.tx_seq ≡ (base + x.ops) % 2 ^ 64

  abbrev pub Ended : (Worker W → Type 0) → End W → Type 0
  Ended = Settled acc st runtime start base batch small method

  -- What follows the loop where it is left with `outstandingOps` equal to `m`
  abbrev pub left_with : ℕ → ℕ → Worker W → End W
  left_with m o x = if o == m then finished x else endless

  left_with-Ended : (m o : ℕ) (x : Worker W) → Owing o x → Ended (Owing m) (left_with m o x)
  left_with-Ended m o x h = elim (Bool-cases (o == m)) [
    | inl e ↦ rw e (good_end (subst (λ k. Owing k x) ((==_iff o m).0 e) h))
    | inr e ↦ rw e no_end
  ]

  module _ (quiet : (w : W) → due (st.now w).next ≡ due w) where
    window_rest-Ended :
        (rounds o : ℕ) (leave : Worker W → End W) (x : Worker W)
        → ((y : Worker W) → Done y → Ended Done (leave y))
        → Owing o x
        → Ended Done (window_rest fab st rounds runtime start leave o x)
    unfolding window_rest get_n_tx_completion
    window_rest-Ended rounds o leave x on h =
        let c = x.node.ctx in
        let total = (c.tx_cq_cntr + extend o) % 2 ^ 64 in
        let plain : extend o ≡ o = ground (arith, h.in_window, small) in
        let same : total ≡ c.tx_seq = omega (arith, h.ahead.balance, h.outstanding, plain) in
        let waits : Awaiting tx q due total x.node = record {
          on_queue = h.ahead.on_queue;
          in_range = h.ahead.in_range;
          posted = sym same;
          balance = omega (arith, h.outstanding, plain);
        } in
        elim (Outcome-cases (ft_get_tx_comp fab rounds total x.node)) [
          | inl (r, t, e) ↦ elim (Bool-cases (is_ok r)) [
            | inr k ↦ rw (window_rest, or_exit, call, get_n_tx_completion, e, k) gave_up
            | inl k ↦
                let e' =
                  subst (λ v. ft_get_tx_comp fab rounds total x.node ≡ returns v t) (ok_val r k)
                    e in
                let (a, all, none_due) =
                  ft_get_tx_comp_drains acc total rounds x.node t h.posting.by_queue waits e' in
                rw (window_rest, or_exit, call, get_n_tx_completion, e, k)
                  (on (record x { node = t })
                    (record {
                      all_counted = all ∙ sym a.posted;
                      none_owed = none_due;
                      all_posted = a.posted ∙ same ∙ h.counted;
                    }))
          ]
          | inr (inl e) ↦ rw (window_rest, or_exit, call, get_n_tx_completion, e) no_end
          | inr (inr e) ↦ rw (window_rest, or_exit, call, get_n_tx_completion, e) crashes
        ]

    -- The batch worker on an endpoint with FT_OPT_FI_MORE, a batch below 2 ^ 31 and a clock that
    -- completes no operation, from a balanced account with as many completions owed as operations are
    -- outstanding, and no more than a batch. Whenever it leaves its loop, whatever the provider
    -- answered, with `outstandingOps` at `m`, then exactly `m` completions are owed, no more than a
    -- batch, and the account is balanced; where it returns early the account is balanced and no
    -- more than a batch is owed. Where it ends behind its last wait, every operation has been counted
    -- as complete and none is owed; the operation counter is the number of accepted posts.
    pub window_worker-Settled :
        (rounds n o m : ℕ) (leave : Worker W → End W) (x : Worker W)
        → ((y : Worker W) → Done y → Ended Done (leave y))
        → Owing o x
        → Ended (Owing m) (window_loop fab st rounds runtime start n batch o (left_with m) x)
          × Ended Done (
              window_loop fab st rounds runtime start n batch o
                (window_rest fab st rounds runtime start leave)
                x)
    window_worker-Settled rounds n o m leave x on h = (
      window_loop-Settled acc st runtime start base batch small method (Owing m) quiet rounds n o
          (left_with m) x (left_with-Ended m) h,
      window_loop-Settled acc st runtime start base batch small method Done quiet rounds n o
          (window_rest fab st rounds runtime start leave) x
          (λ p y v. window_rest-Ended rounds p leave y on v) h,
    )
