-- ===== src/Bench/Window/Ends.antt =====
-- The batch worker ends, where the provider delivers what it owes and the clock goes on.
use efa_libfabric_bench.Prelude.{
  ℕ, zero, suc, ◌+◌, ◌-◌, ◌*◌, ◌%◌, ◌^◌, ◌<◌, ◌≤◌, ◌≡◌, false, arith, Bool-cases, inl, inr, ◌≢◌,
  ltb, ◌==◌, ◌&&◌, not, sym,
}
use mathlib.Core.Path.{subst}
use efa_libfabric_bench.Fabric.{
  Request, Fabric, tx_ctx, more, is_ok, is_positive, is_negative, is_eagain,
}
use efa_libfabric_bench.Fabric.Contract.{Accounting, Delivering, Refusing, tx_cost, taken}
use efa_libfabric_bench.Context.{spin, ft_tx_prefix_size}
use efa_libfabric_bench.Post.{tx}
use efa_libfabric_bench.Completion.Drain.{Awaiting}
use efa_libfabric_bench.Transfer.{sendmsg_request}
use efa_libfabric_bench.Node.{fi_cq_read, get_n_tx_completion}
use efa_libfabric_bench.Bench.{Worker, End, endless, call, or_exit, count_op, Steady, unless_over}
use efa_libfabric_bench.Bench.Loops.{
  add32, sub32, extend, drain, fill, make_room, settle, window_loop, window_rest,
}
use efa_libfabric_bench.Bench.Window.{
  Window, moved, Window-settle, Window-moved, attempt, posted, post_tx_cases, Window-posted,
  Window-refused, Window-clock,
}
use efa_libfabric_bench.Completion.Rounds.{ft_get_tx_comp-returns}

-- The clock passes the end of the run within `left` readings, and nothing else takes it back.
pub record Passing {W : Type 0} (fab : Fabric W) (st : Steady W) (runtime start : ℕ) (left : W → ℕ)
    : Type 0 where
  pub now_passes :
      (w : W)
      → ltb (runtime * 1000000000) ((st.now w).time - start) ≡ false
      → left (st.now w).next < left w
  pub post_keeps : (req : Request) (w : W) → left (fab.post req w).next ≤ left w
  pub read_keeps : (q n : ℕ) (w : W) → left (fab.cq_read q n w).next ≤ left w

module _ {W : Type 0} {fab : Fabric W} {q : ℕ} {due : W → ℕ}
    (acc : Accounting fab q (tx_cost false) due) (st : Steady W) (runtime start base batch : ℕ)
    (small : batch < 2 ^ 31) {work left : W → ℕ} (del : Delivering fab q due work)
    (ref : Refusing fab due) (pass : Passing fab st runtime start left)
    (quiet : (w : W) → due (st.now w).next ≡ due w) (cap : ℕ) (at_most : (w : W) → work w ≤ cap)
    (some_room : 0 < batch) where
  abbrev Win : ℕ → Worker W → Type 0
  Win = Window acc st runtime start base batch small spin

  abbrev Ends : End W → Type 0
  Ends e = e ≢ endless

  -- A continuation that ends where no more readings of the clock are left.
  abbrev EndsWithin : ℕ → (ℕ → Worker W → End W) → Type 0
  EndsWithin m k = (o : ℕ) (x : Worker W) → Win o x → left x.node.world ≤ m → Ends (k o x)

  drain-Ends :
      (rounds n o m : ℕ) (k : ℕ → Worker W → End W) (x : Worker W)
      → EndsWithin m k
      → Win o x
      → 0 < o
      → left x.node.world ≤ m
      → work x.node.world < n
      → Ends (drain fab st rounds runtime start n o k x)
  unfolding drain fi_cq_read
  drain-Ends rounds zero o m k x good h pos l wk = absurd (omega arith)
  drain-Ends rounds (suc n) o m k x good h pos l wk =
      let r = fab.cq_read x.node.ctx.txcq 10 x.node.world in
      let kept = pass.read_keeps x.node.ctx.txcq 10 x.node.world in
      elim (Bool-cases (is_positive r.ret)) [
        | inl p ↦
            rw (drain, p)
              (good (sub32 o (taken r.ret)) (settle (taken r.ret) (moved x r.next))
                (Window-settle o x h) (omega (arith, kept)))
        | inr p ↦ elim (Bool-cases (is_negative r.ret && not (is_eagain r.ret))) [
          | inl e ↦ rw (drain, p, e) (λ c. ground arith)
          | inr e ↦
              let less : work r.next < work x.node.world =
                subst (λ c. work (fab.cq_read c 10 x.node.world).next < work x.node.world)
                  (sym h.ahead.on_queue)
                  (del.read_works 10 x.node.world (omega arith) (omega (arith, h.outstanding))) in
              rw (drain, p, e)
                (drain-Ends rounds n o m k (moved x r.next) good (Window-moved o x h p) pos
                  (omega (arith, kept)) (omega (arith, less)))
        ]
      ]

  module _ (rounds : ℕ) (enough : cap < rounds) where
    make_room-Ends :
        (o m : ℕ) (k : ℕ → Worker W → End W) (x : Worker W)
        → EndsWithin m k
        → Win o x
        → left x.node.world ≤ m
        → Ends (make_room fab st rounds runtime start batch o k x)
    unfolding make_room
    make_room-Ends o m k x good h l = elim (Bool-cases (o == batch)) [
      | inl e ↦
          rw (make_room, e)
            (drain-Ends rounds rounds o m k x good h (ground arith) l
              (omega (arith, at_most x.node.world)))
      | inr e ↦ rw (make_room, e) (good o x h l)
    ]

    fill-Ends :
        (o m : ℕ) (k : ℕ → Worker W → End W) (x : Worker W)
        → EndsWithin m k
        → Win o x
        → left x.node.world ≤ m
        → Ends (fill fab st rounds runtime start batch o k x)
    unfolding fill
    fill-Ends o m k x good h l =
        let a = attempt fab x in
        let req =
          sendmsg_request x.node.ctx x.node.ctx.remote_fi_addr
            (x.node.ctx.opts.transfer_size + ft_tx_prefix_size x.node.ctx) tx_ctx more in
        let kept = pass.post_keeps req x.node.world in
        elim (Bool-cases (ltb o batch)) [
          | inr n ↦ rw (fill, n) (good o x h l)
          | inl n ↦ elim (post_tx_cases o x h rounds) [
            | inl (e, p) ↦
                rw (fill, n, call, p)
                  (good (add32 o 1) (count_op (record x { node = posted fab x }))
                    (Window-posted o x h e n) (omega (arith, kept)))
            | inr (e, p) ↦
                let v = Window-refused o x h e in
                elim (Bool-cases (is_eagain a.ret)) [
                  | inr b ↦ rw (fill, n, call, p, e, b) (λ c. ground arith)
                  | inl b ↦
                      rw (fill, n, call, p, e, b)
                        (drain-Ends rounds rounds o m k (moved x a.next) good v
                          (omega (arith, v.outstanding, ref.refused_owes req x.node.world b))
                          (omega (arith, kept)) (omega (arith, at_most a.next)))
                ]
          ]
        ]

    unless_over-Ends :
        (o m : ℕ) (k leave : ℕ → Worker W → End W) (x : Worker W)
        → ((p : ℕ) (y : Worker W) → Win p y → left y.node.world < m → Ends (k p y))
        → ((p : ℕ) (y : Worker W) → Win p y → Ends (leave p y))
        → Win o x
        → left x.node.world ≤ m
        → Ends (unless_over st runtime start (k o) (leave o) x)
    unless_over-Ends o m k leave x goes good h l =
        let w = st.now x.node.world in
        let v = Window-clock quiet o x h in
        elim (Bool-cases (ltb (runtime * 1000000000) (w.time - start))) [
          | inl e ↦ rw (unless_over, e) (good o (moved x w.next) v)
          | inr e ↦
              rw (unless_over, e)
                (goes o (moved x w.next) v (omega (arith, pass.now_passes x.node.world e)))
        ]

    window_loop-Ends :
        (n o : ℕ) (leave : ℕ → Worker W → End W) (x : Worker W)
        → ((p : ℕ) (y : Worker W) → Win p y → Ends (leave p y))
        → Win o x
        → left x.node.world < n
        → Ends (window_loop fab st rounds runtime start n batch o leave x)
    unfolding window_loop
    window_loop-Ends zero o leave x good h l = absurd (omega arith)
    window_loop-Ends (suc n) o leave x good h l =
        fill-Ends o n _ x
          (λ p y v a.
            make_room-Ends p n _ y
              (λ p' z v' b.
                unless_over-Ends p' n (λ i. window_loop fab st rounds runtime start n batch i leave)
                  leave z (λ i u v'' c. window_loop-Ends n i leave u good v'' c) good v' b)
              v a)
          h (omega arith)

    window_rest-Ends :
        (o : ℕ) (leave : Worker W → End W) (x : Worker W)
        → ((y : Worker W) → Ends (leave y))
        → Win o x
        → Ends (window_rest fab st rounds runtime start leave o x)
    unfolding window_rest get_n_tx_completion
    window_rest-Ends o leave x on h =
        let c = x.node.ctx in
        let total = (c.tx_cq_cntr + extend o) % 2 ^ 64 in
        let plain : extend o ≡ o = ground (arith, h.in_window, small) in
        let same : total ≡ c.tx_seq = omega (arith, h.ahead.balance, h.outstanding, plain) in
        let waits : Awaiting tx q due total x.node = record {
          on_queue = h.ahead.on_queue;
          in_range = h.ahead.in_range;
          posted = sym same;
          balance = omega (arith, h.outstanding, plain);
        } in
        let (r, t, e) =
          ft_get_tx_comp-returns acc del rounds total x.node h.posting.by_queue h.spins waits
            (omega (arith, at_most x.node.world)) in
        elim (Bool-cases (is_ok r)) [
          | inr k ↦ rw (window_rest, or_exit, call, get_n_tx_completion, e, k) (λ c. ground arith)
          | inl k ↦
              rw (window_rest, or_exit, call, get_n_tx_completion, e, k)
                (on (record x { node = t }))
        ]

    -- The batch worker on an endpoint with FT_OPT_FI_MORE and FT_COMP_SPIN, from a balanced account
    -- with as many completions owed as operations are outstanding, with a batch above 0: where the
    -- provider delivers what it owes within `cap` reads, refuses posts only while it owes completions,
    -- and the clock passes the end of the run within `left` readings, it ends. More rounds than `cap`
    -- for its waits and more than `left` for its loop are enough, whatever follows its last wait, if
    -- that ends.
    pub window_worker-Ends :
        (n o : ℕ) (leave : Worker W → End W) (x : Worker W)
        → ((y : Worker W) → Ends (leave y))
        → Win o x
        → left x.node.world < n
        → Ends (
            window_loop fab st rounds runtime start n batch o
              (window_rest fab st rounds runtime start leave)
              x)
    window_worker-Ends n o leave x on h l =
        window_loop-Ends n o (window_rest fab st rounds runtime start leave) x
          (λ p y v. window_rest-Ends p leave y on v) h l
