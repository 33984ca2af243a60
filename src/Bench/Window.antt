-- ===== src/Bench/Window.antt =====
-- The batch worker of SendRecvServer.cpp on an endpoint with FT_OPT_FI_MORE: the window of operations
-- that are outstanding.
pub mod Settle
pub mod Ends
use efa_libfabric_bench.Prelude.{
  ℕ, zero, suc, ◌+◌, ◌-◌, ◌*◌, ◌%◌, ◌^◌, ◌<◌, ◌≤◌, ◌≡◌, refl, Bool, true, false, none, arith,
  Bool-cases, inl, inr, ◌⊎◌, ltb, ◌==◌, ◌&&◌, not, ap, ◌∙◌, sym, if◌then◌else◌,
}
use mathlib.Core.Path.{subst}
use efa_libfabric_bench.Fabric.{
  Ret, val, fail, Request, Fabric, tx_ctx, more, is_ok, is_positive, is_negative, is_eagain,
}
use efa_libfabric_bench.Fabric.Contract.{Accounting, tx_cost, taken}
use efa_libfabric_bench.Context.{Context, Opts, CompMethod, opt, ft_tx_prefix_size}
use efa_libfabric_bench.Context.Options
use efa_libfabric_bench.Context.Options.{has}
use efa_libfabric_bench.Machine.{State, Outcome, Outcome-cases, returns, out_of_rounds, fault}
use efa_libfabric_bench.Post.{tx}
use efa_libfabric_bench.Post.Account.{Ahead}
use efa_libfabric_bench.Completion.Drain.{Awaiting}
use efa_libfabric_bench.Completion.Get.{ft_get_tx_comp}
use efa_libfabric_bench.Completion.Settle.{ft_get_tx_comp_drains}
use efa_libfabric_bench.Transfer.{sendmsg_request, ft_sendmsg, ft_post_tx}
use efa_libfabric_bench.Node.{post_tx, fi_cq_read, get_n_tx_completion}
use efa_libfabric_bench.Bench.{
  Worker, End, finished, returned, exited, endless, crashed, call, or_exit, count_op, Steady,
  unless_over,
}
use efa_libfabric_bench.Bench.Loops.{
  add32, sub32, extend, drain, fill, make_room, settle, window_loop, window_rest,
}

-- The worker with another state of the outside.
abbrev pub moved : {W : Type 0} → Worker W → W → Worker W
moved x w = record x { node = record (x.node) { world = w } }

-- The one attempt of a post.
abbrev pub attempt : {W : Type 0} → Fabric W → Worker W → record { ret : Ret; next : W }
attempt fab x =
    fab.post
      (sendmsg_request x.node.ctx x.node.ctx.remote_fi_addr
        (x.node.ctx.opts.transfer_size + ft_tx_prefix_size x.node.ctx) tx_ctx more)
      x.node.world

abbrev pub posted : {W : Type 0} → Fabric W → Worker W → State W
posted fab x = record {
  ctx = record (x.node.ctx) { tx_seq = (x.node.ctx.tx_seq + 1) % 2 ^ 64 };
  world = (attempt fab x).next;
}

-- The options under which a send is posted once, with FI_MORE.
pub record Posting (options : ℕ) : Type 0 where
  pub unselective : has options Options.selective_comp ≡ false
  pub with_more : has options Options.fi_more ≡ true
  pub by_queue : has options Options.tx_cq ≡ true

module _ {W : Type 0} {fab : Fabric W} {q : ℕ} {due : W → ℕ}
    (acc : Accounting fab q (tx_cost false) due) (st : Steady W) (runtime start base batch : ℕ)
    (small : batch < 2 ^ 31) (method : CompMethod) where
  -- `base` is the sequence number before the loop.
  pub record Window (o : ℕ) (x : Worker W) : Type 0 where
    pub posting : Posting x.node.ctx.opts.options
    pub spins : x.node.ctx.opts.comp_method ≡ method
    pub ahead : Ahead tx q due 0 x.node
    pub outstanding : due x.node.world ≡ o
    pub in_window : o ≤ batch
    pub counted : x.node.ctx.tx_seq ≡ (base + x.ops) % 2 ^ 64

module _ {W : Type 0} {fab : Fabric W} {q : ℕ} {due : W → ℕ}
    {acc : Accounting fab q (tx_cost false) due} {st : Steady W} {runtime start base batch : ℕ}
    {small : batch < 2 ^ 31} {method : CompMethod} where
  module _ (o : ℕ) (x : Worker W)
      (h : Window acc st runtime start base batch small method o x) where
    -- What is owed falls by what a read takes.
    read-due : let r = fab.cq_read x.node.ctx.txcq 10 x.node.world in o ≡ due r.next + taken r.ret
    read-due =
        sym h.outstanding
        ∙ subst
            (λ c.
              let r = fab.cq_read c 10 x.node.world in due x.node.world ≡ due r.next + taken r.ret)
            (sym h.ahead.on_queue) (acc.read_due 10 x.node.world)

    pub Window-settle :
        let r = fab.cq_read x.node.ctx.txcq 10 x.node.world in
        Window acc st runtime start base batch small method
          (sub32 o (taken r.ret))
          (settle (taken r.ret) (moved x r.next))
    Window-settle =
        let r = fab.cq_read x.node.ctx.txcq 10 x.node.world in
        let e : sub32 o (taken r.ret) ≡ due r.next = omega (arith, read-due, h.in_window) in
        record {
          posting = h.posting;
          spins = h.spins;
          ahead = record {
            on_queue = h.ahead.on_queue;
            in_range = omega arith;
            balance = omega (arith, h.ahead.balance, h.outstanding, read-due);
          };
          outstanding = sym e;
          in_window = omega (arith, e, read-due, h.in_window);
          counted = h.counted;
        }

    -- A read that takes nothing leaves the window.
    pub Window-moved :
        let r = fab.cq_read x.node.ctx.txcq 10 x.node.world in
        is_positive r.ret ≡ false
        → Window acc st runtime start base batch small method o (moved x r.next)
    Window-moved p =
        let r = fab.cq_read x.node.ctx.txcq 10 x.node.world in
        let e : due r.next ≡ o = ground (arith, read-due) in
        record {
          posting = h.posting;
          spins = h.spins;
          ahead = record {
            on_queue = h.ahead.on_queue;
            in_range = h.ahead.in_range;
            balance = omega (arith, h.ahead.balance, h.outstanding, e);
          };
          outstanding = e;
          in_window = h.in_window;
          counted = h.counted;
        }

  module _ (o : ℕ) (x : Worker W)
      (h : Window acc st runtime start base batch small method o x) where
    pub post_tx_cases :
        (rounds : ℕ)
        → ((is_ok (attempt fab x).ret ≡ true)
            × (post_tx fab rounds x.node ≡ returns (val 0) (posted fab x)))
          ⊎ ((is_ok (attempt fab x).ret ≡ false)
              × (post_tx fab rounds x.node
                  ≡ returns (attempt fab x).ret (record x.node { world = (attempt fab x).next })))
    unfolding post_tx ft_post_tx ft_sendmsg
    post_tx_cases rounds = elim (Bool-cases (is_ok (attempt fab x).ret)) [
      | inl e ↦ inl (e, rw (h.posting.unselective, h.posting.with_more, e) refl)
      | inr e ↦ inr (e, rw (h.posting.unselective, h.posting.with_more, e) refl)
    ]

    pub attempt-due :
        due (attempt fab x).next
        ≡ (if is_ok (attempt fab x).ret then due x.node.world + 1 else due x.node.world)
    unfolding sendmsg_request
    attempt-due = ground (
      arith,
      acc.post_due
          (sendmsg_request x.node.ctx x.node.ctx.remote_fi_addr
            (x.node.ctx.opts.transfer_size + ft_tx_prefix_size x.node.ctx) tx_ctx more)
          x.node.world,
    )

    -- An accepted post widens the window by one.
    pub Window-posted :
        is_ok (attempt fab x).ret ≡ true
        → ltb o batch ≡ true
        → Window acc st runtime start base batch small method
            (add32 o 1)
            (count_op (record x { node = posted fab x }))
    Window-posted e l =
        let d : due (attempt fab x).next ≡ due x.node.world + 1 = ground (arith, attempt-due) in
        let lt : o < batch = ground arith in
        record {
          posting = h.posting;
          spins = h.spins;
          ahead = record {
            on_queue = h.ahead.on_queue;
            in_range = h.ahead.in_range;
            balance = omega (arith, h.ahead.balance, d);
          };
          outstanding = omega (arith, d, h.outstanding);
          in_window = omega arith;
          counted = omega (arith, h.counted);
        }

    -- A refused one leaves it.
    pub Window-refused :
        is_ok (attempt fab x).ret ≡ false
        → Window acc st runtime start base batch small method o (moved x (attempt fab x).next)
    Window-refused e =
        let d : due (attempt fab x).next ≡ due x.node.world = ground (arith, attempt-due) in
        record {
          posting = h.posting;
          spins = h.spins;
          ahead = record {
            on_queue = h.ahead.on_queue;
            in_range = h.ahead.in_range;
            balance = omega (arith, h.ahead.balance, d);
          };
          outstanding = omega (arith, d, h.outstanding);
          in_window = h.in_window;
          counted = h.counted;
        }

  -- The clock does not touch the account.
  module _ (quiet : (w : W) → due (st.now w).next ≡ due w) where
    pub Window-clock :
        (o : ℕ) (x : Worker W)
        → Window acc st runtime start base batch small method o x
        → Window acc st runtime start base batch small method o (moved x (st.now x.node.world).next)
    Window-clock o x h = record {
      posting = h.posting;
      spins = h.spins;
      ahead = record {
        on_queue = h.ahead.on_queue;
        in_range = h.ahead.in_range;
        balance = omega (arith, h.ahead.balance, quiet x.node.world);
      };
      outstanding = quiet x.node.world ∙ h.outstanding;
      in_window = h.in_window;
      counted = h.counted;
    }
