-- ===== src/Transfer/Balance.antt =====
-- The transmit account over whole operations: every way of sending keeps the sequence number and
-- the completion counter apart by what the provider owes, and `ft_tx` leaves nothing owed.
use efa_libfabric_bench.Prelude.{
  ℕ, zero, suc, ◌+◌, ◌≡◌, refl, Bool, true, false, arith, Bool-cases, inl, inr, ap, ◌∙◌, sym, ◌||◌,
}
use mathlib.Core.Path.{subst}
use efa_libfabric_bench.Fabric.{
  Ret, val, Request, Fabric, Handle, Flag, plain, completion, more, is_ok,
}
use efa_libfabric_bench.Fabric.Contract.{Accounting, tx_cost}
use efa_libfabric_bench.Context.{Context, opt, ft_tx_prefix_size}
use efa_libfabric_bench.Context.Options
use efa_libfabric_bench.Context.Options.{has}
use efa_libfabric_bench.Post.Laws.{erase, ft_post_success}
use efa_libfabric_bench.Machine.{State, returns, ◌>>◌, >>-success, then_update}
use efa_libfabric_bench.Post.{tx, ft_post}
use efa_libfabric_bench.Post.Account.{Ahead, ft_post-Ahead}
use efa_libfabric_bench.Buffer.{fill_bytes, ft_fill_buf, ft_hmem_copy, letter, next_index}
use efa_libfabric_bench.Completion.Settle.{ft_get_tx_comp_drains}
use efa_libfabric_bench.Completion.Get.{ft_get_tx_comp}
use efa_libfabric_bench.Transfer.{
  ft_post_tx_buf, ft_sendmsg, ft_post_tx, ft_post_tx_selective_comp, fill_if_active, ft_tx,
  ft_post_inject, tx_request, sendmsg_request, inject_request, count_tx,
}

module _ {W : Type 0} {fab : Fabric W} {q : ℕ} {due : W → ℕ} (selective : Bool)
    (acc : Accounting fab q (tx_cost selective) due) where
  -- A successful post of a request that leads to a completion.
  post_due-Balanced :
      (rounds : ℕ) (req : Request) (s : State W) (r : Ret) (t : State W)
      → tx_cost selective req ≡ 1
      → Ahead tx q due 0 s
      → ft_post fab rounds tx req s ≡ returns r t
      → Ahead tx q due 0 t
  post_due-Balanced rounds req s r t c h e =
      subst (λ k. Ahead tx q due k t) (ground arith)
        (ft_post-Ahead acc tx req 0 (omega arith) rounds s h e)

  -- A successful post of one that leads to none, and is counted at once.
  post_count-Balanced :
      (rounds : ℕ) (req : Request) (s : State W) (r : Ret) (t : State W)
      → tx_cost selective req ≡ 0
      → Ahead tx q due 0 s
      → (ft_post fab rounds tx req >> then_update count_tx) s ≡ returns r t
      → is_ok r ≡ true
      → Ahead tx q due 0 t
  post_count-Balanced rounds req s r t c h e o =
      let (r', u, posted, k, counted) =
        >>-success (ft_post fab rounds tx req) (then_update count_tx) s r t e o in
      let ahead : Ahead tx q due 1 u =
        subst (λ k. Ahead tx q due k u) (ground arith)
          (ft_post-Ahead acc tx req 0 (omega arith) rounds s h posted) in
      ground arith

  -- `ft_sendmsg` balances where its flag leads to a completion.
  ft_sendmsg-Balanced :
      (rounds dest size : ℕ) (ctxptr : Handle) (flags : Flag) (s : State W) (r : Ret) (t : State W)
      → tx_cost selective (sendmsg_request s.ctx dest size ctxptr flags) ≡ 1
      → Ahead tx q due 0 s
      → ft_sendmsg fab rounds dest size ctxptr flags s ≡ returns r t
      → Ahead tx q due 0 t
  unfolding ft_sendmsg
  ft_sendmsg-Balanced rounds dest size ctxptr flags s r t c h e =
      ground (arith, acc.post_due (sendmsg_request s.ctx dest size ctxptr flags) s.world)

  tx_request_cost :
      (c : Context) (dest size cq_data : ℕ) (ctxptr : Handle) (op_buf op_tag : ℕ)
      → selective ≡ false
      → tx_cost selective (tx_request c dest size cq_data ctxptr op_buf op_tag) ≡ 1
  unfolding tx_request
  tx_request_cost c dest size cq_data ctxptr op_buf op_tag e = ground arith

  sendmsg_request_cost :
      (c : Context) (dest size : ℕ) (ctxptr : Handle)
      → (tx_cost selective (sendmsg_request c dest size ctxptr completion) ≡ 1)
        × (selective ≡ false → tx_cost selective (sendmsg_request c dest size ctxptr more) ≡ 1)
  unfolding sendmsg_request
  sendmsg_request_cost c dest size ctxptr = (ground arith, λ e. ground arith)

  inject_request_cost :
      (c : Context) (dest size : ℕ) → tx_cost selective (inject_request c dest size) ≡ 0
  unfolding inject_request
  inject_request_cost c dest size = ground arith

  -- `ft_post_tx` on an endpoint whose transmit queue is bound with selective completion exactly if
  -- FT_OPT_SELECTIVE_COMP is set, as `ft_enable_ep` binds it with FT_OPT_TX_CQ: however it returns,
  -- an account that was balanced is balanced again.
  pub ft_post_tx-Balanced :
      (rounds dest size cq_data : ℕ) (ctxptr : Handle) (s : State W) (r : Ret) (t : State W)
      → opt s.ctx Options.selective_comp ≡ selective
      → Ahead tx q due 0 s
      → ft_post_tx fab rounds dest size cq_data ctxptr s ≡ returns r t
      → Ahead tx q due 0 t
  unfolding ft_post_tx ft_post_tx_buf
  ft_post_tx-Balanced rounds dest size cq_data ctxptr s r t b h e =
      let n = size + ft_tx_prefix_size s.ctx in
      elim (Bool-cases (opt s.ctx Options.selective_comp)) [
        | inl y ↦
            ft_sendmsg-Balanced rounds dest n ctxptr completion s r t
              (sendmsg_request_cost s.ctx dest n ctxptr).0 h (ground arith)
        | inr z ↦ elim (Bool-cases (opt s.ctx Options.fi_more)) [
          | inl y ↦
              ft_sendmsg-Balanced rounds dest n ctxptr more s r t
                ((sendmsg_request_cost s.ctx dest n ctxptr).1 (sym b ∙ z)) h (ground arith)
          | inr y ↦
              post_due-Balanced rounds
                (tx_request s.ctx dest size cq_data ctxptr s.ctx.tx_buf s.ctx.ft_tag) s r t
                (tx_request_cost s.ctx dest size cq_data ctxptr s.ctx.tx_buf s.ctx.ft_tag
                  (sym b ∙ z))
                h (ground arith)
        ]
      ]

  -- `ft_post_tx_selective_comp` on an endpoint with selective completion, with and without a
  -- completion: when it returns 0, an account that was balanced is balanced again.
  pub ft_post_tx_selective_comp-Balanced :
      (rounds dest size : ℕ) (ctxptr : Handle) (enable_completion : Bool) (s : State W) (r : Ret)
      (t : State W)
      → selective ≡ true
      → Ahead tx q due 0 s
      → ft_post_tx_selective_comp fab rounds dest size ctxptr enable_completion s ≡ returns r t
      → is_ok r ≡ true
      → Ahead tx q due 0 t
  unfolding ft_post_tx_selective_comp
  ft_post_tx_selective_comp-Balanced rounds dest size ctxptr false s r t b h e o =
      post_count-Balanced rounds
        (Request.sendmsg (record { base = s.ctx.tx_buf; len = size + ft_tx_prefix_size s.ctx }) dest
          ctxptr plain)
        s r t (rw b) h e o
  ft_post_tx_selective_comp-Balanced rounds dest size ctxptr true s r t b h e o =
      let req =
        Request.sendmsg (record { base = s.ctx.tx_buf; len = size + ft_tx_prefix_size s.ctx }) dest
          ctxptr completion in
      let (r', u, posted, k, kept) =
        >>-success (ft_post fab rounds tx req) (then_update (λ c. c)) s r t e o in
      let same : t ≡ u = ground arith in
      rw same (post_due-Balanced rounds req s r' u (rw b) h posted)

  -- `ft_post_inject`: when it returns 0, an account that was balanced is balanced again, although
  -- injected data leads to no completion.
  pub ft_post_inject-Balanced :
      (rounds dest size : ℕ) (s : State W) (r : Ret) (t : State W)
      → Ahead tx q due 0 s
      → ft_post_inject fab rounds dest size s ≡ returns r t
      → is_ok r ≡ true
      → Ahead tx q due 0 t
  unfolding ft_post_inject
  ft_post_inject-Balanced rounds dest size s r t h e o =
      post_count-Balanced rounds (inject_request s.ctx dest size) s r t
        (inject_request_cost s.ctx dest size) h e o

  due-fill_bytes : (n addr i : ℕ) (w : W) → due (fill_bytes fab n addr i w) ≡ due w
  unfolding fill_bytes
  due-fill_bytes zero addr i w = refl
  due-fill_bytes (suc n) addr i w =
      due-fill_bytes n (addr + 1) (next_index i) (fab.store addr (letter i) w)
      ∙ acc.store_due addr (letter i) w

  due-fill_if_active :
      (rounds size : ℕ) (s : State W) (r : Ret) (t : State W)
      → fill_if_active fab rounds size s ≡ returns r t
      → is_ok r ≡ true
      → (t.ctx ≡ s.ctx) × (due t.world ≡ due s.world)
  unfolding fill_if_active ft_fill_buf ft_hmem_copy
  due-fill_if_active rounds size s r t e o =
      ground (arith, due-fill_bytes size (s.ctx.tx_buf + ft_tx_prefix_size s.ctx) 0 s.world)

  Ahead-same :
      (s t : State W)
      → (t.ctx ≡ s.ctx) × (due t.world ≡ due s.world)
      → Ahead tx q due 0 s
      → Ahead tx q due 0 t
  Ahead-same s t e h = ground arith

  opts-ft_post_tx :
      (rounds dest size cq_data : ℕ) (ctxptr : Handle) (s : State W) (r : Ret) (t : State W)
      → ft_post_tx fab rounds dest size cq_data ctxptr s ≡ returns r t
      → is_ok r ≡ true
      → t.ctx.opts ≡ s.ctx.opts
  unfolding ft_post_tx ft_post_tx_buf ft_sendmsg erase
  opts-ft_post_tx rounds dest size cq_data ctxptr s r t e o =
      let req = tx_request s.ctx dest size cq_data ctxptr s.ctx.tx_buf s.ctx.ft_tag in
      elim (Bool-cases (opt s.ctx Options.selective_comp || opt s.ctx Options.fi_more)) [
        | inl y ↦ ground arith
        | inr z ↦
            ap (λ c. c.opts)
              (ft_post_success fab tx req rounds s {r = r} {t = t} (ground arith) o).0
      ]

  -- `ft_tx`, from a balanced account with FT_OPT_TX_CQ, on an endpoint whose transmit queue is bound
  -- with selective completion exactly if FT_OPT_SELECTIVE_COMP is set: when it returns 0, the account is balanced again and the provider owes no transmit completion.
  pub ft_tx-drains :
      (rounds dest size : ℕ) (ctxptr : Handle) (s : State W) (r : Ret) (t : State W)
      → opt s.ctx Options.selective_comp ≡ selective
      → opt s.ctx Options.tx_cq ≡ true
      → Ahead tx q due 0 s
      → ft_tx fab rounds dest size ctxptr s ≡ returns r t
      → is_ok r ≡ true
      → (t.ctx.tx_cq_cntr ≡ t.ctx.tx_seq) × (due t.world ≡ 0)
  unfolding ft_tx
  ft_tx-drains rounds dest size ctxptr s r t b cq h e o =
      let n = ctxptr in
      let (r1, u, filled, k1, e1) =
        >>-success (fill_if_active fab rounds size)
          (ft_post_tx fab rounds dest size 0 n >> (λ v. ft_get_tx_comp fab rounds v.ctx.tx_seq v)) s
          r t e o in
      let (r2, v, sent, k2, e2) =
        >>-success (ft_post_tx fab rounds dest size 0 n)
          (λ x. ft_get_tx_comp fab rounds x.ctx.tx_seq x) u r t e1 o in
      let same = due-fill_if_active rounds size s r1 u filled k1 in
      let opts = opts-ft_post_tx rounds dest size 0 n u r2 v sent k2 in
      let ahead =
        ft_post_tx-Balanced rounds dest size 0 n u r2 v
          (ap (λ c. opt c Options.selective_comp) same.0 ∙ b) (Ahead-same s u same h) sent in
      let zero_ret : r ≡ val 0 = ground arith in
      let done =
        ft_get_tx_comp_drains acc v.ctx.tx_seq rounds v t
          (ap (λ o. has o.options Options.tx_cq) (opts ∙ ap (λ c. c.opts) same.0) ∙ cq)
          (record {
            on_queue = ahead.on_queue;
            in_range = ahead.in_range;
            posted = refl;
            balance = omega (arith, ahead.balance);
          })
          (subst (λ x. ft_get_tx_comp fab rounds v.ctx.tx_seq v ≡ returns x t) zero_ret e2) in
      (done.1 ∙ sym (done.0.posted), done.2)
