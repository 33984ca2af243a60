-- ===== src/Bench/Overdue.antt =====
-- A wait for more completions than are owed, as the counted batches make it when `FT_POST` has read
-- some of them itself.
use mathlib.Core.Path.{subst}
use efa_libfabric_bench.Prelude.{
  ℕ, ◌+◌, ◌-◌, ◌%◌, ◌^◌, ◌<◌, ◌≤◌, ◌≡◌, ◌≢◌, refl, true, false, none, arith, Bool-cases, inl, inr,
}
use efa_libfabric_bench.Fabric.{Ret, Fabric, Request, is_ok}
use efa_libfabric_bench.Fabric.Contract.{Accounting}
use efa_libfabric_bench.Context.{opt}
use efa_libfabric_bench.Context.Options
use efa_libfabric_bench.Machine.{State, Outcome-cases, returns}
use efa_libfabric_bench.Post.{tx}
use efa_libfabric_bench.Post.Account.{Ahead}
use efa_libfabric_bench.Completion.Drain.{Awaiting, pending-false}
use efa_libfabric_bench.Completion.Get.{ft_get_tx_comp}
use efa_libfabric_bench.Completion.Settle.{ft_get_cq_comp-success}
use efa_libfabric_bench.Node.{get_n_tx_completion}
use efa_libfabric_bench.Bench.{Worker, finished, Steady, or_exit}
use efa_libfabric_bench.Bench.Loops.{extend, counted_rest}

module _ {W : Type 0} {fab : Fabric W} {q : ℕ} {cost : Request → ℕ} {due : W → ℕ}
    (acc : Accounting fab q cost due) (few : (w : W) → due w < 2 ^ 63) where
  -- `getNTxCompletion(n)` never returns 0 where less than `n` completions are owed, on a
  -- connection whose account is balanced and that counts transmit completions by a queue.
  pub get_n_tx_completion_overdue :
      (rounds n : ℕ) (s t : State W) (r : Ret)
      → opt s.ctx Options.tx_cq ≡ true
      → Ahead tx q due 0 s
      → due s.world < n
      → n < 2 ^ 63
      → get_n_tx_completion fab rounds n s ≡ returns r t
      → is_ok r ≡ false
  unfolding get_n_tx_completion ft_get_tx_comp
  get_n_tx_completion_overdue rounds n s t r cq h lt small e =
      let total = (s.ctx.tx_cq_cntr + n) % 2 ^ 64 in
      let waits : Awaiting tx q due s.ctx.tx_seq s = record {
        on_queue = h.on_queue;
        in_range = h.in_range;
        posted = refl;
        balance = omega (arith, h.balance);
      } in
      elim (Bool-cases (is_ok r)) [
        | inr k ↦ k
        | inl k ↦
            let (a, p) =
              ft_get_cq_comp-success acc s.ctx.tx_seq rounds tx total none s r t waits
                (ground arith) k in
            let c = pending-false total t.ctx.tx_cq_cntr (omega arith) a.in_range p in
            absurd (omega (arith, c, a.balance, h.balance, few t.world, few s.world))
      ]

  -- So a counted batch whose posts have read completions does not end: where the operations that
  -- it has not waited for are more than are owed, its last wait never leads behind it.
  pub counted_rest_overdue :
      (st : Steady W) (rounds runtime start obtained : ℕ) (x y : Worker W)
      → opt x.node.ctx Options.tx_cq ≡ true
      → Ahead tx q due 0 x.node
      → obtained ≤ x.ops
      → x.ops < 2 ^ 31
      → due x.node.world < x.ops - obtained
      → counted_rest fab st rounds runtime start finished obtained x ≢ finished y
  unfolding counted_rest
  counted_rest_overdue st rounds runtime start obtained x y cq h le small lt e =
      let n = x.ops - obtained in
      let same : extend ((x.ops + 2 ^ 64 - extend obtained) % 2 ^ 32) ≡ n = ground arith in
      let e' : or_exit (get_n_tx_completion fab rounds n) finished x ≡ finished y =
        subst (λ m. or_exit (get_n_tx_completion fab rounds m) finished x ≡ finished y) same e in
      elim (Outcome-cases (get_n_tx_completion fab rounds n x.node)) [
        | inl (r, t, c) ↦
            let k = get_n_tx_completion_overdue rounds n x.node t r cq h lt (omega arith) c in
            ground arith
        | inr (inl c) ↦ ground arith
        | inr (inr c) ↦ ground arith
      ]
