-- ===== src/Post/Account.antt =====
-- The account of a side: the sequence number is ahead of the completion counter by the completions
-- that the provider owes, modulo 2 ^ 64.
use efa_libfabric_bench.Prelude.{
  ℕ, ◌+◌, ◌-◌, ◌%◌, ◌^◌, ◌<◌, ◌≤◌, ◌≡◌, refl, true, Option, some, arith, if◌then◌else◌,
}
use efa_libfabric_bench.Fabric.{Ret, Request, Fabric, is_ok, is_eagain}
use efa_libfabric_bench.Fabric.Contract.{Accounting}
use efa_libfabric_bench.Machine.{State, returns}
use efa_libfabric_bench.Post.{
  Side, tx, rx, seq, cq_cntr, queue, inc_seq, ft_progress, ft_post, retry, restored,
}
use efa_libfabric_bench.Post.Laws.{Ends, accepted, refused, failed, ft_post_rule}

module _ {W : Type 0} (d : Side) (q : ℕ) (due : W → ℕ) where
  -- On queue `q` the sequence number is ahead by `k` more than what is due.
  pub record Ahead (k : ℕ) (s : State W) : Type 0 where
    pub on_queue : queue d s.ctx ≡ q
    pub in_range : cq_cntr d s.ctx < 2 ^ 64
    pub balance : seq d s.ctx ≡ (cq_cntr d s.ctx + due s.world + k) % 2 ^ 64

-- The timeout and a change of the provider that owes as much do not matter.
Ahead-moved :
    {W : Type 0} {due : W → ℕ} (d : Side) (q k : ℕ) (s : State W) (o : Option ℕ) (w : W)
    → due w ≡ due s.world
    → Ahead d q due k s
    → Ahead d q due k (record { ctx = record (s.ctx) { timeout = o }; world = w })
Ahead-moved tx q k s o w e h = record {
  on_queue = h.on_queue;
  in_range = h.in_range;
  balance = rw e h.balance;
}
Ahead-moved rx q k s o w e h = record {
  on_queue = h.on_queue;
  in_range = h.in_range;
  balance = rw e h.balance;
}

-- A post that was accepted, with `c` completions to come.
Ahead-accepted :
    {W : Type 0} {due : W → ℕ} (d : Side) (q k c : ℕ) (s : State W) (w : W)
    → due w ≡ due s.world + c
    → c ≤ 1
    → Ahead d q due k s
    → Ahead d q due (k + 1 - c) (record { ctx = inc_seq d s.ctx; world = w })
Ahead-accepted tx q k c s w e small h = ground arith
Ahead-accepted rx q k c s w e small h = ground arith

module _ {W : Type 0} {fab : Fabric W} {q : ℕ} {cost : Request → ℕ} {due : W → ℕ}
    (acc : Accounting fab q cost due) where
  -- A queue read counts what it takes, an error completion included.
  pub ft_progress-Ahead :
      (d : Side) (k : ℕ) (s : State W)
      → Ahead d q due k s
      → Ahead d q due k (ft_progress fab d s).next
  unfolding ft_progress
  ft_progress-Ahead tx k s h =
      ground (arith, acc.read_due 1 s.world, acc.read_few 1 s.world, acc.error_due 1 s.world)
  ft_progress-Ahead rx k s h =
      ground (arith, acc.read_due 1 s.world, acc.read_few 1 s.world, acc.error_due 1 s.world)

  module _ (d : Side) (req : Request) (k : ℕ) (s : State W) where
    -- The state in which the queue is read after a refused post.
    abbrev asked : State W
    asked = record { ctx = record s.ctx { timeout = some 0 }; world = (fab.post req s.world).next }

    Ahead-asked :
        is_eagain (fab.post req s.world).ret ≡ true → Ahead d q due k s → Ahead d q due k asked
    Ahead-asked e h =
        Ahead-moved d q k s (some 0) (fab.post req s.world).next
          (ground (arith, acc.post_due req s.world)) h

    Ahead-retry :
        is_eagain (fab.post req s.world).ret ≡ true
        → Ahead d q due k s
        → Ahead d q due k (retry fab d req s).next
    unfolding retry
    Ahead-retry e h = ft_progress-Ahead d k asked (Ahead-asked e h)

    Ahead-restored :
        is_eagain (fab.post req s.world).ret ≡ true
        → Ahead d q due k s
        → Ahead d q due k (restored fab d req s)
    unfolding restored
    Ahead-restored e h =
        Ahead-moved d q k (retry fab d req s).next s.ctx.timeout (retry fab d req s).next.world refl
          (Ahead-retry e h)

  module _ (d : Side) (req : Request) (k : ℕ) (small : cost req ≤ 1) where
    Ends-Ahead :
        {r : Ret} {u t : State W}
        → Ahead d q due k u
        → Ends fab d req u r t
        → Ahead d q due (if is_ok r then k + 1 - cost req else k) t
    Ends-Ahead {u} h (accepted o a b) =
        rw (a, b)
          (Ahead-accepted d q k (cost req) u (fab.post req u.world).next
            (ground (arith, acc.post_due req u.world)) small h)
    Ends-Ahead {u} h (refused o a b) =
        rw (a, b)
          (Ahead-moved d q k u u.ctx.timeout (fab.post req u.world).next
            (ground (arith, acc.post_due req u.world)) h)
    Ends-Ahead {u} h (failed o a b) = rw (a, b) (Ahead-retry d req k u o h)

    -- A post that the provider accepted puts the side ahead by one, less the completion that is
    -- due for it; an error leaves the account as it was.
    pub ft_post-Ahead :
        (n : ℕ) (s : State W) {r : Ret} {t : State W}
        → Ahead d q due k s
        → ft_post fab n d req s ≡ returns r t
        → Ahead d q due (if is_ok r then k + 1 - cost req else k) t
    ft_post-Ahead n s h e =
        let (u, g, ends) =
          ft_post_rule fab d req (Ahead d q due k) (λ v g b. Ahead-restored d req k v b g) n s h
            e in
        Ends-Ahead g ends
