-- ===== src/Completion/Drain.antt =====
-- What waiting for completions establishes: the account of a side stays balanced, and a wait for
-- all that was posted that succeeds leaves nothing owed.
use efa_libfabric_bench.Prelude.{
  ℕ, zero, suc, ◌+◌, ◌%◌, ◌^◌, ◌<◌, ◌≡◌, refl, true, false, Option, none, some, arith, Bool-cases,
  inl, inr, ◌⊎◌,
}
use efa_libfabric_bench.Fabric.{Ret, Request, Fabric, is_ok}
use efa_libfabric_bench.Fabric.Contract.{Accounting}
use efa_libfabric_bench.Machine.{State, returns}
use efa_libfabric_bench.Post.{Side, tx, rx, seq, cq_cntr, queue}
use efa_libfabric_bench.Completion.{
  Round, halt, again, pending, take_completion, read_clock, spin_round, spin_loop, ft_spin_for_comp,
  wait_round, ft_wait_for_comp,
}

-- A balanced account with `n` operations posted, modulo 2 ^ 64.
module _ {W : Type 0} (d : Side) (q : ℕ) (due : W → ℕ) where
  pub record Awaiting (n : ℕ) (s : State W) : Type 0 where
    pub on_queue : queue d s.ctx ≡ q
    pub in_range : cq_cntr d s.ctx < 2 ^ 64
    pub posted : seq d s.ctx ≡ n
    pub balance : n ≡ (cq_cntr d s.ctx + due s.world) % 2 ^ 64

-- `total - *cur > 0` fails exactly when the counter has reached the total.
pub pending-false :
    (total cur : ℕ) → total < 2 ^ 64 → cur < 2 ^ 64 → pending total cur ≡ false → cur ≡ total
unfolding pending
pending-false total cur h k e = ground arith

pub Round-cases :
    {W : Type 0} (x : Round W)
    → ((r : Ret) × (t : State W) × (x ≡ halt r t)) ⊎ ((a : ℕ) × (t : State W) × (x ≡ again a t))
Round-cases (halt r t) = inl (r, t, refl)
Round-cases (again a t) = inr (a, t, refl)

module _ {W : Type 0} {fab : Fabric W} {q : ℕ} {cost : Request → ℕ} {due : W → ℕ}
    (acc : Accounting fab q cost due) (m : ℕ) where
  due-read_clock : (o : Option ℕ) (w : W) → due (read_clock fab o w).next ≡ due w
  unfolding read_clock
  due-read_clock none w = refl
  due-read_clock (some n) w = acc.clock_due w

  -- A round that goes on has counted what it read.
  pub spin_round-Awaiting :
      (d : Side) (timeout : Option ℕ) (since a : ℕ) (s t : State W)
      → Awaiting d q due m s
      → spin_round fab d timeout since s ≡ again a t
      → Awaiting d q due m t
  unfolding spin_round take_completion
  spin_round-Awaiting tx timeout since a s t h e = ground (
    arith,
    acc.read_due 1 s.world,
    acc.read_few 1 s.world,
    due-read_clock timeout (fab.cq_read q 1 s.world).next,
  )
  spin_round-Awaiting rx timeout since a s t h e = ground (
    arith,
    acc.read_due 1 s.world,
    acc.read_few 1 s.world,
    due-read_clock timeout (fab.cq_read q 1 s.world).next,
  )

  spin_round-halt :
      (d : Side) (timeout : Option ℕ) (since : ℕ) (s t : State W) {r : Ret}
      → spin_round fab d timeout since s ≡ halt r t
      → is_ok r ≡ false
  unfolding spin_round take_completion
  spin_round-halt d timeout since s t e = ground arith

  spin_loop-success :
      (n : ℕ) (d : Side) (total : ℕ) (timeout : Option ℕ) (since : ℕ) (s : State W) (r : Ret)
      (t : State W)
      → Awaiting d q due m s
      → spin_loop fab n d total timeout since s ≡ returns r t
      → is_ok r ≡ true
      → Awaiting d q due m t × (pending total (cq_cntr d t.ctx) ≡ false)
  unfolding spin_loop
  spin_loop-success zero d total timeout since s r t h e o = absurd (ground arith)
  spin_loop-success (suc n) d total timeout since s r t h e o =
      elim (Round-cases (spin_round fab d timeout since s)) [
        | inl (r', t', c) ↦ absurd (ground (arith, spin_round-halt d timeout since s t' c))
        | inr (a, t', c) ↦ elim (Bool-cases (pending total (cq_cntr d t'.ctx))) [
          | inl p ↦
              spin_loop-success n d total timeout a t' r t
                (spin_round-Awaiting d timeout since a s t' h c) (ground arith) o
          | inr p ↦
              let same : t ≡ t' = ground arith in
              rw same (spin_round-Awaiting d timeout since a s t' h c, p)
        ]
      ]

  pub ft_spin_for_comp-success :
      (n : ℕ) (d : Side) (total : ℕ) (timeout : Option ℕ) (s : State W) (r : Ret) (t : State W)
      → Awaiting d q due m s
      → ft_spin_for_comp fab n d total timeout s ≡ returns r t
      → is_ok r ≡ true
      → Awaiting d q due m t × (pending total (cq_cntr d t.ctx) ≡ false)
  unfolding ft_spin_for_comp
  ft_spin_for_comp-success n d total timeout s r t h e o =
      let k = read_clock fab timeout s.world in
      spin_loop-success n d total timeout k.seconds (record s { world = k.next }) r t
        (record {
          on_queue = h.on_queue;
          in_range = h.in_range;
          posted = h.posted;
          balance = rw (due-read_clock timeout s.world) h.balance;
        })
        e o

  -- The same for the loops that wait in the provider or on a file descriptor.
  wait_round-Awaiting :
      (d : Side) (timeout : Option ℕ) (a : ℕ) (s t : State W)
      → Awaiting d q due m s
      → wait_round fab d timeout s ≡ again a t
      → Awaiting d q due m t
  unfolding wait_round take_completion
  wait_round-Awaiting tx timeout a s t h e =
      ground (arith, acc.sread_due 1 timeout s.world, acc.sread_few 1 timeout s.world)
  wait_round-Awaiting rx timeout a s t h e =
      ground (arith, acc.sread_due 1 timeout s.world, acc.sread_few 1 timeout s.world)

  wait_round-halt :
      (d : Side) (timeout : Option ℕ) (s t : State W) {r : Ret}
      → wait_round fab d timeout s ≡ halt r t
      → is_ok r ≡ false
  unfolding wait_round take_completion
  wait_round-halt d timeout s t e = ground arith

  pub ft_wait_for_comp-success :
      (n : ℕ) (d : Side) (total : ℕ) (timeout : Option ℕ) (s : State W) (r : Ret) (t : State W)
      → Awaiting d q due m s
      → ft_wait_for_comp fab n d total timeout s ≡ returns r t
      → is_ok r ≡ true
      → Awaiting d q due m t × (pending total (cq_cntr d t.ctx) ≡ false)
  unfolding ft_wait_for_comp
  ft_wait_for_comp-success zero d total timeout s r t h e o = absurd (ground arith)
  ft_wait_for_comp-success (suc n) d total timeout s r t h e o =
      elim (Bool-cases (pending total (cq_cntr d s.ctx))) [
        | inr p ↦ let same : t ≡ s = ground arith in rw same (h, p)
        | inl p ↦ elim (Round-cases (wait_round fab d timeout s)) [
          | inl (r', t', c) ↦ absurd (ground (arith, wait_round-halt d timeout s t' c))
          | inr (a, t', c) ↦
              ft_wait_for_comp-success n d total timeout t' r t
                (wait_round-Awaiting d timeout a s t' h c) (ground arith) o
        ]
      ]
