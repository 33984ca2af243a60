-- ===== src/Fabric/Contract.antt =====
-- What libefa relies on in a provider: it counts the completions that it owes on a queue
-- (fi_cq(3)), and a queue read after a refused post gets it closer to accepting (fi_domain(3),
-- manual progress).
use efa_libfabric_bench.Prelude.{
  ℕ, ◌+◌, ◌^◌, ◌<◌, ◌≤◌, ◌≡◌, Bool, true, false, if◌then◌else◌, ◌==◌, Option,
}
use efa_libfabric_bench.Fabric.{
  Ret, val, fail, Request, Fabric, Flag, plain, completion, more, transmit_complete, is_ok,
  is_negative, is_eagain, is_eavail,
}

-- The number of entries that a read returns.
abbrev pub taken : Ret → ℕ
taken (val n) = n
taken (fail e) = 0

-- Whether a message call asks for a completion: always, or on a queue that is bound with
-- FI_SELECTIVE_COMPLETION only with the flag.
abbrev pub by_flag : Bool → Flag → ℕ
by_flag false f = 1
by_flag true plain = 0
by_flag true completion = 1
by_flag true more = 0
by_flag true transmit_complete = 0

abbrev pub unless_selective : Bool → ℕ
unless_selective false = 1
unless_selective true = 0

-- The completions that an accepted request leads to on the transmit queue; injected data and
-- receives lead to none there.
abbrev pub tx_cost : Bool → Request → ℕ
tx_cost sel (Request.send b d c) = unless_selective sel
tx_cost sel (Request.senddata b v d c) = unless_selective sel
tx_cost sel (Request.tsend b d t c) = unless_selective sel
tx_cost sel (Request.tsenddata b v d t c) = unless_selective sel
tx_cost sel (Request.sendmsg b d c f) = by_flag sel f
tx_cost sel (Request.tsendmsg b d t c f) = by_flag sel f
tx_cost sel (Request.inject b d) = 0
tx_cost sel (Request.tinject b d t) = 0
tx_cost sel (Request.write b d a k c) = unless_selective sel
tx_cost sel (Request.writedata b v d a k c) = unless_selective sel
tx_cost sel (Request.read b d a k c) = unless_selective sel
tx_cost sel (Request.inject_write b d a k) = 0
tx_cost sel (Request.inject_writedata b v d a k) = 0
tx_cost sel (Request.writemsg b d r c f) = by_flag sel f
tx_cost sel (Request.readmsg b d r c f) = by_flag sel f
tx_cost sel (Request.atomic_op o b n d a k c) = unless_selective sel
tx_cost sel (Request.recv b s c) = 0
tx_cost sel (Request.trecv b s t c) = 0
tx_cost sel (Request.recvmsg b s c f) = 0
tx_cost sel (Request.trecvmsg b s t c f) = 0

-- The completions that an accepted request leads to on a receive queue of its own.
abbrev pub rx_cost : Request → ℕ
rx_cost (Request.recv b s c) = 1
rx_cost (Request.trecv b s t c) = 1
rx_cost (Request.recvmsg b s c f) = 1
rx_cost (Request.trecvmsg b s t c f) = 1
rx_cost _ = 0

module _ {W : Type 0} (fab : Fabric W) where
  -- On the queue `q` the provider owes `due w` completions, where a request adds `cost`.
  pub record Accounting (q : ℕ) (cost : Request → ℕ) (due : W → ℕ) : Type 0 where
    pub post_due :
        (req : Request) (w : W)
        → let p = fab.post req w in due p.next ≡ (if is_ok p.ret then due w + cost req else due w)
    pub read_due : (n : ℕ) (w : W) → let r = fab.cq_read q n w in due w ≡ due r.next + taken r.ret
    pub read_few : (n : ℕ) (w : W) → taken (fab.cq_read q n w).ret ≤ n
    pub error_due :
        (n : ℕ) (w : W)
        → is_eavail (fab.cq_read q n w).ret ≡ true
        → let e = fab.cq_readerr q (fab.cq_read q n w).next in
          (is_negative e.ret ≡ false) × (due (fab.cq_read q n w).next ≡ due e.next + 1)
    pub error_code :
        (p : ℕ) (w : W)
        → is_negative (fab.cq_readerr p w).ret ≡ false
        → is_ok (fab.cq_readerr p w).err ≡ false
    pub sread_due :
        (n : ℕ) (o : Option ℕ) (w : W)
        → let r = fab.cq_sread q n o w in due w ≡ due r.next + taken r.ret
    pub sread_few : (n : ℕ) (o : Option ℕ) (w : W) → taken (fab.cq_sread q n o w).ret ≤ n
    pub store_due : (a v : ℕ) (w : W) → due (fab.store a v w) ≡ due w
    pub malloc_due : (n : ℕ) (w : W) → due (fab.malloc n w).next ≡ due w
    pub clock_due : (w : W) → due (fab.clock w).next ≡ due w
    pub trywait_due : (w : W) → due (fab.trywait q w).next ≡ due w
    pub poll_due : (fd : ℕ) (o : Option ℕ) (w : W) → due (fab.poll fd o w).next ≡ due w
    pub bounded : (w : W) → due w < 2 ^ 64

  -- Memory holds what was stored last.
  pub record Memory : Type 0 where
    pub load_store :
        (a b v : ℕ) (w : W) → fab.load b (fab.store a v w) ≡ (if a == b then v else fab.load b w)

  -- A refused post is worth at most `delay w` rounds of reading the queue `q`.
  pub record Draining (q : ℕ) (delay : W → ℕ) : Type 0 where
    pub read_drains :
        (req : Request) (w : W)
        → is_eagain (fab.post req w).ret ≡ true
        → delay (fab.cq_read q 1 (fab.post req w).next).next < delay w
    pub readerr_keeps : (w : W) → delay (fab.cq_readerr q w).next ≤ delay w

  -- The completions that are owed on the queue `q` come: where some are, a read of an entry or more
  -- is one of at most `work w` reads until they are delivered.
  pub record Delivering (q : ℕ) (due work : W → ℕ) : Type 0 where
    pub read_works : (n : ℕ) (w : W) → 0 < n → 0 < due w → work (fab.cq_read q n w).next < work w

  -- A post that is refused for the moment (fi_msg(3): for want of resources) finds completions owed,
  -- whose delivery makes room.
  pub record Refusing (due : W → ℕ) : Type 0 where
    pub refused_owes :
        (req : Request) (w : W)
        → is_eagain (fab.post req w).ret ≡ true
        → 0 < due (fab.post req w).next
