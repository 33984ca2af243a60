-- ===== src/Tests.antt =====
-- A provider to run the model on, with what it keeps of the contracts, and the connection that the
-- examples start from.
mod Sending
mod Buffers
mod Settings
mod Outside
mod Workers
mod Logs
mod Closing
mod Opened
use efa_libfabric_bench.Prelude.{
  ℕ, zero, suc, ◌+◌, ◌-◌, ◌^◌, ◌<◌, ◌≤◌, ◌≡◌, refl, Bool, true, false, Option, none, some, arith,
  if◌then◌else◌, ◌==◌, List, [],
}
use efa_libfabric_bench.Fabric.{
  Ret, val, fail, eagain, enomem, is_ok, is_eagain, is_eavail, Request, Fabric, Completion, tx_ctx,
  RmaIov,
}
use efa_libfabric_bench.Fabric.Contract.{
  Accounting, Memory, Draining, Delivering, tx_cost, rx_cost, taken,
}
use efa_libfabric_bench.Context.{
  Context, Caps, Info, Opts, spin, rma_write, format_unspec, system, rdm,
}
use efa_libfabric_bench.Context.Fids.{Objects, Attributes, cq_unspec, wait_none, av_unspec, av_map}
use efa_libfabric_bench.Context.Options
use efa_libfabric_bench.Context.Options.{mask}
use efa_libfabric_bench.Machine.{State, Outcome, returns, out_of_rounds, fault}

-- A provider with room for one operation, which also refuses the first `busy` posts, a memory, and a socket.
pub record Box : Type 0 where
  pub waiting : Bool
  pub busy : ℕ
  pub memory : ℕ → ℕ
  pub out : List ℕ  -- what the socket took
  pub full : ℕ  -- how often the socket refuses

abbrev pub owed : Box → ℕ
owed b = if b.waiting then 1 else 0

-- How many reads until a post is accepted.
abbrev pub delay : Box → ℕ
delay b = b.busy + owed b

abbrev a_completion : Completion
a_completion = record {
  op_context = tx_ctx;
  tag = 0;
  is_recv = false;
  is_multi_recv = false;
  len = 0;
  buf = 0;
}

-- A request of cost 0 is accepted at once, one of cost 1 when there is room, others never.
abbrev pub accept : ℕ → ℕ → Bool → Box → record { ret : Ret; next : Box }
accept zero busy waiting b = record { ret = val 0; next = b }
accept (suc zero) zero false b = record { ret = val 0; next = record b { waiting = true } }
accept (suc zero) zero true b = record { ret = fail eagain; next = b }
accept (suc zero) (suc k) waiting b = record { ret = fail eagain; next = b }
accept (suc (suc n)) busy waiting b = record { ret = fail enomem; next = b }

abbrev pub take_one : ℕ → Bool → Box → record { ret : Ret; comp : Completion; next : Box }
take_one zero waiting b = record {
  ret = fail eagain;
  comp = a_completion;
  next = record b { busy = b.busy - 1 };
}
take_one (suc n) true b = record {
  ret = val 1;
  comp = a_completion;
  next = record b { busy = b.busy - 1; waiting = false };
}
take_one (suc n) false b = record {
  ret = fail eagain;
  comp = a_completion;
  next = record b { busy = b.busy - 1 };
}

-- The provider, where a request leads to `cost` completions.
abbrev pub box : (Request → ℕ) → Fabric Box
box cost = record {
  post = λ req b. accept (cost req) b.busy b.waiting b;
  cq_read = λ q n b. take_one n b.waiting b;
  cq_sread = λ q n o b. take_one n b.waiting b;
  cq_readerr = λ q b. record { ret = fail eagain; err = val 0; next = b };
  cntr_read = λ q b. record { value = 0; next = b };
  cntr_wait = λ q n o b. record { ret = val 0; next = b };
  trywait = λ q b. record { ret = val 0; next = b };
  malloc = λ n b. record { ptr = 1; next = b };
  load = λ a b. b.memory a;
  store = λ a v b. record b { memory = λ x. if a == x then v else b.memory x };
  poll = λ fd o b. record { ret = val 1; next = b };
  clock = λ b. record { seconds = 0; next = b };
}

pub accept-owed :
    (n busy : ℕ) (waiting : Bool) (b : Box)
    → b.waiting ≡ waiting
    → let p = accept n busy waiting b in owed p.next ≡ (if is_ok p.ret then owed b + n else owed b)
accept-owed zero busy waiting b e = omega arith
accept-owed (suc zero) zero false b e = ground arith
accept-owed (suc zero) zero true b e = refl
accept-owed (suc zero) (suc k) waiting b e = refl
accept-owed (suc (suc n)) busy waiting b e = refl

take_one-owed :
    (n : ℕ) (w : Bool) (b : Box)
    → b.waiting ≡ w
    → let r = take_one n w b in (owed b ≡ owed r.next + taken r.ret) × (taken r.ret ≤ n)
take_one-owed zero w b e = (omega arith, omega arith)
take_one-owed (suc n) true b e = ground arith
take_one-owed (suc n) false b e = ground arith

-- It never answers -FI_EAVAIL.
take_one_plain : (n : ℕ) (w : Bool) (b : Box) → ¬ (is_eavail (take_one n w b).ret ≡ true)
take_one_plain zero w b = λ e. ground arith
take_one_plain (suc n) true b = λ e. ground arith
take_one_plain (suc n) false b = λ e. ground arith

pub box-Memory : (cost : Request → ℕ) → Memory (box cost)
box-Memory cost = record { load_store = λ a b v w. refl }

owed_small : (b : Box) → owed b < 2 ^ 64
owed_small b = ground arith

pub box-Accounting : (q : ℕ) (cost : Request → ℕ) → Accounting (box cost) q cost owed
box-Accounting q cost = record {
  post_due = λ req w. accept-owed (cost req) w.busy w.waiting w refl;
  read_due = λ n w. (take_one-owed n w.waiting w refl).0;
  read_few = λ n w. (take_one-owed n w.waiting w refl).1;
  error_due = λ n w e. absurd (take_one_plain n w.waiting w e);
  error_code = λ p w e. absurd (ground arith);
  sread_due = λ n o w. (take_one-owed n w.waiting w refl).0;
  sread_few = λ n o w. (take_one-owed n w.waiting w refl).1;
  store_due = λ a v w. refl;
  malloc_due = λ n w. refl;
  clock_due = λ w. refl;
  trywait_due = λ w. refl;
  poll_due = λ fd o w. refl;
  bounded = owed_small;
}

-- A refused post is accepted after as many reads as `delay` says.
accept-delay :
    (n busy : ℕ) (waiting : Bool) (b : Box)
    → b.waiting ≡ waiting
    → b.busy ≡ busy
    → let p = accept n busy waiting b in
      is_eagain p.ret ≡ true → delay (take_one 1 p.next.waiting p.next).next < delay b
accept-delay zero busy waiting b e k a = absurd (ground arith)
accept-delay (suc zero) zero false b e k a = absurd (ground arith)
accept-delay (suc zero) zero true b e k a = ground arith
accept-delay (suc zero) (suc m) waiting b e k a = ground arith
accept-delay (suc (suc n)) busy waiting b e k a = absurd (ground arith)

pub box-Draining : (q : ℕ) (cost : Request → ℕ) → Draining (box cost) q delay
box-Draining q cost = record {
  read_drains = λ req w e. accept-delay (cost req) w.busy w.waiting w refl refl e;
  readerr_keeps = λ w. omega arith;
}

take_one-delay :
    (n : ℕ) (w : Bool) (b : Box)
    → b.waiting ≡ w
    → 0 < n
    → 0 < owed b
    → delay (take_one n w b).next < delay b
take_one-delay zero w b e k h = absurd (omega arith)
take_one-delay (suc n) true b e k h = ground arith
take_one-delay (suc n) false b e k h = absurd (ground arith)

pub box-Delivering : (q : ℕ) (cost : Request → ℕ) → Delivering (box cost) q owed delay
box-Delivering q cost = record { read_works = λ n w k h. take_one-delay n w.waiting w refl k h }

abbrev pub a_box : Box
a_box = record { waiting = false; busy = 2; memory = λ a. 0; out = []; full = 1 }

abbrev pub no_caps : Caps
no_caps = record {
  msg = false;
  tagged = true;
  rma = true;
  atomic = false;
  read = false;
  write = false;
  send = false;
  recv = false;
  remote_read = false;
  remote_write = false;
}

abbrev some_attributes : Attributes
some_attributes = record {
  tx_attr_size = 256;
  rx_attr_size = 512;
  av_type = av_unspec;
  multicast = false;
  collective = false;
  mr_basic = false;
  mr_virt_addr = true;
  mr_raw = false;
  hmem = false;
  src_addr = 0;
  src_addrlen = 0;
  dest_addr = 0;
  dest_addrlen = 0;
}

-- Nothing is open.
abbrev pub no_objects : Objects
no_objects = record {
  is_open = λ x. false;
  is_no_mr = false;
  has_fi = false;
  cq_attr = record { format = cq_unspec; size = 0; wait_obj = wait_none };
  cntr_wait = wait_none;
  av_attr = record { kind = av_map; count = 1; name = none };
  tx_ctx_arr = [];
  rx_ctx_arr = [];
  oob_sock = none;
  listen_sock = none;
  sock = none;
}

abbrev pub an_info : Info
an_info = record {
  caps = no_caps;
  local_mr_mode = false;
  rx_cq_data = false;
  tx_prefix = true;
  rx_prefix = false;
  msg_prefix_size = 8;
  max_msg_size = 4096;
  mr_local = true;
  mr_hmem = false;
  cq_data_size = 4;
  ep_type = rdm;
  attr = some_attributes;
}

abbrev pub some_opts : Opts
some_opts = record {
  iterations = 5;
  warmup_iterations = 1;
  transfer_size = 4;
  window_size = 2;
  av_size = 1;
  tx_cq_size = 0;
  rx_cq_size = 0;
  src_port = none;
  dst_port = none;
  src_addr = none;
  dst_addr = none;
  av_name = none;
  sizes_all = false;
  options =
      mask Options.active
      + mask Options.size
      + mask Options.rx_cq
      + mask Options.tx_cq
      + mask Options.verify_data;
  comp_method = spin;
  machr = false;
  rma_op = rma_write;
  oob_port = none;
  num_connections = 1;
  address_format = format_unspec;
  mr_local = true;
  iface = system;
  device = 0;
  large_buffer_size_gbs = 1;
  force_prefix = false;
}

abbrev pub a_context : Context
a_context = record {
  hints = an_info;
  fi = an_info;
  txcq = 1;
  rxcq = 2;
  txcntr = 0;
  rxcntr = 0;
  remote_fi_addr = 7;
  buf = 100;
  tx_buf = 400;
  rx_buf = 100;
  buf_size = 1000;
  tx_size = 12;
  rx_size = 4;
  tx_mr_size = 0;
  rx_mr_size = 0;
  tx_fd = 3;
  rx_fd = 4;
  timeout = none;
  remote_cq_data = 9;
  tx_seq = 5;
  rx_seq = 5;
  tx_cq_cntr = 5;
  rx_cq_cntr = 5;
  remote = record { addr = 0; len = 0; key = 1 };
  opts = some_opts;
  ft_tag = 0;
  comp_per_buf = 0;
  objects = no_objects;
}

abbrev pub a_state : State Box
a_state = record { ctx = a_context; world = a_box }

-- The state that a run ends in.
abbrev pub final : Outcome Box → State Box
final (returns r t) = t
final out_of_rounds = a_state
final fault = a_state
