-- ===== src/Tests/Workers.antt =====
-- Runs of the benchmark workers with a provider that has room for one operation at a time, and a clock
-- that goes on by a second with each reading.
use efa_libfabric_bench.Prelude.{
  ℕ, ◌+◌, ◌-◌, ◌*◌, ◌<◌, ◌≤◌, ◌≡◌, ◌≢◌, refl, zero, suc, true, false, Bool, none, some, arith,
  if◌then◌else◌, ◌==◌,
}
use efa_libfabric_bench.Prelude.Bits.{bit}
use efa_libfabric_bench.Fabric.{is_eagain, Fabric}
use efa_libfabric_bench.Fabric.Contract.{Accounting, Delivering, Refusing, tx_cost}
use efa_libfabric_bench.Context.{Context, spin, opt, ft_tx_prefix_size, ft_rx_prefix_size}
use efa_libfabric_bench.Context.Options
use efa_libfabric_bench.Context.Options.{has, mask}
use efa_libfabric_bench.Node.{post_tx, get_tx_completion, get_tx_completion_with_timeout}
use efa_libfabric_bench.Node.Timeout.{get_tx_completion_with_timeout_lem}
use efa_libfabric_bench.Bench.{Worker, End, finished, Steady, endless}
use efa_libfabric_bench.Bench.Loops.{
  window_loop, window_rest, counted_rest, counted_loop, transfer_loop,
}
use efa_libfabric_bench.Bench.Common.{wrap_address, generate_random_offsets, offset_range}
use efa_libfabric_bench.Bench.Window.{Window}
use efa_libfabric_bench.Bench.Window.Settle.{
  good_end, Owing, Done, Ended, left_with, window_worker-Settled,
}
use efa_libfabric_bench.Bench.Window.Ends.{Passing, window_worker-Ends}
use efa_libfabric_bench.Bench.Overdue.{counted_rest_overdue}
use efa_libfabric_bench.Bench.Addresses.{wrap_address_stays, offsets_fit}
use efa_libfabric_bench.Buffer.Layout.{
  alloc_sizes, place_buffers, slots, slot, message_sizes, large_size, aligned_size, sizes_by,
  set_tx_size, set_rx_size, payload_size, slots_by,
}
use efa_libfabric_bench.Bench.Dispatch.{
  run, run_lem, method_of, Benchmark, run_multi_recv_batch, type_name,
}
use efa_libfabric_bench.Parse.{chars}
use efa_libfabric_bench.Tests.{
  Box, owed, box, box-Accounting, accept, accept-owed, take_one, a_box, a_context,
}

-- The provider of `Tests`, which here refuses a post only for want of room.
abbrev ready : Fabric Box
ready = record (box (tx_cost false)) { post = λ req b. accept (tx_cost false req) 0 b.waiting b }

ready-Accounting : Accounting ready 1 (tx_cost false) owed
ready-Accounting =
    let a = box-Accounting 1 (tx_cost false) in
    record {
      post_due = λ req w. accept-owed (tx_cost false req) 0 w.waiting w refl;
      read_due = a.read_due;
      read_few = a.read_few;
      error_due = a.error_due;
      error_code = a.error_code;
      sread_due = a.sread_due;
      sread_few = a.sread_few;
      store_due = a.store_due;
      malloc_due = a.malloc_due;
      clock_due = a.clock_due;
      trywait_due = a.trywait_due;
      poll_due = a.poll_due;
      bounded = a.bounded;
    }

-- The cell 999 of the memory counts the seconds.
abbrev clock : Steady Box
clock = record {
  now = λ w. record {
    time = w.memory 999 * 1000000000;
    next = record w { memory = λ a. if a == 999 then w.memory 999 + 1 else w.memory a };
  };
}

abbrev seconds_left : Box → ℕ
seconds_left w = 3 - w.memory 999

accept_memory :
    (n : ℕ) (waiting : Bool) (b : Box) → (accept n 0 waiting b).next.memory 999 ≡ b.memory 999
accept_memory zero waiting b = refl
accept_memory (suc zero) false b = refl
accept_memory (suc zero) true b = refl
accept_memory (suc (suc n)) waiting b = refl

take_one_memory :
    (n : ℕ) (waiting : Bool) (b : Box) → (take_one n waiting b).next.memory 999 ≡ b.memory 999
take_one_memory zero waiting b = refl
take_one_memory (suc n) true b = refl
take_one_memory (suc n) false b = refl

clock-Passing : Passing ready clock 2 0 seconds_left
clock-Passing = record {
  now_passes = λ w e. ground (arith, e);
  post_keeps = λ req w. omega (arith, accept_memory (tx_cost false req) w.waiting w);
  read_keeps = λ q n w. omega (arith, take_one_memory n w.waiting w);
}

take_one-owed_less :
    (n : ℕ) (waiting : Bool) (b : Box)
    → b.waiting ≡ waiting
    → 0 < n
    → 0 < owed b
    → owed (take_one n waiting b).next < owed b
take_one-owed_less zero w b e k h = absurd (omega arith)
take_one-owed_less (suc n) true b e k h = ground arith
take_one-owed_less (suc n) false b e k h = absurd (ground arith)

ready-Delivering : Delivering ready 1 owed owed
ready-Delivering = record { read_works = λ n w k h. take_one-owed_less n w.waiting w refl k h }

refused_owed :
    (n : ℕ) (waiting : Bool) (b : Box)
    → b.waiting ≡ waiting
    → is_eagain (accept n 0 waiting b).ret ≡ true
    → 0 < owed (accept n 0 waiting b).next
refused_owed zero w b e h = absurd (ground arith)
refused_owed (suc zero) false b e h = absurd (ground arith)
refused_owed (suc zero) true b e h = ground arith
refused_owed (suc (suc n)) w b e h = absurd (ground arith)

ready-Refusing : Refusing ready owed
ready-Refusing = record {
  refused_owes = λ req w h. refused_owed (tx_cost false req) w.waiting w refl h;
}

-- A worker whose endpoint has FT_OPT_FI_MORE.
abbrev a_worker : Worker Box
a_worker = record {
  node = record {
    ctx = record a_context {
      opts = record (a_context.opts) { options = mask Options.tx_cq + mask Options.fi_more };
    };
    world = a_box;
  };
  ops = 0;
  connected = true;
}

quiet : (w : Box) → owed (clock.now w).next ≡ owed w
quiet w = refl

at_most : (w : Box) → owed w ≤ 1
at_most w = ground arith

no_selective : has a_worker.node.ctx.opts.options Options.selective_comp ≡ false
unfolding has mask bit
no_selective = refl

has_more : has a_worker.node.ctx.opts.options Options.fi_more ≡ true
unfolding has mask bit
has_more = refl

has-tx_cq : has a_worker.node.ctx.opts.options Options.tx_cq ≡ true
unfolding has mask bit
has-tx_cq = refl

starts : Window ready-Accounting clock 2 0 5 2 (omega arith) spin 0 a_worker
starts = record {
  posting = record { unselective = no_selective; with_more = has_more; by_queue = has-tx_cq };
  spins = refl;
  ahead = record { on_queue = refl; in_range = omega arith; balance = refl };
  outstanding = refl;
  in_window = omega arith;
  counted = refl;
}

abbrev run_worker : End Box
run_worker =
    window_loop ready clock 20 2 0 20 2 0 (window_rest ready clock 20 2 0 finished) a_worker

window_worker-Settled_example :
    Ended ready-Accounting clock 2 0 5 2
      (omega arith)
      spin
      (Owing ready-Accounting clock 2 0 5 2 (omega arith) spin 1)
      (window_loop ready clock 20 2 0 20 2 0
        (left_with ready-Accounting clock 2 0 5 2 (omega arith) spin 1)
        a_worker)
    × Ended ready-Accounting clock 2 0 5 2
        (omega arith)
        spin
        (Done ready-Accounting clock 2 0 5 2 (omega arith) spin)
        run_worker
window_worker-Settled_example =
    window_worker-Settled ready-Accounting clock 2 0 5 2 (omega arith) spin quiet 20 20 0 1 finished
      a_worker (λ y h. good_end h) starts

window_worker-Ends_example : run_worker ≢ endless
window_worker-Ends_example =
    window_worker-Ends ready-Accounting clock 2 0 5 2 (omega arith) ready-Delivering ready-Refusing
      clock-Passing quiet 1 at_most (omega arith) 20 (omega arith) 20 0 finished a_worker
      (λ y e. ground arith) starts (omega arith)

-- Three operations counted, none owed and none waited for.
abbrev idle_worker : Worker Box
idle_worker = record a_worker { ops = 3 }

counted_rest_overdue_example :
    counted_rest ready clock 20 2 0 finished 0 idle_worker ≢ finished idle_worker
counted_rest_overdue_example =
    counted_rest_overdue ready-Accounting (λ w. ground arith) clock 20 2 0 0 idle_worker idle_worker
      starts.posting.by_queue starts.ahead (omega arith) (omega arith) (omega arith)

wrap_address_stays_example :
    (counted_loop ready clock 20 2 0 20 true wrap_address
        (λ i. post_tx ready 20)
        2
        1
        0
        0
        (λ o x. finished x)
      ≡ counted_loop ready clock 20 2 0 20 true
          (λ i. i)
          (λ _. post_tx ready 20)
          2
          1
          0
          0
          (λ o x. finished x))
    × (transfer_loop ready clock 20 2 0 20 wrap_address (λ i. post_tx ready 20) 0 finished
        ≡ transfer_loop ready clock 20 2 0 20 (λ i. i) (λ _. post_tx ready 20) 0 finished)
wrap_address_stays_example =
    wrap_address_stays ready clock 20 2 0 20 true (λ i. post_tx ready 20) 2 1 0 (λ o x. finished x)
      finished

run_lem_example :
    ((b : Benchmark)
      → chars "rma_batch" ≡ type_name b
      → run (chars "rma_batch") ≡ some (method_of b))
    × (((b : Benchmark) → chars "rma_batch" ≢ type_name b) → run (chars "rma_batch") ≡ none)
    × (run (chars "rma_batch") ≢ some run_multi_recv_batch)
run_lem_example = run_lem (chars "rma_batch")

-- A large buffer of 20 GB.
abbrev large : Context
large = record a_context {
  opts = record (a_context.opts) {
    options = mask Options.init_large_buffer;
    large_buffer_size_gbs = 20;
  };
}

is_large : opt large Options.init_large_buffer ≡ true
unfolding has mask bit
is_large = refl

is_unaligned : opt large Options.align ≡ false
unfolding has mask bit
is_unaligned = refl

slots_fit : slots large * slot (alloc_sizes 4096 large).rx_size + 4 ≤ 7 * offset_range
unfolding alloc_sizes aligned_size large_size message_sizes sizes_by set_tx_size set_rx_size
    payload_size slots slots_by has mask bit ft_tx_prefix_size ft_rx_prefix_size
slots_fit = omega arith

offsets_fit_example :
    let d = place_buffers 1000 (alloc_sizes 4096 large) in
    let address = d.tx_buf + generate_random_offsets (λ i. 1804289383 + i) 3 in
    (d.buf ≤ address) × (address + 4 ≤ d.buf + d.buf_size)
offsets_fit_example =
    offsets_fit 4096 1000 large (λ i. 1804289383 + i) 3 4 is_large is_unaligned refl slots_fit

get_tx_completion_with_timeout_lem_example :
    get_tx_completion_with_timeout ready 20 (some 1000) a_worker.node
    ≡ get_tx_completion ready 20 a_worker.node
get_tx_completion_with_timeout_lem_example =
    get_tx_completion_with_timeout_lem ready 20 (some 1000) a_worker.node
