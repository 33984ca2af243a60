-- ===== src/Bench.antt =====
-- The benchmark workers of efa-bench/src: what a worker has besides its connection, how its loop is
-- timed, and the loops that the workers of SendRecvServer.cpp, SendRecvClient.cpp, RmaServer.cpp and
-- RmaClient.cpp run. The steady clock of the host is a parameter.
pub mod Loops
pub mod Window
pub mod Common
pub mod Server
pub mod Client
pub mod Rma
pub mod Dispatch
pub mod Addresses
pub mod Overdue
pub mod Latency
use efa_libfabric_bench.Prelude.{ℕ, ◌+◌, ◌-◌, ◌*◌, ◌%◌, ◌^◌, Bool, true, false, ltb, if◌then◌else◌}
use efa_libfabric_bench.Fabric.{Ret, is_ok}
use efa_libfabric_bench.Context.{Text}
use efa_libfabric_bench.Machine.{State, returns, out_of_rounds, fault, Step}

-- The flags that the workers read (GFlagsConfig.cpp). `cq_try` is `int(FLAGS_batch * FLAGS_cq_try)`, a
-- product of an integer with a `double`.
pub record Flags : Type 0 where
  pub mode : Text
  pub benchmark_type : Text
  pub provider : Text
  pub endpoint : Text
  pub dst_addr : Text
  pub rma_op : Text
  pub port : ℕ
  pub oob_port : ℕ
  pub runtime : ℕ
  pub payload : ℕ
  pub batch : ℕ
  pub iterations : ℕ
  pub threads : ℕ
  pub cq_try : ℕ
  pub tagged : Bool

-- `if (cqTry < 1) cqTry = 1;`
unfoldable pub cq_try_of : Flags → ℕ
cq_try_of f = if ltb f.cq_try 1 then 1 else f.cq_try

-- A worker: its connection and its entries of `workerOperationCounter` and
-- `workerConnectionStatus`.
pub record Worker (W : Type 0) : Type 0 where
  pub node : State W
  pub ops : ℕ
  pub connected : Bool

-- How a worker ends: behind its loop, by an early `return`, by `exit(1)`; or it reads past the end of
-- its timestamps, or the rounds that its loops are given are used up, or it indexes past the end of
-- `hmem_ops`.
pub data End (W : Type 0) : Type 0 where
  finished : Worker W → End W
  returned : Ret → Worker W → End W
  exited : Worker W → End W
  overrun : End W
  endless : End W
  crashed : End W

module _ {W : Type 0} where
  -- A method of the node, and a rest that reads what it returned.
  abbrev pub call : Step W → (Ret → Worker W → End W) → Worker W → End W
  call m k x = elim (m x.node) [
    | returns r t ↦ k r (record x { node = t })
    | out_of_rounds ↦ endless
    | fault ↦ crashed
  ]

  -- `ret = …; if (ret) return;`
  abbrev pub or_return : Step W → (Worker W → End W) → Worker W → End W
  or_return m k = call m (λ r y. elim (is_ok r) [ true ↦ k y | false ↦ returned r y ])

  -- `ret = …; if (ret) { printf(…); exit(1); }`
  abbrev pub or_exit : Step W → (Worker W → End W) → Worker W → End W
  or_exit m k = call m (λ r y. elim (is_ok r) [ true ↦ k y | false ↦ exited y ])

  -- A call whose result is dropped.
  abbrev pub ignoring : Step W → (Worker W → End W) → Worker W → End W
  ignoring m k = call m (λ r y. k y)

  -- `workerOperationCounter[workerId]++`, a `uint64_t`
  abbrev pub count_op : Worker W → Worker W
  count_op x = record x { ops = (x.ops + 1) % 2 ^ 64 }

  abbrev pub set_connected : Bool → Worker W → Worker W
  set_connected b x = record x { connected = b }

-- `std::chrono::steady_clock::now()`, in nanoseconds.
pub record Steady (W : Type 0) : Type 0 where
  pub now : W → record { time : ℕ; next : W }

module _ {W : Type 0} (st : Steady W) where
  abbrev pub at : Worker W → W → Worker W
  at x w = record x { node = record (x.node) { world = w } }

  -- The end of the body of a timed loop:
  -- `if (now() - start > seconds(FLAGS_runtime)) break;`
  abbrev pub unless_over : ℕ → ℕ → (Worker W → End W) → (Worker W → End W) → Worker W → End W
  unless_over runtime start again leave x =
      let k = st.now x.node.world in
      elim (ltb (runtime * 1000000000) (k.time - start)) [
        | true ↦ leave (at x k.next)
        | false ↦ again (at x k.next)
      ]
