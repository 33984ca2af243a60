-- ===== src/Bench/Server.antt =====
-- The workers of efa-bench/src/SendRecvServer.cpp, from the node on. The measurements that they
-- print at the end are left out.
use efa_libfabric_bench.Prelude.{ℕ, ◌+◌, List, [], ◌∷◌, none, some, true, false, if◌then◌else◌}
use efa_libfabric_bench.Fabric.{Fabric}
use efa_libfabric_bench.Context.{Text, Opts}
use efa_libfabric_bench.Machine.{Step, ◌>>◌}
use efa_libfabric_bench.Parse.{Hints, chars, same_text}
use efa_libfabric_bench.Node.{
  post_tx, post_tx_buffer, post_tx_selective_comp, node_tx, node_rx, node_inject, fi_cq_read,
}
use efa_libfabric_bench.Node.Setup.{
  Settings, enable_fi_more, enable_selective_completion, enable_large_buffer_init,
}
use efa_libfabric_bench.Bench.{
  Flags, cq_try_of, Worker, End, finished, overrun, Steady, set_connected,
}
use efa_libfabric_bench.Bench.Loops.{
  transfer_loop, repeat_loop, stamped_loop, counted_loop, counted_rest, selective_loop, window_loop,
  window_rest,
}
use efa_libfabric_bench.Logger.Csv.{BenchmarkContext, dump_latency_stats}
use efa_libfabric_bench.Bench.Common.{
  init_benchmark_context, set_base_fabric_hints, server_settings, with_opts, set_up, starting,
  generate_random_offsets, wrap_address, large_buffer_size_gbs,
}

module _ {W : Type 0} (fab : Fabric W) (st : Steady W) (rounds : ℕ) (init keys sync : Step W)
    (atoi : Text → ℕ) (to_string : ℕ → Text) (f : Flags) (h : Hints) (o : Opts) where
  -- The node of worker `id`.
  abbrev server : ℕ → Settings
  server id = server_settings atoi to_string f (set_base_fabric_hints f h) id o

  abbrev disconnect : Worker W → End W
  disconnect x = finished (set_connected false x)

  abbrev stay : ℕ → ℕ
  stay i = i

  unfoldable pub ping_pong_worker : ℕ → Worker W → End W
  ping_pong_worker id = set_up fab st rounds init keys sync (server id) f.payload (λ x.
      starting fab st rounds init keys sync
        (λ start.
          transfer_loop fab st rounds f.runtime start rounds stay
            (λ _. node_rx fab rounds >> node_tx fab rounds) 0 disconnect)
        (set_connected true x))

  unfoldable pub ping_pong_inject : Worker W → End W
  ping_pong_inject = set_up fab st rounds init keys sync (server 0) f.payload (λ x.
      starting fab st rounds init keys sync
        (λ start.
          transfer_loop fab st rounds f.runtime start rounds stay
            (λ _. node_rx fab rounds >> node_inject fab rounds) 0 disconnect)
        (set_connected true x))

  unfoldable pub batch_worker : ℕ → Worker W → End W
  batch_worker id =
      let n = server id in
      set_up fab st rounds init keys sync
        (if same_text f.endpoint (chars "rdm")
          then with_opts atoi to_string f h enable_fi_more n
          else n)
        f.payload
        (starting fab st rounds init keys sync (λ start x.
          window_loop fab st rounds f.runtime start rounds f.batch 0
            (window_rest fab st rounds f.runtime start disconnect) (set_connected true x)))

  unfoldable pub batch_selective_completion_worker : ℕ → Worker W → End W
  batch_selective_completion_worker id =
      set_up fab st rounds init keys sync
        (with_opts atoi to_string f h enable_selective_completion (server id)) f.payload
        (starting fab st rounds init keys sync (λ start x.
          selective_loop fab st rounds f.runtime start rounds (post_tx_selective_comp fab rounds)
            f.batch (cq_try_of f) 0 disconnect (set_connected true x)))

  -- What the latency worker logs with; `c` is its context before `initBenchmarkContext`.
  abbrev pub latency_context : BenchmarkContext → BenchmarkContext
  latency_context c = record (init_benchmark_context f c) {
    xfers_per_iter = 2;
    iterations = f.iterations;
  }

  -- `warmup_time` is slept away. The iterations are not counted, and no status is set. `write` is what
  -- is done with the lines of `dumpLatencyStats`, and `usec` prints a latency in them.
  unfoldable pub latency_worker :
      BenchmarkContext
      → (usec : ℕ → Text) → (write : List Text → Worker W → End W) → ℕ
      → Worker W
      → End W
  latency_worker c usec write id = set_up fab st rounds init keys sync (server id) f.payload (
      starting fab st rounds init keys sync (λ start.
        stamped_loop fab st rounds f.runtime start f.iterations
          (node_rx fab rounds >> node_tx fab rounds)
          (λ times x. elim (dump_latency_stats to_string (latency_context c) usec times) [
            | none ↦ overrun
            | some rows ↦ write rows x
          ])
          (start ∷ [])))

  -- The completions read at the end are printed.
  unfoldable pub capability_test : Worker W → End W
  capability_test =
      let n = server 0 in
      set_up fab st rounds init keys sync
        (if same_text f.endpoint (chars "rdm")
          then with_opts atoi to_string f h enable_fi_more n
          else n)
        f.payload
        (repeat_loop fab st rounds f.runtime 0 f.iterations (post_tx fab rounds) (λ x.
          finished
            (record x { node = (fi_cq_read fab rounds x.node.ctx.txcq f.batch x.node).next })))

  unfoldable pub batch_large_buffer : (rand : ℕ → ℕ) → Worker W → End W
  batch_large_buffer rand =
      set_up fab st rounds init keys sync
        (with_opts atoi to_string f h (enable_large_buffer_init large_buffer_size_gbs) (server 0))
        f.payload
        (λ x.
          let first = x.node.ctx.tx_buf in
          starting fab st rounds init keys sync
            (λ start.
              counted_loop fab st rounds f.runtime start rounds true wrap_address
                (λ i. post_tx_buffer fab rounds (first + generate_random_offsets rand i)) f.batch
                (cq_try_of f) 0 0 (counted_rest fab st rounds f.runtime start disconnect))
            (set_connected true x))

  -- `override_batch_size` is 10, and `override_payload` is 8192. The wait between two posts and the
  -- bandwidth that is printed are left out.
  unfoldable pub traffic_generator : ℕ → Worker W → End W
  traffic_generator id = set_up fab st rounds init keys sync (server id) 8192 (
      starting fab st rounds init keys sync (λ start x.
        counted_loop fab st rounds f.runtime start rounds true stay (λ _. post_tx fab rounds) 10 10
          0 0 (counted_rest fab st rounds f.runtime start disconnect) (set_connected true x)))
