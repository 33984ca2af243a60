-- ===== src/Bench/Client.antt =====
-- The workers of efa-bench/src/SendRecvClient.cpp, from the node on. A client sets no status, and
-- its measurements are left out.
use efa_libfabric_bench.Prelude.{ℕ, zero, suc, Bool, false, ◌+◌, ◌*◌, ◌%◌, ◌^◌}
use efa_libfabric_bench.Fabric.{Fabric, Ret}
use efa_libfabric_bench.Context.{Text, Opts}
use efa_libfabric_bench.Context.Options
use efa_libfabric_bench.Context.Options.{mask, set_flags}
use efa_libfabric_bench.Machine.{Step, ◌>>◌}
use efa_libfabric_bench.Parse.{Hints}
use efa_libfabric_bench.Node.{
  node_tx, node_rx, node_inject, get_rx_completion, post_rx_buffer, init_multi_recv,
  post_multi_recv, init_tx_buffer,
}
use efa_libfabric_bench.Node.Setup.{Settings, enable_large_buffer_init}
use efa_libfabric_bench.Bench.{Flags, Worker, End, finished, endless, Steady, ignoring, unless_over}
use efa_libfabric_bench.Machine.{then_update}
use efa_libfabric_bench.Bench.Loops.{transfer_loop, repeat_loop}
use efa_libfabric_bench.Bench.Common.{
  set_base_fabric_hints, client_settings, with_opts, set_up, starting, prepare,
  generate_random_offsets, wrap_address, large_buffer_size_gbs,
}

module _ {W : Type 0} (fab : Fabric W) (st : Steady W) (rounds : ℕ) (init keys sync : Step W)
    (atoi : Text → ℕ) (to_string : ℕ → Text) (f : Flags) (h : Hints) (o : Opts) where
  -- The node of worker `id`.
  abbrev client : ℕ → Settings
  client id = client_settings atoi to_string f (set_base_fabric_hints f h) id o

  -- The timed loop around `body`, after the set-up.
  abbrev timed : ℕ → Settings → (ℕ → Step W) → Worker W → End W
  timed payload n body = set_up fab st rounds init keys sync n payload (
      starting fab st rounds init keys sync
        (λ start. transfer_loop fab st rounds f.runtime start rounds (λ i. i) body 0 finished))

  unfoldable pub ping_pong_worker : ℕ → Worker W → End W
  ping_pong_worker id = timed f.payload (client id) (λ _. node_tx fab rounds >> node_rx fab rounds)

  unfoldable pub ping_pong_inject : Worker W → End W
  ping_pong_inject = timed f.payload (client 0) (λ _. node_inject fab rounds >> node_rx fab rounds)

  -- Also that of `batchSelectiveCompletion`.
  unfoldable pub batch_worker : ℕ → Worker W → End W
  batch_worker id = timed f.payload (client id) (λ _. node_rx fab rounds)

  unfoldable pub traffic_generator : ℕ → Worker W → End W
  traffic_generator id = timed 8192 (client id) (λ _. node_rx fab rounds)

  unfoldable pub latency_worker : ℕ → Worker W → End W
  latency_worker id = set_up fab st rounds init keys sync (client id) f.payload (
      starting fab st rounds init keys sync (λ start.
        repeat_loop fab st rounds f.runtime start f.iterations
          (node_tx fab rounds >> node_rx fab rounds) finished))

  unfoldable pub capability_test : Worker W → End W
  capability_test =
      set_up fab st rounds init keys sync (client 0) f.payload
        (repeat_loop fab st rounds f.runtime 0 f.iterations (node_rx fab rounds) finished)

  unfoldable pub batch_large_buffer : (rand : ℕ → ℕ) → Worker W → End W
  batch_large_buffer rand =
      set_up fab st rounds init keys sync
        (with_opts atoi to_string f h (enable_large_buffer_init large_buffer_size_gbs) (client 0))
        f.payload
        (λ x.
          let first = x.node.ctx.rx_buf in
          starting fab st rounds init keys sync
            (λ start.
              transfer_loop fab st rounds f.runtime start rounds wrap_address
                (λ i.
                  get_rx_completion fab rounds
                  >> post_rx_buffer fab rounds (first + generate_random_offsets rand i))
                0 finished)
            x)

  -- The loop of `multiRecvBatch`: the result of the wait is dropped, and nothing is counted.
  unfoldable pub multi_recv_loop : ℕ → ℕ → (Worker W → End W) → Worker W → End W
  multi_recv_loop zero start leave x = endless
  multi_recv_loop (suc n) start leave x =
      ignoring (post_multi_recv fab rounds (f.batch * 10 % 2 ^ 32))
        (unless_over st f.runtime start (multi_recv_loop n start leave) leave) x

  -- The options that it sets besides; `reg` and `setopt` are as in `init_multi_recv`.
  abbrev multi_recv_opts : Opts → Opts
  multi_recv_opts p = record p {
    transfer_size = f.payload;
    options = set_flags p.options (
        mask Options.size
        + mask Options.skip_msg_alloc
        + mask Options.oob_sync
        + mask Options.oob_addr_exch);
  }

  -- `hints->caps = FI_MSG | FI_MULTI_RECV`, whatever `FLAGS_tagged` is.
  abbrev multi_recv_client : Settings
  multi_recv_client =
      client_settings atoi to_string f (set_base_fabric_hints (record f { tagged = false }) h) 0 o

  unfoldable pub multi_recv_batch :
      (reg : ℕ → ℕ → Bool → ℕ → W → record { ret : Ret; next : W })
      → (setopt : ℕ → W → record { ret : Ret; next : W }) → Worker W
      → End W
  multi_recv_batch reg setopt =
      ignoring
        (λ s.
          then_update (prepare (with_opts atoi to_string f h multi_recv_opts multi_recv_client)) s)
        (ignoring init (
          ignoring (init_multi_recv fab rounds reg setopt) (
            ignoring sync (
              ignoring (init_tx_buffer fab rounds f.payload) (
                starting fab st rounds init keys sync
                  (λ start. multi_recv_loop rounds start finished))))))
