-- ===== src/Bench/Rma.antt =====
-- The workers of efa-bench/src/RmaServer.cpp and RmaClient.cpp, from the node on. The measurements
-- that they print at the end are left out.
use efa_libfabric_bench.Prelude.{ℕ, ◌+◌, true, false}
use efa_libfabric_bench.Fabric.{Fabric, RmaIov}
use efa_libfabric_bench.Context.{Context, Text, Opts}
use efa_libfabric_bench.Machine.{Step}
use efa_libfabric_bench.Parse.{Hints}
use efa_libfabric_bench.Node.{node_rma, post_rma, post_rma_inject, post_rma_selective_comp}
use efa_libfabric_bench.Node.Setup.{Settings, enable_selective_completion, enable_large_buffer_init}
use efa_libfabric_bench.Bench.{
  Flags, cq_try_of, Worker, End, finished, Steady, ignoring, set_connected,
}
use efa_libfabric_bench.Bench.Loops.{transfer_loop, counted_loop, counted_rest, selective_loop}
use efa_libfabric_bench.Bench.Common.{
  set_rma_fabric_hints, server_settings, client_settings, with_opts, for_rma, set_up_rma, starting,
  generate_random_offsets, wrap_address, large_buffer_size_gbs,
}

module _ {W : Type 0} (fab : Fabric W) (st : Steady W) (rounds : ℕ) (init keys sync : Step W)
    (atoi : Text → ℕ) (to_string : ℕ → Text) (f : Flags) (h : Hints) (o : Opts) where
  abbrev server : ℕ → Settings
  server id = server_settings atoi to_string f (set_rma_fabric_hints h) id o

  abbrev client : ℕ → Settings
  client id = client_settings atoi to_string f (set_rma_fabric_hints h) id o

  abbrev disconnect : Worker W → End W
  disconnect x = finished (set_connected false x)

  -- `Sync after RMA ops are complete`
  abbrev disconnect_and_sync : Worker W → End W
  disconnect_and_sync x = ignoring sync finished (set_connected false x)

  -- The set-up of the server and the start of the clock, around a loop. Each worker tells the
  -- logger that it is connected before the loop; `change` is what it does to the options.
  abbrev serving : ℕ → (Opts → Opts) → (ℕ → Worker W → End W) → Worker W → End W
  serving id change k =
      set_up_rma fab st rounds init keys sync
        (for_rma atoi to_string f h (with_opts atoi to_string f h change (server id))) f.payload
        (λ x. starting fab st rounds init keys sync k (set_connected true x))

  unfoldable pub rma_worker : ℕ → Worker W → End W
  rma_worker id =
      serving id (λ p. p)
        (λ start.
          transfer_loop fab st rounds f.runtime start rounds (λ i. i) (λ _. node_rma fab rounds) 0
            disconnect)

  -- Whether a post succeeded is not tested.
  unfoldable pub rma_batch_worker : ℕ → Worker W → End W
  rma_batch_worker id =
      serving id (λ p. p)
        (λ start.
          counted_loop fab st rounds f.runtime start rounds false (λ i. i)
            (λ _ s. post_rma fab rounds s.ctx.remote s) f.batch (cq_try_of f) 0 0
            (counted_rest fab st rounds f.runtime start disconnect_and_sync))

  unfoldable pub rma_inject : Worker W → End W
  rma_inject =
      serving 0 (λ p. p)
        (λ start.
          transfer_loop fab st rounds f.runtime start rounds (λ i. i)
            (λ _. post_rma_inject fab rounds) 0 disconnect_and_sync)

  unfoldable pub rma_batch_selective_completion : Worker W → End W
  rma_batch_selective_completion = serving 0 enable_selective_completion (λ start.
      selective_loop fab st rounds f.runtime start rounds (post_rma_selective_comp fab rounds)
        f.batch (cq_try_of f) 0 disconnect_and_sync)

  -- The remote address of a round; the key and the length are those of the region.
  abbrev remote_at : (rand : ℕ → ℕ) → ℕ → Context → RmaIov
  remote_at rand i c = record {
    addr = c.remote.addr + generate_random_offsets rand i;
    len = c.remote.len;
    key = c.remote.key;
  }

  unfoldable pub rma_batch_large_buffer : (rand : ℕ → ℕ) → Worker W → End W
  rma_batch_large_buffer rand = serving 0 (enable_large_buffer_init large_buffer_size_gbs) (λ start.
      counted_loop fab st rounds f.runtime start rounds false wrap_address
        (λ i s. post_rma fab rounds (remote_at rand i s.ctx) s) f.batch (cq_try_of f) 0 0
        (counted_rest fab st rounds f.runtime start disconnect_and_sync))

  -- The client of every remote benchmark: it keeps its memory open until the server is done.
  -- `change` is `enableLargeBufferInit` in `batchLargeBuffer`.
  unfoldable pub rma_client : ℕ → (Opts → Opts) → Worker W → End W
  rma_client id change =
      set_up_rma fab st rounds init keys sync
        (for_rma atoi to_string f h (with_opts atoi to_string f h change (client id))) f.payload
        (ignoring sync finished)
