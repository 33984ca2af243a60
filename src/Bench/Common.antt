-- ===== src/Bench/Common.antt =====
-- What the workers share (efa-bench/src/Common.cpp, Common.h), and how each sets up its node.
use efa_libfabric_bench.Prelude.{
  ℕ, ◌+◌, ◌-◌, ◌*◌, ◌/◌, ◌%◌, ◌^◌, true, false, ◌++◌, if◌then◌else◌, ◌==◌,
}
use efa_libfabric_bench.Fabric.{Fabric}
use efa_libfabric_bench.Context.{Text, Context, Caps, Opts}
use efa_libfabric_bench.Machine.{Step, then_update}
use efa_libfabric_bench.Node.{init_tx_buffer}
use efa_libfabric_bench.Node.Setup.{Settings, new_server, new_client, init_rma_op}
use efa_libfabric_bench.Parse.{Hints, chars}
use efa_libfabric_bench.Logger.Csv.{BenchmarkContext}
use efa_libfabric_bench.Bench.{Flags, Worker, End, ignoring, Steady, at}

abbrev pub num_offset_addrs : ℕ
num_offset_addrs = 1000000

abbrev pub large_buffer_size_gbs : ℕ
large_buffer_size_gbs = 20

abbrev no_caps : Caps
no_caps = record {
  msg = false;
  tagged = false;
  rma = false;
  atomic = false;
  read = false;
  write = false;
  send = false;
  recv = false;
  remote_read = false;
  remote_write = false;
}

abbrev with_caps : Caps → Hints → Hints
with_caps c h = record h { info = record (h.info) { caps = c } }

-- The capabilities that the hints ask for.
unfoldable pub set_base_fabric_hints : Flags → Hints → Hints
set_base_fabric_hints f h =
    with_caps (if f.tagged then record no_caps { tagged = true } else record no_caps { msg = true })
      h

unfoldable pub set_rma_fabric_hints : Hints → Hints
set_rma_fabric_hints h = with_caps (record no_caps { msg = true; rma = true }) h

-- `(1024 * 1024 * 1024 * LARGE_BUFFER_SIZE_GBS) / 8`
abbrev pub offset_range : ℕ
offset_range = 2 ^ 30 * large_buffer_size_gbs % 2 ^ 64 / 8

-- `rand i` is the result of the call of `std::rand()` for offset `i`.
unfoldable pub generate_random_offsets : (rand : ℕ → ℕ) → ℕ → ℕ
generate_random_offsets rand i = rand i % offset_range

-- `if (addressIndex == NUM_OFFSET_ADDRS - 1) addressIndex = 0;`
unfoldable pub wrap_address : ℕ → ℕ
wrap_address i = if i == num_offset_addrs - 1 then 0 else i

-- What it does not set stays as it was.
unfoldable pub init_benchmark_context : Flags → BenchmarkContext → BenchmarkContext
init_benchmark_context f c = record c {
  experiment_name = if f.tagged then f.benchmark_type ++ chars "_tagged" else f.benchmark_type;
  endpoint = f.endpoint;
  provider = f.provider;
  msg_size = f.payload;
  node_type = f.mode;
  batch_size = f.batch;
  num_threads = f.threads;
  xfers_per_iter = 1;
}

-- The constructor's settings, in the connection.
abbrev pub prepare : Settings → Context → Context
prepare n c = record c { hints = n.hints.info; opts = n.opts }

module _ (atoi : Text → ℕ) (to_string : ℕ → Text) (f : Flags) (h : Hints) where
  unfoldable pub server_settings : ℕ → Opts → Settings
  server_settings id o =
      new_server atoi f.provider f.endpoint (to_string (f.port + id)) (to_string (f.oob_port + id))
        h o

  unfoldable pub client_settings : ℕ → Opts → Settings
  client_settings id o =
      new_client atoi f.provider f.endpoint (to_string (f.port + id)) (to_string (f.oob_port + id))
        h f.dst_addr o

  -- The options of a node that is changed before `init`.
  abbrev pub with_opts : (Opts → Opts) → Settings → Settings
  with_opts g n = record n { opts = g n.opts }

  -- `initRmaOp(FLAGS_rma_op)`, whose result is dropped.
  abbrev pub for_rma : Settings → Settings
  for_rma n = (init_rma_op f.rma_op n).settings

-- The steps before a loop. `init` is `ft_init_fabric`, `keys` is `ft_exchange_keys`, and `sync` is
-- `ft_sync`; their results are dropped, and so is that of `initTxBuffer`.
module _ {W : Type 0} (fab : Fabric W) (st : Steady W) (rounds : ℕ) (init keys sync : Step W) where
  unfoldable pub set_up : Settings → (payload : ℕ) → (Worker W → End W) → Worker W → End W
  set_up n payload k =
      ignoring (λ s. then_update (prepare n) s)
        (ignoring init (ignoring sync (ignoring (init_tx_buffer fab rounds payload) k)))

  unfoldable pub set_up_rma : Settings → (payload : ℕ) → (Worker W → End W) → Worker W → End W
  set_up_rma n payload k =
      ignoring (λ s. then_update (prepare n) s)
        (ignoring init
          (ignoring keys (ignoring sync (ignoring (init_tx_buffer fab rounds payload) k))))

  -- `start = now()`
  abbrev pub starting : (ℕ → Worker W → End W) → Worker W → End W
  starting k x = let r = st.now x.node.world in k r.time (at st x r.next)
