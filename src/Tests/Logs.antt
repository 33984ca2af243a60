-- ===== src/Tests/Logs.antt =====
-- Runs of the logger thread beside one and two workers, and lines that it writes.
use efa_libfabric_bench.Prelude.{
  ℕ, zero, suc, ◌<◌, ◌≡◌, ◌≢◌, inl, refl, true, false, List, [], ◌∷◌, some, none, if◌then◌else◌,
  ◌==◌, length, get_elem?, arith,
}
use efa_libfabric_bench.Context.{Text}
use efa_libfabric_bench.Parse.{chars}
use efa_libfabric_bench.Logger.{
  Phase, running, finished, returned, waiting, sampling, stopped, System, put, connects, ends,
  breaks_off, reads, begins, rereads, stops, Reach, here, next, initial,
}
use efa_libfabric_bench.Logger.Protocol.{SomeFinished, logger_stopped}
use efa_libfabric_bench.Logger.Stuck.{Unseen, logger_never_stops, logger_misses, logger_can_stop}
use efa_libfabric_bench.Logger.Csv.{
  BenchmarkContext, CsvStat, header_fields, latency_fields, log_header, log_row, latency_row,
  dump_latency_stats,
}
use efa_libfabric_bench.Logger.Csv.Columns.{
  columns, AllPlain, row_fields, latency_row_fields, line, columns-log_row, dump_latency_stats_lem,
}
use efa_libfabric_bench.Fabric.{val}
use efa_libfabric_bench.Fabric.Contract.{rx_cost}
use efa_libfabric_bench.Machine.{Step, returns}
use efa_libfabric_bench.Parse.{Hints}
use efa_libfabric_bench.Bench.{Flags, Worker, End, finished, overrun, Steady}
use efa_libfabric_bench.Bench.Server.{latency_worker}
use efa_libfabric_bench.Bench.Latency.{latency_worker_lem}
use efa_libfabric_bench.Tests.{Box, box, an_info, some_opts, a_state}

-- Worker 0 is connected.
abbrev up : System
up = record initial { phase = put 0 running initial.phase; status = put 0 true initial.status }

Reach-up : (n : ℕ) → 0 < n → Reach n initial up
Reach-up n l = next here (connects 0 l refl refl)

-- It has ended its loop, while the logger samples it.
abbrev sampled : System
sampled = record up { logger = sampling 0 true }

abbrev ended : System
ended = record sampled {
  phase = put 0 Phase.finished sampled.phase;
  status = put 0 false sampled.status;
}

abbrev stopped_logger : System
stopped_logger = record ended { logger = stopped }

Reach-ended : Reach 1 initial ended
Reach-ended =
    next
      (next (next (Reach-up 1 (omega arith)) (reads 0 true (omega arith) refl refl))
        (begins refl refl))
      (ends 0 (omega arith) refl refl)

logger_stopped_example : SomeFinished 1 stopped_logger.phase
logger_stopped_example =
    logger_stopped 1 stopped_logger
      (next (next Reach-ended (rereads 0 true (omega arith) refl refl)) (stops refl refl)) refl

logger_can_stop_example : Reach 1 ended (record ended { logger = stopped })
logger_can_stop_example = logger_can_stop 1 0 ended (omega arith) Reach-ended refl refl

-- It has left its loop by an early `return`.
abbrev broken : System
broken = record up { phase = put 0 returned up.phase }

only_one : (i : ℕ) → i < 1 → broken.phase i ≡ returned
only_one zero l = refl
only_one (suc i) l = absurd (omega arith)

logger_never_stops_example : (record broken { logger = sampling 0 true }).logger ≢ stopped
logger_never_stops_example =
    logger_never_stops 1 broken (record broken { logger = sampling 0 true })
      (next (Reach-up 1 (omega arith)) (breaks_off 0 (omega arith) refl refl)) only_one
      (next (next here (reads 0 true (omega arith) refl refl)) (begins refl refl))

-- Worker 0 has ended its loop before worker 1 is connected.
abbrev early : System
early = record up { phase = put 0 Phase.finished up.phase; status = put 0 false up.status }

logger_misses_example : Unseen 0 (waiting 1 false)
logger_misses_example =
    logger_misses 2 0 early (record early { logger = waiting 1 false }) (omega arith)
      (next (Reach-up 2 (omega arith)) (ends 0 (omega arith) refl refl)) refl (inl (omega arith))
      (next here (reads 0 true (omega arith) refl refl))

-- A benchmark of two iterations.
abbrev a_benchmark : BenchmarkContext
a_benchmark = record {
  experiment_name = chars "x";
  provider = chars "efa";
  endpoint = chars "rdm";
  node_type = chars "s";
  batch_size = 8;
  num_threads = 1;
  operation_type = chars "b";
  msg_size = 64;
  xfers_per_iter = 1;
  iterations = 2;
}

abbrev a_stat : CsvStat
a_stat = record {
  timestamp = 0;
  ops_per_second = chars "1";
  tx_pkts_psec = chars "2";
  rx_pkts_psec = chars "3";
  tx_bw = chars "4";
  rx_bw = chars "5";
  app_bw = chars "6";
  latency = chars "7";
}

-- A printer of numbers.
abbrev digit : ℕ → Text
digit n = chars "9"

row_plain : AllPlain (row_fields digit a_benchmark a_stat)
row_plain = ground arith

latency_plain : AllPlain (latency_row_fields digit a_benchmark digit 0 700)
latency_plain = ground arith

columns-log_row_example :
    (columns (log_header header_fields) ≡ header_fields)
    × (columns (log_row digit a_benchmark a_stat) ≡ row_fields digit a_benchmark a_stat)
    × (length (row_fields digit a_benchmark a_stat) ≡ length header_fields)
    × (columns (log_header latency_fields) ≡ latency_fields)
    × (columns (latency_row digit a_benchmark digit 0 700)
        ≡ latency_row_fields digit a_benchmark digit 0 700)
    × (length (latency_row_fields digit a_benchmark digit 0 700) ≡ length latency_fields)
columns-log_row_example =
    columns-log_row digit a_benchmark a_stat digit 0 700 row_plain latency_plain

abbrev times : List ℕ
times = 100 ∷ 250 ∷ 700 ∷ []

dump_latency_stats_lem_example :
    (rows : List Text) × (dump_latency_stats digit a_benchmark digit times ≡ some rows)
    × (length rows ≡ 2)
    × ((k : ℕ) → k < 2 → get_elem? rows k ≡ some (line digit a_benchmark digit times k))
dump_latency_stats_lem_example = dump_latency_stats_lem digit a_benchmark digit times refl

-- The flags of a run of two iterations.
abbrev some_flags : Flags
some_flags = record {
  mode = chars "server";
  benchmark_type = chars "latency";
  provider = chars "efa";
  endpoint = chars "rdm";
  dst_addr = [];
  rma_op = chars "write";
  port = 47500;
  oob_port = 46500;
  runtime = 30;
  payload = 64;
  batch = 1000;
  iterations = 2;
  threads = 1;
  cq_try = 800;
  tagged = false;
}

abbrev some_hints : Hints
some_hints = record {
  info = an_info;
  fabric_name = none;
  domain_name = none;
  prov_name = none;
  want_rx_cq_data = false;
  want_cq_data_size = 0;
  cq_format_data = false;
}

-- A clock that stands.
abbrev clock : Steady Box
clock = record { now = λ w. record { time = 1000000000; next = w } }

abbrev ready : Step Box
ready s = returns (val 0) s

abbrev a_worker : Worker Box
a_worker = record { node = a_state; ops = 0; connected = false }

-- A rest that takes two lines only.
abbrev take_two : List Text → Worker Box → End Box
take_two rows y = if length rows == 2 then finished y else overrun

two_taken : (rows : List Text) (y : Worker Box) → length rows ≡ 2 → take_two rows y ≢ overrun
two_taken rows y e = λ c. ground arith

latency_worker_lem_example :
    latency_worker
      (box rx_cost)
      clock
      20
      ready
      ready
      ready
      (λ t. 0)
      digit
      some_flags
      some_hints
      some_opts
      a_benchmark
      digit
      take_two
      0
      a_worker
    ≢ overrun
latency_worker_lem_example =
    latency_worker_lem (box rx_cost) clock 20 ready ready ready (λ t. 0) digit some_flags some_hints
      some_opts a_benchmark digit take_two 0 a_worker two_taken
