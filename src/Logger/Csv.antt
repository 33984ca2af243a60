-- ===== src/Logger/Csv.antt =====
-- The lines that `CsvLogger` writes, and what it adds up (efa-bench/src/CsvLogger.cpp). Decimal
-- numbers are printed by the stream: they are texts here, or come from the parameter `to_string`.
pub mod Columns
use efa_libfabric_bench.Prelude.{
  ℕ, zero, suc, ◌+◌, ◌-◌, ◌%◌, ◌^◌, Bool, true, false, ◌&&◌, List, [], ◌∷◌, ◌++◌, Option, none,
  some, get_elem?,
}
use efa_libfabric_bench.Context.{Text}
use efa_libfabric_bench.Parse.{chars}

infixl 5 ◌>>=◌
abbrev pub ◌>>=◌ : {A B : Type 0} → Option A → (A → Option B) → Option B
none >>= f = none
some a >>= f = f a

-- `BenchmarkContext` (Common.h)
pub record BenchmarkContext : Type 0 where
  pub experiment_name : Text
  pub provider : Text
  pub endpoint : Text
  pub node_type : Text
  pub batch_size : ℕ
  pub num_threads : ℕ
  pub operation_type : Text
  pub msg_size : ℕ
  pub xfers_per_iter : ℕ
  pub iterations : ℕ

-- `CsvStat`, the rates as they are printed.
pub record CsvStat : Type 0 where
  pub timestamp : ℕ
  pub ops_per_second : Text
  pub tx_pkts_psec : Text
  pub rx_pkts_psec : Text
  pub tx_bw : Text
  pub rx_bw : Text
  pub app_bw : Text
  pub latency : Text

-- What `start` puts into `headerFields`.
unfoldable pub header_fields : List Text
header_fields =
    chars "timestamp"
    ∷ chars "experiment_name"
    ∷ chars "provider"
    ∷ chars "endpoint"
    ∷ chars "node_type"
    ∷ chars "batch_size"
    ∷ chars "thread_count"
    ∷ chars "operation_type"
    ∷ chars "message_size"
    ∷ chars "ops_psec"
    ∷ chars "tx_pkts_psec"
    ∷ chars "rx_pkts_psec"
    ∷ chars "tx_bw_mbps"
    ∷ chars "rx_bw_mbps"
    ∷ chars "app_bw_mbps"
    ∷ chars "latency_usec"
    ∷ []

-- What `dumpLatencyStats` puts there.
unfoldable pub latency_fields : List Text
latency_fields =
    chars "iteration"
    ∷ chars "experiment_name"
    ∷ chars "provider"
    ∷ chars "endpoint"
    ∷ chars "node_type"
    ∷ chars "message_size"
    ∷ chars "latency_usec"
    ∷ []

-- The loop over the fields: a comma behind each but the last, which ends the line.
unfoldable pub log_header : List Text → Text
log_header [] = []
log_header (x ∷ []) = x ++ (b'\n' ∷ [])
log_header (x ∷ (y ∷ fields)) = x ++ (b',' ∷ log_header (y ∷ fields))

-- `ss << x << ","`, and what follows it.
infixr 5 ◌⊳◌
abbrev pub ◌⊳◌ : Text → Text → Text
x ⊳ rest = x ++ (b',' ∷ rest)

-- `ss << x << std::endl`
abbrev pub end_line : Text → Text
end_line x = x ++ (b'\n' ∷ [])

module _ (to_string : ℕ → Text) (c : BenchmarkContext) where
  unfoldable pub log_row : CsvStat → Text
  log_row s =
      to_string s.timestamp
      ⊳ c.experiment_name
      ⊳ c.provider
      ⊳ c.endpoint
      ⊳ c.node_type
      ⊳ to_string c.batch_size
      ⊳ to_string c.num_threads
      ⊳ c.operation_type
      ⊳ to_string c.msg_size
      ⊳ s.ops_per_second
      ⊳ s.tx_pkts_psec
      ⊳ s.rx_pkts_psec
      ⊳ s.tx_bw
      ⊳ s.rx_bw
      ⊳ s.app_bw
      ⊳ end_line s.latency

  -- A line of `dumpLatencyStats`; `usec` prints a latency in nanoseconds over `xfersPerIter`.
  unfoldable pub latency_row : (usec : ℕ → Text) → ℕ → ℕ → Text
  latency_row usec i nsec =
      to_string (i + 1)
      ⊳ c.experiment_name
      ⊳ c.provider
      ⊳ c.endpoint
      ⊳ c.node_type
      ⊳ to_string c.msg_size
      ⊳ end_line (usec nsec)

  -- The loop of `dumpLatencyStats` from line `i` on, with `left` lines to go; `none` is a read past
  -- the end of the timestamps.
  unfoldable pub latency_rows : (usec : ℕ → Text) → List ℕ → (left i : ℕ) → Option (List Text)
  latency_rows usec times zero i = some []
  latency_rows usec times (suc left) i = do
    later ← get_elem? times (i + 1)
    sooner ← get_elem? times i
    rest ← latency_rows usec times left (i + 1)
    some (latency_row usec i (later - sooner) ∷ rest)

  unfoldable pub dump_latency_stats : (usec : ℕ → Text) → List ℕ → Option (List Text)
  dump_latency_stats usec times = latency_rows usec times c.iterations 0

unfoldable pub get_aggregate_connection_status : List Bool → Bool
get_aggregate_connection_status [] = true
get_aggregate_connection_status (b ∷ rest) = b && get_aggregate_connection_status rest

-- The sum of a loop that starts at `sum`, a `uint64_t`.
unfoldable pub ops_sum : ℕ → List ℕ → ℕ
ops_sum sum [] = sum
ops_sum sum (x ∷ rest) = ops_sum ((sum + x) % 2 ^ 64) rest

unfoldable pub get_aggregate_ops_counter : List ℕ → ℕ
get_aggregate_ops_counter counters = ops_sum 0 counters
