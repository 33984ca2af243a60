-- ===== src/Bench/Dispatch.antt =====
-- Which benchmark runs: `BenchmarkNode::run` with the names of benchmarks and of nodes
-- (efa-bench/src/BenchmarkNode.cpp, Common.cpp, Common.h).
use efa_libfabric_bench.Prelude.{
  ◌≡◌, ◌≢◌, refl, Bool, true, false, not, ◌||◌, Option, none, some, if◌then◌else◌, arith,
  Bool-cases, inl, inr, ◌↔◌, [], ◌∷◌,
}
use efa_libfabric_bench.Context.{Text}
use efa_libfabric_bench.Parse.{chars, same_text}

-- The benchmarks of `enum T`.
pub data Benchmark : Type 0 where
  ping_pong inject latency batch batch_selective_comp capability_test : Benchmark
  rma rma_batch rma_inject rma_selective_comp rma_large_buffer : Benchmark
  batch_large_buffer saturation_latency : Benchmark

-- `BENCHMARK_TYPE`
unfoldable pub type_name : Benchmark → Text
type_name ping_pong = chars "ping_pong"
type_name inject = chars "inject"
type_name latency = chars "latency"
type_name batch = chars "batch"
type_name batch_selective_comp = chars "batch_sel_comp"
type_name capability_test = chars "caps"
type_name rma = chars "rma"
type_name rma_batch = chars "rma_batch"
type_name rma_inject = chars "rma_inject"
type_name rma_selective_comp = chars "rma_sel_comp"
type_name rma_large_buffer = chars "rma_large_buffer"
type_name batch_large_buffer = chars "batch_large_buffer"
type_name saturation_latency = chars "sat_latency"

pub data Role : Type 0 where
  server client : Role

-- The methods of `SendRecvNode` and of `RmaNode`.
pub data Action : Type 0 where
  run_latency run_ping_pong_inject run_batch run_batch_selective_completion : Action
  run_capability_test run_ping_pong run_batch_large_buffer run_saturation_latency : Action
  run_multi_recv_batch : Action
  run_rma run_rma_batch run_rma_inject run_rma_selective_completion run_rma_large_buffer : Action

unfoldable pub is_benchmark : Text → Benchmark → Bool
is_benchmark t b = same_text t (type_name b)

unfoldable pub is_benchmark_class_rma : Text → Bool
unfolding is_benchmark
is_benchmark_class_rma t =
    is_benchmark t rma
    || (is_benchmark t rma_batch
        || (is_benchmark t rma_inject
            || (is_benchmark t rma_selective_comp || is_benchmark t rma_large_buffer)))

unfoldable pub is_benchmark_class_send_recv : Text → Bool
is_benchmark_class_send_recv t = not (is_benchmark_class_rma t)

-- `getSendRecvNode` and `getRmaNode`: any other mode is a client.
unfoldable pub get_role : Text → Role
get_role mode = if same_text mode (chars "server") then server else client

-- `startNode` for a `SendRecvNode`; no test may match.
unfoldable pub start_send_recv : Text → Option Action
start_send_recv t =
    if is_benchmark t latency
    then some run_latency
    else if is_benchmark t inject
    then some run_ping_pong_inject
    else if is_benchmark t batch
    then some run_batch
    else if is_benchmark t batch_selective_comp
    then some run_batch_selective_completion
    else if is_benchmark t capability_test
    then some run_capability_test
    else if is_benchmark t ping_pong
    then some run_ping_pong
    else if is_benchmark t batch_large_buffer
    then some run_batch_large_buffer
    else if is_benchmark t saturation_latency
    then some run_saturation_latency
    else none

-- `startNode` for an `RmaNode`
unfoldable pub start_rma : Text → Option Action
start_rma t =
    if is_benchmark t rma
    then some run_rma
    else if is_benchmark t rma_batch
    then some run_rma_batch
    else if is_benchmark t rma_inject
    then some run_rma_inject
    else if is_benchmark t rma_selective_comp
    then some run_rma_selective_completion
    else if is_benchmark t rma_large_buffer
    then some run_rma_large_buffer
    else none

-- `run`
unfoldable pub run : Text → Option Action
run t =
    if is_benchmark_class_send_recv t
    then start_send_recv t
    else if is_benchmark_class_rma t
    then start_rma t
    else none

-- The method that a benchmark stands for.
abbrev pub method_of : Benchmark → Action
method_of ping_pong = run_ping_pong
method_of inject = run_ping_pong_inject
method_of latency = run_latency
method_of batch = run_batch
method_of batch_selective_comp = run_batch_selective_completion
method_of capability_test = run_capability_test
method_of rma = run_rma
method_of rma_batch = run_rma_batch
method_of rma_inject = run_rma_inject
method_of rma_selective_comp = run_rma_selective_completion
method_of rma_large_buffer = run_rma_large_buffer
method_of batch_large_buffer = run_batch_large_buffer
method_of saturation_latency = run_saturation_latency

same_text_iff : (a b : Text) → (same_text a b ≡ true) ↔ (a ≡ b)
unfolding same_text
same_text_iff [] [] = ground arith
same_text_iff [] (c ∷ b) = ground arith
same_text_iff (x ∷ a) [] = ground arith
same_text_iff (x ∷ a) (c ∷ b) = ground (arith, same_text_iff a b)

run-type_name : (b : Benchmark) → run (type_name b) ≡ some (method_of b)
unfolding run start_send_recv start_rma is_benchmark is_benchmark_class_rma
    is_benchmark_class_send_recv same_text type_name
run-type_name ping_pong = refl
run-type_name inject = refl
run-type_name latency = refl
run-type_name batch = refl
run-type_name batch_selective_comp = refl
run-type_name capability_test = refl
run-type_name rma = refl
run-type_name rma_batch = refl
run-type_name rma_inject = refl
run-type_name rma_selective_comp = refl
run-type_name rma_large_buffer = refl
run-type_name batch_large_buffer = refl
run-type_name saturation_latency = refl

-- What a name that is none of the table's leads to.
run_other : (t : Text) → ((b : Benchmark) → is_benchmark t b ≡ false) → run t ≡ none
unfolding run start_send_recv is_benchmark_class_rma is_benchmark_class_send_recv
run_other t h = ground (
  arith,
  h latency,
  h inject,
  h batch,
  h batch_selective_comp,
  h capability_test,
  h ping_pong,
  h batch_large_buffer,
  h saturation_latency,
  h rma,
  h rma_batch,
  h rma_inject,
  h rma_selective_comp,
  h rma_large_buffer,
)

not_same : (t : Text) (b : Benchmark) → t ≢ type_name b → is_benchmark t b ≡ false
unfolding is_benchmark
not_same t b h = elim (Bool-cases (same_text t (type_name b))) [
  | inl e ↦ absurd (h ((same_text_iff t (type_name b)).0 e))
  | inr e ↦ e
]

-- The method that runs is that of the benchmark with the name that is given, for each name of the
-- table, and none runs for any other name. `multiRecvBatch` never runs.
pub run_lem :
    (t : Text)
    → ((b : Benchmark) → t ≡ type_name b → run t ≡ some (method_of b))
      × (((b : Benchmark) → t ≢ type_name b) → run t ≡ none)
      × (run t ≢ some run_multi_recv_batch)
unfolding run start_send_recv start_rma
run_lem t =
    (λ b e. rw e (run-type_name b), λ h. run_other t (λ b. not_same t b (h b)), λ e. ground arith)
