-- ===== src/Tests/Buffers.antt =====
-- The theorems on buffers, on the memory of `Tests`.
use efa_libfabric_bench.Prelude.{ℕ, ◌+◌, ◌%◌, ◌<◌, ◌≡◌, ◌≢◌, refl, false}
use efa_libfabric_bench.Fabric.{val, fail, eio, Fabric}
use efa_libfabric_bench.Fabric.Contract.{tx_cost}
use efa_libfabric_bench.Context.{Context}
use efa_libfabric_bench.Context.Options
use efa_libfabric_bench.Machine.{State, returns}
use efa_libfabric_bench.Buffer.{letter, ft_fill_buf, ft_check_buf}
use efa_libfabric_bench.Buffer.Pattern.{HoldsPattern, ft_check_buf_lem, ft_check_buf-ft_fill_buf}
use efa_libfabric_bench.Buffer.Layout.{alloc_sizes, place_buffers}
use efa_libfabric_bench.Tests.{Box, box, box-Memory, a_context, a_state}

abbrev memory : Fabric Box
memory = box (tx_cost false)

ft_check_buf_example :
    (HoldsPattern memory 400 70 a_state
      → ft_check_buf memory 400 70 a_state ≡ returns (val 0) a_state)
    × (¬ HoldsPattern memory 400 70 a_state
        → ft_check_buf memory 400 70 a_state ≡ returns (fail eio) a_state)
ft_check_buf_example = ft_check_buf_lem memory 400 70 a_state refl

ft_check_buf-ft_fill_buf_example :
    (t : State Box) × (ft_fill_buf memory 400 70 a_state ≡ returns (val 0) t)
    × (ft_check_buf memory 400 70 t ≡ returns (val 0) t)
    × ((k v : ℕ)
        → k < 70
        → v ≢ letter (k % 62)
        → let u : State Box = record t { world = memory.store (400 + k) v t.world } in
          ft_check_buf memory 400 70 u ≡ returns (fail eio) u)
ft_check_buf-ft_fill_buf_example =
    ft_check_buf-ft_fill_buf (box-Memory (tx_cost false)) 400 70 a_state refl

abbrev a_layout : Context
a_layout = place_buffers 1000 (alloc_sizes 4096 a_context)
