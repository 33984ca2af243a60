-- ===== src/Bench/Latency.antt =====
-- The latency worker of efa-bench/src/SendRecvServer.cpp with the log that it writes at its end.
use efa_libfabric_bench.Prelude.{
  ℕ, zero, suc, ◌+◌, ◌≡◌, ◌≢◌, List, [], ◌∷◌, ◌++◌, length, length-append, arith, Bool-cases, inl,
  inr,
}
use efa_libfabric_bench.Fabric.{Fabric, is_ok}
use efa_libfabric_bench.Context.{Text, Opts}
use efa_libfabric_bench.Machine.{Step, Outcome-cases, then_update}
use efa_libfabric_bench.Parse.{Hints}
use efa_libfabric_bench.Node.{init_tx_buffer}
use efa_libfabric_bench.Node.Setup.{Settings}
use efa_libfabric_bench.Logger.Csv.{BenchmarkContext}
use efa_libfabric_bench.Logger.Csv.Columns.{dump_latency_stats_lem}
use efa_libfabric_bench.Bench.{Flags, Worker, End, overrun, call, or_return, ignoring, Steady, at}
use efa_libfabric_bench.Bench.Loops.{stamped_loop}
use efa_libfabric_bench.Bench.Common.{set_up, prepare}
use efa_libfabric_bench.Bench.Server.{latency_worker, latency_context}

-- A rest of a worker that does not read past its timestamps.
abbrev Safe : {W : Type 0} → (Worker W → End W) → Type 0
Safe k = (x : Worker _) → k x ≢ overrun

module _ {W : Type 0} where
  ignoring-Safe : (m : Step W) (k : Worker W → End W) → Safe k → Safe (ignoring m k)
  ignoring-Safe m k h x = elim (Outcome-cases (m x.node)) [
    | inl (r, t, e) ↦ rw (ignoring, call, e) (h (record x { node = t }))
    | inr (inl e) ↦ rw (ignoring, call, e) (λ c. ground arith)
    | inr (inr e) ↦ rw (ignoring, call, e) (λ c. ground arith)
  ]

  or_return-Safe : (m : Step W) (k : Worker W → End W) → Safe k → Safe (or_return m k)
  or_return-Safe m k h x = elim (Outcome-cases (m x.node)) [
    | inl (r, t, e) ↦ elim (Bool-cases (is_ok r)) [
      | inl o ↦ rw (or_return, call, e, o) (h (record x { node = t }))
      | inr o ↦ rw (or_return, call, e, o) (λ c. ground arith)
    ]
    | inr (inl e) ↦ rw (or_return, call, e) (λ c. ground arith)
    | inr (inr e) ↦ rw (or_return, call, e) (λ c. ground arith)
  ]

module _ {W : Type 0} (fab : Fabric W) (st : Steady W) (rounds : ℕ) where
  -- Behind the loop there is a timestamp more for each transfer.
  stamped_loop-Safe :
      (runtime start n : ℕ) (body : Step W) (leave : List ℕ → Worker W → End W) (times : List ℕ)
      → ((ts : List ℕ) → length ts ≡ length times + n → Safe (leave ts))
      → Safe (stamped_loop fab st rounds runtime start n body leave times)
  unfolding stamped_loop
  stamped_loop-Safe runtime start zero body leave times h = h times (omega arith)
  stamped_loop-Safe runtime start (suc n) body leave times h = or_return-Safe body _ (λ y.
      let k = st.now y.node.world in
      stamped_loop-Safe runtime start n body leave (times ++ (k.time ∷ []))
        (λ ts e. h ts (omega (arith, e, length-append times (k.time ∷ [])))) (at st y k.next))

  module _ (init keys sync : Step W) where
    set_up-Safe :
        (n : Settings) (payload : ℕ) (k : Worker W → End W)
        → Safe k
        → Safe (set_up fab st rounds init keys sync n payload k)
    unfolding set_up
    set_up-Safe n payload k h = ignoring-Safe (then_update (prepare n)) _ (
        ignoring-Safe init _
          (ignoring-Safe sync _ (ignoring-Safe (init_tx_buffer fab rounds payload) k h)))

    -- The latency worker never reads past its timestamps, and what is written at its end has as many
    -- lines as there are iterations: whatever it does with so many, it does not end by such a read.
    pub latency_worker_lem :
        (atoi : Text → ℕ) (to_string : ℕ → Text) (f : Flags) (h : Hints) (o : Opts)
        (c : BenchmarkContext) (usec : ℕ → Text) (write : List Text → Worker W → End W) (id : ℕ)
        (x : Worker W)
        → ((rows : List Text) (y : Worker W) → length rows ≡ f.iterations → write rows y ≢ overrun)
        → latency_worker fab st rounds init keys sync atoi to_string f h o c usec write id x
          ≢ overrun
    unfolding latency_worker
    latency_worker_lem atoi to_string f h o c usec write id x good =
        set_up-Safe _ f.payload _
          (λ y.
            stamped_loop-Safe f.runtime _ f.iterations _ _ _
              (λ ts e z.
                let d = latency_context fab st rounds init keys sync atoi to_string f h o c in
                let (rows, eq, len, each) =
                  dump_latency_stats_lem to_string d usec ts (omega (arith, e)) in
                rw (eq) (good rows z len))
              _)
          x
