-- ===== src/Bench/Loops.antt =====
-- The loops of the benchmark workers (efa-bench/src).
use efa_libfabric_bench.Prelude.{
  ℕ, zero, suc, ◌+◌, ◌-◌, ◌%◌, ◌^◌, Bool, true, false, List, [], ◌∷◌, ◌++◌, ltb, leb, ◌==◌, ◌&&◌,
  not, if◌then◌else◌,
}
use efa_libfabric_bench.Fabric.{Fabric, is_ok, is_positive, is_negative, is_eagain}
use efa_libfabric_bench.Fabric.Contract.{taken}
use efa_libfabric_bench.Machine.{Step}
use efa_libfabric_bench.Node.{fi_cq_read, get_tx_completion, get_n_tx_completion, post_tx}
use efa_libfabric_bench.Bench.{
  Worker, End, returned, endless, call, or_return, or_exit, ignoring, count_op, Steady, at,
  unless_over,
}

-- `int` arithmetic, modulo 2 ^ 32 as in the comparisons with the `uint32_t` flags.
abbrev pub add32 : ℕ → ℕ → ℕ
add32 a n = (a + n) % 2 ^ 32

abbrev pub sub32 : ℕ → ℕ → ℕ
sub32 a n = (a + 2 ^ 32 - n % 2 ^ 32) % 2 ^ 32

-- An `int` as a `uint64_t`.
abbrev pub extend : ℕ → ℕ
extend a = if ltb a (2 ^ 31) then a else a + (2 ^ 64 - 2 ^ 32)

-- `server.ctx.tx_cq_cntr += ret;`
abbrev pub settle : {W : Type 0} → ℕ → Worker W → Worker W
settle k x = record x {
  node = record (x.node) {
    ctx = record (x.node.ctx) { tx_cq_cntr = (x.node.ctx.tx_cq_cntr + k) % 2 ^ 64 };
  };
}

module _ {W : Type 0} (fab : Fabric W) (st : Steady W) (rounds runtime start : ℕ) where
  -- `while (true)` around transfers that end the worker when they fail, each round counted first.
  -- `index` is `addressIndex`, which `advance` sets at the start of a round.
  unfoldable pub transfer_loop :
      ℕ
      → (advance : ℕ → ℕ) → (body : ℕ → Step W) → (index : ℕ) → (Worker W → End W)
      → Worker W
      → End W
  transfer_loop zero advance body index leave x = endless
  transfer_loop (suc n) advance body index leave x =
      or_return (body (advance index))
        (unless_over st runtime start (transfer_loop n advance body (advance index) leave) leave)
        (count_op x)

  -- `for (i = 0; i < FLAGS_iterations; i++)` around such transfers; they are not counted.
  unfoldable pub repeat_loop : ℕ → Step W → (Worker W → End W) → Worker W → End W
  repeat_loop zero body leave x = leave x
  repeat_loop (suc left) body leave x = or_return body (repeat_loop left body leave) x

  -- The loop of the latency worker of the server, which takes a timestamp behind each transfer.
  unfoldable pub stamped_loop : ℕ → Step W → (List ℕ → Worker W → End W) → List ℕ → Worker W → End W
  stamped_loop zero body leave times x = leave times x
  stamped_loop (suc left) body leave times x =
      or_return body
        (λ y.
          let k = st.now y.node.world in
          stamped_loop left body leave (times ++ (k.time ∷ [])) (at st y k.next))
        x

  -- A round of a batch that is counted: when `batch` or more operations have not been waited for,
  -- it waits for `cq_try` of them. `obtained` is `numCqObtained`. Whether a failed post ends the
  -- worker is `checked`.
  unfoldable pub counted_round :
      (checked : Bool)
      → Step W
      → (batch cq_try obtained : ℕ) → (again leave : ℕ → Worker W → End W) → Worker W
      → End W
  counted_round checked post batch cq_try obtained again leave x =
      let go : ℕ → Worker W → End W = λ o. unless_over st runtime start (again o) (leave o) in
      call post
        (λ r y. elim (checked && not (is_ok r)) [
          | true ↦ returned r y
          | false ↦ elim (leb batch ((y.ops + 2 ^ 64 - extend obtained) % 2 ^ 64)) [
            | true ↦
                or_exit (get_n_tx_completion fab rounds (extend cq_try))
                  (go (add32 obtained cq_try)) y
            | false ↦ go obtained y
          ]
        ])
        (count_op x)

  -- The loop of such rounds; `index` is `addressIndex`, which `advance` sets before a post.
  unfoldable pub counted_loop :
      ℕ
      → (checked : Bool) → (advance : ℕ → ℕ) → (post : ℕ → Step W)
      → (batch cq_try obtained index : ℕ) → (ℕ → Worker W → End W)
      → Worker W
      → End W
  counted_loop zero checked advance post batch cq_try obtained index leave x = endless
  counted_loop (suc n) checked advance post batch cq_try obtained index leave x =
      counted_round checked (post (advance index)) batch cq_try obtained
        (λ o. counted_loop n checked advance post batch cq_try o (advance index) leave) leave x

  -- The rest of such a worker: the last wait, for what has not been waited for.
  unfoldable pub counted_rest : (Worker W → End W) → ℕ → Worker W → End W
  counted_rest leave obtained x =
      or_exit
        (get_n_tx_completion fab rounds (extend ((x.ops + 2 ^ 64 - extend obtained) % 2 ^ 32)))
        leave x

  -- The loop of a batch with selective completion. The results of its calls are dropped.
  -- `pending` is `numPendingRequests`.
  unfoldable pub selective_loop :
      ℕ → (Bool → Step W) → (batch cq_try pending : ℕ) → (Worker W → End W) → Worker W → End W
  selective_loop zero post batch cq_try pending leave x = endless
  selective_loop (suc n) post batch cq_try pending leave x =
      ignoring (post (pending == sub32 cq_try 1))
        (λ y. elim (ltb batch (add32 pending 1)) [
          | true ↦
              ignoring (get_tx_completion fab rounds)
                (unless_over st runtime start
                  (selective_loop n post batch cq_try (sub32 batch cq_try) leave) leave)
                (count_op y)
          | false ↦
              unless_over st runtime start
                (selective_loop n post batch cq_try (add32 pending 1) leave) leave (count_op y)
        ])
        x

  -- The inner loop of `_batchWorker`: it reads up to 10 completions, until there is one.
  -- `outstanding` is `outstandingOps`.
  unfoldable pub drain : ℕ → ℕ → (ℕ → Worker W → End W) → Worker W → End W
  drain zero outstanding k x = endless
  drain (suc n) outstanding k x =
      let r = fi_cq_read fab rounds x.node.ctx.txcq 10 x.node in
      let y : Worker W = record x { node = r.next } in
      elim (is_positive r.ret) [
        | true ↦ k (sub32 outstanding (taken r.ret)) (settle (taken r.ret) y)
        | false ↦ elim (is_negative r.ret && not (is_eagain r.ret)) [
          | true ↦ returned r.ret y
          | false ↦ drain n outstanding k y
        ]
      ]

  -- The part of the body that posts when there is room.
  unfoldable pub fill : ℕ → ℕ → (ℕ → Worker W → End W) → Worker W → End W
  fill batch outstanding k x = elim (ltb outstanding batch) [
    | false ↦ k outstanding x
    | true ↦
        call (post_tx fab rounds)
          (λ r y. elim (is_ok r) [
            | true ↦ k (add32 outstanding 1) (count_op y)
            | false ↦ elim (is_eagain r) [
              | true ↦ drain rounds outstanding k y
              | false ↦ returned r y
            ]
          ])
          x
  ]

  -- The part that waits when there is none.
  unfoldable pub make_room : ℕ → ℕ → (ℕ → Worker W → End W) → Worker W → End W
  make_room batch outstanding k x = elim (outstanding == batch) [
    | true ↦ drain rounds outstanding k x
    | false ↦ k outstanding x
  ]

  -- The loop of `_batchWorker`.
  unfoldable pub window_loop :
      ℕ → (batch outstanding : ℕ) → (ℕ → Worker W → End W) → Worker W → End W
  window_loop zero batch outstanding leave x = endless
  window_loop (suc n) batch outstanding leave x =
      fill batch outstanding
        (λ o.
          make_room batch o
            (λ o'. unless_over st runtime start (window_loop n batch o' leave) (leave o')))
        x

  -- The rest of that worker: the last wait, for the operations that are outstanding.
  unfoldable pub window_rest : (Worker W → End W) → ℕ → Worker W → End W
  window_rest leave outstanding x =
      or_exit (get_n_tx_completion fab rounds (extend outstanding)) leave x
