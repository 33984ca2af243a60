-- ===== src/Bench/Addresses.antt =====
-- The addresses of the workers with a large buffer: where they lie, and which of them are used.
use efa_libfabric_bench.Prelude.{
  ℕ, zero, suc, ◌+◌, ◌*◌, ◌%◌, ◌^◌, ◌≤◌, ◌≡◌, refl, Bool, true, false, arith, ap, ◌∙◌,
}
use mathlib.Core.Path.{fun_ext}
use efa_libfabric_bench.Fabric.{Fabric}
use efa_libfabric_bench.Context.{Context, opt}
use efa_libfabric_bench.Context.Options
use efa_libfabric_bench.Machine.{Step}
use efa_libfabric_bench.Buffer.Layout.{
  slot, slots, place_buffers, alloc_sizes, buf_size_large, tx_buf_start,
}
use efa_libfabric_bench.Bench.{Worker, End, Steady, or_return, unless_over, count_op}
use efa_libfabric_bench.Bench.Loops.{counted_round, counted_loop, transfer_loop}
use efa_libfabric_bench.Bench.Common.{
  large_buffer_size_gbs, offset_range, generate_random_offsets, wrap_address,
}

-- With a large buffer of 20 GB, without alignment: a message of the address that any offset gives
-- lies inside the memory, as long as the receive slots and the message take no more than 17.5 GB.
pub offsets_fit :
    (page p : ℕ) (c : Context) (rand : ℕ → ℕ) (i size : ℕ)
    → opt c Options.init_large_buffer ≡ true
    → opt c Options.align ≡ false
    → c.opts.large_buffer_size_gbs ≡ large_buffer_size_gbs
    → slots c * slot (alloc_sizes page c).rx_size + size ≤ 7 * offset_range
    → let d = place_buffers p (alloc_sizes page c) in
      let address = d.tx_buf + generate_random_offsets rand i in
      (d.buf ≤ address) × (address + size ≤ d.buf + d.buf_size)
unfolding place_buffers generate_random_offsets
offsets_fit page p c rand i size l a g h =
    let start = tx_buf_start page p c in
    let room : (alloc_sizes page c).buf_size ≡ 2 ^ 30 * 20 % 2 ^ 64 =
      buf_size_large page p c l a ∙ ap (λ n. 2 ^ 30 * n % 2 ^ 64) g in
    (omega (arith, start), omega (arith, start, room))

module _ {W : Type 0} (fab : Fabric W) (st : Steady W) (rounds runtime start : ℕ) where
  -- The loops of the workers with a large buffer, which advance `addressIndex` by `wrap_address`
  -- from 0: a counted batch and a loop of transfers use address 0 in every round.
  pub wrap_address_stays :
      (n : ℕ) (checked : Bool) (post : ℕ → Step W) (batch cq_try obtained : ℕ)
      (leave : ℕ → Worker W → End W) (done : Worker W → End W)
      → (counted_loop fab st rounds runtime start n checked wrap_address post batch cq_try obtained
            0 leave
          ≡ counted_loop fab st rounds runtime start n checked
              (λ i. i)
              (λ _. post 0)
              batch
              cq_try
              obtained
              0
              leave)
        × (transfer_loop fab st rounds runtime start n wrap_address post 0 done
            ≡ transfer_loop fab st rounds runtime start n (λ i. i) (λ _. post 0) 0 done)
  unfolding counted_loop transfer_loop wrap_address
  wrap_address_stays zero checked post batch cq_try obtained leave done = (refl, refl)
  wrap_address_stays (suc n) checked post batch cq_try obtained leave done = (
    ap {B = Worker W → End W}
        (λ (again : ℕ → Worker W → End W) x.
          counted_round fab st rounds runtime start checked (post 0) batch cq_try obtained again
            leave x)
        (fun_ext (λ o. (wrap_address_stays n checked post batch cq_try o leave done).0)),
    ap {B = Worker W → End W}
        (λ (again : Worker W → End W) x.
          or_return (post 0) (unless_over st runtime start again done) (count_op x))
        (wrap_address_stays n checked post batch cq_try obtained leave done).1,
  )
