-- ===== src/Post/Rounds.antt =====
-- `FT_POST` ends: each refused post gets the provider closer to accepting.
use efa_libfabric_bench.Prelude.{
  ℕ, zero, suc, ◌<◌, ◌≡◌, true, arith, Bool-cases, inl, inr, ◌∙◌, ◌||◌, ◌⊎◌,
}
use efa_libfabric_bench.Fabric.{Ret, val, Request, Fabric, is_ok, is_eagain}
use efa_libfabric_bench.Fabric.Contract.{Draining}
use efa_libfabric_bench.Machine.{State, returns, Step}
use efa_libfabric_bench.Post.{
  Side, tx, rx, queue, inc_seq, ft_cq_readerr, ft_progress, post_round, ft_post, retry, restored,
}

module _ {W : Type 0} (fab : Fabric W) (d : Side) (req : Request) (again : Step W)
    (s : State W) where
  -- A round returns, or goes on after a refused post.
  post_round_goes :
      ((r : Ret) × (t : State W) × (post_round fab d req again s ≡ returns r t))
      ⊎ ((is_eagain (fab.post req s.world).ret ≡ true)
          × (post_round fab d req again s ≡ again (restored fab d req s)))
  unfolding post_round
  post_round_goes = elim (Bool-cases (is_ok (fab.post req s.world).ret)) [
    | inl o ↦
        inl (
          val 0,
          record { ctx = inc_seq d s.ctx; world = (fab.post req s.world).next },
          ground arith,
        )
    | inr o ↦ elim (Bool-cases (is_eagain (fab.post req s.world).ret)) [
      | inr a ↦ inl (
        (fab.post req s.world).ret,
        record s { world = (fab.post req s.world).next },
        ground arith,
      )
      | inl a ↦
          elim (Bool-cases (is_ok (retry fab d req s).ret || is_eagain (retry fab d req s).ret)) [
            | inl k ↦ inr (a, ground arith)
            | inr k ↦ inl ((retry fab d req s).ret, (retry fab d req s).next, ground arith)
          ]
    ]
  ]

module _ {W : Type 0} {fab : Fabric W} {q : ℕ} {delay : W → ℕ} (dr : Draining fab q delay) where
  restored-queue :
      (d : Side) (req : Request) (s : State W) → queue d (restored fab d req s).ctx ≡ queue d s.ctx
  unfolding restored retry ft_progress
  restored-queue tx req s = ground arith
  restored-queue rx req s = ground arith

  retry-delay :
      (d : Side) (req : Request) (s : State W)
      → queue d s.ctx ≡ q
      → is_eagain (fab.post req s.world).ret ≡ true
      → delay (restored fab d req s).world < delay s.world
  unfolding restored retry ft_progress ft_cq_readerr
  retry-delay tx req s h e = ground (
    arith,
    dr.read_drains req s.world e,
    dr.readerr_keeps (fab.cq_read q 1 (fab.post req s.world).next).next,
  )
  retry-delay rx req s h e = ground (
    arith,
    dr.read_drains req s.world e,
    dr.readerr_keeps (fab.cq_read q 1 (fab.post req s.world).next).next,
  )

  -- `FT_POST` returns in one round more than the delay of the provider, which every refused post
  -- with the read that follows lowers.
  pub ft_post_returns :
      (n : ℕ) (d : Side) (req : Request) (s : State W)
      → queue d s.ctx ≡ q
      → delay s.world < n
      → (r : Ret) × (t : State W) × (ft_post fab n d req s ≡ returns r t)
  unfolding ft_post
  ft_post_returns zero d req s h m = absurd (omega arith)
  ft_post_returns (suc n) d req s h m = elim (post_round_goes fab d req (ft_post fab n d req) s) [
    | inl done ↦ done
    | inr (e, more) ↦ rw more (
        ft_post_returns n d req (restored fab d req s) (restored-queue d req s ∙ h)
          (omega (arith, retry-delay d req s h e)))
  ]
