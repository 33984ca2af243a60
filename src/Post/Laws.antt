-- ===== src/Post/Laws.antt =====
-- What `FT_POST` (libefa/src/libefa/ftlib/shared.c) changes of the connection, and what it leaves.
use efa_libfabric_bench.Prelude.{
  ℕ, zero, suc, ◌≡◌, refl, true, false, Option, none, some, arith, Bool-cases, inl, inr, ◌⊎◌, ap,
  ◌∙◌,
}
use efa_libfabric_bench.Fabric.{Ret, val, Request, Fabric, is_ok, is_eagain}
use efa_libfabric_bench.Context.{Context}
use efa_libfabric_bench.Machine.{State, returns, Step}
use efa_libfabric_bench.Post.{
  Side, tx, rx, inc_seq, ft_progress, post_round, ft_post, retry, restored,
}

-- A context without the completion counter of one side and without the timeout.
unfoldable pub erase : Side → Context → Context
erase tx c = record c { tx_cq_cntr = 0; timeout = none }
erase rx c = record c { rx_cq_cntr = 0; timeout = none }

pub erase-inc_seq :
    (d : Side) (c c' : Context)
    → erase d c ≡ erase d c'
    → erase d (inc_seq d c) ≡ erase d (inc_seq d c')
unfolding erase
erase-inc_seq tx c c' h = ap (inc_seq tx) h
erase-inc_seq rx c c' h = ap (inc_seq rx) h

module _ {W : Type 0} (fab : Fabric W) where
  pub ft_progress-erase :
      (d : Side) (s : State W) → erase d (ft_progress fab d s).next.ctx ≡ erase d s.ctx
  unfolding ft_progress erase
  ft_progress-erase tx s = ground arith
  ft_progress-erase rx s = ground arith

  -- The ways in which a round ends the loop.
  pub data Ends (d : Side) (req : Request) (s : State W) : Ret → State W → Type 0 where
    accepted :
        {r : Ret} {t : State W}
        → is_ok (fab.post req s.world).ret ≡ true
        → r ≡ val 0
        → t ≡ record { ctx = inc_seq d s.ctx; world = (fab.post req s.world).next }
        → Ends d req s r t
    refused :
        {r : Ret} {t : State W}
        → is_ok (fab.post req s.world).ret ≡ false
        → is_ok r ≡ false
        → t ≡ record s { world = (fab.post req s.world).next }
        → Ends d req s r t
    failed :
        {r : Ret} {t : State W}
        → is_eagain (fab.post req s.world).ret ≡ true
        → is_ok r ≡ false
        → t ≡ (retry fab d req s).next
        → Ends d req s r t

  module _ (d : Side) (req : Request) (again : Step W) (s : State W) {r : Ret} {t : State W}
      (e : post_round fab d req again s ≡ returns r t) where
    post_round_cases :
        Ends d req s r t
        ⊎ ((is_eagain (fab.post req s.world).ret ≡ true)
            × (again (restored fab d req s) ≡ returns r t))
    unfolding post_round
    post_round_cases = elim (Bool-cases (is_ok (fab.post req s.world).ret)) [
      | inl o ↦ inl (accepted o (ground arith) (ground arith))
      | inr o ↦ elim (Bool-cases (is_eagain (fab.post req s.world).ret)) [
        | inr a ↦ inl (refused o (ground arith) (ground arith))
        | inl a ↦ elim (Bool-cases (is_ok (retry fab d req s).ret)) [
          | inl k ↦ inr (a, ground arith)
          | inr k ↦ elim (Bool-cases (is_eagain (retry fab d req s).ret)) [
            | inl g ↦ inr (a, ground arith)
            | inr g ↦ inl (failed a (ground arith) (ground arith))
          ]
        ]
      ]
    ]

  -- An invariant of the retries holds where the loop ends.
  module _ {ℓ} (d : Side) (req : Request) (P : State W → Type ℓ)
      (keep : (s : State W)
        → P s
        → is_eagain (fab.post req s.world).ret ≡ true
        → P (restored fab d req s)) where
    pub ft_post_rule :
        (n : ℕ) (s : State W) {r : Ret} {t : State W}
        → P s
        → ft_post fab n d req s ≡ returns r t
        → (u : State W) × P u × Ends d req u r t
    unfolding ft_post
    ft_post_rule zero s p e = absurd (ground arith)
    ft_post_rule (suc n) s p e = elim (post_round_cases d req (ft_post fab n d req) s e) [
      | inl ends ↦ (s, p, ends)
      | inr more ↦ ft_post_rule n (restored fab d req s) (keep s p more.0) more.1
    ]

  erase_timeout :
      (d : Side) (c : Context) (o : Option ℕ) → erase d (record c { timeout = o }) ≡ erase d c
  unfolding erase
  erase_timeout tx c o = refl
  erase_timeout rx c o = refl

  retry-erase :
      (d : Side) (req : Request) (s : State W)
      → erase d (retry fab d req s).next.ctx ≡ erase d s.ctx
  unfolding retry
  retry-erase d req s =
      ft_progress-erase d
        (record { ctx = record s.ctx { timeout = some 0 }; world = (fab.post req s.world).next })
      ∙ erase_timeout d s.ctx (some 0)

  restored-erase :
      (d : Side) (req : Request) (s : State W) → erase d (restored fab d req s).ctx ≡ erase d s.ctx
  unfolding restored
  restored-erase d req s =
      erase_timeout d (retry fab d req s).next.ctx s.ctx.timeout ∙ retry-erase d req s

  -- Two states of the connection that differ in the completion counter of one side at most.
  abbrev Retried : Side → State W → State W → Type 0
  Retried d s u = (erase d u.ctx ≡ erase d s.ctx) × (u.ctx.timeout ≡ s.ctx.timeout)

  Retried-restored :
      (d : Side) (req : Request) (s u : State W)
      → Retried d s u
      → Retried d s (restored fab d req u)
  unfolding restored
  Retried-restored d req s u h = (restored-erase d req u ∙ h.0, h.1)

  timeout-inc_seq : (d : Side) (c : Context) → (inc_seq d c).timeout ≡ c.timeout
  timeout-inc_seq tx c = refl
  timeout-inc_seq rx c = refl

  Ends-success :
      (d : Side) (req : Request) (s u : State W) {r : Ret} {t : State W}
      → Retried d s u
      → Ends d req u r t
      → is_ok r ≡ true
      → (erase d t.ctx ≡ erase d (inc_seq d s.ctx)) × (t.ctx.timeout ≡ s.ctx.timeout)
  Ends-success d req s u h (accepted o a b) k = (
    ap (λ x. erase d (x.ctx)) b ∙ erase-inc_seq d u.ctx s.ctx h.0,
    ap (λ x. x.ctx.timeout) b ∙ timeout-inc_seq d u.ctx ∙ h.1,
  )
  Ends-success d req s u h (refused o a b) k = absurd (cc)
  Ends-success d req s u h (failed o a b) k = absurd (cc)

  Ends-error :
      (d : Side) (req : Request) (s u : State W) {r : Ret} {t : State W}
      → Retried d s u
      → Ends d req u r t
      → is_ok r ≡ false
      → erase d t.ctx ≡ erase d s.ctx
  Ends-error d req s u h (accepted o a b) k = absurd (ground arith)
  Ends-error d req s u h (refused o a b) k = ap (λ x. erase d (x.ctx)) b ∙ h.0
  Ends-error d req s u h (failed o a b) k = ap (λ x. erase d (x.ctx)) b ∙ retry-erase d req u ∙ h.0

  module _ (d : Side) (req : Request) (n : ℕ) (s : State W) {r : Ret} {t : State W} where
    ft_post-Ends :
        ft_post fab n d req s ≡ returns r t → (u : State W) × Retried d s u × Ends d req u r t
    ft_post-Ends e =
        ft_post_rule d req (Retried d s) (λ u h _. Retried-restored d req s u h) n s (refl, refl) e

    -- A request that was accepted advances the sequence number of its side by one, modulo 2 ^ 64;
    -- nothing else of the connection changes but the completion counter of that side, and the
    -- timeout is what it was.
    pub ft_post_success :
        ft_post fab n d req s ≡ returns r t
        → is_ok r ≡ true
        → (erase d t.ctx ≡ erase d (inc_seq d s.ctx)) × (t.ctx.timeout ≡ s.ctx.timeout)
    ft_post_success e k = let (u, h, ends) = ft_post-Ends e in Ends-success d req s u h ends k

    -- After an error the connection is what it was, but for the completion counter of that side
    -- and the timeout.
    pub ft_post_error :
        ft_post fab n d req s ≡ returns r t → is_ok r ≡ false → erase d t.ctx ≡ erase d s.ctx
    ft_post_error e k = let (u, h, ends) = ft_post-Ends e in Ends-error d req s u h ends k
