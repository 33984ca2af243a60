-- ===== src/Opening/Owned/Combine.antt =====
-- How steps that change no object, and steps that open the next one, are put together.
use efa_libfabric_bench.Prelude.{
  ℕ, ◌≤◌, ◌≡◌, refl, ◌∙◌, sym, ap, Bool, true, false, not, ◌&&◌, if◌then◌else◌, arith, Bool-cases,
  inl, inr,
}
use efa_libfabric_bench.Fabric.{Ret, val, is_ok}
use efa_libfabric_bench.Context.{Context, opt}
use efa_libfabric_bench.Context.Fids.{Fid, rxcq, mr, slot_mr, same}
use efa_libfabric_bench.Context.Options
use efa_libfabric_bench.Machine.{State, Outcome, returns, out_of_rounds, fault, Step, ◌>>◌}
use efa_libfabric_bench.Opening.{Calls, when}
use efa_libfabric_bench.Opening.Owned.{owned, Same, Held, Stage, Quiet, Calm, Reaches, Leads}

-- `owned` of the three things that it reads.
abbrev owned_by : Fid → (Fid → Bool) → (sharing region : Bool) → Bool
owned_by y is_open sharing region =
    is_open y
    && (not (same y slot_mr) && (not (same y rxcq && sharing) && not (same y mr && region)))

module _ {W : Type 0} {live : Fid → W → Bool} where
  pub Same-refl : {s : State W} → Same live s s
  Same-refl = record { fields = refl; region = refl; sharing = (refl, refl); existing = λ y. refl }

  pub Same-trans : {s t u : State W} → Same live s t → Same live t u → Same live s u
  Same-trans p q = record {
    fields = q.fields ∙ p.fields;
    region = q.region ∙ p.region;
    sharing = (q.sharing.0 ∙ p.sharing.0, q.sharing.1 ∙ p.sharing.1);
    existing = λ y. q.existing y ∙ p.existing y;
  }

  -- Only the world has changed, and in it no object.
  pub Same-world :
      {s : State W} {w : W}
      → ((y : Fid) → live y w ≡ live y s.world)
      → Same live s (record s { world = w })
  Same-world h = record { fields = refl; region = refl; sharing = (refl, refl); existing = h }

  owned-Same : {s t : State W} (y : Fid) → Same live s t → owned y t.ctx ≡ owned y s.ctx
  owned-Same {s} {t} y p =
      ap (λ f. owned_by y f (opt t.ctx Options.cq_shared) t.ctx.objects.is_no_mr) p.fields
      ∙ ap (λ b. owned_by y s.ctx.objects.is_open b t.ctx.objects.is_no_mr) p.sharing.0
      ∙ ap (λ b. owned_by y s.ctx.objects.is_open (opt s.ctx Options.cq_shared) b) p.region

  pub Stage-Same :
      {shared : Bool} {n : ℕ} {s t : State W}
      → Same live s t
      → Stage live shared n s
      → Stage live shared n t
  Stage-Same p h = record {
    true_to = λ y. p.existing y ∙ h.true_to y ∙ sym (owned-Same y p);
    later = λ y l. owned-Same y p ∙ h.later y l;
    option = p.sharing.0 ∙ h.option;
    one_region = p.sharing.1 ∙ h.one_region;
  }

  pub Stage-Held : {shared : Bool} {n : ℕ} {s : State W} → Stage live shared n s → Held live s
  Stage-Held h = record { held = h.true_to }

  pub later-Stage :
      {shared : Bool} {n k : ℕ} {s : State W}
      → n ≤ k
      → Stage live shared n s
      → Stage live shared k s
  later-Stage l h = record {
    true_to = h.true_to;
    later = λ y g. h.later y (omega arith);
    option = h.option;
    one_region = h.one_region;
  }

  pub Stage-Reaches :
      {shared : Bool} {n : ℕ} {r : Ret} {s : State W}
      → Stage live shared n s
      → Reaches live shared n (returns r s)
  Stage-Reaches h = record { reaches = (Stage-Held h, h.option, λ o. h) }

  -- A step that fails may stop at any stage.
  pub Stage-Reaches_failed :
      {shared : Bool} {n k : ℕ} {r : Ret} {s : State W}
      → is_ok r ≡ false
      → Stage live shared n s
      → Reaches live shared k (returns r s)
  Stage-Reaches_failed e h = record {
    reaches = (Stage-Held h, h.option, λ g. absurd (ground arith));
  }

  pub Quiet-returns : {s t : State W} {r : Ret} → Same live s t → Quiet live s (returns r t)
  Quiet-returns p = record { quiet = p }

  pub Quiet-fault : {s : State W} → Quiet live s fault
  Quiet-fault = record { quiet = tt }

  pub pick :
      {s : State W} {x y : Outcome W} (b : Bool)
      → Quiet live s x
      → Quiet live s y
      → Quiet live s (if b then x else y)
  pick true p q = p
  pick false p q = q

  -- A step from a state that is the same.
  pub calm_from : {s t : State W} (x : Outcome W) → Same live s t → Quiet live t x → Quiet live s x
  calm_from (returns r u) p q = record { quiet = Same-trans p q.quiet }
  calm_from out_of_rounds p q = record { quiet = tt }
  calm_from fault p q = record { quiet = tt }

  goes_on :
      {s : State W} (x : Outcome W) (k : Step W)
      → Quiet live s x
      → Calm live k
      → Quiet live s (elim x [
        | returns r t ↦ elim (is_ok r) [ true ↦ k t | false ↦ returns r t ]
        | out_of_rounds ↦ out_of_rounds
        | fault ↦ fault
      ])
  goes_on (returns r t) k p q = elim (Bool-cases (is_ok r)) [
    | inl o ↦ rw o (calm_from (k t) p.quiet (q.calm t))
    | inr o ↦ rw o p
  ]
  goes_on out_of_rounds k p q = record { quiet = tt }
  goes_on fault k p q = record { quiet = tt }

  infixr 5 ◌⨾◌
  pub ◌⨾◌ : {m k : Step W} → Calm live m → Calm live k → Calm live (m >> k)
  ◌⨾◌ {m = m} {k = k} p q = record { calm = λ s. goes_on (m s) k (p.calm s) q }

  pub Calm-if :
      (b : Context → Bool) {m : Step W}
      → Calm live m
      → Calm live (λ s. if b s.ctx then m s else returns (val 0) s)
  Calm-if b p = record { calm = λ s. pick (b s.ctx) (p.calm s) (Quiet-returns Same-refl) }

  pub Quiet-Reaches :
      {shared : Bool} {n : ℕ} {s : State W} (x : Outcome W)
      → Quiet live s x
      → Stage live shared n s
      → Reaches live shared n x
  Quiet-Reaches (returns r t) q h = Stage-Reaches (Stage-Same q.quiet h)
  Quiet-Reaches out_of_rounds q h = record { reaches = tt }
  Quiet-Reaches fault q h = record { reaches = tt }

  pub Calm-Leads : {shared : Bool} {n : ℕ} {m : Step W} → Calm live m → Leads live shared n n m
  Calm-Leads {m = m} p = record { leads = λ s h. Quiet-Reaches (m s) (p.calm s) h }

  pub Reaches-then :
      {shared : Bool} {n j : ℕ} (x : Outcome W) (k : Step W)
      → Reaches live shared j x
      → Leads live shared j n k
      → Reaches live shared n (elim x [
        | returns r t ↦ elim (is_ok r) [ true ↦ k t | false ↦ returns r t ]
        | out_of_rounds ↦ out_of_rounds
        | fault ↦ fault
      ])
  Reaches-then (returns r t) k p q = elim (Bool-cases (is_ok r)) [
    | inl e ↦ rw e (q.leads t (p.reaches.2 e))
    | inr e ↦ rw e (record { reaches = (p.reaches.0, p.reaches.1, λ g. absurd (ground arith)) })
  ]
  Reaches-then out_of_rounds k p q = record { reaches = tt }
  Reaches-then fault k p q = record { reaches = tt }

  infixr 5 ◌▸◌
  pub ◌▸◌ :
      {shared : Bool} {n j i : ℕ} {m k : Step W}
      → Leads live shared n j m
      → Leads live shared j i k
      → Leads live shared n i (m >> k)
  ◌▸◌ {m = m} {k = k} p q = record { leads = λ s h. Reaches-then (m s) k (p.leads s h) q }

  pub choose :
      {shared : Bool} {n : ℕ} {x y : Outcome W} (b : Bool)
      → (b ≡ true → Reaches live shared n x)
      → (b ≡ false → Reaches live shared n y)
      → Reaches live shared n (if b then x else y)
  choose true p q = p refl
  choose false p q = q refl

  -- What is left out skips a stage.
  pub when-Leads :
      (calls : Calls W) {shared : Bool} {n k : ℕ} {m : Step W} (b : Context → Bool)
      → n ≤ k
      → Leads live shared n k m
      → Leads live shared n k (when calls b m)
  when-Leads calls b l p = record {
    leads = λ s h. choose (b s.ctx) (λ _. p.leads s h) (λ _. Stage-Reaches (later-Stage l h));
  }

  pub weaken-Leads :
      {shared : Bool} {n k j : ℕ} {m : Step W}
      → k ≤ j
      → Leads live shared n k m
      → Leads live shared n j m
  weaken-Leads {shared = shared} {k = k} {j = j} {m = m} l p = record {
    leads = λ s h. weaker (m s) (p.leads s h);
  }
    where
      weaker : (x : Outcome W) → Reaches live shared k x → Reaches live shared j x
      weaker (returns r t) q = record {
        reaches = (q.reaches.0, q.reaches.1, λ e. later-Stage l (q.reaches.2 e));
      }
      weaker out_of_rounds q = record { reaches = tt }
      weaker fault q = record { reaches = tt }

  -- What the sharing of the queue excludes is left out.
  pub skip-Leads :
      (calls : Calls W) {shared : Bool} {n : ℕ} (b : Context → Bool) (m : Step W)
      → ((c : Context) → opt c Options.cq_shared ≡ shared → b c ≡ false)
      → Leads live shared n n (when calls b m)
  skip-Leads calls b m p = record {
    leads = λ s h.
        choose (b s.ctx) (λ e. absurd (ground (arith, p s.ctx h.option))) (λ _. Stage-Reaches h);
  }
