-- ===== src/Machine.antt =====
-- The state that the functions of libefa pass on, and how they are put together: a step returns an
-- `int` and the new state, runs out of the rounds that its loops are given, or faults: it indexes
-- past the end of the table `hmem_ops`, fails an assertion or writes through NULL.
use efa_libfabric_bench.Prelude.{◌≡◌, refl, true, false, arith, ◌⊎◌, inl, inr, Bool-cases}
use efa_libfabric_bench.Fabric.{Ret, val, is_ok}
use efa_libfabric_bench.Context.{Context}

module _ (W : Type 0) where
  pub record State : Type 0 where
    pub ctx : Context
    pub world : W

  pub data Outcome : Type 0 where
    returns : Ret → State → Outcome
    out_of_rounds : Outcome
    fault : Outcome

pub Outcome-cases :
    {W : Type 0} (x : Outcome W)
    → ((r : Ret) × (t : State W) × (x ≡ returns r t)) ⊎ ((x ≡ out_of_rounds) ⊎ (x ≡ fault))
Outcome-cases (returns r t) = inl (r, t, refl)
Outcome-cases out_of_rounds = inr (inl refl)
Outcome-cases fault = inr (inr refl)

abbrev pub Step : Type 0 → Type 0
Step W = State W → Outcome W

module _ {W : Type 0} where
  -- `ret = f(…); if (ret) return ret;` and the rest of the function
  infixr 5 ◌>>◌
  abbrev pub ◌>>◌ : Step W → Step W → Step W
  ◌>>◌ m k s = elim (m s) [
    | returns r t ↦ elim (is_ok r) [ true ↦ k t | false ↦ returns r t ]
    | out_of_rounds ↦ out_of_rounds
    | fault ↦ fault
  ]

  -- `ret = f(…)` and a rest that reads `ret`
  infixl 5 ◌>>=◌
  abbrev pub ◌>>=◌ : Step W → (Ret → Step W) → Step W
  ◌>>=◌ m k s = elim (m s) [ returns r t ↦ k r t | out_of_rounds ↦ out_of_rounds | fault ↦ fault ]

  -- a statement that cannot fail
  abbrev pub then_update : (Context → Context) → Step W
  then_update f s = returns (val 0) (record s { ctx = f s.ctx })

  abbrev pub return_value : Ret → Step W
  return_value r s = returns r s

  -- A sequence that succeeds is two steps that succeed.
  pub >>-success :
      (m k : Step W) (s : State W) (r : Ret) (t : State W)
      → (m >> k) s ≡ returns r t
      → is_ok r ≡ true
      → (r' : Ret) × (u : State W) × (m s ≡ returns r' u) × (is_ok r' ≡ true) × (k u ≡ returns r t)
  >>-success m k s r t e o = elim (Outcome-cases (m s)) [
    | inl (r', u, c) ↦ elim (Bool-cases (is_ok r')) [
      | inl y ↦ (r', u, c, y, ground arith)
      | inr z ↦ absurd (ground arith)
    ]
    | inr (inl c) ↦ absurd (ground arith)
    | inr (inr c) ↦ absurd (ground arith)
  ]
