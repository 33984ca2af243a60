-- ===== src/Names/Split.antt =====
-- What `ft_split_and_alloc` returns.
use efa_libfabric_bench.Prelude.{
  ℕ, zero, suc, ◌+◌, ◌≡◌, ◌≢◌, refl, ap, ◌∙◌, sym, true, none, some, List, [], ◌∷◌, ◌++◌, ◌==◌,
  if◌then◌else◌, length, arith, Bool-cases, ◌≤◌, ==_iff, ◌⊎◌, inl, inr,
}
use mathlib.Core.Path.{subst}
use efa_libfabric_bench.Fabric.{Fabric}
use efa_libfabric_bench.Context.{Text}
use efa_libfabric_bench.Names.{
  is_delim, array_size, token, rest, fill_array, null, array, checked, ft_split_and_alloc,
}

-- The entries have no delimiter, and with one delimiter between any two of them they are the text.
pub data Joins (delim : Text) : List Text → Text → Type 0 where
  last : (x : Text) → token delim x ≡ x → rest delim x ≡ none → Joins delim (x ∷ []) x
  more :
      (x : Text) (c : ℕ) {xs : List Text} {s : Text}
      → token delim x ≡ x
      → rest delim x ≡ none
      → is_delim delim c ≡ true
      → Joins delim xs s
      → Joins delim (x ∷ xs) (x ++ (c ∷ s))

module _ (delim : Text) where
  -- A token has no delimiter.
  token_whole :
      (s : Text)
      → (token delim (token delim s) ≡ token delim s) × (rest delim (token delim s) ≡ none)
  unfolding token rest
  token_whole [] = (refl, refl)
  token_whole (c ∷ cs) = elim (Bool-cases (is_delim delim c)) [
    | inl y ↦ rw y (refl, refl)
    | inr z ↦
        let (whole, plain) = token_whole cs in
        rw z (
          ap (λ v. if is_delim delim c then [] else c ∷ v) whole ∙ ground (arith, z),
          ground (arith, z, plain),
        )
  ]

  -- Where the first token ends.
  token-rest :
      (s : Text)
      → ((rest delim s ≡ none) × (token delim s ≡ s) × (array_size delim s ≡ 1))
        ⊎ ((c : ℕ) × (r : Text) × (is_delim delim c ≡ true)
            × (rest delim s ≡ some r)
            × (s ≡ token delim s ++ (c ∷ r))
            × (array_size delim s ≡ suc (array_size delim r)))
  unfolding token rest array_size
  token-rest [] = inl (refl, refl, refl)
  token-rest (c ∷ cs) = elim (Bool-cases (is_delim delim c)) [
    | inl y ↦ inr (c, cs, y, ground arith, rw y refl, ground arith)
    | inr z ↦ elim (token-rest cs) [
      | inl (p, q, k) ↦ inl (ground arith, rw z (ap (λ v. c ∷ v) q), ground arith)
      | inr (d, r, e, p, q, k) ↦ inr (d, r, e, ground arith, rw z (ap (λ v. c ∷ v) q), ground arith)
    ]
  ]

  array_size_positive : (s : Text) → 1 ≤ array_size delim s
  unfolding array_size
  array_size_positive [] = omega arith
  array_size_positive (c ∷ cs) = ground (arith, array_size_positive cs)

  fill_array_lem :
      (n : ℕ) (s : Text)
      → array_size delim s ≡ n
      → (xs : List Text) × (fill_array n delim (some s) ≡ some xs)
        × (length xs ≡ n)
        × Joins delim xs s
  unfolding fill_array
  fill_array_lem zero s h = absurd (omega (arith, array_size_positive s))
  fill_array_lem (suc n) s h = elim (token-rest s) [
    | inl (p, q, k) ↦ (
      token delim s ∷ [],
      rw (fill_array, p) refl,
      ground arith,
      subst (λ v. Joins delim (v ∷ []) s) (sym q) (last s q p),
    )
    | inr (c, r, e, p, q, k) ↦
        let (xs, filled, len, joined) = fill_array_lem n r (omega arith) in
        let (whole, plain) = token_whole s in
        (
          token delim s ∷ xs,
          rw (fill_array, p, filled) refl,
          omega arith,
          subst (λ v. Joins delim (token delim s ∷ xs) v) (sym q)
              (more (token delim s) c whole plain e joined),
        )
  ]

module _ {W : Type 0} (fab : Fabric W) (s delim : Text) (w : W) where
  -- `ft_split_and_alloc` of a text returns NULL where one of its two allocations fails. Where both
  -- succeed it returns the entries between
  -- the delimiters: as many as the count says, none with a delimiter in it, and with one delimiter
  -- between any two of them they are the text. The assertion never fails, and nothing is written past
  -- the array.
  pub ft_split_and_alloc_lem :
      let r = ft_split_and_alloc fab (some s) (some delim) w in
      let dup = fab.malloc (length s + 1) w in
      let arr = fab.malloc (array_size delim s + 1) dup.next in
      ((r.split ≡ null) × ((dup.ptr ≡ 0) ⊎ (arr.ptr ≡ 0)))
      ⊎ ((dup.ptr ≢ 0)
          × (arr.ptr ≢ 0)
          × (xs : List Text) × (r.split ≡ array xs (array_size delim s))
          × (length xs ≡ array_size delim s)
          × Joins delim xs s)
  unfolding ft_split_and_alloc checked
  ft_split_and_alloc_lem =
      let (xs, filled, len, joined) = fill_array_lem delim (array_size delim s) s refl in
      let full : (length xs == array_size delim s) ≡ true = (==_iff _ _).1 len in
      let dup = fab.malloc (length s + 1) w in
      let arr = fab.malloc (array_size delim s + 1) dup.next in
      elim (Bool-cases (dup.ptr == 0)) [
        | inl y ↦ inl (ground arith, inl (ground (arith, y)))
        | inr z ↦ elim (Bool-cases (arr.ptr == 0)) [
          | inl y ↦ inl (ground arith, inr (ground (arith, y)))
          | inr v ↦ inr (λ e. ground arith, λ e. ground arith, xs, ground arith, len, joined)
        ]
      ]
