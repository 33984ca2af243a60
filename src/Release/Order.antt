-- ===== src/Release/Order.antt =====
-- The order in which `ft_close_fids` closes the objects of a connection.
use mathlib.Core.Path.{subst}
use efa_libfabric_bench.Prelude.{
  ℕ, ◌≡◌, refl, Bool, true, false, not, ◌&&◌, ◌||◌, List, [], ◌∷◌, if◌then◌else◌, ◌==◌, ==_iff,
  arith, Bool-cases, inl, inr, ap, ◌∙◌, sym,
}
use efa_libfabric_bench.Fabric.{Ret, is_ok}
use efa_libfabric_bench.Context.Fids.{
  Fid, mc, alias_ep, ep, pep, rxcq, txcq, rxcntr, txcntr, pollset, mr, av, domain, eq, waitset,
  fabric, slot_mr, number, same,
}
use efa_libfabric_bench.Release.{Held, close_fid, close_all, closing, ft_close_fids}

-- Which objects hold on to which: `uses y x` if `y` was opened on `x` or is bound to it
-- (fi_endpoint(3), fi_cq(3), fi_cntr(3), fi_av(3), fi_mr(3), fi_domain(3), fi_eq(3), fi_poll(3)).
abbrev pub uses : Fid → Fid → Bool
uses mc x = same x ep || same x av
uses alias_ep x = same x ep
uses ep x =
    same x rxcq
    || (same x txcq
        || (same x rxcntr || (same x txcntr || (same x av || (same x eq || same x domain)))))
uses pep x = same x eq || same x fabric
uses rxcq x = same x waitset || same x domain
uses txcq x = same x waitset || same x domain
uses rxcntr x = same x waitset || same x domain
uses txcntr x = same x waitset || same x domain
uses pollset x = same x domain
uses mr x = same x domain
uses av x = same x eq || same x domain
uses domain x = same x eq || same x fabric
uses eq x = same x waitset || same x fabric
uses waitset x = same x fabric
uses fabric x = false
uses slot_mr x = same x domain

-- `fi_close` of an object that exists and that nothing uses any more succeeds, and ends it alone. The
-- domain is not closed while a region of a slot exists.
pub record Lifetimes {W : Type 0} (close : Fid → W → record { ret : Ret; next : W })
    (live : Fid → W → Bool) : Type 0 where
  pub closes :
      (x : Fid) (w : W)
      → live x w ≡ true
      → ((y : Fid) → uses y x ≡ true → live y w ≡ false)
      → (is_ok (close x w).ret ≡ true)
        × ((y : Fid) → live y (close x w).next ≡ (if same y x then false else live y w))

fid_of : ℕ → Fid
fid_of n =
    if n == 0
    then mc
    else if n == 1
    then alias_ep
    else if n == 2
    then ep
    else if n == 3
    then pep
    else if n == 4
    then rxcq
    else if n == 5
    then txcq
    else if n == 6
    then rxcntr
    else if n == 7
    then txcntr
    else if n == 8
    then pollset
    else if n == 9
    then mr
    else if n == 10
    then av
    else if n == 11
    then domain
    else if n == 12
    then eq
    else if n == 13
    then waitset
    else if n == 14
    then fabric
    else slot_mr

fid_of-number : (x : Fid) → fid_of (number x) ≡ x
unfolding fid_of
fid_of-number mc = refl
fid_of-number alias_ep = refl
fid_of-number ep = refl
fid_of-number pep = refl
fid_of-number rxcq = refl
fid_of-number txcq = refl
fid_of-number rxcntr = refl
fid_of-number txcntr = refl
fid_of-number pollset = refl
fid_of-number mr = refl
fid_of-number av = refl
fid_of-number domain = refl
fid_of-number eq = refl
fid_of-number waitset = refl
fid_of-number fabric = refl
fid_of-number slot_mr = refl

pub same_path : (a b : Fid) → same a b ≡ true → a ≡ b
same_path a b h =
    sym (fid_of-number a) ∙ ap fid_of ((==_iff (number a) (number b)).0 h) ∙ fid_of-number b

pub same_self : (x : Fid) → same x x ≡ true
same_self x = (==_iff (number x) (number x)).1 refl

abbrev pub elem : Fid → List Fid → Bool
elem y [] = false
elem y (x ∷ rest) = same y x || elem y rest

abbrev unused : Fid → List Fid → Bool
unused x [] = true
unused x (y ∷ rest) = not (uses y x) && unused x rest

-- No object stands behind one that it uses, nor twice.
abbrev ordered : List Fid → Bool
ordered [] = true
ordered (x ∷ rest) = unused x (x ∷ rest) && (not (elem x rest) && ordered rest)

unused-elem : (x y : Fid) (xs : List Fid) → unused x xs ≡ true → uses y x ≡ true → elem y xs ≡ false
unused-elem x y [] h u = refl
unused-elem x y (z ∷ xs) h u = elim (Bool-cases (same y z)) [
  | inl e ↦ ground (arith, subst (λ v. uses v x ≡ true) (same_path y z e) u)
  | inr e ↦ ground (arith, unused-elem x y xs (ground arith) u)
]

closing-ordered : (shared is_no_mr : Bool) → ordered (closing shared is_no_mr) ≡ true
unfolding closing
closing-ordered true true = refl
closing-ordered true false = refl
closing-ordered false true = refl
closing-ordered false false = refl

module _ {W : Type 0} {close : Fid → W → record { ret : Ret; next : W }} {live : Fid → W → Bool}
    (law : Lifetimes close live) where
  -- What exists is what is still to be closed.
  abbrev Left : List Fid → Held W → Type 0
  Left xs s = (y : Fid) → live y s.world ≡ (elem y xs && s.is_open y)

  close_fid-Left :
      (x : Fid) (xs : List Fid) (s : Held W)
      → ordered (x ∷ xs) ≡ true
      → Left (x ∷ xs) s
      → Left xs (close_fid close x s) × ((close_fid close x s).errors ≡ s.errors)
  unfolding close_fid
  close_fid-Left x xs s o h = elim (Bool-cases (s.is_open x)) [
    | inl e ↦
        let now_live : live x s.world ≡ true = ground (arith, h x, same_self x, e) in
        let idle : (y : Fid) → uses y x ≡ true → live y s.world ≡ false =
          λ y u. ground (arith, h y, unused-elem x y (x ∷ xs) (ground (arith, o)) u) in
        let (done, after) = law.closes x s.world now_live idle in
        (
          λ y. elim (Bool-cases (same y x)) [
            | inl q ↦ rw (close_fid, e) (ground (arith, after y, q))
            | inr q ↦ rw (close_fid, e) (ground (arith, after y, q, h y))
          ],
          rw (close_fid, e, done) refl,
        )
    | inr e ↦ (
      λ y. elim (Bool-cases (same y x)) [
        | inl q ↦
            rw (close_fid, e)
              (ground (arith, h y, subst (λ v. s.is_open v ≡ false) (sym (same_path y x q)) e))
        | inr q ↦ rw (close_fid, e) (ground (arith, h y, q))
      ],
      rw (close_fid, e) refl,
    )
  ]

  close_fid-is_open :
      (x y : Fid) (s : Held W) → s.is_open y ≡ false → (close_fid close x s).is_open y ≡ false
  unfolding close_fid
  close_fid-is_open x y s h = ground arith

  close_all-is_open :
      (xs : List Fid) (y : Fid) (s : Held W)
      → s.is_open y ≡ false
      → (close_all close xs s).is_open y ≡ false
  unfolding close_all
  close_all-is_open [] y s h = h
  close_all-is_open (x ∷ xs) y s h =
      close_all-is_open xs y (close_fid close x s) (close_fid-is_open x y s h)

  -- A field that is not closed is what it was.
  close_all-kept :
      (xs : List Fid) (y : Fid) (s : Held W)
      → elem y xs ≡ false
      → (close_all close xs s).is_open y ≡ s.is_open y
  unfolding close_all close_fid
  close_all-kept [] y s h = refl
  close_all-kept (x ∷ xs) y s h =
      close_all-kept xs y (close_fid close x s) (ground (arith, h)) ∙ ground (arith, h)

  closed_own : (x : Fid) (s : Held W) → (close_fid close x s).is_open x ≡ false
  unfolding close_fid
  closed_own x s = ground (arith, same_self x)

  close_all-Left :
      (xs : List Fid) (s : Held W)
      → ordered xs ≡ true
      → Left xs s
      → let t = close_all close xs s in
        (t.errors ≡ s.errors)
        × ((y : Fid) → live y t.world ≡ false)
        × ((y : Fid) → elem y xs ≡ true → t.is_open y ≡ false)
  unfolding close_all
  close_all-Left [] s o h = (refl, h, λ y e. absurd (ground arith))
  close_all-Left (x ∷ xs) s o h =
      let (left, plain) = close_fid-Left x xs s o h in
      let (same_errors, dead, shut) =
        close_all-Left xs (close_fid close x s) (ground (arith, o)) left in
      (
        same_errors ∙ plain,
        dead,
        λ y e. elim (Bool-cases (same y x)) [
          | inl q ↦ close_all-is_open xs y (close_fid close x s) (
              subst (λ v. (close_fid close x s).is_open v ≡ false) (sym (same_path y x q))
                (closed_own x s))
          | inr q ↦ shut y (ground (arith, e, q))
        ],
      )

  -- When the objects that exist are those in the fields that `ft_close_fids` closes, and `fi_close` of
  -- an object that no other uses succeeds and ends it alone, then every `fi_close` of it succeeds, no
  -- object is left, and the fields that it closes are NULL. Every other field is what it was: with
  -- FT_OPT_CQ_SHARED `rxcq` still points at the queue that was closed as `txcq`.
  pub ft_close_fids_lem :
      (shared is_no_mr : Bool) (s : Held W)
      → Left (closing shared is_no_mr) s
      → let t = ft_close_fids close shared is_no_mr s in
        (t.errors ≡ s.errors)
        × ((y : Fid) → live y t.world ≡ false)
        × ((y : Fid)
            → t.is_open y ≡ (if elem y (closing shared is_no_mr) then false else s.is_open y))
  unfolding ft_close_fids
  ft_close_fids_lem shared is_no_mr s h =
      let (errors, dead, shut) =
        close_all-Left (closing shared is_no_mr) s (closing-ordered shared is_no_mr) h in
      (
        errors,
        dead,
        λ y. elim (Bool-cases (elem y (closing shared is_no_mr))) [
          | inl e ↦ ground (arith, shut y e)
          | inr e ↦ ground (arith, e, close_all-kept (closing shared is_no_mr) y s e)
        ],
      )
