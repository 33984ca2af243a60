-- ===== src/Tests/Closing.antt =====
-- The closing of a connection with a provider that refuses to close an object that another uses.
use efa_libfabric_bench.Prelude.{
  ◌≡◌, refl, Bool, true, false, not, ◌&&◌, ◌||◌, List, [], ◌∷◌, if◌then◌else◌, arith, Bool-cases,
  inl, inr,
}
use efa_libfabric_bench.Fabric.{Ret, val, fail, eother}
use efa_libfabric_bench.Context.Fids.{
  Fid, mc, alias_ep, ep, pep, rxcq, txcq, rxcntr, txcntr, pollset, mr, av, domain, eq, waitset,
  fabric, slot_mr, same,
}
use efa_libfabric_bench.Release.{Held, closing, ft_close_fids}
use efa_libfabric_bench.Release.Order.{uses, elem, Lifetimes, ft_close_fids_lem}

abbrev pub fids : List Fid
fids =
    mc ∷ alias_ep ∷ ep ∷ pep ∷ rxcq ∷ txcq ∷ rxcntr ∷ txcntr ∷ pollset ∷ mr ∷ av ∷ domain ∷ eq
    ∷ waitset ∷ fabric ∷ slot_mr ∷ []

-- Whether one of the objects uses `x`.
abbrev pub is_used : Fid → (Fid → Bool) → List Fid → Bool
is_used x w [] = false
is_used x w (y ∷ rest) = (uses y x && w y) || is_used x w rest

abbrev pub close : Fid → (Fid → Bool) → record { ret : Ret; next : Fid → Bool }
close x w =
    if is_used x w fids
    then record { ret = fail eother; next = w }
    else record { ret = val 0; next = λ y. if same y x then false else w y }

not_used :
    (x : Fid) (w : Fid → Bool) (ys : List Fid)
    → ((y : Fid) → uses y x ≡ true → w y ≡ false)
    → is_used x w ys ≡ false
not_used x w [] h = refl
not_used x w (y ∷ ys) h = elim (Bool-cases (uses y x)) [
  | inl u ↦ ground (arith, h y u, not_used x w ys h)
  | inr u ↦ ground (arith, u, not_used x w ys h)
]

pub close-Lifetimes : Lifetimes close (λ x w. w x)
close-Lifetimes = record {
  closes = λ x w l h.
      let idle = not_used x w fids h in (rw (close, idle) refl, λ y. rw (close, idle) refl);
}

-- A connection without a passive endpoint, whose region is `no_mr`.
abbrev holds : Fid → Bool
holds x = not (same x pep)

abbrev held : Held (Fid → Bool)
held = record { is_open = holds; errors = 0; world = λ x. elem x (closing false true) && holds x }

ft_close_fids_lem_example :
    let t = ft_close_fids close false true held in
    (t.errors ≡ 0)
    × ((y : Fid) → t.world y ≡ false)
    × ((y : Fid) → t.is_open y ≡ (if elem y (closing false true) then false else held.is_open y))
ft_close_fids_lem_example = ft_close_fids_lem close-Lifetimes false true held (λ y. refl)
