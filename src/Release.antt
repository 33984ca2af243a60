-- ===== src/Release.antt =====
-- `FT_CLOSE_FID` and `ft_close_fids` of libefa/src/libefa/ftlib (shared.h, shared.c): the objects of
-- libfabric that a connection holds are closed. `fi_close` is a parameter.
pub mod Order
use efa_libfabric_bench.Prelude.{ℕ, ◌+◌, Bool, true, false, List, [], ◌∷◌, if◌then◌else◌, ◌==◌}
use efa_libfabric_bench.Context.Fids.{
  Fid, mc, alias_ep, ep, pep, rxcq, txcq, rxcntr, txcntr, pollset, mr, av, domain, eq, waitset,
  fabric, same,
}
use efa_libfabric_bench.Fabric.{Ret, is_ok}

-- Which of the fields are not NULL, and how many failures of `fi_close` were reported.
pub record Held (W : Type 0) : Type 0 where
  pub is_open : Fid → Bool
  pub errors : ℕ
  pub world : W

-- The fields in the order in which they are closed. With FT_OPT_CQ_SHARED `rxcq` is `txcq`;
-- `no_mr` is a region that is not registered.
abbrev pub queues : Bool → List Fid → List Fid
queues true rest = txcq ∷ rest
queues false rest = rxcq ∷ txcq ∷ rest

abbrev pub region : Bool → List Fid → List Fid
region true rest = rest
region false rest = mr ∷ rest

unfoldable pub closing : (shared is_no_mr : Bool) → List Fid
closing shared is_no_mr =
    mc
    ∷ alias_ep
    ∷ ep
    ∷ pep
    ∷ queues shared
        (rxcntr ∷ txcntr ∷ pollset ∷ region is_no_mr (av ∷ domain ∷ eq ∷ waitset ∷ fabric ∷ []))

module _ {W : Type 0} (close : Fid → W → record { ret : Ret; next : W }) where
  -- `FT_CLOSE_FID`: a failure is only reported.
  unfoldable pub close_fid : Fid → Held W → Held W
  close_fid x s =
      if s.is_open x
      then (let r = close x s.world in
          record {
            is_open = λ y. if same y x then false else s.is_open y;
            errors = if is_ok r.ret then s.errors else s.errors + 1;
            world = r.next;
          })
      else s

  unfoldable pub close_all : List Fid → Held W → Held W
  close_all [] s = s
  close_all (x ∷ rest) s = close_all rest (close_fid x s)

  unfoldable pub ft_close_fids : (shared is_no_mr : Bool) → Held W → Held W
  ft_close_fids shared is_no_mr s = close_all (closing shared is_no_mr) s
