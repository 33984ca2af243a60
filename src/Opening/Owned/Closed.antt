-- ===== src/Opening/Owned/Closed.antt =====
-- What the set-up has opened, `ft_close_fids` ends.
use mathlib.Core.Path.{subst}
use efa_libfabric_bench.Prelude.{ℕ, ◌≡◌, refl, Bool, false, not, ◌&&◌, arith}
use efa_libfabric_bench.Fabric.{Fabric, Ret}
use efa_libfabric_bench.Context.{opt}
use efa_libfabric_bench.Context.Fids.{Fid, mc, rxcq, mr, slot_mr, same}
use efa_libfabric_bench.Context.Options
use efa_libfabric_bench.Machine.{State, returns}
use efa_libfabric_bench.Release.{Held, closing, ft_close_fids}
use efa_libfabric_bench.Release.Order.{elem, Lifetimes, ft_close_fids_lem}
use efa_libfabric_bench.Opening.{Calls}
use efa_libfabric_bench.Opening.Oob.{Net}
use efa_libfabric_bench.Opening.Connect.{ft_init_fabric_cm}
use efa_libfabric_bench.Opening.Owned.{
  owned, rank, Same, Stage, Quiet, Calm, Reaches, Leads, FabricKeeps, CallsKeep, NetKeeps,
  AddressesKeep, SocketsKeep,
}
use efa_libfabric_bench.Socket.{Sockets}
use efa_libfabric_bench.Opening.Address.{ft_init_fabric}
use efa_libfabric_bench.Opening.Owned.Paths.{connect-Leads, fabric_set_up}
use efa_libfabric_bench.Opening.Owned as Owned

-- The fields that `ft_close_fids` closes are those that can own an object.
elem-closing :
    (s m : Bool) (y : Fid)
    → elem y (closing s m)
      ≡ (not (same y slot_mr) && (not (same y rxcq && s) && not (same y mr && m)))
unfolding closing
elem-closing s m mc = ground arith
elem-closing s m _ = ground arith

-- What the set-up left, as `ft_close_fids` finds it.
abbrev pub left_open : {W : Type 0} → State W → Held W
left_open t = record { is_open = t.ctx.objects.is_open; errors = 0; world = t.world }

module _ {W : Type 0} {live : Fid → W → Bool} {close : Fid → W → record { ret : Ret; next : W }}
    (law : Lifetimes close live) where
  -- True fields, and nothing left of them.
  held_closed :
      {t : State W} {shared : Bool}
      → Owned.Held live t
      → opt t.ctx Options.cq_shared ≡ shared
      → let c = ft_close_fids close shared t.ctx.objects.is_no_mr (left_open t) in
        (c.errors ≡ 0) × ((y : Fid) → live y c.world ≡ false)
  held_closed {t} {shared} h e =
      let m = t.ctx.objects.is_no_mr in
      let (errors, dead, shut) =
        ft_close_fids_lem law shared m (left_open t)
          (λ y. ground (arith, h.held y, e, elem-closing shared m y)) in
      (errors, dead)

-- Nothing exists yet, and no field holds an object.
pub record Empty {W : Type 0} (live : Fid → W → Bool) (s : State W) : Type 0 where
  pub nothing : (y : Fid) → live y s.world ≡ false
  pub null : (y : Fid) → s.ctx.objects.is_open y ≡ false

Empty-Stage :
    {W : Type 0} {live : Fid → W → Bool} {s : State W}
    → Empty live s
    → opt s.ctx Options.alloc_mult_mr ≡ false
    → Stage live (opt s.ctx Options.cq_shared) 0 s
Empty-Stage h one = record {
  true_to = λ y. ground (arith, h.nothing y, h.null y);
  later = λ y l. ground (arith, h.null y);
  option = refl;
  one_region = one;
}

module _ {W : Type 0} {live : Fid → W → Bool} {fab : Fabric W} {calls : Calls W} {net : Net W}
    {close : Fid → W → record { ret : Ret; next : W }} (memory : FabricKeeps fab live)
    (law : CallsKeep calls live) (host : NetKeeps net live) (lifetimes : Lifetimes close live) where
  -- On whatever branch `ft_init_fabric_cm` returns, as a client or as a server, with an error or not,
  -- `ft_close_fids` then closes what was opened: every `fi_close` succeeds and no object is left.
  -- Conditions: without FT_OPT_ALLOC_MULT_MR, whose slots have regions of their own that
  -- `ft_close_fids` does not close; nothing exists at the start; a call that opens an object and succeeds creates the
  -- object it names, if there was none, and ends none; one that fails, and all other calls, create
  -- and end none; an object that nothing uses can be closed, which ends it alone.
  pub connect_closes :
      (rounds : ℕ) (s t : State W) (r : Ret)
      → Empty live s
      → opt s.ctx Options.alloc_mult_mr ≡ false
      → ft_init_fabric_cm fab rounds calls net s ≡ returns r t
      → let c =
          ft_close_fids close (opt t.ctx Options.cq_shared) t.ctx.objects.is_no_mr (left_open t) in
        (c.errors ≡ 0) × ((y : Fid) → live y c.world ≡ false)
  connect_closes rounds s t r h one e =
      let shared = opt s.ctx Options.cq_shared in
      let done = (connect-Leads memory law host rounds shared).leads s (Empty-Stage h one) in
      let end : Reaches live shared 11 (returns r t) = subst (Reaches live shared 11) e done in
      held_closed lifetimes end.reaches.0 refl

  -- On whatever branch `ft_init_fabric` returns, with an error or not, `ft_close_fids` then closes
  -- what was opened: every `fi_close` succeeds and no object is left. Conditions: without
  -- FT_OPT_ALLOC_MULT_MR, whose slots have regions of their own that `ft_close_fids` does not
  -- close; nothing exists at the start; a call that opens an object and succeeds creates the object it names, if there was none,
  -- and ends none; one that fails, and all other calls, create and end none; an object that nothing
  -- uses can be closed, which ends it alone.
  pub init_closes :
      {sk : Sockets W} (names : AddressesKeep calls live) (sockets : SocketsKeep sk live)
      (rounds frame : ℕ) (s t : State W) (r : Ret)
      → Empty live s
      → opt s.ctx Options.alloc_mult_mr ≡ false
      → ft_init_fabric fab rounds calls net sk frame s ≡ returns r t
      → let c =
          ft_close_fids close (opt t.ctx Options.cq_shared) t.ctx.objects.is_no_mr (left_open t) in
        (c.errors ≡ 0) × ((y : Fid) → live y c.world ≡ false)
  init_closes names sockets rounds frame s t r h one e =
      let shared = opt s.ctx Options.cq_shared in
      let done =
        (fabric_set_up memory law host names sockets rounds frame shared).leads s
          (Empty-Stage h one) in
      let end : Reaches live shared 11 (returns r t) = subst (Reaches live shared 11) e done in
      held_closed lifetimes end.reaches.0 refl
