-- ===== src/Opening/Owned.antt =====
-- What the set-up of a connection leaves open: the fields that own an object, the contracts of the
-- calls, and how steps are put together that keep the fields true to what exists.
pub mod Combine
pub mod OutOfBand
pub mod Posting
pub mod Asking
pub mod Questions
pub mod Opens
pub mod Queues
pub mod Region
pub mod Slots
pub mod Waiting
pub mod Counting
pub mod Messages
pub mod Addresses
pub mod Exchanged
pub mod Paths
pub mod Closed
use mathlib.Core.Path.{subst}
use efa_libfabric_bench.Prelude.{
  ℕ, ◌+◌, ◌≤◌, ◌≡◌, refl, ◌∙◌, sym, ap, Bool, true, false, not, ◌&&◌, ◌||◌, if◌then◌else◌, arith,
  Bool-cases, inl, inr, Option, List,
}
use efa_libfabric_bench.Fabric.{Ret, val, Fabric, Request, is_ok}
use efa_libfabric_bench.Context.{Context, Info, Text, opt}
use efa_libfabric_bench.Context.Fids.{
  Fid, mc, alias_ep, ep, pep, rxcq, txcq, rxcntr, txcntr, pollset, mr, av, domain, eq, waitset,
  fabric, slot_mr, same,
}
use efa_libfabric_bench.Context.Options
use efa_libfabric_bench.Machine.{
  State, Outcome, returns, out_of_rounds, fault, Step, ◌>>◌, Outcome-cases,
}
use efa_libfabric_bench.Access.{Access}
use efa_libfabric_bench.Socket.{Sockets}
use efa_libfabric_bench.Opening.{Opening, opens, Control, Calls, when}
use efa_libfabric_bench.Opening.Oob.{Net, SocketCall}

-- A field that is not NULL owns its object, but for a queue that is that of the other side and a
-- region that is not registered. The regions of the slots are in no field.
abbrev pub owned : Fid → Context → Bool
owned y c =
    c.objects.is_open y
    && (not (same y slot_mr)
        && (not (same y rxcq && opt c Options.cq_shared) && not (same y mr && c.objects.is_no_mr)))

-- The order in which the objects are opened.
abbrev pub rank : Fid → ℕ
rank fabric = 0
rank eq = 1
rank pep = 2
rank domain = 3
rank mr = 4
rank txcq = 5
rank txcntr = 6
rank rxcq = 7
rank rxcntr = 8
rank av = 9
rank ep = 10
rank mc = 11
rank alias_ep = 11
rank pollset = 11
rank waitset = 11
rank slot_mr = 11

-- The calls of libfabric that do not open or close an object of the connection.
pub record FabricKeeps {W : Type 0} (fab : Fabric W) (live : Fid → W → Bool) : Type 0 where
  pub post : (req : Request) (w : W) (y : Fid) → live y (fab.post req w).next ≡ live y w
  pub cq_read : (q n : ℕ) (w : W) (y : Fid) → live y (fab.cq_read q n w).next ≡ live y w
  pub cq_sread :
      (q n : ℕ) (o : Option ℕ) (w : W) (y : Fid) → live y (fab.cq_sread q n o w).next ≡ live y w
  pub cq_readerr : (q : ℕ) (w : W) (y : Fid) → live y (fab.cq_readerr q w).next ≡ live y w
  pub cntr_read : (q : ℕ) (w : W) (y : Fid) → live y (fab.cntr_read q w).next ≡ live y w
  pub cntr_wait :
      (q n : ℕ) (o : Option ℕ) (w : W) (y : Fid) → live y (fab.cntr_wait q n o w).next ≡ live y w
  pub trywait : (q : ℕ) (w : W) (y : Fid) → live y (fab.trywait q w).next ≡ live y w
  pub poll : (fd : ℕ) (o : Option ℕ) (w : W) (y : Fid) → live y (fab.poll fd o w).next ≡ live y w
  pub clock : (w : W) (y : Fid) → live y (fab.clock w).next ≡ live y w
  pub malloc : (n : ℕ) (w : W) (y : Fid) → live y (fab.malloc n w).next ≡ live y w
  pub store : (a v : ℕ) (w : W) (y : Fid) → live y (fab.store a v w) ≡ live y w

-- The calls that only the exchange of addresses makes.
pub record AddressesKeep {W : Type 0} (calls : Calls W) (live : Fid → W → Bool) : Type 0 where
  pub getname : (a : ℕ) (w : W) (y : Fid) → live y (calls.getname a w).next ≡ live y w
  pub av_insert : (a : ℕ) (w : W) (y : Fid) → live y (calls.av_insert a w).next ≡ live y w

pub record SocketsKeep {W : Type 0} (sk : Sockets W) (live : Fid → W → Bool) : Type 0 where
  pub send : (fd : ℕ) (xs : List ℕ) (w : W) (y : Fid) → live y (sk.send fd xs w).next ≡ live y w
  pub recv : (fd n : ℕ) (w : W) (y : Fid) → live y (sk.recv fd n w).next ≡ live y w

-- A call that succeeds opens the object that it names, which was not there; one that fails, and the
-- calls that open none, leave what exists. Nothing is assumed of the registration of a slot, which
-- opens a further region.
pub record CallsKeep {W : Type 0} (calls : Calls W) (live : Fid → W → Bool) : Type 0 where
  pub creates :
      (o : Opening) (w : W)
      → live (opens o) w ≡ false
      → is_ok (calls.create o w).ret ≡ true
      → (y : Fid) → live y (calls.create o w).next ≡ (same y (opens o) || live y w)
  pub refused :
      (o : Opening) (w : W)
      → is_ok (calls.create o w).ret ≡ false
      → (y : Fid) → live y (calls.create o w).next ≡ live y w
  pub control : (o : Control) (w : W) (y : Fid) → live y (calls.control o w).next ≡ live y w
  pub get_wait : (x : Fid) (w : W) (y : Fid) → live y (calls.get_wait x w).next ≡ live y w
  pub getinfo :
      (node service : Option Text) (source : Bool) (hints : Info) (w : W) (y : Fid)
      → live y (calls.getinfo node service source hints w).next ≡ live y w
  pub eq_sread : (w : W) (y : Fid) → live y (calls.eq_sread w).next ≡ live y w
  pub eq_readerr : (w : W) (y : Fid) → live y (calls.eq_readerr w) ≡ live y w
  pub page_size : (w : W) (y : Fid) → live y (calls.page_size w).next ≡ live y w
  pub memalign : (a n : ℕ) (w : W) (y : Fid) → live y (calls.memalign a n w).next ≡ live y w
  pub fork : (w : W) (y : Fid) → live y (calls.fork w).next ≡ live y w

pub record NetKeeps {W : Type 0} (net : Net W) (live : Fid → W → Bool) : Type 0 where
  pub getaddrinfo :
      (node service : Option Text) (passive : Bool) (w : W) (y : Fid)
      → live y (net.getaddrinfo node service passive w).next ≡ live y w
  pub socket : (w : W) (y : Fid) → live y (net.socket w).next ≡ live y w
  pub accept : (fd : Option ℕ) (w : W) (y : Fid) → live y (net.accept fd w).next ≡ live y w
  pub call : (x : SocketCall) (fd : ℕ) (w : W) (y : Fid) → live y (net.call x fd w).next ≡ live y w
  pub close : (fd : ℕ) (w : W) (y : Fid) → live y (net.close fd w) ≡ live y w

module _ {W : Type 0} (live : Fid → W → Bool) where
  -- Nothing that `owned` reads has changed, nor FT_OPT_ALLOC_MULT_MR, and what exists is the same.
  pub record Same (s t : State W) : Type 0 where
    pub fields : t.ctx.objects.is_open ≡ s.ctx.objects.is_open
    pub region : t.ctx.objects.is_no_mr ≡ s.ctx.objects.is_no_mr
    pub sharing :
        (opt t.ctx Options.cq_shared ≡ opt s.ctx Options.cq_shared)
        × (opt t.ctx Options.alloc_mult_mr ≡ opt s.ctx Options.alloc_mult_mr)
    pub existing : (y : Fid) → live y t.world ≡ live y s.world

  pub record Held (s : State W) : Type 0 where
    pub held : (y : Fid) → live y s.world ≡ owned y s.ctx

  -- The objects of a rank from `n` on are still to be opened, and the slots of the window have no
  -- regions of their own.
  pub record Stage (shared : Bool) (n : ℕ) (s : State W) : Type 0 where
    pub true_to : (y : Fid) → live y s.world ≡ owned y s.ctx
    pub later : (y : Fid) → n ≤ rank y → owned y s.ctx ≡ false
    pub option : opt s.ctx Options.cq_shared ≡ shared
    pub one_region : opt s.ctx Options.alloc_mult_mr ≡ false

  abbrev pub SameAfter : State W → Outcome W → Type 0
  SameAfter s (returns r t) = Same s t
  SameAfter s out_of_rounds = Unit {0}
  SameAfter s fault = Unit {0}

  -- An outcome that leaves the state as it was.
  pub record Quiet (s : State W) (x : Outcome W) : Type 0 where
    pub quiet : SameAfter s x

  pub record Calm (m : Step W) : Type 0 where
    pub calm : (s : State W) → Quiet s (m s)

  abbrev pub StageAfter : Bool → ℕ → Outcome W → Type 0
  StageAfter shared n (returns r t) =
      Held t × (opt t.ctx Options.cq_shared ≡ shared) × (is_ok r ≡ true → Stage shared n t)
  StageAfter shared n out_of_rounds = Unit {0}
  StageAfter shared n fault = Unit {0}

  -- An outcome whose fields are true, and that has come to a stage where it is a success.
  pub record Reaches (shared : Bool) (n : ℕ) (x : Outcome W) : Type 0 where
    pub reaches : StageAfter shared n x

  -- From one stage the step leads to another.
  pub record Leads (shared : Bool) (from to : ℕ) (m : Step W) : Type 0 where
    pub leads : (s : State W) → Stage shared from s → Reaches shared to (m s)
