-- ===== src/Opening.antt =====
-- How the resources of a connection are opened: the calls of libfabric that `ft_open_fabric_res`,
-- `ft_alloc_ep_res` and their kin of libefa/src/libefa/ftlib/shared.c make, and these functions.
-- In the children: the transfer buffers, the endpoint, the sockets, the connection of two ends, and
-- what all of them leave open.
pub mod Memory
pub mod Endpoint
pub mod Oob
pub mod Connect
pub mod Address
pub mod Owned
use efa_libfabric_bench.Prelude.{
  ℕ, ◌+◌, ◌%◌, ◌^◌, Bool, true, false, Option, none, some, not, ◌&&◌, ◌||◌, if◌then◌else◌, ◌==◌,
}
use efa_libfabric_bench.Fabric.{Ret, val, fail, Error, is_ok}
use efa_libfabric_bench.Context.{
  Text, Context, Info, EpType, rdm, dgram, CompMethod, spin, sread, waitset, wait_fd, yield, opt,
}
use efa_libfabric_bench.Context.Fids.{
  Fid, CqAttr, AvAttr, WaitObj, wait_none, wait_unspec, wait_set, wait_fd_obj, wait_yield, CqFormat,
  cq_unspec, cq_context, cq_tagged, cq_data, AvType, av_unspec, Objects, holds,
}
use efa_libfabric_bench.Context.Options
use efa_libfabric_bench.Machine.{State, Outcome, returns, fault, Step, ◌>>◌, then_update}
use efa_libfabric_bench.Access.{Access}

-- The calls that open an object, with the arguments that the library computes.
pub data Opening : Type 0 where
  open_fabric open_eq open_domain open_pep open_ep open_mc : Opening
  open_cq : (which : Fid) → CqAttr → Opening
  open_cntr : (which : Fid) → WaitObj → Opening
  open_av : AvAttr → Opening
  open_alias : (flags : ℕ) → Opening
  open_mr : (buf size : ℕ) → Access → (key : ℕ) → Opening

-- The field that takes the object.
abbrev pub opens : Opening → Fid
opens open_fabric = Fid.fabric
opens open_eq = Fid.eq
opens open_domain = Fid.domain
opens open_pep = Fid.pep
opens open_ep = Fid.ep
opens open_mc = Fid.mc
opens (open_cq x a) = x
opens (open_cntr x w) = x
opens (open_av a) = Fid.av
opens (open_alias f) = Fid.alias_ep
opens (open_mr b n a k) = Fid.mr

-- The flags with which an object is bound to an endpoint.
pub record BindFlags : Type 0 where
  pub transmit : Bool
  pub recv : Bool
  pub selective : Bool
  pub send : Bool
  pub read : Bool
  pub write : Bool
  pub remote_read : Bool
  pub remote_write : Bool

-- The calls that change an object: `fi_domain_bind`, `fi_pep_bind`, `fi_ep_bind`, `fi_listen`,
-- `fi_enable`, `fi_accept`, `fi_connect`, `fi_reject`.
pub data Control : Type 0 where
  bind_domain bind_pep listen enable accept connect reject : Control
  bind_ep : (to : Fid) → BindFlags → Control

-- The event of an entry that `fi_eq_sread` gives.
pub data EventKind : Type 0 where
  connreq connected join_complete other_event : EventKind

-- What `fi_eq_sread` gives: what it returns when that is not the size of an entry, or the entry,
-- whether its object is the one that the caller waits for, and its information, `none` for NULL.
pub data Event : Type 0 where
  no_event : Ret → Event
  entry : EventKind → (own : Bool) → (info : Option Info) → Event

pub record Calls (W : Type 0) : Type 0 where
  -- the object that is opened is numbered by `fid`
  pub create : Opening → W → record { ret : Ret; fid : ℕ; next : W }
  pub control : Control → W → record { ret : Ret; next : W }
  -- `fi_control(…, FI_GETWAIT, fd)`
  pub get_wait : Fid → W → record { ret : Ret; fd : ℕ; next : W }
  pub getinfo :
      (node service : Option Text)
      → (source : Bool) → Info
      → W
      → record { ret : Ret; info : Info; next : W }
  pub eq_sread : W → record { event : Event; next : W }
  pub eq_readerr : W → W
  -- `fi_getname` into the memory at an address
  pub getname : ℕ → W → record { ret : Ret; len : ℕ; next : W }
  -- `fi_av_insert` of one address that lies in memory: what it returns, and what `*fi_addr` is then
  pub av_insert : ℕ → W → record { ret : Ret; fi_addr : ℕ; next : W }
  -- `fi_mr_regattr` for a slot of its own
  pub reg_slot : (buf size : ℕ) → Access → (key : ℕ) → W → record { ret : Ret; next : W }
  pub page_size : W → record { ret : Ret; size : ℕ; next : W }
  pub memalign : (alignment size : ℕ) → W → record { ret : Ret; ptr : ℕ; next : W }
  -- `fork`, as the parent sees it
  pub fork : W → record { ret : Ret; next : W }

-- The pointer of an opened object; queues and counters have their numbers too.
abbrev pub set_fid : Fid → ℕ → Context → Context
set_fid Fid.txcq n c = record c { txcq = n; objects = holds Fid.txcq c.objects }
set_fid Fid.rxcq n c = record c { rxcq = n; objects = holds Fid.rxcq c.objects }
set_fid Fid.txcntr n c = record c { txcntr = n; objects = holds Fid.txcntr c.objects }
set_fid Fid.rxcntr n c = record c { rxcntr = n; objects = holds Fid.rxcntr c.objects }
set_fid x n c = record c { objects = holds x c.objects }

abbrev pub with_objects : (Objects → Objects) → Context → Context
with_objects f c = record c { objects = f c.objects }

module _ {W : Type 0} (calls : Calls W) where
  -- A field is written only where the call succeeds.
  unfoldable pub open_object : Opening → Step W
  open_object o s =
      let r = calls.create o s.world in
      if is_ok r.ret
      then returns r.ret (record { ctx = set_fid (opens o) r.fid s.ctx; world = r.next })
      else returns r.ret (record s { world = r.next })

  unfoldable pub change : Control → Step W
  change o s = let r = calls.control o s.world in returns r.ret (record s { world = r.next })

  abbrev pub when : (Context → Bool) → Step W → Step W
  when b m s = if b s.ctx then m s else returns (val 0) s

  abbrev set_cq_wait : WaitObj → Context → Context
  set_cq_wait w = with_objects (λ o. record o { cq_attr = record (o.cq_attr) { wait_obj = w } })

  -- The wait condition is always FI_CQ_COND_NONE. Without a wait set the assertion fails.
  unfoldable pub cq_wait_by : CompMethod → Step W
  cq_wait_by sread s = then_update (set_cq_wait wait_unspec) s
  cq_wait_by waitset s =
      if s.ctx.objects.is_open Fid.waitset then then_update (set_cq_wait wait_set) s else fault
  cq_wait_by wait_fd s = then_update (set_cq_wait wait_fd_obj) s
  cq_wait_by yield s = then_update (set_cq_wait wait_yield) s
  cq_wait_by spin s = then_update (set_cq_wait wait_none) s

  unfoldable pub ft_cq_set_wait_attr : Step W
  ft_cq_set_wait_attr s = cq_wait_by s.ctx.opts.comp_method s

  abbrev set_cntr_wait : WaitObj → Context → Context
  set_cntr_wait w = with_objects (λ o. record o { cntr_wait = w })

  unfoldable pub cntr_set_by : CompMethod → Step W
  cntr_set_by sread s = then_update (set_cntr_wait wait_unspec) s
  cntr_set_by waitset s =
      if s.ctx.objects.is_open Fid.waitset then then_update (set_cntr_wait wait_set) s else fault
  cntr_set_by wait_fd s = then_update (set_cntr_wait wait_fd_obj) s
  cntr_set_by yield s = then_update (set_cntr_wait wait_yield) s
  cntr_set_by spin s = then_update (set_cntr_wait wait_none) s

  unfoldable pub ft_cntr_set_wait_attr : Step W
  ft_cntr_set_wait_attr s = cntr_set_by s.ctx.opts.comp_method s

  unfoldable pub ft_cntr_open : Fid → Step W
  ft_cntr_open x =
      ft_cntr_set_wait_attr >> (λ s. open_object (open_cntr x s.ctx.objects.cntr_wait) s)

  unfoldable pub ft_open_fabric_res : Step W
  ft_open_fabric_res =
      open_object open_fabric
      >> open_object open_eq
      >> open_object open_domain
      >> when (λ c. opt c Options.domain_eq) (change bind_domain)

  -- The size that the options ask for, or that of the provider.
  abbrev pub tx_cq_entries : Context → Info → ℕ
  tx_cq_entries c fi = if c.opts.tx_cq_size == 0 then fi.attr.tx_attr_size else c.opts.tx_cq_size

  abbrev pub rx_cq_entries : Context → Info → ℕ
  rx_cq_entries c fi = if c.opts.rx_cq_size == 0 then fi.attr.rx_attr_size else c.opts.rx_cq_size

  abbrev pub set_cq_size : (Context → ℕ) → Context → Context
  set_cq_size n c = with_objects (λ o. record o { cq_attr = record (o.cq_attr) { size = n c } }) c

  -- The attributes are set, and a queue is opened with them.
  unfoldable pub open_queue : Fid → (Context → ℕ) → Step W
  open_queue x n =
      ft_cq_set_wait_attr
      >> then_update (set_cq_size n)
      >> (λ s. open_object (open_cq x s.ctx.objects.cq_attr) s)

  -- An unspecified format becomes that of the kind of messages.
  abbrev chosen : Info → CqFormat → CqFormat
  chosen fi cq_unspec = if fi.caps.tagged then cq_tagged else cq_context
  chosen fi cq_context = cq_context
  chosen fi cq_tagged = cq_tagged
  chosen fi cq_data = cq_data

  unfoldable pub choose_format : Info → Context → Context
  choose_format fi =
      with_objects
        (λ o. record o { cq_attr = record (o.cq_attr) { format = chosen fi o.cq_attr.format } })

  -- `ctx->rxcq = ctx->txcq`
  abbrev pub share_queue : Context → Context
  share_queue c = set_fid Fid.rxcq c.txcq c

  abbrev pub with_shared : Context → Bool
  with_shared c = opt c Options.cq_shared

  abbrev pub own_queues : Context → Bool
  own_queues c = not (with_shared c)

  abbrev pub unconnected : EpType → Bool
  unconnected rdm = true
  unconnected dgram = true
  unconnected _ = false

  unfoldable pub set_av_attr : Info → Context → Context
  set_av_attr fi c =
      with_objects
        (λ o. record o {
          av_attr = record {
            kind = elim fi.attr.av_type [ av_unspec ↦ o.av_attr.kind | t ↦ t ];
            count = c.opts.av_size;
            name = elim c.opts.av_name [ none ↦ o.av_attr.name | some n ↦ some n ];
          };
        })
        c

  -- The parts of `ft_alloc_ep_res` behind `ft_alloc_msgs`, in their order
  unfoldable pub shared_queue : Info → Step W
  shared_queue fi = when with_shared (
      open_queue Fid.txcq (λ c. (tx_cq_entries c fi + rx_cq_entries c fi) % 2 ^ 64)
      >> then_update share_queue)

  unfoldable pub tx_queue : Info → Step W
  tx_queue fi = when own_queues (open_queue Fid.txcq (λ c. tx_cq_entries c fi))

  unfoldable pub tx_counter : Step W
  tx_counter = when (λ c. opt c Options.tx_cntr) (ft_cntr_open Fid.txcntr)

  unfoldable pub rx_queue : Info → Step W
  rx_queue fi = when own_queues (open_queue Fid.rxcq (λ c. rx_cq_entries c fi))

  unfoldable pub rx_counter : Step W
  rx_counter = when (λ c. opt c Options.rx_cntr) (ft_cntr_open Fid.rxcntr)

  unfoldable pub address_vector : Info → Step W
  address_vector fi =
      when (λ c. unconnected fi.ep_type)
        (then_update (set_av_attr fi) >> (λ s. open_object (open_av s.ctx.objects.av_attr) s))

  unfoldable pub set_format : Info → Step W
  set_format fi = then_update (choose_format fi)

  unfoldable pub alloc_queues : Info → Step W
  alloc_queues fi =
      set_format fi
      >> (shared_queue fi >> tx_queue fi)
      >> tx_counter
      >> rx_queue fi
      >> rx_counter
      >> address_vector fi
