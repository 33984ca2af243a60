-- ===== src/Opening/Connect.antt =====
-- The way to a connection (libefa/src/libefa/ftlib/shared.c and shared.h): what is asked of
-- `fi_getinfo`, `ft_start_server`, `ft_server_connect`, `ft_client_connect`, `ft_init_fabric_cm` and
-- their parts.
use efa_libfabric_bench.Prelude.{
  ℕ, zero, suc, ◌+◌, Bool, true, false, Option, none, some, [], ◌∷◌, not, ◌&&◌, ◌||◌, ◌==◌,
  if◌then◌else◌,
}
use efa_libfabric_bench.Fabric.{val, fail, eother, enodata, errno, Fabric, is_ok}
use efa_libfabric_bench.Context.{Context, Text, Info, Opts, ep_unspec, msg, rdm, dgram, opt}
use efa_libfabric_bench.Context.Options
use efa_libfabric_bench.Machine.{State, Outcome, returns, fault, Step, ◌>>◌, then_update}
use efa_libfabric_bench.Opening.{
  open_fabric, open_eq, open_domain, open_pep, bind_domain, bind_pep, listen, accept, connect,
  reject, Calls, EventKind, connreq, connected, no_event, entry, open_object, change, when,
  with_objects, ft_open_fabric_res,
}
use efa_libfabric_bench.Opening.Memory.{ft_init, ft_alloc_active_res}
use efa_libfabric_bench.Opening.Endpoint.{process_eq_err, await_event, ft_enable_ep_recv}
use efa_libfabric_bench.Opening.Oob.{Net, ft_init_oob}

-- "9228"
abbrev default_port : Text
default_port = 57 ∷ 50 ∷ 50 ∷ 56 ∷ []

abbrev pub given : Option Text → Bool
given none = false
given (some t) = true

abbrev pub or_default : Option Text → Option Text
or_default none = some default_port
or_default (some p) = some p

abbrev pub set_hints : (Info → Info) → Context → Context
set_hints f c = record c { hints = f c.hints }

abbrev pub set_opts : (Opts → Opts) → Context → Context
set_opts f c = record c { opts = f c.opts }

-- Where an address goes: FI_SOURCE or not.
abbrev pub set_addr : (source : Bool) → (addr len : ℕ) → Info → Info
set_addr true a n i = record i { attr = record (i.attr) { src_addr = a; src_addrlen = n } }
set_addr false a n i = record i { attr = record (i.attr) { dest_addr = a; dest_addrlen = n } }

abbrev pub addr_of : (source : Bool) → Info → ℕ
addr_of true i = i.attr.src_addr
addr_of false i = i.attr.dest_addr

abbrev pub addrlen_of : (source : Bool) → Info → ℕ
addrlen_of true i = i.attr.src_addrlen
addrlen_of false i = i.attr.dest_addrlen

abbrev pub set_addr_only : (source : Bool) → ℕ → Info → Info
set_addr_only true a i = record i { attr = record (i.attr) { src_addr = a } }
set_addr_only false a i = record i { attr = record (i.attr) { dest_addr = a } }

-- `ctx->opts.dst_addr && (ctx->opts.src_addr || !ctx->opts.oob_port)`
unfoldable pub names_peer : Opts → Bool
names_peer o = given o.dst_addr && (given o.src_addr || not (given o.oob_port))

-- The hints that `ft_getinfo` gives: an endpoint type, and memory of devices where it is asked for.
unfoldable pub complete_hints : Context → Context
complete_hints c =
    let typed : Info = record (c.hints) {
      ep_type = elim c.hints.ep_type [ ep_unspec ↦ rdm | msg ↦ msg | rdm ↦ rdm | dgram ↦ dgram ];
    } in
    record c {
      hints =
          if opt c Options.enable_hmem
          then record typed { mr_hmem = true; attr = record (typed.attr) { hmem = true } }
          else typed;
    }

unfoldable pub ft_check_prefix_forced : Info → Opts → Bool
ft_check_prefix_forced info o = if o.force_prefix then info.tx_prefix && info.rx_prefix else true

-- `ctx->fi`
abbrev pub set_fi : Info → Context → Context
set_fi i c = with_objects (λ o. record o { has_fi = true }) (record c { fi = i })

-- `ctx->fi = NULL`
abbrev pub drop_fi : Context → Context
drop_fi = with_objects (λ o. record o { has_fi = false })

-- `ctx->fi_pep`, which is only handed to libfabric
abbrev pub set_fi_pep : Info → Context → Context
set_fi_pep i c = c

abbrev pub is_connected : EventKind → Bool
is_connected connected = true
is_connected _ = false

abbrev pub is_connreq : EventKind → Bool
is_connreq connreq = true
is_connreq _ = false

module _ {W : Type 0} (fab : Fabric W) (calls : Calls W) where
  -- `memcpy`
  unfoldable pub copy_bytes : (len dst src : ℕ) → W → W
  copy_bytes zero dst src w = w
  copy_bytes (suc len) dst src w =
      copy_bytes len (dst + 1) (src + 1) (fab.store dst (fab.load src w) w)

  -- An address of `fi` is copied into the hints. EAI_MEMORY is -10.
  unfoldable pub dupaddr : (source : Bool) → Info → Step W
  dupaddr source fi s =
      let n = addrlen_of source fi in
      let m = fab.malloc n s.world in
      if m.ptr == 0
      then returns (fail (errno 10))
          (record { ctx = set_hints (set_addr_only source 0) s.ctx; world = m.next })
      else returns (val 0) (record {
        ctx = set_hints (set_addr source m.ptr n) s.ctx;
        world = copy_bytes n m.ptr (addr_of source fi) m.next;
      })

  unfoldable pub getaddr : (node service : Option Text) → (source : Bool) → Step W
  getaddr node service source s =
      let r = calls.getinfo node service source s.ctx.hints s.world in
      if not (given node) && not (given service)
      then returns (val 0) (record s { ctx = set_hints (set_addr source 0 0) s.ctx })
      else if not (is_ok r.ret)
      then returns r.ret (record s { world = r.next })
      else dupaddr source r.info (record s { world = r.next })

  unfoldable pub ft_getsrcaddr : (node service : Option Text) → Step W
  ft_getsrcaddr node service = getaddr node service true

  -- What follows `ft_read_addr_opts` gets the node, the service and whether they are the source.
  unfoldable pub ft_read_addr_opts :
      ((node service : Option Text) → (source : Bool) → Step W) → Step W
  ft_read_addr_opts k s =
      if names_peer s.ctx.opts
      then (then_update (set_opts (λ o. record o { dst_port = or_default o.dst_port }))
            >> (λ t. ft_getsrcaddr t.ctx.opts.src_addr t.ctx.opts.src_port t)
            >> (λ t. k t.ctx.opts.dst_addr t.ctx.opts.dst_port false t))
          s
      else (then_update (set_opts (λ o. record o { src_port = or_default o.src_port }))
            >> (λ t. k t.ctx.opts.src_addr t.ctx.opts.src_port true t))
          s

  -- `ft_getinfo`, whose result goes where `assign` puts it.
  unfoldable pub ask_info :
      (assign : Info → Context → Context) → (node service : Option Text) → (source : Bool) → Step W
  ask_info assign node service source s =
      let c = complete_hints s.ctx in
      let r = calls.getinfo node service source c.hints s.world in
      if not (is_ok r.ret)
      then returns r.ret (record { ctx = c; world = r.next })
      else returns (if ft_check_prefix_forced r.info c.opts then val 0 else fail enodata)
          (record { ctx = assign r.info c; world = r.next })

  unfoldable pub ft_getinfo : (assign : Info → Context → Context) → Step W
  ft_getinfo assign = ft_read_addr_opts (ask_info assign)

  unfoldable pub ft_complete_connect : Step W
  ft_complete_connect = await_event calls is_connected

  -- The information of the entry is taken whatever the event is. A request without it is read
  -- through NULL by the caller.
  unfoldable pub take_request : EventKind → Option Info → Step W
  take_request kind none s =
      if is_connreq kind then fault else returns (fail eother) (record s { ctx = drop_fi s.ctx })
  take_request kind (some i) s =
      returns (if is_connreq kind then val 0 else fail eother) (record s { ctx = set_fi i s.ctx })

  unfoldable pub ft_retrieve_conn_req : Step W
  ft_retrieve_conn_req s =
      let e = calls.eq_sread s.world in
      let t : State W = record s { world = e.next } in
      elim e.event [
        | no_event rd ↦ process_eq_err calls rd t
        | entry kind own info ↦ take_request kind info t
      ]

  unfoldable pub ft_accept_connection : Step W
  ft_accept_connection = change calls accept >> ft_complete_connect

  unfoldable pub ft_connect_ep : Step W
  ft_connect_ep = change calls connect >> ft_complete_connect

  -- `ft_fork_child` as the parent sees it, whose result is not used: the child ends at once.
  unfoldable pub fork_if_asked : Step W
  fork_if_asked =
      when calls (λ c. opt c Options.fork_child)
        (λ s. returns (val 0) (record s { world = (calls.fork s.world).next }))

module _ {W : Type 0} (fab : Fabric W) (rounds : ℕ) (calls : Calls W) (net : Net W) where
  unfoldable pub ft_start_server : Step W
  ft_start_server =
      ft_init fab
      >> ft_init_oob net
      >> ft_getinfo fab calls set_fi_pep
      >> open_object calls open_fabric
      >> open_object calls open_eq
      >> open_object calls open_pep
      >> change calls bind_pep
      >> change calls listen

  -- A request that failed is rejected where its information is known.
  unfoldable pub or_reject : Step W → Step W
  or_reject m s = elim (m s) [
    | returns r t ↦
        if is_ok r
        then returns r t
        else if t.ctx.objects.has_fi
        then returns r (record t { world = (calls.control reject t.world).next })
        else returns r t
    | Outcome.out_of_rounds ↦ Outcome.out_of_rounds
    | fault ↦ fault
  ]

  -- A failure of `fi_domain_bind` is not followed by a rejection.
  unfoldable pub ft_server_connect : Step W
  ft_server_connect =
      or_reject (ft_retrieve_conn_req fab calls >> open_object calls open_domain)
      >> when calls (λ c. opt c Options.domain_eq) (change calls bind_domain)
      >> or_reject (
          (λ s. ft_alloc_active_res fab calls s.ctx.fi s)
          >> ft_enable_ep_recv fab rounds calls
          >> ft_accept_connection fab calls)
      >> fork_if_asked fab calls

  unfoldable pub ft_client_connect : Step W
  ft_client_connect =
      ft_init fab
      >> ft_init_oob net
      >> ft_getinfo fab calls set_fi
      >> ft_open_fabric_res calls
      >> (λ s. ft_alloc_active_res fab calls s.ctx.fi s)
      >> ft_enable_ep_recv fab rounds calls
      >> ft_connect_ep fab calls
      >> fork_if_asked fab calls

  unfoldable pub ft_init_fabric_cm : Step W
  ft_init_fabric_cm s =
      if given s.ctx.opts.dst_addr
      then ft_client_connect s
      else (ft_start_server >> ft_server_connect) s
